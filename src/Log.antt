-- ===== src/Log.antt =====
-- The write-ahead log of xv6-public/log.c over a disk that may lose power between two block writes.
pub mod Disk
pub mod Ops
pub mod Writes
pub mod Head
pub mod Crash
pub mod Recovery
pub mod Transaction
pub mod Reservation
mod Tests
