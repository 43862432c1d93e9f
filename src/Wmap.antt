-- ===== src/Wmap.antt =====
-- Memory mappings: xv6-public/wmap.c and wmap.h, with the fields of `struct proc` that they use.
pub mod Types
pub mod Sort
pub mod Place
pub mod Invariant
pub mod Alloc
pub mod Unmap
pub mod Tests
