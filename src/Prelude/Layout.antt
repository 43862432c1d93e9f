-- ===== src/Prelude/Layout.antt =====
-- Pages and the address space: mmu.h and memlayout.h.
use Prim.Native.Nat.{ℕ, ◌*◌, ◌/◌}
use cs537_project.Prelude.Word.{add32, sub32}

abbrev pub pgsize : ℕ
pgsize = 4096

abbrev pub kernbase : ℕ
kernbase = 0x8000_0000

abbrev pub phystop : ℕ
phystop = 0xE00_0000

-- PGROUNDUP and PGROUNDDOWN on a `uint`: `& ~(PGSIZE-1)` clears the low twelve bits.
abbrev pub pg_round_down : ℕ → ℕ
pg_round_down a = a / 4096 * 4096

abbrev pub pg_round_up : ℕ → ℕ
pg_round_up a = pg_round_down (add32 a 4095)

-- V2P of memlayout.h.
abbrev pub v2p : ℕ → ℕ
v2p a = sub32 a kernbase
