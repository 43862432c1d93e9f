-- ===== src/Kalloc.antt =====
-- The physical page allocator: xv6-public/kalloc.c, with the part of `memset` of string.c that fills
-- a page. The memory is seen as its 32-bit words; the lock is left out.
pub mod Chain
pub mod Laws
pub mod Range
pub mod History
mod Tests
use cs537_project.Prelude.{
  ℕ, zero, suc, ◌+◌, ◌/◌, ◌%◌, Bool, true, false, not, ◌||◌, Option, none, some, ltb, leb, ◌==◌,
  if◌then◌else◌, update, add32, pgsize, phystop, pg_round_up, v2p,
}

-- `kmem`, and the memory that its pages lie in: a `struct run` is the first word of a free page.
pub record Kmem : Type 0 where
  pub mem : ℕ → ℕ
  pub use_lock : Bool
  pub freelist : ℕ

-- The words that `stosl` stores.
unfoldable pub stosl : (ℕ → ℕ) → ℕ → ℕ → ℕ → ℕ → ℕ
stosl mem addr fill zero = mem
stosl mem addr fill (suc cnt) = stosl (update mem addr fill) (addr + 4) fill cnt

-- `memset(v, 1, PGSIZE)` of a page: the branch of whole words.
abbrev pub fill_page : (ℕ → ℕ) → ℕ → ℕ → ℕ
fill_page mem v = stosl mem v 0x0101_0101 1024

-- The test at the head of `kfree`. `kernel_end` is the linker's symbol `end`.
abbrev pub is_bad : ℕ → ℕ → Bool
is_bad kernel_end v = not (v % pgsize == 0) || ltb v kernel_end || leb phystop (v2p v)

-- `kfree`; `none` is the panic.
unfoldable pub kfree : ℕ → ℕ → Kmem → Option Kmem
kfree kernel_end v k =
    if is_bad kernel_end v
    then none
    else some (record k { mem = update (fill_page k.mem v) v k.freelist; freelist = v })

-- `kalloc`: the page, or 0.
unfoldable pub kalloc : Kmem → ℕ × Kmem
kalloc k = let r = k.freelist in if r == 0 then (r, k) else (r, record k { freelist = k.mem r })

-- The loop of `freerange` from `p` on, with the rounds bounded by the first argument.
unfoldable pub range_from : ℕ → ℕ → ℕ → ℕ → Kmem → Option Kmem
range_from zero kernel_end vend p k = none
range_from (suc r) kernel_end vend p k = elim (leb (add32 p pgsize) vend) [
  | true ↦ elim (kfree kernel_end p k) [
    | none ↦ none
    | some k' ↦ range_from r kernel_end vend (add32 p pgsize) k'
  ]
  | false ↦ some k
]

-- `freerange`. A page lies below `vend` in each round, so `vend / PGSIZE` rounds and one more do.
unfoldable pub freerange : ℕ → ℕ → ℕ → Kmem → Option Kmem
freerange kernel_end vstart vend k =
    range_from (vend / pgsize + 1) kernel_end vend (pg_round_up vstart) k

-- `kinit1`.
unfoldable pub kinit1 : ℕ → ℕ → ℕ → Kmem → Option Kmem
kinit1 kernel_end vstart vend k = freerange kernel_end vstart vend (record k { use_lock = false })

-- `kinit2`.
unfoldable pub kinit2 : ℕ → ℕ → ℕ → Kmem → Option Kmem
kinit2 kernel_end vstart vend k = elim (freerange kernel_end vstart vend k) [
  | none ↦ none
  | some k' ↦ some (record k' { use_lock = true })
]
