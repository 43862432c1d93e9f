-- ===== src/Vm.antt =====
-- Page tables: xv6-public/vm.c. A page directory is held as a tree, the directory with its tables, each
-- with the page that it lies in; what is in these pages is not in the memory of Kalloc, which gives and
-- takes the pages. A 32-bit entry is a number: `pa | perm | PTE_P` of a page-aligned `pa` is a sum.
pub mod Walk
pub mod Map
pub mod Dealloc
pub mod Roundtrip
pub mod Guard
mod Tests
use cs537_project.Prelude.{
  ℕ, zero, suc, ◌+◌, ◌-◌, ◌*◌, ◌/◌, ◌%◌, ◌^◌, List, [], ◌∷◌, Bool, true, false, not, ◌&&◌, ◌||◌,
  Option, none, some, ltb, leb, ◌==◌, if◌then◌else◌, add32, sub32, update, pgsize, kernbase,
  phystop, pg_round_down, pg_round_up, v2p,
}
use cs537_project.Kalloc.{Kmem, kalloc, kfree, fill_page, stosl}
use cs537_project.Proc.{copy_words}
use cs537_project.Strings.{memmove}

abbrev pub pdx : ℕ → ℕ
pdx va = va / 0x40_0000

abbrev pub ptx : ℕ → ℕ
ptx va = va / 4096 % 1024

-- PGADDR(d, 0, 0)
abbrev pub pgaddr : ℕ → ℕ
pgaddr d = d * 0x40_0000 % 2 ^ 32

abbrev pub pte_addr : ℕ → ℕ
pte_addr pte = pte / 4096 * 4096

abbrev pub pte_flags : ℕ → ℕ
pte_flags pte = pte % 4096

-- PTE_P, PTE_W and PTE_U are 1, 2 and 4.
abbrev pub is_present : ℕ → Bool
is_present pte = pte % 2 == 1

abbrev pub is_user : ℕ → Bool
is_user pte = pte / 4 % 2 == 1

abbrev pub pte_w : ℕ
pte_w = 2

abbrev pub pte_wu : ℕ
pte_wu = 6

-- `pa | perm | PTE_P`
abbrev pub make_pte : ℕ → ℕ → ℕ
make_pte pa perm = pa + perm + (1 - perm % 2)

abbrev pub extmem : ℕ
extmem = 0x10_0000

abbrev pub kernlink : ℕ
kernlink = kernbase + extmem

abbrev pub devspace : ℕ
devspace = 0xFE00_0000

-- P2V of memlayout.h.
abbrev pub p2v : ℕ → ℕ
p2v a = add32 a kernbase

-- A page table and its page.
pub record Table : Type 0 where
  pub page : ℕ
  pub entry : ℕ → ℕ

pub record Pgdir : Type 0 where
  pub page : ℕ
  pub table : ℕ → Option Table

-- `walkpgdir(pgdir, va, 0)`, read: the entry, or none where there is no table.
unfoldable pub walk : Pgdir → ℕ → Option ℕ
walk d va = elim (d.table (pdx va)) [ none ↦ none | some t ↦ some (t.entry (ptx va)) ]

-- `walkpgdir(pgdir, va, 1)`: whether there is a table now.
unfoldable pub walk_alloc : Pgdir → Kmem → ℕ → Bool × Pgdir × Kmem
walk_alloc d k va = elim (d.table (pdx va)) [
  | some t ↦ (true, d, k)
  | none ↦
      let (page, k') = kalloc k in
      if page == 0 then (false, d, k') else (
        true,
        record d {
          table = update d.table (pdx va) (some (record { page = page; entry = λ i. 0 }));
        },
        k',
      )
]

-- `*pte = x` for the entry that `walkpgdir` has found.
unfoldable pub set_pte : Pgdir → ℕ → ℕ → Pgdir
set_pte d va x = elim (d.table (pdx va)) [
  | none ↦ d
  | some t ↦ record d {
    table = update d.table (pdx va) (some (record t { entry = update t.entry (ptx va) x }));
  }
]

-- How `mappages` ends: it returns 0 or -1, it panics, or it has not ended within the rounds.
pub data Mapped : Type 0 where
  mapped : Pgdir → Kmem → Mapped
  full : Pgdir → Kmem → Mapped
  remap : Mapped
  spins : Mapped

-- `*pte & PTE_P` of the entry read.
abbrev pub has_page : Option ℕ → Bool
has_page none = false
has_page (some pte) = is_present pte

-- The loop of `mappages`, with the rounds bounded by the first argument.
unfoldable pub map_from : ℕ → Pgdir → Kmem → ℕ → ℕ → ℕ → ℕ → Mapped
map_from zero d k a last pa perm = spins
map_from (suc r) d k a last pa perm =
    let (ok, d', k') = walk_alloc d k a in
    let d'' = set_pte d' a (make_pte pa perm) in
    elim ok [
      | false ↦ full d' k'
      | true ↦ elim (has_page (walk d' a)) [
        | true ↦ remap
        | false ↦ elim (a == last) [
          | true ↦ mapped d'' k'
          | false ↦ map_from r d'' k' (add32 a pgsize) last (add32 pa pgsize) perm
        ]
      ]
    ]

-- `mappages`. There are as many rounds as pages.
unfoldable pub mappages : Pgdir → Kmem → ℕ → ℕ → ℕ → ℕ → Mapped
mappages d k va size pa perm =
    let a = pg_round_down va in
    let last = pg_round_down (sub32 (add32 va size) 1) in
    map_from (sub32 last a / pgsize + 1) d k a last pa perm

-- `struct kmap`, and the array `kmap`. `data` is a symbol of the linker.
pub record Kmap : Type 0 where
  pub virt : ℕ
  pub phys_start : ℕ
  pub phys_end : ℕ
  pub perm : ℕ

abbrev pub kmap : ℕ → List Kmap
kmap data_start =
    record { virt = kernbase; phys_start = 0; phys_end = extmem; perm = pte_w }
    ∷ record { virt = kernlink; phys_start = v2p kernlink; phys_end = v2p data_start; perm = 0 }
    ∷ record { virt = data_start; phys_start = v2p data_start; phys_end = phystop; perm = pte_w }
    ∷ record { virt = devspace; phys_start = devspace; phys_end = 0; perm = pte_w }
    ∷ []

-- How a function ends that makes a page table: with it, or with 0.
pub data Made : Type 0 where
  made : Pgdir → Kmem → Made
  not_made : Kmem → Made

-- `memset(mem, 0, PGSIZE)`
abbrev pub zero_page : Kmem → ℕ → Kmem
zero_page k mem = record k { mem = stosl k.mem mem 0 1024 }

-- `memmove` of a page, of whole words.
abbrev pub copy_page : Kmem → ℕ → ℕ → Kmem
copy_page k dst src = record k { mem = copy_words k.mem dst src 1024 }

-- The loop of `deallocuvm` from `a` on, with the rounds bounded by the first argument; `none` is a panic.
module _ (kernel_end : ℕ) where
  unfoldable pub dealloc_from : ℕ → Pgdir → Kmem → ℕ → ℕ → Option (Pgdir × Kmem)
  dealloc_from zero d k a oldsz = some (d, k)
  dealloc_from (suc r) d k a oldsz = elim (ltb a oldsz) [
    | false ↦ some (d, k)
    | true ↦ elim (walk d a) [
      | none ↦ dealloc_from r d k (add32 (sub32 (pgaddr (pdx a + 1)) pgsize) pgsize) oldsz
      | some pte ↦ elim (is_present pte) [
        | false ↦ dealloc_from r d k (add32 a pgsize) oldsz
        | true ↦ elim (pte_addr pte == 0) [
          | true ↦ none
          | false ↦ elim (kfree kernel_end (p2v (pte_addr pte)) k) [
            | none ↦ none
            | some k' ↦ dealloc_from r (set_pte d a 0) k' (add32 a pgsize) oldsz
          ]
        ]
      ]
    ]
  ]

  -- `deallocuvm`. Each round goes up by a page at least.
  unfoldable pub deallocuvm : Pgdir → Kmem → ℕ → ℕ → Option (ℕ × Pgdir × Kmem)
  deallocuvm d k oldsz newsz =
      if leb oldsz newsz
      then some (oldsz, d, k)
      else (elim (dealloc_from (oldsz / pgsize + 1) d k (pg_round_up newsz) oldsz) [
        | none ↦ none
        | some (d', k') ↦ some (newsz, d', k')
      ])

  -- The way out of `allocuvm` when the memory is short; the page in hand is given back if there is one.
  unfoldable pub give_up : Pgdir → Kmem → ℕ → ℕ → ℕ → Option (ℕ × Pgdir × Kmem)
  give_up d k oldsz newsz mem = elim (deallocuvm d k newsz oldsz) [
    | none ↦ none
    | some (sz, d', k') ↦ elim (mem == 0) [
      | true ↦ some (0, d', k')
      | false ↦ elim (kfree kernel_end mem k') [ none ↦ none | some k'' ↦ some (0, d', k'') ]
    ]
  ]

  -- The loop of `allocuvm` from `a` on, with the rounds bounded by the first argument.
  unfoldable pub alloc_from : ℕ → Pgdir → Kmem → ℕ → ℕ → ℕ → Option (ℕ × Pgdir × Kmem)
  alloc_from zero d k a oldsz newsz = some (newsz, d, k)
  alloc_from (suc r) d k a oldsz newsz = elim (ltb a newsz) [
    | false ↦ some (newsz, d, k)
    | true ↦
        let (mem, k') = kalloc k in
        elim (mem == 0) [
          | true ↦ give_up d k' oldsz newsz 0
          | false ↦ elim (mappages d (zero_page k' mem) a pgsize (v2p mem) pte_wu) [
            | mapped d' k'' ↦ alloc_from r d' k'' (add32 a pgsize) oldsz newsz
            | full d' k'' ↦ give_up d' k'' oldsz newsz mem
            | remap ↦ none
            | spins ↦ none
          ]
        ]
  ]

  -- `allocuvm`.
  unfoldable pub allocuvm : Pgdir → Kmem → ℕ → ℕ → Option (ℕ × Pgdir × Kmem)
  allocuvm d k oldsz newsz =
      if leb kernbase newsz
      then some (0, d, k)
      else if ltb newsz oldsz
      then some (oldsz, d, k)
      else alloc_from (newsz / pgsize + 1) d k (pg_round_up oldsz) oldsz newsz

  -- The loop of `freevm` over the directory from entry `i` on.
  unfoldable pub free_tables : Pgdir → ℕ → ℕ → Kmem → Option Kmem
  free_tables d zero i k = some k
  free_tables d (suc r) i k = elim (d.table i) [
    | none ↦ free_tables d r (i + 1) k
    | some t ↦ elim (kfree kernel_end t.page k) [
      | none ↦ none
      | some k' ↦ free_tables d r (i + 1) k'
    ]
  ]

  -- `freevm`. A directory is not null.
  unfoldable pub freevm : Pgdir → Kmem → Option Kmem
  freevm d k = if d.page == 0 then none else (elim (deallocuvm d k kernbase 0) [
    | none ↦ none
    | some (sz, d', k') ↦ elim (free_tables d' 1024 0 k') [
      | none ↦ none
      | some k'' ↦ kfree kernel_end d'.page k''
    ]
  ])

  abbrev pub undo : Pgdir → Kmem → Option Made
  undo d k = elim (freevm d k) [ none ↦ none | some k' ↦ some (not_made k') ]

  -- The loop of `setupkvm` over the rest of `kmap`; `none` is a panic.
  unfoldable pub map_kernel : Pgdir → Kmem → List Kmap → Option Made
  map_kernel d k [] = some (made d k)
  map_kernel d k (m ∷ ms) =
      elim (mappages d k m.virt (sub32 m.phys_end m.phys_start) m.phys_start m.perm) [
        | mapped d' k' ↦ map_kernel d' k' ms
        | full d' k' ↦ undo d' k'
        | remap ↦ none
        | spins ↦ none
      ]

  -- `setupkvm`. The test of PHYSTOP against DEVSPACE is on constants and passes.
  unfoldable pub setupkvm : ℕ → Kmem → Option Made
  setupkvm data_start k =
      let (page, k') = kalloc k in
      if page == 0
      then some (not_made k')
      else map_kernel (record { page = page; table = λ i. none }) k' (kmap data_start)

  -- The loop of `copyuvm` from `i` on, with the rounds bounded by the first argument: `p` is copied
  -- to `d`. `none` is a panic.
  unfoldable pub copy_from : ℕ → Pgdir → Pgdir → Kmem → ℕ → ℕ → Option Made
  copy_from zero p d k i sz = some (made d k)
  copy_from (suc r) p d k i sz = elim (ltb i sz) [
    | false ↦ some (made d k)
    | true ↦ elim (walk p i) [
      | none ↦ none
      | some pte ↦ elim (is_present pte) [
        | false ↦ none
        | true ↦
            let (mem, k') = kalloc k in
            elim (mem == 0) [
              | true ↦ undo d k'
              | false ↦
                  elim (mappages d (copy_page k' mem (p2v (pte_addr pte))) i pgsize (v2p mem)
                    (pte_flags pte)) [
                      | mapped d' k'' ↦ copy_from r p d' k'' (add32 i pgsize) sz
                      | full d' k'' ↦ elim (kfree kernel_end mem k'') [
                        | none ↦ none
                        | some freed ↦ undo d' freed
                      ]
                      | remap ↦ none
                      | spins ↦ none
                    ]
            ]
      ]
    ]
  ]

  -- `copyuvm`.
  unfoldable pub copyuvm : ℕ → Pgdir → Kmem → ℕ → Option Made
  copyuvm data_start p k sz = elim (setupkvm data_start k) [
    | none ↦ none
    | some m ↦ elim m [
      | not_made k' ↦ some (not_made k')
      | made d k' ↦ copy_from (sz / pgsize + 1) p d k' 0 sz
    ]
  ]

-- `clearpteu`: `*pte &= ~PTE_U`; `none` is the panic.
unfoldable pub clearpteu : Pgdir → ℕ → Option Pgdir
clearpteu d uva = elim (walk d uva) [
  | none ↦ none
  | some pte ↦ some (set_pte d uva (if is_user pte then pte - 4 else pte))
]

-- `uva2ka`: the address, or 0. `none`: without a table the code reads through a null pointer.
unfoldable pub uva2ka : Pgdir → ℕ → Option ℕ
uva2ka d uva = elim (walk d uva) [
  | none ↦ none
  | some pte ↦
      some (if not (is_present pte) then 0 else if not (is_user pte) then 0 else p2v (pte_addr pte))
]

-- The loop of `copyout` from a buffer at `buf` to `va`, on the memory of bytes, with the rounds bounded
-- by the first argument: whether all has been copied. `none`: `uva2ka` reads through a null pointer.
unfoldable pub copyout_from : ℕ → Pgdir → (ℕ → ℕ) → ℕ → ℕ → ℕ → Option (Bool × (ℕ → ℕ))
copyout_from zero d mem va buf len = some (true, mem)
copyout_from (suc r) d mem va buf len = elim (len == 0) [
  | true ↦ some (true, mem)
  | false ↦
      let va0 = pg_round_down va in
      elim (uva2ka d va0) [
        | none ↦ none
        | some pa0 ↦ elim (pa0 == 0) [
          | true ↦ some (false, mem)
          | false ↦
              let room = pgsize - (va - va0) in
              let n = if ltb len room then len else room in
              copyout_from r d (memmove mem (add32 pa0 (va - va0)) buf n) (add32 va0 pgsize)
                (add32 buf n) (len - n)
        ]
      ]
]

-- `copyout`. Each round but the first and the last copies a page.
unfoldable pub copyout : Pgdir → (ℕ → ℕ) → ℕ → ℕ → ℕ → Option (Bool × (ℕ → ℕ))
copyout d mem va p len = copyout_from (len / pgsize + 2) d mem va p len
