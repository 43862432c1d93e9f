-- ===== src/Mm/Fault.antt =====
-- `handle_pagefault`.
use mathlib.Core.List.{List, [], ◌∷◌}
use cs537_project.Prelude.{
  ℕ, ◌+◌, ◌*◌, ◌≤◌, ◌<◌, ◌≡◌, ◌≢◌, ◌⊎◌, true, Option, none, some, has_flag, v2p,
}
use cs537_project.Kalloc.{Kmem}
use cs537_project.Kalloc.Chain.{IsPage, IsFree, Chain}
use cs537_project.Vm.{Mapped, mapped, full, remap, spins, pte_wu}
use cs537_project.Vm.Map.{MapsTo}
use cs537_project.Wmap.Types.{Mapping, slot, map_anonymous}
use cs537_project.Mm.{Image, count_page}

abbrev pub LiesIn : Mapping → ℕ → Type 0
LiesIn m addr = (m.addr ≤ addr) × (addr < m.addr + m.len)

-- No page has been taken from the free ones, or the first.
abbrev pub TakenFrom : List ℕ → List ℕ → Type 0
TakenFrom rest left = (left ≡ rest) ⊎ ((t : ℕ) × (rest ≡ t ∷ left))

-- How the fault at a page of the mapping in slot `i` ends: 0 without a free page, and nothing has changed;
-- 0 without a page for a page table, where no page is mapped but the page has been counted; or 1, and the
-- first page of the free list `pages` is mapped there and no other page, all zeros for an anonymous mapping;
-- it is free no longer, and the others still are, but for one that may have become a page table.
abbrev pub Faulted : ℕ → Image → ℕ → ℕ → List ℕ → Option (ℕ × Image) → Type 0
Faulted kernel_end s i addr pages none = ⊥
Faulted kernel_end s i addr pages (some (r, s')) =
    ((pages ≡ []) × (r ≡ 0) × (s' ≡ s))
    ⊎ (((r ≡ 0) × (s'.maps ≡ count_page s.maps i) × MapsTo s.pgdir s'.pgdir addr 0 pte_wu 0)
        ⊎ ((r ≡ 1)
            × (s'.maps ≡ count_page s.maps i)
            × ((mem : ℕ) × (rest : List ℕ) × (pages ≡ mem ∷ rest)
                × ((left : List ℕ) × IsFree kernel_end s'.kmem left × TakenFrom rest left)
                × MapsTo s.pgdir s'.pgdir addr (v2p mem) pte_wu 1
                × (has_flag (slot s.maps.mappings i).flags map_anonymous ≡ true
                    → (j : ℕ) → j < 1024
                    → s'.kmem.mem (mem + 4 * j) ≡ 0))))

-- A change of the memory that leaves the other pages behind the kernel, and the free list, as they are.
abbrev pub KeepsPages : ℕ → ℕ → Kmem → Kmem → Type 0
KeepsPages kernel_end mem k k' =
    (k'.freelist ≡ k.freelist) × ((p : ℕ) → IsPage kernel_end p → p ≢ mem → k'.mem p ≡ k.mem p)

kmem_of : Kmem → Mapped → Kmem
kmem_of k0 (mapped d k) = k
kmem_of k0 (full d k) = k
kmem_of k0 remap = k0
kmem_of k0 spins = k0
