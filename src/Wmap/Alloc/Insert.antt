-- ===== src/Wmap/Alloc/Insert.antt =====
-- Making the mapping keeps the mappings valid, and adds one entry to them.
use mathlib.Core.List.{Perm, append-nil, perm_middle}
use mathlib.Core.List.Perm
use native.Mathlib.Numerals.{add-one}
use cs537_project.Prelude.{
  ℕ, ◌+◌, ◌%◌, ◌^◌, ◌≤◌, ◌<◌, ◌≡◌, ◌≢◌, inl, inr, List, [], ◌∷◌, ◌++◌, arith, ◌∙◌, length,
  length-set, take, take-set, set, get_or-set_self, get_or-set_ne, dec_lt, ℕ_discrete,
}
use cs537_project.Wmap.Types.{Mapping, Maps, slot, blank, max_wmmap_info, kernbase, wmap_base}
use cs537_project.Wmap.Invariant.{InRange, Disjoint, IsValid}
use cs537_project.Wmap.Sort.{selection_sort}
use cs537_project.Wmap.Sort.Step.{Reorders}
use cs537_project.Wmap.Sort.Laws.{
  selection_sort-sorted, selection_sort-perm, selection_sort-Reorders, length-selection_sort,
}
use cs537_project.Wmap.Place.Laws.{Apart}
use cs537_project.Wmap.Alloc.{make_mapping}

-- The mappings that are in use.
abbrev pub live : Maps → List Mapping
live p = take p.num_mappings p.mappings

-- Slots in any order that are in range and disjoint are valid once they are sorted.
pub sorted-IsValid :
    (arr : List Mapping) (n : ℕ)
    → length arr ≡ max_wmmap_info
    → n ≤ max_wmmap_info
    → ((a : ℕ) → a < n → InRange (slot arr a))
    → ((a b : ℕ) → a < n → b < n → a ≢ b → Disjoint (slot arr a) (slot arr b))
    → IsValid (record { mappings = selection_sort arr n; num_mappings = n })
sorted-IsValid arr n size few ranges apart = record {
  slots = length-selection_sort arr n ∙ size;
  few = few;
  in_range = λ a h. rw (r.at a) (ranges (r.from a) (r.within a h));
  ordered = λ a b lt h.
      let apart_ab : Disjoint (slot (selection_sort arr n) a) (slot (selection_sort arr n) b) =
        rw (r.at a, r.at b)
          (apart (r.from a) (r.from b) (r.within a (omega arith)) (r.within b h)
            (r.injective a b (omega arith))) in
      let filled : 0 < (slot (selection_sort arr n) b).len =
        rw (r.at b) ((ranges (r.from b) (r.within b h)).nonempty) in
      omega (arith, selection_sort-sorted arr n (omega arith) a b lt h);
}
  where
    r : Reorders n arr (selection_sort arr n)
    r = selection_sort-Reorders arr n (omega arith)

-- Two mappings of a valid process are disjoint, whichever comes first.
pub kept-Disjoint :
    {p : Maps}
    → IsValid p
    → (a b : ℕ) → a < p.num_mappings
    → b < p.num_mappings
    → a ≢ b
    → Disjoint (slot p.mappings a) (slot p.mappings b)
kept-Disjoint v a b ha hb ne = elim (dec_lt a b) [
  | yes lt ↦ inl (v.ordered a b lt hb)
  | no ge ↦ inr (v.ordered b a (omega arith) ha)
]

module _ {p : Maps} (v : IsValid p) (m : Mapping) (room : p.num_mappings < max_wmmap_info) where
  inserted : List Mapping
  inserted = set p.mappings p.num_mappings m

  inserted-slot : (a : ℕ) → a < p.num_mappings → slot inserted a ≡ slot p.mappings a
  unfolding inserted
  inserted-slot a h = get_or-set_ne p.mappings p.num_mappings a m blank (omega arith)

  inserted-last : slot inserted p.num_mappings ≡ m
  unfolding inserted
  inserted-last = get_or-set_self p.mappings p.num_mappings m blank (omega (arith, v.slots))

  inserted-InRange : InRange m → (a : ℕ) → a < p.num_mappings + 1 → InRange (slot inserted a)
  inserted-InRange ok a h = elim (ℕ_discrete a p.num_mappings) [
    | yes e ↦ rw (e, inserted-last) ok
    | no ne ↦ rw (inserted-slot a (omega arith)) (v.in_range a (omega arith))
  ]

  inserted-Disjoint :
      ((k : ℕ) → k < p.num_mappings → Apart (slot p.mappings k) m.addr m.len)
      → (a b : ℕ) → a < p.num_mappings + 1
      → b < p.num_mappings + 1
      → a ≢ b
      → Disjoint (slot inserted a) (slot inserted b)
  inserted-Disjoint apart a b ha hb ne = elim (ℕ_discrete a p.num_mappings) [
    | yes e ↦
        rw (e, inserted-last, inserted-slot b (omega arith)) (omega (arith, apart b (omega arith)))
    | no na ↦ elim (ℕ_discrete b p.num_mappings) [
      | yes e ↦
          rw (e, inserted-last, inserted-slot a (omega arith))
            (omega (arith, apart a (omega arith)))
      | no nb ↦
          rw (inserted-slot a (omega arith), inserted-slot b (omega arith))
            (kept-Disjoint v a b (omega arith) (omega arith) ne)
    ]
  ]

  inserted-IsValid :
      InRange m
      → ((k : ℕ) → k < p.num_mappings → Apart (slot p.mappings k) m.addr m.len)
      → IsValid (record {
        mappings = selection_sort inserted (p.num_mappings + 1);
        num_mappings = p.num_mappings + 1;
      })
  unfolding inserted
  inserted-IsValid ok apart =
      sorted-IsValid inserted (p.num_mappings + 1) size (omega arith) (inserted-InRange ok)
        (inserted-Disjoint apart)
    where
      size : length inserted ≡ max_wmmap_info
      size = length-set p.mappings p.num_mappings m ∙ v.slots

-- `length` bytes from page `a` on lie in the space for mappings and overlap no mapping.
pub record Fits (p : Maps) (length a : ℕ) : Type 0 where
  pub aligned : a % 4096 ≡ 0
  pub low : wmap_base ≤ a
  pub high : a + length ≤ kernbase
  pub apart : (k : ℕ) → k < p.num_mappings → Apart (slot p.mappings k) a length

module _ {p : Maps} (v : IsValid p) (length flags fd : ℕ) (pos : 0 < length)
    (small : length < 2 ^ 31) where
  pub make_mapping-IsValid :
      (a : ℕ)
      → p.num_mappings < max_wmmap_info
      → Fits p length a
      → IsValid (make_mapping p a length flags fd).1
  unfolding make_mapping inserted
  make_mapping-IsValid a room f =
      inserted-IsValid v
        (record { addr = a; len = length; flags = flags; fd = fd; num_pages_loaded = 0 }) room
        (record { aligned = f.aligned; nonempty = pos; low = f.low; high = f.high }) f.apart

  -- The entries in use afterwards are those before and the new one.
  pub make_mapping-live :
      (a : ℕ)
      → p.num_mappings < max_wmmap_info
      → Perm (live (make_mapping p a length flags fd).1) (
          (record { addr = a; len = length; flags = flags; fd = fd; num_pages_loaded = 0 })
          ∷ live p)
  unfolding make_mapping
  make_mapping-live a room =
      Perm.trans
        ((selection_sort-perm added (p.num_mappings + 1)
          (omega (arith, length-set p.mappings p.num_mappings entry, v.slots))).0)
        (rw appended (rw append-nil at (perm_middle {a = entry} (live p) [])))
    where
      entry : Mapping
      entry = record { addr = a; len = length; flags = flags; fd = fd; num_pages_loaded = 0 }

      added : List Mapping
      added = set p.mappings p.num_mappings entry

      appended : take (p.num_mappings + 1) added ≡ live p ++ (entry ∷ [])
      appended = rw add-one (take-set p.mappings p.num_mappings entry (omega (arith, v.slots)))
