-- ===== src/Wmap/Tests.antt =====
-- The calls of wmap.c on concrete mappings, and each theorem at an input.
use mathlib.Core.List.{Perm}
use cs537_project.Prelude.{
  List, ℕ, zero, suc, ◌+◌, ◌≤◌, ◌<◌, ◌≡◌, ◌⊎◌, refl, ◌∷◌, arith, replicate, failed, take,
}
use cs537_project.Wmap.Types.{Mapping, Maps, slot, blank}
use cs537_project.Wmap.Invariant.{InRange, IsValid}
use cs537_project.Wmap.Sort.{selection_sort}
use cs537_project.Wmap.Sort.Laws.{selection_sort_lem}
use cs537_project.Wmap.Place.{conflict, find_addr}
use cs537_project.Wmap.Alloc.{is_refused, make_mapping, wmap_anywhere, wmap}
use cs537_project.Wmap.Alloc.Insert.{live, Fits}
use cs537_project.Wmap.Alloc.Laws.{wmap-IsValid, wmap-first_fit}
use cs537_project.Wmap.Alloc.Effects.{wmap-live, wmap-fixed_adjacent}

abbrev first : Mapping
first = record { addr = 0x6000_0000; len = 100; flags = 6; fd = 0; num_pages_loaded = 1 }

abbrev second : Mapping
second = record { addr = 0x6000_2000; len = 4096; flags = 2; fd = 3; num_pages_loaded = 0 }

-- Two regions with a page between them.
abbrev pub two_maps : Maps
two_maps = record { mappings = first ∷ second ∷ replicate 14 blank; num_mappings = 2 }

two_maps-InRange : (a : ℕ) → a < 2 → InRange (slot two_maps.mappings a)
two_maps-InRange zero h = omega arith
two_maps-InRange (suc zero) h = omega arith
two_maps-InRange (suc (suc a)) h = absurd (omega arith)

two_maps-ordered :
    (a b : ℕ)
    → a < b
    → b < 2
    → (slot two_maps.mappings a).addr + (slot two_maps.mappings a).len
      ≤ (slot two_maps.mappings b).addr
two_maps-ordered zero zero lt h = absurd (omega arith)
two_maps-ordered zero (suc zero) lt h = omega arith
two_maps-ordered zero (suc (suc b)) lt h = absurd (omega arith)
two_maps-ordered (suc a) b lt h = absurd (omega arith)

pub two_maps-IsValid : IsValid two_maps
two_maps-IsValid = record {
  slots = refl;
  few = omega arith;
  in_range = two_maps-InRange;
  ordered = two_maps-ordered;
}

-- A one-page region goes between the two, a larger one behind both.
wmap_between : (wmap two_maps 0 4096 6 0).0 ≡ 0x6000_1000
unfolding wmap wmap_anywhere make_mapping is_refused find_addr conflict
wmap_between = refl

wmap_behind : (wmap two_maps 0 8192 6 0).0 ≡ 0x6000_3000
unfolding wmap wmap_anywhere make_mapping is_refused find_addr conflict
wmap_behind = refl

wmap-IsValid_example : IsValid (wmap two_maps 0 8192 6 0).1
wmap-IsValid_example = wmap-IsValid 0 8192 6 0 two_maps-IsValid (λ h. omega arith)

wmap-first_fit_example :
    ((wmap two_maps 0 8192 6 0 ≡ (failed, two_maps)) × ((a : ℕ) → ¬ (Fits two_maps 8192 a)))
    ⊎ ((Fits two_maps 8192 (wmap two_maps 0 8192 6 0).0)
        × ((a : ℕ) → Fits two_maps 8192 a → (wmap two_maps 0 8192 6 0).0 ≤ a))
unfolding is_refused
wmap-first_fit_example = wmap-first_fit 0 8192 6 0 two_maps-IsValid refl refl

wmap-live_example :
    (wmap two_maps 0 4096 6 0 ≡ (failed, two_maps))
    ⊎ Perm (live (wmap two_maps 0 4096 6 0).1) (
        (record {
          addr = (wmap two_maps 0 4096 6 0).0;
          len = 4096;
          flags = 6;
          fd = 0;
          num_pages_loaded = 0;
        })
        ∷ live two_maps)
wmap-live_example = wmap-live 0 4096 6 0 two_maps-IsValid

-- Page 0x60003000 is free and `second` ends there, yet MAP_FIXED is refused at it.
wmap-fixed_adjacent_example : wmap two_maps 0x6000_3000 4096 14 0 ≡ (failed, two_maps)
wmap-fixed_adjacent_example =
    wmap-fixed_adjacent 0x6000_3000 4096 14 0 1 two_maps-IsValid refl (omega arith) refl
      (omega arith)

two_maps-behind :
    (k : ℕ) → k < 2 → (slot two_maps.mappings k).addr + (slot two_maps.mappings k).len < 0x7fff_f000
two_maps-behind zero h = omega arith
two_maps-behind (suc zero) h = omega arith
two_maps-behind (suc (suc k)) h = absurd (omega arith)

abbrev two_slots : List Mapping
two_slots = second ∷ first ∷ replicate 14 blank

selection_sort_lem_example :
    ((a b : ℕ)
      → a < b
      → b < 2
      → (slot (selection_sort two_slots 2) a).addr ≤ (slot (selection_sort two_slots 2) b).addr)
    × Perm (take 2 (selection_sort two_slots 2)) (take 2 two_slots)
    × ((k : ℕ) → 2 ≤ k → slot (selection_sort two_slots 2) k ≡ slot two_slots k)
selection_sort_lem_example = selection_sort_lem two_slots 2 (omega arith)
