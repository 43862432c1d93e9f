-- ===== src/Mm/Tests.antt =====
-- A mapping of two pages is shrunk, one grows at the end, and a page is loaded.
use mathlib.Core.Logic.Or
use mathlib.Core.Path.{subst}
use cs537_project.Prelude.{
  ℕ, zero, suc, ◌+◌, ◌*◌, ◌<◌, ◌≡◌, ◌≢◌, ◌⊎◌, refl, ◌∷◌, Option, none, some, false, true, Bool,
  update, arith, failed, replicate, pgsize,
}
use cs537_project.Kalloc.{Kmem, kalloc, kfree, stosl}
use cs537_project.Vm.{
  Pgdir, Mapped, mapped, full, remap, spins, mappages, map_from, walk, walk_alloc, set_pte,
}
use cs537_project.Vm.Walk.{present}
use cs537_project.Vm.Map.{MapsTo, Outcome, mappages_lem}
use cs537_project.Vm.Dealloc.{AllFree, Cleared}
use cs537_project.Vm.Roundtrip.{Freeable, mapped-AllFree}
use cs537_project.Wmap.Types.{Maps, slot, blank}
use cs537_project.Wmap.Tests.{two_maps, two_maps-IsValid}
use cs537_project.Wmap.Unmap.{find_map}
use cs537_project.Mm.{
  Image, set_len, wremap, handle_pagefault, find_fault, map_fault, getwmapinfo, list_maps,
}
use cs537_project.Mm.Remap.{Remapped, wremap_lem}
use cs537_project.Mm.Drop.{wremap-shrinks}

abbrev kernel_end : ℕ
kernel_end = 0x8010_0000

abbrev write_all : ℕ → ℕ → ℕ → Bool
write_all fd start length = true

-- Two free pages.
abbrev two_free : Kmem
two_free = record {
  mem = update (λ a. 0) 0x8010_0000 0x8010_1000;
  use_lock = false;
  freelist = 0x8010_0000;
}

abbrev empty : Pgdir
empty = record { page = 0x8030_0000; table = λ i. none }

abbrev small_image : Image
small_image = record { maps = two_maps; pgdir = empty; kmem = two_free }

-- The page is loaded.
fault_answer : Option (ℕ × Image) → ℕ
fault_answer none = 2
fault_answer (some (r, s)) = r

fault_loads :
    fault_answer (handle_pagefault kernel_end (λ fd off mem k. k) small_image 0x6000_0000) ≡ 1
unfolding handle_pagefault find_fault map_fault mappages map_from walk_alloc walk set_pte kalloc
    kfree stosl fault_answer
fault_loads = refl

wremap_lem_example :
    ((((a : ℕ) → a < 2 → (slot two_maps.mappings a).addr ≢ 0x6000_2000)
        × (wremap kernel_end write_all small_image 0x6000_2000 4096 9000 0
            ≡ some (failed, small_image)))
      ⊎ ((i : ℕ) × (i < 2)
          × ((slot two_maps.mappings i).addr ≡ 0x6000_2000)
          × ((slot two_maps.mappings i).len ≡ 4096
              → Remapped small_image i 4096 9000
                  (wremap kernel_end write_all small_image 0x6000_2000 4096 9000 0))))
wremap_lem_example =
    wremap_lem kernel_end write_all small_image 0x6000_2000 4096 9000 0 two_maps-IsValid
      (omega arith) (omega arith) (omega arith)

-- Two pages at 0x60000000, with page frames at 2 megabytes.
abbrev pages : Kmem
pages = record { mem = λ a. a + pgsize; use_lock = false; freelist = 0x8040_0000 }

abbrev run : Mapped
run = mappages empty pages 0x6000_0000 (2 * pgsize) 0x20_0000 6

abbrev dir_of : Mapped → Pgdir
dir_of (mapped d k) = d
dir_of (full d k) = d
dir_of remap = empty
dir_of spins = empty

abbrev left_of : Mapped → Kmem
left_of (mapped d k) = k
left_of (full d k) = k
left_of remap = pages
left_of spins = pages

run-maps : run ≡ mapped (dir_of run) (left_of run)
unfolding mappages map_from walk_alloc walk set_pte kalloc
run-maps = refl

frames-Freeable : Freeable kernel_end 0x20_0000 2
frames-Freeable zero h = refl
frames-Freeable (suc zero) h = refl
frames-Freeable (suc (suc j)) h = absurd (omega arith)

empty-present : (b : ℕ) → present empty b ≡ none
unfolding walk present
empty-present b = refl

run-MapsTo : MapsTo empty (dir_of run) 0x6000_0000 0x20_0000 6 2
run-MapsTo = subst (Outcome empty 0x6000_0000 0x20_0000 6 2) run-maps (
    mappages_lem empty pages 0x6000_0000 2 0x20_0000 6 (omega arith) refl refl (omega arith)
      (omega arith) (λ j h. empty-present (0x6000_0000 + j * pgsize)))

run-AllFree : AllFree kernel_end (dir_of run) 0x6000_0000 0x6000_2000
run-AllFree =
    mapped-AllFree kernel_end empty (dir_of run) 0x6000_0000 2 0x20_0000 6 refl refl (omega arith)
      (omega arith) frames-Freeable run-MapsTo

abbrev one_map : Maps
one_map = record {
  mappings =
      (record { addr = 0x6000_0000; len = 8192; flags = 6; fd = 0; num_pages_loaded = 2 })
      ∷ replicate 15 blank;
  num_mappings = 1;
}

abbrev loaded : Image
loaded = record { maps = one_map; pgdir = dir_of run; kmem = left_of run }

found : find_map one_map.mappings 1 0 0x6000_0000 ≡ some 0
unfolding find_map
found = refl

wremap-shrinks_example :
    (d : Pgdir) × (k : Kmem) × ((wremap kernel_end write_all loaded 0x6000_0000 8192 100 0
        ≡ some (0x6000_0000, record { maps = set_len one_map 0 100; pgdir = d; kmem = k }))
      × Cleared (dir_of run) d 0x6000_0000 0x6000_2000)
wremap-shrinks_example =
    wremap-shrinks kernel_end write_all loaded 0 0x6000_0000 8192 100 0 found refl refl
      (omega arith) (omega arith) (omega arith) (omega arith) run-AllFree

info_counts :
    (getwmapinfo two_maps
        (record { total_mmaps = 0; addr = λ i. 0; len = λ i. 0; n_loaded_pages = λ i. 0 })).addr
      1
    ≡ 0x6000_2000
unfolding getwmapinfo list_maps
info_counts = refl
