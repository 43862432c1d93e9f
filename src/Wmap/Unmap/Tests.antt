-- ===== src/Wmap/Unmap/Tests.antt =====
-- Two mappings of a process; the first has one page loaded, the second is shared and has a file.
use cs537_project.Prelude.{
  ℕ, ◌/◌, ◌≡◌, refl, [], ◌∷◌, Bool, true, false, none, some, update, failed,
}
use cs537_project.Wmap.Unmap.{
  Space, find_map, unload, unload_page, unload_mapping, unmap_slot, wunmap, exit_mappings,
}
use cs537_project.Wmap.Unmap.Exit.{exit_mappings-half}
use cs537_project.Wmap.Tests.{two_maps, two_maps-IsValid}

abbrev space : Space
space = record {
  maps = two_maps;
  pgdir = update (λ a. none) 0x6000_0000 (some 0x5000);
  released = [];
}

abbrev no_disk : ℕ → ℕ → ℕ → Bool
no_disk fd start len = false

abbrev good_disk : ℕ → ℕ → ℕ → Bool
good_disk fd start len = true

unmaps : (wunmap no_disk space 0x6000_0000).1.released ≡ 0x5000 ∷ []
unfolding wunmap find_map unmap_slot unload_mapping unload unload_page
unmaps = refl

refuses : wunmap no_disk space 0x6000_2000 ≡ (failed, space)
unfolding wunmap find_map unmap_slot
refuses = refl

exit_mappings-half_example :
    (exit_mappings good_disk space).maps.num_mappings ≡ space.maps.num_mappings / 2
exit_mappings-half_example =
    exit_mappings-half {filewrite = good_disk} (λ fd start len. refl) space two_maps-IsValid
