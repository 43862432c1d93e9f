-- ===== src/Vm/Tests.antt =====
-- Two pages at 0x2000, with page frames at 2 megabytes.
use mathlib.Core.Path.{subst}
use cs537_project.Prelude.{
  true, ◌≤◌, ℕ, zero, suc, ◌+◌, ◌*◌, ◌%◌, ◌^◌, ◌<◌, ◌≡◌, ◌≢◌, refl, none, some, false, arith,
  pgsize,
}
use cs537_project.Kalloc.{Kmem, kalloc}
use cs537_project.Vm.{
  Pgdir, Mapped, full, remap, spins, mappages, mapped, deallocuvm, clearpteu, copyout, walk,
  walk_alloc, set_pte, map_from,
}
use cs537_project.Vm.Walk.{present}
use cs537_project.Vm.Map.{Outcome, mappages_lem}
use cs537_project.Vm.Dealloc.{AllFree, Cleared, deallocuvm_lem}
use cs537_project.Vm.Guard.{clearpteu-copyout}
use cs537_project.Vm.Roundtrip.{Freeable, mapped-AllFree, mappages-deallocuvm}

abbrev kernel_end : ℕ
kernel_end = 0x8010_0000

-- Each page that is free points to the next one.
abbrev pages : Kmem
pages = record { mem = λ a. a + pgsize; use_lock = false; freelist = 0x8040_0000 }

abbrev empty : Pgdir
empty = record { page = 0x8030_0000; table = λ i. none }

abbrev run : Mapped
run = mappages empty pages 0x2000 (2 * pgsize) 0x20_0000 6

abbrev dir_of : Mapped → Pgdir
dir_of (mapped d k) = d
dir_of (full d k) = d
dir_of remap = empty
dir_of spins = empty

abbrev left_of : Mapped → Kmem
left_of (mapped d k) = k
left_of (full d k) = k
left_of remap = pages
left_of spins = pages

empty-present : (b : ℕ) → present empty b ≡ none
unfolding walk present
empty-present b = refl

mappages_lem_example :
    Outcome empty 0x2000 0x20_0000 6 2 (mappages empty pages 0x2000 (2 * pgsize) 0x20_0000 6)
mappages_lem_example =
    mappages_lem empty pages 0x2000 2 0x20_0000 6 (omega arith) refl refl (omega arith)
      (omega arith) (λ j h. empty-present (0x2000 + j * pgsize))

run-maps : run ≡ mapped (dir_of run) (left_of run)
unfolding mappages map_from walk_alloc walk set_pte kalloc
run-maps = refl

frames-Freeable : Freeable kernel_end 0x20_0000 2
frames-Freeable zero h = refl
frames-Freeable (suc zero) h = refl
frames-Freeable (suc (suc j)) h = absurd (omega arith)

run-AllFree : AllFree kernel_end (dir_of run) 0x2000 0x4000
run-AllFree =
    mapped-AllFree kernel_end empty (dir_of run) 0x2000 2 0x20_0000 6 refl refl (omega arith)
      (omega arith) frames-Freeable
      (subst (Outcome empty 0x2000 0x20_0000 6 2) run-maps mappages_lem_example)

deallocuvm_lem_example :
    (u : Pgdir) × (k : Kmem) × ((deallocuvm kernel_end (dir_of run) (left_of run) 0x4000 0x1800
        ≡ some (0x1800, u, k))
      × Cleared (dir_of run) u 0x2000 0x4000)
deallocuvm_lem_example =
    deallocuvm_lem kernel_end (dir_of run) (left_of run) 0x4000 0x1800 (omega arith) (omega arith)
      run-AllFree

mappages-deallocuvm_example :
    (u : Pgdir) × (k : Kmem) × ((deallocuvm kernel_end (dir_of run) (left_of run) 0x4000 0x2000
        ≡ some (0x2000, u, k))
      × ((b : ℕ) → b < 2 ^ 32 → b % pgsize ≡ 0 → present u b ≡ present empty b))
mappages-deallocuvm_example =
    mappages-deallocuvm kernel_end empty (dir_of run) pages (left_of run) (left_of run) 0x2000 2
      0x20_0000 6 (omega arith) refl refl (omega arith) (omega arith) (omega arith) (omega arith)
      frames-Freeable (λ j h. empty-present (0x2000 + j * pgsize)) run-maps

run-clears : clearpteu (dir_of run) 0x2000 ≡ some (set_pte (dir_of run) 0x2000 0x20_0003)
unfolding mappages map_from walk_alloc walk set_pte kalloc clearpteu
run-clears = refl

clearpteu-copyout_example :
    ((mem' : ℕ → ℕ)
      → copyout (set_pte (dir_of run) 0x2000 0x20_0003) (λ a. 0) 0x1ff0 0x1000 50
        ≢ some (true, mem'))
    × (0x2000 ≤ 0x1ff0
        → copyout (set_pte (dir_of run) 0x2000 0x20_0003) (λ a. 0) 0x1ff0 0x1000 50
          ≡ some (false, λ a. 0))
clearpteu-copyout_example =
    clearpteu-copyout (dir_of run) (set_pte (dir_of run) 0x2000 0x20_0003) (λ a. 0) 0x2000 0x1ff0
      0x1000 50 refl run-clears (omega arith) (omega arith) (omega arith) (omega arith)
