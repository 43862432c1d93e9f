-- ===== src/File/Tests.antt =====
-- The theorem on open files at a concrete input.
use cs537_project.Prelude.{ℕ, ◌<◌, ◌≡◌, refl, false, Option, none, some, update}
use cs537_project.File.{fd_none, File, nfile, filealloc_from, filealloc, drop_ref}
use cs537_project.File.Table.{World, start, later, alloc}
use cs537_project.File.History.{Allocated, filealloc-drop_ref}

abbrev no_file : File
no_file = record {
  type = fd_none;
  ref = 0;
  readable = false;
  writable = false;
  pipe = 0;
  ip = 0;
  off = 0;
}

abbrev one_file : ℕ → File
one_file = update (λ i. no_file) 0 (record no_file { ref = 1 })

abbrev one_open : World
one_open = record { file = one_file; held = update (λ i. 0) 0 1 }

takes_0 : filealloc (λ i. no_file) ≡ some (0, one_file)
unfolding filealloc_from
takes_0 = refl

filealloc-drop_ref_example :
    Allocated one_open (filealloc one_file)
    × ((i : ℕ)
        → i < nfile
        → 0 < one_open.held i
        → (last : Option File) × ((file : ℕ → File) × ((drop_ref i one_file ≡ some (last, file))
              × ((one_open.held i ≡ 1 → last ≡ some (record (one_file i) { ref = 0 }))
                  × (1 < one_open.held i → last ≡ none)))))
filealloc-drop_ref_example =
    filealloc-drop_ref (λ i. (refl, refl)) (λ i. refl)
      (later {s = record { file = λ i. no_file; held = λ i. 0 }} start (alloc 0 one_file takes_0))
