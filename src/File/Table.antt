-- ===== src/File/Table.antt =====
-- The references to open files, over the life of the table.
use mathlib.Core.Path.{subst}
use cs537_project.Prelude.{
  ℕ, zero, suc, ◌+◌, ◌-◌, ◌^◌, ◌≤◌, ◌<◌, ◌≡◌, ◌≢◌, inl, inr, refl, ◌∙◌, false, Option, none, some,
  ◌==◌, arith, Bool-cases, ℕ_discrete, sub32, le_zero, update, update_self, update-ne,
}
use cs537_project.File.{fd_none, File, nfile, filealloc_from, filealloc, filedup, drop_ref}

-- The table, and how many references to each file the processes hold.
pub record World : Type 0 where
  pub file : ℕ → File
  pub held : ℕ → ℕ

-- A process takes a file, copies or gives back a reference, or sets a file that it holds.
pub data Step (w : World) : World → Type 0 where
  alloc :
      (i : ℕ) (file : ℕ → File)
      → filealloc w.file ≡ some (i, file)
      → Step w (record { file = file; held = update w.held i 1 })
  dup :
      (i : ℕ) (file : ℕ → File)
      → i < nfile
      → 0 < w.held i
      → w.held i + 1 < 2 ^ 31
      → filedup i w.file ≡ some file
      → Step w (record { file = file; held = update w.held i (w.held i + 1) })
  drop :
      (i : ℕ) (last : Option File) (file : ℕ → File)
      → i < nfile
      → 0 < w.held i
      → drop_ref i w.file ≡ some (last, file)
      → Step w (record { file = file; held = update w.held i (w.held i - 1) })
  change :
      (i : ℕ) (f : File)
      → i < nfile
      → 0 < w.held i
      → f.ref ≡ (w.file i).ref
      → Step w (record { file = update w.file i f; held = w.held })

pub data Reach (w : World) : World → Type 0 where
  start : Reach w w
  later : {s t : World} → Reach w s → Step s t → Reach w t

-- `ref` is the number of the references, and a file without them has no type.
pub record IsOpen (f : File) (held : ℕ) : Type 0 where
  pub count : f.ref ≡ held
  pub small : held < 2 ^ 31
  pub none_typed : held ≡ 0 → f.type ≡ fd_none

pub record AllOpen (w : World) : Type 0 where
  pub each : (i : ℕ) → i < nfile → IsOpen (w.file i) (w.held i)

pub replaced-AllOpen :
    (w : World) (i n : ℕ) (f : File)
    → AllOpen w
    → IsOpen f n
    → AllOpen (record { file = update w.file i f; held = update w.held i n })
replaced-AllOpen w i n f open_files here = record {
  each = λ j low. elim (ℕ_discrete i j) [
    | yes e ↦
        subst (λ (x : ℕ). IsOpen (update w.file i f x) (update w.held i n x)) e
          (rw (update_self w.file i f, update_self w.held i n) here)
    | no ne ↦ rw (update-ne w.file i j f ne, update-ne w.held i j n ne) (open_files.each j low)
  ];
}

abbrev pub AllocResult : ℕ → (ℕ → File) → ℕ → Option (ℕ × (ℕ → File)) → Type 0
AllocResult r file i none = (j : ℕ) → i ≤ j → j < i + r → (file j).ref ≢ 0
AllocResult r file i (some (k, file')) =
    (k < i + r) × ((file k).ref ≡ 0) × (file' ≡ update file k (record (file k) { ref = 1 }))

AllocResult-cons :
    (r : ℕ) (file : ℕ → File) (i : ℕ) (o : Option (ℕ × (ℕ → File)))
    → (file i).ref ≢ 0
    → AllocResult r file (i + 1) o
    → AllocResult (suc r) file i o
AllocResult-cons r file i none here rest = λ j low high. elim (ℕ_discrete j i) [
  | yes e ↦ rw e here
  | no ne ↦ rest j (omega arith) (omega arith)
]
AllocResult-cons r file i (some (k, file')) here (high, free, same) = (omega arith, free, same)

pub filealloc_from_lem :
    (r : ℕ) (file : ℕ → File) (i : ℕ) → AllocResult r file i (filealloc_from r file i)
unfolding filealloc_from
filealloc_from_lem zero file i = λ j low high. absurd (omega arith)
filealloc_from_lem (suc r) file i = elim (Bool-cases ((file i).ref == 0)) [
  | inl free ↦ rw (filealloc_from, free) (omega arith, ground arith, refl)
  | inr used ↦
      rw (filealloc_from, used)
        (AllocResult-cons r file i (filealloc_from r file (i + 1)) (ground arith)
          (filealloc_from_lem r file (i + 1)))
]

pub drop_ref_more :
    (i : ℕ) (w : World)
    → IsOpen (w.file i) (w.held i)
    → 1 < w.held i
    → drop_ref i w.file ≡ some (none, update w.file i (record (w.file i) { ref = w.held i - 1 }))
unfolding drop_ref
drop_ref_more i w f more =
    let count = f.count in
    let small = f.small in
    let positive : le_zero (w.held i) ≡ false = ground arith in
    let rest : sub32 (w.held i) 1 ≡ w.held i - 1 = omega arith in
    let not_last : le_zero (w.held i - 1) ≡ false = ground arith in
    rw (drop_ref, count, rest, positive, not_last) refl

pub drop_ref_last :
    (i : ℕ) (w : World)
    → IsOpen (w.file i) (w.held i)
    → w.held i ≡ 1
    → drop_ref i w.file
      ≡ some (
        some (record (w.file i) { ref = 0 }),
        update w.file i (record (w.file i) { ref = 0; type = fd_none }),
      )
unfolding drop_ref
drop_ref_last i w f one =
    let count : (w.file i).ref ≡ 1 = f.count ∙ one in rw (drop_ref, count) refl
