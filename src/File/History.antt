-- ===== src/File/History.antt =====
-- All that the processes do with open files, in any order.
use mathlib.Core.Path.{subst}
use cs537_project.Prelude.{
  ℕ, ◌+◌, ◌-◌, ◌^◌, ◌<◌, ◌≡◌, inl, inr, refl, ap, sym, ◌∙◌, Option, none, some, of_some-eq, arith,
  Bool-cases, ℕ_discrete, add32, le_zero, update, update_self, update-ne,
}
use cs537_project.File.{fd_none, File, nfile, filealloc, filedup, drop_ref}
use cs537_project.File.Table.{
  World, Step, alloc, dup, drop, change, Reach, start, later, IsOpen, AllOpen, AllocResult,
  replaced-AllOpen, filealloc_from_lem, drop_ref_more, drop_ref_last,
}

alloc-AllOpen :
    (w : World) (i : ℕ) (file : ℕ → File)
    → AllOpen w
    → filealloc w.file ≡ some (i, file)
    → AllOpen (record { file = file; held = update w.held i 1 })
alloc-AllOpen w i file open_files e =
    let (low, free, same) : AllocResult nfile w.file 0 (some (i, file)) =
      subst (AllocResult nfile w.file 0) e (filealloc_from_lem nfile w.file 0) in
    let here = open_files.each i (omega arith) in
    subst (λ (x : ℕ → File). AllOpen (record { file = x; held = update w.held i 1 })) (sym same)
      (replaced-AllOpen w i 1 (record (w.file i) { ref = 1 }) open_files
        (record { count = refl; small = omega arith; none_typed = λ z. absurd (omega (arith, z)) }))

dup-AllOpen :
    (w : World) (i : ℕ) (file : ℕ → File)
    → AllOpen w
    → i < nfile
    → 0 < w.held i
    → w.held i + 1 < 2 ^ 31
    → filedup i w.file ≡ some file
    → AllOpen (record { file = file; held = update w.held i (w.held i + 1) })
unfolding filedup
dup-AllOpen w i file open_files low held small e =
    let count = (open_files.each i low).count in
    elim (Bool-cases (le_zero (w.file i).ref)) [
      | inl free ↦ (let e' = rw (filedup, free) at e in cc)
      | inr used ↦
          subst
            (λ (x : ℕ → File). AllOpen (record { file = x; held = update w.held i (w.held i + 1) }))
            (of_some-eq (rw (filedup, used) at e))
            (replaced-AllOpen w i (w.held i + 1)
              (record (w.file i) { ref = add32 (w.file i).ref 1 }) open_files
              (record {
                count = rw count (omega arith);
                small = small;
                none_typed = λ z. absurd (omega (arith, z));
              }))
    ]

drop-AllOpen :
    (w : World) (i : ℕ) (last : Option File) (file : ℕ → File)
    → AllOpen w
    → i < nfile
    → 0 < w.held i
    → drop_ref i w.file ≡ some (last, file)
    → AllOpen (record { file = file; held = update w.held i (w.held i - 1) })
drop-AllOpen w i last file open_files low held e =
    let here = open_files.each i low in
    let small = here.small in
    elim (ℕ_discrete (w.held i) 1) [
      | yes one ↦
          subst
            (λ (x : ℕ → File). AllOpen (record { file = x; held = update w.held i (w.held i - 1) }))
            (ap (λ (x : Option File × (ℕ → File)). x.1)
              (of_some-eq (sym (drop_ref_last i w here one) ∙ e)))
            (replaced-AllOpen w i (w.held i - 1) (record (w.file i) { ref = 0; type = fd_none })
              open_files
              (record { count = omega arith; small = omega arith; none_typed = λ z. refl }))
      | no ne ↦
          subst
            (λ (x : ℕ → File). AllOpen (record { file = x; held = update w.held i (w.held i - 1) }))
            (ap (λ (x : Option File × (ℕ → File)). x.1)
              (of_some-eq (sym (drop_ref_more i w here (omega arith)) ∙ e)))
            (replaced-AllOpen w i (w.held i - 1) (record (w.file i) { ref = w.held i - 1 })
              open_files
              (record {
                count = refl;
                small = omega arith;
                none_typed = λ z. absurd (omega (arith, z, ne));
              }))
    ]

change-AllOpen :
    (w : World) (i : ℕ) (f : File)
    → AllOpen w
    → i < nfile
    → 0 < w.held i
    → f.ref ≡ (w.file i).ref
    → AllOpen (record { file = update w.file i f; held = w.held })
change-AllOpen w i f open_files low held same = record {
  each = λ j j_low. elim (ℕ_discrete i j) [
    | yes e ↦
        subst (λ (x : ℕ). IsOpen (update w.file i f x) (w.held x)) e
          (rw (update_self w.file i f) (record {
            count = same ∙ (open_files.each i low).count;
            small = (open_files.each i low).small;
            none_typed = λ z. absurd (omega (arith, z, held));
          }))
    | no ne ↦ rw (update-ne w.file i j f ne) (open_files.each j j_low)
  ];
}

Step-AllOpen : {s t : World} → Step s t → AllOpen s → AllOpen t
Step-AllOpen {s} (alloc i file e) open_files = alloc-AllOpen s i file open_files e
Step-AllOpen {s} (dup i file low held small e) open_files =
    dup-AllOpen s i file open_files low held small e
Step-AllOpen {s} (drop i last file low held e) open_files =
    drop-AllOpen s i last file open_files low held e
Step-AllOpen {s} (change i f low held same) open_files =
    change-AllOpen s i f open_files low held same

-- The table at the start.
abbrev pub IsUnused : File → Type 0
IsUnused f = (f.ref ≡ 0) × (f.type ≡ fd_none)

Reach-AllOpen :
    {s t : World}
    → ((i : ℕ) → IsUnused (s.file i))
    → ((i : ℕ) → s.held i ≡ 0)
    → Reach s t
    → AllOpen t
Reach-AllOpen {s} unused none_held start = record {
  each = λ i low. record {
    count = (unused i).0 ∙ sym (none_held i);
    small = rw (none_held i) (omega arith);
    none_typed = λ z. (unused i).1;
  };
}
Reach-AllOpen unused none_held (later r step) = Step-AllOpen step (Reach-AllOpen unused none_held r)

-- What `filealloc` returns: a file without references or a type, or null if there is none.
abbrev pub Allocated : World → Option (ℕ × (ℕ → File)) → Type 0
Allocated w none = (i : ℕ) → i < nfile → 0 < w.held i
Allocated w (some (i, file)) = (i < nfile) × (w.held i ≡ 0) × ((w.file i).type ≡ fd_none)

Allocated-of :
    (w : World) (o : Option (ℕ × (ℕ → File)))
    → AllOpen w
    → AllocResult nfile w.file 0 o
    → Allocated w o
Allocated-of w none open_files all = λ i low.
    let used = all i (omega arith) (omega arith) in
    let count = (open_files.each i low).count in omega arith
Allocated-of w (some (i, file)) open_files (low, free, same) =
    let here = open_files.each i (omega arith) in
    let none_held : w.held i ≡ 0 = sym here.count ∙ free in
    (omega arith, none_held, here.none_typed none_held)

-- Whatever the processes did, from an unused table on: `filealloc` takes a file that none of them holds and that has no type, and
-- fails only if each file is held; and the giving back of a reference leaves the file to close
-- exactly if it is the last one.
pub filealloc-drop_ref :
    {s t : World}
    → ((i : ℕ) → IsUnused (s.file i))
    → ((i : ℕ) → s.held i ≡ 0)
    → Reach s t
    → Allocated t (filealloc t.file)
      × ((i : ℕ)
          → i < nfile
          → 0 < t.held i
          → (last : Option File) × ((file : ℕ → File) × ((drop_ref i t.file ≡ some (last, file))
                × ((t.held i ≡ 1 → last ≡ some (record (t.file i) { ref = 0 }))
                    × (1 < t.held i → last ≡ none)))))
filealloc-drop_ref {s} {t} unused none_held r =
    (Allocated-of t (filealloc t.file) all_open (filealloc_from_lem nfile t.file 0), dropped)
  where
    all_open : AllOpen t
    all_open = Reach-AllOpen unused none_held r

    dropped :
        (i : ℕ)
        → i < nfile
        → 0 < t.held i
        → (last : Option File) × ((file : ℕ → File) × ((drop_ref i t.file ≡ some (last, file))
              × ((t.held i ≡ 1 → last ≡ some (record (t.file i) { ref = 0 }))
                  × (1 < t.held i → last ≡ none))))
    dropped i low held = elim (ℕ_discrete (t.held i) 1) [
      | yes one ↦ (
        some (record (t.file i) { ref = 0 }),
        (
          update t.file i (record (t.file i) { ref = 0; type = fd_none }),
          (drop_ref_last i t (all_open.each i low) one, (λ e. refl, λ more. absurd (omega arith))),
        ),
      )
      | no ne ↦ (
        none,
        (
          update t.file i (record (t.file i) { ref = t.held i - 1 }),
          (
            drop_ref_more i t (all_open.each i low) (omega arith),
            (λ e. absurd (ne e), λ more. refl),
          ),
        ),
      )
    ]
