-- ===== src/Proc/Adopt.antt =====
-- The loop of `exit` that passes children to init.
use mathlib.Core.Path.{subst}
use cs537_project.Prelude.{
  ℕ, zero, suc, ◌+◌, ◌≤◌, ◌<◌, ◌≡◌, ◌≢◌, inl, inr, refl, ap, sym, ◌∙◌, Option, some, if◌then◌else◌,
  arith, update, update_self, update-ne, Bool-cases, ℕ_discrete,
}
use cs537_project.Proc.Types.{is_zombie, process, Proc, is_parent}
use cs537_project.Proc.{adopt, adopt_from}
use cs537_project.Proc.Loops.{Kept, Kept-refl, Kept-trans, wakeup1-Kept, wakeup1-parent}

-- The parent of a process once the children of `curproc` are init's.
abbrev pub new_parent : ℕ → ℕ → Option ℕ → Option ℕ
new_parent curproc initproc parent = if is_parent parent curproc then some initproc else parent

-- To change one process and keep it.
pub update-Kept :
    (proc : ℕ → Proc) (i : ℕ) (p : Proc)
    → Kept (proc i) p
    → (j : ℕ) → Kept (proc j) (update proc i p j)
update-Kept proc i p kept j = elim (ℕ_discrete i j) [
  | yes e ↦
      subst (λ (k : ℕ). Kept (proc k) (update proc i p k)) e
        (subst (λ (q : Proc). Kept (proc i) q) (sym (update_self proc i p)) kept)
  | no ne ↦ Kept-refl (update-ne proc i j p ne)
]

module _ (curproc initproc : ℕ) where
  -- The table with the child at `i` passed on.
  abbrev pass_on : (ℕ → Proc) → ℕ → ℕ → Proc
  pass_on proc i = update proc i (record (proc i) { parent = some initproc })

  adopt-Kept : (proc : ℕ → Proc) (i j : ℕ) → Kept (proc j) (adopt curproc initproc proc i j)
  unfolding adopt
  adopt-Kept proc i j = elim (Bool-cases (is_parent (proc i).parent curproc)) [
    | inr other ↦ rw other (Kept-refl refl)
    | inl child ↦
        let p : Proc = record (proc i) { parent = some initproc } in
        let moved : Kept (proc j) (pass_on proc i j) =
          update-Kept proc i p
            (record { pid = refl; kstack = refl; pgdir = refl; woken = inl refl }) j in
        elim (Bool-cases (is_zombie (proc i).state)) [
          | inl z ↦
              rw (child, z) (Kept-trans moved (wakeup1-Kept (process initproc) (pass_on proc i) j))
          | inr nz ↦ rw (child, nz) moved
        ]
  ]

  adopt-parent :
      (proc : ℕ → Proc) (i j : ℕ)
      → (adopt curproc initproc proc i j).parent
        ≡ (if is_parent (proc i).parent curproc then pass_on proc i j else proc j).parent
  unfolding adopt
  adopt-parent proc i j = elim (Bool-cases (is_parent (proc i).parent curproc)) [
    | inr other ↦ rw other refl
    | inl child ↦ elim (Bool-cases (is_zombie (proc i).state)) [
      | inl z ↦ rw (child, z) (wakeup1-parent (process initproc) (pass_on proc i) j)
      | inr nz ↦ rw (child, nz) refl
    ]
  ]

  adopt-parent_self :
      (proc : ℕ → Proc) (i : ℕ)
      → (adopt curproc initproc proc i i).parent ≡ new_parent curproc initproc (proc i).parent
  adopt-parent_self proc i =
      adopt-parent proc i i ∙ elim (Bool-cases (is_parent (proc i).parent curproc)) [
        | inr other ↦ rw other refl
        | inl child ↦ rw child (
            ap (λ (p : Proc). p.parent)
              (update_self proc i (record (proc i) { parent = some initproc })))
      ]

  adopt-parent_ne :
      (proc : ℕ → Proc) (i j : ℕ)
      → i ≢ j
      → (adopt curproc initproc proc i j).parent ≡ (proc j).parent
  adopt-parent_ne proc i j ne =
      adopt-parent proc i j ∙ elim (Bool-cases (is_parent (proc i).parent curproc)) [
        | inr other ↦ rw other refl
        | inl child ↦ rw child (
            ap (λ (p : Proc). p.parent)
              (update-ne proc i j (record (proc i) { parent = some initproc }) ne))
      ]

  pub adopt_from-Kept :
      (proc : ℕ → Proc) (r i j : ℕ) → Kept (proc j) (adopt_from curproc initproc proc r i j)
  unfolding adopt_from
  adopt_from-Kept proc zero i j = Kept-refl refl
  adopt_from-Kept proc (suc r) i j =
      Kept-trans (adopt-Kept proc i j) (adopt_from-Kept (adopt curproc initproc proc i) r (i + 1) j)

  adopt_from-outside :
      (proc : ℕ → Proc) (r i j : ℕ)
      → j < i
      → (adopt_from curproc initproc proc r i j).parent ≡ (proc j).parent
  unfolding adopt_from
  adopt_from-outside proc zero i j h = refl
  adopt_from-outside proc (suc r) i j h =
      adopt_from-outside (adopt curproc initproc proc i) r (i + 1) j (omega arith)
      ∙ adopt-parent_ne proc i j (λ e. omega arith)

  -- Each process of the range whose parent exits has init as its parent afterwards.
  pub adopt_from-inside :
      (proc : ℕ → Proc) (r i j : ℕ)
      → i ≤ j
      → j < i + r
      → (adopt_from curproc initproc proc r i j).parent
        ≡ new_parent curproc initproc (proc j).parent
  unfolding adopt_from
  adopt_from-inside proc zero i j low high = absurd (omega arith)
  adopt_from-inside proc (suc r) i j low high = elim (ℕ_discrete i j) [
    | yes e ↦
        subst
          (λ (k : ℕ).
            (adopt_from curproc initproc (adopt curproc initproc proc i) r (i + 1) k).parent
            ≡ new_parent curproc initproc (proc k).parent)
          e
          (adopt_from-outside (adopt curproc initproc proc i) r (i + 1) i (omega arith)
            ∙ adopt-parent_self proc i)
    | no ne ↦
        adopt_from-inside (adopt curproc initproc proc i) r (i + 1) j (omega arith) (omega arith)
        ∙ ap (new_parent curproc initproc) (adopt-parent_ne proc i j ne)
  ]
