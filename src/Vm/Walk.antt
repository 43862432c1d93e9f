-- ===== src/Vm/Walk.antt =====
-- One entry of a page table is read and written.
use mathlib.Core.Path.{subst}
use cs537_project.Prelude.{
  ℕ, ◌/◌, ◌^◌, ◌<◌, ◌≡◌, ◌≢◌, ◌⊎◌, inl, inr, refl, ap, sym, ◌∙◌, true, false, Option, none, some,
  ◌==◌, if◌then◌else◌, arith, update, update_self, update-ne, Bool-cases, Option-cases, ℕ_discrete,
}
use cs537_project.Kalloc.{Kmem, kalloc}
use cs537_project.Vm.{Table, Pgdir, pdx, ptx, walk, walk_alloc, set_pte, is_present}

-- The entry for the page at `va`, if it is present.
abbrev pub if_present : Option ℕ → Option ℕ
if_present none = none
if_present (some pte) = if is_present pte then some pte else none

unfoldable pub present : Pgdir → ℕ → Option ℕ
present d va = if_present (walk d va)

walk-table :
    (d : Pgdir) (va : ℕ) (t : Table)
    → d.table (pdx va) ≡ some t
    → walk d va ≡ some (t.entry (ptx va))
unfolding walk
walk-table d va t e = rw (walk, e) refl

pub present-walk :
    (d : Pgdir) (va pte : ℕ)
    → walk d va ≡ some pte
    → is_present pte ≡ true
    → present d va ≡ some pte
unfolding present
present-walk d va pte e p = rw (e, p) refl

-- There is a table for `va`.
abbrev pub HasTable : Pgdir → ℕ → Type 0
HasTable d va = (t : Table) × (d.table (pdx va) ≡ some t)

pub walk-HasTable : (d : Pgdir) (a pte : ℕ) → walk d a ≡ some pte → HasTable d a
unfolding walk
walk-HasTable d a pte e = elim (Option-cases (d.table (pdx a))) [
  | inl out ↦ (let h = rw (walk, out) at e in cc)
  | inr (t, got) ↦ (t, got)
]

walk-none : (d : Pgdir) (va : ℕ) → d.table (pdx va) ≡ none → walk d va ≡ none
unfolding walk
walk-none d va e = rw (walk, e) refl

walk-same : (d d' : Pgdir) (b : ℕ) → d'.table (pdx b) ≡ d.table (pdx b) → walk d' b ≡ walk d b
unfolding walk
walk-same d d' b e = rw (walk, e) refl

-- The directory with another table for `va`.
abbrev with_table : Pgdir → ℕ → Table → Pgdir
with_table d va t = record d { table = update d.table (pdx va) (some t) }

-- A table of zeros shows no page.
new_table :
    (d : Pgdir) (va page b : ℕ)
    → d.table (pdx va) ≡ none
    → present (with_table d va (record { page = page; entry = λ i. 0 })) b ≡ present d b
unfolding present
new_table d va page b e =
    let t : Table = record { page = page; entry = λ i. 0 } in
    elim (ℕ_discrete (pdx va) (pdx b)) [
      | yes same ↦
          let there : (with_table d va t).table (pdx b) ≡ some t =
            subst (λ (i : ℕ). (with_table d va t).table i ≡ some t) same
              (update_self d.table (pdx va) (some t)) in
          ap if_present (walk-table (with_table d va t) b t there)
          ∙ sym (ap if_present (walk-none d b (ap d.table (sym same) ∙ e)))
      | no ne ↦
          ap if_present
            (walk-same d (with_table d va t) b (update-ne d.table (pdx va) (pdx b) (some t) ne))
    ]

-- `walkpgdir` with `alloc` makes a table if it can, and no page appears or goes by that.
pub walk_alloc_lem :
    (d : Pgdir) (k : Kmem) (va : ℕ)
    → ((walk_alloc d k va).1.page ≡ d.page)
      × ((b : ℕ) → present (walk_alloc d k va).1 b ≡ present d b)
      × (((walk_alloc d k va).0 ≡ false)
          ⊎ (((walk_alloc d k va).0 ≡ true) × HasTable (walk_alloc d k va).1 va))
unfolding walk_alloc
walk_alloc_lem d k va = elim (Option-cases (d.table (pdx va))) [
  | inr (t, e) ↦ rw (walk_alloc, e) (refl, λ b. refl, inr (refl, (t, e)))
  | inl e ↦ elim (Bool-cases ((kalloc k).0 == 0)) [
    | inl out ↦ rw (walk_alloc, e, out) (refl, λ b. refl, inl refl)
    | inr got ↦
        let t : Table = record { page = (kalloc k).0; entry = λ i. 0 } in
        rw (walk_alloc, e, got)
          (
            refl,
            λ b. new_table d va (kalloc k).0 b e,
            inr (refl, (t, update_self d.table (pdx va) (some t))),
          )
  ]
]

-- `*pte = x`: the entry is read back, and the entries of all other pages are as they were.
pub set_pte_self : (d : Pgdir) (va x : ℕ) → HasTable d va → walk (set_pte d va x) va ≡ some x
unfolding set_pte
set_pte_self d va x (t, e) =
    let t' : Table = record t { entry = update t.entry (ptx va) x } in
    rw (set_pte, e)
      (walk-table (with_table d va t') va t' (update_self d.table (pdx va) (some t'))
        ∙ ap some (update_self t.entry (ptx va) x))

pub set_pte-page : (d : Pgdir) (va x : ℕ) → (set_pte d va x).page ≡ d.page
unfolding set_pte
set_pte-page d va x = elim (Option-cases (d.table (pdx va))) [
  | inl e ↦ rw (set_pte, e) refl
  | inr (t, e) ↦ rw (set_pte, e) refl
]

-- Two addresses below 2 ^ 32 in different pages.
abbrev pub Apart : ℕ → ℕ → Type 0
Apart a b = (b < 2 ^ 32) × (a < 2 ^ 32) × (a / 4096 ≢ b / 4096)

pub set_pte-ne : (d : Pgdir) (va x b : ℕ) → Apart va b → walk (set_pte d va x) b ≡ walk d b
unfolding set_pte
set_pte-ne d va x b (fits, fits', apart) = elim (Option-cases (d.table (pdx va))) [
  | inl e ↦ rw (set_pte, e) refl
  | inr (t, e) ↦
      let t' : Table = record t { entry = update t.entry (ptx va) x } in
      rw (set_pte, e)
        (elim (ℕ_discrete (pdx va) (pdx b)) [
          | yes same ↦
              let there : (with_table d va t').table (pdx b) ≡ some t' =
                subst (λ (i : ℕ). (with_table d va t').table i ≡ some t') same
                  (update_self d.table (pdx va) (some t')) in
              walk-table (with_table d va t') b t' there
              ∙ ap some (update-ne t.entry (ptx va) (ptx b) x (λ e'. apart (omega arith)))
              ∙ sym (walk-table d b t (ap d.table (sym same) ∙ e))
          | no ne ↦
              walk-same d (with_table d va t') b (update-ne d.table (pdx va) (pdx b) (some t') ne)
        ])
]

pub set_pte-present_ne :
    (d : Pgdir) (va x b : ℕ) → Apart va b → present (set_pte d va x) b ≡ present d b
unfolding present
set_pte-present_ne d va x b apart = ap if_present (set_pte-ne d va x b apart)
