-- ===== src/Vm/Guard.antt =====
-- `clearpteu` and `copyout`: the page beneath the user stack.
use cs537_project.Prelude.{
  ℕ, zero, suc, ◌+◌, ◌-◌, ◌*◌, ◌/◌, ◌%◌, ◌^◌, ◌<◌, ◌≤◌, ◌≡◌, ◌≢◌, add32, true, inl, inr, refl, sym,
  false, some, of_some-eq, Option, ap, ◌∙◌, Bool, ltb, ℕ_discrete, ◌==◌, if◌then◌else◌, arith,
  Bool-cases, Option-cases, pgsize, pg_round_down,
}
use cs537_project.Vm.{
  Pgdir, walk, set_pte, is_present, is_user, clearpteu, uva2ka, copyout, copyout_from,
}
use cs537_project.Strings.{memmove}
use cs537_project.Vm.Walk.{walk-HasTable, set_pte_self}

-- The entry without PTE_U.
abbrev unuser : ℕ → ℕ
unuser pte = if is_user pte then pte - 4 else pte

unuser_lem : (pte : ℕ) → is_user (unuser pte) ≡ false
unuser_lem pte = ground arith

uva2ka-unuser :
    (d : Pgdir) (uva pte : ℕ) → walk d uva ≡ some pte → is_user pte ≡ false → uva2ka d uva ≡ some 0
unfolding uva2ka
uva2ka-unuser d uva pte e u = elim (Bool-cases (is_present pte)) [
  | inl p ↦ rw (uva2ka, e, p, u) refl
  | inr p ↦ rw (uva2ka, e, p) refl
]

clearpteu-uva2ka : (d d' : Pgdir) (uva : ℕ) → clearpteu d uva ≡ some d' → uva2ka d' uva ≡ some 0
unfolding clearpteu
clearpteu-uva2ka d d' uva e = elim (Option-cases (walk d uva)) [
  | inl out ↦ (let e' = rw (clearpteu, out) at e in cc)
  | inr (pte, found) ↦
      let e' : set_pte d uva (unuser pte) ≡ d' = of_some-eq (rw (clearpteu, found) at e) in
      rw (sym e') (
        uva2ka-unuser (set_pte d uva (unuser pte)) uva (unuser pte)
          (set_pte_self d uva (unuser pte) (walk-HasTable d uva pte found)) (unuser_lem pte))
]

-- A page for which `uva2ka` has no address.
abbrev IsClosed : Pgdir → ℕ → Type 0
IsClosed d uva = (uva % pgsize ≡ 0) × (uva2ka d uva ≡ some 0)

-- The copy ends at the first page that is closed.
copyout_from-closed :
    (r : ℕ) (d : Pgdir) (mem : ℕ → ℕ) (uva va p len : ℕ)
    → IsClosed d uva
    → pg_round_down va ≡ uva
    → 0 < len
    → copyout_from (suc r) d mem va p len ≡ some (false, mem)
unfolding copyout_from
copyout_from-closed r d mem uva va p len (aligned, none_there) at pos =
    let more : (len == 0) ≡ false = ground arith in rw (copyout_from, more, at, none_there) refl

copyout_from-fails :
    (r : ℕ) (d : Pgdir) (mem : ℕ → ℕ) (uva va p len : ℕ)
    → IsClosed d uva
    → va < uva + pgsize
    → uva < va + len
    → 0 < len
    → va + len ≤ 2 ^ 32
    → uva < pg_round_down va + r * pgsize
    → (mem' : ℕ → ℕ) → copyout_from r d mem va p len ≢ some (true, mem')
unfolding copyout_from
copyout_from-fails zero d mem uva va p len closed near far pos fits enough mem' e =
    absurd (omega arith)
copyout_from-fails (suc r) d mem uva va p len closed near far pos fits enough mem' e =
    let more : (len == 0) ≡ false = ground arith in
    let va0 = pg_round_down va in
    let aligned = closed.0 in
    elim (ℕ_discrete va0 uva) [
      | yes at ↦ not_both mem' (sym (copyout_from-closed r d mem uva va p len closed at pos) ∙ e)
      | no before ↦
          let room = pgsize - (va - va0) in
          let short : ltb len room ≡ false = ground arith in
          let next : add32 va0 pgsize ≡ va0 + pgsize = omega arith in
          elim (Option-cases (uva2ka d va0)) [
            | inl out ↦ (let e' = rw (copyout_from, more, out) at e in cc)
            | inr (pa0, found) ↦ elim (Bool-cases (pa0 == 0)) [
              | inl nowhere ↦ not_both mem' (rw (copyout_from, more, found, nowhere) at e)
              | inr there ↦
                  copyout_from-fails r d (memmove mem (add32 pa0 (va - va0)) p room) uva
                    (va0 + pgsize) (add32 p room) (len - room) closed (omega arith) (omega arith)
                    (omega arith) (omega arith) (omega arith) mem'
                    (rw (copyout_from, more, found, there, short, next) at e)
            ]
          ]
    ]
  where
    false_true : false ≡ true → ⊥
    false_true h = cc

    not_both :
        (m : ℕ → ℕ) → ◌≡◌ {A = Option (Bool × (ℕ → ℕ))} (some (false, mem)) (some (true, m)) → ⊥
    not_both m h = false_true (ap (λ (x : Bool × (ℕ → ℕ)). x.0) (of_some-eq h))

-- After `clearpteu` of a page, which has not panicked: a `copyout` of at least one byte to a range of the
-- address space with a byte in the page does not succeed; and if the range starts in the page, it
-- returns -1 and changes no memory.
pub clearpteu-copyout :
    (d d' : Pgdir) (mem : ℕ → ℕ) (uva va p len : ℕ)
    → uva % pgsize ≡ 0
    → clearpteu d uva ≡ some d'
    → 0 < len
    → va < uva + pgsize
    → uva < va + len
    → va + len ≤ 2 ^ 32
    → ((mem' : ℕ → ℕ) → copyout d' mem va p len ≢ some (true, mem'))
      × (uva ≤ va → copyout d' mem va p len ≡ some (false, mem))
unfolding copyout
clearpteu-copyout d d' mem uva va p len aligned e pos near far fits =
    let closed : IsClosed d' uva = (aligned, clearpteu-uva2ka d d' uva e) in
    let rounds : len / pgsize + 2 ≡ suc (len / pgsize + 1) = omega arith in
    (
      copyout_from-fails (len / pgsize + 2) d' mem uva va p len closed near far pos fits
          (omega arith),
      λ inside.
          rw rounds
            (copyout_from-closed (len / pgsize + 1) d' mem uva va p len closed (omega arith) pos),
    )
