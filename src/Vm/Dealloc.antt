-- ===== src/Vm/Dealloc.antt =====
-- `deallocuvm`.
use mathlib.Core.Path.{subst}
use cs537_project.Prelude.{
  ℕ, zero, suc, ◌+◌, ◌*◌, ◌/◌, ◌%◌, ◌^◌, ◌≤◌, ◌<◌, ◌≡◌, ◌≢◌, ◌⊎◌, inl, inr, refl, ap, sym, ◌∙◌,
  true, false, Option, none, some, ◌==◌, ltb, leb, arith, Bool-cases, Option-cases, dec_lt, add32,
  sub32, pgsize, kernbase, pg_round_up, pg_round_down,
}
use cs537_project.Kalloc.{Kmem, kfree, is_bad}
use cs537_project.Vm.{
  Pgdir, pdx, pgaddr, walk, set_pte, is_present, pte_addr, p2v, dealloc_from, deallocuvm,
}
use cs537_project.Vm.Walk.{present, walk-HasTable, set_pte_self, set_pte-page, set_pte-present_ne}

-- The page of the entry can be given to `kfree`.
abbrev pub CanFree : ℕ → ℕ → Type 0
CanFree kernel_end pte = (pte_addr pte ≢ 0) × (is_bad kernel_end (p2v (pte_addr pte)) ≡ false)

-- Every user page below `oldsz` that is present can be freed.
abbrev pub AllFree : ℕ → Pgdir → ℕ → ℕ → Type 0
AllFree kernel_end d a oldsz =
    (b pte : ℕ)
    → a ≤ b
    → b < oldsz
    → b % pgsize ≡ 0
    → present d b ≡ some pte
    → CanFree kernel_end pte

-- No page from `a` up to `oldsz` is present, and the others are as they were.
pub record Cleared (d d' : Pgdir) (a oldsz : ℕ) : Type 0 where
  pub page : d'.page ≡ d.page
  pub gone : (b : ℕ) → a ≤ b → b < oldsz → b % pgsize ≡ 0 → present d' b ≡ none
  pub kept : (b : ℕ) → b < 2 ^ 32 → (b < a) ⊎ (oldsz ≤ pg_round_down b) → present d' b ≡ present d b

pub Cleared-none : (d : Pgdir) (a oldsz : ℕ) → oldsz ≤ a → Cleared d d a oldsz
Cleared-none d a oldsz h = record {
  page = refl;
  gone = λ b low high. absurd (omega arith);
  kept = λ b fits h. refl;
}

-- First the pages from `a` up to `a'`, then those behind.
Cleared-cons :
    {d e u : Pgdir} (a a' oldsz : ℕ)
    → a ≤ a'
    → oldsz ≤ kernbase
    → e.page ≡ d.page
    → ((b : ℕ) → a ≤ b → b < a' → b < oldsz → b % pgsize ≡ 0 → present e b ≡ none)
    → ((b : ℕ)
        → b < 2 ^ 32
        → (b < a) ⊎ ((a' ≤ b) ⊎ (oldsz ≤ pg_round_down b))
        → present e b ≡ present d b)
    → Cleared e u a' oldsz
    → Cleared d u a oldsz
Cleared-cons {d} {e} {u} a a' oldsz le low same gone kept rest = record {
  page = rest.page ∙ same;
  gone = λ b b_low high b_aligned. elim (dec_lt b a') [
    | yes before ↦ rest.kept b (omega arith) (inl before) ∙ gone b b_low before high b_aligned
    | no behind ↦ rest.gone b (omega arith) high b_aligned
  ];
  kept = λ b fits h. keep b fits h;
}
  where
    keep : (b : ℕ) → b < 2 ^ 32 → (b < a) ⊎ (oldsz ≤ pg_round_down b) → present u b ≡ present d b
    keep b fits (inl h) = rest.kept b fits (inl (omega arith)) ∙ kept b fits (inl h)
    keep b fits (inr h) = rest.kept b fits (inr h) ∙ kept b fits (inr (inr h))

pub kfree_total :
    (kernel_end v : ℕ) (k : Kmem) → is_bad kernel_end v ≡ false → kfree kernel_end v k ≢ none
unfolding kfree
kfree_total kernel_end v k good e = (let e' = rw good at e in cc)

pub present-none : (d : Pgdir) (b : ℕ) → walk d b ≡ none → present d b ≡ none
unfolding present
present-none d b e = rw e refl

pub not_present :
    (d : Pgdir) (b pte : ℕ) → walk d b ≡ some pte → is_present pte ≡ false → present d b ≡ none
unfolding present
not_present d b pte e p = rw (e, p) refl

pub is_there :
    (d : Pgdir) (b pte : ℕ) → walk d b ≡ some pte → is_present pte ≡ true → present d b ≡ some pte
unfolding present
is_there d b pte e p = rw (e, p) refl

-- Without a table for `a` there is none for the other pages of the same four megabytes.
walk-none_same : (d : Pgdir) (a b : ℕ) → walk d a ≡ none → pdx a ≡ pdx b → walk d b ≡ none
unfolding walk
walk-none_same d a b e same = elim (Option-cases (d.table (pdx a))) [
  | inl out ↦ rw (walk, ap d.table (sym same) ∙ out) refl
  | inr (t, got) ↦ (let h = rw (walk, got) at e in cc)
]

module _ (kernel_end : ℕ) where
  abbrev Result : Pgdir → ℕ → ℕ → Option (Pgdir × Kmem) → Type 0
  Result d a oldsz none = ⊥
  Result d a oldsz (some (u, k)) = Cleared d u a oldsz

  Result-cons :
      (d e : Pgdir) (a a' oldsz : ℕ) (r : Option (Pgdir × Kmem))
      → a ≤ a'
      → oldsz ≤ kernbase
      → e.page ≡ d.page
      → ((b : ℕ) → a ≤ b → b < a' → b < oldsz → b % pgsize ≡ 0 → present e b ≡ none)
      → ((b : ℕ)
          → b < 2 ^ 32
          → (b < a) ⊎ ((a' ≤ b) ⊎ (oldsz ≤ pg_round_down b))
          → present e b ≡ present d b)
      → Result e a' oldsz r
      → Result d a oldsz r
  Result-cons d e a a' oldsz none le low same gone kept rest = rest
  Result-cons d e a a' oldsz (some (u, k)) le low same gone kept rest =
      Cleared-cons a a' oldsz le low same gone kept rest

  -- The entry of the page at `a` is cleared.
  AllFree-cleared :
      (d : Pgdir) (a oldsz : ℕ)
      → oldsz ≤ kernbase
      → a < oldsz
      → AllFree kernel_end d a oldsz
      → AllFree kernel_end (set_pte d a 0) (a + pgsize) oldsz
  AllFree-cleared d a oldsz low before frees b pte b_low high aligned p =
      frees b pte (omega arith) high aligned
        (sym (set_pte-present_ne d a 0 b (omega arith, omega arith, λ e. omega arith)) ∙ p)

  gone-cleared :
      (d : Pgdir) (a pte b : ℕ) → walk d a ≡ some pte → b ≡ a → present (set_pte d a 0) b ≡ none
  gone-cleared d a pte b e same =
      ap (present (set_pte d a 0)) same
      ∙ not_present (set_pte d a 0) a 0 (set_pte_self d a 0 (walk-HasTable d a pte e)) refl

  kept-cleared :
      (d : Pgdir) (a oldsz b : ℕ)
      → oldsz ≤ kernbase
      → a < oldsz
      → a % pgsize ≡ 0
      → b < 2 ^ 32
      → (b < a) ⊎ ((a + pgsize ≤ b) ⊎ (oldsz ≤ pg_round_down b))
      → present (set_pte d a 0) b ≡ present d b
  kept-cleared d a oldsz b low before aligned fits h =
      set_pte-present_ne d a 0 b (fits, omega arith, λ e. omega (arith, h, e))

  dealloc_from_lem :
      (r : ℕ) (d : Pgdir) (k : Kmem) (a oldsz : ℕ)
      → oldsz ≤ kernbase
      → a % pgsize ≡ 0
      → oldsz ≤ a + r * pgsize
      → AllFree kernel_end d a oldsz
      → Result d a oldsz (dealloc_from kernel_end r d k a oldsz)
  unfolding dealloc_from
  dealloc_from_lem zero d k a oldsz low aligned enough frees = Cleared-none d a oldsz (omega arith)
  dealloc_from_lem (suc r) d k a oldsz low aligned enough frees = elim (Bool-cases (ltb a oldsz)) [
    | inr past ↦ rw (dealloc_from, past) (Cleared-none d a oldsz (ground arith))
    | inl before ↦
        let a_low : a < oldsz = ground arith in
        let up : add32 a pgsize ≡ a + pgsize = omega arith in
        elim (Option-cases (walk d a)) [
          | inl e ↦
              let jump : add32 (sub32 (pgaddr (pdx a + 1)) pgsize) pgsize
                  ≡ (pdx a + 1) * 0x40_0000 =
                omega arith in
              rw (dealloc_from, before, e, jump)
                (Result-cons d d a ((pdx a + 1) * 0x40_0000) oldsz
                  (dealloc_from kernel_end r d k ((pdx a + 1) * 0x40_0000) oldsz) (omega arith) low
                  refl
                  (λ b b_low b_high h aligned'.
                    present-none d b (walk-none_same d a b e (omega arith)))
                  (λ b fits h. refl)
                  (dealloc_from_lem r d k ((pdx a + 1) * 0x40_0000) oldsz low (omega arith)
                    (omega arith) (λ b pte b_low. frees b pte (omega arith))))
          | inr (pte, e) ↦ elim (Bool-cases (is_present pte)) [
            | inr p ↦
                rw (dealloc_from, before, e, p, up)
                  (Result-cons d d a (a + pgsize) oldsz
                    (dealloc_from kernel_end r d k (a + pgsize) oldsz) (omega arith) low refl
                    (λ b b_low b_high h aligned'.
                      ap (present d) (omega arith) ∙ not_present d a pte e p)
                    (λ b fits h. refl)
                    (dealloc_from_lem r d k (a + pgsize) oldsz low (omega arith) (omega arith)
                      (λ b pte b_low. frees b pte (omega arith))))
            | inl p ↦
                let (there, good) =
                  frees a pte (omega arith) a_low aligned (is_there d a pte e p) in
                let nonzero : (pte_addr pte == 0) ≡ false = ground arith in
                elim (Option-cases (kfree kernel_end (p2v (pte_addr pte)) k)) [
                  | inl out ↦ absurd (kfree_total kernel_end (p2v (pte_addr pte)) k good out)
                  | inr (k', freed) ↦
                      rw (dealloc_from, before, e, p, nonzero, freed, up)
                        (Result-cons d (set_pte d a 0) a (a + pgsize) oldsz
                          (dealloc_from kernel_end r (set_pte d a 0) k' (a + pgsize) oldsz)
                          (omega arith) low (set_pte-page d a 0)
                          (λ b b_low b_high h aligned'. gone-cleared d a pte b e (omega arith))
                          (λ b fits h. kept-cleared d a oldsz b low a_low aligned fits h)
                          (dealloc_from_lem r (set_pte d a 0) k' (a + pgsize) oldsz low
                            (omega arith) (omega arith)
                            (AllFree-cleared d a oldsz low a_low frees)))
                ]
          ]
        ]
  ]

  -- `deallocuvm` from a greater size, when each page present between can be freed, does not panic and
  -- returns the new size: the pages from the new size, rounded up, to the old one are gone, all others
  -- are as they were.
  pub deallocuvm_lem :
      (d : Pgdir) (k : Kmem) (oldsz newsz : ℕ)
      → oldsz ≤ kernbase
      → newsz < oldsz
      → AllFree kernel_end d (pg_round_up newsz) oldsz
      → (d' : Pgdir) × (k' : Kmem) × ((deallocuvm kernel_end d k oldsz newsz ≡ some (newsz, d', k'))
          × Cleared d d' (pg_round_up newsz) oldsz)
  unfolding deallocuvm
  deallocuvm_lem d k oldsz newsz low less frees =
      let test : leb oldsz newsz ≡ false = ground arith in
      let r = dealloc_from kernel_end (oldsz / pgsize + 1) d k (pg_round_up newsz) oldsz in
      let done : Result d (pg_round_up newsz) oldsz r =
        dealloc_from_lem (oldsz / pgsize + 1) d k (pg_round_up newsz) oldsz low (omega arith)
          (omega arith) frees in
      elim (Option-cases r) [
        | inl e ↦ absurd (subst (Result d (pg_round_up newsz) oldsz) e done)
        | inr ((d', k'), e) ↦ (
          d',
          k',
          (rw (deallocuvm, test, e) refl, subst (Result d (pg_round_up newsz) oldsz) e done),
        )
      ]
