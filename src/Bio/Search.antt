-- ===== src/Bio/Search.antt =====
-- The loops of `bget` and the list of the buffers.
use cs537_project.Prelude.{
  ℕ, ◌≡◌, ◌≢◌, ◌⊎◌, inl, inr, refl, sym, ap, ◌∙◌, List, [], ◌∷◌, Bool, true, false, ◌||◌, or_true,
  none, some, of_some-eq, ◌==◌, arith, Bool-cases, Option-cases, ℕ_discrete,
}
use cs537_project.Bio.{find_first, find_last, unlink}

-- Whether a buffer is in the list.
unfoldable pub has : ℕ → List ℕ → Bool
has i [] = false
has i (b ∷ l) = (b == i) || has i l

pub has_head : (i : ℕ) (l : List ℕ) → has i (i ∷ l) ≡ true
unfolding has
has_head i l = ground arith

pub has_tail : (i b : ℕ) (l : List ℕ) → has i l ≡ true → has i (b ∷ l) ≡ true
unfolding has
has_tail i b l h = elim (Bool-cases (b == i)) [ inl e ↦ rw e refl | inr e ↦ rw e h ]

pub find_first-none :
    (p : ℕ → Bool) (l : List ℕ) (i : ℕ) → find_first p l ≡ none → has i l ≡ true → p i ≡ false
unfolding find_first has
find_first-none p [] i e h = cc
find_first-none p (b ∷ l) i e h = elim (Bool-cases (p b)) [
  | inl yes_b ↦ (let e' = rw yes_b at e in cc)
  | inr no_b ↦ elim (or_true (b == i) (has i l) h) [
    | inl same ↦ (let at : b ≡ i = ground arith in ap p (sym at) ∙ no_b)
    | inr there ↦ find_first-none p l i (rw no_b at e) there
  ]
]

pub find_first-some :
    (p : ℕ → Bool) (l : List ℕ) (i : ℕ) → find_first p l ≡ some i → (has i l ≡ true) × (p i ≡ true)
unfolding find_first
find_first-some p [] i e = cc
find_first-some p (b ∷ l) i e = elim (Bool-cases (p b)) [
  | inl yes_b ↦ let at : b ≡ i = of_some-eq (rw yes_b at e) in rw (sym at) (has_head b l, yes_b)
  | inr no_b ↦
      let (there, good) = find_first-some p l i (rw no_b at e) in (has_tail i b l there, good)
]

pub find_last-some :
    (p : ℕ → Bool) (l : List ℕ) (i : ℕ) → find_last p l ≡ some i → (has i l ≡ true) × (p i ≡ true)
unfolding find_last
find_last-some p [] i e = cc
find_last-some p (b ∷ l) i e = elim (Option-cases (find_last p l)) [
  | inr (j, found) ↦
      let at : j ≡ i = of_some-eq (rw found at e) in
      let (there, good) = find_last-some p l i (found ∙ ap some at) in (has_tail i b l there, good)
  | inl out ↦ elim (Bool-cases (p b)) [
    | inl yes_b ↦
        let at : b ≡ i = of_some-eq (rw (out, yes_b) at e) in rw (sym at) (has_head b l, yes_b)
    | inr no_b ↦ (let e' = rw (out, no_b) at e in cc)
  ]
]

pub find_last-none :
    (p : ℕ → Bool) (l : List ℕ) (i : ℕ) → find_last p l ≡ none → has i l ≡ true → p i ≡ false
unfolding find_last has
find_last-none p [] i e h = cc
find_last-none p (b ∷ l) i e h = elim (Option-cases (find_last p l)) [
  | inr (j, found) ↦ (let e' = rw found at e in cc)
  | inl out ↦ elim (Bool-cases (p b)) [
    | inl yes_b ↦ (let e' = rw (out, yes_b) at e in cc)
    | inr no_b ↦ elim (or_true (b == i) (has i l) h) [
      | inl same ↦ (let at : b ≡ i = ground arith in ap p (sym at) ∙ no_b)
      | inr there ↦ find_last-none p l i out there
    ]
  ]
]

has-unlink : (i j : ℕ) (l : List ℕ) → j ≢ i → has j l ≡ true → has j (unlink i l) ≡ true
unfolding has unlink
has-unlink i j [] ne h = h
has-unlink i j (b ∷ l) ne h = elim (or_true (b == j) (has j l) h) [
  | inl here ↦
      let at : b ≡ j = ground arith in
      let other : (b == i) ≡ false = ground arith in rw other (rw at (has_head j (unlink i l)))
  | inr there ↦ elim (Bool-cases (b == i)) [
    | inl gone ↦ rw gone there
    | inr kept ↦ rw kept (has_tail j b (unlink i l) (has-unlink i j l ne there))
  ]
]

unlink-has : (i j : ℕ) (l : List ℕ) → has j (unlink i l) ≡ true → has j l ≡ true
unfolding has unlink
unlink-has i j [] h = h
unlink-has i j (b ∷ l) h = elim (Bool-cases (b == i)) [
  | inl gone ↦ has_tail j b l (rw gone at h)
  | inr kept ↦ elim (or_true (b == j) (has j (unlink i l)) (rw kept at h)) [
    | inl here ↦ (let at : b ≡ j = ground arith in rw at (has_head j l))
    | inr there ↦ has_tail j b l (unlink-has i j l there)
  ]
]

-- A buffer that is unlinked and put in front is in the list, and so is every other as before.
pub has-relink : (i j : ℕ) (l : List ℕ) → has j l ≡ true → has j (i ∷ unlink i l) ≡ true
has-relink i j l h = elim (ℕ_discrete j i) [
  | yes same ↦ rw same (has_head i (unlink i l))
  | no ne ↦ has_tail j i (unlink i l) (has-unlink i j l ne h)
]

pub relink-has : (i j : ℕ) (l : List ℕ) → has j (i ∷ unlink i l) ≡ true → (j ≡ i) ⊎ (has j l ≡ true)
unfolding has
relink-has i j l h = elim (or_true (i == j) (has j (unlink i l)) h) [
  | inl here ↦ inl (ground arith)
  | inr there ↦ inr (unlink-has i j l there)
]
