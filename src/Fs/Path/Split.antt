-- ===== src/Fs/Path/Split.antt =====
-- The path cut at its slashes, against the two loops of `skipelem`.
use cs537_project.Prelude.{
  ℕ, suc, ◌≤◌, ◌≡◌, ◌≢◌, inl, inr, refl, ap, sym, ◌∙◌, List, [], ◌∷◌, true, false, ◌==◌,
  if◌then◌else◌, arith, Bool-cases, length, take,
}
use cs537_project.Fs.Path.{slash, skip_slashes, scan_elem}

-- The elements of a path: what lies between its slashes, where that is not empty.
abbrev pub keep : List ℕ → List (List ℕ) → List (List ℕ)
keep [] ws = ws
keep (c ∷ w) ws = (c ∷ w) ∷ ws

-- The first piece, and the elements after it.
unfoldable pub cut : List ℕ → List ℕ × List (List ℕ)
cut [] = ([], [])
cut (c ∷ path) = let (w, ws) = cut path in if c == slash then ([], keep w ws) else (c ∷ w, ws)

abbrev pub split : List ℕ → List (List ℕ)
split path = let (w, ws) = cut path in keep w ws

abbrev pub NoNul : List ℕ → Type 0
NoNul [] = Unit
NoNul (c ∷ l) = (c ≢ 0) × NoNul l

-- A slash, or another byte, at the head of the path.
skip_slashes-slash :
    (c : ℕ) (path : List ℕ) → (c == slash) ≡ true → skip_slashes (c ∷ path) ≡ skip_slashes path
unfolding skip_slashes
skip_slashes-slash c path h = rw h refl

skip_slashes_other :
    (c : ℕ) (path : List ℕ) → (c == slash) ≡ false → skip_slashes (c ∷ path) ≡ c ∷ path
unfolding skip_slashes
skip_slashes_other c path h = rw h refl

cut-slash : (c : ℕ) (path : List ℕ) → (c == slash) ≡ true → cut (c ∷ path) ≡ ([], split path)
unfolding cut
cut-slash c path h = rw h refl

cut_other :
    (c : ℕ) (path : List ℕ)
    → (c == slash) ≡ false
    → cut (c ∷ path) ≡ (c ∷ (cut path).0, (cut path).1)
unfolding cut
cut_other c path h = rw h refl

scan_elem-slash : (c : ℕ) (s : List ℕ) → (c == slash) ≡ true → scan_elem (c ∷ s) ≡ (0, c ∷ s)
unfolding scan_elem
scan_elem-slash c s h = rw h refl

pub scan_elem_other :
    (c : ℕ) (s : List ℕ)
    → (c == slash) ≡ false
    → scan_elem (c ∷ s) ≡ (suc (scan_elem s).0, (scan_elem s).1)
unfolding scan_elem
scan_elem_other c s h = rw h refl

abbrev pub joined : List ℕ × List (List ℕ) → List (List ℕ)
joined p = keep p.0 p.1

pub skip_slashes-split : (path : List ℕ) → split (skip_slashes path) ≡ split path
unfolding skip_slashes
skip_slashes-split [] = refl
skip_slashes-split (c ∷ path) = elim (Bool-cases (c == slash)) [
  | inl is_slash ↦
      ap split (skip_slashes-slash c path is_slash)
      ∙ skip_slashes-split path
      ∙ sym (ap joined (cut-slash c path is_slash))
  | inr other ↦ ap split (skip_slashes_other c path other)
]

pub scan_elem-cut : (s : List ℕ) → cut s ≡ (take (scan_elem s).0 s, split (scan_elem s).1)
unfolding scan_elem cut
scan_elem-cut [] = refl
scan_elem-cut (c ∷ s) = elim (Bool-cases (c == slash)) [
  | inl is_slash ↦
      cut-slash c s is_slash
      ∙ ap (λ (x : List (List ℕ)). ([], x)) (sym (ap joined (cut-slash c s is_slash)))
      ∙ sym (ap (λ (x : ℕ × List ℕ). (take x.0 (c ∷ s), split x.1)) (scan_elem-slash c s is_slash))
  | inr other ↦
      cut_other c s other
      ∙ ap (λ (x : List ℕ × List (List ℕ)). (c ∷ x.0, x.1)) (scan_elem-cut s)
      ∙ sym (ap (λ (x : ℕ × List ℕ). (take x.0 (c ∷ s), split x.1)) (scan_elem_other c s other))
]

pub split-nil : split [] ≡ []
unfolding cut
split-nil = refl

-- The lengths, and the bytes that are no NUL.
pub skip_slashes-length : (path : List ℕ) → length (skip_slashes path) ≤ length path
unfolding skip_slashes
skip_slashes-length [] = omega arith
skip_slashes-length (c ∷ path) = elim (Bool-cases (c == slash)) [
  | inl is_slash ↦ rw is_slash (omega (arith, skip_slashes-length path))
  | inr other ↦ rw other (omega arith)
]

pub skip_slashes-NoNul : (path : List ℕ) → NoNul path → NoNul (skip_slashes path)
unfolding skip_slashes
skip_slashes-NoNul [] h = tt
skip_slashes-NoNul (c ∷ path) (here, h) = elim (Bool-cases (c == slash)) [
  | inl is_slash ↦ rw is_slash (skip_slashes-NoNul path h)
  | inr other ↦ rw other (here, h)
]

pub skip_slashes_head :
    (path : List ℕ) (c : ℕ) (s : List ℕ) → skip_slashes path ≡ c ∷ s → (c == slash) ≡ false
unfolding skip_slashes
skip_slashes_head [] c s e = cc
skip_slashes_head (b ∷ path) c s e = elim (Bool-cases (b == slash)) [
  | inl is_slash ↦ skip_slashes_head path c s (rw is_slash at e)
  | inr other ↦
      (let e' : b ∷ path ≡ c ∷ s = rw other at e in let same : b ≡ c = cc in rw (sym same) other)
]

-- The element is part of the path, and so is the rest.
pub record Scanned (s : List ℕ) (len : ℕ) (rest : List ℕ) : Type 0 where
  pub inside : len ≤ length s
  pub shorter : length rest ≤ length s
  pub no_nul : NoNul s → NoNul rest

pub scan_elem-Scanned : (s : List ℕ) → Scanned s (scan_elem s).0 (scan_elem s).1
unfolding scan_elem
scan_elem-Scanned [] = record { inside = omega arith; shorter = omega arith; no_nul = λ h. h }
scan_elem-Scanned (c ∷ s) =
    let rest = scan_elem-Scanned s in
    elim (Bool-cases (c == slash)) [
      | inl is_slash ↦
          rw is_slash (record { inside = omega arith; shorter = omega arith; no_nul = λ h. h })
      | inr other ↦ rw other (record {
        inside = omega (arith, rest.inside);
        shorter = omega (arith, rest.shorter);
        no_nul = λ h. rest.no_nul h.1;
      })
    ]
