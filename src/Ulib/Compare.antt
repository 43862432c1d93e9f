-- ===== src/Ulib/Compare.antt =====
-- `strcmp` of ulib.c.
use cs537_project.Prelude.{
  ℕ, zero, suc, ◌+◌, ◌≤◌, ◌<◌, ◌≡◌, ◌≢◌, inl, inr, refl, ap, ◌∙◌, true, not, ◌&&◌, and_true, none,
  some, of_some-eq, ◌==◌, arith, Bool-cases, sub32,
}
use cs537_project.Ulib.{strcmp}

-- With a byte 0 among those that are looked at in the first string, `strcmp` comes to an end.
pub strcmp-total :
    (r : ℕ) (mem : ℕ → ℕ) (p q n : ℕ) → n < r → mem (p + n) ≡ 0 → strcmp r mem p q ≢ none
unfolding strcmp
strcmp-total zero mem p q n h e z = absurd (omega arith)
strcmp-total (suc r) mem p q zero h e z =
    let ended : (mem p == 0) ≡ true =
      (let at : mem p ≡ 0 = ap mem (omega arith) ∙ e in rw at refl) in
    (let z' = rw ended at z in cc)
strcmp-total (suc r) mem p q (suc n) h e z =
    elim (Bool-cases (not (mem p == 0) && (mem p == mem q))) [
      | inr stop ↦ (let z' = rw stop at z in cc)
      | inl more ↦
          strcmp-total r mem (p + 1) (q + 1) n (omega arith) (ap mem (omega arith) ∙ e)
            (rw more at z)
    ]

-- Two strings that agree up to the byte 0 that ends both.
abbrev pub SameString : (ℕ → ℕ) → ℕ → ℕ → Type 0
SameString mem p q = (k : ℕ) × ((mem (p + k) ≡ 0) × ((i : ℕ) → i ≤ k → mem (p + i) ≡ mem (q + i)))

SameString-cons :
    (mem : ℕ → ℕ) (p q : ℕ) → mem p ≡ mem q → SameString mem (p + 1) (q + 1) → SameString mem p q
SameString-cons mem p q same (k, (ended, rest)) = (suc k, (ap mem (omega arith) ∙ ended, each))
  where
    each : (i : ℕ) → i ≤ suc k → mem (p + i) ≡ mem (q + i)
    each zero h = ap mem (omega arith) ∙ same ∙ ap mem (omega arith)
    each (suc i) h = ap mem (omega arith) ∙ rest i (omega arith) ∙ ap mem (omega arith)

-- On a memory of bytes `strcmp` returns 0 only for equal strings.
pub strcmp-SameString :
    (r : ℕ) (mem : ℕ → ℕ) (p q : ℕ)
    → ((a : ℕ) → mem a < 256)
    → strcmp r mem p q ≡ some 0
    → SameString mem p q
unfolding strcmp
strcmp-SameString zero mem p q bytes e = cc
strcmp-SameString (suc r) mem p q bytes e =
    elim (Bool-cases (not (mem p == 0) && (mem p == mem q))) [
      | inl more ↦
          let (some_byte, same) = and_true (not (mem p == 0)) (mem p == mem q) more in
          SameString-cons mem p q (ground arith)
            (strcmp-SameString r mem (p + 1) (q + 1) bytes (rw more at e))
      | inr stop ↦
          let d : sub32 (mem p) (mem q) ≡ 0 = of_some-eq (rw stop at e) in
          let p_byte = bytes p in
          let q_byte = bytes q in
          let same : mem p ≡ mem q = omega arith in
          let ended : mem p ≡ 0 = ground (arith, stop, same) in
          (
            0,
            (
              ap mem (omega arith) ∙ ended,
              λ i h. ap mem (omega arith) ∙ same ∙ ap mem (omega arith),
            ),
          )
    ]
