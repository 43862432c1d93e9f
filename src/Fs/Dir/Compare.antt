-- ===== src/Fs/Dir/Compare.antt =====
-- `namecmp` against the names as sequences of bytes.
use cs537_project.Prelude.{
  ℕ, zero, suc, ◌+◌, ◌^◌, ◌<◌, ◌≡◌, inl, inr, refl, ap, ◌∙◌, Bool, true, false, ◌&&◌, ◌||◌, ◌==◌,
  arith, Bool-cases, sub32,
}
use cs537_project.Strings.{strncmp}

-- The names agree up to their NUL, or in all of their `n` bytes.
unfoldable pub same_name : ℕ → (ℕ → ℕ) → (ℕ → ℕ) → Bool
same_name zero a b = true
same_name (suc n) a b =
    (a 0 == b 0) && ((a 0 == 0) || same_name n (λ j. a (suc j)) (λ j. b (suc j)))

pub same_name_ext :
    (n : ℕ) (a b c d : ℕ → ℕ)
    → ((j : ℕ) → j < n → a j ≡ c j)
    → ((j : ℕ) → j < n → b j ≡ d j)
    → same_name n a b ≡ same_name n c d
unfolding same_name
same_name_ext zero a b c d h k = refl
same_name_ext (suc n) a b c d h k =
    let rest =
      same_name_ext n (λ j. a (suc j)) (λ j. b (suc j)) (λ j. c (suc j)) (λ j. d (suc j))
        (λ j low. h (suc j) (omega arith)) (λ j low. k (suc j) (omega arith)) in
    rw (h 0 (omega arith), k 0 (omega arith), rest) refl

pub strncmp-same_name :
    (n : ℕ) (mem : ℕ → ℕ) (p q : ℕ) (a b : ℕ → ℕ)
    → ((j : ℕ) → j < n → (mem (p + j) ≡ a j) × (a j < 2 ^ 32))
    → ((j : ℕ) → j < n → (mem (q + j) ≡ b j) × (b j < 2 ^ 32))
    → (strncmp mem p q n == 0) ≡ same_name n a b
unfolding strncmp same_name
strncmp-same_name zero mem p q a b h k = refl
strncmp-same_name (suc n) mem p q a b h k =
    let rest =
      strncmp-same_name n mem (p + 1) (q + 1) (λ j. a (suc j)) (λ j. b (suc j))
        (λ j low. (ap mem (omega arith) ∙ (h (suc j) (omega arith)).0, (h (suc j) (omega arith)).1))
        (λ j low.
          (ap mem (omega arith) ∙ (k (suc j) (omega arith)).0, (k (suc j) (omega arith)).1)) in
    let first : mem p ≡ a 0 = ap mem (omega arith) ∙ (h 0 (omega arith)).0 in
    let second : mem q ≡ b 0 = ap mem (omega arith) ∙ (k 0 (omega arith)).0 in
    let small_a : a 0 < 2 ^ 32 = (h 0 (omega arith)).1 in
    let small_b : b 0 < 2 ^ 32 = (k 0 (omega arith)).1 in
    elim (Bool-cases (a 0 == b 0)) [
      | inr differ ↦
          let other : (a 0 == b 0) ≡ false = differ in
          let nonzero : (sub32 (a 0) (b 0) == 0) ≡ false = ground arith in
          elim (Bool-cases (a 0 == 0)) [
            | inl ends ↦ rw (strncmp, first, second, differ, ends, nonzero) refl
            | inr more ↦ rw (strncmp, first, second, differ, more, nonzero) refl
          ]
      | inl same ↦
          let zero_here : (sub32 (a 0) (b 0) == 0) ≡ true = ground arith in
          elim (Bool-cases (a 0 == 0)) [
            | inl ends ↦ rw (strncmp, first, second, same, ends, zero_here) refl
            | inr more ↦ rw (strncmp, first, second, same, more, rest) refl
          ]
    ]
