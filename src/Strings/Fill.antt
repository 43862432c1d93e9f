-- ===== src/Strings/Fill.antt =====
-- `memset` of string.c.
use cs537_project.Prelude.{
  ℕ, zero, suc, ◌+◌, ◌-◌, ◌*◌, ◌/◌, ◌%◌, ◌≤◌, ◌<◌, ◌≡◌, ◌⊎◌, inl, inr, refl, ap, ◌∙◌, ◌&&◌,
  Bool-cases, ◌==◌, arith, update, update_self, update-ne,
}
use mathlib.Core.Path.{subst}
use cs537_project.Prelude.{dec_lt, and_true}
use cs537_project.Strings.{stosb, store_word, store_words, memset}

-- The `n` bytes at `dst` are `c`, and nothing else has changed.
pub record Filled (mem : ℕ → ℕ) (dst c n : ℕ) (mem' : ℕ → ℕ) : Type 0 where
  pub filled : (i : ℕ) → i < n → mem' (dst + i) ≡ c
  pub kept : (a : ℕ) → (a < dst) ⊎ (dst + n ≤ a) → mem' a ≡ mem a

Filled-join :
    {m0 m1 m2 : ℕ → ℕ} (dst c n k : ℕ)
    → Filled m0 dst c n m1
    → Filled m1 (dst + n) c k m2
    → Filled m0 dst c (n + k) m2
Filled-join {m0} {m1} {m2} dst c n k first rest = record {
  filled = filled;
  kept = λ a h. rest.kept a (omega (arith, h)) ∙ first.kept a (omega (arith, h));
}
  where
    filled : (i : ℕ) → i < n + k → m2 (dst + i) ≡ c
    filled i h = elim (dec_lt i n) [
      | yes low ↦ rest.kept (dst + i) (inl (omega arith)) ∙ first.filled i low
      | no high ↦ ap m2 (omega arith) ∙ rest.filled (i - n) (omega arith)
    ]

Filled-one : (mem : ℕ → ℕ) (dst c x : ℕ) → x ≡ c → Filled mem dst c 1 (update mem dst x)
Filled-one mem dst c x e = record {
  filled = λ i h. ap (update mem dst x) (omega arith) ∙ update_self mem dst x ∙ e;
  kept = λ a h. update-ne mem dst a x (λ z. omega (arith, h, z));
}

stosb-Filled : (mem : ℕ → ℕ) (dst c n : ℕ) → Filled mem dst (c % 256) n (stosb mem dst c n)
unfolding stosb
stosb-Filled mem dst c zero = record { filled = λ i h. absurd (omega arith); kept = λ a h. refl }
stosb-Filled mem dst c (suc n) =
    subst (λ (k : ℕ). Filled mem dst (c % 256) k (stosb (update mem dst (c % 256)) (dst + 1) c n))
      (omega arith)
      (Filled-join dst (c % 256) 1 n (Filled-one mem dst (c % 256) (c % 256) refl)
        (stosb-Filled (update mem dst (c % 256)) (dst + 1) c n))

-- A word that has the byte four times.
word-Filled :
    (mem : ℕ → ℕ) (dst b : ℕ) → b < 256 → Filled mem dst b 4 (store_word mem dst (b * 0x101_0101))
word-Filled mem dst b byte =
    Filled-join dst b 3 1
      (Filled-join dst b 2 1
        (Filled-join dst b 1 1 (Filled-one mem dst b (b * 0x101_0101 % 256) (omega arith))
          (Filled-one _ (dst + 1) b (b * 0x101_0101 / 0x100 % 256) (omega arith)))
        (Filled-one _ (dst + 2) b (b * 0x101_0101 / 0x1_0000 % 256) (omega arith)))
      (Filled-one _ (dst + 3) b (b * 0x101_0101 / 0x100_0000 % 256) (omega arith))

store_words-Filled :
    (mem : ℕ → ℕ) (dst b n : ℕ)
    → b < 256
    → Filled mem dst b (n * 4) (store_words mem dst (b * 0x101_0101) n)
unfolding store_words
store_words-Filled mem dst b zero byte = record {
  filled = λ i h. absurd (omega arith);
  kept = λ a h. refl;
}
store_words-Filled mem dst b (suc n) byte =
    subst
      (λ (k : ℕ).
        Filled mem dst b k
          (store_words (store_word mem dst (b * 0x101_0101)) (dst + 4) (b * 0x101_0101) n))
      (omega arith)
      (Filled-join dst b 4 (n * 4) (word-Filled mem dst b byte)
        (store_words-Filled (store_word mem dst (b * 0x101_0101)) (dst + 4) b n byte))

-- `memset` sets the `n` bytes at `dst` to the lowest byte of `c`, in words or in bytes, and nothing else.
pub memset-Filled : (mem : ℕ → ℕ) (dst c n : ℕ) → Filled mem dst (c % 256) n (memset mem dst c n)
unfolding memset
memset-Filled mem dst c n = elim (Bool-cases (dst % 4 == 0 && n % 4 == 0)) [
  | inl words ↦
      let (dst_words, n_words) = and_true (dst % 4 == 0) (n % 4 == 0) words in
      let whole : n / 4 * 4 ≡ n = ground arith in
      rw words (
        subst
          (λ (k : ℕ).
            Filled mem dst (c % 256) k (store_words mem dst (c % 256 * 0x101_0101) (n / 4)))
          whole (store_words-Filled mem dst (c % 256) (n / 4) (omega arith)))
  | inr bytes ↦ rw bytes (stosb-Filled mem dst c n)
]
