-- ===== src/Strings/Copy.antt =====
-- `safestrcpy` of string.c.
use cs537_project.Prelude.{
  ℕ, zero, suc, ◌+◌, ◌≤◌, ◌<◌, ◌≡◌, ◌≢◌, ◌⊎◌, inl, inr, refl, ap, sym, ◌∙◌, Bool-cases, ◌==◌, arith,
  update, update_self, update-ne,
}
use cs537_project.Strings.{copy_string, safestrcpy}

-- A string of less than `n` bytes has been copied from `t` to `s`, up to its end or cut off, and is
-- terminated; nothing outside the `n` bytes has changed.
pub record Terminated (mem : ℕ → ℕ) (s t n : ℕ) (mem' : ℕ → ℕ) : Type 0 where
  pub size : ℕ
  pub fits : size < n
  pub copied : (i : ℕ) → i < size → mem' (s + i) ≡ mem (t + i)
  pub nonzero : (i : ℕ) → i < size → mem (t + i) ≢ 0
  pub ended : mem' (s + size) ≡ 0
  pub whole : (mem (t + size) ≡ 0) ⊎ (size + 1 ≡ n)
  pub kept : (a : ℕ) → (a < s) ⊎ (s + n ≤ a) → mem' a ≡ mem a

Terminated-cons :
    {m : ℕ → ℕ} (mem : ℕ → ℕ) (s t n : ℕ)
    → (t + suc n ≤ s) ⊎ (s + suc n ≤ t)
    → mem t ≢ 0
    → Terminated (update mem s (mem t)) (s + 1) (t + 1) n m
    → Terminated mem s t (suc n) m
Terminated-cons {m} mem s t n apart some_byte rest = record {
  size = suc rest.size;
  fits = omega (arith, rest.fits);
  copied = copied;
  nonzero = nonzero;
  ended = ap m (omega arith) ∙ rest.ended;
  whole = elim rest.whole [
    | inl e ↦ inl (
        ap mem (omega arith)
        ∙ sym
            (update-ne mem s (t + 1 + rest.size) (mem t) (λ z. omega (arith, apart, z, rest.fits)))
        ∙ e)
    | inr e ↦ inr (omega (arith, e))
  ];
  kept =
      λ a h. rest.kept a (omega (arith, h)) ∙ update-ne mem s a (mem t) (λ z. omega (arith, h, z));
}
  where
    other : (i : ℕ) → i < n → update mem s (mem t) (t + 1 + i) ≡ mem (t + 1 + i)
    other i h = update-ne mem s (t + 1 + i) (mem t) (λ z. omega (arith, apart, z))

    copied : (i : ℕ) → i < suc rest.size → m (s + i) ≡ mem (t + i)
    copied zero h =
        rest.kept (s + 0) (inl (omega arith))
        ∙ ap (update mem s (mem t)) (omega arith)
        ∙ update_self mem s (mem t)
        ∙ ap mem (omega arith)
    copied (suc i) h =
        ap m (omega arith)
        ∙ rest.copied i (omega arith)
        ∙ other i (omega (arith, rest.fits))
        ∙ ap mem (omega arith)

    nonzero : (i : ℕ) → i < suc rest.size → mem (t + i) ≢ 0
    nonzero zero h z = some_byte (ap mem (omega arith) ∙ z)
    nonzero (suc i) h z =
        rest.nonzero i (omega arith) (other i (omega (arith, rest.fits)) ∙ ap mem (omega arith) ∙ z)

copy_string-Terminated :
    (mem : ℕ → ℕ) (s t n : ℕ)
    → (t + suc n ≤ s) ⊎ (s + suc n ≤ t)
    → Terminated mem s t (suc n) (copy_string mem s t n)
unfolding copy_string
copy_string-Terminated mem s t zero apart = record {
  size = 0;
  fits = omega arith;
  copied = λ i h. absurd (omega arith);
  nonzero = λ i h. absurd (omega arith);
  ended = ap (update mem s 0) (omega arith) ∙ update_self mem s 0;
  whole = inr refl;
  kept = λ a h. update-ne mem s a 0 (λ z. omega (arith, h, z));
}
copy_string-Terminated mem s t (suc n) apart = elim (Bool-cases (mem t == 0)) [
  | inr more ↦ rw more (
      Terminated-cons mem s t (suc n) apart (λ z. ground (arith, z, more))
        (copy_string-Terminated (update mem s (mem t)) (s + 1) (t + 1) n (omega (arith, apart))))
  | inl done ↦
      let zero_byte : mem t ≡ 0 = ground arith in
      rw done (record {
        size = 0;
        fits = omega arith;
        copied = λ i h. absurd (omega arith);
        nonzero = λ i h. absurd (omega arith);
        ended =
            update-ne (update mem s (mem t)) (s + 1) (s + 0) 0 (λ z. omega (arith, z))
            ∙ ap (update mem s (mem t)) (omega arith)
            ∙ update_self mem s (mem t)
            ∙ zero_byte;
        whole = inl (ap mem (omega arith) ∙ zero_byte);
        kept = λ a h.
            update-ne (update mem s (mem t)) (s + 1) a 0 (λ z. omega (arith, h, z))
            ∙ update-ne mem s a (mem t) (λ z. omega (arith, h, z));
      })
]

-- `safestrcpy` into at least one byte, from a block apart from it, always leaves a terminated string,
-- which is the string at `t`, or what of it fits; nothing outside the `n` bytes has changed.
pub safestrcpy-Terminated :
    (mem : ℕ → ℕ) (s t n : ℕ)
    → 0 < n
    → (t + n ≤ s) ⊎ (s + n ≤ t)
    → Terminated mem s t n (safestrcpy mem s t n)
unfolding safestrcpy
safestrcpy-Terminated mem s t zero pos apart = absurd (omega arith)
safestrcpy-Terminated mem s t (suc n) pos apart = copy_string-Terminated mem s t n apart
