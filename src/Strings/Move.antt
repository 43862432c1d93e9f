-- ===== src/Strings/Move.antt =====
-- `memmove` and `memcmp` of string.c.
use cs537_project.Prelude.{
  ℕ, zero, suc, ◌+◌, ◌-◌, ◌^◌, ◌≤◌, ◌<◌, ◌≡◌, ◌⊎◌, inl, inr, ◌↔◌, refl, ap, ◌∙◌, ◌&&◌, Bool-cases,
  false, ltb, ◌==◌, add32, arith, update, update_self, update-ne,
}
use cs537_project.Strings.{copy_up, copy_down, memmove, memcmp}

-- The `n` bytes at `src` are now at `dst`, and nothing else has changed.
pub record Moved (mem : ℕ → ℕ) (dst src n : ℕ) (mem' : ℕ → ℕ) : Type 0 where
  pub copied : (i : ℕ) → i < n → mem' (dst + i) ≡ mem (src + i)
  pub kept : (a : ℕ) → (a < dst) ⊎ (dst + n ≤ a) → mem' a ≡ mem a

Moved-cons :
    {m : ℕ → ℕ} (mem : ℕ → ℕ) (d s n : ℕ)
    → (d ≤ s) ⊎ (s + suc n ≤ d)
    → Moved (update mem d (mem s)) (d + 1) (s + 1) n m
    → Moved mem d s (suc n) m
Moved-cons {m} mem d s n apart rest = record { copied = copied; kept = kept }
  where
    copied : (i : ℕ) → i < suc n → m (d + i) ≡ mem (s + i)
    copied zero h =
        rest.kept (d + 0) (inl (omega arith))
        ∙ ap (update mem d (mem s)) (omega arith)
        ∙ update_self mem d (mem s)
        ∙ ap mem (omega arith)
    copied (suc i) h =
        ap m (omega arith)
        ∙ rest.copied i (omega arith)
        ∙ update-ne mem d (s + 1 + i) (mem s) (λ e. omega (arith, apart, e))
        ∙ ap mem (omega arith)

    kept : (a : ℕ) → (a < d) ⊎ (d + suc n ≤ a) → m a ≡ mem a
    kept a (inl h) = rest.kept a (inl (omega arith)) ∙ update-ne mem d a (mem s) (λ e. omega arith)
    kept a (inr h) = rest.kept a (inr (omega arith)) ∙ update-ne mem d a (mem s) (λ e. omega arith)

copy_up-Moved :
    (mem : ℕ → ℕ) (d s n : ℕ) → (d ≤ s) ⊎ (s + n ≤ d) → Moved mem d s n (copy_up mem d s n)
unfolding copy_up
copy_up-Moved mem d s zero apart = record {
  copied = λ i h. absurd (omega arith);
  kept = λ a h. refl;
}
copy_up-Moved mem d s (suc n) apart =
    Moved-cons mem d s n apart
      (copy_up-Moved (update mem d (mem s)) (d + 1) (s + 1) n (omega (arith, apart)))

-- The same from the ends of the blocks.
record MovedDown (mem : ℕ → ℕ) (d s n : ℕ) (mem' : ℕ → ℕ) : Type 0 where
  copied : (j : ℕ) → 0 < j → j ≤ n → mem' (d - j) ≡ mem (s - j)
  kept : (a : ℕ) → (a + n < d) ⊎ (d ≤ a) → mem' a ≡ mem a

MovedDown-cons :
    {m : ℕ → ℕ} (mem : ℕ → ℕ) (d s n : ℕ)
    → s < d
    → suc n ≤ s
    → MovedDown (update mem (d - 1) (mem (s - 1))) (d - 1) (s - 1) n m
    → MovedDown mem d s (suc n) m
MovedDown-cons {m} mem d s n low fits rest = record { copied = copied; kept = kept }
  where
    copied : (j : ℕ) → 0 < j → j ≤ suc n → m (d - j) ≡ mem (s - j)
    copied zero h h' = absurd (omega arith)
    copied (suc zero) h h' =
        rest.kept (d - 1) (inr (omega arith)) ∙ update_self mem (d - 1) (mem (s - 1))
    copied (suc (suc j)) h h' =
        ap m (omega arith)
        ∙ rest.copied (suc j) (omega arith) (omega arith)
        ∙ update-ne mem (d - 1) (s - 1 - suc j) (mem (s - 1)) (λ e. omega arith)
        ∙ ap mem (omega arith)

    kept : (a : ℕ) → (a + suc n < d) ⊎ (d ≤ a) → m a ≡ mem a
    kept a (inl h) =
        rest.kept a (inl (omega arith)) ∙ update-ne mem (d - 1) a (mem (s - 1)) (λ e. omega arith)
    kept a (inr h) =
        rest.kept a (inr (omega arith)) ∙ update-ne mem (d - 1) a (mem (s - 1)) (λ e. omega arith)

copy_down-MovedDown :
    (mem : ℕ → ℕ) (d s n : ℕ) → s < d → n ≤ s → MovedDown mem d s n (copy_down mem d s n)
unfolding copy_down
copy_down-MovedDown mem d s zero low fits = record {
  copied = λ j h h'. absurd (omega arith);
  kept = λ a h. refl;
}
copy_down-MovedDown mem d s (suc n) low fits = MovedDown-cons mem d s n low fits (
    copy_down-MovedDown (update mem (d - 1) (mem (s - 1))) (d - 1) (s - 1) n (omega arith)
      (omega arith))

MovedDown-Moved :
    {m mem : ℕ → ℕ} (d s n : ℕ) → MovedDown mem (d + n) (s + n) n m → Moved mem d s n m
MovedDown-Moved {m} {mem} d s n c = record {
  copied = λ i h.
      ap m (omega arith) ∙ c.copied (n - i) (omega arith) (omega arith) ∙ ap mem (omega arith);
  kept = λ a h. c.kept a (omega (arith, h));
}

-- `memmove` of blocks that do not run past the end of the address space, overlapping or not, copies
-- what the source held before, and changes nothing else.
pub memmove-Moved :
    (mem : ℕ → ℕ) (dst src n : ℕ)
    → dst + n < 2 ^ 32
    → src + n < 2 ^ 32
    → Moved mem dst src n (memmove mem dst src n)
unfolding memmove
memmove-Moved mem dst src n fits_dst fits_src =
    elim (Bool-cases (ltb src dst && ltb dst (add32 src n))) [
      | inr apart ↦ rw apart (copy_up-Moved mem dst src n (ground arith))
      | inl clash ↦
          let d : add32 dst n ≡ dst + n = omega arith in
          let s : add32 src n ≡ src + n = omega arith in
          let c = copy_down-MovedDown mem (dst + n) (src + n) n (ground arith) (omega arith) in
          rw (clash, d, s) (MovedDown-Moved dst src n c)
    ]

-- On a memory of bytes `memcmp` of two blocks is 0 exactly when they hold the same.
pub memcmp_iff :
    (mem : ℕ → ℕ) (s1 s2 n : ℕ)
    → ((a : ℕ) → mem a < 256)
    → (memcmp mem s1 s2 n ≡ 0) ↔ ((i : ℕ) → i < n → mem (s1 + i) ≡ mem (s2 + i))
unfolding memcmp
memcmp_iff mem s1 s2 zero bytes = (λ e i h. absurd (omega arith), λ same. refl)
memcmp_iff mem s1 s2 (suc n) bytes =
    let (there, back) = memcmp_iff mem (s1 + 1) (s2 + 1) n bytes in
    elim (Bool-cases (mem s1 == mem s2)) [
      | inl here ↦ rw here (
        λ e. every s1 s2 (ground arith) (there e),
        λ same.
            back (λ i h. ap mem (omega arith) ∙ same (suc i) (omega arith) ∙ ap mem (omega arith)),
      )
      | inr differ ↦ rw differ (
        λ e. absurd (ground (arith, bytes s1, bytes s2)),
        λ same. absurd (first_same s1 s2 (same 0 (omega arith)) differ),
      )
    ]
  where
    every :
        (s1 s2 : ℕ) {n : ℕ}
        → mem s1 ≡ mem s2
        → ((i : ℕ) → i < n → mem (s1 + 1 + i) ≡ mem (s2 + 1 + i))
        → (i : ℕ) → i < suc n
        → mem (s1 + i) ≡ mem (s2 + i)
    every s1 s2 here rest zero h = ap mem (omega arith) ∙ here ∙ ap mem (omega arith)
    every s1 s2 here rest (suc i) h =
        ap mem (omega arith) ∙ rest i (omega arith) ∙ ap mem (omega arith)

    first_same : (s1 s2 : ℕ) → mem (s1 + 0) ≡ mem (s2 + 0) → (mem s1 == mem s2) ≡ false → ⊥
    first_same s1 s2 e differ =
        let here : mem s1 ≡ mem s2 = ap mem (omega arith) ∙ e ∙ ap mem (omega arith) in
        ground (arith, here, differ)
