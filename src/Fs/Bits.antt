-- ===== src/Fs/Bits.antt =====
-- Bits of a byte, and of a block of bytes.
use cs537_project.Prelude.{
  ℕ, zero, suc, ◌+◌, ◌-◌, ◌/◌, ◌%◌, ◌^◌, ◌<◌, ◌≡◌, ◌≢◌, refl, ap, sym, ◌∙◌, Bool, true, false, ◌&&◌,
  ltb, ◌==◌, if◌then◌else◌, arith, ℕ_discrete, update, update_self, update-ne, and_true,
}
use cs537_project.Fs.{has_bit, set_bit, clear_bit}

-- Whether a test on the numbers up to a bound always succeeds.
always : (ℕ → Bool) → ℕ → Bool
always test zero = true
always test (suc bound) = always test bound && test bound

always_at :
    (test : ℕ → Bool) (bound : ℕ) → always test bound ≡ true → (k : ℕ) → k < bound → test k ≡ true
unfolding always
always_at test zero done = λ k small. absurd (omega arith)
always_at test (suc bound) done =
    let (before, last) = and_true (always test bound) (test bound) done in
    λ k small. elim (ℕ_discrete k bound) [
      | yes same ↦ rw same last
      | no other ↦ always_at test bound before k (omega arith)
    ]

abbrev bit : ℕ → ℕ → ℕ
bit x k = x / 2 ^ k % 2

-- What adding the value of a bit that is clear does to the bits, and taking away that of one that is set.
abbrev is_right : ℕ → ℕ → ℕ → Bool
is_right x k j =
    if bit x k == 0
    then bit (x + 2 ^ k) j == (if j == k then 1 else bit x j) && ltb (x + 2 ^ k) 256
    else bit (x - 2 ^ k) j == (if j == k then 0 else bit x j)

bytes_right : always (λ x. always (λ k. always (is_right x k) 8) 8) 256 ≡ true
unfolding always
bytes_right = refl

is_right_lem : (x k j : ℕ) → x < 256 → k < 8 → j < 8 → is_right x k j ≡ true
is_right_lem x k j hx hk hj =
    let byte = always_at (λ x. always (λ k. always (is_right x k) 8) 8) 256 bytes_right x hx in
    let place = always_at (λ k. always (is_right x k) 8) 8 byte k hk in
    always_at (is_right x k) 8 place j hj

module _ (x k : ℕ) (byte : x < 256) (low : k < 8) where
  set_right :
      bit x k ≡ 0
      → (j : ℕ) → j < 8
      → (bit (x + 2 ^ k) j ≡ (if j == k then 1 else bit x j)) × (x + 2 ^ k < 256)
  set_right clear j h =
      let t : is_right x k j ≡ true = is_right_lem x k j byte low h in
      let zero_bit : (bit x k == 0) ≡ true = rw clear refl in
      let t' = rw zero_bit at t in
      let (same, small) =
        and_true (bit (x + 2 ^ k) j == (if j == k then 1 else bit x j)) (ltb (x + 2 ^ k) 256) t' in
      (ground arith, ground arith)

  clear_right : bit x k ≢ 0 → (j : ℕ) → j < 8 → bit (x - 2 ^ k) j ≡ (if j == k then 0 else bit x j)
  clear_right set j h =
      let t : is_right x k j ≡ true = is_right_lem x k j byte low h in
      let nonzero : (bit x k == 0) ≡ false = ground arith in
      let t' = rw nonzero at t in ground arith

module _ (block : ℕ → ℕ) (bytes : (o : ℕ) → block o < 256) (bi : ℕ) where
  -- A bit that is clear is set, or one that is set cleared: all others are as they were.
  pub has_bit-set_bit :
      has_bit block bi ≡ false
      → (bj : ℕ) → has_bit (set_bit block bi) bj ≡ (if bj == bi then true else has_bit block bj)
  unfolding has_bit set_bit
  has_bit-set_bit is_clear bj =
      let x = block (bi / 8) in
      elim (ℕ_discrete (bi / 8) (bj / 8)) [
        | yes same ↦
            let at : update block (bi / 8) (x + 2 ^ (bi % 8)) (bj / 8) ≡ x + 2 ^ (bi % 8) =
              ap (update block (bi / 8) (x + 2 ^ (bi % 8))) (sym same)
              ∙ update_self block (bi / 8) (x + 2 ^ (bi % 8)) in
            let right : bit (x + 2 ^ (bi % 8)) (bj % 8)
                ≡ (if bj % 8 == bi % 8 then 1 else bit x (bj % 8)) =
              (set_right x (bi % 8) (bytes (bi / 8)) (omega arith) (ground arith) (bj % 8)
                (omega arith)).0 in
            elim (ℕ_discrete bj bi) [
              | yes e ↦
                  let bits_same : (bj % 8 == bi % 8) ≡ true = ground arith in
                  let all_same : (bj == bi) ≡ true = ground arith in
                  rw (at, right, bits_same, all_same) refl
              | no ne ↦
                  let bits_differ : (bj % 8 == bi % 8) ≡ false = ground arith in
                  let differ : (bj == bi) ≡ false = ground arith in
                  rw (at, right, bits_differ, differ)
                    (ap (λ (y : ℕ). block y / 2 ^ (bj % 8) % 2 == 1) same)
            ]
        | no other ↦
            let differ : (bj == bi) ≡ false = ground arith in
            rw (update-ne block (bi / 8) (bj / 8) (x + 2 ^ (bi % 8)) other, differ) refl
      ]

  pub has_bit-clear_bit :
      has_bit block bi ≡ true
      → (bj : ℕ) → has_bit (clear_bit block bi) bj ≡ (if bj == bi then false else has_bit block bj)
  unfolding has_bit clear_bit
  has_bit-clear_bit is_set bj =
      let x = block (bi / 8) in
      elim (ℕ_discrete (bi / 8) (bj / 8)) [
        | yes same ↦
            let at : update block (bi / 8) (x - 2 ^ (bi % 8)) (bj / 8) ≡ x - 2 ^ (bi % 8) =
              ap (update block (bi / 8) (x - 2 ^ (bi % 8))) (sym same)
              ∙ update_self block (bi / 8) (x - 2 ^ (bi % 8)) in
            let right : bit (x - 2 ^ (bi % 8)) (bj % 8)
                ≡ (if bj % 8 == bi % 8 then 0 else bit x (bj % 8)) =
              clear_right x (bi % 8) (bytes (bi / 8)) (omega arith) (λ z. ground (arith, z))
                (bj % 8) (omega arith) in
            elim (ℕ_discrete bj bi) [
              | yes e ↦
                  let bits_same : (bj % 8 == bi % 8) ≡ true = ground arith in
                  let all_same : (bj == bi) ≡ true = ground arith in
                  rw (at, right, bits_same, all_same) refl
              | no ne ↦
                  let bits_differ : (bj % 8 == bi % 8) ≡ false = ground arith in
                  let differ : (bj == bi) ≡ false = ground arith in
                  rw (at, right, bits_differ, differ)
                    (ap (λ (y : ℕ). block y / 2 ^ (bj % 8) % 2 == 1) same)
            ]
        | no other ↦
            let differ : (bj == bi) ≡ false = ground arith in
            rw (update-ne block (bi / 8) (bj / 8) (x - 2 ^ (bi % 8)) other, differ) refl
      ]

  pub set_bit_bytes : has_bit block bi ≡ false → (o : ℕ) → set_bit block bi o < 256
  unfolding has_bit set_bit
  set_bit_bytes is_clear o = elim (ℕ_discrete (bi / 8) o) [
    | yes e ↦
        let x = block (bi / 8) in
        let small : x + 2 ^ (bi % 8) < 256 =
          (set_right x (bi % 8) (bytes (bi / 8)) (omega arith) (ground arith) 0 (omega arith)).1 in
        rw (sym e, update_self block (bi / 8) (x + 2 ^ (bi % 8))) small
    | no ne ↦ rw (update-ne block (bi / 8) o (block (bi / 8) + 2 ^ (bi % 8)) ne) (bytes o)
  ]

  pub clear_bit_bytes : (o : ℕ) → clear_bit block bi o < 256
  unfolding clear_bit
  clear_bit_bytes o = elim (ℕ_discrete (bi / 8) o) [
    | yes e ↦
        let small = bytes (bi / 8) in
        rw (sym e, update_self block (bi / 8) (block (bi / 8) - 2 ^ (bi % 8)))
          (omega (arith, small))
    | no ne ↦ rw (update-ne block (bi / 8) o (block (bi / 8) - 2 ^ (bi % 8)) ne) (bytes o)
  ]
