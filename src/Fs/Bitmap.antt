-- ===== src/Fs/Bitmap.antt =====
-- `balloc` and `bfree`.
use mathlib.Core.Path.{subst}
use cs537_project.Prelude.{
  ℕ, zero, suc, ◌+◌, ◌-◌, ◌*◌, ◌/◌, ◌%◌, ◌≤◌, ◌<◌, ◌≡◌, ◌≢◌, ◌⊎◌, inl, inr, refl, ap, sym, ◌∙◌,
  Bool, true, false, Option, none, some, ◌==◌, ltb, if◌then◌else◌, arith, Bool-cases, ℕ_discrete,
  dec_lt, update, update_self, update-ne,
}
use cs537_project.Fs.{
  Blocks, Superblock, bpb, bblock, has_bit, set_bit, clear_bit, bzero, find_bit, balloc_from,
  balloc, bfree,
}
use cs537_project.Fs.Bits.{has_bit-set_bit, has_bit-clear_bit, set_bit_bytes}

-- Whether block `b` is marked as used.
abbrev pub is_used : Superblock → Blocks → ℕ → Bool
is_used sb v b = has_bit (v (bblock sb b)) (b % bpb)

abbrev pub AreBytes : Blocks → Type 0
AreBytes v = (n o : ℕ) → v n o < 256

-- The bitmap with the bits of one of its blocks replaced.
module _ (sb : Superblock) (v : Blocks) (b : ℕ) (new : Bool) (block : ℕ → ℕ)
    (bits : (j : ℕ)
      → has_bit block j ≡ (if j == b % bpb then new else has_bit (v (bblock sb b)) j)) where
  is_used-update :
      (c : ℕ)
      → is_used sb (update v (bblock sb b) block) c ≡ (if c == b then new else is_used sb v c)
  is_used-update c = elim (ℕ_discrete (bblock sb b) (bblock sb c)) [
    | no other ↦
        let differ : (c == b) ≡ false =
          (let ne : c ≢ b = λ e. other (ap (bblock sb) (sym e)) in ground arith) in
        rw (differ, update-ne v (bblock sb b) (bblock sb c) block other) refl
    | yes same ↦
        let at : update v (bblock sb b) block (bblock sb c) ≡ block =
          ap (update v (bblock sb b) block) (sym same) ∙ update_self v (bblock sb b) block in
        let old : v (bblock sb b) ≡ v (bblock sb c) = ap v same in
        elim (ℕ_discrete c b) [
          | yes e ↦
              let here : (c == b) ≡ true = ground arith in
              let bit_here : (c % bpb == b % bpb) ≡ true = ground arith in
              rw (at, bits (c % bpb), here, bit_here) refl
          | no ne ↦
              let differ : (c == b) ≡ false = ground arith in
              let bit_differs : (c % bpb == b % bpb) ≡ false =
                (let k : c % bpb ≢ b % bpb = λ e. ne (omega (arith, same, e)) in ground arith) in
              rw (at, bits (c % bpb), differ, bit_differs)
                (ap (λ (x : ℕ → ℕ). has_bit x (c % bpb)) old)
        ]
  ]

AreBytes-update :
    (v : Blocks) (n : ℕ) (block : ℕ → ℕ)
    → AreBytes v
    → ((o : ℕ) → block o < 256)
    → AreBytes (update v n block)
AreBytes-update v n block bytes small m o = elim (ℕ_discrete n m) [
  | yes e ↦ subst (λ (x : ℕ). update v n block x o < 256) e (rw (update_self v n block) (small o))
  | no ne ↦ rw (update-ne v n m block ne) (bytes m o)
]

-- Block `b` has been taken from the free ones. A block of the bitmap is not expected to be free.
pub record Allocated (sb : Superblock) (v : Blocks) (b : ℕ) (v' : Blocks) : Type 0 where
  pub below : b < sb.size
  pub was_free : is_used sb v b ≡ false
  pub first : (c : ℕ) → c < b → is_used sb v c ≡ true
  pub used : (c : ℕ) → bblock sb c ≢ b → is_used sb v' c ≡ (if c == b then true else is_used sb v c)
  pub zeroed : (o : ℕ) → v' b o ≡ 0
  pub others : (n : ℕ) → n ≢ b → n ≢ bblock sb b → v' n ≡ v n
  pub bytes : AreBytes v'

abbrev pub BallocResult : Superblock → Blocks → Option (ℕ × Blocks) → Type 0
BallocResult sb v none = (c : ℕ) → c < sb.size → is_used sb v c ≡ true
BallocResult sb v (some (b, v')) = Allocated sb v b v'

abbrev FindResult : (ℕ → ℕ) → ℕ → ℕ → ℕ → ℕ → Option ℕ → Type 0
FindResult block size b bi r none =
    (j : ℕ) → bi ≤ j → j < bi + r → b + j < size → has_bit block j ≡ true
FindResult block size b bi r (some k) =
    (bi ≤ k)
    × (k < bi + r)
    × (b + k < size)
    × (has_bit block k ≡ false)
    × ((j : ℕ) → bi ≤ j → j < k → has_bit block j ≡ true)

FindResult-cons :
    (block : ℕ → ℕ) (size b bi r : ℕ) (o : Option ℕ)
    → has_bit block bi ≡ true
    → FindResult block size b (bi + 1) r o
    → FindResult block size b bi (suc r) o
FindResult-cons block size b bi r none here rest = λ j low high inside. elim (ℕ_discrete j bi) [
  | yes e ↦ rw e here
  | no ne ↦ rest j (omega arith) (omega arith) inside
]
FindResult-cons block size b bi r (some k) here (low, high, inside, clear, before) = (
  omega arith,
  omega arith,
  inside,
  clear,
  λ j j_low j_high. elim (ℕ_discrete j bi) [
    | yes e ↦ rw e here
    | no ne ↦ before j (omega arith) j_high
  ],
)

find_bit_lem :
    (r : ℕ) (block : ℕ → ℕ) (size b bi : ℕ)
    → FindResult block size b bi r (find_bit r block size b bi)
unfolding find_bit
find_bit_lem zero block size b bi = λ j low high inside. absurd (omega arith)
find_bit_lem (suc r) block size b bi = elim (Bool-cases (ltb (b + bi) size)) [
  | inr out ↦ rw (find_bit, out) (λ j low high inside. absurd (ground arith))
  | inl inside ↦ elim (Bool-cases (has_bit block bi)) [
    | inr clear ↦
        rw (find_bit, inside, clear)
          (omega arith, omega arith, ground arith, clear, λ j low high. absurd (omega arith))
    | inl set ↦
        rw (find_bit, inside, set)
          (FindResult-cons block size b bi r (find_bit r block size b (bi + 1)) set
            (find_bit_lem r block size b (bi + 1)))
  ]
]

module _ (sb : Superblock) (v : Blocks) (bytes : AreBytes v) where
  used_at : (b j : ℕ) → b % bpb ≡ 0 → j < bpb → is_used sb v (b + j) ≡ has_bit (v (bblock sb b)) j
  used_at b j aligned low =
      let at : bblock sb (b + j) ≡ bblock sb b = omega arith in
      let bit : (b + j) % bpb ≡ j = omega arith in rw (at, bit) refl

  -- What `balloc` does with the block that it has found.
  take_block :
      (b : ℕ)
      → b < sb.size
      → is_used sb v b ≡ false
      → ((c : ℕ) → c < b → is_used sb v c ≡ true)
      → Allocated sb v b (bzero (update v (bblock sb b) (set_bit (v (bblock sb b)) (b % bpb))) b)
  take_block b below clear first =
      let block = set_bit (v (bblock sb b)) (b % bpb) in
      let marked = update v (bblock sb b) block in
      record {
        below = below;
        was_free = clear;
        first = first;
        used = λ c ne. rw (update-ne marked b (bblock sb c) (λ o. 0) (λ e. ne (sym e))) (
            is_used-update sb v b true block
              (λ j. has_bit-set_bit (v (bblock sb b)) (bytes (bblock sb b)) (b % bpb) clear j) c);
        zeroed = λ o. ap (λ (x : ℕ → ℕ). x o) (update_self marked b (λ o. 0));
        others = λ n ne ne'.
            update-ne marked b n (λ o. 0) (λ e. ne (sym e))
            ∙ update-ne v (bblock sb b) n block (λ e. ne' (sym e));
        bytes =
            AreBytes-update marked b (λ o. 0)
              (AreBytes-update v (bblock sb b) block bytes
                (set_bit_bytes (v (bblock sb b)) (bytes (bblock sb b)) (b % bpb) clear))
              (λ o. omega arith);
      }

  balloc_from_lem :
      (r b : ℕ)
      → b % bpb ≡ 0
      → sb.size < b + r * bpb
      → ((c : ℕ) → c < b → c < sb.size → is_used sb v c ≡ true)
      → BallocResult sb v (balloc_from r sb v b)
  unfolding balloc_from
  balloc_from_lem zero b aligned enough before = λ c h. before c (omega arith) h
  balloc_from_lem (suc r) b aligned enough before = elim (Bool-cases (ltb b sb.size)) [
    | inr out ↦ rw (balloc_from, out) (λ c h. before c (ground arith) h)
    | inl inside ↦
        cases (find_bit bpb (v (bblock sb b)) sb.size b 0) refl
          (find_bit_lem bpb (v (bblock sb b)) sb.size b 0)
          (balloc_from_lem r (b + bpb) (omega arith) (omega arith)) inside
  ]
    where
      cases :
          (o : Option ℕ)
          → find_bit bpb (v (bblock sb b)) sb.size b 0 ≡ o
          → FindResult (v (bblock sb b)) sb.size b 0 bpb o
          → (((c : ℕ) → c < b + bpb → c < sb.size → is_used sb v c ≡ true)
              → BallocResult sb v (balloc_from r sb v (b + bpb)))
          → ltb b sb.size ≡ true
          → BallocResult sb v (balloc_from (suc r) sb v b)
      cases none e f rest inside =
          rw (balloc_from, inside, e)
            (rest (λ c h c_small. elim (dec_lt c b) [
              | yes lt ↦ before c lt c_small
              | no ge ↦
                  ap (is_used sb v) (omega arith)
                  ∙ used_at b (c - b) aligned (omega arith)
                  ∙ f (c - b) (omega arith) (omega arith) (omega arith)
            ]))
      cases (some k) e (low, high, small, clear, first) rest inside =
          let at : (b + k) % bpb ≡ k = omega arith in
          let block : bblock sb (b + k) ≡ bblock sb b = omega arith in
          rw (balloc_from, inside, e)
            (subst
              (λ (x : ℕ). Allocated sb v (b + k) (bzero (update v x (set_bit (v x) k)) (b + k)))
              block
              (subst
                (λ (x : ℕ). Allocated sb v (b + k) (
                  bzero (update v (bblock sb (b + k)) (set_bit (v (bblock sb (b + k))) x)) (b + k)))
                at
                (take_block (b + k) small (used_at b k aligned high ∙ clear) (λ c h.
                  elim (dec_lt c b) [
                    | yes lt ↦ before c lt (omega arith)
                    | no ge ↦
                        ap (is_used sb v) (omega arith)
                        ∙ used_at b (c - b) aligned (omega arith)
                        ∙ first (c - b) (omega arith) (omega arith)
                  ]))))

  -- In blocks of bytes, `balloc` takes the first free block below `sb.size`, marks it as used, and no other, sets it to zeros,
  -- and changes no block but this one and its block of the bitmap; it panics only if all are used.
  pub balloc_lem : BallocResult sb v (balloc sb v)
  unfolding balloc
  balloc_lem =
      balloc_from_lem (sb.size / bpb + 1) 0 refl (omega arith) (λ c h c_small. absurd (omega arith))

  -- `bfree` of a block that is used marks it as free and changes no other mark; of a free block it panics.
  pub bfree_lem :
      (b : ℕ)
      → ((is_used sb v b ≡ false) × (bfree sb v b ≡ none))
        ⊎ ((is_used sb v b ≡ true)
            × ((v' : Blocks) × ((bfree sb v b ≡ some v')
                  × ((c : ℕ) → is_used sb v' c ≡ (if c == b then false else is_used sb v c)))))
  unfolding bfree
  bfree_lem b = elim (Bool-cases (is_used sb v b)) [
    | inr clear ↦ inl (clear, rw (bfree, clear) refl)
    | inl set ↦
        let block = clear_bit (v (bblock sb b)) (b % bpb) in
        inr (
          set,
          (
            update v (bblock sb b) block,
            (
              rw (bfree, set) refl,
              is_used-update sb v b false block
                  (λ j. has_bit-clear_bit (v (bblock sb b)) (bytes (bblock sb b)) (b % bpb) set j),
            ),
          ),
        )
  ]

-- In blocks of bytes, a block from `balloc`, which is not one of the bitmap, given back to `bfree`: it does
-- not panic, and the same blocks below `sb.size` are used as before.
pub balloc-bfree :
    (sb : Superblock) (v : Blocks) (b : ℕ) (v' : Blocks)
    → AreBytes v
    → balloc sb v ≡ some (b, v')
    → ((c : ℕ) → c < sb.size → bblock sb c ≢ b)
    → (v'' : Blocks) × ((bfree sb v' b ≡ some v'')
        × ((c : ℕ) → c < sb.size → is_used sb v'' c ≡ is_used sb v c))
balloc-bfree sb v b v' bytes e not_bitmap =
    let a : Allocated sb v b v' = subst (BallocResult sb v) e (balloc_lem sb v bytes) in
    let here : (b == b) ≡ true = ground arith in
    elim (bfree_lem sb v' a.bytes b) [
      | inl (clear, panics) ↦
          (let set : is_used sb v' b ≡ true = rw (a.used b (not_bitmap b a.below), here) refl in
            absurd (false-ne set clear))
      | inr (set, (v'', (done, used))) ↦ (v'', (done, λ c low. used c ∙ back a c low))
    ]
  where
    false-ne : is_used sb v' b ≡ true → is_used sb v' b ≡ false → ⊥
    false-ne set clear = cc

    back :
        Allocated sb v b v'
        → (c : ℕ) → c < sb.size
        → (if c == b then false else is_used sb v' c) ≡ is_used sb v c
    back a c low = elim (ℕ_discrete c b) [
      | yes e ↦
          let here : (c == b) ≡ true = ground arith in
          rw here (sym (ap (is_used sb v) e ∙ a.was_free))
      | no ne ↦
          let differ : (c == b) ≡ false = ground arith in
          rw (differ, a.used c (not_bitmap c low), differ) refl
    ]
