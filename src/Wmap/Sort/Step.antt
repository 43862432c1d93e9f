-- ===== src/Wmap/Sort/Step.antt =====
-- One round of the outer loop of `selectionSort`: the least entry and the exchange.
use mathlib.Core.List.{Perm}
use mathlib.Core.List.Perm
use cs537_project.Prelude.{
  ℕ, zero, suc, ◌+◌, ◌-◌, ◌≤◌, ◌<◌, ◌≡◌, ◌≢◌, refl, ap, ◌∙◌, take, length-take_of_le, take-set_comm,
  get_or-take, set, ◌⊎◌, inl, List, arith, ltb, if◌then◌else◌, ◌==◌, length, length-set, set-perm,
  get_or-set_self, get_or-set_ne, ℕ_discrete,
}
use cs537_project.Wmap.Types.{Mapping, slot, blank}
use cs537_project.Wmap.Sort.{min_index, swap}

-- The inner loop ends at an index of the range whose address is least.
min_index_lem :
    (arr : List Mapping) (r j least : ℕ)
    → (min_index arr r j least ≡ least)
      ⊎ ((j ≤ min_index arr r j least) × (min_index arr r j least < j + r))
unfolding min_index
min_index_lem arr zero j least = inl refl
min_index_lem arr (suc r) j least = ground (
  arith,
  min_index_lem arr r (j + 1) (if ltb (slot arr j).addr (slot arr least).addr then j else least),
)

min_index-le :
    (arr : List Mapping) (r j least : ℕ)
    → ((slot arr (min_index arr r j least)).addr ≤ (slot arr least).addr)
unfolding min_index
min_index-le arr zero j least = omega arith
min_index-le arr (suc r) j least = ground (
  arith,
  min_index-le arr r (j + 1) (if ltb (slot arr j).addr (slot arr least).addr then j else least),
)

min_index-least :
    (arr : List Mapping) (r j least k : ℕ)
    → j ≤ k
    → k < j + r
    → ((slot arr (min_index arr r j least)).addr ≤ (slot arr k).addr)
unfolding min_index
min_index-least arr zero j least k lo hi = absurd (omega arith)
min_index-least arr (suc r) j least k lo hi = elim (ℕ_discrete j k) [
  | yes e ↦ ground (
    arith,
    min_index-le arr r (j + 1) (if ltb (slot arr j).addr (slot arr least).addr then j else least),
    ap (λ x. (slot arr x).addr) e,
  )
  | no ne ↦
      min_index-least arr r (j + 1)
        (if ltb (slot arr j).addr (slot arr least).addr then j else least) k (omega arith)
        (omega arith)
]

pub length-swap : (arr : List Mapping) (i k : ℕ) → length (swap arr i k) ≡ length arr
unfolding swap
length-swap arr i k =
    length-set (set arr i (slot arr k)) k (slot arr i) ∙ length-set arr i (slot arr k)

pub slot-swap :
    (arr : List Mapping) (i k j : ℕ)
    → i < length arr
    → k < length arr
    → slot (swap arr i k) j
      ≡ (if j == k then slot arr i else if j == i then slot arr k else slot arr j)
unfolding swap
slot-swap arr i k j hi hk = ground (
  arith,
  length-set arr i (slot arr k),
  get_or-set_self (set arr i (slot arr k)) k (slot arr i) blank,
  get_or-set_ne (set arr i (slot arr k)) k j (slot arr i) blank,
  get_or-set_self arr i (slot arr k) blank,
  get_or-set_ne arr i j (slot arr k) blank,
)

swap-perm :
    (arr : List Mapping) (i k : ℕ) → i < length arr → k < length arr → Perm (swap arr i k) arr
unfolding swap
swap-perm arr i k hi hk = Perm.cons_inv (
    Perm.trans (rw moved at (set-perm (set arr i (slot arr k)) k (slot arr i) blank inside))
      (set-perm arr i (slot arr k) blank hi))
  where
    moved : slot (set arr i (slot arr k)) k ≡ slot arr k
    moved = ground (
      arith,
      get_or-set_self arr i (slot arr k) blank,
      get_or-set_ne arr i k (slot arr k) blank,
      ap (slot arr),
    )

    inside : k < length (set arr i (slot arr k))
    inside = rw length-set hk

-- The exchange permutes the first `n` slots, if both indices are among them.
pub take-swap-perm :
    (n : ℕ) (arr : List Mapping) (i k : ℕ)
    → n ≤ length arr
    → i < n
    → k < n
    → Perm (take n (swap arr i k)) (take n arr)
unfolding swap
take-swap-perm n arr i k small hi hk =
    rw inside (swap-perm (take n arr) i k (rw length-take_of_le hi) (rw length-take_of_le hk))
  where
    inside : take n (swap arr i k) ≡ swap (take n arr) i k
    inside =
        rw
          (take-set_comm, take-set_comm, get_or-take n arr k blank hk, get_or-take n arr i blank hi)

-- The first `n` slots from `i` on are behind those before `i`, which are sorted.
abbrev pub SortedTo : List Mapping → ℕ → ℕ → Type 0
SortedTo arr n i = (a b : ℕ) → a < i → a < b → b < n → (slot arr a).addr ≤ (slot arr b).addr

-- `b` holds the first `n` slots of `a` in another order: slot `j` of `b` is slot `from j` of `a`.
pub record Reorders (n : ℕ) (a b : List Mapping) : Type 0 where
  pub from : ℕ → ℕ
  pub within : (j : ℕ) → j < n → from j < n
  pub injective : (j k : ℕ) → j ≢ k → from j ≢ from k
  pub at : (j : ℕ) → slot b j ≡ slot a (from j)

module _ (arr : List Mapping) (n i : ℕ) (small : n ≤ length arr) (more : i < n) where
  unfoldable pub least : ℕ
  unfolding min_index
  least = min_index arr (n - (i + 1)) (i + 1) i

  pub least_bounds : (i ≤ least) × (least < n)
  unfolding least
  least_bounds = ground (arith, min_index_lem arr (n - (i + 1)) (i + 1) i)

  least-le : (k : ℕ) → i ≤ k → k < n → (slot arr least).addr ≤ (slot arr k).addr
  unfolding least
  least-le k lo hi = elim (ℕ_discrete i k) [
    | yes e ↦ rw (← e) (min_index-le arr (n - (i + 1)) (i + 1) i)
    | no ne ↦ min_index-least arr (n - (i + 1)) (i + 1) i k (omega arith) (omega arith)
  ]

  -- The slot from which the exchange fills slot `j`.
  from : ℕ → ℕ
  from j = if j == least then i else if j == i then least else j

  at : (j : ℕ) → slot (swap arr i least) j ≡ slot arr (from j)
  unfolding from
  at j = ground (arith, slot-swap arr i least j (omega arith) (omega (arith, least_bounds)))

  from_bounds : (j : ℕ) → j < n → (from j < n) × (i ≤ j → i ≤ from j) × (j < i → from j ≡ j)
  unfolding from
  from_bounds j h = (
    ground (arith, least_bounds),
    λ lo. ground (arith, least_bounds),
    λ lo. ground (arith, least_bounds),
  )

  from-injective : (a b : ℕ) → a ≢ b → from a ≢ from b
  unfolding from
  from-injective a b ne e = ground arith

  from_self : slot arr (from i) ≡ slot arr least
  unfolding from
  from_self = ground (arith, ap (slot arr))

  from-gt : (a b : ℕ) → a < i → a < b → a < from b
  unfolding from
  from-gt a b lo lt = ground (arith, least_bounds)

  pub swap-SortedTo : SortedTo arr n i → SortedTo (swap arr i least) n (i + 1)
  swap-SortedTo h a b lo lt hi = elim (ℕ_discrete a i) [
    | yes e ↦
        rw (at b, at a, e, from_self)
          (least-le (from b) ((from_bounds b hi).1 (omega arith)) (from_bounds b hi).0)
    | no ne ↦
        rw (at b, at a, (from_bounds a (omega arith)).2 (omega arith))
          (h a (from b) (omega arith) (from-gt a b (omega arith) lt) (from_bounds b hi).0)
  ]

  pub swap-Reorders : Reorders n arr (swap arr i least)
  swap-Reorders = record {
    from = from;
    within = λ j h. (from_bounds j h).0;
    injective = from-injective;
    at = at;
  }
