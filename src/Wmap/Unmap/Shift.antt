-- ===== src/Wmap/Unmap/Shift.antt =====
-- Taking an entry out of the array.
use mathlib.Core.Path.{subst}
use cs537_project.Prelude.{
  ℕ, zero, suc, ◌+◌, ◌-◌, ◌≤◌, ◌<◌, ◌≡◌, ◌≢◌, ◌⊎◌, inl, inr, refl, ◌∙◌, List, none, some, arith,
  length, length-set, set, get_or-set_self, get_or-set_ne, ℕ_discrete, dec_lt, ◌==◌, Bool-cases,
}
use cs537_project.Wmap.Types.{Mapping, Maps, slot, blank}
use cs537_project.Wmap.Invariant.{IsValid}
use cs537_project.Wmap.Unmap.{find_map, shift, remove}

pub length-shift : (arr : List Mapping) (r j : ℕ) → length (shift arr r j) ≡ length arr
unfolding shift
length-shift arr zero j = refl
length-shift arr (suc r) j =
    length-shift (set arr j (slot arr (j + 1))) r (j + 1) ∙ length-set arr j (slot arr (j + 1))

pub shift-below : (arr : List Mapping) (r j a : ℕ) → a < j → slot (shift arr r j) a ≡ slot arr a
unfolding shift
shift-below arr zero j a h = refl
shift-below arr (suc r) j a h =
    shift-below (set arr j (slot arr (j + 1))) r (j + 1) a (omega arith)
    ∙ get_or-set_ne arr j a (slot arr (j + 1)) blank (omega arith)

pub shift-above :
    (arr : List Mapping) (r j a : ℕ)
    → j ≤ a
    → a < j + r
    → a < length arr
    → slot (shift arr r j) a ≡ slot arr (a + 1)
unfolding shift
shift-above arr zero j a low high fits = absurd (omega arith)
shift-above arr (suc r) j a low high fits = elim (ℕ_discrete j a) [
  | yes e ↦
      subst (λ (b : ℕ). slot (shift (set arr j (slot arr (j + 1))) r (j + 1)) b ≡ slot arr (b + 1))
        e
        (shift-below (set arr j (slot arr (j + 1))) r (j + 1) j (omega arith)
          ∙ get_or-set_self arr j (slot arr (j + 1)) blank (omega arith))
  | no ne ↦
      shift-above (set arr j (slot arr (j + 1))) r (j + 1) a (omega arith) (omega arith)
        (omega (arith, length-set arr j (slot arr (j + 1))))
      ∙ get_or-set_ne arr j (a + 1) (slot arr (j + 1)) blank (omega arith)
]

-- One entry is gone, and the others are there in the same order.
pub record Removed (p : Maps) (i : ℕ) (q : Maps) : Type 0 where
  pub count : q.num_mappings + 1 ≡ p.num_mappings
  pub before : (a : ℕ) → a < i → slot q.mappings a ≡ slot p.mappings a
  pub behind : (a : ℕ) → i ≤ a → a < q.num_mappings → slot q.mappings a ≡ slot p.mappings (a + 1)

module _ {p : Maps} {i : ℕ} (v : IsValid p) (h : i < p.num_mappings) where
  pub remove-Removed : Removed p i (remove p i)
  unfolding remove
  remove-Removed = record {
    count = omega arith;
    before = λ a lt. shift-below p.mappings (p.num_mappings - i) i a lt;
    behind = λ a low high.
        shift-above p.mappings (p.num_mappings - i) i a low (omega arith)
          (omega (arith, v.slots, v.few));
  }

  -- Each entry that is left stood at some slot before, in the same order.
  old_slot :
      (a : ℕ)
      → a < (remove p i).num_mappings
      → (b : ℕ) × (b < p.num_mappings)
        × (slot (remove p i).mappings a ≡ slot p.mappings b)
        × (((a < i) × (b ≡ a)) ⊎ ((i ≤ a) × (b ≡ a + 1)))
  old_slot a lt = elim (dec_lt a i) [
    | yes low ↦
        (a, omega (arith, remove-Removed.count), remove-Removed.before a low, inl (low, refl))
    | no high ↦ (
      a + 1,
      omega (arith, remove-Removed.count),
      remove-Removed.behind a (omega arith) lt,
      inr (omega arith, refl),
    )
  ]

  pub remove-IsValid : IsValid (remove p i)
  unfolding remove
  remove-IsValid = record {
    slots = length-shift p.mappings (p.num_mappings - i) i ∙ v.slots;
    few = omega (arith, v.few);
    in_range = λ a lt. let (b, fits, e, where_) = old_slot a lt in rw e (v.in_range b fits);
    ordered = λ a b lt high.
        let (a', fits, e, at_a) = old_slot a (omega arith) in
        let (b', fits', e', at_b) = old_slot b high in
        rw (e, e') (v.ordered a' b' (omega (arith, at_a, at_b)) fits');
  }

-- The search finds the first slot with the address, if there is one.
pub find_map_lem :
    (arr : List Mapping) (r i addr : ℕ)
    → ((find_map arr r i addr ≡ none) × ((a : ℕ) → i ≤ a → a < i + r → (slot arr a).addr ≢ addr))
      ⊎ ((k : ℕ) × (find_map arr r i addr ≡ some k)
          × (i ≤ k)
          × (k < i + r)
          × ((slot arr k).addr ≡ addr))
unfolding find_map
find_map_lem arr zero i addr = inl (refl, λ a low high. absurd (omega arith))
find_map_lem arr (suc r) i addr = elim (Bool-cases ((slot arr i).addr == addr)) [
  | inl hit ↦ rw hit (inr (i, refl, omega arith, omega arith, ground arith))
  | inr miss ↦
      let here : (slot arr i).addr ≢ addr = λ same. ground (arith, miss, same) in
      elim (find_map_lem arr r (i + 1) addr) [
        | inl (e, nowhere) ↦ rw miss (
            inl (
              e,
              λ a low high. elim (ℕ_discrete i a) [
                | yes q ↦ subst (λ (b : ℕ). (slot arr b).addr ≢ addr) q here
                | no ne ↦ nowhere a (omega arith) (omega arith)
              ],
            ))
        | inr (k, e, low, high, same) ↦ rw miss (inr (k, e, omega arith, omega arith, same))
      ]
]
