-- ===== src/Wmap/Sort/Laws.antt =====
-- What `selectionSort` does: it permutes the first `n` slots, and leaves them sorted by address.
use mathlib.Core.List.{Perm}
use mathlib.Core.List.Perm
use cs537_project.Prelude.{
  ℕ, zero, suc, ◌+◌, ◌-◌, ◌≤◌, ◌<◌, ◌≡◌, refl, ◌∙◌, List, arith, length, take,
}
use cs537_project.Wmap.Types.{Mapping, slot}
use cs537_project.Wmap.Sort.{min_index, swap, sort_from, selection_sort}
use cs537_project.Wmap.Sort.Step.{
  length-swap, slot-swap, take-swap-perm, SortedTo, Reorders, least, least_bounds, swap-SortedTo,
  swap-Reorders,
}

Reorders-trans : {n : ℕ} {a b c : List Mapping} → Reorders n a b → Reorders n b c → Reorders n a c
Reorders-trans p q = record {
  from = λ j. p.from (q.from j);
  within = λ j h. p.within (q.from j) (q.within j h);
  injective = λ j k ne. p.injective (q.from j) (q.from k) (q.injective j k ne);
  at = λ j. q.at j ∙ p.at (q.from j);
}

length-sort_from : (arr : List Mapping) (n r i : ℕ) → length (sort_from arr n r i) ≡ length arr
unfolding sort_from
length-sort_from arr n zero i = refl
length-sort_from arr n (suc r) i =
    length-sort_from (swap arr i (min_index arr (n - (i + 1)) (i + 1) i)) n r (i + 1)
    ∙ length-swap arr i (min_index arr (n - (i + 1)) (i + 1) i)

sort_from-SortedTo :
    (arr : List Mapping) (n r i : ℕ)
    → n ≤ length arr
    → i + r + 1 ≡ n
    → SortedTo arr n i
    → SortedTo (sort_from arr n r i) n (i + r)
unfolding sort_from least
sort_from-SortedTo arr n zero i small e h a b lo = h a b (omega arith)
sort_from-SortedTo arr n (suc r) i small e h a b lo =
    sort_from-SortedTo (swap arr i (least arr n i small (omega arith))) n r (i + 1)
      (rw length-swap small) (omega arith) (swap-SortedTo arr n i small (omega arith) h) a b
      (omega arith)

sort_from-Reorders :
    (arr : List Mapping) (n r i : ℕ)
    → n ≤ length arr
    → i + r ≤ n
    → Reorders n arr (sort_from arr n r i)
unfolding sort_from least
sort_from-Reorders arr n zero i small e = record {
  from = λ j. j;
  within = λ j h. h;
  injective = λ j k ne. ne;
  at = λ j. refl;
}
sort_from-Reorders arr n (suc r) i small e =
    Reorders-trans (swap-Reorders arr n i small (omega arith)) (
      sort_from-Reorders (swap arr i (least arr n i small (omega arith))) n r (i + 1)
        (rw length-swap small) (omega arith))

sort_from-perm :
    (arr : List Mapping) (n r i : ℕ)
    → n ≤ length arr
    → i + r ≤ n
    → Perm (take n (sort_from arr n r i)) (take n arr)
unfolding sort_from least
sort_from-perm arr n zero i small e = Perm.refl (take n arr)
sort_from-perm arr n (suc r) i small e =
    Perm.trans
      (sort_from-perm (swap arr i (least arr n i small (omega arith))) n r (i + 1)
        (rw length-swap small) (omega arith))
      (take-swap-perm n arr i (least arr n i small (omega arith)) small (omega arith)
        (omega (arith, least_bounds arr n i small (omega arith))))

sort_from-rest :
    (arr : List Mapping) (n r i k : ℕ)
    → n ≤ length arr
    → i + r ≤ n
    → n ≤ k
    → slot (sort_from arr n r i) k ≡ slot arr k
unfolding sort_from least
sort_from-rest arr n zero i k small e h = refl
sort_from-rest arr n (suc r) i k small e h =
    sort_from-rest (swap arr i (least arr n i small (omega arith))) n r (i + 1) k
      (rw length-swap small) (omega arith) h
    ∙ rest
  where
    rest : slot (swap arr i (least arr n i small (omega arith))) k ≡ slot arr k
    rest = ground (
      arith,
      slot-swap arr i (least arr n i small (omega arith)) k (omega arith),
      least_bounds arr n i small (omega arith),
    )

-- `selectionSort(arr, n)` leaves the first `n` slots in ascending order of `addr`.
pub selection_sort-sorted :
    (arr : List Mapping) (n : ℕ)
    → n ≤ length arr
    → (a b : ℕ) → a < b
    → b < n
    → (slot (selection_sort arr n) a).addr ≤ (slot (selection_sort arr n) b).addr
unfolding selection_sort
selection_sort-sorted arr n small a b lt hi =
    sort_from-SortedTo arr n (n - 1) 0 small (omega arith) (λ x y lo. absurd (omega arith)) a b
      (omega arith) lt hi

-- It permutes the first `n` slots, and leaves the others alone.
pub selection_sort-perm :
    (arr : List Mapping) (n : ℕ)
    → n ≤ length arr
    → Perm (take n (selection_sort arr n)) (take n arr)
      × ((k : ℕ) → n ≤ k → slot (selection_sort arr n) k ≡ slot arr k)
unfolding selection_sort
selection_sort-perm arr n small = (
  sort_from-perm arr n (n - 1) 0 small (omega arith),
  λ k h. sort_from-rest arr n (n - 1) 0 k small (omega arith) h,
)

-- The first `n` slots after sorting are the first `n` slots before, each once.
pub selection_sort-Reorders :
    (arr : List Mapping) (n : ℕ) → n ≤ length arr → Reorders n arr (selection_sort arr n)
unfolding selection_sort
selection_sort-Reorders arr n small = sort_from-Reorders arr n (n - 1) 0 small (omega arith)

pub length-selection_sort :
    (arr : List Mapping) (n : ℕ) → length (selection_sort arr n) ≡ length arr
unfolding selection_sort
length-selection_sort arr n = length-sort_from arr n (n - 1) 0

-- `selectionSort(arr, n)`, for an array of `n` slots at least, leaves the first `n` slots in ascending
-- order of `addr`; it permutes them, and leaves the others alone.
pub selection_sort_lem :
    (arr : List Mapping) (n : ℕ)
    → n ≤ length arr
    → ((a b : ℕ)
        → a < b
        → b < n
        → (slot (selection_sort arr n) a).addr ≤ (slot (selection_sort arr n) b).addr)
      × Perm (take n (selection_sort arr n)) (take n arr)
      × ((k : ℕ) → n ≤ k → slot (selection_sort arr n) k ≡ slot arr k)
selection_sort_lem arr n small =
    let (perm, rest) = selection_sort-perm arr n small in
    (λ a b lt hi. selection_sort-sorted arr n small a b lt hi, perm, rest)
