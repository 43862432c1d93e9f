-- ===== src/Wmap/Sort.antt =====
-- `selectionSort` of wmap.c, with its two loops as recursions on the rounds left.
pub mod Step
pub mod Laws
use cs537_project.Prelude.{ℕ, zero, suc, ◌+◌, ◌-◌, List, ltb, if◌then◌else◌, set}
use cs537_project.Wmap.Types.{Mapping, slot}

-- The inner loop from `j` on, with `r` rounds left and the least index found so far.
pub min_index : List Mapping → ℕ → ℕ → ℕ → ℕ
min_index arr zero j least = least
min_index arr (suc r) j least =
    min_index arr r (j + 1) (if ltb (slot arr j).addr (slot arr least).addr then j else least)

-- `temp = arr[i]; arr[i] = arr[minIndex]; arr[minIndex] = temp`
pub swap : List Mapping → ℕ → ℕ → List Mapping
swap arr i k = set (set arr i (slot arr k)) k (slot arr i)

-- The outer loop from `i` on, with `r` rounds left.
pub sort_from : List Mapping → ℕ → ℕ → ℕ → List Mapping
sort_from arr n zero i = arr
sort_from arr n (suc r) i =
    sort_from (swap arr i (min_index arr (n - (i + 1)) (i + 1) i)) n r (i + 1)

-- The outer loop runs while `i < n - 1`; for `n = 0` the bound is -1 and it does not run.
unfoldable pub selection_sort : List Mapping → ℕ → List Mapping
unfolding sort_from swap min_index
selection_sort arr n = sort_from arr n (n - 1) 0
