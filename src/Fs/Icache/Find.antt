-- ===== src/Fs/Icache/Find.antt =====
-- The loop of `iget`.
use cs537_project.Prelude.{
  ℕ, zero, suc, ◌+◌, ◌≤◌, ◌<◌, ◌≡◌, ◌≢◌, inl, inr, true, false, Option, none, some, ◌==◌, arith,
  Bool-cases, ℕ_discrete,
}
use cs537_project.Fs.Inode.{Inode}
use cs537_project.Fs.Icache.{Found, cached, recycled, no_inodes, is_at, remember, find_inode}

-- No slot from `i` on, of `r` ones, has the inode.
abbrev pub IsAbsent : (ℕ → Inode) → ℕ → ℕ → ℕ → ℕ → Type 0
IsAbsent inode dev inum i r = (j : ℕ) → i ≤ j → j < i + r → is_at (inode j) dev inum ≡ false

-- The empty slot that is remembered.
abbrev pub IsEmpty : (ℕ → Inode) → ℕ → Option ℕ → Type 0
IsEmpty inode i none = (j : ℕ) → j < i → (inode j).ref ≢ 0
IsEmpty inode i (some e) = (e < i) × ((inode e).ref ≡ 0)

abbrev pub FoundAt : (ℕ → Inode) → ℕ → ℕ → ℕ → ℕ → Found → Type 0
FoundAt inode dev inum i r (cached k) = (k < i + r) × (is_at (inode k) dev inum ≡ true)
FoundAt inode dev inum i r (recycled e) =
    (e < i + r) × ((inode e).ref ≡ 0) × IsAbsent inode dev inum i r
FoundAt inode dev inum i r no_inodes =
    ((j : ℕ) → j < i + r → (inode j).ref ≢ 0) × IsAbsent inode dev inum i r

remember-IsEmpty :
    (empty : Option ℕ) (inode : ℕ → Inode) (i : ℕ)
    → IsEmpty inode i empty
    → IsEmpty inode (i + 1) (remember empty inode i)
remember-IsEmpty (some e) inode i (low, free) = (omega arith, free)
remember-IsEmpty none inode i none_free = elim (Bool-cases ((inode i).ref == 0)) [
  | inl free ↦ rw free (omega arith, ground arith)
  | inr used ↦ rw used (λ j h. elim (ℕ_discrete j i) [
    | yes e ↦ rw e (ground arith)
    | no ne ↦ none_free j (omega arith)
  ])
]

FoundAt-cons :
    (inode : ℕ → Inode) (dev inum i r : ℕ) (f : Found)
    → is_at (inode i) dev inum ≡ false
    → FoundAt inode dev inum (i + 1) r f
    → FoundAt inode dev inum i (suc r) f
FoundAt-cons inode dev inum i r (cached k) here (low, at) = (omega arith, at)
FoundAt-cons inode dev inum i r (recycled e) here (low, free, absent) = (
  omega arith,
  free,
  λ j j_low j_high. elim (ℕ_discrete j i) [
    | yes e ↦ rw e here
    | no ne ↦ absent j (omega arith) (omega arith)
  ],
)
FoundAt-cons inode dev inum i r no_inodes here (used, absent) = (
  λ j h. used j (omega arith),
  λ j j_low j_high. elim (ℕ_discrete j i) [
    | yes e ↦ rw e here
    | no ne ↦ absent j (omega arith) (omega arith)
  ],
)

pub find_inode_lem :
    (r : ℕ) (inode : ℕ → Inode) (dev inum i : ℕ) (empty : Option ℕ)
    → IsEmpty inode i empty
    → FoundAt inode dev inum i r (find_inode r inode dev inum i empty)
unfolding find_inode
find_inode_lem zero inode dev inum i none h =
    (λ j low. h j (omega arith), λ j low high. absurd (omega arith))
find_inode_lem zero inode dev inum i (some e) (low, free) =
    (omega arith, free, λ j low high. absurd (omega arith))
find_inode_lem (suc r) inode dev inum i empty h = elim (Bool-cases (is_at (inode i) dev inum)) [
  | inl here ↦ rw (find_inode, here) (omega arith, here)
  | inr other ↦
      rw (find_inode, other)
        (FoundAt-cons inode dev inum i r
          (find_inode r inode dev inum (i + 1) (remember empty inode i)) other
          (find_inode_lem r inode dev inum (i + 1) (remember empty inode i)
            (remember-IsEmpty empty inode i h)))
]
