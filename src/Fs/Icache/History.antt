-- ===== src/Fs/Icache/History.antt =====
-- All that the processes do with inodes, in any order.
use mathlib.Core.Path.{subst}
use cs537_project.Prelude.{
  ℕ, ◌+◌, ◌-◌, ◌^◌, ◌<◌, ◌≡◌, refl, ap, sym, ◌∙◌, none, some, arith, update,
}
use cs537_project.Fs.{Superblock}
use cs537_project.Fs.Icache.{
  ninode, Icache, Found, cached, recycled, no_inodes, find_inode, iget, idup, ilock, iunlock, iput,
}
use cs537_project.Fs.Icache.Count.{World, IsCounted}
use cs537_project.Fs.Icache.Find.{FoundAt, IsAbsent, find_inode_lem}
use cs537_project.Fs.Icache.Ops.{
  is_at-same, is_at-other, idup-IsCounted, ilock-IsCounted, iunlock-IsCounted, iput-IsCounted,
  iget-IsCounted,
}

-- A process gets, copies or gives back a reference, and locks or unlocks an inode.
pub data Step (sb : Superblock) (w : World) : World → Type 0 where
  get :
      (dev inum i : ℕ) (c : Icache)
      → iget dev inum w.icache ≡ some (i, c)
      → w.held i + 1 < 2 ^ 31
      → Step sb w (record { icache = c; held = update w.held i (w.held i + 1) })
  dup :
      (i : ℕ)
      → i < ninode
      → 0 < w.held i
      → w.held i + 1 < 2 ^ 31
      → Step sb w (record { icache = idup i w.icache; held = update w.held i (w.held i + 1) })
  lock :
      (pid i : ℕ) (c : Icache)
      → i < ninode
      → ilock pid sb i w.icache ≡ some c
      → Step sb w (record { icache = c; held = w.held })
  unlock :
      (pid i : ℕ) (c : Icache)
      → i < ninode
      → iunlock pid i w.icache ≡ some c
      → Step sb w (record { icache = c; held = w.held })
  put :
      (pid i : ℕ) (c : Icache)
      → i < ninode
      → 0 < w.held i
      → iput pid sb i w.icache ≡ some c
      → Step sb w (record { icache = c; held = update w.held i (w.held i - 1) })

pub data Reach (sb : Superblock) (w : World) : World → Type 0 where
  start : Reach sb w w
  later : {s t : World} → Reach sb w s → Step sb s t → Reach sb w t

Step-IsCounted : {sb : Superblock} {s t : World} → Step sb s t → IsCounted s → IsCounted t
Step-IsCounted {s} (get dev inum i c e small) counted =
    iget-IsCounted s dev inum i c counted e small
Step-IsCounted {s} (dup i low held small) counted = idup-IsCounted s i counted low held small
Step-IsCounted {sb} {s} (lock pid i c low e) counted = ilock-IsCounted s sb pid i c counted low e
Step-IsCounted {s} (unlock pid i c low e) counted = iunlock-IsCounted s pid i c counted low e
Step-IsCounted {sb} {s} (put pid i c low held e) counted =
    iput-IsCounted s sb pid i c counted low held e

-- The cache at the start, with any contents that are not in use.
pub Reach-IsCounted :
    {sb : Superblock} {s t : World}
    → ((i : ℕ) → (s.icache.inode i).ref ≡ 0)
    → ((i : ℕ) → s.held i ≡ 0)
    → Reach sb s t
    → IsCounted t
Reach-IsCounted {s} free none_held start = record {
  count = λ i low. free i ∙ sym (none_held i);
  small = λ i low. rw (none_held i) (omega arith);
  unique = λ i j low j_low held. absurd (omega (arith, held, none_held i));
}
Reach-IsCounted free none_held (later r step) =
    Step-IsCounted step (Reach-IsCounted free none_held r)

-- Whatever the processes did, from a cache without references on, `ref` of each inode is the number of the references to it. A process that
-- asks for an inode to which there is a reference gets the same entry, and takes no other.
pub iget-idup :
    {sb : Superblock} {s t : World}
    → ((i : ℕ) → (s.icache.inode i).ref ≡ 0)
    → ((i : ℕ) → s.held i ≡ 0)
    → Reach sb s t
    → (i : ℕ) → i < ninode
    → ((t.icache.inode i).ref ≡ t.held i)
      × (0 < t.held i
          → iget (t.icache.inode i).dev (t.icache.inode i).inum t.icache
            ≡ some (i, idup i t.icache))
unfolding iget
iget-idup {s} {t} free none_held r i low = (counted.count i low, found)
  where
    counted : IsCounted t
    counted = Reach-IsCounted free none_held r

    dev : ℕ
    dev = (t.icache.inode i).dev

    inum : ℕ
    inum = (t.icache.inode i).inum

    there : IsAbsent t.icache.inode dev inum 0 ninode → 0 < t.held i → ⊥
    there absent held =
        is_at-other (t.icache.inode i) dev inum (absent i (omega arith) low)
          (rw (counted.count i low) held) (rw (counted.count i low) (counted.small i low)) refl refl

    by_found :
        (f : Found)
        → find_inode ninode t.icache.inode dev inum 0 none ≡ f
        → FoundAt t.icache.inode dev inum 0 ninode f
        → 0 < t.held i
        → iget dev inum t.icache ≡ some (i, idup i t.icache)
    by_found no_inodes e (used, absent) held = absurd (there absent held)
    by_found (recycled k) e (k_low, unused, absent) held = absurd (there absent held)
    by_found (cached k) e (k_low, at) held =
        let (used, d, n) = is_at-same (t.icache.inode k) dev inum at in
        let same : k ≡ i =
          counted.unique k i k_low low (subst (λ (x : ℕ). 0 < x) (counted.count k k_low) used) held
            d n in
        rw (iget, e) (ap (λ (x : ℕ). some (x, idup x t.icache)) same)

    found : 0 < t.held i → iget dev inum t.icache ≡ some (i, idup i t.icache)
    found =
        by_found (find_inode ninode t.icache.inode dev inum 0 none) refl
          (find_inode_lem ninode t.icache.inode dev inum 0 none (λ j h. absurd (omega arith)))
