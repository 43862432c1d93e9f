-- ===== src/Fs/Icache/Ops.antt =====
-- The references after each operation.
use mathlib.Core.Path.{subst}
use cs537_project.Prelude.{
  ℕ, ◌+◌, ◌-◌, ◌^◌, ◌<◌, ◌≡◌, ◌≢◌, inl, inr, refl, ap, sym, ◌∙◌, true, false, not, ◌||◌, Option,
  none, some, of_some-eq, arith, Bool-cases, Option-cases, add32, sub32, le_zero, update,
  update_self, update-ne,
}
use cs537_project.Bio.{acquiresleep, releasesleep, holdingsleep}
use cs537_project.Fs.{Superblock}
use cs537_project.Fs.Inode.{Inode}
use cs537_project.Fs.Icache.{
  ninode, Icache, set_inode, Found, cached, recycled, no_inodes, is_at, find_inode, iget, idup,
  load_inode, ilock, iunlock, iput_locked, iput,
}
use cs537_project.Fs.Icache.Count.{
  World, IsCounted, replaced-IsCounted, kept-IsCounted, moved-IsCounted,
}
use cs537_project.Fs.Icache.Keep.{load_inode-SameEntry, iput_locked-SameEntry}
use cs537_project.Fs.Icache.Find.{FoundAt, find_inode_lem}

pub idup-IsCounted :
    (w : World) (i : ℕ)
    → IsCounted w
    → i < ninode
    → 0 < w.held i
    → w.held i + 1 < 2 ^ 31
    → IsCounted (record { icache = idup i w.icache; held = update w.held i (w.held i + 1) })
idup-IsCounted w i counted low i_held small =
    let count = counted.count i low in
    moved-IsCounted w w.icache.blocks i (w.held i + 1)
      (record (w.icache.inode i) { ref = add32 (w.icache.inode i).ref 1 }) counted low i_held refl
      refl (rw count (omega arith)) small

pub ilock-IsCounted :
    (w : World) (sb : Superblock) (pid i : ℕ) (c : Icache)
    → IsCounted w
    → i < ninode
    → ilock pid sb i w.icache ≡ some c
    → IsCounted (record { icache = c; held = w.held })
unfolding ilock
ilock-IsCounted w sb pid i c counted low e =
    let ip = w.icache.inode i in
    elim (Bool-cases (le_zero ip.ref)) [
      | inl free ↦ (let e' = rw (ilock, free) at e in cc)
      | inr used ↦ elim (Option-cases (acquiresleep pid ip.lock)) [
        | inl waits ↦ (let e' = rw (ilock, used, waits) at e in cc)
        | inr (lk, taken) ↦
            elim (Option-cases (load_inode sb w.icache.blocks (record ip { lock = lk }))) [
              | inl out ↦ (let e' = rw (ilock, used, taken, out) at e in cc)
              | inr (ip', loaded) ↦
                  let same =
                    load_inode-SameEntry sb w.icache.blocks (record ip { lock = lk }) ip' loaded in
                  subst (λ (x : Icache). IsCounted (record { icache = x; held = w.held }))
                    (of_some-eq (rw (ilock, used, taken, loaded) at e))
                    (kept-IsCounted w w.icache.blocks i ip' counted low
                      (record { dev = same.dev; inum = same.inum; ref = same.ref }))
            ]
      ]
    ]

pub iunlock-IsCounted :
    (w : World) (pid i : ℕ) (c : Icache)
    → IsCounted w
    → i < ninode
    → iunlock pid i w.icache ≡ some c
    → IsCounted (record { icache = c; held = w.held })
unfolding iunlock
iunlock-IsCounted w pid i c counted low e =
    let ip = w.icache.inode i in
    elim (Bool-cases (not (holdingsleep pid ip.lock) || le_zero ip.ref)) [
      | inl bad ↦ (let e' = rw (iunlock, bad) at e in cc)
      | inr good ↦
          subst (λ (x : Icache). IsCounted (record { icache = x; held = w.held }))
            (of_some-eq (rw (iunlock, good) at e))
            (kept-IsCounted w w.icache.blocks i (record ip { lock = releasesleep ip.lock }) counted
              low (record { dev = refl; inum = refl; ref = refl }))
    ]

pub iput-IsCounted :
    (w : World) (sb : Superblock) (pid i : ℕ) (c : Icache)
    → IsCounted w
    → i < ninode
    → 0 < w.held i
    → iput pid sb i w.icache ≡ some c
    → IsCounted (record { icache = c; held = update w.held i (w.held i - 1) })
unfolding iput
iput-IsCounted w sb pid i c counted low i_held e =
    let ip = w.icache.inode i in
    elim (Option-cases (acquiresleep pid ip.lock)) [
      | inl waits ↦ (let e' = rw (iput, waits) at e in cc)
      | inr (lk, taken) ↦
          elim (Option-cases (iput_locked sb w.icache.blocks (record ip { lock = lk }))) [
            | inl out ↦ (let e' = rw (iput, taken, out) at e in cc)
            | inr ((ip', v'), done) ↦
                let same =
                  iput_locked-SameEntry sb w.icache.blocks (record ip { lock = lk }) ip' v' done in
                let count : ip'.ref ≡ w.held i = same.ref ∙ counted.count i low in
                let small = counted.small i low in
                subst
                  (λ (x : Icache).
                    IsCounted (record { icache = x; held = update w.held i (w.held i - 1) }))
                  (of_some-eq (rw (iput, taken, done) at e))
                  (moved-IsCounted w v' i (w.held i - 1)
                    (record ip' { lock = releasesleep ip'.lock; ref = sub32 ip'.ref 1 }) counted low
                    i_held same.dev same.inum (rw count (omega arith)) (omega arith))
          ]
    ]

-- An entry is found exactly by its device and its number.
pub is_at-same :
    (ip : Inode) (dev inum : ℕ)
    → is_at ip dev inum ≡ true
    → (0 < ip.ref) × (ip.dev ≡ dev) × (ip.inum ≡ inum)
is_at-same ip dev inum h = (ground arith, ground arith, ground arith)

pub is_at-other :
    (ip : Inode) (dev inum : ℕ)
    → is_at ip dev inum ≡ false
    → 0 < ip.ref
    → ip.ref < 2 ^ 31
    → dev ≡ ip.dev
    → inum ≢ ip.inum
is_at-other ip dev inum h used small d n = ground arith

get_cached :
    (w : World) (dev inum k : ℕ)
    → IsCounted w
    → k < ninode
    → is_at (w.icache.inode k) dev inum ≡ true
    → w.held k + 1 < 2 ^ 31
    → IsCounted (record { icache = idup k w.icache; held = update w.held k (w.held k + 1) })
get_cached w dev inum k counted low at small =
    let (used, _, _) = is_at-same (w.icache.inode k) dev inum at in
    idup-IsCounted w k counted low (subst (λ (x : ℕ). 0 < x) (counted.count k low) used) small

get_recycled :
    (w : World) (dev inum k : ℕ)
    → IsCounted w
    → k < ninode
    → (w.icache.inode k).ref ≡ 0
    → ((j : ℕ) → j < ninode → is_at (w.icache.inode j) dev inum ≡ false)
    → IsCounted (record {
      icache =
          set_inode w.icache k
            (record (w.icache.inode k) { dev = dev; inum = inum; ref = 1; valid = false });
      held = update w.held k (w.held k + 1);
    })
get_recycled w dev inum k counted low free absent =
    let none_held : w.held k ≡ 0 = sym (counted.count k low) ∙ free in
    let one : update w.held k (w.held k + 1) k ≡ 1 =
      update_self w.held k (w.held k + 1) ∙ rw none_held refl in
    replaced-IsCounted w w.icache.blocks (update w.held k (w.held k + 1)) k
      (record (w.icache.inode k) { dev = dev; inum = inum; ref = 1; valid = false }) counted
      (sym one) (rw one (omega arith))
      (λ j ne. update-ne w.held k j (w.held k + 1) (λ e. ne (sym e)))
      (λ j j_low ne now j_held.
        is_at-other (w.icache.inode j) dev inum (absent j j_low) (rw (counted.count j j_low) j_held)
          (rw (counted.count j j_low) (counted.small j j_low)))

pub iget-IsCounted :
    (w : World) (dev inum i : ℕ) (c : Icache)
    → IsCounted w
    → iget dev inum w.icache ≡ some (i, c)
    → w.held i + 1 < 2 ^ 31
    → IsCounted (record { icache = c; held = update w.held i (w.held i + 1) })
unfolding iget
iget-IsCounted w dev inum i c counted e small =
    by_found (find_inode ninode w.icache.inode dev inum 0 none) refl
      (find_inode_lem ninode w.icache.inode dev inum 0 none (λ j h. absurd (omega arith)))
  where
    moved :
        (k : ℕ) (c' : Icache)
        → ◌≡◌ {A = Option (ℕ × Icache)} (some (k, c')) (some (i, c))
        → (w.held k + 1 < 2 ^ 31
            → IsCounted (record { icache = c'; held = update w.held k (w.held k + 1) }))
        → IsCounted (record { icache = c; held = update w.held i (w.held i + 1) })
    moved k c' same done =
        let at : i ≡ k = sym (ap (λ (x : ℕ × Icache). x.0) (of_some-eq same)) in
        subst
          (λ (x : ℕ × Icache).
            IsCounted (record { icache = x.1; held = update w.held x.0 (w.held x.0 + 1) }))
          (of_some-eq same) (done (subst (λ (x : ℕ). w.held x + 1 < 2 ^ 31) at small))

    by_found :
        (f : Found)
        → find_inode ninode w.icache.inode dev inum 0 none ≡ f
        → FoundAt w.icache.inode dev inum 0 ninode f
        → IsCounted (record { icache = c; held = update w.held i (w.held i + 1) })
    by_found no_inodes found at = (let e' = rw (iget, found) at e in cc)
    by_found (cached k) found (low, at) =
        moved k (idup k w.icache) (rw (iget, found) at e) (get_cached w dev inum k counted low at)
    by_found (recycled k) found (low, free, absent) =
        moved k
          (set_inode w.icache k
            (record (w.icache.inode k) { dev = dev; inum = inum; ref = 1; valid = false }))
          (rw (iget, found) at e)
          (λ h.
            get_recycled w dev inum k counted low free (λ j j_low. absent j (omega arith) j_low))
