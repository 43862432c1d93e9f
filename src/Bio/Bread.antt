-- ===== src/Bio/Bread.antt =====
-- `bget` and `bread`.
use mathlib.Core.Path.{subst}
use cs537_project.Prelude.{
  ℕ, ◌<◌, ◌≤◌, ◌≡◌, ◌≢◌, ◌⊎◌, inl, inr, refl, sym, ap, ◌∙◌, true, false, and_true, none, some,
  of_some-eq, ◌==◌, leb, arith, Bool-cases, Option-cases, update_self, add32,
}
use cs537_project.Bio.{
  Buf, Bcache, set_buf, nbuf, find_first, find_last, is_block, is_free, recycle, bget, Disk,
  holdingsleep, iderw, Read, panics, waits, reads, fill, bread_locked, bread,
}
use cs537_project.Bio.Search.{find_first-none, find_last-none, find_first-some, find_last-some}
use cs537_project.Bio.Coherence.{
  IsCoherent, Synced, iderw_lem, set_buf-IsCoherent, recycled-IsCoherent,
}

-- `bget` returns a buffer for the block.
pub record IsFor (dev blockno i : ℕ) (c : Bcache) : Type 0 where
  pub legal : i < nbuf
  pub on_dev : (c.buf i).dev ≡ dev
  pub at_block : (c.buf i).blockno ≡ blockno

-- The block that none of the buffers is for.
not_found :
    (dev blockno : ℕ) (c : Bcache) (k : Disk)
    → IsCoherent c k
    → find_first (λ i. is_block dev blockno (c.buf i)) c.order ≡ none
    → (j : ℕ) → j < nbuf
    → (c.buf j).dev ≡ dev
    → (c.buf j).blockno ≢ blockno
not_found dev blockno c k h e j lo d b =
    let z = find_first-none (λ i. is_block dev blockno (c.buf i)) c.order j e (h.full j lo) in
    ground (arith, z, d, b)

pub bget_lem :
    (dev blockno i : ℕ) (c c' : Bcache) (k : Disk)
    → IsCoherent c k
    → bget dev blockno c ≡ some (i, c')
    → IsFor dev blockno i c' × IsCoherent c' k
unfolding bget
bget_lem dev blockno i c c' k h e =
    elim (Option-cases (find_first (λ i. is_block dev blockno (c.buf i)) c.order)) [
      | inr (j, found) ↦
          let (there, good) =
            find_first-some (λ i. is_block dev blockno (c.buf i)) c.order j found in
          let lo = h.within j there in
          let (d, b) = and_true ((c.buf j).dev == dev) ((c.buf j).blockno == blockno) good in
          let buf : Buf = record (c.buf j) { refcnt = add32 (c.buf j).refcnt 1 } in
          subst (λ (x : ℕ × Bcache). IsFor dev blockno x.0 x.1 × IsCoherent x.1 k)
            (of_some-eq (rw (bget, found) at e))
            (
              record {
                legal = lo;
                on_dev = ap (λ (x : Buf). x.dev) (update_self c.buf j buf) ∙ ground arith;
                at_block = ap (λ (x : Buf). x.blockno) (update_self c.buf j buf) ∙ ground arith;
              },
              set_buf-IsCoherent c k k c.order j buf lo h refl refl (λ a m. m) (λ a m. m)
                  (h.clean j lo) (λ a a_lo ne one. refl),
            )
      | inl out ↦ elim (Option-cases (find_last (λ i. is_free (c.buf i)) c.order)) [
        | inl full ↦ (let e' = rw (bget, out, full) at e in cc)
        | inr (j, found) ↦
            let (there, good) = find_last-some (λ i. is_free (c.buf i)) c.order j found in
            let lo = h.within j there in
            let fresh = not_found dev blockno c k h out in
            subst (λ (x : ℕ × Bcache). IsFor dev blockno x.0 x.1 × IsCoherent x.1 k)
              (of_some-eq (rw (bget, out, found) at e))
              (
                record {
                  legal = lo;
                  on_dev =
                      ap (λ (x : Buf). x.dev) (update_self c.buf j (recycle dev blockno (c.buf j)));
                  at_block =
                      ap (λ (x : Buf). x.blockno)
                        (update_self c.buf j (recycle dev blockno (c.buf j)));
                },
                recycled-IsCoherent c k j dev blockno h fresh,
              )
      ]
    ]

-- Buffer `i` of `c'` is locked by the process, valid, and for the same block as in `c`; a buffer that was
-- valid has kept its contents, and what is not dirty is what is on the disk.
pub record IsRead (pid i : ℕ) (c c' : Bcache) (k' : Disk) : Type 0 where
  pub held : holdingsleep pid (c'.buf i).lock ≡ true
  pub valid : (c'.buf i).valid ≡ true
  pub dev : (c'.buf i).dev ≡ (c.buf i).dev
  pub blockno : (c'.buf i).blockno ≡ (c.buf i).blockno
  pub kept : (c.buf i).valid ≡ true → (c'.buf i).contents ≡ (c.buf i).contents
  pub fetched : (c'.buf i).dirty ≡ false → (c'.buf i).contents ≡ k'.block (c.buf i).blockno

-- The cases of how `bread` ends from `acquiresleep` on, with the buffer that it is about.
abbrev pub LockedResult : ℕ → ℕ → Bcache → Disk → Read → Type 0
LockedResult pid i c k panics =
    ((c.buf i).valid ≡ false) × (((c.buf i).dev ≢ 1) ⊎ (k.size ≤ (c.buf i).blockno))
LockedResult pid i c k (waits j c') = (j ≡ i) × (c' ≡ c) × ((c.buf i).lock.locked ≡ true)
LockedResult pid i c k (reads j c' k') = (j ≡ i) × IsRead pid i c c' k' × IsCoherent c' k'

-- The buffer has become `b`, which is held.
set_buf-IsRead :
    (pid i : ℕ) (c : Bcache) (k' : Disk) (b : Buf)
    → holdingsleep pid b.lock ≡ true
    → b.valid ≡ true
    → b.dev ≡ (c.buf i).dev
    → b.blockno ≡ (c.buf i).blockno
    → ((c.buf i).valid ≡ true → b.contents ≡ (c.buf i).contents)
    → (b.dirty ≡ false → b.contents ≡ k'.block (c.buf i).blockno)
    → IsRead pid i c (set_buf c i b) k'
set_buf-IsRead pid i c k' b held valid dev blockno kept fetched =
    let at = update_self c.buf i b in
    record {
      held = rw at held;
      valid = rw at valid;
      dev = rw at dev;
      blockno = rw at blockno;
      kept = rw at kept;
      fetched = rw at fetched;
    }

holdingsleep_new : (pid : ℕ) → holdingsleep pid (record { locked = true; pid = pid }) ≡ true
holdingsleep_new pid = ground arith

-- A buffer that is held and not valid: `iderw` panics only if there is no such block.
iderw-none :
    (pid : ℕ) (b : Buf) (k : Disk)
    → holdingsleep pid b.lock ≡ true
    → b.valid ≡ false
    → iderw pid b k ≡ none
    → (b.dev ≢ 1) ⊎ (k.size ≤ b.blockno)
unfolding iderw
iderw-none pid b k held stale e = elim (Bool-cases (b.dev == 1)) [
  | inr other ↦ inl (λ z. ground (arith, z, other))
  | inl first ↦ elim (Bool-cases (leb k.size b.blockno)) [
    | inl out ↦ inr (ground arith)
    | inr inside ↦ elim (Bool-cases b.dirty) [
      | inl dirty ↦ (let e' = rw (held, stale, first, inside, dirty) at e in cc)
      | inr clean ↦ (let e' = rw (held, stale, first, inside, clean) at e in cc)
    ]
  ]
]

module _ (pid i : ℕ) (c : Bcache) (k : Disk) (lo : i < nbuf) (h : IsCoherent c k) where
  abbrev mine : Buf
  mine = record (c.buf i) { lock = record { locked = true; pid = pid } }

  abbrev locked : Bcache
  locked = set_buf c i mine

  locked_self : locked.buf i ≡ mine
  locked_self = update_self c.buf i mine

  locked-IsCoherent : IsCoherent locked k
  locked-IsCoherent =
      set_buf-IsCoherent c k k c.order i mine lo h refl refl (λ a m. m) (λ a m. m) (h.clean i lo)
        (λ a a_lo ne one. refl)

  read_cached : (c.buf i).valid ≡ true → LockedResult pid i c k (reads i locked k)
  read_cached valid = (
    refl,
    set_buf-IsRead pid i c k mine (holdingsleep_new pid) valid refl refl (λ v. refl)
        (λ d. (h.clean i lo valid d).1),
    locked-IsCoherent,
  )

  read_fetched :
      (b' : Buf) (k' : Disk)
      → (c.buf i).valid ≡ false
      → iderw pid (locked.buf i) k ≡ some (b', k')
      → LockedResult pid i c k (reads i (set_buf locked i b') k')
  read_fetched b' k' stale e =
      let s =
        subst (λ (x : Buf). Synced x b' k k') locked_self
          (iderw_lem pid (locked.buf i) b' k k' e) in
      let at : (set_buf locked i b').buf i ≡ b' = update_self locked.buf i b' in
      (
        refl,
        record {
          held = rw at (ap (holdingsleep pid) s.lock ∙ holdingsleep_new pid);
          valid = rw at s.valid;
          dev = rw at s.dev;
          blockno = rw at s.blockno;
          kept = λ v. absurd (cc);
          fetched = rw at (λ d. s.contents);
        },
        set_buf-IsCoherent locked k k' c.order i b' lo locked-IsCoherent
            (s.dev ∙ sym (ap (λ (x : Buf). x.dev) locked_self))
            (s.blockno ∙ sym (ap (λ (x : Buf). x.blockno) locked_self)) (λ a m. m) (λ a m. m)
            (λ v d. (s.dev ∙ s.from, s.contents ∙ ap k'.block (sym s.blockno)))
            (λ a a_lo ne one. s.others (locked.buf a).blockno (λ same.
              locked-IsCoherent.unique a i a_lo lo ne (λ z. omega (arith, one, z))
                (one ∙ sym (ap (λ (x : Buf). x.dev) locked_self ∙ s.from))
                (same ∙ sym (ap (λ (x : Buf). x.blockno) locked_self)))),
      )

  fill-LockedResult : LockedResult pid i c k (fill pid i locked k)
  unfolding fill
  fill-LockedResult =
      let held : holdingsleep pid (locked.buf i).lock ≡ true =
        ap (λ (x : Buf). holdingsleep pid x.lock) locked_self ∙ holdingsleep_new pid in
      elim (Bool-cases (locked.buf i).valid) [
        | inl valid ↦
            let done : fill pid i locked k ≡ reads i locked k = rw (fill, valid) refl in
            subst (LockedResult pid i c k) (sym done)
              (read_cached (sym (ap (λ (x : Buf). x.valid) locked_self) ∙ valid))
        | inr stale ↦
            let stale' : (c.buf i).valid ≡ false =
              sym (ap (λ (x : Buf). x.valid) locked_self) ∙ stale in
            elim (Option-cases (iderw pid (locked.buf i) k)) [
              | inl out ↦
                  let done : fill pid i locked k ≡ panics = rw (fill, stale, out) refl in
                  subst (LockedResult pid i c k) (sym done) (
                    stale',
                    subst (λ (x : Buf). (x.dev ≢ 1) ⊎ (k.size ≤ x.blockno)) locked_self
                        (iderw-none pid (locked.buf i) k held stale out),
                  )
              | inr ((b', k'), got) ↦
                  let done : fill pid i locked k ≡ reads i (set_buf locked i b') k' =
                    rw (fill, stale, got) refl in
                  subst (LockedResult pid i c k) (sym done) (read_fetched b' k' stale' got)
            ]
      ]

  pub bread_locked_lem : LockedResult pid i c k (bread_locked pid i c k)
  unfolding bread_locked
  bread_locked_lem = elim (Bool-cases (c.buf i).lock.locked) [
    | inl busy ↦
        let done : bread_locked pid i c k ≡ waits i c = rw (bread_locked, busy) refl in
        subst (LockedResult pid i c k) (sym done) (refl, refl, busy)
    | inr free ↦
        let done : bread_locked pid i c k ≡ fill pid i locked k = rw (bread_locked, free) refl in
        subst (LockedResult pid i c k) (sym done) fill-LockedResult
  ]

-- How a whole call of `bread` may end, where `all` says which buffers there are. A panic has no free buffer
-- or no such block on the disk.
abbrev pub ReadResult : ℕ → ℕ → ℕ → Bcache → Disk → Read → Type 0
ReadResult pid dev blockno c k panics =
    ((i : ℕ) → i < nbuf → (is_block dev blockno (c.buf i) ≡ false) × (is_free (c.buf i) ≡ false))
    ⊎ ((dev ≢ 1) ⊎ (k.size ≤ blockno))
ReadResult pid dev blockno c k (waits i c') =
    IsFor dev blockno i c' × IsCoherent c' k × ((c'.buf i).lock.locked ≡ true)
ReadResult pid dev blockno c k (reads i c' k') =
    IsFor dev blockno i c'
    × (holdingsleep pid (c'.buf i).lock ≡ true)
    × ((c'.buf i).valid ≡ true)
    × ((c'.buf i).dirty ≡ false → (c'.buf i).contents ≡ k'.block blockno)
    × IsCoherent c' k'

bread-locked :
    (pid dev blockno i : ℕ) (c c' : Bcache) (k : Disk) (r : Read)
    → IsFor dev blockno i c'
    → IsCoherent c' k
    → LockedResult pid i c' k r
    → ReadResult pid dev blockno c k r
bread-locked pid dev blockno i c c' k panics for coherent (stale, inl no_dev) =
    inr (inl (λ z. no_dev (for.on_dev ∙ z)))
bread-locked pid dev blockno i c c' k panics for coherent (stale, inr out) =
    inr (inr (rw (sym for.at_block) out))
bread-locked pid dev blockno i c c' k (waits j c'') for coherent (same, same_c, busy) =
    rw (same, same_c) (for, coherent, busy)
bread-locked pid dev blockno i c c' k (reads j c'' k'') for coherent (same, read, coherent') =
    rw same (
      record {
        legal = for.legal;
        on_dev = read.dev ∙ for.on_dev;
        at_block = read.blockno ∙ for.at_block;
      },
      read.held,
      read.valid,
      λ d. read.fetched d ∙ ap k''.block for.at_block,
      coherent',
    )

-- `bget` panics only if no buffer has the block and none is free.
bget-none :
    (dev blockno : ℕ) (c : Bcache) (k : Disk)
    → IsCoherent c k
    → bget dev blockno c ≡ none
    → (i : ℕ) → i < nbuf
    → (is_block dev blockno (c.buf i) ≡ false) × (is_free (c.buf i) ≡ false)
unfolding bget
bget-none dev blockno c k h e i low =
    elim (Option-cases (find_first (λ i. is_block dev blockno (c.buf i)) c.order)) [
      | inr (j, found) ↦ (let e' = rw (bget, found) at e in cc)
      | inl out ↦ elim (Option-cases (find_last (λ i. is_free (c.buf i)) c.order)) [
        | inr (j, found) ↦ (let e' = rw (bget, out, found) at e in cc)
        | inl full ↦ (
          find_first-none (λ i. is_block dev blockno (c.buf i)) c.order i out (h.full i low),
          find_last-none (λ i. is_free (c.buf i)) c.order i full (h.full i low),
        )
      ]
    ]

-- `bread` on coherent buffers panics only if no buffer has the block and each is in use or dirty, or the
-- disk has no such block; it waits
-- only for a buffer of the block that is locked; otherwise it returns a buffer of the block, which the
-- process holds and which is valid, and, unless it is dirty, has what is on the disk. In each case the
-- buffers stay coherent.
pub bread_lem :
    (pid dev blockno : ℕ) (c : Bcache) (k : Disk)
    → IsCoherent c k
    → ReadResult pid dev blockno c k (bread pid dev blockno c k)
unfolding bread
bread_lem pid dev blockno c k h = elim (Option-cases (bget dev blockno c)) [
  | inl out ↦
      let done : bread pid dev blockno c k ≡ panics = rw (bread, out) refl in
      subst (ReadResult pid dev blockno c k) (sym done) (inl (bget-none dev blockno c k h out))
  | inr ((i, c'), got) ↦
      let (for, coherent) = bget_lem dev blockno i c c' k h got in
      let done : bread pid dev blockno c k ≡ bread_locked pid i c' k = rw (bread, got) refl in
      subst (ReadResult pid dev blockno c k) (sym done) (
        bread-locked pid dev blockno i c c' k (bread_locked pid i c' k) for coherent
          (bread_locked_lem pid i c' k for.legal coherent))
]
