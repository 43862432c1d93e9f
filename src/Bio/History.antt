-- ===== src/Bio/History.antt =====
-- All that the processes do with buffers, in any order.
use mathlib.Core.Path.{subst}
use cs537_project.Prelude.{
  ℕ, zero, suc, ◌+◌, ◌<◌, ◌≤◌, ◌≡◌, ◌⊎◌, inl, inr, refl, sym, ap, ◌∙◌, List, [], ◌∷◌, true, or_true,
  some, of_some-eq, ◌==◌, arith, Bool-cases, Option-cases, ℕ_discrete, sub32,
}
use cs537_project.Bio.{
  Buf, Bcache, set_buf, nbuf, bget, Disk, holdingsleep, iderw, reads, link_from, binit,
  bread_locked, bwrite, brelse, releasesleep, unlink,
}
use cs537_project.Bio.Search.{has, has_head, has_tail, has-relink, relink-has}
use cs537_project.Bio.Coherence.{IsCoherent, iderw_lem, set_buf-IsCoherent}
use cs537_project.Bio.Bread.{bget_lem, LockedResult, bread_locked_lem}

abbrev pub World : Type 0
World = Bcache × Disk

-- `get` is `bget` up to the lock of the buffer, `lock` the rest of `bread`. In `change` a process that
-- holds a buffer changes its data and marks it dirty: the two are one step, which is sound for processes
-- that call `log_write` or `bwrite` before they let go of the buffer, since it is locked until then.
pub data Step (w : World) : World → Type 0 where
  get : (dev blockno i : ℕ) (c : Bcache) → bget dev blockno w.0 ≡ some (i, c) → Step w (c, w.1)
  lock :
      (pid i j : ℕ) (c : Bcache) (k : Disk)
      → i < nbuf
      → bread_locked pid i w.0 w.1 ≡ reads j c k
      → Step w (c, k)
  change :
      (pid i : ℕ) (x : ℕ → ℕ)
      → i < nbuf
      → holdingsleep pid (w.0.buf i).lock ≡ true
      → Step w (set_buf w.0 i (record (w.0.buf i) { contents = x; dirty = true }), w.1)
  write :
      (pid i : ℕ) (c : Bcache) (k : Disk)
      → i < nbuf
      → bwrite pid i w.0 w.1 ≡ some (c, k)
      → Step w (c, k)
  release : (pid i : ℕ) (c : Bcache) → i < nbuf → brelse pid i w.0 ≡ some c → Step w (c, w.1)

pub data Reach (w : World) : World → Type 0 where
  start : Reach w w
  later : {s t : World} → Reach w s → Step s t → Reach w t

bwrite-IsCoherent :
    (pid i : ℕ) (c c' : Bcache) (k k' : Disk)
    → i < nbuf
    → IsCoherent c k
    → bwrite pid i c k ≡ some (c', k')
    → IsCoherent c' k'
unfolding bwrite
bwrite-IsCoherent pid i c c' k k' lo h e = elim (Bool-cases (holdingsleep pid (c.buf i).lock)) [
  | inr free ↦ (let e' = rw (bwrite, free) at e in cc)
  | inl held ↦ elim (Option-cases (iderw pid (record (c.buf i) { dirty = true }) k)) [
    | inl out ↦ (let e' = rw (bwrite, held, out) at e in cc)
    | inr ((b, k''), done) ↦
        let s = iderw_lem pid (record (c.buf i) { dirty = true }) b k k'' done in
        subst (λ (x : World). IsCoherent x.0 x.1) (of_some-eq (rw (bwrite, held, done) at e))
          (set_buf-IsCoherent c k k'' c.order i b lo h s.dev s.blockno (λ a m. m) (λ a m. m)
            (λ v d. (s.dev ∙ s.from, s.contents ∙ ap k''.block (sym s.blockno)))
            (λ a a_lo ne one.
              s.others (c.buf a).blockno
                (h.unique a i a_lo lo ne (λ z. omega (arith, one, z)) (one ∙ sym s.from))))
  ]
]

brelse-IsCoherent :
    (pid i : ℕ) (c c' : Bcache) (k : Disk)
    → i < nbuf
    → IsCoherent c k
    → brelse pid i c ≡ some c'
    → IsCoherent c' k
unfolding brelse
brelse-IsCoherent pid i c c' k lo h e = elim (Bool-cases (holdingsleep pid (c.buf i).lock)) [
  | inr free ↦ (let e' = rw (brelse, free) at e in cc)
  | inl held ↦
      let b : Buf = record (c.buf i) {
        lock = releasesleep (c.buf i).lock;
        refcnt = sub32 (c.buf i).refcnt 1;
      } in
      elim (Bool-cases (b.refcnt == 0)) [
        | inl last ↦
            subst (λ (x : Bcache). IsCoherent x k) (of_some-eq (rw (brelse, held, last) at e))
              (set_buf-IsCoherent c k k (i ∷ unlink i c.order) i b lo h refl refl
                (λ j m. elim (relink-has i j c.order m) [
                  | inl same ↦ rw same (h.full i lo)
                  | inr there ↦ there
                ])
                (λ j m. has-relink i j c.order m) (h.clean i lo) (λ a a_lo ne one. refl))
        | inr more ↦
            subst (λ (x : Bcache). IsCoherent x k) (of_some-eq (rw (brelse, held, more) at e))
              (set_buf-IsCoherent c k k c.order i b lo h refl refl (λ j m. m) (λ j m. m)
                (h.clean i lo) (λ a a_lo ne one. refl))
      ]
]

Step-IsCoherent : {s t : World} → Step s t → IsCoherent s.0 s.1 → IsCoherent t.0 t.1
Step-IsCoherent {s} (get dev blockno i c e) h = (bget_lem dev blockno i s.0 c s.1 h e).1
Step-IsCoherent {s} (lock pid i j c k lo e) h =
    let (same, read, coherent) =
      subst (LockedResult pid i s.0 s.1) e (bread_locked_lem pid i s.0 s.1 lo h) in
    coherent
Step-IsCoherent {s} (change pid i x lo held) h =
    set_buf-IsCoherent s.0 s.1 s.1 s.0.order i (record (s.0.buf i) { contents = x; dirty = true })
      lo h refl refl (λ j m. m) (λ j m. m) (λ v d. absurd (cc)) (λ a a_lo ne one. refl)
Step-IsCoherent {s} (write pid i c k lo e) h = bwrite-IsCoherent pid i s.0 c s.1 k lo h e
Step-IsCoherent {s} (release pid i c lo e) h = brelse-IsCoherent pid i s.0 c s.1 lo h e

has-link_from :
    (r b i : ℕ) (order : List ℕ)
    → (has i (link_from r b order) ≡ true → (has i order ≡ true) ⊎ ((b ≤ i) × (i < b + r)))
      × ((has i order ≡ true) ⊎ ((b ≤ i) × (i < b + r)) → has i (link_from r b order) ≡ true)
unfolding link_from has
has-link_from zero b i order =
    (λ h. inl h, λ h. elim h [ inl m ↦ m | inr (lo, hi) ↦ absurd (omega arith) ])
has-link_from (suc r) b i order =
    let (to, from) = has-link_from r (b + 1) i (b ∷ order) in
    (
      λ h. elim (to h) [
        | inl m ↦ elim (or_true (b == i) (has i order) m) [
          | inl same ↦ (let at : b ≡ i = ground arith in inr (omega arith, omega arith))
          | inr there ↦ inl there
        ]
        | inr (lo, hi) ↦ inr (omega arith, omega arith)
      ],
      λ h. elim h [
        | inl m ↦ from (inl (has_tail i b order m))
        | inr (lo, hi) ↦ elim (ℕ_discrete b i) [
          | yes same ↦ from (inl (rw same (has_head i order)))
          | no ne ↦ from (inr (omega arith, omega arith))
        ]
      ],
    )

-- The buffers as `binit` leaves them agree with any disk.
binit-IsCoherent : (k : Disk) → IsCoherent binit k
unfolding has
binit-IsCoherent k = record {
  within = λ i m. elim ((has-link_from nbuf 0 i []).0 m) [
    | inl none_there ↦ absurd (cc)
    | inr (lo, hi) ↦ hi
  ];
  full = λ i lo. (has-link_from nbuf 0 i []).1 (inr (omega arith, lo));
  unique = λ i j i_lo j_lo ne some_dev. absurd (some_dev refl);
  clean = λ i lo v. absurd (cc);
}

-- From `binit` on, whatever processes do with buffers, which mark a buffer that they hold as dirty whenever
-- they change its data: no block of a device other than 0 has two
-- buffers, and a buffer that is valid and not dirty holds what is on the disk for its block.
pub Reach-IsCoherent : (k : Disk) {w : World} → Reach (binit, k) w → IsCoherent w.0 w.1
Reach-IsCoherent k start = binit-IsCoherent k
Reach-IsCoherent k (later r s) = Step-IsCoherent s (Reach-IsCoherent k r)
