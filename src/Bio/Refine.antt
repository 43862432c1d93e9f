-- ===== src/Bio/Refine.antt =====
-- The steps of the processes on the abstract view of disk 1.
use mathlib.Core.Path.{subst}
use cs537_project.Prelude.{
  ℕ, ◌<◌, ◌≡◌, ◌≢◌, inl, inr, refl, sym, ap, ◌∙◌, ◌∷◌, Bool, true, false, not, and_true, some,
  of_some-eq, ◌==◌, if◌then◌else◌, arith, Bool-cases, Option-cases, ℕ_discrete, update, update_self,
  update-ne, add32, sub32,
}
use cs537_project.Bio.{
  binit, Buf, Bcache, set_buf, nbuf, find_first, find_last, is_block, is_free, recycle, bget, Disk,
  holdingsleep, iderw, Read, panics, waits, reads, fill, bread_locked, bwrite, brelse, releasesleep,
  unlink,
}
use cs537_project.Bio.Search.{find_first-some, find_last-some}
use cs537_project.Bio.Coherence.{IsCoherent, Synced, iderw_lem, set_buf-IsCoherent}
use cs537_project.Bio.History.{
  World, Step, get, lock, change, write, release, Reach, start, later, Reach-IsCoherent,
}
use cs537_project.Bio.View.{view_of, View, IsView, effect, set_buf-IsView, set_buf-IsView_same}

abbrev Viewed : View → Read → Type 0
Viewed v panics = ⊥
Viewed v (waits i c) = ⊥
Viewed v (reads i c k) = IsView c k v

get-IsView :
    (dev blockno i : ℕ) (c c' : Bcache) (k : Disk) (v : View)
    → IsCoherent c k
    → IsView c k v
    → bget dev blockno c ≡ some (i, c')
    → IsView c' k v
unfolding bget
get-IsView dev blockno i c c' k v coherent h e =
    elim (Option-cases (find_first (λ i. is_block dev blockno (c.buf i)) c.order)) [
      | inr (j, found) ↦
          let (there, good) =
            find_first-some (λ i. is_block dev blockno (c.buf i)) c.order j found in
          let b : Buf = record (c.buf j) { refcnt = add32 (c.buf j).refcnt 1 } in
          subst (λ (x : ℕ × Bcache). IsView x.1 k v) (of_some-eq (rw (bget, found) at e))
            (set_buf-IsView_same c k k v v c.order j b h (coherent.within j there) refl refl refl
              refl refl refl refl)
      | inl out ↦ elim (Option-cases (find_last (λ i. is_free (c.buf i)) c.order)) [
        | inl full ↦ (let e' = rw (bget, out, full) at e in cc)
        | inr (j, found) ↦
            let (there, good) = find_last-some (λ i. is_free (c.buf i)) c.order j found in
            let clean : (c.buf j).dirty ≡ false =
              not_true (c.buf j).dirty
                (and_true ((c.buf j).refcnt == 0) (not (c.buf j).dirty) good).1 in
            subst (λ (x : ℕ × Bcache). IsView x.1 k v) (of_some-eq (rw (bget, out, found) at e))
              (set_buf-IsView c k k v v c.order j (recycle dev blockno (c.buf j)) h
                (λ one has_data. absurd (elim has_data [ inl y ↦ cc | inr y ↦ cc ]))
                (λ a lo ne one. refl)
                (λ n free others. h.stored n (λ a lo one at. elim (ℕ_discrete j a) [
                  | yes same ↦ subst (λ (x : ℕ). (c.buf x).dirty ≡ false) same clean
                  | no ne ↦ others a lo ne one at
                ])))
      ]
    ]
  where
    not_true : (d : Bool) → not d ≡ true → d ≡ false
    not_true true e = sym e
    not_true false e = refl

-- Buffer `i`, as `x`, has gone through `iderw`.
Synced-IsView :
    (c : Bcache) (k k' : Disk) (v v' : View) (i : ℕ) (x b : Buf)
    → i < nbuf
    → IsCoherent c k
    → IsView c k v
    → Synced x b k k'
    → x.dev ≡ (c.buf i).dev
    → x.blockno ≡ (c.buf i).blockno
    → v' x.blockno ≡ b.contents
    → ((n : ℕ) → n ≢ x.blockno → v' n ≡ v n)
    → IsView (set_buf c i b) k' v'
Synced-IsView c k k' v v' i x b lo coherent h s dev blockno newest old =
    set_buf-IsView c k k' v v' c.order i b h (λ one has_data. sym newest ∙ ap v' (sym s.blockno))
      (λ j j_lo ne one. sym (
        old (c.buf j).blockno (λ same.
          coherent.unique j i j_lo lo (λ e. ne (sym e)) (λ z. omega (arith, one, z))
            (one ∙ sym s.from ∙ dev) (same ∙ blockno))))
      (λ n free others. elim (ℕ_discrete n x.blockno) [
        | yes here ↦ ap k'.block here ∙ sym s.contents ∙ sym newest ∙ ap v' (sym here)
        | no ne ↦
            s.others n ne
            ∙ h.stored n (λ j j_lo one at. elim (ℕ_discrete i j) [
              | yes same ↦
                  absurd (ne (sym at ∙ ap (λ (a : ℕ). (c.buf a).blockno) (sym same) ∙ sym blockno))
              | no other ↦ others j j_lo other one at
            ])
            ∙ sym (old n ne)
      ])

-- What `iderw` leaves in a buffer that is not valid is what the view has.
fetched-newest :
    (c : Bcache) (k k' : Disk) (v : View) (i : ℕ) (b : Buf)
    → i < nbuf
    → IsCoherent c k
    → IsView c k v
    → Synced (c.buf i) b k k'
    → v (c.buf i).blockno ≡ b.contents
fetched-newest c k k' v i b lo coherent h s = elim (Bool-cases (c.buf i).dirty) [
  | inl dirty ↦ sym (s.stored dirty ∙ h.cached i lo s.from (inr dirty))
  | inr clean ↦ sym (
      s.contents
      ∙ ap (λ (d : Disk). d.block (c.buf i).blockno) (s.fetched clean)
      ∙ h.stored (c.buf i).blockno (λ j j_lo one at. elim (ℕ_discrete i j) [
        | yes same ↦ subst (λ (a : ℕ). (c.buf a).dirty ≡ false) same clean
        | no ne ↦ absurd (
            coherent.unique j i j_lo lo (λ e. ne (sym e)) (λ z. omega (arith, one, z))
              (one ∙ sym s.from) at)
      ]))
]

fill-IsView :
    (pid i j : ℕ) (c c' : Bcache) (k k' : Disk) (v : View)
    → i < nbuf
    → IsCoherent c k
    → IsView c k v
    → fill pid i c k ≡ reads j c' k'
    → IsView c' k' v
unfolding fill
fill-IsView pid i j c c' k k' v lo coherent h e = elim (Bool-cases (c.buf i).valid) [
  | inl valid ↦ subst (Viewed v) (rw (fill, valid) at e) h
  | inr stale ↦ elim (Option-cases (iderw pid (c.buf i) k)) [
    | inl out ↦ (let e' = rw (fill, stale, out) at e in cc)
    | inr ((b, k''), done) ↦
        let s = iderw_lem pid (c.buf i) b k k'' done in
        subst (Viewed v) (rw (fill, stale, done) at e) (
          Synced-IsView c k k'' v v i (c.buf i) b lo coherent h s refl refl
            (fetched-newest c k k'' v i b lo coherent h s) (λ n ne. refl))
  ]
]

lock-IsView :
    (pid i j : ℕ) (c c' : Bcache) (k k' : Disk) (v : View)
    → i < nbuf
    → IsCoherent c k
    → IsView c k v
    → bread_locked pid i c k ≡ reads j c' k'
    → IsView c' k' v
unfolding bread_locked
lock-IsView pid i j c c' k k' v lo coherent h e = elim (Bool-cases (c.buf i).lock.locked) [
  | inl busy ↦ (let e' = rw (bread_locked, busy) at e in cc)
  | inr free ↦
      let b : Buf = record (c.buf i) { lock = record { locked = true; pid = pid } } in
      fill-IsView pid i j (set_buf c i b) c' k k' v lo
        (set_buf-IsCoherent c k k c.order i b lo coherent refl refl (λ a m. m) (λ a m. m)
          (coherent.clean i lo) (λ a a_lo ne one. refl))
        (set_buf-IsView_same c k k v v c.order i b h lo refl refl refl refl refl refl refl)
        (rw (bread_locked, free) at e)
]

write-IsView :
    (pid i : ℕ) (c c' : Bcache) (k k' : Disk) (v : View)
    → i < nbuf
    → IsCoherent c k
    → IsView c k v
    → bwrite pid i c k ≡ some (c', k')
    → IsView c' k' (update v (c.buf i).blockno (c.buf i).contents)
unfolding bwrite
write-IsView pid i c c' k k' v lo coherent h e =
    elim (Bool-cases (holdingsleep pid (c.buf i).lock)) [
      | inr free ↦ (let e' = rw (bwrite, free) at e in cc)
      | inl held ↦
          let x : Buf = record (c.buf i) { dirty = true } in
          let v' = update v (c.buf i).blockno (c.buf i).contents in
          elim (Option-cases (iderw pid x k)) [
            | inl out ↦ (let e' = rw (bwrite, held, out) at e in cc)
            | inr ((b, k''), done) ↦
                let s = iderw_lem pid x b k k'' done in
                subst (λ (w : World). IsView w.0 w.1 v') (of_some-eq (rw (bwrite, held, done) at e))
                  (Synced-IsView c k k'' v v' i x b lo coherent h s refl refl
                    (update_self v (c.buf i).blockno (c.buf i).contents ∙ sym (s.stored refl))
                    (λ n ne. update-ne v (c.buf i).blockno n (c.buf i).contents (λ e. ne (sym e))))
          ]
    ]

release-IsView :
    (pid i : ℕ) (c c' : Bcache) (k : Disk) (v : View)
    → i < nbuf
    → IsView c k v
    → brelse pid i c ≡ some c'
    → IsView c' k v
unfolding brelse
release-IsView pid i c c' k v lo h e = elim (Bool-cases (holdingsleep pid (c.buf i).lock)) [
  | inr free ↦ (let e' = rw (brelse, free) at e in cc)
  | inl held ↦
      let b : Buf = record (c.buf i) {
        lock = releasesleep (c.buf i).lock;
        refcnt = sub32 (c.buf i).refcnt 1;
      } in
      let order = if b.refcnt == 0 then i ∷ unlink i c.order else c.order in
      subst (λ (x : Bcache). IsView x k v) (of_some-eq (rw (brelse, held) at e))
        (set_buf-IsView_same c k k v v order i b h lo refl refl refl refl refl refl refl)
]

-- A change of a buffer of disk 1, which then is dirty.
change-IsView_one :
    (i : ℕ) (x : ℕ → ℕ) (c : Bcache) (k : Disk) (v : View)
    → i < nbuf
    → IsCoherent c k
    → IsView c k v
    → (c.buf i).dev ≡ 1
    → IsView
        (set_buf c i (record (c.buf i) { contents = x; dirty = true }))
        k
        (update v (c.buf i).blockno x)
change-IsView_one i x c k v lo coherent h first =
    let old = update-ne v (c.buf i).blockno in
    set_buf-IsView c k k v (update v (c.buf i).blockno x) c.order i
      (record (c.buf i) { contents = x; dirty = true }) h
      (λ one has_data. sym (update_self v (c.buf i).blockno x))
      (λ j j_lo ne one. sym (
        update-ne v (c.buf i).blockno (c.buf j).blockno x
          (coherent.unique i j lo j_lo ne (λ z. omega (arith, first, z)) (first ∙ sym one))))
      (λ n free others. elim (ℕ_discrete (c.buf i).blockno n) [
        | yes here ↦ (let z : true ≡ false = free lo first here in cc)
        | no ne ↦
            h.stored n (λ j j_lo one at. elim (ℕ_discrete i j) [
              | yes same ↦ absurd (ne (ap (λ (a : ℕ). (c.buf a).blockno) same ∙ at))
              | no other ↦ others j j_lo other one at
            ])
            ∙ sym (update-ne v (c.buf i).blockno n x ne)
      ])

-- A change of a buffer of another device.
change-IsView_other :
    (i : ℕ) (x : ℕ → ℕ) (c : Bcache) (k : Disk) (v : View)
    → IsView c k v
    → (c.buf i).dev ≢ 1
    → IsView (set_buf c i (record (c.buf i) { contents = x; dirty = true })) k v
change-IsView_other i x c k v h other =
    set_buf-IsView c k k v v c.order i (record (c.buf i) { contents = x; dirty = true }) h
      (λ one has_data. absurd (other one)) (λ j j_lo ne one. refl)
      (λ n free others. h.stored n (λ j j_lo one at. elim (ℕ_discrete i j) [
        | yes same ↦ absurd (other (ap (λ (a : ℕ). (c.buf a).dev) same ∙ one))
        | no ne ↦ others j j_lo ne one at
      ]))

-- On coherent buffers each step does to the view of disk 1 what its effect says.
Step-IsView :
    {s t : World} (v : View) (st : Step s t)
    → IsCoherent s.0 s.1
    → IsView s.0 s.1 v
    → IsView t.0 t.1 (effect st v)
Step-IsView {s} v (get dev blockno i c e) coherent h =
    get-IsView dev blockno i s.0 c s.1 v coherent h e
Step-IsView {s} v (lock pid i j c k lo e) coherent h =
    lock-IsView pid i j s.0 c s.1 k v lo coherent h e
Step-IsView {s} v (change pid i x lo held) coherent h = elim (Bool-cases ((s.0.buf i).dev == 1)) [
  | inl first ↦ rw first (change-IsView_one i x s.0 s.1 v lo coherent h (ground arith))
  | inr other ↦ rw other (change-IsView_other i x s.0 s.1 v h (ground arith))
]
Step-IsView {s} v (write pid i c k lo e) coherent h =
    write-IsView pid i s.0 c s.1 k v lo coherent h e
Step-IsView {s} v (release pid i c lo e) coherent h = release-IsView pid i s.0 c s.1 v lo h e

binit-IsView : (k : Disk) → IsView binit k k.block
binit-IsView k = record {
  cached = λ i lo one has_data. absurd (omega (arith, one));
  stored = λ n clean. refl;
}

-- From `binit` on, whatever the processes do with buffers, the buffers and the disk together hold the
-- newest contents of each block of disk 1: a buffer that is valid or dirty has them, and the disk has them
-- where no buffer of the block is dirty. The newest contents are those at first on the disk, which only
-- a holder's change of a buffer and `bwrite` set; `bget`, `bread` and `brelse` leave them as they are, also
-- when a buffer is recycled.
pub Reach-IsView : (k : Disk) {w : World} (r : Reach (binit, k) w) → IsView w.0 w.1 (view_of k r)
Reach-IsView k start = binit-IsView k
Reach-IsView k (later r st) = Step-IsView (view_of k r) st (Reach-IsCoherent k r) (Reach-IsView k r)
