-- ===== src/Bio/View.antt =====
-- The abstract view of disk 1: for each block its newest contents.
use mathlib.Core.Path.{subst}
use cs537_project.Prelude.{
  ℕ, ◌<◌, ◌≡◌, ◌≢◌, ◌⊎◌, sym, ap, ◌∙◌, List, true, false, ◌==◌, if◌then◌else◌, ℕ_discrete, update,
  update_self, update-ne,
}
use cs537_project.Bio.{binit, Buf, Bcache, nbuf, Disk}
use cs537_project.Bio.History.{World, Step, get, lock, change, write, release, Reach, start, later}

abbrev pub View : Type 0
View = ℕ → ℕ → ℕ

-- The view of the buffers and the disk: a buffer with data has the newest, and so has the disk where no
-- buffer of the block is dirty.
pub record IsView (c : Bcache) (k : Disk) (v : View) : Type 0 where
  pub cached :
      (i : ℕ)
      → i < nbuf
      → (c.buf i).dev ≡ 1
      → ((c.buf i).valid ≡ true) ⊎ ((c.buf i).dirty ≡ true)
      → (c.buf i).contents ≡ v (c.buf i).blockno
  pub stored :
      (n : ℕ)
      → ((i : ℕ) → i < nbuf → (c.buf i).dev ≡ 1 → (c.buf i).blockno ≡ n → (c.buf i).dirty ≡ false)
      → k.block n ≡ v n

-- What a step does to the view: a holder's change and a write of a buffer of disk 1 set its block.
abbrev pub effect : {s t : World} → Step s t → View → View
effect (get dev blockno i c e) v = v
effect (lock pid i j c k lo e) v = v
effect {s} (change pid i x lo held) v =
    if (s.0.buf i).dev == 1 then update v (s.0.buf i).blockno x else v
effect {s} (write pid i c k lo e) v = update v (s.0.buf i).blockno (s.0.buf i).contents
effect (release pid i c lo e) v = v

-- The view after a history, that of the disk at first.
abbrev pub view_of : (k : Disk) {w : World} → Reach (binit, k) w → View
view_of k start = k.block
view_of k (later r st) = effect st (view_of k r)

abbrev HasNewest : View → Buf → Type 0
HasNewest v x = x.dev ≡ 1 → (x.valid ≡ true) ⊎ (x.dirty ≡ true) → x.contents ≡ v x.blockno

-- Buffer `i` has become `b`.
module _ (c : Bcache) (k k' : Disk) (v v' : View) (order : List ℕ) (i : ℕ) (b : Buf)
    (h : IsView c k v) where
  pub set_buf-IsView :
      (b.dev ≡ 1 → (b.valid ≡ true) ⊎ (b.dirty ≡ true) → b.contents ≡ v' b.blockno)
      → ((j : ℕ)
          → j < nbuf
          → i ≢ j
          → (c.buf j).dev ≡ 1
          → v (c.buf j).blockno ≡ v' (c.buf j).blockno)
      → ((n : ℕ)
          → (i < nbuf → b.dev ≡ 1 → b.blockno ≡ n → b.dirty ≡ false)
          → ((j : ℕ)
              → j < nbuf
              → i ≢ j
              → (c.buf j).dev ≡ 1
              → (c.buf j).blockno ≡ n
              → (c.buf j).dirty ≡ false)
          → k'.block n ≡ v' n)
      → IsView (record { buf = update c.buf i b; order = order }) k' v'
  set_buf-IsView here others stored = record {
    cached = λ j lo. cached j lo;
    stored = λ n clean.
        stored n
          (λ lo.
            subst (λ (x : Buf). x.dev ≡ 1 → x.blockno ≡ n → x.dirty ≡ false) (update_self c.buf i b)
              (clean i lo))
          (λ j lo ne.
            subst (λ (x : Buf). x.dev ≡ 1 → x.blockno ≡ n → x.dirty ≡ false)
              (update-ne c.buf i j b ne) (clean j lo));
  }
    where
      cached : (j : ℕ) → j < nbuf → HasNewest v' (update c.buf i b j)
      cached j lo = elim (ℕ_discrete i j) [
        | yes e ↦
            subst (λ (x : ℕ). HasNewest v' (update c.buf i b x)) e
              (subst (HasNewest v') (sym (update_self c.buf i b)) here)
        | no ne ↦
            subst (HasNewest v') (sym (update-ne c.buf i j b ne))
              (λ d has_data. h.cached j lo d has_data ∙ others j lo ne d)
      ]

  -- The flags, the block and the data are the same.
  pub set_buf-IsView_same :
      i < nbuf
      → b.valid ≡ (c.buf i).valid
      → b.dirty ≡ (c.buf i).dirty
      → b.dev ≡ (c.buf i).dev
      → b.blockno ≡ (c.buf i).blockno
      → b.contents ≡ (c.buf i).contents
      → k' ≡ k
      → v' ≡ v
      → IsView (record { buf = update c.buf i b; order = order }) k' v'
  set_buf-IsView_same lo valid dirty dev blockno contents same_k same_v =
      set_buf-IsView (rw (valid, dirty, dev, blockno, contents, same_v) (h.cached i lo))
        (λ j j_lo ne one. ap (λ (x : View). x (c.buf j).blockno) (sym same_v))
        (rw (dirty, dev, blockno, same_k, same_v)
          (λ n clean others. h.stored n (λ j j_lo. elim (ℕ_discrete i j) [
            | yes e ↦
                subst
                  (λ (x : ℕ). (c.buf x).dev ≡ 1 → (c.buf x).blockno ≡ n → (c.buf x).dirty ≡ false) e
                  (clean lo)
            | no ne ↦ others j j_lo ne
          ])))
