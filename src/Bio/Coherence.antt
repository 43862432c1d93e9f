-- ===== src/Bio/Coherence.antt =====
-- The buffers agree with the disk: a block has one buffer at most, and a buffer that is valid and not
-- dirty holds what is on the disk.
use mathlib.Core.Path.{subst}
use cs537_project.Prelude.{
  ℕ, ◌<◌, ◌≡◌, ◌≢◌, inl, inr, refl, sym, ap, ◌∙◌, List, true, false, not, ◌&&◌, some, of_some-eq,
  ◌==◌, leb, arith, Bool-cases, ℕ_discrete, update, update_self, update-ne,
}
use cs537_project.Bio.{Buf, Bcache, set_buf, nbuf, recycle, Disk, holdingsleep, iderw}
use cs537_project.Bio.Search.{has}

-- A buffer as `iderw` is to leave it.
abbrev pub IsInSync : Buf → Disk → Type 0
IsInSync b k = b.valid ≡ true → b.dirty ≡ false → (b.dev ≡ 1) × (b.contents ≡ k.block b.blockno)

pub record IsCoherent (c : Bcache) (k : Disk) : Type 0 where
  pub within : (i : ℕ) → has i c.order ≡ true → i < nbuf
  pub full : (i : ℕ) → i < nbuf → has i c.order ≡ true
  pub unique :
      (i j : ℕ)
      → i < nbuf
      → j < nbuf
      → i ≢ j
      → (c.buf i).dev ≢ 0
      → (c.buf i).dev ≡ (c.buf j).dev
      → (c.buf i).blockno ≢ (c.buf j).blockno
  pub clean : (i : ℕ) → i < nbuf → IsInSync (c.buf i) k

-- What `iderw` does when it does not panic.
pub record Synced (b b' : Buf) (k k' : Disk) : Type 0 where
  pub from : b.dev ≡ 1
  pub dev : b'.dev ≡ b.dev
  pub blockno : b'.blockno ≡ b.blockno
  pub lock : b'.lock ≡ b.lock
  pub valid : b'.valid ≡ true
  pub clean : b'.dirty ≡ false
  pub contents : b'.contents ≡ k'.block b.blockno
  pub stored : b.dirty ≡ true → b'.contents ≡ b.contents
  pub fetched : b.dirty ≡ false → k' ≡ k
  pub others : (n : ℕ) → n ≢ b.blockno → k'.block n ≡ k.block n

pub iderw_lem :
    (pid : ℕ) (b b' : Buf) (k k' : Disk) → iderw pid b k ≡ some (b', k') → Synced b b' k k'
unfolding iderw
iderw_lem pid b b' k k' e = elim (Bool-cases (holdingsleep pid b.lock)) [
  | inr free ↦ (let e' = rw free at e in cc)
  | inl held ↦ elim (Bool-cases (b.valid && not b.dirty)) [
    | inl nothing ↦ (let e' = rw (held, nothing) at e in cc)
    | inr todo ↦ elim (Bool-cases (b.dev == 1)) [
      | inr other ↦ (let e' = rw (held, todo, other) at e in cc)
      | inl first ↦ elim (Bool-cases (leb k.size b.blockno)) [
        | inl out ↦ (let e' = rw (held, todo, first, out) at e in cc)
        | inr inside ↦ elim (Bool-cases b.dirty) [
          | inl dirty ↦
              subst (λ (x : Buf × Disk). Synced b x.0 k x.1)
                (of_some-eq (rw (held, todo, first, inside, dirty) at e))
                (record {
                  from = ground arith;
                  dev = refl;
                  blockno = refl;
                  lock = refl;
                  valid = refl;
                  clean = refl;
                  contents = sym (update_self k.block b.blockno b.contents);
                  stored = λ h. refl;
                  fetched = λ h. absurd (cc);
                  others = λ n ne. update-ne k.block b.blockno n b.contents (λ h. ne (sym h));
                })
          | inr clean ↦
              subst (λ (x : Buf × Disk). Synced b x.0 k x.1)
                (of_some-eq (rw (held, todo, first, inside, clean) at e))
                (record {
                  from = ground arith;
                  dev = refl;
                  blockno = refl;
                  lock = refl;
                  valid = refl;
                  clean = refl;
                  contents = refl;
                  stored = λ h. absurd (cc);
                  fetched = λ h. refl;
                  others = λ n ne. refl;
                })
        ]
      ]
    ]
  ]
]

-- Buffer `i` has become `b`, of the same block.
module _ (c : Bcache) (k k' : Disk) (order : List ℕ) (i : ℕ) (b : Buf) (legal : i < nbuf)
    (h : IsCoherent c k) (dev : b.dev ≡ (c.buf i).dev)
    (blockno : b.blockno ≡ (c.buf i).blockno) where
  dev-same : (j : ℕ) → (update c.buf i b j).dev ≡ (c.buf j).dev
  dev-same j = elim (ℕ_discrete i j) [
    | yes e ↦
        subst (λ (x : ℕ). (update c.buf i b x).dev ≡ (c.buf x).dev) e
          (ap (λ (x : Buf). x.dev) (update_self c.buf i b) ∙ dev)
    | no ne ↦ ap (λ (x : Buf). x.dev) (update-ne c.buf i j b ne)
  ]

  blockno-same : (j : ℕ) → (update c.buf i b j).blockno ≡ (c.buf j).blockno
  blockno-same j = elim (ℕ_discrete i j) [
    | yes e ↦
        subst (λ (x : ℕ). (update c.buf i b x).blockno ≡ (c.buf x).blockno) e
          (ap (λ (x : Buf). x.blockno) (update_self c.buf i b) ∙ blockno)
    | no ne ↦ ap (λ (x : Buf). x.blockno) (update-ne c.buf i j b ne)
  ]

  pub set_buf-IsCoherent :
      ((j : ℕ) → has j order ≡ true → has j c.order ≡ true)
      → ((j : ℕ) → has j c.order ≡ true → has j order ≡ true)
      → IsInSync b k'
      → ((j : ℕ)
          → j < nbuf
          → j ≢ i
          → (c.buf j).dev ≡ 1
          → k'.block (c.buf j).blockno ≡ k.block (c.buf j).blockno)
      → IsCoherent (record { buf = update c.buf i b; order = order }) k'
  set_buf-IsCoherent from to synced others = record {
    within = λ j m. h.within j (from j m);
    full = λ j lo. to j (h.full j lo);
    unique = λ a j a_lo j_lo ne some_dev same_dev same_block.
        h.unique a j a_lo j_lo ne (λ z. some_dev (dev-same a ∙ z))
          (sym (dev-same a) ∙ same_dev ∙ dev-same j)
          (sym (blockno-same a) ∙ same_block ∙ blockno-same j);
    clean = λ j lo. at j lo;
  }
    where
      at : (j : ℕ) → j < nbuf → IsInSync (update c.buf i b j) k'
      at j lo = elim (ℕ_discrete i j) [
        | yes e ↦
            subst (λ (x : ℕ). IsInSync (update c.buf i b x) k') e
              (subst (λ (x : Buf). IsInSync x k') (sym (update_self c.buf i b)) synced)
        | no ne ↦
            subst (λ (x : Buf). IsInSync x k') (sym (update-ne c.buf i j b ne))
              (λ v d.
                let (one, same) = h.clean j lo v d in
                (one, same ∙ sym (others j lo (λ e. ne (sym e)) one)))
      ]

-- A buffer is recycled for a block that has none.
module _ (c : Bcache) (k : Disk) (i dev blockno : ℕ) (h : IsCoherent c k)
    (fresh : (j : ℕ) → j < nbuf → (c.buf j).dev ≡ dev → (c.buf j).blockno ≢ blockno) where
  recycled : Bcache
  recycled = set_buf c i (recycle dev blockno (c.buf i))

  recycled_self : recycled.buf i ≡ recycle dev blockno (c.buf i)
  unfolding recycled
  recycled_self = update_self c.buf i (recycle dev blockno (c.buf i))

  recycled_ne : (j : ℕ) → i ≢ j → recycled.buf j ≡ c.buf j
  unfolding recycled
  recycled_ne j ne = update-ne c.buf i j (recycle dev blockno (c.buf i)) ne

  recycled_unique :
      (a j : ℕ)
      → a < nbuf
      → j < nbuf
      → a ≢ j
      → (recycled.buf a).dev ≢ 0
      → (recycled.buf a).dev ≡ (recycled.buf j).dev
      → (recycled.buf a).blockno ≢ (recycled.buf j).blockno
  recycled_unique a j a_lo j_lo ne some_dev = elim (ℕ_discrete i a) [
    | yes here ↦
        let at : recycled.buf a ≡ recycle dev blockno (c.buf i) =
          ap recycled.buf (sym here) ∙ recycled_self in
        let other = recycled_ne j (λ e. ne (sym here ∙ e)) in
        rw (at, other) (λ d b. fresh j j_lo (sym d) (sym b))
    | no a_ne ↦ elim (ℕ_discrete i j) [
      | yes here ↦
          let at : recycled.buf j ≡ recycle dev blockno (c.buf i) =
            ap recycled.buf (sym here) ∙ recycled_self in
          rw (at, recycled_ne a a_ne) (λ d b. fresh a a_lo d b)
      | no j_ne ↦
          rw (recycled_ne a a_ne, recycled_ne j j_ne)
            (h.unique a j a_lo j_lo ne
              (λ z. some_dev (ap (λ (x : Buf). x.dev) (recycled_ne a a_ne) ∙ z)))
    ]
  ]

  recycled_clean : (j : ℕ) → j < nbuf → IsInSync (recycled.buf j) k
  recycled_clean j lo = elim (ℕ_discrete i j) [
    | yes here ↦
        let at : recycled.buf j ≡ recycle dev blockno (c.buf i) =
          ap recycled.buf (sym here) ∙ recycled_self in
        rw at (λ v d. absurd (cc))
    | no ne ↦ rw (recycled_ne j ne) (h.clean j lo)
  ]

  pub recycled-IsCoherent : IsCoherent (set_buf c i (recycle dev blockno (c.buf i))) k
  unfolding recycled
  recycled-IsCoherent = record {
    within = h.within;
    full = h.full;
    unique = recycled_unique;
    clean = recycled_clean;
  }
