-- ===== src/Fs/Icache/Count.antt =====
-- The references that are held to inodes, over the life of the cache.
use mathlib.Core.Path.{subst}
use cs537_project.Prelude.{
  ℕ, ◌^◌, ◌<◌, ◌≡◌, ◌≢◌, refl, ap, sym, ◌∙◌, ℕ_discrete, update, update_self, update-ne,
}
use cs537_project.Fs.{Blocks}
use cs537_project.Fs.Inode.{Inode}
use cs537_project.Fs.Icache.{ninode, Icache}
use cs537_project.Fs.Icache.Keep.{SameEntry}

-- The cache, and how many references to each of its inodes the processes hold.
pub record World : Type 0 where
  pub icache : Icache
  pub held : ℕ → ℕ

-- `ref` is the number of the references, and no inode of the disk has two entries in use.
pub record IsCounted (w : World) : Type 0 where
  pub count : (i : ℕ) → i < ninode → (w.icache.inode i).ref ≡ w.held i
  pub small : (i : ℕ) → i < ninode → w.held i < 2 ^ 31
  pub unique :
      (i j : ℕ)
      → i < ninode
      → j < ninode
      → 0 < w.held i
      → 0 < w.held j
      → (w.icache.inode i).dev ≡ (w.icache.inode j).dev
      → (w.icache.inode i).inum ≡ (w.icache.inode j).inum
      → i ≡ j

-- One inode is replaced, and the references to it.
module _ (w : World) (blocks : Blocks) (held : ℕ → ℕ) (i : ℕ) (ip : Inode) (counted : IsCounted w)
    (count : ip.ref ≡ held i) (small : held i < 2 ^ 31)
    (others : (j : ℕ) → j ≢ i → held j ≡ w.held j)
    (alone : (j : ℕ)
      → j < ninode
      → j ≢ i
      → 0 < held i
      → 0 < w.held j
      → ip.dev ≡ (w.icache.inode j).dev
      → ip.inum ≢ (w.icache.inode j).inum) where
  other : (j : ℕ) → j ≢ i → update w.icache.inode i ip j ≡ w.icache.inode j
  other j ne = update-ne w.icache.inode i j ip (λ e. ne (sym e))

  two :
      (j k : ℕ)
      → j < ninode
      → k < ninode
      → j ≡ i
      → k ≢ i
      → 0 < held j
      → 0 < held k
      → (update w.icache.inode i ip j).dev ≡ (update w.icache.inode i ip k).dev
      → (update w.icache.inode i ip j).inum ≢ (update w.icache.inode i ip k).inum
  two j k j_low k_low at ne j_held k_held d n =
      let self : update w.icache.inode i ip j ≡ ip =
        ap (update w.icache.inode i ip) at ∙ update_self w.icache.inode i ip in
      alone k k_low ne (subst (λ (x : ℕ). 0 < held x) at j_held)
        (subst (λ (x : ℕ). 0 < x) (others k ne) k_held)
        (ap (λ (x : Inode). x.dev) (sym self) ∙ d ∙ ap (λ (x : Inode). x.dev) (other k ne))
        (ap (λ (x : Inode). x.inum) (sym self) ∙ n ∙ ap (λ (x : Inode). x.inum) (other k ne))

  pub replaced-IsCounted : IsCounted (record {
    icache = record { inode = update w.icache.inode i ip; blocks = blocks };
    held = held;
  })
  replaced-IsCounted = record {
    count = λ j low. elim (ℕ_discrete j i) [
      | yes e ↦ rw (e, update_self w.icache.inode i ip) count
      | no ne ↦ rw (other j ne) (counted.count j low ∙ sym (others j ne))
    ];
    small = λ j low. elim (ℕ_discrete j i) [
      | yes e ↦ rw e small
      | no ne ↦ rw (others j ne) (counted.small j low)
    ];
    unique = λ j k j_low k_low j_held k_held d n. elim (ℕ_discrete j i) [
      | yes at ↦ elim (ℕ_discrete k i) [
        | yes at' ↦ at ∙ sym at'
        | no ne ↦ absurd (two j k j_low k_low at ne j_held k_held d n)
      ]
      | no ne ↦ elim (ℕ_discrete k i) [
        | yes at ↦ absurd (two k j k_low j_low at ne k_held j_held (sym d) (sym n))
        | no ne' ↦
            counted.unique j k j_low k_low (subst (λ (x : ℕ). 0 < x) (others j ne) j_held)
              (subst (λ (x : ℕ). 0 < x) (others k ne') k_held)
              (ap (λ (x : Inode). x.dev) (sym (other j ne))
                ∙ d
                ∙ ap (λ (x : Inode). x.dev) (other k ne'))
              (ap (λ (x : Inode). x.inum) (sym (other j ne))
                ∙ n
                ∙ ap (λ (x : Inode). x.inum) (other k ne'))
      ]
    ];
  }

-- A lock or an unlock, or any other change that keeps the references.
pub kept-IsCounted :
    (w : World) (blocks : Blocks) (i : ℕ) (ip : Inode)
    → IsCounted w
    → i < ninode
    → SameEntry (w.icache.inode i) ip
    → IsCounted (record {
      icache = record { inode = update w.icache.inode i ip; blocks = blocks };
      held = w.held;
    })
kept-IsCounted w blocks i ip counted low same =
    replaced-IsCounted w blocks w.held i ip counted (same.ref ∙ counted.count i low)
      (counted.small i low) (λ j ne. refl)
      (λ j j_low ne i_held j_held d n.
        ne
          (sym (counted.unique i j low j_low i_held j_held (sym same.dev ∙ d) (sym same.inum ∙ n))))

-- `n` references to `i` instead of those before, to an inode that was in use.
pub moved-IsCounted :
    (w : World) (blocks : Blocks) (i n : ℕ) (ip : Inode)
    → IsCounted w
    → i < ninode
    → 0 < w.held i
    → ip.dev ≡ (w.icache.inode i).dev
    → ip.inum ≡ (w.icache.inode i).inum
    → ip.ref ≡ n
    → n < 2 ^ 31
    → IsCounted (record {
      icache = record { inode = update w.icache.inode i ip; blocks = blocks };
      held = update w.held i n;
    })
moved-IsCounted w blocks i n ip counted low i_held dev inum ref small =
    replaced-IsCounted w blocks (update w.held i n) i ip counted
      (ref ∙ sym (update_self w.held i n)) (rw (update_self w.held i n) small)
      (λ j ne. update-ne w.held i j n (λ e. ne (sym e)))
      (λ j j_low ne now j_held d m.
        ne (sym (counted.unique i j low j_low i_held j_held (sym dev ∙ d) (sym inum ∙ m))))
