-- ===== src/Log/Transaction.antt =====
-- `log_write`: it keeps what `commit` begins from, and absorbs a block that is already logged.
use cs537_project.Prelude.{
  ℕ, zero, suc, ◌+◌, ◌-◌, ◌≤◌, ◌<◌, ◌≡◌, ◌≢◌, ◌⊎◌, inl, inr, ap, ◌∙◌, sym, List, some, arith,
  get_or, set, get_or-set_self, get_or-set_ne, length-set, ◌==◌, if◌then◌else◌, ℕ_discrete, dec_lt,
  Bool-cases, of_some-eq, leb, ltb, ◌||◌,
}
use mathlib.Core.Path.{subst}
use cs537_project.Log.Disk.{Block, Disk, bread, pin}
use cs537_project.Log.Ops.{Log, log_size, home_of, log_index, log_write}
use cs537_project.Log.Writes.{IsHome}
use cs537_project.Log.Crash.{CanCommit}

-- The search ends at the slot that holds the block, or behind the used slots.
pub log_index_lem :
    (block : List ℕ) (r i blockno : ℕ)
    → ((i ≤ log_index block r i blockno)
        × (log_index block r i blockno < i + r)
        × (get_or block (log_index block r i blockno) 0 ≡ blockno))
      ⊎ ((log_index block r i blockno ≡ i + r)
          × ((k : ℕ) → i ≤ k → k < i + r → get_or block k 0 ≢ blockno))
unfolding log_index
log_index_lem block zero i blockno = inr (omega arith, λ k lo hi. absurd (omega arith))
log_index_lem block (suc r) i blockno = elim (ℕ_discrete (get_or block i 0) blockno) [
  | yes e ↦ inl (ground arith, ground arith, ground arith)
  | no ne ↦ elim (log_index_lem block r (i + 1) blockno) [
    | inl (lo, hi, e) ↦ inl (ground arith, ground arith, ground arith)
    | inr (e, out) ↦ inr (
      ground arith,
      λ k lo hi. elim (ℕ_discrete i k) [
        | yes q ↦ rw (← q) ne
        | no other ↦ out k (omega arith) (omega arith)
      ],
    )
  ]
]

-- The log after `log_write` has passed its checks.
abbrev written : Log → ℕ → Log
written l blockno =
    let i = log_index l.lh.block l.lh.n 0 blockno in
    record l {
      lh = record {
        n = if i == l.lh.n then l.lh.n + 1 else l.lh.n;
        block = set l.lh.block i blockno;
      };
    }

module _ (l : Log) (d : Disk) (blockno : ℕ) (x : Block) (c : CanCommit l d)
    (home : IsHome l blockno) (some_room : l.lh.n < log_size)
    (disk_room : l.lh.n + 1 < l.size) where
  open c use {ready}

  index : ℕ
  index = log_index l.lh.block l.lh.n 0 blockno

  -- The slot of the block, whether it was there before or is the next one.
  home_of-index : index ≤ l.lh.n → home_of (written l blockno) index ≡ blockno
  unfolding index
  home_of-index h =
      get_or-set_self l.lh.block (log_index l.lh.block l.lh.n 0 blockno) blockno 0
        (omega (arith, ready.slots))

  home_of_other : (k : ℕ) → k ≢ index → home_of (written l blockno) k ≡ home_of l k
  unfolding index
  home_of_other k ne =
      get_or-set_ne l.lh.block (log_index l.lh.block l.lh.n 0 blockno) k blockno 0 (λ e. ne (sym e))

  -- The block is logged afterwards, and so are those that were; no slot doubles another.
  record Extends : Type 0 where
    count : (l.lh.n ≤ (written l blockno).lh.n) × ((written l blockno).lh.n ≤ l.lh.n + 1)
    here : index < (written l blockno).lh.n
    kept : (k : ℕ) → k < l.lh.n → home_of (written l blockno) k ≡ home_of l k
    fresh :
        (k : ℕ) → k < (written l blockno).lh.n → k ≢ index → (k < l.lh.n) × (home_of l k ≢ blockno)

  written-Extends : Extends
  unfolding index
  written-Extends = elim (log_index_lem l.lh.block l.lh.n 0 blockno) [
    | inl (lo, hi, e) ↦ record {
      count = ground arith;
      here = ground arith;
      kept = λ k h. elim (ℕ_discrete k index) [
        | yes q ↦ rw q (home_of-index (omega arith) ∙ sym e)
        | no ne ↦ home_of_other k ne
      ];
      fresh = λ k h ne. (
        ground arith,
        λ q. ne (ready_injective k index (ground arith) (omega arith) (q ∙ sym e)),
      );
    }
    | inr (e, out) ↦ record {
      count = ground arith;
      here = ground arith;
      kept = λ k h. home_of_other k (omega arith);
      fresh = λ k h ne. (ground arith, out k (omega arith) (ground arith));
    }
  ]
    where
      ready_injective : (j k : ℕ) → j < l.lh.n → k < l.lh.n → home_of l j ≡ home_of l k → j ≡ k
      ready_injective j k hj hk e = elim (dec_lt j k) [
        | yes lt ↦ absurd (ready.distinct j k lt hk e)
        | no ge ↦ elim (dec_lt k j) [
          | yes gt ↦ absurd (ready.distinct k j gt hj (sym e))
          | no le ↦ omega arith
        ]
      ]

  written-CanCommit : CanCommit (written l blockno) (pin d blockno x)
  written-CanCommit = record {
    ready = record {
      slots = length-set l.lh.block (log_index l.lh.block l.lh.n 0 blockno) blockno ∙ ready.slots;
      small = omega (arith, ext.count);
      room = omega (arith, ext.count);
      distinct = apart;
      outside = λ k h. elim (ℕ_discrete k index) [
        | yes q ↦ rw (q, at_index) home
        | no ne ↦ rw (home_of_other k ne) (ready.outside k (ext.fresh k h ne).0)
      ];
    };
    quiet = λ b lo hi. ground (arith, c.quiet b lo hi);
    empty = c.empty;
    pinned = λ b h out. ground (
      arith,
      at_index,
      out index ext.here,
      c.pinned b h (λ k lt e. out k (omega (arith, ext.count)) (ext.kept k lt ∙ e)),
    );
  }
    where
      ext : Extends
      ext = written-Extends

      at_index : home_of (written l blockno) index ≡ blockno
      at_index = home_of-index (omega (arith, ext.here, ext.count))

      apart :
          (i j : ℕ)
          → i < j
          → j < (written l blockno).lh.n
          → home_of (written l blockno) i ≢ home_of (written l blockno) j
      apart i j lt h e = elim (ℕ_discrete j index) [
        | yes q ↦
            let old = ext.fresh i (omega arith) (omega arith) in
            old.1 (
              sym (home_of_other i (omega arith))
              ∙ e
              ∙ ap (home_of (written l blockno)) q
              ∙ at_index)
        | no nj ↦ elim (ℕ_discrete i index) [
          | yes q ↦
              (ext.fresh j h nj).1
                (sym (home_of_other j nj) ∙ sym e ∙ ap (home_of (written l blockno)) q ∙ at_index)
          | no ni ↦
              ready.distinct i j lt (ext.fresh j h nj).0
                (sym (home_of_other i ni) ∙ e ∙ home_of_other j nj)
        ]
      ]

-- `log_write` keeps all that `commit` begins from, and `bread` gives what was written.
pub log_write-CanCommit :
    {l l' : Log} {d d' : Disk} (blockno : ℕ) (x : Block)
    → CanCommit l d
    → IsHome l blockno
    → log_write l d blockno x ≡ some (l', d')
    → CanCommit l' d' × (bread d' blockno ≡ x) × ((b : ℕ) → b ≢ blockno → bread d' b ≡ bread d b)
unfolding log_write
log_write-CanCommit {l} {l'} {d} {d'} blockno x c home h =
    elim (Bool-cases (leb log_size l.lh.n || leb (l.size - 1) l.lh.n)) [
      | inl full ↦ absurd (cc (rw full at h))
      | inr room ↦ elim (Bool-cases (ltb l.outstanding 1)) [
        | inl outside ↦ absurd (cc (rw (room, outside) at h))
        | inr inside ↦
            subst
              (λ (r : Log × Disk).
                CanCommit r.0 r.1
                × (bread r.1 blockno ≡ x)
                × ((b : ℕ) → b ≢ blockno → bread r.1 b ≡ bread d b))
              (of_some-eq (rw (room, inside) at h))
              (
                written-CanCommit l d blockno x c home (ground arith) (ground arith),
                ground arith,
                λ b ne. ground arith,
              )
      ]
    ]
