-- ===== src/Log/Crash.antt =====
-- A crash between any two block writes: what the disk then holds, and what recovery makes of it.
use cs537_project.Prelude.{
  ℕ, zero, suc, ◌+◌, ◌*◌, ◌≤◌, ◌<◌, ◌≡◌, ◌≢◌, ◌⊎◌, inl, inr, ap, ◌∙◌, sym, none, arith, ℕ_discrete,
  dec_lt, lt→ltb,
}
use cs537_project.Log.Disk.{Block, Disk, bread}
use cs537_project.Log.Ops.{
  Log, home_of, write_head, install_trans, install_from, write_log, write_log_from, clear_head,
  commit,
}
use cs537_project.Log.Writes.{
  IsHome, IsReady, write_log_from-same, power-write_log_from, write_log_from-copies,
  install_from-same, power-install_from, install_from-copies, write_log_from-not_dirty,
  install_from-dead,
}
use cs537_project.Log.Head.{write_head-stores, write_head-same, write_head-dead, power-write_head}

-- The number is one of the first `n` logged blocks, or none of them.
logged_or_not :
    (l : Log) (n b : ℕ)
    → ((i : ℕ) × (i < n) × (home_of l i ≡ b)) ⊎ ((i : ℕ) → i < n → home_of l i ≢ b)
logged_or_not l zero b = inr (λ i h. absurd (omega arith))
logged_or_not l (suc n) b = elim (ℕ_discrete (home_of l n) b) [
  | yes e ↦ inl (n, omega arith, e)
  | no ne ↦ elim (logged_or_not l n b) [
    | inl (i, h, e) ↦ inl (i, omega arith, e)
    | inr out ↦
        inr (λ i h. elim (ℕ_discrete i n) [ yes e ↦ rw e ne | no other ↦ out i (omega arith) ])
  ]
]

-- The log is empty, and outside it the disk holds `f`.
pub record Clean (l : Log) (blocks f : ℕ → Block) : Type 0 where
  pub empty : blocks l.start 0 ≡ 0
  pub homes : (b : ℕ) → IsHome l b → blocks b ≡ f b

-- The log holds the committed transaction of `l`, which makes `f` of what the disk holds outside it.
pub record Logged (l : Log) (blocks f : ℕ → Block) : Type 0 where
  pub count : blocks l.start 0 ≡ l.lh.n
  pub names : (i : ℕ) → i < l.lh.n → blocks l.start (suc i) ≡ home_of l i
  pub copies : (i : ℕ) → i < l.lh.n → blocks (l.start + i + 1) ≡ f (home_of l i)
  pub rest : (b : ℕ) → IsHome l b → ((i : ℕ) → i < l.lh.n → home_of l i ≢ b) → blocks b ≡ f b

-- No buffer of the log's own blocks is dirty.
abbrev pub LogNotDirty : Log → Disk → Type 0
LogNotDirty l d = (b : ℕ) → l.start ≤ b → b < l.start + l.size → d.dirty b ≡ none

pub bread_clean : (d : Disk) (b : ℕ) → d.dirty b ≡ none → bread d b ≡ d.blocks b
bread_clean d b h = ground arith

-- Installing leaves the log itself alone, wherever the power fails.
install-Logged :
    (l : Log) (d : Disk) (f : ℕ → Block)
    → IsReady l
    → Logged l d.blocks f
    → Logged l (install_from l l.lh.n 0 d).blocks f
install-Logged l d f ready g = record {
  count = ap (λ (x : Block). x 0) (kept l.start (omega arith) (omega arith)) ∙ g.count;
  names =
      λ i h. ap (λ (x : Block). x (suc i)) (kept l.start (omega arith) (omega arith)) ∙ g.names i h;
  copies = λ i h. kept (l.start + i + 1) (omega arith) (omega (arith, ready.room)) ∙ g.copies i h;
  rest = λ b h out.
      (install_from-same l ready l.lh.n 0 d b (λ i lo lt. out i (omega arith))).blocks
      ∙ g.rest b h out;
}
  where
    kept :
        (b : ℕ)
        → l.start ≤ b
        → b < l.start + l.size
        → (install_from l l.lh.n 0 d).blocks b ≡ d.blocks b
    kept b lo hi =
        (install_from-same l ready l.lh.n 0 d b
          (λ i ilo ilt e. omega (arith, ready.outside i (omega arith)))).blocks

-- Installing a committed transaction and erasing it leaves, wherever the power fails, a disk on which
-- it is still committed or done; with power for all writes it is done.
pub finish :
    (l : Log) (d : Disk) (f : ℕ → Block)
    → IsReady l
    → LogNotDirty l d
    → Logged l d.blocks f
    → (Logged l (write_head (clear_head l) (install_trans l d)).blocks f × (d.power ≤ l.lh.n))
      ⊎ Clean l (write_head (clear_head l) (install_trans l d)).blocks f
unfolding install_trans
finish l d f ready quiet g = elim (dec_lt l.lh.n d.power) [
  | yes p ↦ inr (record {
    empty =
        (write_head-stores (clear_head l) installed
          (omega (arith, power-install_from l ready l.lh.n 0 d))).0;
    homes = λ b h.
        (write_head-same (clear_head l) installed b (omega arith)).blocks
        ∙ elim (logged_or_not l l.lh.n b) [
          | inl (i, lt, e) ↦ rw (← e) (
              install_from-copies l ready l.lh.n 0 d (omega arith) (omega arith) i (omega arith) lt
              ∙ bread_clean d (l.start + i + 1)
                  (quiet (l.start + i + 1) (omega arith) (omega (arith, ready.room)))
              ∙ g.copies i lt)
          | inr out ↦
              (install_from-same l ready l.lh.n 0 d b (λ i lo lt. out i (omega arith))).blocks
              ∙ g.rest b h out
        ];
  })
  | no np ↦ inl (
    rw
        (write_head-dead (clear_head l) installed
          (omega (arith, power-install_from l ready l.lh.n 0 d)))
        (install-Logged l d f ready g),
    omega arith,
  )
]
  where
    installed : Disk
    installed = install_from l l.lh.n 0 d

-- What a commit may begin from: an empty log on disk, every changed block among the logged ones.
pub record CanCommit (l : Log) (d : Disk) : Type 0 where
  pub ready : IsReady l
  pub quiet : LogNotDirty l d
  pub empty : d.blocks l.start 0 ≡ 0
  pub pinned : (b : ℕ) → IsHome l b → ((i : ℕ) → i < l.lh.n → home_of l i ≢ b) → d.dirty b ≡ none

module _ (l : Log) (d : Disk) (c : CanCommit l d) where
  open c use {ready, quiet, empty, pinned}

  logged : Disk
  logged = write_log_from l l.lh.n 0 d

  -- After the header is written the transaction is committed.
  header-Logged : l.lh.n < d.power → Logged l (write_head l logged).blocks (bread d)
  unfolding logged
  header-Logged p = record {
    count = (write_head-stores l logged alive).0;
    names = (write_head-stores l logged alive).1;
    copies = λ i h.
        (write_head-same l logged (l.start + i + 1) (omega arith)).blocks
        ∙ write_log_from-copies l ready l.lh.n 0 d (omega arith) (omega arith) i (omega arith) h;
    rest = λ b h out.
        (write_head-same l logged b (omega arith)).blocks
        ∙ (write_log_from-same l ready l.lh.n 0 d b (omega (arith, ready.room))).blocks
        ∙ sym (bread_clean d b (pinned b h out));
  }
    where
      alive : 0 < (write_log_from l l.lh.n 0 d).power
      alive = omega (arith, power-write_log_from l ready l.lh.n 0 d)

  header-LogNotDirty : LogNotDirty l (write_head l logged)
  unfolding logged write_head
  header-LogNotDirty b lo hi =
      ground (arith, write_log_from-not_dirty l ready l.lh.n 0 d b (quiet b lo hi))

  -- Up to then the disk holds what it held before.
  dead-Clean :
      d.power ≤ l.lh.n
      → Clean l
          (write_head (clear_head l) (install_from l l.lh.n 0 (write_head l logged))).blocks
          d.blocks
  unfolding logged
  dead-Clean p = rw unwritten (record {
    empty =
        ap (λ (x : Block). x 0)
          (write_log_from-same l ready l.lh.n 0 d l.start (omega arith)).blocks
        ∙ empty;
    homes = λ b h. (write_log_from-same l ready l.lh.n 0 d b (omega (arith, ready.room))).blocks;
  })
    where
      unwritten :
          (write_head (clear_head l) (install_from l l.lh.n 0 (write_head l logged))).blocks
          ≡ logged.blocks
      unwritten =
          write_head-dead (clear_head l) _ (
            omega (
              arith,
              power-install_from l ready l.lh.n 0 (write_head l logged),
              power-write_head l logged,
              power-write_log_from l ready l.lh.n 0 d,
            ))
          ∙ install_from-dead l ready l.lh.n 0 (write_head l logged)
              (omega (arith, power-write_head l logged, power-write_log_from l ready l.lh.n 0 d))
          ∙ write_head-dead l logged (omega (arith, power-write_log_from l ready l.lh.n 0 d))

  -- Wherever the power fails during `commit`, the disk afterwards holds what it held before, or the
  -- whole transaction is committed in the log, or it is done.
  pub commit-crash :
      Clean l (commit l d).1.blocks d.blocks
      ⊎ Logged l (commit l d).1.blocks (bread d)
      ⊎ Clean l (commit l d).1.blocks (bread d)
  unfolding commit write_log install_trans logged
  commit-crash = elim (dec_lt 0 l.lh.n) [
    | no idle ↦ inl (ground (arith, empty))
    | yes busy ↦ rw (lt→ltb 0 l.lh.n busy) (elim (dec_lt l.lh.n d.power) [
      | no out ↦ inl (dead-Clean (omega arith))
      | yes p ↦
          elim (finish l (write_head l logged) (bread d) ready header-LogNotDirty
            (header-Logged p)) [ inl (g, low) ↦ inr (inl g) | inr done ↦ inr (inr done) ]
    ])
  ]

  -- With power for all its writes `commit` ends with the transaction done and the log empty.
  pub commit-installs :
      2 * l.lh.n + 2 ≤ d.power → 0 < l.lh.n → Clean l (commit l d).1.blocks (bread d)
  unfolding commit write_log install_trans logged
  commit-installs p busy =
      rw (lt→ltb 0 l.lh.n busy)
        (elim (finish l (write_head l logged) (bread d) ready header-LogNotDirty
          (header-Logged (omega arith))) [
            | inl (g, low) ↦
                absurd (
                  omega (arith, power-write_head l logged, power-write_log_from l ready l.lh.n 0 d))
            | inr done ↦ done
          ])
