-- ===== src/Log/Recovery.antt =====
-- Recovery after a crash: it may itself be cut short any number of times, and it ends with all of a
-- transaction or with none of it.
use cs537_project.Prelude.{
  ℕ, suc, ◌≤◌, ◌<◌, ◌≡◌, ◌⊎◌, inl, inr, refl, ap, ◌∙◌, sym, List, [], ◌∷◌, none, arith, length,
  ℕ_discrete,
}
use cs537_project.Log.Disk.{Block, Disk, bread}
use cs537_project.Log.Ops.{
  Log, log_size, home_of, read_head, write_head, install_trans, install_from, clear_head, commit,
  recover_from_log,
}
use cs537_project.Log.Writes.{IsHome, IsReady}
use cs537_project.Log.Head.{write_head-stores, write_head-same, write_head-dead, read_head-reads}
use cs537_project.Log.Crash.{Clean, Logged, CanCommit, commit-crash, finish}

-- The machine starts again: no buffer is dirty, and the power lasts for `power` block writes.
abbrev pub reboot : (ℕ → Block) → ℕ → Disk
reboot blocks power = record { blocks = blocks; dirty = λ b. none; power = power }

-- What the disk holds after `recover_from_log`, run by `boot` once for each length of power.
abbrev pub recovered : Log → (ℕ → Block) → List ℕ → ℕ → Block
recovered boot blocks [] = blocks
recovered boot blocks (power ∷ more) =
    recovered boot (recover_from_log boot (reboot blocks power)).1.blocks more

-- Two log headers in memory that name the same transaction.
record Matches (l r : Log) : Type 0 where
  start : r.start ≡ l.start
  size : r.size ≡ l.size
  count : r.lh.n ≡ l.lh.n
  names : (i : ℕ) → i < l.lh.n → home_of r i ≡ home_of l i

Matches-sym : {l r : Log} → Matches l r → Matches r l
Matches-sym m = record {
  start = sym m.start;
  size = sym m.size;
  count = sym m.count;
  names = λ i h. sym (m.names i (omega (arith, m.count)));
}

Matches-IsReady : {l r : Log} → Matches l r → length r.lh.block ≡ log_size → IsReady l → IsReady r
Matches-IsReady {l} {r} m size ready = record {
  slots = size;
  small = omega (arith, m.count, ready.small);
  room = omega (arith, m.count, m.size, ready.room);
  distinct = λ i j lt h.
      rw (m.names i (omega (arith, m.count)), m.names j (omega (arith, m.count)))
        (ready.distinct i j lt (omega (arith, m.count)));
  outside = λ i h.
      rw (m.names i (omega (arith, m.count)))
        (omega (arith, m.start, m.size, ready.outside i (omega (arith, m.count))));
}

Matches-Logged :
    {l r : Log} {blocks f : ℕ → Block} → Matches l r → Logged l blocks f → Logged r blocks f
Matches-Logged {l} {r} {blocks} {f} m g = record {
  count = rw (m.start, m.count) g.count;
  names =
      λ i h. rw (m.start, m.names i (omega (arith, m.count))) (g.names i (omega (arith, m.count)));
  copies =
      λ i h. rw (m.start, m.names i (omega (arith, m.count))) (g.copies i (omega (arith, m.count)));
  rest = λ b h out.
      g.rest b (omega (arith, m.start, m.size))
        (λ i lt. rw (m.names i lt) at (out i (omega (arith, m.count))));
}

Clean-moves :
    {l r : Log} {blocks f : ℕ → Block}
    → r.start ≡ l.start
    → r.size ≡ l.size
    → Clean l blocks f
    → Clean r blocks f
Clean-moves {l} {r} {blocks} start size c = record {
  empty = rw start c.empty;
  homes = λ b h. c.homes b (omega arith);
}

-- `recover_from_log` finds a committed transaction in the header.
read_head-Matches :
    (boot l : Log) (blocks f : ℕ → Block) (power : ℕ)
    → length boot.lh.block ≡ log_size
    → IsReady l
    → boot.start ≡ l.start
    → boot.size ≡ l.size
    → Logged l blocks f
    → Matches l (read_head boot (reboot blocks power))
      × (length (read_head boot (reboot blocks power)).lh.block ≡ log_size)
unfolding read_head
read_head-Matches boot l blocks f power size ready same same_size g = (
  record {
    start = same;
    size = same_size;
    count = found.0 ∙ at 0 ∙ g.count;
    names = λ i h. found.1 i (omega (arith, at 0, g.count)) ∙ at (suc i) ∙ g.names i h;
  },
  found.2,
)
  where
    at : (i : ℕ) → blocks boot.start i ≡ blocks l.start i
    at i = ap (λ (b : ℕ). blocks b i) same

    found :
        ((read_head boot (reboot blocks power)).lh.n ≡ blocks boot.start 0)
        × ((i : ℕ)
            → i < blocks boot.start 0
            → home_of (read_head boot (reboot blocks power)) i ≡ blocks boot.start (suc i))
        × (length (read_head boot (reboot blocks power)).lh.block ≡ log_size)
    found =
        read_head-reads boot (reboot blocks power) size (omega (arith, at 0, g.count, ready.small))

read_head-start :
    (boot : Log) (d : Disk)
    → ((read_head boot d).start ≡ boot.start) × ((read_head boot d).size ≡ boot.size)
unfolding read_head
read_head-start boot d = (refl, refl)

module _ (boot : Log) (size : length boot.lh.block ≡ log_size) where
  -- With an empty log recovery changes nothing outside the log, wherever the power fails.
  recover-Clean :
      (blocks f : ℕ → Block) (power : ℕ)
      → 0 < boot.size
      → Clean boot blocks f
      → Clean boot (recover_from_log boot (reboot blocks power)).1.blocks f
  unfolding recover_from_log install_trans install_from
  recover-Clean blocks f power nonempty c =
      simp none_logged (Clean-moves (sym same.0) (sym same.1) erased)
    where
      l : Log
      l = read_head boot (reboot blocks power)

      none_logged : l.lh.n ≡ 0
      none_logged =
          (read_head-reads boot (reboot blocks power) size (omega (arith, c.empty))).0 ∙ c.empty

      same : (l.start ≡ boot.start) × (l.size ≡ boot.size)
      same = read_head-start boot (reboot blocks power)

      old : Clean l blocks f
      old = Clean-moves same.0 same.1 c

      erased : Clean l (write_head (clear_head l) (reboot blocks power)).blocks f
      erased = elim (ℕ_discrete power 0) [
        | yes e ↦ rw (write_head-dead (clear_head l) (reboot blocks power) e) old
        | no ne ↦ record {
          empty = (write_head-stores (clear_head l) (reboot blocks power) (omega arith)).0;
          homes = λ b h.
              (write_head-same (clear_head l) (reboot blocks power) b (omega (arith, same))).blocks
              ∙ old.homes b h;
        }
      ]

  module _ (l : Log) (ready : IsReady l) (same : boot.start ≡ l.start)
      (same_size : boot.size ≡ l.size) where
    -- With a committed transaction recovery leaves it committed or done; with power enough, done.
    recover-Logged :
        (blocks f : ℕ → Block) (power : ℕ)
        → Logged l blocks f
        → (Logged l (recover_from_log boot (reboot blocks power)).1.blocks f × (power ≤ l.lh.n))
          ⊎ Clean l (recover_from_log boot (reboot blocks power)).1.blocks f
    unfolding recover_from_log
    recover-Logged blocks f power g =
        let (m, slots) = read_head-Matches boot l blocks f power size ready same same_size g in
        elim (finish (read_head boot (reboot blocks power)) (reboot blocks power) f
          (Matches-IsReady m slots ready) (λ b lo hi. refl) (Matches-Logged m g)) [
            | inl (h, low) ↦ inl (Matches-Logged (Matches-sym m) h, omega (arith, m.count))
            | inr done ↦ inr (Clean-moves (sym m.start) (sym m.size) done)
          ]

    -- What recovery leaves: `f` outside the log, or a log that says how to get there.
    Recoverable : (ℕ → Block) → (ℕ → Block) → Type 0
    Recoverable blocks f = Clean l blocks f ⊎ Logged l blocks f

    recover-Recoverable :
        (blocks f : ℕ → Block) (power : ℕ)
        → Recoverable blocks f
        → Recoverable (recover_from_log boot (reboot blocks power)).1.blocks f
          × (log_size < power → Clean l (recover_from_log boot (reboot blocks power)).1.blocks f)
    unfolding Recoverable
    recover-Recoverable blocks f power (inl c) =
        let done : Clean l (recover_from_log boot (reboot blocks power)).1.blocks f =
          Clean-moves (sym same) (sym same_size) (
            recover-Clean blocks f power (omega (arith, ready.room))
              (Clean-moves same same_size c)) in
        (inl done, λ enough. done)
    recover-Recoverable blocks f power (inr g) = elim (recover-Logged blocks f power g) [
      | inl (h, low) ↦ (inr h, λ enough. absurd (omega (arith, ready.small)))
      | inr done ↦ (inl done, λ enough. done)
    ]

    recovered-Recoverable :
        (blocks f : ℕ → Block) (powers : List ℕ)
        → Recoverable blocks f
        → Recoverable (recovered boot blocks powers) f
    recovered-Recoverable blocks f [] s = s
    recovered-Recoverable blocks f (power ∷ more) s =
        recovered-Recoverable (recover_from_log boot (reboot blocks power)).1.blocks f more
          ((recover-Recoverable blocks f power s).0)

-- Wherever the power fails during `commit`, and however often it fails again during recovery: once a
-- recovery has power for all of its writes, the disk outside the log holds what it held before the
-- commit, or everything that the transaction wrote.
pub commit_recovery-atomic :
    (boot l : Log) (d : Disk) (failed : List ℕ) (power : ℕ)
    → length boot.lh.block ≡ log_size
    → boot.start ≡ l.start
    → boot.size ≡ l.size
    → CanCommit l d
    → log_size < power
    → ((b : ℕ)
        → IsHome l b
        → (recover_from_log boot
              (reboot (recovered boot (commit l d).1.blocks failed) power)).1.blocks
            b
          ≡ d.blocks b)
      ⊎ ((b : ℕ)
          → IsHome l b
          → (recover_from_log boot
                (reboot (recovered boot (commit l d).1.blocks failed) power)).1.blocks
              b
            ≡ bread d b)
unfolding Recoverable
commit_recovery-atomic boot l d failed power size same same_size c enough =
    elim (commit-crash l d c) [
      | inl before ↦ inl (done d.blocks (inl before)).homes
      | inr (inl committed) ↦ inr (done (bread d) (inr committed)).homes
      | inr (inr after) ↦ inr (done (bread d) (inl after)).homes
    ]
  where
    done :
        (f : ℕ → Block)
        → Clean l (commit l d).1.blocks f ⊎ Logged l (commit l d).1.blocks f
        → Clean l
            (recover_from_log boot
              (reboot (recovered boot (commit l d).1.blocks failed) power)).1.blocks
            f
    done f s =
        (recover-Recoverable boot size l c.ready same same_size
            (recovered boot (commit l d).1.blocks failed) f power
            (recovered-Recoverable boot size l c.ready same same_size (commit l d).1.blocks f failed
              s)).1
          enough
