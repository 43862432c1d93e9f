-- ===== src/Log/Tests.antt =====
-- The log on a small disk: a transaction of one block, with power for some of its writes.
use cs537_project.Prelude.{
  ℕ, zero, suc, ◌<◌, ◌≡◌, ◌≢◌, ◌⊎◌, refl, [], ◌∷◌, none, some, false, arith, replicate, ◌==◌,
  if◌then◌else◌,
}
use cs537_project.Log.Disk.{Block, Disk, bread}
use cs537_project.Log.Ops.{
  Log, home_of, commit, recover_from_log, log_write, begin_op, write_log, write_head, install_trans,
  read_head, read_blocks, store_blocks, install_from, write_log_from, log_index,
}
use cs537_project.Log.Writes.{IsHome, IsReady}
use cs537_project.Log.Crash.{Clean, Logged, CanCommit, commit-crash}
use cs537_project.Log.Recovery.{reboot, recovered, commit_recovery-atomic}
use cs537_project.Log.Transaction.{log_write-CanCommit}
use cs537_project.Log.Reservation.{Calls, Reach, start, later, begin, log_write-fits}

abbrev fresh : Log
fresh = record {
  start = 2;
  size = 31;
  outstanding = 0;
  committing = false;
  lh = record { n = 0; block = replicate 30 0 };
}

-- Block 40 is logged.
abbrev one_block : Log
one_block = record fresh { outstanding = 1; lh = record { n = 1; block = 40 ∷ replicate 29 0 } }

abbrev sevens : Block
sevens k = 7

-- It holds sevens in the cache and zeros on the disk; the power fails after `power` block writes.
abbrev changed : ℕ → Disk
changed power = record {
  blocks = λ b k. 0;
  dirty = λ b. if b == 40 then some sevens else none;
  power = power;
}

one_block-IsReady : IsReady one_block
one_block-IsReady = record {
  slots = refl;
  small = omega arith;
  room = omega arith;
  distinct = λ i j lt h. absurd (omega arith);
  outside = outside;
}
  where
    outside : (i : ℕ) → i < 1 → IsHome one_block (home_of one_block i)
    outside zero h = omega arith
    outside (suc i) h = absurd (omega arith)

one_block-CanCommit : (power : ℕ) → CanCommit one_block (changed power)
one_block-CanCommit power = record {
  ready = one_block-IsReady;
  quiet = λ b lo hi. ground arith;
  empty = refl;
  pinned = λ b h out. ground (arith, out 0 (omega arith));
}

-- With one write the log block is there and the header is not: recovery brings the zeros back.
cut_before_header :
    (recover_from_log fresh (reboot (commit one_block (changed 1)).1.blocks 9)).1.blocks 40 5 ≡ 0
unfolding commit recover_from_log write_log write_log_from write_head store_blocks install_trans
    install_from read_head read_blocks
cut_before_header = refl

-- With two the header is there too: recovery installs the block.
cut_after_header :
    (recover_from_log fresh (reboot (commit one_block (changed 2)).1.blocks 9)).1.blocks 40 5 ≡ 7
unfolding commit recover_from_log write_log write_log_from write_head store_blocks install_trans
    install_from read_head read_blocks
cut_after_header = refl

-- Two failures in a row: one during `commit`, one during recovery.
commit_recovery-atomic_example :
    ((b : ℕ)
      → IsHome one_block b
      → (recover_from_log fresh
            (reboot (recovered fresh (commit one_block (changed 2)).1.blocks (1 ∷ [])) 31)).1.blocks
          b
        ≡ (changed 2).blocks b)
    ⊎ ((b : ℕ)
        → IsHome one_block b
        → (recover_from_log fresh (
              reboot
                (recovered fresh (commit one_block (changed 2)).1.blocks (1 ∷ []))
                31)).1.blocks
            b
          ≡ bread (changed 2) b)
commit_recovery-atomic_example =
    commit_recovery-atomic fresh one_block (changed 2) (1 ∷ []) 31 refl refl refl
      (one_block-CanCommit 2) (omega arith)

commit-crash_example :
    Clean one_block (commit one_block (changed 1)).1.blocks (changed 1).blocks
    ⊎ Logged one_block (commit one_block (changed 1)).1.blocks (bread (changed 1))
    ⊎ Clean one_block (commit one_block (changed 1)).1.blocks (bread (changed 1))
commit-crash_example = commit-crash one_block (changed 1) (one_block-CanCommit 1)

-- `one_block` after one more block, 41, is logged.
abbrev two_blocks : Log
two_blocks = record fresh {
  outstanding = 1;
  lh = record { n = 2; block = 40 ∷ 41 ∷ replicate 28 0 };
}

abbrev changed_again : Disk
changed_again = record {
  blocks = λ b k. 0;
  dirty = λ b. if b == 41 then some (λ k. 8) else (if b == 40 then some sevens else none);
  power = 9;
}

log_write-CanCommit_example :
    CanCommit two_blocks changed_again
    × (bread changed_again 41 ≡ (λ k. 8))
    × ((b : ℕ) → b ≢ 41 → bread changed_again b ≡ bread (changed 9) b)
unfolding log_write log_index
log_write-CanCommit_example =
    log_write-CanCommit {l = one_block} {d = changed 9} 41 (λ k. 8) (one_block-CanCommit 9)
      (omega arith) refl

abbrev one_call : Calls
one_call = record { log = record fresh { outstanding = 1 }; used = 0 ∷ [] }

one_call-reached : Reach fresh one_call
unfolding begin_op
one_call-reached = later start (begin refl)

log_write-fits_example : log_write one_call.log (changed 9) 50 sevens ≢ none
log_write-fits_example =
    log_write-fits 0 50 sevens (changed 9) refl refl (omega arith) one_call-reached (omega arith)
      (omega arith)

-- 29 blocks are logged, in the log of mkfs.
abbrev almost_full : Log
almost_full = record fresh {
  size = 30;
  outstanding = 3;
  lh = record { n = 29; block = replicate 30 50 };
}
