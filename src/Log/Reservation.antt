-- ===== src/Log/Reservation.antt =====
-- File-system calls in progress together: `begin_op` lets one in only if the log has room for all the
-- blocks that the calls in progress may still write.
use cs537_project.Prelude.{
  ℕ, zero, suc, ◌+◌, ◌-◌, ◌*◌, ◌≤◌, ◌<◌, ◌≡◌, ◌≢◌, refl, List, [], ◌∷◌, none, some, true, false,
  arith, length, get_or, set, length-set, ◌∙◌,
}
use cs537_project.Log.Disk.{Block, Disk}
use cs537_project.Log.Ops.{
  Log, log_size, max_op_blocks, begin_op, end_op, end_commit, clear_head, log_write,
}

-- The log, and how many blocks each call in progress has written.
pub record Calls : Type 0 where
  pub log : Log
  pub used : List ℕ

abbrev pub remove : List ℕ → ℕ → List ℕ
remove [] k = []
remove (u ∷ us) zero = us
remove (u ∷ us) (suc k) = u ∷ remove us k

-- What the calls do, in any order; a call writes at most MAXOPBLOCKS blocks.
pub data Step (s : Calls) : Calls → Type 0 where
  begin : {l : Log} → begin_op s.log ≡ some l → Step s (record { log = l; used = 0 ∷ s.used })
  write :
      (k blockno : ℕ) (x : Block) (d d' : Disk) {l : Log}
      → k < length s.used
      → get_or s.used k 0 < max_op_blocks
      → log_write s.log d blockno x ≡ some (l, d')
      → Step s (record { log = l; used = set s.used k (get_or s.used k 0 + 1) })
  finish :
      (k : ℕ) {l : Log}
      → k < length s.used
      → end_op s.log ≡ some (false, l)
      → Step s (record { log = l; used = remove s.used k })
  -- The last call commits; no other call begins until it has.
  last :
      {l : Log}
      → length s.used ≡ 1
      → end_op s.log ≡ some (true, l)
      → Step s (record { log = end_commit (clear_head l); used = [] })

pub data Reach (l : Log) : Calls → Type 0 where
  start : Reach l (record { log = l; used = [] })
  later : {s t : Calls} → Reach l s → Step s t → Reach l t

-- The blocks that the calls in progress may still write.
abbrev pub unwritten : List ℕ → ℕ
unwritten [] = 0
unwritten (u ∷ us) = max_op_blocks - u + unwritten us

pub record Reserved (s : Calls) : Type 0 where
  pub counted : s.log.outstanding ≡ length s.used
  pub room : s.log.lh.n + unwritten s.used ≤ log_size
  pub few : length s.used ≤ 3

unwritten-set :
    (us : List ℕ) (k : ℕ)
    → k < length us
    → get_or us k 0 < max_op_blocks
    → unwritten (set us k (get_or us k 0 + 1)) + 1 ≡ unwritten us
unwritten-set [] k h u = absurd (omega arith)
unwritten-set (u ∷ us) zero h lt = omega arith
unwritten-set (u ∷ us) (suc k) h lt = omega (arith, unwritten-set us k (omega arith) lt)

unwritten-pos :
    (us : List ℕ) (k : ℕ) → k < length us → get_or us k 0 < max_op_blocks → 0 < unwritten us
unwritten-pos us k h lt = omega (arith, unwritten-set us k h lt)

unwritten-remove : (us : List ℕ) (k : ℕ) → unwritten (remove us k) ≤ unwritten us
unwritten-remove [] k = omega arith
unwritten-remove (u ∷ us) zero = omega arith
unwritten-remove (u ∷ us) (suc k) = omega (arith, unwritten-remove us k)

length-remove : (us : List ℕ) (k : ℕ) → k < length us → length (remove us k) + 1 ≡ length us
length-remove [] k h = absurd (omega arith)
length-remove (u ∷ us) zero h = omega arith
length-remove (u ∷ us) (suc k) h = omega (arith, length-remove us k (omega arith))

unwritten-le : (us : List ℕ) → unwritten us ≤ max_op_blocks * length us
unwritten-le [] = omega arith
unwritten-le (u ∷ us) = omega (arith, unwritten-le us)

log_write-count :
    (l : Log) (d : Disk) (blockno : ℕ) (x : Block) {l' : Log} {d' : Disk}
    → log_write l d blockno x ≡ some (l', d')
    → (l'.lh.n ≤ l.lh.n + 1) × (l'.outstanding ≡ l.outstanding)
unfolding log_write
log_write-count l d blockno x h = ground arith

-- Every step keeps the room reserved.
Step-Reserved : {s t : Calls} → Step s t → Reserved s → Reserved t
unfolding begin_op end_op end_commit
Step-Reserved {s} (begin e) r = ground (arith, unwritten-le s.used)
Step-Reserved {s} (write k blockno x d d' small lt e) r = record {
  counted = omega (
    arith,
    r.counted,
    log_write-count s.log d blockno x e,
    length-set s.used k (get_or s.used k 0 + 1),
  );
  room =
      omega (arith, r.room, log_write-count s.log d blockno x e, unwritten-set s.used k small lt);
  few = omega (arith, r.few, length-set s.used k (get_or s.used k 0 + 1));
}
Step-Reserved {s} (finish k small e) r =
    ground (arith, unwritten-remove s.used k, length-remove s.used k small)
Step-Reserved {s} (last one e) r = ground arith

Reach-Reserved : {l : Log} {s : Calls} → l.outstanding ≡ 0 → l.lh.n ≡ 0 → Reach l s → Reserved s
Reach-Reserved idle empty start = omega arith
Reach-Reserved idle empty (later r st) = Step-Reserved st (Reach-Reserved idle empty r)

size-Step : {s t : Calls} → Step s t → t.log.size ≡ s.log.size
unfolding begin_op end_op end_commit log_write
size-Step (begin e) = ground arith
size-Step (write k blockno x d d' small lt e) = ground arith
size-Step (finish k small e) = ground arith
size-Step (last one e) = ground arith

size-Reach : {l : Log} {s : Calls} → Reach l s → s.log.size ≡ l.size
size-Reach start = refl
size-Reach (later r st) = size-Step st ∙ size-Reach r

-- If the log on disk is larger than LOGSIZE blocks, a call in progress that has written fewer than
-- MAXOPBLOCKS blocks never finds the transaction too big, whatever the other calls have written.
pub log_write-fits :
    {l : Log} {s : Calls} (k blockno : ℕ) (x : Block) (d : Disk)
    → l.outstanding ≡ 0
    → l.lh.n ≡ 0
    → log_size < l.size
    → Reach l s
    → k < length s.used
    → get_or s.used k 0 < max_op_blocks
    → log_write s.log d blockno x ≢ none
unfolding log_write
log_write-fits {l} {s} k blockno x d idle empty big r small lt h =
    ground (arith, Reach-Reserved idle empty r, size-Reach r, unwritten-pos s.used k small lt)

-- With a log of LOGSIZE blocks on disk, as mkfs makes it, the thirtieth block of a transaction is a
-- panic, though `begin_op` has let in three calls that may write thirty.
pub log_write-too_big :
    (l : Log) (d : Disk) (blockno : ℕ) (x : Block)
    → l.size ≡ log_size
    → log_size ≤ l.lh.n + 1
    → log_write l d blockno x ≡ none
unfolding log_write
log_write-too_big l d blockno x size full = ground arith
