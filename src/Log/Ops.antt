-- ===== src/Log/Ops.antt =====
-- The functions of log.c. The locks and the sleeping are left out: each function here is what one
-- process does between two points at which it may wait.
use cs537_project.Prelude.{
  ℕ, zero, suc, ◌+◌, ◌-◌, ◌*◌, List, Bool, true, false, ◌||◌, Option, none, some, ltb, leb, ◌==◌,
  if◌then◌else◌, get_or, set, sub32,
}
use cs537_project.Log.Disk.{Block, Disk, bread, bwrite, pin, update}

abbrev pub max_op_blocks : ℕ
max_op_blocks = 10

abbrev pub log_size : ℕ
log_size = 30

-- `struct logheader` in memory.
pub record Header : Type 0 where
  pub n : ℕ
  pub block : List ℕ

-- `struct log`, without the lock and the device.
pub record Log : Type 0 where
  pub start : ℕ
  pub size : ℕ
  pub outstanding : ℕ
  pub committing : Bool
  pub lh : Header

-- The loop of `read_head` from `i` on. The header block is read as its words: `n`, then `block[]`.
unfoldable pub read_blocks : Block → ℕ → ℕ → List ℕ → List ℕ
read_blocks hb zero i block = block
read_blocks hb (suc r) i block = read_blocks hb r (i + 1) (set block i (hb (suc i)))

unfoldable pub read_head : Log → Disk → Log
read_head l d =
    let hb = bread d l.start in
    record l { lh = record { n = hb 0; block = read_blocks hb (hb 0) 0 l.lh.block } }

-- The loop of `write_head` from `i` on.
unfoldable pub store_blocks : List ℕ → ℕ → ℕ → Block → Block
store_blocks block zero i hb = hb
store_blocks block (suc r) i hb =
    store_blocks block r (i + 1) (update hb (suc i) (get_or block i 0))

unfoldable pub write_head : Log → Disk → Disk
write_head l d =
    bwrite d l.start (store_blocks l.lh.block l.lh.n 0 (update (bread d l.start) 0 l.lh.n))

-- `log.lh.block[tail]`
abbrev pub home_of : Log → ℕ → ℕ
home_of l tail = get_or l.lh.block tail 0

-- The loop of `install_trans` from `tail` on.
unfoldable pub install_from : Log → ℕ → ℕ → Disk → Disk
install_from l zero tail d = d
install_from l (suc r) tail d =
    install_from l r (tail + 1) (bwrite d (home_of l tail) (bread d (l.start + tail + 1)))

unfoldable pub install_trans : Log → Disk → Disk
install_trans l d = install_from l l.lh.n 0 d

-- The loop of `write_log` from `tail` on.
unfoldable pub write_log_from : Log → ℕ → ℕ → Disk → Disk
write_log_from l zero tail d = d
write_log_from l (suc r) tail d =
    write_log_from l r (tail + 1) (bwrite d (l.start + tail + 1) (bread d (home_of l tail)))

unfoldable pub write_log : Log → Disk → Disk
write_log l d = write_log_from l l.lh.n 0 d

-- `log.lh.n = 0`
abbrev pub clear_head : Log → Log
clear_head l = record l { lh = record { n = 0; block = l.lh.block } }

unfoldable pub commit : Log → Disk → Log × Disk
commit l d =
    if ltb 0 l.lh.n
    then (clear_head l, write_head (clear_head l) (install_trans l (write_head l (write_log l d))))
    else (l, d)

unfoldable pub recover_from_log : Log → Disk → Log × Disk
recover_from_log l d =
    let l' = read_head l d in (clear_head l', write_head (clear_head l') (install_trans l' d))

-- `begin_op`: `none` means that the process sleeps.
unfoldable pub begin_op : Log → Option Log
begin_op l =
    if l.committing
    then none
    else if ltb log_size (l.lh.n + (l.outstanding + 1) * max_op_blocks)
    then none
    else some (record l { outstanding = l.outstanding + 1 })

-- The first half of `end_op`: `none` is the panic; the flag says that this process commits.
unfoldable pub end_op : Log → Option (Bool × Log)
end_op l =
    if l.committing
    then none
    else if sub32 l.outstanding 1 == 0
    then some (true, record l { outstanding = sub32 l.outstanding 1; committing = true })
    else some (false, record l { outstanding = sub32 l.outstanding 1 })

-- Its second half, after `commit`.
unfoldable pub end_commit : Log → Log
end_commit l = record l { committing = false }

-- The search of `log_write` from slot `i` on.
unfoldable pub log_index : List ℕ → ℕ → ℕ → ℕ → ℕ
log_index block zero i blockno = i
log_index block (suc r) i blockno =
    if get_or block i 0 == blockno then i else log_index block r (i + 1) blockno

-- `log_write` of a buffer for `blockno` that holds `x`; `none` is a panic.
unfoldable pub log_write : Log → Disk → ℕ → Block → Option (Log × Disk)
log_write l d blockno x =
    if leb log_size l.lh.n || leb (l.size - 1) l.lh.n
    then none
    else if ltb l.outstanding 1
    then none
    else (let i = log_index l.lh.block l.lh.n 0 blockno in
        some (
          record l {
            lh = record {
              n = if i == l.lh.n then l.lh.n + 1 else l.lh.n;
              block = set l.lh.block i blockno;
            };
          },
          pin d blockno x,
        ))
