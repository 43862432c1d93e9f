-- ===== src/Bio.antt =====
-- The buffer cache: xv6-public/bio.c with buf.h, the sleep locks of its buffers (sleeplock.c), and the
-- disk in memory (iderw of memide.c). A buffer is its index in `bcache.buf`, and the list through `next`
-- from `head.next` on is a list of indices. The flags are the bits B_VALID and B_DIRTY. The data of a
-- block are its bytes by offset.
pub mod Search
pub mod Coherence
pub mod Bread
pub mod History
pub mod View
pub mod Refine
mod Tests
use cs537_project.Prelude.{
  ℕ, zero, suc, ◌+◌, List, [], ◌∷◌, Bool, true, false, not, ◌&&◌, ◌||◌, Option, none, some, ltb,
  leb, ◌==◌, if◌then◌else◌, add32, sub32, update,
}

pub record Sleeplock : Type 0 where
  pub locked : Bool
  pub pid : ℕ

-- The waiting in `acquiresleep` is `none`: who is woken calls again.
abbrev pub acquiresleep : ℕ → Sleeplock → Option Sleeplock
acquiresleep pid lk = if lk.locked then none else some (record { locked = true; pid = pid })

abbrev pub releasesleep : Sleeplock → Sleeplock
releasesleep lk = record { locked = false; pid = 0 }

-- `pid` is that of `myproc()`.
abbrev pub holdingsleep : ℕ → Sleeplock → Bool
holdingsleep pid lk = lk.locked && (lk.pid == pid)

pub record Buf : Type 0 where
  pub valid : Bool
  pub dirty : Bool
  pub dev : ℕ
  pub blockno : ℕ
  pub lock : Sleeplock
  pub refcnt : ℕ
  pub contents : ℕ → ℕ

pub record Bcache : Type 0 where
  pub buf : ℕ → Buf
  pub order : List ℕ

abbrev pub set_buf : Bcache → ℕ → Buf → Bcache
set_buf c i b = record c { buf = update c.buf i b }

-- NBUF, MAXOPBLOCKS * 3.
abbrev pub nbuf : ℕ
nbuf = 30

abbrev pub new_buf : Buf
new_buf = record {
  valid = false;
  dirty = false;
  dev = 0;
  blockno = 0;
  lock = record { locked = false; pid = 0 };
  refcnt = 0;
  contents = λ o. 0;
}

-- The loop of `binit` from buffer `b` on: each is put in front.
unfoldable pub link_from : ℕ → ℕ → List ℕ → List ℕ
link_from zero b order = order
link_from (suc r) b order = link_from r (b + 1) (b ∷ order)

abbrev pub binit : Bcache
binit = record { buf = λ i. new_buf; order = link_from nbuf 0 [] }

-- The two loops of `bget`, forwards and backwards.
unfoldable pub find_first : (ℕ → Bool) → List ℕ → Option ℕ
find_first p [] = none
find_first p (b ∷ l) = let rest = find_first p l in if p b then some b else rest

unfoldable pub find_last : (ℕ → Bool) → List ℕ → Option ℕ
find_last p [] = none
find_last p (b ∷ l) = elim (find_last p l) [
  | some later ↦ some later
  | none ↦ if p b then some b else none
]

abbrev pub is_block : ℕ → ℕ → Buf → Bool
is_block dev blockno b = (b.dev == dev) && (b.blockno == blockno)

abbrev pub is_free : Buf → Bool
is_free b = (b.refcnt == 0) && not b.dirty

abbrev pub recycle : ℕ → ℕ → Buf → Buf
recycle dev blockno b = record b {
  dev = dev;
  blockno = blockno;
  valid = false;
  dirty = false;
  refcnt = 1;
}

-- `bget`, as far as `bcache.lock` is held; `none` is the panic.
unfoldable pub bget : ℕ → ℕ → Bcache → Option (ℕ × Bcache)
bget dev blockno c = elim (find_first (λ i. is_block dev blockno (c.buf i)) c.order) [
  | some i ↦ some (i, set_buf c i (record (c.buf i) { refcnt = add32 (c.buf i).refcnt 1 }))
  | none ↦ elim (find_last (λ i. is_free (c.buf i)) c.order) [
    | some i ↦ some (i, set_buf c i (recycle dev blockno (c.buf i)))
    | none ↦ none
  ]
]

-- `memdisk` and `disksize`.
pub record Disk : Type 0 where
  pub block : ℕ → ℕ → ℕ
  pub size : ℕ

-- `iderw`; `none` is a panic.
unfoldable pub iderw : ℕ → Buf → Disk → Option (Buf × Disk)
iderw pid b k =
    if not (holdingsleep pid b.lock)
    then none
    else if b.valid && not b.dirty
    then none
    else if not (b.dev == 1)
    then none
    else if leb k.size b.blockno
    then none
    else if b.dirty
    then some (
      record b { dirty = false; valid = true },
      record k { block = update k.block b.blockno b.contents },
    )
    else some (record b { contents = k.block b.blockno; valid = true }, k)

-- How `bread` ends: it panics, it waits for the lock of a buffer, or it returns the buffer.
pub data Read : Type 0 where
  panics : Read
  waits : ℕ → Bcache → Read
  reads : ℕ → Bcache → Disk → Read

-- `bread` from `bget` on, with the buffer held.
unfoldable pub fill : ℕ → ℕ → Bcache → Disk → Read
fill pid i c k = elim (c.buf i).valid [
  | true ↦ reads i c k
  | false ↦ elim (iderw pid (c.buf i) k) [
    | none ↦ panics
    | some (b, k') ↦ reads i (set_buf c i b) k'
  ]
]

-- `bread` from the `acquiresleep` in `bget` on.
unfoldable pub bread_locked : ℕ → ℕ → Bcache → Disk → Read
bread_locked pid i c k = elim (acquiresleep pid (c.buf i).lock) [
  | none ↦ waits i c
  | some lk ↦ fill pid i (set_buf c i (record (c.buf i) { lock = lk })) k
]

unfoldable pub bread : ℕ → ℕ → ℕ → Bcache → Disk → Read
bread pid dev blockno c k = elim (bget dev blockno c) [
  | none ↦ panics
  | some (i, c') ↦ bread_locked pid i c' k
]

-- `bwrite`; `none` is a panic.
unfoldable pub bwrite : ℕ → ℕ → Bcache → Disk → Option (Bcache × Disk)
bwrite pid i c k =
    if not (holdingsleep pid (c.buf i).lock)
    then none
    else (elim (iderw pid (record (c.buf i) { dirty = true }) k) [
      | none ↦ none
      | some (b, k') ↦ some (set_buf c i b, k')
    ])

-- The buffer is taken out of the list.
unfoldable pub unlink : ℕ → List ℕ → List ℕ
unlink i [] = []
unlink i (b ∷ l) = let rest = unlink i l in if b == i then l else b ∷ rest

-- `brelse`; `none` is the panic.
unfoldable pub brelse : ℕ → ℕ → Bcache → Option Bcache
brelse pid i c =
    if not (holdingsleep pid (c.buf i).lock)
    then none
    else (let b : Buf = record (c.buf i) {
      lock = releasesleep (c.buf i).lock;
      refcnt = sub32 (c.buf i).refcnt 1;
    } in
        some (record {
          buf = update c.buf i b;
          order = if b.refcnt == 0 then i ∷ unlink i c.order else c.order;
        }))
