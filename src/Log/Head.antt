-- ===== src/Log/Head.antt =====
-- The header block: what `write_head` stores, and what `read_head` finds in it.
use cs537_project.Prelude.{
  ℕ, zero, suc, ◌+◌, ◌-◌, ◌≤◌, ◌<◌, ◌≡◌, ◌≢◌, ◌⊎◌, refl, ap, ◌∙◌, List, arith, length, get_or, set,
  get_or-set_self, get_or-set_ne, length-set, ltb, if◌then◌else◌, ℕ_discrete,
}
use cs537_project.Log.Disk.{Block, Disk, bread, update}
use cs537_project.Log.Ops.{Log, log_size, home_of, read_blocks, read_head, store_blocks, write_head}
use cs537_project.Log.Writes.{SameAt, bwrite_ne, bwrite_self}

-- The header block that `write_head` makes: words `1 .. n` hold the block numbers.
store_blocks-other :
    (block : List ℕ) (r i : ℕ) (hb : Block) (k : ℕ)
    → (k ≤ i) ⊎ (i + r < k)
    → store_blocks block r i hb k ≡ hb k
unfolding store_blocks
store_blocks-other block zero i hb k h = refl
store_blocks-other block (suc r) i hb k h =
    store_blocks-other block r (i + 1) (update hb (suc i) (get_or block i 0)) k (omega arith)
    ∙ ground arith

store_blocks-stored :
    (block : List ℕ) (r i : ℕ) (hb : Block) (k : ℕ)
    → i ≤ k
    → k < i + r
    → store_blocks block r i hb (suc k) ≡ get_or block k 0
unfolding store_blocks
store_blocks-stored block zero i hb k lo lt = absurd (omega arith)
store_blocks-stored block (suc r) i hb k lo lt = elim (ℕ_discrete i k) [
  | yes q ↦ rw (← q) (
      store_blocks-other block r (i + 1) (update hb (suc i) (get_or block i 0)) (suc i)
        (omega arith)
      ∙ ground arith)
  | no ne ↦
      store_blocks-stored block r (i + 1) (update hb (suc i) (get_or block i 0)) k (omega arith)
        (omega arith)
]

-- What `read_head` finds in a header block.
read_blocks-read :
    (hb : Block) (r i : ℕ) (block : List ℕ)
    → i + r ≤ length block
    → (k : ℕ) → k < i + r
    → get_or (read_blocks hb r i block) k 0 ≡ (if ltb k i then get_or block k 0 else hb (suc k))
unfolding read_blocks
read_blocks-read hb zero i block fits k lt = ground arith
read_blocks-read hb (suc r) i block fits k lt = ground (
  arith,
  get_or-set_self block i (hb (suc i)) 0,
  get_or-set_ne block i k (hb (suc i)) 0,
  read_blocks-read hb r (i + 1) (set block i (hb (suc i)))
      (omega (arith, length-set block i (hb (suc i)))) k (omega arith),
)

length-read_blocks :
    (hb : Block) (r i : ℕ) (block : List ℕ) → length (read_blocks hb r i block) ≡ length block
unfolding read_blocks
length-read_blocks hb zero i block = refl
length-read_blocks hb (suc r) i block =
    length-read_blocks hb r (i + 1) (set block i (hb (suc i))) ∙ length-set block i (hb (suc i))

-- With power, the header block afterwards names the blocks of the transaction, in order.
pub write_head-stores :
    (l : Log) (d : Disk)
    → 0 < d.power
    → ((write_head l d).blocks l.start 0 ≡ l.lh.n)
      × ((i : ℕ) → i < l.lh.n → (write_head l d).blocks l.start (suc i) ≡ home_of l i)
unfolding write_head
write_head-stores l d p = (
  ap (λ (x : Block). x 0) (bwrite_self d l.start made p)
      ∙ store_blocks-other l.lh.block l.lh.n 0 counted 0 (omega arith)
      ∙ ground arith,
  λ i h.
      ap (λ (x : Block). x (suc i)) (bwrite_self d l.start made p)
      ∙ store_blocks-stored l.lh.block l.lh.n 0 counted i (omega arith) (omega arith),
)
  where
    counted : Block
    counted = update (bread d l.start) 0 l.lh.n

    made : Block
    made = store_blocks l.lh.block l.lh.n 0 counted

pub write_head-same : (l : Log) (d : Disk) (b : ℕ) → l.start ≢ b → SameAt d (write_head l d) b
unfolding write_head
write_head-same l d b ne = bwrite_ne d l.start b _ ne

pub write_head-dead : (l : Log) (d : Disk) → d.power ≡ 0 → (write_head l d).blocks ≡ d.blocks
unfolding write_head
write_head-dead l d h = ground arith

-- `read_head` takes over the count and the block numbers of the header block.
pub read_head-reads :
    (l : Log) (d : Disk)
    → length l.lh.block ≡ log_size
    → bread d l.start 0 ≤ log_size
    → ((read_head l d).lh.n ≡ bread d l.start 0)
      × ((i : ℕ) → i < bread d l.start 0 → home_of (read_head l d) i ≡ bread d l.start (suc i))
      × (length (read_head l d).lh.block ≡ log_size)
unfolding read_head
read_head-reads l d size small = (
  refl,
  λ i h. ground (
    arith,
    read_blocks-read (bread d l.start) (bread d l.start 0) 0 l.lh.block (omega arith) i
        (omega arith),
  ),
  length-read_blocks _ _ _ _ ∙ size,
)

pub power-write_head : (l : Log) (d : Disk) → (write_head l d).power ≡ d.power - 1
unfolding write_head
power-write_head l d = refl
