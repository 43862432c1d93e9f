-- ===== src/Fs.antt =====
-- The file system: xv6-public/fs.c with fs.h. The blocks are those that `bread` returns, by number and
-- offset, as in the view of Bio.View: `log_write` of a changed buffer sets its block, and `brelse` changes
-- nothing. The waiting for buffers and their panics are left out.
pub mod Bits
pub mod Bitmap
pub mod Inode
pub mod Icache
pub mod Path
pub mod Dir
pub mod Namex
mod Tests
use cs537_project.Prelude.{
  ℕ, zero, suc, ◌+◌, ◌-◌, ◌*◌, ◌/◌, ◌%◌, ◌^◌, Bool, true, false, Option, none, some, ltb, ◌==◌,
  if◌then◌else◌, update,
}

abbrev pub Blocks : Type 0
Blocks = ℕ → ℕ → ℕ

abbrev pub bsize : ℕ
bsize = 512

pub record Superblock : Type 0 where
  pub size : ℕ
  pub nblocks : ℕ
  pub ninodes : ℕ
  pub nlog : ℕ
  pub logstart : ℕ
  pub inodestart : ℕ
  pub bmapstart : ℕ

-- BPB, the bits of a block.
abbrev pub bpb : ℕ
bpb = 4096

-- BBLOCK
abbrev pub bblock : Superblock → ℕ → ℕ
bblock sb b = b / bpb + sb.bmapstart

-- Whether `data[bi/8] & (1 << (bi % 8))` is not 0.
unfoldable pub has_bit : (ℕ → ℕ) → ℕ → Bool
has_bit block bi = block (bi / 8) / 2 ^ (bi % 8) % 2 == 1

-- `data[bi/8] |= m` of a bit that is clear, and `&= ~m` of one that is set.
unfoldable pub set_bit : (ℕ → ℕ) → ℕ → ℕ → ℕ
set_bit block bi = update block (bi / 8) (block (bi / 8) + 2 ^ (bi % 8))

unfoldable pub clear_bit : (ℕ → ℕ) → ℕ → ℕ → ℕ
clear_bit block bi = update block (bi / 8) (block (bi / 8) - 2 ^ (bi % 8))

abbrev pub bzero : Blocks → ℕ → Blocks
bzero v bno = update v bno (λ o. 0)

-- The inner loop of `balloc`: the first clear bit from `bi` on, for the blocks `b + bi` below `size`.
unfoldable pub find_bit : ℕ → (ℕ → ℕ) → ℕ → ℕ → ℕ → Option ℕ
find_bit zero block size b bi = none
find_bit (suc r) block size b bi =
    let rest = find_bit r block size b (bi + 1) in
    if ltb (b + bi) size then (if has_bit block bi then rest else some bi) else none

-- The outer loop of `balloc`, with the rounds bounded by the first argument; `none` is the panic.
unfoldable pub balloc_from : ℕ → Superblock → Blocks → ℕ → Option (ℕ × Blocks)
balloc_from zero sb v b = none
balloc_from (suc r) sb v b = elim (ltb b sb.size) [
  | false ↦ none
  | true ↦ elim (find_bit bpb (v (bblock sb b)) sb.size b 0) [
    | some bi ↦
        some (b + bi, bzero (update v (bblock sb b) (set_bit (v (bblock sb b)) bi)) (b + bi))
    | none ↦ balloc_from r sb v (b + bpb)
  ]
]

-- `balloc`. Each round goes up by the bits of a block.
unfoldable pub balloc : Superblock → Blocks → Option (ℕ × Blocks)
balloc sb v = balloc_from (sb.size / bpb + 1) sb v 0

-- `bfree`; `none` is the panic.
unfoldable pub bfree : Superblock → Blocks → ℕ → Option Blocks
bfree sb v b =
    let block = v (bblock sb b) in
    if has_bit block (b % bpb)
    then some (update v (bblock sb b) (clear_bit block (b % bpb)))
    else none
