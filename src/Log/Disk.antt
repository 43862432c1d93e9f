-- ===== src/Log/Disk.antt =====
-- What log.c sees of bio.c and ide.c: block reads and writes through the buffer cache. A buffer with
-- B_DIRTY holds data that the disk does not have yet, and is pinned; any other agrees with the disk.
-- The disk writes whole blocks, and stops for good after `power` more of them.
pub use cs537_project.Prelude.{update}
use cs537_project.Prelude.{ℕ, ◌-◌, Option, none, some, ◌==◌, if◌then◌else◌}

-- The words of a block.
abbrev pub Block : Type 0
Block = ℕ → ℕ

pub record Disk : Type 0 where
  pub blocks : ℕ → Block
  pub dirty : ℕ → Option Block
  pub power : ℕ

-- The data of the buffer that `bread` returns.
abbrev pub bread : Disk → ℕ → Block
bread d b = elim (d.dirty b) [ none ↦ d.blocks b | some x ↦ x ]

-- `memmove` into the buffer of block `b`, then `bwrite`: it clears B_DIRTY.
abbrev pub bwrite : Disk → ℕ → Block → Disk
bwrite d b x = record {
  blocks = if d.power == 0 then d.blocks else update d.blocks b x;
  dirty = update d.dirty b none;
  power = d.power - 1;
}

-- A buffer is changed and marked B_DIRTY.
abbrev pub pin : Disk → ℕ → Block → Disk
pin d b x = record d { dirty = update d.dirty b (some x) }
