-- ===== src/Log/Writes.antt =====
-- What each loop of log.c writes, for any number of block writes before the power fails.
use cs537_project.Prelude.{
  ℕ, zero, suc, ◌+◌, ◌-◌, ◌≤◌, ◌<◌, ◌≡◌, ◌≢◌, ◌⊎◌, refl, ap, ◌∙◌, sym, none, arith, length,
  ℕ_discrete,
}
use cs537_project.Log.Disk.{Block, Disk, bread, bwrite}
use cs537_project.Log.Ops.{Log, log_size, home_of, install_from, write_log_from}

-- A block outside the log.
abbrev pub IsHome : Log → ℕ → Type 0
IsHome l b = (b < l.start) ⊎ (l.start + l.size ≤ b)

-- A transaction that the log can hold: different blocks, all outside the log.
pub record IsReady (l : Log) : Type 0 where
  pub slots : length l.lh.block ≡ log_size
  pub small : l.lh.n ≤ log_size
  pub room : l.lh.n < l.size
  pub distinct : (i j : ℕ) → i < j → j < l.lh.n → home_of l i ≢ home_of l j
  pub outside : (i : ℕ) → i < l.lh.n → IsHome l (home_of l i)

-- The two disks agree on a block, for the disk itself and for `bread`.
pub record SameAt (d e : Disk) (b : ℕ) : Type 0 where
  pub blocks : e.blocks b ≡ d.blocks b
  pub dirty : e.dirty b ≡ d.dirty b

pub SameAt-refl : (d : Disk) (b : ℕ) → SameAt d d b
SameAt-refl d b = record { blocks = refl; dirty = refl }

SameAt-trans : {d e f : Disk} {b : ℕ} → SameAt d e b → SameAt e f b → SameAt d f b
SameAt-trans p q = record { blocks = q.blocks ∙ p.blocks; dirty = q.dirty ∙ p.dirty }

pub bread_same : {d e : Disk} {b : ℕ} → SameAt d e b → bread e b ≡ bread d b
bread_same {d} {e} {b} s = ground (arith, s.blocks, s.dirty)

pub bwrite_ne : (d : Disk) (a b : ℕ) (x : Block) → a ≢ b → SameAt d (bwrite d a x) b
bwrite_ne d a b x ne = record { blocks = ground (arith, ap d.blocks); dirty = ground (arith) }

pub bwrite_self : (d : Disk) (a : ℕ) (x : Block) → 0 < d.power → (bwrite d a x).blocks a ≡ x
bwrite_self d a x h = ground arith

module _ (l : Log) (ready : IsReady l) where
  open ready use {small, room, distinct, outside}

  -- `write_log` writes the log's own blocks and no others.
  pub write_log_from-same :
      (r tail : ℕ) (d : Disk) (b : ℕ)
      → (b ≤ l.start + tail) ⊎ (l.start + tail + r < b)
      → SameAt d (write_log_from l r tail d) b
  unfolding write_log_from
  write_log_from-same zero tail d b h = SameAt-refl d b
  write_log_from-same (suc r) tail d b h =
      SameAt-trans (bwrite_ne d (l.start + tail + 1) b (bread d (home_of l tail)) (omega arith))
        (write_log_from-same r (tail + 1) _ b (omega arith))

  pub power-write_log_from :
      (r tail : ℕ) (d : Disk) → (write_log_from l r tail d).power ≡ d.power - r
  unfolding write_log_from
  power-write_log_from zero tail d = omega arith
  power-write_log_from (suc r) tail d = omega (
    arith,
    power-write_log_from r (tail + 1) (bwrite d (l.start + tail + 1) (bread d (home_of l tail))),
  )

  -- With power for all of its writes, each log block gets the data that `bread` has for its home.
  pub write_log_from-copies :
      (r tail : ℕ) (d : Disk)
      → tail + r ≡ l.lh.n
      → r ≤ d.power
      → (i : ℕ) → tail ≤ i
      → i < l.lh.n
      → (write_log_from l r tail d).blocks (l.start + i + 1) ≡ bread d (home_of l i)
  unfolding write_log_from
  write_log_from-copies zero tail d e p i lo lt = absurd (omega arith)
  write_log_from-copies (suc r) tail d e p i lo lt = elim (ℕ_discrete tail i) [
    | yes q ↦ rw (← q) (
        (write_log_from-same r (tail + 1) _ (l.start + tail + 1) (omega arith)).blocks
        ∙ bwrite_self d (l.start + tail + 1) (bread d (home_of l tail)) (omega arith))
    | no ne ↦
        write_log_from-copies r (tail + 1) _ (omega arith) (omega arith) i (omega arith) lt
        ∙ bread_same (
            bwrite_ne d (l.start + tail + 1) (home_of l i) (bread d (home_of l tail))
              (omega (arith, outside i lt)))
  ]

  -- `install_trans` writes the logged blocks' homes and no other block.
  pub install_from-same :
      (r tail : ℕ) (d : Disk) (b : ℕ)
      → ((i : ℕ) → tail ≤ i → i < tail + r → home_of l i ≢ b)
      → SameAt d (install_from l r tail d) b
  unfolding install_from
  install_from-same zero tail d b h = SameAt-refl d b
  install_from-same (suc r) tail d b h =
      SameAt-trans
        (bwrite_ne d (home_of l tail) b (bread d (l.start + tail + 1))
          (h tail (omega arith) (omega arith)))
        (install_from-same r (tail + 1) _ b (λ i lo lt. h i (omega arith) (omega arith)))

  pub power-install_from : (r tail : ℕ) (d : Disk) → (install_from l r tail d).power ≡ d.power - r
  unfolding install_from
  power-install_from zero tail d = omega arith
  power-install_from (suc r) tail d = omega (
    arith,
    power-install_from r (tail + 1) (bwrite d (home_of l tail) (bread d (l.start + tail + 1))),
  )

  -- With power for all of its writes, each home gets the data of its log block.
  pub install_from-copies :
      (r tail : ℕ) (d : Disk)
      → tail + r ≡ l.lh.n
      → r ≤ d.power
      → (i : ℕ) → tail ≤ i
      → i < l.lh.n
      → (install_from l r tail d).blocks (home_of l i) ≡ bread d (l.start + i + 1)
  unfolding install_from
  install_from-copies zero tail d e p i lo lt = absurd (omega arith)
  install_from-copies (suc r) tail d e p i lo lt = elim (ℕ_discrete tail i) [
    | yes q ↦ rw (← q) (
        (install_from-same r (tail + 1) _ (home_of l tail)
          (λ j jlo jlt h. distinct tail j (omega arith) (omega arith) (sym h))).blocks
        ∙ bwrite_self d (home_of l tail) (bread d (l.start + tail + 1)) (omega arith))
    | no ne ↦
        install_from-copies r (tail + 1) _ (omega arith) (omega arith) i (omega arith) lt
        ∙ bread_same (
            bwrite_ne d (home_of l tail) (l.start + i + 1) (bread d (l.start + tail + 1))
              (omega (arith, outside tail (omega arith))))
  ]

  -- A block that has no dirty buffer gets none.
  pub install_from-not_dirty :
      (r tail : ℕ) (d : Disk) (b : ℕ) → d.dirty b ≡ none → (install_from l r tail d).dirty b ≡ none
  unfolding install_from
  install_from-not_dirty zero tail d b h = h
  install_from-not_dirty (suc r) tail d b h = install_from-not_dirty r (tail + 1) _ b (ground arith)

  pub write_log_from-not_dirty :
      (r tail : ℕ) (d : Disk) (b : ℕ)
      → d.dirty b ≡ none
      → (write_log_from l r tail d).dirty b ≡ none
  unfolding write_log_from
  write_log_from-not_dirty zero tail d b h = h
  write_log_from-not_dirty (suc r) tail d b h =
      write_log_from-not_dirty r (tail + 1) _ b (ground arith)

  -- Without power nothing is written.
  pub install_from-dead :
      (r tail : ℕ) (d : Disk) → d.power ≡ 0 → (install_from l r tail d).blocks ≡ d.blocks
  unfolding install_from
  install_from-dead zero tail d h = refl
  install_from-dead (suc r) tail d h = install_from-dead r (tail + 1) _ (omega arith) ∙ ground arith
