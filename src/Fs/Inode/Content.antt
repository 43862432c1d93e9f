-- ===== src/Fs/Inode/Content.antt =====
-- `bmap` and `readi`, where no block has to be allocated.
use mathlib.Core.Path.{subst}
use cs537_project.Prelude.{
  ℕ, zero, suc, ◌+◌, ◌-◌, ◌*◌, ◌/◌, ◌%◌, ◌^◌, ◌≤◌, ◌<◌, ◌≡◌, ◌≢◌, ◌⊎◌, inl, inr, refl, ap, sym, ◌∙◌,
  true, false, ◌||◌, Option, none, some, ◌==◌, ltb, if◌then◌else◌, arith, Bool-cases, dec_lt, add32,
  update, update_self, update-ne,
}
use cs537_project.Fs.{Blocks, Superblock, bsize}
use cs537_project.Fs.Inode.{
  Inode, Devsw, Io, t_dev, ndirect, nindirect, maxfile, load32, addr_of, indirect_of, bmap, min,
  copy_bytes, read_from, read_bytes, readi,
}

-- The block of the disk with the block `bn` of the file.
abbrev pub block_of : Blocks → Inode → ℕ → ℕ
block_of v ip bn =
    if ltb bn ndirect
    then ip.copy.addrs bn
    else load32 (v (ip.copy.addrs ndirect)) (4 * (bn - ndirect))

-- The file has a block there.
pub record HasBlock (v : Blocks) (ip : Inode) (bn : ℕ) : Type 0 where
  pub small : bn < maxfile
  pub there : block_of v ip bn ≢ 0
  pub indirect : ndirect ≤ bn → ip.copy.addrs ndirect ≢ 0

-- The byte of the file.
abbrev pub byte_at : Blocks → Inode → ℕ → ℕ
byte_at v ip i = v (block_of v ip (i / bsize)) (i % bsize)

pub bmap-HasBlock :
    (sb : Superblock) (v : Blocks) (ip : Inode) (bn : ℕ)
    → HasBlock v ip bn
    → bmap sb v ip bn ≡ some (block_of v ip bn, ip, v)
unfolding bmap addr_of indirect_of
bmap-HasBlock sb v ip bn h = elim (Bool-cases (ltb bn ndirect)) [
  | inl direct ↦
      let there : ip.copy.addrs bn ≢ 0 = rw direct at h.there in
      let nonzero : (ip.copy.addrs bn == 0) ≡ false = ground arith in
      rw (bmap, addr_of, direct, nonzero) refl
  | inr indirect ↦
      let entry = load32 (v (ip.copy.addrs ndirect)) (4 * (bn - ndirect)) in
      let there : entry ≢ 0 = rw indirect at h.there in
      let low : ltb (bn - ndirect) nindirect ≡ true = (let s = h.small in ground arith) in
      let table : ip.copy.addrs ndirect ≢ 0 = h.indirect (ground arith) in
      let has_table : (ip.copy.addrs ndirect == 0) ≡ false = ground arith in
      let nonzero : (entry == 0) ≡ false = ground arith in
      rw (bmap, indirect, low, addr_of, has_table, indirect_of, nonzero) refl
]

-- `m` bytes have been copied.
pub record Copied (to : ℕ → ℕ) (dst : ℕ) (from : ℕ → ℕ) (src m : ℕ) (to' : ℕ → ℕ) : Type 0 where
  pub new : (j : ℕ) → j < m → to' (dst + j) ≡ from (src + j)
  pub old : (a : ℕ) → (a < dst) ⊎ (dst + m ≤ a) → to' a ≡ to a

Copied-cons :
    (to : ℕ → ℕ) (dst : ℕ) (from : ℕ → ℕ) (src m : ℕ) (to' : ℕ → ℕ)
    → Copied (update to dst (from src)) (dst + 1) from (src + 1) m to'
    → Copied to dst from src (suc m) to'
Copied-cons to dst from src m to' rest = record { new = new; old = old }
  where
    new : (j : ℕ) → j < suc m → to' (dst + j) ≡ from (src + j)
    new zero h =
        ap to' (omega arith)
        ∙ rest.old dst (inl (omega arith))
        ∙ update_self to dst (from src)
        ∙ ap from (omega arith)
    new (suc j) h = ap to' (omega arith) ∙ rest.new j (omega arith) ∙ ap from (omega arith)

    old : (a : ℕ) → (a < dst) ⊎ (dst + suc m ≤ a) → to' a ≡ to a
    old a h =
        rest.old a (omega (arith, h)) ∙ update-ne to dst a (from src) (λ z. omega (arith, h, z))

pub copy_bytes-Copied :
    (to : ℕ → ℕ) (dst : ℕ) (from : ℕ → ℕ) (src m : ℕ)
    → Copied to dst from src m (copy_bytes to dst from src m)
unfolding copy_bytes
copy_bytes-Copied to dst from src zero = record {
  new = λ j h. absurd (omega arith);
  old = λ a h. refl;
}
copy_bytes-Copied to dst from src (suc m) =
    Copied-cons to dst from src m (copy_bytes (update to dst (from src)) (dst + 1) from (src + 1) m)
      (copy_bytes-Copied (update to dst (from src)) (dst + 1) from (src + 1) m)

-- What the reading of `left` bytes from `off` on leaves.
pub record ReadIo (s : Io) (dst off left : ℕ) (s' : Io) : Type 0 where
  pub ip_kept : s'.ip ≡ s.ip
  pub blocks_kept : s'.blocks ≡ s.blocks
  pub new : (j : ℕ) → j < left → s'.mem (dst + j) ≡ byte_at s.blocks s.ip (off + j)
  pub old : (a : ℕ) → (a < dst) ⊎ (dst + left ≤ a) → s'.mem a ≡ s.mem a

abbrev pub ReadResult : Io → ℕ → ℕ → ℕ → Option Io → Type 0
ReadResult s dst off left none = ⊥
ReadResult s dst off left (some s') = ReadIo s dst off left s'

-- The state with the bytes of one block read.
abbrev read_block : Io → ℕ → ℕ → ℕ → Io
read_block s dst off m = record {
  ip = s.ip;
  blocks = s.blocks;
  mem = copy_bytes s.mem dst (s.blocks (block_of s.blocks s.ip (off / bsize))) (off % bsize) m;
}

ReadResult-cons :
    (s : Io) (dst off left m : ℕ) (o : Option Io)
    → m ≤ left
    → off % bsize + m ≤ bsize
    → ReadResult (read_block s dst off m) (dst + m) (off + m) (left - m) o
    → ReadResult s dst off left o
ReadResult-cons s dst off left m none small inside rest = rest
ReadResult-cons s dst off left m (some s') small inside rest = record {
  ip_kept = rest.ip_kept;
  blocks_kept = rest.blocks_kept;
  new = new;
  old = old;
}
  where
    from : ℕ → ℕ
    from = s.blocks (block_of s.blocks s.ip (off / bsize))

    copied : Copied s.mem dst from (off % bsize) m (copy_bytes s.mem dst from (off % bsize) m)
    copied = copy_bytes-Copied s.mem dst from (off % bsize) m

    new : (j : ℕ) → j < left → s'.mem (dst + j) ≡ byte_at s.blocks s.ip (off + j)
    new j h = elim (dec_lt j m) [
      | yes lt ↦
          let quotient : off / bsize ≡ (off + j) / bsize = omega arith in
          let remainder : off % bsize + j ≡ (off + j) % bsize = omega arith in
          rest.old (dst + j) (inl (omega arith))
          ∙ copied.new j lt
          ∙ ap from remainder
          ∙ ap (λ (q : ℕ). s.blocks (block_of s.blocks s.ip q) ((off + j) % bsize)) quotient
      | no ge ↦
          ap s'.mem (omega arith)
          ∙ rest.new (j - m) (omega arith)
          ∙ ap (byte_at s.blocks s.ip) (omega arith)
    ]

    old : (a : ℕ) → (a < dst) ⊎ (dst + left ≤ a) → s'.mem a ≡ s.mem a
    old a (inl lt) = rest.old a (inl (omega arith)) ∙ copied.old a (inl lt)
    old a (inr ge) = rest.old a (inr (omega arith)) ∙ copied.old a (inr (omega arith))

read_round :
    (r : ℕ) (sb : Superblock) (s : Io) (dst off left m : ℕ)
    → (left == 0) ≡ false
    → HasBlock s.blocks s.ip (off / bsize)
    → min left (bsize - off % bsize) ≡ m
    → ReadResult
        (read_block s dst off m)
        (dst + m)
        (off + m)
        (left - m)
        (read_from r sb (read_block s dst off m) (dst + m) (off + m) (left - m))
    → ReadResult s dst off left (read_from (suc r) sb s dst off left)
unfolding read_from
read_round r sb s dst off left m more has e rest =
    let rest_at : ReadResult s dst off left
        (read_from r sb (read_block s dst off m) (dst + m) (off + m) (left - m)) =
      ReadResult-cons s dst off left m
        (read_from r sb (read_block s dst off m) (dst + m) (off + m) (left - m)) (ground arith)
        (ground arith) rest in
    let same : read_from (suc r) sb s dst off left
        ≡ read_from r sb (read_block s dst off m) (dst + m) (off + m) (left - m) =
      rw (read_from, more, bmap-HasBlock sb s.blocks s.ip (off / bsize) has, e) refl in
    subst (ReadResult s dst off left) (sym same) rest_at

-- Rounds that are enough: the blocks of the range, and the last round, which ends.
read_from_lem :
    (r : ℕ) (sb : Superblock) (s : Io) (dst off left : ℕ)
    → ((i : ℕ) → off ≤ i → i < off + left → HasBlock s.blocks s.ip (i / bsize))
    → left ≤ r * bsize - off % bsize
    → ReadResult s dst off left (read_from (suc r) sb s dst off left)
unfolding read_from
read_from_lem zero sb s dst off left has enough =
    let done : (left == 0) ≡ true = ground arith in
    rw (read_from, done)
      (record {
        ip_kept = refl;
        blocks_kept = refl;
        new = λ j h. absurd (omega arith);
        old = λ a h. refl;
      })
read_from_lem (suc r) sb s dst off left has enough = elim (Bool-cases (left == 0)) [
  | inl done ↦
      rw (read_from, done)
        (record {
          ip_kept = refl;
          blocks_kept = refl;
          new = λ j h. absurd (ground arith);
          old = λ a h. refl;
        })
  | inr more ↦
      let m = min left (bsize - off % bsize) in
      read_round (suc r) sb s dst off left m more (has off (omega arith) (ground arith)) refl (
        read_from_lem r sb (read_block s dst off m) (dst + m) (off + m) (left - m)
          (λ i low high. has i (omega arith) (ground arith)) (ground arith))
]

read_bytes_lem :
    (sb : Superblock) (s : Io) (dst off n : ℕ)
    → ((i : ℕ) → off ≤ i → i < off + n → HasBlock s.blocks s.ip (i / bsize))
    → (s' : Io) × ((read_bytes sb s dst off n ≡ some (n, s')) × ReadIo s dst off n s')
unfolding read_bytes
read_bytes_lem sb s dst off n has =
    let rounds : suc (n / bsize + 2) ≡ n / bsize + 3 = omega arith in
    cases (read_from (n / bsize + 3) sb s dst off n) refl (
      subst (λ (r : ℕ). ReadResult s dst off n (read_from r sb s dst off n)) rounds
        (read_from_lem (n / bsize + 2) sb s dst off n has (omega arith)))
  where
    cases :
        (o : Option Io)
        → read_from (n / bsize + 3) sb s dst off n ≡ o
        → ReadResult s dst off n o
        → (s' : Io) × ((read_bytes sb s dst off n ≡ some (n, s')) × ReadIo s dst off n s')
    cases none e bad = absurd bad
    cases (some s') e read = (s', (rw (read_bytes, e) refl, read))

-- The bytes that `readi` returns: no more than the file has.
abbrev pub readable : Io → ℕ → ℕ → ℕ
readable s off n = min n (s.ip.copy.size - off)

-- `readi` of a file that is no device, from an offset within the file, with a block for every byte, returns
-- how many bytes it has read, and they are those of the file; the rest of the memory, the inode and the
-- blocks stay as they are.
pub readi_lem :
    (devsw : Devsw) (sb : Superblock) (s : Io) (dst off n : ℕ)
    → s.ip.copy.type ≢ t_dev
    → off ≤ s.ip.copy.size
    → off + n < 2 ^ 32
    → ((i : ℕ) → i < s.ip.copy.size → HasBlock s.blocks s.ip (i / bsize))
    → (s' : Io) × ((readi devsw sb s dst off n ≡ some (readable s off n, s'))
        × ReadIo s dst off (readable s off n) s')
unfolding readi
readi_lem devsw sb s dst off n file inside small has =
    let no_dev : (s.ip.copy.type == t_dev) ≡ false = ground arith in
    let end : add32 off n ≡ off + n = omega arith in
    let in_file : (ltb s.ip.copy.size off || ltb (add32 off n) off) ≡ false =
      rw end (ground arith) in
    let count : (if ltb s.ip.copy.size (add32 off n) then s.ip.copy.size - off else n)
        ≡ readable s off n =
      rw end (ground arith) in
    let (s', (done, read)) =
      read_bytes_lem sb s dst off (readable s off n) (λ i low high. has i (ground arith)) in
    (s', (rw (readi, no_dev, in_file, count) done, read))
