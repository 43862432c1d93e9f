-- ===== src/Fs/Inode.antt =====
-- Inodes and their contents: the middle part of fs.c, with `struct dinode` (fs.h) and `struct inode` (file.h).
pub mod Content
use cs537_project.Prelude.{
  ℕ, zero, suc, ◌+◌, ◌-◌, ◌*◌, ◌/◌, ◌%◌, ◌^◌, Bool, true, false, not, ◌&&◌, ◌||◌, Option, none,
  some, ltb, leb, ◌==◌, if◌then◌else◌, add32, sub32, failed, update,
}
use cs537_project.Bio.{Sleeplock}
use cs537_project.Fs.{Blocks, Superblock, bsize, balloc, bfree}

abbrev pub ndirect : ℕ
ndirect = 12

abbrev pub nindirect : ℕ
nindirect = 128

abbrev pub maxfile : ℕ
maxfile = 140

abbrev pub t_dir : ℕ
t_dir = 1

abbrev pub t_dev : ℕ
t_dev = 3

abbrev pub ndev : ℕ
ndev = 10

-- The fields that an inode has on the disk.
pub record Dinode : Type 0 where
  pub type : ℕ
  pub major : ℕ
  pub minor : ℕ
  pub nlink : ℕ
  pub size : ℕ
  pub addrs : ℕ → ℕ

pub record Inode : Type 0 where
  pub dev : ℕ
  pub inum : ℕ
  pub ref : ℕ
  pub lock : Sleeplock
  pub valid : Bool
  pub copy : Dinode

-- Numbers in the bytes of a block, the low byte first.
abbrev pub load16 : (ℕ → ℕ) → ℕ → ℕ
load16 block o = block o + 256 * block (o + 1)

abbrev pub load32 : (ℕ → ℕ) → ℕ → ℕ
load32 block o = load16 block o + 0x1_0000 * load16 block (o + 2)

abbrev pub store16 : (ℕ → ℕ) → ℕ → ℕ → ℕ → ℕ
store16 block o x = update (update block o (x % 256)) (o + 1) (x / 256 % 256)

abbrev pub store32 : (ℕ → ℕ) → ℕ → ℕ → ℕ → ℕ
store32 block o x = store16 (store16 block o (x % 0x1_0000)) (o + 2) (x / 0x1_0000)

-- `readsb`: the superblock is block 1.
abbrev pub readsb : Blocks → Superblock
readsb v = record {
  size = load32 (v 1) 0;
  nblocks = load32 (v 1) 4;
  ninodes = load32 (v 1) 8;
  nlog = load32 (v 1) 12;
  logstart = load32 (v 1) 16;
  inodestart = load32 (v 1) 20;
  bmapstart = load32 (v 1) 24;
}

-- IPB and IBLOCK, and where in its block an inode lies.
abbrev pub ipb : ℕ
ipb = 8

abbrev pub iblock : Superblock → ℕ → ℕ
iblock sb i = i / ipb + sb.inodestart

abbrev pub dinode_at : ℕ → ℕ
dinode_at inum = inum % ipb * 64

-- `*dip`
unfoldable pub load_dinode : (ℕ → ℕ) → ℕ → Dinode
load_dinode block o = record {
  type = load16 block o;
  major = load16 block (o + 2);
  minor = load16 block (o + 4);
  nlink = load16 block (o + 6);
  size = load32 block (o + 8);
  addrs = λ i. load32 block (o + 12 + 4 * i);
}

-- `memmove(dip->addrs, ip->addrs, sizeof(ip->addrs))`, the first `n` of them.
unfoldable pub store_addrs : ℕ → (ℕ → ℕ) → ℕ → (ℕ → ℕ) → ℕ → ℕ
store_addrs zero block o addrs = block
store_addrs (suc n) block o addrs = store32 (store_addrs n block o addrs) (o + 4 * n) (addrs n)

unfoldable pub store_dinode : (ℕ → ℕ) → ℕ → Dinode → ℕ → ℕ
store_dinode block o d =
    let b1 = store16 block o d.type in
    let b2 = store16 b1 (o + 2) d.major in
    let b3 = store16 b2 (o + 4) d.minor in
    let b4 = store16 b3 (o + 6) d.nlink in
    let b5 = store32 b4 (o + 8) d.size in store_addrs (ndirect + 1) b5 (o + 12) d.addrs

-- The blocks with the one changed that the inode lies in.
unfoldable pub iupdate : Superblock → Blocks → Inode → Blocks
iupdate sb v ip =
    update v (iblock sb ip.inum) (store_dinode (v (iblock sb ip.inum)) (dinode_at ip.inum) ip.copy)

abbrev pub set_addr : Inode → ℕ → ℕ → Inode
set_addr ip i addr = record ip { copy = record ip.copy { addrs = update ip.copy.addrs i addr } }

-- `ip->addrs[i]`, with a block from `balloc` if it is 0.
unfoldable pub addr_of : Superblock → Blocks → Inode → ℕ → Option (ℕ × Inode × Blocks)
addr_of sb v ip i =
    if ip.copy.addrs i == 0
    then (elim (balloc sb v) [
      | none ↦ none
      | some (addr, v') ↦ some (addr, set_addr ip i addr, v')
    ])
    else some (ip.copy.addrs i, ip, v)

-- The entry `bn` of the indirect block at `ind`, with a block from `balloc` if it is 0. The buffer of
-- the indirect block is held while `balloc` runs.
unfoldable pub indirect_of : Superblock → Blocks → Inode → ℕ → ℕ → Option (ℕ × Inode × Blocks)
indirect_of sb v ip ind bn =
    let addr = load32 (v ind) (4 * bn) in
    if addr == 0
    then (elim (balloc sb v) [
      | none ↦ none
      | some (new, v') ↦ some (new, ip, update v' ind (store32 (v' ind) (4 * bn) new))
    ])
    else some (addr, ip, v)

-- `bmap`; `none` is a panic.
unfoldable pub bmap : Superblock → Blocks → Inode → ℕ → Option (ℕ × Inode × Blocks)
bmap sb v ip bn =
    if ltb bn ndirect
    then addr_of sb v ip bn
    else if ltb (bn - ndirect) nindirect
    then (elim (addr_of sb v ip ndirect) [
      | none ↦ none
      | some (ind, ip', v') ↦ indirect_of sb v' ip' ind (bn - ndirect)
    ])
    else none

-- The first loop of `itrunc` from entry `i` on.
unfoldable pub free_direct : ℕ → Superblock → Blocks → Inode → ℕ → Option (Inode × Blocks)
free_direct zero sb v ip i = some (ip, v)
free_direct (suc r) sb v ip i = elim (ip.copy.addrs i == 0) [
  | true ↦ free_direct r sb v ip (i + 1)
  | false ↦ elim (bfree sb v (ip.copy.addrs i)) [
    | none ↦ none
    | some v' ↦ free_direct r sb v' (set_addr ip i 0) (i + 1)
  ]
]

-- The second loop of `itrunc`, over the entries of the indirect block, whose buffer is held.
unfoldable pub free_indirect : ℕ → Superblock → Blocks → ℕ → ℕ → Option Blocks
free_indirect zero sb v ind j = some v
free_indirect (suc r) sb v ind j =
    let a = load32 (v ind) (4 * j) in
    elim (a == 0) [
      | true ↦ free_indirect r sb v ind (j + 1)
      | false ↦ elim (bfree sb v a) [ none ↦ none | some v' ↦ free_indirect r sb v' ind (j + 1) ]
    ]

-- The indirect block of `itrunc`.
unfoldable pub free_last : Superblock → Blocks → Inode → Option (Inode × Blocks)
free_last sb v ip =
    let ind = ip.copy.addrs ndirect in
    if ind == 0 then some (ip, v) else (elim (free_indirect nindirect sb v ind 0) [
      | none ↦ none
      | some v' ↦ elim (bfree sb v' ind) [
        | none ↦ none
        | some v'' ↦ some (set_addr ip ndirect 0, v'')
      ]
    ])

unfoldable pub itrunc : Superblock → Blocks → Inode → Option (Inode × Blocks)
itrunc sb v ip = elim (free_direct ndirect sb v ip 0) [
  | none ↦ none
  | some (ip', v') ↦ elim (free_last sb v' ip') [
    | none ↦ none
    | some (ip'', v'') ↦
        let ip0 : Inode = record ip'' { copy = record ip''.copy { size = 0 } } in
        some (ip0, iupdate sb v'' ip0)
  ]
]

pub record Stat : Type 0 where
  pub dev : ℕ
  pub ino : ℕ
  pub type : ℕ
  pub nlink : ℕ
  pub size : ℕ

unfoldable pub stati : Inode → Stat
stati ip = record {
  dev = ip.dev;
  ino = ip.inum;
  type = ip.copy.type;
  nlink = ip.copy.nlink;
  size = ip.copy.size;
}

abbrev pub min : ℕ → ℕ → ℕ
min a b = if ltb a b then a else b

-- `m` bytes from one place to another, by `memmove`: a block and the memory lie apart.
unfoldable pub copy_bytes : (ℕ → ℕ) → ℕ → (ℕ → ℕ) → ℕ → ℕ → ℕ → ℕ
copy_bytes to dst from src zero = to
copy_bytes to dst from src (suc m) =
    copy_bytes (update to dst (from src)) (dst + 1) from (src + 1) m

-- What the loop of `readi` leaves: the inode and the blocks, which `bmap` may change, and the memory.
pub record Io : Type 0 where
  pub ip : Inode
  pub blocks : Blocks
  pub mem : ℕ → ℕ

-- The loop of `readi`, `left` bytes to go, with the rounds bounded by the first argument.
unfoldable pub read_from : ℕ → Superblock → Io → ℕ → ℕ → ℕ → Option Io
read_from zero sb s dst off left = none
read_from (suc r) sb s dst off left = elim (left == 0) [
  | true ↦ some s
  | false ↦ elim (bmap sb s.blocks s.ip (off / bsize)) [
    | none ↦ none
    | some (addr, ip, v) ↦
        let m = min left (bsize - off % bsize) in
        read_from r sb
          (record { ip = ip; blocks = v; mem = copy_bytes s.mem dst (v addr) (off % bsize) m })
          (dst + m) (off + m) (left - m)
  ]
]

-- The loop of `writei`.
unfoldable pub write_from : ℕ → Superblock → Io → ℕ → ℕ → ℕ → Option Io
write_from zero sb s src off left = none
write_from (suc r) sb s src off left = elim (left == 0) [
  | true ↦ some s
  | false ↦ elim (bmap sb s.blocks s.ip (off / bsize)) [
    | none ↦ none
    | some (addr, ip, v) ↦
        let m = min left (bsize - off % bsize) in
        write_from r sb
          (record s {
            ip = ip;
            blocks = update v addr (copy_bytes (v addr) (off % bsize) s.mem src m);
          })
          (src + m) (off + m) (left - m)
  ]
]

-- `devsw`: what the device with a number does to the memory for a call at an address with a count, and what
-- it returns; `none` is a null entry.
abbrev pub Devsw : Type 0
Devsw = ℕ → Option ((ℕ → ℕ) → ℕ → ℕ → ℕ × (ℕ → ℕ))

-- `ip->major < 0 || ip->major >= NDEV || !devsw[ip->major].read`, and the call.
abbrev pub call_device : Devsw → Io → ℕ → ℕ → Option (ℕ × Io)
call_device devsw s addr n =
    if leb ndev s.ip.copy.major then some (failed, s) else (elim (devsw s.ip.copy.major) [
      | none ↦ some (failed, s)
      | some f ↦ let (r, mem) = f s.mem addr n in some (r, record s { mem = mem })
    ])

-- The loop of `readi` with its rounds, and what `readi` returns after it. Each round but the first and the
-- last reads a block.
unfoldable pub read_bytes : Superblock → Io → ℕ → ℕ → ℕ → Option (ℕ × Io)
read_bytes sb s dst off n = elim (read_from (n / bsize + 3) sb s dst off n) [
  | none ↦ none
  | some s' ↦ some (n, s')
]

-- `readi`; `none` is a panic.
unfoldable pub readi : Devsw → Superblock → Io → ℕ → ℕ → ℕ → Option (ℕ × Io)
readi devsw sb s dst off n =
    let size = s.ip.copy.size in
    if s.ip.copy.type == t_dev
    then call_device devsw s dst n
    else if ltb size off || ltb (add32 off n) off
    then some (failed, s)
    else read_bytes sb s dst off (if ltb size (add32 off n) then size - off else n)

-- The end of `writei`: the size is raised to where the write has ended.
unfoldable pub raise_size : Superblock → Io → ℕ → ℕ → Io
raise_size sb s end n =
    let ip : Inode = record s.ip { copy = record s.ip.copy { size = end } } in
    if not (n == 0) && ltb s.ip.copy.size end
    then record s { ip = ip; blocks = iupdate sb s.blocks ip }
    else s

unfoldable pub writei : Devsw → Superblock → Io → ℕ → ℕ → ℕ → Option (ℕ × Io)
writei devsw sb s src off n =
    if s.ip.copy.type == t_dev
    then call_device devsw s src n
    else if ltb s.ip.copy.size off || ltb (add32 off n) off
    then some (failed, s)
    else if ltb (maxfile * bsize) (add32 off n)
    then some (failed, s)
    else (elim (write_from (n / bsize + 3) sb s src off n) [
      | none ↦ none
      | some s' ↦ some (n, raise_size sb s' (add32 off n) n)
    ])
