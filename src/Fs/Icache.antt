-- ===== src/Fs/Icache.antt =====
-- The inode cache: the first part of the inodes in fs.c. An inode is its index in `icache.inode`. The
-- caller of `acquiresleep` is `pid`. `none` is a panic, or the waiting for the lock.
pub mod Find
pub mod Keep
pub mod Count
pub mod Ops
pub mod History
use cs537_project.Prelude.{
  ℕ, zero, suc, ◌+◌, Bool, true, false, not, ◌&&◌, ◌||◌, Option, none, some, ◌==◌, ltb,
  if◌then◌else◌, add32, sub32, le_zero, update,
}
use cs537_project.Bio.{Sleeplock, acquiresleep, releasesleep, holdingsleep}
use cs537_project.Fs.{Blocks, Superblock}
use cs537_project.Fs.Inode.{
  Dinode, Inode, readsb, iblock, dinode_at, load_dinode, store_dinode, iupdate, itrunc,
}

abbrev pub ninode : ℕ
ninode = 50

-- The cache and the blocks of the disk.
pub record Icache : Type 0 where
  pub inode : ℕ → Inode
  pub blocks : Blocks

abbrev pub set_inode : Icache → ℕ → Inode → Icache
set_inode c i ip = record c { inode = update c.inode i ip }

-- The loop of `iinit` from inode `i` on: `initsleeplock`.
unfoldable pub init_locks : ℕ → (ℕ → Inode) → ℕ → ℕ → Inode
init_locks zero inode i = inode
init_locks (suc r) inode i =
    init_locks r (update inode i (record (inode i) { lock = record { locked = false; pid = 0 } }))
      (i + 1)

-- `iinit`: the superblock that is read, and the cache.
abbrev pub iinit : Icache → Superblock × Icache
iinit c = (readsb c.blocks, record c { inode = init_locks ninode c.inode 0 })

-- Where the loop of `iget` ends: at the inode, or after it with the empty slot that it remembers.
pub data Found : Type 0 where
  cached : ℕ → Found
  recycled : ℕ → Found
  no_inodes : Found

abbrev pub is_at : Inode → ℕ → ℕ → Bool
is_at ip dev inum = not (le_zero ip.ref) && ((ip.dev == dev) && (ip.inum == inum))

-- `if(empty == 0 && ip->ref == 0) empty = ip;`
abbrev pub remember : Option ℕ → (ℕ → Inode) → ℕ → Option ℕ
remember none inode i = if (inode i).ref == 0 then some i else none
remember (some e) inode i = some e

-- The loop of `iget` from slot `i` on.
unfoldable pub find_inode : ℕ → (ℕ → Inode) → ℕ → ℕ → ℕ → Option ℕ → Found
find_inode zero inode dev inum i none = no_inodes
find_inode zero inode dev inum i (some e) = recycled e
find_inode (suc r) inode dev inum i empty =
    let rest = find_inode r inode dev inum (i + 1) (remember empty inode i) in
    if is_at (inode i) dev inum then cached i else rest

unfoldable pub iget : ℕ → ℕ → Icache → Option (ℕ × Icache)
iget dev inum c = elim (find_inode ninode c.inode dev inum 0 none) [
  | cached i ↦ some (i, set_inode c i (record (c.inode i) { ref = add32 (c.inode i).ref 1 }))
  | recycled i ↦
      some
        (i, set_inode c i (record (c.inode i) { dev = dev; inum = inum; ref = 1; valid = false }))
  | no_inodes ↦ none
]

abbrev pub idup : ℕ → Icache → Icache
idup i c = set_inode c i (record (c.inode i) { ref = add32 (c.inode i).ref 1 })

-- What `ilock` does with the lock held: it reads the inode if necessary.
unfoldable pub load_inode : Superblock → Blocks → Inode → Option Inode
load_inode sb v ip =
    let copy = load_dinode (v (iblock sb ip.inum)) (dinode_at ip.inum) in
    if ip.valid
    then some ip
    else if copy.type == 0
    then none
    else some (record ip { copy = copy; valid = true })

unfoldable pub ilock : ℕ → Superblock → ℕ → Icache → Option Icache
ilock pid sb i c =
    let ip = c.inode i in
    if le_zero ip.ref then none else (elim (acquiresleep pid ip.lock) [
      | none ↦ none
      | some lk ↦ elim (load_inode sb c.blocks (record ip { lock = lk })) [
        | none ↦ none
        | some ip' ↦ some (set_inode c i ip')
      ]
    ])

unfoldable pub iunlock : ℕ → ℕ → Icache → Option Icache
iunlock pid i c =
    let ip = c.inode i in
    if not (holdingsleep pid ip.lock) || le_zero ip.ref
    then none
    else some (set_inode c i (record ip { lock = releasesleep ip.lock }))

-- The inode without links or other references: it is truncated and freed.
unfoldable pub free_inode : Superblock → Blocks → Inode → Option (Inode × Blocks)
free_inode sb v ip = elim (itrunc sb v ip) [
  | none ↦ none
  | some (ip', v') ↦
      let freed : Inode = record ip' { copy = record ip'.copy { type = 0 } } in
      some (record freed { valid = false }, iupdate sb v' freed)
]

-- `iput` with the lock held, up to its release.
unfoldable pub iput_locked : Superblock → Blocks → Inode → Option (Inode × Blocks)
iput_locked sb v ip =
    if ip.valid && (ip.copy.nlink == 0) && (ip.ref == 1) then free_inode sb v ip else some (ip, v)

unfoldable pub iput : ℕ → Superblock → ℕ → Icache → Option Icache
iput pid sb i c = elim (acquiresleep pid (c.inode i).lock) [
  | none ↦ none
  | some lk ↦ elim (iput_locked sb c.blocks (record (c.inode i) { lock = lk })) [
    | none ↦ none
    | some (ip, v) ↦ some (record {
      inode = update c.inode i (record ip { lock = releasesleep ip.lock; ref = sub32 ip.ref 1 });
      blocks = v;
    })
  ]
]

unfoldable pub iunlockput : ℕ → Superblock → ℕ → Icache → Option Icache
iunlockput pid sb i c = elim (iunlock pid i c) [ none ↦ none | some c' ↦ iput pid sb i c' ]

-- `memset(dip, 0, sizeof(*dip)); dip->type = type;`
abbrev pub new_dinode : ℕ → Dinode
new_dinode type = record { type = type; major = 0; minor = 0; nlink = 0; size = 0; addrs = λ i. 0 }

-- The loop of `ialloc` from inode `inum` on.
unfoldable pub ialloc_from : ℕ → Superblock → ℕ → ℕ → ℕ → Icache → Option (ℕ × Icache)
ialloc_from zero sb dev type inum c = none
ialloc_from (suc r) sb dev type inum c =
    let n = iblock sb inum in
    let block = c.blocks n in
    elim (ltb inum sb.ninodes) [
      | false ↦ none
      | true ↦ elim ((load_dinode block (dinode_at inum)).type == 0) [
        | true ↦ iget dev inum (record c {
          blocks = update c.blocks n (store_dinode block (dinode_at inum) (new_dinode type));
        })
        | false ↦ ialloc_from r sb dev type (inum + 1) c
      ]
    ]

-- `ialloc`; each round goes to the next inode.
abbrev pub ialloc : Superblock → ℕ → ℕ → Icache → Option (ℕ × Icache)
ialloc sb dev type c = ialloc_from sb.ninodes sb dev type 1 c
