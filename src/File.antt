-- ===== src/File.antt =====
-- Open files: xv6-public/file.c with file.h. A file is its index in `ftable.file`, an inode its index in the
-- inode cache, and a pipe a number. `none` is a panic, or the waiting for a lock. The transaction around a
-- change of the disk is left out: the blocks are those that `bread` returns within it. So is the page of a pipe
-- with both ends closed.
pub mod Table
pub mod History
mod Tests
use cs537_project.Prelude.{
  ℕ, zero, suc, ◌+◌, ◌-◌, Bool, true, false, not, ◌&&◌, Option, none, some, ◌==◌, ltb, is_neg,
  if◌then◌else◌, add32, sub32, le_zero, failed, update,
}
use cs537_project.Pipe.{Pipe, close}
use cs537_project.Fs.{Superblock}
use cs537_project.Fs.Inode.{Inode, Io, Devsw, Stat, stati, readi, writei}
use cs537_project.Fs.Icache.{Icache, set_inode, ilock, iunlock, iput}

pub data FileType : Type 0 where
  fd_none : FileType
  fd_pipe : FileType
  fd_inode : FileType

-- `struct file`
pub record File : Type 0 where
  pub type : FileType
  pub ref : ℕ
  pub readable : Bool
  pub writable : Bool
  pub pipe : ℕ
  pub ip : ℕ
  pub off : ℕ

abbrev pub nfile : ℕ
nfile = 100

-- The loop of `filealloc` from file `i` on; `none` is the null pointer.
unfoldable pub filealloc_from : ℕ → (ℕ → File) → ℕ → Option (ℕ × (ℕ → File))
filealloc_from zero file i = none
filealloc_from (suc r) file i =
    let rest = filealloc_from r file (i + 1) in
    if (file i).ref == 0 then some (i, update file i (record (file i) { ref = 1 })) else rest

abbrev pub filealloc : (ℕ → File) → Option (ℕ × (ℕ → File))
filealloc file = filealloc_from nfile file 0

unfoldable pub filedup : ℕ → (ℕ → File) → Option (ℕ → File)
filedup i file =
    if le_zero (file i).ref
    then none
    else some (update file i (record (file i) { ref = add32 (file i).ref 1 }))

-- `fileclose` with the lock of the table: the file `ff` that is left to close, if this was the last reference.
unfoldable pub drop_ref : ℕ → (ℕ → File) → Option (Option File × (ℕ → File))
drop_ref i file =
    let ref = sub32 (file i).ref 1 in
    if le_zero (file i).ref
    then none
    else if le_zero ref
    then some (
      some (record (file i) { ref = ref }),
      update file i (record (file i) { ref = 0; type = fd_none }),
    )
    else some (none, update file i (record (file i) { ref = ref }))

-- What `fileclose` changes.
pub record Kernel : Type 0 where
  pub file : ℕ → File
  pub pipes : ℕ → Pipe
  pub icache : Icache

-- The rest of `fileclose`, for the file that is left to close.
unfoldable pub close_last : ℕ → Superblock → File → Kernel → Option Kernel
close_last pid sb ff k = elim ff.type [
  | fd_none ↦ some k
  | fd_pipe ↦
      some (record k { pipes = update k.pipes ff.pipe (close (k.pipes ff.pipe) ff.writable).0 })
  | fd_inode ↦ elim (iput pid sb ff.ip k.icache) [
    | none ↦ none
    | some c ↦ some (record k { icache = c })
  ]
]

unfoldable pub fileclose : ℕ → Superblock → ℕ → Kernel → Option Kernel
fileclose pid sb i k = elim (drop_ref i k.file) [
  | none ↦ none
  | some (none, file) ↦ some (record k { file = file })
  | some (some ff, file) ↦ close_last pid sb ff (record k { file = file })
]

-- `filestat`: what it returns, the `stat` that it fills in, and the inode cache.
unfoldable pub filestat : ℕ → Superblock → File → Icache → Option (ℕ × (Option Stat × Icache))
filestat pid sb f c = elim f.type [
  | fd_none ↦ some (failed, (none, c))
  | fd_pipe ↦ some (failed, (none, c))
  | fd_inode ↦ elim (ilock pid sb f.ip c) [
    | none ↦ none
    | some c' ↦ elim (iunlock pid f.ip c') [
      | none ↦ none
      | some c'' ↦ some (0, (some (stati (c'.inode f.ip)), c''))
    ]
  ]
]

-- The files, the inode cache and the memory, in `fileread` and `filewrite` of an inode.
pub record Access : Type 0 where
  pub file : ℕ → File
  pub icache : Icache
  pub mem : ℕ → ℕ

abbrev pub advance : (ℕ → File) → ℕ → ℕ → ℕ → File
advance file i r =
    if le_zero r then file else update file i (record (file i) { off = add32 (file i).off r })

-- `readi` or `writei` with the inode locked, and the offset after it.
unfoldable pub locked_io :
    ℕ → Superblock → (Io → ℕ → Option (ℕ × Io)) → ℕ → Access → Option (ℕ × Access)
locked_io pid sb io i a =
    let ip = (a.file i).ip in
    elim (ilock pid sb ip a.icache) [
      | none ↦ none
      | some c ↦
          elim (io (record { ip = c.inode ip; blocks = c.blocks; mem = a.mem }) (a.file i).off) [
            | none ↦ none
            | some (r, s) ↦
                elim (iunlock pid ip
                  (record { inode = update c.inode ip s.ip; blocks = s.blocks })) [
                    | none ↦ none
                    | some c' ↦
                        some (r, record { file = advance a.file i r; icache = c'; mem = s.mem })
                  ]
          ]
    ]

-- `fileread` of an inode.
abbrev pub read_inode : ℕ → Devsw → Superblock → ℕ → Access → ℕ → ℕ → Option (ℕ × Access)
read_inode pid devsw sb i a addr n = locked_io pid sb (λ s off. readi devsw sb s addr off n) i a

-- `((MAXOPBLOCKS-1-1-2) / 2) * 512`
abbrev pub max_write : ℕ
max_write = 1536

-- The loop of `filewrite` with `i` bytes written, with the rounds bounded by the first argument: `i` at its end.
unfoldable pub write_inode_from :
    ℕ → ℕ → Devsw → Superblock → ℕ → Access → ℕ → ℕ → ℕ → Option (ℕ × Access)
write_inode_from zero pid devsw sb f a addr n i = none
write_inode_from (suc r) pid devsw sb f a addr n i = elim (ltb i n) [
  | false ↦ some (i, a)
  | true ↦
      let n1 = if ltb max_write (n - i) then max_write else n - i in
      elim (locked_io pid sb (λ s off. writei devsw sb s (addr + i) off n1) f a) [
        | none ↦ none
        | some (w, a') ↦ elim (is_neg w) [
          | true ↦ some (i, a')
          | false ↦ elim (w == n1) [
            | false ↦ none
            | true ↦ write_inode_from r pid devsw sb f a' addr n (i + w)
          ]
        ]
      ]
]

-- `filewrite` of an inode, for a count that is not negative. Each round writes at least a byte.
unfoldable pub write_inode : ℕ → Devsw → Superblock → ℕ → Access → ℕ → ℕ → Option (ℕ × Access)
write_inode pid devsw sb f a addr n = elim (write_inode_from (n + 1) pid devsw sb f a addr n 0) [
  | none ↦ none
  | some (i, a') ↦ some (if i == n then n else failed, a')
]
