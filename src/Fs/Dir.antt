-- ===== src/Fs/Dir.antt =====
-- Directories: `dirlookup` and `dirlink` of fs.c. `de` is the address of the local directory entry and `name`
-- that of the name. `none` is a panic, or the waiting for a lock.
pub mod Compare
pub mod Lookup
use cs537_project.Prelude.{
  ℕ, zero, suc, ◌+◌, ◌/◌, ◌%◌, Bool, true, false, not, ◌&&◌, Option, none, some, ◌==◌, ltb,
  if◌then◌else◌, failed, update,
}
use cs537_project.Strings.{strncmp, strncpy}
use cs537_project.Fs.{Superblock}
use cs537_project.Fs.Inode.{Inode, Io, Devsw, t_dir, load16, store16, readi, writei}
use cs537_project.Fs.Icache.{Icache, iget, iput}
use cs537_project.Fs.Path.{dirsiz}

-- `sizeof(struct dirent)`, `inum` first and then `name`.
abbrev pub dirent_size : ℕ
dirent_size = 16

abbrev pub namecmp : (ℕ → ℕ) → ℕ → ℕ → ℕ
namecmp mem s t = strncmp mem s t dirsiz

-- The loop of `dirlookup` from offset `off` on, with the rounds bounded by the first argument: the offset
-- and the inode number of the entry.
unfoldable pub dirlookup_from :
    ℕ → Devsw → Superblock → Io → ℕ → ℕ → ℕ → Option (Option (ℕ × ℕ) × Io)
dirlookup_from zero devsw sb s name de off = none
dirlookup_from (suc r) devsw sb s name de off = elim (ltb off s.ip.copy.size) [
  | false ↦ some (none, s)
  | true ↦ elim (readi devsw sb s de off dirent_size) [
    | none ↦ none
    | some (n, s') ↦ elim (n == dirent_size) [
      | false ↦ none
      | true ↦ elim (not (load16 s'.mem de == 0) && (namecmp s'.mem name (de + 2) == 0)) [
        | true ↦ some (some (off, load16 s'.mem de), s')
        | false ↦ dirlookup_from r devsw sb s' name de (off + dirent_size)
      ]
    ]
  ]
]

-- The directory is the inode `dp` of the cache.
abbrev pub dir_io : Icache → ℕ → (ℕ → ℕ) → Io
dir_io c dp mem = record { ip = c.inode dp; blocks = c.blocks; mem = mem }

abbrev pub put_io : Icache → ℕ → Io → Icache
put_io c dp s = record { inode = update c.inode dp s.ip; blocks = s.blocks }

-- `dirlookup`: the inode and the offset of its entry, if there is one, and the cache and the memory.
unfoldable pub dirlookup :
    Devsw → Superblock → ℕ → ℕ → ℕ → Icache → (ℕ → ℕ) → Option (Option (ℕ × ℕ) × (Icache × (ℕ → ℕ)))
dirlookup devsw sb dp name de c mem =
    if not ((c.inode dp).copy.type == t_dir)
    then none
    else (elim (dirlookup_from ((c.inode dp).copy.size / dirent_size + 2) devsw sb (dir_io c dp mem)
        name de 0) [
          | none ↦ none
          | some (none, s) ↦ some (none, (put_io c dp s, s.mem))
          | some (some (off, inum), s) ↦ elim (iget s.ip.dev inum (put_io c dp s)) [
            | none ↦ none
            | some (ip, c') ↦ some (some (ip, off), (c', s.mem))
          ]
        ])

-- The loop of `dirlink`: the offset of the first empty entry, or the end of the directory.
unfoldable pub find_empty : ℕ → Devsw → Superblock → Io → ℕ → ℕ → Option (ℕ × Io)
find_empty zero devsw sb s de off = none
find_empty (suc r) devsw sb s de off = elim (ltb off s.ip.copy.size) [
  | false ↦ some (off, s)
  | true ↦ elim (readi devsw sb s de off dirent_size) [
    | none ↦ none
    | some (n, s') ↦ elim (n == dirent_size) [
      | false ↦ none
      | true ↦ elim (load16 s'.mem de == 0) [
        | true ↦ some (off, s')
        | false ↦ find_empty r devsw sb s' de (off + dirent_size)
      ]
    ]
  ]
]

-- The end of `dirlink`: the entry is set and written.
unfoldable pub write_entry : Devsw → Superblock → Io → ℕ → ℕ → ℕ → ℕ → Option Io
write_entry devsw sb s name de inum off =
    let mem = store16 (strncpy s.mem (de + 2) name dirsiz) de inum in
    elim (writei devsw sb (record s { mem = mem }) de off dirent_size) [
      | none ↦ none
      | some (n, s') ↦ if n == dirent_size then some s' else none
    ]

unfoldable pub dirlink :
    ℕ → Devsw → Superblock → ℕ → ℕ → ℕ → ℕ → Icache → (ℕ → ℕ) → Option (ℕ × (Icache × (ℕ → ℕ)))
dirlink pid devsw sb dp name de inum c mem = elim (dirlookup devsw sb dp name de c mem) [
  | none ↦ none
  | some (some (ip, off), (c', mem')) ↦ elim (iput pid sb ip c') [
    | none ↦ none
    | some c'' ↦ some (failed, (c'', mem'))
  ]
  | some (none, (c', mem')) ↦
      elim (find_empty ((c'.inode dp).copy.size / dirent_size + 2) devsw sb (dir_io c' dp mem') de
        0) [
          | none ↦ none
          | some (off, s) ↦ elim (write_entry devsw sb s name de inum off) [
            | none ↦ none
            | some s' ↦ some (0, (put_io c' dp s', s'.mem))
          ]
        ]
]
