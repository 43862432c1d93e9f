-- ===== src/Fs/Namex.antt =====
-- Path look-up: `namex`, `namei` and `nameiparent` of fs.c. `cwd` is the directory of the process, `name` the
-- address of the name, and `de` that of the local entry in `dirlookup`. `none` is a panic or a wait.
use cs537_project.Prelude.{
  ℕ, zero, suc, ◌+◌, List, [], ◌∷◌, Bool, true, false, ◌&&◌, Option, none, some, ◌==◌,
  if◌then◌else◌, length,
}
use cs537_project.Fs.{Superblock}
use cs537_project.Fs.Inode.{Devsw, t_dir}
use cs537_project.Fs.Icache.{Icache, iget, idup, ilock, iunlock, iput, iunlockput}
use cs537_project.Fs.Path.{slash, skipelem}
use cs537_project.Fs.Dir.{dirlookup}

-- The inode, if there is one, with the cache and the memory.
abbrev pub Walk : Type 0
Walk = Option (Option ℕ × (Icache × (ℕ → ℕ)))

-- `iunlockput(ip)`, and the look-up ends with `found` or without an inode.
abbrev pub leave : ℕ → Superblock → ℕ → Icache → (ℕ → ℕ) → Walk
leave pid sb ip c mem = elim (iunlockput pid sb ip c) [
  | none ↦ none
  | some c' ↦ some (none, (c', mem))
]

-- The test for an empty rest of the path.
abbrev pub at_end : List ℕ → Bool
at_end [] = true
at_end (c ∷ path) = false

module _ (pid : ℕ) (devsw : Devsw) (sb : Superblock) (nameiparent : Bool) (name de : ℕ) where
  -- The loop of `namex`, with the rounds bounded by the first argument; each takes an element of the path.
  unfoldable pub walk_from : ℕ → ℕ → List ℕ → Icache → (ℕ → ℕ) → Walk
  walk_from zero ip path c mem = none
  walk_from (suc r) ip path c mem = elim (skipelem path mem name) [
    | none ↦
        if nameiparent
        then (elim (iput pid sb ip c) [ none ↦ none | some c' ↦ some (none, (c', mem)) ])
        else some (some ip, (c, mem))
    | some (rest, mem') ↦ elim (ilock pid sb ip c) [
      | none ↦ none
      | some c1 ↦ elim ((c1.inode ip).copy.type == t_dir) [
        | false ↦ leave pid sb ip c1 mem'
        | true ↦ elim (nameiparent && at_end rest) [
          | true ↦ elim (iunlock pid ip c1) [ none ↦ none | some c2 ↦ some (some ip, (c2, mem')) ]
          | false ↦ elim (dirlookup devsw sb ip name de c1 mem') [
            | none ↦ none
            | some (none, (c2, mem'')) ↦ leave pid sb ip c2 mem''
            | some (some (next, off), (c2, mem'')) ↦ elim (iunlockput pid sb ip c2) [
              | none ↦ none
              | some c3 ↦ walk_from r next rest c3 mem''
            ]
          ]
        ]
      ]
    ]
  ]

-- `*path == '/'`
abbrev pub is_absolute : List ℕ → Bool
is_absolute [] = false
is_absolute (c ∷ path) = c == slash

-- ROOTDEV and ROOTINO are 1.
unfoldable pub namex : ℕ → Devsw → Superblock → ℕ → List ℕ → Bool → ℕ → ℕ → Icache → (ℕ → ℕ) → Walk
namex pid devsw sb cwd path nameiparent name de c mem =
    if is_absolute path
    then (elim (iget 1 1 c) [
      | none ↦ none
      | some (root, c') ↦
          walk_from pid devsw sb nameiparent name de (length path + 1) root path c' mem
    ])
    else walk_from pid devsw sb nameiparent name de (length path + 1) cwd path (idup cwd c) mem

abbrev pub namei : ℕ → Devsw → Superblock → ℕ → List ℕ → ℕ → ℕ → Icache → (ℕ → ℕ) → Walk
namei pid devsw sb cwd path name de c mem = namex pid devsw sb cwd path false name de c mem

abbrev pub nameiparent : ℕ → Devsw → Superblock → ℕ → List ℕ → ℕ → ℕ → Icache → (ℕ → ℕ) → Walk
nameiparent pid devsw sb cwd path name de c mem = namex pid devsw sb cwd path true name de c mem
