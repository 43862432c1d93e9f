-- ===== src/Fs/Path.antt =====
-- Path names: `skipelem` of fs.c. A path is the list of its bytes before the NUL, and what is left of it is
-- the rest of that list; `name` is the address of DIRSIZ bytes of the caller.
pub mod Split
pub mod Name
pub mod Elements
use cs537_project.Prelude.{
  ℕ, zero, suc, ◌+◌, List, [], ◌∷◌, Bool, true, false, Option, none, some, leb, ◌==◌, if◌then◌else◌,
  update,
}

abbrev pub dirsiz : ℕ
dirsiz = 14

abbrev pub slash : ℕ
slash = 47

-- `while(*path == '/') path++;`
unfoldable pub skip_slashes : List ℕ → List ℕ
skip_slashes [] = []
skip_slashes (c ∷ path) = let rest = skip_slashes path in if c == slash then rest else c ∷ path

-- `while(*path != '/' && *path != 0) path++;` and `len = path - s`.
unfoldable pub scan_elem : List ℕ → ℕ × List ℕ
scan_elem [] = (0, [])
scan_elem (c ∷ path) =
    let (len, rest) = scan_elem path in if c == slash then (0, c ∷ path) else (suc len, rest)

-- `memmove(name, s, n)`, byte by byte: the path lies elsewhere.
unfoldable pub put_name : ℕ → (ℕ → ℕ) → ℕ → List ℕ → ℕ → ℕ
put_name zero name i s = name
put_name (suc n) name i [] = name
put_name (suc n) name i (c ∷ s) = put_name n (update name i c) (i + 1) s

abbrev pub copy_elem : (ℕ → ℕ) → ℕ → List ℕ → ℕ → ℕ → ℕ
copy_elem mem name s len =
    if leb dirsiz len
    then put_name dirsiz mem name s
    else update (put_name len mem name s) (name + len) 0

-- `skipelem`; `none` is the null pointer.
unfoldable pub skipelem : List ℕ → (ℕ → ℕ) → ℕ → Option (List ℕ × (ℕ → ℕ))
skipelem path mem name = elim (skip_slashes path) [
  | [] ↦ none
  | c ∷ s ↦
      let (len, rest) = scan_elem (c ∷ s) in
      some (skip_slashes rest, copy_elem mem name (c ∷ s) len)
]
