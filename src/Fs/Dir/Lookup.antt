-- ===== src/Fs/Dir/Lookup.antt =====
-- `dirlookup` against the entries in the bytes of the directory.
use mathlib.Core.Path.{subst}
use cs537_project.Prelude.{
  ℕ, zero, suc, ◌+◌, ◌*◌, ◌/◌, ◌%◌, ◌^◌, ◌≤◌, ◌<◌, ◌≡◌, ◌≢◌, ◌⊎◌, inl, inr, refl, ap, sym, ◌∙◌,
  Bool, true, false, not, ◌&&◌, Option, none, some, ◌==◌, ltb, arith, Bool-cases,
}
use cs537_project.Strings.{strncmp}
use cs537_project.Fs.{Blocks, Superblock, bsize}
use cs537_project.Fs.Bitmap.{AreBytes}
use cs537_project.Fs.Inode.{Inode, Io, Devsw, t_dir, t_dev, load16, readi}
use cs537_project.Fs.Inode.Content.{HasBlock, block_of, byte_at, ReadIo, readable, readi_lem}
use cs537_project.Fs.Path.{dirsiz}
use cs537_project.Fs.Dir.{dirent_size, dirlookup_from}
use cs537_project.Fs.Dir.Compare.{same_name, strncmp-same_name}

-- The number of the inode of the entry at an offset of the directory, and the bytes of its name.
abbrev pub entry_inum : Blocks → Inode → ℕ → ℕ
entry_inum v ip off = byte_at v ip off + 256 * byte_at v ip (off + 1)

abbrev pub is_entry : Blocks → Inode → (ℕ → ℕ) → ℕ → Bool
is_entry v ip name off =
    not (entry_inum v ip off == 0) && same_name dirsiz name (λ j. byte_at v ip (off + 2 + j))

-- A directory that can be read: whole entries, each byte in a block of the disk.
pub record IsDirectory (v : Blocks) (ip : Inode) : Type 0 where
  pub type : ip.copy.type ≡ t_dir
  pub entries : ip.copy.size % dirent_size ≡ 0
  pub small : ip.copy.size < 2 ^ 31
  pub blocks : (i : ℕ) → i < ip.copy.size → HasBlock v ip (i / bsize)
  pub bytes : AreBytes v

-- The memory has the name at `at`, which the local entry at `de` does not overlap.
pub record HasName (mem : ℕ → ℕ) (at de : ℕ) (name : ℕ → ℕ) : Type 0 where
  pub bytes : (j : ℕ) → j < dirsiz → (mem (at + j) ≡ name j) × (name j < 256)
  pub apart : (at + dirsiz ≤ de) ⊎ (de + dirent_size ≤ at)

-- What the look-up from `off` on finds: the first entry with the name, or none.
abbrev pub LookupResult : Blocks → Inode → (ℕ → ℕ) → ℕ → Option (Option (ℕ × ℕ) × Io) → Type 0
LookupResult v ip name off none = ⊥
LookupResult v ip name off (some (none, s')) =
    (s'.ip ≡ ip)
    × (s'.blocks ≡ v)
    × ((k : ℕ)
        → off + k * dirent_size < ip.copy.size
        → is_entry v ip name (off + k * dirent_size) ≡ false)
LookupResult v ip name off (some (some (at, inum), s')) =
    (s'.ip ≡ ip)
    × (s'.blocks ≡ v)
    × (inum ≡ entry_inum v ip at)
    × ((n : ℕ) × ((at ≡ off + n * dirent_size)
          × (at < ip.copy.size)
          × (is_entry v ip name at ≡ true)
          × ((k : ℕ) → k < n → is_entry v ip name (off + k * dirent_size) ≡ false)))

LookupResult-cons :
    (v : Blocks) (ip : Inode) (name : ℕ → ℕ) (off : ℕ) (o : Option (Option (ℕ × ℕ) × Io))
    → is_entry v ip name off ≡ false
    → LookupResult v ip name (off + dirent_size) o
    → LookupResult v ip name off o
LookupResult-cons v ip name off none here rest = rest
LookupResult-cons v ip name off (some (none, s')) here (same_ip, same_blocks, absent) =
    (same_ip, same_blocks, later)
  where
    later :
        (k : ℕ)
        → off + k * dirent_size < ip.copy.size
        → is_entry v ip name (off + k * dirent_size) ≡ false
    later zero h = ap (is_entry v ip name) (omega arith) ∙ here
    later (suc k) h = ap (is_entry v ip name) (omega arith) ∙ absent k (omega arith)
LookupResult-cons v ip name off (some (some (at, inum), s')) here
      (same_ip, same_blocks, number, (n, (place, inside, found, before))) =
    (same_ip, same_blocks, number, (suc n, (omega arith, inside, found, earlier)))
  where
    earlier : (k : ℕ) → k < suc n → is_entry v ip name (off + k * dirent_size) ≡ false
    earlier zero h = ap (is_entry v ip name) (omega arith) ∙ here
    earlier (suc k) h = ap (is_entry v ip name) (omega arith) ∙ before k (omega arith)

-- What one call of `readi` in the loop leaves.
record EntryRead (s : Io) (at de : ℕ) (name : ℕ → ℕ) (off : ℕ) (s' : Io) : Type 0 where
  ip_kept : s'.ip ≡ s.ip
  blocks_kept : s'.blocks ≡ s.blocks
  named : HasName s'.mem at de name
  number : load16 s'.mem de ≡ entry_inum s.blocks s.ip off
  compared :
      (strncmp s'.mem at (de + 2) dirsiz == 0)
      ≡ same_name dirsiz name (λ j. byte_at s.blocks s.ip (off + 2 + j))

ReadIo-EntryRead :
    (s s' : Io) (at de : ℕ) (name : ℕ → ℕ) (off : ℕ)
    → AreBytes s.blocks
    → HasName s.mem at de name
    → ReadIo s de off dirent_size s'
    → EntryRead s at de name off s'
ReadIo-EntryRead s s' at de name off bytes has read = record {
  ip_kept = read.ip_kept;
  blocks_kept = read.blocks_kept;
  named = named;
  number = rw (low, high) refl;
  compared =
      strncmp-same_name dirsiz s'.mem at (de + 2) name (λ j. byte_at s.blocks s.ip (off + 2 + j))
        (λ j h. ((named.bytes j h).0, (let small = (named.bytes j h).1 in omega (arith, small))))
        (λ j h. (
          ap s'.mem (omega arith)
              ∙ read.new (2 + j) (omega arith)
              ∙ ap (byte_at s.blocks s.ip) (omega arith),
          (let small = byte_small (off + 2 + j) in omega (arith, small)),
        ));
}
  where
    byte_small : (i : ℕ) → byte_at s.blocks s.ip i < 256
    byte_small i = bytes (block_of s.blocks s.ip (i / bsize)) (i % bsize)

    named : HasName s'.mem at de name
    named = record {
      bytes = λ j h.
          (read.old (at + j) (omega (arith, has.apart, h)) ∙ (has.bytes j h).0, (has.bytes j h).1);
      apart = has.apart;
    }

    low : s'.mem de ≡ byte_at s.blocks s.ip off
    low =
        ap s'.mem (omega arith)
        ∙ read.new 0 (omega arith)
        ∙ ap (byte_at s.blocks s.ip) (omega arith)

    high : s'.mem (de + 1) ≡ byte_at s.blocks s.ip (off + 1)
    high = read.new 1 (omega arith)

read_entry :
    (devsw : Devsw) (sb : Superblock) (s : Io) (at de : ℕ) (name : ℕ → ℕ) (off : ℕ)
    → IsDirectory s.blocks s.ip
    → HasName s.mem at de name
    → off % dirent_size ≡ 0
    → off < s.ip.copy.size
    → (s' : Io) × ((readi devsw sb s de off dirent_size ≡ some (dirent_size, s'))
        × EntryRead s at de name off s')
read_entry devsw sb s at de name off dir has aligned inside =
    let size = dir.entries in
    let small = dir.small in
    let all : readable s off dirent_size ≡ dirent_size = ground arith in
    let file : s.ip.copy.type ≢ t_dev = (let t = dir.type in ground arith) in
    let (s', (done, read)) =
      readi_lem devsw sb s de off dirent_size file (omega arith) (omega arith) dir.blocks in
    (
      s',
      (
        done ∙ ap (λ (n : ℕ). some (n, s')) all,
        ReadIo-EntryRead s s' at de name off dir.bytes has
            (subst (λ (n : ℕ). ReadIo s de off n s') all read),
      ),
    )

-- One round of the loop, at an entry with the name and at another.
dirlookup_found :
    (r : ℕ) (devsw : Devsw) (sb : Superblock) (s s' : Io) (at de : ℕ) (name : ℕ → ℕ) (off : ℕ)
    → ltb off s.ip.copy.size ≡ true
    → readi devsw sb s de off dirent_size ≡ some (dirent_size, s')
    → EntryRead s at de name off s'
    → is_entry s.blocks s.ip name off ≡ true
    → LookupResult s.blocks s.ip name off (dirlookup_from (suc r) devsw sb s at de off)
unfolding dirlookup_from
dirlookup_found r devsw sb s s' at de name off inside done read found =
    let test : (not (load16 s'.mem de == 0) && (strncmp s'.mem at (de + 2) dirsiz == 0)) ≡ true =
      rw (read.number, read.compared) found in
    rw (dirlookup_from, inside, done, test)
      (
        read.ip_kept,
        read.blocks_kept,
        read.number,
        (0, (omega arith, ground arith, found, λ k h. absurd (omega arith))),
      )

dirlookup_next :
    (r : ℕ) (devsw : Devsw) (sb : Superblock) (s s' : Io) (at de : ℕ) (name : ℕ → ℕ) (off : ℕ)
    → ltb off s.ip.copy.size ≡ true
    → readi devsw sb s de off dirent_size ≡ some (dirent_size, s')
    → EntryRead s at de name off s'
    → is_entry s.blocks s.ip name off ≡ false
    → dirlookup_from (suc r) devsw sb s at de off
      ≡ dirlookup_from r devsw sb s' at de (off + dirent_size)
unfolding dirlookup_from
dirlookup_next r devsw sb s s' at de name off inside done read other =
    let test : (not (load16 s'.mem de == 0) && (strncmp s'.mem at (de + 2) dirsiz == 0)) ≡ false =
      rw (read.number, read.compared) other in
    rw (dirlookup_from, inside, done, test) refl

-- The loop of `dirlookup` in a directory that can be read, from an entry on, with the rounds for the entries
-- that follow: it does not panic, the inode and the blocks stay as they are, and it finds the first entry
-- that is in use and has the name, with the number of its inode, or nothing if there is none.
pub dirlookup_from_lem :
    (r : ℕ) (devsw : Devsw) (sb : Superblock) (s : Io) (at de : ℕ) (name : ℕ → ℕ) (off : ℕ)
    → IsDirectory s.blocks s.ip
    → HasName s.mem at de name
    → off % dirent_size ≡ 0
    → off ≤ s.ip.copy.size
    → s.ip.copy.size < off + r * dirent_size
    → LookupResult s.blocks s.ip name off (dirlookup_from r devsw sb s at de off)
unfolding dirlookup_from
dirlookup_from_lem zero devsw sb s at de name off dir has aligned low enough = absurd (omega arith)
dirlookup_from_lem (suc r) devsw sb s at de name off dir has aligned low enough =
    elim (Bool-cases (ltb off s.ip.copy.size)) [
      | inr ended ↦ rw (dirlookup_from, ended) (refl, refl, λ k h. absurd (ground arith))
      | inl inside ↦
          let (s', (done, read)) =
            read_entry devsw sb s at de name off dir has aligned (ground arith) in
          elim (Bool-cases (is_entry s.blocks s.ip name off)) [
            | inl found ↦ dirlookup_found r devsw sb s s' at de name off inside done read found
            | inr other ↦
                let rest = dirlookup_from r devsw sb s' at de (off + dirent_size) in
                let size : s'.ip.copy.size ≡ s.ip.copy.size =
                  ap (λ (x : Inode). x.copy.size) read.ip_kept in
                let entries = dir.entries in
                let dir' : IsDirectory s'.blocks s'.ip =
                  subst (λ (x : Blocks). IsDirectory x s'.ip) (sym read.blocks_kept)
                    (subst (λ (x : Inode). IsDirectory s.blocks x) (sym read.ip_kept) dir) in
                let later : LookupResult s'.blocks s'.ip name (off + dirent_size) rest =
                  dirlookup_from_lem r devsw sb s' at de name (off + dirent_size) dir' read.named
                    (omega arith) (rw size (ground arith)) (rw size (omega arith)) in
                subst (LookupResult s.blocks s.ip name off)
                  (sym (dirlookup_next r devsw sb s s' at de name off inside done read other))
                  (LookupResult-cons s.blocks s.ip name off rest other (
                    subst (λ (x : Blocks). LookupResult x s.ip name (off + dirent_size) rest)
                      read.blocks_kept
                      (subst (λ (x : Inode). LookupResult s'.blocks x name (off + dirent_size) rest)
                        read.ip_kept later)))
          ]
    ]
