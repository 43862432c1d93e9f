-- ===== src/Fs/Tests.antt =====
-- The theorems on the file system at concrete inputs.
use cs537_project.Prelude.{
  ℕ, ◌+◌, ◌/◌, ◌<◌, ◌≡◌, inl, refl, List, [], ◌∷◌, map, true, false, none, some, ◌==◌,
  if◌then◌else◌, arith, take, update,
}
use cs537_project.Bio.{Sleeplock}
use cs537_project.Fs.{
  Blocks, Superblock, bsize, has_bit, set_bit, find_bit, bzero, balloc_from, balloc, bfree,
}
use cs537_project.Fs.Bitmap.{is_used, AreBytes, BallocResult, balloc_lem, balloc-bfree}
use cs537_project.Fs.Inode.{Inode, Io, Devsw, t_dir, readi}
use cs537_project.Fs.Inode.Content.{HasBlock, ReadIo, readi_lem}
use cs537_project.Fs.Icache.{Icache, set_inode, find_inode, iget, idup}
use cs537_project.Fs.Icache.Count.{World}
use cs537_project.Fs.Icache.History.{Reach, start, later, get, iget-idup}
use cs537_project.Fs.Path.{dirsiz}
use cs537_project.Fs.Path.Split.{split, NoNul}
use cs537_project.Fs.Path.Elements.{names, names-split}
use cs537_project.Fs.Dir.{dirlookup_from}
use cs537_project.Fs.Dir.Lookup.{IsDirectory, HasName, LookupResult, dirlookup_from_lem}

abbrev small_disk : Superblock
small_disk = record {
  size = 100;
  nblocks = 90;
  ninodes = 16;
  nlog = 0;
  logstart = 2;
  inodestart = 2;
  bmapstart = 5;
}

-- The first eight blocks are used.
abbrev used_blocks : Blocks
used_blocks = λ n o. if n == 5 then (if o == 0 then 255 else 0) else 0

used_blocks-AreBytes : AreBytes used_blocks
used_blocks-AreBytes n o = ground arith

balloc_example : BallocResult small_disk used_blocks (balloc small_disk used_blocks)
balloc_example = balloc_lem small_disk used_blocks used_blocks-AreBytes

abbrev after_balloc : Blocks
after_balloc = bzero (update used_blocks 5 (set_bit (used_blocks 5) 8)) 8

takes_8 : balloc small_disk used_blocks ≡ some (8, after_balloc)
unfolding balloc balloc_from find_bit has_bit
takes_8 = refl

balloc-bfree_example :
    (v'' : Blocks) × ((bfree small_disk after_balloc 8 ≡ some v'')
      × ((c : ℕ) → c < 100 → is_used small_disk v'' c ≡ is_used small_disk used_blocks c))
balloc-bfree_example =
    balloc-bfree small_disk used_blocks 8 after_balloc used_blocks-AreBytes takes_8
      (λ c h e. omega (arith, h, e))

-- A file and a directory, whose contents are block 9.
abbrev unlocked : Sleeplock
unlocked = record { locked = false; pid = 0 }

abbrev some_file : ℕ → ℕ → Inode
some_file type size = record {
  dev = 1;
  inum = 4;
  ref = 1;
  lock = unlocked;
  valid = true;
  copy = record { type = type; major = 0; minor = 0; nlink = 1; size = size; addrs = λ i. 9 };
}

some_file-HasBlock :
    (v : Blocks) (type size i : ℕ) → i < 512 → HasBlock v (some_file type size) (i / bsize)
some_file-HasBlock v type size i h =
    let first : i / bsize ≡ 0 = omega (arith, h) in
    rw first (record {
      small = omega arith;
      there = λ e. omega (arith, e);
      indirect = λ l. absurd (omega (arith, l));
    })

abbrev no_devices : Devsw
no_devices = λ n. none

abbrev hello : Blocks
hello = λ n o. if n == 9 then 104 + o else 0

abbrev file_io : Io
file_io = record { ip = some_file 2 5; blocks = hello; mem = λ a. 0 }

-- Ten bytes from offset 2 on, of a file of five.
readi_example :
    (s' : Io) × ((readi no_devices small_disk file_io 1000 2 10 ≡ some (3, s'))
      × ReadIo file_io 1000 2 3 s')
readi_example =
    readi_lem no_devices small_disk file_io 1000 2 10 (λ e. omega (arith, e)) (omega arith)
      (omega arith) (λ i h. some_file-HasBlock hello 2 5 i (omega (arith, h)))

-- A cache with one inode in use.
abbrev empty_world : World
empty_world = record {
  icache = record {
    inode = λ i. record (some_file 0 0) { ref = 0; valid = false };
    blocks = hello;
  };
  held = λ i. 0;
}

abbrev one_inode : Icache
one_inode =
    set_inode empty_world.icache 0
      (record (empty_world.icache.inode 0) { dev = 1; inum = 7; ref = 1; valid = false })

abbrev one_held : World
one_held = record { icache = one_inode; held = update empty_world.held 0 1 }

gets_0 : iget 1 7 empty_world.icache ≡ some (0, one_inode)
unfolding iget find_inode
gets_0 = refl

reaches_one_held : Reach small_disk empty_world one_held
reaches_one_held = later start (get 1 7 0 one_inode gets_0 (omega arith))

iget-idup_example :
    ((one_inode.inode 0).ref ≡ 1) × (0 < 1 → iget 1 7 one_inode ≡ some (0, idup 0 one_inode))
iget-idup_example = iget-idup (λ i. refl) (λ i. refl) reaches_one_held 0 (omega arith)

-- "/a//bc"
abbrev some_path : List ℕ
some_path = 47 ∷ 97 ∷ 47 ∷ 47 ∷ 98 ∷ 99 ∷ []

some_path-NoNul : NoNul some_path
some_path-NoNul = (
  λ e. omega (arith, e),
  (
    λ e. omega (arith, e),
    (
      λ e. omega (arith, e),
      (λ e. omega (arith, e), (λ e. omega (arith, e), (λ e. omega (arith, e), tt))),
    ),
  ),
)

names-split_example : names 7 some_path (λ j. 0) 100 ≡ map (take dirsiz) (split some_path)
names-split_example = names-split 7 some_path (λ j. 0) 100 some_path-NoNul (omega arith)

-- The entries "." and "a".
abbrev entries : Blocks
entries = λ n o.
    if n == 9
    then (if o == 0
        then 4
        else if o == 2
        then 46
        else if o == 16
        then 5
        else if o == 18
        then 97
        else 0)
    else 0

abbrev dir_with_a : Io
dir_with_a = record {
  ip = some_file t_dir 32;
  blocks = entries;
  mem = λ a. if a == 100 then 97 else 0;
}

dir_with_a-IsDirectory : IsDirectory entries (some_file t_dir 32)
dir_with_a-IsDirectory = record {
  type = refl;
  entries = refl;
  small = omega arith;
  blocks = λ i h. some_file-HasBlock entries t_dir 32 i (omega (arith, h));
  bytes = λ n o. ground arith;
}

named_a : HasName dir_with_a.mem 100 200 (λ j. dir_with_a.mem (100 + j))
named_a = record { bytes = λ j h. (refl, ground arith); apart = inl (omega arith) }

dirlookup_from_example :
    LookupResult entries
      (some_file t_dir 32)
      (λ j. dir_with_a.mem (100 + j))
      0
      (dirlookup_from 4 no_devices small_disk dir_with_a 100 200 0)
dirlookup_from_example =
    dirlookup_from_lem 4 no_devices small_disk dir_with_a 100 200 (λ j. dir_with_a.mem (100 + j)) 0
      dir_with_a-IsDirectory named_a refl (omega arith) (omega arith)
