-- ===== src/Wmap/Types.antt =====
-- `struct mapping` and the part of `struct proc` that wmap.c keeps (proc.h), and the constants of
-- wmap.h, mmu.h and memlayout.h.
pub use cs537_project.Prelude.Layout.{pgsize, kernbase, pg_round_down, pg_round_up}
use cs537_project.Prelude.{ℕ, List, add32, get_or}

pub record Mapping : Type 0 where
  pub addr : ℕ
  pub len : ℕ  -- the field `length`
  pub flags : ℕ
  pub fd : ℕ
  pub num_pages_loaded : ℕ

-- What a slot beyond the array would read; no theorem depends on it.
abbrev pub blank : Mapping
blank = record { addr = 0; len = 0; flags = 0; fd = 0; num_pages_loaded = 0 }

abbrev pub max_wmmap_info : ℕ
max_wmmap_info = 16

-- The two fields of `struct proc` that hold the mappings: the array, all its slots, and the count.
pub record Maps : Type 0 where
  pub mappings : List Mapping
  pub num_mappings : ℕ

-- Where wmap.c starts to look for room.
abbrev pub wmap_base : ℕ
wmap_base = 0x6000_0000

abbrev pub map_private : ℕ
map_private = 1

abbrev pub map_shared : ℕ
map_shared = 2

abbrev pub map_anonymous : ℕ
map_anonymous = 4

abbrev pub map_fixed : ℕ
map_fixed = 8

-- `curproc->mappings[i]`
abbrev pub slot : List Mapping → ℕ → Mapping
slot arr i = get_or arr i blank

-- `curproc->mappings[i].addr + curproc->mappings[i].length`
abbrev pub mapping_end : Mapping → ℕ
mapping_end m = add32 m.addr m.len
