-- ===== src/Wmap/Unmap.antt =====
-- `wunmap` of wmap.c, and the loop of `exit` of proc.c that calls it.
pub mod Shift
pub mod Laws
pub mod Exit
mod Tests
use cs537_project.Prelude.{
  ℕ, zero, suc, ◌+◌, ◌-◌, ◌/◌, ◌%◌, List, ◌∷◌, Bool, true, false, not, ◌&&◌, Option, none, some,
  ltb, ◌==◌, if◌then◌else◌, add32, has_flag, failed, set, update,
}
use cs537_project.Wmap.Types.{
  Mapping, Maps, slot, mapping_end, pgsize, pg_round_up, map_anonymous, map_shared,
}

-- What `wunmap` changes of a process: its mappings, and its page table, by the page's address, with the
-- frame where the entry is present. `released` are the frames given to `kfree`, the last one first.
pub record Space : Type 0 where
  pub maps : Maps
  pub pgdir : ℕ → Option ℕ
  pub released : List ℕ

-- The search of `wunmap` from slot `i` on.
unfoldable pub find_map : List Mapping → ℕ → ℕ → ℕ → Option ℕ
find_map arr zero i addr = none
find_map arr (suc r) i addr =
    let rest = find_map arr r (i + 1) addr in if (slot arr i).addr == addr then some i else rest

-- The body of the loop over the pages.
unfoldable pub unload_page : Space → ℕ → Space
unload_page s va = elim (s.pgdir va) [
  | none ↦ s
  | some frame ↦ record s { pgdir = update s.pgdir va none; released = frame ∷ s.released }
]

-- The loop over the pages from `va` to `end`, with the rounds bounded by the second argument.
unfoldable pub unload : Space → ℕ → ℕ → ℕ → Space
unload s zero va end = s
unload s (suc r) va end =
    let rest = unload (unload_page s va) r (add32 va pgsize) end in if ltb va end then rest else s

-- The loop that shifts the mappings behind slot `j` down, `r` rounds left.
unfoldable pub shift : List Mapping → ℕ → ℕ → List Mapping
shift arr zero j = arr
shift arr (suc r) j = shift (set arr j (slot arr (j + 1))) r (j + 1)

-- The entry is taken out of the array.
unfoldable pub remove : Maps → ℕ → Maps
remove p i = record {
  mappings = shift p.mappings (p.num_mappings - i) i;
  num_mappings = p.num_mappings - 1;
}

-- Is the mapping written back to its file?
abbrev pub is_written : Mapping → Bool
is_written m = has_flag m.flags map_shared && not (has_flag m.flags map_anonymous)

-- The pages of the mapping. There are at most `end / PGSIZE` of them below its end.
unfoldable pub unload_mapping : Space → Mapping → Space
unload_mapping s m =
    unload s (pg_round_up (mapping_end m) / pgsize) m.addr (pg_round_up (mapping_end m))

-- `filewrite(fd, start, length)` says whether the write succeeds; the file itself is left out.
module _ (filewrite : ℕ → ℕ → ℕ → Bool) where
  -- What is done to the mapping that is found.
  unfoldable pub unmap_slot : Space → ℕ → ℕ × Space
  unmap_slot s i =
      let m = slot s.maps.mappings i in
      if is_written m && not (filewrite m.fd m.addr m.len)
      then (failed, s)
      else (0, record (unload_mapping s m) { maps = remove s.maps i })

  -- `wunmap(addr)`.
  unfoldable pub wunmap : Space → ℕ → ℕ × Space
  wunmap s addr =
      if not (addr % pgsize == 0)
      then (failed, s)
      else (elim (find_map s.maps.mappings s.maps.num_mappings 0 addr) [
        | none ↦ (failed, s)
        | some i ↦ unmap_slot s i
      ])

  -- The loop of `exit` from slot `i` on, with the rounds bounded by the first argument.
  unfoldable pub exit_unmap : ℕ → Space → ℕ → Space
  exit_unmap zero s i = s
  exit_unmap (suc r) s i =
      let rest = exit_unmap r (wunmap s (slot s.maps.mappings i).addr).1 (i + 1) in
      if ltb i s.maps.num_mappings then rest else s

  -- Each round takes `i` up by one, so `num_mappings` rounds are enough.
  unfoldable pub exit_mappings : Space → Space
  exit_mappings s = exit_unmap s.maps.num_mappings s 0
