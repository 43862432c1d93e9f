-- ===== src/Wmap/Alloc.antt =====
-- `wmap` of wmap.c.
pub mod Insert
pub mod Laws
pub mod Effects
use cs537_project.Prelude.{
  ℕ, ◌+◌, ◌-◌, ◌%◌, Bool, not, ◌&&◌, ◌||◌, ltb, leb, ◌==◌, if◌then◌else◌, le_zero, has_flag, failed,
  set,
}
use cs537_project.Wmap.Types.{
  Mapping, Maps, max_wmmap_info, kernbase, wmap_base, map_private, map_shared, map_fixed,
}
use cs537_project.Wmap.Sort.{selection_sort}
use cs537_project.Wmap.Place.{last_byte, fixed_clash, find_addr}

-- "Make the mapping" and sort: the end of `wmap`, with the address that it returns.
unfoldable pub make_mapping : Maps → ℕ → ℕ → ℕ → ℕ → ℕ × Maps
make_mapping p new_addr length flags fd = (
  new_addr,
  record {
    mappings =
        selection_sort
          (set p.mappings p.num_mappings (record {
            addr = new_addr;
            len = length;
            flags = flags;
            fd = fd;
            num_pages_loaded = 0;
          }))
          (p.num_mappings + 1);
    num_mappings = p.num_mappings + 1;
  },
)

-- The checks at the head of `wmap`.
unfoldable pub is_refused : Maps → ℕ → ℕ → Bool
is_refused p length flags =
    leb max_wmmap_info p.num_mappings
    || le_zero length
    || (has_flag flags map_private && has_flag flags map_shared)

-- The branch of MAP_FIXED.
unfoldable pub wmap_fixed : Maps → ℕ → ℕ → ℕ → ℕ → ℕ × Maps
wmap_fixed p addr length flags fd =
    if ltb addr wmap_base || leb kernbase addr || not (addr % 4096 == 0)
    then (failed, p)
    else if fixed_clash p.mappings p.num_mappings 0 addr length
    then (failed, p)
    else make_mapping p addr length flags fd

-- The other branch: find the next available page.
unfoldable pub wmap_anywhere : Maps → ℕ → ℕ → ℕ → ℕ × Maps
wmap_anywhere p length flags fd =
    let new_addr = find_addr p.mappings p.num_mappings 0 wmap_base length in
    if leb kernbase (last_byte new_addr length)
    then (failed, p)
    else make_mapping p new_addr length flags fd

-- `wmap(addr, length, flags, fd)`: the value returned, and the process's mappings afterwards.
unfoldable pub wmap : Maps → ℕ → ℕ → ℕ → ℕ → ℕ × Maps
wmap p addr length flags fd =
    if is_refused p length flags
    then (failed, p)
    else if has_flag flags map_fixed
    then wmap_fixed p addr length flags fd
    else wmap_anywhere p length flags fd
