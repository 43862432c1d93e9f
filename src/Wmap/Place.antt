-- ===== src/Wmap/Place.antt =====
-- Where a region may go: the overlap test that `wmap` and `wremap` of wmap.c write out three times,
-- the scan for MAP_FIXED and the scan for the next available address.
pub mod Laws
use cs537_project.Prelude.{
  ℕ, zero, suc, ◌+◌, List, Bool, false, ◌&&◌, ◌||◌, ltb, leb, if◌then◌else◌, add32, sub32,
}
use cs537_project.Wmap.Types.{Mapping, slot, mapping_end, pg_round_up}

-- `addr + length - 1`, in `uint` arithmetic.
abbrev pub last_byte : ℕ → ℕ → ℕ
last_byte addr len = sub32 (add32 addr len) 1

-- The four-part condition of the loops: does the region at `addr` clash with the mapping?
unfoldable pub conflict : Mapping → ℕ → ℕ → Bool
conflict m addr len =
    (leb m.addr addr && ltb addr (mapping_end m))
    || (leb m.addr (last_byte addr len) && ltb (last_byte addr len) (mapping_end m))
    || (leb addr m.addr && ltb m.addr (last_byte addr len))
    || (leb addr (mapping_end m) && ltb (mapping_end m) (last_byte addr len))

-- The loop of MAP_FIXED from slot `i` on, `r` rounds left: does the region clash with a mapping?
unfoldable pub fixed_clash : List Mapping → ℕ → ℕ → ℕ → ℕ → Bool
fixed_clash arr zero i addr len = false
fixed_clash arr (suc r) i addr len =
    conflict (slot arr i) addr len || fixed_clash arr r (i + 1) addr len

-- The other loop: on a clash, go on behind the mapping.
unfoldable pub find_addr : List Mapping → ℕ → ℕ → ℕ → ℕ → ℕ
find_addr arr zero i new_addr len = new_addr
find_addr arr (suc r) i new_addr len =
    find_addr arr r (i + 1)
      (if conflict (slot arr i) new_addr len
        then pg_round_up (mapping_end (slot arr i))
        else new_addr)
      len
