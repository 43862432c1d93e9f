-- ===== src/Wmap/Invariant.antt =====
-- The well-formedness of a process's mappings.
use cs537_project.Prelude.{ℕ, ◌+◌, ◌%◌, ◌≤◌, ◌<◌, ◌≡◌, ◌⊎◌, length}
use cs537_project.Wmap.Types.{Mapping, Maps, slot, max_wmmap_info, kernbase, wmap_base}

-- A mapping is not empty, starts at a page, and lies in the space for mappings.
pub record InRange (m : Mapping) : Type 0 where
  pub aligned : m.addr % 4096 ≡ 0
  pub nonempty : 0 < m.len
  pub low : wmap_base ≤ m.addr
  pub high : m.addr + m.len ≤ kernbase

-- No byte lies in both.
abbrev pub Disjoint : Mapping → Mapping → Type 0
Disjoint m k = (m.addr + m.len ≤ k.addr) ⊎ (k.addr + k.len ≤ m.addr)

pub record IsValid (p : Maps) : Type 0 where
  pub slots : length p.mappings ≡ max_wmmap_info
  pub few : p.num_mappings ≤ max_wmmap_info
  pub in_range : (a : ℕ) → a < p.num_mappings → InRange (slot p.mappings a)
  -- sorted by address, and disjoint
  pub ordered :
      (a b : ℕ)
      → a < b
      → b < p.num_mappings
      → (slot p.mappings a).addr + (slot p.mappings a).len ≤ (slot p.mappings b).addr
