-- ===== src/Wmap/Place/Laws.antt =====
-- The scans against what they look for: a page-aligned region that overlaps no mapping.
use cs537_project.Prelude.{
  ℕ, zero, suc, ◌+◌, ◌%◌, ◌^◌, ◌≤◌, ◌<◌, ◌≡◌, ◌↔◌, ◌⊎◌, inl, inr, true, false, arith, Bool-cases,
  ℕ_discrete, dec_lt,
}
use mathlib.Core.Path.{subst}
use cs537_project.Wmap.Types.{Mapping, Maps, slot, mapping_end, pg_round_up, kernbase, wmap_base}
use cs537_project.Wmap.Place.{conflict, fixed_clash, find_addr}
use cs537_project.Wmap.Invariant.{InRange, IsValid}

-- The `len` bytes from `addr` on share none with the mapping.
abbrev pub Apart : Mapping → ℕ → ℕ → Type 0
Apart m addr len = (m.addr + m.len ≤ addr) ⊎ (addr + len ≤ m.addr)

module _ {m : Mapping} (ok : InRange m) (addr len : ℕ) (pos : 0 < len)
    (fits : addr + len < 2 ^ 32) where
  -- A region that passes the test shares no byte with the mapping.
  pub conflict-Apart : conflict m addr len ≡ false → Apart m addr len
  unfolding conflict
  conflict-Apart h = ground arith

  -- The test fails for a region that overlaps the mapping, and for one of two bytes or more that
  -- begins just where the mapping ends.
  pub conflict_iff :
      (conflict m addr len ≡ true)
      ↔ ((addr < m.addr + m.len) × (m.addr < addr + len)) ⊎ ((addr ≡ m.addr + m.len) × (1 < len))
  unfolding conflict
  conflict_iff = (λ h. ground arith, λ h. ground arith)

module _ {p : Maps} (v : IsValid p) (len : ℕ) (pos : 0 < len) (small : len < 2 ^ 31) where
  open v use {in_range, ordered}

  abbrev at : ℕ → Mapping
  at k = slot p.mappings k

  fixed_clash-Apart_from :
      (addr : ℕ)
      → addr < kernbase
      → (r i : ℕ) → i + r ≤ p.num_mappings
      → fixed_clash p.mappings r i addr len ≡ false
      → (k : ℕ) → i ≤ k
      → k < i + r
      → Apart (slot p.mappings k) addr len
  unfolding fixed_clash
  fixed_clash-Apart_from addr hi zero i e h k lo lt = absurd (omega arith)
  fixed_clash-Apart_from addr hi (suc r) i e h k lo lt = elim (ℕ_discrete i k) [
    | yes q ↦
        rw (← q)
          (conflict-Apart (in_range i (omega arith)) addr len pos (omega arith) (ground arith))
    | no q ↦
        fixed_clash-Apart_from addr hi r (i + 1) (omega arith) (ground arith) k (omega arith)
          (omega arith)
  ]

  -- The scan for MAP_FIXED lets a region pass only if it overlaps none of the mappings.
  pub fixed_clash-Apart :
      (addr : ℕ)
      → addr < kernbase
      → fixed_clash p.mappings p.num_mappings 0 addr len ≡ false
      → (k : ℕ) → k < p.num_mappings
      → Apart (slot p.mappings k) addr len
  fixed_clash-Apart addr hi h k lt =
      fixed_clash-Apart_from addr hi p.num_mappings 0 (omega arith) h k (omega arith) (omega arith)

  -- What the other scan has established before slot `i`.
  pub record Found (i addr : ℕ) : Type 0 where
    pub aligned : addr % 4096 ≡ 0
    pub low : wmap_base ≤ addr
    pub high : addr ≤ kernbase
    pub apart : (k : ℕ) → k < i → Apart (slot p.mappings k) addr len
    -- no lower place would do
    pub first :
        (a : ℕ)
        → a % 4096 ≡ 0
        → wmap_base ≤ a
        → a < addr
        → (k : ℕ) × (k < p.num_mappings)
          × (a < (slot p.mappings k).addr + (slot p.mappings k).len)
          × ((slot p.mappings k).addr < a + len)

  Found-bump :
      (i addr : ℕ)
      → i < p.num_mappings
      → Found i addr
      → conflict (slot p.mappings i) addr len ≡ true
      → Found (i + 1) (pg_round_up (mapping_end (slot p.mappings i)))
  Found-bump i addr lt f h = record {
    aligned = omega arith;
    low = omega (arith, in_range i lt, clash);
    high = omega (arith, in_range i lt);
    apart = λ k q. behind k q;
    first = λ a al lo hi. elim (dec_lt a addr) [
      | yes below ↦ f.first a al lo below
      | no above ↦ (i, lt, omega (arith, in_range i lt, clash), omega (arith, in_range i lt, clash))
    ];
  }
    where
      clash :
          ((addr < (at i).addr + (at i).len) × ((at i).addr < addr + len))
          ⊎ ((addr ≡ (at i).addr + (at i).len) × (1 < len))
      clash = (conflict_iff (in_range i lt) addr len pos (omega (arith, f.high))).0 h

      behind : (k : ℕ) → k < i + 1 → Apart (at k) (pg_round_up (mapping_end (at i))) len
      behind k q = elim (ℕ_discrete k i) [
        | yes e ↦ rw e (inl (omega (arith, in_range i lt)))
        | no ne ↦ inl (omega (arith, ordered k i (omega arith) lt, in_range i lt))
      ]

  Found-stay :
      (i addr : ℕ)
      → i < p.num_mappings
      → Found i addr
      → conflict (slot p.mappings i) addr len ≡ false
      → Found (i + 1) addr
  Found-stay i addr lt f h = record {
    aligned = f.aligned;
    low = f.low;
    high = f.high;
    apart = λ k q. elim (ℕ_discrete k i) [
      | yes e ↦ rw e (conflict-Apart (in_range i lt) addr len pos (omega (arith, f.high)) h)
      | no ne ↦ f.apart k (omega arith)
    ];
    first = f.first;
  }

  find_addr-Found_from :
      (r i addr : ℕ)
      → i + r ≡ p.num_mappings
      → Found i addr
      → Found p.num_mappings (find_addr p.mappings r i addr len)
  unfolding find_addr
  find_addr-Found_from zero i addr e f =
      subst (λ (n : ℕ). Found n addr) (let e' : i ≡ p.num_mappings = omega arith in e') f
  find_addr-Found_from (suc r) i addr e f =
      elim (Bool-cases (conflict (slot p.mappings i) addr len)) [
        | inl h ↦
            rw h
              (find_addr-Found_from r (i + 1) _ (omega arith) (Found-bump i addr (omega arith) f h))
        | inr h ↦
            rw h
              (find_addr-Found_from r (i + 1) _ (omega arith) (Found-stay i addr (omega arith) f h))
      ]

  -- The scan for the next available address ends at the lowest page-aligned address of the space
  -- for mappings from which `len` bytes overlap none of the mappings. (It may lie too high.)
  pub find_addr-Found : Found p.num_mappings (find_addr p.mappings p.num_mappings 0 wmap_base len)
  find_addr-Found = find_addr-Found_from p.num_mappings 0 wmap_base (omega arith) (record {
    aligned = omega arith;
    low = omega arith;
    high = omega arith;
    apart = λ k q. absurd (omega arith);
    first = λ a al lo hi. absurd (omega arith);
  })
