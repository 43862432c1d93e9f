-- ===== src/Wmap/Alloc/Effects.antt =====
-- Which entries `wmap` leaves, and what MAP_FIXED lets pass and refuses.
use mathlib.Core.List.{Perm}
use cs537_project.Prelude.{
  ℕ, zero, suc, ◌+◌, ◌%◌, ◌^◌, ◌≤◌, ◌<◌, ◌≡◌, ◌⊎◌, inl, inr, List, ◌∷◌, true, false, arith,
  Bool-cases, refl, ap, length, ℕ_discrete, has_flag, failed,
}
use cs537_project.Wmap.Types.{Mapping, Maps, slot, max_wmmap_info, kernbase, wmap_base, map_fixed}
use cs537_project.Wmap.Invariant.{InRange, IsValid}
use cs537_project.Wmap.Place.{conflict, fixed_clash}
use cs537_project.Wmap.Place.Laws.{conflict_iff}
use cs537_project.Wmap.Alloc.Laws.{accepted_facts, wmap_fixed-cases, wmap_anywhere-cases}
use cs537_project.Wmap.Alloc.Insert.{live, make_mapping-live}
use cs537_project.Wmap.Alloc.{make_mapping, is_refused, wmap_fixed, wmap}

-- A call that does not fail adds exactly the mapping at the address that it returns, and a call that
-- fails changes nothing.
pub wmap-live :
    {p : Maps} (addr length flags fd : ℕ)
    → IsValid p
    → (wmap p addr length flags fd ≡ (failed, p))
      ⊎ Perm (live (wmap p addr length flags fd).1) (
          (record {
            addr = (wmap p addr length flags fd).0;
            len = length;
            flags = flags;
            fd = fd;
            num_pages_loaded = 0;
          })
          ∷ live p)
unfolding wmap make_mapping
wmap-live {p} addr length flags fd v = elim (Bool-cases (is_refused p length flags)) [
  | inl bad ↦ inl (rw bad)
  | inr good ↦
      let (room, pos, small) = accepted_facts p length flags good in
      elim (Bool-cases (has_flag flags map_fixed)) [
        | inl fixed ↦ elim (wmap_fixed-cases v length flags fd pos small addr) [
          | inl e ↦ inl (rw (good, fixed, e))
          | inr (e, fits) ↦
              inr (rw (good, fixed, e) (make_mapping-live v length flags fd pos small addr room))
        ]
        | inr free ↦ elim (wmap_anywhere-cases v length flags fd pos small) [
          | inl (e, none_fits) ↦ inl (rw (good, free, e))
          | inr (a, e, fits, least) ↦
              inr (rw (good, free, e) (make_mapping-live v length flags fd pos small a room))
        ]
      ]
]

fixed_clash-true :
    (arr : List Mapping) (r i addr length k : ℕ)
    → i ≤ k
    → k < i + r
    → conflict (slot arr k) addr length ≡ true
    → fixed_clash arr r i addr length ≡ true
unfolding fixed_clash
fixed_clash-true arr zero i addr length k lo lt h = absurd (omega arith)
fixed_clash-true arr (suc r) i addr length k lo lt h = elim (ℕ_discrete i k) [
  | yes e ↦ ground (arith, ap (λ x. conflict (slot arr x) addr length) e)
  | no ne ↦
      ground (arith, fixed_clash-true arr r (i + 1) addr length k (omega arith) (omega arith) h)
]

fixed_clash-false :
    (arr : List Mapping) (r i addr length : ℕ)
    → ((k : ℕ) → i ≤ k → k < i + r → conflict (slot arr k) addr length ≡ false)
    → fixed_clash arr r i addr length ≡ false
unfolding fixed_clash
fixed_clash-false arr zero i addr length h = refl
fixed_clash-false arr (suc r) i addr length h =
    rw (h i (omega arith) (omega arith))
      (fixed_clash-false arr r (i + 1) addr length (λ k lo lt. h k (omega arith) (omega arith)))

-- With valid mappings, a region of two bytes or more placed by MAP_FIXED just where a mapping ends is refused
-- with -1, and nothing changes, though it need overlap none.
pub wmap-fixed_adjacent :
    {p : Maps} (addr length flags fd k : ℕ)
    → IsValid p
    → has_flag flags map_fixed ≡ true
    → k < p.num_mappings
    → addr ≡ (slot p.mappings k).addr + (slot p.mappings k).len
    → 1 < length
    → wmap p addr length flags fd ≡ (failed, p)
unfolding wmap wmap_fixed
wmap-fixed_adjacent {p} addr length flags fd k v fixed lt e long =
    elim (Bool-cases (is_refused p length flags)) [
      | inl bad ↦ rw bad
      | inr good ↦
          let (room, pos, small) = accepted_facts p length flags good in
          let in_k : InRange (slot p.mappings k) = v.in_range k lt in
          let clash : fixed_clash p.mappings p.num_mappings 0 addr length ≡ true =
            fixed_clash-true p.mappings p.num_mappings 0 addr length k (omega arith) (omega arith)
              ((conflict_iff in_k addr length pos (omega (arith, in_k.high))).1 (inr (e, long))) in
          rw (good, fixed, clash) (ground arith)
    ]

-- MAP_FIXED does not look at where the region ends: behind all mappings, it accepts one that runs
-- past KERNBASE, and returns its address.
pub wmap-fixed_past_kernbase :
    {p : Maps} (addr length flags fd : ℕ)
    → IsValid p
    → is_refused p length flags ≡ false
    → has_flag flags map_fixed ≡ true
    → addr % 4096 ≡ 0
    → wmap_base ≤ addr
    → addr < kernbase
    → kernbase < addr + length
    → ((k : ℕ) → k < p.num_mappings → (slot p.mappings k).addr + (slot p.mappings k).len < addr)
    → (wmap p addr length flags fd).0 ≡ addr
unfolding wmap wmap_fixed make_mapping
wmap-fixed_past_kernbase {p} addr length flags fd v good fixed al lo hi past behind =
    rw (good, fixed, free) (ground arith)
  where
    pos : (p.num_mappings < max_wmmap_info) × (0 < length) × (length < 2 ^ 31)
    pos = accepted_facts p length flags good

    clear : (k : ℕ) → k < p.num_mappings → conflict (slot p.mappings k) addr length ≡ false
    clear k lt = elim (Bool-cases (conflict (slot p.mappings k) addr length)) [
      | inl h ↦ absurd (
          omega (
            arith,
            (conflict_iff (v.in_range k lt) addr length pos.1 (omega (arith, pos.2))).0 h,
            behind k lt,
          ))
      | inr h ↦ h
    ]

    free : fixed_clash p.mappings p.num_mappings 0 addr length ≡ false
    free =
        fixed_clash-false p.mappings p.num_mappings 0 addr length (λ k lo lt. clear k (omega arith))
