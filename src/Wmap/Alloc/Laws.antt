-- ===== src/Wmap/Alloc/Laws.antt =====
-- What `wmap` promises, on each of its branches.
use cs537_project.Prelude.{
  ℕ, ◌+◌, ◌%◌, ◌^◌, ◌≤◌, ◌<◌, ◌≡◌, ◌⊎◌, inl, inr, true, false, arith, Bool-cases, length, dec_lt,
  has_flag, failed, ltb, leb, leb→le, ◌==◌, not, ◌||◌,
}
use cs537_project.Wmap.Types.{Maps, max_wmmap_info, kernbase, wmap_base, map_fixed}
use cs537_project.Wmap.Invariant.{IsValid}
use cs537_project.Wmap.Place.{last_byte, fixed_clash, find_addr}
use cs537_project.Wmap.Place.Laws.{fixed_clash-Apart, Found, find_addr-Found}
use cs537_project.Wmap.Alloc.Insert.{Fits, make_mapping-IsValid}
use cs537_project.Wmap.Alloc.{make_mapping, is_refused, wmap_fixed, wmap_anywhere, wmap}

pub accepted_facts :
    (p : Maps) (length flags : ℕ)
    → is_refused p length flags ≡ false
    → (p.num_mappings < max_wmmap_info) × (0 < length) × (length < 2 ^ 31)
unfolding is_refused
accepted_facts p length flags h = ground arith

module _ {p : Maps} (v : IsValid p) (length flags fd : ℕ) (pos : 0 < length)
    (small : length < 2 ^ 31) where
  -- For MAP_FIXED: the call fails and changes nothing, or makes the mapping where it was asked to.
  pub wmap_fixed-cases :
      (addr : ℕ)
      → (wmap_fixed p addr length flags fd ≡ (failed, p))
        ⊎ ((wmap_fixed p addr length flags fd ≡ make_mapping p addr length flags fd)
            × (addr + length ≤ kernbase → Fits p length addr))
  unfolding wmap_fixed
  wmap_fixed-cases addr =
      elim (Bool-cases (ltb addr wmap_base || leb kernbase addr || not (addr % 4096 == 0))) [
        | inl bad ↦ inl (rw bad)
        | inr ok ↦ elim (Bool-cases (fixed_clash p.mappings p.num_mappings 0 addr length)) [
          | inl clash ↦ inl (rw (ok, clash))
          | inr free ↦ inr (
            rw (ok, free),
            λ high. record {
              aligned = ground arith;
              low = ground arith;
              high = high;
              apart = fixed_clash-Apart v length pos small addr (ground arith) free;
            },
          )
        ]
      ]

  -- Otherwise: it takes the lowest place that fits, and fails only if there is none.
  pub wmap_anywhere-cases :
      ((wmap_anywhere p length flags fd ≡ (failed, p)) × ((a : ℕ) → ¬ (Fits p length a)))
      ⊎ ((a : ℕ) × (wmap_anywhere p length flags fd ≡ make_mapping p a length flags fd)
          × Fits p length a
          × ((b : ℕ) → Fits p length b → a ≤ b))
  unfolding wmap_anywhere
  wmap_anywhere-cases = elim (Bool-cases (leb kernbase (last_byte place length))) [
    | inl high ↦ inl (
      rw high,
      λ a f. elim (dec_lt a place) [
        | yes lt ↦ (lower a f lt)
        | no ge ↦
            absurd
              (omega (arith, leb→le kernbase (last_byte place length) high, f.high, found.high))
      ],
    )
    | inr fits ↦ inr (
      place,
      rw fits,
      record {
        aligned = found.aligned;
        low = found.low;
        high = ground (arith, found.high);
        apart = found.apart;
      },
      λ b f. elim (dec_lt b place) [ yes lt ↦ absurd (lower b f lt) | no ge ↦ omega arith ],
    )
  ]
    where
      place : ℕ
      place = find_addr p.mappings p.num_mappings 0 wmap_base length

      found : Found v length pos small p.num_mappings place
      found = find_addr-Found v length pos small

      lower : (b : ℕ) → Fits p length b → b < place → ⊥
      lower b f lt =
          let (k, inside, before, behind) = found.first b f.aligned f.low lt in
          omega (arith, f.apart k inside)

-- Whatever `wmap` is asked for, the mappings stay valid, if a region placed by MAP_FIXED ends below
-- KERNBASE: page-aligned, not empty, inside the space for mappings, sorted, and disjoint.
pub wmap-IsValid :
    {p : Maps} (addr length flags fd : ℕ)
    → IsValid p
    → (has_flag flags map_fixed ≡ true → addr + length ≤ kernbase)
    → IsValid (wmap p addr length flags fd).1
unfolding wmap
wmap-IsValid {p} addr length flags fd v high = elim (Bool-cases (is_refused p length flags)) [
  | inl bad ↦ rw bad v
  | inr good ↦
      let (room, pos, small) = accepted_facts p length flags good in
      elim (Bool-cases (has_flag flags map_fixed)) [
        | inl fixed ↦ elim (wmap_fixed-cases v length flags fd pos small addr) [
          | inl e ↦ rw (good, fixed, e) v
          | inr (e, fits) ↦
              rw (good, fixed, e)
                (make_mapping-IsValid v length flags fd pos small addr room (fits (high fixed)))
        ]
        | inr free ↦ elim (wmap_anywhere-cases v length flags fd pos small) [
          | inl (e, none_fits) ↦ rw (good, free, e) v
          | inr (a, e, fits, least) ↦
              rw (good, free, e) (make_mapping-IsValid v length flags fd pos small a room fits)
        ]
      ]
]

-- Without MAP_FIXED an accepted request gets the lowest page-aligned place of the space for mappings
-- that overlaps no mapping; it fails only if there is no such place.
pub wmap-first_fit :
    {p : Maps} (addr length flags fd : ℕ)
    → IsValid p
    → is_refused p length flags ≡ false
    → has_flag flags map_fixed ≡ false
    → ((wmap p addr length flags fd ≡ (failed, p)) × ((a : ℕ) → ¬ (Fits p length a)))
      ⊎ ((Fits p length (wmap p addr length flags fd).0)
          × ((a : ℕ) → Fits p length a → (wmap p addr length flags fd).0 ≤ a))
unfolding wmap make_mapping
wmap-first_fit {p} addr length flags fd v good free =
    let (room, pos, small) = accepted_facts p length flags good in
    elim (wmap_anywhere-cases v length flags fd pos small) [
      | inl (e, none_fits) ↦ inl (rw (good, free, e), none_fits)
      | inr (a, e, fits, least) ↦
          inr (rw (good, free, e) fits, λ b f. rw (good, free, e) (least b f))
    ]
