-- ===== src/Mm/Remap.antt =====
-- `wremap` on the mappings.
use mathlib.Core.Path.{subst}
use mathlib.Core.List.{Perm}
use mathlib.Core.List.Perm
use cs537_project.Prelude.{
  ℕ, zero, suc, ◌+◌, ◌/◌, ◌%◌, ◌^◌, ◌≤◌, ◌<◌, ◌≡◌, ◌≢◌, ◌⊎◌, inl, inr, refl, ap, sym, ◌∙◌, List,
  Bool, false, not, Option, none, some, ◌==◌, ltb, leb, arith, Bool-cases, Option-cases, ℕ_discrete,
  sub32, is_neg, le_zero, failed, length, length-set, set, get_or, take, [], ◌∷◌, get_or-set_self,
  get_or-set_ne, pgsize, kernbase,
}
use cs537_project.Wmap.Types.{Mapping, Maps, slot, blank, max_wmmap_info, wmap_base}
use cs537_project.Wmap.Invariant.{InRange, Disjoint, IsValid}
use cs537_project.Wmap.Sort.{selection_sort}
use cs537_project.Wmap.Sort.Laws.{selection_sort-perm}
use cs537_project.Wmap.Place.{last_byte, find_addr}
use cs537_project.Wmap.Place.Laws.{Apart, Found, find_addr-Found}
use cs537_project.Wmap.Alloc.Insert.{live, sorted-IsValid, kept-Disjoint}
use cs537_project.Wmap.Unmap.{find_map}
use cs537_project.Wmap.Unmap.Shift.{find_map_lem}
use cs537_project.Mm.{
  Image, set_len, drop_down, move_down, unmap_table, sort_image, move_map, grow, wremap,
}

set-get_or_self {ℓ} : {A : Type ℓ} (l : List A) (i : ℕ) (x : A) → set l i (get_or l i x) ≡ l
set-get_or_self [] i x = refl
set-get_or_self (y ∷ l) zero x = refl
set-get_or_self (y ∷ l) (suc i) x = ap (λ (t : List _). y ∷ t) (set-get_or_self l i x)

-- Slot `i` has become `m`.
module _ {p : Maps} (v : IsValid p) (i : ℕ) (m : Mapping) (inside : i < p.num_mappings) where
  replaced : List Mapping
  replaced = set p.mappings i m

  replaced_self : slot replaced i ≡ m
  unfolding replaced
  replaced_self = get_or-set_self p.mappings i m blank (omega (arith, v.slots, v.few))

  replaced_ne : (a : ℕ) → a ≢ i → slot replaced a ≡ slot p.mappings a
  unfolding replaced
  replaced_ne a ne = get_or-set_ne p.mappings i a m blank (λ e. ne (sym e))

  replaced-InRange : InRange m → (a : ℕ) → a < p.num_mappings → InRange (slot replaced a)
  replaced-InRange ok a h = elim (ℕ_discrete a i) [
    | yes e ↦ rw (e, replaced_self) ok
    | no ne ↦ rw (replaced_ne a ne) (v.in_range a h)
  ]

  replaced-slots : length replaced ≡ max_wmmap_info
  unfolding replaced
  replaced-slots = length-set p.mappings i m ∙ v.slots

  -- In its place, where it still ends before the next one begins.
  resized-IsValid :
      InRange m
      → m.addr ≡ (slot p.mappings i).addr
      → ((b : ℕ) → i < b → b < p.num_mappings → m.addr + m.len ≤ (slot p.mappings b).addr)
      → IsValid (record p { mappings = set p.mappings i m })
  unfolding replaced
  resized-IsValid ok same behind = record {
    slots = replaced-slots;
    few = v.few;
    in_range = λ a h. replaced-InRange ok a h;
    ordered = λ a b lt h. order a b lt h;
  }
    where
      order :
          (a b : ℕ)
          → a < b
          → b < p.num_mappings
          → (slot replaced a).addr + (slot replaced a).len ≤ (slot replaced b).addr
      order a b lt h = elim (ℕ_discrete a i) [
        | yes e ↦
            rw (e, replaced_self, replaced_ne b (λ z. omega (arith, z, e)))
              (behind b (omega arith) h)
        | no ne ↦ elim (ℕ_discrete b i) [
          | yes e ↦
              rw (e, replaced_self, replaced_ne a ne, same) (v.ordered a i (omega arith) inside)
          | no ne' ↦ rw (replaced_ne a ne, replaced_ne b ne') (v.ordered a b lt h)
        ]
      ]

  -- In another place, apart from all mappings, and sorted again.
  moved-IsValid :
      InRange m
      → ((k : ℕ) → k < p.num_mappings → Apart (slot p.mappings k) m.addr m.len)
      → IsValid (record p { mappings = selection_sort (set p.mappings i m) p.num_mappings })
  unfolding replaced
  moved-IsValid ok apart =
      sorted-IsValid replaced p.num_mappings replaced-slots v.few (replaced-InRange ok) disjoint
    where
      disjoint :
          (a b : ℕ)
          → a < p.num_mappings
          → b < p.num_mappings
          → a ≢ b
          → Disjoint (slot replaced a) (slot replaced b)
      disjoint a b ha hb ne = elim (ℕ_discrete a i) [
        | yes e ↦
            rw (e, replaced_self, replaced_ne b (λ z. ne (e ∙ sym z))) (omega (arith, apart b hb))
        | no na ↦ elim (ℕ_discrete b i) [
          | yes e ↦ rw (e, replaced_self, replaced_ne a na) (omega (arith, apart a ha))
          | no nb ↦ rw (replaced_ne a na, replaced_ne b nb) (kept-Disjoint v a b ha hb ne)
        ]
      ]

-- What a successful `wremap` of the mapping in slot `i` to `newsize` bytes does to the mappings: this entry
-- alone has changed, to the address returned and the new length.
abbrev pub Resized : Image → ℕ → ℕ → ℕ → Image → Type 0
Resized s i newsize addr s' =
    IsValid s'.maps
    × Perm (live s'.maps) (
        take s.maps.num_mappings
          (set s.maps.mappings i (record (slot s.maps.mappings i) { addr = addr; len = newsize })))

-- How `wremap` ends. Only where pages are dropped or moved can it panic.
abbrev pub Remapped : Image → ℕ → ℕ → ℕ → Option (ℕ × Image) → Type 0
Remapped s i oldsize newsize none =
    (newsize < oldsize)
    ⊎ ((i + 1 < s.maps.num_mappings)
        × ((slot s.maps.mappings (i + 1)).addr < (slot s.maps.mappings i).addr + newsize))
Remapped s i oldsize newsize (some (r, s')) =
    ((r ≡ failed) × (s' ≡ s) × (oldsize < newsize)) ⊎ Resized s i newsize r s'

module _ (s : Image) (v : IsValid s.maps) (i : ℕ) (inside : i < s.maps.num_mappings) (newsize : ℕ)
    (pos : 0 < newsize) (small : newsize < 2 ^ 31) where
  abbrev m : Mapping
  m = slot s.maps.mappings i

  -- The slot with the new length, or at another address as well.
  abbrev entry : ℕ → Mapping
  entry a = record m { addr = a; len = newsize }

  stays :
      (oldaddr : ℕ)
      → m.addr ≡ oldaddr
      → oldaddr + newsize ≤ kernbase
      → (i + 1 < s.maps.num_mappings → oldaddr + newsize ≤ (slot s.maps.mappings (i + 1)).addr)
      → (s' : Image) → s'.maps ≡ set_len s.maps i newsize
      → Resized s i newsize oldaddr s'
  stays oldaddr at high next s' same =
      let r = v.in_range i inside in
      let behind : (b : ℕ)
          → i < b
          → b < s.maps.num_mappings
          → m.addr + newsize ≤ (slot s.maps.mappings b).addr =
        λ b lt h. elim (ℕ_discrete b (i + 1)) [
          | yes e ↦ rw e (omega (arith, at, next (omega arith)))
          | no ne ↦ omega (arith, at, next (omega arith), v.ordered (i + 1) b (omega arith) h)
        ] in
      let valid : IsValid (set_len s.maps i newsize) =
        resized-IsValid v i (record m { len = newsize }) inside
          (record {
            aligned = r.aligned;
            nonempty = pos;
            low = r.low;
            high = omega (arith, at, high);
          })
          refl behind in
      rw (same, sym at) (valid, Perm.refl _)

  -- `wunmap` of the old address finds no mapping, once the mapping has been moved.
  nothing_left :
      (a : ℕ)
      → Found v newsize pos small s.maps.num_mappings a
      → find_map (set s.maps.mappings i (entry a)) s.maps.num_mappings 0 m.addr ≡ none
  nothing_left a f =
      elim (find_map_lem (set s.maps.mappings i (entry a)) s.maps.num_mappings 0 m.addr) [
        | inl (e, nowhere) ↦ e
        | inr (k, e, low, high, at) ↦ absurd (other k (omega arith) at)
      ]
    where
      replaced_at : (k : ℕ) → k ≡ i → slot (set s.maps.mappings i (entry a)) k ≡ entry a
      replaced_at k e = rw e (
          get_or-set_self s.maps.mappings i (entry a) blank (omega (arith, inside, v.slots, v.few)))

      replaced_off :
          (k : ℕ) → k ≢ i → slot (set s.maps.mappings i (entry a)) k ≡ slot s.maps.mappings k
      replaced_off k ne = get_or-set_ne s.maps.mappings i k (entry a) blank (λ e. ne (sym e))

      other :
          (k : ℕ)
          → k < s.maps.num_mappings
          → (slot (set s.maps.mappings i (entry a)) k).addr ≢ m.addr
      other k h at = elim (ℕ_discrete k i) [
        | yes e ↦
            let here : a ≡ m.addr = sym (ap (λ (x : Mapping). x.addr) (replaced_at k e)) ∙ at in
            omega (arith, here, f.apart i inside, (v.in_range i inside).nonempty)
        | no ne ↦
            let here : (slot s.maps.mappings k).addr ≡ m.addr =
              sym (ap (λ (x : Mapping). x.addr) (replaced_off k ne)) ∙ at in
            omega (
              arith,
              here,
              kept-Disjoint v k i h inside ne,
              (v.in_range i inside).nonempty,
              (v.in_range k h).nonempty,
            )
      ]

  module _ (kernel_end : ℕ) (filewrite : ℕ → ℕ → ℕ → Bool) where
    moved_lem :
        (oldsize a : ℕ)
        → Found v newsize pos small s.maps.num_mappings a
        → a + newsize ≤ kernbase
        → (i + 1 < s.maps.num_mappings) × ((slot s.maps.mappings (i + 1)).addr < m.addr + newsize)
        → Remapped s i oldsize newsize (move_map kernel_end filewrite s i m.addr oldsize newsize a)
    unfolding move_map unmap_table sort_image
    moved_lem oldsize a f high collides =
        elim (Option-cases (move_down (oldsize / pgsize + 1) s.pgdir s.kmem m.addr a oldsize)) [
          | inl out ↦
              let done : move_map kernel_end filewrite s i m.addr oldsize newsize a ≡ none =
                rw (move_map, out) refl in
              subst (Remapped s i oldsize newsize) (sym done) (inr collides)
          | inr ((d, k), got) ↦
              let maps : Maps = record s.maps { mappings = set s.maps.mappings i (entry a) } in
              let aligned : not (m.addr % pgsize == 0) ≡ false =
                (let e = (v.in_range i inside).aligned in ground arith) in
              let kept : unmap_table kernel_end filewrite
                    (record { maps = maps; pgdir = d; kmem = k }) m.addr
                  ≡ some (failed, record { maps = maps; pgdir = d; kmem = k }) =
                rw (unmap_table, aligned, nothing_left a f) refl in
              let done : move_map kernel_end filewrite s i m.addr oldsize newsize a
                  ≡ some (a, sort_image (record { maps = maps; pgdir = d; kmem = k })) =
                rw (move_map, got, kept) refl in
              subst (Remapped s i oldsize newsize) (sym done) (
                inr (
                  moved-IsValid v i (entry a) inside
                      (record { aligned = f.aligned; nonempty = pos; low = f.low; high = high })
                      f.apart,
                  (selection_sort-perm (set s.maps.mappings i (entry a)) s.maps.num_mappings
                      (omega (arith, length-set s.maps.mappings i (entry a), v.slots, v.few))).0,
                ))
        ]

    grow_lem :
        (oldsize flags : ℕ)
        → oldsize < newsize
        → Remapped s i oldsize newsize (grow kernel_end filewrite s i m.addr oldsize newsize flags)
    unfolding grow
    grow_lem oldsize flags more =
        let r = v.in_range i inside in
        let end = last_byte m.addr newsize in
        let a = find_addr s.maps.mappings s.maps.num_mappings 0 wmap_base newsize in
        let fails : Remapped s i oldsize newsize (some (failed, s)) = inl (refl, refl, more) in
        elim (Bool-cases (leb kernbase end)) [
          | inl out ↦ rw (grow, out) fails
          | inr fits ↦
              let high : m.addr + newsize ≤ kernbase = (let h = r.high in ground arith) in
              elim (Bool-cases (i + 1 == s.maps.num_mappings)) [
                | inl last ↦
                    rw (grow, fits, last)
                      (inr (
                        stays m.addr refl high (λ h. absurd (ground (arith, h)))
                          (record s { maps = set_len s.maps i newsize }) refl))
                | inr not_last ↦
                    let next : i + 1 < s.maps.num_mappings = ground arith in
                    elim (Bool-cases (ltb end (slot s.maps.mappings (i + 1)).addr)) [
                      | inl room ↦
                          rw (grow, fits, not_last, room)
                            (inr (
                              stays m.addr refl high (λ h. (let h' = r.high in ground arith))
                                (record s { maps = set_len s.maps i newsize }) refl))
                      | inr clash ↦ elim (Bool-cases (flags == 0)) [
                        | inl stuck ↦ rw (grow, fits, not_last, clash, stuck) fails
                        | inr may_move ↦ elim (Bool-cases (leb kernbase (last_byte a newsize))) [
                          | inl full ↦ rw (grow, fits, not_last, clash, may_move, full) fails
                          | inr room ↦
                              let f = find_addr-Found v newsize pos small in
                              let a_high : a ≤ kernbase = f.high in
                              rw (grow, fits, not_last, clash, may_move, room)
                                (moved_lem oldsize a f (ground arith)
                                  (next, (let h' = r.high in ground arith)))
                        ]
                      ]
                    ]
              ]
        ]

    found_lem :
        (oldsize flags : ℕ)
        → oldsize < 2 ^ 31
        → m.len ≡ oldsize
        → find_map s.maps.mappings s.maps.num_mappings 0 m.addr ≡ some i
        → not (m.addr % pgsize == 0) ≡ false
        → Remapped s i oldsize newsize (wremap kernel_end filewrite s m.addr oldsize newsize flags)
    unfolding wremap
    found_lem oldsize flags old_small len e aligned =
        let sized : le_zero newsize ≡ false = ground arith in
        let r = v.in_range i inside in
        elim (Bool-cases (sub32 newsize oldsize == 0)) [
          | inl equal ↦
              let same : newsize ≡ m.len = ground arith in
              rw (wremap, aligned, sized, e, equal)
                (inr (v, rw (same, set-get_or_self s.maps.mappings i blank) (Perm.refl _)))
          | inr differ ↦ elim (Bool-cases (is_neg (sub32 newsize oldsize))) [
            | inl less ↦
                let smaller : newsize < oldsize = ground arith in
                elim (Option-cases (
                  drop_down kernel_end (oldsize / pgsize + 1) s.pgdir s.kmem m.addr oldsize
                    newsize)) [
                      | inl out ↦ rw (wremap, aligned, sized, e, differ, less, out) (inl smaller)
                      | inr ((d, k), got) ↦
                          rw (wremap, aligned, sized, e, differ, less, got)
                            (inr (
                              stays m.addr refl (omega (arith, r.high, len, smaller))
                                (λ h.
                                  omega (arith, v.ordered i (i + 1) (omega arith) h, len, smaller))
                                (record { maps = set_len s.maps i newsize; pgdir = d; kmem = k })
                                refl))
                    ]
            | inr more ↦
                rw (wremap, aligned, sized, e, differ, more) (grow_lem oldsize flags (ground arith))
          ]
        ]

-- `wremap` of valid mappings to a size of at least one byte, given the length of the mapping at its address
-- as the old size: without such a mapping it fails and changes nothing. Otherwise the mappings stay valid
-- and only this entry changes, to the address returned and the new length; or it fails and changes nothing,
-- which happens only for a larger size. It can panic only in giving up pages, for a smaller size, or
-- where the mapping cannot grow in its place.
pub wremap_lem :
    (kernel_end : ℕ) (filewrite : ℕ → ℕ → ℕ → Bool) (s : Image) (oldaddr oldsize newsize flags : ℕ)
    → IsValid s.maps
    → 0 < newsize
    → newsize < 2 ^ 31
    → oldsize < 2 ^ 31
    → ((((a : ℕ) → a < s.maps.num_mappings → (slot s.maps.mappings a).addr ≢ oldaddr)
          × (wremap kernel_end filewrite s oldaddr oldsize newsize flags ≡ some (failed, s)))
        ⊎ ((i : ℕ) × (i < s.maps.num_mappings)
            × ((slot s.maps.mappings i).addr ≡ oldaddr)
            × ((slot s.maps.mappings i).len ≡ oldsize
                → Remapped s i oldsize newsize
                    (wremap kernel_end filewrite s oldaddr oldsize newsize flags))))
unfolding wremap
wremap_lem kernel_end filewrite s oldaddr oldsize newsize flags v pos small old_small =
    let sized : le_zero newsize ≡ false = ground arith in
    elim (find_map_lem s.maps.mappings s.maps.num_mappings 0 oldaddr) [
      | inl (e, nowhere) ↦ inl (
        λ a h. nowhere a (omega arith) (omega arith),
        elim (Bool-cases (not (oldaddr % pgsize == 0))) [
          | inl odd ↦ rw (wremap, odd) refl
          | inr even ↦ rw (wremap, even, sized, e) refl
        ],
      )
      | inr (i, e, low, high, at) ↦
          let inside : i < s.maps.num_mappings = omega arith in
          let aligned : not (oldaddr % pgsize == 0) ≡ false =
            (let h = (v.in_range i inside).aligned in ground (arith, at)) in
          inr (
            i,
            inside,
            at,
            λ len.
                subst
                  (λ (a : ℕ).
                    Remapped s i oldsize newsize
                      (wremap kernel_end filewrite s a oldsize newsize flags))
                  at
                  (found_lem s v i inside newsize pos small kernel_end filewrite oldsize flags
                    old_small len (rw at e) (rw at aligned)),
          )
    ]
