-- ===== src/Wmap/Unmap/Laws.antt =====
-- `wunmap` on every branch.
use cs537_project.Prelude.{
  ℕ, zero, suc, ◌+◌, ◌*◌, ◌/◌, ◌%◌, ◌^◌, ◌≤◌, ◌<◌, ◌≡◌, ◌≢◌, ◌⊎◌, inl, inr, refl, ap, ◌∙◌, List,
  ◌∷◌, Bool, true, false, not, ◌&&◌, Option, none, some, Option-cases, Bool-cases, arith, ltb, ◌==◌,
  add32, failed,
}
use cs537_project.Wmap.Types.{Mapping, slot, mapping_end, pgsize, pg_round_up}
use cs537_project.Wmap.Invariant.{InRange, IsValid}
use cs537_project.Wmap.Unmap.{
  Space, find_map, unload_page, unload, unload_mapping, is_written, unmap_slot, wunmap,
}
use cs537_project.Wmap.Unmap.Shift.{Removed, remove-Removed, remove-IsValid, find_map_lem}

-- The frames of the `n` pages from `va` on that are present, the last one first, before `acc`.
abbrev pub frames : (ℕ → Option ℕ) → ℕ → ℕ → List ℕ → List ℕ
frames g va zero acc = acc
frames g va (suc n) acc = frames g (va + pgsize) n (elim (g va) [ none ↦ acc | some f ↦ f ∷ acc ])

frames-same :
    {g g' : ℕ → Option ℕ} (n va : ℕ) (acc : List ℕ)
    → ((a : ℕ) → va ≤ a → g' a ≡ g a)
    → frames g' va n acc ≡ frames g va n acc
frames-same zero va acc same = refl
frames-same {g} {g'} (suc n) va acc same = rw (same va (omega arith)) (
    frames-same n (va + pgsize) (elim (g va) [ none ↦ acc | some f ↦ f ∷ acc ])
      (λ a h. same a (omega arith)))

-- The `n` pages from `va` on are gone from the page table, and their frames are released.
pub record Unloaded (s : Space) (va n : ℕ) (t : Space) : Type 0 where
  pub released : t.released ≡ frames s.pgdir va n s.released
  pub gone : (i : ℕ) → i < n → t.pgdir (va + i * pgsize) ≡ none
  pub kept : (a : ℕ) → (a < va) ⊎ (va + n * pgsize ≤ a) → t.pgdir a ≡ s.pgdir a

-- One page.
record Cleared (s : Space) (va : ℕ) (t : Space) : Type 0 where
  released : t.released ≡ elim (s.pgdir va) [ none ↦ s.released | some f ↦ f ∷ s.released ]
  gone : t.pgdir va ≡ none
  kept : (a : ℕ) → a ≢ va → t.pgdir a ≡ s.pgdir a

unload_page_lem : (s : Space) (va : ℕ) → Cleared s va (unload_page s va)
unfolding unload_page
unload_page_lem s va = elim (Option-cases (s.pgdir va)) [
  | inl e ↦ rw (unload_page, e) (record { released = rw e refl; gone = e; kept = λ a h. refl })
  | inr (f, e) ↦
      rw (unload_page, e)
        (record { released = rw e refl; gone = ground arith; kept = λ a h. ground arith })
]

Unloaded-none : {s : Space} (va : ℕ) → Unloaded s va 0 s
Unloaded-none va = record {
  released = refl;
  gone = λ i h. absurd (omega arith);
  kept = λ a h. refl;
}

Unloaded-cons :
    {s t w : Space} (va n : ℕ)
    → Cleared s va t
    → Unloaded t (va + pgsize) n w
    → Unloaded s va (suc n) w
Unloaded-cons {s} {t} {w} va n c u = record {
  released =
      u.released
      ∙ frames-same n (va + pgsize) t.released (λ a h. c.kept a (omega arith))
      ∙ ap (frames s.pgdir (va + pgsize) n) c.released;
  gone = gone;
  kept = kept;
}
  where
    gone : (i : ℕ) → i < suc n → w.pgdir (va + i * pgsize) ≡ none
    gone zero h = ap w.pgdir (omega arith) ∙ u.kept va (inl (omega arith)) ∙ c.gone
    gone (suc i) h = ap w.pgdir (omega arith) ∙ u.gone i (omega arith)

    kept : (a : ℕ) → (a < va) ⊎ (va + suc n * pgsize ≤ a) → w.pgdir a ≡ s.pgdir a
    kept a (inl h) = u.kept a (inl (omega arith)) ∙ c.kept a (omega arith)
    kept a (inr h) = u.kept a (inr (omega arith)) ∙ c.kept a (omega arith)

unload_lem :
    (s : Space) (r n va end : ℕ)
    → va + n * pgsize ≡ end
    → end < 2 ^ 32
    → n ≤ r
    → Unloaded s va n (unload s r va end)
unfolding unload
unload_lem s zero zero va end e fits enough = Unloaded-none va
unload_lem s zero (suc n) va end e fits enough = absurd (omega arith)
unload_lem s (suc r) zero va end e fits enough =
    (let stop : ltb va end ≡ false = ground arith in rw stop (Unloaded-none va))
unload_lem s (suc r) (suc n) va end e fits enough =
    let go : ltb va end ≡ true = ground arith in
    let step : add32 va pgsize ≡ va + pgsize = omega arith in
    let c = unload_page_lem s va in
    let u = unload_lem (unload_page s va) r n (va + pgsize) end (omega arith) fits (omega arith) in
    rw (go, step) (Unloaded-cons va n c u)

-- How many pages a mapping has.
abbrev pub num_pages : Mapping → ℕ
num_pages m = (m.len + 4095) / pgsize

unload_mapping-Unloaded :
    (s : Space) (m : Mapping) → InRange m → Unloaded s m.addr (num_pages m) (unload_mapping s m)
unfolding unload_mapping
unload_mapping-Unloaded s m v =
    unload_lem s (pg_round_up (mapping_end m) / pgsize) (num_pages m) m.addr
      (pg_round_up (mapping_end m)) (omega (arith, v.aligned, v.high))
      (omega (arith, v.aligned, v.high)) (omega (arith, v.aligned, v.high))

-- What a successful `wunmap` of the mapping at slot `i` does.
pub record Unmapped (s : Space) (i : ℕ) (t : Space) : Type 0 where
  pub maps : Removed s.maps i t.maps
  pub valid : IsValid t.maps
  pub pages : Unloaded s (slot s.maps.mappings i).addr (num_pages (slot s.maps.mappings i)) t

and_not : (a b : Bool) → a && not b ≡ true → (a ≡ true) × (b ≡ false)
and_not true true h = cc
and_not true false h = (refl, refl)
and_not false b h = cc

module _ (filewrite : ℕ → ℕ → ℕ → Bool) where
  abbrev pub CannotWrite : Mapping → Type 0
  CannotWrite m = (is_written m ≡ true) × (filewrite m.fd m.addr m.len ≡ false)

  pub unmap_slot_lem :
      (s : Space) (i : ℕ)
      → IsValid s.maps
      → i < s.maps.num_mappings
      → (((unmap_slot filewrite s i).0 ≡ 0) × Unmapped s i (unmap_slot filewrite s i).1)
        ⊎ ((unmap_slot filewrite s i ≡ (failed, s)) × CannotWrite (slot s.maps.mappings i))
  unfolding unmap_slot
  unmap_slot_lem s i v h =
      let m = slot s.maps.mappings i in
      elim (Bool-cases (is_written m && not (filewrite m.fd m.addr m.len))) [
        | inl stuck ↦
            rw stuck (inr (refl, and_not (is_written m) (filewrite m.fd m.addr m.len) stuck))
        | inr fine ↦
            let u = unload_mapping-Unloaded s m (v.in_range i h) in
            rw fine (
              inl (
                refl,
                record {
                  maps = remove-Removed v h;
                  valid = remove-IsValid v h;
                  pages = record { released = u.released; gone = u.gone; kept = u.kept };
                },
              ))
      ]

  not_found :
      (s : Space) (addr : ℕ)
      → find_map s.maps.mappings s.maps.num_mappings 0 addr ≡ none
      → wunmap filewrite s addr ≡ (failed, s)
  unfolding wunmap
  not_found s addr e = elim (Bool-cases (not (addr % pgsize == 0))) [
    | inl odd ↦ rw odd refl
    | inr even ↦ rw (even, e) refl
  ]

  pub wunmap_lem :
      (s : Space) (addr : ℕ)
      → IsValid s.maps
      → ((i : ℕ) × (i < s.maps.num_mappings)
          × ((slot s.maps.mappings i).addr ≡ addr)
          × ((((wunmap filewrite s addr).0 ≡ 0) × Unmapped s i (wunmap filewrite s addr).1)
              ⊎ ((wunmap filewrite s addr ≡ (failed, s)) × CannotWrite (slot s.maps.mappings i))))
        ⊎ (((a : ℕ) → a < s.maps.num_mappings → (slot s.maps.mappings a).addr ≢ addr)
            × (wunmap filewrite s addr ≡ (failed, s)))
  unfolding wunmap
  wunmap_lem s addr v = elim (find_map_lem s.maps.mappings s.maps.num_mappings 0 addr) [
    | inl (e, nowhere) ↦ inr (λ a h. nowhere a (omega arith) (omega arith), not_found s addr e)
    | inr (i, e, low, high, at) ↦
        let aligned : not (addr % pgsize == 0) ≡ false =
          ground (arith, at, (v.in_range i (omega arith)).aligned) in
        rw (aligned, e) (inl (i, omega arith, at, unmap_slot_lem s i v (omega arith)))
  ]
