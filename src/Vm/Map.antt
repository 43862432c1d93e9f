-- ===== src/Vm/Map.antt =====
-- `mappages`.
use cs537_project.Prelude.{
  ℕ, zero, suc, ◌+◌, ◌*◌, ◌/◌, ◌%◌, ◌^◌, ◌≤◌, ◌<◌, ◌≡◌, ◌⊎◌, inl, inr, refl, ap, sym, ◌∙◌, true,
  false, none, some, ◌==◌, arith, Bool-cases, Option-cases, add32, sub32, pgsize, pg_round_down,
}
use cs537_project.Kalloc.{Kmem}
use cs537_project.Vm.{
  Pgdir, walk, walk_alloc, set_pte, is_present, has_page, make_pte, Mapped, mapped, full, remap,
  spins, map_from, mappages,
}
use cs537_project.Vm.Walk.{
  present, present-walk, HasTable, walk_alloc_lem, set_pte_self, set_pte-page, set_pte-present_ne,
}

-- The `n` pages from `a` on are mapped to those from `pa` on, and no other page has changed.
pub record MapsTo (d d' : Pgdir) (a pa perm n : ℕ) : Type 0 where
  pub page : d'.page ≡ d.page
  pub new : (j : ℕ) → j < n → present d' (a + j * pgsize) ≡ some (make_pte (pa + j * pgsize) perm)
  pub old : (b : ℕ) → b < 2 ^ 32 → (b < a) ⊎ (a + n * pgsize ≤ b) → present d' b ≡ present d b

-- How a call ends that is to map `n` pages, none of which is present: all are mapped, or the memory is
-- short after some of them.
abbrev pub Outcome : Pgdir → ℕ → ℕ → ℕ → ℕ → Mapped → Type 0
Outcome d a pa perm n (mapped d' k) = MapsTo d d' a pa perm n
Outcome d a pa perm n (full d' k) = (m : ℕ) × (m < n) × MapsTo d d' a pa perm m
Outcome d a pa perm n remap = ⊥
Outcome d a pa perm n spins = ⊥

absent : (d : Pgdir) (a : ℕ) → present d a ≡ none → has_page (walk d a) ≡ false
unfolding present
absent d a h = elim (Option-cases (walk d a)) [
  | inl e ↦ rw e refl
  | inr (pte, e) ↦ elim (Bool-cases (is_present pte)) [
    | inl p ↦ (let h' = sym (rw (e, p) at h) in cc)
    | inr p ↦ rw e p
  ]
]

-- One page is mapped.
module _ (d d' : Pgdir) (a pa perm : ℕ) (aligned : a % pgsize ≡ 0) (fits : a < 2 ^ 32)
    (pa_aligned : pa % pgsize ≡ 0) (table : HasTable d' a) (same_page : d'.page ≡ d.page)
    (same : (b : ℕ) → present d' b ≡ present d b) where
  entry-here : present (set_pte d' a (make_pte pa perm)) a ≡ some (make_pte pa perm)
  entry-here =
      present-walk (set_pte d' a (make_pte pa perm)) a (make_pte pa perm)
        (set_pte_self d' a (make_pte pa perm) table) (ground arith)

  entry-else :
      (b : ℕ)
      → b < 2 ^ 32
      → (b < a) ⊎ (a + pgsize ≤ b)
      → present (set_pte d' a (make_pte pa perm)) b ≡ present d b
  entry-else b b_fits h =
      set_pte-present_ne d' a (make_pte pa perm) b (b_fits, fits, λ e. omega (arith, h, e)) ∙ same b

  entry-one : MapsTo d (set_pte d' a (make_pte pa perm)) a pa perm 1
  entry-one = record {
    page = set_pte-page d' a (make_pte pa perm) ∙ same_page;
    new = λ j h. one j h;
    old = λ b b_fits h. entry-else b b_fits (omega (arith, h));
  }
    where
      one :
          (j : ℕ)
          → j < 1
          → present (set_pte d' a (make_pte pa perm)) (a + j * pgsize)
            ≡ some (make_pte (pa + j * pgsize) perm)
      one zero h =
          ap (present (set_pte d' a (make_pte pa perm))) (omega arith)
          ∙ entry-here
          ∙ ap some (omega arith)
      one (suc j) h = absurd (omega arith)

MapsTo-none :
    {d d' : Pgdir} (a pa perm : ℕ)
    → d'.page ≡ d.page
    → ((b : ℕ) → present d' b ≡ present d b)
    → MapsTo d d' a pa perm 0
MapsTo-none a pa perm same_page same = record {
  page = same_page;
  new = λ j h. absurd (omega arith);
  old = λ b b_fits h. same b;
}

MapsTo-cons :
    {d e u : Pgdir} (a pa perm n : ℕ)
    → a < 2 ^ 32
    → MapsTo d e a pa perm 1
    → MapsTo e u (a + pgsize) (pa + pgsize) perm n
    → MapsTo d u a pa perm (suc n)
MapsTo-cons {d} {e} {u} a pa perm n fits one rest = record {
  page = rest.page ∙ one.page;
  new = new;
  old = old;
}
  where
    new : (j : ℕ) → j < suc n → present u (a + j * pgsize) ≡ some (make_pte (pa + j * pgsize) perm)
    new zero h =
        ap (present u) (omega arith)
        ∙ rest.old a fits (inl (omega arith))
        ∙ ap (present e) (omega arith)
        ∙ one.new 0 (omega arith)
    new (suc j) h =
        ap (present u) (omega arith)
        ∙ rest.new j (omega arith)
        ∙ ap (λ (x : ℕ). some (make_pte x perm)) (omega arith)

    old : (b : ℕ) → b < 2 ^ 32 → (b < a) ⊎ (a + suc n * pgsize ≤ b) → present u b ≡ present d b
    old b b_fits h = rest.old b b_fits (omega (arith, h)) ∙ one.old b b_fits (omega (arith, h))

Outcome-cons :
    {d e : Pgdir} (a pa perm n : ℕ) (r : Mapped)
    → a < 2 ^ 32
    → MapsTo d e a pa perm 1
    → Outcome e (a + pgsize) (pa + pgsize) perm n r
    → Outcome d a pa perm (suc n) r
Outcome-cons a pa perm n (mapped u k) fits one rest = MapsTo-cons a pa perm n fits one rest
Outcome-cons a pa perm n (full u k) fits one (m, low, rest) =
    (suc m, omega arith, MapsTo-cons a pa perm m fits one rest)
Outcome-cons a pa perm n remap fits one rest = rest
Outcome-cons a pa perm n spins fits one rest = rest

map_from_lem :
    (r n : ℕ) (d : Pgdir) (k : Kmem) (a last pa perm : ℕ)
    → last ≡ a + n * pgsize
    → last + pgsize ≤ 2 ^ 32
    → a % pgsize ≡ 0
    → pa % pgsize ≡ 0
    → pa + n * pgsize < 2 ^ 32
    → n < r
    → ((j : ℕ) → j ≤ n → present d (a + j * pgsize) ≡ none)
    → Outcome d a pa perm (suc n) (map_from r d k a last pa perm)
unfolding map_from
map_from_lem zero n d k a last pa perm at fits aligned pa_aligned pa_fits enough free =
    absurd (omega arith)
map_from_lem (suc r) zero d k a last pa perm at fits aligned pa_aligned pa_fits enough free =
    let (same_page, same, ok) = walk_alloc_lem d k a in
    let d' = (walk_alloc d k a).1 in
    let clear : has_page (walk d' a) ≡ false =
      absent d' a (same a ∙ ap (present d) (omega arith) ∙ free 0 (omega arith)) in
    elim ok [
      | inl out ↦ rw (map_from, out) (0, omega arith, MapsTo-none a pa perm same_page same)
      | inr (got, table) ↦
          let done : (a == last) ≡ true = ground arith in
          rw (map_from, got, clear, done)
            (entry-one d d' a pa perm aligned (omega arith) pa_aligned table same_page same)
    ]
map_from_lem (suc r) (suc n) d k a last pa perm at fits aligned pa_aligned pa_fits enough free =
    let (same_page, same, ok) = walk_alloc_lem d k a in
    let d' = (walk_alloc d k a).1 in
    let clear : has_page (walk d' a) ≡ false =
      absent d' a (same a ∙ ap (present d) (omega arith) ∙ free 0 (omega arith)) in
    elim ok [
      | inl out ↦ rw (map_from, out) (0, omega arith, MapsTo-none a pa perm same_page same)
      | inr (got, table) ↦
          let one =
            entry-one d d' a pa perm aligned (omega arith) pa_aligned table same_page same in
          let more : (a == last) ≡ false = ground arith in
          let up : add32 a pgsize ≡ a + pgsize = omega arith in
          let pa_up : add32 pa pgsize ≡ pa + pgsize = omega arith in
          let e = set_pte d' a (make_pte pa perm) in
          rw (map_from, got, clear, more, up, pa_up)
            (Outcome-cons a pa perm (suc n)
              (map_from r e (walk_alloc d k a).2 (a + pgsize) last (pa + pgsize) perm) (omega arith)
              one
              (map_from_lem r n e (walk_alloc d k a).2 (a + pgsize) last (pa + pgsize) perm
                (omega arith) fits (omega arith) (omega arith) (omega arith) (omega arith)
                (λ j h.
                  one.old (a + pgsize + j * pgsize) (omega arith) (inr (omega arith))
                  ∙ ap (present d) (omega arith)
                  ∙ free (suc j) (omega arith))))
    ]

-- `mappages` of `n` pages, none of which is present, at page-aligned addresses that do not run past the
-- end of the address space: it does not panic, and ends; all pages are mapped, in order, or the memory
-- is short after some of them, and -1 is returned; no other page is touched.
pub mappages_lem :
    (d : Pgdir) (k : Kmem) (va n pa perm : ℕ)
    → 0 < n
    → va % pgsize ≡ 0
    → pa % pgsize ≡ 0
    → va + n * pgsize < 2 ^ 32
    → pa + n * pgsize < 2 ^ 32
    → ((j : ℕ) → j < n → present d (va + j * pgsize) ≡ none)
    → Outcome d va pa perm n (mappages d k va (n * pgsize) pa perm)
unfolding mappages
mappages_lem d k va zero pa perm pos aligned pa_aligned fits pa_fits free = absurd (omega arith)
mappages_lem d k va (suc n) pa perm pos aligned pa_aligned fits pa_fits free =
    let first : pg_round_down va ≡ va = omega arith in
    let last : pg_round_down (sub32 (add32 va (suc n * pgsize)) 1) ≡ va + n * pgsize =
      omega arith in
    let rounds : sub32 (va + n * pgsize) va / pgsize + 1 ≡ suc n = omega arith in
    rw (first, last, rounds)
      (map_from_lem (suc n) n d k va (va + n * pgsize) pa perm refl (omega arith) aligned pa_aligned
        (omega arith) (omega arith) (λ j h. free j (omega arith)))
