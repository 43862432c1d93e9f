-- ===== src/Mm/Drop.antt =====
-- The loop of `wremap` that shrinks a mapping.
use mathlib.Core.Path.{subst}
use cs537_project.Prelude.{
  ℕ, zero, suc, ◌+◌, ◌-◌, ◌*◌, ◌/◌, ◌%◌, ◌^◌, ◌≤◌, ◌<◌, ◌≡◌, ◌≢◌, inl, inr, refl, ap, sym, ◌∙◌,
  Bool, true, false, not, Option, none, some, ◌==◌, arith, Bool-cases, Option-cases, ℕ_discrete,
  sub32, add32, is_neg, le_zero, pgsize, kernbase,
}
use cs537_project.Kalloc.{Kmem, kfree}
use cs537_project.Vm.{Pgdir, walk, set_pte, is_present, pte_addr, p2v}
use cs537_project.Vm.Walk.{present, walk-HasTable, set_pte_self, set_pte-page, set_pte-present_ne}
use cs537_project.Vm.Dealloc.{
  CanFree, AllFree, Cleared, Cleared-none, kfree_total, present-none, not_present, is_there,
}
use cs537_project.Wmap.Unmap.{find_map}
use cs537_project.Mm.{Image, gt_int, set_len, drop_page, drop_down, wremap}

-- The page at `va` is gone, and no other.
pub record Dropped (d d' : Pgdir) (va : ℕ) : Type 0 where
  pub page : d'.page ≡ d.page
  pub gone : present d' va ≡ none
  pub kept : (b : ℕ) → b < 2 ^ 32 → va / 4096 ≢ b / 4096 → present d' b ≡ present d b

Dropped-none : (d : Pgdir) (va : ℕ) → present d va ≡ none → Dropped d d va
Dropped-none d va e = record { page = refl; gone = e; kept = λ b h ne. refl }

pub drop_page_lem :
    (kernel_end : ℕ) (d : Pgdir) (k : Kmem) (va : ℕ)
    → va < 2 ^ 32
    → ((pte : ℕ) → present d va ≡ some pte → CanFree kernel_end pte)
    → (d' : Pgdir) × (k' : Kmem) × ((drop_page kernel_end d k va ≡ some (d', k')) × Dropped d d' va)
unfolding drop_page
drop_page_lem kernel_end d k va fits frees = elim (Option-cases (walk d va)) [
  | inl e ↦ (d, k, (rw (drop_page, e) refl, Dropped-none d va (present-none d va e)))
  | inr (pte, e) ↦ elim (Bool-cases (is_present pte)) [
    | inr p ↦ (d, k, (rw (drop_page, e, p) refl, Dropped-none d va (not_present d va pte e p)))
    | inl p ↦
        let (nonzero, good) = frees pte (is_there d va pte e p) in
        elim (Option-cases (kfree kernel_end (p2v (pte_addr pte)) k)) [
          | inl out ↦ absurd (kfree_total kernel_end (p2v (pte_addr pte)) k good out)
          | inr (k', freed) ↦ (
            set_pte d va 0,
            k',
            (
              rw (drop_page, e, p, freed) refl,
              record {
                page = set_pte-page d va 0;
                gone =
                    not_present (set_pte d va 0) va 0
                      (set_pte_self d va 0 (walk-HasTable d va pte e)) refl;
                kept = λ b h ne. set_pte-present_ne d va 0 b (h, fits, ne);
              },
            ),
          )
        ]
  ]
]

-- The last page first, then those before it.
Cleared-snoc :
    {d e u : Pgdir} (a va : ℕ)
    → va % pgsize ≡ 0
    → va + pgsize ≤ kernbase
    → a ≤ va
    → Dropped d e va
    → Cleared e u a va
    → Cleared d u a (va + pgsize)
Cleared-snoc {d} {e} {u} a va aligned high le one rest = record {
  page = rest.page ∙ one.page;
  gone = λ b low b_high b_aligned. elim (ℕ_discrete b va) [
    | yes last ↦ rest.kept b (omega arith) (inr (omega arith)) ∙ ap (present e) last ∙ one.gone
    | no before ↦ rest.gone b low (omega arith) b_aligned
  ];
  kept = λ b fits h.
      rest.kept b fits (omega (arith, h)) ∙ one.kept b fits (λ same. omega (arith, h, same));
}

AllFree-before :
    (kernel_end : ℕ) (d e : Pgdir) (a va : ℕ)
    → va + pgsize ≤ kernbase
    → va % pgsize ≡ 0
    → Dropped d e va
    → AllFree kernel_end d a (va + pgsize)
    → AllFree kernel_end e a va
AllFree-before kernel_end d e a va high aligned one frees b pte low b_high b_aligned p =
    frees b pte low (omega arith) b_aligned
      (sym (one.kept b (omega arith) (λ same. omega (arith, same))) ∙ p)

-- Where the pages that stay behind a new size end.
abbrev pub keeps : ℕ → ℕ
keeps newsize = newsize / pgsize * pgsize

-- The result of the loop, which does not panic.
abbrev Shrunk : ℕ → ℕ → Pgdir → Option (Pgdir × Kmem) → Type 0
Shrunk a end d o = (d' : Pgdir) × (k' : Kmem) × ((o ≡ some (d', k')) × Cleared d d' a end)

Shrunk-snoc :
    (kernel_end r : ℕ) (d e : Pgdir) (k k' : Kmem) (oldaddr temp newsize va a : ℕ)
    → gt_int temp newsize ≡ true
    → sub32 (add32 oldaddr temp) pgsize ≡ va
    → sub32 temp pgsize ≡ temp - pgsize
    → va % pgsize ≡ 0
    → va + pgsize ≤ kernbase
    → a ≤ va
    → drop_page kernel_end d k va ≡ some (e, k')
    → Dropped d e va
    → Shrunk a va e (drop_down kernel_end r e k' oldaddr (temp - pgsize) newsize)
    → Shrunk a (va + pgsize) d (drop_down kernel_end (suc r) d k oldaddr temp newsize)
unfolding drop_down
Shrunk-snoc kernel_end r d e k k' oldaddr temp newsize va a more at left aligned high low dropped
      one (u, k'', (rest, c)) =
    (
      u,
      k'',
      (rw (drop_down, more, at, dropped, left) rest, Cleared-snoc a va aligned high low one c),
    )

drop_down_lem :
    (kernel_end r : ℕ) (d : Pgdir) (k : Kmem) (oldaddr temp newsize : ℕ)
    → oldaddr % pgsize ≡ 0
    → temp % pgsize ≡ 0
    → oldaddr + temp ≤ kernbase
    → newsize < 2 ^ 31
    → temp < 2 ^ 31
    → temp < r * pgsize
    → AllFree kernel_end d (oldaddr + keeps newsize) (oldaddr + temp)
    → Shrunk
        (oldaddr + keeps newsize)
        (oldaddr + temp)
        d
        (drop_down kernel_end r d k oldaddr temp newsize)
unfolding drop_down
drop_down_lem kernel_end zero d k oldaddr temp newsize a_al t_al high small t_small enough frees =
    absurd (omega arith)
drop_down_lem kernel_end (suc r) d k oldaddr temp newsize a_al t_al high small t_small enough
      frees =
    elim (Bool-cases (gt_int temp newsize)) [
      | inr done ↦ (
        d,
        k,
        (
          rw (drop_down, done) refl,
          Cleared-none d (oldaddr + keeps newsize) (oldaddr + temp) (ground arith),
        ),
      )
      | inl more ↦
          let above : newsize < temp = ground arith in
          let va = oldaddr + (temp - pgsize) in
          let a = oldaddr + keeps newsize in
          let end : va + pgsize ≡ oldaddr + temp = omega arith in
          let frees' : AllFree kernel_end d a (va + pgsize) =
            subst (λ (x : ℕ). AllFree kernel_end d a x) (sym end) frees in
          let (e, k', (dropped, one)) =
            drop_page_lem kernel_end d k va (omega arith)
              (λ pte p. frees' va pte (omega arith) (omega arith) (omega arith) p) in
          subst (λ (x : ℕ). Shrunk a x d (drop_down kernel_end (suc r) d k oldaddr temp newsize))
            end
            (Shrunk-snoc kernel_end r d e k k' oldaddr temp newsize va a more (omega arith)
              (omega arith) (omega arith) (omega arith) (omega arith) dropped one
              (drop_down_lem kernel_end r e k' oldaddr (temp - pgsize) newsize a_al (omega arith)
                (omega arith) small (omega arith) (omega arith)
                (AllFree-before kernel_end d e a va (omega arith) (omega arith) one frees')))
    ]

-- `wremap` of a mapping of whole pages to a smaller size, when each page present behind the new size, rounded
-- down to a page, can be freed, does not panic and returns the old address; the pages from the new size,
-- rounded down, to the old one are gone, all others are as they were. So a new size that is not a
-- multiple of the page size gives up the page of its last byte.
pub wremap-shrinks :
    (kernel_end : ℕ) (filewrite : ℕ → ℕ → ℕ → Bool) (s : Image)
    (i oldaddr oldsize newsize flags : ℕ)
    → find_map s.maps.mappings s.maps.num_mappings 0 oldaddr ≡ some i
    → oldaddr % pgsize ≡ 0
    → oldsize % pgsize ≡ 0
    → oldaddr + oldsize ≤ kernbase
    → 0 < newsize
    → newsize < oldsize
    → oldsize < 2 ^ 31
    → AllFree kernel_end s.pgdir (oldaddr + keeps newsize) (oldaddr + oldsize)
    → (d : Pgdir) × (k : Kmem) × ((wremap kernel_end filewrite s oldaddr oldsize newsize flags
          ≡ some (oldaddr, record { maps = set_len s.maps i newsize; pgdir = d; kmem = k }))
        × Cleared s.pgdir d (oldaddr + keeps newsize) (oldaddr + oldsize))
unfolding wremap
wremap-shrinks kernel_end filewrite s i oldaddr oldsize newsize flags found a_al o_al high pos less
      small frees =
    let aligned : not (oldaddr % pgsize == 0) ≡ false = ground arith in
    let sized : le_zero newsize ≡ false = ground arith in
    let differ : (sub32 newsize oldsize == 0) ≡ false = ground arith in
    let negative : is_neg (sub32 newsize oldsize) ≡ true = ground arith in
    let (d, k, (dropped, c)) =
      drop_down_lem kernel_end (oldsize / pgsize + 1) s.pgdir s.kmem oldaddr oldsize newsize a_al
        o_al high (omega arith) small (omega arith) frees in
    (d, k, (rw (wremap, aligned, sized, found, differ, negative, dropped) refl, c))
