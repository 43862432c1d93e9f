-- ===== src/Kalloc/Range.antt =====
-- `freerange` puts every whole page of a range on the free list.
use mathlib.Core.List.{Mem, mem-cons}
use mathlib.Core.Logic.Or
use mathlib.Core.HLevel.{⊥_prop}
use cs537_project.Prelude.{
  ℕ, zero, suc, ◌+◌, ◌-◌, ◌*◌, ◌/◌, ◌%◌, ◌^◌, ◌≤◌, ◌<◌, ◌≡◌, inl, inr, refl, ap, ◌∙◌, List, ◌∷◌,
  true, false, some, arith, leb, pgsize, phystop, kernbase, add32, pg_round_up,
}
use cs537_project.Kalloc.{Kmem, range_from, freerange}
use cs537_project.Kalloc.Chain.{IsPage, IsFree}
use cs537_project.Kalloc.Laws.{kfree_lem}

-- The `n` pages from `p` on, the last one first, before the pages that were free already.
abbrev pub page_run : ℕ → ℕ → List ℕ → List ℕ
page_run p zero pages = pages
page_run p (suc n) pages = page_run (p + pgsize) n (p ∷ pages)

-- No page of the list lies between `p` and `vend`.
abbrev pub Clear : ℕ → ℕ → List ℕ → Type 0
Clear p vend pages = (q : ℕ) → Mem q pages → ¬ ((p ≤ q) × (q < vend))

Clear-next :
    (vend p : ℕ) (pages : List ℕ) → Clear p vend pages → Clear (p + pgsize) vend (p ∷ pages)
Clear-next vend p pages clear q m (low, high) =
    Or.elim ⊥_prop (mem-cons.0 m) (λ e. omega arith) (λ h. clear q h (omega arith, high))

module _ {kernel_end vend : ℕ} (top : vend ≤ kernbase + phystop) where
  range_lem :
      (r n p : ℕ) {k : Kmem} {pages : List ℕ}
      → IsFree kernel_end k pages
      → p % pgsize ≡ 0
      → kernel_end ≤ p
      → kernbase ≤ p
      → p < 2 ^ 32 - pgsize
      → n ≡ (vend - p) / pgsize
      → n < r
      → Clear p vend pages
      → (k' : Kmem) × (range_from r kernel_end vend p k ≡ some k')
        × IsFree kernel_end k' (page_run p n pages)
  unfolding range_from
  range_lem zero n p f aligned behind high fits size enough clear = absurd (omega arith)
  range_lem (suc r) zero p {k} f aligned behind high fits size enough clear =
      let stop : leb (add32 p pgsize) vend ≡ false = ground arith in
      rw (range_from, stop) (k, refl, f)
  range_lem (suc r) (suc n) p {k} {pages} f aligned behind high fits size enough clear =
      let go : leb (add32 p pgsize) vend ≡ true = ground arith in
      let page : IsPage kernel_end p = record {
        aligned = aligned;
        behind = behind;
        below = omega arith;
        fits = omega arith;
      } in
      elim (kfree_lem p f page.fits (λ m. clear p m (omega arith, omega arith))) [
        | inl (k', e, page', list, same) ↦
            let (k'', e', list') =
              range_lem r n (p + pgsize) list (omega arith) (omega arith) (omega arith)
                (omega arith) (omega arith) (omega arith) (Clear-next vend p pages clear) in
            let step : add32 p pgsize ≡ p + pgsize = omega arith in
            rw (range_from, go, e)
              (k'', ap (λ (q : ℕ). range_from r kernel_end vend q k') step ∙ e', list')
        | inr (panic, illegal) ↦ absurd (illegal page)
      ]

  -- `freerange` of a range behind the kernel, none of whose pages is free already, does not panic, ends
  -- within its rounds, and puts exactly the whole pages of the range before the others.
  pub freerange_lem :
      (vstart : ℕ) {k : Kmem} {pages : List ℕ}
      → IsFree kernel_end k pages
      → kernel_end ≤ vstart
      → kernbase ≤ vstart
      → vstart < 2 ^ 32 - 2 * pgsize
      → Clear vstart vend pages
      → (k' : Kmem) × (freerange kernel_end vstart vend k ≡ some k')
        × IsFree kernel_end k'
            (page_run (pg_round_up vstart) ((vend - pg_round_up vstart) / pgsize) pages)
  unfolding freerange
  freerange_lem vstart f behind high fits clear =
      range_lem (vend / pgsize + 1) ((vend - pg_round_up vstart) / pgsize) (pg_round_up vstart) f
        (omega arith) (omega arith) (omega arith) (omega arith) refl (omega arith)
        (λ q m (low, below). clear q m (omega arith, below))
