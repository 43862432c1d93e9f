-- ===== src/Kalloc/Laws.antt =====
-- `kfree` and `kalloc` on the free list.
use mathlib.Core.Path.{subst}
use mathlib.Core.List.{Mem, mem-cons, Nodup-cons, mem-cons_self, mem-cons_of_mem}
use mathlib.Core.Logic.Or
use cs537_project.Prelude.{
  update_self, update-ne, ℕ, ◌+◌, ◌*◌, ◌^◌, ◌≤◌, ◌<◌, ◌≡◌, ◌≢◌, ◌⊎◌, inl, inr, refl, sym, ◌∙◌, List,
  [], ◌∷◌, false, none, some, arith, ◌==◌, update, pgsize, Bool-cases,
}
use cs537_project.Kalloc.{Kmem, fill_page, is_bad, kfree, kalloc}
use cs537_project.Kalloc.Chain.{
  Chain, IsPage, IsFree, IsPage-prop, Chain-same, stosl-outside, stosl-inside,
}

-- What `kfree` does to the memory.
pub record Freed (v : ℕ) (k k' : Kmem) : Type 0 where
  pub outside : (a : ℕ) → (a < v) ⊎ (v + pgsize ≤ a) → k'.mem a ≡ k.mem a
  pub junk : (i : ℕ) → 0 < i → i < 1024 → k'.mem (v + 4 * i) ≡ 0x0101_0101

freed :
    {v : ℕ} (k : Kmem)
    → Freed v k (record k { mem = update (fill_page k.mem v) v k.freelist; freelist = v })
freed {v} k = record {
  outside = λ a h.
      update-ne (fill_page k.mem v) v a k.freelist (λ e. far h e)
      ∙ stosl-outside k.mem v 0x0101_0101 1024 a (omega (arith, h));
  junk = λ i low high.
      update-ne (fill_page k.mem v) v (v + 4 * i) k.freelist (omega arith)
      ∙ stosl-inside k.mem v 0x0101_0101 1024 i high;
}
  where
    far : {a : ℕ} → (a < v) ⊎ (v + pgsize ≤ a) → v ≢ a
    far (inl h) = omega arith
    far (inr h) = omega arith

module _ {kernel_end : ℕ} where
  not_bad : {v : ℕ} → IsPage kernel_end v → is_bad kernel_end v ≡ false
  not_bad p = ground (arith, p.aligned, p.behind, p.below)

  is_bad-IsPage : {v : ℕ} → v < 2 ^ 32 → is_bad kernel_end v ≡ false → IsPage kernel_end v
  is_bad-IsPage fits h = record {
    aligned = ground arith;
    behind = ground arith;
    below = ground arith;
    fits = fits;
  }

  -- A page is nowhere 0.
  pub page-nonzero : {v : ℕ} → IsPage kernel_end v → v ≢ 0
  page-nonzero p e = omega (arith, p.below, p.fits)

  -- Two pages that are not the same do not overlap.
  pub page_apart :
      {p v : ℕ} → IsPage kernel_end p → IsPage kernel_end v → p ≢ v → (p < v) ⊎ (v + pgsize ≤ p)
  page_apart a b ne = omega (arith, a.aligned, b.aligned)

  -- `kfree` panics exactly on what is not a page behind the kernel. A page that is not free yet becomes
  -- the first free page, filled with junk; nothing outside of it changes.
  pub kfree_lem :
      {k : Kmem} {pages : List ℕ} (v : ℕ)
      → IsFree kernel_end k pages
      → v < 2 ^ 32
      → ¬ Mem v pages
      → ((k' : Kmem) × (kfree kernel_end v k ≡ some k')
          × IsPage kernel_end v
          × IsFree kernel_end k' (v ∷ pages)
          × Freed v k k')
        ⊎ ((kfree kernel_end v k ≡ none) × (¬ IsPage kernel_end v))
  unfolding kfree
  kfree_lem {k} {pages} v f fits fresh = elim (Bool-cases (is_bad kernel_end v)) [
    | inl bad ↦ rw bad (inr (refl, λ page. (let good = not_bad page in cc)))
    | inr good ↦
        let page = is_bad-IsPage fits good in
        let k' : Kmem = record k { mem = update (fill_page k.mem v) v k.freelist; freelist = v } in
        let distinct = Nodup-cons.1 (fresh, f.distinct) in
        let same : (p : ℕ) → Mem p pages → k'.mem p ≡ k.mem p = λ p h.
          (freed k).outside p
            (page_apart (f.legal p h) page (λ e. fresh (subst (λ (x : ℕ). Mem x pages) e h))) in
        rw good (
          inl (
            k',
            refl,
            page,
            record {
              chain = (
                refl,
                subst (λ (g : ℕ). Chain k'.mem g pages)
                    (sym (update_self (fill_page k.mem v) v k.freelist))
                    (Chain-same k.freelist pages same f.chain),
              );
              legal = λ p h.
                  Or.elim IsPage-prop (mem-cons.0 h)
                    (λ e. subst (λ (x : ℕ). IsPage kernel_end x) (sym e) page) (f.legal p);
              distinct = distinct;
            },
            freed k,
          ))
  ]

  -- `kalloc` takes the first free page; without one it returns 0. It writes to no page.
  pub kalloc_lem :
      {k : Kmem} {pages : List ℕ}
      → IsFree kernel_end k pages
      → ((pages ≡ []) × (kalloc k ≡ (0, k)))
        ⊎ ((v : ℕ) × (rest : List ℕ) × (pages ≡ v ∷ rest)
            × ((kalloc k).0 ≡ v)
            × IsPage kernel_end v
            × IsFree kernel_end (kalloc k).1 rest
            × ((kalloc k).1.mem ≡ k.mem))
  unfolding kalloc
  kalloc_lem {k} {pages = []} f = inl (refl, rw f.chain refl)
  kalloc_lem {k} {pages = v ∷ rest} f =
      let page = f.legal v mem-cons_self in
      let taken : (k.freelist == 0) ≡ false = ground (arith, f.chain.0, page-nonzero page) in
      rw taken (
        inr (
          v,
          rest,
          refl,
          f.chain.0,
          page,
          record {
            chain = subst (λ (p : ℕ). Chain k.mem (k.mem p) rest) (sym f.chain.0) f.chain.1;
            legal = λ p h. f.legal p (mem-cons_of_mem v h);
            distinct = (Nodup-cons.0 f.distinct).1;
          },
          refl,
        ))
