-- ===== src/Kalloc/History.antt =====
-- The allocator over its whole life: pages are taken and given back in any order, and whoever holds a
-- page writes to it what it likes.
use mathlib.Core.Path.{subst}
use mathlib.Core.List.{
  Mem, Nodup, Perm, perm_middle, Nodup-cons, mem-cons_self, mem-append_left, append-nil,
  Nodup-append, mem-append_right,
}
use mathlib.Core.List.Perm
use cs537_project.Prelude.{
  update-ne, ℕ, ◌+◌, ◌≤◌, ◌<◌, ◌≡◌, ◌≢◌, ◌⊎◌, inl, inr, sym, ap, List, [], ◌∷◌, ◌++◌, ◌∙◌, some,
  of_some-eq, arith, update, pgsize,
}
use cs537_project.Kalloc.{Kmem, kfree, kalloc}
use cs537_project.Kalloc.Chain.{IsPage, IsFree, Chain-same}
use cs537_project.Kalloc.Laws.{kfree_lem, kalloc_lem, page_apart}

-- The allocator's state and the pages that are held.
pub record World : Type 0 where
  pub kmem : Kmem
  pub held : List ℕ

pub data Step (kernel_end : ℕ) (w : World) : World → Type 0 where
  alloc_step :
      (kalloc w.kmem).0 ≢ 0
      → Step kernel_end w (record { kmem = (kalloc w.kmem).1; held = (kalloc w.kmem).0 ∷ w.held })
  free_step :
      (v : ℕ) (rest : List ℕ) (k' : Kmem)
      → Perm w.held (v ∷ rest)
      → kfree kernel_end v w.kmem ≡ some k'
      → Step kernel_end w (record { kmem = k'; held = rest })
  store_step :
      (v : ℕ) (rest : List ℕ) (a x : ℕ)
      → Perm w.held (v ∷ rest)
      → v ≤ a
      → a < v + pgsize
      → Step kernel_end w
          (record { kmem = record w.kmem { mem = update w.kmem.mem a x }; held = w.held })

pub data Reach (kernel_end : ℕ) (k : Kmem) : World → Type 0 where
  start : Reach kernel_end k (record { kmem = k; held = [] })
  later : {s t : World} → Reach kernel_end k s → Step kernel_end s t → Reach kernel_end k t

-- `all` are the pages that there are: each is free or held, and none is both or twice.
pub record IsShared (kernel_end : ℕ) (all : List ℕ) (w : World) : Type 0 where
  pub free : List ℕ
  pub list : IsFree kernel_end w.kmem free
  pub split : Perm (w.held ++ free) all

module _ {kernel_end : ℕ} {all : List ℕ} (distinct : Nodup all)
    (legal : (p : ℕ) → Mem p all → IsPage kernel_end p) where
  in_all :
      {held : List ℕ} (free : List ℕ) (v : ℕ) (rest : List ℕ)
      → Perm (held ++ free) all
      → Perm held (v ∷ rest)
      → Perm (v ∷ (rest ++ free)) all
  in_all {held} free v rest split p = Perm.trans (Perm.symm (Perm.append_right free p)) split

  -- What is held is a page, and is not free.
  owned :
      {free : List ℕ} (v : ℕ) (rest : List ℕ)
      → Perm (v ∷ (rest ++ free)) all
      → IsPage kernel_end v × (¬ Mem v free)
  owned {free} v rest p = (
    legal v (Perm.subset p v mem-cons_self),
    λ m. (Nodup-cons.0 (Perm.nodup (Perm.symm p) distinct)).0 (mem-append_right rest m),
  )

  Step-IsShared :
      {s t : World} → Step kernel_end s t → IsShared kernel_end all s → IsShared kernel_end all t
  Step-IsShared {s} (alloc_step ne) i = elim (kalloc_lem i.list) [
    | inl (e, r) ↦ absurd (ne (ap (λ (q : ℕ × Kmem). q.0) r))
    | inr (v, rest, e, r, page, list, same) ↦ record {
      free = rest;
      list = list;
      split =
          subst (λ (x : ℕ). Perm (x ∷ (s.held ++ rest)) all) (sym r)
            (Perm.trans (Perm.symm (perm_middle s.held rest))
              (subst (λ (f : List ℕ). Perm (s.held ++ f) all) e i.split));
    }
  ]
  Step-IsShared {s} (free_step v rest k' p e) i =
      let q = in_all i.free v rest i.split p in
      let (page, fresh) = owned v rest q in
      elim (kfree_lem v i.list page.fits fresh) [
        | inl (k'', e'', page', list, same) ↦ record {
          free = v ∷ i.free;
          list =
              subst (λ (k : Kmem). IsFree kernel_end k (v ∷ i.free)) (of_some-eq (sym e'' ∙ e))
                list;
          split = Perm.trans (perm_middle rest i.free) q;
        }
        | inr (panic, illegal) ↦ absurd (illegal page)
      ]
  Step-IsShared {s} (store_step v rest a x p low high) i =
      let q = in_all i.free v rest i.split p in
      let (page, fresh) = owned v rest q in
      record {
        free = i.free;
        list = record {
          chain =
              Chain-same s.kmem.freelist i.free
                (λ f h. update-ne s.kmem.mem a f x (λ e.
                  outside
                    (page_apart (i.list.legal f h) page
                      (λ same. fresh (subst (λ (y : ℕ). Mem y i.free) same h)))
                    (sym e) low high))
                i.list.chain;
          legal = i.list.legal;
          distinct = i.list.distinct;
        };
        split = i.split;
      }
    where
      outside : {f a v : ℕ} → (f < v) ⊎ (v + pgsize ≤ f) → f ≡ a → v ≤ a → a < v + pgsize → ⊥
      outside h e low high = omega (arith, h)

  Reach-IsShared :
      {k : Kmem} {w : World}
      → IsFree kernel_end k all
      → Reach kernel_end k w
      → IsShared kernel_end all w
  Reach-IsShared f start = record { free = all; list = f; split = Perm.refl all }
  Reach-IsShared f (later r st) = Step-IsShared st (Reach-IsShared f r)

-- Under any order of allocations, releases and stores by the holders, no page is held twice; and
-- `kalloc` returns 0 only when all pages are held, and otherwise a page that nobody holds.
pub Reach-owner :
    {kernel_end : ℕ} {all : List ℕ} {k : Kmem} {w : World}
    → IsFree kernel_end k all
    → Reach kernel_end k w
    → Nodup w.held
      × ((((kalloc w.kmem).0 ≡ 0) × Perm w.held all)
          ⊎ (Mem (kalloc w.kmem).0 all × (¬ Mem (kalloc w.kmem).0 w.held)))
Reach-owner {all} {w} f r =
    let i = Reach-IsShared f.distinct f.legal f r in
    let once = Perm.nodup (Perm.symm i.split) f.distinct in
    (
      (Nodup-append.0 once).0,
      elim (kalloc_lem i.list) [
        | inl (e, none_left) ↦ inl (
          ap (λ (q : ℕ × Kmem). q.0) none_left,
          subst (λ (h : List ℕ). Perm h all) (append-nil w.held)
              (subst (λ (g : List ℕ). Perm (w.held ++ g) all) e i.split),
        )
        | inr (v, rest, e, r, page, list, same) ↦
            let q =
              Perm.trans (Perm.symm (perm_middle w.held rest))
                (subst (λ (g : List ℕ). Perm (w.held ++ g) all) e i.split) in
            inr (
              subst (λ (x : ℕ). Mem x all × (¬ Mem x w.held)) (sym r)
                (
                  Perm.subset q v mem-cons_self,
                  λ m.
                      (Nodup-cons.0 (Perm.nodup (Perm.symm q) f.distinct)).0
                        (mem-append_left rest m),
                ))
      ],
    )
