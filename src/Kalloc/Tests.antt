-- ===== src/Kalloc/Tests.antt =====
-- Two pages behind a kernel that ends at 0x80100000.
use mathlib.Core.List.{Mem, Nodup, Nodup-nil, Nodup-cons, mem-cons, not-mem-nil, Perm}
use mathlib.Core.Logic.Or
use mathlib.Core.Path.{subst}
use cs537_project.Prelude.{
  ℕ, ◌-◌, ◌/◌, ◌≡◌, ◌≢◌, ◌⊎◌, refl, sym, [], ◌∷◌, Option, some, none, arith, pgsize, pg_round_up,
  false,
}
use cs537_project.Kalloc.{Kmem, kfree, kalloc, freerange, range_from, stosl}
use cs537_project.Kalloc.Chain.{IsPage, IsFree, IsPage-prop}
use cs537_project.Kalloc.Laws.{Freed, kfree_lem}
use cs537_project.Kalloc.Range.{page_run, freerange_lem}
use cs537_project.Kalloc.History.{World, alloc_step, start, later, Reach-owner}

abbrev kernel_end : ℕ
kernel_end = 0x8010_0000

abbrev page : ℕ
page = 0x8010_0000

abbrev no_pages : Kmem
no_pages = record { mem = λ a. 0; use_lock = false; freelist = 0 }

abbrev one_page : Kmem
one_page = record { mem = λ a. 0; use_lock = false; freelist = page }

no_pages-IsFree : IsFree kernel_end no_pages []
no_pages-IsFree = record {
  chain = refl;
  legal = λ p m. absurd (not-mem-nil m);
  distinct = Nodup-nil;
}

page-IsPage : IsPage kernel_end page
page-IsPage = record {
  aligned = refl;
  behind = omega arith;
  below = omega arith;
  fits = omega arith;
}

one_page-IsFree : IsFree kernel_end one_page (page ∷ [])
one_page-IsFree = record {
  chain = (refl, refl);
  legal = λ p m.
      Or.elim IsPage-prop (mem-cons.0 m)
        (λ e. subst (λ (x : ℕ). IsPage kernel_end x) (sym e) page-IsPage)
        (λ n. absurd (not-mem-nil n));
  distinct = Nodup-cons.1 (not-mem-nil, Nodup-nil);
}

kfree_lem_example :
    ((k' : Kmem) × (kfree kernel_end page no_pages ≡ some k')
      × IsPage kernel_end page
      × IsFree kernel_end k' (page ∷ [])
      × Freed page no_pages k')
    ⊎ ((kfree kernel_end page no_pages ≡ none) × (¬ IsPage kernel_end page))
kfree_lem_example = kfree_lem page no_pages-IsFree (omega arith) not-mem-nil

freerange_lem_example :
    (k' : Kmem) × (freerange kernel_end 0x8010_0001 0x8010_3800 no_pages ≡ some k')
    × IsFree kernel_end k'
        (page_run (pg_round_up 0x8010_0001) ((0x8010_3800 - pg_round_up 0x8010_0001) / pgsize) [])
freerange_lem_example =
    freerange_lem (omega arith) 0x8010_0001 no_pages-IsFree (omega arith) (omega arith)
      (omega arith) (λ q m. absurd (not-mem-nil m))

abbrev after : World
after = record { kmem = (kalloc one_page).1; held = (kalloc one_page).0 ∷ [] }

taken : (kalloc one_page).0 ≢ 0
unfolding kalloc
taken e = omega (arith, e)

Reach-owner_example :
    Nodup after.held
    × ((((kalloc after.kmem).0 ≡ 0) × Perm after.held (page ∷ []))
        ⊎ (Mem (kalloc after.kmem).0 (page ∷ []) × (¬ Mem (kalloc after.kmem).0 after.held)))
Reach-owner_example =
    Reach-owner {k = one_page} {w = after} one_page-IsFree (later start (alloc_step taken))

-- Both pages of the range come back, the last one first; the third time there is none.
abbrev from : Option Kmem → Kmem
from none = no_pages
from (some k) = k

abbrev filled : Kmem
filled = from (freerange kernel_end 0x8010_0001 0x8010_3800 no_pages)

hands_out : ((kalloc filled).0 ≡ 0x8010_2000) × ((kalloc (kalloc filled).1).0 ≡ 0x8010_1000)
unfolding kalloc freerange range_from kfree stosl
hands_out = (refl, refl)
