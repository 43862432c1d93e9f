-- ===== src/Kalloc/Chain.antt =====
-- The free list of kalloc.c as a chain through the memory.
use mathlib.Core.Path.{subst}
use native.Mathlib.Bridge.{le_prop}
use native.Mathlib.Nat.{ℕ_set}
use mathlib.Core.List.{Mem, Nodup, mem-cons_self, mem-cons_of_mem}
use cs537_project.Prelude.{
  update_self, update-ne, ℕ, zero, suc, ◌+◌, ◌*◌, ◌%◌, ◌^◌, ◌≤◌, ◌<◌, ◌≡◌, ◌⊎◌, inl, inr, refl, ap,
  sym, ◌∙◌, List, [], ◌∷◌, arith, update, pgsize, phystop, v2p,
}
use cs537_project.Kalloc.{Kmem, stosl}

-- From the pointer on, the memory links the pages in this order; 0 ends the list.
abbrev pub Chain : (ℕ → ℕ) → ℕ → List ℕ → Type 0
Chain mem f [] = f ≡ 0
Chain mem f (p ∷ ps) = (f ≡ p) × Chain mem (mem p) ps

-- What `kfree` takes: the address of a page behind the kernel, within the physical memory.
pub record IsPage (kernel_end v : ℕ) : Type 0 where
  pub aligned : v % pgsize ≡ 0
  pub behind : kernel_end ≤ v
  pub below : v2p v < phystop
  pub fits : v < 2 ^ 32

pub IsPage-prop : {kernel_end v : ℕ} → IsProp (IsPage kernel_end v)
IsPage-prop = hlevel (le_prop, ℕ_set)

-- `pages` are the free pages, in the order of the free list.
pub record IsFree (kernel_end : ℕ) (k : Kmem) (pages : List ℕ) : Type 0 where
  pub chain : Chain k.mem k.freelist pages
  pub legal : (p : ℕ) → Mem p pages → IsPage kernel_end p
  pub distinct : Nodup pages

-- A chain depends on the first words of its pages alone.
pub Chain-same :
    {m m' : ℕ → ℕ} (f : ℕ) (ps : List ℕ)
    → ((p : ℕ) → Mem p ps → m' p ≡ m p)
    → Chain m f ps
    → Chain m' f ps
Chain-same f [] same c = c
Chain-same {m} {m'} f (p ∷ ps) same (e, c) = (
  e,
  subst (λ (g : ℕ). Chain m' g ps) (sym (same p mem-cons_self))
      (Chain-same (m p) ps (λ q h. same q (mem-cons_of_mem p h)) c),
)

pub stosl-outside :
    (mem : ℕ → ℕ) (addr fill cnt a : ℕ)
    → (a < addr) ⊎ (addr + 4 * cnt ≤ a)
    → stosl mem addr fill cnt a ≡ mem a
unfolding stosl
stosl-outside mem addr fill zero a h = refl
stosl-outside mem addr fill (suc cnt) a (inl h) =
    stosl-outside (update mem addr fill) (addr + 4) fill cnt a (inl (omega arith))
    ∙ update-ne mem addr a fill (omega arith)
stosl-outside mem addr fill (suc cnt) a (inr h) =
    stosl-outside (update mem addr fill) (addr + 4) fill cnt a (inr (omega arith))
    ∙ update-ne mem addr a fill (omega arith)

pub stosl-inside :
    (mem : ℕ → ℕ) (addr fill cnt i : ℕ) → i < cnt → stosl mem addr fill cnt (addr + 4 * i) ≡ fill
unfolding stosl
stosl-inside mem addr fill zero i h = absurd (omega arith)
stosl-inside mem addr fill (suc cnt) zero h =
    ap (stosl mem addr fill (suc cnt)) (omega arith)
    ∙ stosl-outside (update mem addr fill) (addr + 4) fill cnt addr (inl (omega arith))
    ∙ update_self mem addr fill
stosl-inside mem addr fill (suc cnt) (suc i) h =
    ap (stosl (update mem addr fill) (addr + 4) fill cnt) (omega arith)
    ∙ stosl-inside (update mem addr fill) (addr + 4) fill cnt i (omega arith)
