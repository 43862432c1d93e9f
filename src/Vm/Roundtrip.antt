-- ===== src/Vm/Roundtrip.antt =====
-- `mappages` and then `deallocuvm`.
use mathlib.Core.Path.{subst}
use cs537_project.Prelude.{
  ℕ, ◌+◌, ◌-◌, ◌*◌, ◌/◌, ◌%◌, ◌^◌, ◌≤◌, ◌<◌, ◌≡◌, inl, inr, ap, sym, ◌∙◌, false, none, some,
  of_some-eq, arith, dec_lt, pgsize, kernbase, pg_round_up,
}
use cs537_project.Kalloc.{Kmem, is_bad}
use cs537_project.Vm.{Pgdir, make_pte, p2v, pte_addr, deallocuvm, mappages, mapped}
use cs537_project.Vm.Walk.{present}
use cs537_project.Vm.Map.{MapsTo, Outcome, mappages_lem}
use cs537_project.Vm.Dealloc.{CanFree, AllFree, Cleared, deallocuvm_lem}

-- The `n` pages from the physical address `pa` on can be given to `kfree`.
abbrev pub Freeable : ℕ → ℕ → ℕ → Type 0
Freeable kernel_end pa n = (j : ℕ) → j < n → is_bad kernel_end (p2v (pa + j * pgsize)) ≡ false

entry-CanFree :
    (kernel_end pa perm pte : ℕ)
    → pa % pgsize ≡ 0
    → 0 < pa
    → perm < 4096
    → pte ≡ make_pte pa perm
    → is_bad kernel_end (p2v pa) ≡ false
    → CanFree kernel_end pte
entry-CanFree kernel_end pa perm pte aligned pos low e good =
    let at : pte_addr pte ≡ pa = omega arith in (λ z. omega arith, rw at good)

pub mapped-AllFree :
    (kernel_end : ℕ) (d d' : Pgdir) (va n pa perm : ℕ)
    → va % pgsize ≡ 0
    → pa % pgsize ≡ 0
    → 0 < pa
    → perm < 4096
    → Freeable kernel_end pa n
    → MapsTo d d' va pa perm n
    → AllFree kernel_end d' va (va + n * pgsize)
mapped-AllFree kernel_end d d' va n pa perm aligned pa_aligned pos low good m b pte b_low high
      b_aligned e =
    let j = (b - va) / pgsize in
    let at : b ≡ va + j * pgsize = omega arith in
    let found : some pte ≡ some (make_pte (pa + j * pgsize) perm) =
      sym e ∙ ap (present d') at ∙ m.new j (omega arith) in
    entry-CanFree kernel_end (pa + j * pgsize) perm pte (omega arith) (omega arith) low
      (of_some-eq found) (good j (omega arith))

-- Pages that have been mapped where none was present, aligned and below KERNBASE, to frames above 0 that
-- `kfree` accepts, are taken away again by `deallocuvm`, which does not panic; after that the same pages
-- are present as before.
pub mappages-deallocuvm :
    (kernel_end : ℕ) (d d' : Pgdir) (k k' k'' : Kmem) (va n pa perm : ℕ)
    → 0 < n
    → va % pgsize ≡ 0
    → pa % pgsize ≡ 0
    → va + n * pgsize ≤ kernbase
    → pa + n * pgsize < 2 ^ 32
    → 0 < pa
    → perm < 4096
    → Freeable kernel_end pa n
    → ((j : ℕ) → j < n → present d (va + j * pgsize) ≡ none)
    → mappages d k va (n * pgsize) pa perm ≡ mapped d' k'
    → (u : Pgdir) × (k_end : Kmem) × ((deallocuvm kernel_end d' k'' (va + n * pgsize) va
          ≡ some (va, u, k_end))
        × ((b : ℕ) → b < 2 ^ 32 → b % pgsize ≡ 0 → present u b ≡ present d b))
mappages-deallocuvm kernel_end d d' k k' k'' va n pa perm pos aligned pa_aligned fits pa_fits pa_pos
      low good free e =
    let m : MapsTo d d' va pa perm n =
      subst (Outcome d va pa perm n) e
        (mappages_lem d k va n pa perm pos aligned pa_aligned (omega arith) pa_fits free) in
    let up : pg_round_up va ≡ va = omega arith in
    let frees = mapped-AllFree kernel_end d d' va n pa perm aligned pa_aligned pa_pos low good m in
    let (u, k_end, (done, c)) =
      deallocuvm_lem kernel_end d' k'' (va + n * pgsize) va fits (omega arith) (rw up frees) in
    (
      u,
      k_end,
      (
        done,
        λ b b_fits b_aligned.
            same u m (subst (λ (x : ℕ). Cleared d' u x (va + n * pgsize)) up c) b b_fits b_aligned,
      ),
    )
  where
    same :
        (u : Pgdir)
        → MapsTo d d' va pa perm n
        → Cleared d' u va (va + n * pgsize)
        → (b : ℕ) → b < 2 ^ 32
        → b % pgsize ≡ 0
        → present u b ≡ present d b
    same u m c b b_fits b_aligned = elim (dec_lt b va) [
      | yes before ↦ c.kept b b_fits (inl before) ∙ m.old b b_fits (inl before)
      | no from ↦ elim (dec_lt b (va + n * pgsize)) [
        | no behind ↦ c.kept b b_fits (inr (omega arith)) ∙ m.old b b_fits (inr (omega arith))
        | yes within ↦
            let j = (b - va) / pgsize in
            let at : b ≡ va + j * pgsize = omega arith in
            c.gone b (omega arith) within b_aligned ∙ sym (ap (present d) at ∙ free j (omega arith))
      ]
    ]
