-- ===== src/Proc/Meet.antt =====
-- A child that exits, and its parent that sleeps in `wait`.
use cs537_project.Prelude.{
  ℕ, ◌<◌, ◌≡◌, ◌≢◌, inl, inr, refl, ap, ◌∙◌, ◌&&◌, true, false, ltb, Option, some, arith,
  update_self, update-ne,
}
use cs537_project.Kalloc.{Kmem}
use cs537_project.Proc.Types.{
  State, sleeping, runnable, zombie, is_sleeping, process, same_chan, Proc, nproc, Ptable,
  is_parent,
}
use cs537_project.Proc.{wake, wakeup1, adopt_from, parent_chan, exit_locked, wait}
use cs537_project.Proc.Loops.{Woken, wakeup1_lem, wakeup1-parent}
use cs537_project.Proc.Adopt.{adopt_from-Kept, adopt_from-inside, new_parent}
use cs537_project.Proc.Reap.{IsDead, Reaped, wait_lem}

wake-sleeper :
    (p : Proc) (i : ℕ)
    → p.state ≡ sleeping
    → p.chan ≡ process i
    → (wake (process i) p).state ≡ runnable
wake-sleeper p i slept on =
    (let hit : is_sleeping p.state && same_chan p.chan (process i) ≡ true =
        rw (slept, on) (ground arith) in
      rw hit refl)

Woken-runnable : (s t : State) → Woken s t → s ≡ runnable → t ≡ runnable
Woken-runnable s t (inl e) h = e ∙ h
Woken-runnable s t (inr (e, e')) h = e'

module _ (t : Ptable) (curproc p : ℕ) (low : curproc < nproc) (p_low : p < nproc) (ne : curproc ≢ p)
    (child : (t.proc curproc).parent ≡ some p) where
  woken : ℕ → Proc
  woken = wakeup1 (parent_chan (t.proc curproc).parent) t.proc

  passed : ℕ → Proc
  passed = adopt_from curproc t.initproc woken nproc 0

  exit-at : (exit_locked t curproc).proc curproc ≡ record (passed curproc) { state = zombie }
  unfolding exit_locked woken passed
  exit-at = update_self passed curproc (record (passed curproc) { state = zombie })

  exit-off : (exit_locked t curproc).proc p ≡ passed p
  unfolding exit_locked woken passed
  exit-off = update-ne passed curproc p (record (passed curproc) { state = zombie }) ne

  woken-runnable :
      (t.proc p).state ≡ sleeping → (t.proc p).chan ≡ process p → (woken p).state ≡ runnable
  unfolding woken
  woken-runnable slept on =
      let here : ltb p nproc ≡ true = ground arith in
      ap (λ (o : Option ℕ). (wakeup1 (parent_chan o) t.proc p).state) child
      ∙ ap (λ (q : Proc). q.state) (wakeup1_lem (process p) t.proc p)
      ∙ rw here (wake-sleeper (t.proc p) p slept on)

  exit-wakes :
      (t.proc p).state ≡ sleeping
      → (t.proc p).chan ≡ process p
      → ((exit_locked t curproc).proc p).state ≡ runnable
  unfolding passed
  exit-wakes slept on =
      ap (λ (q : Proc). q.state) exit-off
      ∙ Woken-runnable (woken p).state (passed p).state
          (adopt_from-Kept curproc t.initproc woken nproc 0 p).woken (woken-runnable slept on)

  exit-IsDead : IsDead p ((exit_locked t curproc).proc curproc)
  unfolding passed woken
  exit-IsDead =
      let other : is_parent (some p) curproc ≡ false = ground arith in
      let moved : new_parent curproc t.initproc (some p) ≡ some p = rw other refl in
      (
        ap (λ (q : Proc). q.parent) exit-at
            ∙ adopt_from-inside curproc t.initproc woken nproc 0 curproc (omega arith) (omega arith)
            ∙ ap (new_parent curproc t.initproc)
                (wakeup1-parent (parent_chan (t.proc curproc).parent) t.proc curproc ∙ child)
            ∙ moved,
        ap (λ (q : Proc). q.state) exit-at,
      )

  -- When a child exits while its parent sleeps in `wait`, the parent is RUNNABLE afterwards, and when it
  -- goes round in `wait` again, it reaps a zombie child and does not sleep.
  pub exit-wait :
      (kernel_end : ℕ) (copyuvm : ℕ → ℕ → Kmem → ℕ × Kmem) (freevm : ℕ → Kmem → Option Kmem)
      (k : Kmem)
      → (t.proc p).state ≡ sleeping
      → (t.proc p).chan ≡ process p
      → (((exit_locked t curproc).proc p).state ≡ runnable)
        × ((i : ℕ) × (i < nproc)
            × IsDead p ((exit_locked t curproc).proc i)
            × Reaped kernel_end copyuvm freevm
                (exit_locked t curproc)
                k
                i
                (wait kernel_end copyuvm freevm (exit_locked t curproc) k p))
  exit-wait kernel_end copyuvm freevm k slept on = (
    exit-wakes slept on,
    elim (wait_lem kernel_end copyuvm freevm (exit_locked t curproc) k p) [
      | inl (i, i_low, dead, before, r) ↦ (i, i_low, dead, r)
      | inr (inl (no_dead, why, e)) ↦ absurd (no_dead curproc (omega arith) low exit-IsDead)
      | inr (inr (no_dead, kid, lives, e)) ↦ absurd (no_dead curproc (omega arith) low exit-IsDead)
    ],
  )
