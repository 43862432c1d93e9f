-- ===== src/Proc/Family/Death.antt =====
-- `exit` and `wait` keep the family.
use mathlib.Core.Path.{subst}
use cs537_project.Prelude.{
  ℕ, ◌<◌, ◌≡◌, ◌≢◌, inl, inr, refl, ap, sym, ◌∙◌, Bool-cases, some, arith, update, update_self,
  update-ne, ℕ_discrete,
}
use cs537_project.Proc.Types.{State, zombie, Proc, nproc, Ptable, is_parent}
use cs537_project.Proc.{wakeup1, adopt_from, parent_chan, clear, exit_locked}
use cs537_project.Proc.Loops.{Kept, Kept-trans, wakeup1-Kept, wakeup1-parent}
use cs537_project.Proc.Adopt.{adopt_from-Kept, adopt_from-inside, new_parent}
use cs537_project.Proc.Reap.{not_child}
use cs537_project.Proc.Family.{
  Family, IsUsed, IsLive, IsBorn, IsUsed-of_live, IsBorn-of_live, IsUsed-of_born, Woken-IsLive,
  Woken-IsUsed, Woken-IsBorn,
}

module _ {t : Ptable} {curproc : ℕ} (f : Family t) (ne_init : curproc ≢ t.initproc)
    (live : IsLive (t.proc curproc).state) where
  -- The table before the process itself becomes a zombie.
  passed : ℕ → Proc
  passed =
      adopt_from curproc t.initproc (wakeup1 (parent_chan (t.proc curproc).parent) t.proc) nproc 0

  passed-Kept : (j : ℕ) → Kept (t.proc j) (passed j)
  unfolding passed
  passed-Kept j = Kept-trans (wakeup1-Kept (parent_chan (t.proc curproc).parent) t.proc j) (
      adopt_from-Kept curproc t.initproc (wakeup1 (parent_chan (t.proc curproc).parent) t.proc)
        nproc 0 j)

  passed-parent :
      (j : ℕ) → j < nproc → (passed j).parent ≡ new_parent curproc t.initproc (t.proc j).parent
  unfolding passed
  passed-parent j low =
      adopt_from-inside curproc t.initproc (wakeup1 (parent_chan (t.proc curproc).parent) t.proc)
        nproc 0 j (omega arith) (omega arith)
      ∙ ap (new_parent curproc t.initproc)
          (wakeup1-parent (parent_chan (t.proc curproc).parent) t.proc j)

  after : Ptable
  after = exit_locked t curproc

  after-other : (j : ℕ) → curproc ≢ j → after.proc j ≡ passed j
  unfolding after exit_locked passed
  after-other j ne = update-ne passed curproc j (record (passed curproc) { state = zombie }) ne

  after_self : after.proc curproc ≡ record (passed curproc) { state = zombie }
  unfolding after exit_locked passed
  after_self = update_self passed curproc (record (passed curproc) { state = zombie })

  after-pid : (j : ℕ) → (after.proc j).pid ≡ (t.proc j).pid
  after-pid j = elim (ℕ_discrete curproc j) [
    | yes e ↦
        subst (λ (k : ℕ). (after.proc k).pid ≡ (t.proc k).pid) e
          (ap (λ (p : Proc). p.pid) after_self ∙ (passed-Kept curproc).pid)
    | no ne ↦ ap (λ (p : Proc). p.pid) (after-other j ne) ∙ (passed-Kept j).pid
  ]

  after-parent : (j : ℕ) → (after.proc j).parent ≡ (passed j).parent
  after-parent j = elim (ℕ_discrete curproc j) [
    | yes e ↦
        subst (λ (k : ℕ). (after.proc k).parent ≡ (passed k).parent) e
          (ap (λ (p : Proc). p.parent) after_self)
    | no ne ↦ ap (λ (p : Proc). p.parent) (after-other j ne)
  ]

  after-IsUsed : (j : ℕ) → IsUsed (after.proc j).state → IsUsed (t.proc j).state
  after-IsUsed j used = elim (ℕ_discrete curproc j) [
    | yes e ↦
        subst (λ (k : ℕ). IsUsed (t.proc k).state) e (IsUsed-of_live (t.proc curproc).state live)
    | no ne ↦
        Woken-IsUsed (t.proc j).state (passed j).state (passed-Kept j).woken
          (subst (λ (p : Proc). IsUsed p.state) (after-other j ne) used)
  ]

  after-IsBorn : (j : ℕ) → IsBorn (after.proc j).state → IsBorn (t.proc j).state
  after-IsBorn j used = elim (ℕ_discrete curproc j) [
    | yes e ↦
        subst (λ (k : ℕ). IsBorn (t.proc k).state) e (IsBorn-of_live (t.proc curproc).state live)
    | no ne ↦
        Woken-IsBorn (t.proc j).state (passed j).state (passed-Kept j).woken
          (subst (λ (p : Proc). IsBorn p.state) (after-other j ne) used)
  ]

  after-IsLive : (j : ℕ) → curproc ≢ j → IsLive (t.proc j).state → IsLive (after.proc j).state
  after-IsLive j ne h =
      subst (λ (p : Proc). IsLive p.state) (sym (after-other j ne))
        (Woken-IsLive (t.proc j).state (passed j).state (passed-Kept j).woken h)

  init_stays : IsLive (after.proc t.initproc).state
  init_stays = after-IsLive t.initproc ne_init f.init_live

  -- A child has init as its parent now; any other process keeps its own.
  after-parented :
      (i : ℕ)
      → i < nproc
      → IsBorn (after.proc i).state
      → i ≢ t.initproc
      → (p : ℕ) × ((after.proc i).parent ≡ some p) × (p < nproc) × IsLive (after.proc p).state
  after-parented i low used ne =
      let (p, is_p, p_low, p_live) = f.parented i low (after-IsBorn i used) ne in
      elim (Bool-cases (is_parent (t.proc i).parent curproc)) [
        | inl child ↦ (
          t.initproc,
          after-parent i ∙ passed-parent i low ∙ rw child refl,
          f.init_low,
          init_stays,
        )
        | inr other ↦ (
          p,
          after-parent i ∙ passed-parent i low ∙ rw other is_p,
          p_low,
          after-IsLive p (λ e. not_child (t.proc i).parent curproc other (is_p ∙ ap some (sym e)))
              p_live,
        )
      ]

  pub exit_locked-Kept : (j : ℕ) → curproc ≢ j → Kept (t.proc j) ((exit_locked t curproc).proc j)
  unfolding after
  exit_locked-Kept j ne = subst (Kept (t.proc j)) (sym (after-other j ne)) (passed-Kept j)

  pub exit_locked_self : ((exit_locked t curproc).proc curproc).state ≡ zombie
  unfolding after
  exit_locked_self = ap (λ (p : Proc). p.state) after_self

  pub exit_locked-Family : Family (exit_locked t curproc)
  unfolding after exit_locked
  exit_locked-Family = record {
    init_low = f.init_low;
    init_live = init_stays;
    parented = after-parented;
    pid_low = λ i low used.
        subst (λ (k : ℕ). k < t.nextpid) (sym (after-pid i))
          (f.pid_low i low (after-IsUsed i used));
    pid_apart = λ i j low low' used used' ne same.
        f.pid_apart i j low low' (after-IsUsed i used) (after-IsUsed j used') ne
          (sym (after-pid i) ∙ same ∙ after-pid j);
  }

zombie_dead : (s : State) → IsLive s → s ≡ zombie → ⊥
zombie_dead s h e = subst IsLive e h

-- A place whose process is a zombie is cleared.
module _ {t : Ptable} (i : ℕ) (f : Family t) (dead : (t.proc i).state ≡ zombie) where
  cleared : Ptable
  cleared = record t { proc = update t.proc i (clear (t.proc i)) }

  cleared-ne : (j : ℕ) → IsUsed (cleared.proc j).state → i ≢ j
  unfolding cleared
  cleared-ne j used e =
      subst (λ (p : Proc). IsUsed p.state)
        (subst (λ (k : ℕ). cleared.proc k ≡ clear (t.proc i)) e
          (update_self t.proc i (clear (t.proc i))))
        used

  cleared-same : (j : ℕ) → i ≢ j → cleared.proc j ≡ t.proc j
  unfolding cleared
  cleared-same j ne = update-ne t.proc i j (clear (t.proc i)) ne

  cleared-IsUsed : (j : ℕ) → IsUsed (cleared.proc j).state → IsUsed (t.proc j).state
  cleared-IsUsed j used =
      subst (λ (p : Proc). IsUsed p.state) (cleared-same j (cleared-ne j used)) used

  cleared-IsLive : (j : ℕ) → IsLive (t.proc j).state → IsLive (cleared.proc j).state
  cleared-IsLive j h =
      subst (λ (p : Proc). IsLive p.state)
        (sym (
          cleared-same j (λ e.
            zombie_dead (t.proc j).state h (ap (λ (k : ℕ). (t.proc k).state) (sym e) ∙ dead))))
        h

  cleared-pid : (j : ℕ) → IsUsed (cleared.proc j).state → (cleared.proc j).pid ≡ (t.proc j).pid
  cleared-pid j used = ap (λ (p : Proc). p.pid) (cleared-same j (cleared-ne j used))

  pub clear-Family : Family (record t { proc = update t.proc i (clear (t.proc i)) })
  unfolding cleared
  clear-Family = record {
    init_low = f.init_low;
    init_live = cleared-IsLive t.initproc f.init_live;
    parented = λ j low used ne.
        let other = cleared-ne j (IsUsed-of_born (cleared.proc j).state used) in
        let (p, is_p, p_low, live) =
          f.parented j low (subst (λ (p : Proc). IsBorn p.state) (cleared-same j other) used) ne in
        (
          p,
          ap (λ (q : Proc). q.parent) (cleared-same j other) ∙ is_p,
          p_low,
          cleared-IsLive p live,
        );
    pid_low = λ j low used.
        subst (λ (k : ℕ). k < t.nextpid) (sym (cleared-pid j used))
          (f.pid_low j low (cleared-IsUsed j used));
    pid_apart = λ j k low low' used used' ne same.
        f.pid_apart j k low low' (cleared-IsUsed j used) (cleared-IsUsed k used') ne
          (sym (cleared-pid j used) ∙ same ∙ cleared-pid k used');
  }
