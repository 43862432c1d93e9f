-- ===== src/Proc/Family/Birth.antt =====
-- `allocproc` and `fork` keep the family: a place is claimed, and its process is born.
use mathlib.Core.Path.{subst}
use cs537_project.Prelude.{
  ℕ, ◌+◌, ◌^◌, ◌<◌, ◌≡◌, ◌≢◌, ap, sym, ◌∙◌, some, arith, add32, ℕ_discrete, update, update_self,
  update-ne,
}
use cs537_project.Proc.Types.{embryo, Proc, nproc, Ptable}
use cs537_project.Proc.Birth.{IsFreeSlot, used_free}
use cs537_project.Proc.Family.{Family, IsUsed, IsBorn, IsLive, IsUsed-of_live}

module _ {t u : Ptable} {np : ℕ} (f : Family t) (low : np < nproc) (free : IsFreeSlot (t.proc np))
    (e_init : u.initproc ≡ t.initproc) (e_next : u.nextpid ≡ add32 t.nextpid 1)
    (room : t.nextpid + 1 < 2 ^ 31) (others : (j : ℕ) → np ≢ j → u.proc j ≡ t.proc j)
    (new_pid : (u.proc np).pid ≡ t.nextpid) (new_state : (u.proc np).state ≡ embryo) where
  live_apart : (p : ℕ) → IsLive (t.proc p).state → np ≢ p
  live_apart p live e =
      used_free (t.proc p).state (IsUsed-of_live (t.proc p).state live)
        (subst (λ (q : ℕ). IsFreeSlot (t.proc q)) e free)

  still_live : (p : ℕ) → IsLive (t.proc p).state → IsLive (u.proc p).state
  still_live p live = subst (λ (q : Proc). IsLive q.state) (sym (others p (live_apart p live))) live

  was-IsUsed : (j : ℕ) → np ≢ j → IsUsed (u.proc j).state → IsUsed (t.proc j).state
  was-IsUsed j ne used = subst (λ (q : Proc). IsUsed q.state) (others j ne) used

  old_pid : (j : ℕ) → np ≢ j → (u.proc j).pid ≡ (t.proc j).pid
  old_pid j ne = ap (λ (p : Proc). p.pid) (others j ne)

  next : u.nextpid ≡ t.nextpid + 1
  next = omega (arith, e_next, room)

  pid_low : (i : ℕ) → i < nproc → IsUsed (u.proc i).state → (u.proc i).pid < u.nextpid
  pid_low i i_low used = elim (ℕ_discrete np i) [
    | yes e ↦ subst (λ (k : ℕ). (u.proc k).pid < u.nextpid) e (omega (arith, next, new_pid))
    | no ne ↦ omega (arith, next, old_pid i ne, f.pid_low i i_low (was-IsUsed i ne used))
  ]

  new_apart :
      (j : ℕ)
      → j < nproc
      → np ≢ j
      → IsUsed (u.proc np).state
      → IsUsed (u.proc j).state
      → (u.proc np).pid ≢ (u.proc j).pid
  new_apart j j_low ne used used' e =
      omega (arith, e, new_pid, old_pid j ne, f.pid_low j j_low (was-IsUsed j ne used'))

  pid_apart :
      (i j : ℕ)
      → i < nproc
      → j < nproc
      → IsUsed (u.proc i).state
      → IsUsed (u.proc j).state
      → i ≢ j
      → (u.proc i).pid ≢ (u.proc j).pid
  pid_apart i j i_low j_low used used' ne same = elim (ℕ_discrete np i) [
    | yes e ↦
        new_apart j j_low (λ e'. ne (sym e ∙ e'))
          (subst (λ (k : ℕ). IsUsed (u.proc k).state) (sym e) used) used'
          (ap (λ (k : ℕ). (u.proc k).pid) e ∙ same)
    | no other ↦ elim (ℕ_discrete np j) [
      | yes e ↦
          new_apart i i_low other (subst (λ (k : ℕ). IsUsed (u.proc k).state) (sym e) used') used
            (ap (λ (k : ℕ). (u.proc k).pid) e ∙ sym same)
      | no other' ↦
          f.pid_apart i j i_low j_low (was-IsUsed i other used) (was-IsUsed j other' used') ne
            (sym (old_pid i other) ∙ same ∙ old_pid j other')
    ]
  ]

  parented :
      (i : ℕ)
      → i < nproc
      → IsBorn (u.proc i).state
      → i ≢ u.initproc
      → (p : ℕ) × ((u.proc i).parent ≡ some p) × (p < nproc) × IsLive (u.proc p).state
  parented i i_low born ne = elim (ℕ_discrete np i) [
    | yes e ↦ absurd (subst IsBorn (ap (λ (k : ℕ). (u.proc k).state) (sym e) ∙ new_state) born)
    | no other ↦
        let (p, is_p, p_low, live) =
          f.parented i i_low (subst (λ (q : Proc). IsBorn q.state) (others i other) born)
            (λ e. ne (e ∙ sym e_init)) in
        (p, ap (λ (q : Proc). q.parent) (others i other) ∙ is_p, p_low, still_live p live)
  ]

  pub claimed-Family : Family u
  claimed-Family = record {
    init_low = subst (λ (i : ℕ). i < nproc) (sym e_init) f.init_low;
    init_live =
        subst (λ (i : ℕ). IsLive (u.proc i).state) (sym e_init) (still_live t.initproc f.init_live);
    parented = parented;
    pid_low = pid_low;
    pid_apart = pid_apart;
  }

-- The process at `np`, so far EMBRYO, runs from now on as a child of `curproc`, which lives.
module _ {t : Ptable} {curproc np : ℕ} (q : Proc) (f : Family t) (low : np < nproc)
    (building : (t.proc np).state ≡ embryo) (cur_low : curproc < nproc)
    (cur_live : IsLive (t.proc curproc).state) (same_pid : q.pid ≡ (t.proc np).pid)
    (child : q.parent ≡ some curproc) where
  still-IsUsed : (j : ℕ) → IsUsed (update t.proc np q j).state → IsUsed (t.proc j).state
  still-IsUsed j used = elim (ℕ_discrete np j) [
    | yes e ↦ subst (λ (k : ℕ). IsUsed (t.proc k).state) e (subst IsUsed (sym building) tt)
    | no ne ↦ subst (λ (p : Proc). IsUsed p.state) (update-ne t.proc np j q ne) used
  ]

  kept_pid : (j : ℕ) → (update t.proc np q j).pid ≡ (t.proc j).pid
  kept_pid j = elim (ℕ_discrete np j) [
    | yes e ↦
        subst (λ (k : ℕ). (update t.proc np q k).pid ≡ (t.proc k).pid) e
          (ap (λ (p : Proc). p.pid) (update_self t.proc np q) ∙ same_pid)
    | no ne ↦ ap (λ (p : Proc). p.pid) (update-ne t.proc np j q ne)
  ]

  live_on : (j : ℕ) → IsLive (t.proc j).state → IsLive (update t.proc np q j).state
  live_on j live = elim (ℕ_discrete np j) [
    | yes e ↦ absurd (subst IsLive (ap (λ (k : ℕ). (t.proc k).state) (sym e) ∙ building) live)
    | no ne ↦ subst (λ (p : Proc). IsLive p.state) (sym (update-ne t.proc np j q ne)) live
  ]

  child_parented :
      (i : ℕ)
      → i < nproc
      → IsBorn (update t.proc np q i).state
      → i ≢ t.initproc
      → (p : ℕ) × ((update t.proc np q i).parent ≡ some p)
        × (p < nproc)
        × IsLive (update t.proc np q p).state
  child_parented i i_low born ne = elim (ℕ_discrete np i) [
    | yes e ↦ (
      curproc,
      ap (λ (k : ℕ). (update t.proc np q k).parent) (sym e)
          ∙ ap (λ (p : Proc). p.parent) (update_self t.proc np q)
          ∙ child,
      cur_low,
      live_on curproc cur_live,
    )
    | no other ↦
        let (p, is_p, p_low, live) =
          f.parented i i_low
            (subst (λ (p : Proc). IsBorn p.state) (update-ne t.proc np i q other) born) ne in
        (
          p,
          ap (λ (p : Proc). p.parent) (update-ne t.proc np i q other) ∙ is_p,
          p_low,
          live_on p live,
        )
  ]

  pub child-Family : Family (record t { proc = update t.proc np q })
  child-Family = record {
    init_low = f.init_low;
    init_live = live_on t.initproc f.init_live;
    parented = child_parented;
    pid_low = λ i i_low used.
        subst (λ (k : ℕ). k < t.nextpid) (sym (kept_pid i))
          (f.pid_low i i_low (still-IsUsed i used));
    pid_apart = λ i j i_low j_low used used' ne same.
        f.pid_apart i j i_low j_low (still-IsUsed i used) (still-IsUsed j used') ne
          (sym (kept_pid i) ∙ same ∙ kept_pid j);
  }
