-- ===== src/Proc/History.antt =====
-- The invariant of the process table under the steps of all processors.
use mathlib.Core.Path.{subst}
use cs537_project.Prelude.{
  ℕ, ◌≡◌, ◌≢◌, inl, inr, refl, ap, sym, ◌∙◌, Option, none, some, of_some-eq, arith, update,
  update-ne, failed, Bool-cases, ◌==◌, ℕ_discrete,
}
use cs537_project.Kalloc.{Kmem, kalloc}
use cs537_project.Proc.Types.{sleeping, runnable, running, zombie, null, process, Proc, Ptable}
use cs537_project.Proc.{
  wakeup, wakeup1, exit, exit_locked, sleep, tidy_up, yield_cpu, run, mark_killed, clear, Waited,
  returns, sleeps, wait,
}
use cs537_project.Proc.Loops.{Kept, wakeup1-Kept, wakeup1-parent}
use cs537_project.Proc.Adopt.{update-Kept}
use cs537_project.Proc.Wake.{kill_lem, mark_killed-Kept}
use cs537_project.Proc.Reap.{wait_lem, done, bad_stack, bad_pages}
use cs537_project.Proc.Family.{IsLive, Kept-Alike, update-Alike}
use cs537_project.Proc.Building.{
  claim_place-IsSound, alloc_at-IsSound, fork_into-IsSound, fork_tail-IsSound,
}
use cs537_project.Proc.Pending.{
  Pending-set, Pending-table, Steady, Steady-live, Steady-Kept, Steady-dies, Steady-reaped,
}
use cs537_project.Proc.Family.Death.{
  exit_locked-Family, exit_locked-Kept, exit_locked_self, clear-Family,
}
use cs537_project.Proc.Steps.{
  System, Kernel, Step, run_step, yield_step, sleep_step, tidy_step, wakeup_step, kill_step,
  exit_step, claim_step, stack_step, birth_step, maps_step, wait_step, wait_sleep_step, Reach,
  start, later,
}
use cs537_project.Proc.OnCpu.{
  IsSound, OnCpu-table, OnCpu-leave, Woken-running, live_running, set_proc-Family, Alike-live,
  IsSound-leave, IsSound-Kept, OnCpu-run,
}

exit-eq : (t u : Ptable) (i : ℕ) → exit t i ≡ some u → (i ≢ t.initproc) × (exit_locked t i ≡ u)
unfolding exit
exit-eq t u i h = elim (Bool-cases (i == t.initproc)) [
  | inl is_init ↦ (let h' = rw (exit, is_init) at h in cc)
  | inr other ↦ (λ e. ground (arith, other, e), of_some-eq (rw (exit, other) at h))
]

-- What `wait` does to the table, if it does not panic.
data AfterWait (t : Ptable) (i : ℕ) (w : Waited) (u : Ptable) : Type 0 where
  asleep : w ≡ sleeps → u ≡ sleep (process i) t i → AfterWait t i w u
  alone : (r : ℕ) → w ≡ returns r → u ≡ t → AfterWait t i w u
  reaped :
      (j r : ℕ)
      → (t.proc j).state ≡ zombie
      → w ≡ returns r
      → u ≡ record t { proc = update t.proc j (clear (t.proc j)) }
      → AfterWait t i w u

module _ (kernel_end : ℕ) (copyuvm : ℕ → ℕ → Kmem → ℕ × Kmem)
    (freevm : ℕ → Kmem → Option Kmem) where
  wait-AfterWait :
      (t u : Ptable) (k k' : Kmem) (i : ℕ) (w : Waited)
      → wait kernel_end copyuvm freevm t k i ≡ some (w, u, k')
      → AfterWait t i w u
  wait-AfterWait t u k k' i w h = elim (wait_lem kernel_end copyuvm freevm t k i) [
    | inl (j, low, dead, first, done a b e e' q) ↦
        let r = of_some-eq (sym h ∙ q) in
        reaped j (t.proc j).pid dead.1 (ap (λ (x : Waited × Ptable × Kmem). x.0) r)
          (ap (λ (x : Waited × Ptable × Kmem). x.1) r)
    | inl (j, low, dead, first, bad_stack e q) ↦ (let r = sym h ∙ q in cc)
    | inl (j, low, dead, first, bad_pages a e e' q) ↦ (let r = sym h ∙ q in cc)
    | inr (inl (no_dead, why, q)) ↦
        let r = of_some-eq (sym h ∙ q) in
        alone failed (ap (λ (x : Waited × Ptable × Kmem). x.0) r)
          (ap (λ (x : Waited × Ptable × Kmem). x.1) r)
    | inr (inr (no_dead, child, lives, q)) ↦
        let r = of_some-eq (sym h ∙ q) in
        asleep (ap (λ (x : Waited × Ptable × Kmem). x.0) r)
          (ap (λ (x : Waited × Ptable × Kmem). x.1) r)
  ]

not_sleeps : (r : ℕ) → returns r ≢ sleeps
not_sleeps r e = cc

-- A zombie's place is cleared.
IsSound-cleared :
    (s : System) (k : Kmem) (j : ℕ)
    → (s.table.proc j).state ≡ zombie
    → IsSound s
    → IsSound (record {
      table = record s.table { proc = update s.table.proc j (clear (s.table.proc j)) };
      kmem = k;
      cpus = s.cpus;
      stage = s.stage;
    })
IsSound-cleared s k j dead v = record {
  family = clear-Family j v.family dead;
  on_cpu =
      OnCpu-table
        (λ c i e h.
          ap (λ (p : Proc). p.state)
            (update-ne s.table.proc j i (clear (s.table.proc j)) (λ same. not_i i same h))
          ∙ h)
        v.on_cpu;
  pending =
      Pending-set j (clear (s.table.proc j))
        (Steady-reaped (s.stage j) (s.table.proc j) (clear (s.table.proc j)) dead refl) v.pending;
}
  where
    not_i : (i : ℕ) → j ≡ i → (s.table.proc i).state ≡ running → ⊥
    not_i i e h = (let x = sym dead ∙ ap (λ (q : ℕ). (s.table.proc q).state) e ∙ h in cc)

module _ {kernel : Kernel} where
  open kernel use {kernel_end, trapret, forkret, copyuvm, copy_maps, freevm}

  Step-IsSound : {s u : System} → Step kernel s u → IsSound s → IsSound u
  unfolding run yield_cpu sleep tidy_up wakeup
  Step-IsSound {s} (run_step c i idle low ready) v = record {
    family =
        set_proc-Family s.table i (record (s.table.proc i) { state = running })
          (Alike-live (s.table.proc i) (record (s.table.proc i) { state = running }) refl refl
            (subst IsLive (sym ready) tt) tt)
          v.family;
    on_cpu = OnCpu-run s.table s.cpus c i low ready v.on_cpu;
    pending =
        Pending-set i (record (s.table.proc i) { state = running })
          (Steady-live (s.stage i) (s.table.proc i) (record (s.table.proc i) { state = running })
            (subst IsLive (sym ready) tt) tt)
          v.pending;
  }
  Step-IsSound {s} (yield_step c i at) v =
      IsSound-leave s c i (record (s.table.proc i) { state = runnable }) at
        (Alike-live (s.table.proc i) (record (s.table.proc i) { state = runnable }) refl refl
          (live_running (s.table.proc i).state (v.on_cpu.runs c i at)) tt)
        (Steady-live (s.stage i) (s.table.proc i) (record (s.table.proc i) { state = runnable })
          (live_running (s.table.proc i).state (v.on_cpu.runs c i at)) tt)
        v
  Step-IsSound {s} (sleep_step c i chan at none_built) v =
      IsSound-leave s c i (record (s.table.proc i) { chan = chan; state = sleeping }) at
        (Alike-live (s.table.proc i) (record (s.table.proc i) { chan = chan; state = sleeping })
          refl refl (live_running (s.table.proc i).state (v.on_cpu.runs c i at)) tt)
        (Steady-live (s.stage i) (s.table.proc i)
          (record (s.table.proc i) { chan = chan; state = sleeping })
          (live_running (s.table.proc i).state (v.on_cpu.runs c i at)) tt)
        v
  Step-IsSound {s} (tidy_step c i at none_built) v =
      let p : Proc = record (s.table.proc i) { chan = null } in
      let kept : Kept (s.table.proc i) p = record {
        pid = refl;
        kstack = refl;
        pgdir = refl;
        woken = inl refl;
      } in
      IsSound-Kept s (update s.table.proc i p) (update-Kept s.table.proc i p kept)
        (λ j. (update-Alike s.table.proc i p (Kept-Alike kept refl) j).parent) v
  Step-IsSound {s} (wakeup_step chan) v =
      IsSound-Kept s (wakeup1 chan s.table.proc) (wakeup1-Kept chan s.table.proc)
        (wakeup1-parent chan s.table.proc) v
  Step-IsSound {s} (kill_step pid) v = elim (kill_lem s.table pid) [
    | inl (k, low, same, e) ↦
        let p = mark_killed (s.table.proc k) in
        let kept = mark_killed-Kept (s.table.proc k) in
        rw e (
          IsSound-Kept s (update s.table.proc k p) (update-Kept s.table.proc k p kept)
            (λ j. (update-Alike s.table.proc k p (Kept-Alike kept refl) j).parent) v)
    | inr (e, nobody) ↦ rw e v
  ]
  Step-IsSound {s} (exit_step c i t at none_built e) v =
      let (ne, same) = exit-eq s.table t i e in
      let live = live_running (s.table.proc i).state (v.on_cpu.runs c i at) in
      subst (λ (u : Ptable). IsSound (record s { table = u; cpus = update s.cpus c none })) same
        (record {
          family = exit_locked-Family v.family ne live;
          on_cpu = OnCpu-leave s.cpus c i v.on_cpu at (λ j ne'.
              Woken-running (s.table.proc j).state ((exit_locked s.table i).proc j).state
                (exit_locked-Kept v.family ne live j ne').woken);
          pending =
              Pending-table
                (λ j. elim (ℕ_discrete i j) [
                  | yes eq ↦
                      subst
                        (λ (k : ℕ).
                          Steady (s.stage k) (s.table.proc k) ((exit_locked s.table i).proc k))
                        eq
                        (Steady-dies (s.stage i) (s.table.proc i) ((exit_locked s.table i).proc i)
                          none_built live (exit_locked_self v.family ne live))
                  | no other ↦
                      Steady-Kept (s.stage j) (s.table.proc j) ((exit_locked s.table i).proc j)
                        (exit_locked-Kept v.family ne live j other)
                ])
                v.pending;
        })
  Step-IsSound {s} (claim_step c i np t at none_built room e) v =
      claim_place-IsSound s c i np t at none_built room e v
  Step-IsSound {s} (stack_step c i np at stage) v =
      alloc_at-IsSound s trapret forkret i np (kalloc s.kmem) stage v
  Step-IsSound {s} (birth_step c i np r t k at stage e) v =
      let copied = copyuvm (s.table.proc i).pgdir (s.table.proc i).sz s.kmem in
      fork_into-IsSound kernel_end copyuvm copy_maps s c i np copied.0 copied.1 k r t at stage e v
  Step-IsSound {s} (maps_step c i np pid r t k at stage e) v =
      fork_tail-IsSound kernel_end copyuvm copy_maps s i np pid r t k stage e v
  Step-IsSound {s} (wait_step c i r t k at none_built e) v =
      elim (wait-AfterWait kernel_end copyuvm freevm s.table t s.kmem k i (returns r) e) [
        | asleep e' q ↦ absurd (not_sleeps r e')
        | alone x e' q ↦
            subst (λ (u : Ptable). IsSound (record s { table = u; kmem = k })) (sym q)
              (record { family = v.family; on_cpu = v.on_cpu; pending = v.pending })
        | reaped j x dead e' q ↦
            subst (λ (u : Ptable). IsSound (record s { table = u; kmem = k })) (sym q)
              (IsSound-cleared s k j dead v)
      ]
  Step-IsSound {s} (wait_sleep_step c i t k at none_built e) v =
      elim (wait-AfterWait kernel_end copyuvm freevm s.table t s.kmem k i sleeps e) [
        | asleep e' q ↦
            let p : Proc = record (s.table.proc i) { chan = process i; state = sleeping } in
            let u =
              IsSound-leave s c i p at
                (Alike-live (s.table.proc i) p refl refl
                  (live_running (s.table.proc i).state (v.on_cpu.runs c i at)) tt)
                (Steady-live (s.stage i) (s.table.proc i) p
                  (live_running (s.table.proc i).state (v.on_cpu.runs c i at)) tt)
                v in
            subst
              (λ (u : Ptable).
                IsSound (record s { table = u; kmem = k; cpus = update s.cpus c none }))
              (sym q) (record { family = u.family; on_cpu = u.on_cpu; pending = u.pending })
        | alone x e' q ↦ absurd (not_sleeps x (sym e'))
        | reaped j x dead e' q ↦ absurd (not_sleeps x (sym e'))
      ]

  -- From a sound system on, whatever the processors do: init lives; every other process in use has a parent
  -- that lives, or is EMBRYO, and then exactly one process that lives is building it in `fork`; pids are
  -- distinct, what a processor runs is RUNNING, and no process runs on two processors.
  pub Reach-IsSound : {s u : System} → IsSound s → Reach kernel s u → IsSound u
  Reach-IsSound v start = v
  Reach-IsSound v (later r st) = Step-IsSound st (Reach-IsSound v r)
