-- ===== src/Proc/Building.antt =====
-- The steps of `fork` and the invariant of the process table.
use mathlib.Core.Path.{subst}
use cs537_project.Prelude.{
  ℕ, ◌+◌, ◌^◌, ◌<◌, ◌≡◌, ◌≢◌, ◌⊎◌, inl, inr, refl, ap, sym, ◌∙◌, Bool, Option, some, of_some-eq,
  update, update_self, update-ne, ℕ_discrete,
}
use cs537_project.Kalloc.{Kmem}
use cs537_project.Proc.Types.{State, unused, embryo, runnable, running, Proc, nproc, Ptable}
use cs537_project.Proc.{set_proc, claim, claim_place, alloc_at, fork_into, fork_tail}
use cs537_project.Proc.Birth.{
  IsFreeSlot, claim_place_lem, alloc_at_lem, fork_into_lem, fork_tail_lem,
}
use cs537_project.Proc.Family.{IsUsed, IsLive, IsBorn, Alike}
use cs537_project.Proc.Family.Birth.{claimed-Family, child-Family}
use cs537_project.Proc.Steps.{System, idle, claimed, stacked, copying, after_stack, after_birth}
use cs537_project.Proc.Pending.{
  building, Pending-set, Pending-stage, Pending-claim, Pending-done, Steady-same,
}
use cs537_project.Proc.OnCpu.{
  OnCpu, OnCpu-table, IsSound, live_running, set_proc-Family, set_proc-running,
}

-- A process that does not run changes.
OnCpu-other :
    (t : Ptable) (cpus : ℕ → Option ℕ) (np : ℕ) (q : Proc)
    → (t.proc np).state ≢ running
    → OnCpu t cpus
    → OnCpu (set_proc t np q) cpus
OnCpu-other t cpus np q still o =
    OnCpu-table
      (λ c i e h.
        set_proc-running t np q i (λ same. still (ap (λ (k : ℕ). (t.proc k).state) same ∙ h)) h)
      o

embryo_still : (s : State) → s ≡ embryo → s ≢ running
embryo_still s e h = (let x = sym e ∙ h in cc)

unused_ne : (s : State) → s ≡ unused → s ≢ embryo
unused_ne s e h = (let x = sym e ∙ h in cc)

runnable_ne : (s : State) → s ≡ runnable → s ≢ embryo
runnable_ne s e h = (let x = sym e ∙ h in cc)

-- A process that is built is given up, or built on.
embryo-Alike :
    (p q : Proc)
    → p.state ≡ embryo
    → q.pid ≡ p.pid
    → q.parent ≡ p.parent
    → (q.state ≡ unused) ⊎ (q.state ≡ embryo)
    → Alike p q
embryo-Alike p q e pid parent way = record {
  pid = pid;
  parent = parent;
  live = λ h. absurd (subst IsLive e h);
  used = λ h. subst IsUsed (sym e) tt;
  born = λ h. absurd (elim way [ inl u ↦ subst IsBorn u h | inr b ↦ subst IsBorn b h ]);
}

module _ (s : System) (i np : ℕ) (v : IsSound s) where
  claimed-IsSound :
      i < nproc
      → IsLive (s.table.proc i).state
      → s.stage i ≡ idle
      → s.table.nextpid + 1 < 2 ^ 31
      → np < nproc
      → IsFreeSlot (s.table.proc np)
      → IsSound (record s { table = claim s.table np; stage = update s.stage i (claimed np) })
  claimed-IsSound i_low live at room low free =
      let q : Proc = record (s.table.proc np) { state = embryo; pid = s.table.nextpid } in
      let here : (claim s.table np).proc np ≡ q = update_self s.table.proc np q in
      let others : (j : ℕ) → np ≢ j → (claim s.table np).proc j ≡ s.table.proc j =
        λ j ne. update-ne s.table.proc np j q ne in
      record {
        family =
            claimed-Family v.family low free refl refl room others (ap (λ (p : Proc). p.pid) here)
              (ap (λ (p : Proc). p.state) here);
        on_cpu =
            OnCpu-table
              (λ c j e h.
                ap (λ (p : Proc). p.state)
                  (others j (λ same.
                    (let x = sym free ∙ ap (λ (k : ℕ). (s.table.proc k).state) same ∙ h in cc)))
                ∙ h)
              v.on_cpu;
        pending =
            Pending-claim i np low free (ap (λ (p : Proc). p.state) here) others live
              (ap building at) v.pending;
      }

  module _ (building_np : building (s.stage i) ≡ some np) (k : Kmem) (q : Proc)
      (same_pid : q.pid ≡ (s.table.proc np).pid) where
    is_embryo : (s.table.proc np).state ≡ embryo
    is_embryo = (v.pending.builds i np building_np).1

    on_cpu : OnCpu (set_proc s.table np q) s.cpus
    on_cpu =
        OnCpu-other s.table s.cpus np q (embryo_still (s.table.proc np).state is_embryo) v.on_cpu

    dropped-IsSound :
        q.state ≡ unused
        → q.parent ≡ (s.table.proc np).parent
        → IsSound
            (record s { table = set_proc s.table np q; kmem = k; stage = update s.stage i idle })
    dropped-IsSound gone parent = record {
      family =
          set_proc-Family s.table np q
            (embryo-Alike (s.table.proc np) q is_embryo same_pid parent (inl gone)) v.family;
      on_cpu = on_cpu;
      pending = Pending-done i np q idle building_np (unused_ne q.state gone) refl v.pending;
    }

    stacked-IsSound :
        q.state ≡ (s.table.proc np).state
        → q.parent ≡ (s.table.proc np).parent
        → IsSound (record s {
          table = set_proc s.table np q;
          kmem = k;
          stage = update s.stage i (stacked np);
        })
    stacked-IsSound same parent = record {
      family =
          set_proc-Family s.table np q
            (embryo-Alike (s.table.proc np) q is_embryo same_pid parent (inr (same ∙ is_embryo)))
            v.family;
      on_cpu = on_cpu;
      pending =
          Pending-stage i (stacked np) (sym building_np)
            (Pending-set np q (Steady-same (s.stage np) (s.table.proc np) q same) v.pending);
    }

    born-IsSound :
        (pid : ℕ)
        → i < nproc
        → IsLive (s.table.proc i).state
        → q.state ≡ runnable
        → q.parent ≡ some i
        → IsSound (record s {
          table = set_proc s.table np q;
          kmem = k;
          stage = update s.stage i (copying np pid);
        })
    born-IsSound pid i_low live ready child = record {
      family =
          child-Family q v.family (v.pending.builds i np building_np).0 is_embryo i_low live
            same_pid child;
      on_cpu = on_cpu;
      pending =
          Pending-done i np q (copying np pid) building_np (runnable_ne q.state ready) refl
            v.pending;
    }

pub claim_place-IsSound :
    (s : System) (c i np : ℕ) (t : Ptable)
    → s.cpus c ≡ some i
    → s.stage i ≡ idle
    → s.table.nextpid + 1 < 2 ^ 31
    → claim_place s.table ≡ some (np, t)
    → IsSound s
    → IsSound (record s { table = t; stage = update s.stage i (claimed np) })
claim_place-IsSound s c i np t at stage room e v = elim (claim_place_lem s.table) [
  | inl (out, nobody) ↦ (let x = sym out ∙ e in cc)
  | inr (m, low, free, found) ↦
      subst
        (λ (x : ℕ × Ptable).
          IsSound (record s { table = x.1; stage = update s.stage i (claimed x.0) }))
        (of_some-eq (sym found ∙ e))
        (claimed-IsSound s i m v (v.on_cpu.low c i at)
          (live_running (s.table.proc i).state (v.on_cpu.runs c i at)) stage room low free)
]

pub alloc_at-IsSound :
    (s : System) (trapret forkret i np : ℕ) (r : ℕ × Kmem)
    → s.stage i ≡ claimed np
    → IsSound s
    → IsSound (
        let (place, t, k) = alloc_at trapret forkret s.table np r in
        record s { table = t; kmem = k; stage = update s.stage i (after_stack place) })
alloc_at-IsSound s trapret forkret i np r stage v =
    let a = alloc_at trapret forkret s.table np r in
    let (q, (same, pid, parent, way)) = alloc_at_lem trapret forkret s.table np r in
    subst
      (λ (x : Ptable).
        IsSound (record s { table = x; kmem = a.2; stage = update s.stage i (after_stack a.0) }))
      (sym same)
      (elim way [
        | inl (out, gone) ↦
            subst
              (λ (x : Option ℕ). IsSound (record s {
                table = set_proc s.table np q;
                kmem = a.2;
                stage = update s.stage i (after_stack x);
              }))
              (sym out) (dropped-IsSound s i np v (ap building stage) a.2 q pid gone parent)
        | inr (got, state) ↦
            subst
              (λ (x : Option ℕ). IsSound (record s {
                table = set_proc s.table np q;
                kmem = a.2;
                stage = update s.stage i (after_stack x);
              }))
              (sym got) (stacked-IsSound s i np v (ap building stage) a.2 q pid state parent)
      ])

module _ (kernel_end : ℕ) (copyuvm : ℕ → ℕ → Kmem → ℕ × Kmem)
    (copy_maps : ℕ → ℕ → ℕ → Kmem → Option (Bool × Kmem)) where
  pub fork_into-IsSound :
      (s : System) (c i np pgdir : ℕ) (k k' : Kmem) (r : Option ℕ) (t : Ptable)
      → s.cpus c ≡ some i
      → s.stage i ≡ stacked np
      → fork_into kernel_end copyuvm copy_maps s.table i np (pgdir, k) ≡ some (r, t, k')
      → IsSound s
      → IsSound (record s { table = t; kmem = k'; stage = update s.stage i (after_birth np r) })
  fork_into-IsSound s c i np pgdir k k' r t at stage e v =
      let (q, (same, pid, way)) =
        fork_into_lem kernel_end copyuvm copy_maps s.table i np r t k' pgdir k e in
      subst
        (λ (x : Ptable).
          IsSound (record s { table = x; kmem = k'; stage = update s.stage i (after_birth np r) }))
        (sym same)
        (elim way [
          | inl (out, gone, parent) ↦
              subst
                (λ (x : Option ℕ). IsSound (record s {
                  table = set_proc s.table np q;
                  kmem = k';
                  stage = update s.stage i (after_birth np x);
                }))
                (sym out) (dropped-IsSound s i np v (ap building stage) k' q pid gone parent)
          | inr (got, ready, parent, sz, dir) ↦
              subst
                (λ (x : Option ℕ). IsSound (record s {
                  table = set_proc s.table np q;
                  kmem = k';
                  stage = update s.stage i (after_birth np x);
                }))
                (sym got)
                (born-IsSound s i np v (ap building stage) k' q pid (s.table.proc np).pid
                  (v.on_cpu.low c i at) (live_running (s.table.proc i).state (v.on_cpu.runs c i at))
                  ready parent)
        ])

  pub fork_tail-IsSound :
      (s : System) (i np pid r : ℕ) (t : Ptable) (k' : Kmem)
      → s.stage i ≡ copying np pid
      → fork_tail kernel_end copyuvm copy_maps s.table i np pid s.kmem ≡ some (r, t, k')
      → IsSound s
      → IsSound (record s { table = t; kmem = k'; stage = update s.stage i idle })
  fork_tail-IsSound s i np pid r t k' stage e v =
      let (success, (copied, result, same)) =
        fork_tail_lem kernel_end copyuvm copy_maps s.table i np pid r t s.kmem k' e in
      let q : Proc = record (s.table.proc np) { num_mappings = (s.table.proc i).num_mappings } in
      subst
        (λ (x : Ptable). IsSound (record s { table = x; kmem = k'; stage = update s.stage i idle }))
        (sym same)
        (record {
          family =
              set_proc-Family s.table np q
                (record { pid = refl; parent = refl; live = λ h. h; used = λ h. h; born = λ h. h })
                v.family;
          on_cpu =
              OnCpu-table
                (λ c j e h. elim (ℕ_discrete np j) [
                  | yes eq ↦
                      subst (λ (m : ℕ). (update s.table.proc np q m).state ≡ (s.table.proc m).state)
                        eq (ap (λ (p : Proc). p.state) (update_self s.table.proc np q))
                      ∙ h
                  | no ne ↦ set_proc-running s.table np q j ne h
                ])
                v.on_cpu;
          pending =
              Pending-stage i idle (sym (ap building stage))
                (Pending-set np q (Steady-same (s.stage np) (s.table.proc np) q refl) v.pending);
        })
