-- ===== src/Proc/Tests.antt =====
-- Three processes: init, its child, which sleeps in `wait`, and a grandchild that runs.
use mathlib.Core.Path.{subst}
use cs537_project.Prelude.{
  ℕ, zero, suc, ◌+◌, ◌<◌, ◌≡◌, ◌≢◌, ◌⊎◌, refl, Option, none, some, of_some-eq, true, false, arith,
  update, failed,
}
use cs537_project.Kalloc.{Kmem, kalloc, kfree}
use cs537_project.Proc.Types.{
  unused, embryo, sleeping, runnable, running, null, process, Proc, nproc, Ptable,
}
use cs537_project.Proc.{
  wakeup1, wakeup_from, exit_locked, adopt_from, adopt, wait, found, scan, sleep, returns, sleeps,
  yield_cpu, fork, fork_into, fork_tail, find_unused, claim, claim_place, allocproc, alloc_at,
}
use cs537_project.Proc.Wake.{None}
use cs537_project.Proc.Reap.{IsDead, IsChild, Reaped, wait_lem}
use cs537_project.Proc.Family.{Family, IsUsed, IsBorn, IsLive}
use cs537_project.Proc.OnCpu.{OnCpu, IsSound}
use cs537_project.Proc.History.{Reach-IsSound}
use cs537_project.Proc.Steps.{System, Kernel, idle, claimed, claim_step, yield_step, start, later}
use cs537_project.Proc.Meet.{exit-wait}
use cs537_project.Proc.Birth.{Forked, fork-Forked}

abbrev free_proc : Proc
free_proc = record {
  sz = 0;
  pgdir = 0;
  kstack = 0;
  state = unused;
  pid = 0;
  parent = none;
  tf = 0;
  context = 0;
  chan = null;
  killed = false;
  num_mappings = 0;
}

abbrev procs : ℕ → Proc
procs zero = record free_proc { state = sleeping; pid = 1; chan = process 0 }
procs (suc zero) = record free_proc { state = sleeping; pid = 2; parent = some 0; chan = process 1 }
procs (suc (suc zero)) = record free_proc { state = running; pid = 3; parent = some 1 }
procs (suc (suc (suc i))) = free_proc

abbrev three : Ptable
three = record { proc = procs; nextpid = 4; initproc = 0 }

three-parented :
    (i : ℕ)
    → i < nproc
    → IsBorn (procs i).state
    → i ≢ 0
    → (p : ℕ) × ((procs i).parent ≡ some p) × (p < nproc) × IsLive (procs p).state
three-parented zero low used ne = absurd (ne refl)
three-parented (suc zero) low used ne = (0, refl, omega arith, tt)
three-parented (suc (suc zero)) low used ne = (1, refl, omega arith, tt)
three-parented (suc (suc (suc i))) low used ne = absurd used

three-pid : (i : ℕ) → IsUsed (procs i).state → ((procs i).pid ≡ i + 1) × (i < 3)
three-pid zero used = omega arith
three-pid (suc zero) used = omega arith
three-pid (suc (suc zero)) used = omega arith
three-pid (suc (suc (suc i))) used = absurd used

three-Family : Family three
three-Family = record {
  init_low = omega arith;
  init_live = tt;
  parented = three-parented;
  pid_low = λ i low used. omega (arith, three-pid i used);
  pid_apart =
      λ i j low low' used used' ne e. ne (omega (arith, three-pid i used, three-pid j used', e));
}

-- Processor 0 runs the grandchild.
abbrev cpus : ℕ → Option ℕ
cpus zero = some 2
cpus (suc c) = none

no_memory : Kmem
no_memory = record { mem = λ a. 0; use_lock = true; freelist = 0 }

abbrev system : System
system = record { table = three; kmem = no_memory; cpus = cpus; stage = λ i. idle }

abbrev kernel : Kernel
kernel = record {
  kernel_end = 0x8010_0000;
  trapret = 1;
  forkret = 2;
  copyuvm = λ pgdir sz k. (1, k);
  copy_maps = λ i pgdir pgdir' k. some (false, k);
  freevm = λ pgdir k. some k;
}

system-OnCpu : OnCpu three cpus
system-OnCpu = record { low = low; runs = runs; alone = alone }
  where
    low : (c i : ℕ) → cpus c ≡ some i → i < nproc
    low zero i e = ground arith
    low (suc c) i e = cc

    runs : (c i : ℕ) → cpus c ≡ some i → (procs i).state ≡ running
    runs zero i e = subst (λ (k : ℕ). (procs k).state ≡ running) (of_some-eq e) refl
    runs (suc c) i e = cc

    alone : (c d i : ℕ) → cpus c ≡ some i → cpus d ≡ some i → c ≡ d
    alone zero zero i e e' = refl
    alone zero (suc d) i e e' = cc
    alone (suc c) d i e e' = cc

no_embryo : (np : ℕ) → (procs np).state ≢ embryo
no_embryo zero e = cc
no_embryo (suc zero) e = cc
no_embryo (suc (suc zero)) e = cc
no_embryo (suc (suc (suc i))) e = cc

system-IsSound : IsSound system
system-IsSound = record {
  family = three-Family;
  on_cpu = system-OnCpu;
  pending = record {
    builds = λ i np e. absurd (cc);
    apart = λ i j np e e'. absurd (cc);
    owned = λ np low e. absurd (no_embryo np e);
  };
}

claims_3 : claim_place three ≡ some (3, claim three 3)
unfolding claim_place find_unused
claims_3 = refl

-- A process in `fork` has claimed place 3, and gives the processor up before it goes on.
Reach-IsSound_example : IsSound (record system {
  table = yield_cpu (claim three 3) 2;
  cpus = update cpus 0 none;
  stage = update (λ i. idle) 2 (claimed 3);
})
Reach-IsSound_example = Reach-IsSound {kernel = kernel} {s = system} system-IsSound (
    later (later start (claim_step 0 2 3 (claim three 3) refl refl (omega arith) claims_3))
      (yield_step 0 2 refl))

-- A sleeper of the channel is woken, and no other.
woken : (wakeup1 (process 1) procs 1).state ≡ runnable
unfolding wakeup1 wakeup_from
woken = refl

not_woken : (wakeup1 (process 1) procs 0).state ≡ sleeping
unfolding wakeup1 wakeup_from
not_woken = refl

exit-wait_example :
    (((exit_locked three 2).proc 1).state ≡ runnable)
    × ((i : ℕ) × (i < nproc)
        × IsDead 1 ((exit_locked three 2).proc i)
        × Reaped 0x8010_0000 kernel.copyuvm kernel.freevm
            (exit_locked three 2)
            no_memory
            i
            (wait 0x8010_0000 kernel.copyuvm kernel.freevm (exit_locked three 2) no_memory 1))
exit-wait_example =
    exit-wait three 2 1 (omega arith) (omega arith) (omega arith) refl 0x8010_0000 kernel.copyuvm
      kernel.freevm no_memory refl refl

-- The zombie is found behind the processes that live.
scanned : scan (exit_locked three 2).proc 1 nproc 0 false ≡ found 2
unfolding scan exit_locked adopt_from adopt wakeup1 wakeup_from
scanned = refl

wait_lem_example :
    ((i : ℕ) × (i < nproc)
      × IsDead 0 (procs i)
      × None (IsDead 0) procs 0 i
      × Reaped 0x8010_0000 kernel.copyuvm kernel.freevm three no_memory i
          (wait 0x8010_0000 kernel.copyuvm kernel.freevm three no_memory 0))
    ⊎ (None (IsDead 0) procs 0 nproc
        × (None (IsChild 0) procs 0 nproc ⊎ ((procs 0).killed ≡ true))
        × (wait 0x8010_0000 kernel.copyuvm kernel.freevm three no_memory 0
            ≡ some (returns failed, three, no_memory)))
    ⊎ (None (IsDead 0) procs 0 nproc
        × ((i : ℕ) × (i < nproc) × IsChild 0 (procs i))
        × ((procs 0).killed ≡ false)
        × (wait 0x8010_0000 kernel.copyuvm kernel.freevm three no_memory 0
            ≡ some (sleeps, sleep (process 0) three 0, no_memory)))
wait_lem_example = wait_lem 0x8010_0000 kernel.copyuvm kernel.freevm three no_memory 0

-- A kernel in which the mappings of the child cannot be copied: `fork` returns -1.
abbrev one_page : Kmem
one_page = record { mem = λ a. 0; use_lock = true; freelist = 0x8020_0000 }

abbrev forked : Option (ℕ × Ptable × Kmem)
forked = fork 0x8010_0000 kernel.copyuvm kernel.copy_maps 1 2 three one_page 2

abbrev table_of : Option (ℕ × Ptable × Kmem) → Ptable
table_of none = three
table_of (some (r, t, k)) = t

abbrev memory_of : Option (ℕ × Ptable × Kmem) → Kmem
memory_of none = one_page
memory_of (some (r, t, k)) = k

fork-Forked_example :
    Forked 0x8010_0000 kernel.copyuvm kernel.copy_maps three 2 failed
      (table_of forked)
      (memory_of forked)
unfolding fork fork_into fork_tail allocproc claim_place alloc_at find_unused kalloc kfree
fork-Forked_example =
    fork-Forked 0x8010_0000 kernel.copyuvm kernel.copy_maps 1 2 three one_page 2 failed
      (table_of forked) (memory_of forked) tt refl
