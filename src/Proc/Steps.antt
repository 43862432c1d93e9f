-- ===== src/Proc/Steps.antt =====
-- The processors and the process table: the steps that they take in any order.
use cs537_project.Prelude.{ℕ, Bool, ◌+◌, ◌^◌, ◌<◌, ◌≡◌, Option, none, some, update}
use cs537_project.Kalloc.{Kmem, kalloc}
use cs537_project.Proc.Types.{runnable, Chan, nproc, Ptable}
use cs537_project.Proc.{
  wakeup, kill, exit, sleep, tidy_up, yield_cpu, run, returns, sleeps, claim_place, alloc_at,
  fork_into, fork_tail, wait,
}

-- How far the `fork` of a process is: it has claimed a place, the new process there has a stack, or it is
-- RUNNABLE and has a pid, and its mappings are left to copy.
pub data Stage : Type 0 where
  idle : Stage
  claimed : ℕ → Stage
  stacked : ℕ → Stage
  copying : ℕ → ℕ → Stage

-- The table, the free pages, what each processor runs, `c->proc`, and how far each process is in `fork`.
pub record System : Type 0 where
  pub table : Ptable
  pub kmem : Kmem
  pub cpus : ℕ → Option ℕ
  pub stage : ℕ → Stage

-- The kernel's addresses, and the functions of vm.c that fork and wait call.
pub record Kernel : Type 0 where
  pub kernel_end : ℕ
  pub trapret : ℕ
  pub forkret : ℕ
  pub copyuvm : ℕ → ℕ → Kmem → ℕ × Kmem
  pub copy_maps : ℕ → ℕ → ℕ → Kmem → Option (Bool × Kmem)
  pub freevm : ℕ → Kmem → Option Kmem

abbrev pub after_stack : Option ℕ → Stage
after_stack none = idle
after_stack (some np) = stacked np

abbrev pub after_birth : ℕ → Option ℕ → Stage
after_birth np none = idle
after_birth np (some pid) = copying np pid

module _ (kernel : Kernel) where
  open kernel use {kernel_end, trapret, forkret, copyuvm, copy_maps, freevm}

  -- A processor that runs nothing takes a runnable process; a process that runs gives the processor up,
  -- or changes the table and goes on. Wakeups also come from interrupts. `fork` is four steps, since it
  -- does not hold the lock between them; it may be interrupted, and comes before the pids run out.
  pub data Step (s : System) : System → Type 0 where
    run_step :
        (c i : ℕ)
        → s.cpus c ≡ none
        → i < nproc
        → (s.table.proc i).state ≡ runnable
        → Step s (record s { table = run s.table i; cpus = update s.cpus c (some i) })
    yield_step :
        (c i : ℕ)
        → s.cpus c ≡ some i
        → Step s (record s { table = yield_cpu s.table i; cpus = update s.cpus c none })
    sleep_step :
        (c i : ℕ) (chan : Chan)
        → s.cpus c ≡ some i
        → s.stage i ≡ idle
        → Step s (record s { table = sleep chan s.table i; cpus = update s.cpus c none })
    tidy_step :
        (c i : ℕ)
        → s.cpus c ≡ some i
        → s.stage i ≡ idle
        → Step s (record s { table = tidy_up s.table i })
    wakeup_step : (chan : Chan) → Step s (record s { table = wakeup chan s.table })
    kill_step : (pid : ℕ) → Step s (record s { table = (kill s.table pid).1 })
    exit_step :
        (c i : ℕ) (t : Ptable)
        → s.cpus c ≡ some i
        → s.stage i ≡ idle
        → exit s.table i ≡ some t
        → Step s (record s { table = t; cpus = update s.cpus c none })
    claim_step :
        (c i np : ℕ) (t : Ptable)
        → s.cpus c ≡ some i
        → s.stage i ≡ idle
        → s.table.nextpid + 1 < 2 ^ 31
        → claim_place s.table ≡ some (np, t)
        → Step s (record s { table = t; stage = update s.stage i (claimed np) })
    stack_step :
        (c i np : ℕ)
        → s.cpus c ≡ some i
        → s.stage i ≡ claimed np
        → Step s (
            let (place, t, k) = alloc_at trapret forkret s.table np (kalloc s.kmem) in
            record s { table = t; kmem = k; stage = update s.stage i (after_stack place) })
    birth_step :
        (c i np : ℕ) (r : Option ℕ) (t : Ptable) (k : Kmem)
        → s.cpus c ≡ some i
        → s.stage i ≡ stacked np
        → fork_into kernel_end copyuvm copy_maps s.table i np
            (copyuvm (s.table.proc i).pgdir (s.table.proc i).sz s.kmem)
          ≡ some (r, t, k)
        → Step s (record s { table = t; kmem = k; stage = update s.stage i (after_birth np r) })
    maps_step :
        (c i np pid r : ℕ) (t : Ptable) (k : Kmem)
        → s.cpus c ≡ some i
        → s.stage i ≡ copying np pid
        → fork_tail kernel_end copyuvm copy_maps s.table i np pid s.kmem ≡ some (r, t, k)
        → Step s (record s { table = t; kmem = k; stage = update s.stage i idle })
    wait_step :
        (c i r : ℕ) (t : Ptable) (k : Kmem)
        → s.cpus c ≡ some i
        → s.stage i ≡ idle
        → wait kernel_end copyuvm freevm s.table s.kmem i ≡ some (returns r, t, k)
        → Step s (record s { table = t; kmem = k })
    wait_sleep_step :
        (c i : ℕ) (t : Ptable) (k : Kmem)
        → s.cpus c ≡ some i
        → s.stage i ≡ idle
        → wait kernel_end copyuvm freevm s.table s.kmem i ≡ some (sleeps, t, k)
        → Step s (record s { table = t; kmem = k; cpus = update s.cpus c none })

  pub data Reach (s : System) : System → Type 0 where
    start : Reach s s
    later : {t u : System} → Reach s t → Step t u → Reach s u
