-- ===== src/Proc.antt =====
-- The process table: xv6-public/proc.c. Each function is what one processor does while it holds
-- `ptable.lock`, or between two such sections of `allocproc` and `fork`. What vm.c does is taken as parameters; kalloc and kfree are those of Kalloc.
pub mod Types
pub mod Loops
pub mod Adopt
pub mod Wake
pub mod Reap
pub mod Steps
pub mod Family
pub mod Birth
pub mod Pending
pub mod OnCpu
pub mod Building
pub mod History
pub mod Meet
mod Tests
use cs537_project.Prelude.{
  ℕ, zero, suc, ◌+◌, ◌-◌, Bool, true, false, not, ◌&&◌, ◌||◌, Option, none, some, ◌==◌,
  if◌then◌else◌, add32, failed, update,
}
use cs537_project.Kalloc.{Kmem, kalloc, kfree, stosl}
use cs537_project.Proc.Types.{
  State, unused, embryo, sleeping, runnable, running, zombie, is_unused, is_sleeping, is_runnable,
  is_zombie, Chan, null, process, same_chan, Proc, nproc, Ptable, is_parent,
}

-- `*np->tf = *curproc->tf`: the words of a trap frame.
unfoldable pub copy_words : (ℕ → ℕ) → ℕ → ℕ → ℕ → ℕ → ℕ
copy_words mem dst src zero = mem
copy_words mem dst src (suc n) = copy_words (update mem dst (mem src)) (dst + 4) (src + 4) n

-- The first loop of `allocproc` from place `i` on.
unfoldable pub find_unused : (ℕ → Proc) → ℕ → ℕ → Option ℕ
find_unused proc zero i = none
find_unused proc (suc r) i =
    let rest = find_unused proc r (i + 1) in if is_unused (proc i).state then some i else rest

abbrev pub set_proc : Ptable → ℕ → Proc → Ptable
set_proc t i p = record t { proc = update t.proc i p }

-- `state = EMBRYO; pid = nextpid++`
abbrev pub claim : Ptable → ℕ → Ptable
claim t i = record t {
  proc = update t.proc i (record (t.proc i) { state = embryo; pid = t.nextpid });
  nextpid = add32 t.nextpid 1;
}

-- The sizes of a kernel stack, `struct trapframe` and `struct context`.
abbrev pub kstacksize : ℕ
kstacksize = 4096

abbrev pub tf_of : ℕ → ℕ
tf_of kstack = kstack + kstacksize - 76

abbrev pub context_of : ℕ → ℕ
context_of kstack = tf_of kstack - 4 - 20

-- The words that `allocproc` puts on the new kernel stack: the return address `trapret`, and a context
-- of zeros that starts at `forkret`.
abbrev pub new_stack : ℕ → ℕ → (ℕ → ℕ) → ℕ → ℕ → ℕ
new_stack trapret forkret mem kstack =
    update (stosl (update mem (tf_of kstack - 4) trapret) (context_of kstack) 0 5)
      (context_of kstack + 16) forkret

-- What `allocproc` does while it holds the lock: it claims a place, if there is one.
unfoldable pub claim_place : Ptable → Option (ℕ × Ptable)
claim_place t = elim (find_unused t.proc nproc 0) [ none ↦ none | some i ↦ some (i, claim t i) ]

-- The rest of `allocproc`, without the lock, for the place `i` that it has claimed and what `kalloc` returns.
unfoldable pub alloc_at : ℕ → ℕ → Ptable → ℕ → ℕ × Kmem → Option ℕ × Ptable × Kmem
alloc_at trapret forkret t i (page, k) =
    if page == 0
    then (none, set_proc t i (record (t.proc i) { kstack = 0; state = unused }), k)
    else (
      some i,
      set_proc t i (record (t.proc i) {
        kstack = page;
        tf = tf_of page;
        context = context_of page;
        num_mappings = 0;
      }),
      record k { mem = new_stack trapret forkret k.mem page },
    )

-- `allocproc`; `trapret` and `forkret` are addresses of code.
unfoldable pub allocproc : ℕ → ℕ → Ptable → Kmem → Option ℕ × Ptable × Kmem
unfolding alloc_at
allocproc trapret forkret t k = elim (claim_place t) [
  | none ↦ (none, t, k)
  | some (i, t') ↦ alloc_at trapret forkret t' i (kalloc k)
]

-- `wakeup1` on one process.
abbrev pub wake : Chan → Proc → Proc
wake chan p =
    if is_sleeping p.state && same_chan p.chan chan then record p { state = runnable } else p

-- The loop of `wakeup1` from place `i` on.
unfoldable pub wakeup_from : Chan → (ℕ → Proc) → ℕ → ℕ → ℕ → Proc
wakeup_from chan proc zero i = proc
wakeup_from chan proc (suc r) i = wakeup_from chan (update proc i (wake chan (proc i))) r (i + 1)

-- `wakeup1`, and `wakeup`, which takes the lock round it.
unfoldable pub wakeup1 : Chan → (ℕ → Proc) → ℕ → Proc
wakeup1 chan proc = wakeup_from chan proc nproc 0

unfoldable pub wakeup : Chan → Ptable → Ptable
wakeup chan t = record t { proc = wakeup1 chan t.proc }

-- The body of the loop of `exit` that passes children to init.
unfoldable pub adopt : ℕ → ℕ → (ℕ → Proc) → ℕ → ℕ → Proc
adopt curproc initproc proc i =
    if is_parent (proc i).parent curproc
    then (let proc' = update proc i (record (proc i) { parent = some initproc }) in
        if is_zombie (proc i).state then wakeup1 (process initproc) proc' else proc')
    else proc

-- The loop from place `i` on.
unfoldable pub adopt_from : ℕ → ℕ → (ℕ → Proc) → ℕ → ℕ → ℕ → Proc
adopt_from curproc initproc proc zero i = proc
adopt_from curproc initproc proc (suc r) i =
    adopt_from curproc initproc (adopt curproc initproc proc i) r (i + 1)

-- `wakeup1(curproc->parent)`
abbrev pub parent_chan : Option ℕ → Chan
parent_chan none = null
parent_chan (some p) = process p

-- `exit` from where it takes the lock up to `sched`.
unfoldable pub exit_locked : Ptable → ℕ → Ptable
exit_locked t curproc =
    let proc =
      adopt_from curproc t.initproc (wakeup1 (parent_chan (t.proc curproc).parent) t.proc) nproc
        0 in
    record t { proc = update proc curproc (record (proc curproc) { state = zombie }) }

-- `exit`; `none` is the panic "init exiting". The files and the directory are left out.
unfoldable pub exit : Ptable → ℕ → Option Ptable
unfolding exit_locked
exit t curproc = if curproc == t.initproc then none else some (exit_locked t curproc)

-- What the scan of `wait` finds: a zombie child, only other children, or no child.
pub data Kids : Type 0 where
  found : ℕ → Kids
  havekids : Bool → Kids

-- The scan from place `i` on.
unfoldable pub scan : (ℕ → Proc) → ℕ → ℕ → ℕ → Bool → Kids
scan proc curproc zero i kids = havekids kids
scan proc curproc (suc r) i kids =
    let rest = scan proc curproc r (i + 1) (kids || is_parent (proc i).parent curproc) in
    if is_parent (proc i).parent curproc && is_zombie (proc i).state then found i else rest

-- The fields that `wait` clears.
abbrev pub clear : Proc → Proc
clear p = record p { kstack = 0; pid = 0; parent = none; killed = false; state = unused }

-- How `wait` leaves the lock: it returns a value, or sleeps.
pub data Waited : Type 0 where
  returns : ℕ → Waited
  sleeps : Waited

-- `p->chan = chan; p->state = SLEEPING`
unfoldable pub sleep : Chan → Ptable → ℕ → Ptable
sleep chan t i = set_proc t i (record (t.proc i) { chan = chan; state = sleeping })

-- "Tidy up": the first thing that a process does when it has slept.
unfoldable pub tidy_up : Ptable → ℕ → Ptable
tidy_up t i = set_proc t i (record (t.proc i) { chan = null })

unfoldable pub yield_cpu : Ptable → ℕ → Ptable
yield_cpu t i = set_proc t i (record (t.proc i) { state = runnable })

-- What the scheduler does to the process that it has chosen.
unfoldable pub run : Ptable → ℕ → Ptable
run t i = set_proc t i (record (t.proc i) { state = running })

-- The loop of `scheduler` from place `i` on: the next process that it runs.
unfoldable pub pick : (ℕ → Proc) → ℕ → ℕ → Option ℕ
pick proc zero i = none
pick proc (suc r) i =
    let rest = pick proc r (i + 1) in if is_runnable (proc i).state then some i else rest

-- `kill` on the process that it finds.
abbrev pub mark_killed : Proc → Proc
mark_killed p = record p {
  killed = true;
  state = if is_sleeping p.state then runnable else p.state;
}

-- The loop of `kill` from place `i` on.
unfoldable pub kill_from : (ℕ → Proc) → ℕ → ℕ → ℕ → ℕ × (ℕ → Proc)
kill_from proc pid zero i = (failed, proc)
kill_from proc pid (suc r) i =
    let rest = kill_from proc pid r (i + 1) in
    if (proc i).pid == pid then (0, update proc i (mark_killed (proc i))) else rest

unfoldable pub kill : Ptable → ℕ → ℕ × Ptable
kill t pid = let (r, proc) = kill_from t.proc pid nproc 0 in (r, record t { proc = proc })

-- `copyuvm(pgdir, sz)` gives 0 or the copy. `copy_maps` is the loop of `fork` over the mappings of a process,
-- from its page table to that of the child: whether it succeeds; it may panic. (It is fork_maps of Mm.)
module _ (kernel_end : ℕ) (copyuvm : ℕ → ℕ → Kmem → ℕ × Kmem)
    (copy_maps : ℕ → ℕ → ℕ → Kmem → Option (Bool × Kmem)) where
  -- `fork` with the new process at `np` and what `copyuvm` returns, up to where the child is RUNNABLE: its
  -- pid, or `none` if there is no child. The table is only seen by others from where the lock is taken on.
  unfoldable pub fork_into : Ptable → ℕ → ℕ → ℕ × Kmem → Option (Option ℕ × Ptable × Kmem)
  fork_into t curproc np (pgdir, k) =
      if pgdir == 0
      then (elim (kfree kernel_end (t.proc np).kstack k) [
        | none ↦ none
        | some k' ↦
            some (
              none,
              set_proc t np (record (t.proc np) { pgdir = 0; kstack = 0; state = unused }),
              k',
            )
      ])
      else some (
        some (t.proc np).pid,
        set_proc t np (record (t.proc np) {
          pgdir = pgdir;
          sz = (t.proc curproc).sz;
          parent = some curproc;
          state = runnable;
        }),
        record k {
          mem =
              update (copy_words k.mem (t.proc np).tf (t.proc curproc).tf 19) ((t.proc np).tf + 28)
                0;
        },
      )

  -- The rest of `fork`, without the lock: the mappings. Where a mapping cannot be copied it returns FAILED,
  -- and the child is RUNNABLE all the same.
  unfoldable pub fork_tail : Ptable → ℕ → ℕ → ℕ → Kmem → Option (ℕ × Ptable × Kmem)
  fork_tail t curproc np pid k =
      elim (copy_maps curproc (t.proc curproc).pgdir (t.proc np).pgdir k) [
        | none ↦ none
        | some (success, k') ↦ some (
          if success then pid else failed,
          set_proc t np (record (t.proc np) { num_mappings = (t.proc curproc).num_mappings }),
          k',
        )
      ]

  abbrev pub fork_end : ℕ → ℕ → Option (Option ℕ × Ptable × Kmem) → Option (ℕ × Ptable × Kmem)
  fork_end curproc np none = none
  fork_end curproc np (some (none, t, k)) = some (failed, t, k)
  fork_end curproc np (some (some pid, t, k)) = fork_tail t curproc np pid k

  -- `fork` after `allocproc`.
  abbrev pub fork_rest : ℕ → Option ℕ × Ptable × Kmem → Option (ℕ × Ptable × Kmem)
  fork_rest curproc (none, t, k) = some (failed, t, k)
  fork_rest curproc (some np, t, k) =
      fork_end curproc np
        (fork_into t curproc np (copyuvm (t.proc curproc).pgdir (t.proc curproc).sz k))

  -- `fork`, where no other processor changes the table between its parts; `none` is a panic.
  unfoldable pub fork : ℕ → ℕ → Ptable → Kmem → ℕ → Option (ℕ × Ptable × Kmem)
  fork trapret forkret t k curproc = fork_rest curproc (allocproc trapret forkret t k)

-- `freevm` may panic.
module _ (kernel_end : ℕ) (copyuvm : ℕ → ℕ → Kmem → ℕ × Kmem)
    (freevm : ℕ → Kmem → Option Kmem) where
  -- `wait` on the zombie that it has found.
  unfoldable pub reap : Ptable → Kmem → ℕ → Option (Waited × Ptable × Kmem)
  reap t k i = elim (kfree kernel_end (t.proc i).kstack k) [
    | none ↦ none
    | some k' ↦ elim (freevm (t.proc i).pgdir k') [
      | none ↦ none
      | some k'' ↦ some (returns (t.proc i).pid, set_proc t i (clear (t.proc i)), k'')
    ]
  ]

  -- One round of the endless loop of `wait`: a process that sleeps there goes round again.
  unfoldable pub wait : Ptable → Kmem → ℕ → Option (Waited × Ptable × Kmem)
  wait t k curproc = elim (scan t.proc curproc nproc 0 false) [
    | found i ↦ reap t k i
    | havekids kids ↦
        if not kids || (t.proc curproc).killed
        then some (returns failed, t, k)
        else some (sleeps, sleep (process curproc) t curproc, k)
  ]
