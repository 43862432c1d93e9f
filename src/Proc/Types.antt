-- ===== src/Proc/Types.antt =====
-- `struct proc` of proc.h and the process table of proc.c. A pointer to a process is its place in the
-- table.
use cs537_project.Prelude.{ℕ, Bool, true, false, Option, none, some, ◌==◌}

-- `enum procstate`.
pub data State : Type 0 where
  unused embryo sleeping runnable running zombie : State

abbrev pub is_unused : State → Bool
is_unused unused = true
is_unused s = false

abbrev pub is_sleeping : State → Bool
is_sleeping sleeping = true
is_sleeping s = false

abbrev pub is_runnable : State → Bool
is_runnable runnable = true
is_runnable s = false

abbrev pub is_running : State → Bool
is_running running = true
is_running s = false

abbrev pub is_zombie : State → Bool
is_zombie zombie = true
is_zombie s = false

-- What a process sleeps on: the address of a process (`wait`), or of another object.
pub data Chan : Type 0 where
  null : Chan
  process : ℕ → Chan
  object : ℕ → Chan

abbrev pub same_chan : Chan → Chan → Bool
same_chan null null = true
same_chan (process i) (process j) = i == j
same_chan (object a) (object b) = a == b
same_chan c d = false

-- The fields that proc.c works on; the files, the directory, the name and the mappings are left out.
pub record Proc : Type 0 where
  pub sz : ℕ
  pub pgdir : ℕ
  pub kstack : ℕ
  pub state : State
  pub pid : ℕ
  pub parent : Option ℕ
  pub tf : ℕ
  pub context : ℕ
  pub chan : Chan
  pub killed : Bool
  pub num_mappings : ℕ

abbrev pub nproc : ℕ
nproc = 64

-- `ptable`, by place, with `nextpid` and `initproc`.
pub record Ptable : Type 0 where
  pub proc : ℕ → Proc
  pub nextpid : ℕ
  pub initproc : ℕ

-- `p->parent == q`
abbrev pub is_parent : Option ℕ → ℕ → Bool
is_parent none q = false
is_parent (some p) q = p == q
