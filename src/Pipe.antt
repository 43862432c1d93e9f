-- ===== src/Pipe.antt =====
-- `struct pipe` and its operations: xv6-public/pipe.c. Each function is what one process does while it
-- holds the pipe's lock, up to the point where it returns or sleeps.
pub mod Fifo
pub mod History
mod Tests
use cs537_project.Prelude.{
  ℕ, zero, suc, ◌+◌, ◌-◌, ◌%◌, List, [], ◌∷◌, Bool, true, false, not, ◌&&◌, ◌||◌, ◌==◌,
  if◌then◌else◌, add32, get_or, set,
}

abbrev pub pipesize : ℕ
pipesize = 512

pub record Pipe : Type 0 where
  pub bytes : List ℕ  -- the field `data`
  pub nread : ℕ
  pub nwrite : ℕ
  pub readopen : Bool
  pub writeopen : Bool

-- How a call leaves the lock: it returns a value, returns -1, or sleeps with the bytes that it has
-- still to write.
pub data Exit : Type 0 where
  done : Exit
  failed : Exit
  asleep : List ℕ → Exit

-- The initialisation in `pipealloc`, over whatever the page holds.
pub init : List ℕ → Pipe
init page = record { bytes = page; nread = 0; nwrite = 0; readopen = true; writeopen = true }

-- `pipeclose`; the flag says that the pipe's page is freed.
unfoldable pub close : Pipe → Bool → Pipe × Bool
close p writable =
    let q : Pipe =
      (if writable then record p { writeopen = false } else record p { readopen = false }) in
    (q, not q.readopen && not q.writeopen)

-- `p->data[p->nwrite++ % PIPESIZE] = addr[i]`
abbrev pub put : Pipe → ℕ → Pipe
put p x = record p { bytes = set p.bytes (p.nwrite % pipesize) x; nwrite = add32 p.nwrite 1 }

-- `pipewrite` with the bytes that are left, from the start or after a sleep.
unfoldable pub write : Pipe → Bool → List ℕ → Exit × Pipe
write p killed [] = (done, p)
write p killed (x ∷ xs) =
    let rest = write (put p x) killed xs in
    if p.nwrite == add32 p.nread pipesize
    then (if not p.readopen || killed then (failed, p) else (asleep (x ∷ xs), p))
    else rest

-- The copying loop of `piperead`, `r` rounds left.
unfoldable pub copy : Pipe → ℕ → List ℕ × Pipe
copy p zero = ([], p)
copy p (suc r) =
    let rest = copy (record p { nread = add32 p.nread 1 }) r in
    if p.nread == p.nwrite
    then ([], p)
    else (get_or p.bytes (p.nread % pipesize) 0 ∷ rest.0, rest.1)

-- `piperead` of at most `n` bytes; a sleeping reader has nothing to write.
unfoldable pub read : Pipe → Bool → ℕ → Exit × List ℕ × Pipe
read p killed n =
    if p.nread == p.nwrite && p.writeopen
    then (if killed then (failed, [], p) else (asleep [], [], p))
    else (done, (copy p n).0, (copy p n).1)
