-- ===== src/Pipe/Tests.antt =====
-- A pipe in use, and one that is about to wrap.
use cs537_project.Prelude.{
  ℕ, ◌≤◌, ◌≡◌, refl, List, [], ◌∷◌, ◌++◌, true, false, arith, length, replicate,
}
use cs537_project.Pipe.{Pipe, init, write, copy, read, pipesize}
use cs537_project.Pipe.Fifo.{IsValid, contents}
use cs537_project.Pipe.History.{Life, accepted, write_step, start, later, Reach-fifo}

-- Both counters have passed 2 ^ 32 - 1 but one.
abbrev at_the_end : Pipe
at_the_end = record {
  bytes = replicate 512 0;
  nread = 4294967295;
  nwrite = 4294967295;
  readopen = true;
  writeopen = true;
}

at_the_end-IsValid : IsValid at_the_end
at_the_end-IsValid = omega arith

wraps : contents (write at_the_end false (7 ∷ 8 ∷ 9 ∷ [])).1 ≡ 7 ∷ 8 ∷ 9 ∷ []
unfolding write
wraps = refl

read_back : (read (write at_the_end false (7 ∷ 8 ∷ 9 ∷ [])).1 false 2).1 ≡ 7 ∷ 8 ∷ []
unfolding write read copy
read_back = refl

abbrev page : List ℕ
page = replicate 512 1

abbrev after_write : Life
after_write = record {
  pipe = (write (init page) false (7 ∷ 8 ∷ [])).1;
  sent = accepted (init page) false (7 ∷ 8 ∷ []);
  received = [];
}

Reach-fifo_example :
    ([] ++ contents after_write.pipe ≡ after_write.sent)
    × (length (contents after_write.pipe) ≤ pipesize)
Reach-fifo_example =
    Reach-fifo {page = page} {s = after_write} refl (later start (write_step false (7 ∷ 8 ∷ [])))
