-- ===== src/Bio/Tests.antt =====
-- Block 5 of a disk of ten blocks is read, changed, written and released by process 3.
use cs537_project.Prelude.{ℕ, ◌≡◌, refl, Option, none, some, true, arith}
use cs537_project.Bio.{
  Bcache, Disk, Read, panics, waits, reads, set_buf, binit, link_from, find_first, find_last, bget,
  iderw, fill, bread_locked, bread, bwrite, brelse, unlink,
}
use cs537_project.Bio.Coherence.{IsCoherent}
use cs537_project.Bio.Bread.{ReadResult, bread_lem}
use cs537_project.Bio.View.{IsView, view_of}
use cs537_project.Bio.Refine.{Reach-IsView}
use cs537_project.Bio.History.{
  Reach, World, get, lock, change, write, release, start, later, Reach-IsCoherent,
}

abbrev disk : Disk
disk = record { block = λ n o. n; size = 10 }

abbrev cache_of : Option (ℕ × Bcache) → Bcache
cache_of none = binit
cache_of (some (i, c)) = c

abbrev got : Bcache
got = cache_of (bget 1 5 binit)

abbrev world_of : Read → World
world_of panics = (binit, disk)
world_of (waits i c) = (binit, disk)
world_of (reads i c k) = (c, k)

abbrev read : World
read = world_of (bread_locked 3 0 got disk)

abbrev changed : World
changed = (set_buf read.0 0 (record (read.0.buf 0) { contents = λ o. 7; dirty = true }), read.1)

abbrev written_of : Option World → World
written_of none = (binit, disk)
written_of (some w) = w

abbrev written : World
written = written_of (bwrite 3 0 changed.0 changed.1)

abbrev released_of : Option Bcache → Bcache
released_of none = binit
released_of (some c) = c

abbrev released : Bcache
released = released_of (brelse 3 0 written.0)

get_step : bget 1 5 binit ≡ some (0, got)
unfolding bget find_first find_last link_from
get_step = refl

lock_step : bread_locked 3 0 got disk ≡ reads 0 read.0 read.1
unfolding bget find_first find_last link_from bread_locked fill iderw
lock_step = refl

held_step : (read.0.buf 0).lock ≡ record { locked = true; pid = 3 }
unfolding bget find_first find_last link_from bread_locked fill iderw
held_step = refl

write_step : bwrite 3 0 changed.0 changed.1 ≡ some (written.0, written.1)
unfolding bget find_first find_last link_from bread_locked fill iderw bwrite
write_step = refl

release_step : brelse 3 0 written.0 ≡ some released
unfolding bget find_first find_last link_from bread_locked fill iderw bwrite brelse unlink
release_step = refl

-- What was written is on the disk.
written_seven : written.1.block 5 0 ≡ 7
unfolding bget find_first find_last link_from bread_locked fill iderw bwrite
written_seven = refl

abbrev story : Reach (binit, disk) (released, written.1)
story =
    later
      (later
        (later
          (later (later start (get 1 5 0 got get_step))
            (lock 3 0 0 read.0 read.1 (omega arith) lock_step))
          (change 3 0 (λ o. 7) (omega arith) (rw held_step refl)))
        (write 3 0 written.0 written.1 (omega arith) write_step))
      (release 3 0 released (omega arith) release_step)

Reach-IsCoherent_example : IsCoherent released written.1
Reach-IsCoherent_example = Reach-IsCoherent disk story

Reach-IsView_example : IsView released written.1 (view_of disk story)
Reach-IsView_example = Reach-IsView disk story

released-IsCoherent : IsCoherent released written.1
released-IsCoherent = Reach-IsCoherent disk story

bread_lem_example : ReadResult 4 1 5 released written.1 (bread 4 1 5 released written.1)
bread_lem_example = bread_lem 4 1 5 released written.1 released-IsCoherent
