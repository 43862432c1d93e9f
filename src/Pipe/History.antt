-- ===== src/Pipe/History.antt =====
-- A pipe over its whole life: writers, readers and closings in any order.
use mathlib.Core.List.{append_assoc, append-nil}
use cs537_project.Prelude.{
  ℕ, ◌≤◌, ◌≡◌, refl, ap, sym, ◌∙◌, List, [], ◌++◌, Bool, arith, length, ◌∷◌, ◌==◌, if◌then◌else◌,
  add32, not, ◌||◌, Bool-cases, false, true, inl, inr,
}
use cs537_project.Pipe.{Pipe, pipesize, init, close, put, write, read}
use cs537_project.Pipe.Fifo.{IsValid, put_lem, contents, length-window, write-Wrote, read_lem}

-- The bytes that the loop of `pipewrite` stores before it ends or sleeps.
pub accepted : Pipe → Bool → List ℕ → List ℕ
accepted p killed [] = []
accepted p killed (x ∷ xs) =
    let rest = accepted (put p x) killed xs in
    if p.nwrite == add32 p.nread pipesize then [] else x ∷ rest

accepted_lem :
    (p : Pipe) (killed : Bool) (xs : List ℕ)
    → IsValid p
    → contents (write p killed xs).1 ≡ contents p ++ accepted p killed xs
unfolding accepted write
accepted_lem p killed [] v = sym (append-nil (contents p))
accepted_lem p killed (x ∷ xs) v = elim (Bool-cases (p.nwrite == add32 p.nread pipesize)) [
  | inl full ↦ elim (Bool-cases (not p.readopen || killed)) [
    | inl stop ↦ rw (full, stop, append-nil)
    | inr wait ↦ rw (full, wait, append-nil)
  ]
  | inr room ↦
      let (valid, appended) = put_lem x v (ground arith) in
      rw room (
        accepted_lem (put p x) killed xs valid
        ∙ ap (λ (c : List ℕ). c ++ accepted (put p x) killed xs) appended
        ∙ append_assoc (contents p) (x ∷ []) (accepted (put p x) killed xs))
]

-- The pipe, the bytes that went into it and the bytes that came out of it.
pub record Life : Type 0 where
  pub pipe : Pipe
  pub sent : List ℕ
  pub received : List ℕ

-- Each step is what one process does under the lock. A writer that slept goes on by another `write` of
-- the bytes that were left.
pub data Step (s : Life) : Life → Type 0 where
  write_step :
      (killed : Bool) (xs : List ℕ)
      → Step s (record {
        pipe = (write s.pipe killed xs).1;
        sent = s.sent ++ accepted s.pipe killed xs;
        received = s.received;
      })
  read_step :
      (killed : Bool) (n : ℕ)
      → Step s (record {
        pipe = (read s.pipe killed n).2;
        sent = s.sent;
        received = s.received ++ (read s.pipe killed n).1;
      })
  close_step : (writable : Bool) → Step s (record s { pipe = (close s.pipe writable).0 })

pub data Reach (page : List ℕ) : Life → Type 0 where
  start : Reach page (record { pipe = init page; sent = []; received = [] })
  later : {s t : Life} → Reach page s → Step s t → Reach page t

record IsFaithful (s : Life) : Type 0 where
  valid : IsValid s.pipe
  balance : s.received ++ contents s.pipe ≡ s.sent

Step-IsFaithful : {s t : Life} → Step s t → IsFaithful s → IsFaithful t
unfolding close
Step-IsFaithful {s} (write_step killed xs) f = record {
  valid = (write-Wrote s.pipe killed xs f.valid).valid;
  balance =
      ap (λ (c : List ℕ). s.received ++ c) (accepted_lem s.pipe killed xs f.valid)
      ∙ sym (append_assoc s.received (contents s.pipe) (accepted s.pipe killed xs))
      ∙ ap (λ (c : List ℕ). c ++ accepted s.pipe killed xs) f.balance;
}
Step-IsFaithful {s} (read_step killed n) f =
    let (valid, split, way) = read_lem killed n f.valid in
    record {
      valid = valid;
      balance =
          append_assoc s.received (read s.pipe killed n).1 (contents (read s.pipe killed n).2)
          ∙ ap (λ (c : List ℕ). s.received ++ c) split
          ∙ f.balance;
    }
Step-IsFaithful (close_step true) f = record { valid = omega (arith, f.valid); balance = f.balance }
Step-IsFaithful (close_step false) f = record {
  valid = omega (arith, f.valid);
  balance = f.balance;
}

Reach-IsFaithful : {page : List ℕ} {s : Life} → length page ≡ pipesize → Reach page s → IsFaithful s
unfolding init
Reach-IsFaithful size start = record { valid = omega arith; balance = refl }
Reach-IsFaithful size (later r st) = Step-IsFaithful st (Reach-IsFaithful size r)

-- What readers have received is what writers have sent, in order and without loss, but for the bytes
-- that the pipe still holds; and these are at most PIPESIZE.
pub Reach-fifo :
    {page : List ℕ} {s : Life}
    → length page ≡ pipesize
    → Reach page s
    → (s.received ++ contents s.pipe ≡ s.sent) × (length (contents s.pipe) ≤ pipesize)
Reach-fifo size r = let f = Reach-IsFaithful size r in (f.balance, rw length-window f.valid.bounded)
