-- ===== src/Pipe/Fifo.antt =====
-- A pipe is a queue of at most PIPESIZE bytes: what the operations do to the bytes that it holds.
use mathlib.Core.Path.{ap₂}
use mathlib.Core.List.{append_assoc, append-nil}
use Prim.Native.Nat.{min}
use cs537_project.Prelude.{
  ℕ, zero, suc, ◌+◌, ◌%◌, ◌^◌, ◌≤◌, ◌<◌, ◌≡◌, ◌≢◌, refl, ap, sym, ◌∙◌, List, [], ◌∷◌, ◌++◌, Bool,
  true, arith, length, get_or, set, get_or-set_self, get_or-set_ne, length-set, ◌==◌, add32, sub32,
  ◌⊎◌, inl, inr, not, ◌||◌, ◌&&◌, Bool-cases,
}
use cs537_project.Pipe.{Pipe, pipesize, Exit, done, failed, asleep, put, write, copy, read}

module _ (bytes : List ℕ) where
  -- The `n` bytes from index `r` on, round the end of the array and of `uint`.
  abbrev pub window : ℕ → ℕ → List ℕ
  window r zero = []
  window r (suc n) = get_or bytes (r % pipesize) 0 ∷ window (add32 r 1) n

-- How many bytes the pipe holds.
abbrev pub count : Pipe → ℕ
count p = sub32 p.nwrite p.nread

-- The bytes that it holds, oldest first.
abbrev pub contents : Pipe → List ℕ
contents p = window p.bytes p.nread (count p)

pub record IsValid (p : Pipe) : Type 0 where
  pub storage : length p.bytes ≡ pipesize
  pub nread_fits : p.nread < 2 ^ 32
  pub nwrite_fits : p.nwrite < 2 ^ 32
  pub bounded : count p ≤ pipesize

pub length-window : (bytes : List ℕ) (r n : ℕ) → length (window bytes r n) ≡ n
length-window bytes r zero = refl
length-window bytes r (suc n) = ap suc (length-window bytes (add32 r 1) n)

-- Writing just behind a window of fewer than PIPESIZE bytes extends it.
window-set :
    (bytes : List ℕ) (x n r w : ℕ)
    → length bytes ≡ pipesize
    → n < pipesize
    → r < 2 ^ 32
    → w ≡ (r + n) % 2 ^ 32
    → window (set bytes (w % pipesize) x) r (suc n) ≡ window bytes r n ++ (x ∷ [])
window-set bytes x zero r w size small fits e =
    ap (λ (y : ℕ). y ∷ [])
      (ap (λ (i : ℕ). get_or (set bytes (w % pipesize) x) i 0) (omega arith)
        ∙ get_or-set_self bytes (w % pipesize) x 0 (omega arith))
window-set bytes x (suc n) r w size small fits e =
    ap₂ ◌∷◌ (get_or-set_ne bytes (w % pipesize) (r % pipesize) x 0 (omega arith))
      (window-set bytes x n (add32 r 1) w size (omega arith) (omega arith) (omega arith))

-- A write that does not find the pipe full.
pub put_lem :
    {p : Pipe} (x : ℕ)
    → IsValid p
    → count p < pipesize
    → IsValid (put p x) × (contents (put p x) ≡ contents p ++ (x ∷ []))
put_lem {p} x v room = (
  record {
    storage = length-set p.bytes (p.nwrite % pipesize) x ∙ v.storage;
    nread_fits = v.nread_fits;
    nwrite_fits = omega arith;
    bounded = omega arith;
  },
  ap (window (put p x).bytes p.nread) one_more
      ∙ window-set p.bytes x (count p) p.nread p.nwrite v.storage room v.nread_fits (omega arith),
)
  where
    one_more : count (put p x) ≡ suc (count p)
    one_more = omega arith

-- How a call of `pipewrite` that takes over the bytes `acc` of `xs` ends.
abbrev pub Rest : Pipe → List ℕ → List ℕ → Exit → Type 0
Rest q xs acc done = acc ≡ xs
Rest q xs acc failed = (ys : List ℕ) × (acc ++ ys ≡ xs) × (count q ≡ pipesize)
Rest q xs acc (asleep ys) = (acc ++ ys ≡ xs) × (count q ≡ pipesize)

pub record Wrote (p : Pipe) (xs : List ℕ) (e : Exit) (q : Pipe) : Type 0 where
  pub valid : IsValid q
  pub acc : List ℕ
  pub appended : contents q ≡ contents p ++ acc
  pub rest : Rest q xs acc e
  pub same_ends : (q.readopen ≡ p.readopen) × (q.writeopen ≡ p.writeopen)

Wrote-cons :
    {p : Pipe} (x : ℕ) (xs : List ℕ) (e : Exit) (q : Pipe)
    → contents (put p x) ≡ contents p ++ (x ∷ [])
    → Wrote (put p x) xs e q
    → Wrote p (x ∷ xs) e q
Wrote-cons {p} x xs e q h w = record {
  valid = w.valid;
  acc = x ∷ w.acc;
  appended =
      w.appended ∙ ap (λ (c : List ℕ). c ++ w.acc) h ∙ append_assoc (contents p) (x ∷ []) w.acc;
  rest = longer e w.rest;
  same_ends = w.same_ends;
}
  where
    longer : (f : Exit) → Rest q xs w.acc f → Rest q (x ∷ xs) (x ∷ w.acc) f
    longer done r = ap (λ (c : List ℕ). x ∷ c) r
    longer failed (ys, r, full) = (ys, ap (λ (c : List ℕ). x ∷ c) r, full)
    longer (asleep ys) (r, full) = (ap (λ (c : List ℕ). x ∷ c) r, full)

Wrote-nil : {p : Pipe} (xs : List ℕ) (e : Exit) → IsValid p → Rest p xs [] e → Wrote p xs e p
Wrote-nil {p} xs e v r = record {
  valid = v;
  acc = [];
  appended = sym (append-nil (contents p));
  rest = r;
  same_ends = (refl, refl);
}

-- `pipewrite` appends the bytes in order. It returns n when it has appended all of them; otherwise
-- the pipe is full, and a sleeping writer goes on with exactly the bytes that are left.
pub write-Wrote :
    (p : Pipe) (killed : Bool) (xs : List ℕ)
    → IsValid p
    → Wrote p xs (write p killed xs).0 (write p killed xs).1
unfolding write
write-Wrote p killed [] v = Wrote-nil [] done v refl
write-Wrote p killed (x ∷ xs) v = elim (Bool-cases (p.nwrite == add32 p.nread pipesize)) [
  | inl full ↦
      let held : count p ≡ pipesize = ground arith in
      elim (Bool-cases (not p.readopen || killed)) [
        | inl stop ↦ rw (full, stop) (Wrote-nil (x ∷ xs) failed v (x ∷ xs, refl, held))
        | inr wait ↦ rw (full, wait) (Wrote-nil (x ∷ xs) (asleep (x ∷ xs)) v (refl, held))
      ]
  | inr room ↦
      let (valid, appended) = put_lem x v (ground arith) in
      rw room (Wrote-cons x xs _ _ appended (write-Wrote (put p x) killed xs valid))
]

-- The pipe after one byte is read.
abbrev next : Pipe → Pipe
next p = record p { nread = add32 p.nread 1 }

-- `copy` takes the oldest bytes, as many as there are and as were asked for.
copy_lem :
    {p : Pipe} (n : ℕ)
    → IsValid p
    → IsValid (copy p n).1
      × ((copy p n).0 ++ contents (copy p n).1 ≡ contents p)
      × (length (copy p n).0 ≡ min n (count p))
unfolding copy
copy_lem {p} zero v = (v, refl, omega arith)
copy_lem {p} (suc n) v = elim (Bool-cases (p.nread == p.nwrite)) [
  | inl empty ↦ rw empty (v, refl, ground arith)
  | inr more ↦
      let one_less : count p ≡ suc (count (next p)) = ground arith in
      let (valid, split, size) = copy_lem {p = next p} n (record {
        storage = v.storage;
        nread_fits = omega arith;
        nwrite_fits = v.nwrite_fits;
        bounded = omega arith;
      }) in
      rw more (
        valid,
        ap (λ (c : List ℕ). get_or p.bytes (p.nread % pipesize) 0 ∷ c) split
            ∙ ap (window p.bytes p.nread) (sym one_less),
        omega arith,
      )
]

-- `piperead` returns the oldest bytes in order, as many as there are and as were asked for, and leaves
-- the others. It sleeps or fails only on an empty pipe that a writer still has open, and then changes
-- nothing.
pub read_lem :
    {p : Pipe} (killed : Bool) (n : ℕ)
    → IsValid p
    → let (e, out, q) = read p killed n in
      IsValid q
      × (out ++ contents q ≡ contents p)
      × (((e ≡ done) × (length out ≡ min n (count p)))
          ⊎ ((e ≢ done) × (q ≡ p) × (count p ≡ 0) × (p.writeopen ≡ true)))
unfolding read
read_lem {p} killed n v = elim (Bool-cases (p.nread == p.nwrite && p.writeopen)) [
  | inl wait ↦ elim (Bool-cases killed) [
    | inl dead ↦ rw (wait, dead) (v, refl, inr (λ h. cc, refl, ground arith, ground arith))
    | inr alive ↦ rw (wait, alive) (v, refl, inr (λ h. cc, refl, ground arith, ground arith))
  ]
  | inr ready ↦ let (valid, split, size) = copy_lem n v in rw ready (valid, split, inl (refl, size))
]
