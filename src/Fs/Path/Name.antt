-- ===== src/Fs/Path/Name.antt =====
-- The name that `skipelem` leaves in the buffer.
use cs537_project.Prelude.{
  ℕ, zero, suc, ◌+◌, ◌≤◌, ◌<◌, ◌≡◌, ◌⊎◌, inl, inr, refl, ap, sym, ◌∙◌, List, [], ◌∷◌, true, false,
  leb, ◌==◌, if◌then◌else◌, arith, Bool-cases, length, take, update, update_self, update-ne,
}
use cs537_project.Fs.Path.{dirsiz, put_name, copy_elem}
use cs537_project.Fs.Path.Split.{NoNul}

-- The name in a buffer of `r` bytes: up to the NUL, or all of them.
unfoldable pub name_of : ℕ → (ℕ → ℕ) → ℕ → List ℕ
name_of zero name i = []
name_of (suc r) name i =
    let rest = name_of r name (i + 1) in if name i == 0 then [] else name i ∷ rest

-- The bytes of a list stand in the buffer from `i` on.
abbrev Holds : (ℕ → ℕ) → ℕ → List ℕ → Type 0
Holds name i [] = Unit
Holds name i (c ∷ l) = (name i ≡ c) × Holds name (i + 1) l

put_name_below :
    (n : ℕ) (name : ℕ → ℕ) (i : ℕ) (s : List ℕ) (j : ℕ) → j < i → put_name n name i s j ≡ name j
unfolding put_name
put_name_below zero name i s j h = refl
put_name_below (suc n) name i [] j h = refl
put_name_below (suc n) name i (c ∷ s) j h =
    put_name_below n (update name i c) (i + 1) s j (omega arith)
    ∙ update-ne name i j c (λ e. omega (arith, e, h))

put_name-Holds :
    (n : ℕ) (name : ℕ → ℕ) (i : ℕ) (s : List ℕ) → Holds (put_name n name i s) i (take n s)
unfolding put_name
put_name-Holds zero name i s = tt
put_name-Holds (suc n) name i [] = tt
put_name-Holds (suc n) name i (c ∷ s) = (
  put_name_below n (update name i c) (i + 1) s i (omega arith) ∙ update_self name i c,
  put_name-Holds n (update name i c) (i + 1) s,
)

update-Holds :
    (name : ℕ → ℕ) (i : ℕ) (l : List ℕ) (k x : ℕ)
    → i + length l ≤ k
    → Holds name i l
    → Holds (update name k x) i l
update-Holds name i [] k x h holds = tt
update-Holds name i (c ∷ l) k x h (here, rest) = (
  update-ne name k i x (λ e. omega (arith, e, h)) ∙ here,
  update-Holds name (i + 1) l k x (omega arith) rest,
)

-- The list is all of the buffer, or a NUL follows it.
name_of-Holds :
    (r : ℕ) (name : ℕ → ℕ) (i : ℕ) (l : List ℕ)
    → NoNul l
    → Holds name i l
    → (r ≡ length l) ⊎ ((length l < r) × (name (i + length l) ≡ 0))
    → name_of r name i ≡ l
unfolding name_of
name_of-Holds zero name i [] no_nul holds ends = refl
name_of-Holds zero name i (c ∷ l) no_nul holds ends = absurd (omega (arith, ends))
name_of-Holds (suc r) name i [] no_nul holds ends =
    let nul : (name i == 0) ≡ true =
      (let at : i + 0 ≡ i = omega arith in ground (arith, ends, ap name at)) in
    rw nul refl
name_of-Holds (suc r) name i (c ∷ l) (nonzero, no_nul) (here, holds) ends =
    let more : (name i == 0) ≡ false = ground arith in
    let rest : name_of r name (i + 1) ≡ l = name_of-Holds r name (i + 1) l no_nul holds (elim ends [
      | inl full ↦ inl (omega arith)
      | inr (less, nul) ↦ inr (omega arith, ap name (omega arith) ∙ nul)
    ]) in
    rw (more, rest, here) refl

take-NoNul : (n : ℕ) (l : List ℕ) → NoNul l → NoNul (take n l)
take-NoNul zero l h = tt
take-NoNul (suc n) [] h = tt
take-NoNul (suc n) (c ∷ l) (here, h) = (here, take-NoNul n l h)

take-take : (n m : ℕ) (l : List ℕ) → n ≤ m → take n (take m l) ≡ take n l
take-take zero m l h = refl
take-take (suc n) zero l h = absurd (omega arith)
take-take (suc n) (suc m) [] h = refl
take-take (suc n) (suc m) (c ∷ l) h = ap (λ (x : List ℕ). c ∷ x) (take-take n m l (omega arith))

take_all : (n : ℕ) (l : List ℕ) → length l ≤ n → take n l ≡ l
take_all zero [] h = refl
take_all zero (c ∷ l) h = absurd (omega arith)
take_all (suc n) [] h = refl
take_all (suc n) (c ∷ l) h = ap (λ (x : List ℕ). c ∷ x) (take_all n l (omega arith))

length-take : (n : ℕ) (l : List ℕ) → n ≤ length l → length (take n l) ≡ n
length-take zero l h = refl
length-take (suc n) [] h = absurd (omega arith)
length-take (suc n) (c ∷ l) h = ap suc (length-take n l (omega arith))

-- The name that the caller finds in its buffer.
pub copy_elem-name_of :
    (mem : ℕ → ℕ) (name : ℕ) (s : List ℕ) (len : ℕ)
    → NoNul s
    → len ≤ length s
    → name_of dirsiz (copy_elem mem name s len) name ≡ take dirsiz (take len s)
copy_elem-name_of mem name s len no_nul inside = elim (Bool-cases (leb dirsiz len)) [
  | inl long ↦
      let enough : dirsiz ≤ len = ground arith in
      rw (long, take-take dirsiz len s enough)
        (name_of-Holds dirsiz (put_name dirsiz mem name s) name (take dirsiz s)
          (take-NoNul dirsiz s no_nul) (put_name-Holds dirsiz mem name s)
          (inl (sym (length-take dirsiz s (omega arith)))))
  | inr short ↦
      let less : len < dirsiz = ground arith in
      let size : length (take len s) ≡ len = length-take len s inside in
      let buffer = update (put_name len mem name s) (name + len) 0 in
      rw (short, take_all dirsiz (take len s) (omega arith))
        (name_of-Holds dirsiz buffer name (take len s) (take-NoNul len s no_nul)
          (update-Holds (put_name len mem name s) name (take len s) (name + len) 0 (omega arith)
            (put_name-Holds len mem name s))
          (inr (
            omega arith,
            ap buffer (omega arith) ∙ update_self (put_name len mem name s) (name + len) 0,
          )))
]
