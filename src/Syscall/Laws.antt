-- ===== src/Syscall/Laws.antt =====
-- What the checks of syscall.c let through lies within the process.
use mathlib.Core.Path.{subst}
use cs537_project.Prelude.{
  ℕ, zero, suc, ◌+◌, ◌-◌, ◌^◌, ◌≤◌, ◌<◌, ◌≡◌, ◌≢◌, ◌⊎◌, inl, inr, refl, ap, false, ◌||◌, Option,
  none, some, Option-cases, Bool-cases, of_some-eq, arith, ltb, leb, ◌==◌, add32, kernbase,
  ℕ_discrete,
}
use cs537_project.Wmap.Types.{Maps}
use cs537_project.Wmap.Alloc.{wmap}
use cs537_project.Syscall.{
  Caller, load_int, fetchint, find_nul, fetchstr, argint, is_outside, argptr, status, is_too_big,
  sys_wmap,
}

-- For a process below KERNBASE `fetchint` reads the four bytes exactly when all of them lie below the process's size.
pub fetchint_lem :
    (p : Caller) (addr : ℕ)
    → p.sz ≤ kernbase
    → ((addr + 4 ≤ p.sz) × (fetchint p addr ≡ some (load_int p.mem addr)))
      ⊎ ((p.sz < addr + 4) × (fetchint p addr ≡ none))
unfolding fetchint
fetchint_lem p addr small = elim (Bool-cases (leb p.sz addr || ltb p.sz (add32 addr 4))) [
  | inl out ↦ rw out (inr (ground arith, refl))
  | inr inside ↦ rw inside (inl (ground arith, refl))
]

-- No byte from `s` up to `ep` is a nul.
abbrev pub NoNul : (ℕ → ℕ) → ℕ → ℕ → Type 0
NoNul mem s ep = (a : ℕ) → s ≤ a → a < ep → mem a ≢ 0

NoNul-cons : {mem : ℕ → ℕ} {s ep : ℕ} → mem s ≢ 0 → NoNul mem (s + 1) ep → NoNul mem s ep
NoNul-cons {mem} {s} h rest a low high = elim (ℕ_discrete s a) [
  | yes e ↦ subst (λ (b : ℕ). mem b ≢ 0) e h
  | no ne ↦ rest a (omega arith) high
]

find_nul_lem :
    (r : ℕ) (mem : ℕ → ℕ) (ep s : ℕ)
    → ep ≤ s + r
    → ((t : ℕ) × (find_nul r mem ep s ≡ some t) × (s ≤ t) × (t < ep) × (mem t ≡ 0) × NoNul mem s t)
      ⊎ ((find_nul r mem ep s ≡ none) × NoNul mem s ep)
unfolding find_nul
find_nul_lem zero mem ep s enough = inr (refl, λ a low high. absurd (omega arith))
find_nul_lem (suc r) mem ep s enough = elim (Bool-cases (ltb s ep)) [
  | inr past ↦ rw past (inr (refl, λ a low high. absurd (ground arith)))
  | inl before ↦ elim (Bool-cases (mem s == 0)) [
    | inl nul ↦
        rw (before, nul)
          (inl
            (s, refl, omega arith, ground arith, ground arith, λ a low high. absurd (omega arith)))
    | inr more ↦
        let h : mem s ≢ 0 = λ e. ground (arith, more, e) in
        elim (find_nul_lem r mem ep (s + 1) (omega arith)) [
          | inl (t, e, low, high, nul, others) ↦
              rw (before, more) (inl (t, e, omega arith, high, nul, NoNul-cons h others))
          | inr (e, others) ↦ rw (before, more) (inr (e, NoNul-cons h others))
        ]
  ]
]

-- `fetchstr` gives the distance to the first nul below the process's size, and -1 when there is none.
pub fetchstr_lem :
    (p : Caller) (addr : ℕ)
    → ((n : ℕ) × (fetchstr p addr ≡ some n)
        × (addr + n < p.sz)
        × (p.mem (addr + n) ≡ 0)
        × NoNul p.mem addr (addr + n))
      ⊎ ((fetchstr p addr ≡ none) × NoNul p.mem addr p.sz)
unfolding fetchstr
fetchstr_lem p addr = elim (Bool-cases (leb p.sz addr)) [
  | inl out ↦ rw out (inr (refl, λ a low high. absurd (ground arith)))
  | inr inside ↦ elim (find_nul_lem (p.sz - addr) p.mem p.sz addr (ground arith)) [
    | inl (t, e, low, high, nul, others) ↦
        let back : t ≡ addr + (t - addr) = omega arith in
        rw (inside, e)
          (inl (
            t - addr,
            refl,
            omega arith,
            subst (λ (a : ℕ). p.mem a ≡ 0) back nul,
            subst (λ (a : ℕ). NoNul p.mem addr a) back others,
          ))
    | inr (e, others) ↦ rw (inside, e) (inr (refl, others))
  ]
]

no_value : {i : ℕ} → none ≡ some i → ⊥
no_value h = cc

-- For a process below KERNBASE `argptr` lets a pointer through exactly when the argument can be read,
-- the size is not negative, and the block at the pointer, which lies below the process's size, ends
-- at or below it.
pub argptr_lem :
    (p : Caller) (n size : ℕ)
    → p.sz ≤ kernbase
    → ((i : ℕ) × (argint p n ≡ some i)
        × (argptr p n size ≡ some i)
        × (size < 2 ^ 31)
        × (i < p.sz)
        × (i + size ≤ p.sz))
      ⊎ ((argptr p n size ≡ none)
          × ((i : ℕ) → argint p n ≡ some i → (2 ^ 31 ≤ size) ⊎ (p.sz ≤ i) ⊎ (p.sz < i + size)))
unfolding argptr
argptr_lem p n size small = elim (Option-cases (argint p n)) [
  | inl e ↦ rw (argptr, e) (inr (refl, λ i h. absurd (no_value h)))
  | inr (i, e) ↦ elim (Bool-cases (is_outside p i size)) [
    | inl out ↦
        let where_out : (2 ^ 31 ≤ size) ⊎ (p.sz ≤ i) ⊎ (p.sz < i + size) = ground arith in
        rw (argptr, e, out)
          (inr (
            refl,
            λ j h.
                subst (λ (a : ℕ). (2 ^ 31 ≤ size) ⊎ (p.sz ≤ a) ⊎ (p.sz < a + size)) (of_some-eq h)
                  where_out,
          ))
    | inr inside ↦
        rw (argptr, e, inside) (inl (i, refl, refl, ground arith, ground arith, ground arith))
  ]
]

-- Whatever the file descriptor is, `sys_wmap` hands it on to `wmap`.
pub sys_wmap-any_fd :
    (p : Caller) (m : Maps) {addr length flags : ℕ} (fd : ℕ)
    → argint p 0 ≡ some addr
    → argint p 1 ≡ some length
    → argint p 2 ≡ some flags
    → argint p 3 ≡ some fd
    → sys_wmap p m ≡ wmap m addr length flags fd
unfolding sys_wmap
sys_wmap-any_fd p m fd a b c d =
    let small : is_too_big (status (argint p 3)) ≡ false =
      ap (λ (o : Option ℕ). is_too_big (status o)) d in
    rw (sys_wmap, a, b, c, d, small) refl
