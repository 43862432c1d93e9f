-- ===== src/Proc/Wake.antt =====
-- `kill`, and the order in which the scheduler takes processes.
use mathlib.Core.Path.{subst}
use cs537_project.Prelude.{
  ℕ, zero, suc, ◌+◌, ◌≤◌, ◌<◌, ◌≡◌, ◌≢◌, ◌⊎◌, inl, inr, refl, ap, true, false, none, some, ◌==◌,
  arith, update, Bool-cases, failed, ℕ_discrete,
}
use cs537_project.Proc.Types.{
  State, unused, embryo, sleeping, runnable, running, zombie, is_sleeping, is_runnable, Proc, nproc,
  Ptable,
}
use cs537_project.Proc.{mark_killed, kill_from, kill, pick}
use cs537_project.Proc.Loops.{Kept, is_sleeping-eq}

-- No process from place `i` up to `n` has the property.
abbrev pub None : (Proc → Type 0) → (ℕ → Proc) → ℕ → ℕ → Type 0
None P proc i n = (j : ℕ) → i ≤ j → j < n → ¬ P (proc j)

pub None-cons :
    (P : Proc → Type 0) (proc : ℕ → Proc) (i n : ℕ)
    → ¬ P (proc i)
    → None P proc (i + 1) n
    → None P proc i n
None-cons P proc i n h rest j low high = elim (ℕ_discrete i j) [
  | yes e ↦ subst (λ (k : ℕ). ¬ P (proc k)) e h
  | no ne ↦ rest j (omega arith) high
]

abbrev pub HasPid : ℕ → Proc → Type 0
HasPid pid p = p.pid ≡ pid

kill_from_lem :
    (proc : ℕ → Proc) (pid r i : ℕ)
    → ((k : ℕ) × (i ≤ k)
        × (k < i + r)
        × ((proc k).pid ≡ pid)
        × (kill_from proc pid r i ≡ (0, update proc k (mark_killed (proc k)))))
      ⊎ ((kill_from proc pid r i ≡ (failed, proc)) × None (HasPid pid) proc i (i + r))
unfolding kill_from
kill_from_lem proc pid zero i = inr (refl, λ j low high. absurd (omega arith))
kill_from_lem proc pid (suc r) i = elim (Bool-cases ((proc i).pid == pid)) [
  | inl hit ↦ rw hit (inl (i, omega arith, omega arith, ground arith, refl))
  | inr miss ↦
      let other : (proc i).pid ≢ pid = λ e. ground (arith, miss, e) in
      elim (kill_from_lem proc pid r (i + 1)) [
        | inl (k, low, high, same, e) ↦ rw (miss, e) (inl (k, omega arith, omega arith, same, refl))
        | inr (e, nobody) ↦
            rw (miss, e)
              (inr (
                refl,
                λ j low high.
                    None-cons (HasPid pid) proc i (i + 1 + r) other nobody j low (omega arith),
              ))
      ]
]

-- `kill` marks a process of the table with the pid, and wakes it if it sleeps; without one it returns
-- -1. Nothing else changes.
pub kill_lem :
    (t : Ptable) (pid : ℕ)
    → ((k : ℕ) × (k < nproc)
        × ((t.proc k).pid ≡ pid)
        × (kill t pid ≡ (0, record t { proc = update t.proc k (mark_killed (t.proc k)) })))
      ⊎ ((kill t pid ≡ (failed, t)) × None (HasPid pid) t.proc 0 nproc)
unfolding kill
kill_lem t pid = elim (kill_from_lem t.proc pid nproc 0) [
  | inl (k, low, high, same, e) ↦ rw e (inl (k, omega arith, same, refl))
  | inr (e, nobody) ↦ rw e (inr (refl, λ j low high. nobody j low (omega arith)))
]

pub mark_killed-Kept : (p : Proc) → Kept p (mark_killed p)
mark_killed-Kept p = elim (Bool-cases (is_sleeping p.state)) [
  | inl slept ↦ rw slept (record {
    pid = refl;
    kstack = refl;
    pgdir = refl;
    woken = inr (is_sleeping-eq p.state slept, refl);
  })
  | inr awake ↦ rw awake (record { pid = refl; kstack = refl; pgdir = refl; woken = inl refl })
]

is_runnable-eq : (s : State) → is_runnable s ≡ true → s ≡ runnable
is_runnable-eq runnable h = refl
is_runnable-eq embryo h = cc
is_runnable-eq unused h = cc
is_runnable-eq sleeping h = cc
is_runnable-eq running h = cc
is_runnable-eq zombie h = cc

not_runnable : (s : State) → s ≡ runnable → is_runnable s ≡ false → ⊥
not_runnable s e h = (let h' = ap is_runnable e in cc)

abbrev pub IsRunnable : Proc → Type 0
IsRunnable p = p.state ≡ runnable

-- The scheduler takes the first runnable process from its place on: it never passes one by.
pub pick_lem :
    (proc : ℕ → Proc) (r i : ℕ)
    → ((k : ℕ) × (pick proc r i ≡ some k)
        × (i ≤ k)
        × (k < i + r)
        × IsRunnable (proc k)
        × None IsRunnable proc i k)
      ⊎ ((pick proc r i ≡ none) × None IsRunnable proc i (i + r))
unfolding pick
pick_lem proc zero i = inr (refl, λ j low high. absurd (omega arith))
pick_lem proc (suc r) i = elim (Bool-cases (is_runnable (proc i).state)) [
  | inl hit ↦ rw hit (
      inl (
        i,
        refl,
        omega arith,
        omega arith,
        is_runnable-eq (proc i).state hit,
        λ j low high. absurd (omega arith),
      ))
  | inr miss ↦
      let other : ¬ IsRunnable (proc i) = λ e. not_runnable (proc i).state e miss in
      elim (pick_lem proc r (i + 1)) [
        | inl (k, e, low, high, is, before) ↦
            rw miss
              (inl (k, e, omega arith, omega arith, is, None-cons IsRunnable proc i k other before))
        | inr (e, nobody) ↦ rw miss (
            inr (
              e,
              λ j low high.
                  None-cons IsRunnable proc i (i + 1 + r) other nobody j low (omega arith),
            ))
      ]
]
