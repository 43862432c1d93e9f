-- ===== src/Proc/Loops.antt =====
-- The loops over the process table.
use mathlib.Core.Path.{subst}
use cs537_project.Prelude.{
  ltb, ℕ, zero, suc, ◌+◌, ◌≤◌, ◌<◌, ◌≡◌, ◌⊎◌, inl, inr, refl, ap, sym, ◌∙◌, true, Option, none,
  some, ◌&&◌, if◌then◌else◌, arith, update, update_self, update-ne, and_true, Bool-cases,
  ℕ_discrete,
}
use cs537_project.Proc.Types.{
  State, unused, embryo, sleeping, runnable, running, zombie, is_unused, is_sleeping, is_zombie,
  Chan, same_chan, Proc, nproc, is_parent,
}
use cs537_project.Proc.{wake, wakeup_from, wakeup1}

pub is_unused-eq : (s : State) → is_unused s ≡ true → s ≡ unused
is_unused-eq unused h = refl
is_unused-eq embryo h = cc
is_unused-eq sleeping h = cc
is_unused-eq runnable h = cc
is_unused-eq running h = cc
is_unused-eq zombie h = cc

pub is_sleeping-eq : (s : State) → is_sleeping s ≡ true → s ≡ sleeping
is_sleeping-eq sleeping h = refl
is_sleeping-eq embryo h = cc
is_sleeping-eq unused h = cc
is_sleeping-eq runnable h = cc
is_sleeping-eq running h = cc
is_sleeping-eq zombie h = cc

pub is_zombie-eq : (s : State) → is_zombie s ≡ true → s ≡ zombie
is_zombie-eq zombie h = refl
is_zombie-eq embryo h = cc
is_zombie-eq unused h = cc
is_zombie-eq runnable h = cc
is_zombie-eq running h = cc
is_zombie-eq sleeping h = cc

pub is_parent-eq : (o : Option ℕ) (q : ℕ) → is_parent o q ≡ true → o ≡ some q
is_parent-eq none q h = cc
is_parent-eq (some p) q h = ap some (ground arith)

-- `wakeup1` wakes each process of the table by itself.
pub wakeup_from-outside :
    (chan : Chan) (proc : ℕ → Proc) (r i j : ℕ)
    → (j < i) ⊎ (i + r ≤ j)
    → wakeup_from chan proc r i j ≡ proc j
unfolding wakeup_from
wakeup_from-outside chan proc zero i j h = refl
wakeup_from-outside chan proc (suc r) i j h =
    wakeup_from-outside chan (update proc i (wake chan (proc i))) r (i + 1) j (omega (arith, h))
    ∙ update-ne proc i j (wake chan (proc i)) (λ e. omega (arith, h, e))

pub wakeup_from-inside :
    (chan : Chan) (proc : ℕ → Proc) (r i j : ℕ)
    → i ≤ j
    → j < i + r
    → wakeup_from chan proc r i j ≡ wake chan (proc j)
unfolding wakeup_from
wakeup_from-inside chan proc zero i j low high = absurd (omega arith)
wakeup_from-inside chan proc (suc r) i j low high = elim (ℕ_discrete i j) [
  | yes e ↦
      subst
        (λ (k : ℕ).
          wakeup_from chan (update proc i (wake chan (proc i))) r (i + 1) k ≡ wake chan (proc k))
        e
        (wakeup_from-outside chan (update proc i (wake chan (proc i))) r (i + 1) i
            (inl (omega arith))
          ∙ update_self proc i (wake chan (proc i)))
  | no ne ↦
      wakeup_from-inside chan (update proc i (wake chan (proc i))) r (i + 1) j (omega arith)
        (omega arith)
      ∙ ap (wake chan) (update-ne proc i j (wake chan (proc i)) ne)
]

-- `wakeup1` makes exactly the processes of the table runnable that sleep on the channel, and changes
-- nothing else.
pub wakeup1_lem :
    (chan : Chan) (proc : ℕ → Proc) (j : ℕ)
    → wakeup1 chan proc j ≡ (if ltb j nproc then wake chan (proc j) else proc j)
unfolding wakeup1
wakeup1_lem chan proc j = elim (Bool-cases (ltb j nproc)) [
  | inl low ↦ rw low (wakeup_from-inside chan proc nproc 0 j (omega arith) (ground arith))
  | inr high ↦ rw high (wakeup_from-outside chan proc nproc 0 j (inr (ground arith)))
]

-- The process is as it was, or it slept and is runnable now.
abbrev pub Woken : State → State → Type 0
Woken s t = (t ≡ s) ⊎ ((s ≡ sleeping) × (t ≡ runnable))

-- What neither waking nor adopting changes.
pub record Kept (p q : Proc) : Type 0 where
  pub pid : q.pid ≡ p.pid
  pub kstack : q.kstack ≡ p.kstack
  pub pgdir : q.pgdir ≡ p.pgdir
  pub woken : Woken p.state q.state

pub Kept-refl : {p q : Proc} → q ≡ p → Kept p q
Kept-refl e = record {
  pid = ap (λ (p : Proc). p.pid) e;
  kstack = ap (λ (p : Proc). p.kstack) e;
  pgdir = ap (λ (p : Proc). p.pgdir) e;
  woken = inl (ap (λ (p : Proc). p.state) e);
}

Woken-trans : (s t u : State) → Woken s t → Woken t u → Woken s u
Woken-trans s t u (inl a) (inl b) = inl (b ∙ a)
Woken-trans s t u (inl a) (inr (b, c)) = inr (sym a ∙ b, c)
Woken-trans s t u (inr (a, b)) (inl c) = inr (a, c ∙ b)
Woken-trans s t u (inr (a, b)) (inr (c, d)) = inr (a, d)

pub Kept-trans : {p q r : Proc} → Kept p q → Kept q r → Kept p r
Kept-trans {p} {q} {r} a b = record {
  pid = b.pid ∙ a.pid;
  kstack = b.kstack ∙ a.kstack;
  pgdir = b.pgdir ∙ a.pgdir;
  woken = Woken-trans p.state q.state r.state a.woken b.woken;
}

pub wake-Kept : (chan : Chan) (p : Proc) → Kept p (wake chan p)
wake-Kept chan p = elim (Bool-cases (is_sleeping p.state && same_chan p.chan chan)) [
  | inl hit ↦
      let (slept, same) = and_true (is_sleeping p.state) (same_chan p.chan chan) hit in
      rw hit (record {
        pid = refl;
        kstack = refl;
        pgdir = refl;
        woken = inr (is_sleeping-eq p.state slept, refl);
      })
  | inr miss ↦ rw miss (Kept-refl refl)
]

pub wakeup1-Kept : (chan : Chan) (proc : ℕ → Proc) (j : ℕ) → Kept (proc j) (wakeup1 chan proc j)
wakeup1-Kept chan proc j = elim (Bool-cases (ltb j nproc)) [
  | inl low ↦ rw (wakeup1_lem chan proc j, low) (wake-Kept chan (proc j))
  | inr high ↦ Kept-refl (wakeup1_lem chan proc j ∙ rw high refl)
]

pub wakeup1-parent :
    (chan : Chan) (proc : ℕ → Proc) (j : ℕ) → (wakeup1 chan proc j).parent ≡ (proc j).parent
wakeup1-parent chan proc j = rw (wakeup1_lem chan proc j) (elim (Bool-cases (ltb j nproc)) [
  | inl low ↦ rw low (wake_parent (proc j))
  | inr high ↦ rw high refl
])
  where
    wake_parent : (p : Proc) → (wake chan p).parent ≡ p.parent
    wake_parent p = elim (Bool-cases (is_sleeping p.state && same_chan p.chan chan)) [
      | inl hit ↦ rw hit refl
      | inr miss ↦ rw miss refl
    ]
