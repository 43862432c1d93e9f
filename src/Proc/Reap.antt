-- ===== src/Proc/Reap.antt =====
-- `wait`.
use mathlib.Core.Path.{subst}
use cs537_project.Prelude.{
  ℕ, zero, suc, ◌+◌, ◌≤◌, ◌<◌, ◌≡◌, ◌≢◌, ◌⊎◌, inl, inr, refl, ◌∙◌, Bool, true, false, ◌&&◌, ◌||◌,
  Option, none, some, of_some-eq, arith, update, Bool-cases, Option-cases, and_true, or_true,
  or_false, failed,
}
use cs537_project.Kalloc.{Kmem, kfree}
use cs537_project.Proc.Types.{State, zombie, is_zombie, process, Proc, nproc, Ptable, is_parent}
use cs537_project.Proc.{found, havekids, scan, clear, Waited, returns, sleeps, sleep, reap, wait}
use cs537_project.Proc.Loops.{is_parent-eq, is_zombie-eq}
use cs537_project.Proc.Wake.{None, None-cons}

-- A child that has exited, and a child.
abbrev pub IsDead : ℕ → Proc → Type 0
IsDead curproc p = (p.parent ≡ some curproc) × (p.state ≡ zombie)

abbrev pub IsChild : ℕ → Proc → Type 0
IsChild curproc p = p.parent ≡ some curproc

pub not_child : (o : Option ℕ) (q : ℕ) → is_parent o q ≡ false → o ≢ some q
not_child none q h e = cc
not_child (some p) q h e = ground (arith, h, of_some-eq e)

not-IsDead : (p : Proc) (q : ℕ) → is_parent p.parent q && is_zombie p.state ≡ false → ¬ IsDead q p
not-IsDead p q h (e, e') =
    (let h' : is_parent (some q) q && is_zombie zombie ≡ false =
        subst (λ (s : State). is_parent (some q) q && is_zombie s ≡ false) e'
          (subst (λ (o : Option ℕ). is_parent o q && is_zombie p.state ≡ false) e h) in
      ground (arith, h'))

module _ (proc : ℕ → Proc) (curproc : ℕ) where
  -- Some process of the range is a child.
  abbrev Child : ℕ → ℕ → Type 0
  Child i n = (k : ℕ) × (i ≤ k) × (k < n) × IsChild curproc (proc k)

  -- Whether there are children: among those before, at `i`, or behind.
  who :
      (i r : ℕ) (kids here : Bool)
      → is_parent (proc i).parent curproc ≡ here
      → ((kids || here) ≡ true) ⊎ Child (i + 1) (i + 1 + r)
      → (kids ≡ true) ⊎ Child i (i + suc r)
  who i r kids here e (inr (k, low, high, child)) = inr (k, omega arith, omega arith, child)
  who i r kids here e (inl h) = elim (or_true kids here h) [
    | inl before ↦ inl before
    | inr now ↦ inr (i, omega arith, omega arith, is_parent-eq (proc i).parent curproc (e ∙ now))
  ]

  scan_lem :
      (r i : ℕ) (kids : Bool)
      → ((k : ℕ) × (scan proc curproc r i kids ≡ found k)
          × (i ≤ k)
          × (k < i + r)
          × IsDead curproc (proc k)
          × None (IsDead curproc) proc i k)
        ⊎ ((scan proc curproc r i kids ≡ havekids true)
            × None (IsDead curproc) proc i (i + r)
            × ((kids ≡ true) ⊎ Child i (i + r)))
        ⊎ ((scan proc curproc r i kids ≡ havekids false)
            × (kids ≡ false)
            × None (IsChild curproc) proc i (i + r))
  unfolding scan
  scan_lem zero i true = inr (inl (refl, λ j low high. absurd (omega arith), inl refl))
  scan_lem zero i false = inr (inr (refl, refl, λ j low high. absurd (omega arith)))
  scan_lem (suc r) i kids =
      elim (Bool-cases (is_parent (proc i).parent curproc && is_zombie (proc i).state)) [
        | inl hit ↦
            let (child, z) =
              and_true (is_parent (proc i).parent curproc) (is_zombie (proc i).state) hit in
            rw hit (
              inl (
                i,
                refl,
                omega arith,
                omega arith,
                (is_parent-eq (proc i).parent curproc child, is_zombie-eq (proc i).state z),
                λ j low high. absurd (omega arith),
              ))
        | inr miss ↦
            let here : ¬ IsDead curproc (proc i) = not-IsDead (proc i) curproc miss in
            elim (scan_lem r (i + 1) (kids || is_parent (proc i).parent curproc)) [
              | inl (k, e, low, high, dead, before) ↦ rw miss (
                  inl (
                    k,
                    e,
                    omega arith,
                    omega arith,
                    dead,
                    None-cons (IsDead curproc) proc i k here before,
                  ))
              | inr (inl (e, none_dead, who_else)) ↦ rw miss (
                  inr (
                    inl (
                      e,
                      λ j low high.
                          None-cons (IsDead curproc) proc i (i + 1 + r) here none_dead j low
                            (omega arith),
                      who i r kids (is_parent (proc i).parent curproc) refl who_else,
                    )))
              | inr (inr (e, k, none_child)) ↦
                  let (before, now) = or_false kids (is_parent (proc i).parent curproc) k in
                  let other : ¬ IsChild curproc (proc i) = not_child (proc i).parent curproc now in
                  rw miss (
                    inr (
                      inr (
                        e,
                        before,
                        λ j low high.
                            None-cons (IsChild curproc) proc i (i + 1 + r) other none_child j low
                              (omega arith),
                      )))
            ]
      ]

module _ (kernel_end : ℕ) (copyuvm : ℕ → ℕ → Kmem → ℕ × Kmem)
    (freevm : ℕ → Kmem → Option Kmem) where
  -- The zombie at `i` is reaped: its stack and its pages are freed, its place is cleared, and its pid
  -- is returned; a panic in `kfree` or `freevm` is a panic here.
  pub data Reaped (t : Ptable) (k : Kmem) (i : ℕ) (w : Option (Waited × Ptable × Kmem))
      : Type 0 where
    done :
        (k' k'' : Kmem)
        → kfree kernel_end (t.proc i).kstack k ≡ some k'
        → freevm (t.proc i).pgdir k' ≡ some k''
        → w
          ≡ some
              (returns (t.proc i).pid, record t { proc = update t.proc i (clear (t.proc i)) }, k'')
        → Reaped t k i w
    bad_stack : kfree kernel_end (t.proc i).kstack k ≡ none → w ≡ none → Reaped t k i w
    bad_pages :
        (k' : Kmem)
        → kfree kernel_end (t.proc i).kstack k ≡ some k'
        → freevm (t.proc i).pgdir k' ≡ none
        → w ≡ none
        → Reaped t k i w

  reap_lem : (t : Ptable) (k : Kmem) (i : ℕ) → Reaped t k i (reap kernel_end copyuvm freevm t k i)
  unfolding reap
  reap_lem t k i = elim (Option-cases (kfree kernel_end (t.proc i).kstack k)) [
    | inl e ↦ rw (reap, e) (bad_stack e refl)
    | inr (k', e) ↦ elim (Option-cases (freevm (t.proc i).pgdir k')) [
      | inl e' ↦ rw (reap, e, e') (bad_pages k' e e' refl)
      | inr (k'', e') ↦ rw (reap, e, e') (done k' k'' e e' refl)
    ]
  ]

  -- `wait` reaps the first zombie child. With no zombie child it returns -1 if there is no child at all
  -- or the process is killed, and sleeps otherwise.
  pub wait_lem :
      (t : Ptable) (k : Kmem) (curproc : ℕ)
      → ((i : ℕ) × (i < nproc)
          × IsDead curproc (t.proc i)
          × None (IsDead curproc) t.proc 0 i
          × Reaped t k i (wait kernel_end copyuvm freevm t k curproc))
        ⊎ (None (IsDead curproc) t.proc 0 nproc
            × (None (IsChild curproc) t.proc 0 nproc ⊎ ((t.proc curproc).killed ≡ true))
            × (wait kernel_end copyuvm freevm t k curproc ≡ some (returns failed, t, k)))
        ⊎ (None (IsDead curproc) t.proc 0 nproc
            × ((i : ℕ) × (i < nproc) × IsChild curproc (t.proc i))
            × ((t.proc curproc).killed ≡ false)
            × (wait kernel_end copyuvm freevm t k curproc
                ≡ some (sleeps, sleep (process curproc) t curproc, k)))
  unfolding wait
  wait_lem t k curproc = elim (scan_lem t.proc curproc nproc 0 false) [
    | inl (i, e, low, high, dead, before) ↦
        rw (wait, e) (inl (i, omega arith, dead, before, reap_lem t k i))
    | inr (inl (e, none_dead, inl h)) ↦ cc
    | inr (inl (e, none_dead, inr (i, low, high, child))) ↦
        elim (Bool-cases (t.proc curproc).killed) [
          | inl killed ↦ rw (wait, e, killed) (inr (inl (none_dead, inr refl, refl)))
          | inr lives ↦
              rw (wait, e, lives) (inr (inr (none_dead, (i, omega arith, child), refl, refl)))
        ]
    | inr (inr (e, h, none_child)) ↦
        rw (wait, e)
          (inr (
            inl (
              λ j low high (is_child, z). none_child j low (omega arith) is_child,
              inl none_child,
              refl,
            )))
  ]
