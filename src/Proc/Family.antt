-- ===== src/Proc/Family.antt =====
-- What holds of the process table whatever the processors do.
pub mod Birth
pub mod Death
use mathlib.Core.Path.{subst}
use cs537_project.Prelude.{
  ℕ, ◌+◌, ◌^◌, ◌<◌, ◌≡◌, ◌≢◌, ◌⊎◌, inl, inr, refl, ap, sym, ◌∙◌, Option, none, some, of_some-eq,
  arith, update, update_self, update-ne, ℕ_discrete,
}
use cs537_project.Proc.Types.{
  State, unused, embryo, sleeping, runnable, running, zombie, Proc, nproc, Ptable,
}
use cs537_project.Proc.Loops.{Woken, Kept}

abbrev pub IsUsed : State → Type 0
IsUsed unused = ⊥
IsUsed s = Unit

-- It is neither free nor on its way in or out.
abbrev pub IsLive : State → Type 0
IsLive unused = ⊥
IsLive embryo = ⊥
IsLive zombie = ⊥
IsLive s = Unit

-- It is in use, and its `fork` has set its parent.
abbrev pub IsBorn : State → Type 0
IsBorn unused = ⊥
IsBorn embryo = ⊥
IsBorn s = Unit

-- init lives; each other process that is born has a parent that lives; no two processes have the same pid, and
-- `nextpid` is not in use.
pub record Family (t : Ptable) : Type 0 where
  pub init_low : t.initproc < nproc
  pub init_live : IsLive (t.proc t.initproc).state
  pub parented :
      (i : ℕ)
      → i < nproc
      → IsBorn (t.proc i).state
      → i ≢ t.initproc
      → (p : ℕ) × ((t.proc i).parent ≡ some p) × (p < nproc) × IsLive (t.proc p).state
  pub pid_low : (i : ℕ) → i < nproc → IsUsed (t.proc i).state → (t.proc i).pid < t.nextpid
  pub pid_apart :
      (i j : ℕ)
      → i < nproc
      → j < nproc
      → IsUsed (t.proc i).state
      → IsUsed (t.proc j).state
      → i ≢ j
      → (t.proc i).pid ≢ (t.proc j).pid

pub IsUsed-of_live : (s : State) → IsLive s → IsUsed s
IsUsed-of_live unused h = h
IsUsed-of_live embryo h = tt
IsUsed-of_live sleeping h = tt
IsUsed-of_live runnable h = tt
IsUsed-of_live running h = tt
IsUsed-of_live zombie h = tt

pub IsBorn-of_live : (s : State) → IsLive s → IsBorn s
IsBorn-of_live unused h = h
IsBorn-of_live embryo h = h
IsBorn-of_live sleeping h = tt
IsBorn-of_live runnable h = tt
IsBorn-of_live running h = tt
IsBorn-of_live zombie h = tt

pub IsUsed-of_born : (s : State) → IsBorn s → IsUsed s
IsUsed-of_born unused h = h
IsUsed-of_born embryo h = tt
IsUsed-of_born sleeping h = tt
IsUsed-of_born runnable h = tt
IsUsed-of_born running h = tt
IsUsed-of_born zombie h = tt

-- A change that the family does not see.
pub record Alike (p q : Proc) : Type 0 where
  pub pid : q.pid ≡ p.pid
  pub parent : q.parent ≡ p.parent
  pub live : IsLive p.state → IsLive q.state
  pub used : IsUsed q.state → IsUsed p.state
  pub born : IsBorn q.state → IsBorn p.state

pub Alike-Family :
    {t u : Ptable}
    → u.initproc ≡ t.initproc
    → u.nextpid ≡ t.nextpid
    → ((j : ℕ) → Alike (t.proc j) (u.proc j))
    → Family t
    → Family u
Alike-Family {t} {u} e n a f = record {
  init_low = subst (λ (i : ℕ). i < nproc) (sym e) f.init_low;
  init_live = subst (λ (i : ℕ). IsLive (u.proc i).state) (sym e) ((a t.initproc).live f.init_live);
  parented = λ i low used ne.
      let (p, is_p, p_low, live) = f.parented i low ((a i).born used) (λ q. ne (q ∙ sym e)) in
      (p, (a i).parent ∙ is_p, p_low, (a p).live live);
  pid_low = λ i low used.
      subst (λ (k : ℕ). k < u.nextpid) (sym (a i).pid)
        (subst (λ (k : ℕ). (t.proc i).pid < k) (sym n) (f.pid_low i low ((a i).used used)));
  pid_apart = λ i j low low' used used' ne same.
      f.pid_apart i j low low' ((a i).used used) ((a j).used used') ne
        (sym (a i).pid ∙ same ∙ (a j).pid);
}

pub Woken-IsLive : (s t : State) → Woken s t → IsLive s → IsLive t
Woken-IsLive s t (inl e) h = subst IsLive (sym e) h
Woken-IsLive s t (inr (e, e')) h = subst IsLive (sym e') tt

pub Woken-IsUsed : (s t : State) → Woken s t → IsUsed t → IsUsed s
Woken-IsUsed s t (inl e) h = subst IsUsed e h
Woken-IsUsed s t (inr (e, e')) h = subst IsUsed (sym e) tt

pub Woken-IsBorn : (s t : State) → Woken s t → IsBorn t → IsBorn s
Woken-IsBorn s t (inl e) h = subst IsBorn e h
Woken-IsBorn s t (inr (e, e')) h = subst IsBorn (sym e) tt

pub Kept-Alike : {p q : Proc} → Kept p q → q.parent ≡ p.parent → Alike p q
Kept-Alike {p} {q} k e = record {
  pid = k.pid;
  parent = e;
  live = Woken-IsLive p.state q.state k.woken;
  used = Woken-IsUsed p.state q.state k.woken;
  born = Woken-IsBorn p.state q.state k.woken;
}

pub Alike-refl : {p q : Proc} → q ≡ p → Alike p q
Alike-refl e = record {
  pid = ap (λ (p : Proc). p.pid) e;
  parent = ap (λ (p : Proc). p.parent) e;
  live = λ h. subst (λ (p : Proc). IsLive p.state) (sym e) h;
  used = λ h. subst (λ (p : Proc). IsUsed p.state) e h;
  born = λ h. subst (λ (p : Proc). IsBorn p.state) e h;
}

pub update-Alike :
    (proc : ℕ → Proc) (i : ℕ) (p : Proc)
    → Alike (proc i) p
    → (j : ℕ) → Alike (proc j) (update proc i p j)
update-Alike proc i p kept j = elim (ℕ_discrete i j) [
  | yes e ↦
      subst (λ (k : ℕ). Alike (proc k) (update proc i p k)) e
        (subst (λ (q : Proc). Alike (proc i) q) (sym (update_self proc i p)) kept)
  | no ne ↦ Alike-refl (update-ne proc i j p ne)
]
