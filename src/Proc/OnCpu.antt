-- ===== src/Proc/OnCpu.antt =====
-- What the processors run, and what changes of the table leave it alone.
use mathlib.Core.Path.{subst}
use cs537_project.Prelude.{
  ℕ, ◌<◌, ◌≡◌, ◌≢◌, ◌⊎◌, inl, inr, refl, ap, sym, ◌∙◌, Option, none, some, of_some-eq, arith,
  update, update_self, update-ne, ℕ_discrete,
}
use cs537_project.Proc.Types.{State, runnable, running, Proc, nproc, Ptable}
use cs537_project.Proc.{run, set_proc}
use cs537_project.Proc.Loops.{Woken, Kept}
use cs537_project.Proc.Family.{
  Family, IsLive, IsUsed-of_live, IsBorn-of_live, Alike, Alike-Family, Kept-Alike, update-Alike,
}
use cs537_project.Proc.Steps.{System}
use cs537_project.Proc.Pending.{Pending, Pending-table, Pending-set, Steady, Steady-Kept}

-- What a processor runs is a running process of the table, and no process runs on two processors.
pub record OnCpu (t : Ptable) (cpus : ℕ → Option ℕ) : Type 0 where
  pub low : (c i : ℕ) → cpus c ≡ some i → i < nproc
  pub runs : (c i : ℕ) → cpus c ≡ some i → (t.proc i).state ≡ running
  pub alone : (c d i : ℕ) → cpus c ≡ some i → cpus d ≡ some i → c ≡ d

pub record IsSound (s : System) : Type 0 where
  pub family : Family s.table
  pub on_cpu : OnCpu s.table s.cpus
  pub pending : Pending s.table s.stage

-- A change of the table that leaves running processes running.
pub OnCpu-table :
    {t u : Ptable} {cpus : ℕ → Option ℕ}
    → ((c i : ℕ) → cpus c ≡ some i → (t.proc i).state ≡ running → (u.proc i).state ≡ running)
    → OnCpu t cpus
    → OnCpu u cpus
OnCpu-table keep o = record {
  low = o.low;
  runs = λ c i e. keep c i e (o.runs c i e);
  alone = o.alone;
}

module _ (cpus : ℕ → Option ℕ) (c : ℕ) where
  -- What another processor runs when `c` stops.
  pub others_run : (d j : ℕ) → update cpus c none d ≡ some j → (c ≢ d) × (cpus d ≡ some j)
  others_run d j e = elim (ℕ_discrete c d) [
    | yes same ↦
        cc (sym (subst (λ (k : ℕ). update cpus c none k ≡ none) same (update_self cpus c none)) ∙ e)
    | no ne ↦ (ne, sym (update-ne cpus c d none ne) ∙ e)
  ]

-- The processor `c` gives up `i`, whose state may change; the others' processes keep running.
pub OnCpu-leave :
    {t u : Ptable} (cpus : ℕ → Option ℕ) (c i : ℕ)
    → OnCpu t cpus
    → cpus c ≡ some i
    → ((j : ℕ) → i ≢ j → (t.proc j).state ≡ running → (u.proc j).state ≡ running)
    → OnCpu u (update cpus c none)
OnCpu-leave cpus c i o at keep = record {
  low = λ d j e. o.low d j (others_run cpus c d j e).1;
  runs = λ d j e.
      let (ne, e') = others_run cpus c d j e in
      keep j (λ same. ne (o.alone c d i at (e' ∙ ap some (sym same)))) (o.runs d j e');
  alone = λ d d' j e e'. o.alone d d' j (others_run cpus c d j e).1 (others_run cpus c d' j e').1;
}

pub Woken-running : (s t : State) → Woken s t → s ≡ running → t ≡ running
Woken-running s t (inl e) h = e ∙ h
Woken-running s t (inr (e, e')) h = (let x = sym e ∙ h in cc)

pub live_running : (s : State) → s ≡ running → IsLive s
live_running s e = subst IsLive (sym e) tt

pub set_proc-running :
    (t : Ptable) (i : ℕ) (p : Proc) (j : ℕ)
    → i ≢ j
    → (t.proc j).state ≡ running
    → ((set_proc t i p).proc j).state ≡ running
set_proc-running t i p j ne e = ap (λ (q : Proc). q.state) (update-ne t.proc i j p ne) ∙ e

-- A process that lives changes its state to another in which it lives.
pub set_proc-Family :
    (t : Ptable) (i : ℕ) (p : Proc) → Alike (t.proc i) p → Family t → Family (set_proc t i p)
set_proc-Family t i p a f = Alike-Family refl refl (update-Alike t.proc i p a) f

pub Alike-live :
    (p q : Proc) → q.pid ≡ p.pid → q.parent ≡ p.parent → IsLive p.state → IsLive q.state → Alike p q
Alike-live p q same_pid same_parent live live' = record {
  pid = same_pid;
  parent = same_parent;
  live = λ h. live';
  used = λ h. IsUsed-of_live p.state live;
  born = λ h. IsBorn-of_live p.state live;
}

-- Its process is changed by the processor that runs it, which then gives it up.
pub IsSound-leave :
    (s : System) (c i : ℕ) (p : Proc)
    → s.cpus c ≡ some i
    → Alike (s.table.proc i) p
    → Steady (s.stage i) (s.table.proc i) p
    → IsSound s
    → IsSound (record s { table = set_proc s.table i p; cpus = update s.cpus c none })
IsSound-leave s c i p at a steady v = record {
  family = set_proc-Family s.table i p a v.family;
  on_cpu = OnCpu-leave s.cpus c i v.on_cpu at (set_proc-running s.table i p);
  pending = Pending-set i p steady v.pending;
}

-- Every process is as it was, but for its state, and may have been woken.
pub IsSound-Kept :
    (s : System) (proc : ℕ → Proc)
    → ((j : ℕ) → Kept (s.table.proc j) (proc j))
    → ((j : ℕ) → (proc j).parent ≡ (s.table.proc j).parent)
    → IsSound s
    → IsSound (record s { table = record s.table { proc = proc } })
IsSound-Kept s proc kept parent v = record {
  family = Alike-Family refl refl (λ j. Kept-Alike (kept j) (parent j)) v.family;
  on_cpu =
      OnCpu-table (λ c i e h. Woken-running (s.table.proc i).state (proc i).state (kept i).woken h)
        v.on_cpu;
  pending =
      Pending-table (λ j. Steady-Kept (s.stage j) (s.table.proc j) (proc j) (kept j)) v.pending;
}

run_cases :
    (cpus : ℕ → Option ℕ) (c i d j : ℕ)
    → update cpus c (some i) d ≡ some j
    → ((c ≡ d) × (i ≡ j)) ⊎ ((c ≢ d) × (cpus d ≡ some j))
run_cases cpus c i d j e = elim (ℕ_discrete c d) [
  | yes same ↦ inl (
    same,
    of_some-eq (
        sym
          (subst (λ (k : ℕ). update cpus c (some i) k ≡ some i) same (update_self cpus c (some i)))
        ∙ e),
  )
  | no ne ↦ inr (ne, sym (update-ne cpus c d (some i) ne) ∙ e)
]

pub OnCpu-run :
    (t : Ptable) (cpus : ℕ → Option ℕ) (c i : ℕ)
    → i < nproc
    → (t.proc i).state ≡ runnable
    → OnCpu t cpus
    → OnCpu (run t i) (update cpus c (some i))
unfolding run
OnCpu-run t cpus c i low ready o = record { low = lows; runs = runs; alone = alone }
  where
    lows : (d j : ℕ) → update cpus c (some i) d ≡ some j → j < nproc
    lows d j e = elim (run_cases cpus c i d j e) [
      | inl (same, same') ↦ omega arith
      | inr (ne, at) ↦ o.low d j at
    ]

    -- What another processor runs is not `i`, which was only runnable.
    not_i : (d j : ℕ) → cpus d ≡ some j → i ≢ j
    not_i d j at e = (let h = sym ready ∙ ap (λ (k : ℕ). (t.proc k).state) e ∙ o.runs d j at in cc)

    now_running : ((run t i).proc i).state ≡ running
    now_running =
        ap (λ (q : Proc). q.state) (update_self t.proc i (record (t.proc i) { state = running }))

    runs : (d j : ℕ) → update cpus c (some i) d ≡ some j → ((run t i).proc j).state ≡ running
    runs d j e = elim (run_cases cpus c i d j e) [
      | inl (same, same') ↦ subst (λ (k : ℕ). ((run t i).proc k).state ≡ running) same' now_running
      | inr (ne, at) ↦
          set_proc-running t i (record (t.proc i) { state = running }) j (not_i d j at)
            (o.runs d j at)
    ]

    alone :
        (d d' j : ℕ)
        → update cpus c (some i) d ≡ some j
        → update cpus c (some i) d' ≡ some j
        → d ≡ d'
    alone d d' j e e' = elim (run_cases cpus c i d j e) [
      | inl (same, same') ↦ elim (run_cases cpus c i d' j e') [
        | inl (other, other') ↦ sym same ∙ other
        | inr (ne, at) ↦ absurd (not_i d' j at same')
      ]
      | inr (ne, at) ↦ elim (run_cases cpus c i d' j e') [
        | inl (other, other') ↦ absurd (not_i d j at other')
        | inr (ne', at') ↦ o.alone d d' j at at'
      ]
    ]
