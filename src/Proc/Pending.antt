-- ===== src/Proc/Pending.antt =====
-- The processes that `fork` is building, which are EMBRYO.
use mathlib.Core.Path.{subst}
use cs537_project.Prelude.{
  ℕ, ◌<◌, ◌≡◌, ◌≢◌, ◌⊎◌, inl, inr, ap, sym, ◌∙◌, Option, none, some, of_some-eq, update,
  update_self, update-ne, ℕ_discrete,
}
use cs537_project.Proc.Types.{State, unused, embryo, zombie, Proc, nproc, Ptable}
use cs537_project.Proc.{set_proc}
use cs537_project.Proc.Loops.{Woken, Kept}
use cs537_project.Proc.Birth.{IsFreeSlot}
use cs537_project.Proc.Family.{IsLive, Woken-IsLive}
use cs537_project.Proc.Steps.{Stage, idle, claimed, stacked, copying}

abbrev pub building : Stage → Option ℕ
building idle = none
building (claimed np) = some np
building (stacked np) = some np
building (copying np pid) = none

-- Each process that is EMBRYO is built by exactly one process, which lives.
pub record Pending (t : Ptable) (stage : ℕ → Stage) : Type 0 where
  pub builds :
      (i np : ℕ)
      → building (stage i) ≡ some np
      → (np < nproc) × ((t.proc np).state ≡ embryo) × IsLive (t.proc i).state
  pub apart : (i j np : ℕ) → building (stage i) ≡ some np → building (stage j) ≡ some np → i ≡ j
  pub owned :
      (np : ℕ) → np < nproc → (t.proc np).state ≡ embryo → (i : ℕ) × (building (stage i) ≡ some np)

-- A change of one process that keeps what is EMBRYO, and who lives and builds.
pub record Steady (s : Stage) (p q : Proc) : Type 0 where
  pub to : p.state ≡ embryo → q.state ≡ embryo
  pub from : q.state ≡ embryo → p.state ≡ embryo
  pub live : (np : ℕ) → building s ≡ some np → IsLive p.state → IsLive q.state

pub Pending-table :
    {t u : Ptable} {stage : ℕ → Stage}
    → ((j : ℕ) → Steady (stage j) (t.proc j) (u.proc j))
    → Pending t stage
    → Pending u stage
Pending-table {t} {u} {stage} keep v = record {
  builds = λ i np e.
      let (low, state, live) = v.builds i np e in
      (low, (keep np).to state, (keep i).live np e live);
  apart = v.apart;
  owned = λ np low e. v.owned np low ((keep np).from e);
}

pub Steady-same : (s : Stage) (p q : Proc) → q.state ≡ p.state → Steady s p q
Steady-same s p q e = record {
  to = λ h. e ∙ h;
  from = λ h. sym e ∙ h;
  live = λ np b h. subst IsLive (sym e) h;
}

live_embryo : (s : State) → IsLive s → s ≡ embryo → ⊥
live_embryo s h e = subst IsLive e h

pub Steady-live : (s : Stage) (p q : Proc) → IsLive p.state → IsLive q.state → Steady s p q
Steady-live s p q live live' = record {
  to = λ h. absurd (live_embryo p.state live h);
  from = λ h. absurd (live_embryo q.state live' h);
  live = λ np b h. live';
}

Woken-embryo : (s s' : State) → Woken s s' → (s ≡ embryo → s' ≡ embryo) × (s' ≡ embryo → s ≡ embryo)
Woken-embryo s s' (inl e) = (λ h. e ∙ h, λ h. sym e ∙ h)
Woken-embryo s s' (inr (e, e')) = (
  λ h. absurd (live_embryo s (subst IsLive (sym e) tt) h),
  λ h. absurd (live_embryo s' (subst IsLive (sym e') tt) h),
)

pub Steady-Kept : (s : Stage) (p q : Proc) → Kept p q → Steady s p q
Steady-Kept s p q k =
    let (to, from) = Woken-embryo p.state q.state k.woken in
    record { to = to; from = from; live = λ np b h. Woken-IsLive p.state q.state k.woken h }

-- A process that builds none and becomes a zombie, and one that is a zombie and is reaped.
pub Steady-dies :
    (s : Stage) (p q : Proc) → s ≡ idle → IsLive p.state → q.state ≡ zombie → Steady s p q
Steady-dies s p q none_built live dead = record {
  to = λ h. absurd (live_embryo p.state live h);
  from = λ h. (let x = sym h ∙ dead in cc);
  live = λ np b h. (let x = sym (ap building none_built) ∙ b in cc);
}

pub Steady-reaped : (s : Stage) (p q : Proc) → p.state ≡ zombie → q.state ≡ unused → Steady s p q
Steady-reaped s p q dead free = record {
  to = λ h. (let x = sym h ∙ dead in cc);
  from = λ h. (let x = sym h ∙ free in cc);
  live = λ np b h. absurd (subst IsLive dead h);
}

-- One process is changed.
pub Pending-set :
    {t : Ptable} {stage : ℕ → Stage} (i : ℕ) (p : Proc)
    → Steady (stage i) (t.proc i) p
    → Pending t stage
    → Pending (set_proc t i p) stage
Pending-set {t} {stage} i p steady v =
    Pending-table
      (λ j. elim (ℕ_discrete i j) [
        | yes e ↦
            subst (λ (k : ℕ). Steady (stage k) (t.proc k) (update t.proc i p k)) e
              (subst (λ (q : Proc). Steady (stage i) (t.proc i) q) (sym (update_self t.proc i p))
                steady)
        | no ne ↦
            Steady-same (stage j) (t.proc j) (update t.proc i p j)
              (ap (λ (q : Proc). q.state) (update-ne t.proc i j p ne))
      ])
      v

-- What is built after the stage of `i` has changed to `s`.
stage_cases :
    (stage : ℕ → Stage) (i j np : ℕ) (s : Stage)
    → building (update stage i s j) ≡ some np
    → ((i ≡ j) × (building s ≡ some np)) ⊎ ((i ≢ j) × (building (stage j) ≡ some np))
stage_cases stage i j np s e = elim (ℕ_discrete i j) [
  | yes same ↦ inl (
    same,
    sym (ap building (subst (λ (k : ℕ). update stage i s k ≡ s) same (update_self stage i s))) ∙ e,
  )
  | no ne ↦ inr (ne, sym (ap building (update-ne stage i j s ne)) ∙ e)
]

stage_there :
    (stage : ℕ → Stage) (i j np : ℕ) (s : Stage)
    → i ≢ j
    → building (stage j) ≡ some np
    → building (update stage i s j) ≡ some np
stage_there stage i j np s ne e = ap building (update-ne stage i j s ne) ∙ e

-- `i` goes on to another stage, with the same process.
pub Pending-stage :
    {t : Ptable} {stage : ℕ → Stage} (i : ℕ) (s : Stage)
    → building s ≡ building (stage i)
    → Pending t stage
    → Pending t (update stage i s)
Pending-stage {t} {stage} i s same v = record {
  builds = λ j np e. v.builds j np (before j np e);
  apart = λ j k np e e'. v.apart j k np (before j np e) (before k np e');
  owned = λ np low e.
      let (j, b) = v.owned np low e in
      (
        j,
        elim (ℕ_discrete i j) [
          | yes eq ↦
              subst (λ (k : ℕ). building (update stage i s k) ≡ some np) eq
                (ap building (update_self stage i s)
                  ∙ same
                  ∙ ap (λ (k : ℕ). building (stage k)) eq
                  ∙ b)
          | no ne ↦ stage_there stage i j np s ne b
        ],
      );
}
  where
    before : (j np : ℕ) → building (update stage i s j) ≡ some np → building (stage j) ≡ some np
    before j np e = elim (stage_cases stage i j np s e) [
      | inl (eq, b) ↦ subst (λ (k : ℕ). building (stage k) ≡ some np) eq (sym same ∙ b)
      | inr (ne, b) ↦ b
    ]

-- `i` claims a free place.
pub Pending-claim :
    {t u : Ptable} {stage : ℕ → Stage} (i np : ℕ)
    → np < nproc
    → IsFreeSlot (t.proc np)
    → (u.proc np).state ≡ embryo
    → ((j : ℕ) → np ≢ j → u.proc j ≡ t.proc j)
    → IsLive (t.proc i).state
    → building (stage i) ≡ none
    → Pending t stage
    → Pending u (update stage i (claimed np))
Pending-claim {t} {u} {stage} i np low free new others i_live none_built v = record {
  builds = builds;
  apart = apart;
  owned = owned;
}
  where
    free_live : (j : ℕ) → np ≡ j → IsLive (t.proc j).state → ⊥
    free_live j e live = subst IsLive (ap (λ (k : ℕ). (t.proc k).state) (sym e) ∙ free) live

    live_on : (j : ℕ) → IsLive (t.proc j).state → IsLive (u.proc j).state
    live_on j live =
        subst (λ (q : Proc). IsLive q.state) (sym (others j (λ e. free_live j e live))) live

    -- What was built before is not the free place.
    old_ne : (j n : ℕ) → building (stage j) ≡ some n → np ≢ n
    old_ne j n b e =
        (let x = sym free ∙ ap (λ (k : ℕ). (t.proc k).state) e ∙ (v.builds j n b).1 in cc)

    builds :
        (j n : ℕ)
        → building (update stage i (claimed np) j) ≡ some n
        → (n < nproc) × ((u.proc n).state ≡ embryo) × IsLive (u.proc j).state
    builds j n e = elim (stage_cases stage i j n (claimed np) e) [
      | inl (same, b) ↦
          subst (λ (m : ℕ). (m < nproc) × ((u.proc m).state ≡ embryo) × IsLive (u.proc j).state)
            (of_some-eq b)
            (low, new, subst (λ (k : ℕ). IsLive (u.proc k).state) same (live_on i i_live))
      | inr (ne, b) ↦
          let (n_low, state, live) = v.builds j n b in
          (n_low, ap (λ (q : Proc). q.state) (others n (old_ne j n b)) ∙ state, live_on j live)
    ]

    apart :
        (j k n : ℕ)
        → building (update stage i (claimed np) j) ≡ some n
        → building (update stage i (claimed np) k) ≡ some n
        → j ≡ k
    apart j k n e e' = elim (stage_cases stage i j n (claimed np) e) [
      | inl (same, b) ↦ elim (stage_cases stage i k n (claimed np) e') [
        | inl (same', b') ↦ sym same ∙ same'
        | inr (ne', b') ↦ absurd (old_ne k n b' (of_some-eq b))
      ]
      | inr (ne, b) ↦ elim (stage_cases stage i k n (claimed np) e') [
        | inl (same', b') ↦ absurd (old_ne j n b (of_some-eq b'))
        | inr (ne', b') ↦ v.apart j k n b b'
      ]
    ]

    owned :
        (n : ℕ)
        → n < nproc
        → (u.proc n).state ≡ embryo
        → (j : ℕ) × (building (update stage i (claimed np) j) ≡ some n)
    owned n n_low e = elim (ℕ_discrete np n) [
      | yes same ↦ (i, ap building (update_self stage i (claimed np)) ∙ ap some same)
      | no ne ↦
          let (j, b) = v.owned n n_low (sym (ap (λ (q : Proc). q.state) (others n ne)) ∙ e) in
          (
            j,
            stage_there stage i j n (claimed np)
                (λ same.
                  (let x = sym none_built ∙ ap (λ (k : ℕ). building (stage k)) same ∙ b in cc))
                b,
          )
    ]

-- `i` is done with the process at `np`, which is no longer EMBRYO.
pub Pending-done :
    {t : Ptable} {stage : ℕ → Stage} (i np : ℕ) (q : Proc) (s : Stage)
    → building (stage i) ≡ some np
    → q.state ≢ embryo
    → building s ≡ none
    → Pending t stage
    → Pending (set_proc t np q) (update stage i s)
Pending-done {t} {stage} i np q s at ne_embryo none_built v = record {
  builds = builds;
  apart = λ j k n e e'. v.apart j k n (before j n e).0 (before k n e').0;
  owned = owned;
}
  where
    before :
        (j n : ℕ) → building (update stage i s j) ≡ some n → (building (stage j) ≡ some n) × (i ≢ j)
    before j n e = elim (stage_cases stage i j n s e) [
      | inl (same, b) ↦ (let x = sym none_built ∙ b in cc)
      | inr (ne, b) ↦ (b, ne)
    ]

    other_state : (n : ℕ) → np ≢ n → (update t.proc np q n).state ≡ (t.proc n).state
    other_state n ne = ap (λ (p : Proc). p.state) (update-ne t.proc np n q ne)

    builds :
        (j n : ℕ)
        → building (update stage i s j) ≡ some n
        → (n < nproc)
          × ((update t.proc np q n).state ≡ embryo)
          × IsLive (update t.proc np q j).state
    builds j n e =
        let (b, ne) = before j n e in
        let (n_low, state, live) = v.builds j n b in
        (
          n_low,
          other_state n (λ same. ne (v.apart i j n (at ∙ ap some same) b)) ∙ state,
          subst IsLive
              (sym (
                other_state j (λ same.
                  live_embryo (t.proc j).state live
                    (ap (λ (k : ℕ). (t.proc k).state) (sym same) ∙ (v.builds i np at).1))))
              live,
        )

    owned :
        (n : ℕ)
        → n < nproc
        → (update t.proc np q n).state ≡ embryo
        → (j : ℕ) × (building (update stage i s j) ≡ some n)
    owned n n_low e = elim (ℕ_discrete np n) [
      | yes same ↦ absurd (
          ne_embryo (
            sym (ap (λ (p : Proc). p.state) (update_self t.proc np q))
            ∙ ap (λ (k : ℕ). (update t.proc np q k).state) same
            ∙ e))
      | no ne ↦
          let (j, b) = v.owned n n_low (sym (other_state n ne) ∙ e) in
          (
            j,
            stage_there stage i j n s
                (λ same. ne (of_some-eq (sym at ∙ ap (λ (k : ℕ). building (stage k)) same ∙ b))) b,
          )
    ]
