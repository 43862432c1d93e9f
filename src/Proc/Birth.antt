-- ===== src/Proc/Birth.antt =====
-- `allocproc` and `fork`.
use mathlib.Core.Path.{subst}
use cs537_project.Prelude.{
  ℕ, zero, suc, ◌+◌, ◌≤◌, ◌<◌, ◌≡◌, ◌≢◌, ◌⊎◌, inl, inr, refl, ap, sym, ◌∙◌, Bool, false, Option,
  none, some, of_some-eq, ◌==◌, arith, update_self, update-ne, Bool-cases, Option-cases, failed,
  add32, if◌then◌else◌,
}
use cs537_project.Kalloc.{Kmem, kalloc, kfree}
use cs537_project.Proc.Types.{State, unused, embryo, runnable, is_unused, Proc, nproc, Ptable}
use cs537_project.Proc.{
  find_unused, claim, claim_place, tf_of, context_of, alloc_at, allocproc, fork_into, fork_tail,
  fork_end, fork_rest, fork, set_proc,
}
use cs537_project.Proc.Loops.{is_unused-eq}
use cs537_project.Proc.Wake.{None, None-cons}
use cs537_project.Proc.Family.{IsUsed}

abbrev pub IsFreeSlot : Proc → Type 0
IsFreeSlot p = p.state ≡ unused

not_unused : (s : State) → s ≡ unused → is_unused s ≡ false → ⊥
not_unused s e h = (let h' = ap is_unused e in cc)

pub find_unused_lem :
    (proc : ℕ → Proc) (r i : ℕ)
    → ((k : ℕ) × (find_unused proc r i ≡ some k) × (i ≤ k) × (k < i + r) × IsFreeSlot (proc k))
      ⊎ ((find_unused proc r i ≡ none) × None IsFreeSlot proc i (i + r))
unfolding find_unused
find_unused_lem proc zero i = inr (refl, λ j low high. absurd (omega arith))
find_unused_lem proc (suc r) i = elim (Bool-cases (is_unused (proc i).state)) [
  | inl hit ↦ rw hit (inl (i, refl, omega arith, omega arith, is_unused-eq (proc i).state hit))
  | inr miss ↦
      let other : ¬ IsFreeSlot (proc i) = λ e. not_unused (proc i).state e miss in
      elim (find_unused_lem proc r (i + 1)) [
        | inl (k, e, low, high, is) ↦ rw miss (inl (k, e, omega arith, omega arith, is))
        | inr (e, nobody) ↦ rw miss (
            inr (
              e,
              λ j low high.
                  None-cons IsFreeSlot proc i (i + 1 + r) other nobody j low (omega arith),
            ))
      ]
]

pub used_free : (s : State) → IsUsed s → s ≡ unused → ⊥
used_free s h e = subst IsUsed e h

-- What `allocproc` does while it holds the lock: it claims the first free place, or there is none.
pub claim_place_lem :
    (t : Ptable)
    → ((claim_place t ≡ none) × None IsFreeSlot t.proc 0 nproc)
      ⊎ ((np : ℕ) × (np < nproc) × IsFreeSlot (t.proc np) × (claim_place t ≡ some (np, claim t np)))
unfolding claim_place
claim_place_lem t = elim (find_unused_lem t.proc nproc 0) [
  | inl (np, e, low, high, free) ↦ inr (np, omega arith, free, rw (claim_place, e) refl)
  | inr (e, nobody) ↦ inl (rw (claim_place, e) refl, λ j low high. nobody j low (omega arith))
]

-- The rest of `allocproc` keeps the parent and, unless it gives the place up, the pid and the state.
pub alloc_at_lem :
    (trapret forkret : ℕ) (t : Ptable) (np : ℕ) (r : ℕ × Kmem)
    → (q : Proc) × (((alloc_at trapret forkret t np r).1 ≡ set_proc t np q)
        × (q.pid ≡ (t.proc np).pid)
        × (q.parent ≡ (t.proc np).parent)
        × ((((alloc_at trapret forkret t np r).0 ≡ none) × (q.state ≡ unused))
            ⊎ (((alloc_at trapret forkret t np r).0 ≡ some np) × (q.state ≡ (t.proc np).state))))
unfolding alloc_at
alloc_at_lem trapret forkret t np (page, k) = elim (Bool-cases (page == 0)) [
  | inl out ↦
      rw out
        (record (t.proc np) { kstack = 0; state = unused }, (refl, refl, refl, inl (refl, refl)))
  | inr got ↦ rw got (
    record (t.proc np) {
      kstack = page;
      tf = tf_of page;
      context = context_of page;
      num_mappings = 0;
    },
    (refl, refl, refl, inr (refl, refl)),
  )
]

allocproc-none :
    (trapret forkret : ℕ) (t : Ptable) (k : Kmem)
    → claim_place t ≡ none
    → allocproc trapret forkret t k ≡ (none, t, k)
unfolding allocproc
allocproc-none trapret forkret t k e = rw (allocproc, e) refl

allocproc-some :
    (trapret forkret : ℕ) (t : Ptable) (k : Kmem) (np : ℕ)
    → claim_place t ≡ some (np, claim t np)
    → allocproc trapret forkret t k ≡ alloc_at trapret forkret (claim t np) np (kalloc k)
unfolding allocproc
allocproc-some trapret forkret t k np e = rw (allocproc, e) refl

module _ (kernel_end : ℕ) (copyuvm : ℕ → ℕ → Kmem → ℕ × Kmem)
    (copy_maps : ℕ → ℕ → ℕ → Kmem → Option (Bool × Kmem)) where
  -- The part of `fork` up to RUNNABLE: the place is given up, or the child is born.
  pub fork_into_lem :
      (t : Ptable) (curproc np : ℕ) (r : Option ℕ) (u : Ptable) (k' : Kmem) (pgdir : ℕ) (k : Kmem)
      → fork_into kernel_end copyuvm copy_maps t curproc np (pgdir, k) ≡ some (r, u, k')
      → (q : Proc) × ((u ≡ set_proc t np q)
          × (q.pid ≡ (t.proc np).pid)
          × (((r ≡ none) × (q.state ≡ unused) × (q.parent ≡ (t.proc np).parent))
              ⊎ ((r ≡ some (t.proc np).pid)
                  × (q.state ≡ runnable)
                  × (q.parent ≡ some curproc)
                  × (q.sz ≡ (t.proc curproc).sz)
                  × (q.pgdir ≡ pgdir))))
  unfolding fork_into
  fork_into_lem t curproc np r u k' pgdir k h = elim (Bool-cases (pgdir == 0)) [
    | inl out ↦ elim (Option-cases (kfree kernel_end (t.proc np).kstack k)) [
      | inl e ↦ (let h' = rw (fork_into, out, e) at h in cc)
      | inr (k1, e) ↦
          let w = of_some-eq (rw (fork_into, out, e) at h) in
          (
            record (t.proc np) { pgdir = 0; kstack = 0; state = unused },
            (
              sym (ap (λ (x : Option ℕ × Ptable × Kmem). x.1) w),
              refl,
              inl (sym (ap (λ (x : Option ℕ × Ptable × Kmem). x.0) w), refl, refl),
            ),
          )
    ]
    | inr got ↦
        let w = of_some-eq (rw (fork_into, got) at h) in
        (
          record (t.proc np) {
            pgdir = pgdir;
            sz = (t.proc curproc).sz;
            parent = some curproc;
            state = runnable;
          },
          (
            sym (ap (λ (x : Option ℕ × Ptable × Kmem). x.1) w),
            refl,
            inr (sym (ap (λ (x : Option ℕ × Ptable × Kmem). x.0) w), refl, refl, refl, refl),
          ),
        )
  ]

  pub fork_tail_lem :
      (t : Ptable) (curproc np pid r : ℕ) (u : Ptable) (k k' : Kmem)
      → fork_tail kernel_end copyuvm copy_maps t curproc np pid k ≡ some (r, u, k')
      → (success : Bool) × ((copy_maps curproc (t.proc curproc).pgdir (t.proc np).pgdir k
            ≡ some (success, k'))
          × (r ≡ (if success then pid else failed))
          × (u
              ≡ set_proc t np
                  (record (t.proc np) { num_mappings = (t.proc curproc).num_mappings })))
  unfolding fork_tail
  fork_tail_lem t curproc np pid r u k k' h =
      elim (Option-cases (copy_maps curproc (t.proc curproc).pgdir (t.proc np).pgdir k)) [
        | inl out ↦ (let h' = rw (fork_tail, out) at h in cc)
        | inr ((success, k1), e) ↦
            let w = of_some-eq (rw (fork_tail, e) at h) in
            (
              success,
              (
                e ∙ ap (λ (x : ℕ × Ptable × Kmem). some (success, x.2)) w,
                sym (ap (λ (x : ℕ × Ptable × Kmem). x.0) w),
                sym (ap (λ (x : ℕ × Ptable × Kmem). x.1) w),
              ),
            )
      ]

  -- What a whole `fork` does to the table, where `k'` is the memory that it leaves.
  pub data Forked (t : Ptable) (curproc : ℕ) (r : ℕ) (u : Ptable) (k' : Kmem) : Type 0 where
    full : None IsFreeSlot t.proc 0 nproc → r ≡ failed → u ≡ t → Forked t curproc r u k'
    changed :
        (np : ℕ)
        → np < nproc
        → IsFreeSlot (t.proc np)
        → u.initproc ≡ t.initproc
        → u.nextpid ≡ add32 t.nextpid 1
        → ((j : ℕ) → np ≢ j → u.proc j ≡ t.proc j)
        → ((r ≡ failed) × IsFreeSlot (u.proc np))
          ⊎ (((u.proc np).pid ≡ t.nextpid)
              × ((u.proc np).state ≡ runnable)
              × ((u.proc np).parent ≡ some curproc)
              × ((u.proc np).sz ≡ (t.proc curproc).sz)
              × ((u.proc np).num_mappings ≡ (t.proc curproc).num_mappings)
              × ((success : Bool) × (k : Kmem) × (copy_maps curproc
                      (t.proc curproc).pgdir
                      (u.proc np).pgdir
                      k
                    ≡ some (success, k'))
                  × (r ≡ (if success then t.nextpid else failed))))
        → Forked t curproc r u k'

  module _ (t : Ptable) (curproc r : ℕ) (u : Ptable) (k' : Kmem)
      (used : IsUsed (t.proc curproc).state) (np : ℕ) (low : np < nproc)
      (free : IsFreeSlot (t.proc np)) where
    cur_apart : np ≢ curproc
    cur_apart e =
        used_free (t.proc curproc).state used (ap (λ (k : ℕ). (t.proc k).state) (sym e) ∙ free)

    -- The table after the first two parts, where the place has been claimed and has the process `q`.
    after_two :
        (q1 q : Proc) (j : ℕ)
        → np ≢ j
        → (set_proc (set_proc (claim t np) np q1) np q).proc j ≡ t.proc j
    after_two q1 q j ne =
        update-ne (set_proc (claim t np) np q1).proc np j q ne
        ∙ update-ne (claim t np).proc np j q1 ne
        ∙ update-ne t.proc np j (record (t.proc np) { state = embryo; pid = t.nextpid }) ne

    fork_dropped :
        (b : Ptable) (k : Kmem)
        → b.initproc ≡ t.initproc
        → b.nextpid ≡ add32 t.nextpid 1
        → ((j : ℕ) → np ≢ j → b.proc j ≡ t.proc j)
        → IsFreeSlot (b.proc np)
        → ◌≡◌ {A = Option (ℕ × Ptable × Kmem)} (some (failed, b, k)) (some (r, u, k'))
        → Forked t curproc r u k'
    fork_dropped b k init next others gone h =
        let w = of_some-eq h in
        subst (λ (x : ℕ × Ptable × Kmem). Forked t curproc x.0 x.1 x.2) w
          (changed np low free init next others (inl (refl, gone)))

    fork_born :
        (q1 q : Proc) (pid : ℕ) (k : Kmem)
        → q.pid ≡ t.nextpid
        → pid ≡ t.nextpid
        → q.state ≡ runnable
        → q.parent ≡ some curproc
        → q.sz ≡ (t.proc curproc).sz
        → fork_tail kernel_end copyuvm copy_maps
            (set_proc (set_proc (claim t np) np q1) np q)
            curproc
            np
            pid
            k
          ≡ some (r, u, k')
        → Forked t curproc r u k'
    fork_born q1 q pid k q_pid same_pid q_state q_parent q_sz h =
        let c = set_proc (set_proc (claim t np) np q1) np q in
        let (success, (copied, result, same)) = fork_tail_lem c curproc np pid r u k k' h in
        let cur : c.proc curproc ≡ t.proc curproc = after_two q1 q curproc cur_apart in
        let mine : c.proc np ≡ q = update_self (set_proc (claim t np) np q1).proc np q in
        let last : Proc = record (c.proc np) { num_mappings = (c.proc curproc).num_mappings } in
        let here : u.proc np ≡ last =
          ap (λ (x : Ptable). x.proc np) same ∙ update_self c.proc np last in
        changed np low free (ap (λ (x : Ptable). x.initproc) same)
          (ap (λ (x : Ptable). x.nextpid) same)
          (λ j ne.
            ap (λ (x : Ptable). x.proc j) same
            ∙ update-ne c.proc np j last ne
            ∙ after_two q1 q j ne)
          (inr (
            ap (λ (x : Proc). x.pid) here ∙ ap (λ (x : Proc). x.pid) mine ∙ q_pid,
            ap (λ (x : Proc). x.state) here ∙ ap (λ (x : Proc). x.state) mine ∙ q_state,
            ap (λ (x : Proc). x.parent) here ∙ ap (λ (x : Proc). x.parent) mine ∙ q_parent,
            ap (λ (x : Proc). x.sz) here ∙ ap (λ (x : Proc). x.sz) mine ∙ q_sz,
            ap (λ (x : Proc). x.num_mappings) here ∙ ap (λ (x : Proc). x.num_mappings) cur,
            (
              success,
              k,
              ap (λ (x : ℕ). copy_maps curproc x (u.proc np).pgdir k)
                    (ap (λ (x : Proc). x.pgdir) (sym cur))
                  ∙ ap (λ (x : ℕ). copy_maps curproc (c.proc curproc).pgdir x k)
                      (ap (λ (x : Proc). x.pgdir) here)
                  ∙ copied,
              result ∙ ap (λ (x : ℕ). if success then x else failed) same_pid,
            ),
          ))

    fork_into_cases :
        (q1 : Proc) (pgdir : ℕ) (k : Kmem) (o : Option (Option ℕ × Ptable × Kmem))
        → q1.pid ≡ t.nextpid
        → fork_into kernel_end copyuvm copy_maps (set_proc (claim t np) np q1) curproc np (pgdir, k)
          ≡ o
        → fork_end kernel_end copyuvm copy_maps curproc np o ≡ some (r, u, k')
        → Forked t curproc r u k'
    fork_into_cases q1 pgdir k none pid1 e h = cc
    fork_into_cases q1 pgdir k (some (o, c, k2)) pid1 e h =
        let b = set_proc (claim t np) np q1 in
        let (q, (same, q_pid, way)) = fork_into_lem b curproc np o c k2 pgdir k e in
        let mine : b.proc np ≡ q1 = update_self (claim t np).proc np q1 in
        let pid : (b.proc np).pid ≡ t.nextpid = ap (λ (x : Proc). x.pid) mine ∙ pid1 in
        let h1 =
          subst
            (λ (x : Ptable).
              fork_end kernel_end copyuvm copy_maps curproc np (some (o, x, k2)) ≡ some (r, u, k'))
            same h in
        elim way [
          | inl (none_there, state, parent) ↦
              fork_dropped (set_proc b np q) k2 refl refl (after_two q1 q)
                (ap (λ (x : Proc). x.state) (update_self b.proc np q) ∙ state)
                (subst
                  (λ (x : Option ℕ).
                    fork_end kernel_end copyuvm copy_maps curproc np (some (x, set_proc b np q, k2))
                    ≡ some (r, u, k'))
                  none_there h1)
          | inr (got, state, parent, sz, dir) ↦
              fork_born q1 q (b.proc np).pid k2 (q_pid ∙ pid) pid state parent
                (sz
                  ∙ ap (λ (x : Proc). x.sz)
                      (update-ne (claim t np).proc np curproc q1 cur_apart
                        ∙ update-ne t.proc np curproc
                            (record (t.proc np) { state = embryo; pid = t.nextpid }) cur_apart))
                (subst
                  (λ (x : Option ℕ).
                    fork_end kernel_end copyuvm copy_maps curproc np (some (x, set_proc b np q, k2))
                    ≡ some (r, u, k'))
                  got h1)
        ]

    fork_rest_lem :
        (o : Option ℕ) (b : Ptable) (k : Kmem) (q1 : Proc)
        → b ≡ set_proc (claim t np) np q1
        → q1.pid ≡ ((claim t np).proc np).pid
        → ((o ≡ none) × (q1.state ≡ unused))
          ⊎ ((o ≡ some np) × (q1.state ≡ ((claim t np).proc np).state))
        → fork_rest kernel_end copyuvm copy_maps curproc (o, b, k) ≡ some (r, u, k')
        → Forked t curproc r u k'
    fork_rest_lem o b k q1 same pid1 way h =
        let pid : q1.pid ≡ t.nextpid =
          pid1
          ∙ ap (λ (x : Proc). x.pid)
              (update_self t.proc np (record (t.proc np) { state = embryo; pid = t.nextpid })) in
        let h1 =
          subst
            (λ (x : Ptable).
              fork_rest kernel_end copyuvm copy_maps curproc (o, x, k) ≡ some (r, u, k'))
            same h in
        let b1 = set_proc (claim t np) np q1 in
        elim way [
          | inl (none_there, state) ↦
              fork_dropped b1 k refl refl
                (λ j ne.
                  update-ne (claim t np).proc np j q1 ne
                  ∙ update-ne t.proc np j (record (t.proc np) { state = embryo; pid = t.nextpid })
                      ne)
                (ap (λ (x : Proc). x.state) (update_self (claim t np).proc np q1) ∙ state)
                (subst
                  (λ (x : Option ℕ).
                    fork_rest kernel_end copyuvm copy_maps curproc (x, b1, k) ≡ some (r, u, k'))
                  none_there h1)
          | inr (got, state) ↦
              let c = copyuvm (b1.proc curproc).pgdir (b1.proc curproc).sz k in
              fork_into_cases q1 c.0 c.1 (fork_into kernel_end copyuvm copy_maps b1 curproc np c)
                pid refl
                (subst
                  (λ (x : Option ℕ).
                    fork_rest kernel_end copyuvm copy_maps curproc (x, b1, k) ≡ some (r, u, k'))
                  got h1)
        ]

  -- A `fork` by a process in use that does not panic, and during which no other processor changes the table,
  -- finds no free place, or fails and leaves the place free; or there is a new RUNNABLE child of the same
  -- size, and `fork` returns its pid, or -1 if its mappings could not be copied. No other process changes.
  pub fork-Forked :
      (trapret forkret : ℕ) (t : Ptable) (k : Kmem) (curproc r : ℕ) (u : Ptable) (k' : Kmem)
      → IsUsed (t.proc curproc).state
      → fork kernel_end copyuvm copy_maps trapret forkret t k curproc ≡ some (r, u, k')
      → Forked t curproc r u k'
  unfolding fork
  fork-Forked trapret forkret t k curproc r u k' used h = elim (claim_place_lem t) [
    | inl (e, nobody) ↦
        let w = of_some-eq (
          subst
            (λ (x : Option ℕ × Ptable × Kmem).
              fork_rest kernel_end copyuvm copy_maps curproc x ≡ some (r, u, k'))
            (allocproc-none trapret forkret t k e) h) in
        full nobody (sym (ap (λ (x : ℕ × Ptable × Kmem). x.0) w))
          (sym (ap (λ (x : ℕ × Ptable × Kmem). x.1) w))
    | inr (np, low, free, e) ↦
        let (q1, (same, pid, parent, way)) =
          alloc_at_lem trapret forkret (claim t np) np (kalloc k) in
        let a = alloc_at trapret forkret (claim t np) np (kalloc k) in
        fork_rest_lem t curproc r u k' used np low free a.0 a.1 a.2 q1 same pid way (
          subst
            (λ (x : Option ℕ × Ptable × Kmem).
              fork_rest kernel_end copyuvm copy_maps curproc x ≡ some (r, u, k'))
            (allocproc-some trapret forkret t k np e) h)
  ]
