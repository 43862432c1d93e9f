-- ===== src/Wmap/Unmap/Exit.antt =====
-- What is left of the mappings when `exit` has called `wunmap` in its loop.
use cs537_project.Prelude.{
  ℕ, zero, suc, ◌+◌, ◌/◌, ◌≤◌, ◌<◌, ◌≡◌, inl, inr, refl, ◌∙◌, Bool, true, false, arith, ltb, dec_lt,
}
use cs537_project.Wmap.Types.{slot}
use cs537_project.Wmap.Invariant.{IsValid}
use cs537_project.Wmap.Unmap.{Space, wunmap, exit_unmap, exit_mappings}
use cs537_project.Wmap.Unmap.Laws.{wunmap_lem}

module _ {filewrite : ℕ → ℕ → ℕ → Bool}
    (writes : (fd start len : ℕ) → filewrite fd start len ≡ true) where
  contradiction : {fd start len : ℕ} → filewrite fd start len ≡ false → ⊥
  contradiction {fd} {start} {len} fails = (let works = writes fd start len in cc)

  -- One round: a mapping goes.
  one_less :
      (s : Space) (i : ℕ)
      → IsValid s.maps
      → i < s.maps.num_mappings
      → let t = (wunmap filewrite s (slot s.maps.mappings i).addr).1 in
        IsValid t.maps × (t.maps.num_mappings + 1 ≡ s.maps.num_mappings)
  one_less s i v h = elim (wunmap_lem filewrite s (slot s.maps.mappings i).addr v) [
    | inl (k, low, same, inl (ok, u)) ↦ (u.valid, u.maps.count)
    | inl (k, low, same, inr (unwritten, (written, fails))) ↦ absurd (contradiction fails)
    | inr (nowhere, e) ↦ absurd (nowhere i h refl)
  ]

  exit_unmap_lem :
      (r i : ℕ) (s : Space)
      → IsValid s.maps
      → i ≤ s.maps.num_mappings + 1
      → s.maps.num_mappings ≤ i + r
      → (exit_unmap filewrite r s i).maps.num_mappings ≡ (s.maps.num_mappings + i) / 2
  unfolding exit_unmap
  exit_unmap_lem zero i s v near enough = omega arith
  exit_unmap_lem (suc r) i s v near enough = elim (dec_lt i s.maps.num_mappings) [
    | yes more ↦
        let go : ltb i s.maps.num_mappings ≡ true = ground arith in
        let (valid, less) = one_less s i v more in
        rw go (
          exit_unmap_lem r (i + 1) (wunmap filewrite s (slot s.maps.mappings i).addr).1 valid
            (omega arith) (omega arith)
          ∙ omega arith)
    | no over ↦ let stop : ltb i s.maps.num_mappings ≡ false = ground arith in rw stop (omega arith)
  ]

  -- If every write to a file succeeds, the loop of `exit` takes out every other mapping: `n / 2` of the
  -- `n` mappings are left.
  pub exit_mappings-half :
      (s : Space)
      → IsValid s.maps
      → (exit_mappings filewrite s).maps.num_mappings ≡ s.maps.num_mappings / 2
  unfolding exit_mappings
  exit_mappings-half s v =
      exit_unmap_lem s.maps.num_mappings 0 s v (omega arith) (omega arith) ∙ omega arith
