-- ===== src/Fs/Path/Elements.antt =====
-- `skipelem`, called until it returns null as `namex` does.
use cs537_project.Prelude.{
  ℕ, zero, suc, ◌≤◌, ◌<◌, ◌≡◌, refl, ap, sym, ◌∙◌, List, [], ◌∷◌, map, Option, none, some, arith,
  length, take,
}
use cs537_project.Fs.Path.{dirsiz, skip_slashes, scan_elem, skipelem}
use cs537_project.Fs.Path.Split.{
  split, NoNul, keep, joined, scan_elem-Scanned, scan_elem_other, skip_slashes-split, scan_elem-cut,
  split-nil, skip_slashes-length, skip_slashes-NoNul, skip_slashes_head,
}
use cs537_project.Fs.Path.Name.{name_of, copy_elem-name_of}

-- The names that the loop of `namex` gets from `skipelem`, with the rounds bounded by the first argument.
unfoldable pub names : ℕ → List ℕ → (ℕ → ℕ) → ℕ → List (List ℕ)
names zero path mem name = []
names (suc r) path mem name = elim (skipelem path mem name) [
  | none ↦ []
  | some (rest, mem') ↦ name_of dirsiz mem' name ∷ names r rest mem' name
]

-- One call of `skipelem`, where an element is left: its name, and the rest of the path.
record Skipped (path : List ℕ) (name : ℕ) (rest : List ℕ) (mem' : ℕ → ℕ) : Type 0 where
  word : List ℕ
  named : name_of dirsiz mem' name ≡ take dirsiz word
  cut_off : split path ≡ word ∷ split rest
  shorter : length rest < length path
  no_nul : NoNul rest

abbrev SkipResult : List ℕ → ℕ → Option (List ℕ × (ℕ → ℕ)) → Type 0
SkipResult path name none = split path ≡ []
SkipResult path name (some (rest, mem')) = Skipped path name rest mem'

skipelem-Skipped :
    (path : List ℕ) (mem : ℕ → ℕ) (name : ℕ)
    → NoNul path
    → SkipResult path name (skipelem path mem name)
unfolding skipelem
skipelem-Skipped path mem name no_nul =
    by_start (skip_slashes path) refl (skip_slashes-NoNul path no_nul) (skip_slashes-length path)
  where
    by_start :
        (s : List ℕ)
        → skip_slashes path ≡ s
        → NoNul s
        → length s ≤ length path
        → SkipResult path name (skipelem path mem name)
    by_start [] e no_nul_s small =
        rw (skipelem, e) (sym (skip_slashes-split path) ∙ ap split e ∙ split-nil)
    by_start (c ∷ s) e no_nul_s small =
        let other = skip_slashes_head path c s e in
        let scan = scan_elem_other c s other in
        let scanned = scan_elem-Scanned s in
        let len = suc (scan_elem s).0 in
        let rest = (scan_elem s).1 in
        rw (skipelem, e, scan)
          (record {
            word = c ∷ take (scan_elem s).0 s;
            named = copy_elem-name_of mem name (c ∷ s) len no_nul_s (omega (arith, scanned.inside));
            cut_off =
                sym (skip_slashes-split path)
                ∙ ap split e
                ∙ ap joined (scan_elem-cut (c ∷ s))
                ∙ ap (λ (x : ℕ × List ℕ). keep (take x.0 (c ∷ s)) (split x.1)) scan
                ∙ ap (λ (x : List (List ℕ)). (c ∷ take (scan_elem s).0 s) ∷ x)
                    (sym (skip_slashes-split rest));
            shorter = omega (arith, skip_slashes-length rest, scanned.shorter, small);
            no_nul = skip_slashes-NoNul rest (scanned.no_nul no_nul_s.1);
          })

-- The elements that the loop of `namex` gets from a path without NUL by `skipelem`, one after the other, are
-- the pieces between its slashes that are not empty, each cut at DIRSIZ bytes. More rounds than the path has
-- bytes are enough for this.
pub names-split :
    (r : ℕ) (path : List ℕ) (mem : ℕ → ℕ) (name : ℕ)
    → NoNul path
    → length path < r
    → names r path mem name ≡ map (take dirsiz) (split path)
unfolding names
names-split zero path mem name no_nul h = absurd (omega arith)
names-split (suc r) path mem name no_nul h =
    by_call (skipelem path mem name) refl (skipelem-Skipped path mem name no_nul)
      (λ rest mem'. names-split r rest mem' name)
  where
    by_call :
        (o : Option (List ℕ × (ℕ → ℕ)))
        → skipelem path mem name ≡ o
        → SkipResult path name o
        → ((rest : List ℕ) (mem' : ℕ → ℕ)
            → NoNul rest
            → length rest < r
            → names r rest mem' name ≡ map (take dirsiz) (split rest))
        → names (suc r) path mem name ≡ map (take dirsiz) (split path)
    by_call none e ended ih = rw (names, e, ended) refl
    by_call (some (rest, mem')) e one ih =
        rw
          (
            names,
            e,
            one.cut_off,
            one.named,
            ih rest mem' one.no_nul (omega (arith, one.shorter, h)),
          )
          refl
