-- ===== src/Ulib/Tests.antt =====
-- Two strings.
use cs537_project.Prelude.{ℕ, ◌≡◌, refl, some, update}
use cs537_project.Ulib.{strcmp, strchr, atoi, atoi_from}

-- "42" at 10, and "47" at 20.
abbrev words : ℕ → ℕ
words = update (update (update (update (λ a. 0) 10 52) 11 50) 20 52) 21 55

compared : strcmp 10 words 10 20 ≡ some 4294967291
unfolding strcmp
compared = refl

found : strchr 10 words 20 55 ≡ some 21
unfolding strchr
found = refl

number : atoi 10 words 10 ≡ some 42
unfolding atoi atoi_from
number = refl
