-- ===== src/Strings/Tests.antt =====
-- Blocks that overlap.
use cs537_project.Prelude.{inl, ℕ, ◌≡◌, refl, arith, update}
use cs537_project.Strings.{
  copy_up, copy_down, memmove, memcmp, memset, store_words, safestrcpy, copy_string,
}
use cs537_project.Strings.Copy.{Terminated, safestrcpy-Terminated}
use cs537_project.Strings.Move.{Moved, memmove-Moved}

abbrev digits : ℕ → ℕ
digits = update (update (update (λ a. 0) 10 1) 11 2) 12 3

down : memmove digits 11 10 3 12 ≡ 2
unfolding memmove copy_down
down = refl

up : memmove digits 9 10 3 11 ≡ 3
unfolding memmove copy_up
up = refl

compared : memcmp digits 10 11 2 ≡ 4294967295
unfolding memcmp
compared = refl

memmove-Moved_example : Moved digits 11 10 3 (memmove digits 11 10 3)
memmove-Moved_example = memmove-Moved digits 11 10 3 (omega arith) (omega arith)

filled : memset digits 12 258 8 13 ≡ 2
unfolding memset store_words
filled = refl

-- Two of the three bytes and the byte that ends the string.
cut : safestrcpy digits 20 10 3 22 ≡ 0
unfolding safestrcpy copy_string
cut = refl

safestrcpy-Terminated_example : Terminated digits 20 10 3 (safestrcpy digits 20 10 3)
safestrcpy-Terminated_example =
    safestrcpy-Terminated digits 20 10 3 (omega arith) (inl (omega arith))
