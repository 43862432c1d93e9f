-- ===== src/Ulib.antt =====
-- The strings of user programs: xv6-public/ulib.c, on a memory of bytes. Each loop stops at the byte that
-- ends the string; the bytes looked at are bounded by the first argument, and `none` is that there are more.
pub mod Compare
mod Tests
use cs537_project.Prelude.{
  ℕ, zero, suc, ◌+◌, ◌-◌, ◌*◌, ◌%◌, ◌^◌, Bool, true, false, not, ◌&&◌, Option, none, some, leb,
  ◌==◌, if◌then◌else◌, update, sub32,
}

unfoldable pub strcpy : ℕ → (ℕ → ℕ) → ℕ → ℕ → Option (ℕ → ℕ)
strcpy zero mem s t = none
strcpy (suc r) mem s t =
    let copied = update mem s (mem t) in
    let rest = strcpy r copied (s + 1) (t + 1) in if mem t == 0 then some copied else rest

-- `strcmp`: an `int`.
unfoldable pub strcmp : ℕ → (ℕ → ℕ) → ℕ → ℕ → Option ℕ
strcmp zero mem p q = none
strcmp (suc r) mem p q =
    let rest = strcmp r mem (p + 1) (q + 1) in
    if not (mem p == 0) && (mem p == mem q) then rest else some (sub32 (mem p) (mem q))

-- `strchr`: the address, or 0.
unfoldable pub strchr : ℕ → (ℕ → ℕ) → ℕ → ℕ → Option ℕ
strchr zero mem s c = none
strchr (suc r) mem s c =
    let rest = strchr r mem (s + 1) c in
    if mem s == 0 then some 0 else if mem s == c then some s else rest

-- `'0' <= *s && *s <= '9'`
abbrev pub is_digit : ℕ → Bool
is_digit c = leb 48 c && leb c 57

-- The loop of `atoi`, with what has been read.
unfoldable pub atoi_from : ℕ → (ℕ → ℕ) → ℕ → ℕ → Option ℕ
atoi_from zero mem s n = none
atoi_from (suc r) mem s n =
    let rest = atoi_from r mem (s + 1) ((n * 10 + mem s + 2 ^ 32 - 48) % 2 ^ 32) in
    if is_digit (mem s) then rest else some n

unfoldable pub atoi : ℕ → (ℕ → ℕ) → ℕ → Option ℕ
atoi r mem s = atoi_from r mem s 0
