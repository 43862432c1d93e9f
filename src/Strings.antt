-- ===== src/Strings.antt =====
-- The functions of xv6-public/string.c on blocks of bytes. An address is a number; a block does not run
-- past the end of the address space.
pub mod Move
pub mod Fill
pub mod Copy
mod Tests
use cs537_project.Prelude.{
  ℕ, zero, suc, ◌+◌, ◌-◌, ◌*◌, ◌/◌, ◌%◌, Bool, true, false, not, ◌&&◌, Option, none, some, ltb,
  ◌==◌, if◌then◌else◌, update, add32, sub32,
}

-- `stosb` and `stosl` of x86.h: so many bytes, or words with the lowest byte first.
unfoldable pub stosb : (ℕ → ℕ) → ℕ → ℕ → ℕ → ℕ → ℕ
stosb mem addr fill zero = mem
stosb mem addr fill (suc cnt) = stosb (update mem addr (fill % 256)) (addr + 1) fill cnt

abbrev pub store_word : (ℕ → ℕ) → ℕ → ℕ → ℕ → ℕ
store_word mem addr fill =
    update
      (update (update (update mem addr (fill % 256)) (addr + 1) (fill / 0x100 % 256)) (addr + 2)
        (fill / 0x1_0000 % 256))
      (addr + 3) (fill / 0x100_0000 % 256)

unfoldable pub store_words : (ℕ → ℕ) → ℕ → ℕ → ℕ → ℕ → ℕ
store_words mem addr fill zero = mem
store_words mem addr fill (suc cnt) = store_words (store_word mem addr fill) (addr + 4) fill cnt

-- `memset`. The word has the byte four times.
unfoldable pub memset : (ℕ → ℕ) → ℕ → ℕ → ℕ → ℕ → ℕ
memset mem dst c n =
    if dst % 4 == 0 && n % 4 == 0
    then store_words mem dst (c % 256 * 0x101_0101) (n / 4)
    else stosb mem dst c n

-- `while(n-- > 0) *d++ = *s++`
unfoldable pub copy_up : (ℕ → ℕ) → ℕ → ℕ → ℕ → ℕ → ℕ
copy_up mem d s zero = mem
copy_up mem d s (suc n) = copy_up (update mem d (mem s)) (d + 1) (s + 1) n

-- `while(n-- > 0) *--d = *--s`
unfoldable pub copy_down : (ℕ → ℕ) → ℕ → ℕ → ℕ → ℕ → ℕ
copy_down mem d s zero = mem
copy_down mem d s (suc n) = copy_down (update mem (d - 1) (mem (s - 1))) (d - 1) (s - 1) n

unfoldable pub memmove : (ℕ → ℕ) → ℕ → ℕ → ℕ → ℕ → ℕ
memmove mem dst src n =
    if ltb src dst && ltb dst (add32 src n)
    then copy_down mem (add32 dst n) (add32 src n) n
    else copy_up mem dst src n

unfoldable pub memcpy : (ℕ → ℕ) → ℕ → ℕ → ℕ → ℕ → ℕ
memcpy mem dst src n = memmove mem dst src n

-- `memcmp`: an `int`.
unfoldable pub memcmp : (ℕ → ℕ) → ℕ → ℕ → ℕ → ℕ
memcmp mem s1 s2 zero = 0
memcmp mem s1 s2 (suc n) =
    let rest = memcmp mem (s1 + 1) (s2 + 1) n in
    if mem s1 == mem s2 then rest else sub32 (mem s1) (mem s2)

-- `strncmp`: an `int`.
unfoldable pub strncmp : (ℕ → ℕ) → ℕ → ℕ → ℕ → ℕ
strncmp mem p q zero = 0
strncmp mem p q (suc n) =
    let rest = strncmp mem (p + 1) (q + 1) n in
    if not (mem p == 0) && (mem p == mem q) then rest else sub32 (mem p) (mem q)

-- The second loop of `strncpy`.
unfoldable pub pad : (ℕ → ℕ) → ℕ → ℕ → ℕ → ℕ
pad mem s zero = mem
pad mem s (suc n) = pad (update mem s 0) (s + 1) n

-- `strncpy`, for a count that is not negative.
unfoldable pub strncpy : (ℕ → ℕ) → ℕ → ℕ → ℕ → ℕ → ℕ
strncpy mem s t zero = mem
strncpy mem s t (suc n) =
    let copied = update mem s (mem t) in
    let rest = strncpy copied (s + 1) (t + 1) n in if mem t == 0 then pad copied (s + 1) n else rest

-- The loop of `safestrcpy` with `n` bytes left besides the last one, and the byte 0 behind it.
unfoldable pub copy_string : (ℕ → ℕ) → ℕ → ℕ → ℕ → ℕ → ℕ
copy_string mem s t zero = update mem s 0
copy_string mem s t (suc n) =
    let copied = update mem s (mem t) in
    let rest = copy_string copied (s + 1) (t + 1) n in
    if mem t == 0 then update copied (s + 1) 0 else rest

-- `safestrcpy`, for a count that is not negative.
unfoldable pub safestrcpy : (ℕ → ℕ) → ℕ → ℕ → ℕ → ℕ → ℕ
safestrcpy mem s t zero = mem
safestrcpy mem s t (suc n) = copy_string mem s t n

-- `strlen`, with the bytes looked at bounded by the first argument; `none`: none of them is 0.
unfoldable pub strlen : ℕ → (ℕ → ℕ) → ℕ → Option ℕ
strlen zero mem s = none
strlen (suc r) mem s =
    let rest = strlen r mem (s + 1) in
    if mem s == 0 then some 0 else (elim rest [ none ↦ none | some n ↦ some (n + 1) ])
