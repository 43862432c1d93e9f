-- ===== src/Syscall/Tests.antt =====
-- A process of 8192 bytes with its arguments on the stack.
use cs537_project.Prelude.{
  ℕ, ◌+◌, ◌^◌, ◌≤◌, ◌<◌, ◌≡◌, ◌⊎◌, refl, replicate, some, none, arith, update,
}
use cs537_project.Wmap.Types.{Maps, blank}
use cs537_project.Syscall.{Caller, fetchint, find_nul, fetchstr, argint, argptr}
use cs537_project.Syscall.Laws.{NoNul, fetchstr_lem, argptr_lem}

-- At the stack pointer plus 4: 0x100, 0x1000, 5 and 99; and the string "hi" at 0x100.
abbrev memory : ℕ → ℕ
memory =
    update
      (update (update (update (update (update (λ a. 0) 0x1005 1) 0x1009 0x10) 0x100c 5) 0x1010 99)
        0x100 104)
      0x101 105

abbrev caller : Caller
caller = record { sz = 8192; esp = 0x1000; mem = memory }

abbrev no_maps : Maps
no_maps = record { mappings = replicate 16 blank; num_mappings = 0 }

first_arg : argint caller 0 ≡ some 0x100
unfolding argint fetchint
first_arg = refl

word_hi : fetchstr caller 0x100 ≡ some 2
unfolding fetchstr find_nul
word_hi = refl

fetchstr_lem_example :
    ((n : ℕ) × (fetchstr caller 0x100 ≡ some n)
      × (0x100 + n < caller.sz)
      × (memory (0x100 + n) ≡ 0)
      × NoNul memory 0x100 (0x100 + n))
    ⊎ ((fetchstr caller 0x100 ≡ none) × NoNul memory 0x100 caller.sz)
fetchstr_lem_example = fetchstr_lem caller 0x100

argptr_lem_example :
    ((i : ℕ) × (argint caller 0 ≡ some i)
      × (argptr caller 0 16 ≡ some i)
      × (16 < 2 ^ 31)
      × (i < caller.sz)
      × (i + 16 ≤ caller.sz))
    ⊎ ((argptr caller 0 16 ≡ none)
        × ((i : ℕ)
            → argint caller 0 ≡ some i
            → (2 ^ 31 ≤ 16) ⊎ (caller.sz ≤ i) ⊎ (caller.sz < i + 16)))
argptr_lem_example = argptr_lem caller 0 16 (omega arith)

second_arg : argint caller 1 ≡ some 0x1000
unfolding argint fetchint
second_arg = refl

third_arg : argint caller 2 ≡ some 5
unfolding argint fetchint
third_arg = refl

fourth_arg : argint caller 3 ≡ some 99
unfolding argint fetchint
fourth_arg = refl
