-- ===== src/Syscall.antt =====
-- How the kernel takes the arguments of a system call from the stack and the memory of the process:
-- xv6-public/syscall.c, and `sys_wmap`, `sys_wunmap` of sysproc.c.
pub mod Laws
mod Tests
use cs537_project.Prelude.{
  ℕ, zero, suc, ◌+◌, ◌-◌, ◌*◌, Bool, not, ◌&&◌, ◌||◌, Option, none, some, ltb, leb, ◌==◌,
  if◌then◌else◌, add32, is_neg, failed,
}
use cs537_project.Wmap.Types.{Maps}
use cs537_project.Wmap.Alloc.{wmap}
use cs537_project.Wmap.Unmap.{Space, wunmap}

-- The part of the process that is read: `sz`, `tf->esp`, and the bytes of the memory.
pub record Caller : Type 0 where
  pub sz : ℕ
  pub esp : ℕ
  pub mem : ℕ → ℕ

abbrev pub nofile : ℕ
nofile = 16

-- `*(int*)addr`, which the processor reads with the low byte first.
abbrev pub load_int : (ℕ → ℕ) → ℕ → ℕ
load_int mem a = mem a + 256 * (mem (a + 1) + 256 * (mem (a + 2) + 256 * mem (a + 3)))

-- `fetchint`; `none` is -1.
unfoldable pub fetchint : Caller → ℕ → Option ℕ
fetchint p addr =
    if leb p.sz addr || ltb p.sz (add32 addr 4) then none else some (load_int p.mem addr)

-- The loop of `fetchstr` from `s` on, with the rounds bounded by the first argument: where the nul is.
unfoldable pub find_nul : ℕ → (ℕ → ℕ) → ℕ → ℕ → Option ℕ
find_nul zero mem ep s = none
find_nul (suc r) mem ep s =
    let rest = find_nul r mem ep (s + 1) in
    if ltb s ep then (if mem s == 0 then some s else rest) else none

-- `fetchstr`: the length of the string at `addr`. It has at most as many rounds as bytes below `sz`.
unfoldable pub fetchstr : Caller → ℕ → Option ℕ
fetchstr p addr =
    if leb p.sz addr
    then none
    else (elim (find_nul (p.sz - addr) p.mem p.sz addr) [ none ↦ none | some s ↦ some (s - addr) ])

unfoldable pub argint : Caller → ℕ → Option ℕ
argint p n = fetchint p (add32 (add32 p.esp 4) (4 * n))

-- The test of `argptr` on the pointer that it has read.
abbrev pub is_outside : Caller → ℕ → ℕ → Bool
is_outside p i size = is_neg size || leb p.sz i || ltb p.sz (add32 i size)

unfoldable pub argptr : Caller → ℕ → ℕ → Option ℕ
argptr p n size = elim (argint p n) [
  | none ↦ none
  | some i ↦ if is_outside p i size then none else some i
]

-- The address and the length.
unfoldable pub argstr : Caller → ℕ → Option (ℕ × ℕ)
argstr p n = elim (argint p n) [
  | none ↦ none
  | some addr ↦ elim (fetchstr p addr) [ none ↦ none | some len ↦ some (addr, len) ]
]

-- The value that `argint` returns: 0 or -1.
abbrev pub status : Option ℕ → ℕ
status none = failed
status (some x) = 0

-- The test of `sys_wmap` on what the last call of `argint` returns, as an `int`.
abbrev pub is_too_big : ℕ → Bool
is_too_big x = not (is_neg x) && leb nofile x

unfoldable pub sys_wmap : Caller → Maps → ℕ × Maps
sys_wmap p m = elim (argint p 0) [
  | none ↦ (failed, m)
  | some addr ↦ elim (argint p 1) [
    | none ↦ (failed, m)
    | some length ↦ elim (argint p 2) [
      | none ↦ (failed, m)
      | some flags ↦ elim (argint p 3) [
        | none ↦ (failed, m)
        | some fd ↦
            if is_too_big (status (argint p 3)) then (failed, m) else wmap m addr length flags fd
      ]
    ]
  ]
]

unfoldable pub sys_wunmap : (ℕ → ℕ → ℕ → Bool) → Caller → Space → ℕ × Space
sys_wunmap filewrite p s = elim (argint p 0) [
  | none ↦ (failed, s)
  | some addr ↦ wunmap filewrite s addr
]
