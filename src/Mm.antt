-- ===== src/Mm.antt =====
-- The operations of xv6-public/wmap.c that work on page tables: wremap, getpgdirinfo, getwmapinfo and
-- handle_pagefault, wunmap as wremap calls it, and the loop of `fork` (proc.c) over the mappings. `none`
-- is a panic, or a read through the null pointer that `walkpgdir` returns without a page table.
pub mod Drop
pub mod Remap
pub mod Fault
mod Tests
use cs537_project.Prelude.{
  ℕ, zero, suc, ◌+◌, ◌-◌, ◌/◌, ◌%◌, ◌^◌, List, [], ◌∷◌, Bool, true, false, not, ◌&&◌, Option, none,
  some, ltb, leb, ◌==◌, if◌then◌else◌, add32, sub32, is_neg, le_zero, has_flag, failed, set, update,
  pgsize, kernbase, pg_round_up, v2p,
}
use cs537_project.Kalloc.{Kmem, kalloc, kfree}
use cs537_project.Vm.{
  Pgdir, walk, set_pte, is_present, is_user, pte_addr, pte_wu, p2v, Mapped, mapped, full, remap,
  spins, mappages, zero_page, copy_page,
}
use cs537_project.Syscall.{Caller, argint}
use cs537_project.Wmap.Types.{
  Mapping, Maps, slot, mapping_end, wmap_base, map_anonymous, map_shared,
}
use cs537_project.Wmap.Sort.{selection_sort}
use cs537_project.Wmap.Place.{last_byte, find_addr}
use cs537_project.Wmap.Unmap.{find_map, remove, is_written}

-- What these operations change: the mappings of the process, its page table, and the page allocator.
pub record Image : Type 0 where
  pub maps : Maps
  pub pgdir : Pgdir
  pub kmem : Kmem

-- `temp > newsize` of two `int`s.
abbrev pub gt_int : ℕ → ℕ → Bool
gt_int a b = ltb (add32 b (2 ^ 31)) (add32 a (2 ^ 31))

-- The mapping in slot `i` gets the length `newsize`.
abbrev pub set_len : Maps → ℕ → ℕ → Maps
set_len p i newsize = record p {
  mappings = set p.mappings i (record (slot p.mappings i) { len = newsize });
}

-- The loop of `wremap` that moves the pages, from the end down. What `mappages` returns is not looked at.
unfoldable pub move_down : ℕ → Pgdir → Kmem → ℕ → ℕ → ℕ → Option (Pgdir × Kmem)
move_down zero d k oldaddr new_addr oldsize = some (d, k)
move_down (suc r) d k oldaddr new_addr oldsize =
    let va = sub32 (add32 oldaddr oldsize) pgsize in
    let to = sub32 (add32 new_addr oldsize) pgsize in
    elim (gt_int oldsize 0) [
      | false ↦ some (d, k)
      | true ↦ elim (walk d va) [
        | none ↦ none
        | some pte ↦ elim (is_present pte) [
          | false ↦ move_down r d k oldaddr new_addr (sub32 oldsize pgsize)
          | true ↦ elim (mappages d k to pgsize (pte_addr pte) pte_wu) [
            | mapped d' k' ↦
                move_down r (set_pte d' va 0) k' oldaddr new_addr (sub32 oldsize pgsize)
            | full d' k' ↦ move_down r (set_pte d' va 0) k' oldaddr new_addr (sub32 oldsize pgsize)
            | remap ↦ none
            | spins ↦ none
          ]
        ]
      ]
    ]

-- The end of `wremap` for a mapping that has been moved.
unfoldable pub sort_image : Image → Image
sort_image s = record s {
  maps = record s.maps { mappings = selection_sort s.maps.mappings s.maps.num_mappings };
}

module _ (kernel_end : ℕ) where
  -- The page at `va` is given to `kfree` and its entry cleared, if it is present.
  unfoldable pub drop_page : Pgdir → Kmem → ℕ → Option (Pgdir × Kmem)
  drop_page d k va = elim (walk d va) [
    | none ↦ some (d, k)
    | some pte ↦ elim (is_present pte) [
      | false ↦ some (d, k)
      | true ↦ elim (kfree kernel_end (p2v (pte_addr pte)) k) [
        | none ↦ none
        | some k' ↦ some (set_pte d va 0, k')
      ]
    ]
  ]

  -- The loop of `wunmap` over the pages up to `end`, with the rounds bounded by the first argument.
  unfoldable pub drop_up : ℕ → Pgdir → Kmem → ℕ → ℕ → Option (Pgdir × Kmem)
  drop_up zero d k va end = some (d, k)
  drop_up (suc r) d k va end = elim (ltb va end) [
    | false ↦ some (d, k)
    | true ↦ elim (drop_page d k va) [
      | none ↦ none
      | some (d', k') ↦ drop_up r d' k' (add32 va pgsize) end
    ]
  ]

  -- The loop of `wremap` that shrinks a mapping, from its end down.
  unfoldable pub drop_down : ℕ → Pgdir → Kmem → ℕ → ℕ → ℕ → Option (Pgdir × Kmem)
  drop_down zero d k oldaddr temp newsize = some (d, k)
  drop_down (suc r) d k oldaddr temp newsize = elim (gt_int temp newsize) [
    | false ↦ some (d, k)
    | true ↦ elim (drop_page d k (sub32 (add32 oldaddr temp) pgsize)) [
      | none ↦ none
      | some (d', k') ↦ drop_down r d' k' oldaddr (sub32 temp pgsize) newsize
    ]
  ]

  -- `filewrite(fd, start, length)` says whether the write succeeds.
  module _ (filewrite : ℕ → ℕ → ℕ → Bool) where
    unfoldable pub unmap_pages : Image → ℕ → Option (ℕ × Image)
    unmap_pages s i =
        let m = slot s.maps.mappings i in
        let end = pg_round_up (mapping_end m) in
        if is_written m && not (filewrite m.fd m.addr m.len)
        then some (failed, s)
        else (elim (drop_up (end / pgsize) s.pgdir s.kmem m.addr end) [
          | none ↦ none
          | some (d, k) ↦ some (0, record { maps = remove s.maps i; pgdir = d; kmem = k })
        ])

    -- `wunmap` on the page table.
    unfoldable pub unmap_table : Image → ℕ → Option (ℕ × Image)
    unmap_table s addr =
        if not (addr % pgsize == 0)
        then some (failed, s)
        else (elim (find_map s.maps.mappings s.maps.num_mappings 0 addr) [
          | none ↦ some (failed, s)
          | some i ↦ unmap_pages s i
        ])

    -- `wremap` moves the mapping in slot `i` to `new_addr`.
    unfoldable pub move_map : Image → ℕ → ℕ → ℕ → ℕ → ℕ → Option (ℕ × Image)
    move_map s i oldaddr oldsize newsize new_addr =
        let m = slot s.maps.mappings i in
        let maps : Maps = record s.maps {
          mappings = set s.maps.mappings i (record m { addr = new_addr; len = newsize });
        } in
        elim (move_down (oldsize / pgsize + 1) s.pgdir s.kmem oldaddr new_addr oldsize) [
          | none ↦ none
          | some (d, k) ↦ elim (unmap_table (record { maps = maps; pgdir = d; kmem = k }) oldaddr) [
            | none ↦ none
            | some (r, s') ↦ some (new_addr, sort_image s')
          ]
        ]

    -- The case of a larger size.
    unfoldable pub grow : Image → ℕ → ℕ → ℕ → ℕ → ℕ → Option (ℕ × Image)
    grow s i oldaddr oldsize newsize flags =
        let end = last_byte oldaddr newsize in
        let larger = record s { maps = set_len s.maps i newsize } in
        let new_addr = find_addr s.maps.mappings s.maps.num_mappings 0 wmap_base newsize in
        if leb kernbase end
        then some (failed, s)
        else if i + 1 == s.maps.num_mappings
        then some (oldaddr, larger)
        else if ltb end (slot s.maps.mappings (i + 1)).addr
        then some (oldaddr, larger)
        else if flags == 0
        then some (failed, s)
        else if leb kernbase (last_byte new_addr newsize)
        then some (failed, s)
        else move_map s i oldaddr oldsize newsize new_addr

    -- `wremap`.
    unfoldable pub wremap : Image → ℕ → ℕ → ℕ → ℕ → Option (ℕ × Image)
    wremap s oldaddr oldsize newsize flags =
        if not (oldaddr % pgsize == 0)
        then some (failed, s)
        else if le_zero newsize
        then some (failed, s)
        else (elim (find_map s.maps.mappings s.maps.num_mappings 0 oldaddr) [
          | none ↦ some (failed, s)
          | some i ↦
              let diff = sub32 newsize oldsize in
              if diff == 0
              then some (oldaddr, s)
              else if is_neg diff
              then (elim (drop_down (oldsize / pgsize + 1) s.pgdir s.kmem oldaddr oldsize newsize) [
                | none ↦ none
                | some (d, k) ↦
                    some (oldaddr, record { maps = set_len s.maps i newsize; pgdir = d; kmem = k })
              ])
              else grow s i oldaddr oldsize newsize flags
        ])

-- The loop of `handle_pagefault`: the first mapping that the address lies in.
unfoldable pub find_fault : List Mapping → ℕ → ℕ → ℕ → Option ℕ
find_fault arr zero i addr = none
find_fault arr (suc r) i addr =
    let rest = find_fault arr r (i + 1) addr in
    if leb (slot arr i).addr addr && ltb addr (mapping_end (slot arr i)) then some i else rest

abbrev pub count_page : Maps → ℕ → Maps
count_page p i =
    let m = slot p.mappings i in
    record p {
      mappings = set p.mappings i (record m { num_pages_loaded = add32 m.num_pages_loaded 1 });
    }

-- `readi` of the file `fd` of the process, from an offset on, into the page at `mem`: what it changes of
-- the memory of the pages.
module _ (kernel_end : ℕ) (readi : ℕ → ℕ → ℕ → Kmem → Kmem) where
  -- The page `mem` is mapped at `addr`; the answer is 1, or 0 if the memory is short.
  unfoldable pub map_fault : Image → ℕ → ℕ → (Kmem → Kmem) → Option (ℕ × Image)
  map_fault s mem addr fill = elim (mappages s.pgdir s.kmem addr pgsize (v2p mem) pte_wu) [
    | mapped d k ↦ some (1, record s { pgdir = d; kmem = fill k })
    | full d k ↦ elim (kfree kernel_end mem k) [
      | none ↦ none
      | some k' ↦ some (0, record s { pgdir = d; kmem = k' })
    ]
    | remap ↦ none
    | spins ↦ none
  ]

  -- `handle_pagefault`.
  unfoldable pub handle_pagefault : Image → ℕ → Option (ℕ × Image)
  handle_pagefault s addr = elim (find_fault s.maps.mappings s.maps.num_mappings 0 addr) [
    | none ↦ some (0, s)
    | some i ↦
        let (mem, k) = kalloc s.kmem in
        let m = slot s.maps.mappings i in
        let maps = count_page s.maps i in
        if mem == 0
        then some (0, record s { kmem = k })
        else if has_flag m.flags map_anonymous
        then map_fault (record s { maps = maps; kmem = k }) mem addr (λ k. zero_page k mem)
        else map_fault (record s { maps = maps; kmem = readi m.fd (sub32 addr m.addr) mem k }) mem
            addr (λ k. k)
  ]

-- `struct pgdirinfo`: the pages found, the last one first.
pub record Pgdirinfo : Type 0 where
  pub n_upages : ℕ
  pub pages : List (ℕ × ℕ)

abbrev pub max_upage_info : ℕ
max_upage_info = 32

-- `pte && (*pte & PTE_U)`
abbrev pub has_user : Option ℕ → Bool
has_user none = false
has_user (some pte) = is_user pte

abbrev pub entry_of : Option ℕ → ℕ
entry_of none = 0
entry_of (some pte) = pte

-- The loop of `getpgdirinfo` from `va` on, with the rounds bounded by the first argument.
unfoldable pub collect : ℕ → Pgdir → ℕ → Pgdirinfo → Pgdirinfo
collect zero d va info = info
collect (suc r) d va info = elim (ltb info.n_upages max_upage_info && ltb va kernbase) [
  | false ↦ info
  | true ↦ collect r d (add32 va pgsize) (
      if has_user (walk d va)
      then record {
        n_upages = info.n_upages + 1;
        pages = (va, pte_addr (entry_of (walk d va))) ∷ info.pages;
      }
      else info)
]

-- `getpgdirinfo`. There are KERNBASE / PGSIZE pages.
unfoldable pub getpgdirinfo : Pgdir → Pgdirinfo
getpgdirinfo d = collect (kernbase / pgsize + 1) d 0 (record { n_upages = 0; pages = [] })

-- `struct wmapinfo`: the count, and address, length and pages loaded of each mapping.
pub record Wmapinfo : Type 0 where
  pub total_mmaps : ℕ
  pub addr : ℕ → ℕ
  pub len : ℕ → ℕ
  pub n_loaded_pages : ℕ → ℕ

-- The loop of `getwmapinfo` from slot `i` on.
unfoldable pub list_maps : List Mapping → ℕ → ℕ → Wmapinfo → Wmapinfo
list_maps arr zero i info = info
list_maps arr (suc r) i info = list_maps arr r (i + 1) (record info {
  addr = update info.addr i (slot arr i).addr;
  len = update info.len i (slot arr i).len;
  n_loaded_pages = update info.n_loaded_pages i (slot arr i).num_pages_loaded;
})

-- `getwmapinfo`, into the structure of the caller.
unfoldable pub getwmapinfo : Maps → Wmapinfo → Wmapinfo
getwmapinfo p info =
    list_maps p.mappings p.num_mappings 0 (record info { total_mmaps = p.num_mappings })

-- `sys_wremap` of sysproc.c.
unfoldable pub sys_wremap : ℕ → (ℕ → ℕ → ℕ → Bool) → Caller → Image → Option (ℕ × Image)
sys_wremap kernel_end filewrite p s = elim (argint p 0) [
  | none ↦ some (failed, s)
  | some oldaddr ↦ elim (argint p 1) [
    | none ↦ some (failed, s)
    | some oldsize ↦ elim (argint p 2) [
      | none ↦ some (failed, s)
      | some newsize ↦ elim (argint p 3) [
        | none ↦ some (failed, s)
        | some flags ↦ wremap kernel_end filewrite s oldaddr oldsize newsize flags
      ]
    ]
  ]
]

-- The loop of `fork` over the pages of a mapping of the parent, with the offset, and the rounds bounded by
-- the first argument. The child's page table and the allocator come out, with whether all went well.
unfoldable pub fork_pages : ℕ → Pgdir → Mapping → Pgdir → Kmem → ℕ → Option (Bool × Pgdir × Kmem)
fork_pages zero p m d k offset = some (true, d, k)
fork_pages (suc r) p m d k offset =
    let addr = add32 m.addr offset in
    elim (ltb offset m.len) [
      | false ↦ some (true, d, k)
      | true ↦ elim (addr % pgsize == 0) [
        | false ↦ some (false, d, k)
        | true ↦ elim (walk p addr) [
          | none ↦ none
          | some pte ↦ elim (is_present pte) [
            | false ↦ fork_pages r p m d k (add32 offset pgsize)
            | true ↦ elim (has_flag m.flags map_shared) [
              | true ↦ elim (mappages d k addr pgsize (pte_addr pte) pte_wu) [
                | mapped d' k' ↦ fork_pages r p m d' k' (add32 offset pgsize)
                | full d' k' ↦ some (false, d', k')
                | remap ↦ none
                | spins ↦ none
              ]
              | false ↦
                  let (mem, k') = kalloc k in
                  elim (mem == 0) [
                    | true ↦ some (false, d, k')
                    | false ↦ elim (mappages d k' addr pgsize (v2p mem) pte_wu) [
                      | mapped d' k'' ↦
                          fork_pages r p m d' (copy_page k'' mem (p2v (pte_addr pte)))
                            (add32 offset pgsize)
                      | full d' k'' ↦ some (false, d', k'')
                      | remap ↦ none
                      | spins ↦ none
                    ]
                  ]
            ]
          ]
        ]
      ]
    ]

-- The loop of `fork` over the mappings from slot `i` on. A mapping that fails does not end it, unless
-- it is not page-aligned.
unfoldable pub fork_maps :
    Pgdir → List Mapping → ℕ → ℕ → Bool → Pgdir → Kmem → Option (Bool × Pgdir × Kmem)
fork_maps p arr zero i success d k = some (success, d, k)
fork_maps p arr (suc r) i success d k =
    let m = slot arr i in
    elim (m.addr % pgsize == 0) [
      | false ↦ some (false, d, k)
      | true ↦ elim (fork_pages (m.len / pgsize + 1) p m d k 0) [
        | none ↦ none
        | some (ok, d', k') ↦ fork_maps p arr r (i + 1) (success && ok) d' k'
      ]
    ]
