-- ===== src/Paging.antt =====
-- The page tables of kernel/paging.c, in a memory of 64-bit words by their virtual addresses. The page
-- allocator is a parameter: it takes its state and returns the address of a page, or 0.
mod Tests
pub mod Ends
pub mod Entry
pub mod Tree
pub mod Open
pub mod One
pub mod Fault
pub mod Pages
use vimos_minimal.Base.{
  ◌⊎◌, ◌↔◌, inl, inr, ℕ, zero, suc, ◌+◌, ◌-◌, ◌*◌, ◌/◌, ◌%◌, ◌^◌, ◌≤◌, ◌<◌, min, max, bit_and,
  bit_or, bit_xor, ◌≡◌, refl, sym, ap, ◌∙◌, ◌≢◌, Bool, true, false, ◌&&◌, ◌||◌, not, Option, none,
  some, List, [], ◌∷◌, ◌++◌, map, arith, ltb, leb, ◌==◌, if◌then◌else◌, ltb→lt, lt→ltb, le→ltb,
  leb→le, ==_iff, ==_refl, Bool-cases, nat_cases, length, get_elem?, get_or, set, take, drop,
  replicate, length-append, length-replicate, length-set, get_or-set_self, get_or-set_ne,
  get_or-append_left, get_or-append_right, get_or-append_last, get_or-replicate, u8, u16, u32, u64,
  sub32, sub64,
}
use vimos_minimal.Layout.{p2v, v2p}
use vimos_minimal.Boot.Tables.{Words, put, clear}

-- The fields of `LinearAddress4L`, by the level for which `part` and `setPart` take them.
abbrev pub Linear : Type 0
Linear = ℕ → ℕ

unfoldable pub part : Linear → ℕ → ℕ
part l level = if leb level 4 then l level else 0

unfoldable pub set_part : ℕ → ℕ → Linear → Linear
set_part level value l k =
    if k == level && leb level 4 then value % (if level == 0 then 2 ^ 12 else 2 ^ 9) else l k

-- `LinearAddress4L addr = {value}`
unfoldable pub linear : ℕ → Linear
linear value k = if k == 0 then value % 2 ^ 12 else value / 2 ^ (12 + 9 * (k - 1)) % 2 ^ 9

-- `for(int level = page_map_level - 1; level >= 1; level--) setPart(addr, level, 0);`
unfoldable pub clear_parts : ℕ → Linear → Linear
clear_parts zero l = l
clear_parts (suc zero) l = l
clear_parts (suc (suc level)) l = clear_parts (suc level) (set_part (suc level) 0 l)

-- The bit fields of `PML4E`: bit `k` is set to `b`, and the address is 40 bits from bit 12 on.
unfoldable pub with_bit : ℕ → Bool → ℕ → ℕ
with_bit k b e = e - e / 2 ^ k % 2 * 2 ^ k + (if b then 2 ^ k else 0)

abbrev pub addr_of : ℕ → ℕ
addr_of e = e / 2 ^ 12 % 2 ^ 40

unfoldable pub with_addr : ℕ → ℕ → ℕ
with_addr a e = e - addr_of e * 2 ^ 12 + a % 2 ^ 40 * 2 ^ 12

unfoldable pub pointer : ℕ → ℕ
pointer e = p2v (addr_of e * 2 ^ 12)

-- What the functions change: the memory and the allocator.
pub record Vm (S : Type 0) : Type 0 where
  pub words : Words
  pub pool : S

-- `failed` is -1.
pub data Outcome : Type 0 where
  done : (num_pages : ℕ) → Outcome
  failed : Outcome
  out_of_fuel : Outcome

-- `actual_init_paging`: the mapping of the low addresses is taken back.
unfoldable pub actual_init_paging : {S : Type 0} → ℕ → Vm S → Vm S
actual_init_paging cr3 vm = record vm { words = put (p2v cr3) 0 0 vm.words }

module _ {S : Type 0} (alloc_mem : S → ℕ × S) where
  unfoldable pub store : ℕ → ℕ → Vm S → Vm S
  store entry e vm = record vm { words = put entry 0 e vm.words }

  -- 0 is NULL.
  unfoldable pub new_page_map : Vm S → ℕ × Vm S
  new_page_map vm =
      let (e, pool) = alloc_mem vm.pool in
      if e == 0
      then (0, record vm { pool = pool })
      else (e, record { words = clear e 1 vm.words; pool = pool })

  unfoldable pub set_new_page_map_if_not_present : ℕ → Vm S → ℕ × Vm S
  set_new_page_map_if_not_present entry vm =
      let (child_map, vm') = new_page_map vm in
      if entry == 0
      then (0, vm)
      else if (vm.words entry % 2) == 1
      then (pointer (vm.words entry), vm)
      else if child_map == 0
      then (0, vm')
      else (
        child_map,
        store entry (with_bit 0 true (with_addr (v2p child_map / 2 ^ 12) (vm'.words entry))) vm',
      )

  abbrev pub Result : Type 0
  Result = Outcome × Linear × Vm S

  -- What follows the mapping below an entry: the end of the loop, or its other rounds.
  abbrev pub go_on : ℕ → ℕ → Result → (Linear → ℕ → Vm S → Result) → Result
  go_on level entry_index (done num_pages, addr, vm) rest =
      if entry_index == 511
      then (done num_pages, addr, vm)
      else rest (clear_parts level (set_part level (entry_index + 1) addr)) num_pages vm
  go_on level entry_index (failed, addr, vm) rest = (failed, addr, vm)
  go_on level entry_index (out_of_fuel, addr, vm) rest = (out_of_fuel, addr, vm)

  -- The loop of `setupPageMap`; `below` is what it does with the map that an entry points to.
  unfoldable pub setup_loop :
      (below : ℕ → Linear → ℕ → Vm S → Result) → ℕ → ℕ → Bool → ℕ → Linear → ℕ → Vm S → Result
  setup_loop below level page_map rw zero addr num_pages vm =
      (if num_pages == 0 then done 0 else out_of_fuel, addr, vm)
  setup_loop below level page_map rw (suc fuel) addr num_pages vm =
      let entry_index = part addr level in
      let entry = page_map + 8 * entry_index in
      let (child_map, vm1) = set_new_page_map_if_not_present entry vm in
      let vm2 = store entry (with_bit 2 true (with_bit 1 rw (vm1.words entry))) vm1 in
      if num_pages == 0
      then (done 0, addr, vm)
      else if child_map == 0
      then (failed, addr, vm1)
      else go_on level entry_index (below child_map addr num_pages vm2)
          (setup_loop below level page_map rw fuel)

  -- `setupPageMap`. Below the last level an entry is a page, and `num_pages--` counts it.
  unfoldable pub setup_page_map : ℕ → Bool → ℕ → Linear → ℕ → Vm S → Result
  setup_page_map zero rw page_map addr num_pages vm = (done (num_pages - 1), addr, vm)
  setup_page_map (suc level) rw page_map addr num_pages vm =
      setup_loop (setup_page_map level rw) (suc level) page_map rw 512 addr num_pages vm

  -- `cr3` is the register that holds the physical address of the PML4.
  unfoldable pub setup_page_maps : ℕ → Linear → ℕ → Bool → Vm S → Result
  setup_page_maps cr3 addr num_pages rw vm = setup_page_map 4 rw (p2v cr3) addr num_pages vm

  -- `do_page_fault` of kernel/exception.c; `none` is the endless loop behind its message.
  unfoldable pub do_page_fault : (error cr2 cr3 brk : ℕ) → Vm S → Option (Vm S)
  do_page_fault error cr2 cr3 brk vm =
      let (outcome, addr, vm') = setup_page_maps cr3 (linear cr2) 1 true vm in
      if bit_and error 0x01 == 0
      then some (if leb brk cr2 && leb cr2 0x7fffffffe000 then vm' else vm)
      else none
