-- ===== src/Mem/Init.antt =====
-- `init_mem`: the free list from the memory map of the firmware.
pub mod Runs
pub mod Closed
pub mod Build
use vimos_minimal.Base.{
  ◌⊎◌, ◌↔◌, inl, inr, ℕ, zero, suc, ◌+◌, ◌-◌, ◌*◌, ◌/◌, ◌%◌, ◌^◌, ◌≤◌, ◌<◌, min, max, bit_and,
  bit_or, bit_xor, ◌≡◌, refl, sym, ap, ◌∙◌, ◌≢◌, Bool, true, false, ◌&&◌, ◌||◌, not, Option, none,
  some, List, [], ◌∷◌, ◌++◌, map, arith, ltb, leb, ◌==◌, if◌then◌else◌, ltb→lt, lt→ltb, le→ltb,
  leb→le, ==_iff, ==_refl, Bool-cases, nat_cases, length, get_elem?, get_or, set, take, drop,
  replicate, length-append, length-replicate, length-set, get_or-set_self, get_or-set_ne, u8, u16,
  u32, u64, sub32, sub64,
}
use vimos_minimal.Layout.{p2v}
use vimos_minimal.Mem.{
  Mem, Node, node, Ref, header, at, M, ◌>>=◌, ◌>>◌, pure, load, set_next, set_pages,
}
use vimos_minimal.Mem.Chain.{Blocks}

-- The fields of `EFI_MEMORY_DESCRIPTOR` that are read. The map is the list of the descriptors that
-- lie `descsize` bytes apart in the buffer of the firmware.
pub record Descriptor : Type 0 where
  pub type : ℕ
  pub physical_start : ℕ
  pub number_of_page : ℕ

-- `isUsableMemType`, whose parameter is a `uint16_t`.
unfoldable pub is_usable : ℕ → Bool
is_usable t = let t16 = u16 t in t16 == 1 || t16 == 2 || t16 == 3 || t16 == 4 || t16 == 7

-- The local variables `start`, `pages` and `cur_memlist`.
pub record Scan : Type 0 where
  pub start : ℕ
  pub pages : ℕ
  pub cur : Ref

-- A usable descriptor opens a run, or extends the one that it follows.
unfoldable pub extend : Descriptor → Scan → Scan
extend d s =
    let start = if s.start == 0 then d.physical_start else s.start in
    let pages = if s.start == 0 then d.number_of_page else s.pages in
    record {
      start = start;
      pages =
          if u64 (start + u64 (pages * 4096)) == d.physical_start
          then u64 (pages + d.number_of_page)
          else pages;
      cur = s.cur;
    }

-- `memlist.pages += pages`
unfoldable pub count_pages : ℕ → M (Unit {0})
unfolding load set_pages
count_pages pages = do n ← load header; set_pages header (u32 (n.pages + pages))

-- Any other descriptor ends the run.
unfoldable pub close : Scan → M Scan
unfolding set_next set_pages count_pages
close s = do
  let ml = p2v s.start
  set_next (at ml) 0
  set_pages (at ml) (u32 s.pages)
  count_pages s.pages
  set_next s.cur ml
  pure (record s { start = 0; cur = at ml })

unfoldable pub init_step : Descriptor → Scan → M Scan
unfolding is_usable extend close
init_step d s =
    if is_usable d.type then pure (extend d s) else if s.start == 0 then pure s else close s

unfoldable pub init_loop : List Descriptor → Scan → M (Unit {0})
unfolding init_step
init_loop [] s = pure tt
init_loop (d ∷ ds) s = do s' ← init_step d s; init_loop ds s'

unfoldable pub init_mem : List Descriptor → M (Unit {0})
unfolding init_loop
init_mem ds = init_loop ds (record { start = 0; pages = 0; cur = header })
