-- ===== src/Boot/Tables.antt =====
-- The page tables that `BootMain` of boot/boot.c builds for the kernel. The firmware's
-- `AllocatePages` is a parameter: the addresses that it returned.
pub mod Fill
pub mod Walk
pub mod Map
pub mod Agree
use vimos_minimal.Base.{
  ◌⊎◌, ◌↔◌, inl, inr, ℕ, zero, suc, ◌+◌, ◌-◌, ◌*◌, ◌/◌, ◌%◌, ◌^◌, ◌≤◌, ◌<◌, min, max, bit_and,
  bit_or, bit_xor, ◌≡◌, refl, sym, ap, ◌∙◌, ◌≢◌, Bool, true, false, ◌&&◌, ◌||◌, not, Option, none,
  some, List, [], ◌∷◌, ◌++◌, map, arith, ltb, leb, ◌==◌, if◌then◌else◌, ltb→lt, lt→ltb, le→ltb,
  leb→le, ==_iff, ==_refl, Bool-cases, nat_cases, length, get_elem?, get_or, set, take, drop,
  replicate, length-append, length-replicate, length-set, get_or-set_self, get_or-set_ne,
  get_or-append_left, get_or-append_right, get_or-append_last, get_or-replicate, u8, u16, u32, u64,
  sub32, sub64,
}

-- Memory as 64-bit words, by their physical addresses.
abbrev pub Words : Type 0
Words = ℕ → ℕ

-- An assignment to `table[index]`, where `table` is a `UINT64 *`.
unfoldable pub put : ℕ → ℕ → ℕ → Words → Words
put table index v m a = if a == table + 8 * index then v else m a

-- `for(uint64_t i = first; …; i++)` with `count` rounds.
unfoldable pub for_loop : ℕ → ℕ → (ℕ → Words → Words) → Words → Words
for_loop zero i body m = m
for_loop (suc count) i body m = for_loop count (i + 1) body (body i m)

-- The pages that the loader allocates for the tables.
pub record Tables : Type 0 where
  pub pml4 : ℕ
  pub pdp : ℕ
  pub page_directory : ℕ
  pub actual_page_directory : ℕ
  pub actual_page_directory2 : ℕ
  pub kernel_pdp : ℕ
  pub kernel_pdp2 : ℕ
  pub kernel_page_directory : ℕ
  pub kernel_page_table : ℕ

-- `memset(table, 0, 4096 * pages)`, word by word.
unfoldable pub clear : ℕ → ℕ → Words → Words
clear table pages = for_loop (512 * pages) 0 (λ i. put table i 0)

unfoldable pub clear_tables : Tables → Words → Words
clear_tables t m = clear t.kernel_page_table 16 (
    clear t.kernel_page_directory 1 (
      clear t.kernel_pdp2 1 (
        clear t.kernel_pdp 1 (
          clear t.actual_page_directory2 512 (
            clear t.actual_page_directory 128
              (clear t.page_directory 128 (clear t.pdp 1 (clear t.pml4 1 m))))))))

-- The entries of the page `i` of a table, `value i j` in place `j`.
unfoldable pub fill_page : ℕ → ℕ → (ℕ → ℕ) → Words → Words
fill_page table i value = for_loop 512 0 (λ j. put table (i * 512 + j) (value j))

-- One round of the outer loops: the entry of a directory leads to the page `i` of the table, and
-- that page is filled.
unfoldable pub map_round : ℕ → ℕ → ℕ → (ℕ → ℕ → ℕ) → ℕ → Words → Words
map_round directory first table value i m =
    fill_page table i (value i) (put directory (first + i) (bit_or (table + 8 * (i * 512)) 0x003) m)

unfoldable pub map_pages : ℕ → ℕ → ℕ → (ℕ → ℕ → ℕ) → ℕ → Words → Words
map_pages directory first table value count =
    for_loop count 0 (map_round directory first table value)

-- The entry of a 2 MB page: page `j` of the directory `i`, from the address `base` on.
unfoldable pub huge_entry : ℕ → ℕ → ℕ → ℕ
huge_entry base i j = bit_or (base + i * 512 * 512 * 4096 + j * 512 * 4096) 0x083

unfoldable pub kernel_entry : ℕ → ℕ → ℕ
kernel_entry i j = bit_or (0x100000 + i * 4096 * 512 + j * 4096) 0x003

unfoldable pub set_pml4 : Tables → Words → Words
set_pml4 t m =
    put t.pml4 257 (bit_or t.kernel_pdp2 0x003)
      (put t.pml4 256 (bit_or t.kernel_pdp 0x003) (put t.pml4 0 (bit_or t.pdp 0x003) m))

-- "physical mapping(128GB)"
unfoldable pub map_identity : Tables → Words → Words
map_identity t = map_pages t.pdp 0 t.page_directory (huge_entry 0) 128

-- "kernel mapping(32MB)"
unfoldable pub map_kernel : Tables → Words → Words
map_kernel t m =
    map_pages t.kernel_page_directory 0 t.kernel_page_table kernel_entry 16
      (put t.kernel_pdp 0 (bit_or t.kernel_page_directory 0x003) m)

-- "physical address mapping": the counter of the loop is 384 more than `index`.
unfoldable pub map_window : Tables → Words → Words
map_window t = map_pages t.kernel_pdp (512 - 128) t.actual_page_directory (huge_entry 0) 128

abbrev pub base_addr : ℕ
base_addr = 128 * (512 * 512 * 4096)

unfoldable pub map_window2 : Tables → Words → Words
map_window2 t = map_pages t.kernel_pdp2 0 t.actual_page_directory2 (huge_entry base_addr) 512

-- All of the tables, in the order of the code.
unfoldable pub build_tables : Tables → Words → Words
build_tables t m =
    map_window2 t (map_window t (map_kernel t (map_identity t (set_pml4 t (clear_tables t m)))))
