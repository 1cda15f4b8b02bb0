-- ===== src/Boot/Tables/Map.antt =====
-- What the tables of boot/boot.c map.
use vimos_minimal.Base.{
  ◌⊎◌, ℕ, ◌+◌, ◌*◌, ◌%◌, ◌^◌, ◌≤◌, ◌<◌, bit_or, ◌≡◌, refl, ◌∙◌, ◌≢◌, arith, ◌==◌, if◌then◌else◌,
}
use vimos_minimal.Boot.Tables.{
  Words, put, Tables, clear_tables, huge_entry, kernel_entry, set_pml4, map_identity, map_kernel,
  map_window, base_addr, map_window2,
}
use vimos_minimal.Boot.Tables.Fill.{map_pages-Outside, map_pages-directory, map_pages-table}

-- The allocations, by number: where each starts, and its pages.
abbrev pub start : Tables → ℕ → ℕ
start t r =
    if r == 0
    then t.pml4
    else if r == 1
    then t.pdp
    else if r == 2
    then t.page_directory
    else if r == 3
    then t.actual_page_directory
    else if r == 4
    then t.actual_page_directory2
    else if r == 5
    then t.kernel_pdp
    else if r == 6
    then t.kernel_pdp2
    else if r == 7
    then t.kernel_page_directory
    else t.kernel_page_table

abbrev pub pages : ℕ → ℕ
pages r =
    if r == 2 then 128 else if r == 3 then 128 else if r == 4 then 512 else if r == 8 then 16 else 1

-- What the firmware's `AllocatePages` grants: whole pages, below the limit of an entry's address,
-- and no page twice.
pub record IsAllocated (t : Tables) : Type 0 where
  pub aligned : (r : ℕ) → r < 9 → start t r % 4096 ≡ 0
  pub inside : (r : ℕ) → r < 9 → start t r + 4096 * pages r ≤ 2 ^ 52
  pub apart :
      (r s : ℕ)
      → r < 9
      → s < 9
      → r ≢ s
      → (start t r + 4096 * pages r ≤ start t s) ⊎ (start t s + 4096 * pages s ≤ start t r)

module _ {t : Tables} (v : IsAllocated t) (m0 : Words) where
  abbrev Within : ℕ → ℕ → Type 0
  Within r a = (start t r ≤ a) × (a < start t r + 4096 * pages r)

  abbrev pub m1 : Words
  m1 = set_pml4 t (clear_tables t m0)

  abbrev pub m2 : Words
  m2 = map_identity t m1

  abbrev pub m3 : Words
  m3 = map_kernel t m2

  abbrev pub m4 : Words
  m4 = map_window t m3

  abbrev pub m5 : Words
  m5 = map_window2 t m4

  -- What each step leaves alone.
  kept5 : (r a : ℕ) → r < 9 → r ≢ 6 → r ≢ 4 → Within r a → m5 a ≡ m4 a
  unfolding map_window2
  kept5 r a h n6 n4 w =
      let d6 = v.apart r 6 h (omega arith) n6 in
      let d4 = v.apart r 4 h (omega arith) n4 in
      map_pages-Outside t.kernel_pdp2 0 t.actual_page_directory2 (huge_entry base_addr) 512 m4 a
        (omega arith) (omega arith)

  kept4 : (r a : ℕ) → r < 9 → r ≢ 5 → r ≢ 3 → Within r a → m4 a ≡ m3 a
  unfolding map_window
  kept4 r a h n5 n3 w =
      let d5 = v.apart r 5 h (omega arith) n5 in
      let d3 = v.apart r 3 h (omega arith) n3 in
      map_pages-Outside t.kernel_pdp 384 t.actual_page_directory (huge_entry 0) 128 m3 a
        (omega arith) (omega arith)

  kept3 : (r a : ℕ) → r < 9 → r ≢ 7 → r ≢ 8 → r ≢ 5 → Within r a → m3 a ≡ m2 a
  unfolding map_kernel put
  kept3 r a h n7 n8 n5 w =
      let d7 = v.apart r 7 h (omega arith) n7 in
      let d8 = v.apart r 8 h (omega arith) n8 in
      let d5 = v.apart r 5 h (omega arith) n5 in
      map_pages-Outside t.kernel_page_directory 0 t.kernel_page_table kernel_entry 16
        (put t.kernel_pdp 0 (bit_or t.kernel_page_directory 3) m2) a (omega arith) (omega arith)
      ∙ ground arith

  kept2 : (r a : ℕ) → r < 9 → r ≢ 1 → r ≢ 2 → Within r a → m2 a ≡ m1 a
  unfolding map_identity
  kept2 r a h n1 n2 w =
      let d1 = v.apart r 1 h (omega arith) n1 in
      let d2 = v.apart r 2 h (omega arith) n2 in
      map_pages-Outside t.pdp 0 t.page_directory (huge_entry 0) 128 m1 a (omega arith) (omega arith)

  -- The first table.
  pub pml4-kept : (i : ℕ) → i < 512 → m5 (t.pml4 + 8 * i) ≡ m1 (t.pml4 + 8 * i)
  pml4-kept i h =
      kept5 0 _ (omega arith) (ground arith) (ground arith) (omega arith)
      ∙ kept4 0 _ (omega arith) (ground arith) (ground arith) (omega arith)
      ∙ kept3 0 _ (omega arith) (ground arith) (ground arith) (ground arith) (omega arith)
      ∙ kept2 0 _ (omega arith) (ground arith) (ground arith) (omega arith)

  pub pml4-entries :
      (m1 (t.pml4 + 8 * 0) ≡ bit_or t.pdp 3)
      × (m1 (t.pml4 + 8 * 256) ≡ bit_or t.kernel_pdp 3)
      × (m1 (t.pml4 + 8 * 257) ≡ bit_or t.kernel_pdp2 3)
  unfolding set_pml4 put
  pml4-entries = (ground arith, ground arith, ground arith)

  -- The tables of the kernel's image.
  pub kernel_pdp-first : m5 (t.kernel_pdp + 8 * 0) ≡ bit_or t.kernel_page_directory 3
  unfolding map_window map_kernel put
  kernel_pdp-first =
      let a = t.kernel_pdp + 8 * 0 in
      let d3 = v.apart 5 3 (omega arith) (omega arith) (ground arith) in
      let d7 = v.apart 5 7 (omega arith) (omega arith) (ground arith) in
      let d8 = v.apart 5 8 (omega arith) (omega arith) (ground arith) in
      kept5 5 a (omega arith) (ground arith) (ground arith) (omega arith)
      ∙ map_pages-Outside t.kernel_pdp 384 t.actual_page_directory (huge_entry 0) 128 m3 a
          (omega arith) (omega arith)
      ∙ map_pages-Outside t.kernel_page_directory 0 t.kernel_page_table kernel_entry 16
          (put t.kernel_pdp 0 (bit_or t.kernel_page_directory 3) m2) a (omega arith) (omega arith)
      ∙ ground arith

  pub kernel_page_directory-entry :
      (i : ℕ)
      → i < 16
      → m5 (t.kernel_page_directory + 8 * i) ≡ bit_or (t.kernel_page_table + 8 * (i * 512)) 3
  unfolding map_kernel
  kernel_page_directory-entry i h =
      let a = t.kernel_page_directory + 8 * i in
      let d8 = v.apart 7 8 (omega arith) (omega arith) (ground arith) in
      kept5 7 a (omega arith) (ground arith) (ground arith) (omega arith)
      ∙ kept4 7 a (omega arith) (ground arith) (ground arith) (omega arith)
      ∙ map_pages-directory t.kernel_page_directory 0 t.kernel_page_table kernel_entry 16
          (put t.kernel_pdp 0 (bit_or t.kernel_page_directory 3) m2) i a (omega arith) h
          (omega arith)

  pub kernel_page_table-entry :
      (i j : ℕ) → i < 16 → j < 512 → m5 (t.kernel_page_table + 8 * (i * 512 + j)) ≡ kernel_entry i j
  unfolding map_kernel
  kernel_page_table-entry i j h l =
      let a = t.kernel_page_table + 8 * (i * 512 + j) in
      let d8 = v.apart 7 8 (omega arith) (omega arith) (ground arith) in
      kept5 8 a (omega arith) (ground arith) (ground arith) (omega arith)
      ∙ kept4 8 a (omega arith) (ground arith) (ground arith) (omega arith)
      ∙ map_pages-table t.kernel_page_directory 0 t.kernel_page_table kernel_entry 16
          (put t.kernel_pdp 0 (bit_or t.kernel_page_directory 3) m2) i j a (omega arith) h l refl

  -- The two halves of the window.
  pub kernel_pdp-entry :
      (i : ℕ)
      → i < 128
      → m5 (t.kernel_pdp + 8 * (384 + i)) ≡ bit_or (t.actual_page_directory + 8 * (i * 512)) 3
  unfolding map_window
  kernel_pdp-entry i h =
      let a = t.kernel_pdp + 8 * (384 + i) in
      let d3 = v.apart 5 3 (omega arith) (omega arith) (ground arith) in
      kept5 5 a (omega arith) (ground arith) (ground arith) (omega arith)
      ∙ map_pages-directory t.kernel_pdp 384 t.actual_page_directory (huge_entry 0) 128 m3 i a
          (omega arith) h refl

  pub actual_page_directory-entry :
      (i j : ℕ)
      → i < 128
      → j < 512
      → m5 (t.actual_page_directory + 8 * (i * 512 + j)) ≡ huge_entry 0 i j
  unfolding map_window
  actual_page_directory-entry i j h l =
      let a = t.actual_page_directory + 8 * (i * 512 + j) in
      let d3 = v.apart 5 3 (omega arith) (omega arith) (ground arith) in
      kept5 3 a (omega arith) (ground arith) (ground arith) (omega arith)
      ∙ map_pages-table t.kernel_pdp 384 t.actual_page_directory (huge_entry 0) 128 m3 i j a
          (omega arith) h l refl

  pub kernel_pdp2-entry :
      (i : ℕ)
      → i < 512
      → m5 (t.kernel_pdp2 + 8 * i) ≡ bit_or (t.actual_page_directory2 + 8 * (i * 512)) 3
  unfolding map_window2
  kernel_pdp2-entry i h =
      let d4 = v.apart 6 4 (omega arith) (omega arith) (ground arith) in
      map_pages-directory t.kernel_pdp2 0 t.actual_page_directory2 (huge_entry base_addr) 512 m4 i
        (t.kernel_pdp2 + 8 * i) (omega arith) h (omega arith)

  pub actual_page_directory2-entry :
      (i j : ℕ)
      → i < 512
      → j < 512
      → m5 (t.actual_page_directory2 + 8 * (i * 512 + j)) ≡ huge_entry base_addr i j
  unfolding map_window2
  actual_page_directory2-entry i j h l =
      let d4 = v.apart 6 4 (omega arith) (omega arith) (ground arith) in
      map_pages-table t.kernel_pdp2 0 t.actual_page_directory2 (huge_entry base_addr) 512 m4 i j
        (t.actual_page_directory2 + 8 * (i * 512 + j)) (omega arith) h l refl

  -- The tables of low memory.
  pub pdp-entry :
      (i : ℕ) → i < 128 → m5 (t.pdp + 8 * i) ≡ bit_or (t.page_directory + 8 * (i * 512)) 3
  unfolding map_identity
  pdp-entry i h =
      let a = t.pdp + 8 * i in
      let d2 = v.apart 1 2 (omega arith) (omega arith) (ground arith) in
      kept5 1 a (omega arith) (ground arith) (ground arith) (omega arith)
      ∙ kept4 1 a (omega arith) (ground arith) (ground arith) (omega arith)
      ∙ kept3 1 a (omega arith) (ground arith) (ground arith) (ground arith) (omega arith)
      ∙ map_pages-directory t.pdp 0 t.page_directory (huge_entry 0) 128 m1 i a (omega arith) h
          (omega arith)

  pub page_directory-entry :
      (i j : ℕ) → i < 128 → j < 512 → m5 (t.page_directory + 8 * (i * 512 + j)) ≡ huge_entry 0 i j
  unfolding map_identity
  page_directory-entry i j h l =
      let a = t.page_directory + 8 * (i * 512 + j) in
      let d2 = v.apart 1 2 (omega arith) (omega arith) (ground arith) in
      kept5 2 a (omega arith) (ground arith) (ground arith) (omega arith)
      ∙ kept4 2 a (omega arith) (ground arith) (ground arith) (omega arith)
      ∙ kept3 2 a (omega arith) (ground arith) (ground arith) (ground arith) (omega arith)
      ∙ map_pages-table t.pdp 0 t.page_directory (huge_entry 0) 128 m1 i j a (omega arith) h l refl
