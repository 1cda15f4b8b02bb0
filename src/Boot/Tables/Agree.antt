-- ===== src/Boot/Tables/Agree.antt =====
-- The tables of boot/boot.c map the kernel where `_v2p` of kernel/paging.c says.
use vimos_minimal.Base.{
  ◌⊎◌, inl, inr, ℕ, ◌+◌, ◌-◌, ◌*◌, ◌/◌, ◌%◌, ◌^◌, ◌≤◌, ◌<◌, ◌≡◌, ap, ◌∙◌, some, arith, nat_cases,
}
use vimos_minimal.Layout.{kernel_mapping, page_offset, v2p, v2p_lem}
use vimos_minimal.Boot.Tables.{Words, Tables, huge_entry, kernel_entry, base_addr, build_tables}
use vimos_minimal.Boot.Tables.Walk.{selected, translate, translate-small, translate-large}
use vimos_minimal.Boot.Tables.Map.{
  IsAllocated, m5, pml4-kept, pml4-entries, kernel_pdp-first, kernel_page_directory-entry,
  kernel_page_table-entry, kernel_pdp-entry, actual_page_directory-entry, kernel_pdp2-entry,
  actual_page_directory2-entry, pdp-entry, page_directory-entry,
}

module _ {t : Tables} (v : IsAllocated t) (m0 : Words) where
  kernel-translate :
      (a : ℕ)
      → kernel_mapping ≤ a
      → a < kernel_mapping + 2 ^ 25
      → translate t.pml4 (m5 v m0) a ≡ some (a - kernel_mapping + 0x100000)
  unfolding kernel_entry
  kernel-translate a lo hi =
      let i = (a - kernel_mapping) / 2 ^ 21 in
      let j = (a - kernel_mapping) / 2 ^ 12 % 512 in
      let at4 : selected 39 t.pml4 a ≡ t.pml4 + 8 * 256 = omega arith in
      let at3 : selected 30 t.kernel_pdp a ≡ t.kernel_pdp + 8 * 0 = omega arith in
      let at2 : selected 21 t.kernel_page_directory a ≡ t.kernel_page_directory + 8 * i =
        omega arith in
      let table = t.kernel_page_table + 8 * (i * 512) in
      let at1 : selected 12 table a ≡ t.kernel_page_table + 8 * (i * 512 + j) = omega arith in
      let al5 = v.aligned 5 (omega arith) in
      let al7 = v.aligned 7 (omega arith) in
      let al8 = v.aligned 8 (omega arith) in
      let in5 = v.inside 5 (omega arith) in
      let in7 = v.inside 7 (omega arith) in
      let in8 = v.inside 8 (omega arith) in
      translate-small (m5 v m0) t.pml4 t.kernel_pdp t.kernel_page_directory a al5 (omega arith) al7
        (omega arith)
        (ap (m5 v m0) at4 ∙ (pml4-kept v m0 256 (omega arith) ∙ (pml4-entries v m0).1))
        (ap (m5 v m0) at3 ∙ kernel_pdp-first v m0) table (0x100000 + i * 4096 * 512 + j * 4096)
        (omega arith) (omega arith) (omega arith) (omega arith)
        (ap (m5 v m0) at2 ∙ kernel_page_directory-entry v m0 i (omega arith))
        (ap (m5 v m0) at1 ∙ kernel_page_table-entry v m0 i j (omega arith) (omega arith))
      ∙ ap some (omega arith)

  window-translate :
      (a : ℕ)
      → page_offset ≤ a
      → a < page_offset + 128 * 2 ^ 30
      → translate t.pml4 (m5 v m0) a ≡ some (a - page_offset)
  unfolding huge_entry
  window-translate a lo hi =
      let i = (a - page_offset) / 2 ^ 30 in
      let j = (a - page_offset) / 2 ^ 21 % 512 in
      let at4 : selected 39 t.pml4 a ≡ t.pml4 + 8 * 256 = omega arith in
      let at3 : selected 30 t.kernel_pdp a ≡ t.kernel_pdp + 8 * (384 + i) = omega arith in
      let directory = t.actual_page_directory + 8 * (i * 512) in
      let at2 : selected 21 directory a ≡ t.actual_page_directory + 8 * (i * 512 + j) =
        omega arith in
      let al3 = v.aligned 5 (omega arith) in
      let al2 = v.aligned 3 (omega arith) in
      let in3 = v.inside 5 (omega arith) in
      let in2 = v.inside 3 (omega arith) in
      translate-large (m5 v m0) t.pml4 t.kernel_pdp directory a al3 (omega arith) (omega arith)
        (omega arith)
        (ap (m5 v m0) at4 ∙ (pml4-kept v m0 256 (omega arith) ∙ (pml4-entries v m0).1))
        (ap (m5 v m0) at3 ∙ kernel_pdp-entry v m0 i (omega arith))
        (0 + i * 512 * 512 * 4096 + j * 512 * 4096) (omega arith) (omega arith)
        (ap (m5 v m0) at2 ∙ actual_page_directory-entry v m0 i j (omega arith) (omega arith))
      ∙ ap some (omega arith)

  window2-translate :
      (a : ℕ)
      → page_offset + 128 * 2 ^ 30 ≤ a
      → a < page_offset + 128 * 2 ^ 30 + 512 * 2 ^ 30
      → translate t.pml4 (m5 v m0) a ≡ some (a - page_offset)
  unfolding huge_entry
  window2-translate a lo hi =
      let i = (a - (page_offset + 128 * 2 ^ 30)) / 2 ^ 30 in
      let j = (a - (page_offset + 128 * 2 ^ 30)) / 2 ^ 21 % 512 in
      let at4 : selected 39 t.pml4 a ≡ t.pml4 + 8 * 257 = omega arith in
      let at3 : selected 30 t.kernel_pdp2 a ≡ t.kernel_pdp2 + 8 * i = omega arith in
      let directory = t.actual_page_directory2 + 8 * (i * 512) in
      let at2 : selected 21 directory a ≡ t.actual_page_directory2 + 8 * (i * 512 + j) =
        omega arith in
      let al3 = v.aligned 6 (omega arith) in
      let al2 = v.aligned 4 (omega arith) in
      let in3 = v.inside 6 (omega arith) in
      let in2 = v.inside 4 (omega arith) in
      translate-large (m5 v m0) t.pml4 t.kernel_pdp2 directory a al3 (omega arith) (omega arith)
        (omega arith)
        (ap (m5 v m0) at4 ∙ (pml4-kept v m0 257 (omega arith) ∙ (pml4-entries v m0).2))
        (ap (m5 v m0) at3 ∙ kernel_pdp2-entry v m0 i (omega arith))
        (base_addr + i * 512 * 512 * 4096 + j * 512 * 4096) (omega arith) (omega arith)
        (ap (m5 v m0) at2 ∙ actual_page_directory2-entry v m0 i j (omega arith) (omega arith))
      ∙ ap some (omega arith)

  identity-translate :
      (a : ℕ) → 0 ≤ a → a < 0 + 128 * 2 ^ 30 → translate t.pml4 (m5 v m0) a ≡ some (a)
  unfolding huge_entry
  identity-translate a lo hi =
      let i = (a - 0) / 2 ^ 30 in
      let j = (a - 0) / 2 ^ 21 % 512 in
      let at4 : selected 39 t.pml4 a ≡ t.pml4 + 8 * 0 = omega arith in
      let at3 : selected 30 t.pdp a ≡ t.pdp + 8 * i = omega arith in
      let directory = t.page_directory + 8 * (i * 512) in
      let at2 : selected 21 directory a ≡ t.page_directory + 8 * (i * 512 + j) = omega arith in
      let al3 = v.aligned 1 (omega arith) in
      let al2 = v.aligned 2 (omega arith) in
      let in3 = v.inside 1 (omega arith) in
      let in2 = v.inside 2 (omega arith) in
      translate-large (m5 v m0) t.pml4 t.pdp directory a al3 (omega arith) (omega arith)
        (omega arith) (ap (m5 v m0) at4 ∙ (pml4-kept v m0 0 (omega arith) ∙ (pml4-entries v m0).0))
        (ap (m5 v m0) at3 ∙ pdp-entry v m0 i (omega arith))
        (0 + i * 512 * 512 * 4096 + j * 512 * 4096) (omega arith) (omega arith)
        (ap (m5 v m0) at2 ∙ page_directory-entry v m0 i j (omega arith) (omega arith))
      ∙ ap some (omega arith)

  -- The 32 MB of the kernel's image, or the 640 GB of the window of physical memory.
  abbrev pub IsMapped : ℕ → Type 0
  IsMapped a =
      ((kernel_mapping ≤ a) × (a < kernel_mapping + 2 ^ 25))
      ⊎ ((page_offset ≤ a) × (a < page_offset + 640 * 2 ^ 30))

  -- Where the firmware granted the pages of the tables, whatever they held before: the processor
  -- translates every address of the kernel's image and of the window of physical memory to the
  -- address that `_v2p` computes.
  pub build_tables-v2p :
      (a : ℕ) → IsMapped a → translate t.pml4 (build_tables t m0) a ≡ some (v2p a)
  unfolding build_tables
  build_tables-v2p a (inl (lo, hi)) =
      let e = v2p_lem a lo (omega arith) in kernel-translate a lo hi ∙ ap some (ground arith)
  build_tables-v2p a (inr (lo, hi)) =
      let e = v2p_lem a (omega arith) (omega arith) in
      elim (nat_cases a (page_offset + 128 * 2 ^ 30)) [
        | inl less ↦ window-translate a lo less ∙ ap some (ground arith)
        | inr (inl same) ↦ window2-translate a (omega arith) (omega arith) ∙ ap some (ground arith)
        | inr (inr more) ↦ window2-translate a (omega arith) (omega arith) ∙ ap some (ground arith)
      ]

  -- Whatever the tables' pages held before: where the firmware granted the pages of the tables, the
  -- processor translates every address below 128 GB to itself through the tables that BootMain
  -- builds.
  pub build_tables-identity :
      (a : ℕ) → a < 128 * 2 ^ 30 → translate t.pml4 (build_tables t m0) a ≡ some a
  unfolding build_tables
  build_tables-identity a h = identity-translate a (omega arith) (omega arith)
