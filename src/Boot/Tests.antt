-- ===== src/Boot/Tests.antt =====
-- The loader at concrete inputs.
use vimos_minimal.Base.{
  inl, inr, ℕ, ◌+◌, ◌*◌, ◌%◌, ◌^◌, ◌≤◌, ◌<◌, ◌≡◌, refl, some, List, [], ◌∷◌, arith, nat_cases,
}
use vimos_minimal.Layout.{kernel_mapping, v2p}
use vimos_minimal.Boot.Elf.{Phdr, range_loop, physical, calc_load_address_range, copy_load_segments}
use vimos_minimal.Boot.Elf.Load.{AllSound}
use vimos_minimal.Boot.Elf.Range.{IsLoaded, copy_load_segments-range, copy_load_segments-IsLoaded}
use vimos_minimal.Boot.Tables.{Words, Tables, build_tables}
use vimos_minimal.Boot.Tables.Walk.{translate}
use vimos_minimal.Boot.Tables.Map.{start, pages, IsAllocated}
use vimos_minimal.Boot.Tables.Agree.{build_tables-v2p, build_tables-identity}

-- The pages one behind the other.
abbrev low_tables : Tables
low_tables = record {
  pml4 = 0x1000;
  pdp = 0x2000;
  page_directory = 0x3000;
  actual_page_directory = 0x8_3000;
  actual_page_directory2 = 0x10_3000;
  kernel_pdp = 0x30_3000;
  kernel_pdp2 = 0x30_4000;
  kernel_page_directory = 0x30_5000;
  kernel_page_table = 0x30_6000;
}

low_tables-aligned : (r : ℕ) → r < 9 → start low_tables r % 4096 ≡ 0
low_tables-aligned r h = ground arith

low_tables-inside : (r : ℕ) → r < 9 → start low_tables r + 4096 * pages r ≤ 2 ^ 52
low_tables-inside r h = ground arith

low_tables_order :
    (r s : ℕ) → r < s → s < 9 → start low_tables r + 4096 * pages r ≤ start low_tables s
low_tables_order r s h b = ground arith

low_tables-IsAllocated : IsAllocated low_tables
low_tables-IsAllocated = record {
  aligned = low_tables-aligned;
  inside = low_tables-inside;
  apart = λ r s hr hs ne. elim (nat_cases r s) [
    | inl less ↦ inl (low_tables_order r s less hs)
    | inr (inl same) ↦ absurd (ne same)
    | inr (inr more) ↦ inr (low_tables_order s r more hr)
  ];
}

abbrev blank : Words
blank a = 0

build_tables-identity_example :
    translate 0x1000 (build_tables low_tables blank) 0x12_3456_7890 ≡ some 0x12_3456_7890
build_tables-identity_example =
    build_tables-identity low_tables-IsAllocated blank 0x12_3456_7890 (omega arith)

build_tables-v2p_example :
    translate 0x1000 (build_tables low_tables blank) 0xffff_80a0_1234_5678
    ≡ some (v2p 0xffff_80a0_1234_5678)
build_tables-v2p_example =
    build_tables-v2p low_tables-IsAllocated blank 0xffff_80a0_1234_5678
      (inr (omega arith, omega arith))

-- A file of 0x100 bytes at 0x9_0000, with a note and two segments.
abbrev headers : List Phdr
headers =
    record {
      p_type = 1;
      p_offset = 0x40;
      p_vaddr = kernel_mapping;
      p_filesz = 0x20;
      p_memsz = 0x30;
    }
    ∷ record { p_type = 4; p_offset = 0; p_vaddr = 0; p_filesz = 8; p_memsz = 8 }
    ∷ record {
      p_type = 1;
      p_offset = 0x60;
      p_vaddr = kernel_mapping + 0x1000;
      p_filesz = 0x10;
      p_memsz = 0x1000;
    }
    ∷ []

headers-AllSound : AllSound 0x9_0000 0x100 headers
headers-AllSound = (λ u. omega arith, (λ u. cc, (λ u. omega arith, tt)))

copy_load_segments-range_example :
    copy_load_segments 0x9_0000 headers blank 0x10_2000 ≡ blank 0x10_2000
unfolding calc_load_address_range range_loop physical
copy_load_segments-range_example =
    copy_load_segments-range 0x9_0000 0x100 headers blank 0x10_2000 headers-AllSound (inl refl)
      (inr (omega arith))

copy_load_segments-IsLoaded_example :
    IsLoaded 0x9_0000 blank (copy_load_segments 0x9_0000 headers blank) headers
copy_load_segments-IsLoaded_example =
    copy_load_segments-IsLoaded 0x9_0000 0x100 headers blank headers-AllSound
      ((λ u. (omega arith, ((λ x. cc), (λ x. ((λ y. (omega arith, tt)), (λ y. tt)))))), (λ u. cc))
      ((λ u. omega arith), ((λ u. cc), ((λ u. omega arith), tt)))
