-- ===== src/Boot/Elf.antt =====
-- Loading of the kernel's file: `memcpy`, `memset`, `CalcLoadAddressRange` and `CopyLoadSegments` of
-- boot/boot.c. The program headers are the list that `e_phoff` and `e_phnum` describe.
pub mod Bytes
pub mod Load
pub mod Range
use vimos_minimal.Base.{
  ◌⊎◌, ◌↔◌, inl, inr, ℕ, zero, suc, ◌+◌, ◌-◌, ◌*◌, ◌/◌, ◌%◌, ◌^◌, ◌≤◌, ◌<◌, min, max, bit_and,
  bit_or, bit_xor, ◌≡◌, refl, sym, ap, ◌∙◌, ◌≢◌, Bool, true, false, ◌&&◌, ◌||◌, not, Option, none,
  some, List, [], ◌∷◌, ◌++◌, map, arith, ltb, leb, ◌==◌, if◌then◌else◌, ltb→lt, lt→ltb, le→ltb,
  leb→le, ==_iff, ==_refl, Bool-cases, nat_cases, length, get_elem?, get_or, set, take, drop,
  replicate, length-append, length-replicate, length-set, get_or-set_self, get_or-set_ne,
  get_or-append_left, get_or-append_right, get_or-append_last, get_or-replicate, u8, u16, u32, u64,
  sub32, sub64,
}
use vimos_minimal.Layout.{kernel_mapping}

-- Memory as bytes, by their addresses.
abbrev pub Bytes : Type 0
Bytes = ℕ → ℕ

unfoldable pub put : ℕ → ℕ → Bytes → Bytes
put x v m a = if a == x then v else m a

-- `while(n--) *(x++) = *(y++);`
unfoldable pub memcpy : ℕ → ℕ → ℕ → Bytes → Bytes
memcpy x y zero m = m
memcpy x y (suc n) m = memcpy (x + 1) (y + 1) n (put x (m y) m)

unfoldable pub memset : ℕ → ℕ → ℕ → Bytes → Bytes
memset s ch zero m = m
memset s ch (suc n) m = memset (s + 1) ch n (put s (u8 ch) m)

-- The fields of `Elf_Phdr` that are read.
pub record Phdr : Type 0 where
  pub p_type : ℕ
  pub p_offset : ℕ
  pub p_vaddr : ℕ
  pub p_filesz : ℕ
  pub p_memsz : ℕ

abbrev pub is_load : Phdr → Bool
is_load ph = ph.p_type == 1

-- The loop of `CalcLoadAddressRange`, over `*start` and `*end`.
unfoldable pub range_loop : List Phdr → ℕ → ℕ → ℕ × ℕ
range_loop [] start end = (start, end)
range_loop (ph ∷ phs) start end =
    range_loop phs (if is_load ph then min start ph.p_vaddr else start)
      (if is_load ph then max end (u64 (ph.p_vaddr + ph.p_memsz)) else end)

-- "convert physical addr"
unfoldable pub physical : ℕ → ℕ
physical addr = u64 (sub64 addr kernel_mapping + 0x100000)

unfoldable pub calc_load_address_range : List Phdr → ℕ × ℕ
calc_load_address_range phs =
    let (start, end) = range_loop phs (2 ^ 64 - 1) 0 in (physical start, physical end)

-- One segment of the file at `ehdr`: what the file holds, and zeros behind it.
unfoldable pub copy_segment : ℕ → Phdr → Bytes → Bytes
copy_segment ehdr ph m =
    let vaddr = physical ph.p_vaddr in
    let segm_in_file = u64 (ehdr + ph.p_offset) in
    memset (u64 (vaddr + ph.p_filesz)) 0 (sub64 ph.p_memsz ph.p_filesz)
      (memcpy vaddr segm_in_file ph.p_filesz m)

unfoldable pub copy_load_segments : ℕ → List Phdr → Bytes → Bytes
copy_load_segments ehdr [] m = m
copy_load_segments ehdr (ph ∷ phs) m =
    copy_load_segments ehdr phs (if is_load ph then copy_segment ehdr ph m else m)
