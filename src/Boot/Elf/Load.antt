-- ===== src/Boot/Elf/Load.antt =====
-- Where `CopyLoadSegments` of boot/boot.c writes, and what it leaves there.
use vimos_minimal.Base.{
  ◌⊎◌, inl, inr, ℕ, ◌+◌, ◌-◌, ◌^◌, ◌≤◌, ◌<◌, ◌≡◌, refl, ◌∙◌, true, List, [], ◌∷◌, arith, ltb,
  if◌then◌else◌, Bool-cases, u64, sub64,
}
use vimos_minimal.Layout.{kernel_mapping}
use vimos_minimal.Boot.Elf.{Bytes, Phdr, is_load, physical, copy_segment, copy_load_segments}
use vimos_minimal.Boot.Elf.Bytes.{memcpy-outside, memcpy-inside, memset-outside, memset-inside}

-- The physical address of a byte of the kernel's image.
abbrev pub place : ℕ → ℕ
place vaddr = vaddr - kernel_mapping + 0x100000

-- A segment in the kernel's half of the address space, of the file of `size` bytes at `ehdr`.
abbrev pub IsSound : ℕ → ℕ → Phdr → Type 0
IsSound ehdr size ph =
    (kernel_mapping ≤ ph.p_vaddr)
    × (ph.p_vaddr + ph.p_memsz < 2 ^ 64)
    × (ph.p_filesz ≤ ph.p_memsz)
    × (ph.p_offset + ph.p_filesz ≤ size)
    × (ehdr + size < 2 ^ 64)

-- Each segment that is loaded is sound.
abbrev pub AllSound : ℕ → ℕ → List Phdr → Type 0
AllSound ehdr size [] = Unit {0}
AllSound ehdr size (ph ∷ phs) = (is_load ph ≡ true → IsSound ehdr size ph) × AllSound ehdr size phs

-- The segments that are loaded lie between two virtual addresses.
abbrev pub AllBetween : ℕ → ℕ → List Phdr → Type 0
AllBetween lo hi [] = Unit {0}
AllBetween lo hi (ph ∷ phs) =
    (is_load ph ≡ true → (lo ≤ ph.p_vaddr) × (ph.p_vaddr + ph.p_memsz ≤ hi)) × AllBetween lo hi phs

pub physical-place : (a : ℕ) → kernel_mapping ≤ a → a < 2 ^ 64 → physical a ≡ place a
unfolding physical
physical-place a lo hi = omega arith

module _ (ehdr size : ℕ) where
  pub segment-outside :
      (ph : Phdr) (m : Bytes) (a : ℕ)
      → IsSound ehdr size ph
      → (a < place ph.p_vaddr) ⊎ (place (ph.p_vaddr + ph.p_memsz) ≤ a)
      → copy_segment ehdr ph m a ≡ m a
  unfolding copy_segment
  segment-outside ph m a (w0, w1, w2, w3, w4) o =
      let e = physical-place ph.p_vaddr w0 (omega arith) in
      rw e (
        memset-outside (sub64 ph.p_memsz ph.p_filesz) (u64 (place ph.p_vaddr + ph.p_filesz)) 0 _ a
          (omega arith)
        ∙ memcpy-outside ph.p_filesz (place ph.p_vaddr) (u64 (ehdr + ph.p_offset)) m a
            (omega arith))

  pub copy-outside :
      (phs : List Phdr) (lo hi : ℕ) (m : Bytes) (a : ℕ)
      → kernel_mapping ≤ lo
      → AllSound ehdr size phs
      → AllBetween lo hi phs
      → (a < place lo) ⊎ (place hi ≤ a)
      → copy_load_segments ehdr phs m a ≡ m a
  unfolding copy_load_segments
  copy-outside [] lo hi m a k w b o = refl
  copy-outside (ph ∷ phs) lo hi m a k (w, ws) (b, bs) o = elim (Bool-cases (is_load ph)) [
    | inl u ↦
        let (b0, b1) = b u in
        let s = w u in
        let (s0, s1, s2, s3, s4) = s in
        rw u (
          copy-outside phs lo hi (copy_segment ehdr ph m) a k ws bs o
          ∙ segment-outside ph m a s (omega arith))
    | inr u ↦ rw u (copy-outside phs lo hi m a k ws bs o)
  ]

  -- The bytes of one segment.
  pub segment-inside :
      (ph : Phdr) (m : Bytes) (k : ℕ)
      → IsSound ehdr size ph
      → (place (ph.p_vaddr + ph.p_memsz) ≤ ehdr) ⊎ (ehdr + size ≤ place ph.p_vaddr)
      → k < ph.p_memsz
      → copy_segment ehdr ph m (place ph.p_vaddr + k)
        ≡ (if ltb k ph.p_filesz then m (ehdr + ph.p_offset + k) else 0)
  unfolding copy_segment
  segment-inside ph m k (w0, w1, w2, w3, w4) apart h =
      let e = physical-place ph.p_vaddr w0 (omega arith) in
      let d = place ph.p_vaddr in
      let whole : u64 (ehdr + ph.p_offset) ≡ ehdr + ph.p_offset = omega arith in
      let tail : u64 (d + ph.p_filesz) ≡ d + ph.p_filesz = omega arith in
      let rest : sub64 ph.p_memsz ph.p_filesz ≡ ph.p_memsz - ph.p_filesz = omega arith in
      rw (e, whole, tail, rest)
        (elim (Bool-cases (ltb k ph.p_filesz)) [
          | inl u ↦ rw u (
              memset-outside (ph.p_memsz - ph.p_filesz) (d + ph.p_filesz) 0 _ (d + k) (ground arith)
              ∙ memcpy-inside ph.p_filesz d (ehdr + ph.p_offset) m k (omega arith) (ground arith))
          | inr u ↦ rw u (
              memset-inside (ph.p_memsz - ph.p_filesz) (d + ph.p_filesz) 0 _ (d + k) (ground arith)
                (ground arith))
        ])
