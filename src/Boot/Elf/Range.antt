-- ===== src/Boot/Elf/Range.antt =====
-- `CalcLoadAddressRange` and `CopyLoadSegments` of boot/boot.c together.
use mathlib.Core.Path.{subst}
use vimos_minimal.Base.{
  ◌⊎◌, inl, inr, ℕ, ◌+◌, ◌-◌, ◌^◌, ◌≤◌, ◌<◌, min, max, ◌≡◌, refl, sym, ◌∙◌, true, false, List, [],
  ◌∷◌, arith, ltb, if◌then◌else◌, Bool-cases, u64,
}
use vimos_minimal.Layout.{kernel_mapping}
use vimos_minimal.Boot.Elf.{
  Bytes, Phdr, is_load, range_loop, calc_load_address_range, copy_segment, copy_load_segments,
}
use vimos_minimal.Boot.Elf.Load.{
  place, IsSound, AllSound, AllBetween, physical-place, segment-outside, copy-outside,
  segment-inside,
}

-- Some segment is loaded.
abbrev pub SomeLoad : List Phdr → Type 0
SomeLoad [] = ⊥
SomeLoad (ph ∷ phs) = (is_load ph ≡ true) ⊎ SomeLoad phs

-- The segments that are loaded are in ascending order from `lo` on and do not overlap.
abbrev pub IsAscending : ℕ → List Phdr → Type 0
IsAscending lo [] = Unit {0}
IsAscending lo (ph ∷ phs) =
    (is_load ph ≡ true → (lo ≤ ph.p_vaddr) × IsAscending (ph.p_vaddr + ph.p_memsz) phs)
    × (is_load ph ≡ false → IsAscending lo phs)

-- No segment is loaded over the file.
abbrev pub AllApart : ℕ → ℕ → List Phdr → Type 0
AllApart ehdr size [] = Unit {0}
AllApart ehdr size (ph ∷ phs) =
    (is_load ph ≡ true
      → (place (ph.p_vaddr + ph.p_memsz) ≤ ehdr) ⊎ (ehdr + size ≤ place ph.p_vaddr))
    × AllApart ehdr size phs

-- In `m`, each segment holds its bytes of the file in `m0`, and zeros behind them.
abbrev pub IsLoaded : ℕ → Bytes → Bytes → List Phdr → Type 0
IsLoaded ehdr m0 m [] = Unit {0}
IsLoaded ehdr m0 m (ph ∷ phs) =
    (is_load ph ≡ true
      → (k : ℕ) → k < ph.p_memsz
      → m (place ph.p_vaddr + k) ≡ (if ltb k ph.p_filesz then m0 (ehdr + ph.p_offset + k) else 0))
    × IsLoaded ehdr m0 m phs

module _ (ehdr size : ℕ) where
  -- One round of the loop.
  step_bounds :
      (ph : Phdr) (s e : ℕ)
      → (is_load ph ≡ true → IsSound ehdr size ph)
      → kernel_mapping ≤ s
      → s < 2 ^ 64
      → e < 2 ^ 64
      → (kernel_mapping ≤ (if is_load ph then min s ph.p_vaddr else s))
        × ((if is_load ph then min s ph.p_vaddr else s) ≤ s)
        × (e ≤ (if is_load ph then max e (u64 (ph.p_vaddr + ph.p_memsz)) else e))
        × ((if is_load ph then max e (u64 (ph.p_vaddr + ph.p_memsz)) else e) < 2 ^ 64)
  step_bounds ph s e w k h l = elim (Bool-cases (is_load ph)) [
    | inl u ↦
        let (w0, w1, w2, w3, w4) = w u in rw u (omega arith, omega arith, omega arith, omega arith)
    | inr u ↦ rw u (k, omega arith, omega arith, l)
  ]

  step_covers :
      (ph : Phdr) (s e lo hi : ℕ)
      → is_load ph ≡ true
      → IsSound ehdr size ph
      → lo ≤ (if is_load ph then min s ph.p_vaddr else s)
      → (if is_load ph then max e (u64 (ph.p_vaddr + ph.p_memsz)) else e) ≤ hi
      → (lo ≤ ph.p_vaddr) × (ph.p_vaddr + ph.p_memsz ≤ hi)
  step_covers ph s e lo hi u (w0, w1, w2, w3, w4) a b =
      let a' : lo ≤ min s ph.p_vaddr = rw u at a in
      let b' : max e (u64 (ph.p_vaddr + ph.p_memsz)) ≤ hi = rw u at b in
      (omega (arith, a'), omega (arith, b'))

  range_loop-AllBetween :
      (phs : List Phdr) (s e : ℕ)
      → AllSound ehdr size phs
      → kernel_mapping ≤ s
      → s < 2 ^ 64
      → e < 2 ^ 64
      → AllBetween (range_loop phs s e).0 (range_loop phs s e).1 phs
        × (kernel_mapping ≤ (range_loop phs s e).0)
        × ((range_loop phs s e).0 ≤ s)
        × (e ≤ (range_loop phs s e).1)
        × ((range_loop phs s e).1 < 2 ^ 64)
  unfolding range_loop
  range_loop-AllBetween [] s e w k h l = (tt, k, omega arith, omega arith, l)
  range_loop-AllBetween (ph ∷ phs) s e (w, ws) k h l =
      let s' = if is_load ph then min s ph.p_vaddr else s in
      let e' = if is_load ph then max e (u64 (ph.p_vaddr + ph.p_memsz)) else e in
      let (k1, s1, e1, l1) = step_bounds ph s e w k h l in
      let (b, k', lo, hi, top) = range_loop-AllBetween phs s' e' ws k1 (omega (arith, s1)) l1 in
      (
        (
          (λ u. step_covers ph s e (range_loop phs s' e').0 (range_loop phs s' e').1 u (w u) lo hi),
          b,
        ),
        k',
        omega (arith, lo, s1),
        omega (arith, hi, e1),
        top,
      )

  some-above :
      (phs : List Phdr) (lo hi : ℕ)
      → AllSound ehdr size phs
      → AllBetween lo hi phs
      → SomeLoad phs
      → kernel_mapping ≤ hi
  some-above [] lo hi w b h = absurd h
  some-above (ph ∷ phs) lo hi (w, ws) (b, bs) (inl u) =
      let (w0, w1, w2, w3, w4) = w u in let (b0, b1) = b u in omega arith
  some-above (ph ∷ phs) lo hi (w, ws) (b, bs) (inr h) = some-above phs lo hi ws bs h

  -- Where some segment is loaded and each of them is sound, `CopyLoadSegments` writes only inside the
  -- range that `CalcLoadAddressRange` returns, which is the memory that the loader allocates.
  pub copy_load_segments-range :
      (phs : List Phdr) (m : Bytes) (a : ℕ)
      → AllSound ehdr size phs
      → SomeLoad phs
      → (a < (calc_load_address_range phs).0) ⊎ ((calc_load_address_range phs).1 ≤ a)
      → copy_load_segments ehdr phs m a ≡ m a
  unfolding calc_load_address_range
  copy_load_segments-range phs m a w h o =
      let r = range_loop phs (2 ^ 64 - 1) 0 in
      let (b, k, lo, hi, top) =
        range_loop-AllBetween phs (2 ^ 64 - 1) 0 w (omega arith) (omega arith) (omega arith) in
      let above = some-above phs r.0 r.1 w b h in
      let s = physical-place r.0 k (omega (arith, lo)) in
      let e = physical-place r.1 above top in
      let o' : (a < place r.0) ⊎ (place r.1 ≤ a) = rw (s, e) at o in
      copy-outside ehdr size phs r.0 r.1 m a k w b o'

  ascending-AllBetween :
      (phs : List Phdr) (lo lo' : ℕ)
      → lo' ≤ lo
      → AllSound ehdr size phs
      → IsAscending lo phs
      → AllBetween lo' (2 ^ 64) phs
  ascending-AllBetween [] lo lo' le w i = tt
  ascending-AllBetween (ph ∷ phs) lo lo' le (w, ws) (i, j) = elim (Bool-cases (is_load ph)) [
    | inl u ↦
        let (w0, w1, w2, w3, w4) = w u in
        let (i0, i1) = i u in
        (
          (λ _. (omega arith, omega arith)),
          ascending-AllBetween phs (ph.p_vaddr + ph.p_memsz) lo' (omega arith) ws i1,
        )
    | inr u ↦ ((λ y. cc), ascending-AllBetween phs lo lo' le ws (j u))
  ]

  copy-load :
      (ph : Phdr) (phs : List Phdr) (m : Bytes)
      → is_load ph ≡ true
      → copy_load_segments ehdr (ph ∷ phs) m ≡ copy_load_segments ehdr phs (copy_segment ehdr ph m)
  unfolding copy_load_segments
  copy-load ph phs m u = rw u refl

  copy-skip :
      (ph : Phdr) (phs : List Phdr) (m : Bytes)
      → is_load ph ≡ false
      → copy_load_segments ehdr (ph ∷ phs) m ≡ copy_load_segments ehdr phs m
  unfolding copy_load_segments
  copy-skip ph phs m u = rw u refl

  copy-IsLoaded :
      (phs : List Phdr) (lo : ℕ) (m0 m : Bytes)
      → kernel_mapping ≤ lo
      → AllSound ehdr size phs
      → IsAscending lo phs
      → AllApart ehdr size phs
      → ((b : ℕ) → ehdr ≤ b → b < ehdr + size → m b ≡ m0 b)
      → IsLoaded ehdr m0 (copy_load_segments ehdr phs m) phs
  copy-IsLoaded [] lo m0 m k w i p same = tt
  copy-IsLoaded (ph ∷ phs) lo m0 m k (w, ws) (i, j) (p, ps) same = elim (Bool-cases (is_load ph)) [
    | inl u ↦
        let s = w u in
        let (w0, w1, w2, w3, w4) = s in
        let (i0, i1) = i u in
        let m' = copy_segment ehdr ph m in
        let next = ph.p_vaddr + ph.p_memsz in
        let b = ascending-AllBetween phs next next (omega arith) ws i1 in
        subst (λ x. IsLoaded ehdr m0 x (ph ∷ phs)) (sym (copy-load ph phs m u))
          (
            (λ _ x h.
                copy-outside ehdr size phs next (2 ^ 64) m' (place ph.p_vaddr + x) (omega arith) ws
                  b (omega arith)
                ∙ segment-inside ehdr size ph m x s (p u) h
                ∙ (ground (arith, same (ehdr + ph.p_offset + x)))),
            copy-IsLoaded phs next m0 m' (omega arith) ws i1 ps (λ y lo' hi'.
                segment-outside ehdr size ph m y s (ground (arith, p u)) ∙ same y lo' hi'),
          )
    | inr u ↦
        subst (λ x. IsLoaded ehdr m0 x (ph ∷ phs)) (sym (copy-skip ph phs m u))
          ((λ y. cc), copy-IsLoaded phs lo m0 m k ws (j u) ps same)
  ]

  -- Where the segments that are loaded are sound, in ascending order, apart from each other and from
  -- the file: after `CopyLoadSegments` each of them holds its bytes of the file at its physical
  -- address, and zeros from there to its size in memory.
  pub copy_load_segments-IsLoaded :
      (phs : List Phdr) (m : Bytes)
      → AllSound ehdr size phs
      → IsAscending kernel_mapping phs
      → AllApart ehdr size phs
      → IsLoaded ehdr m (copy_load_segments ehdr phs m) phs
  copy_load_segments-IsLoaded phs m w i p =
      copy-IsLoaded phs kernel_mapping m m (omega arith) w i p (λ b lo hi. refl)
