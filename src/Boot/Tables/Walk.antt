-- ===== src/Boot/Tables/Walk.antt =====
-- The walk of the processor through four levels of tables, as its manual describes it.
use vimos_minimal.Base.{
  ℕ, ◌+◌, ◌*◌, ◌/◌, ◌%◌, ◌^◌, ◌<◌, bit_or, ◌≡◌, refl, Bool, true, false, Option, none, some, arith,
  ◌==◌, if◌then◌else◌,
}
use vimos_minimal.Base.Bits.{bit_or_disjoint}
use vimos_minimal.Boot.Tables.{Words}

-- Bit 0 says that an entry is present, and bit 7 of the upper levels that it is a large page.
abbrev pub is_present : ℕ → Bool
is_present e = (e % 2) == 1

abbrev pub is_large : ℕ → Bool
is_large e = (e / 2 ^ 7 % 2) == 1

-- The bits `k` to 51 of an entry are the address of a table or page of 2 ^ k bytes.
abbrev pub frame : ℕ → ℕ → ℕ
frame k e = e % 2 ^ 52 / 2 ^ k * 2 ^ k

-- The word that level `k` looks at: nine bits of the virtual address select it.
abbrev pub selected : ℕ → ℕ → ℕ → ℕ
selected k table v = table + 8 * (v / 2 ^ k % 512)

unfoldable pub walk1 : Words → ℕ → ℕ → Option ℕ
walk1 m table v =
    let e = m (selected 12 table v) in if is_present e then some (frame 12 e + v % 2 ^ 12) else none

unfoldable pub walk2 : Words → ℕ → ℕ → Option ℕ
walk2 m table v =
    let e = m (selected 21 table v) in
    if is_present e
    then (if is_large e then some (frame 21 e + v % 2 ^ 21) else walk1 m (frame 12 e) v)
    else none

unfoldable pub walk3 : Words → ℕ → ℕ → Option ℕ
walk3 m table v =
    let e = m (selected 30 table v) in
    if is_present e
    then (if is_large e then some (frame 30 e + v % 2 ^ 30) else walk2 m (frame 12 e) v)
    else none

-- The physical address of `v`, with the first table at `cr3`.
unfoldable pub translate : ℕ → Words → ℕ → Option ℕ
translate cr3 m v =
    let e = m (selected 39 cr3 v) in if is_present e then walk3 m (frame 12 e) v else none

-- An entry that the loader writes for a table, whose address is a multiple of 4096.
pub table_entry :
    (table : ℕ)
    → table % 4096 ≡ 0
    → table < 2 ^ 52
    → (is_present (bit_or table 3) ≡ true)
      × (is_large (bit_or table 3) ≡ false)
      × (frame 12 (bit_or table 3) ≡ table)
table_entry table al lo =
    let whole : table / 4096 * 2 ^ 12 ≡ table = omega arith in
    let e : bit_or table 3 ≡ table + 3 =
      rw whole at (bit_or_disjoint 12 (table / 4096) 3 (omega arith)) in
    (rw e (ground arith), rw e (ground arith), rw e (omega arith))

-- An entry for a 2 MB page.
pub large_entry :
    (page : ℕ)
    → page % 2 ^ 21 ≡ 0
    → page < 2 ^ 52
    → (is_present (bit_or page 0x83) ≡ true)
      × (is_large (bit_or page 0x83) ≡ true)
      × (frame 21 (bit_or page 0x83) ≡ page)
large_entry page al lo =
    let whole : page / 2 ^ 21 * 2 ^ 21 ≡ page = omega arith in
    let e : bit_or page 0x83 ≡ page + 0x83 =
      rw whole at (bit_or_disjoint 21 (page / 2 ^ 21) 0x83 (omega arith)) in
    (rw e (ground arith), rw e (ground arith), rw e (omega arith))

-- Four levels down to a page of 4096 bytes, or three to one of 2 MB.
module _ (m : Words) (cr3 pdp directory v : ℕ) (al3 : pdp % 4096 ≡ 0) (lo3 : pdp < 2 ^ 52)
    (al2 : directory % 4096 ≡ 0) (lo2 : directory < 2 ^ 52)
    (e4 : m (selected 39 cr3 v) ≡ bit_or pdp 3)
    (e3 : m (selected 30 pdp v) ≡ bit_or directory 3) where
  pub translate-small :
      (table page : ℕ)
      → table % 4096 ≡ 0
      → table < 2 ^ 52
      → page % 4096 ≡ 0
      → page < 2 ^ 52
      → m (selected 21 directory v) ≡ bit_or table 3
      → m (selected 12 table v) ≡ bit_or page 3
      → translate cr3 m v ≡ some (page + v % 2 ^ 12)
  unfolding translate walk3 walk2 walk1
  translate-small table page al1 lo1 al0 lo0 e2 e1 =
      let (p3, l3, f3) = table_entry pdp al3 lo3 in
      let (p2, l2, f2) = table_entry directory al2 lo2 in
      let (p1, l1, f1) = table_entry table al1 lo1 in
      let (p0, l0, f0) = table_entry page al0 lo0 in
      rw (e4, p3, f3, e3, p2, l2, f2, e2, p1, l1, f1, e1, p0, f0) refl

  pub translate-large :
      (page : ℕ)
      → page % 2 ^ 21 ≡ 0
      → page < 2 ^ 52
      → m (selected 21 directory v) ≡ bit_or page 0x83
      → translate cr3 m v ≡ some (page + v % 2 ^ 21)
  unfolding translate walk3 walk2
  translate-large page al lo e2 =
      let (p3, l3, f3) = table_entry pdp al3 lo3 in
      let (p2, l2, f2) = table_entry directory al2 lo2 in
      let (p1, l1, f1) = large_entry page al lo in
      rw (e4, p3, f3, e3, p2, l2, f2, e2, p1, l1, f1) refl
