-- ===== src/Paging/Entry.antt =====
-- The bit fields of an entry of a page table.
use vimos_minimal.Base.{ℕ, ◌+◌, ◌-◌, ◌/◌, ◌%◌, ◌^◌, ◌≤◌, ◌<◌, ◌≡◌, refl, Bool, true, false, arith}
use vimos_minimal.Layout.{page_offset, v2p, v2p-window}
use vimos_minimal.Paging.{with_bit, with_addr, addr_of, pointer}

-- A page that can be a table: in the window of physical memory, at a multiple of 4096.
pub record IsTable (t : ℕ) : Type 0 where
  pub aligned : t % 4096 ≡ 0
  pub low : page_offset ≤ t
  pub high : t < page_offset + 2 ^ 46

abbrev pub bit_of : ℕ → ℕ → ℕ
bit_of k e = e / 2 ^ k % 2

abbrev pub flag : Bool → ℕ
flag true = 1
flag false = 0

-- What the two flags set, and what they leave.
pub flags-fields :
    (rw_bit : Bool) (e : ℕ)
    → let e' = with_bit 2 true (with_bit 1 rw_bit e) in
      (e' % 2 ≡ e % 2)
      × (bit_of 1 e' ≡ flag rw_bit)
      × (bit_of 2 e' ≡ 1)
      × (bit_of 7 e' ≡ bit_of 7 e)
      × (addr_of e' ≡ addr_of e)
unfolding with_bit
flags-fields true e = (omega arith, omega arith, omega arith, omega arith, omega arith)
flags-fields false e = (omega arith, omega arith, omega arith, omega arith, omega arith)

-- A new table in a clear entry.
pub fresh-fields :
    (c : ℕ)
    → IsTable c
    → let e = with_bit 0 true (with_addr (v2p c / 2 ^ 12) 0) in
      (e % 2 ≡ 1) × (bit_of 7 e ≡ 0) × (pointer e ≡ c)
unfolding with_bit with_addr pointer
fresh-fields c i =
    let back = v2p-window (c - page_offset) (omega (arith, i.low, i.high)) in
    let here : page_offset + (c - page_offset) ≡ c = omega (arith, i.low) in
    let phys : v2p c ≡ c - page_offset = rw here at back in
    rw phys (
      omega (arith, i.low, i.high),
      omega (arith, i.low, i.high),
      omega (arith, i.low, i.high, i.aligned),
    )

pub pointer-same : (e e' : ℕ) → addr_of e' ≡ addr_of e → pointer e' ≡ pointer e
unfolding pointer
pointer-same e e' h = rw h refl
