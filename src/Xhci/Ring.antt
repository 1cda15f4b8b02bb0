-- ===== src/Xhci/Ring.antt =====
-- The producer side of the rings of kernel/xhci.c: `new_ring`, `write_ring_static`, `write_ring`
-- and the requests that `get_descriptor` puts on a ring.
pub mod Written
pub mod Consumer
pub mod Requests
use vimos_minimal.Base.{
  ◌⊎◌, ◌↔◌, inl, inr, ℕ, zero, suc, ◌+◌, ◌-◌, ◌*◌, ◌/◌, ◌%◌, ◌^◌, ◌≤◌, ◌<◌, min, max, bit_and,
  bit_or, bit_xor, ◌≡◌, refl, sym, ap, ◌∙◌, ◌≢◌, Bool, true, false, ◌&&◌, ◌||◌, not, Option, none,
  some, List, [], ◌∷◌, ◌++◌, map, arith, ltb, leb, ◌==◌, if◌then◌else◌, ltb→lt, lt→ltb, le→ltb,
  leb→le, ==_iff, ==_refl, Bool-cases, nat_cases, length, get_elem?, get_or, set, take, drop,
  replicate, length-append, length-replicate, length-set, get_or-set_self, get_or-set_ne, u8, u16,
  u32, u64, sub32, sub64,
}
use vimos_minimal.Layout.{v2p}
use vimos_minimal.Xhci.Trb.{Trb, trb, zero_trb, link_trb}

-- `struct ring`: `buf` is the address, `slots` the page of blocks that stands there.
pub record Ring : Type 0 where
  pub buf : ℕ
  pub slots : List Trb
  pub cycle_bit : Bool
  pub ring_size : ℕ
  pub ring_index : ℕ

abbrev pub bit : Bool → ℕ
bit true = 1
bit false = 0

-- A page holds 4096 / 16 blocks.
abbrev pub slots_of_page : ℕ
slots_of_page = 4096 / 16

-- `new_ring`; `none` is the `panic` when `alloc_mem` returns NULL. The page is cleared first.
unfoldable pub new_ring : ℕ → Option Ring
new_ring page =
    if page == 0
    then none
    else some (record {
      buf = page;
      slots = replicate slots_of_page zero_trb;
      cycle_bit = true;
      ring_size = slots_of_page;
      ring_index = 0;
    })

-- The last word is written with the cycle bit.
unfoldable pub mark : Trb → Bool → Trb
mark t c = trb t.w0 t.w1 t.w2 (bit_or t.w3 (bit c))

unfoldable pub write_ring_static : List Trb → ℕ → Trb → Bool → List Trb
unfolding mark
write_ring_static slots index t c = set slots index (mark t c)

-- The end of `write_ring`: behind the last block but one comes a link back to the start.
unfoldable pub wrap : Ring → Ring
unfolding write_ring_static
wrap r = record r {
  slots = write_ring_static r.slots r.ring_index (link_trb (v2p r.buf)) r.cycle_bit;
  ring_index = 0;
  cycle_bit = not r.cycle_bit;
}

unfoldable pub write_ring : Ring → Trb → Ring
unfolding write_ring_static wrap
write_ring r t =
    let r' = record r {
      slots = write_ring_static r.slots r.ring_index t r.cycle_bit;
      ring_index = r.ring_index + 1;
    } in
    if r'.ring_index == r'.ring_size - 1 then wrap r' else r'

unfoldable pub write_all : Ring → List Trb → Ring
write_all r [] = r
write_all r (t ∷ ts) = write_all (write_ring r t) ts
