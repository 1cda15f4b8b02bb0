-- ===== src/Xhci/Events.antt =====
-- The event ring of kernel/xhci.c: the driver's dequeue pointer lives in the register ERDP.
use mathlib.Core.Path.{subst}
use vimos_minimal.Base.{
  ◌⊎◌, inl, inr, ℕ, ◌+◌, ◌-◌, ◌*◌, ◌/◌, ◌%◌, ◌^◌, ◌<◌, bit_or, ◌≡◌, sym, ap, ◌∙◌, ◌≢◌, Bool, true,
  false, not, Option, none, some, List, arith, ◌==◌, if◌then◌else◌, ==_iff, Bool-cases, nat_cases,
  get_or, u32, u64,
}
use vimos_minimal.Base.Bits.{bit_or_comm, bit_or_disjoint}
use vimos_minimal.Layout.{page_offset, p2v, v2p, v2p-window}
use vimos_minimal.Xhci.Trb.{Trb, zero_trb, cycle_of}
use vimos_minimal.Xhci.Ring.{bit}

-- The two halves of ERDP as last written, the ring, and its cycle bit. `slots` is what the
-- controller has written to the page at `buf`.
pub record EventRing : Type 0 where
  pub erdp_low : ℕ
  pub erdp_high : ℕ
  pub buf : ℕ
  pub slots : List Trb
  pub cycle_bit : Bool

-- `getTRB`: the block's virtual address.
unfoldable pub get_trb : EventRing → ℕ
get_trb e = let erdp = bit_or e.erdp_low (e.erdp_high * 2 ^ 32) in p2v (erdp - erdp % 16)

-- The block at an address of the page.
abbrev pub block : EventRing → ℕ → Trb
block e addr = get_or e.slots ((addr - e.buf) / 16) zero_trb

unfoldable pub er_is_queued : EventRing → Bool
er_is_queued e = cycle_of (block e (get_trb e)) == bit e.cycle_bit

-- The two stores to ERDP; bit 3 clears the "handler busy" flag.
unfoldable pub set_erdp : EventRing → ℕ → EventRing
set_erdp e ptr = record e {
  erdp_low = u32 (bit_or (v2p ptr) 8);
  erdp_high = u32 (v2p ptr / 2 ^ 32);
}

unfoldable pub write_event_ring : EventRing → EventRing
write_event_ring e =
    let trb = u64 (get_trb e + 16) in
    if trb == u64 (e.buf + 4096)
    then set_erdp (record e { cycle_bit = not e.cycle_bit }) e.buf
    else set_erdp e trb

-- `get_eventring`; `none` stands for the wait while no event is queued.
unfoldable pub get_eventring : EventRing → Option (Trb × EventRing)
get_eventring e = if er_is_queued e then some (block e (get_trb e), write_event_ring e) else none

-- The cycle bit with which event number `a` is written.
unfoldable pub round_of : ℕ → Bool
round_of a = (a / 256 % 2) == 0

-- The physical address of the block for event number `a`.
abbrev pub place : ℕ → ℕ → ℕ
place phys a = phys + 16 * (a % 256)

-- The driver has taken `a` events from the page at the physical address `phys`.
pub record HasTaken (e : EventRing) (phys a : ℕ) : Type 0 where
  pub aligned : phys % 4096 ≡ 0
  pub inside : phys + 4096 < 2 ^ 46
  pub page : e.buf ≡ page_offset + phys
  pub low : (e.erdp_low ≡ place phys a % 2 ^ 32) ⊎ (e.erdp_low ≡ place phys a % 2 ^ 32 + 8)
  pub high : e.erdp_high ≡ place phys a / 2 ^ 32
  pub cycle : e.cycle_bit ≡ round_of a

round_next : (a : ℕ) → a % 256 < 255 → round_of a ≡ round_of (a + 1)
unfolding round_of
round_next a h = ground arith

round_wraps : (a : ℕ) → a % 256 ≡ 255 → not (round_of a) ≡ round_of (a + 1)
unfolding round_of
round_wraps a h = ground arith

module _ {e : EventRing} {phys a : ℕ} (v : HasTaken e phys a) where
  joined : bit_or e.erdp_low (e.erdp_high * 2 ^ 32) ≡ e.erdp_high * 2 ^ 32 + e.erdp_low
  joined =
      bit_or_comm e.erdp_low (e.erdp_high * 2 ^ 32)
      ∙ bit_or_disjoint 32 e.erdp_high e.erdp_low (omega (arith, v.low, v.aligned))

  -- The flag bits of ERDP are cut off.
  pub get_trb-place : get_trb e ≡ page_offset + place phys a
  unfolding get_trb
  get_trb-place = rw joined (omega (arith, v.low, v.high, v.aligned, v.inside))

  set_erdp-HasTaken :
      (b : ℕ) (c : Bool)
      → c ≡ round_of b
      → HasTaken (set_erdp (record e { cycle_bit = c }) (page_offset + place phys b)) phys b
  unfolding set_erdp
  set_erdp-HasTaken b c same =
      let back = v2p-window (place phys b) (omega arith) in
      let q : ℕ = place phys b / 16 in
      let sixteenth : q * 2 ^ 4 ≡ place phys b = omega (arith, v.aligned) in
      let busy : bit_or (place phys b) 8 ≡ place phys b + 8 =
        rw sixteenth at (bit_or_disjoint 4 q 8 (omega arith)) in
      record {
        aligned = v.aligned;
        inside = v.inside;
        page = v.page;
        low = inr (rw back (omega (arith, busy, sixteenth, v.aligned)));
        high = rw back (omega arith);
        cycle = same;
      }

  -- One event further.
  pub write_event_ring-HasTaken : HasTaken (write_event_ring e) phys (a + 1)
  unfolding write_event_ring
  write_event_ring-HasTaken = elim (nat_cases (a % 256) 255) [
    | inl less ↦
        let here : u64 (page_offset + place phys a + 16) ≡ page_offset + place phys (a + 1) =
          omega (arith, v.aligned, v.inside) in
        let more : (page_offset + place phys (a + 1) == u64 (e.buf + 4096)) ≡ false =
          ground (arith, v.page, v.inside) in
        rw (get_trb-place, here, more)
          (set_erdp-HasTaken (a + 1) e.cycle_bit (v.cycle ∙ round_next a less))
    | inr (inl last) ↦
        let here : u64 (page_offset + place phys a + 16) ≡ page_offset + phys + 4096 =
          omega (arith, v.aligned, v.inside) in
        let ends : (page_offset + phys + 4096 == u64 (e.buf + 4096)) ≡ true =
          ground (arith, v.page, v.inside) in
        let start : e.buf ≡ page_offset + place phys (a + 1) = omega (arith, v.page) in
        rw (get_trb-place, here, ends)
          (subst
            (λ x. HasTaken (set_erdp (record e { cycle_bit = not e.cycle_bit }) x) phys (a + 1))
            (sym start)
            (set_erdp-HasTaken (a + 1) (not e.cycle_bit) (ap not v.cycle ∙ round_wraps a last)))
    | inr (inr more) ↦ absurd (omega arith)
  ]

  here_block : block e (get_trb e) ≡ get_or e.slots (a % 256) zero_trb
  here_block = rw get_trb-place (ap (λ i. get_or e.slots i zero_trb) (omega (arith, v.page)))

  slots_kept : (write_event_ring e).slots ≡ e.slots
  unfolding write_event_ring set_erdp
  slots_kept = ground arith

  -- After `a` events the driver looks at place `a % 256` of the page. If the block there has the
  -- cycle bit of event number `a`, `get_eventring` returns it, leaves the page as it is and has
  -- then taken `a + 1` events, also across the end of the page; otherwise nothing is queued.
  pub get_eventring_lem :
      ((cycle_of (get_or e.slots (a % 256) zero_trb) ≡ bit (round_of a))
        × (get_eventring e ≡ some (get_or e.slots (a % 256) zero_trb, write_event_ring e))
        × HasTaken (write_event_ring e) phys (a + 1)
        × ((write_event_ring e).slots ≡ e.slots))
      ⊎ ((cycle_of (get_or e.slots (a % 256) zero_trb) ≢ bit (round_of a))
          × (get_eventring e ≡ none))
  unfolding get_eventring er_is_queued
  get_eventring_lem =
      elim (Bool-cases (cycle_of (get_or e.slots (a % 256) zero_trb) == bit (round_of a))) [
        | inl queued ↦ inl (
          (==_iff _ _).0 queued,
          rw (here_block, v.cycle, queued),
          write_event_ring-HasTaken,
          slots_kept,
        )
        | inr idle ↦ inr (ground arith, rw (here_block, v.cycle, idle))
      ]
