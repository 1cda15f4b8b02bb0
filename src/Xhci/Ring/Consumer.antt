-- ===== src/Xhci/Ring/Consumer.antt =====
-- The other end of a ring: a consumer that follows the cycle bits, as the controller does.
use native.Mathlib.Decide.{dec_lt}
use vimos_minimal.Base.{
  inl, inr, ℕ, zero, suc, ◌+◌, ◌-◌, ◌*◌, ◌/◌, ◌%◌, ◌≤◌, ◌<◌, ◌≡◌, refl, ◌∙◌, Bool, true, false, not,
  some, List, [], ◌∷◌, arith, ◌==◌, if◌then◌else◌, ==_refl, nat_cases, length,
}
use vimos_minimal.Base.Bits.{bit_or-zero, bit_or_disjoint}
use vimos_minimal.Layout.{v2p}
use vimos_minimal.Xhci.Trb.{Trb, link_trb, type_of, cycle_of, IsPlain}
use vimos_minimal.Xhci.Ring.{Ring, bit, mark, write_all, new_ring}
use vimos_minimal.Xhci.Ring.Written.{lap, lap_next, lap_wraps, slot, Written, new_ring-write_all}

-- The dequeue pointer as an index, and the consumer's cycle state.
pub record Consumer : Type 0 where
  pub at : ℕ
  pub ccs : Bool

-- A block belongs to the consumer if its cycle bit is the consumer's cycle state. A link leads to
-- the start, and turns the cycle state over if its bit 1 (toggle cycle) is set.
unfoldable pub consume : ℕ → List Trb → Consumer → List Trb × Consumer
consume zero slots c = ([], c)
consume (suc fuel) slots c =
    let t = slot slots c.at in
    let rest = consume fuel slots (record c { at = c.at + 1 }) in
    let again =
      consume fuel slots
        (record { at = 0; ccs = if (t.w3 / 2 % 2) == 1 then not c.ccs else c.ccs }) in
    if (cycle_of t == bit c.ccs)
    then (if type_of t == 6 then again else (t ∷ rest.0, rest.1))
    else ([], c)

-- The consumer that has taken `a` blocks.
abbrev pub consumer_at : ℕ → Consumer
consumer_at a = record { at = a % 255; ccs = lap a }

mark_plain :
    (t : Trb) (c : Bool)
    → IsPlain t
    → (cycle_of (mark t c) ≡ bit c) × (type_of (mark t c) ≡ type_of t)
unfolding mark
mark_plain t true p = ground (arith, bit_or_disjoint 1 (t.w3 / 2) 1 (omega arith))
mark_plain t false p = ground (arith, bit_or-zero t.w3)

mark_link :
    (a : ℕ) (c : Bool)
    → (cycle_of (mark (link_trb a) c) ≡ bit c)
      × (type_of (mark (link_trb a) c) ≡ 6)
      × ((mark (link_trb a) c).w3 / 2 % 2 ≡ 1)
unfolding mark link_trb
mark_link a true = (refl, refl, refl)
mark_link a false = (refl, refl, refl)

abbrev pub AllPlain : List Trb → Type 0
AllPlain [] = Unit {0}
AllPlain (t ∷ ts) = IsPlain t × AllPlain ts

slot-IsPlain : (ts : List Trb) (j : ℕ) → AllPlain ts → IsPlain (slot ts j)
slot-IsPlain [] j p = omega arith
slot-IsPlain (t ∷ ts) zero p = p.0
slot-IsPlain (t ∷ ts) (suc j) p = slot-IsPlain ts j p.1

-- The writes from number `a` on, `m` of them, as they stand in the ring.
abbrev pub marked : List Trb → ℕ → ℕ → List Trb
marked ts a zero = []
marked ts a (suc m) = mark (slot ts a) (lap a) ∷ marked ts (a + 1) m

module _ {r : Ring} {ts : List Trb} (v : Written r ts) (plain : AllPlain ts) where
  -- Behind the last write stands a block with the other cycle bit.
  stop_bit : (cycle_of (slot r.slots (length ts % 255)) == bit (lap (length ts))) ≡ false
  unfolding lap
  stop_bit = elim (dec_lt (length ts) 255) [
    | yes few ↦
        let here : length ts ≤ length ts % 255 = omega arith in
        let clear = v.unused (length ts % 255) here (omega arith) in rw clear (ground arith)
    | no many ↦
        let old : ℕ = length ts - 255 in
        let same : old % 255 ≡ length ts % 255 = omega arith in
        let block = v.recent old (omega arith) (omega arith) in
        let plain_bit = (mark_plain (slot ts old) (lap old) (slot-IsPlain ts old plain)).0 in
        rw (← same, block, plain_bit) (ground arith)
  ]

  cycle_at :
      (a : ℕ)
      → a < length ts
      → length ts ≤ a + 255
      → (cycle_of (slot r.slots (a % 255)) == bit (lap a)) ≡ true
  cycle_at a l g =
      rw (v.recent a l g)
        (rw (mark_plain (slot ts a) (lap a) (slot-IsPlain ts a plain)).0 (==_refl _))

  type_at :
      (a : ℕ)
      → a < length ts
      → length ts ≤ a + 255
      → (type_of (slot r.slots (a % 255)) == 6) ≡ false
  type_at a l g = rw (v.recent a l g) (
      rw (mark_plain (slot ts a) (lap a) (slot-IsPlain ts a plain)).1
        (ground (arith, (slot-IsPlain ts a plain).no_link)))

  link_bit :
      (a : ℕ)
      → a % 255 ≡ 254
      → a < length ts
      → length ts ≤ a + 254
      → (cycle_of (slot r.slots 255) == bit (lap a)) ≡ true
  unfolding lap
  link_bit a last l g =
      let some_lap : 255 ≤ length ts = omega arith in
      rw (v.link some_lap) (rw (mark_link (v2p r.buf) (not (lap (length ts)))).0 (ground arith))

  -- A link is followed in one more step.
  follow :
      (fuel a : ℕ)
      → a % 255 ≡ 254
      → a < length ts
      → length ts ≤ a + 254
      → consume (suc fuel) r.slots (record { at = a % 255 + 1; ccs = lap a })
        ≡ consume fuel r.slots (consumer_at (a + 1))
  unfolding consume
  follow fuel a last l g =
      let next : a % 255 + 1 ≡ 255 = omega arith in
      let some_lap : 255 ≤ length ts = omega arith in
      let marks = mark_link (v2p r.buf) (not (lap (length ts))) in
      let link_type : (type_of (slot r.slots 255) == 6) ≡ true =
        rw (v.link some_lap) (rw marks.1 refl) in
      let toggles : ((slot r.slots 255).w3 / 2 % 2 == 1) ≡ true =
        rw (v.link some_lap) (rw marks.2 refl) in
      let start : (a + 1) % 255 ≡ 0 = omega arith in
      rw (next, link_bit a last l g, link_type, toggles, start, lap_wraps a last)

  -- From behind block `a` the consumer comes to block `a + 1`, with a link in between or not.
  step_over :
      (fuel a : ℕ) (out : List Trb × Consumer)
      → a < length ts
      → length ts ≤ a + 254
      → ((f : ℕ) → fuel ≤ f + 1 → consume f r.slots (consumer_at (a + 1)) ≡ out)
      → 0 < fuel
      → consume fuel r.slots (record { at = a % 255 + 1; ccs = lap a }) ≡ out
  step_over zero a out l g rest f = absurd (omega arith)
  step_over (suc fuel) a out l g rest f = elim (nat_cases (a % 255) 254) [
    | inl less ↦
        let next : a % 255 + 1 ≡ (a + 1) % 255 = omega arith in
        rw (next, ← lap_next a less) (rest (suc fuel) (omega arith))
    | inr (inl last) ↦ follow fuel a last l g ∙ rest fuel (omega arith)
    | inr (inr more) ↦ absurd (omega arith)
  ]

  -- The blocks from number `a` on are taken one by one.
  pub consume-marked :
      (m a fuel : ℕ)
      → a + m ≡ length ts
      → m ≤ 254
      → 2 * m < fuel
      → consume fuel r.slots (consumer_at a) ≡ (marked ts a m, consumer_at (length ts))
  unfolding consume
  consume-marked m a zero e b f = absurd (omega arith)
  consume-marked zero a (suc fuel) e b f =
      let all : a ≡ length ts = omega arith in rw (all, stop_bit)
  consume-marked (suc m) a (suc fuel) e b f =
      let rest =
        step_over fuel a (marked ts (a + 1) m, consumer_at (length ts)) (omega arith) (omega arith)
          (λ f' enough. consume-marked m (a + 1) f' (omega arith) (omega arith) (omega arith))
          (omega arith) in
      let block = v.recent a (omega arith) (omega arith) in
      rw
        (cycle_at a (omega arith) (omega arith), type_at a (omega arith) (omega arith), rest, block)

-- A consumer of a new ring that has taken the first `a` of the blocks written, with at most 254
-- left and enough steps for these and the links, takes exactly the rest, in the order of the writes
-- and with the cycle bit added, and then stands where the next write goes.
pub consume-write_all :
    (page : ℕ) {r : Ring} (ts : List Trb) (a m fuel : ℕ)
    → new_ring page ≡ some r
    → AllPlain ts
    → a + m ≡ length ts
    → m ≤ 254
    → 2 * m < fuel
    → consume fuel (write_all r ts).slots (consumer_at a) ≡ (marked ts a m, consumer_at (length ts))
consume-write_all page ts a m fuel new plain e b f =
    consume-marked (new_ring-write_all page ts new) plain m a fuel e b f
