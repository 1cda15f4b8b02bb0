-- ===== src/Xhci/Endpoint/Context.antt =====
-- The fields of an endpoint's context in kernel/xhci.c.
use vimos_minimal.Base.{
  inl, inr, ℕ, zero, suc, ◌+◌, ◌*◌, ◌/◌, ◌%◌, ◌^◌, ◌≤◌, ◌<◌, ◌≡◌, refl, ◌∙◌, false, arith, ◌==◌,
  nat_cases,
}
use vimos_minimal.Xhci.Ring.{Ring}
use vimos_minimal.Xhci.Endpoint.{
  Buffer, highest_bit_loop, get_highest_bit, EndpointContext, direction, attributes, packet_size,
  dci_of, ep_type_of, interval_of, endpoint_context,
}

pow-add_one : (k : ℕ) → 2 ^ (k + 1) ≡ 2 ^ k * 2
pow-add_one k = let e : k + 1 ≡ suc k = omega arith in rw e (omega arith)

highest_bit_loop-zero : (fuel r : ℕ) → highest_bit_loop fuel 0 r ≡ r
unfolding highest_bit_loop
highest_bit_loop-zero zero r = refl
highest_bit_loop-zero (suc fuel) r = refl

highest_bit_loop_lem :
    (fuel b r : ℕ)
    → 0 < b
    → b < 2 ^ fuel
    → (k : ℕ) × (highest_bit_loop fuel b r ≡ k + (r + 1)) × (2 ^ k ≤ b) × (b < 2 ^ (k + 1))
unfolding highest_bit_loop
highest_bit_loop_lem zero b r b0 h = absurd (omega arith)
highest_bit_loop_lem (suc fuel) b r b0 h = elim (nat_cases b 1) [
  | inl less ↦ absurd (omega arith)
  | inr (inl e) ↦
      rw e (0, highest_bit_loop-zero fuel (r + 1) ∙ (omega arith), omega arith, omega arith)
  | inr (inr more) ↦
      let (k, e, lo, hi) = highest_bit_loop_lem fuel (b / 2) (r + 1) (omega arith) (omega arith) in
      let solid : (b == 0) ≡ false = ground arith in
      let total : 2 ^ (k + 1) ≡ 2 ^ k * 2 = pow-add_one k in
      let total' : 2 ^ (k + 1 + 1) ≡ 2 ^ (k + 1) * 2 = pow-add_one (k + 1) in
      (k + 1, rw solid (e ∙ (omega arith)), omega (arith, lo, total), omega (arith, hi, total'))
]

-- For a byte that is not 0, `get_highest_bit` counts the bits up to the highest one that is set.
pub get_highest_bit_lem :
    (b : ℕ)
    → 0 < b
    → b < 256
    → (k : ℕ) × (get_highest_bit b ≡ k + 1) × (2 ^ k ≤ b) × (b < 2 ^ (k + 1))
unfolding get_highest_bit
get_highest_bit_lem b b0 h = highest_bit_loop_lem 8 b 0 b0 h

payload_fits : (size burst : ℕ) → size < 2 ^ 16 → burst < 4 → size * (burst + 1) < 2 ^ 18
payload_fits size zero h b = omega arith
payload_fits size (suc zero) h b = omega arith
payload_fits size (suc (suc zero)) h b = omega arith
payload_fits size (suc (suc (suc zero))) h b = omega arith
payload_fits size (suc (suc (suc (suc burst)))) h b = absurd (omega arith)

-- For bytes below 256, an attribute other than control and an endpoint number other than 0: the type
-- of the endpoint is its attribute, and 4 more for the direction IN; its index in the contexts is
-- from 2 to 31; the interval and the burst fit in their fields, and the two halves of the payload
-- join to the packet's size times the packets of a burst.
pub endpoint_context_lem :
    (buf : Buffer) (p speed : ℕ) (endpoint : Ring) (old : EndpointContext)
    → ((i : ℕ) → buf i < 256)
    → 0 < attributes buf p
    → 0 < buf (p + 2) % 16
    → ((endpoint_context buf p speed endpoint old).ep_type ≡ attributes buf p + 4 * direction buf p)
      × (2 ≤ dci_of buf p)
      × (dci_of buf p ≤ 31)
      × ((endpoint_context buf p speed endpoint old).interval < 2 ^ 8)
      × ((endpoint_context buf p speed endpoint old).max_burst_size < 2 ^ 8)
      × ((endpoint_context buf p speed endpoint old).max_payload_lo
            + 2 ^ 16 * (endpoint_context buf p speed endpoint old).max_payload_hi
          ≡ packet_size buf p * ((endpoint_context buf p speed endpoint old).max_burst_size + 1))
unfolding endpoint_context ep_type_of interval_of dci_of
endpoint_context_lem buf p speed endpoint old byte a n =
    let b2 = byte (p + 2) in
    let b4 = byte (p + 4) in
    let b5 = byte (p + 5) in
    let fits =
      payload_fits (packet_size buf p) (packet_size buf p / 2 ^ 11 % 4) (omega arith)
        (omega arith) in
    (ground arith, omega arith, omega arith, ground arith, omega arith, omega arith)
