-- ===== src/Xhci/Dispatch/Fair.antt =====
-- What the events leave of the ports, whatever the controller and the device have left.
use vimos_minimal.Base.{
  inl, inr, ℕ, ◌+◌, ◌-◌, ◌≡◌, Option, none, some, arith, ◌==◌, if◌then◌else◌, Bool-cases,
}
use vimos_minimal.Layout.{v2p}
use vimos_minimal.Mem.{Mem, alloc_mem}
use vimos_minimal.Mem.Post.{Post, Post-and_then, HasFuel, alloc_mem-HasFuel}
use vimos_minimal.Xhci.Ring.{Ring, new_ring}
use vimos_minimal.Xhci.Endpoint.{Buffer}
use vimos_minimal.Xhci.Ports.{portsc}
use vimos_minimal.Xhci.Ports.Order.{IsFair}
use vimos_minimal.Xhci.Slot.{
  Driver, handle_enable_slot, psiv, address_slot, full_speed, evaluate, send, put_context,
  to_address,
}

-- The free list is well formed, and no port waits in vain.
abbrev pub Fine : ℕ → Option Driver → Mem → Type 0
Fine fuel none h = HasFuel fuel h
Fine fuel (some d) h = HasFuel fuel h × IsFair d.ports

-- The same, while port `c` is being enabled.
abbrev Keeps : ℕ → ℕ → Option Driver → Mem → Type 0
Keeps fuel c none h = HasFuel fuel h
Keeps fuel c (some d) h = HasFuel fuel h × (d.ports.current_port ≡ some c)

to_address-Fine :
    (fuel c speed : ℕ) (r : Option Driver) (h : Mem)
    → Keeps fuel c r h
    → Fine fuel (to_address c speed r) h
unfolding to_address
to_address-Fine fuel c speed none h v = v
to_address-Fine fuel c speed (some d) h (v, e) = (v, rw e tt)

full_speed-Keeps :
    (fuel : ℕ) (seen : Buffer) (slot_id port_id input_ctx ptr c : ℕ) (r : Option Ring) (d : Driver)
    (h : Mem)
    → d.ports.current_port ≡ some c
    → HasFuel fuel h
    → Post (Keeps fuel c) (full_speed seen slot_id port_id input_ctx ptr r d h)
unfolding full_speed evaluate send put_context
full_speed-Keeps fuel seen slot_id port_id input_ctx ptr c none d h e v = tt
full_speed-Keeps fuel seen slot_id port_id input_ctx ptr c (some r) d h e v =
    elim (Bool-cases (seen 7 == 0)) [ inl short ↦ rw short (v, e) | inr long ↦ rw long (v, e) ]

address_slot-Fine :
    (fuel : ℕ) (seen : Buffer) (slot_id port_id c value input_ctx_buf : ℕ) (ring : Option Ring)
    (d : Driver) (h : Mem)
    → d.ports.current_port ≡ some c
    → HasFuel fuel h
    → Post (Fine fuel) (address_slot seen slot_id port_id c value input_ctx_buf ring d h)
unfolding address_slot send put_context
address_slot-Fine fuel seen slot_id port_id c value b none d h e v = v
address_slot-Fine fuel seen slot_id port_id c value b (some ring) d h e v =
    elim (Bool-cases (psiv value == 1)) [
      | inl full ↦ rw full (
          Post-and_then (Keeps fuel c) (Fine fuel) _ _
            (full_speed-Keeps fuel seen slot_id port_id (b + 4096 - 32) (v2p (b + 4096)) c
              (if port_id == c then some ring else d.transfer_ring port_id) _ h e v)
            (λ r h' k. to_address-Fine fuel c (psiv value) r h' k))
      | inr other ↦ rw other (to_address-Fine fuel c (psiv value) (some _) h (v, e))
    ]

pub handle_enable_slot-Fine :
    (fuel : ℕ) (read : ℕ → ℕ) (seen : Buffer) (slot_id port_id c : ℕ) (d : Driver) (h : Mem)
    → d.ports.current_port ≡ some c
    → HasFuel fuel h
    → Post (Fine fuel) (handle_enable_slot fuel read seen slot_id port_id c d h)
unfolding handle_enable_slot
handle_enable_slot-Fine fuel read seen slot_id port_id c d h e v =
    Post-and_then (λ a. HasFuel fuel) (Fine fuel) (alloc_mem fuel 2 h) _
      (alloc_mem-HasFuel fuel 2 h (omega arith) (omega arith) v)
      (λ a h1 v1. elim (Bool-cases (a == 0)) [
        | inl null ↦ rw null v1
        | inr page ↦ rw page (
            Post-and_then (λ a. HasFuel fuel) (Fine fuel) (alloc_mem fuel 1 h1) _
              (alloc_mem-HasFuel fuel 1 h1 (omega arith) (omega arith) v1)
              (λ b h2 v2. elim (Bool-cases (b == 0)) [
                | inl null ↦ rw null v2
                | inr page ↦ rw page (
                    Post-and_then (λ a. HasFuel fuel) (Fine fuel) (alloc_mem fuel 1 h2) _
                      (alloc_mem-HasFuel fuel 1 h2 (omega arith) (omega arith) v2)
                      (λ p h3 v3.
                        address_slot-Fine fuel seen slot_id port_id c (read (portsc port_id)) a
                          (new_ring p) d h3 e v3))
              ]))
      ])
