-- ===== src/Xhci/Dispatch/Event.antt =====
-- What one event leaves of the free list and the ports.
use vimos_minimal.Base.{inl, inr, ℕ, ◌≡◌, refl, ◌||◌, Option, none, some, ◌==◌, Bool-cases}
use vimos_minimal.Mem.{Mem}
use vimos_minimal.Mem.Post.{Post, Post-and_then, HasFuel}
use vimos_minimal.Xhci.Trb.{Trb}
use vimos_minimal.Xhci.Ring.{Ring}
use vimos_minimal.Xhci.Ports.{
  DeviceStatus, get_descriptor, end_of_initialize, reset, wait_enable_slot, enable_slot,
  address_device,
}
use vimos_minimal.Xhci.Ports.Order.{IsFair, port_status_change-IsFair, addressed-IsFair}
use vimos_minimal.Xhci.Slot.{Driver}
use vimos_minimal.Xhci.Dispatch.{
  Seen, start_at, next_start, type_of, slot_of, code_of, port_of, request_device, slot_done,
  address_done, command_done, command_completion, dispatch,
}
use vimos_minimal.Xhci.Dispatch.Fair.{Fine, handle_enable_slot-Fine}
use vimos_minimal.Xhci.Dispatch.Configured.{transfer_event-Fine}

module _ (fuel : ℕ) (seen : Seen) (slot_id port_id : ℕ) (d : Driver) (h : Mem) (f : IsFair d.ports)
    (v : HasFuel fuel h) where
  start_at-Fine :
      (d' : Driver) (h' : Mem) (next : Option ℕ)
      → Fine fuel (some d') h'
      → Post (Fine fuel) (start_at next d' h')
  unfolding start_at
  start_at-Fine d' h' none w = tt
  start_at-Fine d' h' (some p) w = w

  next_start-Fine :
      (r : Option Driver) (h' : Mem) → Fine fuel r h' → Post (Fine fuel) (next_start seen r h')
  unfolding next_start
  next_start-Fine none h' w = w
  next_start-Fine (some d') h' w = start_at-Fine d' h' (seen.next d'.start) w

  request_device-Fine :
      (c : ℕ) (r : Option Ring)
      → d.ports.current_port ≡ some c
      → Post (Fine fuel) (request_device seen slot_id port_id c r d h)
  unfolding request_device
  request_device-Fine c none e = tt
  request_device-Fine c (some r) e =
      start_at-Fine _ h _ (v, addressed-IsFair c address_device d.ports e)

  slot_done-Fine :
      (c : ℕ) (s : DeviceStatus)
      → d.ports.current_port ≡ some c
      → Post (Fine fuel) (slot_done fuel seen slot_id port_id c s d h)
  unfolding slot_done
  slot_done-Fine c enable_slot e =
      Post-and_then (Fine fuel) (Fine fuel) _ _
        (handle_enable_slot-Fine fuel seen.read seen.first_bytes slot_id port_id c d h e v)
        (λ d' h' w. next_start-Fine d' h' w)
  slot_done-Fine c reset e = (v, f)
  slot_done-Fine c wait_enable_slot e = (v, f)
  slot_done-Fine c address_device e = (v, f)
  slot_done-Fine c get_descriptor e = (v, f)
  slot_done-Fine c end_of_initialize e = (v, f)

  address_done-Fine :
      (c : ℕ) (s : DeviceStatus)
      → d.ports.current_port ≡ some c
      → Post (Fine fuel) (address_done seen slot_id port_id c s d h)
  unfolding address_done
  address_done-Fine c address_device e = request_device-Fine c (d.transfer_ring port_id) e
  address_done-Fine c reset e = (v, f)
  address_done-Fine c wait_enable_slot e = (v, f)
  address_done-Fine c enable_slot e = (v, f)
  address_done-Fine c get_descriptor e = (v, f)
  address_done-Fine c end_of_initialize e = (v, f)

  command_done-Fine :
      (issuer : ℕ) (cur : Option ℕ)
      → d.ports.current_port ≡ cur
      → Post (Fine fuel) (command_done fuel seen issuer slot_id port_id cur d h)
  unfolding command_done
  command_done-Fine issuer none e = elim (Bool-cases (issuer == 9 || issuer == 11)) [
    | inl one ↦ rw one tt
    | inr other ↦ rw other (v, f)
  ]
  command_done-Fine issuer (some c) e = elim (Bool-cases (issuer == 9)) [
    | inl slot ↦ rw slot (slot_done-Fine c (d.ports.state c) e)
    | inr other ↦ elim (Bool-cases (issuer == 11)) [
      | inl address ↦ rw (other, address) (address_done-Fine c (d.ports.state c) e)
      | inr neither ↦ rw (other, neither) (v, f)
    ]
  ]

pub dispatch-Fine :
    (fuel : ℕ) (seen : Seen) (t : Trb) (d : Driver) (h : Mem)
    → IsFair d.ports
    → HasFuel fuel h
    → Post (Fine fuel) (dispatch fuel seen t d h)
unfolding dispatch command_completion
dispatch-Fine fuel seen t d h f v = elim (Bool-cases (type_of t == 32)) [
  | inl transfer ↦
      rw transfer
        (transfer_event-Fine fuel seen.device seen.configurations (slot_of t) (code_of t) d h f v)
  | inr other ↦ elim (Bool-cases (type_of t == 33)) [
    | inl command ↦
        rw (other, command)
          (command_done-Fine fuel seen (slot_of t) _ d h f v _ d.ports.current_port refl)
    | inr none_of ↦ elim (Bool-cases (type_of t == 34)) [
      | inl port ↦
          rw (other, none_of, port) (v, port_status_change-IsFair seen.read (port_of t) d.ports f)
      | inr unknown ↦ rw (other, none_of, unknown) (v, f)
    ]
  ]
]
