-- ===== src/Xhci/Dispatch.antt =====
-- `usb_process_events` of kernel/xhci.c: the events that are queued, each handled by its type.
pub mod Fair
pub mod Configured
pub mod Event
pub mod Queue
pub mod Drain
use vimos_minimal.Base.{
  ◌⊎◌, ◌↔◌, inl, inr, ℕ, zero, suc, ◌+◌, ◌-◌, ◌*◌, ◌/◌, ◌%◌, ◌^◌, ◌≤◌, ◌<◌, min, max, bit_and,
  bit_or, bit_xor, ◌≡◌, refl, sym, ap, ◌∙◌, ◌≢◌, Bool, true, false, ◌&&◌, ◌||◌, not, Option, none,
  some, List, [], ◌∷◌, ◌++◌, map, arith, ltb, leb, ◌==◌, if◌then◌else◌, ltb→lt, lt→ltb, le→ltb,
  leb→le, ==_iff, ==_refl, Bool-cases, nat_cases, length, get_elem?, get_or, set, take, drop,
  replicate, length-append, length-replicate, length-set, get_or-set_self, get_or-set_ne,
  get_or-append_left, get_or-append_right, get_or-append_last, get_or-replicate, u8, u16, u32, u64,
  sub32, sub64,
}
use vimos_minimal.Mem.{M, pure, ◌>>=◌, fault, out_of_fuel}
use vimos_minimal.Xhci.Trb.{Trb}
use vimos_minimal.Xhci.Ring.{Ring}
use vimos_minimal.Xhci.Ring.Requests.{Doorbell, get_descriptor as request_descriptor}
use vimos_minimal.Xhci.Events.{EventRing, get_eventring}
use vimos_minimal.Xhci.Endpoint.{Buffer}
use vimos_minimal.Xhci.Ports.{
  DeviceStatus, get_descriptor, end_of_initialize, reset, wait_enable_slot, enable_slot,
  address_device, Ports, port_status_change, addressed,
}
use vimos_minimal.Xhci.Slot.{Driver, handle_enable_slot}
use vimos_minimal.Xhci.Configure.{transfer_event}

-- The fields of an event.
unfoldable pub type_of : Trb → ℕ
type_of t = t.w3 / 2 ^ 10 % 2 ^ 6

unfoldable pub slot_of : Trb → ℕ
slot_of t = t.w3 / 2 ^ 24 % 2 ^ 8

unfoldable pub code_of : Trb → ℕ
code_of t = t.w2 / 2 ^ 24 % 2 ^ 8

unfoldable pub port_of : Trb → ℕ
port_of t = t.w0 / 2 ^ 24 % 2 ^ 8

unfoldable pub ptr_of : Trb → ℕ
ptr_of t = t.w0 + 2 ^ 32 * t.w1

-- What the controller and the device have left where the driver looks for one event and handles it:
-- the page of the event ring, the operational registers, the type of the block at a physical address,
-- the buffer of the port's device after a request of 8 bytes and at the event, and for each of its
-- configurations. `next` is what the load of `next` from a `struct device_state` at an address gives,
-- NULL included, and `none` where it faults.
pub record Seen : Type 0 where
  pub page : List Trb
  pub next : ℕ → Option ℕ
  pub read : ℕ → ℕ
  pub issuer_type : ℕ → ℕ
  pub first_bytes : Buffer
  pub device : Buffer
  pub configurations : ℕ → Buffer

unfoldable pub start_at : Option ℕ → Driver → M (Option Driver)
start_at none d = λ h. fault
start_at (some p) d = pure (some (record d { start = p }))

-- `start = start->next`, where the driver has not panicked before.
unfoldable pub next_start : Seen → Option Driver → M (Option Driver)
unfolding start_at
next_start seen none = pure none
next_start seen (some d) = start_at (seen.next d.start) d

-- The end of the branch for the Address Device command. A NULL ring is written through.
unfoldable pub request_device :
    Seen → (slot_id port_id c : ℕ) → Option Ring → Driver → M (Option Driver)
unfolding next_start
request_device seen slot_id port_id c none d = λ h. fault
request_device seen slot_id port_id c (some r) d =
    let (r', bell) = request_descriptor r slot_id 1 0 (d.buf c) 512 in
    next_start seen (
      some (record d {
        transfer_ring = λ p. if p == port_id then some r' else d.transfer_ring p;
        doorbells = d.doorbells ++ bell ∷ [];
        ports = addressed c address_device d.ports;
      }))

-- What the state of the current port says about the completion of an Enable Slot command.
unfoldable pub slot_done :
    (fuel : ℕ) → Seen → (slot_id port_id c : ℕ) → DeviceStatus → Driver → M (Option Driver)
slot_done fuel seen slot_id port_id c enable_slot d = do
  d' ← handle_enable_slot fuel seen.read seen.first_bytes slot_id port_id c d
  next_start seen d'
slot_done fuel seen slot_id port_id c reset d = pure (some d)
slot_done fuel seen slot_id port_id c wait_enable_slot d = pure (some d)
slot_done fuel seen slot_id port_id c address_device d = pure (some d)
slot_done fuel seen slot_id port_id c get_descriptor d = pure (some d)
slot_done fuel seen slot_id port_id c end_of_initialize d = pure (some d)

-- The same for an Address Device command.
unfoldable pub address_done :
    Seen → (slot_id port_id c : ℕ) → DeviceStatus → Driver → M (Option Driver)
address_done seen slot_id port_id c address_device d =
    request_device seen slot_id port_id c (d.transfer_ring port_id) d
address_done seen slot_id port_id c reset d = pure (some d)
address_done seen slot_id port_id c wait_enable_slot d = pure (some d)
address_done seen slot_id port_id c enable_slot d = pure (some d)
address_done seen slot_id port_id c get_descriptor d = pure (some d)
address_done seen slot_id port_id c end_of_initialize d = pure (some d)

-- The two branches, by the type of the block that the event points to. Without a current port
-- they read before the array `device_status`, which is taken to fault.
unfoldable pub command_done :
    (fuel : ℕ) → Seen → (issuer slot_id port_id : ℕ) → Option ℕ → Driver → M (Option Driver)
command_done fuel seen issuer slot_id port_id none d =
    if issuer == 9 || issuer == 11 then (λ h. fault) else pure (some d)
command_done fuel seen issuer slot_id port_id (some c) d =
    if issuer == 9
    then slot_done fuel seen slot_id port_id c (d.ports.state c) d
    else if issuer == 11
    then address_done seen slot_id port_id c (d.ports.state c) d
    else pure (some d)

-- `uint8_t port_id = current_port;`, where -1 becomes 255.
unfoldable pub byte_of : Option ℕ → ℕ
byte_of none = 255
byte_of (some c) = u8 c

unfoldable pub command_completion :
    (fuel : ℕ) → Seen → (issuer slot_id : ℕ) → Driver → M (Option Driver)
command_completion fuel seen issuer slot_id d =
    let ptr = d.device_contexts slot_id in
    let port_id =
      if ptr == 0
      then byte_of d.ports.current_port
      else (d.contexts ptr).slotctx.root_hub_port_num in
    command_done fuel seen issuer slot_id port_id d.ports.current_port d

-- One event.
unfoldable pub dispatch : (fuel : ℕ) → Seen → Trb → Driver → M (Option Driver)
dispatch fuel seen t d =
    if type_of t == 32
    then transfer_event fuel seen.device seen.configurations (slot_of t) (code_of t) d
    else if type_of t == 33
    then command_completion fuel seen (seen.issuer_type (ptr_of t)) (slot_of t) d
    else if type_of t == 34
    then pure (some (record d { ports = port_status_change seen.read (port_of t) d.ports }))
    else pure (some d)

-- The ring, with the page as the driver finds it.
abbrev pub looked_at : Seen → EventRing → EventRing
looked_at seen e = record e { slots = seen.page }

abbrev pub on_event : {A : Type 0} → Option (Trb × EventRing) → A → (Trb → EventRing → A) → A
on_event none idle next = idle
on_event (some (t, e)) idle next = next t e

-- The loop on `rounds`, where `taken` counts the events: the controller may write to the page between
-- one look and the next. `none` stands for `panic`.
unfoldable pub process_loop :
    (rounds fuel : ℕ)
    → (ℕ → Seen)
    → (taken : ℕ) → EventRing
    → Option Driver
    → M (Option (EventRing × Driver))
process_loop rounds fuel seen taken e none = pure none
process_loop zero fuel seen taken e (some d) = λ h. out_of_fuel
process_loop (suc rounds) fuel seen taken e (some d) =
    let e0 = looked_at (seen taken) e in
    on_event (get_eventring e0) (pure (some (e0, d))) (λ t e'. do
      d' ← dispatch fuel (seen taken) t d
      process_loop rounds fuel seen (taken + 1) e' d')

unfoldable pub usb_process_events :
    (rounds fuel : ℕ) → (ℕ → Seen) → EventRing → Driver → M (Option (EventRing × Driver))
usb_process_events rounds fuel seen e d = process_loop rounds fuel seen 0 e (some d)
