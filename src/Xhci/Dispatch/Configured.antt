-- ===== src/Xhci/Dispatch/Configured.antt =====
-- What the configuration of a device leaves of the free list and the ports.
use vimos_minimal.Base.{
  inl, inr, ℕ, zero, suc, ◌+◌, ◌≡◌, refl, ◌||◌, Option, none, some, List, [], ◌∷◌, arith, ◌==◌,
  Bool-cases,
}
use vimos_minimal.Mem.{Mem, alloc_mem}
use vimos_minimal.Mem.Post.{Post, Post-and_then, HasFuel, alloc_mem-HasFuel}
use vimos_minimal.Xhci.Ring.{Ring}
use vimos_minimal.Xhci.Endpoint.{Buffer, Parse, parse_step, parse_loop, walk}
use vimos_minimal.Xhci.Ports.{
  DeviceStatus, get_descriptor, end_of_initialize, reset, wait_enable_slot, enable_slot,
  address_device, put, is_waiting,
}
use vimos_minimal.Xhci.Ports.Order.{IsFair, NoneWaits}
use vimos_minimal.Xhci.Slot.{Driver, SlotContext, send, put_context}
use vimos_minimal.Xhci.Configure.{
  Class, total_length, configure_keyboard, keep_parse, configured, configured_with, configure,
  configure_loop, on_descriptor, transfer_event,
}
use vimos_minimal.Xhci.Dispatch.Fair.{Fine}

parse_step-HasFuel :
    (fuel : ℕ) (buf : Buffer) (speed slot_id value p : ℕ) (st : Parse) (h : Mem)
    → HasFuel fuel h
    → Post (λ a. HasFuel fuel) (parse_step fuel buf speed slot_id value p st h)
unfolding parse_step
parse_step-HasFuel fuel buf speed slot_id value p st h v = elim (Bool-cases (buf (p + 1) == 4)) [
  | inl interface ↦ rw interface v
  | inr other ↦ elim (Bool-cases (buf (p + 1) == 5)) [
    | inr none_of ↦ rw (other, none_of) v
    | inl endpoint ↦
        rw (other, endpoint)
          (Post-and_then (λ a. HasFuel fuel) (λ a. HasFuel fuel) (alloc_mem fuel 1 h) _
            (alloc_mem-HasFuel fuel 1 h (omega arith) (omega arith) v)
            (λ b h1 v1. elim (Bool-cases (b == 0)) [
              | inl null ↦ rw null v1
              | inr page ↦ rw page (
                  Post-and_then (λ a. HasFuel fuel) (λ a. HasFuel fuel) (alloc_mem fuel 1 h1) _
                    (alloc_mem-HasFuel fuel 1 h1 (omega arith) (omega arith) v1) (λ q h2 v2. v2))
            ]))
  ]
]

parse_loop-HasFuel :
    (fuel : ℕ) (buf : Buffer) (speed slot_id value : ℕ) (ps : List ℕ) (st : Option Parse) (h : Mem)
    → HasFuel fuel h
    → Post (λ a. HasFuel fuel) (parse_loop fuel buf speed slot_id value ps st h)
unfolding parse_loop
parse_loop-HasFuel fuel buf speed slot_id value ps none h v = v
parse_loop-HasFuel fuel buf speed slot_id value [] (some st) h v = v
parse_loop-HasFuel fuel buf speed slot_id value (p ∷ ps) (some st) h v =
    Post-and_then (λ a. HasFuel fuel) (λ a. HasFuel fuel)
      (parse_step fuel buf speed slot_id value p st h) _
      (parse_step-HasFuel fuel buf speed slot_id value p st h v)
      (λ next h1 v1. parse_loop-HasFuel fuel buf speed slot_id value ps next h1 v1)

-- A port that is done with waits for nothing.
NoneWaits-put :
    (n : ℕ) (cur : Option ℕ) (state : ℕ → DeviceStatus) (port : ℕ)
    → NoneWaits n cur state
    → NoneWaits n cur (put port end_of_initialize state)
unfolding is_waiting
NoneWaits-put n none state port v = λ i lo hi. elim (Bool-cases (i == port)) [
  | inl same ↦ rw same refl
  | inr other ↦ rw other (v i lo hi)
]
NoneWaits-put n (some c) state port v = tt

configure_keyboard-ports :
    (input_ctx slot_id : ℕ) (k : Option (Ring × ℕ)) (d : Driver)
    → ((configure_keyboard input_ctx slot_id k d).ports.current_port ≡ d.ports.current_port)
      × ((configure_keyboard input_ctx slot_id k d).ports.state ≡ d.ports.state)
unfolding configure_keyboard send
configure_keyboard-ports input_ctx slot_id none d = (refl, refl)
configure_keyboard-ports input_ctx slot_id (some (endpoint, dci)) d = (refl, refl)

abbrev FineClass : ℕ → Option (Driver × Class) → Mem → Type 0
FineClass fuel none h = HasFuel fuel h
FineClass fuel (some (d, c)) h = HasFuel fuel h × IsFair d.ports

configured_with-Fine :
    (fuel slot_id port_id input_ctx : ℕ) (s : SlotContext) (d : Driver) (st : Option Parse)
    (h : Mem)
    → IsFair d.ports
    → HasFuel fuel h
    → FineClass fuel (configured_with slot_id port_id input_ctx s d st) h
unfolding configured_with configured keep_parse put_context
configured_with-Fine fuel slot_id port_id input_ctx s d none h f v = v
configured_with-Fine fuel slot_id port_id input_ctx s d (some st) h f v =
    let (e1, e2) =
      configure_keyboard-ports input_ctx slot_id st.keyboard
        (keep_parse port_id input_ctx s st d) in
    (v, rw (e1, e2) (NoneWaits-put 256 d.ports.current_port d.ports.state port_id f))

configure-Fine :
    (fuel : ℕ) (seen : Buffer) (slot_id port_id i : ℕ) (r : Option Ring) (d : Driver) (c : Class)
    (h : Mem)
    → IsFair d.ports
    → HasFuel fuel h
    → Post (FineClass fuel) (configure fuel seen slot_id port_id i r d c h)
unfolding configure
configure-Fine fuel seen slot_id port_id i none d c h f v = tt
configure-Fine fuel seen slot_id port_id i (some r) d c h f v =
    Post-and_then (λ a. HasFuel fuel) (FineClass fuel) (alloc_mem fuel 1 h) _
      (alloc_mem-HasFuel fuel 1 h (omega arith) (omega arith) v)
      (λ b h1 v1. elim (Bool-cases (b == 0)) [
        | inl null ↦ rw null v1
        | inr page ↦ rw page (
            Post-and_then (λ a. HasFuel fuel) (FineClass fuel) _ _
              (parse_loop-HasFuel fuel seen (d.speed port_id) slot_id (seen 5)
                (walk (total_length seen) seen (seen 0) (total_length seen)) _ h1 v1)
              (λ st h2 v2. configured_with-Fine fuel slot_id port_id b _ _ st h2 f v2))
      ])

configure_loop-Fine :
    (left fuel : ℕ) (seen : ℕ → Buffer) (slot_id port_id i : ℕ) (r : Option (Driver × Class))
    (h : Mem)
    → FineClass fuel r h
    → Post (Fine fuel) (configure_loop left fuel seen slot_id port_id i r h)
unfolding configure_loop
configure_loop-Fine left fuel seen slot_id port_id i none h v = v
configure_loop-Fine zero fuel seen slot_id port_id i (some (d, c)) h v = v
configure_loop-Fine (suc left) fuel seen slot_id port_id i (some (d, c)) h (v, f) =
    Post-and_then (FineClass fuel) (Fine fuel) _ _
      (configure-Fine fuel (seen i) slot_id port_id i (d.transfer_ring port_id) d c h f v)
      (λ next h1 v1. configure_loop-Fine left fuel seen slot_id port_id (i + 1) next h1 v1)

on_descriptor-Fine :
    (fuel : ℕ) (desc : Buffer) (seen : ℕ → Buffer) (slot_id port_id : ℕ) (s : DeviceStatus)
    (d : Driver) (h : Mem)
    → IsFair d.ports
    → HasFuel fuel h
    → Post (Fine fuel) (on_descriptor fuel desc seen slot_id port_id s d h)
unfolding on_descriptor
on_descriptor-Fine fuel desc seen slot_id port_id get_descriptor d h f v =
    configure_loop-Fine (desc 17) fuel seen slot_id port_id 0 (some (d, _)) h (v, f)
on_descriptor-Fine fuel desc seen slot_id port_id reset d h f v = (v, f)
on_descriptor-Fine fuel desc seen slot_id port_id wait_enable_slot d h f v = (v, f)
on_descriptor-Fine fuel desc seen slot_id port_id enable_slot d h f v = (v, f)
on_descriptor-Fine fuel desc seen slot_id port_id address_device d h f v = (v, f)
on_descriptor-Fine fuel desc seen slot_id port_id end_of_initialize d h f v = (v, f)

pub transfer_event-Fine :
    (fuel : ℕ) (desc : Buffer) (seen : ℕ → Buffer) (slot_id code : ℕ) (d : Driver) (h : Mem)
    → IsFair d.ports
    → HasFuel fuel h
    → Post (Fine fuel) (transfer_event fuel desc seen slot_id code d h)
unfolding transfer_event
transfer_event-Fine fuel desc seen slot_id code d h f v =
    elim (Bool-cases (code == 1 || code == 13)) [
      | inl success ↦ rw success (on_descriptor-Fine fuel desc seen slot_id _ _ d h f v)
      | inr other ↦ rw other (v, f)
    ]
