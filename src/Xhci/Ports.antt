-- ===== src/Xhci/Ports.antt =====
-- The states of the ports in `usb_process_events` of kernel/xhci.c. Only what these handlers do to
-- the states, to the port that is being enabled, and to the commands they send themselves is here:
-- what `handle_enable_slot` writes besides, and the request for the device descriptor, change none.
pub mod Order
use vimos_minimal.Base.{
  ◌⊎◌, ◌↔◌, inl, inr, ℕ, zero, suc, ◌+◌, ◌-◌, ◌*◌, ◌/◌, ◌%◌, ◌^◌, ◌≤◌, ◌<◌, min, max, bit_and,
  bit_or, bit_xor, ◌≡◌, refl, sym, ap, ◌∙◌, ◌≢◌, Bool, true, false, ◌&&◌, ◌||◌, not, Option, none,
  some, List, [], ◌∷◌, ◌++◌, map, arith, ltb, leb, ◌==◌, if◌then◌else◌, ltb→lt, lt→ltb, le→ltb,
  leb→le, ==_iff, ==_refl, Bool-cases, nat_cases, length, get_elem?, get_or, set, take, drop,
  replicate, length-append, length-replicate, length-set, get_or-set_self, get_or-set_ne,
  get_or-append_left, get_or-append_right, get_or-append_last, get_or-replicate, u8, u16, u32, u64,
  sub32, sub64,
}
use vimos_minimal.Xhci.Trb.{Trb, enable_slot_command}

-- `USB_DEVICE_STATUS_…`
pub data DeviceStatus : Type 0 where
  reset : DeviceStatus
  wait_enable_slot : DeviceStatus
  enable_slot : DeviceStatus
  address_device : DeviceStatus
  get_descriptor : DeviceStatus
  end_of_initialize : DeviceStatus

unfoldable pub is_waiting : DeviceStatus → Bool
is_waiting reset = false
is_waiting wait_enable_slot = true
is_waiting enable_slot = false
is_waiting address_device = false
is_waiting get_descriptor = false
is_waiting end_of_initialize = false

-- A command for the controller, a write to the register PORTSC of a port, or a call of `scroll_screen`.
pub data Effect : Type 0 where
  command : Trb → Effect
  write_portsc : (port value : ℕ) → Effect
  scroll : Effect

-- `current_port` is -1 where no port is being enabled, here `none`; `state` is by port number, and
-- at 256 it is what lies behind the array.
pub record Ports : Type 0 where
  pub current_port : Option ℕ
  pub state : ℕ → DeviceStatus
  pub effects : List Effect

abbrev pub put : ℕ → DeviceStatus → (ℕ → DeviceStatus) → ℕ → DeviceStatus
put port s state i = if i == port then s else state i

-- The macro `PORTSC`, 0x400 + (0x10 * (n - 1)), where n - 1 is -1 for 0.
unfoldable pub portsc : ℕ → ℕ
portsc n = 0x3f0 + 0x10 * n

unfoldable pub send_enable_slot : Ports → Ports
send_enable_slot st = record st { effects = st.effects ++ command enable_slot_command ∷ [] }

-- The port's turn, or its place in the queue.
unfoldable pub begin_port : ℕ → Option ℕ → Ports → Ports
begin_port port none st = record st {
  current_port = some port;
  state = put port enable_slot st.state;
}
begin_port port (some c) st = record st { state = put port wait_enable_slot st.state }

unfoldable pub scrolled : Ports → Ports
scrolled st = record st { effects = st.effects ++ scroll ∷ [] }

-- A Port Status Change event; `read` gives the operational registers. The first test reads the
-- register `PORTSC(port) & 0x01`.
unfoldable pub port_status_change : (ℕ → ℕ) → ℕ → Ports → Ports
port_status_change read port st0 =
    let st = scrolled st0 in
    let value = read (portsc port) in
    if read (bit_and (portsc port) 0x01) == 0
    then st
    else if (value / 2 % 2) == 1
    then begin_port port st.current_port (send_enable_slot st)
    else record st {
      effects =
          st.effects
          ++ write_portsc port (bit_or (bit_or (bit_and value 0x0e00_c3e0) (2 ^ 17)) 0x10) ∷ [];
    }

-- The state after `handle_enable_slot`, which runs where the current port waits for its slot.
unfoldable pub slot_enabled : ℕ → DeviceStatus → Ports → Ports
slot_enabled c enable_slot st = record st { state = put c address_device st.state }
slot_enabled c reset st = st
slot_enabled c wait_enable_slot st = st
slot_enabled c address_device st = st
slot_enabled c get_descriptor st = st
slot_enabled c end_of_initialize st = st

-- The loop over `device_status`, which keeps the last port that waits.
unfoldable pub wait_loop : ℕ → ℕ → (ℕ → DeviceStatus) → Option ℕ → Option ℕ
wait_loop zero i state cur = cur
wait_loop (suc count) i state cur =
    wait_loop count (i + 1) state (if is_waiting (state (i + 1)) then some (i + 1) else cur)

unfoldable pub start_next : Option ℕ → Ports → Ports
start_next none st = record st { current_port = none }
start_next (some port) st =
    send_enable_slot (record st { current_port = some port; state = put port enable_slot st.state })

-- The completion of an Address Device command, where the current port waits for it.
unfoldable pub addressed : ℕ → DeviceStatus → Ports → Ports
addressed c address_device st0 =
    let st = record st0 { state = put c get_descriptor st0.state } in
    start_next (wait_loop 256 0 st.state none) st
addressed c reset st = st
addressed c wait_enable_slot st = st
addressed c enable_slot st = st
addressed c get_descriptor st = st
addressed c end_of_initialize st = st

-- The events that reach the handlers: a port from 1 to 255 changed, or the command for the current
-- port is complete.
pub data Step (read : ℕ → ℕ) : Ports → Ports → Type 0 where
  change :
      {st : Ports} (port : ℕ)
      → 1 ≤ port
      → port ≤ 255
      → Step read st (port_status_change read port st)
  enabled :
      {st : Ports} (c : ℕ)
      → st.current_port ≡ some c
      → Step read st (slot_enabled c (st.state c) st)
  address :
      {st : Ports} (c : ℕ) → st.current_port ≡ some c → Step read st (addressed c (st.state c) st)

pub data Reachable (read : ℕ → ℕ) (from : Ports) : Ports → Type 0 where
  start : Reachable read from from
  next : {st st' : Ports} → Reachable read from st → Step read st st' → Reachable read from st'
