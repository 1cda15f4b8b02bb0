-- ===== src/Xhci/Ports/Order.antt =====
-- Whose turn it is among the ports of kernel/xhci.c.
use vimos_minimal.Base.{
  inl, inr, ℕ, zero, suc, ◌+◌, ◌*◌, ◌/◌, ◌%◌, ◌≤◌, bit_and, ◌≡◌, refl, ◌∙◌, false, Option, none,
  some, arith, ◌==◌, if◌then◌else◌, Bool-cases, nat_cases,
}
use vimos_minimal.Base.Bits.{bit_and_mask}
use vimos_minimal.Xhci.Ports.{
  DeviceStatus, reset, wait_enable_slot, enable_slot, address_device, get_descriptor,
  end_of_initialize, is_waiting, Ports, put, portsc, send_enable_slot, begin_port,
  port_status_change, slot_enabled, scrolled, wait_loop, start_next, addressed, Step, change,
  enabled, address, Reachable, start, next,
}

-- Where no port was found, none of the ports 1 to `n` waits.
abbrev pub NoneWaits : ℕ → Option ℕ → (ℕ → DeviceStatus) → Type 0
NoneWaits n none state = (i : ℕ) → 1 ≤ i → i ≤ n → is_waiting (state i) ≡ false
NoneWaits n (some c) state = Unit {0}

NoneWaits-suc :
    (n : ℕ) (cur : Option ℕ) (state : ℕ → DeviceStatus)
    → is_waiting (state (n + 1)) ≡ false
    → NoneWaits n cur state
    → NoneWaits (n + 1) cur state
NoneWaits-suc n none state e v = λ i lo hi. elim (nat_cases i (n + 1)) [
  | inl less ↦ v i lo (omega arith)
  | inr (inl same) ↦ rw same e
  | inr (inr more) ↦ absurd (omega arith)
]
NoneWaits-suc n (some c) state e v = tt

NoneWaits-wait_loop :
    (count i : ℕ) (state : ℕ → DeviceStatus) (cur : Option ℕ)
    → NoneWaits i cur state
    → NoneWaits (i + count) (wait_loop count i state cur) state
unfolding wait_loop
NoneWaits-wait_loop zero i state cur v = let e : i + 0 ≡ i = omega arith in rw e v
NoneWaits-wait_loop (suc count) i state cur v =
    let e : i + suc count ≡ i + 1 + count = omega arith in
    rw e (
      NoneWaits-wait_loop count (i + 1) state
        (if is_waiting (state (i + 1)) then some (i + 1) else cur)
        (elim (Bool-cases (is_waiting (state (i + 1)))) [
          | inl found ↦ rw found tt
          | inr other ↦ rw other (NoneWaits-suc i cur state other v)
        ]))

-- While no port is being enabled, no port waits.
abbrev pub IsFair : Ports → Type 0
IsFair st = NoneWaits 256 st.current_port st.state

begin_port-IsFair :
    (port : ℕ) (cur : Option ℕ) (st : Ports)
    → st.current_port ≡ cur
    → IsFair (begin_port port cur st)
unfolding begin_port
begin_port-IsFair port none st e = tt
begin_port-IsFair port (some c) st e = rw e tt

pub port_status_change-IsFair :
    (read : ℕ → ℕ) (port : ℕ) (st : Ports) → IsFair st → IsFair (port_status_change read port st)
unfolding port_status_change send_enable_slot scrolled
port_status_change-IsFair read port st v =
    elim (Bool-cases (read (bit_and (portsc port) 0x01) == 0)) [
      | inl off ↦ rw off v
      | inr on ↦ elim (Bool-cases ((read (portsc port) / 2 % 2) == 1)) [
        | inl ped ↦
            rw (on, ped)
              (begin_port-IsFair port st.current_port (send_enable_slot (scrolled st)) refl)
        | inr other ↦ rw (on, other) v
      ]
    ]

slot_enabled-IsFair :
    (c : ℕ) (s : DeviceStatus) (st : Ports)
    → st.current_port ≡ some c
    → IsFair (slot_enabled c s st)
unfolding slot_enabled
slot_enabled-IsFair c enable_slot st e = rw e tt
slot_enabled-IsFair c reset st e = rw e tt
slot_enabled-IsFair c wait_enable_slot st e = rw e tt
slot_enabled-IsFair c address_device st e = rw e tt
slot_enabled-IsFair c get_descriptor st e = rw e tt
slot_enabled-IsFair c end_of_initialize st e = rw e tt

start_next-IsFair :
    (found : Option ℕ) (st : Ports) → NoneWaits 256 found st.state → IsFair (start_next found st)
unfolding start_next send_enable_slot
start_next-IsFair none st v = v
start_next-IsFair (some port) st v = tt

pub addressed-IsFair :
    (c : ℕ) (s : DeviceStatus) (st : Ports) → st.current_port ≡ some c → IsFair (addressed c s st)
unfolding addressed
addressed-IsFair c address_device st e =
    start_next-IsFair (wait_loop 256 0 (put c get_descriptor st.state) none)
      (record st { state = put c get_descriptor st.state })
      (NoneWaits-wait_loop 256 0 (put c get_descriptor st.state) none
        (λ i lo hi. absurd (omega arith)))
addressed-IsFair c reset st e = rw e tt
addressed-IsFair c wait_enable_slot st e = rw e tt
addressed-IsFair c enable_slot st e = rw e tt
addressed-IsFair c get_descriptor st e = rw e tt
addressed-IsFair c end_of_initialize st e = rw e tt

Step-IsFair : {read : ℕ → ℕ} {st st' : Ports} → Step read st st' → IsFair st → IsFair st'
Step-IsFair {read} (change {st} port lo hi) v = port_status_change-IsFair read port st v
Step-IsFair (enabled {st} c e) v = slot_enabled-IsFair c (st.state c) st e
Step-IsFair (address {st} c e) v = addressed-IsFair c (st.state c) st e

-- After any sequence of port changes and command completions, whatever the registers read, from a
-- state in which this holds, none of the ports 1 to 256 waits for its slot while no port is being
-- enabled.
pub Reachable-IsFair :
    {read : ℕ → ℕ} {from st : Ports} → Reachable read from st → IsFair from → IsFair st
Reachable-IsFair start v = v
Reachable-IsFair (next r s) v = Step-IsFair s (Reachable-IsFair r v)

-- The first test reads USBCMD, whatever the port is: where that reads 0, no command is sent and no
-- port is reset.
port_status_change-command :
    (read : ℕ → ℕ) (port : ℕ) (st : Ports)
    → read 0 ≡ 0
    → port_status_change read port st ≡ scrolled st
unfolding port_status_change portsc
port_status_change-command read port st e =
    let even : bit_and (0x3f0 + 0x10 * port) 0x01 ≡ 0 =
      bit_and_mask 1 (0x3f0 + 0x10 * port) ∙ (omega arith) in
    rw (even, e) refl
