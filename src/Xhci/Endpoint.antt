-- ===== src/Xhci/Endpoint.antt =====
-- How `usb_process_events` of kernel/xhci.c reads a configuration: the walk over its descriptors, and
-- the context of each endpoint.
pub mod Walk
pub mod Context
use vimos_minimal.Base.{
  ◌⊎◌, ◌↔◌, inl, inr, ℕ, zero, suc, ◌+◌, ◌-◌, ◌*◌, ◌/◌, ◌%◌, ◌^◌, ◌≤◌, ◌<◌, min, max, bit_and,
  bit_or, bit_xor, ◌≡◌, refl, sym, ap, ◌∙◌, ◌≢◌, Bool, true, false, ◌&&◌, ◌||◌, not, Option, none,
  some, List, [], ◌∷◌, ◌++◌, map, arith, ltb, leb, ◌==◌, if◌then◌else◌, ltb→lt, lt→ltb, le→ltb,
  leb→le, ==_iff, ==_refl, Bool-cases, nat_cases, length, get_elem?, get_or, set, take, drop,
  replicate, length-append, length-replicate, length-set, get_or-set_self, get_or-set_ne,
  get_or-append_left, get_or-append_right, get_or-append_last, get_or-replicate, u8, u16, u32, u64,
  sub32, sub64,
}
use vimos_minimal.Layout.{v2p}
use vimos_minimal.Mem.{M, pure, ◌>>=◌, alloc_mem}
use vimos_minimal.Xhci.Trb.{Trb, setup_stage_trb, status_stage_trb}
use vimos_minimal.Xhci.Ring.{Ring, bit, new_ring, write_ring}
use vimos_minimal.Xhci.Ring.Requests.{Doorbell}

-- The loop of `get_highest_bit`; 8 rounds are enough for a `uint8_t`.
unfoldable pub highest_bit_loop : ℕ → ℕ → ℕ → ℕ
highest_bit_loop zero b r = r
highest_bit_loop (suc fuel) b r =
    let rest = highest_bit_loop fuel (b / 2) (r + 1) in if b == 0 then r else rest

unfoldable pub get_highest_bit : ℕ → ℕ
get_highest_bit b = highest_bit_loop 8 b 0

-- The fields of `struct endpoint_context` that are written.
pub record EndpointContext : Type 0 where
  pub ep_type : ℕ
  pub tr_pointer : ℕ
  pub max_packet_size : ℕ
  pub max_burst_size : ℕ
  pub mult : ℕ
  pub max_payload_lo : ℕ
  pub max_payload_hi : ℕ
  pub interval : ℕ
  pub max_pstreams : ℕ
  pub cerr : ℕ
  pub average_length : ℕ

-- The bytes at `dev_buf`, by their offset. An endpoint descriptor stands at `p`.
abbrev pub Buffer : Type 0
Buffer = ℕ → ℕ

abbrev pub direction : Buffer → ℕ → ℕ
direction buf p = buf (p + 2) / 2 ^ 7

abbrev pub attributes : Buffer → ℕ → ℕ
attributes buf p = buf (p + 3) % 4

abbrev pub packet_size : Buffer → ℕ → ℕ
packet_size buf p = buf (p + 4) + 2 ^ 8 * buf (p + 5)

-- `ep_in_dci`.
unfoldable pub dci_of : Buffer → ℕ → ℕ
dci_of buf p = 2 * (buf (p + 2) % 2 ^ 4) + direction buf p

-- The three assignments to `ep_type`; other endpoints keep what was there.
unfoldable pub ep_type_of : ℕ → ℕ → ℕ → ℕ
ep_type_of attr dir old =
    if attr == 3
    then (if dir == 0 then 3 else 7)
    else if attr == 1
    then (if dir == 0 then 1 else 5)
    else if attr == 2
    then (if dir == 0 then 2 else 6)
    else old

-- `interval`, for the speed of the device (1 is full speed, 2 is low speed).
unfoldable pub interval_of : ℕ → ℕ → ℕ → ℕ
interval_of speed attr b_interval =
    if speed == 1 || speed == 2
    then (if attr == 1 then u8 (b_interval + 2) else u8 (get_highest_bit b_interval + 3))
    else u8 (b_interval + 255)

unfoldable pub endpoint_context : Buffer → ℕ → ℕ → Ring → EndpointContext → EndpointContext
endpoint_context buf p speed endpoint old =
    let attr = attributes buf p in
    let size = packet_size buf p in
    let burst = size / 2 ^ 11 % 4 in
    let emit_payload = u32 (size * (burst + 1)) in
    record {
      ep_type = ep_type_of attr (direction buf p) old.ep_type;
      tr_pointer = bit_or (v2p endpoint.buf) (bit endpoint.cycle_bit);
      max_packet_size = size;
      max_burst_size = burst;
      mult = 0;
      max_payload_lo = emit_payload % 2 ^ 16;
      max_payload_hi = emit_payload / 2 ^ 16 % 2 ^ 8;
      interval = interval_of speed attr (buf (p + 6));
      max_pstreams = 0;
      cerr = if attr == 1 then 0 else 3;
      average_length = if attr == 3 then 1024 else 3 * 1024;
    }

-- The variables of the walk: the class of the last interface, the input context, the default pipe's
-- ring, the doorbells rung, and the keyboard's ring and index, where one was found.
pub record Parse : Type 0 where
  pub class_code : ℕ
  pub subclass_code : ℕ
  pub interface : ℕ
  pub a_flags : ℕ
  pub context_entries : ℕ
  pub epctx : ℕ → EndpointContext
  pub transfer_ring : Ring
  pub doorbells : List Doorbell
  pub keyboard : Option (Ring × ℕ)

unfoldable pub interface_step : Buffer → ℕ → Parse → Parse
interface_step buf p st = record st {
  class_code = buf (p + 5);
  subclass_code = buf (p + 6);
  interface = buf (p + 7);
}

-- SET_CONFIGURATION without a data stage.
unfoldable pub set_configuration_setup : ℕ → Trb
set_configuration_setup configuration_value = setup_stage_trb 0 9 configuration_value 0 0 0

-- HID, boot interface, keyboard, and an interrupt endpoint of the direction IN.
unfoldable pub is_keyboard : Buffer → ℕ → Parse → Bool
is_keyboard buf p st =
    st.class_code == 3
    && st.subclass_code == 1
    && st.interface == 1
    && direction buf p == 1
    && attributes buf p == 3

-- The configuration is set, and the endpoint is the keyboard's.
unfoldable pub choose_keyboard : ℕ → ℕ → Ring → ℕ → Parse → Parse
choose_keyboard slot_id configuration_value endpoint dci st = record st {
  transfer_ring =
      write_ring (write_ring st.transfer_ring (set_configuration_setup configuration_value))
        (status_stage_trb 1 1);
  doorbells = st.doorbells ++ record { reg = slot_id; val = 1 } ∷ [];
  keyboard = some (endpoint, dci);
}

-- An endpoint descriptor, with the endpoint's new ring. What index 0, the default endpoint for the
-- direction OUT, writes before the array `epctx` is left out.
unfoldable pub endpoint_step : Buffer → ℕ → ℕ → ℕ → ℕ → Ring → Parse → Parse
endpoint_step buf p speed slot_id configuration_value endpoint st0 =
    let dci = dci_of buf p in
    let st = record st0 {
      a_flags = bit_or st0.a_flags (2 ^ dci);
      context_entries = if leb st0.context_entries dci then dci else st0.context_entries;
      epctx = λ i.
          if i + 1 == dci then endpoint_context buf p speed endpoint (st0.epctx i) else st0.epctx i;
    } in
    if is_keyboard buf p st then choose_keyboard slot_id configuration_value endpoint dci st else st

-- Where the next descriptor starts: the loop ends at `end` or at a length of 0.
unfoldable pub goes_on : Buffer → ℕ → ℕ → Bool
goes_on buf p end = ltb p end && not (buf p == 0)

-- The offsets of the descriptors, in order. The lengths are not 0, so that the bytes that are left
-- are enough as fuel.
unfoldable pub walk : ℕ → Buffer → ℕ → ℕ → List ℕ
walk zero buf p end = []
walk (suc fuel) buf p end =
    let rest = walk fuel buf (p + buf p) end in if goes_on buf p end then p ∷ rest else []

-- `none` stands for `panic`.
unfoldable pub endpoint_with : Buffer → ℕ → ℕ → ℕ → ℕ → Option Ring → Parse → Option Parse
endpoint_with buf p speed slot_id configuration_value none st = none
endpoint_with buf p speed slot_id configuration_value (some endpoint) st =
    some (endpoint_step buf p speed slot_id configuration_value endpoint st)

-- One descriptor. For an endpoint a page is allocated for `struct ring`, and another by `new_ring`.
unfoldable pub parse_step : ℕ → Buffer → ℕ → ℕ → ℕ → ℕ → Parse → M (Option Parse)
parse_step fuel buf speed slot_id configuration_value p st =
    if buf (p + 1) == 4
    then pure (some (interface_step buf p st))
    else if buf (p + 1) == 5
    then (do
      endpoint ← alloc_mem fuel 1
      if endpoint == 0 then pure none else do
        page ← alloc_mem fuel 1
        pure (endpoint_with buf p speed slot_id configuration_value (new_ring page) st))
    else pure (some st)

unfoldable pub parse_loop : ℕ → Buffer → ℕ → ℕ → ℕ → List ℕ → Option Parse → M (Option Parse)
parse_loop fuel buf speed slot_id value ps none = pure none
parse_loop fuel buf speed slot_id value [] (some st) = pure (some st)
parse_loop fuel buf speed slot_id value (p ∷ ps) (some st) = do
  next ← parse_step fuel buf speed slot_id value p st
  parse_loop fuel buf speed slot_id value ps next
