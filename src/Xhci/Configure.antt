-- ===== src/Xhci/Configure.antt =====
-- The transfer event of `usb_process_events` in kernel/xhci.c: the loop over a device's configurations.
use vimos_minimal.Base.{
  ℕ, zero, suc, ◌+◌, ◌*◌, ◌^◌, ◌||◌, Option, none, some, [], ◌∷◌, ◌++◌, ◌==◌, if◌then◌else◌,
}
use vimos_minimal.Layout.{v2p}
use vimos_minimal.Mem.{M, pure, ◌>>=◌, fault, alloc_mem}
use vimos_minimal.Xhci.Trb.{configure_endpoint_command}
use vimos_minimal.Xhci.Ring.{Ring}
use vimos_minimal.Xhci.Ring.Requests.{get_descriptor_noreport}
use vimos_minimal.Xhci.Endpoint.{Buffer, Parse, walk, parse_loop}
use vimos_minimal.Xhci.Ports.{
  DeviceStatus, get_descriptor, end_of_initialize, reset, wait_enable_slot, enable_slot,
  address_device, put,
}
use vimos_minimal.Xhci.Slot.{SlotContext, Driver, clear_endpoint, put_context, send}

-- `classCode`, `subClassCode` and `interface`, which the rounds of the loop pass on.
pub record Class : Type 0 where
  pub class_code : ℕ
  pub subclass_code : ℕ
  pub interface : ℕ

abbrev pub class_of : Parse → Class
class_of st = record {
  class_code = st.class_code;
  subclass_code = st.subclass_code;
  interface = st.interface;
}

unfoldable pub total_length : Buffer → ℕ
total_length buf = buf 2 + 2 ^ 8 * buf 3

-- Before the walk over a configuration: the slot context is the device's, and no endpoint is set.
unfoldable pub parse_start : SlotContext → Ring → Class → Parse
parse_start slotctx r c = record {
  class_code = c.class_code;
  subclass_code = c.subclass_code;
  interface = c.interface;
  a_flags = 0x01;
  context_entries = slotctx.context_entries;
  epctx = λ i. clear_endpoint;
  transfer_ring = r;
  doorbells = [];
  keyboard = none;
}

-- Where the configuration was set, the keyboard's ring is kept and the endpoints are configured.
unfoldable pub configure_keyboard : ℕ → ℕ → Option (Ring × ℕ) → Driver → Driver
configure_keyboard input_ctx slot_id none d = d
configure_keyboard input_ctx slot_id (some (endpoint, dci)) d =
    send (configure_endpoint_command (v2p input_ctx) slot_id)
      (record d { keyboard = some (endpoint, slot_id, dci) })

-- What the walk has left in the input context, on the ring and among the doorbells.
unfoldable pub keep_parse : (port_id input_ctx : ℕ) → SlotContext → Parse → Driver → Driver
keep_parse port_id input_ctx slotctx st d =
    put_context (v2p (input_ctx + 0x20))
      (record {
        a_flags = st.a_flags;
        slotctx = record slotctx { context_entries = st.context_entries };
        epctx = st.epctx;
      })
      (record d {
        transfer_ring = λ p. if p == port_id then some st.transfer_ring else d.transfer_ring p;
        doorbells = d.doorbells ++ st.doorbells;
      })

-- The end of a round.
unfoldable pub configured : (slot_id port_id input_ctx : ℕ) → SlotContext → Parse → Driver → Driver
configured slot_id port_id input_ctx slotctx st d0 =
    let d =
      configure_keyboard input_ctx slot_id st.keyboard
        (keep_parse port_id input_ctx slotctx st d0) in
    record d { ports = record d.ports { state = put port_id end_of_initialize d.ports.state } }

unfoldable pub configured_with :
    (slot_id port_id input_ctx : ℕ) → SlotContext → Driver → Option Parse → Option (Driver × Class)
configured_with slot_id port_id input_ctx slotctx d none = none
configured_with slot_id port_id input_ctx slotctx d (some st) =
    some (configured slot_id port_id input_ctx slotctx st d, class_of st)

-- One configuration, where `seen` is what the buffer holds when it is looked at. A NULL ring is
-- written through.
unfoldable pub configure :
    (fuel : ℕ)
    → Buffer
    → (slot_id port_id desc_index : ℕ) → Option Ring
    → Driver
    → Class
    → M (Option (Driver × Class))
configure fuel seen slot_id port_id desc_index none d c = λ h. fault
configure fuel seen slot_id port_id desc_index (some r) d0 c = do
  let (r', bell) = get_descriptor_noreport r slot_id 2 desc_index (d0.buf port_id) 512
  let d = record d0 { doorbells = d0.doorbells ++ bell ∷ [] }
  input_ctx ← alloc_mem fuel 1
  if input_ctx == 0 then pure none else do
    let slotctx = (d.contexts (d.device_contexts slot_id)).slotctx
    st ←
        parse_loop fuel seen (d.speed port_id) slot_id (seen 5)
          (walk (total_length seen) seen (seen 0) (total_length seen))
          (some (parse_start slotctx r' c))
    pure (configured_with slot_id port_id input_ctx slotctx d st)

-- The loop over `desc_index`; the first argument counts the configurations that are left.
unfoldable pub configure_loop :
    (left : ℕ)
    → (fuel : ℕ) → (ℕ → Buffer)
    → (slot_id port_id desc_index : ℕ) → Option (Driver × Class)
    → M (Option Driver)
configure_loop left fuel seen slot_id port_id desc_index none = pure none
configure_loop zero fuel seen slot_id port_id desc_index (some (d, c)) = pure (some d)
configure_loop (suc left) fuel seen slot_id port_id desc_index (some (d, c)) = do
  next ← configure fuel (seen desc_index) slot_id port_id desc_index (d.transfer_ring port_id) d c
  configure_loop left fuel seen slot_id port_id (desc_index + 1) next

-- A device whose descriptor has come in is configured; `desc` is the descriptor.
unfoldable pub on_descriptor :
    (fuel : ℕ)
    → (desc : Buffer) → (ℕ → Buffer)
    → (slot_id port_id : ℕ) → DeviceStatus
    → Driver
    → M (Option Driver)
on_descriptor fuel desc seen slot_id port_id get_descriptor d =
    configure_loop (desc 17) fuel seen slot_id port_id 0
      (some (d, record { class_code = desc 4; subclass_code = desc 5; interface = 0 }))
on_descriptor fuel desc seen slot_id port_id reset d = pure (some d)
on_descriptor fuel desc seen slot_id port_id wait_enable_slot d = pure (some d)
on_descriptor fuel desc seen slot_id port_id enable_slot d = pure (some d)
on_descriptor fuel desc seen slot_id port_id address_device d = pure (some d)
on_descriptor fuel desc seen slot_id port_id end_of_initialize d = pure (some d)

-- Success, or a short packet. The port is the one that the slot's context names.
unfoldable pub transfer_event :
    (fuel : ℕ) → (desc : Buffer) → (ℕ → Buffer) → (slot_id code : ℕ) → Driver → M (Option Driver)
transfer_event fuel desc seen slot_id code d =
    let port_id = (d.contexts (d.device_contexts slot_id)).slotctx.root_hub_port_num in
    if code == 1 || code == 13
    then on_descriptor fuel desc seen slot_id port_id (d.ports.state port_id) d
    else pure (some d)
