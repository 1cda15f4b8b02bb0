-- ===== src/Xhci/Slot.antt =====
-- The driver of kernel/xhci.c behind its rings, and `handle_enable_slot`.
use vimos_minimal.Base.{
  ℕ, ◌+◌, ◌-◌, ◌/◌, ◌%◌, ◌^◌, bit_or, Option, none, some, List, [], ◌∷◌, ◌++◌, ◌==◌, if◌then◌else◌,
  u8,
}
use vimos_minimal.Layout.{v2p}
use vimos_minimal.Mem.{M, pure, ◌>>=◌, fault, alloc_mem}
use vimos_minimal.Xhci.Trb.{Trb, init_address_device_command, evaluate_context_command}
use vimos_minimal.Xhci.Ring.{Ring, bit, new_ring}
use vimos_minimal.Xhci.Ring.Requests.{Doorbell, get_descriptor_noreport}
use vimos_minimal.Xhci.Endpoint.{EndpointContext, Buffer}
use vimos_minimal.Xhci.Ports.{Ports, command, put, portsc, address_device}

-- The fields of `struct slot_context` that are written.
pub record SlotContext : Type 0 where
  pub route_string : ℕ
  pub speed : ℕ
  pub context_entries : ℕ
  pub root_hub_port_num : ℕ

pub record InputContext : Type 0 where
  pub a_flags : ℕ
  pub slotctx : SlotContext
  pub epctx : ℕ → EndpointContext

-- `transfer_ring`, `buf` and `speed` are by port number, where `none` is NULL, and `buf` is an address.
-- `device_contexts` is by slot, and `contexts` by the physical address of the slot context. The
-- commands are among the effects of `ports`, and `doorbells` has those of the slots. `start` is the
-- address of the `struct device_state` that it points to.
pub record Driver : Type 0 where
  pub ports : Ports
  pub transfer_ring : ℕ → Option Ring
  pub buf : ℕ → ℕ
  pub speed : ℕ → ℕ
  pub device_contexts : ℕ → ℕ
  pub contexts : ℕ → InputContext
  pub doorbells : List Doorbell
  pub keyboard : Option (Ring × ℕ × ℕ)
  pub start : ℕ

-- `write_ring(&cmd_ring, …); write_xhci_doorbell(0, 0);`
unfoldable pub send : Trb → Driver → Driver
send t d = record d { ports = record d.ports { effects = d.ports.effects ++ command t ∷ [] } }

-- A context that `memset` has cleared.
abbrev pub clear_endpoint : EndpointContext
clear_endpoint = record {
  ep_type = 0;
  tr_pointer = 0;
  max_packet_size = 0;
  max_burst_size = 0;
  mult = 0;
  max_payload_lo = 0;
  max_payload_hi = 0;
  interval = 0;
  max_pstreams = 0;
  cerr = 0;
  average_length = 0;
}

unfoldable pub max_packet_size_of : ℕ → ℕ
max_packet_size_of speed = if speed == 4 then 512 else if speed == 3 then 64 else 8

-- `epctx[0]`, the default control endpoint.
unfoldable pub default_endpoint : ℕ → Ring → EndpointContext
default_endpoint speed ring = record clear_endpoint {
  ep_type = 4;
  tr_pointer = bit_or (v2p ring.buf) (bit ring.cycle_bit);
  cerr = 3;
  average_length = 8;
  max_packet_size = max_packet_size_of speed;
}

-- The input context, in pages that are clear.
unfoldable pub slot_input : ℕ → ℕ → Ring → InputContext
slot_input current_port speed ring = record {
  a_flags = 0x03;
  slotctx = record {
    route_string = 0;
    speed = speed;
    context_entries = 1;
    root_hub_port_num = u8 current_port;
  };
  epctx = λ i. if i == 0 then default_endpoint speed ring else clear_endpoint;
}

-- The field PSIV of a port's register PORTSC.
unfoldable pub psiv : ℕ → ℕ
psiv value = value / 2 ^ 10 % 2 ^ 4

unfoldable pub put_context : ℕ → InputContext → Driver → Driver
put_context ptr ctx d = record d { contexts = λ a. if a == ptr then ctx else d.contexts a }

-- The new packet size of the default endpoint, and the command that tells it to the controller.
unfoldable pub evaluate : ℕ → ℕ → ℕ → ℕ → Driver → Driver
evaluate input_ctx ptr slot_id max_packet d =
    let ctx = d.contexts ptr in
    send (evaluate_context_command (v2p input_ctx) slot_id) (
      put_context ptr
        (record ctx {
          epctx = λ i.
              if i == 0 then record (ctx.epctx i) { max_packet_size = max_packet } else ctx.epctx i;
        })
        d)

-- The request for the first 8 bytes of the device's descriptor, where `seen` is what the buffer
-- holds when it is looked at.
unfoldable pub full_speed : Buffer → ℕ → ℕ → ℕ → ℕ → Option Ring → Driver → M (Option Driver)
full_speed seen slot_id port_id input_ctx ptr none d = λ h. fault
full_speed seen slot_id port_id input_ctx ptr (some r) d0 =
    let (r', bell) = get_descriptor_noreport r slot_id 1 0 (d0.buf port_id) 8 in
    let d = record d0 {
      transfer_ring = λ p. if p == port_id then some r' else d0.transfer_ring p;
      doorbells = d0.doorbells ++ bell ∷ [];
    } in
    pure (some (if seen 7 == 0 then d else evaluate input_ctx ptr slot_id (seen 7) d))

-- The end of `handle_enable_slot`.
unfoldable pub to_address : ℕ → ℕ → Option Driver → Option Driver
to_address c speed none = none
to_address c speed (some d) = some (record d {
  speed = λ p. if p == c then speed else d.speed p;
  ports = record d.ports { state = put c address_device d.ports.state };
})

-- The part of `handle_enable_slot` behind its allocations: `page` is the page of the new ring.
unfoldable pub address_slot :
    Buffer → (slot_id port_id c value input_ctx_buf : ℕ) → Option Ring → Driver → M (Option Driver)
address_slot seen slot_id port_id c value input_ctx_buf none d = pure none
address_slot seen slot_id port_id c value input_ctx_buf (some ring) d0 =
    let speed = psiv value in
    let input_ctx = input_ctx_buf + 4096 - 0x20 in
    let ptr = v2p (input_ctx_buf + 4096) in
    let d1 = record d0 {
      device_contexts = λ s. if s == slot_id then ptr else d0.device_contexts s;
      transfer_ring = λ p. if p == c then some ring else d0.transfer_ring p;
    } in
    let d =
      send (init_address_device_command (v2p input_ctx) slot_id)
        (put_context ptr (slot_input c speed ring) d1) in
    if speed == 1
    then (do
      r ← full_speed seen slot_id port_id input_ctx ptr (d.transfer_ring port_id) d
      pure (to_address c speed r))
    else pure (to_address c speed (some d))

-- `none` stands for `panic`; `read` gives the operational registers, and `c` is `current_port`.
unfoldable pub handle_enable_slot :
    (fuel : ℕ) → (ℕ → ℕ) → Buffer → (slot_id port_id c : ℕ) → Driver → M (Option Driver)
handle_enable_slot fuel read seen slot_id port_id c d = do
  input_ctx_buf ← alloc_mem fuel 2
  if input_ctx_buf == 0 then pure none else do
    transfer_ring ← alloc_mem fuel 1
    if transfer_ring == 0 then pure none else do
      page ← alloc_mem fuel 1
      address_slot seen slot_id port_id c (read (portsc port_id)) input_ctx_buf (new_ring page) d
