-- ===== src/Xhci/PortTests.antt =====
-- Endpoints and ports at concrete inputs.
use vimos_minimal.Base.{
  ℕ, ◌+◌, ◌*◌, ◌^◌, ◌≤◌, ◌<◌, ◌≡◌, true, none, List, [], ◌∷◌, arith, get_or, u8,
}
use vimos_minimal.Xhci.Ring.{Ring}
use vimos_minimal.Xhci.Endpoint.{
  Buffer, EndpointContext, direction, attributes, packet_size, dci_of, endpoint_context, walk,
}
use vimos_minimal.Xhci.Endpoint.Walk.{IsWalk, walk-IsWalk}
use vimos_minimal.Xhci.Endpoint.Context.{endpoint_context_lem}
use vimos_minimal.Xhci.Ports.{reset, Ports, port_status_change, change, Reachable, start, next}

-- Interrupt endpoint 1, IN, 8 bytes, at offset 0.
abbrev keyboard : List ℕ
keyboard = 7 ∷ 5 ∷ 0x81 ∷ 3 ∷ 8 ∷ 0 ∷ 10 ∷ []

abbrev bytes : Buffer
bytes i = u8 (get_or keyboard i 0)

abbrev ring : Ring
ring = record {
  buf = 0xffff_8060_0010_0000;
  slots = [];
  cycle_bit = true;
  ring_size = 256;
  ring_index = 0;
}

abbrev clear : EndpointContext
clear = record {
  ep_type = 0;
  tr_pointer = 0;
  max_packet_size = 0;
  max_burst_size = 0;
  mult = 0;
  max_payload_lo = 0;
  max_payload_hi = 0;
  interval = 0;
  max_pstreams = 0;
  cerr = 0;
  average_length = 0;
}

walk-IsWalk_example : IsWalk bytes 7 0 (walk 7 bytes 0 7)
walk-IsWalk_example = walk-IsWalk 7 bytes 0 7 (omega arith)

endpoint_context_lem_example :
    ((endpoint_context bytes 0 1 ring clear).ep_type ≡ attributes bytes 0 + 4 * direction bytes 0)
    × (2 ≤ dci_of bytes 0)
    × (dci_of bytes 0 ≤ 31)
    × ((endpoint_context bytes 0 1 ring clear).interval < 2 ^ 8)
    × ((endpoint_context bytes 0 1 ring clear).max_burst_size < 2 ^ 8)
    × ((endpoint_context bytes 0 1 ring clear).max_payload_lo
          + 2 ^ 16 * (endpoint_context bytes 0 1 ring clear).max_payload_hi
        ≡ packet_size bytes 0 * ((endpoint_context bytes 0 1 ring clear).max_burst_size + 1))
endpoint_context_lem_example =
    endpoint_context_lem bytes 0 1 ring clear (λ i. omega arith) (omega arith) (omega arith)

-- Port 4 is enabled and connected, and no other register reads anything but 3.
abbrev registers : ℕ → ℕ
registers offset = 3

abbrev idle : Ports
idle = record { current_port = none; state = λ i. reset; effects = [] }

abbrev changed : Ports
changed = port_status_change registers 5 (port_status_change registers 4 idle)

two_changes : Reachable registers idle changed
two_changes =
    next (next start (change 4 (omega arith) (omega arith))) (change 5 (omega arith) (omega arith))
