-- ===== src/Xhci/EventTests.antt =====
-- A port's change in the event ring, and a whole enabling of a slot, at concrete inputs.
use vimos_minimal.Base.{
  inl, ℕ, zero, suc, ◌+◌, ◌*◌, ◌^◌, ◌<◌, ◌≡◌, refl, true, none, some, [], ◌∷◌, ◌++◌, arith, ◌==◌,
  if◌then◌else◌, replicate,
}
use vimos_minimal.Mem.{Mem, node, done}
use vimos_minimal.Mem.Chain.{nil}
use vimos_minimal.Mem.Post.{HasFuel}
use vimos_minimal.Xhci.Trb.{Trb, enable_slot_command}
use vimos_minimal.Xhci.Events.{EventRing, HasTaken, round_of}
use vimos_minimal.Xhci.Ports.{
  reset, is_waiting, port_status_change, portsc, send_enable_slot, scrolled, scroll, begin_port,
  command,
}
use vimos_minimal.Xhci.Ports.Order.{IsFair}
use vimos_minimal.Xhci.Slot.{Driver, InputContext, clear_endpoint}
use vimos_minimal.Xhci.Dispatch.{Seen, dispatch, type_of, port_of}
use vimos_minimal.Xhci.Dispatch.Drain.{IsQueued, Processed, usb_process_events-Processed}

-- The port 4 has changed.
abbrev changed : Trb
changed = record { w0 = 4 * 2 ^ 24; w1 = 0; w2 = 0; w3 = 34 * 2 ^ 10 + 1 }

-- An event of the lap before.
abbrev taken_before : Trb
taken_before = record { w0 = 0; w1 = 0; w2 = 0; w3 = 1 }

abbrev events : EventRing
events = record {
  erdp_low = 0x10_0ff0;
  erdp_high = 0;
  buf = 0xffff_8060_0010_0000;
  slots = replicate 255 taken_before ++ changed ∷ [];
  cycle_bit = true;
}

events-HasTaken : HasTaken events 0x10_0000 255
unfolding round_of
events-HasTaken = record {
  aligned = refl;
  inside = omega arith;
  page = refl;
  low = inl refl;
  high = refl;
  cycle = refl;
}

abbrev no_context : InputContext
no_context = record {
  a_flags = 0;
  slotctx = record { route_string = 0; speed = 0; context_entries = 0; root_hub_port_num = 0 };
  epctx = λ i. clear_endpoint;
}

abbrev driver : Driver
driver = record {
  ports = record { current_port = none; state = λ i. reset; effects = [] };
  transfer_ring = λ i. none;
  buf = λ i. 0xffff_8000_0010_0000 + 528 * i;
  speed = λ i. 0;
  device_contexts = λ i. 0;
  contexts = λ i. no_context;
  doorbells = [];
  keyboard = none;
  start = 0;
}

driver-IsFair : IsFair driver.ports
unfolding is_waiting
driver-IsFair = λ i lo hi. refl

abbrev seen : Seen
seen = record {
  page = replicate 255 taken_before ++ changed ∷ [];
  next = λ addr. if addr == 0 then none else some 0;
  read = λ offset. 3;
  issuer_type = λ ptr. 0;
  first_bytes = λ i. 0;
  device = λ i. 0;
  configurations = λ i j. 0;
}

abbrev empty : Mem
empty = record { head = node 0 0; cell = λ a. node 0 0 }

empty-HasFuel : HasFuel 9 empty
empty-HasFuel = record {
  runs = [];
  list = record { chain = nil; ascending = tt };
  enough = omega arith;
}

-- The event makes port 4 the current one, and asks for a slot.
one_event :
    dispatch 9 seen changed driver empty
    ≡ done
        (some (record driver {
          ports = record {
            current_port = some 4;
            state = (port_status_change seen.read 4 driver.ports).state;
            effects = scroll ∷ command enable_slot_command ∷ [];
          };
        }))
        empty
unfolding dispatch type_of port_of port_status_change portsc send_enable_slot scrolled begin_port
one_event = refl

-- The block after it still has the cycle bit of the last lap.
seen-IsQueued : (i : ℕ) → i < 1 → IsQueued (λ i. seen) 0x10_0000 255 i
unfolding round_of
seen-IsQueued zero lt = refl
seen-IsQueued (suc i) lt = absurd (omega arith)

seen-IsIdle : ¬ IsQueued (λ i. seen) 0x10_0000 255 1
unfolding round_of
seen-IsIdle q = absurd (omega (arith, q))

usb_process_events-Processed_example : Processed (λ i. seen) 0x10_0000 255 2 9 1 events driver empty
usb_process_events-Processed_example =
    usb_process_events-Processed 2 9 1 (λ i. seen) 0x10_0000 255 events driver empty events-HasTaken
      empty-HasFuel driver-IsFair seen-IsQueued seen-IsIdle (omega arith)
