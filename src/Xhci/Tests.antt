-- ===== src/Xhci/Tests.antt =====
-- The rings at concrete inputs.
use vimos_minimal.Base.{
  ◌⊎◌, inl, ◌≡◌, ◌≢◌, refl, true, none, some, List, [], ◌∷◌, arith, replicate, get_or,
}
use vimos_minimal.Xhci.Trb.{Trb, status_stage_trb, cycle_of, zero_trb}
use vimos_minimal.Xhci.Ring.{Ring, new_ring, write_all, mark, bit, slots_of_page}
use vimos_minimal.Xhci.Ring.Written.{Written, new_ring-write_all}
use vimos_minimal.Xhci.Ring.Consumer.{consume, consumer_at, marked, consume-write_all}
use vimos_minimal.Xhci.Ring.Requests.{
  get_descriptor, get_descriptor_setup, get_descriptor_data, get_descriptor-consume,
}
use vimos_minimal.Xhci.Ring.Written.{lap, new_ring-Written}
use vimos_minimal.Xhci.Events.{
  EventRing, HasTaken, get_eventring, write_event_ring, round_of, get_eventring_lem,
}

abbrev fresh : Ring
fresh = record {
  buf = 0xffff_8060_0010_0000;
  slots = replicate slots_of_page (record { w0 = 0; w1 = 0; w2 = 0; w3 = 0 });
  cycle_bit = true;
  ring_size = slots_of_page;
  ring_index = 0;
}

abbrev two : List Trb
two =
    record { w0 = 5; w1 = 0; w2 = 8; w3 = 1024 } ∷ record { w0 = 0; w1 = 0; w2 = 0; w3 = 9216 } ∷ []

new_ring-write_all_example : Written (write_all fresh two) two
unfolding new_ring
new_ring-write_all_example = new_ring-write_all 0xffff_8060_0010_0000 two refl

consume-write_all_example :
    consume 5 (write_all fresh two).slots (consumer_at 1) ≡ (marked two 1 1, consumer_at 2)
unfolding new_ring
consume-write_all_example =
    consume-write_all 0xffff_8060_0010_0000 two 1 1 5 refl (omega arith) (omega arith) (omega arith)
      (omega arith)

fresh-Written : Written fresh []
unfolding new_ring
fresh-Written = new_ring-Written 0xffff_8060_0010_0000 refl

get_descriptor-consume_example :
    consume 7 (get_descriptor fresh 1 1 0 0xffff_8060_0020_0000 18).0.slots (consumer_at 0) ≡ (
      mark (get_descriptor_setup 1 0 18) (lap 0)
          ∷ mark (get_descriptor_data 0xffff_8060_0020_0000 18) (lap 1)
          ∷ mark (status_stage_trb 0 0) (lap 2)
          ∷ [],
      consumer_at 3,
    )
get_descriptor-consume_example =
    get_descriptor-consume 1 1 0 0xffff_8060_0020_0000 18 fresh-Written tt

-- The driver has taken 255 events, and event number 255 is queued in the last place.
abbrev events : EventRing
events = record {
  erdp_low = 0x10_0ff0;
  erdp_high = 0;
  buf = 0xffff_8060_0010_0000;
  slots = replicate 256 (record { w0 = 0; w1 = 0; w2 = 0; w3 = 1 });
  cycle_bit = true;
}

events-HasTaken : HasTaken events 0x10_0000 255
unfolding round_of
events-HasTaken = record {
  aligned = refl;
  inside = omega arith;
  page = refl;
  low = inl refl;
  high = refl;
  cycle = refl;
}

get_eventring_lem_example :
    ((cycle_of (get_or events.slots 255 zero_trb) ≡ bit (round_of 255))
      × (get_eventring events ≡ some (get_or events.slots 255 zero_trb, write_event_ring events))
      × HasTaken (write_event_ring events) 0x10_0000 256
      × ((write_event_ring events).slots ≡ events.slots))
    ⊎ ((cycle_of (get_or events.slots 255 zero_trb) ≢ bit (round_of 255))
        × (get_eventring events ≡ none))
get_eventring_lem_example = get_eventring_lem events-HasTaken
