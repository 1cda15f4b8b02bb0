-- ===== src/Keyboard/Tests.antt =====
-- The keyboard at concrete inputs.
use vimos_minimal.Base.{inl, inr, ℕ, ◌≡◌, refl, true, none, some, List, [], ◌∷◌, arith, replicate}
use vimos_minimal.Xhci.Trb.{Trb, trb, zero_trb}
use vimos_minimal.Xhci.Events.{HasTaken, round_of}
use vimos_minimal.Keyboard.{Keyboard, key_of, read_usb_keyboard}
use vimos_minimal.Keyboard.Key.{IsPage, read_usb_keyboard-letter}

-- The next request is the last block before the link, and the next event the last of its page.
abbrev keyboard : Keyboard
keyboard = record {
  usb_keyboard_found = true;
  endpoint_ring = record {
    buf = 0xffff_8060_0020_0000;
    slots = replicate 256 zero_trb;
    cycle_bit = true;
    ring_size = 256;
    ring_index = 254;
  };
  slot_id = 1;
  dci = 3;
  keybuf_at = 0xffff_8000_0010_0000;
  keybuf = [];
  events = record {
    erdp_low = 0x10_0ff0;
    erdp_high = 0;
    buf = 0xffff_8060_0010_0000;
    slots = replicate 256 zero_trb;
    cycle_bit = true;
  };
  doorbells = [];
  elsewhere = λ a. zero_trb;
}

-- The shift key and the key b; the event is a transfer event with the code 13.
abbrev keys : List ℕ
keys = 2 ∷ 0 ∷ 5 ∷ []

abbrev device : Keyboard → List ℕ × List Trb
device kb = (keys, replicate 256 (trb 0x20_0fe0 0 0xd00_0000 0x8001))

ring-IsPage : IsPage keyboard.endpoint_ring 0x20_0000
ring-IsPage = record { page = refl; inside = omega arith; full = refl; next = omega arith }

keyboard-HasTaken : HasTaken keyboard.events 0x10_0000 255
unfolding round_of
keyboard-HasTaken = record {
  aligned = refl;
  inside = omega arith;
  page = refl;
  low = inl refl;
  high = refl;
  cycle = refl;
}

read_usb_keyboard-letter_example :
    ((read_usb_keyboard device keyboard).0 ≡ some 66)
    × HasTaken (read_usb_keyboard device keyboard).1.events 0x10_0000 256
    × ((read_usb_keyboard device keyboard).1.doorbells ≡ (1, 3) ∷ [])
unfolding round_of
read_usb_keyboard-letter_example =
    read_usb_keyboard-letter device keyboard 0x10_0000 255 0x20_0000 1 keyboard-HasTaken ring-IsPage
      (omega arith) (omega arith) refl refl refl (inr refl) refl

-- The place 255 is behind the end of the tables.
key_of_past : key_of (0 ∷ 0 ∷ 255 ∷ []) ≡ none
unfolding key_of
key_of_past = refl
