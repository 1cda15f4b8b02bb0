-- ===== src/Keyboard.antt =====
-- kernel/usb_keyboard.c: the key tables, and one poll of the keyboard. `printk` is left out.
mod Tests
pub mod Key
use vimos_minimal.Base.{
  ◌⊎◌, ◌↔◌, inl, inr, ℕ, zero, suc, ◌+◌, ◌-◌, ◌*◌, ◌/◌, ◌%◌, ◌^◌, ◌≤◌, ◌<◌, min, max, bit_and,
  bit_or, bit_xor, ◌≡◌, refl, sym, ap, ◌∙◌, ◌≢◌, Bool, true, false, ◌&&◌, ◌||◌, not, Option, none,
  some, List, [], ◌∷◌, ◌++◌, map, arith, ltb, leb, ◌==◌, if◌then◌else◌, ltb→lt, lt→ltb, le→ltb,
  leb→le, ==_iff, ==_refl, Bool-cases, nat_cases, length, get_elem?, get_or, set, take, drop,
  replicate, length-append, length-replicate, length-set, get_or-set_self, get_or-set_ne,
  get_or-append_left, get_or-append_right, get_or-append_last, get_or-replicate, u8, u16, u32, u64,
  sub32, sub64,
}
use vimos_minimal.Layout.{p2v, v2p}
use vimos_minimal.Xhci.Trb.{Trb, trb, zero_trb, control, init_normal_trb, type_of}
use vimos_minimal.Xhci.Ring.{Ring, write_ring}
use vimos_minimal.Xhci.Events.{EventRing, er_is_queued, get_eventring}

-- The places of a table that have no initialiser are 0; it has 255 places.
abbrev pub keytable0 : List ℕ
keytable0 =
    (0 ∷ 0 ∷ 0 ∷ 0 ∷ 97 ∷ 98 ∷ 99 ∷ 100 ∷ 101 ∷ 102 ∷ 103 ∷ 104 ∷ 105 ∷ 106 ∷ 107 ∷ 108 ∷ 109 ∷ 110
      ∷ 111 ∷ 112 ∷ 113 ∷ 114 ∷ 115 ∷ 116 ∷ 117 ∷ 118 ∷ 119 ∷ 120 ∷ 121 ∷ 122 ∷ 49 ∷ 50 ∷ 51 ∷ 52
      ∷ 53 ∷ 54 ∷ 55 ∷ 56 ∷ 57 ∷ 48 ∷ 10 ∷ 8 ∷ 8 ∷ 9 ∷ 32 ∷ 45 ∷ 61 ∷ 91 ∷ 93 ∷ 92 ∷ 35 ∷ 59 ∷ 39
      ∷ 96 ∷ 44 ∷ 46 ∷ 47 ∷ 0 ∷ 0 ∷ 0 ∷ 0 ∷ 0 ∷ 0 ∷ 0 ∷ 0 ∷ 0 ∷ 0 ∷ 0 ∷ 0 ∷ 0 ∷ 0 ∷ 0 ∷ 0 ∷ 0 ∷ 0
      ∷ 0 ∷ 0 ∷ 0 ∷ 0 ∷ 0 ∷ 0 ∷ 0 ∷ 0 ∷ 0 ∷ 47 ∷ 42 ∷ 45 ∷ 43 ∷ 10 ∷ 49 ∷ 50 ∷ 51 ∷ 52 ∷ 53 ∷ 54
      ∷ 55 ∷ 56 ∷ 57 ∷ 48 ∷ 46 ∷ 92 ∷ 0 ∷ 0 ∷ 61 ∷ 0 ∷ 0 ∷ 0 ∷ 0 ∷ 0 ∷ 0 ∷ 0 ∷ 0 ∷ 0 ∷ 0 ∷ 0 ∷ 0 ∷ 0
      ∷ 0 ∷ 0 ∷ 0 ∷ 0 ∷ 0 ∷ 0 ∷ 0 ∷ 0 ∷ 0 ∷ 0 ∷ 0 ∷ 0 ∷ 0 ∷ 0 ∷ 0 ∷ 0 ∷ 0 ∷ 0 ∷ 0 ∷ 0 ∷ 92 ∷ 0 ∷ 0
      ∷ 0 ∷ 0 ∷ 0 ∷ 0 ∷ [])
    ++ replicate 111 0

abbrev pub keytable1 : List ℕ
keytable1 =
    (0 ∷ 0 ∷ 0 ∷ 0 ∷ 65 ∷ 66 ∷ 67 ∷ 68 ∷ 69 ∷ 70 ∷ 71 ∷ 72 ∷ 73 ∷ 74 ∷ 75 ∷ 76 ∷ 77 ∷ 78 ∷ 79 ∷ 80
      ∷ 81 ∷ 82 ∷ 83 ∷ 84 ∷ 85 ∷ 86 ∷ 87 ∷ 88 ∷ 89 ∷ 90 ∷ 33 ∷ 64 ∷ 35 ∷ 36 ∷ 37 ∷ 94 ∷ 38 ∷ 42 ∷ 40
      ∷ 41 ∷ 10 ∷ 8 ∷ 8 ∷ 9 ∷ 32 ∷ 95 ∷ 43 ∷ 123 ∷ 125 ∷ 124 ∷ 126 ∷ 58 ∷ 34 ∷ 126 ∷ 60 ∷ 62 ∷ 63
      ∷ 0 ∷ 0 ∷ 0 ∷ 0 ∷ 0 ∷ 0 ∷ 0 ∷ 0 ∷ 0 ∷ 0 ∷ 0 ∷ 0 ∷ 0 ∷ 0 ∷ 0 ∷ 0 ∷ 0 ∷ 0 ∷ 0 ∷ 0 ∷ 0 ∷ 0 ∷ 0
      ∷ 0 ∷ 0 ∷ 0 ∷ 0 ∷ 47 ∷ 42 ∷ 45 ∷ 43 ∷ 10 ∷ 49 ∷ 50 ∷ 51 ∷ 52 ∷ 53 ∷ 54 ∷ 55 ∷ 56 ∷ 57 ∷ 48
      ∷ 46 ∷ 92 ∷ 0 ∷ 0 ∷ 61 ∷ 0 ∷ 0 ∷ 0 ∷ 0 ∷ 0 ∷ 0 ∷ 0 ∷ 0 ∷ 0 ∷ 0 ∷ 0 ∷ 0 ∷ 0 ∷ 0 ∷ 0 ∷ 0 ∷ 0 ∷ 0
      ∷ 0 ∷ 0 ∷ 0 ∷ 0 ∷ 0 ∷ 0 ∷ 0 ∷ 0 ∷ 0 ∷ 0 ∷ 0 ∷ 0 ∷ 0 ∷ 0 ∷ 0 ∷ 124 ∷ 0 ∷ 0 ∷ 0 ∷ 0 ∷ 0 ∷ 0
      ∷ [])
    ++ replicate 111 0

-- The static variables, the event ring, the doorbells rung so far, as slot and value, and the blocks
-- that stand in memory elsewhere than on the endpoint's ring.
pub record Keyboard : Type 0 where
  pub usb_keyboard_found : Bool
  pub endpoint_ring : Ring
  pub slot_id : ℕ
  pub dci : ℕ
  pub keybuf_at : ℕ
  pub keybuf : List ℕ
  pub events : EventRing
  pub doorbells : List (ℕ × ℕ)
  pub elsewhere : ℕ → Trb

unfoldable pub init_usb_keyboard : Ring → ℕ → ℕ → Keyboard → Keyboard
init_usb_keyboard ring slot dci kb = record kb {
  endpoint_ring = ring;
  slot_id = u8 slot;
  dci = u8 dci;
  usb_keyboard_found = true;
}

-- `init_normal_trb`, then `length = 8` and `isp = 1`, which is bit 2 of the last word.
unfoldable pub request : ℕ → Trb
request buf = let t = init_normal_trb buf in trb t.w0 t.w1 8 (t.w3 + 4)

unfoldable pub ask : Keyboard → Keyboard
ask kb = record kb {
  endpoint_ring = write_ring kb.endpoint_ring (request (v2p kb.keybuf_at));
  doorbells = kb.doorbells ++ (kb.slot_id, kb.dci) ∷ [];
}

-- The fields of a `struct transfer_event`.
abbrev pub event_ptr : Trb → ℕ
event_ptr t = t.w0 + 2 ^ 32 * t.w1

abbrev pub event_code : Trb → ℕ
event_code t = t.w2 / 2 ^ 24 % 2 ^ 8

-- The block at a virtual address.
unfoldable pub block_at : Keyboard → ℕ → Trb
block_at kb addr =
    let ring = kb.endpoint_ring in
    if leb ring.buf addr && ltb addr (ring.buf + 4096)
    then get_or ring.slots ((addr - ring.buf) / 16) zero_trb
    else kb.elsewhere addr

-- `key[keybuf[2]]`; `none` is a read behind the end of the table.
unfoldable pub key_of : List ℕ → Option ℕ
key_of keybuf =
    let key = if bit_and (get_or keybuf 0 0) 0x22 == 0 then keytable0 else keytable1 in
    get_elem? key (get_or keybuf 2 0)

-- What a queued event gives.
unfoldable pub on_event : Keyboard → Trb → Option ℕ
on_event kb t =
    if type_of t == 32
      && not (event_ptr t == 0)
      && type_of (block_at kb (p2v (event_ptr t))) == 1
      && (event_code t == 1 || event_code t == 13)
    then key_of kb.keybuf
    else some 0

unfoldable pub react : Keyboard → Option (Trb × EventRing) → Option ℕ × Keyboard
react kb none = (some 0, kb)
react kb (some (t, events)) = (on_event kb t, record kb { events = events })

-- The loop: each round of it returns or breaks.
unfoldable pub poll : Keyboard → Option ℕ × Keyboard
poll kb = react kb (get_eventring kb.events)

-- `device` tells what the controller and the keyboard have left in the key buffer and in the page of
-- the event ring by the time they are read.
unfoldable pub read_usb_keyboard : (Keyboard → List ℕ × List Trb) → Keyboard → Option ℕ × Keyboard
read_usb_keyboard device kb0 =
    let kb1 = ask kb0 in
    let (keys, page) = device kb1 in
    poll (record kb1 { keybuf = keys; events = record kb1.events { slots = page } })
