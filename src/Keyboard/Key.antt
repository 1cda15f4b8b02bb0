-- ===== src/Keyboard/Key.antt =====
-- What a key that the keyboard reports becomes.
use vimos_minimal.Base.{
  ◌⊎◌, inl, inr, ℕ, zero, suc, ◌+◌, ◌-◌, ◌*◌, ◌/◌, ◌%◌, ◌^◌, ◌<◌, bit_and, ◌≡◌, refl, ap, ◌∙◌, Bool,
  true, false, ◌&&◌, ◌||◌, some, List, [], ◌∷◌, ◌++◌, arith, ltb, leb, ◌==◌, if◌then◌else◌,
  Bool-cases, length, get_elem?, get_or, drop, get_or-set_self, get_or-set_ne,
}
use vimos_minimal.Layout.{page_offset, p2v, v2p}
use vimos_minimal.Xhci.Trb.{Trb, zero_trb, init_normal_trb, type_of, cycle_of}
use vimos_minimal.Xhci.Ring.{Ring, bit, mark, write_ring, write_ring_static, wrap}
use vimos_minimal.Xhci.Events.{
  EventRing, HasTaken, round_of, get_eventring, get_eventring_lem, write_event_ring,
}
use vimos_minimal.Keyboard.{
  Keyboard, react, keytable0, keytable1, request, ask, event_ptr, event_code, block_at, key_of,
  on_event, poll, read_usb_keyboard,
}

-- A ring of a page in the window of physical memory.
pub record IsPage (r : Ring) (phys : ℕ) : Type 0 where
  pub page : r.buf ≡ page_offset + phys
  pub inside : phys + 4096 < 2 ^ 46
  pub full : length r.slots ≡ 256
  pub next : r.ring_index < 255

type_of-mark : (buf : ℕ) (c : Bool) → type_of (mark (request buf) c) ≡ 1
unfolding mark request init_normal_trb
type_of-mark buf true = refl
type_of-mark buf false = refl

-- The request stands on the ring where the index pointed, also when the link follows it.
get_or-write_ring :
    (r : Ring) (phys : ℕ) (t : Trb)
    → IsPage r phys
    → get_or (write_ring r t).slots r.ring_index zero_trb ≡ mark t r.cycle_bit
unfolding write_ring write_ring_static wrap
get_or-write_ring r phys t s =
    let here =
      get_or-set_self r.slots r.ring_index (mark t r.cycle_bit) zero_trb
        (omega (arith, s.full, s.next)) in
    elim (Bool-cases (r.ring_index + 1 == r.ring_size - 1)) [
      | inl last ↦
          rw last (get_or-set_ne _ (r.ring_index + 1) r.ring_index _ zero_trb (omega arith) ∙ here)
      | inr more ↦ rw more here
    ]

write_ring-buf : (r : Ring) (t : Trb) → (write_ring r t).buf ≡ r.buf
unfolding write_ring wrap
write_ring-buf r t = ground arith

-- The keyboard after the request, as the controller has left it.
abbrev answered : (Keyboard → List ℕ × List Trb) → Keyboard → Keyboard
answered device kb =
    let (keys, page) = device (ask kb) in
    record (ask kb) { keybuf = keys; events = record kb.events { slots = page } }

-- The request is found at the address that the event reports.
block_at-request :
    (device : Keyboard → List ℕ × List Trb) (kb : Keyboard) (phys : ℕ)
    → IsPage kb.endpoint_ring phys
    → block_at (answered device kb) (p2v (phys + 16 * kb.endpoint_ring.ring_index))
      ≡ mark (request (v2p kb.keybuf_at)) kb.endpoint_ring.cycle_bit
unfolding block_at ask
block_at-request device kb phys s =
    let r = kb.endpoint_ring in
    let t = request (v2p kb.keybuf_at) in
    let here : p2v (phys + 16 * r.ring_index) ≡ r.buf + 16 * r.ring_index =
      omega (arith, s.page, s.inside, s.next) in
    let index : (r.buf + 16 * r.ring_index - r.buf) / 16 ≡ r.ring_index = omega arith in
    let within : (leb r.buf (r.buf + 16 * r.ring_index)
          && ltb (r.buf + 16 * r.ring_index) (r.buf + 4096))
        ≡ true =
      ground (arith, s.next) in
    rw (here, write_ring-buf r t, index, within) (get_or-write_ring r phys t s)

on_event-key :
    (kb : Keyboard) (t : Trb)
    → type_of t ≡ 32
    → 0 < event_ptr t
    → type_of (block_at kb (p2v (event_ptr t))) ≡ 1
    → (event_code t ≡ 1) ⊎ (event_code t ≡ 13)
    → on_event kb t ≡ key_of kb.keybuf
unfolding on_event
on_event-key kb t type ptr report code =
    let not_null : (event_ptr t == 0) ≡ false = ground arith in
    let known : (event_code t == 1 || event_code t == 13) ≡ true = elim code [
      | inl one ↦ rw one refl
      | inr short ↦ rw short refl
    ] in
    rw (type, not_null, report, known) refl

poll-got :
    (kb : Keyboard) (t : Trb) (events : EventRing)
    → get_eventring kb.events ≡ some (t, events)
    → poll kb ≡ (on_event kb t, record kb { events = events })
unfolding poll react
poll-got kb t events got = ap (react kb) got

-- Where the event ring has had a events taken, and the next one reports a success or a short packet
-- for the block that read_usb_keyboard has just put on the keyboard's ring, it returns the character
-- of the table for the first key in the buffer, has then taken a + 1 events, and has rung the doorbell.
read_usb_keyboard-key :
    (device : Keyboard → List ℕ × List Trb) (kb : Keyboard) (phys a ring_phys : ℕ)
    → HasTaken kb.events phys a
    → IsPage kb.endpoint_ring ring_phys
    → 0 < ring_phys
    → let (keys, page) = device (ask kb) in
      let t = get_or page (a % 256) zero_trb in
      cycle_of t ≡ bit (round_of a)
      → type_of t ≡ 32
      → event_ptr t ≡ ring_phys + 16 * kb.endpoint_ring.ring_index
      → (event_code t ≡ 1) ⊎ (event_code t ≡ 13)
      → let (c, kb') = read_usb_keyboard device kb in
        (c ≡ key_of keys)
        × HasTaken kb'.events phys (a + 1)
        × (kb'.doorbells ≡ kb.doorbells ++ (kb.slot_id, kb.dci) ∷ [])
unfolding read_usb_keyboard poll ask
read_usb_keyboard-key device kb phys a ring_phys v s some_page cycle type ptr code =
    let kb2 = answered device kb in
    let v2 : HasTaken kb2.events phys a = record {
      aligned = v.aligned;
      inside = v.inside;
      page = v.page;
      low = v.low;
      high = v.high;
      cycle = v.cycle;
    } in
    let some_ptr : 0 < event_ptr (get_or kb2.events.slots (a % 256) zero_trb) =
      rw ptr (omega arith) in
    let report : type_of
          (block_at kb2 (p2v (event_ptr (get_or kb2.events.slots (a % 256) zero_trb))))
        ≡ 1 =
      rw ptr (rw (block_at-request device kb ring_phys s) (type_of-mark _ _)) in
    elim (get_eventring_lem v2) [
      | inl (e, got, next, kept) ↦
          let p : read_usb_keyboard device kb ≡ (
            on_event kb2 (get_or kb2.events.slots (a % 256) zero_trb),
            record kb2 { events = write_event_ring kb2.events },
          ) =
            poll-got kb2 _ _ got in
          rw p (on_event-key kb2 _ type some_ptr report code, next, refl)
      | inr (other, idle) ↦ absurd (other cycle)
    ]

-- The k characters from c on.
abbrev run : ℕ → ℕ → List ℕ
run c zero = []
run c (suc k) = c ∷ run (c + 1) k

get_elem?-run : (k c n : ℕ) (rest : List ℕ) → n < k → get_elem? (run c k ++ rest) n ≡ some (c + n)
get_elem?-run zero c n rest h = absurd (omega arith)
get_elem?-run (suc k) c zero rest h = let e : c + 0 ≡ c = omega arith in rw e refl
get_elem?-run (suc k) c (suc n) rest h =
    let e : c + 1 + n ≡ c + suc n = omega arith in
    rw e at (get_elem?-run k (c + 1) n rest (omega arith))

-- For the key codes 4 to 29 in the third byte the key is the letter of that number, a capital where
-- the modifiers in the first byte have a shift key, and a small letter where they have none.
key_of-letter :
    (keys : List ℕ) (n : ℕ)
    → n < 26
    → get_or keys 2 0 ≡ 4 + n
    → key_of keys ≡ some (if bit_and (get_or keys 0 0) 0x22 == 0 then 97 + n else 65 + n)
unfolding key_of
key_of-letter keys n h e =
    let at_n : 4 + n ≡ suc (suc (suc (suc n))) = omega arith in
    elim (Bool-cases (bit_and (get_or keys 0 0) 0x22 == 0)) [
      | inl plain ↦ rw (e, plain, at_n) (get_elem?-run 26 97 n (drop 30 keytable0) h)
      | inr shift ↦ rw (e, shift, at_n) (get_elem?-run 26 65 n (drop 30 keytable1) h)
    ]

-- Where the event ring has had a events taken, and the next one reports a success or a short packet
-- for the block that read_usb_keyboard has just put on the keyboard's ring, and the report has a
-- key code from 4 to 29 in its third byte: it returns the letter of that number, a capital where
-- the first byte has a shift key, has then taken a + 1 events, and has rung the doorbell.
pub read_usb_keyboard-letter :
    (device : Keyboard → List ℕ × List Trb) (kb : Keyboard) (phys a ring_phys n : ℕ)
    → HasTaken kb.events phys a
    → IsPage kb.endpoint_ring ring_phys
    → 0 < ring_phys
    → n < 26
    → let (keys, page) = device (ask kb) in
      let t = get_or page (a % 256) zero_trb in
      cycle_of t ≡ bit (round_of a)
      → type_of t ≡ 32
      → event_ptr t ≡ ring_phys + 16 * kb.endpoint_ring.ring_index
      → (event_code t ≡ 1) ⊎ (event_code t ≡ 13)
      → get_or keys 2 0 ≡ 4 + n
      → let (c, kb') = read_usb_keyboard device kb in
        (c ≡ some (if bit_and (get_or keys 0 0) 0x22 == 0 then 97 + n else 65 + n))
        × HasTaken kb'.events phys (a + 1)
        × (kb'.doorbells ≡ kb.doorbells ++ (kb.slot_id, kb.dci) ∷ [])
read_usb_keyboard-letter device kb phys a ring_phys n v s some_page h cycle type ptr code third =
    let (c, next, rung) =
      read_usb_keyboard-key device kb phys a ring_phys v s some_page cycle type ptr code in
    (c ∙ key_of-letter _ n h third, next, rung)
