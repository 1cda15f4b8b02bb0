-- ===== src/Xhci/Dispatch/Drain.antt =====
-- `usb_process_events` takes the events that it finds queued, and then returns.
use vimos_minimal.Base.{
  inl, inr, ℕ, zero, suc, ◌+◌, ◌%◌, ◌<◌, ◌≡◌, refl, sym, ◌∙◌, Option, none, some, List, [], ◌∷◌,
  arith, get_or,
}
use vimos_minimal.Mem.{Mem, pure, and_then}
use vimos_minimal.Mem.Post.{Post, HasFuel}
use vimos_minimal.Xhci.Trb.{Trb, zero_trb, cycle_of}
use vimos_minimal.Xhci.Ring.{bit}
use vimos_minimal.Xhci.Events.{
  EventRing, get_eventring, write_event_ring, round_of, HasTaken, get_eventring_lem,
}
use vimos_minimal.Xhci.Ports.Order.{IsFair}
use vimos_minimal.Xhci.Slot.{Driver}
use vimos_minimal.Xhci.Dispatch.{Seen, dispatch, looked_at, process_loop, usb_process_events}
use vimos_minimal.Xhci.Dispatch.Fair.{Fine}
use vimos_minimal.Xhci.Dispatch.Queue.{
  handle_all, with_ring, and_then_assoc, and_then_cong, handle_all-Fine,
}

looked_at-HasTaken :
    (s : Seen) (e : EventRing) (phys a : ℕ) → HasTaken e phys a → HasTaken (looked_at s e) phys a
looked_at-HasTaken s e phys a v = record {
  aligned = v.aligned;
  inside = v.inside;
  page = v.page;
  low = v.low;
  high = v.high;
  cycle = v.cycle;
}

module _ (seen : ℕ → Seen) (phys a : ℕ) where
  -- The block where the driver looks after `i` more events, as it is then.
  abbrev pub look : ℕ → Trb
  look i = get_or (seen i).page ((a + i) % 256) zero_trb

  -- It has the cycle bit of the event that is due.
  abbrev pub IsQueued : ℕ → Type 0
  IsQueued i = cycle_of (look i) ≡ bit (round_of (a + i))

  -- `n` looks from look number `i` on.
  abbrev pub looks : ℕ → ℕ → List Trb
  looks zero i = []
  looks (suc n) i = look i ∷ looks n (i + 1)

  -- The loop from event number `i` on hands `n` events on, and ends with a ring from which the
  -- events before `m` are taken.
  record Loops (rounds fuel n i m : ℕ) (e : EventRing) : Type 0 where
    ring : EventRing
    taken : HasTaken ring phys (a + m)
    equal :
        (d : Option Driver) (h : Mem)
        → process_loop rounds fuel seen i e d h
          ≡ and_then (handle_all fuel seen i (looks n i) d h) (λ r. pure (with_ring ring r))

  loop_stop :
      (rounds fuel i : ℕ) (e : EventRing)
      → get_eventring (looked_at (seen i) e) ≡ none
      → (d : Option Driver) (h : Mem)
      → process_loop (suc rounds) fuel seen i e d h
        ≡ and_then
            (handle_all fuel seen i (looks 0 i) d h)
            (λ r. pure (with_ring (looked_at (seen i) e) r))
  unfolding process_loop handle_all
  loop_stop rounds fuel i e idle none h = refl
  loop_stop rounds fuel i e idle (some d) h = rw idle refl

  loop_more :
      (rounds fuel n i : ℕ) (e e' : EventRing)
      → get_eventring (looked_at (seen i) e)
        ≡ some (look i, write_event_ring (looked_at (seen i) e))
      → ((d : Option Driver) (h : Mem)
          → process_loop rounds fuel seen (i + 1) (write_event_ring (looked_at (seen i) e)) d h
            ≡ and_then
                (handle_all fuel seen (i + 1) (looks n (i + 1)) d h)
                (λ r. pure (with_ring e' r)))
      → (d : Option Driver) (h : Mem)
      → process_loop (suc rounds) fuel seen i e d h
        ≡ and_then (handle_all fuel seen i (looks (suc n) i) d h) (λ r. pure (with_ring e' r))
  unfolding process_loop handle_all
  loop_more rounds fuel n i e e' now rest none h = refl
  loop_more rounds fuel n i e e' now rest (some d) h = rw now (
      and_then_cong (dispatch fuel (seen i) (look i) d h) _ _ (λ d' h'. rest d' h')
      ∙ sym (and_then_assoc (dispatch fuel (seen i) (look i) d h) _ _))

  Loops-stop :
      (rounds fuel i : ℕ) (e : EventRing)
      → HasTaken (looked_at (seen i) e) phys (a + i)
      → get_eventring (looked_at (seen i) e) ≡ none
      → Loops (suc rounds) fuel 0 i i e
  Loops-stop rounds fuel i e v idle = record {
    ring = looked_at (seen i) e;
    taken = v;
    equal = loop_stop rounds fuel i e idle;
  }

  Loops-more :
      (rounds fuel n i m : ℕ) (e : EventRing)
      → get_eventring (looked_at (seen i) e)
        ≡ some (look i, write_event_ring (looked_at (seen i) e))
      → Loops rounds fuel n (i + 1) m (write_event_ring (looked_at (seen i) e))
      → Loops (suc rounds) fuel (suc n) i m e
  Loops-more rounds fuel n i m e now rest = record {
    ring = rest.ring;
    taken = rest.taken;
    equal = loop_more rounds fuel n i e rest.ring now rest.equal;
  }

  process_loop-Loops :
      (rounds fuel n i : ℕ) (e : EventRing)
      → HasTaken e phys (a + i)
      → ((j : ℕ) → j < n → IsQueued (i + j))
      → ¬ IsQueued (i + n)
      → n < rounds
      → Loops rounds fuel n i (i + n) e
  process_loop-Loops zero fuel n i e v queued idle lt = absurd (omega arith)
  process_loop-Loops (suc rounds) fuel zero i e v queued idle lt =
      let here : i + 0 ≡ i = omega arith in
      let v0 = looked_at-HasTaken (seen i) e phys (a + i) v in
      elim (get_eventring_lem v0) [
        | inl (q, now, v', kept) ↦ absurd (rw here at idle q)
        | inr (other, none_now) ↦ rw here (Loops-stop rounds fuel i e v0 none_now)
      ]
  process_loop-Loops (suc rounds) fuel (suc n) i e v queued idle lt =
      let here : i + 0 ≡ i = omega arith in
      let next : i + suc n ≡ i + 1 + n = omega arith in
      let on : a + i + 1 ≡ a + (i + 1) = omega arith in
      let v0 = looked_at-HasTaken (seen i) e phys (a + i) v in
      elim (get_eventring_lem v0) [
        | inr (other, none_now) ↦ absurd (other (rw here at (queued 0 (omega arith))))
        | inl (q, now, v', kept) ↦ rw next (
            Loops-more rounds fuel n i (i + 1 + n) e now (
              process_loop-Loops rounds fuel n (i + 1) (write_event_ring (looked_at (seen i) e))
                (rw on at v')
                (λ j lj.
                  let shift : i + suc j ≡ i + 1 + j = omega arith in
                  rw shift at (queued (suc j) (omega arith)))
                (rw next at idle) (omega arith)))
      ]

  -- What `usb_process_events` leaves where it finds `n` events.
  pub record Processed (rounds fuel n : ℕ) (e : EventRing) (d : Driver) (h : Mem) : Type 0 where
    pub ring : EventRing
    pub taken : HasTaken ring phys (a + n)
    pub equal :
        usb_process_events rounds fuel seen e d h
        ≡ and_then (handle_all fuel seen 0 (looks n 0) (some d) h) (λ r. pure (with_ring ring r))
    pub fine : Post (Fine fuel) (handle_all fuel seen 0 (looks n 0) (some d) h)

-- Whatever the controller writes to the page of the event ring while events are handled: where the
-- driver has taken a events, the free list is well formed with fuel for its runs, no port waits
-- while none is being enabled, and the driver finds a queued event at each of its first n looks and
-- none at the next, usb_process_events with more than n rounds does not run out. What it does is
-- what these n events do one after the other, each as it is found, up to a panic or a fault; unless
-- there is one, it returns with a ring from which a + n events have been taken, also across the end
-- of the page. Where none of them faults, the free list is well formed again, and, unless it
-- panics, no port waits while none is being enabled.
pub usb_process_events-Processed :
    (rounds fuel n : ℕ) (seen : ℕ → Seen) (phys a : ℕ) (e : EventRing) (d : Driver) (h : Mem)
    → HasTaken e phys a
    → HasFuel fuel h
    → IsFair d.ports
    → ((i : ℕ) → i < n → IsQueued seen phys a i)
    → ¬ IsQueued seen phys a n
    → n < rounds
    → Processed seen phys a rounds fuel n e d h
unfolding usb_process_events
usb_process_events-Processed rounds fuel n seen phys a e d h v w f queued idle lt =
    let here : a + 0 ≡ a = omega arith in
    let from_zero : (i : ℕ) → 0 + i ≡ i = λ i. omega arith in
    let l =
      process_loop-Loops seen phys a rounds fuel n 0 e (rw here v)
        (λ i li. rw (from_zero i) (queued i li)) (rw (from_zero n) idle) lt in
    record {
      ring = l.ring;
      taken = rw (from_zero n) at l.taken;
      equal = l.equal (some d) h;
      fine = handle_all-Fine fuel seen 0 (looks seen phys a n 0) (some d) h (w, f);
    }
