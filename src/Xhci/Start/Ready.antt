-- ===== src/Xhci/Start/Ready.antt =====
-- What `init_xhci` leaves where it does not panic.
use vimos_minimal.Base.{
  inl, inr, ℕ, zero, suc, ◌+◌, ◌-◌, ◌/◌, ◌%◌, ◌^◌, ◌<◌, ◌≡◌, refl, sym, true, Option, none, some,
  ◌∷◌, arith, ◌==◌, ==_iff, Bool-cases, replicate, u32,
}
use vimos_minimal.Layout.{page_offset, v2p, v2p-window}
use vimos_minimal.Mem.{Mem}
use vimos_minimal.Mem.Post.{Ends}
use vimos_minimal.Xhci.Trb.{zero_trb}
use vimos_minimal.Xhci.Ring.{new_ring, slots_of_page}
use vimos_minimal.Xhci.Events.{EventRing, HasTaken, get_eventring, get_eventring_lem, round_of}
use vimos_minimal.Xhci.Start.{fetched, Log, Started, waits, wait_clear}
use vimos_minimal.Xhci.Start.Pages.{IsPage, HasPages}

-- `n` reads of a register.
abbrev pub reads : ℕ → ℕ → Log → Log
reads zero reg log = log
reads (suc n) reg log = reads n reg (fetched reg ∷ log)

module _ (answer : ℕ → Log → ℕ) where
  -- From `log` on, bit `k` of the register is 0 after less than `fuel` reads.
  abbrev pub Clears : ℕ → ℕ → ℕ → Log → Type 0
  Clears fuel reg k log = (n : ℕ) × (n < fuel) × (answer reg (reads n reg log) / 2 ^ k % 2 ≡ 0)

  wait_clear-ends :
      (fuel reg k n : ℕ) (log : Log)
      → n < fuel
      → answer reg (reads n reg log) / 2 ^ k % 2 ≡ 0
      → (log' : Log) × (wait_clear answer fuel reg k log ≡ some log')
  unfolding wait_clear
  wait_clear-ends zero reg k n log lt e = absurd (omega arith)
  wait_clear-ends (suc fuel) reg k zero log lt e =
      let now : ((answer reg log / 2 ^ k % 2) == 0) ≡ true = (==_iff _ _).1 e in
      (fetched reg ∷ log, rw now refl)
  wait_clear-ends (suc fuel) reg k (suc n) log lt e =
      elim (Bool-cases ((answer reg log / 2 ^ k % 2) == 0)) [
        | inl now ↦ (fetched reg ∷ log, rw now refl)
        | inr later ↦ rw later (wait_clear-ends fuel reg k n (fetched reg ∷ log) (omega arith) e)
      ]

  pub waits-Ends :
      (Q : Log → Mem → Type 0) (o : Option Log) (h : Mem)
      → (log : Log) × (o ≡ some log)
      → ((log : Log) → Q log h)
      → Ends Q (waits o h)
  waits-Ends Q o h (log, e) q = rw e (q log)

  pub wait-Ends :
      (Q : Log → Mem → Type 0) (fuel reg k : ℕ) (log : Log) (h : Mem)
      → Clears fuel reg k log
      → ((log : Log) → Q log h)
      → Ends Q (waits (wait_clear answer fuel reg k log) h)
  wait-Ends Q fuel reg k log h (n, lt, e) q =
      waits-Ends Q _ h (wait_clear-ends fuel reg k n log lt e) q

-- The rings are those that the other parts of the driver start from: no event has been taken, none is
-- queued, and the ring of commands is new.
abbrev pub Ready : ℕ → Option Started → Mem → Type 0
Ready fuel none h = HasPages fuel h
Ready fuel (some s) h =
    HasPages fuel h
    × ((phys : ℕ) × HasTaken s.event_ring phys 0)
    × (get_eventring s.event_ring ≡ none)
    × (new_ring s.cmd_ring.buf ≡ some s.cmd_ring)
    × IsPage s.contexts_page

unfoldable pub fresh_events : ℕ → EventRing
fresh_events page = record {
  erdp_low = u32 (v2p page);
  erdp_high = u32 (v2p page / 2 ^ 32);
  buf = page;
  slots = replicate slots_of_page zero_trb;
  cycle_bit = true;
}

pub fresh_events-HasTaken :
    (page : ℕ) → IsPage page → HasTaken (fresh_events page) (page - page_offset) 0
unfolding fresh_events round_of
fresh_events-HasTaken page i =
    let back = v2p-window (page - page_offset) (omega (arith, i.low, i.high)) in
    let here : page_offset + (page - page_offset) ≡ page = omega (arith, i.low) in
    let phys : v2p page ≡ page - page_offset = rw here at back in
    record {
      aligned = omega (arith, i.low, i.aligned);
      inside = omega (arith, i.low, i.high);
      page = sym here;
      low = inl (rw phys (omega arith));
      high = rw phys (omega (arith, i.high));
      cycle = refl;
    }

pub fresh_events-none : (page : ℕ) → IsPage page → get_eventring (fresh_events page) ≡ none
unfolding fresh_events round_of
fresh_events-none page i = elim (get_eventring_lem (fresh_events-HasTaken page i)) [
  | inl queued ↦ absurd (omega (arith, queued.0))
  | inr (other, idle) ↦ idle
]
