-- ===== src/Xhci/Ring/Written.antt =====
-- What a ring holds after a sequence of writes, counted from its creation.
use mathlib.Core.List.{append-nil, append_assoc}
use mathlib.Core.Bool.{not-not}
use vimos_minimal.Base.{
  inl, inr, ℕ, ◌+◌, ◌/◌, ◌%◌, ◌≤◌, ◌<◌, ◌≡◌, refl, ◌∙◌, Bool, not, some, List, [], ◌∷◌, ◌++◌, arith,
  ◌==◌, nat_cases, length, get_or, set, length-append, length-set, get_or-set_self, get_or-set_ne,
  get_or-append_left, get_or-append_last, get_or-replicate,
}
use vimos_minimal.Layout.{v2p}
use vimos_minimal.Xhci.Trb.{Trb, zero_trb, link_trb}
use vimos_minimal.Xhci.Ring.{Ring, slots_of_page, new_ring, mark, write_ring, write_all}

-- The cycle bit of write number `n`: it changes with each lap of 255 blocks.
unfoldable pub lap : ℕ → Bool
lap n = (n / 255 % 2) == 0

abbrev pub slot : List Trb → ℕ → Trb
slot xs i = get_or xs i zero_trb

-- The ring after the writes `ts`.
pub record Written (r : Ring) (ts : List Trb) : Type 0 where
  pub size : r.ring_size ≡ 256
  pub room : length r.slots ≡ 256
  pub index : r.ring_index ≡ length ts % 255
  pub cycle : r.cycle_bit ≡ lap (length ts)
  -- The last 255 writes stand at their numbers modulo 255, with the cycle bits of their laps.
  pub recent :
      (j : ℕ)
      → j < length ts
      → length ts ≤ j + 255
      → slot r.slots (j % 255) ≡ mark (slot ts j) (lap j)
  pub unused : (j : ℕ) → length ts ≤ j → j < 255 → slot r.slots j ≡ zero_trb
  -- From the first lap's end on there is a link in the last place, with the cycle bit of the lap
  -- before.
  pub link :
      255 ≤ length ts → slot r.slots 255 ≡ mark (link_trb (v2p r.buf)) (not (lap (length ts)))

pub new_ring-Written : (page : ℕ) {r : Ring} → new_ring page ≡ some r → Written r []
unfolding new_ring lap
new_ring-Written page e = record {
  size = ground arith;
  room = ground arith;
  index = ground arith;
  cycle = ground arith;
  recent = λ j l g. absurd (omega arith);
  unused = λ j l b. ground (arith, get_or-replicate slots_of_page j zero_trb);
  link = λ l. absurd (omega arith);
}

pub lap_next : (n : ℕ) → n % 255 < 254 → lap (n + 1) ≡ lap n
unfolding lap
lap_next n h = ground arith

pub lap_wraps : (n : ℕ) → n % 255 ≡ 254 → lap (n + 1) ≡ not (lap n)
unfolding lap
lap_wraps n h = ground arith

module _ {r : Ring} {ts : List Trb} (t : Trb) (v : Written r ts) where
  abbrev n : ℕ
  n = length ts

  abbrev put : List Trb
  put = set r.slots (n % 255) (mark t (lap n))

  -- What both branches leave at the places below the last.
  length_next : length (ts ++ t ∷ []) ≡ n + 1
  length_next = omega (arith, length-append ts (t ∷ []))

  put-recent :
      (j : ℕ)
      → j < n + 1
      → n + 1 ≤ j + 255
      → slot put (j % 255) ≡ mark (slot (ts ++ t ∷ []) j) (lap j)
  put-recent j l g = elim (nat_cases j n) [
    | inl less ↦
        rw
          (
            get_or-set_ne r.slots (n % 255) (j % 255) (mark t (lap n)) zero_trb (omega arith),
            get_or-append_left ts (t ∷ []) j zero_trb less,
          )
          (v.recent j less (omega arith))
    | inr (inl e) ↦ rw (
      e,
      get_or-set_self r.slots (n % 255) (mark t (lap n)) zero_trb (omega (arith, v.room)),
      get_or-append_last ts t zero_trb,
    )
    | inr (inr more) ↦ absurd (omega arith)
  ]

  put-unused : (j : ℕ) → n + 1 ≤ j → j < 255 → slot put j ≡ zero_trb
  put-unused j l b =
      rw (get_or-set_ne r.slots (n % 255) j (mark t (lap n)) zero_trb (omega arith))
        (v.unused j (omega arith) b)

  write_ring-inside :
      n % 255 < 254 → write_ring r t ≡ record r { slots = put; ring_index = n % 255 + 1 }
  unfolding write_ring
  write_ring-inside h = ground (arith, v.size, v.index, v.cycle)

  write_ring-wrap :
      n % 255 ≡ 254
      → write_ring r t ≡ record r {
        slots = set put 255 (mark (link_trb (v2p r.buf)) (lap n));
        ring_index = 0;
        cycle_bit = not (lap n);
      }
  unfolding write_ring
  write_ring-wrap h = ground (arith, v.size, v.index, v.cycle)

  Written-inside :
      n % 255 < 254 → Written (record r { slots = put; ring_index = n % 255 + 1 }) (ts ++ t ∷ [])
  Written-inside h = record {
    size = v.size;
    room = length-set r.slots (n % 255) (mark t (lap n)) ∙ v.room;
    index = omega (arith, length_next);
    cycle = rw (length_next, lap_next n h) v.cycle;
    recent = λ j l g. put-recent j (omega (arith, length_next)) (omega (arith, length_next));
    unused = λ j l b. put-unused j (omega (arith, length_next)) b;
    link = λ l.
        rw (length_next, lap_next n h)
          (get_or-set_ne r.slots (n % 255) 255 (mark t (lap n)) zero_trb (omega arith)
            ∙ v.link (omega (arith, length_next)));
  }

  Written-wrap :
      n % 255 ≡ 254
      → Written
          (record r {
            slots = set put 255 (mark (link_trb (v2p r.buf)) (lap n));
            ring_index = 0;
            cycle_bit = not (lap n);
          })
          (ts ++ t ∷ [])
  Written-wrap h = record {
    size = v.size;
    room =
        length-set put 255 (mark (link_trb (v2p r.buf)) (lap n))
        ∙ (length-set r.slots (n % 255) (mark t (lap n)) ∙ v.room);
    index = omega (arith, length_next);
    cycle = rw (length_next, lap_wraps n h) refl;
    recent = λ j l g.
        get_or-set_ne put 255 (j % 255) (mark (link_trb (v2p r.buf)) (lap n)) zero_trb (omega arith)
        ∙ put-recent j (omega (arith, length_next)) (omega (arith, length_next));
    unused = λ j l b.
        get_or-set_ne put 255 j (mark (link_trb (v2p r.buf)) (lap n)) zero_trb (omega arith)
        ∙ put-unused j (omega (arith, length_next)) b;
    link = λ l.
        rw (length_next, lap_wraps n h, not-not)
          (get_or-set_self put 255 (mark (link_trb (v2p r.buf)) (lap n)) zero_trb
            (omega (arith, length-set r.slots (n % 255) (mark t (lap n)), v.room)));
  }

  -- Each write adds its block to what the ring holds.
  pub write_ring-Written : Written (write_ring r t) (ts ++ t ∷ [])
  write_ring-Written = elim (nat_cases (n % 255) 254) [
    | inl less ↦ rw (write_ring-inside less) (Written-inside less)
    | inr (inl e) ↦ rw (write_ring-wrap e) (Written-wrap e)
    | inr (inr more) ↦ absurd (omega arith)
  ]

pub write_all-Written :
    (ts' : List Trb) {r : Ring} {ts : List Trb}
    → Written r ts
    → Written (write_all r ts') (ts ++ ts')
unfolding write_all
write_all-Written [] {ts} v = rw (append-nil ts) v
write_all-Written (t ∷ ts') {r} {ts} v =
    rw (append_assoc ts (t ∷ []) ts') at (write_all-Written ts' (write_ring-Written t v))

-- After any sequence of writes to a new ring, its index and cycle bit count the writes, the last
-- 255 of them stand in their places with the cycle bits of their laps, what no write has reached
-- is still clear, and once a lap has ended the last place holds the link back to the page.
pub new_ring-write_all :
    (page : ℕ) (ts : List Trb) {r : Ring} → new_ring page ≡ some r → Written (write_all r ts) ts
new_ring-write_all page ts e = write_all-Written ts (new_ring-Written page e)
