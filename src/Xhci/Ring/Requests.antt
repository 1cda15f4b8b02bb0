-- ===== src/Xhci/Ring/Requests.antt =====
-- `get_descriptor` of kernel/xhci.c: a control transfer of three blocks, and the doorbell.
-- `get_descriptor_noreport` has the same body.
use native.Mathlib.Nat.{add-zero}
use vimos_minimal.Base.{
  ℕ, ◌+◌, ◌*◌, ◌^◌, bit_or, ◌≡◌, refl, List, [], ◌∷◌, ◌++◌, arith, length, length-append,
  get_or-append_right,
}
use vimos_minimal.Layout.{v2p}
use vimos_minimal.Xhci.Trb.{
  Trb, zero_trb, setup_stage_trb, data_stage_trb, status_stage_trb, setup_stage_trb-IsPlain,
  data_stage_trb-IsPlain, status_stage_trb-IsPlain,
}
use vimos_minimal.Xhci.Ring.{Ring, write_ring, write_all, mark}
use vimos_minimal.Xhci.Ring.Written.{lap, slot, Written, write_all-Written}
use vimos_minimal.Xhci.Ring.Consumer.{consume, consumer_at, AllPlain, marked, consume-marked}

-- A store to `((volatile uint32_t *)doorbell)[reg]`.
pub record Doorbell : Type 0 where
  pub reg : ℕ
  pub val : ℕ

-- The setup stage of GET_DESCRIPTOR.
unfoldable pub get_descriptor_setup : ℕ → ℕ → ℕ → Trb
get_descriptor_setup desc_type desc_index buf_len =
    setup_stage_trb 0x80 6 (bit_or (desc_type * 2 ^ 8) desc_index) 0 buf_len 3

unfoldable pub get_descriptor_data : ℕ → ℕ → Trb
get_descriptor_data buf buf_len = data_stage_trb (v2p buf) buf_len 1

unfoldable pub get_descriptor : Ring → ℕ → ℕ → ℕ → ℕ → ℕ → Ring × Doorbell
get_descriptor r slot_id desc_type desc_index buf buf_len =
    let r1 = write_ring r (get_descriptor_setup desc_type desc_index buf_len) in
    let r2 = write_ring r1 (get_descriptor_data buf buf_len) in
    let r3 = write_ring r2 (status_stage_trb 0 0) in (r3, record { reg = slot_id; val = 1 })

unfoldable pub get_descriptor_noreport : Ring → ℕ → ℕ → ℕ → ℕ → ℕ → Ring × Doorbell
unfolding get_descriptor
get_descriptor_noreport r slot_id desc_type desc_index buf buf_len =
    get_descriptor r slot_id desc_type desc_index buf buf_len

-- The three blocks, in the order of the stages.
abbrev pub stages : ℕ → ℕ → ℕ → ℕ → List Trb
stages desc_type desc_index buf buf_len =
    get_descriptor_setup desc_type desc_index buf_len
    ∷ get_descriptor_data buf buf_len
    ∷ status_stage_trb 0 0
    ∷ []

stages-AllPlain : (t i b l : ℕ) → AllPlain (stages t i b l)
unfolding get_descriptor_setup get_descriptor_data
stages-AllPlain t i b l = (
  setup_stage_trb-IsPlain _ _ _ _ _ _,
  (data_stage_trb-IsPlain _ _ _, (status_stage_trb-IsPlain 0 0, tt)),
)

AllPlain-append : (xs ys : List Trb) → AllPlain xs → AllPlain ys → AllPlain (xs ++ ys)
AllPlain-append [] ys p q = q
AllPlain-append (x ∷ xs) ys p q = (p.0, AllPlain-append xs ys p.1 q)

marked_sent :
    (ts : List Trb) (x y z : Trb)
    → marked (ts ++ x ∷ y ∷ z ∷ []) (length ts) 3
      ≡ mark x (lap (length ts)) ∷ mark y (lap (length ts + 1)) ∷ mark z (lap (length ts + 2)) ∷ []
marked_sent ts x y z =
    let n = length ts in
    let sent : List Trb = x ∷ y ∷ z ∷ [] in
    let second : n + 1 + 1 ≡ n + 2 = omega arith in
    let here : slot (ts ++ sent) n ≡ x =
      rw (add-zero n) at (get_or-append_right ts sent 0 zero_trb) in
    rw
      (here, second, get_or-append_right ts sent 1 zero_trb, get_or-append_right ts sent 2 zero_trb)

write_three :
    (r : Ring) (x y z : Trb)
    → write_all r (x ∷ y ∷ z ∷ []) ≡ write_ring (write_ring (write_ring r x) y) z
unfolding write_all
write_three r x y z = refl

-- From a ring with any history of plain blocks, all of which the controller has taken, it takes
-- after one `get_descriptor` the setup, the data and the status stage, in this order, nothing
-- else, and then waits where the next block will be written.
pub get_descriptor-consume :
    {r : Ring} {ts : List Trb} (slot_id desc_type desc_index buf buf_len : ℕ)
    → Written r ts
    → AllPlain ts
    → consume 7
        (get_descriptor r slot_id desc_type desc_index buf buf_len).0.slots
        (consumer_at (length ts))
      ≡ (
        mark (get_descriptor_setup desc_type desc_index buf_len) (lap (length ts))
            ∷ mark (get_descriptor_data buf buf_len) (lap (length ts + 1))
            ∷ mark (status_stage_trb 0 0) (lap (length ts + 2))
            ∷ [],
        consumer_at (length ts + 3),
      )
unfolding get_descriptor
get_descriptor-consume {r} {ts} slot_id t i b l v p =
    let sent = stages t i b l in
    let total : length (ts ++ sent) ≡ length ts + 3 = omega (arith, length-append ts sent) in
    let after =
      consume-marked (write_all-Written sent v)
        (AllPlain-append ts sent p (stages-AllPlain t i b l)) 3 (length ts) 7 (omega arith)
        (omega arith) (omega arith) in
    rw (write_three, total, marked_sent) at after
