-- ===== src/Xhci/Dispatch/Queue.antt =====
-- The events of `usb_process_events`, one after the other.
use vimos_minimal.Base.{ℕ, ◌+◌, ◌≡◌, refl, Option, none, some, List, [], ◌∷◌}
use vimos_minimal.Mem.{Mem, M, done, fault, out_of_fuel, pure, and_then, ◌>>=◌, Run}
use vimos_minimal.Mem.Post.{Post, Post-and_then}
use vimos_minimal.Xhci.Trb.{Trb}
use vimos_minimal.Xhci.Events.{EventRing}
use vimos_minimal.Xhci.Slot.{Driver}
use vimos_minimal.Xhci.Dispatch.{Seen, dispatch}
use vimos_minimal.Xhci.Dispatch.Fair.{Fine}
use vimos_minimal.Xhci.Dispatch.Event.{dispatch-Fine}

-- The events of a list, one after the other, up to a panic.
unfoldable pub handle_all :
    (fuel : ℕ) → (ℕ → Seen) → (taken : ℕ) → List Trb → Option Driver → M (Option Driver)
handle_all fuel seen taken ts none = pure none
handle_all fuel seen taken [] (some d) = pure (some d)
handle_all fuel seen taken (t ∷ ts) (some d) = do
  d' ← dispatch fuel (seen taken) t d
  handle_all fuel seen (taken + 1) ts d'

abbrev pub with_ring : EventRing → Option Driver → Option (EventRing × Driver)
with_ring e none = none
with_ring e (some d) = some (e, d)

pub and_then_assoc :
    {A B C : Type 0} (r : Run A) (k : A → M B) (l : B → M C)
    → and_then (and_then r k) l ≡ and_then r (λ a h. and_then (k a h) l)
and_then_assoc (done a h) k l = refl
and_then_assoc fault k l = refl
and_then_assoc out_of_fuel k l = refl

pub and_then_cong :
    {A B : Type 0} (r : Run A) (k l : A → M B)
    → ((a : A) (h : Mem) → k a h ≡ l a h)
    → and_then r k ≡ and_then r l
and_then_cong (done a h) k l same = same a h
and_then_cong fault k l same = refl
and_then_cong out_of_fuel k l same = refl

pub handle_all-Fine :
    (fuel : ℕ) (seen : ℕ → Seen) (taken : ℕ) (ts : List Trb) (d : Option Driver) (h : Mem)
    → Fine fuel d h
    → Post (Fine fuel) (handle_all fuel seen taken ts d h)
unfolding handle_all
handle_all-Fine fuel seen taken ts none h v = v
handle_all-Fine fuel seen taken [] (some d) h v = v
handle_all-Fine fuel seen taken (t ∷ ts) (some d) h (v, f) =
    Post-and_then (Fine fuel) (Fine fuel) (dispatch fuel (seen taken) t d h) _
      (dispatch-Fine fuel (seen taken) t d h f v)
      (λ d' h' w. handle_all-Fine fuel seen (taken + 1) ts d' h' w)
