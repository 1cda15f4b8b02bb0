-- ===== src/Xhci/Endpoint/Walk.antt =====
-- The walk over the descriptors of a configuration in kernel/xhci.c.
use vimos_minimal.Base.{
  ◌⊎◌, inl, inr, ℕ, zero, suc, ◌+◌, ◌≤◌, ◌<◌, ◌≡◌, refl, ◌&&◌, not, List, [], ◌∷◌, arith, ltb, ◌==◌,
  Bool-cases,
}
use vimos_minimal.Xhci.Endpoint.{Buffer, goes_on, walk}

-- The offsets follow each other by the lengths in the buffer, from `p` on, and stay below `end`;
-- behind the last one the end is reached or the length is 0.
abbrev pub IsWalk : Buffer → ℕ → ℕ → List ℕ → Type 0
IsWalk buf end p [] = (end ≤ p) ⊎ (buf p ≡ 0)
IsWalk buf end p (q ∷ qs) = (q ≡ p) × (p < end) × (0 < buf p) × IsWalk buf end (p + buf p) qs

-- Whatever the bytes of the buffer, with the number of bytes left as fuel the walk ends where the
-- end is reached or a length is 0, visits offsets below the end only, and each of them follows the
-- one before by that one's length.
pub walk-IsWalk :
    (fuel : ℕ) (buf : Buffer) (p end : ℕ) → end ≤ p + fuel → IsWalk buf end p (walk fuel buf p end)
unfolding walk goes_on
walk-IsWalk zero buf p end h = inl (omega arith)
walk-IsWalk (suc fuel) buf p end h = elim (Bool-cases (ltb p end && not (buf p == 0))) [
  | inl on ↦
      rw on (refl, ground arith, ground arith, walk-IsWalk fuel buf (p + buf p) end (ground arith))
  | inr off ↦ rw off (ground arith)
]
