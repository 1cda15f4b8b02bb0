-- ===== src/Xhci/Start/Endless.antt =====
-- The walk over the extended capabilities in `init_xhci`, where it does not end.
use vimos_minimal.Base.{
  inl, inr, ℕ, zero, suc, ◌+◌, ◌%◌, ◌^◌, ◌≡◌, refl, ◌∙◌, ◌≢◌, false, none, arith, ◌==◌, Bool-cases,
}
use vimos_minimal.Xhci.Start.{Log, next_off, capability_step, capability_loop}

module _ (answer : ℕ → Log → ℕ) (ext d w v : ℕ) (first : (log : Log) → answer ext log ≡ w)
    (second : (log : Log) → answer (ext + d) log ≡ v) (plain1 : w % 2 ^ 8 ≢ 1)
    (plain2 : v % 2 ^ 8 ≢ 1) (next1 : next_off w ≡ d) (next2 : next_off v ≡ d) (d_ne : d ≢ 0) where
  step-next_off :
      (reg x : ℕ) (log : Log)
      → answer reg log ≡ x
      → x % 2 ^ 8 ≢ 1
      → (capability_step answer reg log).0 ≡ next_off x
  unfolding capability_step
  step-next_off reg x log e plain =
      let other : ((x % 2 ^ 8) == 1) ≡ false = ground arith in
      elim (Bool-cases ((x % 2 ^ 8) == 2)) [
        | inl protocol ↦ rw (e, other, protocol) refl
        | inr none_of ↦ rw (e, other, none_of) refl
      ]

  some_d : (d == 0) ≡ false
  some_d = ground (arith, d_ne)

  endless_at : (fuel : ℕ) (log : Log) → capability_loop answer fuel ext d log ≡ none
  unfolding capability_loop
  endless_at zero log = refl
  endless_at (suc fuel) log =
      rw (step-next_off (ext + d) v log (second log) plain2 ∙ next2, some_d)
        (endless_at fuel (capability_step answer (ext + d) log).1)

  -- Where the first two extended capabilities are no legacy support, and both give the same
  -- distance, not 0, to the next one, the walk over the capabilities does not end, with any fuel:
  -- it takes each distance from the first capability on.
  pub capability_loop-endless :
      (fuel : ℕ) (log : Log) → capability_loop answer fuel ext 0 log ≡ none
  unfolding capability_loop
  capability_loop-endless zero log = refl
  capability_loop-endless (suc fuel) log =
      let here : ext + 0 ≡ ext = omega arith in
      rw (here, step-next_off ext w log (first log) plain1 ∙ next1, some_d)
        (endless_at fuel (capability_step answer ext log).1)
