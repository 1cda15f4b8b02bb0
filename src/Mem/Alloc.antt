-- ===== src/Mem/Alloc.antt =====
-- `alloc_mem` takes pages first fit from the ascending list of free runs.
pub mod FirstFit
pub mod Total
use vimos_minimal.Base.{
  sub32, ℕ, zero, suc, ◌+◌, ◌-◌, ◌*◌, ◌^◌, ◌≤◌, ◌<◌, ◌≡◌, ◌≢◌, refl, Bool, true, false, inl, inr,
  Option, none, some, List, [], ◌∷◌, arith, ltb, leb, ◌==◌, if◌then◌else◌, length, Bool-cases,
}
use vimos_minimal.Mem.{
  Mem, Node, node, Ref, header, at, Run, done, fault, M, ◌>>=◌, end_of, fetch, assign, is_null,
  load, set_next, split, alloc_loop, alloc_mem,
}
use vimos_minimal.Mem.Chain.{
  Blocks, Chain, nil, cons, IsAscending, IsAscending-weaken, in_run, cover, cover_below, frame,
}

abbrev pub behind : ℕ × ℕ → Option (ℕ × Blocks) → Option (ℕ × Blocks)
behind b none = none
behind b (some (p, bs)) = some (p, b ∷ bs)

-- The first run that has `k` pages gives its first `k`.
unfoldable pub first_fit : ℕ → Blocks → Option (ℕ × Blocks)
first_fit k [] = none
first_fit k ((p, n) ∷ bs) =
    if n == k
    then some (p, bs)
    else if leb k n
    then some (p, (p + 4096 * k, n - k) ∷ bs)
    else behind (p, n) (first_fit k bs)

abbrev pub Before : Ref → ℕ → Type 0
Before header lo = Unit {0}
Before (at p) lo = (p ≢ 0) × (p < lo)

-- What a search that starts behind the node `prev` has changed, where the list behind `prev` holds
-- the runs `bs` in the end.
pub record Taken (h : Mem) (prev : Ref) (lo : ℕ) (bs : Blocks) (g : Mem) : Type 0 where
  pub next : ℕ
  pub chain : Chain g next bs
  pub link : fetch prev g ≡ node next (fetch prev h).pages
  pub below : (a : ℕ) → a < lo → prev ≢ at a → g.cell a ≡ h.cell a
  pub head : prev ≢ header → g.head ≡ h.head

abbrev pub Outcome : Mem → Ref → ℕ → Option (ℕ × Blocks) → Run ℕ → Type 0
Outcome h prev lo none r = r ≡ done 0 h
Outcome h prev lo (some (p, bs)) r = (g : Mem) × (r ≡ done p g) × Taken h prev lo bs g

-- Writing `prev->next` succeeds, and changes the node `prev` alone.
pub set_next-done :
    (h : Mem) (prev : Ref) (lo q : ℕ)
    → Before prev lo
    → set_next prev q h ≡ done tt (assign prev (node q (fetch prev h).pages) h)
unfolding set_next
set_next-done h header lo q b = refl
set_next-done h (at r) lo q b = ground arith

Taken-assign :
    (h : Mem) (prev : Ref) (lo p q : ℕ) (bs : Blocks)
    → Before prev lo
    → lo ≤ p
    → IsAscending p bs
    → Chain h q bs
    → Taken h prev lo bs (assign prev (node q (fetch prev h).pages) h)
Taken-assign h header lo p q bs b le w c = record {
  next = q;
  chain = frame c w (λ a l. refl);
  link = refl;
  below = λ a l ne. refl;
  head = λ ne. absurd (ne refl);
}
Taken-assign h (at r) lo p q bs b le w c = record {
  next = q;
  chain = frame c w (λ a l. ground arith);
  link = ground arith;
  below = λ a l ne. ground arith;
  head = λ ne. refl;
}

-- The state that `split` leaves.
abbrev cut : Mem → Ref → ℕ → ℕ → ℕ → Mem
cut h prev ml q n = assign (at ml) (node q n) (
    assign (at ml) (node q (fetch (at ml) (assign prev (node ml (fetch prev h).pages) h)).pages)
      (assign prev (node ml (fetch prev h).pages) h))

split-done :
    (h : Mem) (prev : Ref) (lo k p q n : ℕ)
    → Before prev lo
    → lo ≤ p
    → p ≢ 0
    → h.cell p ≡ node q n
    → 0 < k
    → k < 2 ^ 20
    → k < n
    → n < 2 ^ 32
    → p + 4096 * n < 2 ^ 64
    → split k prev p h ≡ done p (cut h prev (p + 4096 * k) q (n - k))
unfolding split load set_next
split-done h header lo k p q n b le ne e k0 k1 kn n1 fit = ground arith
split-done h (at r) lo k p q n b le ne e k0 k1 kn n1 fit = ground arith

Taken-cut :
    (h : Mem) (prev : Ref) (lo p q k n : ℕ) (bs : Blocks)
    → Before prev lo
    → lo ≤ p
    → 0 < k
    → k < n
    → IsAscending (p + 4096 * n) bs
    → Chain h q bs
    → Taken h prev lo ((p + 4096 * k, n - k) ∷ bs) (cut h prev (p + 4096 * k) q (n - k))
Taken-cut h header lo p q k n bs b le k0 kn w c = record {
  next = p + 4096 * k;
  chain = cons (omega arith) (ground arith) (frame c w (λ a l. ground arith));
  link = refl;
  below = λ a l ne. ground arith;
  head = λ ne. absurd (ne refl);
}
Taken-cut h (at r) lo p q k n bs b le k0 kn w c = record {
  next = p + 4096 * k;
  chain = cons (omega arith) (ground arith) (frame c w (λ a l. ground arith));
  link = ground arith;
  below = λ a l ne. ground arith;
  head = λ ne. refl;
}

-- A run that is too small is passed over.
pass_over :
    (h : Mem) (prev : Ref) (lo p q n : ℕ) (o : Option (ℕ × Blocks)) (r : Run ℕ)
    → Before prev lo
    → lo ≤ p
    → p ≢ 0
    → (fetch prev h).next ≡ p
    → h.cell p ≡ node q n
    → 0 < n
    → Outcome h (at p) (p + 4096 * n) o r
    → Outcome h prev lo (behind (p, n) o) r
pass_over h prev lo p q n none r b le ne to e n0 out = out
pass_over h header lo p q n (some (x, bs)) r b le ne to e n0 (g, done_g, t) = (
  g,
  done_g,
  record {
    next = p;
    chain = cons ne (ground (arith, t.link)) t.chain;
    link = ground (arith, t.head (λ eq. cc));
    below = λ a l other. t.below a (omega arith) (λ eq. ground arith);
    head = λ other. absurd (other refl);
  },
)
pass_over h (at i) lo p q n (some (x, bs)) r b le ne to e n0 (g, done_g, t) = (
  g,
  done_g,
  record {
    next = p;
    chain = cons ne (ground (arith, t.link)) t.chain;
    link = ground (arith, t.below i (omega arith) (λ eq. ground arith));
    below = λ a l other. t.below a (omega arith) (λ eq. ground arith);
    head = λ other. t.head (λ eq. cc);
  },
)

module _ (k : ℕ) (k0 : 0 < k) (k1 : k < 2 ^ 20) where
  -- The loop started behind `prev` does what `first_fit` does to the rest of the list.
  alloc_loop-Outcome :
      (fuel : ℕ) (h : Mem) (prev : Ref) (lo m : ℕ) (bs : Blocks)
      → Chain h m bs
      → (fetch prev h).next ≡ m
      → Before prev lo
      → IsAscending lo bs
      → length bs < fuel
      → Outcome h prev lo (first_fit k bs) (alloc_loop fuel k prev m h)
  unfolding alloc_loop first_fit load
  alloc_loop-Outcome zero h prev lo m bs c to b w f = absurd (omega arith)
  alloc_loop-Outcome (suc fuel) h prev lo m bs nil to b w f = refl
  alloc_loop-Outcome (suc fuel) h prev lo m bs (cons {q} {n} {bs = rest} ne e c) to b
        (le, n0, n1, fit, w) f =
      let solid : (m == 0) ≡ false = ground arith in
      rw (solid, solid, e)
        (elim (Bool-cases (n == k)) [
          | inl same ↦ rw same (
            assign prev (node q (fetch prev h).pages) h,
            rw (set_next-done h prev lo q b),
            Taken-assign h prev lo (m + 4096 * n) q rest b (omega arith) w c,
          )
          | inr other ↦ rw other (elim (Bool-cases (leb k n)) [
            | inl fits ↦
                let less : k < n = ground arith in
                rw fits (
                  cut h prev (m + 4096 * k) q (n - k),
                  split-done h prev lo k m q n b le ne e k0 k1 less n1 fit,
                  Taken-cut h prev lo m q k n rest b le k0 less w c,
                )
            | inr small ↦ rw small (
                pass_over h prev lo m q n (first_fit k rest) _ b le ne to e n0 (
                  alloc_loop-Outcome fuel h (at m) (m + 4096 * n) q rest c (rw e refl)
                    (ne, omega arith) w (omega arith)))
          ])
        ])
