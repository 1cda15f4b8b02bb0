-- ===== src/Mem/Free.antt =====
-- `free_mem`, case by case of where the pages go back.
pub mod Insert
pub mod Merge
pub mod Lost
use vimos_minimal.Base.{
  ℕ, zero, suc, ◌+◌, ◌-◌, ◌*◌, ◌^◌, ◌≤◌, ◌<◌, ◌≡◌, ◌≢◌, refl, ap, Bool, true, false, inl, inr,
  Option, none, some, List, [], ◌∷◌, arith, ltb, leb, ◌==◌, if◌then◌else◌, length, Bool-cases,
}
use vimos_minimal.Mem.{
  Mem, Node, node, Ref, header, at, Run, done, fault, M, ◌>>=◌, fetch, assign, is_null, load,
  end_of, set_next, insert_front, insert_after, merge_next, merge_prev, free_round, free_loop,
  free_mem,
}
use vimos_minimal.Mem.Chain.{Blocks, Chain, nil, cons, IsAscending, frame, IsFreeList}

-- Every run has less than 2 ^ 20 pages, so that its size in bytes fits `uint32_t`.
abbrev pub AllShort : Blocks → Type 0
AllShort [] = Unit {0}
AllShort ((p, n) ∷ bs) = (n < 2 ^ 20) × AllShort bs

module _ (ptr k : ℕ) (k1 : k < 2 ^ 20) where
  -- A round that looks at a run behind the freed pages, from a run behind them, does nothing.
  free_round_behind :
      (h : Mem) (p m : ℕ)
      → p ≢ 0
      → m ≢ 0
      → ptr ≤ p + 4096 * (h.cell p).pages
      → (h.cell p).pages < 2 ^ 20
      → p + 4096 * (h.cell p).pages < 2 ^ 64
      → ptr + 4096 * k < m
      → (h.cell m).pages < 2 ^ 20
      → m + 4096 * (h.cell m).pages < 2 ^ 64
      → free_round ptr k (at p) m h ≡ done m h
  unfolding free_round load
  free_round_behind h p m p0 m0 le short fit lt short' fit' = ground arith

  -- Nothing happens behind the freed pages.
  pub free_loop_behind :
      (fuel : ℕ) (h : Mem) (p x np lo m : ℕ) (bs : Blocks)
      → Chain h m bs
      → IsAscending lo bs
      → AllShort bs
      → p ≢ 0
      → h.cell p ≡ node x np
      → ptr ≤ p + 4096 * np
      → np < 2 ^ 20
      → p + 4096 * np < 2 ^ 64
      → ptr + 4096 * k < lo
      → length bs < fuel
      → free_loop fuel ptr k (at p) m h ≡ done tt h
  unfolding free_loop load
  free_loop_behind zero h p x np lo m bs c w s p0 here le short fit lt f = absurd (omega arith)
  free_loop_behind (suc fuel) h p x np lo m bs nil w s p0 here le short fit lt f = refl
  free_loop_behind (suc fuel) h p x np lo m bs (cons {q} {n} {bs = rest} m0 e c)
        (l, n0, n1, fit', w) (s, ss) p0 here le short fit lt f =
      let solid : (m == 0) ≡ false = ground arith in
      rw
        (
          solid,
          free_round_behind h p m p0 m0 (ground arith) (ground arith) (ground arith) (omega arith)
              (ground arith) (ground arith),
          solid,
        )
        (rw (ap (λ (y : Node). y.next) e) (
          free_loop_behind fuel h m q n (m + 4096 * n) q rest c w ss m0 e (omega arith) s
            (omega arith) (omega arith) (omega arith)))

-- The states after a run has been put in front, behind the first run, or joined.
abbrev pub put_front : Mem → ℕ → ℕ → ℕ → Mem
put_front h ptr k m =
    assign (at ptr) (node m k)
      (assign (at ptr) (node m (h.cell ptr).pages) (assign header (node ptr h.head.pages) h))

abbrev pub put_behind : Mem → ℕ → ℕ → ℕ → ℕ → Mem
put_behind h ptr k p m =
    assign (at ptr) (node m k)
      (assign (at p) (node ptr (h.cell p).pages) (assign (at ptr) (node m (h.cell ptr).pages) h))

module _ (ptr k : ℕ) (k0 : 0 < k) (k1 : k < 2 ^ 20) where
  pub front_round :
      (h : Mem) (m : ℕ)
      → ptr ≢ 0
      → ptr < m
      → ptr + 4096 * k < 2 ^ 64
      → free_round ptr k header m h ≡ done ptr (put_front h ptr k m)
  unfolding free_round
  front_round h m p0 lt fit = ground arith

  pub behind_round :
      (h : Mem) (p m n : ℕ)
      → p ≢ 0
      → h.cell p ≡ node m n
      → p + 4096 * n < ptr
      → n < 2 ^ 20
      → ptr + 4096 * k < 2 ^ 64
      → free_round ptr k (at p) m h ≡ done ptr (put_behind h ptr k p m)
  unfolding free_round
  behind_round h p m n p0 e lt n1 fit = ground arith

  -- The first round changes nothing where the pages begin behind the end of the first run.
  pub first_round :
      (h : Mem) (p q n : ℕ)
      → p ≢ 0
      → h.cell p ≡ node q n
      → p + 4096 * n < ptr
      → n < 2 ^ 20
      → ptr + 4096 * k < 2 ^ 64
      → free_round ptr k header p h ≡ done p h
  unfolding free_round
  first_round h p q n p0 e lt n1 fit = ground arith

-- One turn of the loop.
pub turn :
    (fuel ptr k : ℕ) (prev : Ref) (m m' q n : ℕ) (h g : Mem) (r : Run (Unit {0}))
    → 0 < fuel
    → m ≢ 0
    → m' ≢ 0
    → free_round ptr k prev m h ≡ done m' g
    → g.cell m' ≡ node q n
    → free_loop (fuel - 1) ptr k (at m') q g ≡ r
    → free_loop fuel ptr k prev m h ≡ r
unfolding free_loop load
turn zero ptr k prev m m' q n h g r f m0 m1 round e rest = absurd (omega arith)
turn (suc fuel) ptr k prev m m' q n h g r f m0 m1 round e rest =
    let solid : (m == 0) ≡ false = ground arith in
    let solid' : (m' == 0) ≡ false = ground arith in
    let back : suc fuel - 1 ≡ fuel = omega arith in
    rw (solid, round, solid', ap (λ (y : Node). y.next) e) (rw back at rest)
