-- ===== src/Mem/Free/Lost.antt =====
-- Where `free_mem` does not give the pages back to a sound list.
use mathlib.Core.Path.{subst}
use vimos_minimal.Base.{
  ℕ, zero, suc, ◌+◌, ◌-◌, ◌*◌, ◌^◌, ◌≤◌, ◌<◌, ◌≡◌, refl, sym, ◌≢◌, true, false, [], ◌∷◌, arith,
  ◌==◌, length,
}
use vimos_minimal.Mem.{
  Mem, node, Ref, Run, done, fault, header, at, assign, free_round, free_loop, free_mem,
}
use vimos_minimal.Mem.Chain.{
  Blocks, Chain, nil, cons, IsAscending, frame, uncons, last_next, cover, in_run, IsFreeList,
}
use vimos_minimal.Mem.Free.{AllShort, free_loop_behind, turn, put_front, front_round, first_round}
use vimos_minimal.Mem.Free.Merge.{null_round}

-- No run, or one run that ends before the pages.
abbrev pub IsUnseen : ℕ → Blocks → Type 0
IsUnseen ptr [] = Unit {0}
IsUnseen ptr ((p, n) ∷ []) = (p + 4096 * n < ptr) × (n < 2 ^ 20)
IsUnseen ptr ((p, n) ∷ b ∷ bs) = ⊥

abbrev fill : Mem → ℕ → ℕ → ℕ → ℕ → ℕ → ℕ → ℕ → Mem
fill h ptr k p n m q l = assign (at ptr) (node q (k + l)) (
    assign (at ptr) (node q (h.cell ptr).pages)
      (assign (at p) (node ptr (n + k)) (assign (at p) (node m (n + k)) h)))

module _ (ptr k : ℕ) (k0 : 0 < k) (k1 : k < 2 ^ 20) where
  grow_round :
      (h : Mem) (p m n : ℕ)
      → p ≢ 0
      → h.cell p ≡ node m n
      → p + 4096 * n ≡ ptr
      → n + k < 2 ^ 20
      → ptr + 4096 * k < 2 ^ 64
      → free_round ptr k header p h ≡ done p (assign (at p) (node m (n + k)) h)
  unfolding free_round
  grow_round h p m n p0 e adj n1 fit = ground arith

  fill_round :
      (h : Mem) (p m n q l : ℕ)
      → p ≢ 0
      → 0 < n
      → (assign (at p) (node m (n + k)) h).cell m ≡ node q l
      → p + 4096 * n ≡ ptr
      → ptr + 4096 * k ≡ m
      → n + k < 2 ^ 20
      → k + l < 2 ^ 20
      → ptr + 4096 * (k + l) < 2 ^ 64
      → free_round ptr k (at p) m (assign (at p) (node m (n + k)) h)
        ≡ done ptr (fill h ptr k p n m q l)
  unfolding free_round
  fill_round h p m n q l p0 n0 e adj adj' n1 l1 fit = ground arith

module _ (fuel ptr k : ℕ) (h : Mem) (k0 : 0 < k) (k1 : k < 2 ^ 20)
    (fit : ptr + 4096 * k < 2 ^ 64) where
  unseen_call :
      (m : ℕ) (bs : Blocks)
      → Chain h m bs
      → IsUnseen ptr bs
      → 2 ≤ fuel
      → free_loop fuel ptr k header m h ≡ done tt h
  unseen_call m bs nil w f = stop fuel (omega arith)
    where
      stop : (j : ℕ) → 0 < j → free_loop j ptr k header 0 h ≡ done tt h
      stop zero lt = absurd (omega arith)
      stop (suc j) lt = unfold free_loop in refl
  unseen_call m bs (cons {n} m0 e nil) w f =
      turn fuel ptr k header m m 0 n h h (done tt h) (omega arith) m0 m0
        (first_round ptr k k0 k1 h m 0 n m0 e w.0 w.1 fit) e (stop (fuel - 1) (omega arith))
    where
      stop : (j : ℕ) → 0 < j → free_loop j ptr k (at m) 0 h ≡ done tt h
      stop zero lt = absurd (omega arith)
      stop (suc j) lt = unfold free_loop in refl
  unseen_call m bs (cons m0 e (cons m1 e' c)) w f = absurd w

  -- Where no run is free, or one run only, of less than 2 ^ 20 pages, which ends before the pages,
  -- `free_mem` ends and changes nothing: 1 to 2 ^ 20 - 1 pages are given back and no list holds them.
  pub free_mem-IsUnseen :
      (bs : Blocks)
      → Chain h h.head.next bs
      → IsUnseen ptr bs
      → 2 ≤ fuel
      → free_mem fuel ptr k h ≡ done tt h
  unfolding free_mem
  free_mem-IsUnseen bs c w f = unseen_call h.head.next bs c w f

-- The call ends, and the list then holds the pages twice.
pub record Twice (ptr k : ℕ) (bs : Blocks) (r : Run (Unit {0})) : Type 0 where
  pub state : Mem
  pub ends : r ≡ done tt state
  pub chain : Chain state state.head.next bs
  pub twice : (a : ℕ) → in_run a ptr k ≡ true → 2 ≤ cover a bs

module _ (fuel ptr k : ℕ) (h : Mem) (k0 : 0 < k) (k1 : k < 2 ^ 20) where
  fill_call :
      (p n m l q : ℕ) (bs : Blocks)
      → h.head.next ≡ p
      → p ≢ 0
      → h.cell p ≡ node m n
      → m ≢ 0
      → h.cell m ≡ node q l
      → Chain h q bs
      → IsAscending 1 ((p, n) ∷ (m, l) ∷ bs)
      → AllShort bs
      → p + 4096 * n ≡ ptr
      → ptr + 4096 * k ≡ m
      → n + k < 2 ^ 20
      → k + l < 2 ^ 20
      → length bs + 3 < fuel
      → Twice ptr k ((p, n + k) ∷ (ptr, k + l) ∷ bs) (free_loop fuel ptr k header p h)
  fill_call p n m l q bs to p0 e m0 e' c (w0, w1, w2, w3, (v0, v1, v2, v3, v)) s adj adj' n1 l1 f =
      let g = assign (at p) (node m (n + k)) h in
      let g' = fill h ptr k p n m q l in
      let same : (a : ℕ) → m ≤ a → g'.cell a ≡ h.cell a = λ a le. ground arith in
      record {
        state = g';
        ends =
            turn fuel ptr k header p p m (n + k) h g (done tt g') (omega arith) p0 p0
              (grow_round ptr k k0 k1 h p m n p0 e adj n1 (omega arith)) (ground arith)
              (turn (fuel - 1) ptr k (at p) m ptr q (k + l) g g' (done tt g') (omega arith) m0
                (omega arith)
                (fill_round ptr k k0 k1 h p m n q l p0 w1 (ground arith) adj adj' n1 l1
                  (omega arith))
                (ground arith)
                (free_loop_behind ptr k k1 (fuel - 1 - 1) g' ptr q (k + l) (m + 4096 * l) q bs
                  (frame c v (λ a le. same a (omega arith))) v s (omega arith) (ground arith)
                  (omega arith) l1 (omega arith) (omega arith) (omega arith)));
        chain =
            subst (λ x. Chain g' x ((p, n + k) ∷ (ptr, k + l) ∷ bs)) (sym to)
              (cons p0 (ground arith)
                (cons (omega arith) (ground arith) (frame c v (λ a le. same a (omega arith)))));
        twice = λ a inside. ground arith;
      }

  -- Where 1 to 2 ^ 20 - 1 pages fill the gap between the first two runs of a well-formed list, all
  -- sizes stay below 2 ^ 20 pages, and there is fuel for each run, `free_mem` ends with a list that
  -- holds each of these pages twice: at the end of the first run and at the start of the second.
  pub free_mem-Twice :
      (p n m l : ℕ) (bs : Blocks)
      → IsFreeList h ((p, n) ∷ (m, l) ∷ bs)
      → AllShort bs
      → p + 4096 * n ≡ ptr
      → ptr + 4096 * k ≡ m
      → n + k < 2 ^ 20
      → k + l < 2 ^ 20
      → length bs + 3 < fuel
      → Twice ptr k ((p, n + k) ∷ (ptr, k + l) ∷ bs) (free_mem fuel ptr k h)
  unfolding free_mem
  free_mem-Twice p n m l bs list s adj adj' n1 l1 f =
      let (x, at_p, p0, e, c) = uncons list.chain in
      let (y, at_m, m0, e', c') = uncons c in
      subst (λ z. Twice ptr k ((p, n + k) ∷ (ptr, k + l) ∷ bs) (free_loop fuel ptr k header z h))
        (sym at_p)
        (fill_call p n m l y bs at_p p0 (rw at_m at e) m0 e' c' list.ascending s adj adj' n1 l1 f)

-- A round that faults ends the loop.
fault_turn :
    (fuel ptr k : ℕ) (prev : Ref) (m : ℕ) (h : Mem)
    → 0 < fuel
    → m ≢ 0
    → free_round ptr k prev m h ≡ fault
    → free_loop fuel ptr k prev m h ≡ fault
unfolding free_loop
fault_turn zero ptr k prev m h f m0 e = absurd (omega arith)
fault_turn (suc fuel) ptr k prev m h f m0 e =
    let solid : (m == 0) ≡ false = ground arith in rw (solid, e)

module _ (fuel ptr k : ℕ) (h : Mem) (k0 : 0 < k) (k1 : k < 2 ^ 20) (ptr0 : 0 < ptr) where
  -- Where 1 to 2 ^ 20 - 1 pages end where the only run begins, `free_mem` reads `pages` through NULL.
  pub free_mem-fault :
      (m n : ℕ)
      → IsFreeList h ((m, n) ∷ [])
      → ptr + 4096 * k ≡ m
      → 2 ≤ fuel
      → free_mem fuel ptr k h ≡ fault
  unfolding free_mem
  free_mem-fault m n list adj f =
      let (q, at_m, m0, e, c) = uncons list.chain in
      let g = put_front h ptr k m in
      let last : h.cell m ≡ node 0 n = rw (last_next c) at e in
      subst (λ x. free_loop fuel ptr k header x h ≡ fault) (sym at_m)
        (turn fuel ptr k header m ptr m k h g fault (omega arith) m0 (omega arith)
          (front_round ptr k k0 k1 h m (omega arith) (omega arith) (omega arith)) (ground arith)
          (fault_turn (fuel - 1) ptr k (at ptr) m g (omega arith) m0
            (null_round ptr k k0 k1 ptr0 g m n (ground arith) (ground arith) adj (omega arith))))
