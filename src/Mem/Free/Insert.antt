-- ===== src/Mem/Free/Insert.antt =====
-- `free_mem` of pages that touch no run: before all runs, or between the first two.
use mathlib.Core.Path.{subst}
use native.Mathlib.Nat.{le_refl}
use vimos_minimal.Base.{
  ◌⊎◌, inl, inr, ℕ, ◌+◌, ◌-◌, ◌*◌, ◌^◌, ◌<◌, ◌≡◌, refl, sym, ◌≢◌, [], ◌∷◌, arith, ltb,
  if◌then◌else◌, lt→ltb, le→ltb, length,
}
use vimos_minimal.Mem.{Mem, node, Run, done, header, at, free_loop, free_mem}
use vimos_minimal.Mem.Chain.{Blocks, Chain, nil, cons, IsAscending, frame, IsFreeList}
use vimos_minimal.Mem.Free.{
  AllShort, free_loop_behind, turn, put_front, put_behind, front_round, first_round, behind_round,
}

-- The call ends, and leaves a well-formed list of the runs `bs`.
pub record Leaves (bs : Blocks) (r : Run (Unit {0})) : Type 0 where
  pub state : Mem
  pub ends : r ≡ done tt state
  pub list : IsFreeList state bs

module _ (fuel ptr k : ℕ) (h : Mem) (k0 : 0 < k) (k1 : k < 2 ^ 20) (ptr0 : 0 < ptr) where
  front_call :
      (m q n : ℕ) (bs : Blocks)
      → m ≢ 0
      → h.cell m ≡ node q n
      → Chain h q bs
      → IsAscending 1 ((m, n) ∷ bs)
      → AllShort ((m, n) ∷ bs)
      → ptr + 4096 * k < m
      → length bs + 2 < fuel
      → free_loop fuel ptr k header m h ≡ done tt (put_front h ptr k m)
  front_call m q n bs m0 e c w s lt f =
      turn fuel ptr k header m ptr m k h (put_front h ptr k m) (done tt (put_front h ptr k m))
        (omega arith) m0 (omega arith)
        (front_round ptr k k0 k1 h m (omega arith) (omega arith) (omega arith)) (ground arith)
        (free_loop_behind ptr k k1 (fuel - 1) (put_front h ptr k m) ptr m k m m ((m, n) ∷ bs)
          (frame (cons m0 e c) (le_refl m, w.1, w.2, w.3, w.4) (λ a l. ground arith))
          (le_refl m, w.1, w.2, w.3, w.4) s (omega arith) (ground arith) (omega arith) k1
          (omega arith) lt (omega arith))

  gap_call :
      (p m n q l : ℕ) (bs : Blocks)
      → p ≢ 0
      → h.cell p ≡ node m n
      → Chain h m ((m, l) ∷ bs)
      → IsAscending 1 ((p, n) ∷ (m, l) ∷ bs)
      → AllShort ((p, n) ∷ (m, l) ∷ bs)
      → p + 4096 * n < ptr
      → ptr + 4096 * k < m
      → length bs + 3 < fuel
      → free_loop fuel ptr k header p h ≡ done tt (put_behind h ptr k p m)
  gap_call p m n q l bs p0 e c w s lt gt f =
      turn fuel ptr k header p p m n h h (done tt (put_behind h ptr k p m)) (omega arith) p0 p0
        (first_round ptr k k0 k1 h p m n p0 e lt s.0 (omega arith)) e
        (turn (fuel - 1) ptr k (at p) m ptr m k h (put_behind h ptr k p m)
          (done tt (put_behind h ptr k p m)) (omega arith) (omega arith) (omega arith)
          (behind_round ptr k k0 k1 h p m n p0 e lt s.0 (omega arith)) (ground arith)
          (free_loop_behind ptr k k1 (fuel - 1 - 1) (put_behind h ptr k p m) ptr m k m m
            ((m, l) ∷ bs) (frame c (behind_start w) (λ a g. ground arith)) (behind_start w) s.1
            (omega arith) (ground arith) (omega arith) k1 (omega arith) gt (omega arith)))
    where
      behind_start : {p n : ℕ} → IsAscending 1 ((p, n) ∷ (m, l) ∷ bs) → IsAscending m ((m, l) ∷ bs)
      behind_start v = (le_refl m, v.4.1, v.4.2, v.4.3, v.4.4)

-- The pages touch no run, and lie before all runs or between the first two.
abbrev pub Room : ℕ → ℕ → Blocks → Type 0
Room ptr k [] = ⊥
Room ptr k ((m, n) ∷ []) = ptr + 4096 * k < m
Room ptr k ((m, n) ∷ (m', n') ∷ bs) =
    (ptr + 4096 * k < m) ⊎ ((m + 4096 * n < ptr) × (ptr + 4096 * k < m'))

-- The runs with the pages put in, in ascending order.
abbrev pub put_in : ℕ → ℕ → Blocks → Blocks
put_in ptr k [] = (ptr, k) ∷ []
put_in ptr k ((m, n) ∷ bs) = if ltb ptr m then (ptr, k) ∷ (m, n) ∷ bs else (m, n) ∷ put_in ptr k bs

module _ (fuel ptr k : ℕ) (h : Mem) (k0 : 0 < k) (k1 : k < 2 ^ 20) (ptr0 : 0 < ptr) where
  front_list :
      (m n : ℕ) (bs : Blocks)
      → Chain h m ((m, n) ∷ bs)
      → IsAscending 1 ((m, n) ∷ bs)
      → ptr + 4096 * k < m
      → IsFreeList (put_front h ptr k m) ((ptr, k) ∷ (m, n) ∷ bs)
  front_list m n bs c w lt = record {
    chain =
        cons (omega arith) (ground arith)
          (frame c (le_refl m, w.1, w.2, w.3, w.4) (λ a l. ground arith));
    ascending = (omega arith, k0, omega arith, omega arith, (omega arith, w.1, w.2, w.3, w.4));
  }

  gap_list :
      (p n m n' : ℕ) (bs : Blocks)
      → p ≢ 0
      → h.cell p ≡ node m n
      → h.head.next ≡ p
      → Chain h m ((m, n') ∷ bs)
      → IsAscending 1 ((p, n) ∷ (m, n') ∷ bs)
      → p + 4096 * n < ptr
      → ptr + 4096 * k < m
      → IsFreeList (put_behind h ptr k p m) ((p, n) ∷ (ptr, k) ∷ (m, n') ∷ bs)
  gap_list p n m n' bs p0 e to c (w0, w1, w2, w3, (v0, v1, v2, v3, v)) lt gt = record {
    chain =
        subst (λ x. Chain (put_behind h ptr k p m) x ((p, n) ∷ (ptr, k) ∷ (m, n') ∷ bs)) (sym to)
          (cons p0 (ground arith) (
            cons (omega arith) (ground arith)
              (frame c (le_refl m, v1, v2, v3, v) (λ a l. ground arith))));
    ascending =
        (w0, w1, w2, w3, (omega arith, k0, omega arith, omega arith, (omega arith, v1, v2, v3, v)));
  }

  insert_call :
      (m : ℕ) (bs : Blocks)
      → Chain h m bs
      → h.head.next ≡ m
      → IsAscending 1 bs
      → AllShort bs
      → Room ptr k bs
      → length bs + 1 < fuel
      → Leaves (put_in ptr k bs) (free_loop fuel ptr k header m h)
  insert_call m bs nil to w s r f = absurd r
  insert_call m bs (cons {q} {n} m0 e nil) to w s r f = rw (lt→ltb ptr m (omega arith)) (record {
    state = put_front h ptr k m;
    ends = front_call fuel ptr k h k0 k1 ptr0 m q n [] m0 e nil w s r f;
    list = front_list m n [] (cons m0 e nil) w r;
  })
  insert_call m bs (cons {q} {n} m0 e (cons {q = q'} {n = n'} {bs = rest} m1 e1 c)) to w s (inl r)
        f =
      rw (lt→ltb ptr m (omega arith)) (record {
        state = put_front h ptr k m;
        ends =
            front_call fuel ptr k h k0 k1 ptr0 m q n ((q, n') ∷ rest) m0 e (cons m1 e1 c) w s r
              (omega arith);
        list = front_list m n ((q, n') ∷ rest) (cons m0 e (cons m1 e1 c)) w r;
      })
  insert_call m bs (cons {q} {n} m0 e (cons {q = q'} {n = n'} {bs = rest} m1 e1 c)) to w s (inr r)
        f =
      rw (le→ltb ptr m (omega arith), lt→ltb ptr q (omega arith))
        (record {
          state = put_behind h ptr k m q;
          ends =
              gap_call fuel ptr k h k0 k1 ptr0 m q n q' n' rest m0 e (cons m1 e1 c) w s r.0 r.1
                (omega arith);
          list = gap_list m n q n' rest m0 e to (cons m1 e1 c) w r.0 r.1;
        })

  -- Where the list is well formed with runs of less than 2 ^ 20 pages, and 1 to 2 ^ 20 - 1 pages that
  -- touch no run lie before all runs or between the first two, `free_mem` with fuel for each run
  -- ends and leaves a well-formed list of the same runs and the pages, in ascending order.
  pub free_mem-put_in :
      (bs : Blocks)
      → IsFreeList h bs
      → AllShort bs
      → Room ptr k bs
      → length bs + 1 < fuel
      → Leaves (put_in ptr k bs) (free_mem fuel ptr k h)
  unfolding free_mem
  free_mem-put_in bs list s r f = insert_call h.head.next bs list.chain refl list.ascending s r f
