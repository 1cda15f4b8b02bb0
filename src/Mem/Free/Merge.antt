-- ===== src/Mem/Free/Merge.antt =====
-- `free_mem` of pages that end where the first run begins: they are joined to it.
use mathlib.Core.Path.{subst}
use vimos_minimal.Base.{
  ℕ, ◌+◌, ◌-◌, ◌*◌, ◌^◌, ◌≤◌, ◌<◌, ◌≡◌, refl, sym, ◌≢◌, some, ◌∷◌, arith, length,
}
use vimos_minimal.Mem.{
  Mem, node, done, fault, header, at, assign, free_round, free_loop, free_mem, alloc_mem,
}
use vimos_minimal.Mem.Chain.{Blocks, Chain, cons, IsAscending, frame, uncons, IsFreeList}
use vimos_minimal.Mem.Alloc.{first_fit}
use vimos_minimal.Mem.Alloc.Total.{Gives, alloc_mem-first_fit}
use vimos_minimal.Mem.Free.{AllShort, free_loop_behind, turn, put_front, front_round}
use vimos_minimal.Mem.Free.Insert.{Leaves}

abbrev join : Mem → ℕ → ℕ → ℕ → ℕ → Mem
join h ptr k q n =
    assign (at ptr) (node q (k + n)) (assign (at ptr) (node q k) (assign (at ptr) (node ptr k) h))

module _ (ptr k : ℕ) (k0 : 0 < k) (k1 : k < 2 ^ 20) (ptr0 : 0 < ptr) where
  join_round :
      (h : Mem) (m q n q' n' : ℕ)
      → h.cell ptr ≡ node m k
      → h.cell m ≡ node q n
      → h.cell q ≡ node q' n'
      → ptr + 4096 * k ≡ m
      → m < 2 ^ 64
      → m < q
      → k + n < 2 ^ 32
      → n' < 2 ^ 20
      → q + 4096 * n' < 2 ^ 64
      → free_round ptr k (at ptr) m h ≡ done q (join h ptr k q n)
  unfolding free_round
  join_round h m q n q' n' e e' e'' adj fit lt wide short fit' = ground arith

  -- With no second run `m->pages` is read through NULL.
  pub null_round :
      (h : Mem) (m n : ℕ)
      → h.cell ptr ≡ node m k
      → h.cell m ≡ node 0 n
      → ptr + 4096 * k ≡ m
      → m < 2 ^ 64
      → free_round ptr k (at ptr) m h ≡ fault
  unfolding free_round
  null_round h m n e e' adj fit = ground arith

module _ (fuel ptr k : ℕ) (h : Mem) (k0 : 0 < k) (k1 : k < 2 ^ 20) (ptr0 : 0 < ptr) where
  join_call :
      (m n q n' q' : ℕ) (bs : Blocks)
      → m ≢ 0
      → h.cell m ≡ node q n
      → q ≢ 0
      → h.cell q ≡ node q' n'
      → Chain h q' bs
      → IsAscending 1 ((m, n) ∷ (q, n') ∷ bs)
      → AllShort ((q, n') ∷ bs)
      → ptr + 4096 * k ≡ m
      → k + n < 2 ^ 32
      → length bs + 3 < fuel
      → Leaves ((ptr, k + n) ∷ (q, n') ∷ bs) (free_loop fuel ptr k header m h)
  join_call m n q n' q' bs m0 e q0 e' c (w0, w1, w2, w3, (v0, v1, v2, v3, v)) (s, ss) adj wide f =
      let g = put_front h ptr k m in
      let g' = join g ptr k q n in
      let same : (a : ℕ) → q ≤ a → g'.cell a ≡ h.cell a = λ a l. ground arith in
      record {
        state = g';
        ends =
            turn fuel ptr k header m ptr m k h g (done tt g') (omega arith) m0 (omega arith)
              (front_round ptr k k0 k1 h m (omega arith) (omega arith) (omega arith)) (ground arith)
              (turn (fuel - 1) ptr k (at ptr) m q q' n' g g' (done tt g') (omega arith) m0 q0
                (join_round ptr k k0 k1 ptr0 g m q n q' n' (ground arith) (ground arith)
                  (ground arith) adj (omega arith) (omega arith) wide s (omega arith))
                (ground (arith, same q (omega arith)))
                (free_loop_behind ptr k k1 (fuel - 1 - 1) g' q q' n' (q + 4096 * n') q' bs
                  (frame c v (λ a l. same a (omega arith))) v ss q0
                  (ground (arith, same q (omega arith))) (omega arith) s (omega arith) (omega arith)
                  (omega arith)));
        list = record {
          chain = cons (omega arith) (ground arith) (
              cons q0 (ground (arith, same q (omega arith)))
                (frame c v (λ a l. same a (omega arith))));
          ascending = (omega arith, omega arith, wide, omega arith, (omega arith, v1, v2, v3, v));
        };
      }

  -- Where the list is well formed, a second run follows the first, all runs behind the first have
  -- less than 2 ^ 20 pages, and 1 to 2 ^ 20 - 1 pages end where the first run begins and with it stay
  -- below 2 ^ 32 pages, `free_mem` with fuel for each run ends and joins the pages to the first run.
  pub free_mem-join :
      (m n q n' : ℕ) (bs : Blocks)
      → IsFreeList h ((m, n) ∷ (q, n') ∷ bs)
      → AllShort ((q, n') ∷ bs)
      → ptr + 4096 * k ≡ m
      → k + n < 2 ^ 32
      → length bs + 3 < fuel
      → Leaves ((ptr, k + n) ∷ (q, n') ∷ bs) (free_mem fuel ptr k h)
  unfolding free_mem
  free_mem-join m n q n' bs list s adj wide f =
      let (q1, at_m, m0, e, c) = uncons list.chain in
      let (q2, at_q, q0, e', c') = uncons c in
      subst (λ x. Leaves ((ptr, k + n) ∷ (q, n') ∷ bs) (free_loop fuel ptr k header x h)) (sym at_m)
        (join_call m n q n' q2 bs m0 (rw at_q at e) q0 e' c' list.ascending s adj wide f)

-- `alloc_mem` ends with the address `p`, and `free_mem` of the same pages then leaves the runs `bs`.
pub record GivenBack (fuel p k : ℕ) (h : Mem) (bs : Blocks) : Type 0 where
  pub between : Mem
  pub given : alloc_mem fuel k h ≡ done p between
  pub back : Leaves bs (free_mem fuel p k between)

module _ (fuel k : ℕ) (h : Mem) (p n q n' : ℕ) (bs : Blocks)
    (list : IsFreeList h ((p, n) ∷ (q, n') ∷ bs)) (short : AllShort ((q, n') ∷ bs)) (k0 : 0 < k)
    (kn : k < n) (k1 : k < 2 ^ 20) (enough : length bs + 3 < fuel) where
  taken_first : first_fit k ((p, n) ∷ (q, n') ∷ bs) ≡ some (p, (p + 4096 * k, n - k) ∷ (q, n') ∷ bs)
  unfolding first_fit
  taken_first = ground arith

  after_alloc : Gives h (some (p, (p + 4096 * k, n - k) ∷ (q, n') ∷ bs)) (alloc_mem fuel k h)
  after_alloc =
      subst (λ o. Gives h o (alloc_mem fuel k h)) taken_first
        (alloc_mem-first_fit fuel k h ((p, n) ∷ (q, n') ∷ bs) list k0 k1 (omega arith))

  rest_IsAscending :
      IsAscending 1 ((p, n) ∷ (q, n') ∷ bs) → IsAscending 1 ((p + 4096 * k, n - k) ∷ (q, n') ∷ bs)
  rest_IsAscending (w0, w1, w2, w3, (v0, v1, v2, v3, v)) =
      (omega arith, omega arith, omega arith, omega arith, (omega arith, v1, v2, v3, v))

  -- Where the first run has more pages than asked for, a second run follows, the runs behind the
  -- first have less than 2 ^ 20 pages each, and there is fuel for each run: `alloc_mem` ends and
  -- returns the start of the first run, and `free_mem` of these pages ends and leaves the list of
  -- the runs that were there before.
  pub free_mem-alloc_mem : GivenBack fuel p k h ((p, n) ∷ (q, n') ∷ bs)
  free_mem-alloc_mem =
      let (g, given, c, kept) = after_alloc in
      let total : k + (n - k) ≡ n = omega arith in
      record {
        between = g;
        given = given;
        back =
            subst (λ t. Leaves ((p, t) ∷ (q, n') ∷ bs) (free_mem fuel p k g)) total
              (free_mem-join fuel p k g k0 k1 list.ascending.0 (p + 4096 * k) (n - k) q n' bs
                (record { chain = c; ascending = rest_IsAscending list.ascending }) short refl
                (omega (arith, list.ascending.2)) enough);
      }
