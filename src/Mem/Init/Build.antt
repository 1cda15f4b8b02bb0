-- ===== src/Mem/Init/Build.antt =====
-- `init_mem` builds the list of the runs of the memory map.
use mathlib.Core.Path.{subst}
use native.Mathlib.Nat.{add_assoc}
use vimos_minimal.Base.{
  inl, inr, ℕ, ◌+◌, ◌*◌, ◌^◌, ◌≤◌, ◌<◌, ◌≡◌, refl, sym, ◌≢◌, true, false, List, [], ◌∷◌, arith,
  ◌==◌, Bool-cases, u32,
}
use vimos_minimal.Layout.{page_offset}
use vimos_minimal.Mem.{Mem, node, Ref, done, header, at, assign, fetch}
use vimos_minimal.Mem.Chain.{cover, Blocks, Chain, nil, cons, IsAscending-weaken, IsFreeList}
use vimos_minimal.Mem.Alloc.{Before}
use vimos_minimal.Mem.Init.{Descriptor, Scan, extend, close, init_step, init_loop, init_mem}
use vimos_minimal.Mem.Init.Closed.{tally, is_closed, cover-runs}
use vimos_minimal.Mem.Init.Runs.{
  is_free_type, is_usable-is_free_type, start_after, pages_after, runs, usable_at, runs-usable_at,
  IsSorted, Pending, Pending-after, opened, runs-IsAscending,
}

abbrev scan : ℕ → ℕ → Ref → Scan
scan s p cur = record { start = s; pages = p; cur = cur }

-- The list behind the node `cur` holds the runs `bs` in the end, and nothing else has changed but
-- the count of pages in `memlist`.
record Built (h : Mem) (cur : Ref) (lo : ℕ) (bs : Blocks) (g : Mem) : Type 0 where
  next : ℕ
  chain : Chain g next bs
  link : (fetch cur g).next ≡ next
  own_pages : (r : ℕ) → cur ≡ at r → (g.cell r).pages ≡ (h.cell r).pages
  below : (a : ℕ) → a < lo → cur ≢ at a → g.cell a ≡ h.cell a
  head : cur ≢ header → g.head.next ≡ h.head.next

-- The state after `close`.
abbrev closed : Mem → Ref → ℕ → ℕ → Mem
closed h cur ml p =
    let h' = assign (at ml) (node 0 p) (assign (at ml) (node 0 (h.cell ml).pages) h) in
    let h'' = assign header (node h.head.next (u32 (h.head.pages + p))) h' in
    assign cur (node ml (fetch cur h'').pages) h''

extend-scan :
    (d : Descriptor) (lo hi s p : ℕ) (cur : Ref)
    → IsSorted hi (d ∷ [])
    → Pending lo s p hi
    → is_free_type d.type ≡ true
    → extend d (scan s p cur) ≡ scan (start_after d s) (pages_after d s p) cur
unfolding extend
extend-scan d lo hi s p cur w (inl z) u = rw u (ground arith)
extend-scan d lo hi s p cur w (inr o) u = rw u (ground arith)

close-done :
    (h : Mem) (cur : Ref) (s p : ℕ)
    → Before cur (page_offset + s)
    → 0 < p
    → s + 4096 * p < 2 ^ 40
    → close (scan s p cur) h
      ≡ done (scan 0 p (at (page_offset + s))) (closed h cur (page_offset + s) p)
unfolding close
close-done h header s p b p0 fit = ground arith
close-done h (at r) s p b p0 fit = ground arith

Built-close :
    (h : Mem) (cur : Ref) (lo ml p : ℕ) (bs : Blocks) (g : Mem)
    → Before cur lo
    → lo ≤ ml
    → ml ≢ 0
    → 0 < p
    → Built (closed h cur ml p) (at ml) (ml + 4096 * p) bs g
    → Built h cur lo ((ml, p) ∷ bs) g
Built-close h header lo ml p bs g b le m0 p0 t = record {
  next = ml;
  chain = cons m0 (ground (arith, t.link, t.own_pages ml refl)) t.chain;
  link = ground (arith, t.head (λ e. cc));
  own_pages = λ r e. cc;
  below = λ a l other. ground (arith, t.below a (omega arith) (λ e. ground arith));
  head = λ other. absurd (other refl);
}
Built-close h (at r) lo ml p bs g b le m0 p0 t = record {
  next = ml;
  chain = cons m0 (ground (arith, t.link, t.own_pages ml refl)) t.chain;
  link = ground (arith, t.below r (omega arith) (λ e. ground arith));
  own_pages = λ q e. ground (arith, t.below r (omega arith) (λ e. ground arith));
  below = λ a l other. ground (arith, t.below a (omega arith) (λ e. ground arith));
  head = λ other. ground (arith, t.head (λ e. cc));
}

closed_tail :
    (h : Mem) (cur : Ref) (ml p : ℕ) → Before cur ml → ((closed h cur ml p).cell ml).next ≡ 0
closed_tail h header ml p b = ground arith
closed_tail h (at r) ml p b = ground arith

Before-mono : (cur : Ref) (a b : ℕ) → a ≤ b → Before cur a → Before cur b
Before-mono header a b le w = tt
Before-mono (at r) a b le w = omega arith

-- The loop with the run `s`, `p` open.
init_loop-Built :
    (ds : List Descriptor) (h : Mem) (cur : Ref) (lo hi s p : ℕ)
    → (fetch cur h).next ≡ 0
    → Before cur (page_offset + lo)
    → IsSorted hi ds
    → hi < 2 ^ 40
    → lo ≤ hi
    → Pending lo s p hi
    → (g : Mem) × (init_loop ds (scan s p cur) h ≡ done tt g)
      × Built h cur (page_offset + lo) (runs ds s p) g
unfolding init_loop runs init_step
init_loop-Built [] h cur lo hi s p z b w top le o = (
  h,
  refl,
  record {
    next = 0;
    chain = nil;
    link = z;
    own_pages = λ r e. refl;
    below = λ a l other. refl;
    head = λ other. refl;
  },
)
init_loop-Built (d ∷ ds) h cur lo hi s p z b (t16, w0, w1, w2, w) top le o =
    let by_type = is_usable-is_free_type d.type t16 in
    let hi' = d.physical_start + 4096 * d.number_of_page in
    let rest =
      init_loop-Built ds h cur lo hi' (start_after d s) (pages_after d s p) z b w w2 (omega arith)
        (Pending-after d lo hi s p le w0 w1 o) in
    elim (Bool-cases (is_free_type d.type)) [
      | inl u ↦
          rw (by_type, u, extend-scan d lo hi s p cur (t16, w0, w1, w2, tt) o u, u) (rw u at rest)
      | inr u ↦ elim (Bool-cases (s == 0)) [
        | inl nz ↦
            let none_open : s ≡ 0 = ground arith in rw (by_type, u, nz, none_open) (rw u at rest)
        | inr nz ↦
            let (above, some_pages, below) = opened lo hi s p o nz in
            let ml = page_offset + s in
            let before : Before cur ml = Before-mono cur (page_offset + lo) ml (omega arith) b in
            let (g, ends, built) =
              init_loop-Built ds (closed h cur ml p) (at ml) (s + 4096 * p) hi' 0 p
                (closed_tail h cur ml p before) (omega arith) w w2 (omega arith) (inl refl) in
            rw (by_type, u, nz, close-done h cur s p before some_pages (omega arith))
              (
                g,
                ends,
                Built-close h cur (page_offset + lo) ml p (runs ds 0 p) g b (omega arith)
                    (omega arith) some_pages (rw (← add_assoc page_offset s (4096 * p)) at built),
              )
      ]
    ]

init_mem-runs :
    (ds : List Descriptor) (h : Mem)
    → h.head.next ≡ 0
    → IsSorted 0 ds
    → (g : Mem) × (init_mem ds h ≡ done tt g) × IsFreeList g (runs ds 0 0)
unfolding init_mem
init_mem-runs ds h z w =
    let (g, ends, built) =
      init_loop-Built ds h header 0 0 0 0 z tt w (omega arith) (omega arith) (inl refl) in
    (
      g,
      ends,
      record {
        chain = subst (λ x. Chain g x (runs ds 0 0)) (sym built.link) built.chain;
        ascending =
            IsAscending-weaken (runs ds 0 0) (omega arith)
              (runs-IsAscending ds 0 0 0 0 w (omega arith) (omega arith) (inl refl));
      },
    )

-- From an empty list, and for a map in ascending order that ends below 2^40, with types of 16 bits,
-- in which the memory of free types (1 to 4, and 7) that does not start at 0 ends where memory of
-- another type follows, or free memory directly behind it: init_mem ends and leaves a well-formed
-- list that holds each physical address, at the window's offset, once if a descriptor of a free
-- type that does not start at 0 holds it, and not at all otherwise.
pub init_mem-tally :
    (ds : List Descriptor) (h : Mem)
    → h.head.next ≡ 0
    → IsSorted 0 ds
    → is_closed ds ≡ true
    → (g : Mem) × (init_mem ds h ≡ done tt g)
      × (bs : Blocks) × IsFreeList g bs
      × ((a : ℕ) → cover (page_offset + a) bs ≡ tally a ds)
init_mem-tally ds h z w c =
    let (g, ends, list) = init_mem-runs ds h z w in
    (
      g,
      ends,
      runs ds 0 0,
      list,
      λ a. let count = cover-runs ds 0 0 0 a w (inl refl) refl c in omega (arith, count),
    )

-- From an empty list, and for any map in ascending order that ends below 2^40, with types of 16
-- bits, and a physical address a that no descriptor of a free type (1 to 4, and 7) holds: init_mem
-- ends and leaves a well-formed list in which a, at the window's offset, is in no run.
pub init_mem-other :
    (ds : List Descriptor) (h : Mem) (a : ℕ)
    → h.head.next ≡ 0
    → IsSorted 0 ds
    → usable_at a ds ≡ false
    → (g : Mem) × (init_mem ds h ≡ done tt g)
      × (bs : Blocks) × IsFreeList g bs
      × (cover (page_offset + a) bs ≡ 0)
init_mem-other ds h a z w other =
    let (g, ends, list) = init_mem-runs ds h z w in
    let listed : 0 < cover (page_offset + a) (runs ds 0 0) → usable_at a ds ≡ true =
      runs-usable_at ds a w in
    (g, ends, runs ds 0 0, list, ground (arith, listed))
