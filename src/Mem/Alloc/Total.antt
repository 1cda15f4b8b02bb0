-- ===== src/Mem/Alloc/Total.antt =====
-- `alloc_mem` on a well-formed free list: it ends, and what it returns.
use vimos_minimal.Base.{
  ℕ, ◌+◌, ◌^◌, ◌≤◌, ◌<◌, ◌≡◌, ◌≢◌, refl, sym, ap, ◌⊎◌, inl, inr, Option, none, some, arith,
  if◌then◌else◌, length,
}
use mathlib.Core.Path.{subst}
use vimos_minimal.Mem.{Mem, Node, header, Run, done, alloc_mem}
use vimos_minimal.Mem.Chain.{Blocks, Chain, IsAscending, in_run, cover, cover-le-one, IsFreeList}
use vimos_minimal.Mem.Alloc.{first_fit, Outcome, alloc_loop-Outcome}
use vimos_minimal.Mem.Alloc.FirstFit.{AllSmaller, PartOf, first_fit-PartOf}

-- The call ends with what `first_fit` gives for the runs of the list.
abbrev pub Gives : Mem → Option (ℕ × Blocks) → Run ℕ → Type 0
Gives h none r = r ≡ done 0 h
Gives h (some (p, bs)) r =
    (g : Mem) × (r ≡ done p g) × Chain g g.head.next bs × (g.head.pages ≡ h.head.pages)

-- The call ends and either returns NULL, or takes `k` pages out of the runs.
pub record Served (k : ℕ) (bs : Blocks) (r : Run ℕ) : Type 0 where
  pub start : ℕ
  pub state : Mem
  pub left : Blocks
  pub ends : r ≡ done start state
  pub not_null : start ≢ 0
  pub list : IsFreeList state left
  pub single : (a : ℕ) → cover a bs ≤ 1
  pub parts : (a : ℕ) → cover a bs ≡ (if in_run a start k then 1 else 0) + cover a left

Gives-of_Outcome :
    (h : Mem) (o : Option (ℕ × Blocks)) (r : Run ℕ) → Outcome h header 1 o r → Gives h o r
Gives-of_Outcome h none r out = out
Gives-of_Outcome h (some (p, bs)) r (g, e, t) = (
  g,
  e,
  subst (λ q. Chain g q bs) (ap (λ (n : Node). n.next) (sym t.link)) t.chain,
  ground (arith, t.link),
)

module _ (fuel k : ℕ) (h : Mem) (bs : Blocks) (list : IsFreeList h bs) (k0 : 0 < k)
    (k1 : k < 2 ^ 20) (enough : length bs < fuel) where
  -- On a well-formed free list, for a request of 1 to 2 ^ 20 - 1 pages and with fuel for every run,
  -- `alloc_mem` ends and does what first fit does: where `first_fit` finds no run it returns NULL
  -- and changes nothing, and otherwise it returns the start of that run and leaves the runs that
  -- `first_fit` leaves, in that order.
  pub alloc_mem-first_fit : Gives h (first_fit k bs) (alloc_mem fuel k h)
  unfolding alloc_mem
  alloc_mem-first_fit = Gives-of_Outcome h (first_fit k bs) _ (
      alloc_loop-Outcome k k0 k1 fuel h header 1 h.head.next bs list.chain refl tt list.ascending
        enough)

Served-of_Gives :
    (k : ℕ) (h : Mem) (bs : Blocks) (o : Option (ℕ × Blocks)) (r : Run ℕ)
    → Gives h o r
    → PartOf 1 k o bs
    → IsAscending 1 bs
    → ((r ≡ done 0 h) × AllSmaller k bs) ⊎ Served k bs r
Served-of_Gives k h bs none r e small w0 = inl (e, small)
Served-of_Gives k h bs (some (p, left)) r (g, e, c, kept) (l, f, w, parts) w0 = inr (record {
  start = p;
  state = g;
  left = left;
  ends = e;
  not_null = omega arith;
  list = record { chain = c; ascending = w };
  parts = parts;
  single = λ a. cover-le-one a 1 bs w0;
})

module _ (fuel k : ℕ) (h : Mem) (bs : Blocks) (list : IsFreeList h bs) (k0 : 0 < k)
    (k1 : k < 2 ^ 20) (enough : length bs < fuel) where
  -- On a well-formed free list, for a request of 1 to 2 ^ 20 - 1 pages and with fuel for every run,
  -- `alloc_mem` ends. Either it returns NULL, changes nothing, and no run has that many pages; or
  -- what it returns is no null, the list is well formed again, and each address that was free
  -- is now in the pages returned or in the list, not in both, and no other address is in either.
  pub alloc_mem-Served :
      ((alloc_mem fuel k h ≡ done 0 h) × AllSmaller k bs) ⊎ Served k bs (alloc_mem fuel k h)
  alloc_mem-Served =
      Served-of_Gives k h bs (first_fit k bs) _ (alloc_mem-first_fit fuel k h bs list k0 k1 enough)
        (first_fit-PartOf k 1 bs k0 list.ascending) list.ascending
