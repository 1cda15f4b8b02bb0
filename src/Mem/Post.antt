-- ===== src/Mem/Post.antt =====
-- What a run that only allocates leaves: it does not run out of fuel, and keeps the free list well formed.
use vimos_minimal.Base.{
  inl, inr, ℕ, suc, ◌^◌, ◌≤◌, ◌<◌, Option, none, some, [], ◌∷◌, arith, leb, ◌==◌, Bool-cases,
  length,
}
use vimos_minimal.Mem.{Mem, Run, done, fault, out_of_fuel, M, and_then, alloc_mem}
use vimos_minimal.Mem.Chain.{Blocks, IsFreeList}
use vimos_minimal.Mem.Alloc.{behind, first_fit}
use vimos_minimal.Mem.Alloc.FirstFit.{PartOf, first_fit-PartOf}
use vimos_minimal.Mem.Alloc.Total.{Gives, alloc_mem-first_fit}

-- The run ends, and where it does not fault, `P` holds of its value.
abbrev pub Post : {A : Type 0} → (A → Mem → Type 0) → Run A → Type 0
Post P (done a h) = P a h
Post P fault = Unit {0}
Post P out_of_fuel = ⊥

pub Post-and_then :
    {A B : Type 0} (P : A → Mem → Type 0) (Q : B → Mem → Type 0) (r : Run A) (k : A → M B)
    → Post P r
    → ((a : A) (h : Mem) → P a h → Post Q (k a h))
    → Post Q (and_then r k)
Post-and_then P Q (done a h) k p next = next a h p
Post-and_then P Q fault k p next = tt
Post-and_then P Q out_of_fuel k p next = p

-- The run ends, does not fault, and `P` holds of its value.
abbrev pub Ends : {A : Type 0} → (A → Mem → Type 0) → Run A → Type 0
Ends P (done a h) = P a h
Ends P fault = ⊥
Ends P out_of_fuel = ⊥

pub Ends-and_then :
    {A B : Type 0} (P : A → Mem → Type 0) (Q : B → Mem → Type 0) (r : Run A) (k : A → M B)
    → Ends P r
    → ((a : A) (h : Mem) → P a h → Ends Q (k a h))
    → Ends Q (and_then r k)
Ends-and_then P Q (done a h) k p next = next a h p
Ends-and_then P Q fault k p next = p
Ends-and_then P Q out_of_fuel k p next = p

-- The free list is well formed, and the fuel is enough for a search through it.
pub record HasFuel (fuel : ℕ) (h : Mem) : Type 0 where
  pub runs : Blocks
  pub list : IsFreeList h runs
  pub enough : length runs < fuel

abbrev AtMost : ℕ → Option (ℕ × Blocks) → Type 0
AtMost n none = Unit {0}
AtMost n (some (p, bs)) = length bs ≤ n

AtMost-behind :
    (n : ℕ) (b : ℕ × ℕ) (o : Option (ℕ × Blocks)) → AtMost n o → AtMost (suc n) (behind b o)
AtMost-behind n b none h = tt
AtMost-behind n b (some (p, bs)) h = omega arith

-- First fit leaves no more runs than there were.
first_fit-AtMost : (k : ℕ) (bs : Blocks) → AtMost (length bs) (first_fit k bs)
unfolding first_fit
first_fit-AtMost k [] = tt
first_fit-AtMost k ((p, n) ∷ bs) = elim (Bool-cases (n == k)) [
  | inl same ↦ rw same (omega arith)
  | inr other ↦ rw other (elim (Bool-cases (leb k n)) [
    | inl fits ↦ rw fits (omega arith)
    | inr small ↦
        rw small (AtMost-behind (length bs) (p, n) (first_fit k bs) (first_fit-AtMost k bs))
  ])
]

HasFuel-of_Gives :
    (fuel k : ℕ) (h : Mem) (bs : Blocks) (o : Option (ℕ × Blocks)) (r : Run ℕ)
    → IsFreeList h bs
    → length bs < fuel
    → Gives h o r
    → PartOf 1 k o bs
    → AtMost (length bs) o
    → Post (λ a. HasFuel fuel) r
HasFuel-of_Gives fuel k h bs none r list enough e parts most =
    rw e (record { runs = bs; list = list; enough = enough })
HasFuel-of_Gives fuel k h bs (some (p, left)) r list enough (g, e, c, kept) (l, f, w, parts) most =
    rw e (record { runs = left; list = record { chain = c; ascending = w }; enough = omega arith })

-- A call of `alloc_mem` for 1 to 2 ^ 20 - 1 pages is such a run.
pub alloc_mem-HasFuel :
    (fuel k : ℕ) (h : Mem)
    → 0 < k
    → k < 2 ^ 20
    → HasFuel fuel h
    → Post (λ a. HasFuel fuel) (alloc_mem fuel k h)
alloc_mem-HasFuel fuel k h k0 k1 v =
    HasFuel-of_Gives fuel k h v.runs (first_fit k v.runs) _ v.list v.enough
      (alloc_mem-first_fit fuel k h v.runs v.list k0 k1 v.enough)
      (first_fit-PartOf k 1 v.runs k0 v.list.ascending) (first_fit-AtMost k v.runs)
