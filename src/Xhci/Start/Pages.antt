-- ===== src/Xhci/Start/Pages.antt =====
-- The pages that `init_xhci` takes from the free list.
use vimos_minimal.Base.{
  ◌⊎◌, inl, inr, ℕ, suc, ◌+◌, ◌*◌, ◌%◌, ◌^◌, ◌≤◌, ◌<◌, ◌≡◌, refl, Option, none, some, [], ◌∷◌,
  arith, leb, ◌==◌, ==_iff, Bool-cases, length,
}
use vimos_minimal.Layout.{page_offset}
use vimos_minimal.Mem.{Mem, Run, alloc_mem}
use vimos_minimal.Mem.Chain.{Blocks, IsFreeList}
use vimos_minimal.Mem.Alloc.{behind, first_fit}
use vimos_minimal.Mem.Alloc.FirstFit.{PartOf, first_fit-PartOf}
use vimos_minimal.Mem.Alloc.Total.{Gives, alloc_mem-first_fit}
use vimos_minimal.Mem.Post.{Ends}

-- A page in the window of physical memory, and not the last one there.
pub record IsPage (p : ℕ) : Type 0 where
  pub aligned : p % 4096 ≡ 0
  pub low : page_offset ≤ p
  pub high : p + 4096 < page_offset + 2 ^ 46

abbrev pub AllInside : Blocks → Type 0
AllInside [] = Unit {0}
AllInside ((p, n) ∷ bs) =
    (p % 4096 ≡ 0) × (page_offset ≤ p) × (p + 4096 * n < page_offset + 2 ^ 46) × AllInside bs

-- The free list is well formed, in the window, and has fuel.
pub record HasPages (fuel : ℕ) (h : Mem) : Type 0 where
  pub runs : Blocks
  pub list : IsFreeList h runs
  pub enough : length runs < fuel
  pub inside : AllInside runs

abbrev GivesInside : ℕ → Option (ℕ × Blocks) → Type 0
GivesInside n none = Unit {0}
GivesInside n (some (p, bs)) = IsPage p × AllInside bs × (length bs ≤ n)

GivesInside-behind :
    (m p n : ℕ) (o : Option (ℕ × Blocks))
    → p % 4096 ≡ 0
    → page_offset ≤ p
    → p + 4096 * n < page_offset + 2 ^ 46
    → GivesInside m o
    → GivesInside (suc m) (behind (p, n) o)
GivesInside-behind m p n none al lo hi g = tt
GivesInside-behind m p n (some (q, bs)) al lo hi (i, all, few) = (i, (al, lo, hi, all), omega arith)

first_fit-GivesInside :
    (k : ℕ) (bs : Blocks) → 0 < k → AllInside bs → GivesInside (length bs) (first_fit k bs)
unfolding first_fit
first_fit-GivesInside k [] k0 all = tt
first_fit-GivesInside k ((p, n) ∷ bs) k0 (al, low, high, all) = elim (Bool-cases (n == k)) [
  | inl same ↦
      let one : n ≡ k = (==_iff _ _).0 same in
      rw same (record { aligned = al; low = low; high = omega arith }, all, omega arith)
  | inr other ↦ rw other (elim (Bool-cases (leb k n)) [
    | inl fits ↦
        let le : k ≤ n = ground arith in
        rw fits (
          record { aligned = al; low = low; high = omega arith },
          (omega arith, omega arith, omega arith, all),
          omega arith,
        )
    | inr small ↦ rw small (
        GivesInside-behind (length bs) p n (first_fit k bs) al low high
          (first_fit-GivesInside k bs k0 all))
  ])
]

HasPages-of_Gives :
    (fuel k : ℕ) (h : Mem) (v : HasPages fuel h) (o : Option (ℕ × Blocks)) (r : Run ℕ)
    → Gives h o r
    → PartOf 1 k o v.runs
    → GivesInside (length v.runs) o
    → Ends (λ p h'. HasPages fuel h' × ((p ≡ 0) ⊎ IsPage p)) r
HasPages-of_Gives fuel k h v none r e parts g = rw e (v, inl refl)
HasPages-of_Gives fuel k h v (some (p, left)) r (m, e, c, kept) (l, f, w, parts) (i, all, few) =
    let less = v.enough in
    rw e (
      record {
        runs = left;
        list = record { chain = c; ascending = w };
        enough = omega arith;
        inside = all;
      },
      inr i,
    )

pub alloc_mem-HasPages :
    (fuel k : ℕ) (h : Mem)
    → 0 < k
    → k < 2 ^ 20
    → HasPages fuel h
    → Ends (λ p h'. HasPages fuel h' × ((p ≡ 0) ⊎ IsPage p)) (alloc_mem fuel k h)
alloc_mem-HasPages fuel k h k0 k1 v =
    HasPages-of_Gives fuel k h v (first_fit k v.runs) _
      (alloc_mem-first_fit fuel k h v.runs v.list k0 k1 v.enough)
      (first_fit-PartOf k 1 v.runs k0 v.list.ascending) (first_fit-GivesInside k v.runs k0 v.inside)
