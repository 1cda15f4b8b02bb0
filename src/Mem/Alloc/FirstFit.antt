-- ===== src/Mem/Alloc/FirstFit.antt =====
-- Laws of the first-fit specification of `alloc_mem`.
use vimos_minimal.Base.{
  ℕ, ◌+◌, ◌-◌, ◌*◌, ◌^◌, ◌≤◌, ◌<◌, ◌≡◌, inl, inr, Option, none, some, [], ◌∷◌, arith, leb, ◌==◌,
  if◌then◌else◌, Bool-cases,
}
use vimos_minimal.Mem.Chain.{Blocks, IsAscending, IsAscending-weaken, in_run, cover}
use vimos_minimal.Mem.Alloc.{behind, first_fit}

-- No run has `k` pages.
abbrev pub AllSmaller : ℕ → Blocks → Type 0
AllSmaller k [] = Unit {0}
AllSmaller k ((p, n) ∷ bs) = (n < k) × AllSmaller k bs

-- The pages `(p, k)` and the runs `bs'` that are left make up the runs `bs`.
abbrev pub PartOf : ℕ → ℕ → Option (ℕ × Blocks) → Blocks → Type 0
PartOf lo k none bs = AllSmaller k bs
PartOf lo k (some (p, bs')) bs =
    (lo ≤ p)
    × (p + 4096 * k < 2 ^ 64)
    × IsAscending lo bs'
    × ((a : ℕ) → cover a bs ≡ (if in_run a p k then 1 else 0) + cover a bs')

PartOf-behind :
    (lo k p n : ℕ) (o : Option (ℕ × Blocks)) (bs : Blocks)
    → IsAscending lo ((p, n) ∷ bs)
    → n < k
    → PartOf (p + 4096 * n) k o bs
    → PartOf lo k (behind (p, n) o) ((p, n) ∷ bs)
PartOf-behind lo k p n none bs w lt h = (lt, h)
PartOf-behind lo k p n (some (x, bs')) bs (le, n0, n1, fit, w) lt (l, f, w', c) =
    (omega arith, f, (le, n0, n1, fit, w'), λ a. omega (arith, c a))

-- What is taken and what is left are disjoint, and together they are what was there.
pub first_fit-PartOf :
    (k lo : ℕ) (bs : Blocks) → 0 < k → IsAscending lo bs → PartOf lo k (first_fit k bs) bs
unfolding first_fit
first_fit-PartOf k lo [] k0 w = tt
first_fit-PartOf k lo ((p, n) ∷ bs) k0 (le, n0, n1, fit, w) = elim (Bool-cases (n == k)) [
  | inl same ↦ rw same (le, ground arith, IsAscending-weaken bs (omega arith) w, λ a. ground arith)
  | inr other ↦ rw other (elim (Bool-cases (leb k n)) [
    | inl fits ↦
        let less : k < n = ground arith in
        let join : p + 4096 * k + 4096 * (n - k) ≡ p + 4096 * n = omega arith in
        rw fits (
          le,
          omega arith,
          (omega arith, omega arith, omega arith, omega arith, rw join w),
          λ a. ground arith,
        )
    | inr small ↦ rw small (
        PartOf-behind lo k p n (first_fit k bs) bs (le, n0, n1, fit, w) (ground arith)
          (first_fit-PartOf k (p + 4096 * n) bs k0 w))
  ])
]
