-- ===== src/Mem/Chain.antt =====
-- What the list of free runs stands for: the runs in order, each with its number of pages.
use vimos_minimal.Base.{
  ℕ, ◌+◌, ◌*◌, ◌^◌, ◌≤◌, ◌<◌, ◌≡◌, ◌≢◌, refl, Bool, ◌&&◌, List, [], ◌∷◌, arith, ltb, leb,
  if◌then◌else◌,
}
use vimos_minimal.Mem.{Mem, node}

abbrev pub Blocks : Type 0
Blocks = List (ℕ × ℕ)

-- From `p` the `next` pointers lead through the runs `bs` to NULL.
pub data Chain (h : Mem) : ℕ → Blocks → Type 0 where
  nil : Chain h 0 []
  cons :
      {p q n : ℕ} {bs : Blocks}
      → p ≢ 0
      → h.cell p ≡ node q n
      → Chain h q bs
      → Chain h p ((p, n) ∷ bs)

-- The runs are in ascending order from `lo` on, do not overlap, are not empty and end below 2 ^ 64.
abbrev pub IsAscending : ℕ → Blocks → Type 0
IsAscending lo [] = Unit {0}
IsAscending lo ((p, n) ∷ bs) =
    (lo ≤ p) × (0 < n) × (n < 2 ^ 32) × (p + 4096 * n < 2 ^ 64) × IsAscending (p + 4096 * n) bs

-- The address `a` lies in the run of `n` pages at `p`.
abbrev pub in_run : ℕ → ℕ → ℕ → Bool
in_run a p n = leb p a && ltb a (p + 4096 * n)

-- How many of the runs hold the address `a`.
abbrev pub cover : ℕ → Blocks → ℕ
cover a [] = 0
cover a ((p, n) ∷ bs) = (if in_run a p n then 1 else 0) + cover a bs

pub IsAscending-weaken :
    {lo lo' : ℕ} (bs : Blocks) → lo' ≤ lo → IsAscending lo bs → IsAscending lo' bs
IsAscending-weaken [] le w = tt
IsAscending-weaken ((p, n) ∷ bs) le (a, b, c, d, e) = (omega arith, b, c, d, e)

-- A list survives every change below its first run.
pub frame :
    {h g : Mem} {q lo : ℕ} {bs : Blocks}
    → Chain h q bs
    → IsAscending lo bs
    → ((a : ℕ) → lo ≤ a → g.cell a ≡ h.cell a)
    → Chain g q bs
frame nil w same = nil
frame (cons {p} {n} ne e c) (a, b, d, l, w) same =
    cons ne (ground (arith, same p)) (frame c w (λ x le. same x (omega arith)))

pub cover_below : (a lo : ℕ) (bs : Blocks) → IsAscending lo bs → a < lo → cover a bs ≡ 0
cover_below a lo [] w lt = refl
cover_below a lo ((p, n) ∷ bs) (l, b, c, d, w) lt =
    ground (arith, cover_below a (p + 4096 * n) bs w)

-- Runs in ascending order hold no address twice.
pub cover-le-one : (a lo : ℕ) (bs : Blocks) → IsAscending lo bs → cover a bs ≤ 1
cover-le-one a lo [] w = omega arith
cover-le-one a lo ((p, n) ∷ bs) (l, b, c, d, w) =
    ground (arith, cover_below a (p + 4096 * n) bs w, cover-le-one a (p + 4096 * n) bs w)

-- The list at `memlist` holds the runs `bs`, and is well formed.
pub record IsFreeList (h : Mem) (bs : Blocks) : Type 0 where
  pub chain : Chain h h.head.next bs
  pub ascending : IsAscending 1 bs

-- A list that is not empty, taken apart.
pub uncons :
    {h : Mem} {x m n : ℕ} {bs : Blocks}
    → Chain h x ((m, n) ∷ bs)
    → (q : ℕ) × (x ≡ m) × (m ≢ 0) × (h.cell m ≡ node q n) × Chain h q bs
uncons (cons {q} ne e c) = (q, refl, ne, e, c)

pub last_next : {h : Mem} {q : ℕ} → Chain h q [] → q ≡ 0
last_next nil = refl
