-- ===== src/Mem/Init/Closed.antt =====
-- The memory maps from which `init_mem` leaves nothing out.
use vimos_minimal.Base.{
  inl, inr, ℕ, ◌+◌, ◌*◌, ◌≡◌, refl, Bool, true, false, ◌&&◌, ◌||◌, not, List, [], ◌∷◌, arith, ◌==◌,
  if◌then◌else◌, Bool-cases,
}
use vimos_minimal.Layout.{page_offset}
use vimos_minimal.Mem.Chain.{in_run, cover}
use vimos_minimal.Mem.Init.{Descriptor}
use vimos_minimal.Mem.Init.Runs.{
  is_free_type, start_after, pages_after, runs, IsSorted, Pending, Pending-after, open_at,
}

-- Memory that is to be listed: of a free type, and not at address 0, which stands for no run.
abbrev pub is_listed : Descriptor → Bool
is_listed d = is_free_type d.type && not (d.physical_start == 0)

-- How many of the descriptors that are to be listed hold the physical address `a`.
abbrev pub tally : ℕ → List Descriptor → ℕ
tally a [] = 0
tally a (d ∷ ds) =
    (if is_listed d && in_run a d.physical_start d.number_of_page then 1 else 0) + tally a ds

-- What follows listed memory that ends at `end`: memory of another type, or free memory that lies
-- directly behind it.
abbrev pub joins : ℕ → List Descriptor → Bool
joins end [] = false
joins end (d ∷ ds) = not (is_free_type d.type) || d.physical_start == end

abbrev pub is_closed : List Descriptor → Bool
is_closed [] = true
is_closed (d ∷ ds) =
    (not (is_listed d) || joins (d.physical_start + 4096 * d.number_of_page) ds) && is_closed ds

abbrev open_count : ℕ → ℕ → ℕ → ℕ
open_count a s p = if open_at a s p then 1 else 0

-- A descriptor of a free type, where no run is open.
open_first :
    (d : Descriptor) (a rest more : ℕ)
    → rest ≡ open_count a d.physical_start d.number_of_page + more
    → rest
      ≡ open_count a 0 0
        + ((if not (d.physical_start == 0) && in_run a d.physical_start d.number_of_page
              then 1
              else 0)
            + more)
open_first d a rest more e = ground arith

-- The same, behind the open run.
open_more :
    (a s p n rest more : ℕ)
    → (s == 0) ≡ false
    → rest ≡ open_count a s (p + n) + more
    → rest
      ≡ open_count a s p
        + ((if not (s + 4096 * p == 0) && in_run a (s + 4096 * p) n then 1 else 0) + more)
open_more a s p n rest more nz e = ground arith

-- The run that is open is not listed yet.
pub cover-runs :
    (ds : List Descriptor) (hi s p a : ℕ)
    → IsSorted hi ds
    → Pending 0 s p hi
    → (s == 0 || joins (s + 4096 * p) ds) ≡ true
    → is_closed ds ≡ true
    → cover (page_offset + a) (runs ds s p) ≡ open_count a s p + tally a ds
unfolding runs
cover-runs [] hi s p a w o j c = ground arith
cover-runs (d ∷ ds) hi s p a (t16, w0, w1, w2, w) o j c =
    let hi' = d.physical_start + 4096 * d.number_of_page in
    let after = Pending-after d 0 hi s p (omega arith) w0 w1 o in
    let rest = cover-runs ds hi' (start_after d s) (pages_after d s p) a w after in
    elim (Bool-cases (is_free_type d.type)) [
      | inl u ↦ elim (Bool-cases (s == 0)) [
        | inl z ↦
            let none_open : s ≡ 0 = ground arith in
            let next : (d.physical_start == 0 || joins hi' ds) ≡ true = ground arith in
            let closed : is_closed ds ≡ true = ground arith in
            rw (u, none_open)
              (open_first d a _ _ (rw (u, none_open) at (rest (rw (u, none_open) next) closed)))
        | inr nz ↦
            let here : d.physical_start ≡ s + 4096 * p = ground arith in
            let some_start : (d.physical_start == 0) ≡ false = ground arith in
            let next : joins hi' ds ≡ true = ground arith in
            let closed : is_closed ds ≡ true = ground arith in
            let adjacent : (s + 4096 * p == d.physical_start) ≡ true = ground arith in
            let end : s + 4096 * (p + d.number_of_page) ≡ hi' = omega arith in
            let r = rest (rw (u, nz, adjacent, end, next) (rw nz refl)) closed in
            let r' = rw (u, nz, adjacent) at r in
            rw (u, nz, adjacent, here) (rw nz at (open_more a s p d.number_of_page _ _ nz r'))
      ]
      | inr u ↦ elim (Bool-cases (s == 0)) [
        | inl z ↦ let r = rest (rw u refl) (ground arith) in ground arith
        | inr nz ↦ let r = rest (rw u refl) (ground arith) in ground arith
      ]
    ]
