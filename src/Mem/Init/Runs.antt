-- ===== src/Mem/Init/Runs.antt =====
-- The runs that a memory map stands for, and that they hold usable memory only.
use native.Mathlib.Nat.{add_assoc}
use vimos_minimal.Base.{
  ◌⊎◌, inl, inr, ℕ, ◌+◌, ◌*◌, ◌^◌, ◌≤◌, ◌<◌, ◌≡◌, refl, Bool, true, false, ◌&&◌, ◌||◌, not, List,
  [], ◌∷◌, arith, leb, ◌==◌, if◌then◌else◌, Bool-cases,
}
use vimos_minimal.Layout.{page_offset}
use vimos_minimal.Mem.Chain.{Blocks, IsAscending, in_run, cover}
use vimos_minimal.Mem.Init.{Descriptor, is_usable}

-- The types of the firmware's memory map whose memory is free once the boot services have ended: the
-- loader's and the boot services' code and data, from 1 to 4, and EfiConventionalMemory, 7.
abbrev pub is_free_type : ℕ → Bool
is_free_type t = leb 1 t && leb t 4 || t == 7

pub is_usable-is_free_type : (t : ℕ) → t < 2 ^ 16 → is_usable t ≡ is_free_type t
unfolding is_usable
is_usable-is_free_type t small = ground arith

-- The run that is open at physical address `s` (0 for none) with `p` pages, after one descriptor.
abbrev pub start_after : Descriptor → ℕ → ℕ
start_after d s = if is_free_type d.type then (if s == 0 then d.physical_start else s) else 0

abbrev pub pages_after : Descriptor → ℕ → ℕ → ℕ
pages_after d s p =
    if is_free_type d.type
    then (if s == 0
        then d.number_of_page
        else if s + 4096 * p == d.physical_start
        then p + d.number_of_page
        else p)
    else p

abbrev pub emit : Descriptor → ℕ → ℕ → Blocks → Blocks
emit d s p bs = if is_free_type d.type then bs else if s == 0 then bs else (page_offset + s, p) ∷ bs

-- The runs, at their virtual addresses. What is open at the end of the map is not among them.
unfoldable pub runs : List Descriptor → ℕ → ℕ → Blocks
runs [] s p = []
runs (d ∷ ds) s p = emit d s p (runs ds (start_after d s) (pages_after d s p))

-- The map is in ascending order from `lo` on, without overlaps, and ends below 2 ^ 40, and its types
-- have 16 bits.
abbrev pub IsSorted : ℕ → List Descriptor → Type 0
IsSorted lo [] = Unit {0}
IsSorted lo (d ∷ ds) =
    (d.type < 2 ^ 16)
    × (lo ≤ d.physical_start)
    × (0 < d.number_of_page)
    × (d.physical_start + 4096 * d.number_of_page < 2 ^ 40)
    × IsSorted (d.physical_start + 4096 * d.number_of_page) ds

-- Some usable descriptor holds the physical address `a`.
abbrev pub holds : Descriptor → ℕ → Bool
holds d a = is_free_type d.type && in_run a d.physical_start d.number_of_page

abbrev pub usable_at : ℕ → List Descriptor → Bool
usable_at a [] = false
usable_at a (d ∷ ds) = holds d a || usable_at a ds

-- The run that is open lies between `lo` and `hi`.
abbrev pub Pending : ℕ → ℕ → ℕ → ℕ → Type 0
Pending lo s p hi = (s ≡ 0) ⊎ ((lo ≤ s) × (0 < p) × (s + 4096 * p ≤ hi))

-- An open run stays inside the map.
pub Pending-after :
    (d : Descriptor) (lo hi s p : ℕ)
    → lo ≤ hi
    → hi ≤ d.physical_start
    → 0 < d.number_of_page
    → Pending lo s p hi
    → Pending lo (start_after d s) (pages_after d s p) (d.physical_start + 4096 * d.number_of_page)
Pending-after d lo hi s p le w0 w1 (inl e) = elim (Bool-cases (is_free_type d.type)) [
  | inl u ↦ rw u (rw e (inr (omega arith, omega arith, omega arith)))
  | inr u ↦ rw u (inl refl)
]
Pending-after d lo hi s p le w0 w1 (inr o) = elim (Bool-cases (is_free_type d.type)) [
  | inl u ↦ rw u (ground arith)
  | inr u ↦ rw u (inl refl)
]

-- The open run holds the physical address `a`.
abbrev pub open_at : ℕ → ℕ → ℕ → Bool
open_at a s p = not (s == 0) && in_run a s p

-- One descriptor: what is open after it, or written by it, was open before or is usable.
step-usable :
    (d : Descriptor) (hi s p a : ℕ) (bs : Blocks) (later : Bool)
    → hi ≤ d.physical_start
    → 0 < d.number_of_page
    → Pending 0 s p hi
    → (0 < cover (page_offset + a) bs
        → (open_at a (start_after d s) (pages_after d s p) || later) ≡ true)
    → 0 < cover (page_offset + a) (emit d s p bs)
    → (open_at a s p || (holds d a || later)) ≡ true
step-usable d hi s p a bs later w0 w1 o ih c = elim (Bool-cases (is_free_type d.type)) [
  | inl u ↦ let i = ih (rw u at c) in ground arith
  | inr u ↦ elim (Bool-cases (s == 0)) [
    | inl z ↦ let i = ih (rw (u, z) at c) in ground arith
    | inr nz ↦ elim (Bool-cases (open_at a s p)) [
      | inl now ↦ rw now refl
      | inr other ↦
          let in_rest : 0 < cover (page_offset + a) bs = ground arith in
          let i = ih in_rest in ground arith
    ]
  ]
]

runs-usable :
    (ds : List Descriptor) (hi s p a : ℕ)
    → IsSorted hi ds
    → Pending 0 s p hi
    → 0 < cover (page_offset + a) (runs ds s p)
    → (open_at a s p || usable_at a ds) ≡ true
unfolding runs
runs-usable [] hi s p a w o c = absurd (omega arith)
runs-usable (d ∷ ds) hi s p a (t16, w0, w1, w2, w) o c =
    step-usable d hi s p a (runs ds (start_after d s) (pages_after d s p)) (usable_at a ds) w0 w1 o
      (runs-usable ds (d.physical_start + 4096 * d.number_of_page) (start_after d s)
        (pages_after d s p) a w (Pending-after d 0 hi s p (omega arith) w0 w1 o))
      c

pub runs-usable_at :
    (ds : List Descriptor) (a : ℕ)
    → IsSorted 0 ds
    → 0 < cover (page_offset + a) (runs ds 0 0)
    → usable_at a ds ≡ true
runs-usable_at ds a w c = runs-usable ds 0 0 0 a w (inl refl) c

pub opened :
    (lo hi s p : ℕ)
    → Pending lo s p hi
    → (s == 0) ≡ false
    → (lo ≤ s) × (0 < p) × (s + 4096 * p ≤ hi)
opened lo hi s p (inl z) nz = absurd (ground arith)
opened lo hi s p (inr o) nz = o

-- The runs are in ascending order, and follow the run that is open.
pub runs-IsAscending :
    (ds : List Descriptor) (lo hi s p : ℕ)
    → IsSorted hi ds
    → hi < 2 ^ 40
    → lo ≤ hi
    → Pending lo s p hi
    → IsAscending (page_offset + lo) (runs ds s p)
unfolding runs
runs-IsAscending [] lo hi s p w top le o = tt
runs-IsAscending (d ∷ ds) lo hi s p (t16, w0, w1, w2, w) top le o =
    let hi' = d.physical_start + 4096 * d.number_of_page in
    let rest =
      runs-IsAscending ds lo hi' (start_after d s) (pages_after d s p) w w2 (omega arith)
        (Pending-after d lo hi s p le w0 w1 o) in
    elim (Bool-cases (is_free_type d.type)) [
      | inl u ↦ rw u (rw u at rest)
      | inr u ↦ elim (Bool-cases (s == 0)) [
        | inl z ↦ rw (u, z) (rw u at rest)
        | inr nz ↦
            let (above, some_pages, below) = opened lo hi s p o nz in
            let after : IsAscending (page_offset + (s + 4096 * p)) (runs ds 0 p) =
              runs-IsAscending ds (s + 4096 * p) hi' 0 p w w2 (omega arith) (inl refl) in
            rw (u, nz)
              (
                omega arith,
                some_pages,
                omega arith,
                omega arith,
                rw (add_assoc page_offset s (4096 * p)) after,
              )
      ]
    ]
