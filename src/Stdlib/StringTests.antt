-- ===== src/Stdlib/StringTests.antt =====
-- The string functions at concrete inputs.
use vimos_minimal.Base.{
  ◌⊎◌, inl, ℕ, ◌<◌, ◌≡◌, refl, ◌||◌, some, [], ◌∷◌, arith, ◌==◌, if◌then◌else◌,
}
use vimos_minimal.Base.Int.{ℤ}
use vimos_minimal.Boot.Elf.{Bytes}
use vimos_minimal.Stdlib.Strings.{strcmp, strcat, strchr, strchr_loop, strrchr, strrchr_loop}
use vimos_minimal.Stdlib.Strings.Terminated.{IsText, strcat-append}
use vimos_minimal.Stdlib.Strings.Compare.{Tells, strcmp-Tells}

-- "ab" at 100, "c" at 200, "ab" at 300.
abbrev texts : Bytes
texts a =
    if a == 100 || a == 300
    then 97
    else if a == 101 || a == 301
    then 98
    else if a == 200
    then 99
    else 0

strcat-append_example :
    (m' : Bytes) × (strcat 9 100 200 texts ≡ some m')
    × IsText m' 100 (97 ∷ 98 ∷ 99 ∷ [])
    × IsText m' 200 (99 ∷ [])
    × ((a : ℕ) → (a < 102) ⊎ (103 < a) → m' a ≡ texts a)
strcat-append_example =
    strcat-append 9 (97 ∷ 98 ∷ []) (99 ∷ []) texts 100 200
      (refl, omega arith, (refl, omega arith, refl)) (refl, omega arith, refl) (inl (omega arith))
      (omega arith) (omega arith) (omega arith) (omega arith)

strcmp-Tells_example :
    (z : ℤ) × (strcmp 9 texts 100 300 ≡ some z) × Tells z (97 ∷ 98 ∷ []) (97 ∷ 98 ∷ [])
strcmp-Tells_example =
    strcmp-Tells 9 (97 ∷ 98 ∷ []) (97 ∷ 98 ∷ []) texts 100 300
      (refl, omega arith, (refl, omega arith, refl)) (refl, omega arith, (refl, omega arith, refl))
      (omega arith) (λ a. ground arith) (omega arith)

strchr_finds : strchr 9 texts 100 98 ≡ some 101
unfolding strchr strchr_loop
strchr_finds = refl

strchr_end : strchr 9 texts 100 0 ≡ some 102
unfolding strchr strchr_loop
strchr_end = refl

strrchr_none : strrchr 9 texts 100 120 ≡ some 0
unfolding strrchr strrchr_loop
strrchr_none = refl
