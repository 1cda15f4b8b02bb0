-- ===== src/Stdlib/Strings/Compare.antt =====
-- What `strcmp` tells of two texts that end with a 0.
use vimos_minimal.Base.{
  ◌⊎◌, inl, inr, ℕ, zero, suc, ◌+◌, ◌^◌, ◌<◌, ◌≡◌, refl, sym, ap, ◌∙◌, ◌≢◌, true, false, ◌&&◌, not,
  some, List, [], ◌∷◌, arith, ◌==◌, ==_iff, Bool-cases, nat_cases, length, get_or, drop, u32,
}
use vimos_minimal.Base.Int.{ℤ, pos, ◌-ℤ◌}
use vimos_minimal.Boot.Elf.{Bytes}
use vimos_minimal.Stdlib.Strings.{signed, strcmp_loop, strcmp}
use vimos_minimal.Stdlib.Strings.Terminated.{IsText}

sub-zero : (a b : ℕ) → a < 256 → b < 256 → signed a -ℤ signed b ≡ pos 0 → a ≡ b
unfolding ◌-ℤ◌ signed
sub-zero a b ha hb e = elim (nat_cases a b) [
  | inl less ↦ grind arith
  | inr (inl same) ↦ same
  | inr (inr more) ↦ grind arith
]

sub_self : (a : ℕ) → signed a -ℤ signed a ≡ pos 0
unfolding ◌-ℤ◌ signed
sub_self a = ground arith

strcmp_loop-differ :
    (fuel : ℕ) (m : Bytes) (s1 s2 i : ℕ)
    → (m (s1 + i) ≢ m (s2 + i)) ⊎ (m (s1 + i) ≡ 0)
    → strcmp_loop (suc fuel) m s1 s2 i ≡ some (signed (m (s1 + i)) -ℤ signed (m (s2 + i)))
unfolding strcmp_loop
strcmp_loop-differ fuel m s1 s2 i d =
    let stop : (m (s1 + i) == m (s2 + i) && not (m (s1 + i) == 0)) ≡ false = ground (arith, d) in
    rw stop refl

strcmp_loop-same :
    (fuel : ℕ) (m : Bytes) (s1 s2 i : ℕ)
    → m (s1 + i) ≡ m (s2 + i)
    → 0 < m (s1 + i)
    → i + 1 < 2 ^ 32
    → strcmp_loop (suc fuel) m s1 s2 i ≡ strcmp_loop fuel m s1 s2 (i + 1)
unfolding strcmp_loop
strcmp_loop-same fuel m s1 s2 i e h fit =
    let whole : u32 (i + 1) ≡ i + 1 = omega arith in
    let on : (m (s1 + i) == m (s2 + i) && not (m (s1 + i) == 0)) ≡ true = ground arith in
    rw (on, whole) refl

-- The texts are the same where the answer is 0, and only there.
abbrev pub Tells : ℤ → List ℕ → List ℕ → Type 0
Tells z cs ds = (z ≡ pos 0 → cs ≡ ds) × (cs ≡ ds → z ≡ pos 0)

differ-Tells :
    (a b : ℕ) (cs ds : List ℕ)
    → a < 256
    → b < 256
    → a ≢ b
    → cs ≢ ds
    → Tells (signed a -ℤ signed b) cs ds
differ-Tells a b cs ds ha hb n k = (λ e. absurd (n (sub-zero a b ha hb e)), λ e. absurd (k e))

first_differs : (c d : ℕ) (cs ds : List ℕ) → c ≢ d → (c ∷ cs) ≢ (d ∷ ds)
first_differs c d cs ds n e = n (ap (λ xs. get_or xs 0 0) e)

strcmp_loop-Tells :
    (fuel : ℕ) (cs ds : List ℕ) (m : Bytes) (s1 s2 i : ℕ)
    → IsText m (s1 + i) cs
    → IsText m (s2 + i) ds
    → length cs < fuel
    → ((a : ℕ) → m a < 256)
    → i + length cs < 2 ^ 32
    → (z : ℤ) × (strcmp_loop fuel m s1 s2 i ≡ some z) × Tells z cs ds
strcmp_loop-Tells zero cs ds m s1 s2 i w v h byte fit = absurd (omega arith)
strcmp_loop-Tells (suc fuel) [] [] m s1 s2 i w v h byte fit =
    (_, strcmp_loop-differ fuel m s1 s2 i (inr w), ((λ e. refl), (λ e. rw (w, v) (sub_self 0))))
strcmp_loop-Tells (suc fuel) [] (d ∷ ds) m s1 s2 i w (v0, v1, v) h byte fit = (
  _,
  strcmp_loop-differ fuel m s1 s2 i (inr w),
  differ-Tells _ _ [] (d ∷ ds) (byte _) (byte _) (λ e. omega (arith, e, w))
      (λ e. absurd (omega (arith, ap length e))),
)
strcmp_loop-Tells (suc fuel) (c ∷ cs) [] m s1 s2 i (w0, w1, w) v h byte fit = (
  _,
  strcmp_loop-differ fuel m s1 s2 i (inl (λ e. omega (arith, e, v))),
  differ-Tells _ _ (c ∷ cs) [] (byte _) (byte _) (λ e. omega (arith, e, v))
      (λ e. absurd (omega (arith, ap length e))),
)
strcmp_loop-Tells (suc fuel) (c ∷ cs) (d ∷ ds) m s1 s2 i (w0, w1, w) (v0, v1, v) h byte fit =
    elim (Bool-cases (c == d)) [
      | inl same ↦
          let e : c ≡ d = (==_iff _ _).0 same in
          let (z, run, (yes_if, only_if)) =
            strcmp_loop-Tells fuel cs ds m s1 s2 (i + 1)
              (let p : s1 + i + 1 ≡ s1 + (i + 1) = omega arith in rw p at w)
              (let p : s2 + i + 1 ≡ s2 + (i + 1) = omega arith in rw p at v) (omega arith) byte
              (omega arith) in
          (
            z,
            strcmp_loop-same fuel m s1 s2 i (w0 ∙ e ∙ sym v0) (omega arith) (omega arith) ∙ run,
            ((λ o. rw (e, yes_if o) refl), (λ q. only_if (ap (drop 1) q))),
          )
      | inr other ↦
          let n : c ≢ d = ground arith in
          let far : m (s1 + i) ≢ m (s2 + i) = λ q. n (sym w0 ∙ q ∙ v0) in
          (
            _,
            strcmp_loop-differ fuel m s1 s2 i (inl far),
            differ-Tells _ _ (c ∷ cs) (d ∷ ds) (byte _) (byte _) far (first_differs c d cs ds n),
          )
    ]

-- strcmp of two texts, of which the first has less than 2^32 characters, in a memory of bytes and
-- with more fuel than the first has characters, ends; the answer is 0 where the texts are the same,
-- and only there.
pub strcmp-Tells :
    (fuel : ℕ) (cs ds : List ℕ) (m : Bytes) (s1 s2 : ℕ)
    → IsText m s1 cs
    → IsText m s2 ds
    → length cs < fuel
    → ((a : ℕ) → m a < 256)
    → length cs < 2 ^ 32
    → (z : ℤ) × (strcmp fuel m s1 s2 ≡ some z) × Tells z cs ds
unfolding strcmp
strcmp-Tells fuel cs ds m s1 s2 w v h byte fit =
    let e : s1 + 0 ≡ s1 = omega arith in
    let e' : s2 + 0 ≡ s2 = omega arith in
    strcmp_loop-Tells fuel cs ds m s1 s2 0 (rw (sym e) at w) (rw (sym e') at v) h byte (omega arith)
