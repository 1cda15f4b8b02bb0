-- ===== src/Stdlib/Strings/Terminated.antt =====
-- What the string functions do to texts that end with a 0.
use vimos_minimal.Base.{
  ◌⊎◌, ℕ, zero, suc, ◌+◌, ◌^◌, ◌≤◌, ◌<◌, ◌≡◌, refl, sym, ◌∙◌, false, some, List, [], ◌∷◌, ◌++◌,
  arith, ◌==◌, length, get_or, u32,
}
use vimos_minimal.Boot.Elf.{Bytes, memcpy}
use vimos_minimal.Boot.Elf.Bytes.{memcpy-outside, memcpy-inside}
use vimos_minimal.Stdlib.Strings.{strlen_loop, strlen, strcpy, strcat_loop, strcat, int_max}

-- The text `cs` stands at `s`, and a 0 behind it.
abbrev pub IsText : Bytes → ℕ → List ℕ → Type 0
IsText m s [] = m s ≡ 0
IsText m s (c ∷ cs) = (m s ≡ c) × (0 < c) × IsText m (s + 1) cs

-- The text and its 0 are the same in two memories.
IsText-same :
    (cs : List ℕ) (m m' : Bytes) (s s' : ℕ)
    → ((k : ℕ) → k ≤ length cs → m' (s' + k) ≡ m (s + k))
    → IsText m s cs
    → IsText m' s' cs
IsText-same [] m m' s s' same w =
    let here : m' (s' + 0) ≡ m (s + 0) = same 0 (omega arith) in
    let e : s + 0 ≡ s = omega arith in
    let e' : s' + 0 ≡ s' = omega arith in (rw (e, e') at here) ∙ w
IsText-same (c ∷ cs) m m' s s' same (w0, w1, w) =
    let here : m' (s' + 0) ≡ m (s + 0) = same 0 (omega arith) in
    let e : s + 0 ≡ s = omega arith in
    let e' : s' + 0 ≡ s' = omega arith in
    (
      (rw (e, e') at here) ∙ w0,
      w1,
      IsText-same cs m m' (s + 1) (s' + 1)
          (λ k h.
            let a : s + 1 + k ≡ s + (k + 1) = omega arith in
            let a' : s' + 1 + k ≡ s' + (k + 1) = omega arith in
            rw (a, a') (same (k + 1) (omega arith)))
          w,
    )

IsText-append :
    (cs ds : List ℕ) (m : Bytes) (s : ℕ)
    → ((k : ℕ) → k < length cs → (get_or cs k 0 ≡ m (s + k)) × (0 < m (s + k)))
    → IsText m (s + length cs) ds
    → IsText m s (cs ++ ds)
IsText-append [] ds m s w v = let e : s + 0 ≡ s = omega arith in rw e at v
IsText-append (c ∷ cs) ds m s w v =
    let (here, solid) = w 0 (omega arith) in
    let e : s + 0 ≡ s = omega arith in
    let here' : c ≡ m s = rw e at here in
    (
      sym here',
      rw (sym here') at (rw e at solid),
      IsText-append cs ds m (s + 1)
          (λ k h.
            let a : s + 1 + k ≡ s + (k + 1) = omega arith in
            let a' : k + 1 ≡ suc k = omega arith in rw (a, a') (w (suc k) (omega arith)))
          (let a : s + 1 + length cs ≡ s + suc (length cs) = omega arith in rw a v),
    )

strlen_loop_lem :
    (fuel : ℕ) (cs : List ℕ) (m : Bytes) (s i : ℕ)
    → IsText m (s + i) cs
    → length cs < fuel
    → i + length cs < 2 ^ 32
    → strlen_loop fuel m s i ≡ some (i + length cs)
unfolding strlen_loop
strlen_loop_lem zero cs m s i w f h = absurd (omega arith)
strlen_loop_lem (suc fuel) [] m s i w f h =
    let here : m (s + i) ≡ 0 = w in let e : i + 0 ≡ i = omega arith in rw (e, here) refl
strlen_loop_lem (suc fuel) (c ∷ cs) m s i (w0, w1, w) f h =
    let e : s + i + 1 ≡ s + (i + 1) = omega arith in
    let r = strlen_loop_lem fuel cs m s (i + 1) (rw e at w) (omega arith) (omega arith) in
    let e' : i + suc (length cs) ≡ i + 1 + length cs = omega arith in
    let whole : u32 (i + 1) ≡ i + 1 = omega arith in rw (e', whole, sym r) (ground arith)

strcat_loop_lem :
    (fuel : ℕ) (cs : List ℕ) (m : Bytes) (s i : ℕ)
    → IsText m (s + i) cs
    → length cs < fuel
    → i + length cs < 2 ^ 31
    → strcat_loop fuel m s i ≡ some (i + length cs)
unfolding strcat_loop
strcat_loop_lem zero cs m s i w f h = absurd (omega arith)
strcat_loop_lem (suc fuel) [] m s i w f h =
    let here : m (s + i) ≡ 0 = w in let e : i + 0 ≡ i = omega arith in rw (e, here) refl
strcat_loop_lem (suc fuel) (c ∷ cs) m s i (w0, w1, w) f h =
    let e : s + i + 1 ≡ s + (i + 1) = omega arith in
    let r = strcat_loop_lem fuel cs m s (i + 1) (rw e at w) (omega arith) (omega arith) in
    let e' : i + suc (length cs) ≡ i + 1 + length cs = omega arith in
    let less : (i == int_max) ≡ false = ground arith in rw (e', less, sym r) (ground arith)

pub strlen_lem :
    (fuel : ℕ) (cs : List ℕ) (m : Bytes) (s : ℕ)
    → IsText m s cs
    → length cs < fuel
    → length cs < 2 ^ 32
    → strlen fuel m s ≡ some (length cs)
unfolding strlen
strlen_lem fuel cs m s w f h =
    let e : s + 0 ≡ s = omega arith in
    let z : 0 + length cs ≡ length cs = omega arith in
    rw z at (strlen_loop_lem fuel cs m s 0 (rw (sym e) at w) f (omega arith))

strcat_start :
    (fuel : ℕ) (cs : List ℕ) (m : Bytes) (s : ℕ)
    → IsText m s cs
    → length cs < fuel
    → length cs < 2 ^ 31
    → strcat_loop fuel m s 0 ≡ some (length cs)
strcat_start fuel cs m s w f h =
    let e : s + 0 ≡ s = omega arith in
    let z : 0 + length cs ≡ length cs = omega arith in
    rw z at (strcat_loop_lem fuel cs m s 0 (rw (sym e) at w) f (omega arith))

-- Each character of a text.
IsText-at :
    (cs : List ℕ) (m : Bytes) (s k : ℕ)
    → IsText m s cs
    → k < length cs
    → (get_or cs k 0 ≡ m (s + k)) × (0 < m (s + k))
IsText-at [] m s k w h = absurd (omega arith)
IsText-at (c ∷ cs) m s zero (w0, w1, w) h =
    let e : s + 0 ≡ s = omega arith in rw e (sym w0, ground arith)
IsText-at (c ∷ cs) m s (suc k) (w0, w1, w) h =
    let e : s + 1 + k ≡ s + suc k = omega arith in
    rw e at (IsText-at cs m (s + 1) k w (omega arith))

-- strcat on two texts of less than 2^31 characters each, where the second lies apart from the first
-- and from the place that its copy takes, and with enough fuel, ends and leaves at s1 the first
-- text followed by the second, and the second text and all other bytes as they were.
pub strcat-append :
    (fuel : ℕ) (cs ds : List ℕ) (m : Bytes) (s1 s2 : ℕ)
    → IsText m s1 cs
    → IsText m s2 ds
    → (s1 + length cs + length ds < s2) ⊎ (s2 + length ds < s1)
    → length cs < fuel
    → length ds < fuel
    → length cs < 2 ^ 31
    → length ds < 2 ^ 31
    → (m' : Bytes) × (strcat fuel s1 s2 m ≡ some m')
      × IsText m' s1 (cs ++ ds)
      × IsText m' s2 ds
      × ((a : ℕ) → (a < s1 + length cs) ⊎ (s1 + length cs + length ds < a) → m' a ≡ m a)
unfolding strcat strcpy
strcat-append fuel cs ds m s1 s2 w v apart f g cs_fit ds_fit =
    let i = length cs in
    let j = length ds in
    let m' = memcpy (s1 + i) s2 (j + 1) m in
    let first = strcat_start fuel cs m s1 w f cs_fit in
    let second = strlen_lem fuel ds m s2 v g (omega arith) in
    let whole : u32 (j + 1) ≡ j + 1 = omega arith in
    let others : (a : ℕ) → (a < s1 + i) ⊎ (s1 + i + j < a) → m' a ≡ m a =
      λ a o. memcpy-outside (j + 1) (s1 + i) s2 m a (omega arith) in
    (
      m',
      rw (first, second, whole) refl,
      IsText-append cs ds m' s1
          (λ k h. rw (others (s1 + k) (omega arith)) (IsText-at cs m s1 k w h))
          (IsText-same ds m m' s2 (s1 + i)
            (λ k h. memcpy-inside (j + 1) (s1 + i) s2 m k (omega arith) (omega arith)) v),
      IsText-same ds m m' s2 s2 (λ k h. others (s2 + k) (omega arith)) v,
      others,
    )
