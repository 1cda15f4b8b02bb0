-- ===== src/Stdlib/Strings.antt =====
-- The string functions of stdlib/, over a memory of bytes. `memcpy` of stdlib/memcpy.s copies bytes in
-- ascending order, as the loop of boot/boot.c does. A loop that reads up to the terminating 0 takes
-- fuel, and `none` means that it ran out.
pub mod Terminated
pub mod Compare
use vimos_minimal.Base.{
  ◌⊎◌, ◌↔◌, inl, inr, ℕ, zero, suc, ◌+◌, ◌-◌, ◌*◌, ◌/◌, ◌%◌, ◌^◌, ◌≤◌, ◌<◌, min, max, bit_and,
  bit_or, bit_xor, ◌≡◌, refl, sym, ap, ◌∙◌, ◌≢◌, Bool, true, false, ◌&&◌, ◌||◌, not, Option, none,
  some, List, [], ◌∷◌, ◌++◌, map, arith, ltb, leb, ◌==◌, if◌then◌else◌, ltb→lt, lt→ltb, le→ltb,
  leb→le, ==_iff, ==_refl, Bool-cases, nat_cases, length, get_elem?, get_or, set, take, drop,
  replicate, length-append, length-replicate, length-set, get_or-set_self, get_or-set_ne,
  get_or-append_left, get_or-append_right, get_or-append_last, get_or-replicate, u8, u16, u32, u64,
  sub32, sub64,
}
use vimos_minimal.Base.Int.{ℤ, pos, negsuc, ◌-ℤ◌}
use vimos_minimal.Boot.Elf.{Bytes, memcpy, memset}

infixl 5 ◌>>=◌
abbrev pub ◌>>=◌ : {A B : Type 0} → Option A → (A → Option B) → Option B
none >>= k = none
some a >>= k = k a

-- `while(s[i++]); return i - 1;`, where `size_t` has 32 bits.
unfoldable pub strlen_loop : ℕ → Bytes → ℕ → ℕ → Option ℕ
strlen_loop zero m s i = none
strlen_loop (suc fuel) m s i =
    let rest = strlen_loop fuel m s (u32 (i + 1)) in if m (s + i) == 0 then some i else rest

unfoldable pub strlen : ℕ → Bytes → ℕ → Option ℕ
strlen fuel m s = strlen_loop fuel m s 0

-- The value of a `char`, which is signed.
unfoldable pub signed : ℕ → ℤ
signed b = if ltb b 128 then pos b else negsuc (255 - b)

unfoldable pub strcmp_loop : ℕ → Bytes → ℕ → ℕ → ℕ → Option ℤ
strcmp_loop zero m s1 s2 i = none
strcmp_loop (suc fuel) m s1 s2 i =
    let rest = strcmp_loop fuel m s1 s2 (u32 (i + 1)) in
    if m (s1 + i) == m (s2 + i) && not (m (s1 + i) == 0)
    then rest
    else some (signed (m (s1 + i)) -ℤ signed (m (s2 + i)))

unfoldable pub strcmp : ℕ → Bytes → ℕ → ℕ → Option ℤ
strcmp fuel m s1 s2 = strcmp_loop fuel m s1 s2 0

-- The largest `int`. An index that would pass it has no defined value, which is `none` here.
abbrev pub int_max : ℕ
int_max = 0x7fff_ffff

-- A pointer to a character, or NULL, which is 0.
unfoldable pub strchr_loop : ℕ → Bytes → ℕ → ℕ → ℕ → Option ℕ
strchr_loop zero m s c i = none
strchr_loop (suc fuel) m s c i =
    let rest = if i == int_max then none else strchr_loop fuel m s c (i + 1) in
    if m (s + i) == 0
    then some (if m (s + i) == c then s + i else 0)
    else if m (s + i) == c
    then some (s + i)
    else rest

unfoldable pub strchr : ℕ → Bytes → ℕ → ℕ → Option ℕ
strchr fuel m s c = strchr_loop fuel m s c 0

unfoldable pub strrchr_loop : ℕ → Bytes → ℕ → ℕ → ℕ → Option ℕ
strrchr_loop zero m s c p = none
strrchr_loop (suc fuel) m s c p0 =
    let p = if m s == c then s else p0 in
    let rest = strrchr_loop fuel m (s + 1) c p in if m s == 0 then some p else rest

unfoldable pub strrchr : ℕ → Bytes → ℕ → ℕ → Option ℕ
strrchr fuel m s c = strrchr_loop fuel m s c 0

unfoldable pub strcpy : ℕ → ℕ → ℕ → Bytes → Option Bytes
strcpy fuel s1 s2 m = do n ← strlen fuel m s2; some (memcpy s1 s2 (u32 (n + 1)) m)

-- `while(s1[i]) i++;`, where `i` is an `int`.
unfoldable pub strcat_loop : ℕ → Bytes → ℕ → ℕ → Option ℕ
strcat_loop zero m s i = none
strcat_loop (suc fuel) m s i =
    let rest = if i == int_max then none else strcat_loop fuel m s (i + 1) in
    if m (s + i) == 0 then some i else rest

unfoldable pub strcat : ℕ → ℕ → ℕ → Bytes → Option Bytes
strcat fuel s1 s2 m = do i ← strcat_loop fuel m s1 0; strcpy fuel (s1 + i) s2 m

-- The length of `s2` is taken after the copy.
unfoldable pub strncpy : ℕ → ℕ → ℕ → ℕ → Bytes → Option Bytes
strncpy fuel s1 s2 n m0 = do
  let m = memcpy s1 s2 n m0
  i ← strlen fuel m s2
  some (memset (s1 + i) 0 (n - i) m)
