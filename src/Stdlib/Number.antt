-- ===== src/Stdlib/Number.antt =====
-- `skip_atoi` and `number` of stdlib/vsprintf.c. A string is the list of its characters without
-- the terminating 0; `number` returns what it writes at `str`, in order.
pub mod Digits
pub mod Decimal
use vimos_minimal.Base.{
  ◌⊎◌, ◌↔◌, inl, inr, ℕ, zero, suc, ◌+◌, ◌-◌, ◌*◌, ◌/◌, ◌%◌, ◌^◌, ◌≤◌, ◌<◌, min, max, bit_and,
  bit_or, bit_xor, ◌≡◌, refl, sym, ap, ◌∙◌, ◌≢◌, Bool, true, false, ◌&&◌, ◌||◌, not, Option, none,
  some, List, [], ◌∷◌, ◌++◌, map, arith, ltb, leb, ◌==◌, if◌then◌else◌, ltb→lt, lt→ltb, le→ltb,
  leb→le, ==_iff, ==_refl, Bool-cases, nat_cases, length, get_elem?, get_or, set, take, drop,
  replicate, length-append, length-replicate, length-set, get_or-set_self, get_or-set_ne,
  get_or-append_left, get_or-append_right, get_or-append_last, get_or-replicate, u8, u16, u32, u64,
  sub32, sub64,
}
use vimos_minimal.Base.Int.{ℤ, pos, negsuc, ◌-ℤ◌, ltb_ℤ}

-- The macro `is_digit`.
unfoldable pub is_digit : ℕ → Bool
is_digit c = leb 48 c && leb c 57

-- The number read so far has the 32 bits `i`, which wrap; also returned is where the digits end.
unfoldable pub skip_digits : ℕ → List ℕ → ℕ × List ℕ
skip_digits i [] = (i, [])
skip_digits i (c ∷ s) = if is_digit c then skip_digits (u32 (i * 10 + c - 48)) s else (i, c ∷ s)

-- The `int` with these 32 bits.
unfoldable pub int_of : ℕ → ℤ
int_of b = if ltb b (2 ^ 31) then pos b else negsuc (2 ^ 32 - 1 - b)

unfoldable pub skip_atoi : List ℕ → ℤ × List ℕ
skip_atoi s = let (i, rest) = skip_digits 0 s in (int_of i, rest)

abbrev pub zeropad : ℕ
zeropad = 1

abbrev pub sign_flag : ℕ
sign_flag = 2

abbrev pub plus : ℕ
plus = 4

abbrev pub space : ℕ
space = 8

abbrev pub left : ℕ
left = 16

abbrev pub special : ℕ
special = 32

abbrev pub small : ℕ
small = 64

-- `type & FLAG`.
abbrev pub has : ℕ → ℕ → Bool
has type flag = (type / flag % 2) == 1

-- `digits[d]`, for the two tables.
unfoldable pub digit : Bool → ℕ → ℕ
digit lower d = if ltb d 10 then 48 + d else if lower then 97 + (d - 10) else 65 + (d - 10)

-- The loop that fills `tmp`, the lowest digit first.
unfoldable pub digits_loop : ℕ → Bool → ℕ → ℕ → List ℕ
digits_loop zero lower base num = []
digits_loop (suc fuel) lower base num =
    let rest = digits_loop fuel lower base (num / base) in
    if num == 0 then [] else digit lower (num % base) ∷ rest

-- `tmp[0]` to `tmp[i - 1]`; 64 rounds are enough for an `unsigned long`.
unfoldable pub tmp_of : Bool → ℕ → ℕ → List ℕ
tmp_of lower base num = if num == 0 then 48 ∷ [] else digits_loop 64 lower base num

-- `while(size-- > 0) *str++ = c;`: what it writes, and `size` after it.
unfoldable pub pad : ℕ → ℤ → List ℕ
pad c (pos n) = replicate n c
pad c (negsuc n) = []

unfoldable pub padded : ℤ → ℤ
padded (pos n) = negsuc 0
padded (negsuc n) = negsuc (suc n)

-- The sign; `num` is unsigned, so that `num < 0` never holds and SIGN makes no difference.
unfoldable pub sign_of : ℕ → ℕ
sign_of type = if has type plus then 43 else if has type space then 32 else 0

-- `if(sign) size--;`
unfoldable pub less_sign : ℕ → ℤ → ℤ
less_sign sign size = if sign == 0 then size else size -ℤ pos 1

-- `precision = i` where the digits are more.
unfoldable pub at_least : ℕ → ℤ → ℕ
at_least i (pos p) = if ltb p i then i else p
at_least i (negsuc p) = i

unfoldable pub prefix_of : ℕ → ℕ → List ℕ
prefix_of base type =
    if has type special
    then (if base == 8
        then 48 ∷ []
        else if base == 16
        then 48 ∷ digit (has type small) 33 ∷ []
        else [])
    else []

-- `while(i-- > 0) *str++ = tmp[i];`
unfoldable pub write_back : List ℕ → List ℕ
write_back [] = []
write_back (d ∷ ds) = write_back ds ++ d ∷ []

-- From `size -= precision` on; `size` is what is left of the field for padding.
unfoldable pub layout : List ℕ → List ℕ → ℕ → ℕ → ℕ → ℤ → ℕ → List ℕ
layout tmp prefix sign c precision size type =
    let front = not (has type zeropad || has type left) in
    let size1 = if front then padded size else size in
    let middle = not (has type left) in
    let size2 = if middle then padded size1 else size1 in
    (if front then pad 32 size else [])
    ++ (if sign == 0 then [] else sign ∷ [])
    ++ prefix
    ++ (if middle then pad c size1 else [])
    ++ replicate (precision - length tmp) 48
    ++ write_back tmp
    ++ pad 32 size2

-- `if(type & LEFT) type &= ~ZEROPAD;`
unfoldable pub no_zeros_left : ℕ → ℕ
no_zeros_left type = if has type left then type - type % 2 else type

-- `tmp` has 36 places. `none` stands for the return of 0, and for digits that do not fit.
unfoldable pub number : ℕ → ℕ → ℤ → ℤ → ℕ → Option (List ℕ)
number num base size precision type0 =
    let type = no_zeros_left type0 in
    let sign = sign_of type in
    let tmp = tmp_of (has type small) base num in
    let i = at_least (length tmp) precision in
    if ltb base 2 || ltb 36 base || ltb 36 (length tmp)
    then none
    else some (
        layout tmp (prefix_of base type) sign (if has type zeropad then 48 else 32) i
          (less_sign sign size -ℤ pos i) type)
