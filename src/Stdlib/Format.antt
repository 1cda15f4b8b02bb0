-- ===== src/Stdlib/Format.antt =====
-- `vsprintf` of stdlib/vsprintf.c. The format is the list of its characters without the terminating
-- 0, and the result is what is written to the buffer, again without the 0 behind it.
pub mod Pieces
use vimos_minimal.Base.{
  ◌⊎◌, ◌↔◌, inl, inr, ℕ, zero, suc, ◌+◌, ◌-◌, ◌*◌, ◌/◌, ◌%◌, ◌^◌, ◌≤◌, ◌<◌, min, max, bit_and,
  bit_or, bit_xor, ◌≡◌, refl, sym, ap, ◌∙◌, ◌≢◌, Bool, true, false, ◌&&◌, ◌||◌, not, Option, none,
  some, List, [], ◌∷◌, ◌++◌, map, arith, ltb, leb, ◌==◌, if◌then◌else◌, ltb→lt, lt→ltb, le→ltb,
  leb→le, ==_iff, ==_refl, Bool-cases, nat_cases, length, get_elem?, get_or, set, take, drop,
  replicate, length-append, length-replicate, length-set, get_or-set_self, get_or-set_ne,
  get_or-append_left, get_or-append_right, get_or-append_last, get_or-replicate, u8, u16, u32, u64,
  sub32, sub64,
}
use vimos_minimal.Base.Int.{ℤ, pos, negsuc, ltb_ℤ}
use vimos_minimal.Stdlib.Number.{
  is_digit, skip_atoi, number, has, zeropad, sign_flag, plus, space, left, special, small,
}

infixl 5 ◌>>=◌
-- The first missing argument ends the call.
abbrev ◌>>=◌ : {A B : Type 0} → Option A → (A → Option B) → Option B
none >>= k = none
some a >>= k = k a

-- The arguments that `va_arg` gives, by the type they are read at.
pub data Arg : Type 0 where
  text : List ℕ → Arg
  long : ℕ → Arg
  int : ℤ → Arg

-- `*fmt`, and `++fmt` where it does not stand on the terminating 0.
unfoldable pub head : List ℕ → ℕ
head [] = 0
head (c ∷ s) = c

unfoldable pub tail : List ℕ → List ℕ
tail [] = []
tail (c ∷ s) = s

-- The loop `repeat`, from the character behind `%` on.
unfoldable pub read_flags : ℕ → List ℕ → ℕ × List ℕ
read_flags flags [] = (flags, [])
read_flags flags (c ∷ s) =
    if c == 45
    then read_flags (bit_or flags left) s
    else if c == 43
    then read_flags (bit_or flags plus) s
    else if c == 32
    then read_flags (bit_or flags space) s
    else if c == 35
    then read_flags (bit_or flags special) s
    else if c == 48
    then read_flags (bit_or flags zeropad) s
    else (flags, c ∷ s)

-- The variables of one conversion, the rest of the format, and the arguments that are left.
pub record Directive : Type 0 where
  pub flags : ℕ
  pub field_width : ℤ
  pub precision : ℤ
  pub fmt : List ℕ
  pub args : List Arg

-- A negative width from an argument.
unfoldable pub take_width : ℕ → List ℕ → ℤ → List Arg → Directive
take_width flags fmt (pos w) args = record {
  flags = flags;
  field_width = pos w;
  precision = negsuc 0;
  fmt = fmt;
  args = args;
}
take_width flags fmt (negsuc w) args = record {
  flags = bit_or flags left;
  field_width = pos (suc w);
  precision = negsuc 0;
  fmt = fmt;
  args = args;
}

-- `field_width = va_arg(args, int)`; the `*` itself is not skipped. `none` stands for an argument
-- that is missing or of another type.
unfoldable pub star_width : ℕ → List ℕ → List Arg → Option Directive
star_width flags fmt (int w ∷ args) = some (take_width flags fmt w args)
star_width flags fmt (text s ∷ args) = none
star_width flags fmt (long n ∷ args) = none
star_width flags fmt [] = none

unfoldable pub read_width : ℕ → List ℕ → List Arg → Option Directive
read_width flags fmt args =
    let (w, rest) = skip_atoi fmt in
    if is_digit (head fmt)
    then some
        (record { flags = flags; field_width = w; precision = negsuc 0; fmt = rest; args = args })
    else if head fmt == 42
    then star_width flags fmt args
    else some (record {
      flags = flags;
      field_width = negsuc 0;
      precision = negsuc 0;
      fmt = fmt;
      args = args;
    })

-- `if(precision < 0) precision = 0;`
unfoldable pub no_less : ℤ → ℤ
no_less (pos p) = pos p
no_less (negsuc p) = pos 0

unfoldable pub star_precision : Directive → List ℕ → List Arg → Option Directive
star_precision d fmt (int p ∷ args) =
    some (record d { precision = no_less p; fmt = fmt; args = args })
star_precision d fmt (text s ∷ args) = none
star_precision d fmt (long n ∷ args) = none
star_precision d fmt [] = none

unfoldable pub read_precision : Directive → Option Directive
read_precision d =
    let fmt = tail d.fmt in
    let (p, rest) = skip_atoi fmt in
    if head d.fmt == 46
    then (if is_digit (head fmt)
        then some (record d { precision = no_less p; fmt = rest })
        else if head fmt == 42
        then star_precision d fmt d.args
        else some (record d { precision = pos 0; fmt = fmt }))
    else some d

-- The qualifier is skipped and makes no difference.
unfoldable pub skip_qualifier : List ℕ → List ℕ
skip_qualifier fmt = if head fmt == 104 || head fmt == 108 || head fmt == 76 then tail fmt else fmt

-- `%s`: a precision cuts the text, and the field is filled on the left unless LEFT.
unfoldable pub put_text : Directive → List ℕ → List ℕ
put_text d s =
    let len =
      if ltb_ℤ d.precision (pos 0)
      then length s
      else if ltb_ℤ d.precision (pos (length s))
      then pos_of d.precision
      else length s in
    let fill = replicate (pos_of d.field_width - len) 32 in
    if has d.flags left then take len s ++ fill else fill ++ take len s
  where
    pos_of : ℤ → ℕ
    pos_of (pos n) = n
    pos_of (negsuc n) = 0

-- What one conversion writes, the format behind it, and the arguments that are left.
pub record Step : Type 0 where
  pub out : List ℕ
  pub fmt : List ℕ
  pub args : List Arg

-- `none` stands for a null pointer from `number`, which does not happen for base 10 and 16.
unfoldable pub wrote : List ℕ → List Arg → Option (List ℕ) → Option Step
wrote fmt args none = none
wrote fmt args (some out) = some (record { out = out; fmt = fmt; args = args })

-- `number` with the argument of the conversion.
unfoldable pub put_number : ℕ → ℕ → Directive → List ℕ → List Arg → Option Step
put_number base flags d fmt (long n ∷ args) =
    wrote fmt args (number n base d.field_width d.precision flags)
put_number base flags d fmt (int n ∷ args) = none
put_number base flags d fmt (text s ∷ args) = none
put_number base flags d fmt [] = none

unfoldable pub put_string : Directive → List ℕ → List Arg → Option Step
put_string d fmt (text s ∷ args) = some (record { out = put_text d s; fmt = fmt; args = args })
put_string d fmt (int n ∷ args) = none
put_string d fmt (long n ∷ args) = none
put_string d fmt [] = none

-- The `default` case: `%%` writes one `%`, and any other character is written behind a `%`.
unfoldable pub put_other : List ℕ → List Arg → Step
put_other [] args = record { out = 37 ∷ []; fmt = []; args = args }
put_other (c ∷ fmt) args = record {
  out = if c == 37 then c ∷ [] else 37 ∷ c ∷ [];
  fmt = fmt;
  args = args;
}

-- `switch(*fmt)`.
unfoldable pub convert : Directive → Option Step
convert d =
    let c = head d.fmt in
    let rest = tail d.fmt in
    if c == 115
    then put_string d rest d.args
    else if c == 120
    then put_number 16 (bit_or d.flags small) d rest d.args
    else if c == 88
    then put_number 16 d.flags d rest d.args
    else if c == 100 || c == 105
    then put_number 10 (bit_or d.flags sign_flag) d rest d.args
    else if c == 117
    then put_number 10 d.flags d rest d.args
    else some (put_other d.fmt d.args)

-- All that follows a `%`.
unfoldable pub directive : List ℕ → List Arg → Option Step
directive fmt args = do
  let (flags, rest) = read_flags 0 fmt
  d ← read_width flags rest args
  p ← read_precision d
  convert (record p { fmt = skip_qualifier p.fmt })

-- One round of the outer loop at the character `c`.
unfoldable pub format_step : ℕ → List ℕ → List Arg → Option Step
format_step c fmt args =
    if c == 37 then directive fmt args else some (record { out = c ∷ []; fmt = fmt; args = args })

-- Each round takes at least one character, so that the length of the format is enough.
unfoldable pub format_loop : ℕ → List ℕ → List Arg → Option (List ℕ)
format_loop fuel [] args = some []
format_loop zero (c ∷ fmt) args = none
format_loop (suc fuel) (c ∷ fmt) args = do
  s ← format_step c fmt args
  rest ← format_loop fuel s.fmt s.args
  some (s.out ++ rest)

unfoldable pub vsprintf : List ℕ → List Arg → Option (List ℕ)
vsprintf fmt args = format_loop (length fmt) fmt args
