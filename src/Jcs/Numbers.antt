-- ===== src/Jcs/Numbers.antt =====
-- internal/jcs/canonicalize.go: the texts of numbers. Those of Go's strconv are the functions of
-- `Strconv`. FormatFloat always writes digits after an exponent mark.
use Prim.Native.String
use Prim.Native.Char.{Char, code}
use letts.Prelude.{pos, if◌then◌else◌, false, ◌==◌, ◌||◌, ℕ, Option, Bool, String, ℤ, none, some}

-- a float64, as encodeNumber looks at it: with its texts by FormatFloat 'f' and 'g'
pub record Float : Type 0 where
  pub is_nan_or_inf : Bool
  pub is_zero : Bool
  pub in_fixed_range : Bool
  pub fixed : String
  pub general : String

pub data Number : Type 0 where
  integer : ℤ → Number
  float : Float → Number
  json_number : String → Number

-- FormatInt and FormatUint; Int64, ParseUint and Float64 of a json.Number, none for an error
pub record Strconv : Type 0 where
  pub format_int : ℤ → String
  pub parse_int64 : String → Option ℤ
  pub parse_uint64 : String → Option ℕ
  pub parse_float : String → Option Float

-- the bytes of a text that is ASCII
abbrev pub is_char : ℕ → Char → Bool
is_char n c = code c == n

unfoldable pub contains_any : (Char → Bool) → String → Bool
contains_any p String.[] = false
contains_any p (String.◌∷◌ c s) = p c || contains_any p s

abbrev pub is_exp : Char → Bool
is_exp c = is_char b'e' c || is_char b'E' c

abbrev pub is_sign : Char → Bool
is_sign c = is_char b'+' c || is_char b'-' c

-- "e" + sign + the digits without their leading zeros
unfoldable pub strip_zeros : String → String
strip_zeros String.[] = String.[]
strip_zeros (String.◌∷◌ c String.[]) = String.◌∷◌ c String.[]
strip_zeros (String.◌∷◌ c (String.◌∷◌ d s)) =
    let rest = strip_zeros (String.◌∷◌ d s) in
    if is_char b'0' c then rest else String.◌∷◌ c (String.◌∷◌ d s)

abbrev pub exponent : String → String
exponent String.[] = "e+"
exponent (String.◌∷◌ c s) =
    if is_char b'-' c
    then String.◌++◌ "e-" (strip_zeros s)
    else if is_char b'+' c
    then String.◌++◌ "e+" (strip_zeros s)
    else String.◌++◌ "e+" (strip_zeros (String.◌∷◌ c s))

-- what follows the first exponent mark gets its sign and loses its leading zeros
unfoldable pub normalize_exponent : String → String
unfolding strip_zeros
normalize_exponent String.[] = String.[]
normalize_exponent (String.◌∷◌ c s) =
    let rest = normalize_exponent s in if is_exp c then exponent s else String.◌∷◌ c rest

-- none for an error
unfoldable pub encode_number : Float → Option String
unfolding normalize_exponent
encode_number f =
    if f.is_nan_or_inf
    then none
    else if f.is_zero
    then some "0"
    else if f.in_fixed_range
    then some f.fixed
    else some (normalize_exponent f.general)

abbrev pub by_float : Option Float → Option String
by_float none = none
by_float (some f) = encode_number f

abbrev pub starts_negative : String → Bool
starts_negative String.[] = false
starts_negative (String.◌∷◌ c s) = is_char b'-' c

abbrev pub by_uint : Strconv → String → Option ℕ → Option String
by_uint g s none = by_float (g.parse_float s)
by_uint g s (some n) = some (g.format_int (pos n))

abbrev pub by_int : Strconv → String → Option ℤ → Option String
by_int g s none =
    if starts_negative s then by_float (g.parse_float s) else by_uint g s (g.parse_uint64 s)
by_int g s (some n) = some (g.format_int n)

unfoldable pub encode_json_number : Strconv → String → Option String
unfolding encode_number contains_any
encode_json_number g s =
    if contains_any (λ c. is_char b'.' c || is_exp c) s
    then by_float (g.parse_float s)
    else by_int g s (g.parse_int64 s)

abbrev pub encode_any_number : Strconv → Number → Option String
encode_any_number g (integer n) = some (g.format_int n)
encode_any_number g (float f) = encode_number f
encode_any_number g (json_number s) = encode_json_number g s
