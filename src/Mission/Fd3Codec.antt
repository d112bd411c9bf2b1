-- ===== src/Mission/Fd3Codec.antt =====
-- internal/mission/fd3reader.go and clip.go: what the reader of the event channel takes from Go's
-- libraries. Bytes are numbers; what encoding/json and fmt make of them are the functions of `Codec`.
use letts.Prelude.{
  false, ◌||◌, true, ltb, take, ◌&&◌, zero, length, some, [], leb, ◌==◌, suc, not, Bool, none, ℤ,
  ◌∷◌, if◌then◌else◌, String, List, Option, ℕ,
}

-- why json.Unmarshal refuses a line
pub data DecodeError : Type 0 where
  syntax_error : List ℕ → DecodeError
  type_error : List ℕ → List ℕ → List ℕ → DecodeError
  other_error : List ℕ → DecodeError

pub data Decoded (A : Type 0) : Type 0 where
  decoded : A → Decoded A
  refused : DecodeError → Decoded A

pub record Progress : Type 0 where
  pub value : Option String
  pub message : String

pub record FailFields : Type 0 where
  pub message : String
  pub reason : String
  pub details : Option (List ℕ)
  pub exit_code : Option ℤ

-- a top-level member of a JSON prefix, as the decoder's tokens give it: a key with a value that is a
-- string, another value, or one that the end of the prefix cuts
pub data MemberValue : Type 0 where
  a_string : String → MemberValue
  another : MemberValue
  broken : MemberValue

pub record Member : Type 0 where
  pub key : String
  pub value : MemberValue

-- itoa is %d, quote is %q, text the Go string of the bytes, json the JSON text of a string, members
-- the members of an object, as far as a prefix of it goes (none if it does not begin an object)
pub record Codec : Type 0 where
  pub itoa : ℕ → String
  pub quote : List ℕ → String
  pub text : List ℕ → String
  pub bytes : String → List ℕ
  pub json : String → String
  pub members : List ℕ → Option (List Member)
  pub head : List ℕ → Decoded String
  pub progress : List ℕ → Decoded Progress
  pub output_file : List ℕ → Decoded (List ℕ)
  pub success : List ℕ → Decoded (Option (List ℕ))
  pub fail : List ℕ → Decoded FailFields

-- clip.go
abbrev pub is_rune_start : ℕ → Bool
is_rune_start b = not (leb 128 b && ltb b 192)

abbrev pub byte_at : List ℕ → ℕ → ℕ
byte_at [] i = 0
byte_at (b ∷ bs) zero = b
byte_at (b ∷ bs) (suc i) = byte_at bs i

-- the loop over i, for so many more values
unfoldable pub clip_at : List ℕ → ℕ → ℕ → Option ℕ
clip_at s zero i = none
clip_at s (suc tries) zero = if is_rune_start (byte_at s 0) then some 0 else none
clip_at s (suc tries) (suc i) =
    let rest = clip_at s tries i in if is_rune_start (byte_at s (suc i)) then some (suc i) else rest

unfoldable pub clip_utf8 : List ℕ → ℕ → List ℕ
unfolding clip_at
clip_utf8 s n =
    if n == 0
    then []
    else if leb (length s) n
    then s
    else elim (clip_at s 4 n) [ none ↦ take n s | some i ↦ take i s ]

abbrev pub is_space : ℕ → Bool
is_space b = b == b' ' || (b == 9 || (b == 10 || b == 13))

abbrev pub is_null : List ℕ → Bool
is_null (a ∷ b ∷ c ∷ d ∷ bs) = a == b'n' && (b == b'u' && (c == b'l' && d == b'l'))
is_null _ = false

-- empty, null or an object, by the first byte that is not white space
unfoldable pub is_object_or_null : List ℕ → Bool
is_object_or_null [] = true
is_object_or_null (b ∷ bs) =
    let rest = is_object_or_null bs in
    if is_space b
    then rest
    else if b == b'{'
    then true
    else if b == b'n'
    then is_null (b ∷ bs)
    else false

abbrev pub bytes_of : Option (List ℕ) → List ℕ
bytes_of none = []
bytes_of (some bs) = bs

unfoldable pub trim_space : List ℕ → List ℕ
trim_space [] = []
trim_space (b ∷ bs) = let rest = trim_space bs in if is_space b then rest else b ∷ bs

abbrev pub kind_of : List ℕ → String
kind_of [] = "empty"
kind_of (b ∷ bs) =
    if b == b'['
    then "array"
    else if b == b'"'
    then "string"
    else if b == b't' || b == b'f'
    then "boolean"
    else "number"

unfoldable pub json_value_kind : List ℕ → String
unfolding trim_space
json_value_kind bs = kind_of (trim_space bs)
