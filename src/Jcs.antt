-- ===== src/Jcs.antt =====
-- internal/jcs/canonicalize.go: the canonical JSON of a value. A text is valid UTF-8.
pub mod Utf16
pub mod Numbers
pub mod KeyOrder
use Prim.Native.String
use Prim.Native.Char.{Char, code}
use letts.Prelude.{
  ltb, ◌%◌, [], ◌/◌, ◌∷◌, if◌then◌else◌, Option, String, List, Bool, ℕ, none, some, zero, suc,
}
use letts.Jcs.Numbers.{is_char, encode_any_number, Number, Strconv}
use letts.Jcs.Utf16.{less_utf16}

mutual
  pub data Value : Type 0 where
    null : Value
    bool : Bool → Value
    string : String → Value
    number : Number → Value
    array : Items → Value
    object : Fields → Value

  pub data Items : Type 0 where
    nil : Items
    cons : Value → Items → Items

  -- a map, in the order in which its keys are enumerated
  pub data Fields : Type 0 where
    end : Fields
    field : String → Value → Fields → Fields

abbrev hex_digits : List String
hex_digits =
    "0" ∷ "1" ∷ "2" ∷ "3" ∷ "4" ∷ "5" ∷ "6" ∷ "7" ∷ "8" ∷ "9" ∷ "a" ∷ "b" ∷ "c" ∷ "d" ∷ "e" ∷ "f"
    ∷ []

abbrev nth : List String → ℕ → String
nth [] n = ""
nth (s ∷ ss) zero = s
nth (s ∷ ss) (suc n) = nth ss n

-- %04x of a number below 256
abbrev hex4 : ℕ → String
hex4 n = String.◌++◌ "00" (String.◌++◌ (nth hex_digits (n / 16)) (nth hex_digits (n % 16)))

unfoldable pub escape : Char → String
escape c =
    if is_char 92 c
    then "\\\\"
    else if is_char 34 c
    then "\\\""
    else if is_char 8 c
    then "\\b"
    else if is_char 12 c
    then "\\f"
    else if is_char 10 c
    then "\\n"
    else if is_char 13 c
    then "\\r"
    else if is_char 9 c
    then "\\t"
    else if ltb (code c) 32
    then String.◌++◌ "\\u" (hex4 (code c))
    else String.◌∷◌ c String.[]

unfoldable pub escaped : String → String
unfolding escape
escaped String.[] = String.[]
escaped (String.◌∷◌ c s) = String.◌++◌ (escape c) (escaped s)

unfoldable pub encode_string : String → String
unfolding escaped
encode_string s = String.◌++◌ "\"" (String.◌++◌ (escaped s) "\"")

-- a member of an object, with the encoding of its value
pub record Member : Type 0 where
  pub key : String
  pub text : Option String

-- sort.Slice by lessUTF16, of keys that are distinct
unfoldable pub insert_member : Member → List Member → List Member
insert_member m [] = m ∷ []
insert_member m (n ∷ ns) =
    let rest = insert_member m ns in if less_utf16 m.key n.key then m ∷ n ∷ ns else n ∷ rest

abbrev joined : Option String → String → Option String → Option String
joined (some a) separator (some b) = some (String.◌++◌ a (String.◌++◌ separator b))
joined _ separator _ = none

abbrev member_text : Member → Option String
member_text m = joined (some (encode_string m.key)) ":" m.text

-- what stands between the braces, or the brackets
unfoldable pub join_members : List Member → Option String
join_members [] = some ""
join_members (m ∷ []) = member_text m
join_members (m ∷ n ∷ ns) = joined (member_text m) "," (join_members (n ∷ ns))

unfoldable pub join_items : List (Option String) → Option String
join_items [] = some ""
join_items (t ∷ []) = t
join_items (t ∷ u ∷ ts) = joined t "," (join_items (u ∷ ts))

abbrev enclosed : String → String → Option String → Option String
enclosed left right none = none
enclosed left right (some s) = some (String.◌++◌ left (String.◌++◌ s right))

-- `Canonicalize`: none for a number that is NaN or infinite, or that does not parse
unfoldable mutual
  unfolding encode_string insert_member join_members join_items less_utf16

  pub encode : Strconv → Value → Option String
  encode g null = some "null"
  encode g (bool b) = some (if b then "true" else "false")
  encode g (string s) = some (encode_string s)
  encode g (number n) = encode_any_number g n
  encode g (array vs) = enclosed "[" "]" (join_items (encode_items g vs))
  encode g (object fs) = enclosed "{" "}" (join_members (sorted_members g fs))

  pub encode_items : Strconv → Items → List (Option String)
  encode_items g nil = []
  encode_items g (cons v vs) = encode g v ∷ encode_items g vs

  -- the members in the order of their keys
  pub sorted_members : Strconv → Fields → List Member
  sorted_members g end = []
  sorted_members g (field k v fs) =
      insert_member (record { key = k; text = encode g v }) (sorted_members g fs)
