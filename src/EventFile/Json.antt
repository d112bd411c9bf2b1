-- ===== src/EventFile/Json.antt =====
-- The values of `jsonValuesEqual` in internal/eventfile/writer.go: what json.Unmarshal makes of an
-- event. A number is an integer that a float64 holds exactly, below 2 ^ 53 in size (and an id, whose
-- text the source compares, is its number); a map is the list of its keys, of which the first counts.
pub mod Equality
pub mod Paths
mod Tests
use letts.Prelude.{
  ◌&&◌, ◌==◌, ◌||◌, eqb_ℤ, str_eq, not, false, suc, ℤ, true, if◌then◌else◌, Bool, String, ℕ,
}

mutual
  pub data Value : Type 0 where
    null : Value
    bool : Bool → Value
    number : ℤ → Value
    string : String → Value
    array : Items → Value
    object : Fields → Value

  pub data Items : Type 0 where
    nil : Items
    cons : Value → Items → Items

  pub data Fields : Type 0 where
    end : Fields
    field : String → Value → Fields → Fields

-- a key that is missing reads as nil
unfoldable pub lookup : String → Fields → Value
lookup k end = null
lookup k (field j v fs) = let rest = lookup k fs in if str_eq j k then v else rest

unfoldable pub has_key : String → Fields → Bool
has_key k end = false
has_key k (field j v fs) = str_eq j k || has_key k fs

abbrev pub size : Fields → ℕ
size end = 0
size (field k v fs) = suc (size fs)

abbrev pub item_count : Items → ℕ
item_count nil = 0
item_count (cons v vs) = suc (item_count vs)

abbrev pub bool_eq : Bool → Bool → Bool
bool_eq a b = if a then b else not b

unfoldable mutual
  pub json_values_equal : Value → Value → Bool
  json_values_equal null null = true
  json_values_equal (bool a) (bool b) = bool_eq a b
  json_values_equal (number a) (number b) = eqb_ℤ a b
  json_values_equal (string a) (string b) = str_eq a b
  json_values_equal (array a) (array b) = item_count a == item_count b && items_equal a b
  json_values_equal (object a) (object b) = size a == size b && fields_within a b
  json_values_equal _ _ = false

  -- for i := range av
  pub items_equal : Items → Items → Bool
  items_equal nil b = true
  items_equal (cons v vs) nil = true
  items_equal (cons v vs) (cons w ws) = json_values_equal v w && items_equal vs ws

  -- for k, v := range av
  pub fields_within : Fields → Fields → Bool
  fields_within end b = true
  fields_within (field k v fs) b = json_values_equal v (lookup k b) && fields_within fs b
