-- ===== src/Fingerprint.antt =====
-- internal/fingerprint: the idempotency fingerprints of dispatches. SHA-256 with its hex text is a
-- function `hash` of a text; a payload is the value that jcs encodes. A raw input is the value that
-- the JSON decoder's tokens make, in which a key may occur twice.
pub mod Sorting
pub mod Stability
mod Tests
use letts.Jcs.{
  Value, Fields, Items, null, bool, string, number, array, object, nil, cons, field, end, encode,
}
use letts.Jcs.Numbers.{Number, integer, Strconv}
use letts.Prelude.{
  not, ◌&&◌, str_eq, true, [], map, ℤ, ◌∷◌, any, if◌then◌else◌, Bool, List, String, Option, none,
  some,
}
use letts.Fingerprint.Sorting.{sort_by}

pub record FileRef : Type 0 where
  pub role : String
  pub staging_id : String
  pub sha256 : String
  pub size : ℤ

pub record MissionInput : Type 0 where
  pub lane : String
  pub mission : String
  pub input_canonical : String
  pub timeout_ms : Option ℤ
  pub files : List FileRef

abbrev optional_number : Option ℤ → Value
optional_number none = null
optional_number (some n) = number (integer n)

abbrev pub items : List Value → Items
items [] = nil
items (v ∷ vs) = cons v (items vs)

abbrev pub file_value : FileRef → Value
file_value f = object (
    field "role" (string f.role) (
      field "staging_id" (string f.staging_id)
        (field "sha256" (string f.sha256) (field "size" (number (integer f.size)) end))))

-- the payload of `Mission`
unfoldable pub mission_payload : (String → String) → MissionInput → Value
unfolding sort_by
mission_payload hash in' = object (
    field "kind" (string "mission") (
      field "lane" (string in'.lane) (
        field "mission" (string in'.mission) (
          field "input_sha256" (string (hash in'.input_canonical)) (
            field "timeout_ms" (optional_number in'.timeout_ms) (
              field "files"
                (array (items (map file_value (sort_by (λ (f : FileRef). f.role) in'.files))))
                end))))))

abbrev hashed : (String → String) → Option String → Option String
hashed hash none = none
hashed hash (some canonical) = some (hash canonical)

-- `Mission`: none for an error
unfoldable pub mission : Strconv → (String → String) → MissionInput → Option String
mission g hash in' = hashed hash (encode g (mission_payload hash in'))

pub record ExecScriptRef : Type 0 where
  pub staging_id : String
  pub sha256 : String

pub record ExecFileRef : Type 0 where
  pub key : String
  pub staging_id : String
  pub sha256 : String
  pub size : ℤ

pub record ExecInput : Type 0 where
  pub lane : String
  pub command : List String
  pub script : Option ExecScriptRef
  pub inputs : List ExecFileRef
  pub outputs : List String
  pub stdin : String
  pub stdin_staging_id : String
  pub timeout_ms : Option ℤ
  pub group_id : String
  pub display_name : String

abbrev pub normal_stdin : String → String
normal_stdin s = if str_eq s "" then "none" else s

abbrev optional_text : String → Value
optional_text s = if str_eq s "" then null else string s

abbrev script_value : Option ExecScriptRef → Value
script_value none = null
script_value (some s) =
    object (field "staging_id" (string s.staging_id) (field "sha256" (string s.sha256) end))

abbrev pub exec_file_value : ExecFileRef → Value
exec_file_value f = object (
    field "key" (string f.key) (
      field "staging_id" (string f.staging_id)
        (field "sha256" (string f.sha256) (field "size" (number (integer f.size)) end))))

abbrev out_value : String → Value
out_value k = object (field "key" (string k) end)

-- the payload of `Exec`
unfoldable pub exec_payload : ExecInput → Value
unfolding sort_by
exec_payload in' = object (
    field "kind" (string "exec") (
      field "lane" (string in'.lane) (
        field "command" (array (items (map string in'.command))) (
          field "stdin" (string (normal_stdin in'.stdin)) (
            field "script" (script_value in'.script) (
              field "stdin_staging_id" (optional_text in'.stdin_staging_id) (
                field "timeout_ms" (optional_number in'.timeout_ms) (
                  field "in"
                    (array (
                      items
                        (map exec_file_value (sort_by (λ (f : ExecFileRef). f.key) in'.inputs))))
                    (field "out"
                      (array (items (map out_value (sort_by (λ (k : String). k) in'.outputs))))
                      end)))))))))

unfoldable pub exec : Strconv → (String → String) → ExecInput → Option String
exec g hash in' = hashed hash (encode g (exec_payload in'))

abbrev pub has_text : String → List String → Bool
has_text k ks = any (λ j. str_eq j k) ks

-- walkNoDupKeys, with the keys seen so far of the object
unfoldable mutual
  pub has_no_duplicates : Value → Bool
  has_no_duplicates (array vs) = items_no_duplicates vs
  has_no_duplicates (object fs) = fields_no_duplicates [] fs
  has_no_duplicates _ = true

  pub items_no_duplicates : Items → Bool
  items_no_duplicates nil = true
  items_no_duplicates (cons v vs) = has_no_duplicates v && items_no_duplicates vs

  pub fields_no_duplicates : List String → Fields → Bool
  fields_no_duplicates seen end = true
  fields_no_duplicates seen (field k v fs) =
      not (has_text k seen) && (has_no_duplicates v && fields_no_duplicates (k ∷ seen) fs)

-- `CanonicalizeInput` of a raw input that the decoder reads as `raw`, none if it does not
abbrev pub canonical_value : Strconv → Option Value → Option String
canonical_value g none = none
canonical_value g (some v) = if has_no_duplicates v then encode g v else none

unfoldable pub canonicalize_input :
    {Raw : Type 0} → Strconv → (Raw → Option Value) → Raw → Option String
canonicalize_input g decode raw = canonical_value g (decode raw)
