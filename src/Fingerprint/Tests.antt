-- ===== src/Fingerprint/Tests.antt =====
-- Canonical texts of small values, and the theorems on them.
use letts.Jcs.{
  join_members, insert_member, escape, escaped, encode_string, Value, number, string, object, field,
  end, encode,
}
use letts.Jcs.Numbers.{strip_zeros, normalize_exponent, encode_number, float, Float, Strconv}
use letts.Jcs.KeyOrder.{SameFields, SameValue}
use letts.Fingerprint.Sorting.{Reordered}
use letts.Prelude.{[], none, ◌≡◌, true, ◌∷◌, pos, Option, List, String, Bool, false, some, refl}
use letts.Jcs.Utf16.{utf16, less_units, less_utf16}
use letts.Fingerprint.{MissionInput, ExecInput, FileRef, exec, canonicalize_input}
use letts.Fingerprint.Stability.{exec-SameExec, canonicalize_input-same}

abbrev strconv : Strconv
strconv = record {
  format_int = λ n. "1";
  parse_int64 = λ s. some (pos 1);
  parse_uint64 = λ s. some 1;
  parse_float = λ s. none;
}

abbrev small : Float
small = record {
  is_nan_or_inf = false;
  is_zero = false;
  in_fixed_range = false;
  fixed = "";
  general = "1.5e-07";
}

-- {"b": 1.5e-7, "a": "tab, U+0001"}
abbrev unordered : Value
unordered = object (field "b" (number (float small)) (field "a" (string "\t\u{1}") end))

abbrev ordered : Value
ordered = object (field "a" (string "\t\u{1}") (field "b" (number (float small)) end))

canonical_text : encode strconv unordered ≡ some "{\"a\":\"\\t\\u0001\",\"b\":1.5e-7}"
unfolding encode encode_number normalize_exponent strip_zeros encode_string escaped escape
    insert_member join_members less_utf16 less_units utf16
canonical_text = refl

-- by UTF-16 a supplementary character comes before U+FFFD
supplementary_first : less_utf16 "𐀀" "�" ≡ true
unfolding less_utf16 less_units utf16
supplementary_first = refl

abbrev ref : String → FileRef
ref role = record { role = role; staging_id = "s"; sha256 = "h"; size = pos 3 }

abbrev input : List FileRef → MissionInput
input files = record {
  lane = "a";
  mission = "build";
  input_canonical = "{}";
  timeout_ms = none;
  files = files;
}

abbrev hash : String → String
hash s = s

abbrev execution : String → String → List String → ExecInput
execution stdin group outputs = record {
  lane = "a";
  command = "ls" ∷ [];
  script = none;
  inputs = [];
  outputs = outputs;
  stdin = stdin;
  stdin_staging_id = "";
  timeout_ms = some (pos 5);
  group_id = group;
  display_name = group;
}

exec-SameExec_example :
    exec strconv hash (execution "" "g" ("x" ∷ "y" ∷ []))
    ≡ exec strconv hash (execution "none" "h" ("y" ∷ "x" ∷ []))
exec-SameExec_example =
    exec-SameExec strconv hash (execution "" "g" ("x" ∷ "y" ∷ []))
      (execution "none" "h" ("y" ∷ "x" ∷ []))
      (record {
        lane = refl;
        command = refl;
        script = refl;
        inputs = Reordered.unchanged;
        outputs = Reordered.swap refl;
        stdin = refl;
        stdin_staging_id = refl;
        timeout = refl;
      })

abbrev decoded_body : Bool → Option Value
decoded_body true = some ordered
decoded_body false = some unordered

canonicalize_input-same_example :
    canonicalize_input strconv decoded_body true ≡ canonicalize_input strconv decoded_body false
canonicalize_input-same_example =
    canonicalize_input-same strconv decoded_body true false ordered unordered refl refl
      (SameValue.in_object (SameFields.swap refl))
