-- ===== src/Mission/Fd3Violations.antt =====
-- internal/mission/fd3reader.go: the texts of the violations of the event protocol.
use Prim.Native.String
use letts.Prelude.{none, some}
use letts.Prelude.{
  ◌||◌, [], false, str_eq, ◌==◌, if◌then◌else◌, true, ◌∷◌, some, String, Bool, Option, ℕ, List,
}
use letts.Mission.Fd3Codec.{
  json_value_kind, broken, other_error, syntax_error, type_error, clip_utf8, a_string, Member,
  DecodeError, MemberValue, Codec,
}
use letts.Mission.Outcome.{Fd3Violation}

abbrev pub texts : List String → String
texts [] = ""
texts (s ∷ ss) = String.◌++◌ s (texts ss)

-- `fd3ViolationDetails`, whose zero values are left out of its JSON
pub record Details : Type 0 where
  pub fd3_line : ℕ
  pub line_bytes : ℕ
  pub max_event_line_size : ℕ
  pub event : String
  pub key : String
  pub max_output_files : ℕ
  pub first_event : String
  pub first_fd3_line : ℕ

abbrev pub at_line : ℕ → Details
at_line n = record {
  fd3_line = n;
  line_bytes = 0;
  max_event_line_size = 0;
  event = "";
  key = "";
  max_output_files = 0;
  first_event = "";
  first_fd3_line = 0;
}

abbrev pub number_field : Codec → String → ℕ → String
number_field c name n = if n == 0 then "" else texts (name ∷ c.itoa n ∷ [])

abbrev pub text_field : Codec → String → String → String
text_field c name s = if str_eq s "" then "" else texts (name ∷ c.json s ∷ [])

unfoldable pub raw : Codec → Details → Option String
raw c d = some (
    texts (
      "{\"fd3_line\":"
      ∷ c.itoa d.fd3_line
      ∷ number_field c ",\"line_bytes\":" d.line_bytes
      ∷ number_field c ",\"max_event_line_size\":" d.max_event_line_size
      ∷ text_field c ",\"event\":" d.event
      ∷ text_field c ",\"key\":" d.key
      ∷ number_field c ",\"max_output_files_per_mission\":" d.max_output_files
      ∷ text_field c ",\"first_event\":" d.first_event
      ∷ number_field c ",\"first_fd3_line\":" d.first_fd3_line
      ∷ "}"
      ∷ []))

unfoldable pub fd3_subject : Codec → String → ℕ → String
fd3_subject c kind line_no =
    if str_eq kind ""
    then texts ("fd3 line " ∷ c.itoa line_no ∷ [])
    else texts ("fd3 " ∷ kind ∷ " event (line " ∷ c.itoa line_no ∷ ")" ∷ [])

abbrev pub max_echo_bytes : ℕ
max_echo_bytes = 128

abbrev pub max_error_text_bytes : ℕ
max_error_text_bytes = 256

abbrev pub clipped : Codec → List ℕ → ℕ → String
clipped c s n = c.text (clip_utf8 s n)

unfoldable pub protocol_violation : Codec → String → Details → Fd3Violation
protocol_violation c msg d = record {
  reason = "event_protocol_error";
  message = msg;
  details = raw c d;
}

abbrev pub sniffed : MemberValue → String
sniffed (a_string v) =
    if str_eq v "progress" || (str_eq v "output_file" || (str_eq v "success" || str_eq v "fail"))
    then v
    else ""
sniffed _ = ""

abbrev pub is_broken : MemberValue → Bool
is_broken broken = true
is_broken _ = false

unfoldable pub sniff_members : List Member → String
sniff_members [] = ""
sniff_members (m ∷ ms) =
    let rest = sniff_members ms in
    if str_eq m.key "event" then sniffed m.value else if is_broken m.value then "" else rest

unfoldable pub sniff_event_kind : Codec → List ℕ → String
sniff_event_kind c head = elim (c.members head) [ none ↦ "" | some ms ↦ sniff_members ms ]

unfoldable pub line_too_large_violation : Codec → List ℕ → ℕ → ℕ → ℕ → Fd3Violation
line_too_large_violation c head size line_no max_size =
    let kind = sniff_event_kind c head in
    record {
      reason = "event_line_too_large";
      message = texts (
          fd3_subject c kind line_no
          ∷ " is "
          ∷ c.itoa size
          ∷ " bytes, exceeds max_event_line_size ("
          ∷ c.itoa max_size
          ∷ " bytes)"
          ∷ (if str_eq kind "success"
              then "; return less data or write it to an output file"
              else "")
          ∷ []);
      details = raw c (record (at_line line_no) {
        line_bytes = size;
        max_event_line_size = max_size;
        event = kind;
      });
    }

unfoldable pub describe_decode_error : Codec → DecodeError → String
describe_decode_error c (type_error [] type value) =
    texts ("expected a JSON object, got " ∷ clipped c value max_echo_bytes ∷ [])
describe_decode_error c (type_error (b ∷ field) type value) = texts (
    "field "
    ∷ c.quote (b ∷ field)
    ∷ " must be "
    ∷ c.text type
    ∷ ", got "
    ∷ clipped c value max_echo_bytes
    ∷ [])
describe_decode_error c (syntax_error text) = clipped c text max_error_text_bytes
describe_decode_error c (other_error text) = clipped c text max_error_text_bytes

unfoldable pub undecodable_line_violation : Codec → List ℕ → ℕ → DecodeError → Fd3Violation
undecodable_line_violation c line line_no (syntax_error text) =
    protocol_violation c
      (texts (
        fd3_subject c "" line_no
        ∷ " is not valid JSON: "
        ∷ clipped c text max_error_text_bytes
        ∷ "; line starts with "
        ∷ c.quote (clip_utf8 line max_echo_bytes)
        ∷ []))
      (at_line line_no)
undecodable_line_violation c line line_no e =
    protocol_violation c
      (texts (
        fd3_subject c "" line_no
        ∷ " does not match the event schema: "
        ∷ describe_decode_error c e
        ∷ []))
      (at_line line_no)

unfoldable pub schema_violation : Codec → String → ℕ → DecodeError → Fd3Violation
schema_violation c kind line_no e =
    protocol_violation c
      (texts (
        fd3_subject c kind line_no
        ∷ " does not match the schema: "
        ∷ describe_decode_error c e
        ∷ []))
      (record (at_line line_no) { event = kind })

unfoldable pub not_object_violation : Codec → String → String → List ℕ → ℕ → Fd3Violation
unfolding json_value_kind
not_object_violation c kind field value line_no =
    protocol_violation c
      (texts (
        fd3_subject c kind line_no
        ∷ ": "
        ∷ c.quote (c.bytes field)
        ∷ " must be a JSON object or null, got "
        ∷ json_value_kind value
        ∷ []))
      (record (at_line line_no) { event = kind })

unfoldable pub unknown_event_violation : Codec → String → ℕ → Fd3Violation
unknown_event_violation c name line_no =
    protocol_violation c
      (if str_eq name ""
        then texts (fd3_subject c "" line_no ∷ " has a missing or empty \"event\" field" ∷ [])
        else texts (
            fd3_subject c "" line_no
            ∷ " has unknown event "
            ∷ c.quote (clip_utf8 (c.bytes name) max_echo_bytes)
            ∷ " (want progress, output_file, success or fail)"
            ∷ []))
      (at_line line_no)
