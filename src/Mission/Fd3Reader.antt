-- ===== src/Mission/Fd3Reader.antt =====
-- internal/mission/fd3reader.go: the reader of the event channel of a mission's process. The results
-- of bufio's ReadLine are a list, and so are the answers of the channel of the progress events.
use mathlib.Core.Option
use letts.Prelude.{
  suc, pos, ℤ, ltb, any, str_eq, false, ◌&&◌, true, ◌==◌, String, some, Bool, ◌∷◌, ◌++◌, length,
  List, leb, if◌then◌else◌, [], ℕ, Option, none,
}
use letts.Mission.Outcome.{FinalKind, Fd3Final, Fd3Violation}
use letts.Mission.Fd3Codec.{
  bytes_of, is_object_or_null, decoded, refused, FailFields, Decoded, Codec, Progress,
}
use letts.Mission.Fd3Violations.{
  not_object_violation, unknown_event_violation, undecodable_line_violation, schema_violation,
  max_error_text_bytes, clipped, max_echo_bytes, raw, at_line, fd3_subject, protocol_violation,
  texts,
}
use letts.Config.Names.{role_key_error}

pub record Limits : Type 0 where
  pub max_event_line_size : ℕ
  pub max_output_files : ℕ

pub record Fd3State : Type 0 where
  pub final : Option Fd3Final
  pub output_files : List (List ℕ)
  pub violations : List Fd3Violation
  pub progress_drops : ℕ
  pub final_line : ℕ
  pub sent : List Progress

abbrev pub started : Fd3State
started = record {
  final = none;
  output_files = [];
  violations = [];
  progress_drops = 0;
  final_line = 0;
  sent = [];
}

abbrev pub max_recorded_violations : ℕ
max_recorded_violations = 32

unfoldable pub record_violation : Fd3Violation → Fd3State → Fd3State
record_violation v s =
    if leb max_recorded_violations (length s.violations)
    then s
    else record s { violations = s.violations ++ (v ∷ []) }

-- the kind's name in texts
abbrev pub kind_text : FinalKind → String
kind_text FinalKind.success_event = "success"
kind_text FinalKind.fail_event = "fail"

abbrev pub duplicate : Codec → Fd3Final → ℕ → Fd3Final → ℕ → Fd3Violation
duplicate c f line_no first first_line = record {
  reason = "duplicate_final_event";
  message = texts (
      fd3_subject c (kind_text f.kind) line_no
      ∷ " is a second final event after the "
      ∷ kind_text first.kind
      ∷ " event on line "
      ∷ c.itoa first_line
      ∷ []);
  details = raw c (record (at_line line_no) {
    event = kind_text f.kind;
    first_event = kind_text first.kind;
    first_fd3_line = first_line;
  });
}

abbrev pub store_final : Codec → Fd3Final → ℕ → Fd3State → Option Fd3Final → Fd3State
store_final c f line_no s none = record s { final = some f; final_line = line_no }
store_final c f line_no s (some first) =
    record_violation (duplicate c f line_no first s.final_line) s

unfoldable pub set_final : Codec → Fd3Final → ℕ → Fd3State → Fd3State
set_final c f line_no s = store_final c f line_no s s.final

-- the answers that a line may need: whether the channel of the progress events has room
abbrev pub on_progress : Codec → ℕ → Bool → Fd3State → Decoded Progress → Fd3State
on_progress c line_no has_room s (refused e) =
    record_violation (schema_violation c "progress" line_no e) s
on_progress c line_no has_room s (decoded p) =
    if has_room
    then record s { sent = s.sent ++ (p ∷ []) }
    else record s { progress_drops = suc s.progress_drops }

abbrev pub bytes_eq : List ℕ → List ℕ → Bool
bytes_eq [] [] = true
bytes_eq (a ∷ as') (b ∷ bs) = a == b && bytes_eq as' bs
bytes_eq _ _ = false

abbrev pub has_file : List ℕ → List (List ℕ) → Bool
has_file key keys = any (λ k. bytes_eq k key) keys

abbrev pub too_many : Codec → ℕ → List ℕ → ℕ → Fd3Violation
too_many c line_no key max = record {
  reason = "too_many_output_files";
  message = texts (
      fd3_subject c "output_file" line_no
      ∷ " declares key "
      ∷ c.quote key
      ∷ " beyond max_output_files_per_mission ("
      ∷ c.itoa max
      ∷ ")"
      ∷ []);
  details = raw c (record (at_line line_no) {
    event = "output_file";
    key = c.text key;
    max_output_files = max;
  });
}

abbrev pub invalid_key : Codec → ℕ → List ℕ → String → Fd3Violation
invalid_key c line_no key error =
    protocol_violation c
      (texts (
        fd3_subject c "output_file" line_no
        ∷ ": "
        ∷ clipped c (c.bytes error) max_error_text_bytes
        ∷ []))
      (record (at_line line_no) { event = "output_file"; key = clipped c key max_echo_bytes })

unfoldable pub declare_file : Codec → ℕ → Limits → List ℕ → Fd3State → Fd3State
unfolding record_violation
declare_file c line_no limits key s =
    if has_file key s.output_files
    then s
    else if ltb 0 limits.max_output_files && leb limits.max_output_files (length s.output_files)
    then record_violation (too_many c line_no key limits.max_output_files) s
    else record s { output_files = key ∷ s.output_files }

abbrev pub checked_file : Codec → ℕ → Limits → List ℕ → Fd3State → Option String → Fd3State
checked_file c line_no limits key s (some error) =
    record_violation (invalid_key c line_no key error) s
checked_file c line_no limits key s none = declare_file c line_no limits key s

abbrev pub on_output_file : Codec → ℕ → Limits → Fd3State → Decoded (List ℕ) → Fd3State
on_output_file c line_no limits s (refused e) =
    record_violation (schema_violation c "output_file" line_no e) s
on_output_file c line_no limits s (decoded key) =
    checked_file c line_no limits key s (role_key_error c.quote key)

abbrev pub success_final : Codec → Option (List ℕ) → Fd3Final
success_final c ret = record {
  kind = FinalKind.success_event;
  return_value = Option.map c.text ret;
  message = "";
  reason = "";
  details = none;
  exit_hint = pos 0;
}

abbrev pub on_success : Codec → ℕ → Fd3State → Decoded (Option (List ℕ)) → Fd3State
on_success c line_no s (refused e) = record_violation (schema_violation c "success" line_no e) s
on_success c line_no s (decoded ret) =
    if is_object_or_null (bytes_of ret)
    then set_final c (success_final c ret) line_no s
    else record_violation (not_object_violation c "success" "return" (bytes_of ret) line_no) s

abbrev pub exit_hint_of : Option ℤ → ℤ
exit_hint_of none = pos 1
exit_hint_of (some n) = n

abbrev pub fail_final : Codec → FailFields → Fd3Final
fail_final c ev = record {
  kind = FinalKind.fail_event;
  return_value = none;
  message = ev.message;
  reason = ev.reason;
  details = Option.map c.text ev.details;
  exit_hint = exit_hint_of ev.exit_code;
}

abbrev pub on_fail : Codec → ℕ → Fd3State → Decoded FailFields → Fd3State
on_fail c line_no s (refused e) = record_violation (schema_violation c "fail" line_no e) s
on_fail c line_no s (decoded ev) =
    if is_object_or_null (bytes_of ev.details)
    then set_final c (fail_final c ev) line_no s
    else record_violation (not_object_violation c "fail" "details" (bytes_of ev.details) line_no) s

abbrev pub on_event : Codec → ℕ → Limits → Bool → List ℕ → Fd3State → Decoded String → Fd3State
on_event c line_no limits has_room line s (refused e) =
    record_violation (undecodable_line_violation c line line_no e) s
on_event c line_no limits has_room line s (decoded event) =
    if str_eq event "progress"
    then on_progress c line_no has_room s (c.progress line)
    else if str_eq event "output_file"
    then on_output_file c line_no limits s (c.output_file line)
    else if str_eq event "success"
    then on_success c line_no s (c.success line)
    else if str_eq event "fail"
    then on_fail c line_no s (c.fail line)
    else record_violation (unknown_event_violation c event line_no) s

unfoldable pub handle_line : Codec → ℕ → Limits → Bool → List ℕ → Fd3State → Fd3State
handle_line c line_no limits has_room line s =
    on_event c line_no limits has_room line s (c.head line)
