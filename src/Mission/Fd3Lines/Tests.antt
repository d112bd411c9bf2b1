-- ===== src/Mission/Fd3Lines/Tests.antt =====
-- An event channel with a declared file, a final event and an overlong line, and the theorems on it.
-- A line of the codec is the first letter of its event.
use letts.Prelude.{
  All, refl, arith, ◌≡◌, ◌==◌, if◌then◌else◌, map, some, String, pos, ◌∷◌, true, [], false, ℕ, List,
  none,
}
use letts.Mission.Fd3Lines.{Line, take_line, grow, Read, read_line_bounded, Limits, read_fd3, Run}
use letts.Mission.Outcome.{
  is_classified, by_success, by_exit, by_violations, by_process, compute, ExternalKillReason,
  Fd3Violation, FinalKind, OutcomeInputs, Fd3Final, Format,
}
use letts.Mission.Fd3Lines.Bounds.{started-Bounded, read_fd3-returns, read_fd3-Bounded, Bounded}
use letts.Mission.Fd3Codec.{is_object_or_null, decoded, syntax_error, refused, Decoded, Codec}
use letts.Mission.Fd3Reader.{declare_file, record_violation, set_final, started, handle_line}
use letts.Config.Names.{matches, role_key_error}
use letts.Mission.Fd3Violations.{line_too_large_violation}
use letts.Mission.Fd3Lines.Protocol.{compute-keeps_protocol, count_finals, keeps_protocol}

abbrev toy_head : List ℕ → Decoded String
toy_head [] = refused (syntax_error [])
toy_head (b ∷ bs) =
    if b == b's'
    then decoded "success"
    else if b == b'o'
    then decoded "output_file"
    else refused (syntax_error [])

abbrev toy : Codec
toy = record {
  itoa = λ n. "1";
  quote = λ bs. "q";
  text = λ bs. "t";
  bytes = λ s. [];
  json = λ s. s;
  members = λ bs. none;
  head = toy_head;
  progress = λ bs. refused (syntax_error []);
  output_file = λ bs. decoded (b'a' ∷ []);
  success = λ bs. decoded none;
  fail = λ bs. refused (syntax_error []);
}

abbrev limits : Limits
limits = record { max_event_line_size = 4; max_output_files = 1 }

abbrev run : Run
run = record { canceled = λ n. false; has_room = λ n. true }

abbrev line : List ℕ → Read
line bs = record { chunk = bs; is_prefix = false; failed = false }

abbrev reads : List Read
reads = line (b'o' ∷ []) ∷ line (b'o' ∷ []) ∷ line (b's' ∷ []) ∷ []

-- two final events and a line of two chunks that is too long
abbrev noisy : List Read
noisy =
    line (b's' ∷ [])
    ∷ line (b's' ∷ [])
    ∷ record { chunk = 1 ∷ 2 ∷ 3 ∷ []; is_prefix = true; failed = false }
    ∷ line (4 ∷ 5 ∷ [])
    ∷ []

abbrev reasons : List Fd3Violation → List String
reasons vs = map (λ v. v.reason) vs

noisy_runs :
    reasons (read_fd3 5 toy limits run 0 noisy started).state.violations
    ≡ "duplicate_final_event" ∷ "event_line_too_large" ∷ []
unfolding read_fd3 read_line_bounded grow take_line handle_line set_final record_violation
    is_object_or_null line_too_large_violation
noisy_runs = refl

read_fd3-returns_example : (read_fd3 5 toy limits run 0 noisy started).returned ≡ true
read_fd3-returns_example = read_fd3-returns toy limits 5 run 0 noisy started (omega arith)

read_fd3-Bounded_example : Bounded toy limits (read_fd3 5 toy limits run 0 noisy started).state
read_fd3-Bounded_example =
    read_fd3-Bounded toy limits 5 run 0 noisy started (started-Bounded toy limits)

abbrev format : Format
format = record { itoa = λ n. "1"; quote = λ s. s; duration = λ ms. "1m0s" }

abbrev returning : Fd3Final
returning = record {
  kind = FinalKind.success_event;
  return_value = none;
  message = "";
  reason = "";
  details = none;
  exit_hint = pos 0;
}

abbrev ended : OutcomeInputs
ended = record {
  external_kill = ExternalKillReason.kill_none;
  timeout_ms = pos 60000;
  lane = "a";
  oom_detected = false;
  oom_line = "";
  exit_code = pos 0;
  signal = "";
  fd3_final = some returning;
  fd3_violations = [];
}

compute-keeps_protocol_example :
    All
      (λ (l : Line). keeps_protocol toy l ≡ true)
      (read_fd3 4 toy limits run 0 reads started).lines
    × (count_finals toy (read_fd3 4 toy limits run 0 reads started).lines ≡ 1)
unfolding read_fd3 read_line_bounded grow take_line handle_line set_final declare_file
    is_object_or_null role_key_error matches compute by_process by_violations by_exit by_success
    is_classified
compute-keeps_protocol_example =
    compute-keeps_protocol toy limits 4 run reads format ended refl refl refl
