-- ===== src/Mission/Outcome.antt =====
-- internal/mission/outcome.go: the outcome of a mission whose process ended. Raw JSON is its text,
-- `none` for nil. The texts of Go's strconv, fmt and time packages are the functions of a `Format`.
pub mod Priority
pub mod Reasons
mod Tests
use Prim.Native.String.{◌++◌}
use letts.Prelude.{
  is_some, [], ◌&&◌, not, true, ◌∷◌, leb_ℤ, pos, ◌||◌, List, some, eqb_ℤ, false, none, str_eq,
  if◌then◌else◌, ℤ, Option, Bool, String,
}
use letts.Storage.Rows.{Outcome}

-- strconv.Itoa and %d, %q, and the String of a time.Duration of so many milliseconds
pub record Format : Type 0 where
  pub itoa : ℤ → String
  pub quote : String → String
  pub duration : ℤ → String

pub data ExternalKillReason : Type 0 where
  kill_none kill_timeout kill_force_delete kill_lane_removed kill_dugdale_shutdown :
      ExternalKillReason
  kill_by_api : ExternalKillReason

pub data FinalKind : Type 0 where
  success_event fail_event : FinalKind

pub record Fd3Final : Type 0 where
  pub kind : FinalKind
  pub return_value : Option String
  pub message : String
  pub reason : String
  pub details : Option String
  pub exit_hint : ℤ

pub record Fd3Violation : Type 0 where
  pub reason : String
  pub message : String
  pub details : Option String

pub record OutcomeInputs : Type 0 where
  pub external_kill : ExternalKillReason
  pub timeout_ms : ℤ
  pub lane : String
  pub oom_detected : Bool
  pub oom_line : String
  pub exit_code : ℤ
  pub signal : String
  pub fd3_final : Option Fd3Final
  pub fd3_violations : List Fd3Violation

pub record OutcomeResult : Type 0 where
  pub outcome : Outcome
  pub fail_reason : String
  pub fail_message : String
  pub fail_details : Option String
  pub exit_code : ℤ
  pub signal : String
  pub return_value : Option String
  pub drop_return : Bool

-- a result with the zero values that a Go literal leaves out
abbrev result : Outcome → String → String → ℤ → String → OutcomeResult
result o reason message code signal = record {
  outcome = o;
  fail_reason = reason;
  fail_message = message;
  fail_details = none;
  exit_code = code;
  signal = signal;
  return_value = none;
  drop_return = false;
}

-- strings.HasSuffix and strings.TrimSuffix, of a suffix that is not empty
unfoldable has_suffix : String → String → Bool
has_suffix String.[] suffix = false
has_suffix (String.◌∷◌ c s) suffix = str_eq (String.◌∷◌ c s) suffix || has_suffix s suffix

unfoldable trim_suffix : String → String → String
trim_suffix String.[] suffix = String.[]
trim_suffix (String.◌∷◌ c s) suffix =
    let rest = trim_suffix s suffix in
    if str_eq (String.◌∷◌ c s) suffix then String.[] else String.◌∷◌ c rest

unfoldable pub format_timeout_ms : Format → ℤ → String
unfolding has_suffix trim_suffix
format_timeout_ms f ms =
    let s = f.duration ms in
    let s' = if has_suffix s "m0s" then trim_suffix s "0s" else s in
    if has_suffix s' "h0m" then trim_suffix s' "0m" else s'

unfoldable pub kill_failure : Format → ExternalKillReason → ℤ → String → String × Option String
kill_failure f ExternalKillReason.kill_none ms lane = ("", none)
kill_failure f ExternalKillReason.kill_timeout ms lane =
    if leb_ℤ ms (pos 0) then ("mission exceeded its timeout and was killed", none) else (
      "mission exceeded its timeout of " ++ (format_timeout_ms f ms ++ " and was killed"),
      some ("{\"timeout_ms\":" ++ (f.itoa ms ++ "}")),
    )
kill_failure f ExternalKillReason.kill_force_delete ms lane =
    ("killed because the mission was force-deleted", none)
kill_failure f ExternalKillReason.kill_lane_removed ms lane =
    if str_eq lane ""
    then ("killed because its lane was removed from the config", none)
    else ("killed because lane " ++ (f.quote lane ++ " was removed from the config"), none)
kill_failure f ExternalKillReason.kill_dugdale_shutdown ms lane =
    ("killed because dugdale was shutting down", none)
kill_failure f ExternalKillReason.kill_by_api ms lane = ("killed via the kill API", none)

unfoldable pub describe_exit : Format → ℤ → String → String
describe_exit f code signal =
    if str_eq signal ""
    then "exited with code " ++ f.itoa code
    else "was terminated by signal " ++ signal

unfoldable pub signal_to_fail_reason : String → String
signal_to_fail_reason sig =
    if str_eq sig "SEGV" || str_eq sig "segmentation fault"
    then "segfault"
    else if str_eq sig "BUS" || str_eq sig "bus error"
    then "sigbus"
    else if str_eq sig "ILL" || str_eq sig "illegal instruction"
    then "sigill"
    else if str_eq sig "FPE" || str_eq sig "floating point exception"
    then "sigfpe"
    else if str_eq sig "TRAP" || str_eq sig "trace/breakpoint trap"
    then "sigtrap"
    else if str_eq sig "ABRT" || str_eq sig "aborted"
    then "sigabrt"
    else "signal_" ++ sig

-- the first violation of the four kinds that decide an outcome
unfoldable pub is_classified : Fd3Violation → Bool
is_classified v =
    str_eq v.reason "event_line_too_large"
    || (str_eq v.reason "event_protocol_error"
        || (str_eq v.reason "duplicate_final_event" || str_eq v.reason "too_many_output_files"))

-- 4. of the table, or what follows it
unfoldable pub by_violations : ℤ → String → List Fd3Violation → OutcomeResult → OutcomeResult
unfolding is_classified
by_violations code signal [] otherwise = otherwise
by_violations code signal (v ∷ vs) otherwise =
    let rest = by_violations code signal vs otherwise in
    if is_classified v
    then record (result Outcome.failed v.reason v.message code signal) {
      fail_details = v.details;
      drop_return = true;
    }
    else rest

unfoldable pub by_success : Format → ℤ → String → Option String → OutcomeResult
unfolding describe_exit
by_success f code signal ret =
    if eqb_ℤ code (pos 0)
    then record (result Outcome.success "" "" (pos 0) "") { return_value = ret }
    else record (result Outcome.failed "success_then_failed_exit"
        ("mission emitted success but " ++ (describe_exit f code signal ++ "; return discarded"))
        code signal) { drop_return = true }

unfoldable pub by_fail : ℤ → String → Fd3Final → OutcomeResult
by_fail code signal final =
    if eqb_ℤ code (pos 0)
    then record (result Outcome.failed "fail_then_zero_exit"
        (if str_eq final.message ""
          then "mission emitted fail but exited with code 0"
          else final.message)
        (pos 0) "") { fail_details = final.details }
    else record (result Outcome.failed (if str_eq final.reason "" then "explicit" else final.reason)
        final.message code signal) { fail_details = final.details }

abbrev by_final : Format → ℤ → String → Fd3Final → FinalKind → OutcomeResult
by_final f code signal final FinalKind.success_event = by_success f code signal final.return_value
by_final f code signal final FinalKind.fail_event = by_fail code signal final

-- 5. and 6.
unfoldable pub by_exit : Format → ℤ → String → Option Fd3Final → OutcomeResult
unfolding by_success by_fail
by_exit f code signal (some final) = by_final f code signal final final.kind
by_exit f code signal none =
    if eqb_ℤ code (pos 0)
    then result Outcome.success "" "" (pos 0) ""
    else result Outcome.failed "no_event_nonzero_exit"
        ("process exited with code "
          ++ (f.itoa code ++ " without a success/fail event; see stderr"))
        code signal

-- 2. and 3., and what follows them
unfoldable pub by_process : Format → OutcomeInputs → OutcomeResult
unfolding by_violations by_exit signal_to_fail_reason
by_process f in' =
    if in'.oom_detected
    then result Outcome.oom "php_memory_limit"
        (if str_eq in'.oom_line ""
          then "PHP memory limit exhausted (detected in stderr)"
          else in'.oom_line)
        in'.exit_code in'.signal
    else if str_eq in'.signal "KILL" || str_eq in'.signal "killed"
    then result Outcome.killed "unknown_sigkill"
        "process received SIGKILL not sent by dugdale (kernel OOM killer or an external kill)"
        in'.exit_code in'.signal
    else if not (str_eq in'.signal "") && not (is_some in'.fd3_final)
    then result Outcome.failed (signal_to_fail_reason in'.signal)
        ("process terminated by signal " ++ (in'.signal ++ " without a final event")) in'.exit_code
        in'.signal
    else by_violations in'.exit_code in'.signal in'.fd3_violations
        (by_exit f in'.exit_code in'.signal in'.fd3_final)

-- 1. of the table: the outcome and fail_reason of a kill by dugdale
abbrev pub killed_by : ExternalKillReason → Option (Outcome × String)
killed_by ExternalKillReason.kill_none = none
killed_by ExternalKillReason.kill_timeout = some (Outcome.timeout, "")
killed_by ExternalKillReason.kill_force_delete = some (Outcome.killed, "force_delete")
killed_by ExternalKillReason.kill_lane_removed = some (Outcome.killed, "lane_removed")
killed_by ExternalKillReason.kill_dugdale_shutdown = some (Outcome.killed, "dugdale_shutdown")
killed_by ExternalKillReason.kill_by_api = some (Outcome.killed, "killed_by_api")

abbrev by_kill : Format → OutcomeInputs → Option (Outcome × String) → OutcomeResult
by_kill f in' none = by_process f in'
by_kill f in' (some (o, reason)) =
    let (message, details) = kill_failure f in'.external_kill in'.timeout_ms in'.lane in
    record (result o reason message in'.exit_code in'.signal) { fail_details = details }

unfoldable pub compute : Format → OutcomeInputs → OutcomeResult
unfolding kill_failure by_process
compute f in' = by_kill f in' (killed_by in'.external_kill)
