-- ===== src/Mission/Outcome/Tests.antt =====
-- A mission that reports success and is killed, one that returns a value, and the theorems on them.
use letts.Mission.Outcome.{
  is_classified, by_success, by_exit, format_timeout_ms, by_violations, kill_failure, OutcomeInputs,
  FinalKind, by_process, Format, compute, ExternalKillReason, Fd3Final,
}
use letts.Mission.Outcome.Priority.{compute-success, failed_finally, undisturbed, succeeded}
use letts.Prelude.{eqb_ℤ, any, [], not, refl, false, ◌&&◌, none, pos, ◌≡◌, some}

abbrev format : Format
format = record { itoa = λ n. "1"; quote = λ s. s; duration = λ ms. "1m0s" }

abbrev returning : Fd3Final
returning = record {
  kind = FinalKind.success_event;
  return_value = some "{}";
  message = "";
  reason = "";
  details = none;
  exit_hint = pos 0;
}

abbrev ended : ExternalKillReason → OutcomeInputs
ended k = record {
  external_kill = k;
  timeout_ms = pos 60000;
  lane = "a";
  oom_detected = false;
  oom_line = "";
  exit_code = pos 0;
  signal = "";
  fd3_final = some returning;
  fd3_violations = [];
}

-- the trailing zero seconds of a timeout are cut
timeout_text :
    (compute format (ended ExternalKillReason.kill_timeout)).fail_message
    ≡ "mission exceeded its timeout of 1m and was killed"
unfolding compute kill_failure format_timeout_ms
timeout_text = refl

compute-success_example :
    succeeded (compute format (ended ExternalKillReason.kill_none))
    ≡ undisturbed (ended ExternalKillReason.kill_none)
      && (not (any is_classified [])
          && (eqb_ℤ (pos 0) (pos 0) && not (failed_finally (some returning))))
compute-success_example = compute-success format (ended ExternalKillReason.kill_none)

returns : (compute format (ended ExternalKillReason.kill_none)).return_value ≡ some "{}"
unfolding compute by_process by_violations by_exit by_success
returns = refl
