-- ===== src/Mission/QueuedKill.antt =====
-- internal/mission/queued_kill.go.
pub mod Safety
mod Tests
use Prim.Native.String.{◌++◌}
use letts.Mission.Machine.{fail_reason_required, fail, Prog, Host, transaction, ◌>>=◌, ◌>>◌}
use letts.Storage.Rows.{
  mission_not_queued, not_found, FinalizePhase, Db, FinalizeIntent, Outcome, Mission, Result, ok,
  err, Status,
}
use letts.Storage.Missions.{status_eq, get_mission}
use letts.Prelude.{is_some, not, str_eq, [], if◌then◌else◌, pos, ◌+◌, none, some, Option, String, ℕ}
use letts.Mission.Outcome.{kill_failure, ExternalKillReason}
use letts.EventFile.Json.{Value, Fields}
use letts.Mission.Finalize.DoneEvent.{with_seq_and_event, field_if}
use letts.Storage.Intents.{insert_finalize_intent, get_finalize_intent}
use letts.Mission.Finalize.Commit.{commit_finalize, open_events, FinalizeConfig}

-- the text of the constant
abbrev pub reason_text : ExternalKillReason → String
reason_text ExternalKillReason.kill_none = ""
reason_text ExternalKillReason.kill_timeout = "timeout"
reason_text ExternalKillReason.kill_force_delete = "force_delete"
reason_text ExternalKillReason.kill_lane_removed = "lane_removed"
reason_text ExternalKillReason.kill_dugdale_shutdown = "dugdale_shutdown"
reason_text ExternalKillReason.kill_by_api = "killed_by_api"

-- what the row's status and intent say, both read under the writer lock
abbrev if_still_queued : FinalizeIntent → Db → Option Mission → Result (Unit {0} × Db)
if_still_queued i db none = err not_found
if_still_queued i db (some m) =
    if not (status_eq m.status Status.queued)
    then err mission_not_queued
    else if is_some (get_finalize_intent db i.mission_id)
    then err mission_not_queued
    else inserted (insert_finalize_intent db i)
  where
    inserted : Result Db → Result (Unit {0} × Db)
    inserted (ok db') = ok (tt, db')
    inserted (err e) = err e

unfoldable pub kill_tx : FinalizeIntent → Db → Result (Unit {0} × Db)
kill_tx i db = if_still_queued i db (get_mission db i.mission_id)

unfoldable pub kill_message : Host → String → ExternalKillReason → String
kill_message h lane reason =
    let (message, details) = kill_failure h.format reason (pos 0) lane in
    if str_eq message "" then "" else message ++ " before it started"

unfoldable pub kill_fields : Host → String → ExternalKillReason → ℕ → Fields
unfolding kill_message
kill_fields h lane reason now_ms = Fields.field "time_finished" (Value.number (pos now_ms)) (
    Fields.field "outcome" (Value.string "killed") (
      Fields.field "exit_code" (Value.number (pos 0)) (
        Fields.field "fail_reason" (Value.string (reason_text reason)) (
          field_if (not (str_eq (kill_message h lane reason) "")) "fail_message"
            (Value.string (kill_message h lane reason)) Fields.end))))

unfoldable pub kill_intent : Host → ℕ → String → ExternalKillReason → ℕ → ℕ → FinalizeIntent
unfolding kill_fields
kill_intent h id lane reason now_ms seq = record {
  mission_id = id;
  phase = FinalizePhase.prepared;
  outcome = Outcome.killed;
  return_value = none;
  fail_reason = some (reason_text reason);
  fail_message =
      if str_eq (kill_message h lane reason) "" then none else some (kill_message h lane reason);
  fail_details = none;
  exit_code = some (pos 0);
  signal = none;
  outputs = [];
  done_seq = seq;
  done_event = with_seq_and_event (kill_fields h lane reason now_ms) seq;
  time_created = now_ms;
}

-- the zero FinalizeConfig
abbrev no_config : FinalizeConfig
no_config = record {
  sizes = record { max_return_value = 0; max_fail_message = 0; max_fail_details = 0 };
  ttl = record {
    mission_success = 0;
    mission_failed = 0;
    exec_success = 0;
    exec_failed = 0;
    staging_ttl = 0;
    download_grace = 0;
  };
}

-- `id` and `lane` are those of the mission that the caller has read
unfoldable pub kill_queued : Host → ℕ → String → ExternalKillReason → ℕ → Prog (Unit {0})
unfolding open_events kill_intent kill_tx commit_finalize
kill_queued h id lane reason now_ms =
    if str_eq (reason_text reason) "" then fail fail_reason_required else do
      ew ← open_events id
      let i = kill_intent h id lane reason now_ms (ew.seq + 1)
      transaction (kill_tx i)
      commit_finalize h no_config ew i []
