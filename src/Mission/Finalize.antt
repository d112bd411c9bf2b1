-- ===== src/Mission/Finalize.antt =====
-- internal/mission/finalize.go: the two-phase commit of a terminal outcome. The JSON columns are
-- the values that they encode, so they decode; the metrics and the log are left out.
pub mod DoneEvent
pub mod Transactions
pub mod Commit
pub mod CrashSafety
pub mod Prepared
pub mod Deleting
pub mod Tests
use letts.EventFile.Writer.{Write, Writer, Appended, EventFile, open_file, append_done_idempotent}
use letts.EventFile.Json.{Fields}
use letts.Mission.Machine.{
  storage, remove_files, rename_file, ◌>>=◌, ◌>>◌, no_events_file, terminal_event_conflict,
  append_failed, no_events_file, World, Prog, Host, durable, transaction, attempt, get, put, return,
  fail, set_events,
}
use letts.Storage.Rows.{
  not_found, FinalizePhase, StagingState, RefKind, StagingRef, Status, Db, FinalizeIntent,
  CollectedOutput, Outcome, StagingFile, Mission, Result, ok, err,
}
use letts.Prelude.{
  not, false, length, map, is_some, ◌+◌, ◌&&◌, ◌==◌, str_eq, [], none, negsuc, true, ◌||◌, ltb,
  some, if◌then◌else◌, ◌∷◌, Option, pos, Bool, List, ℤ, ℕ, String,
}
use letts.Mission.Finalize.DoneEvent.{
  with_seq_and_event, raw_len, build_done_fields, cap_outcome, done_event_time_finished,
  extract_done_fields, SizeLimits,
}
use letts.Mission.Outcome.{OutcomeResult}
use letts.Storage.Refs.{recalc_staging_ttl, TtlPolicy}
use letts.Storage.Missions.{get_mission, status_eq}
use letts.Storage.Staging.{mark_staging_complete_with_path, in_phase_b, set_staging}
use letts.Mission.Finalize.Transactions.{prepare_tx, revert_tx, committing_tx, commit_tx}
use letts.Mission.Finalize.Commit.{open_events, FinalizeConfig, commit_finalize}

pub record FinalizeInputs : Type 0 where
  pub mission_id : ℕ
  pub outcome : OutcomeResult
  pub outputs : List CollectedOutput
  pub now_ms : ℕ
  pub time_started_ms : ℕ
  pub progress_dropped : ℕ

-- the intent as a failed one, in the row and in the variable; a cause has a text
abbrev null_str : String → Option String
null_str s = if str_eq s "" then none else some s

unfoldable pub reverted : String → String → ℕ → Fields → FinalizeIntent → FinalizeIntent
reverted reason message seq fields i = record i {
  phase = FinalizePhase.prepared;
  outcome = Outcome.failed;
  fail_reason = null_str reason;
  fail_message = null_str message;
  fail_details = none;
  return_value = none;
  outputs = [];
  done_seq = seq;
  done_event = fields;
}

abbrev reverted_fields : Host → FinalizeIntent → String → String → Fields
reverted_fields h i reason message =
    build_done_fields h.parse
      (record {
        outcome = Outcome.failed;
        fail_reason = reason;
        fail_message = message;
        fail_details = none;
        exit_code = elim i.exit_code [ none ↦ pos 0 | some code ↦ code ];
        signal = elim i.signal [ none ↦ "" | some sig ↦ sig ];
        return_value = none;
        drop_return = true;
      })
      [] h.clock 0 0

unfoldable pub revert_failed_commit :
    Host
    → FinalizeConfig
    → Writer
    → FinalizeIntent
    → List CollectedOutput
    → String
    → String
    → Prog (Unit {0})
unfolding reverted commit_finalize
revert_failed_commit h cfg ew i outputs reason cause =
    let reason' = if str_eq reason "" then "output_commit_failed" else reason in
    let seq = ew.seq + 1 in
    let fields = with_seq_and_event (reverted_fields h i reason' cause) seq in
    let revert = reverted reason' cause seq fields in
    do
      remove_files (both_paths outputs)
      transaction (revert_tx i.mission_id revert outputs)
      commit_finalize h cfg ew (revert i) []
  where
    both_paths : List CollectedOutput → List String
    both_paths [] = []
    both_paths (op ∷ ops) = op.tmp_path ∷ op.final_path ∷ both_paths ops

-- the output whose rename fails, if one does
unfoldable pub rename_outputs : List CollectedOutput → Prog (Option CollectedOutput)
rename_outputs [] = return none
rename_outputs (op ∷ ops) =
    let rest = rename_outputs ops in
    rename_file op.tmp_path op.final_path >>= (λ done. if done then rest else return (some op))

abbrev after_renames :
    Host
    → FinalizeConfig
    → Writer
    → FinalizeIntent
    → List CollectedOutput
    → Option CollectedOutput
    → Prog (Unit {0})
after_renames h cfg ew i outputs none = commit_finalize h cfg ew i outputs
after_renames h cfg ew i outputs (some op) =
    revert_failed_commit h cfg ew i outputs "output_commit_failed"
      (h.rename_error op.tmp_path op.final_path)

-- Phase B of Finalize and of ContinuePhaseB
unfoldable pub phase_b :
    Host → FinalizeConfig → Writer → FinalizeIntent → List CollectedOutput → Prog (Unit {0})
unfolding rename_outputs commit_finalize revert_failed_commit
phase_b h cfg ew i outputs = do
  transaction (committing_tx i.mission_id outputs)
  failed_rename ← rename_outputs outputs
  after_renames h cfg ew i outputs failed_rename

-- GetMissionLabels, which is used for metrics, but fails on a missing row
abbrev pub labels : ℕ → Prog (Unit {0})
labels id =
    get (λ w. is_some (get_mission w.db id))
    >>= (λ found. if found then return tt else fail (storage not_found))

unfoldable pub commit_from_intent :
    Host → FinalizeConfig → Writer → FinalizeIntent → Prog (Unit {0})
unfolding commit_finalize
commit_from_intent h cfg ew i = labels i.mission_id >> commit_finalize h cfg ew i i.outputs

unfoldable pub continue_phase_b : Host → FinalizeConfig → Writer → FinalizeIntent → Prog (Unit {0})
unfolding commit_finalize phase_b
continue_phase_b h cfg ew i =
    labels i.mission_id
    >> (if length i.outputs == 0
        then commit_finalize h cfg ew i []
        else phase_b h cfg ew i i.outputs)

unfoldable pub revert_intent_to_failed :
    Host → FinalizeConfig → Writer → FinalizeIntent → String → String → Prog (Unit {0})
unfolding revert_failed_commit
revert_intent_to_failed h cfg ew i fail_reason reason =
    labels i.mission_id >> revert_failed_commit h cfg ew i i.outputs fail_reason reason

unfoldable pub new_intent :
    Host → FinalizeInputs → OutcomeResult → List CollectedOutput → ℕ → FinalizeIntent
new_intent h in' o outputs seq = record {
  mission_id = in'.mission_id;
  phase = FinalizePhase.prepared;
  outcome = o.outcome;
  return_value = if raw_len o.return_value == 0 then none else o.return_value;
  fail_reason = null_str o.fail_reason;
  fail_message = null_str o.fail_message;
  fail_details = if raw_len o.fail_details == 0 then none else o.fail_details;
  exit_code = some o.exit_code;
  signal = null_str o.signal;
  outputs = outputs;
  done_seq = seq;
  done_event =
      with_seq_and_event
        (build_done_fields h.parse o outputs in'.now_ms in'.time_started_ms in'.progress_dropped)
        seq;
  time_created = in'.now_ms;
}

abbrev pub tmp_paths : List CollectedOutput → List String
tmp_paths = map (λ op. op.tmp_path)

-- Phase A2, whose failure removes the temporary files
abbrev pub prepared_or_dropped : List CollectedOutput → Result (Unit {0}) → Prog (Unit {0})
prepared_or_dropped outputs (ok u) = return tt
prepared_or_dropped outputs (err e) = remove_files (tmp_paths outputs) >> fail (storage e)

abbrev pub is_success : Outcome → Bool
is_success Outcome.success = true
is_success _ = false

unfoldable pub finalize : Host → FinalizeConfig → FinalizeInputs → Prog (Unit {0})
unfolding new_intent commit_finalize phase_b open_events
finalize h cfg in' =
    let o = cap_outcome h.format cfg.sizes in'.outcome in
    let demoted = not (is_success o.outcome) in
    let outputs = if demoted then [] else in'.outputs in
    do
      remove_files (if demoted then tmp_paths in'.outputs else [])
      ew ← open_events in'.mission_id
      let i = new_intent h in' o outputs (ew.seq + 1)
      prepared ← attempt (prepare_tx i in'.now_ms outputs)
      prepared_or_dropped outputs prepared
      if length outputs == 0 then commit_finalize h cfg ew i [] else phase_b h cfg ew i outputs
