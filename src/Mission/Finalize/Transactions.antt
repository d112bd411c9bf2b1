-- ===== src/Mission/Finalize/Transactions.antt =====
-- The writer transactions of internal/mission/finalize.go.
use letts.Prelude.Table
use letts.Storage.Rows.{
  RefKind, StagingRef, FinalizePhase, Status, StagingState, Db, FinalizeIntent, CollectedOutput,
  StagingFile, Mission, Result, ok, ◌>>=◌,
}
use letts.Prelude.{
  none, [], ◌+◌, false, some, ◌||◌, pos, if◌then◌else◌, ◌*◌, ◌∷◌, true, List, Bool, ℕ,
}
use letts.Storage.Intents.{delete_finalize_intent, insert_finalize_intent, update_finalize_phase}
use letts.Storage.Missions.{status_eq}
use letts.Storage.Staging.{
  mark_staging_complete_with_path, state_eq, in_phase_b, set_staging, insert_staging,
}
use letts.Storage.Refs.{insert_ref}

abbrev pub in_flight : Mission → Bool
in_flight m = status_eq m.status Status.queued || status_eq m.status Status.running

unfoldable pub finish : FinalizeIntent → ℕ → Mission → Mission
finish i finished m = record m {
  status = Status.done;
  outcome = some i.outcome;
  fail_reason = i.fail_reason;
  fail_message = i.fail_message;
  fail_details = i.fail_details;
  exit_code = i.exit_code;
  signal = i.signal;
  return_value = i.return_value;
  time_finished = some finished;
}

-- the outputs of a mission that is deleting or gone
unfoldable pub discard_outputs : List CollectedOutput → Db → Db
discard_outputs [] db = db
discard_outputs (op ∷ ops) db = discard_outputs ops (
    set_staging db op.staging_id (λ s. in_phase_b s.state)
      (λ s. record s { state = StagingState.deleting; path = op.final_path }))

unfoldable pub complete_outputs : ℕ → List CollectedOutput → Db → Result Db
complete_outputs id [] db = ok db
complete_outputs id (op ∷ ops) db =
    let reference : StagingRef = record {
      mission_id = id;
      staging_id = op.staging_id;
      ref_kind = RefKind.output;
      role = op.role;
    } in
    mark_staging_complete_with_path db op.staging_id op.final_path
    >>= (λ db'. insert_ref db' reference)
    >>= complete_outputs id ops

-- the last transaction: whether the mission is gone, and the new database
unfoldable pub commit_tx : FinalizeIntent → List CollectedOutput → ℕ → Db → Result (Bool × Db)
unfolding finish discard_outputs complete_outputs
commit_tx i outputs finished db =
    if Table.affects (λ m. m.id) i.mission_id in_flight db.missions
    then complete_outputs i.mission_id outputs (record db {
      missions = Table.update (λ m. m.id) i.mission_id in_flight (finish i finished) db.missions;
    })
      >>= (λ db'. ok (false, delete_finalize_intent db' i.mission_id))
    else ok (true, delete_finalize_intent (discard_outputs outputs db) i.mission_id)

abbrev staging_ttl_24h : ℕ
staging_ttl_24h = 24 * 3600 * 1000

abbrev pending_row : ℕ → CollectedOutput → StagingFile
pending_row now_ms op = record {
  staging_id = op.staging_id;
  state = StagingState.pending_output;
  sha256 = op.sha256;
  size = op.size;
  bytes_received = op.size;
  path = op.tmp_path;
  time_created = now_ms;
  time_updated = now_ms;
  time_expires = pos (now_ms + staging_ttl_24h);
  downloaded_at = none;
}

-- Phase A2
unfoldable pub prepare_tx : FinalizeIntent → ℕ → List CollectedOutput → Db → Result (Unit {0} × Db)
prepare_tx i now_ms [] db = insert_finalize_intent db i >>= (λ db'. ok (tt, db'))
prepare_tx i now_ms (op ∷ ops) db =
    insert_staging db (pending_row now_ms op) >>= prepare_tx i now_ms ops

-- Phase B step 1
unfoldable pub committing_tx : ℕ → List CollectedOutput → Db → Result (Unit {0} × Db)
committing_tx id [] db =
    update_finalize_phase db id FinalizePhase.committing >>= (λ db'. ok (tt, db'))
committing_tx id (op ∷ ops) db = committing_tx id ops (
    set_staging db op.staging_id (λ s. state_eq s.state StagingState.pending_output)
      (λ s. record s { state = StagingState.committing }))

-- the intent's row, and its outputs given up
unfoldable pub revert_tx :
    ℕ → (FinalizeIntent → FinalizeIntent) → List CollectedOutput → Db → Result (Unit {0} × Db)
revert_tx id revert [] db =
    ok (
      tt,
      record db { intents = Table.update (λ i. i.mission_id) id (λ i. true) revert db.intents },
    )
revert_tx id revert (op ∷ ops) db =
    revert_tx id revert ops
      (set_staging db op.staging_id (λ s. true) (λ s. record s { state = StagingState.deleting }))
