-- ===== src/Mission/QueuedKill/Safety.antt =====
-- KillQueued of internal/mission/queued_kill.go, wherever the process dies.
use letts.EventFile.Writer.{EventFile, Write, open_file}
use letts.EventFile.Json.Equality.{HasKeys, IsMap}
use letts.Mission.Machine.{World, Host, returned, set_events, left_behind, ◌>>◌, transaction}
use letts.Mission.Finalize.CrashSafety.{Finished}
use letts.Mission.Finalize.Prepared.{
  InFlight, Recoverable, commit_finalize-prepared, commit_finalize-Finished, opened_file,
  open_events-there, insert_finalize_intent-InFlight,
}
use letts.Storage.Rows.{Result, Status, FinalizeIntent}
use letts.Mission.QueuedKill.{
  no_config, kill_intent, kill_queued, kill_tx, kill_message, reason_text, kill_fields,
}
use letts.EventFile.Json.{Value, Fields, has_key}
use letts.Prelude.{
  Bool-cases, zero, inr, ◌∷◌, inl, sym, [], ◌++◌, some, ◌+◌, suc, refl, false, true, str_eq, not,
  pos, Bool, ◌≡◌, ℕ, String,
}
use letts.Mission.Outcome.{ExternalKillReason}
use letts.Mission.Finalize.DoneEvent.{field_if, with_seq_and_event, extract_done_fields}
use letts.Mission.Finalize.DoneEvent.Keys.{extract_done_fields-with_seq_and_event}
use mathlib.Core.Path.{subst}
use letts.Mission.Finalize.Commit.{commit_finalize}

kill_fields-stored :
    (h : Host) (lane : String) (reason : ExternalKillReason) (now_ms seq : ℕ)
    → let fields = kill_fields h lane reason now_ms in
      (extract_done_fields (with_seq_and_event fields seq) ≡ fields) × HasKeys fields
unfolding kill_fields IsMap has_key
kill_fields-stored h lane reason now_ms seq =
    stored (not (str_eq (kill_message h lane reason) "")) (kill_message h lane reason)
  where
    fields_if : Bool → String → Fields
    fields_if b message = Fields.field "time_finished" (Value.number (pos now_ms)) (
        Fields.field "outcome" (Value.string "killed") (
          Fields.field "exit_code" (Value.number (pos 0)) (
            Fields.field "fail_reason" (Value.string (reason_text reason))
              (field_if b "fail_message" (Value.string message) Fields.end))))

    stored :
        (b : Bool) (message : String)
        → (extract_done_fields (with_seq_and_event (fields_if b message) seq) ≡ fields_if b message)
          × HasKeys (fields_if b message)
    stored true message = (
      extract_done_fields-with_seq_and_event _ seq refl refl,
      (refl, tt, (refl, tt, (refl, tt, (refl, tt, (refl, tt, tt))))),
    )
    stored false message = (
      extract_done_fields-with_seq_and_event _ seq refl refl,
      (refl, tt, (refl, tt, (refl, tt, (refl, tt, tt)))),
    )

kill_tx-queued :
    (i : FinalizeIntent) (w : World) (x : InFlight i.mission_id w)
    → x.row.0.status ≡ Status.queued
    → kill_tx i w.db ≡ Result.ok (tt, record w.db { intents = w.db.intents ++ (i ∷ []) })
unfolding kill_tx
kill_tx-queued i w x queued =
    rw (x.row.1, queued, x.no_intent, insert_finalize_intent-InFlight i w x) refl

-- the intent of a kill
abbrev pub kill_intent_of : Host → ℕ → String → ExternalKillReason → ℕ → EventFile → FinalizeIntent
kill_intent_of h id lane reason now_ms f =
    kill_intent h id lane reason now_ms ((open_file f).0.seq + 1)

kill_queued-from_intent :
    (h : Host) (id : ℕ) (lane : String) (reason : ExternalKillReason) (now_ms n : ℕ) (torn : Write)
    (w : World) (f : EventFile)
    → str_eq (reason_text reason) "" ≡ false
    → w.events id ≡ some f
    → let i = kill_intent_of h id lane reason now_ms f in
      kill_queued h id lane reason now_ms (record { left = n; torn = torn; world = w })
      ≡ (transaction (kill_tx i) >> commit_finalize h no_config (open_file f).0 i [])
          (record { left = n; torn = torn; world = set_events id (opened_file f) w })
unfolding kill_queued
kill_queued-from_intent h id lane reason now_ms n torn w f named there =
    rw (named, open_events-there id (record { left = n; torn = torn; world = w }) f there) refl

killed :
    (h : Host) (i : FinalizeIntent) (n : ℕ) (torn : Write) (w : World) (x : InFlight i.mission_id w)
    → x.row.0.status ≡ Status.queued
    → HasKeys (extract_done_fields i.done_event)
    → Recoverable i w (
        left_behind (
          (transaction (kill_tx i) >> commit_finalize h no_config (open_file x.file.0).0 i [])
            (record {
              left = n;
              torn = torn;
              world = set_events i.mission_id (opened_file x.file.0) w;
            })))
killed h i zero torn w x queued keys = inl refl
killed h i (suc n) torn w x queued keys =
    rw (kill_tx-queued i w x queued) (inr (commit_finalize-prepared h no_config i n torn w x keys))

-- KillQueued of a mission that is queued, that has no intent and no done event: wherever the process
-- dies, and whatever becomes of the line that is being written, either the database is as it was, or
-- the intent is pending, so that a repair finishes it, or it is finished.
pub kill_queued-Recoverable :
    (h : Host) (id : ℕ) (lane : String) (reason : ExternalKillReason) (now_ms n : ℕ) (torn : Write)
    (w : World) (x : InFlight id w)
    → x.row.0.status ≡ Status.queued
    → Recoverable (kill_intent_of h id lane reason now_ms x.file.0) w (
        left_behind
          (kill_queued h id lane reason now_ms (record { left = n; torn = torn; world = w })))
unfolding kill_intent kill_queued
kill_queued-Recoverable h id lane reason now_ms n torn w x queued =
    let (f, there, no_done) = x.file in
    let (same, keys) = kill_fields-stored h lane reason now_ms ((open_file f).0.seq + 1) in
    elim (Bool-cases (str_eq (reason_text reason) "")) [
      | inl none_given ↦ rw none_given (inl refl)
      | inr named ↦ rw (kill_queued-from_intent h id lane reason now_ms n torn w f named there) (
          killed h (kill_intent_of h id lane reason now_ms f) n torn w x queued
            (subst HasKeys (sym same) keys))
    ]

-- KillQueued of such a mission, with a reason, returns without an error after three durable steps,
-- and has finished: the row is done and killed, the intent is gone and the done event is in the
-- events file.
pub kill_queued-Finished :
    (h : Host) (id : ℕ) (lane : String) (reason : ExternalKillReason) (now_ms n : ℕ) (torn : Write)
    (w : World) (x : InFlight id w)
    → str_eq (reason_text reason) "" ≡ false
    → x.row.0.status ≡ Status.queued
    → (w' : World) × (kill_queued h id lane reason now_ms
          (record { left = suc (suc (suc n)); torn = torn; world = w })
        ≡ returned tt (record { left = n; torn = torn; world = w' }))
      × Finished (kill_intent_of h id lane reason now_ms x.file.0) w'
unfolding kill_intent
kill_queued-Finished h id lane reason now_ms n torn w x named queued =
    let (f, there, no_done) = x.file in
    let (same, keys) = kill_fields-stored h lane reason now_ms ((open_file f).0.seq + 1) in
    let i = kill_intent_of h id lane reason now_ms f in
    let (w', run, finished) =
      commit_finalize-Finished h no_config i n torn w x (subst HasKeys (sym same) keys) in
    (
      w',
      rw
          (
            kill_queued-from_intent h id lane reason now_ms (suc (suc (suc n))) torn w f named
                there,
            kill_tx-queued i w x queued,
          )
          run,
      finished,
    )
