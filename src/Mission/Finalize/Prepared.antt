-- ===== src/Mission/Finalize/Prepared.antt =====
-- Finalize of internal/mission/finalize.go without outputs, wherever the process dies.
use letts.Prelude.Table
use letts.EventFile.Writer.{
  last_done, new_writer, scanned, EventFile, Write, terminate_torn_tail, open_file,
}
use letts.EventFile.Writer.Agreement.{Agrees}
use letts.Mission.Machine.{
  attempt, remove_files, ◌>>=◌, ◌>>◌, World, Machine, Host, returned, set_events, left_behind,
}
use letts.Mission.Finalize.{prepared_or_dropped, new_intent, FinalizeInputs, finalize, is_success}
use letts.Mission.Finalize.CrashSafety.{
  commit_finalize-completes, Pending, Finished, commit_finalize-crash,
}
use letts.Storage.Rows.{Result, FinalizeIntent, Mission}
use letts.Storage.Intents.{get_finalize_intent, insert_finalize_intent}
use letts.Storage.Missions.{get_mission}
use letts.Prelude.{
  sym, zero, String, suc, inr, not, Bool-cases, ◌+◌, none, true, inl, ◌⊎◌, refl, ==_refl, [], some,
  ◌≡◌, ◌∷◌, ℕ, ◌++◌,
}
use letts.EventFile.Json.{Fields}
use letts.EventFile.Json.Equality.{IsMap, HasKeys}
use mathlib.Core.List.{append-nil}
use letts.Mission.Finalize.DoneEvent.{cap_outcome, extract_done_fields}
use letts.Mission.Finalize.Transactions.{prepare_tx, in_flight}
use letts.Mission.Finalize.DoneEvent.Keys.{build_done_fields-stored}
use mathlib.Core.Path.{subst}
use letts.Mission.Finalize.Commit.{commit_finalize, FinalizeConfig, open_events}

abbrev pub opened_file : EventFile → EventFile
opened_file f = (open_file f).1

pub open_events-there :
    (id : ℕ) (m : Machine) (f : EventFile)
    → m.world.events id ≡ some f
    → open_events id m
      ≡ returned (open_file f).0 (record m { world = set_events id (opened_file f) m.world })
unfolding open_events
open_events-there id m f there = rw there refl

pub open_file-Agrees :
    (fields : Fields) (f : EventFile) → Agrees fields f → Agrees fields (opened_file f)
unfolding open_file terminate_torn_tail scanned
open_file-Agrees fields f a = rw (append-nil (scanned f)) a

-- a mission that may be finalized: in flight, without an intent, and with no done event in its file
pub record InFlight (id : ℕ) (w : World) : Type 0 where
  pub row : (m : Mission) × (get_mission w.db id ≡ some m) × (in_flight m ≡ true)
  pub unique : Table.HasKey (λ m. m.id) w.db.missions
  pub no_intent : get_finalize_intent w.db id ≡ none
  pub file : (f : EventFile) × (w.events id ≡ some f) × (last_done none (scanned f) ≡ none)

-- the world in which the intent is durable
abbrev pub prepared_world : FinalizeIntent → EventFile → World → World
prepared_world i f w = record (set_events i.mission_id (opened_file f) w) {
  db = record w.db { intents = w.db.intents ++ (i ∷ []) };
}

pub insert_finalize_intent-InFlight :
    (i : FinalizeIntent) (w : World)
    → InFlight i.mission_id w
    → insert_finalize_intent w.db i ≡ Result.ok (record w.db { intents = w.db.intents ++ (i ∷ []) })
unfolding insert_finalize_intent
insert_finalize_intent-InFlight i w x = let (m, row, active) = x.row in rw (x.no_intent, row) refl

pub prepared-Pending :
    (i : FinalizeIntent) (w : World) (x : InFlight i.mission_id w)
    → Pending i (prepared_world i x.file.0 w)
unfolding get_mission get_finalize_intent
prepared-Pending i w x =
    let (f, there, no_done) = x.file in
    record {
      row = x.row;
      unique = x.unique;
      intent =
          Table.find-append_one (λ j. j.mission_id) i.mission_id w.db.intents i x.no_intent refl;
      file = (opened_file f, rw (==_refl i.mission_id) refl, open_file-Agrees _ f (inl no_done));
    }

-- the commit that follows phase A2
pub commit_finalize-prepared :
    (h : Host) (cfg : FinalizeConfig) (i : FinalizeIntent) (n : ℕ) (torn : Write) (w : World)
    (x : InFlight i.mission_id w)
    → HasKeys (extract_done_fields i.done_event)
    → let w' = left_behind (
        commit_finalize h cfg
          (open_file x.file.0).0
          i
          []
          (record { left = n; torn = torn; world = prepared_world i x.file.0 w })) in
      Pending i w' ⊎ Finished i w'
unfolding open_file new_writer terminate_torn_tail
commit_finalize-prepared h cfg i n torn w x keys =
    let (f, there, no_done) = x.file in
    commit_finalize-crash h cfg (open_file f).0 i (prepared_world i f w) (opened_file f) n torn keys
      refl refl (λ e same. refl) (prepared-Pending i w x) (rw (==_refl i.mission_id) refl)
      (open_file-Agrees _ f (inl no_done))

-- the intent of a Finalize without outputs
abbrev pub final_intent : Host → FinalizeConfig → FinalizeInputs → EventFile → FinalizeIntent
final_intent h cfg in' f =
    new_intent h in' (cap_outcome h.format cfg.sizes in'.outcome) [] ((open_file f).0.seq + 1)

-- what a death of the process leaves: nothing of it, a pending intent, or a finished one
abbrev pub Recoverable : FinalizeIntent → World → World → Type 0
Recoverable i before after = (after.db ≡ before.db) ⊎ (Pending i after ⊎ Finished i after)

prepare_tx-nil :
    (i : FinalizeIntent) (now_ms : ℕ) (w : World)
    → InFlight i.mission_id w
    → prepare_tx i now_ms [] w.db
      ≡ Result.ok (tt, record w.db { intents = w.db.intents ++ (i ∷ []) })
unfolding prepare_tx
prepare_tx-nil i now_ms w x = rw (insert_finalize_intent-InFlight i w x) refl

finalize-from_prepare :
    (h : Host) (cfg : FinalizeConfig) (in' : FinalizeInputs) (n : ℕ) (torn : Write) (w : World)
    (f : EventFile)
    → in'.outputs ≡ []
    → w.events in'.mission_id ≡ some f
    → let i = final_intent h cfg in' f in
      finalize h cfg in' (record { left = n; torn = torn; world = w })
      ≡ (attempt (prepare_tx i in'.now_ms []) >>= (λ prepared.
            prepared_or_dropped [] prepared >> commit_finalize h cfg (open_file f).0 i []))
          (record { left = n; torn = torn; world = set_events in'.mission_id (opened_file f) w })
unfolding finalize remove_files
finalize-from_prepare h cfg in' n torn w f none_out there =
    elim (Bool-cases (not (is_success (cap_outcome h.format cfg.sizes in'.outcome).outcome))) [
      | inl d ↦
          rw
            (
              d,
              none_out,
              open_events-there in'.mission_id (record { left = n; torn = torn; world = w }) f
                  there,
            )
            refl
      | inr d ↦
          rw
            (
              d,
              none_out,
              open_events-there in'.mission_id (record { left = n; torn = torn; world = w }) f
                  there,
            )
            refl
    ]

committed_prepare :
    (h : Host) (cfg : FinalizeConfig) (i : FinalizeIntent) (now_ms n : ℕ) (torn : Write) (w : World)
    (x : InFlight i.mission_id w)
    → HasKeys (extract_done_fields i.done_event)
    → Recoverable i w (
        left_behind (
          (attempt (prepare_tx i now_ms []) >>= (λ prepared.
              prepared_or_dropped [] prepared >> commit_finalize h cfg (open_file x.file.0).0 i []))
            (record {
              left = n;
              torn = torn;
              world = set_events i.mission_id (opened_file x.file.0) w;
            })))
committed_prepare h cfg i now_ms zero torn w x keys = inl refl
committed_prepare h cfg i now_ms (suc n) torn w x keys =
    rw (prepare_tx-nil i now_ms w x) (inr (commit_finalize-prepared h cfg i n torn w x keys))

-- Finalize of a mission that is in flight, that has no intent and no done event, and whose outcome
-- has no outputs, where decoded raw JSON holds each key of a map once: wherever the process dies,
-- and whatever becomes of the line that is being written, either the database is as it was, or the
-- intent is pending, so that a repair finishes it, or it is finished.
pub finalize-Recoverable :
    (h : Host) (cfg : FinalizeConfig) (in' : FinalizeInputs) (n : ℕ) (torn : Write) (w : World)
    (x : InFlight in'.mission_id w)
    → in'.outputs ≡ []
    → ((s : String) → IsMap (h.parse s))
    → Recoverable
        (final_intent h cfg in' x.file.0)
        w
        (left_behind (finalize h cfg in' (record { left = n; torn = torn; world = w })))
unfolding new_intent
finalize-Recoverable h cfg in' n torn w x none_out maps =
    let (f, there, no_done) = x.file in
    let (same, keys) =
      build_done_fields-stored h.parse (cap_outcome h.format cfg.sizes in'.outcome) [] in'.now_ms
        in'.time_started_ms in'.progress_dropped ((open_file f).0.seq + 1) maps in
    rw (finalize-from_prepare h cfg in' n torn w f none_out there) (
      committed_prepare h cfg (final_intent h cfg in' f) in'.now_ms n torn w x
        (subst HasKeys (sym same) keys))

pub commit_finalize-Finished :
    (h : Host) (cfg : FinalizeConfig) (i : FinalizeIntent) (n : ℕ) (torn : Write) (w : World)
    (x : InFlight i.mission_id w)
    → HasKeys (extract_done_fields i.done_event)
    → (w' : World) × (commit_finalize h cfg
          (open_file x.file.0).0
          i
          []
          (record { left = suc (suc n); torn = torn; world = prepared_world i x.file.0 w })
        ≡ returned tt (record { left = n; torn = torn; world = w' }))
      × Finished i w'
unfolding open_file new_writer terminate_torn_tail
commit_finalize-Finished h cfg i n torn w x keys =
    let (f, there, no_done) = x.file in
    commit_finalize-completes h cfg (open_file f).0 i (prepared_world i f w) (opened_file f) n torn
      keys refl refl (λ e same. refl) (prepared-Pending i w x) (rw (==_refl i.mission_id) refl)
      (open_file-Agrees _ f (inl no_done))

-- Finalize of a mission that is in flight, that has no intent and no done event, and whose outcome
-- has no outputs, where decoded raw JSON holds each key of a map once, returns without an error
-- after three durable steps, and has finished: the row is done with the outcome, the intent is
-- gone and the done event is in the events file.
pub finalize-Finished :
    (h : Host) (cfg : FinalizeConfig) (in' : FinalizeInputs) (n : ℕ) (torn : Write) (w : World)
    (x : InFlight in'.mission_id w)
    → in'.outputs ≡ []
    → ((s : String) → IsMap (h.parse s))
    → (w' : World) × (finalize h cfg in'
          (record { left = suc (suc (suc n)); torn = torn; world = w })
        ≡ returned tt (record { left = n; torn = torn; world = w' }))
      × Finished (final_intent h cfg in' x.file.0) w'
unfolding new_intent
finalize-Finished h cfg in' n torn w x none_out maps =
    let (f, there, no_done) = x.file in
    let (same, keys) =
      build_done_fields-stored h.parse (cap_outcome h.format cfg.sizes in'.outcome) [] in'.now_ms
        in'.time_started_ms in'.progress_dropped ((open_file f).0.seq + 1) maps in
    let i = final_intent h cfg in' f in
    let (w', run, finished) =
      commit_finalize-Finished h cfg i n torn w x (subst HasKeys (sym same) keys) in
    (
      w',
      rw
          (
            finalize-from_prepare h cfg in' (suc (suc (suc n))) torn w f none_out there,
            prepare_tx-nil i in'.now_ms w x,
          )
          run,
      finished,
    )
