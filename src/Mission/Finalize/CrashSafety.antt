-- ===== src/Mission/Finalize/CrashSafety.antt =====
-- The fast path of internal/mission/finalize.go, wherever the process dies.
use letts.Prelude.Table
use letts.EventFile.Writer.{
  too_long, done_events_match, scanned, last_done, Appended, Writer, EventFile, Event, Write,
  append_done_idempotent,
}
use letts.EventFile.Writer.Idempotence.{append_done-Settled, Settled, is_success}
use letts.EventFile.Writer.Agreement.{
  append_done_idempotent-Agrees, append_done_idempotent-is_success, Agrees,
}
use letts.Mission.Machine.{left_behind, World, Machine, Host, returned, set_events}
use letts.Storage.Rows.{Result, Db, FinalizeIntent, Mission}
use letts.Storage.Missions.{get_mission}
use letts.Prelude.{
  Bool-cases, zero, inr, inl, ◌⊎◌, ==_refl, false, [], refl, none, arith, suc, true, some, ◌≡◌, ℕ,
}
use letts.EventFile.Json.{Fields}
use letts.Mission.Finalize.Transactions.{complete_outputs, commit_tx, finish, in_flight}
use letts.Storage.Intents.{delete_finalize_intent, get_finalize_intent}
use letts.Mission.Finalize.DoneEvent.{done_event_time_finished, extract_done_fields}
use letts.EventFile.Json.Equality.{HasKeys}
use letts.Mission.Finalize.Commit.{
  is_zero_ttl, recalc_outputs, append_done, finished_ms, commit_finalize, FinalizeConfig,
  append_result,
}

-- the row is done as the intent says, the intent is gone, and its event is in the file
pub record Finished (i : FinalizeIntent) (w : World) : Type 0 where
  pub row : (t : ℕ) × (m : Mission) × (get_mission w.db i.mission_id ≡ some (finish i t m))
  pub no_intent : get_finalize_intent w.db i.mission_id ≡ none
  pub announced :
      (f : EventFile) × (e : Event) × (w.events i.mission_id ≡ some f)
      × (last_done none (scanned f) ≡ some e)
      × (done_events_match e (extract_done_fields i.done_event) ≡ true)

-- the intent is durable, its row is in flight, and the file has no other done event
pub record Pending (i : FinalizeIntent) (w : World) : Type 0 where
  pub row : (m : Mission) × (get_mission w.db i.mission_id ≡ some m) × (in_flight m ≡ true)
  pub unique : Table.HasKey (λ m. m.id) w.db.missions
  pub intent : get_finalize_intent w.db i.mission_id ≡ some i
  pub file :
      (f : EventFile) × (w.events i.mission_id ≡ some f)
      × Agrees (extract_done_fields i.done_event) f

append_result-success :
    (r : Appended) (m : Machine) → is_success r ≡ true → append_result r m ≡ returned tt m
append_result-success (Appended.appended n) m ok = refl
append_result-success Appended.already_done m ok = refl
append_result-success Appended.conflict m ok = absurd (ground arith)
append_result-success Appended.dropped m ok = absurd (ground arith)
append_result-success Appended.failed m ok = absurd (ground arith)

append_done-success :
    (h : Host) (id : ℕ) (ew : Writer) (fields : Fields) (seq n : ℕ) (torn : Write) (w : World)
    (f : EventFile)
    → w.events id ≡ some f
    → is_success (append_done_idempotent h.line_size true Write.complete fields seq (ew, f)).0
      ≡ true
    → append_done h id ew fields seq (record { left = suc n; torn = torn; world = w })
      ≡ returned tt (record {
        left = n;
        torn = torn;
        world =
            set_events id
              (append_done_idempotent h.line_size true Write.complete fields seq (ew, f)).2
              w;
      })
unfolding append_done
append_done-success h id ew fields seq n torn w f there ok = rw there (append_result-success _ _ ok)

-- the database that the last transaction leaves, of a mission without outputs
abbrev finished_db : FinalizeIntent → ℕ → Db → Db
finished_db i t db =
    delete_finalize_intent
      (record db {
        missions = Table.update (λ m. m.id) i.mission_id in_flight (finish i t) db.missions;
      })
      i.mission_id

commit_tx-in_flight :
    (i : FinalizeIntent) (t : ℕ) (db : Db) (m : Mission)
    → Table.HasKey (λ m. m.id) db.missions
    → get_mission db i.mission_id ≡ some m
    → in_flight m ≡ true
    → commit_tx i [] t db ≡ Result.ok (false, finished_db i t db)
unfolding commit_tx complete_outputs get_mission
commit_tx-in_flight i t db m key there active =
    rw (Table.affects-find (λ m. m.id) i.mission_id in_flight db.missions key, there, active) refl

finished_row :
    (i : FinalizeIntent) (t : ℕ) (db : Db) (m : Mission)
    → get_mission db i.mission_id ≡ some m
    → in_flight m ≡ true
    → get_mission (finished_db i t db) i.mission_id ≡ some (finish i t m)
unfolding get_mission delete_finalize_intent finish
finished_row i t db m there active =
    rw
      (
        Table.find-update (λ m. m.id) i.mission_id i.mission_id in_flight (finish i t) db.missions
            (λ r. refl),
        ==_refl i.mission_id,
        there,
        active,
      )
      refl

finished_intent :
    (i : FinalizeIntent) (t : ℕ) (db : Db)
    → get_finalize_intent (finished_db i t db) i.mission_id ≡ none
unfolding get_finalize_intent delete_finalize_intent
finished_intent i t db =
    rw
      (
        Table.find-delete (λ j. j.mission_id) i.mission_id i.mission_id db.intents,
        ==_refl i.mission_id,
      )
      refl

-- what the event of an intent must be, for its line to be written
abbrev pub Fits : Host → Writer → FinalizeIntent → Type 0
Fits h ew i =
    (e : Event)
    → e.fields ≡ extract_done_fields i.done_event
    → too_long ew.limits (h.line_size e) ≡ false

settled :
    (fields : Fields) (a : Appended × Writer × EventFile)
    → Settled fields a
    → is_success a.0 ≡ true
    → (e : Event) × (last_done none (scanned a.2) ≡ some e) × (done_events_match e fields ≡ true)
unfolding Settled
settled fields a s ok = s ok

module _ (h : Host) (cfg : FinalizeConfig) (ew : Writer) (i : FinalizeIntent) (w : World)
    (f : EventFile) where
  abbrev fields : Fields
  fields = extract_done_fields i.done_event

  abbrev after : Write → EventFile
  after io = (append_done_idempotent h.line_size true io fields i.done_seq (ew, f)).2

  abbrev time : ℕ
  time = finished_ms h (done_event_time_finished fields)

  -- With two steps left, the commit of a pending intent finishes it.
  pub commit_finalize-completes :
      (n : ℕ) (torn : Write)
      → HasKeys fields
      → ew.pending_newline ≡ false
      → f.tail ≡ none
      → Fits h ew i
      → Pending i w
      → w.events i.mission_id ≡ some f
      → Agrees fields f
      → (w' : World) × (commit_finalize h cfg ew i []
            (record { left = suc (suc n); torn = torn; world = w })
          ≡ returned tt (record { left = n; torn = torn; world = w' }))
        × Finished i w'
  unfolding commit_finalize recalc_outputs
  commit_finalize-completes n torn keys p t fits pending there agrees =
      let ok =
        append_done_idempotent-is_success h.line_size true fields i.done_seq ew f p fits agrees in
      let (m, row, active) = pending.row in
      let (e, found, match) =
        settled fields _
          (append_done-Settled h.line_size true Write.complete fields i.done_seq ew f keys (λ q. t))
          ok in
      (
        record (set_events i.mission_id (after Write.complete) w) { db = finished_db i time w.db },
        rw
            (
              append_done-success h i.mission_id ew fields i.done_seq (suc n) torn w f there ok,
              commit_tx-in_flight i time w.db m pending.unique row active,
            )
            (elim (Bool-cases (is_zero_ttl cfg.ttl)) [ inl z ↦ rw z refl | inr z ↦ rw z refl ]),
        record {
          row = (time, m, finished_row i time w.db m row active);
          no_intent = finished_intent i time w.db;
          announced = (after Write.complete, e, rw (==_refl i.mission_id) refl, found, match);
        },
      )

  after-Pending :
      (io : Write)
      → HasKeys fields
      → ew.pending_newline ≡ false
      → f.tail ≡ none
      → Pending i w
      → Agrees fields f
      → Pending i (set_events i.mission_id (after io) w)
  after-Pending io keys p t pending agrees = record {
    row = pending.row;
    unique = pending.unique;
    intent = pending.intent;
    file = (
      after io,
      rw (==_refl i.mission_id) refl,
      append_done_idempotent-Agrees h.line_size true io fields i.done_seq ew f keys p t agrees,
    );
  }

  -- Wherever the process dies in it, and whatever becomes of the line that is being written, the
  -- commit of a pending intent leaves it pending or finished.
  pub commit_finalize-crash :
      (n : ℕ) (torn : Write)
      → HasKeys fields
      → ew.pending_newline ≡ false
      → f.tail ≡ none
      → Fits h ew i
      → Pending i w
      → w.events i.mission_id ≡ some f
      → Agrees fields f
      → let w' =
          left_behind
            (commit_finalize h cfg ew i [] (record { left = n; torn = torn; world = w })) in
        Pending i w' ⊎ Finished i w'
  unfolding commit_finalize
  commit_finalize-crash zero torn keys p t fits pending there agrees =
      inl (rw there (after-Pending torn keys p t pending agrees))
  commit_finalize-crash (suc zero) torn keys p t fits pending there agrees =
      let ok =
        append_done_idempotent-is_success h.line_size true fields i.done_seq ew f p fits agrees in
      rw (append_done-success h i.mission_id ew fields i.done_seq 0 torn w f there ok)
        (inl (after-Pending Write.complete keys p t pending agrees))
  commit_finalize-crash (suc (suc n)) torn keys p t fits pending there agrees =
      let (w', run, finished) =
        commit_finalize-completes n torn keys p t fits pending there agrees in
      rw run (inr finished)
