-- ===== src/Storage/Intents.antt =====
-- internal/storage/intents.go: the statements on the finalize intents.
use letts.Prelude.Table
use letts.Storage.Rows.{Db, FinalizeIntent, FinalizePhase, Result, ok, err, not_found, constraint}
use letts.Storage.Missions.{get_mission}
use letts.Prelude.{
  [], ◌∷◌, ◌++◌, not, false, ◌||◌, filter, true, Option, is_some, Bool, List, if◌then◌else◌, ℕ,
}

unfoldable pub get_finalize_intent : Db → ℕ → Option FinalizeIntent
get_finalize_intent db id = Table.find (λ i. i.mission_id) id db.intents

-- the primary key, and the foreign key of the mission
unfoldable pub insert_finalize_intent : Db → FinalizeIntent → Result Db
unfolding get_finalize_intent
insert_finalize_intent db i =
    if is_some (get_finalize_intent db i.mission_id) || not (is_some (get_mission db i.mission_id))
    then err constraint
    else ok (record db { intents = db.intents ++ (i ∷ []) })

unfoldable pub update_finalize_phase : Db → ℕ → FinalizePhase → Result Db
update_finalize_phase db id phase =
    if Table.affects (λ i. i.mission_id) id (λ i. true) db.intents
    then ok (record db {
      intents =
          Table.update (λ i. i.mission_id) id (λ i. true) (λ i. record i { phase = phase })
            db.intents;
    })
    else err not_found

unfoldable pub delete_finalize_intent : Db → ℕ → Db
delete_finalize_intent db id = record db {
  intents = Table.delete (λ i. i.mission_id) id db.intents;
}

abbrev pub phase_eq : FinalizePhase → FinalizePhase → Bool
phase_eq FinalizePhase.prepared FinalizePhase.prepared = true
phase_eq FinalizePhase.committing FinalizePhase.committing = true
phase_eq _ _ = false

unfoldable pub list_finalize_intents : Db → FinalizePhase → List FinalizeIntent
list_finalize_intents db phase = filter (λ i. phase_eq i.phase phase) db.intents
