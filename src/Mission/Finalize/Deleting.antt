-- ===== src/Mission/Finalize/Deleting.antt =====
-- The last transaction of internal/mission/finalize.go when the mission is deleting or gone.
use letts.Prelude.Table
use letts.Mission.Finalize.Transactions.{commit_tx, discard_outputs, in_flight}
use letts.Storage.Rows.{
  Status, Mission, Db, FinalizeIntent, CollectedOutput, StagingFile, StagingState, Result,
}
use letts.Prelude.{
  Option-cases, ==_iff, ==_refl, sym, absurd_eq, false, inr, inl, Bool-cases, ◌==◌, if◌then◌else◌,
  ◌∙◌, refl, true, [], ◌∷◌, none, ◌≡◌, ℕ, some, List,
}
use letts.Storage.Staging.{in_phase_b, set_staging, get_staging}
use mathlib.Core.List.{Memᴰ}
use letts.Storage.Intents.{get_finalize_intent, delete_finalize_intent}
use mathlib.Core.Path.{subst}
use letts.Storage.Missions.{get_mission}

discard_outputs-tables :
    (ops : List CollectedOutput) (db : Db)
    → ((discard_outputs ops db).missions ≡ db.missions) × ((discard_outputs ops db).refs ≡ db.refs)
unfolding discard_outputs
discard_outputs-tables [] db = (refl, refl)
discard_outputs-tables (op ∷ ops) db = discard_outputs-tables ops _

abbrev give_up : CollectedOutput → StagingFile → StagingFile
give_up op s =
    if in_phase_b s.state
    then record s { state = StagingState.deleting; path = op.final_path }
    else s

abbrev discard_one : CollectedOutput → Db → Db
discard_one op db =
    set_staging db op.staging_id (λ s. in_phase_b s.state)
      (λ s. record s { state = StagingState.deleting; path = op.final_path })

get_staging-discard_one :
    (op : CollectedOutput) (db : Db) (id : ℕ) (s : StagingFile)
    → get_staging db id ≡ some s
    → get_staging (discard_one op db) id
      ≡ (if op.staging_id == id then some (give_up op s) else some s)
unfolding get_staging
get_staging-discard_one op db id s there =
    Table.find-update (λ r. r.staging_id) op.staging_id id (λ r. in_phase_b r.state)
      (λ r. record r { state = StagingState.deleting; path = op.final_path }) db.staging (λ r. refl)
    ∙ elim (Bool-cases (op.staging_id == id)) [
      | inl e ↦
          rw
            (
              e,
              subst (λ k. Table.find (λ r. r.staging_id) k db.staging ≡ some s)
                  (sym ((==_iff op.staging_id id).0 e)) there,
            )
            refl
      | inr e ↦ rw (e, there) refl
    ]

-- a deleting row stays as it is
discard_outputs-deleting :
    (ops : List CollectedOutput) (db : Db) (id : ℕ) (s : StagingFile)
    → get_staging db id ≡ some s
    → s.state ≡ StagingState.deleting
    → get_staging (discard_outputs ops db) id ≡ some s
unfolding discard_outputs
discard_outputs-deleting [] db id s there d = there
discard_outputs-deleting (op ∷ ops) db id s there d =
    discard_outputs-deleting ops (discard_one op db) id s
      (get_staging-discard_one op db id s there
        ∙ elim (Bool-cases (op.staging_id == id)) [ inl e ↦ rw (e, d) refl | inr e ↦ rw e refl ])
      d

discard_outputs-held :
    (ops : List CollectedOutput) (db : Db) (op : CollectedOutput) (s : StagingFile)
    → Memᴰ op ops
    → get_staging db op.staging_id ≡ some s
    → in_phase_b s.state ≡ true
    → (s' : StagingFile) × (get_staging (discard_outputs ops db) op.staging_id ≡ some s')
      × (s'.state ≡ StagingState.deleting)
unfolding discard_outputs
discard_outputs-held [] db op s mem there held = elim mem [ ]
discard_outputs-held (o ∷ ops) db op s mem there held =
    elim (Bool-cases (o.staging_id == op.staging_id)) [
      | inl same ↦ (
        give_up o s,
        discard_outputs-deleting ops (discard_one o db) op.staging_id (give_up o s)
            (get_staging-discard_one o db op.staging_id s there ∙ rw same refl) (rw held refl),
        rw held refl,
      )
      | inr other ↦
          discard_outputs-held ops (discard_one o db) op s (later mem other)
            (get_staging-discard_one o db op.staging_id s there ∙ rw other refl) held
    ]
  where
    later : Memᴰ op (o ∷ ops) → (o.staging_id == op.staging_id) ≡ false → Memᴰ op ops
    later (Memᴰ.head e) other = absurd_eq _ (rw e (==_refl o.staging_id)) other
    later (Memᴰ.tail m) other = m

gone-affects :
    (id : ℕ) (db : Db)
    → Table.HasKey (λ m. m.id) db.missions
    → ((m : Mission) → get_mission db id ≡ some m → m.status ≡ Status.deleting)
    → Table.affects (λ m. m.id) id in_flight db.missions ≡ false
unfolding get_mission
gone-affects id db key gone =
    Table.affects-find (λ m. m.id) id in_flight db.missions key
    ∙ elim (Option-cases (get_mission db id)) [
      | inl e ↦ rw e refl
      | inr (m, e) ↦ rw (e, gone m e) refl
    ]

-- Once a mission is deleting or gone, the last transaction of its finalize does not bring it back:
-- it commits no mission and no reference, it deletes the intent, and every output that the finalize
-- still holds is left deleting, for the staging collector.
pub commit_tx-deleting :
    (i : FinalizeIntent) (outputs : List CollectedOutput) (finished : ℕ) (db : Db)
    → Table.HasKey (λ m. m.id) db.missions
    → ((m : Mission) → get_mission db i.mission_id ≡ some m → m.status ≡ Status.deleting)
    → (db' : Db) × (commit_tx i outputs finished db ≡ Result.ok (true, db'))
      × (db'.missions ≡ db.missions)
      × (db'.refs ≡ db.refs)
      × (get_finalize_intent db' i.mission_id ≡ none)
      × ((op : CollectedOutput) (s : StagingFile)
          → Memᴰ op outputs
          → get_staging db op.staging_id ≡ some s
          → in_phase_b s.state ≡ true
          → (s' : StagingFile) × (get_staging db' op.staging_id ≡ some s')
            × (s'.state ≡ StagingState.deleting))
unfolding commit_tx delete_finalize_intent get_finalize_intent get_staging
commit_tx-deleting i outputs finished db key gone =
    let (missions, refs) = discard_outputs-tables outputs db in
    (
      delete_finalize_intent (discard_outputs outputs db) i.mission_id,
      rw (gone-affects i.mission_id db key gone) refl,
      missions,
      refs,
      rw
          (
            Table.find-delete (λ j. j.mission_id) i.mission_id i.mission_id
                (discard_outputs outputs db).intents,
            ==_refl i.mission_id,
          )
          refl,
      λ op s mem there held. discard_outputs-held outputs db op s mem there held,
    )
