-- ===== src/Cleanup/Missions/Sweep.antt =====
-- A sweep of the mission cleaner, batch by batch (RunOnce of internal/cleanup/missions.go).
use mathlib.Core.Option
use letts.Prelude.Table
use letts.Storage.Rows.{Status, Db, FinalizeIntent, Mission}
use letts.Prelude.{
  sym, ap, some, refl, Bool, ◌∙◌, ◌==◌, any, false, if_cases, [], ==_iff, ◌∷◌, not, none, filter,
  if◌then◌else◌, arith, ◌≡◌, ℕ, List,
}
use letts.Storage.Missions.{
  has_intent, delete_missions, get_mission, status_eq, unlinked, mem_id, clear_restarted,
}
use letts.Cleanup.Missions.{
  staging_ids_for_missions, Disk, remove_files, process_batch, Batch, World, Config,
  recalculated_db, to_deleting, mark_deleting, recalc_all, OutputPath,
}
use letts.Prelude.Table.{find-update, HasKey-update, HasKey}
use letts.Storage.Refs.{TtlPolicy, recalc_staging_ttl}
use letts.Storage.Missions.Transitions.{MissionKeys}
use mathlib.Core.Path.{subst}

-- the row m, except that its parent may have been deleted
abbrev pub SameRow : Mission → Mission → Type 0
SameRow m m' = m' ≡ record m { restarted_from = m'.restarted_from }

unlinked-id : (ids : List ℕ) (m : Mission) → (unlinked ids m).id ≡ m.id
unlinked-id ids m = ground arith

unlinked-SameRow : (ids : List ℕ) (m : Mission) → SameRow m (unlinked ids m)
unlinked-SameRow ids m = ground arith

abbrev pub after_delete : List ℕ → List Mission → List Mission
after_delete ids ms = clear_restarted ids (filter (λ m. not (mem_id m.id ids)) ms)

module _ (ids : List ℕ) where
  find-after_delete :
      (j : ℕ) (ms : List Mission)
      → Table.find (λ m. m.id) j (after_delete ids ms)
        ≡ (if mem_id j ids then none else Option.map (unlinked ids) (Table.find (λ m. m.id) j ms))
  unfolding Table.find
  find-after_delete j [] = ground arith
  find-after_delete j (m ∷ ms) =
      ground (arith, find-after_delete j ms, unlinked-id ids m, ==_iff m.id j)

  MissionKeys-after_delete :
      (ms : List Mission)
      → HasKey (λ (m : Mission). m.id) ms
      → HasKey (λ (m : Mission). m.id) (after_delete ids ms)
  MissionKeys-after_delete [] u = tt
  MissionKeys-after_delete (m ∷ ms) u =
      if_cases (λ l. HasKey (λ (m : Mission). m.id) (clear_restarted ids l)) (not (mem_id m.id ids))
        _ _
        (λ t. (
          rw (unlinked-id ids m) (rw (find-after_delete m.id ms) (ground (arith, u.0))),
          MissionKeys-after_delete ms u.1,
        ))
        (λ t. MissionKeys-after_delete ms u.1)

  any_intent-filter :
      (j : ℕ) (is : List FinalizeIntent)
      → mem_id j ids ≡ false
      → any
          (λ (i : FinalizeIntent). i.mission_id == j)
          (filter (λ (i : FinalizeIntent). not (mem_id i.mission_id ids)) is)
        ≡ any (λ (i : FinalizeIntent). i.mission_id == j) is
  any_intent-filter j [] h = refl
  any_intent-filter j (i ∷ is) h = ground (arith, any_intent-filter j is h, ==_iff i.mission_id j)

  output-filter :
      (j : ℕ) (ps : List OutputPath)
      → mem_id j ids ≡ false
      → filter
          (λ (p : OutputPath). p.mission_id == j)
          (filter (λ (p : OutputPath). not (mem_id p.mission_id ids)) ps)
        ≡ filter (λ (p : OutputPath). p.mission_id == j) ps
  output-filter j [] h = refl
  output-filter j (p ∷ ps) h = ground (arith, output-filter j ps h, ==_iff p.mission_id j)

pub recalc_all-tables :
    (p : TtlPolicy) (fails : ℕ → Bool) (ids : List ℕ) (db : Db)
    → ((recalc_all p fails ids db).missions ≡ db.missions)
      × ((recalc_all p fails ids db).intents ≡ db.intents)
unfolding recalc_all recalc_staging_ttl
recalc_all-tables p fails [] db = (refl, refl)
recalc_all-tables p fails (id ∷ ids) db =
    let step = if fails id then db else recalculated_db db (recalc_staging_ttl db id p) in
    let ih : ((recalc_all p fails ids step).missions ≡ step.missions)
        × ((recalc_all p fails ids step).intents ≡ step.intents) =
      recalc_all-tables p fails ids step in
    let one : (step.missions ≡ db.missions) × (step.intents ≡ db.intents) = ground arith in
    (ih.0 ∙ one.0, ih.1 ∙ one.1)

-- the mission j, the intent of it and its output files, as a sweep finds and keeps them
pub record Kept (j : ℕ) (m : Mission) (i : Bool) (kept : List OutputPath) (w : World) : Type 0 where
  pub row : (m' : Mission) × (get_mission w.db j ≡ some m') × SameRow m m'
  pub keys : MissionKeys w.db
  pub intent : has_intent w.db j ≡ i
  pub files : filter (λ (p : OutputPath). p.mission_id == j) w.disk.output ≡ kept

pub mark_deleting-other :
    (j : ℕ) (ids : List ℕ) (ms : List Mission)
    → mem_id j ids ≡ false
    → Table.find (λ m. m.id) j (mark_deleting ids ms) ≡ Table.find (λ m. m.id) j ms
unfolding mark_deleting
mark_deleting-other j [] ms h = refl
mark_deleting-other j (id ∷ ids) ms h =
    mark_deleting-other j ids _ (ground arith)
    ∙ rw
        (find-update (λ (m : Mission). m.id) id j (λ m. status_eq m.status Status.done) to_deleting
          ms (λ r. refl))
        (ground (arith, ==_iff id j))

pub mark_deleting-keys :
    (ids : List ℕ) (ms : List Mission)
    → HasKey (λ (m : Mission). m.id) ms
    → HasKey (λ (m : Mission). m.id) (mark_deleting ids ms)
unfolding mark_deleting
mark_deleting-keys [] ms u = u
mark_deleting-keys (id ∷ ids) ms u =
    mark_deleting-keys ids _
      (HasKey-update (λ (m : Mission). m.id) id _ to_deleting ms (λ r. refl) u)

module _ (j : ℕ) (m : Mission) (i : Bool) (kept : List OutputPath) where
  Kept-tables :
      (db db' : Db) (disk : Disk)
      → db'.missions ≡ db.missions
      → db'.intents ≡ db.intents
      → Kept j m i kept (record { db = db; disk = disk })
      → Kept j m i kept (record { db = db'; disk = disk })
  unfolding get_mission
  Kept-tables db db' disk e f k = record {
    row = (k.row.0, ap (Table.find (λ (m : Mission). m.id) j) e ∙ k.row.1, k.row.2);
    keys = subst (HasKey (λ (m : Mission). m.id)) (sym e) k.keys;
    intent = ap (any (λ (x : FinalizeIntent). x.mission_id == j)) f ∙ k.intent;
    files = k.files;
  }

  delete_missions-Kept :
      (v : ℕ) (vs : List ℕ) (w : World)
      → mem_id j (v ∷ vs) ≡ false
      → Kept j m i kept w
      → Kept j m i kept
          (record { db = delete_missions w.db (v ∷ vs); disk = remove_files (v ∷ vs) w.disk })
  unfolding delete_missions remove_files get_mission
  delete_missions-Kept v vs w h k =
      let (m', found, same) = k.row in
      record {
        row = (
          unlinked (v ∷ vs) m',
          find-after_delete (v ∷ vs) j w.db.missions ∙ rw (h, found) refl,
          unlinked-SameRow (v ∷ vs) m'
              ∙ ap
                  (λ (r : Mission). record r {
                    restarted_from = (unlinked (v ∷ vs) m').restarted_from;
                  })
                  same,
        );
        keys = MissionKeys-after_delete (v ∷ vs) w.db.missions k.keys;
        intent = any_intent-filter (v ∷ vs) j w.db.intents h ∙ k.intent;
        files = output-filter (v ∷ vs) j w.disk.output h ∙ k.files;
      }

  pub process_batch-Kept :
      (c : Config) (b : Batch) (v : ℕ) (vs : List ℕ) (w : World)
      → mem_id j (v ∷ vs) ≡ false
      → Kept j m i kept w
      → Kept j m i kept (process_batch c b (v ∷ vs) w)
  unfolding process_batch remove_files
  process_batch-Kept c b v vs w h k =
      if_cases (Kept j m i kept) b.delete_fails _ _
        (λ t. record {
          row = k.row;
          keys = k.keys;
          intent = k.intent;
          files = output-filter (v ∷ vs) j w.disk.output h ∙ k.files;
        })
        (λ t.
          let deleted = delete_missions w.db (v ∷ vs) in
          let same : ((recalc_all c.ttl b.recalc_fails (staging_ids_for_missions w.db (v ∷ vs))
                  deleted).missions
                ≡ deleted.missions)
              × ((recalc_all c.ttl b.recalc_fails (staging_ids_for_missions w.db (v ∷ vs))
                    deleted).intents
                  ≡ deleted.intents) =
            recalc_all-tables c.ttl b.recalc_fails (staging_ids_for_missions w.db (v ∷ vs))
              deleted in
          Kept-tables deleted _ _ same.0 same.1 (delete_missions-Kept v vs w h k))
