-- ===== src/Storage/Missions.antt =====
-- internal/storage/missions.go: the statements on the missions table. A statement that changes
-- rows returns the new database, or the error that the function returns.
pub mod Pick
pub mod Transitions
mod Tests
use mathlib.Core.Option
use letts.Prelude.{
  ℕ, String, Bool, true, false, not, ◌&&◌, ◌||◌, List, [], ◌∷◌, ◌++◌, Option, none, some, ◌==◌,
  str_eq, ltb, if◌then◌else◌, is_some, any, filter, pos,
}
use letts.Prelude.Table
use letts.Storage.Rows.{
  Status, queued, running, done, Mission, FinalizeIntent, StagingFile, StagingRef, Db, not_found,
  constraint, Result, ok, err,
}

abbrev pub status_eq : Status → Status → Bool
status_eq Status.queued Status.queued = true
status_eq Status.running Status.running = true
status_eq Status.done Status.done = true
status_eq Status.deleting Status.deleting = true
status_eq _ _ = false

unfoldable pub get_mission : Db → ℕ → Option Mission
get_mission db id = Table.find (λ m. m.id) id db.missions

-- the primary key, and the foreign key of restarted_from
unfoldable pub insert_mission : Db → Mission → Result Db
unfolding get_mission
insert_mission db m =
    if is_some (get_mission db m.id) then err constraint else elim m.restarted_from [
      | none ↦ ok (record db { missions = db.missions ++ (m ∷ []) })
      | some parent ↦
          if is_some (get_mission db parent)
          then ok (record db { missions = db.missions ++ (m ∷ []) })
          else err constraint
    ]

abbrev pub has_intent : Db → ℕ → Bool
has_intent db id = any (λ (i : FinalizeIntent). i.mission_id == id) db.intents

-- WHERE status='queued' AND lane=? AND NOT EXISTS (a finalize intent of the row)
unfoldable pub is_eligible : Db → String → Mission → Bool
is_eligible db lane m =
    status_eq m.status queued && (str_eq m.lane lane && not (has_intent db m.id))

-- the order of (time_created, mission_id)
unfoldable pub is_before : Mission → Mission → Bool
is_before a b =
    ltb a.time_created b.time_created || (a.time_created == b.time_created && ltb a.id b.id)

abbrev pub older_of : Mission → Option Mission → Option Mission
older_of m none = some m
older_of m (some n) = if is_before n m then some n else some m

-- ORDER BY time_created, mission_id LIMIT 1
unfoldable pub oldest : List Mission → Option Mission
oldest [] = none
oldest (m ∷ ms) = older_of m (oldest ms)

unfoldable pub pick_queued_for_lane : Db → String → Option Mission
unfolding is_eligible oldest is_before
pick_queued_for_lane db lane = oldest (filter (is_eligible db lane) db.missions)

-- one row's UPDATE: an error if no row is affected
abbrev pub update_mission : Db → ℕ → (Mission → Bool) → (Mission → Mission) → Result Db
update_mission db id guard f =
    if Table.affects (λ m. m.id) id guard db.missions
    then ok (record db { missions = Table.update (λ m. m.id) id guard f db.missions })
    else err not_found

unfoldable pub mark_running : Db → ℕ → ℕ → ℕ → ℕ → ℕ → Result Db
mark_running db id now_ms pid pgid proc_start =
    update_mission db id (λ m. status_eq m.status queued)
      (λ m. record m {
        status = running;
        time_started = some now_ms;
        pid = some pid;
        pgid = some pgid;
        proc_starttime = some proc_start;
      })

unfoldable pub update_running_pid : Db → ℕ → ℕ → ℕ → ℕ → Result Db
update_running_pid db id pid pgid proc_start =
    update_mission db id (λ m. status_eq m.status running)
      (λ m. record m { pid = some pid; pgid = some pgid; proc_starttime = some proc_start })

unfoldable pub update_running_pid_and_time_started : Db → ℕ → ℕ → ℕ → ℕ → ℕ → Result Db
update_running_pid_and_time_started db id pid pgid proc_start time_started_ms =
    update_mission db id (λ m. status_eq m.status running)
      (λ m. record m {
        pid = some pid;
        pgid = some pgid;
        proc_starttime = some proc_start;
        time_started = some time_started_ms;
      })

abbrev pub mem_id : ℕ → List ℕ → Bool
mem_id id ids = any (λ i. i == id) ids

-- restarted_from … ON DELETE SET NULL
abbrev pub unlinked : List ℕ → Mission → Mission
unlinked ids m = elim m.restarted_from [
  | none ↦ m
  | some parent ↦ if mem_id parent ids then record m { restarted_from = none } else m
]

abbrev pub clear_restarted : List ℕ → List Mission → List Mission
clear_restarted ids [] = []
clear_restarted ids (m ∷ ms) = unlinked ids m ∷ clear_restarted ids ms

-- the trigger staging_recalc_after_ref_delete, for each reference that the cascade removes
abbrev pub zero_expires : Db → List ℕ → List StagingFile → List StagingFile
zero_expires db ids [] = []
zero_expires db ids (s ∷ ss) =
    (if any (λ (r : StagingRef). mem_id r.mission_id ids && r.staging_id == s.staging_id) db.refs
      then record s { time_expires = pos 0 }
      else s)
    ∷ zero_expires db ids ss

-- DELETE … WHERE mission_id IN (…), with what the schema's foreign keys and its trigger do
unfoldable pub delete_missions : Db → List ℕ → Db
delete_missions db [] = db
delete_missions db (i ∷ is) =
    let ids = i ∷ is in
    record {
      missions = clear_restarted ids (filter (λ m. not (mem_id m.id ids)) db.missions);
      staging = zero_expires db ids db.staging;
      refs = filter (λ r. not (mem_id r.mission_id ids)) db.refs;
      intents = filter (λ i. not (mem_id i.mission_id ids)) db.intents;
    }
