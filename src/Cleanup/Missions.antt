-- ===== src/Cleanup/Missions.antt =====
-- internal/cleanup/missions.go: the mission cleaner. Its batches run one after the other; what a
-- batch meets (its time, the cancellation, the statements that fail) is a value of `Batch`.
pub mod Retention
pub mod Sweep
pub mod Safety
pub mod Progress
mod Tests
use letts.Storage.Rows.{Kind, Outcome, Status, Mission, StagingRef, Db, Result, ok, err}
use letts.Prelude.Table
use letts.Prelude.{
  suc, negsuc, true, ◌+◌, ◌&&◌, some, add_int64, not, [], pos, ◌∷◌, take, ltb, filter, none, map,
  false, ℕ, ℤ, Option, Bool, if◌then◌else◌, List,
}
use letts.Storage.Refs.{milliseconds, TtlPolicy, recalc_staging_ttl}
use letts.Storage.Missions.{has_intent, mem_id, status_eq, delete_missions}

-- the durations of the configuration, in nanoseconds
pub record Config : Type 0 where
  pub ttl : TtlPolicy
  pub lost_cleanup_grace : ℕ

pub data Suffix : Type 0 where
  stdout stderr combined events : Suffix

pub record OutputPath : Type 0 where
  pub mission_id : ℕ
  pub suffix : Suffix

-- the files of the missions below the data directory: output/<shard>/<id><suffix>, work/<id>
pub record Disk : Type 0 where
  pub output : List OutputPath
  pub work : List ℕ

pub record World : Type 0 where
  pub db : Db
  pub disk : Disk

pub record Batch : Type 0 where
  pub now_ms : ℕ
  pub canceled : Bool
  pub query_deleting_fails : Bool
  pub query_new_fails : Bool
  pub mark_fails : Bool
  pub delete_fails : Bool
  pub recalc_fails : ℕ → Bool

-- time_finished < now - ttl, where the TTL may have wrapped to a negative duration
unfoldable pub is_past : ℕ → ℤ → ℕ → Bool
is_past now_ms (pos ttl) finished = ltb (finished + milliseconds ttl) now_ms
is_past now_ms (negsuc ttl) finished = ltb finished (now_ms + milliseconds (suc ttl))

-- the cutoff of the row's kind and outcome, as the disjuncts of the query choose it
abbrev pub cutoff_ttl : Config → Kind → Outcome → ℤ
cutoff_ttl c Kind.mission Outcome.success = pos c.ttl.mission_success
cutoff_ttl c Kind.exec Outcome.success = pos c.ttl.exec_success
cutoff_ttl c Kind.mission Outcome.lost = add_int64 c.ttl.mission_failed c.lost_cleanup_grace
cutoff_ttl c Kind.exec Outcome.lost = add_int64 c.ttl.exec_failed c.lost_cleanup_grace
cutoff_ttl c Kind.mission _ = pos c.ttl.mission_failed
cutoff_ttl c Kind.exec _ = pos c.ttl.exec_failed

abbrev is_retired : Config → ℕ → Kind → Option ℕ → Option Outcome → Bool
is_retired c now_ms kind (some finished) (some o) = is_past now_ms (cutoff_ttl c kind o) finished
is_retired c now_ms kind _ _ = false

-- WHERE status='deleting' AND NOT EXISTS (a finalize intent of the row)
unfoldable pub is_orphan_deleting : Db → Mission → Bool
is_orphan_deleting db m = status_eq m.status Status.deleting && not (has_intent db m.id)

-- the WHERE of the query for new victims
unfoldable pub is_new_victim : Config → ℕ → Db → Mission → Bool
is_new_victim c now_ms db m =
    status_eq m.status Status.done
    && (is_retired c now_ms m.kind m.time_finished m.outcome && not (has_intent db m.id))

abbrev finished_before : Option ℕ → Option ℕ → Bool
finished_before (some a) (some b) = ltb a b
finished_before _ _ = false

-- ORDER BY time_finished: rows that finished at the same time stay in the order of the table
unfoldable pub insert_by_finished : Mission → List Mission → List Mission
insert_by_finished m [] = m ∷ []
insert_by_finished m (n ∷ ns) =
    let rest = insert_by_finished m ns in
    if finished_before n.time_finished m.time_finished then n ∷ rest else m ∷ n ∷ ns

unfoldable pub order_by_finished : List Mission → List Mission
order_by_finished [] = []
order_by_finished (m ∷ ms) = insert_by_finished m (order_by_finished ms)

abbrev pub ids_of : List Mission → List ℕ
ids_of ms = map (λ m. m.id) ms

unfoldable pub deleting_ids : Db → List ℕ
deleting_ids db = ids_of (take 1000 (filter (is_orphan_deleting db) db.missions))

unfoldable pub new_ids : Config → ℕ → Db → List ℕ
new_ids c now_ms db =
    ids_of (take 1000 (order_by_finished (filter (is_new_victim c now_ms db) db.missions)))

abbrev pub to_deleting : Mission → Mission
to_deleting m = record m { status = Status.deleting }

-- UPDATE missions SET status='deleting' WHERE mission_id=? AND status='done', for each id
unfoldable pub mark_deleting : List ℕ → List Mission → List Mission
mark_deleting [] ms = ms
mark_deleting (id ∷ ids) ms =
    mark_deleting ids
      (Table.update (λ m. m.id) id (λ m. status_eq m.status Status.done) to_deleting ms)

-- the new victims and the database that they are marked in
abbrev pub marked : Batch → Db → List ℕ → Option (List ℕ × Db)
marked b db [] = some ([], db)
marked b db (i ∷ is) =
    if b.mark_fails
    then none
    else some (i ∷ is, record db { missions = mark_deleting (i ∷ is) db.missions })

-- the rows that are deleting already come first
abbrev pub picked : Config → Batch → Db → List ℕ → Option (List ℕ × Db)
picked c b db [] = if b.query_new_fails then none else marked b db (new_ids c b.now_ms db)
picked c b db (i ∷ is) = some (i ∷ is, db)

-- an error ends the sweep
unfoldable pub pick_victims : Config → Batch → Db → Option (List ℕ × Db)
pick_victims c b db = if b.query_deleting_fails then none else picked c b db (deleting_ids db)

-- os.Remove of the four output files, os.RemoveAll of the work directory, for each victim
unfoldable pub remove_files : List ℕ → Disk → Disk
remove_files victims d = record {
  output = filter (λ p. not (mem_id p.mission_id victims)) d.output;
  work = filter (λ id. not (mem_id id victims)) d.work;
}

-- SELECT DISTINCT staging_id … WHERE mission_id IN (…)
unfoldable pub distinct : List ℕ → List ℕ
distinct [] = []
distinct (x ∷ xs) = let rest = distinct xs in if mem_id x rest then rest else x ∷ rest

unfoldable pub staging_ids_for_missions : Db → List ℕ → List ℕ
unfolding distinct
staging_ids_for_missions db victims =
    distinct
      (map (λ r. r.staging_id) (filter (λ (r : StagingRef). mem_id r.mission_id victims) db.refs))

abbrev pub recalculated_db : Db → Result (ℤ × Db) → Db
recalculated_db db (ok (exp, db')) = db'
recalculated_db db (err e) = db

-- RecalcStagingTTL in a transaction for each file: an error leaves the file for the next cycle
unfoldable pub recalc_all : TtlPolicy → (ℕ → Bool) → List ℕ → Db → Db
unfolding recalc_staging_ttl
recalc_all p fails [] db = db
recalc_all p fails (id ∷ ids) db =
    recalc_all p fails ids
      (if fails id then db else recalculated_db db (recalc_staging_ttl db id p))

unfoldable pub process_batch : Config → Batch → List ℕ → World → World
unfolding remove_files staging_ids_for_missions delete_missions recalc_all
process_batch c b victims w =
    let disk = remove_files victims w.disk in
    if b.delete_fails then record { db = w.db; disk = disk } else record {
      db =
          recalc_all c.ttl b.recalc_fails (staging_ids_for_missions w.db victims)
            (delete_missions w.db victims);
      disk = disk;
    }

-- one turn of the loop of RunOnce: whether the sweep goes on, and the world after it
pub record Turn : Type 0 where
  pub continues : Bool
  pub world : World

abbrev pub stop : World → Turn
stop w = record { continues = false; world = w }

abbrev pub turn : Config → Batch → World → Option (List ℕ × Db) → Turn
turn c b w none = stop w
turn c b w (some ([], db)) = stop (record w { db = db })
turn c b w (some (i ∷ is, db)) = record {
  continues = true;
  world = process_batch c b (i ∷ is) (record w { db = db });
}

unfoldable pub run_batch : Config → Batch → World → Turn
run_batch c b w = if b.canceled then stop w else turn c b w (pick_victims c b w.db)

abbrev pub max_batches_per_sweep : ℕ → ℕ
max_batches_per_sweep configured = if ltb 0 configured then configured else 1000

-- RunOnce: the batches of one sweep, as many as the limit allows
unfoldable pub run_once : Config → List Batch → World → World
unfolding run_batch
run_once c [] w = w
run_once c (b ∷ bs) w =
    let t = run_batch c b w in
    let rest = run_once c bs t.world in if t.continues then rest else t.world
