-- ===== src/Cleanup/StagingGc.antt =====
-- internal/cleanup/staging_gc.go: the garbage collector of staging files. What a cycle meets of the
-- rest of the system (the time, the upload locks, calls that fail) is a value of `Cycle`.
pub mod Survival
pub mod Reaping
pub mod Cycles
mod Tests
use letts.Prelude.Table
use letts.Prelude.{◌||◌, ◌==◌, ◌+◌, none, some}
use letts.Storage.Rows.{err, ok, Result, StagingState, StagingFile, Db}
use letts.Prelude.{
  ◌&&◌, false, str_eq, not, [], ltb, filter, Bool, take, ◌∷◌, some, any, ℕ, List, if◌then◌else◌,
  String, Option,
}
use letts.Storage.Refs.{milliseconds, find_staging_needing_recalc, TtlPolicy}
use letts.Cleanup.Missions.{recalc_all}
use letts.Storage.Staging.{
  staging_affects, in_use, has_expired, state_eq, mark_staging_deleting_if_expired,
}

-- an entry of the tombstone directory: its name as a staging id, none if it is not a UUIDv7
pub record Entry : Type 0 where
  pub name : Option ℕ
  pub is_dir : Bool
  pub mtime : ℕ

-- the paths of files below the data directory, and the entries of the tombstone directory (none
-- if it does not exist)
pub record Disk : Type 0 where
  pub sources : List String
  pub tombstones : List Entry

pub record World : Type 0 where
  pub db : Db
  pub disk : Disk

-- now is in nanoseconds
pub record Cycle : Type 0 where
  pub now : ℕ
  pub is_locked : ℕ → Bool
  pub recalc_query_fails : Bool
  pub expire_query_fails : Bool
  pub deleting_query_fails : Bool
  pub read_dir_fails : Bool
  pub recalc_fails : ℕ → Bool
  pub mark_fails : ℕ → Bool
  pub mkdir_fails : Bool
  pub rename_fails : ℕ → Bool
  pub unlink_fails : ℕ → Bool
  pub delete_fails : ℕ → Bool

pub record Config : Type 0 where
  pub ttl : TtlPolicy
  pub batch_size : ℕ
  pub grace_period : ℕ

unfoldable pub batch_size_of : Config → ℕ
batch_size_of g = if ltb 0 g.batch_size then g.batch_size else 1000

unfoldable pub grace_period_of : Config → ℕ
grace_period_of g = if ltb 0 g.grace_period then g.grace_period else 60000000000

-- drainNeedsRecalc: the rows with the sentinel 0 get a fresh expiry
unfoldable pub drain_needs_recalc : Config → Cycle → Db → Db
unfolding recalc_all find_staging_needing_recalc
drain_needs_recalc g y db =
    if y.recalc_query_fails
    then db
    else recalc_all g.ttl y.recalc_fails (find_staging_needing_recalc db (batch_size_of g)) db

-- WHERE time_expires > 0 AND time_expires <= ? AND state IN ('uploading','complete') LIMIT ?
unfoldable pub expired_rows : Config → Cycle → Db → List StagingFile
expired_rows g y db =
    take (batch_size_of g)
      (filter (λ s. has_expired (milliseconds y.now) s.time_expires && in_use s.state) db.staging)

abbrev pub marked : Db → Result Db → Db
marked db (ok db') = db'
marked db (err e) = db

-- one row: an upload in progress is skipped
unfoldable pub expire_row : Cycle → StagingFile → Db → Db
unfolding mark_staging_deleting_if_expired
expire_row y s db =
    if state_eq s.state StagingState.uploading && y.is_locked s.staging_id
    then db
    else if y.mark_fails s.staging_id
    then db
    else marked db (mark_staging_deleting_if_expired db s.staging_id (milliseconds y.now))

-- the rows of a query, one after the other
unfoldable pub each_row : (StagingFile → World → World) → List StagingFile → World → World
each_row f [] w = w
each_row f (s ∷ ss) w = each_row f ss (f s w)

unfoldable pub expire_ttls : Config → Cycle → World → World
unfolding expired_rows expire_row each_row
expire_ttls g y w =
    if y.expire_query_fails
    then w
    else each_row (λ s v. record v { db = expire_row y s v.db }) (expired_rows g y w.db) w

-- WHERE state='deleting' LIMIT ?
unfoldable pub deleting_rows : Config → Db → List StagingFile
deleting_rows g db =
    take (batch_size_of g) (filter (λ s. state_eq s.state StagingState.deleting) db.staging)

abbrev pub is_tombstone : ℕ → Entry → Bool
is_tombstone id e = elim e.name [ none ↦ false | some n ↦ n == id ]

abbrev pub has_path : String → List String → Bool
has_path p ps = any (λ q. str_eq q p) ps

abbrev pub without_path : String → List String → List String
without_path p ps = filter (λ q. not (str_eq q p)) ps

abbrev pub delete_row : Db → ℕ → Db
delete_row db id = record db { staging = Table.delete (λ s. s.staging_id) id db.staging }

abbrev pub tombstone : ℕ → ℕ → Entry
tombstone id now = record { name = some id; is_dir = false; mtime = now }

-- one row whose state was deleting: skip a tombstone of an earlier pass, drop the row of a missing
-- file, or rename the file and set its time
unfoldable pub tombstone_row : Cycle → StagingFile → World → World
tombstone_row y s w =
    if any (is_tombstone s.staging_id) w.disk.tombstones
    then w
    else if not (has_path s.path w.disk.sources)
    then (if y.delete_fails s.staging_id then w else record w { db = delete_row w.db s.staging_id })
    else if y.rename_fails s.staging_id
    then w
    else record w {
      disk = record {
        sources = without_path s.path w.disk.sources;
        tombstones = tombstone s.staging_id y.now ∷ w.disk.tombstones;
      };
    }

unfoldable pub tombstone_deleting : Config → Cycle → World → World
unfolding deleting_rows tombstone_row each_row
tombstone_deleting g y w =
    if y.deleting_query_fails || y.mkdir_fails
    then w
    else each_row (tombstone_row y) (deleting_rows g w.db) w

-- info.ModTime().After(now.Add(-grace))
abbrev pub in_grace : Config → Cycle → Entry → Bool
in_grace g y e = ltb y.now (e.mtime + grace_period_of g)

abbrev pub delete_deleting : Db → ℕ → Db
delete_deleting db id =
    if staging_affects db id (λ s. state_eq s.state StagingState.deleting)
    then delete_row db id
    else db

-- the file of the tombstone goes, then the row, if it is still deleting
unfoldable pub unlink_tombstone : Cycle → ℕ → World → World
unlink_tombstone y id w = if y.unlink_fails id then w else record {
  db = if y.delete_fails id then w.db else delete_deleting w.db id;
  disk = record w.disk { tombstones = filter (λ e. not (is_tombstone id e)) w.disk.tombstones };
}

-- one entry of the listing: directories, foreign names and tombstones in their grace are left
abbrev pub unlink_entry : Config → Cycle → Entry → Option ℕ → World → World
unlink_entry g y e none w = w
unlink_entry g y e (some id) w = if e.is_dir || in_grace g y e then w else unlink_tombstone y id w

unfoldable pub unlink_entries : Config → Cycle → List Entry → World → World
unlink_entries g y [] w = w
unlink_entries g y (e ∷ es) w = unlink_entries g y es (unlink_entry g y e e.name w)

unfoldable pub unlink_old_tombstones : Config → Cycle → World → World
unfolding unlink_entries
unlink_old_tombstones g y w = if y.read_dir_fails then w else unlink_entries g y w.disk.tombstones w

-- RunOnce: the expiries are recalculated before they are read
unfoldable pub run_once : Config → Cycle → World → World
unfolding drain_needs_recalc expire_ttls tombstone_deleting unlink_old_tombstones
run_once g y w =
    unlink_old_tombstones g y
      (tombstone_deleting g y (expire_ttls g y (record w { db = drain_needs_recalc g y w.db })))
