-- ===== src/Cleanup/DiskScan.antt =====
-- internal/cleanup/disk_scan.go: the scanner that removes files whose row is gone. A name is read as
-- the id that it carries, with the suffix of an output file or of a temporary staging file, or is
-- foreign. Times are nanoseconds.
pub mod Rows
mod Tests
use letts.Prelude.{
  false, ◌+◌, is_some, String, ◌&&◌, ◌||◌, if◌then◌else◌, filter, not, ltb, ℕ, Bool, List, none,
  some,
}
use letts.Storage.Rows.{Db}
use letts.Storage.Missions.{get_mission}
use letts.Storage.Staging.{get_staging}
use letts.Cleanup.Missions.{Suffix}

pub data Name : Type 0 where
  output_file : ℕ → Suffix → Name
  work_dir : ℕ → Name
  staging_file : ℕ → Bool → Name
  foreign : String → Name

pub record Entry : Type 0 where
  pub name : Name
  pub is_dir : Bool
  pub mtime : ℕ

-- the entries below output/, work/ and staging/
pub record Tree : Type 0 where
  pub output : List Entry
  pub work : List Entry
  pub staging : List Entry

-- lookups and removals that fail
pub record Faults : Type 0 where
  pub mission_query_fails : ℕ → Bool
  pub staging_query_fails : ℕ → Bool
  pub remove_fails : Name → Bool

-- a lookup that fails errs on the side of keeping the file
unfoldable pub mission_exists : Faults → Db → ℕ → Bool
unfolding get_mission
mission_exists y db id = y.mission_query_fails id || is_some (get_mission db id)

unfoldable pub staging_exists : Faults → Db → ℕ → Bool
unfolding get_staging
staging_exists y db id = y.staging_query_fails id || is_some (get_staging db id)

abbrev pub is_orphan_output : Faults → Db → Name → Bool
is_orphan_output y db (output_file id s) = not (mission_exists y db id)
is_orphan_output y db _ = false

abbrev pub is_orphan_work : Faults → Db → Name → Bool
is_orphan_work y db (work_dir id) = not (mission_exists y db id)
is_orphan_work y db _ = false

abbrev pub is_orphan_staging : Faults → Db → Name → Bool
is_orphan_staging y db (staging_file id tmp) = not (staging_exists y db id)
is_orphan_staging y db _ = false

unfoldable pub skip_recent_of : ℕ → ℕ
skip_recent_of configured = if ltb 0 configured then configured else 300000000000

-- info.ModTime().After(cutoff)
abbrev pub is_recent : ℕ → ℕ → Entry → Bool
is_recent now skip e = ltb now (e.mtime + skip_recent_of skip)

-- the entries that stay, where `is_candidate` is the test of the walk
unfoldable pub remove_orphans :
    (Name → Bool) → (Entry → Bool) → (Name → Bool) → List Entry → List Entry
remove_orphans is_orphan is_candidate remove_fails es =
    filter (λ (e : Entry). not (is_candidate e && is_orphan e.name) || remove_fails e.name) es

-- RunOnce
unfoldable pub scan : Faults → ℕ → ℕ → Db → Tree → Tree
unfolding remove_orphans mission_exists staging_exists skip_recent_of
scan y now skip db t = record {
  output =
      remove_orphans (is_orphan_output y db) (λ e. not e.is_dir && not (is_recent now skip e))
        y.remove_fails t.output;
  work =
      remove_orphans (is_orphan_work y db) (λ e. e.is_dir && not (is_recent now skip e))
        y.remove_fails t.work;
  staging =
      remove_orphans (is_orphan_staging y db) (λ e. not e.is_dir && not (is_recent now skip e))
        y.remove_fails t.staging;
}
