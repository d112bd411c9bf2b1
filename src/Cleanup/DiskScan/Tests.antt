-- ===== src/Cleanup/DiskScan/Tests.antt =====
-- A tree with a file of a staging row, an orphan and a foreign file, and the theorem on it.
use letts.Prelude.{refl}
use letts.Prelude.Table
use letts.Cleanup.DiskScan.{
  foreign, staging_file, staging_exists, mission_exists, output_file, Entry, remove_orphans, Faults,
  Name, Tree,
}
use letts.Storage.Rows.{StagingState, Db}
use letts.Storage.Refs.{TtlPolicy}
use letts.Cleanup.DiskScan.Rows.{sweep_orphans-SameKnown, SameKnown}
use letts.Repair.Orphans.{sweep_orphans}
use letts.Prelude.{true, ◌≡◌, none, ◌∷◌, pos, false, ◌==◌, []}
use letts.Cleanup.Missions.{Suffix}
use letts.Storage.Staging.{get_staging}

abbrev db : Db
db = record {
  missions = [];
  staging =
      record {
        staging_id = 7;
        state = StagingState.complete;
        sha256 = "ab";
        size = 3;
        bytes_received = 3;
        path = "staging/7";
        time_created = 10;
        time_updated = 10;
        time_expires = pos 20;
        downloaded_at = none;
      }
      ∷ [];
  refs = [];
  intents = [];
}

abbrev entry : Name → Entry
entry n = record { name = n; is_dir = false; mtime = 5 }

abbrev tree : Tree
tree = record {
  output = entry (output_file 3 Suffix.stdout) ∷ [];
  work = [];
  staging =
      entry (staging_file 7 false) ∷ entry (staging_file 8 true) ∷ entry (foreign "README") ∷ [];
}

abbrev faults : Faults
faults = record {
  mission_query_fails = λ id. id == 3;
  staging_query_fails = λ id. false;
  remove_fails = λ n. false;
}

abbrev policy : TtlPolicy
policy = record {
  mission_success = 1;
  mission_failed = 1;
  exec_success = 1;
  exec_failed = 1;
  staging_ttl = 1;
  download_grace = 1;
}

-- the lookup of mission 3 fails, so its file stays; the file of 8 goes
sweep_runs : (sweep_orphans policy faults false (λ id. false) db tree).tree ≡ (record {
  output = entry (output_file 3 Suffix.stdout) ∷ [];
  work = [];
  staging = entry (staging_file 7 false) ∷ entry (foreign "README") ∷ [];
})
unfolding sweep_orphans remove_orphans mission_exists staging_exists get_staging Table.find
sweep_runs = refl

sweep_orphans-SameKnown_example :
    SameKnown db (sweep_orphans policy faults false (λ id. false) db tree).tree tree
sweep_orphans-SameKnown_example = sweep_orphans-SameKnown faults db policy false (λ id. false) tree
