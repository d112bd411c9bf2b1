-- ===== src/Cleanup/StagingGc/Tests.antt =====
-- A cycle over three files, run by the model, and the theorem on it.
use letts.Prelude.Table
use letts.Prelude.{refl}
use letts.Cleanup.StagingGc.{
  tombstone, grace_period_of, batch_size_of, unlink_entries, tombstone_row, deleting_rows, each_row,
  expire_row, expired_rows, unlink_old_tombstones, has_path, tombstone_deleting, expire_ttls,
  drain_needs_recalc, run_once, World, Cycle, Config,
}
use letts.Storage.Rows.{StagingState, StagingFile}
use letts.Prelude.{arith, true, none, max_int64, ℤ, pos, some, ◌∷◌, false, String, ◌≡◌, ◌==◌, [], ℕ}
use letts.Storage.Staging.{mark_staging_deleting_if_expired, get_staging}
use letts.Cleanup.StagingGc.Survival.{SameFile}
use letts.Cleanup.StagingGc.Cycles.{InUse, run_once-Spared}
use letts.Storage.Refs.{find_staging_needing_recalc}
use letts.Cleanup.Missions.{recalc_all}

abbrev file : ℕ → StagingState → String → ℤ → StagingFile
file n state path expires = record {
  staging_id = n;
  state = state;
  sha256 = "ab";
  size = 3;
  bytes_received = 3;
  path = path;
  time_created = 10;
  time_updated = 10;
  time_expires = expires;
  downloaded_at = none;
}

-- 7 never expires, 8 has expired, 9 is an upload that is still locked
abbrev referenced_file : StagingFile
referenced_file = file 7 StagingState.complete "staging/7" (pos max_int64)

abbrev world : World
world = record {
  db = record {
    missions = [];
    staging =
        referenced_file
        ∷ file 8 StagingState.complete "staging/8" (pos 50)
        ∷ file 9 StagingState.uploading "staging/9" (pos 50)
        ∷ [];
    refs = [];
    intents = [];
  };
  disk = record { sources = "staging/7" ∷ "staging/8" ∷ "staging/9" ∷ []; tombstones = [] };
}

abbrev config : Config
config = record {
  ttl = record {
    mission_success = 1000000000;
    mission_failed = 10000000000;
    exec_success = 1000000;
    exec_failed = 2000000;
    staging_ttl = 5000000;
    download_grace = 1000000;
  };
  batch_size = 0;
  grace_period = 0;
}

abbrev cycle : Cycle
cycle = record {
  now = 100000000000000;
  is_locked = λ id. id == 9;
  recalc_query_fails = false;
  expire_query_fails = false;
  deleting_query_fails = false;
  read_dir_fails = false;
  recalc_fails = λ id. false;
  mark_fails = λ id. false;
  mkdir_fails = false;
  rename_fails = λ id. false;
  unlink_fails = λ id. false;
  delete_fails = λ id. false;
}

cycle_runs : run_once config cycle world ≡ (record {
  db = record world.db {
    staging =
        referenced_file
        ∷ file 8 StagingState.deleting "staging/8" (pos 50)
        ∷ file 9 StagingState.uploading "staging/9" (pos 50)
        ∷ [];
  };
  disk = record {
    sources = "staging/7" ∷ "staging/9" ∷ [];
    tombstones = tombstone 8 100000000000000 ∷ [];
  };
})
unfolding run_once drain_needs_recalc expire_ttls tombstone_deleting unlink_old_tombstones
    expired_rows expire_row each_row deleting_rows tombstone_row unlink_entries batch_size_of
    grace_period_of find_staging_needing_recalc recalc_all mark_staging_deleting_if_expired
    get_staging Table.find Table.update Table.affects
cycle_runs = refl

run_once-Spared_example :
    (s' : StagingFile) × (get_staging (run_once config cycle world).db 7 ≡ some s')
    × SameFile referenced_file s'
    × (has_path "staging/7" (run_once config cycle world).disk.sources ≡ true)
unfolding get_staging Table.find
run_once-Spared_example =
    run_once-Spared config cycle 7 referenced_file world (refl, (refl, (refl, tt))) refl refl
      (refl, (refl, (refl, tt))) refl (InUse.unexpired refl) (omega arith)
