-- ===== src/Storage/Refs/Tests.antt =====
-- A running mission and a finished one that share a file, and the theorems on them.
use letts.Prelude.Table
use letts.Storage.Rows.{
  ok, Kind, Outcome, RefKind, StagingRef, Status, Mission, StagingFile, Db, StagingState,
}
use letts.Storage.Refs.{
  scan_mission, orphan_exp, scan_missions, join_missions, new_exp, recalc_staging_ttl, TtlPolicy,
  referencing,
}
use letts.Prelude.{refl, false, add_int64, ◌≡◌, [], Option, some, ◌∷◌, ℤ, max_int64, none, ℕ, pos}
use letts.Storage.Missions.{get_mission}
use letts.Storage.Staging.{get_staging}

abbrev row : ℕ → Status → Option Outcome → Option ℕ → Mission
row n st o finished = record {
  id = n;
  kind = Kind.mission;
  lane = "a";
  mission_name = "build";
  display_name = none;
  group_id = none;
  status = st;
  outcome = o;
  fail_reason = none;
  fail_message = none;
  fail_details = none;
  exit_code = none;
  signal = none;
  pid = none;
  pgid = none;
  proc_starttime = none;
  input = "{}";
  input_fingerprint = "f";
  return_value = none;
  truncated_stdout = false;
  truncated_stderr = false;
  time_created = 1;
  time_started = none;
  time_finished = finished;
  timeout_ms = none;
  restarted_from = none;
}

abbrev file : ℕ → ℤ → StagingFile
file n expires = record {
  staging_id = n;
  state = StagingState.complete;
  sha256 = "ab";
  size = 3;
  bytes_received = 3;
  path = "staging/f";
  time_created = 10;
  time_updated = 10;
  time_expires = expires;
  downloaded_at = some 20;
}

abbrev ref : ℕ → ℕ → StagingRef
ref m s = record { mission_id = m; staging_id = s; ref_kind = RefKind.input; role = "in" }

abbrev done_row : Mission
done_row = row 2 Status.done (some Outcome.success) (some 100)

abbrev db : Db
db = record {
  missions = row 1 Status.running none none ∷ done_row ∷ [];
  staging = file 7 (pos 0) ∷ file 8 (pos 0) ∷ file 9 (pos 0) ∷ [];
  refs = ref 1 7 ∷ ref 2 7 ∷ ref 2 8 ∷ [];
  intents = [];
}

-- an hour, a day, and so on, in nanoseconds
abbrev policy : TtlPolicy
policy = record {
  mission_success = 3600000000000;
  mission_failed = 86400000000000;
  exec_success = 1000000;
  exec_failed = 2000000;
  staging_ttl = 5000000;
  download_grace = 1000000;
}

abbrev shared : Db
shared = record db { staging = file 7 (pos max_int64) ∷ file 8 (pos 0) ∷ file 9 (pos 0) ∷ [] }

recalc_shared : recalc_staging_ttl db 7 policy ≡ ok (pos max_int64, shared)
unfolding recalc_staging_ttl new_exp scan_missions scan_mission referencing join_missions
    get_mission get_staging Table.find Table.update
recalc_shared = refl

abbrev orphaned : Db
orphaned = record db { staging = file 7 (pos 0) ∷ file 8 (pos 0) ∷ file 9 (pos 15) ∷ [] }

recalc_orphan : recalc_staging_ttl db 9 policy ≡ ok (pos 15, orphaned)
unfolding recalc_staging_ttl new_exp orphan_exp add_int64 scan_missions scan_mission referencing
    join_missions get_mission get_staging Table.find Table.update
recalc_orphan = refl
