-- ===== src/Cleanup/Missions/Tests.antt =====
-- A sweep over four missions, run by the model, and the theorems on it.
use letts.Prelude.Table
use letts.Cleanup.Missions.{
  distinct, staging_ids_for_missions, recalc_all, remove_files, mark_deleting, insert_by_finished,
  order_by_finished, is_past, is_new_victim, is_orphan_deleting, new_ids, deleting_ids,
  process_batch, Suffix, pick_victims, OutputPath, run_batch, Batch, World, Config, run_once,
}
use letts.Storage.Missions.{delete_missions, get_mission}
use letts.Prelude.{◌≡◌, none, some, Option, refl, arith, ◌∷◌, [], false, List, ℕ}
use letts.Cleanup.Missions.Retention.{Protected, TtlsFit}
use letts.Storage.Rows.{Kind, Outcome, Status, Mission}
use letts.Cleanup.Missions.Progress.{run_once-Clean, Clean, Undisturbed}
use letts.Storage.Refs.{ttl_for}
use letts.Cleanup.Missions.Sweep.{Kept}
use letts.Cleanup.Missions.Safety.{run_once-Protected}

abbrev row : ℕ → Status → Option Outcome → Option ℕ → Option ℕ → Mission
row n st o finished parent = record {
  id = n;
  kind = Kind.mission;
  lane = "a";
  mission_name = "build";
  display_name = none;
  group_id = none;
  status = st;
  outcome = o;
  fail_reason = none;
  fail_message = none;
  fail_details = none;
  exit_code = none;
  signal = none;
  pid = none;
  pgid = none;
  proc_starttime = none;
  input = "{}";
  input_fingerprint = "f";
  return_value = none;
  truncated_stdout = false;
  truncated_stderr = false;
  time_created = 1;
  time_started = none;
  time_finished = finished;
  timeout_ms = none;
  restarted_from = parent;
}

-- 1 is being deleted, 2 finished long ago, 3 finished late and restarted 2, 4 is queued
abbrev kept_row : Mission
kept_row = row 3 Status.done (some Outcome.failed) (some 9000) (some 2)

abbrev rows : List Mission
rows =
    row 1 Status.deleting (some Outcome.killed) (some 8000) none
    ∷ row 2 Status.done (some Outcome.success) (some 100) none
    ∷ kept_row
    ∷ row 4 Status.queued none none none
    ∷ []

abbrev files : List OutputPath
files =
    record { mission_id = 2; suffix = Suffix.stdout }
    ∷ record { mission_id = 3; suffix = Suffix.events }
    ∷ []

abbrev world : World
world = record {
  db = record { missions = rows; staging = []; refs = []; intents = [] };
  disk = record { output = files; work = 2 ∷ [] };
}

-- a second for a success, 10 seconds for a failure
abbrev config : Config
config = record {
  ttl = record {
    mission_success = 1000000000;
    mission_failed = 10000000000;
    exec_success = 1000000;
    exec_failed = 2000000;
    staging_ttl = 5000000;
    download_grace = 1000000;
  };
  lost_cleanup_grace = 1000000;
}

abbrev quiet : Batch
quiet = record {
  now_ms = 10000;
  canceled = false;
  query_deleting_fails = false;
  query_new_fails = false;
  mark_fails = false;
  delete_fails = false;
  recalc_fails = λ id. false;
}

abbrev batches : List Batch
batches = quiet ∷ quiet ∷ quiet ∷ quiet ∷ quiet ∷ []

sweep_runs : run_once config batches world ≡ (record {
  db = record {
    missions = record kept_row { restarted_from = none } ∷ row 4 Status.queued none none none ∷ [];
    staging = [];
    refs = [];
    intents = [];
  };
  disk = record { output = record { mission_id = 3; suffix = Suffix.events } ∷ []; work = [] };
})
unfolding run_once run_batch pick_victims process_batch deleting_ids new_ids is_orphan_deleting
    is_new_victim is_past order_by_finished insert_by_finished mark_deleting remove_files
    delete_missions recalc_all staging_ids_for_missions distinct Table.update
sweep_runs = refl

abbrev fits : TtlsFit config
fits = record { mission = omega arith; exec = omega arith }

run_once-Protected_example :
    Kept 3 kept_row false
      (record { mission_id = 3; suffix = Suffix.events } ∷ [])
      (run_once config batches world)
unfolding get_mission Table.find ttl_for
run_once-Protected_example =
    run_once-Protected config 10000 3 batches world kept_row fits (refl, (refl, (refl, (refl, tt))))
      (omega arith, (omega arith, (omega arith, (omega arith, (omega arith, tt))))) refl
      (Protected.retained 9000 Outcome.failed refl refl refl (omega arith))

abbrev undisturbed : Undisturbed 10000 quiet
undisturbed = record {
  at_now = refl;
  live = refl;
  reads_deleting = refl;
  reads_new = refl;
  marks = refl;
  deletes = refl;
}

run_once-Clean_example : Clean config 10000 (run_once config batches world).db
run_once-Clean_example =
    run_once-Clean config 10000 batches world
      (undisturbed, (undisturbed, (undisturbed, (undisturbed, (undisturbed, tt))))) (omega arith)
