-- ===== src/Apply/Tests.antt =====
-- A lane paused with `ctl` and one that an apply prunes, and the theorems on them.
use letts.Apply.{
  is_active, ConflictDetail, Queries, Runtime, resized_lanes, reconcile_lane, has_queued_or_running,
  has_active_in_lane, LaneCfg, Plan, find_lane, AppliedState, Diff, Options, plan,
}
use letts.Prelude.{
  ◌⊎◌, ◌≢◌, List, is_some, none, refl, some, ◌∷◌, String, false, [], true, Bool, ◌≡◌,
}
use mathlib.Core.List.{Memᴰ}
use letts.Apply.Guards.{plan-guarded}
use letts.Storage.Rows.{Kind, Mission, Status}
use letts.Apply.Pauses.{plan-ctl_pause}

abbrev lane : Bool → String → LaneCfg
lane p by = record { concurrency = 1; paused = p; paused_by = by }

abbrev shell : Runtime
shell = record {
  mission_path_template = "";
  command_template = some ("sh" ∷ []);
  validate_mission_file = false;
}

abbrev current : AppliedState
current = record {
  mission_dir = "/m";
  labels = none;
  lanes = ("a", lane true "ctl") ∷ ("b", lane false "") ∷ [];
  runtime = shell;
}

-- the lane b is left out, and the runtime changes
abbrev pruned : AppliedState
pruned = record {
  mission_dir = "/m";
  labels = none;
  lanes = ("a", lane false "") ∷ [];
  runtime = record shell { validate_mission_file = true };
}

abbrev options : Options
options = record { force = false; prune = true; force_prune = false }

abbrev answered : Queries
answered = record { all_lanes = true; of_lane = λ name. true }

abbrev mission_in : String → Status → Mission
mission_in name st = record {
  id = 7;
  kind = Kind.mission;
  lane = name;
  mission_name = "build";
  display_name = none;
  group_id = none;
  status = st;
  outcome = none;
  fail_reason = none;
  fail_message = none;
  fail_details = none;
  exit_code = none;
  signal = none;
  pid = none;
  pgid = none;
  proc_starttime = none;
  input = "{}";
  input_fingerprint = "f";
  return_value = none;
  truncated_stdout = false;
  truncated_stderr = false;
  time_created = 1;
  time_started = none;
  time_finished = none;
  timeout_ms = none;
  restarted_from = none;
}

abbrev finished : List Mission
finished = mission_in "b" Status.done ∷ mission_in "a" Status.done ∷ []

abbrev stored : AppliedState
stored = record pruned { lanes = ("a", lane true "ctl") ∷ [] }

abbrev changes : Diff
changes = record {
  mission_dir_changed = false;
  labels_changed = false;
  runtime_changed = true;
  lanes_added = [];
  lanes_removed = "b" ∷ [];
  lanes_resized = [];
}

plan_runs : plan answered finished current pruned options ≡ Plan.planned stored changes
unfolding plan find_lane reconcile_lane resized_lanes has_queued_or_running
plan_runs = refl

-- a running mission in the lane b, and the same removal without the change of the runtime
abbrev kept_runtime : AppliedState
kept_runtime = record pruned { runtime = shell }

plan_refused :
    plan answered (mission_in "b" Status.running ∷ []) current kept_runtime options
    ≡ Plan.conflict (ConflictDetail.lanes_with_active_missions ("b" ∷ []))
unfolding plan find_lane reconcile_lane resized_lanes has_active_in_lane
plan_refused = refl

-- the query of the lane is not answered, and the lane goes with its running mission
plan_unanswered :
    plan
      (record answered { of_lane = λ name. false })
      (mission_in "b" Status.running ∷ [])
      current
      kept_runtime
      options
    ≡ Plan.planned (record stored { runtime = shell }) (record changes { runtime_changed = false })
unfolding plan find_lane reconcile_lane resized_lanes has_active_in_lane
plan_unanswered = refl

plan-guarded_example :
    (options.force_prune ≡ false
      → (name : String) → is_some (find_lane name current.lanes) ≡ true
      → is_some (find_lane name stored.lanes) ≡ false
      → answered.of_lane name ≡ true
      → (m : Mission) → Memᴰ m finished
      → m.lane ≡ name
      → is_active m ≡ false)
    × (options.force ≡ false
        → (stored.mission_dir ≢ current.mission_dir) ⊎ (stored.runtime ≢ current.runtime)
        → answered.all_lanes ≡ true
        → (m : Mission) → Memᴰ m finished
        → is_active m ≡ false)
plan-guarded_example =
    plan-guarded answered finished current pruned stored options changes plan_runs

plan-ctl_pause_example : (lane true "ctl").paused ≡ true
unfolding find_lane
plan-ctl_pause_example =
    plan-ctl_pause answered finished current pruned stored options changes "a" (lane true "ctl")
      plan_runs refl refl
