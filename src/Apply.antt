-- ===== src/Apply.antt =====
-- internal/apply: the decisions of an apply of the lane configuration, up to the point where it
-- terminates missions, stores the state and reconciles the lane runners. The maps are lists of
-- their entries, of which the first of a name counts; the order of Go's iteration is not modelled.
pub mod Pauses
pub mod Guards
pub mod Lookups
mod Tests
use letts.Prelude.{
  ◌==◌, filter, true, ◌&&◌, ◌||◌, is_some, some, ◌++◌, none, ◌∷◌, [], any, str_eq, if◌then◌else◌,
  false, not, List, String, ℕ, Bool, Option,
}
use letts.Storage.Rows.{Status, Mission}
use letts.Storage.Missions.{status_eq}

-- Paused and PausedBy, "yaml" or "ctl", or empty
pub record LaneCfg : Type 0 where
  pub concurrency : ℕ
  pub paused : Bool
  pub paused_by : String

pub record Runtime : Type 0 where
  pub mission_path_template : String
  pub command_template : Option (List String)
  pub validate_mission_file : Bool

-- a nil slice, which DeepEqual tells from an empty one, is `none`
pub record AppliedState : Type 0 where
  pub mission_dir : String
  pub labels : Option (List String)
  pub lanes : List (String × LaneCfg)
  pub runtime : Runtime

pub record Options : Type 0 where
  pub force : Bool
  pub prune : Bool
  pub force_prune : Bool

pub record Diff : Type 0 where
  pub mission_dir_changed : Bool
  pub labels_changed : Bool
  pub runtime_changed : Bool
  pub lanes_added : List String
  pub lanes_removed : List String
  pub lanes_resized : List String

pub data ConflictDetail : Type 0 where
  runtime_or_mission_dir_changed : ConflictDetail
  lanes_with_active_missions : List String → ConflictDetail

pub data Plan : Type 0 where
  conflict : ConflictDetail → Plan
  planned : AppliedState → Diff → Plan

unfoldable pub find_lane : String → List (String × LaneCfg) → Option LaneCfg
find_lane name [] = none
find_lane name ((n, cfg) ∷ lanes) =
    let rest = find_lane name lanes in if str_eq n name then some cfg else rest

-- the lanes of the first list that the second does not have
unfoldable pub missing_lanes :
    List (String × LaneCfg) → List (String × LaneCfg) → List (String × LaneCfg)
missing_lanes [] others = []
missing_lanes ((n, cfg) ∷ lanes) others =
    let rest = missing_lanes lanes others in
    if is_some (find_lane n others) then rest else (n, cfg) ∷ rest

-- 1a. without --prune the lanes left out are kept
unfoldable pub merge_lanes :
    Bool → List (String × LaneCfg) → List (String × LaneCfg) → List (String × LaneCfg)
unfolding missing_lanes
merge_lanes prune current desired =
    if prune then desired else desired ++ missing_lanes current desired

-- 1b. for one lane: what it is now, and what is desired
unfoldable pub reconcile_lane : Option LaneCfg → LaneCfg → LaneCfg
reconcile_lane none desired =
    if desired.paused
    then record desired { paused_by = "yaml" }
    else record desired { paused_by = "" }
reconcile_lane (some now) desired =
    if not desired.paused
    then if now.paused && not (str_eq now.paused_by "yaml")
      then record desired { paused = true; paused_by = "ctl" }
      else record desired { paused_by = "" }
    else if now.paused && str_eq now.paused_by "ctl"
    then record desired { paused_by = "ctl" }
    else record desired { paused_by = "yaml" }

unfoldable pub reconcile :
    List (String × LaneCfg) → List (String × LaneCfg) → List (String × LaneCfg)
reconcile current [] = []
reconcile current ((n, cfg) ∷ desired) =
    (n, reconcile_lane (find_lane n current) cfg) ∷ reconcile current desired

unfoldable pub lists_eq : List String → List String → Bool
lists_eq [] [] = true
lists_eq (a ∷ as') (b ∷ bs) = str_eq a b && lists_eq as' bs
lists_eq _ _ = false

-- reflect.DeepEqual of two slices, and of two values of Runtime
abbrev pub slices_eq : Option (List String) → Option (List String) → Bool
slices_eq none none = true
slices_eq (some a) (some b) = lists_eq a b
slices_eq _ _ = false

abbrev pub flags_eq : Bool → Bool → Bool
flags_eq a b = if a then b else not b

abbrev pub runtimes_eq : Runtime → Runtime → Bool
runtimes_eq a b =
    str_eq a.mission_path_template b.mission_path_template
    && (slices_eq a.command_template b.command_template
        && flags_eq a.validate_mission_file b.validate_mission_file)

unfoldable pub lane_names : List (String × LaneCfg) → List String
lane_names [] = []
lane_names ((n, cfg) ∷ lanes) = n ∷ lane_names lanes

abbrev differs : Option LaneCfg → LaneCfg → Bool
differs none cfg = false
differs (some now) cfg =
    not (now.concurrency == cfg.concurrency) || not (flags_eq now.paused cfg.paused)

unfoldable pub resized_lanes : List (String × LaneCfg) → List (String × LaneCfg) → List String
resized_lanes current [] = []
resized_lanes current ((n, cfg) ∷ desired) =
    let rest = resized_lanes current desired in
    if differs (find_lane n current) cfg then n ∷ rest else rest

unfoldable pub compute_diff : AppliedState → AppliedState → Diff
unfolding lists_eq lane_names missing_lanes
compute_diff current desired = record {
  mission_dir_changed = not (str_eq current.mission_dir desired.mission_dir);
  labels_changed = not (slices_eq current.labels desired.labels);
  runtime_changed = not (runtimes_eq current.runtime desired.runtime);
  lanes_added = lane_names (missing_lanes desired.lanes current.lanes);
  lanes_removed = lane_names (missing_lanes current.lanes desired.lanes);
  lanes_resized = resized_lanes current.lanes desired.lanes;
}

abbrev pub is_active : Mission → Bool
is_active m = status_eq m.status Status.queued || status_eq m.status Status.running

-- which count queries of the guards are answered: the one of all missions, and that of a lane
pub record Queries : Type 0 where
  pub all_lanes : Bool
  pub of_lane : String → Bool

-- the error of the query is ignored, and the count stays 0
unfoldable pub has_queued_or_running : Queries → List Mission → Bool
has_queued_or_running q ms = q.all_lanes && any is_active ms

unfoldable pub has_active_in_lane : Queries → List Mission → String → Bool
has_active_in_lane q ms lane = q.of_lane lane && any (λ m. str_eq m.lane lane && is_active m) ms

abbrev guarded_removal : Options → AppliedState → Diff → List String → Plan
guarded_removal opts desired diff [] = Plan.planned desired diff
guarded_removal opts desired diff (l ∷ blocked) =
    if opts.force_prune
    then Plan.planned desired diff
    else Plan.conflict (ConflictDetail.lanes_with_active_missions (l ∷ blocked))

-- steps 1a and 1b
unfoldable pub desired_state : AppliedState → AppliedState → Bool → AppliedState
unfolding reconcile merge_lanes
desired_state current desired prune = record desired {
  lanes = reconcile current.lanes (merge_lanes prune current.lanes desired.lanes);
}

-- step 3
unfoldable pub runtime_conflict : Queries → List Mission → Options → Diff → Bool
unfolding has_queued_or_running
runtime_conflict q ms opts diff =
    (diff.runtime_changed || diff.mission_dir_changed)
    && (not opts.force && has_queued_or_running q ms)

-- steps 2 to 4
unfoldable pub check_plan :
    Queries → List Mission → AppliedState → AppliedState → Options → Diff → Plan
unfolding runtime_conflict has_active_in_lane
check_plan q ms current desired opts diff =
    if runtime_conflict q ms opts diff
    then Plan.conflict ConflictDetail.runtime_or_mission_dir_changed
    else guarded_removal opts desired diff (filter (has_active_in_lane q ms) diff.lanes_removed)

-- `Apply` to the end of step 4: the state to store, after both guards
unfoldable pub plan : Queries → List Mission → AppliedState → AppliedState → Options → Plan
unfolding compute_diff desired_state check_plan
plan q ms current desired opts =
    let desired' = desired_state current desired opts.prune in
    check_plan q ms current desired' opts (compute_diff current desired')
