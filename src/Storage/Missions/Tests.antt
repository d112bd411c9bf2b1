-- ===== src/Storage/Missions/Tests.antt =====
-- A table of three missions, and the theorems on it.
use mathlib.Core.List.{Memᴰ}
use letts.Prelude.Table
use letts.Storage.Missions.{is_before, is_eligible, pick_queued_for_lane, mark_running}
use letts.Prelude.{[], none, refl, true, false, ◌∷◌, ◌≡◌, All, ℕ}
use letts.Storage.Missions.Transitions.{mark_running_once, started, MissionKeys}
use letts.Storage.Rows.{running, not_found, err, mission, ok, queued, Status, Db, Mission}
use letts.Storage.Missions.Pick.{pick_queued_for_lane-oldest}

abbrev row : ℕ → Status → ℕ → Mission
row n s t = record {
  id = n;
  kind = mission;
  lane = "a";
  mission_name = "build";
  display_name = none;
  group_id = none;
  status = s;
  outcome = none;
  fail_reason = none;
  fail_message = none;
  fail_details = none;
  exit_code = none;
  signal = none;
  pid = none;
  pgid = none;
  proc_starttime = none;
  input = "{}";
  input_fingerprint = "f";
  return_value = none;
  truncated_stdout = false;
  truncated_stderr = false;
  time_created = t;
  time_started = none;
  time_finished = none;
  timeout_ms = none;
  restarted_from = none;
}

abbrev db : Db
db = record {
  missions = row 1 queued 20 ∷ row 2 queued 10 ∷ row 3 running 5 ∷ [];
  staging = [];
  refs = [];
  intents = [];
}

db-keys : MissionKeys db
unfolding Table.find
db-keys = (refl, (refl, (refl, tt)))

pick_queued_for_lane-oldest_example :
    Memᴰ (row 2 queued 10) db.missions
    × (is_eligible db "a" (row 2 queued 10) ≡ true)
    × All (λ n. is_eligible db "a" n ≡ true → is_before n (row 2 queued 10) ≡ false) db.missions
unfolding pick_queued_for_lane
pick_queued_for_lane-oldest_example = pick_queued_for_lane-oldest db "a" (row 2 queued 10) refl

abbrev claimed : Db
claimed = record db {
  missions = row 1 queued 20 ∷ started 30 7 7 9 (row 2 queued 10) ∷ row 3 running 5 ∷ [];
}

claims : mark_running db 2 30 7 7 9 ≡ ok claimed
unfolding mark_running Table.update Table.affects
claims = refl

mark_running_once_example : (mark_running claimed 2 40 8 8 9 ≡ err not_found) × MissionKeys claimed
mark_running_once_example = mark_running_once db claimed 2 30 7 7 9 40 8 8 9 db-keys claims
