-- ===== src/Lane/Runner/Tests.antt =====
-- A lane with one slot, and the theorems on it at concrete runs.
use letts.Lane.Runner.{pause, claim, mark_removing, start, loop_step, System, new_runner}
use letts.Lane.Runner.Interleavings.{
  own_steps, call_start, loop, call_mark_removing, here, next, Reach,
}
use letts.Prelude.Table
use letts.Prelude.{◌+◌, length, true, refl, ◌-◌, false, none, arith, [], ◌∷◌, ℕ, ◌≤◌, ◌≡◌}
use letts.Storage.Rows.{queued, mission, Mission, Db}
use letts.Lane.Runner.Concurrency.{inflight-le-max}
use letts.Lane.Runner.Removal.{mark_removing-acknowledged, removing_ack-no_pickup}
use letts.Storage.Missions.{mark_running, pick_queued_for_lane}
use letts.Lane.Runner.Pausing.{PausedReach, paused-spawned, pending}

abbrev job : ℕ → Mission
job n = record {
  id = n;
  kind = mission;
  lane = "a";
  mission_name = "build";
  display_name = none;
  group_id = none;
  status = queued;
  outcome = none;
  fail_reason = none;
  fail_message = none;
  fail_details = none;
  exit_code = none;
  signal = none;
  pid = none;
  pgid = none;
  proc_starttime = none;
  input = "{}";
  input_fingerprint = "f";
  return_value = none;
  truncated_stdout = false;
  truncated_stderr = false;
  time_created = 10 - n;
  time_started = none;
  time_finished = none;
  timeout_ms = none;
  restarted_from = none;
}

abbrev two_jobs : Db
two_jobs = record { missions = job 1 ∷ job 2 ∷ []; staging = []; refs = []; intents = [] }

abbrev fresh : System
fresh = record { runner = new_runner "a" 1; db = two_jobs }

-- start, read the gate, pass it, claim, spawn
abbrev after_spawn : System
after_spawn =
    loop_step 5
      (loop_step 4 (loop_step 3 (loop_step 2 (record fresh { runner = start fresh.runner }))))

run_to_spawn : Reach 1 fresh after_spawn
run_to_spawn = next (next (next (next (next here call_start) (loop 2)) (loop 3)) (loop 4)) (loop 5)

-- the older of the two rows is claimed
spawns_oldest : after_spawn.runner.spawned ≡ 2 ∷ []
unfolding loop_step new_runner start claim pick_queued_for_lane mark_running Table.update
    Table.affects
spawns_oldest = refl

inflight-le-max_example : after_spawn.runner.inflight ≤ 1
inflight-le-max_example = inflight-le-max 1 1 "a" two_jobs after_spawn (omega arith) run_to_spawn

abbrev removed : System
removed = loop_step 6 (record after_spawn { runner = mark_removing after_spawn.runner })

run_to_removed : Reach 1 fresh removed
run_to_removed = next (next run_to_spawn call_mark_removing) (loop 6)

removed_acks : removed.runner.removing_ack ≡ true
unfolding loop_step new_runner start claim pick_queued_for_lane mark_running Table.update
    Table.affects mark_removing
removed_acks = refl

removing_ack-no_pickup_example :
    (removed.runner.spawned ≡ removed.runner.spawned) × ((loop_step 9 removed).db ≡ removed.db)
removing_ack-no_pickup_example =
    removing_ack-no_pickup 1 1 9 "a" two_jobs removed removed run_to_removed removed_acks here

mark_removing-acknowledged_example :
    (own_steps
      (1 ∷ 2 ∷ 3 ∷ 4 ∷ [])
      (record after_spawn { runner = mark_removing after_spawn.runner })).runner.removing_ack
    ≡ true
unfolding loop_step new_runner start claim pick_queued_for_lane mark_running Table.update
    Table.affects
mark_removing-acknowledged_example =
    mark_removing-acknowledged 1 2 3 4 after_spawn (λ e. cc) (λ e. cc) refl
      (record { parked_or_stopped = λ e. cc; parked_acknowledged = λ e. cc })

-- paused past the gate: the mission that was being claimed still starts
abbrev paused_late : System
paused_late =
    let s = loop_step 3 (loop_step 2 (record fresh { runner = start fresh.runner })) in
    record s { runner = pause s.runner }

paused-spawned_example :
    (length (loop_step 5 (loop_step 4 paused_late)).runner.spawned
      ≤ length paused_late.runner.spawned + 1)
    × (pending paused_late.runner.phase ≡ 0
        → length (loop_step 5 (loop_step 4 paused_late)).runner.spawned
          ≤ length paused_late.runner.spawned)
unfolding loop_step new_runner start pause claim pick_queued_for_lane mark_running Table.update
    Table.affects
paused-spawned_example =
    paused-spawned 1 paused_late (loop_step 5 (loop_step 4 paused_late))
      (PausedReach.next (PausedReach.next PausedReach.here refl (loop 4)) refl (loop 5))
