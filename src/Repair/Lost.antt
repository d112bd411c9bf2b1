-- ===== src/Repair/Lost.antt =====
-- internal/repair/lost.go: the missions that were running when the daemon died. `killed` is what
-- BestEffortKillPgid answers for a row, and `can_check` whether the platform can identify a process.
use Prim.Native.String.{◌++◌}
use letts.Mission.Finalize.{FinalizeInputs, finalize}
use letts.Mission.Machine.{Prog, Host, get, return, ◌>>=◌, ◌>>◌}
use letts.Repair.Intents.{RepairConfig, ensure_events_file}
use letts.Repair.Terminal.{skipped, or_zero}
use letts.Storage.Rows.{Mission, Status, Db, Outcome}
use letts.Storage.Refs.{TtlPolicy}
use letts.Prelude.{
  ◌==◌, false, not, [], if◌then◌else◌, pos, ltb, ◌∷◌, none, is_some, filter, String, ◌&&◌, Bool,
  List,
}
use letts.Storage.Missions.{has_intent, status_eq}

-- WHERE status='running' AND NOT EXISTS (a finalize intent of the row)
unfoldable pub left_running : Db → List Mission
left_running db =
    filter (λ m. status_eq m.status Status.running && not (has_intent db m.id)) db.missions

abbrev identified : Mission → Bool
identified m = is_some m.pid && (is_some m.pgid && is_some m.proc_starttime)

abbrev checkable : Bool → Mission → Bool
checkable can_check m =
    can_check
    && (ltb 0 (or_zero m.pid) && (ltb 0 (or_zero m.pgid) && not (or_zero m.proc_starttime == 0)))

unfoldable pub lost_message : Host → (Mission → Bool) → Bool → Mission → String
lost_message h killed can_check m =
    let pid = or_zero m.pid in
    "dugdale restarted while the mission was running"
    ++ ((if ltb 0 pid then " (pid " ++ (h.format.itoa (pos pid) ++ ")") else "")
        ++ (if identified m
            then if killed m
              then "; leftover process group was killed"
              else if checkable can_check m
              then "; the process was already gone"
              else ""
            else ""))

unfoldable pub lost_inputs : Host → (Mission → Bool) → Bool → Mission → FinalizeInputs
unfolding lost_message
lost_inputs h killed can_check m = record {
  mission_id = m.id;
  outcome = record {
    outcome = Outcome.lost;
    fail_reason = "";
    fail_message = lost_message h killed can_check m;
    fail_details = none;
    exit_code = pos 0;
    signal = "";
    return_value = none;
    drop_return = false;
  };
  outputs = [];
  now_ms = h.clock;
  time_started_ms = or_zero m.time_started;
  progress_dropped = 0;
}

abbrev no_ttl : TtlPolicy
no_ttl = record {
  mission_success = 0;
  mission_failed = 0;
  exec_success = 0;
  exec_failed = 0;
  staging_ttl = 0;
  download_grace = 0;
}

-- one row, whose failure is logged
unfoldable pub finalize_as_lost :
    Host → RepairConfig → (Mission → Bool) → Bool → Mission → Prog (Unit {0})
unfolding lost_inputs ensure_events_file finalize
finalize_as_lost h cfg killed can_check m = ensure_events_file h m.id >> (λ s. skipped (
    finalize h (record { sizes = cfg.finalize.sizes; ttl = no_ttl })
      (lost_inputs h killed can_check m) s))

unfoldable pub sweep_rows :
    Host → RepairConfig → (Mission → Bool) → Bool → List Mission → Prog (Unit {0})
unfolding finalize_as_lost
sweep_rows h cfg killed can_check [] = return tt
sweep_rows h cfg killed can_check (m ∷ ms) =
    finalize_as_lost h cfg killed can_check m >> sweep_rows h cfg killed can_check ms

unfoldable pub sweep_running_to_lost :
    Host → RepairConfig → (Mission → Bool) → Bool → Prog (Unit {0})
unfolding left_running sweep_rows
sweep_running_to_lost h cfg killed can_check =
    get (λ w. left_running w.db) >>= sweep_rows h cfg killed can_check
