-- ===== src/Mission/Finalize/Tests.antt =====
-- A running mission with its events file, and the theorems on it.
use Prim.Native.String.{len}
use letts.Prelude.Table
use letts.EventFile.Json.{Value, Fields}
use letts.EventFile.Writer.{scanned, last_done, EventKind, EventFile, Line, Write}
use letts.Mission.Machine.{returned, left_behind, World, Host}
use letts.Storage.Rows.{
  Result, Mission, Status, FinalizeIntent, CollectedOutput, Outcome, Kind, Db, StagingFile,
  StagingState,
}
use letts.Prelude.{
  arith, ◌≤◌, some_inj, sym, ap, refl, String, pos, ◌==◌, if◌then◌else◌, some, true, false, [], ◌≡◌,
  none, ◌∷◌,
}
use letts.Mission.Finalize.Transactions.{commit_tx, in_flight}
use letts.Mission.Finalize.Prepared.{
  finalize-Finished, finalize-Recoverable, final_intent, Recoverable, InFlight,
}
use letts.Mission.Finalize.DoneEvent.{raw_len, cap_outcome}
use letts.Mission.Finalize.{new_intent, FinalizeInputs, finalize}
use letts.Storage.Missions.{get_mission}
use letts.EventFile.Json.Equality.{IsMap}
use letts.Storage.Intents.{get_finalize_intent}
use letts.Mission.Finalize.CrashSafety.{Finished}
use mathlib.Core.List.{Memᴰ}
use letts.Storage.Staging.{in_phase_b, get_staging}
use letts.Mission.Finalize.Deleting.{commit_tx-deleting}
use letts.Mission.Finalize.Commit.{FinalizeConfig}
use letts.Mission.Finalize.DoneEvent.Caps.{cap_outcome-within}

abbrev pub mission_row : Status → Mission
mission_row s = record {
  id = 1;
  kind = Kind.mission;
  lane = "a";
  mission_name = "build";
  display_name = none;
  group_id = none;
  status = s;
  outcome = none;
  fail_reason = none;
  fail_message = none;
  fail_details = none;
  exit_code = none;
  signal = none;
  pid = none;
  pgid = none;
  proc_starttime = none;
  input = "{}";
  input_fingerprint = "f";
  return_value = none;
  truncated_stdout = false;
  truncated_stderr = false;
  time_created = 10;
  time_started = none;
  time_finished = none;
  timeout_ms = none;
  restarted_from = none;
}

-- the last line of the events file is torn
abbrev pub torn_file : EventFile
torn_file = record {
  lines = Line.event (record { seq = 1; kind = EventKind.queued; fields = Fields.end }) ∷ [];
  tail = some Line.junk;
}

abbrev pub world : Status → World
world s = record {
  db = record { missions = mission_row s ∷ []; staging = []; refs = []; intents = [] };
  events = λ id. if id == 1 then some torn_file else none;
  files = λ p. none;
  critical = [];
}

abbrev pub host : Host
host = record {
  line_size = λ e. 100;
  parse = λ s. Value.string s;
  format = record { itoa = λ n. "0"; quote = λ s. s; duration = λ d. "1s" };
  rename_error = λ a b. "rename";
  clock = 50;
}

unfoldable pub running_mission :
    (s : Status) → in_flight (mission_row s) ≡ true → InFlight 1 (world s)
unfolding get_mission Table.find get_finalize_intent last_done scanned
running_mission s active = record {
  row = (mission_row s, refl, active);
  unique = (refl, tt);
  no_intent = refl;
  file = (torn_file, refl, refl);
}

abbrev config : FinalizeConfig
config = record {
  sizes = record { max_return_value = 10; max_fail_message = 10; max_fail_details = 10 };
  ttl = record {
    mission_success = 1;
    mission_failed = 1;
    exec_success = 1;
    exec_failed = 1;
    staging_ttl = 1;
    download_grace = 1;
  };
}

abbrev inputs : FinalizeInputs
inputs = record {
  mission_id = 1;
  outcome = record {
    outcome = Outcome.success;
    fail_reason = "";
    fail_message = "";
    fail_details = none;
    exit_code = pos 0;
    signal = "";
    return_value = some "1";
    drop_return = false;
  };
  outputs = [];
  now_ms = 40;
  time_started_ms = 20;
  progress_dropped = 0;
}

parse-IsMap : (s : String) → IsMap (host.parse s)
unfolding IsMap
parse-IsMap s = tt

-- the process dies while the event is written
finalize-Recoverable_example :
    Recoverable (final_intent host config inputs torn_file) (world Status.running) (
      left_behind (
        finalize host config inputs
          (record { left = 1; torn = Write.partial true; world = world Status.running })))
unfolding running_mission
finalize-Recoverable_example =
    finalize-Recoverable host config inputs 1 (Write.partial true) (world Status.running)
      (running_mission Status.running refl) refl parse-IsMap

finalize-Finished_example :
    (w' : World) × (finalize host config inputs
        (record { left = 3; torn = Write.nothing; world = world Status.running })
      ≡ returned tt (record { left = 0; torn = Write.nothing; world = w' }))
    × Finished (final_intent host config inputs torn_file) w'
unfolding running_mission
finalize-Finished_example =
    finalize-Finished host config inputs 0 Write.nothing (world Status.running)
      (running_mission Status.running refl) refl parse-IsMap

abbrev output_row : StagingFile
output_row = record {
  staging_id = 7;
  state = StagingState.committing;
  sha256 = "ab";
  size = 3;
  bytes_received = 3;
  path = "tmp";
  time_created = 40;
  time_updated = 40;
  time_expires = pos 99;
  downloaded_at = none;
}

abbrev output_file : CollectedOutput
output_file = record {
  role = "log";
  staging_id = 7;
  tmp_path = "tmp";
  final_path = "final";
  sha256 = "ab";
  size = 3;
}

abbrev deleting_db : Db
deleting_db = record {
  missions = mission_row Status.deleting ∷ [];
  staging = output_row ∷ [];
  refs = [];
  intents = [];
}

abbrev success_intent : FinalizeIntent
success_intent = final_intent host config inputs torn_file

commit_tx-deleting_example :
    (db' : Db) × (commit_tx success_intent (output_file ∷ []) 40 deleting_db
      ≡ Result.ok (true, db'))
    × (db'.missions ≡ deleting_db.missions)
    × (db'.refs ≡ deleting_db.refs)
    × (get_finalize_intent db' 1 ≡ none)
    × ((op : CollectedOutput) (s : StagingFile)
        → Memᴰ op (output_file ∷ [])
        → get_staging deleting_db op.staging_id ≡ some s
        → in_phase_b s.state ≡ true
        → (s' : StagingFile) × (get_staging db' op.staging_id ≡ some s')
          × (s'.state ≡ StagingState.deleting))
unfolding Table.find get_mission new_intent
commit_tx-deleting_example =
    commit_tx-deleting success_intent (output_file ∷ []) 40 deleting_db (refl, tt)
      (λ m e. ap (λ r. r.status) (sym (some_inj e)))

cap_outcome-within_example :
    (len (cap_outcome host.format config.sizes inputs.outcome).fail_message ≤ 10)
    × (raw_len (cap_outcome host.format config.sizes inputs.outcome).return_value ≤ 10)
cap_outcome-within_example =
    cap_outcome-within host.format config.sizes inputs.outcome (omega arith) (omega arith)
