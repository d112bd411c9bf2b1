-- ===== src/Repair/Tests.antt =====
-- A mission that was being killed when the process died.
use letts.Prelude.Table
use letts.Storage.Rows.{Mission, Outcome, FinalizePhase, Status, FinalizeIntent}
use letts.EventFile.Writer.{EventFile, scanned, last_done, Write}
use letts.Mission.Finalize.Tests.{torn_file, world, host, mission_row}
use letts.EventFile.Json.{Value, has_key, Fields}
use letts.Repair.Intents.{repair_one, RepairConfig}
use letts.EventFile.Json.Equality.{HasKeys, IsMap}
use letts.Storage.Missions.{get_mission}
use letts.Mission.Machine.{Machine, returned, World}
use letts.Storage.Intents.{get_finalize_intent}
use letts.Mission.Finalize.DoneEvent.{delete_key, extract_done_fields}
use letts.Prelude.{arith, true, ◌≡◌, ◌∷◌, inl, refl, [], pos, some, none}
use letts.Mission.Finalize.CrashSafety.{Finished, Pending}
use letts.Repair.Recovery.{repair_one-finishes}
use letts.Repair.Terminal.{tail_window, tail_has_done_event, ensure_terminal_event}
use letts.Repair.Terminal.Presence.{ensure_terminal_event-has_done}

abbrev config : RepairConfig
config = record {
  limits = record { max_events_buffer = 1000; max_event_line_size = 500 };
  finalize = record {
    sizes = record { max_return_value = 10; max_fail_message = 10; max_fail_details = 10 };
    ttl = record {
      mission_success = 1;
      mission_failed = 1;
      exec_success = 1;
      exec_failed = 1;
      staging_ttl = 1;
      download_grace = 1;
    };
  };
}

abbrev intent : FinalizeIntent
intent = record {
  mission_id = 1;
  phase = FinalizePhase.prepared;
  outcome = Outcome.killed;
  return_value = none;
  fail_reason = some "killed_by_api";
  fail_message = none;
  fail_details = none;
  exit_code = some (pos 0);
  signal = none;
  outputs = [];
  done_seq = 2;
  done_event = Fields.field "outcome" (Value.string "killed") Fields.end;
  time_created = 40;
}

abbrev crashed_world : World
crashed_world = record (world Status.queued) {
  db = record {
    missions = mission_row Status.queued ∷ [];
    staging = [];
    refs = [];
    intents = intent ∷ [];
  };
}

crashed_world-Pending : Pending intent crashed_world
unfolding Table.find get_mission get_finalize_intent last_done scanned extract_done_fields
    delete_key
crashed_world-Pending = record {
  row = (mission_row Status.queued, refl, refl);
  unique = (refl, tt);
  intent = refl;
  file = (torn_file, refl, inl refl);
}

intent-HasKeys : HasKeys (extract_done_fields intent.done_event)
unfolding IsMap has_key extract_done_fields delete_key
intent-HasKeys = (refl, tt, tt)

repair_one-finishes_example :
    (w' : World) × (repair_one host config intent
        (record { left = 2; torn = Write.nothing; world = crashed_world })
      ≡ returned tt (record { left = 0; torn = Write.nothing; world = w' }))
    × Finished intent w'
repair_one-finishes_example =
    repair_one-finishes host config intent 0 Write.nothing crashed_world intent-HasKeys refl refl
      (λ e same. refl) crashed_world-Pending

-- a row that is done, whose events file ends in a torn line
abbrev done_row : Mission
done_row = record (mission_row Status.done) { outcome = some Outcome.killed }

abbrev done_world : World
done_world = record (world Status.queued) {
  db = record { missions = done_row ∷ []; staging = []; refs = []; intents = [] };
}

ensure_terminal_event-has_done_example :
    (m' : Machine) × (f' : EventFile) × (ensure_terminal_event host config
        (λ l. 100)
        1
        (record { left = 2; torn = Write.nothing; world = done_world })
      ≡ returned tt m')
    × (m'.world.db ≡ done_world.db)
    × (m'.world.events 1 ≡ some f')
    × (tail_has_done_event (λ l. 100) (tail_window config.limits) f' ≡ true)
unfolding Table.find get_mission
ensure_terminal_event-has_done_example =
    ensure_terminal_event-has_done host config (λ l. 100) 1 0 Write.nothing done_world torn_file
      done_row Outcome.killed refl refl refl refl (λ e same. refl) (λ e same. omega arith)
