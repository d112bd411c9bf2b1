-- ===== src/Repair/Terminal.antt =====
-- internal/repair/terminal.go: every mission that is done has a done event in its events file. A row
-- that is done has an outcome. `line_len` is the length of a line with its newline. Reading does
-- not fail.
pub mod Presence
use mathlib.Core.Option
use letts.EventFile.Writer.{
  Limits, Appended, is_done, EventKind, EventFile, Line, Write, Writer, append,
}
use letts.Mission.Machine.{
  World, Prog, Run, Host, durable, get, return, fail, ◌>>=◌, ◌>>◌, set_events, storage,
  append_failed,
}
use letts.Storage.Rows.{
  RefKind, not_found, Mission, Status, StagingRef, CollectedOutput, Outcome, Db,
}
use letts.Repair.Intents.{RepairConfig, ensure_events_file}
use letts.Prelude.{
  any, ◌||◌, ◌&&◌, pos, true, none, ◌==◌, ◌+◌, leb, ◌-◌, ltb, [], map, ◌∷◌, filter, some,
  if◌then◌else◌, false, ℕ, Option, Bool, List,
}
use letts.EventFile.Json.{Fields}
use letts.Mission.Finalize.Commit.{open_events}
use letts.Mission.Outcome.{OutcomeResult}
use letts.Storage.Missions.{status_eq, get_mission}
use letts.Mission.Finalize.DoneEvent.{build_done_fields}
use letts.Storage.Refs.{refs_by_mission, ref_kind_eq}
use letts.Storage.Staging.{get_staging}

-- JOIN staging_files s ON s.staging_id = r.staging_id
unfoldable pub outputs_of_refs : Db → List StagingRef → List CollectedOutput
outputs_of_refs db [] = []
outputs_of_refs db (r ∷ rs) =
    let rest = outputs_of_refs db rs in
    elim (get_staging db r.staging_id) [
      | none ↦ rest
      | some s ↦
          record {
            role = r.role;
            staging_id = r.staging_id;
            tmp_path = "";
            final_path = "";
            sha256 = s.sha256;
            size = s.size;
          }
          ∷ rest
    ]

unfoldable pub output_refs_as_collected : Db → ℕ → List CollectedOutput
unfolding outputs_of_refs
output_refs_as_collected db id =
    outputs_of_refs db (filter (λ r. ref_kind_eq r.ref_kind RefKind.output) (refs_by_mission db id))

abbrev pub is_done_line : Line → Bool
is_done_line (Line.event e) = is_done e.kind
is_done_line Line.junk = false

abbrev pub total_len : (Line → ℕ) → List Line → ℕ
total_len line_len [] = 0
total_len line_len (l ∷ ls) = line_len l + total_len line_len ls

-- the lines that lie within the last bytes of a larger file, of which the first is cut or left out,
-- and whether one is a done event; `rest` is the length of the unfinished last line
unfoldable pub has_done_within : (Line → ℕ) → ℕ → ℕ → List Line → Bool
has_done_within line_len window rest [] = false
has_done_within line_len window rest (l ∷ ls) =
    (ltb (total_len line_len (l ∷ ls) + rest) window && is_done_line l)
    || has_done_within line_len window rest ls

abbrev pub tail_len : (Line → ℕ) → Option Line → ℕ
tail_len line_len none = 0
tail_len line_len (some l) = line_len l - 1

unfoldable pub tail_has_done_event : (Line → ℕ) → ℕ → EventFile → Bool
unfolding has_done_within
tail_has_done_event line_len window f =
    let rest = tail_len line_len f.tail in
    if leb (total_len line_len f.lines + rest) window
    then any is_done_line f.lines
    else has_done_within line_len window rest f.lines

-- the result as the row has it
unfoldable pub row_result : Mission → Outcome → OutcomeResult
row_result m o = record {
  outcome = o;
  fail_reason = elim m.fail_reason [ none ↦ "" | some s ↦ s ];
  fail_message = elim m.fail_message [ none ↦ "" | some s ↦ s ];
  fail_details = m.fail_details;
  exit_code = elim m.exit_code [ none ↦ pos 0 | some n ↦ n ];
  signal = elim m.signal [ none ↦ "" | some s ↦ s ];
  return_value = m.return_value;
  drop_return = false;
}

abbrev pub or_zero : Option ℕ → ℕ
or_zero none = 0
or_zero (some n) = n

abbrev pub done_row_at : Option Mission → Option (Mission × Outcome)
done_row_at none = none
done_row_at (some m) =
    if status_eq m.status Status.done then Option.map (λ o. (m, o)) m.outcome else none

unfoldable pub reconstructed_fields : Host → Db → Mission → Outcome → Fields
unfolding row_result output_refs_as_collected
reconstructed_fields h db m o =
    let finished = or_zero m.time_finished in
    build_done_fields h.parse (row_result m o) (output_refs_as_collected db m.id)
      (if ltb 0 finished then finished else h.clock) (or_zero m.time_started) 0

abbrev pub appended_done : Host → ℕ → Writer → Fields → World → Option EventFile → Bool × World
appended_done h id ew fields w none = (false, w)
appended_done h id ew fields w (some f) =
    let (r, ew', f') = append h.line_size true Write.complete EventKind.done fields true (ew, f) in
    (is_appended r, set_events id f' w)
  where
    is_appended : Appended → Bool
    is_appended (Appended.appended n) = true
    is_appended _ = false

abbrev pub reconstruct : Host → RepairConfig → ℕ → Db → Option (Mission × Outcome) → Prog (Unit {0})
reconstruct h cfg id db none = fail (storage not_found)
reconstruct h cfg id db (some (m, o)) = do
  ensure_events_file h id
  ew ← open_events id
  let limited = record ew { limits = cfg.limits }
  let fields = reconstructed_fields h db m o
  done ← durable (λ w. w) (λ w. appended_done h id limited fields w (w.events id))
  if done then return tt else fail append_failed

unfoldable pub append_reconstructed_done : Host → RepairConfig → ℕ → Prog (Unit {0})
unfolding ensure_events_file open_events reconstructed_fields
append_reconstructed_done h cfg id =
    get (λ w. w.db) >>= (λ db. reconstruct h cfg id db (done_row_at (get_mission db id)))

abbrev pub skipped : Run (Unit {0}) → Run (Unit {0})
skipped (Run.failed e m) = Run.returned tt m
skipped r = r

abbrev pub probe : (Line → ℕ) → ℕ → Option EventFile → Bool
probe line_len window none = false
probe line_len window (some f) = tail_has_done_event line_len window f

-- max_event_line_size, or else its default, and tailProbeSlack
abbrev pub tail_window : Limits → ℕ
tail_window l = (if l.max_event_line_size == 0 then 1048576 else l.max_event_line_size) + 4096

-- one mission of the pass, whose failure is logged
unfoldable pub ensure_terminal_event : Host → RepairConfig → (Line → ℕ) → ℕ → Prog (Unit {0})
unfolding append_reconstructed_done tail_has_done_event
ensure_terminal_event h cfg line_len id =
    get (λ w. probe line_len (tail_window cfg.limits) (w.events id)) >>= (λ found.
      if found then return tt else (λ m. skipped (append_reconstructed_done h cfg id m)))

unfoldable pub ensure_each : Host → RepairConfig → (Line → ℕ) → List ℕ → Prog (Unit {0})
unfolding ensure_terminal_event
ensure_each h cfg line_len [] = return tt
ensure_each h cfg line_len (id ∷ ids) =
    ensure_terminal_event h cfg line_len id >> ensure_each h cfg line_len ids

unfoldable pub ensure_terminal_events : Host → RepairConfig → (Line → ℕ) → Prog (Unit {0})
unfolding ensure_each
ensure_terminal_events h cfg line_len =
    get (λ w. map (λ m. m.id) (filter (λ m. status_eq m.status Status.done) w.db.missions))
    >>= ensure_each h cfg line_len
