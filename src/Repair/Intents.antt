-- ===== src/Repair/Intents.antt =====
-- internal/repair/intents.go: the finalize intents that an unclean shutdown has left. A file that
-- is there can be read.
use Prim.Native.String.{◌++◌}
use letts.EventFile.Json.{Value, Fields}
use letts.EventFile.Writer.{
  empty_file, new_writer, terminate_torn_tail, Write, append_line, Writer, Limits, EventFile,
  EventKind,
}
use letts.Mission.Machine.{
  terminal_event_conflict, World, Prog, Run, Host, Failure, durable, get, return, ◌>>=◌, ◌>>◌,
  rename_file, remove_file, set_events, returned, failed, crashed,
}
use letts.Storage.Rows.{FinalizeIntent, FinalizePhase, CollectedOutput}
use letts.Mission.Finalize.{revert_intent_to_failed, continue_phase_b, commit_from_intent}
use letts.Prelude.{
  pos, ◌==◌, not, [], str_eq, length, false, none, some, true, String, is_some, ◌∷◌, List, Bool, ℕ,
  if◌then◌else◌, Option,
}
use letts.Mission.Finalize.Commit.{FinalizeConfig, open_events}

pub record RepairConfig : Type 0 where
  pub limits : Limits
  pub finalize : FinalizeConfig

-- the events file that `Create` and the `running` event leave
unfoldable pub recreated : Host → EventFile
recreated h =
    let (r, w, f) =
      append_line h.line_size Write.complete EventKind.running
        (Fields.field "time" (Value.number (pos h.clock)) Fields.end) false
        (new_writer 0, empty_file) in
    f

abbrev ensured : Host → ℕ → World → Option EventFile → World
ensured h id w none = set_events id (recreated h) w
ensured h id w (some f) = set_events id (terminate_torn_tail f) w

unfoldable pub ensure_events_file : Host → ℕ → Prog (Unit {0})
unfolding recreated
ensure_events_file h id = durable (λ w. w) (λ w. (tt, ensured h id w (w.events id)))

-- the reason and the message of a revert, if an output gives one
unfoldable pub missing_tmp : List CollectedOutput → Prog (Option (String × String))
missing_tmp [] = return none
missing_tmp (op ∷ ops) =
    let rest = missing_tmp ops in
    get (λ w. is_some (w.files op.tmp_path)) >>= (λ there.
      if there then rest else return (some ("output_commit_failed", "tmp missing for " ++ op.role)))

abbrev catch_up_file :
    Host
    → CollectedOutput
    → Prog (Option (String × String))
    → Option String × Option String
    → Prog (Option (String × String))
catch_up_file h op rest (tmp, some sum) =
    if str_eq op.sha256 ""
    then return (some ("output_commit_corrupt", "missing declared sha for " ++ op.role))
    else if not (str_eq sum op.sha256)
    then return (some ("output_commit_corrupt", "sha mismatch for " ++ op.role))
    else if is_some tmp
    then remove_file op.tmp_path >> rest
    else rest
catch_up_file h op rest (some sum, none) = rename_file op.tmp_path op.final_path >>= (λ done.
    if done
    then rest
    else return (
        some (
          "output_commit_failed",
          "rename failed for " ++ (op.role ++ (": " ++ h.rename_error op.tmp_path op.final_path)),
        )))
catch_up_file h op rest (none, none) =
    return (some ("output_commit_corrupt", "tmp+final missing for " ++ op.role))

unfoldable pub catch_up : Host → List CollectedOutput → Prog (Option (String × String))
catch_up h [] = return none
catch_up h (op ∷ ops) =
    let rest = catch_up h ops in
    get (λ w. (w.files op.tmp_path, w.files op.final_path)) >>= catch_up_file h op rest

abbrev pub or_revert :
    Host
    → FinalizeConfig
    → Writer
    → FinalizeIntent
    → Prog (Unit {0})
    → Option (String × String)
    → Prog (Unit {0})
or_revert h cfg ew i go none = go
or_revert h cfg ew i go (some (reason, message)) = revert_intent_to_failed h cfg ew i reason message

unfoldable pub repair_phase :
    Host → FinalizeConfig → Writer → FinalizeIntent → FinalizePhase → Prog (Unit {0})
unfolding commit_from_intent continue_phase_b missing_tmp catch_up
repair_phase h cfg ew i FinalizePhase.prepared =
    if length i.outputs == 0
    then commit_from_intent h cfg ew i
    else missing_tmp i.outputs >>= or_revert h cfg ew i (continue_phase_b h cfg ew i)
repair_phase h cfg ew i FinalizePhase.committing =
    catch_up h i.outputs >>= or_revert h cfg ew i (commit_from_intent h cfg ew i)

unfoldable pub repair_one : Host → RepairConfig → FinalizeIntent → Prog (Unit {0})
unfolding open_events ensure_events_file repair_phase
repair_one h cfg i = do
  there ← get (λ w. is_some (w.events i.mission_id))
  if there then return tt else ensure_events_file h i.mission_id
  ew ← open_events i.mission_id
  repair_phase h cfg.finalize (record ew { limits = cfg.limits }) i i.phase

abbrev is_conflict : Failure → Bool
is_conflict terminal_event_conflict = true
is_conflict _ = false

-- a failure is logged, and a conflict trips the flag
abbrev logged : Run (Unit {0}) → Run (Unit {0})
logged (returned u m) = returned u m
logged (crashed w) = crashed w
logged (failed e m) =
    if is_conflict e
    then returned tt (record m {
      world = record m.world { critical = "terminal_event_conflict" ∷ m.world.critical };
    })
    else returned tt m

unfoldable pub repair_each : Host → RepairConfig → List FinalizeIntent → Prog (Unit {0})
repair_each h cfg [] = return tt
repair_each h cfg (i ∷ is) = (λ m. logged (repair_one h cfg i m)) >> repair_each h cfg is

unfoldable pub repair_finalize_intents : Host → RepairConfig → Prog (Unit {0})
unfolding repair_each
repair_finalize_intents h cfg = get (λ w. w.db.intents) >>= repair_each h cfg
