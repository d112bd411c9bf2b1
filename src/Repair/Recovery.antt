-- ===== src/Repair/Recovery.antt =====
-- A death of the process in the finalize protocol, and internal/repair/intents.go at the next start.
use letts.EventFile.Writer.{
  too_long, new_writer, Writer, EventFile, Event, Write, terminate_torn_tail, open_file,
}
use letts.EventFile.Writer.Agreement.{Agrees}
use letts.Mission.Machine.{◌>>=◌, ◌>>◌, and_then, World, Machine, Host, Run, returned, set_events}
use letts.Mission.Finalize.{continue_phase_b, labels, commit_from_intent}
use letts.Mission.Finalize.CrashSafety.{Pending, Finished, commit_finalize-completes}
use letts.Storage.Rows.{CollectedOutput, FinalizePhase, FinalizeIntent, Mission}
use letts.Repair.Intents.{or_revert, missing_tmp, repair_phase, repair_one, RepairConfig}
use letts.Mission.Finalize.DoneEvent.{extract_done_fields}
use letts.Prelude.{
  ◌==◌, length, if◌then◌else◌, List, ap, ◌∙◌, suc, false, [], some, refl, ◌≡◌, ==_refl, ℕ,
}
use letts.EventFile.Json.Equality.{HasKeys}
use letts.Storage.Missions.{get_mission}
use letts.Mission.Finalize.Prepared.{open_events-there, open_file-Agrees, opened_file}
use letts.Mission.Finalize.Commit.{commit_finalize, FinalizeConfig}

opened-Pending :
    (i : FinalizeIntent) (w : World) (f : EventFile)
    → Pending i w
    → Agrees (extract_done_fields i.done_event) f
    → Pending i (set_events i.mission_id (opened_file f) w)
opened-Pending i w f p a = record {
  row = p.row;
  unique = p.unique;
  intent = p.intent;
  file = (opened_file f, rw (==_refl i.mission_id) refl, open_file-Agrees _ f a);
}

labels-there :
    (id : ℕ) (m : Machine) (row : Mission)
    → get_mission m.world.db id ≡ some row
    → labels id m ≡ returned tt m
labels-there id m row there = rw there refl

repair_phase-prepared :
    (h : Host) (cfg : FinalizeConfig) (ew : Writer) (i : FinalizeIntent) (m : Machine)
    (row : Mission)
    → get_mission m.world.db i.mission_id ≡ some row
    → i.outputs ≡ []
    → repair_phase h cfg ew i FinalizePhase.prepared m ≡ commit_finalize h cfg ew i [] m
unfolding repair_phase commit_from_intent
repair_phase-prepared h cfg ew i m row there none_out =
    ap
      (λ (outputs : List CollectedOutput).
        (if length outputs == 0
            then labels i.mission_id >> commit_finalize h cfg ew i outputs
            else missing_tmp outputs >>= or_revert h cfg ew i (continue_phase_b h cfg ew i))
          m)
      none_out
    ∙ ap (λ (r : Run (Unit {0})). and_then r (λ u. commit_finalize h cfg ew i []))
        (labels-there i.mission_id m row there)

-- the writer of a repair
abbrev repair_writer : RepairConfig → EventFile → Writer
repair_writer cfg f = record (open_file f).0 { limits = cfg.limits }

repair_one-there :
    (h : Host) (cfg : RepairConfig) (i : FinalizeIntent) (m : Machine) (f : EventFile)
    → m.world.events i.mission_id ≡ some f
    → repair_one h cfg i m
      ≡ repair_phase h cfg.finalize
          (repair_writer cfg f)
          i
          i.phase
          (record m { world = set_events i.mission_id (opened_file f) m.world })
unfolding repair_one
repair_one-there h cfg i m f there = rw (there, open_events-there i.mission_id m f there) refl

-- Repair at the next start finishes a pending intent that is prepared and has no outputs, if its
-- done event holds each key once and its event's line is within max_event_line_size, and two
-- durable steps succeed: the row is done with the intent's outcome, the intent is deleted and the
-- intent's event is the last done event of the file.
pub repair_one-finishes :
    (h : Host) (cfg : RepairConfig) (i : FinalizeIntent) (n : ℕ) (torn : Write) (w : World)
    → HasKeys (extract_done_fields i.done_event)
    → i.outputs ≡ []
    → i.phase ≡ FinalizePhase.prepared
    → ((e : Event)
        → e.fields ≡ extract_done_fields i.done_event
        → too_long cfg.limits (h.line_size e) ≡ false)
    → Pending i w
    → (w' : World) × (repair_one h cfg i (record { left = suc (suc n); torn = torn; world = w })
        ≡ returned tt (record { left = n; torn = torn; world = w' }))
      × Finished i w'
unfolding open_file new_writer terminate_torn_tail
repair_one-finishes h cfg i n torn w keys none_out prep fits p =
    let (f, there, agrees) = p.file in
    let (m, row, active) = p.row in
    let opened = set_events i.mission_id (opened_file f) w in
    let (w', run, finished) =
      commit_finalize-completes h cfg.finalize (repair_writer cfg f) i opened (opened_file f) n torn
        keys refl refl fits (opened-Pending i w f p agrees) (rw (==_refl i.mission_id) refl)
        (open_file-Agrees _ f agrees) in
    let machine : World → Machine = λ v. record { left = suc (suc n); torn = torn; world = v } in
    (
      w',
      repair_one-there h cfg i (machine w) f there
          ∙ ap (λ phase. repair_phase h cfg.finalize (repair_writer cfg f) i phase (machine opened))
              prep
          ∙ repair_phase-prepared h cfg.finalize (repair_writer cfg f) i (machine opened) m row
              none_out
          ∙ run,
      finished,
    )
