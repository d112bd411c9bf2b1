-- ===== src/Mission/Finalize/Commit.antt =====
-- `commitFinalize` of internal/mission/finalize.go: the durable done event, then one transaction.
use letts.EventFile.Writer.{Write, Writer, Appended, EventFile, open_file, append_done_idempotent}
use letts.EventFile.Json.{Fields}
use letts.Mission.Machine.{
  ◌>>=◌, ◌>>◌, no_events_file, terminal_event_conflict, append_failed, no_events_file, World, Prog,
  Host, durable, transaction, attempt, get, put, return, fail, set_events,
}
use letts.Storage.Rows.{Db, FinalizeIntent, CollectedOutput, Result}
use letts.Prelude.{
  ◌&&◌, ◌==◌, [], none, negsuc, true, ◌||◌, ltb, some, if◌then◌else◌, ◌∷◌, Option, pos, Bool, List,
  ℤ, ℕ, String,
}
use letts.Mission.Finalize.DoneEvent.{done_event_time_finished, extract_done_fields, SizeLimits}
use letts.Storage.Refs.{recalc_staging_ttl, TtlPolicy}
use letts.Mission.Finalize.Transactions.{commit_tx}

pub record FinalizeConfig : Type 0 where
  pub sizes : SizeLimits
  pub ttl : TtlPolicy

-- eventfile.Open, where the healing newline lands
unfoldable pub open_events : ℕ → Prog Writer
open_events id = get (λ w. w.events id) >>= opened
  where
    opened : Option EventFile → Prog Writer
    opened none = fail no_events_file
    opened (some f) =
        let (w, f') = open_file f in get (λ s. set_events id f' s) >>= (λ s. put s >> return w)

-- what AppendDoneIdempotent makes of a write
abbrev appended_world :
    Host → ℕ → Writer → Fields → ℕ → Write → Option EventFile → World → Appended × World
appended_world h id ew fields seq io none w = (Appended.failed, w)
appended_world h id ew fields seq io (some f) w =
    let (r, ew', f') = append_done_idempotent h.line_size true io fields seq (ew, f) in
    (r, set_events id f' w)

abbrev trip : String → World → World
trip kind w = record w { critical = kind ∷ w.critical }

abbrev pub append_result : Appended → Prog (Unit {0})
append_result (Appended.appended n) = return tt
append_result Appended.already_done = return tt
append_result Appended.conflict =
    get (trip "terminal_event_conflict") >>= (λ w. put w >> fail terminal_event_conflict)
append_result _ = fail append_failed

unfoldable pub append_done : Host → ℕ → Writer → Fields → ℕ → Prog (Unit {0})
append_done h id ew fields seq m =
    (durable (λ w. (appended_world h id ew fields seq m.torn (w.events id) w).1)
          (λ w. appended_world h id ew fields seq Write.complete (w.events id) w)
        >>= append_result)
      m

-- the time in the done event, or else that of the clock
abbrev pub finished_ms : Host → ℤ → ℕ
finished_ms h (pos n) = if ltb 0 n then n else h.clock
finished_ms h (negsuc n) = h.clock

abbrev pub is_zero_ttl : TtlPolicy → Bool
is_zero_ttl p =
    p.mission_success == 0
    && (p.mission_failed == 0
        && (p.exec_success == 0
            && (p.exec_failed == 0 && (p.staging_ttl == 0 && p.download_grace == 0))))

abbrev recalc_tx : ℕ → TtlPolicy → Db → Result (ℤ × Db)
recalc_tx id p db = recalc_staging_ttl db id p

-- an error is logged only
unfoldable pub recalc_outputs : TtlPolicy → List CollectedOutput → Prog (Unit {0})
recalc_outputs p [] = return tt
recalc_outputs p (op ∷ ops) = attempt (recalc_tx op.staging_id p) >> recalc_outputs p ops

unfoldable pub commit_finalize :
    Host → FinalizeConfig → Writer → FinalizeIntent → List CollectedOutput → Prog (Unit {0})
unfolding append_done recalc_outputs
commit_finalize h cfg ew i outputs =
    let fields = extract_done_fields i.done_event in
    let finished = finished_ms h (done_event_time_finished fields) in
    do
      append_done h i.mission_id ew fields i.done_seq
      gone ← transaction (commit_tx i outputs finished)
      if gone || is_zero_ttl cfg.ttl then return tt else recalc_outputs cfg.ttl outputs
