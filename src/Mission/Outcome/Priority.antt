-- ===== src/Mission/Outcome/Priority.antt =====
-- The priority table of `Compute` in internal/mission/outcome.go.
use letts.Mission.Outcome.{
  ExternalKillReason, compute, by_process, by_final, is_classified, Fd3Violation, killed_by,
  by_fail, Fd3Final, by_success, by_exit, FinalKind, OutcomeResult, by_violations, Format,
  OutcomeInputs,
}
use letts.Prelude.{
  refl, [], none, ◌∷◌, arith, ◌||◌, str_eq, any, pos, ◌&&◌, eqb_ℤ, List, ◌≡◌, some, is_some, String,
  true, not, ℤ, false, Bool, Option,
}
use letts.Storage.Rows.{Outcome}

-- a process that ended by its own doing: neither dugdale, nor memory, nor a signal ended it
abbrev pub undisturbed : OutcomeInputs → Bool
undisturbed in' =
    not (is_some (killed_by in'.external_kill))
    && (not in'.oom_detected
        && (not (str_eq in'.signal "KILL")
            && (not (str_eq in'.signal "killed")
                && (str_eq in'.signal "" || is_some in'.fd3_final))))

abbrev pub final_failed : FinalKind → Bool
final_failed FinalKind.success_event = false
final_failed FinalKind.fail_event = true

abbrev pub failed_finally : Option Fd3Final → Bool
failed_finally none = false
failed_finally (some final) = final_failed final.kind

abbrev pub outcome_succeeded : Outcome → Bool
outcome_succeeded Outcome.success = true
outcome_succeeded _ = false

abbrev pub succeeded : OutcomeResult → Bool
succeeded r = outcome_succeeded r.outcome

by_final-succeeded :
    (f : Format) (code : ℤ) (signal : String) (final : Fd3Final) (kind : FinalKind)
    → succeeded (by_final f code signal final kind) ≡ eqb_ℤ code (pos 0) && not (final_failed kind)
unfolding by_success by_fail
by_final-succeeded f code signal final FinalKind.success_event = ground arith
by_final-succeeded f code signal final FinalKind.fail_event = ground arith

by_exit-succeeded :
    (f : Format) (code : ℤ) (signal : String) (final : Option Fd3Final)
    → succeeded (by_exit f code signal final) ≡ eqb_ℤ code (pos 0) && not (failed_finally final)
unfolding by_exit
by_exit-succeeded f code signal none = ground arith
by_exit-succeeded f code signal (some final) = by_final-succeeded f code signal final final.kind

by_violations-succeeded :
    (code : ℤ) (signal : String) (vs : List Fd3Violation) (r : OutcomeResult)
    → succeeded (by_violations code signal vs r) ≡ not (any is_classified vs) && succeeded r
unfolding by_violations
by_violations-succeeded code signal [] r = refl
by_violations-succeeded code signal (v ∷ vs) r =
    ground (arith, by_violations-succeeded code signal vs r)

by_process-succeeded :
    (f : Format) (in' : OutcomeInputs)
    → killed_by in'.external_kill ≡ none
    → succeeded (by_process f in')
      ≡ undisturbed in'
        && (not (any is_classified in'.fd3_violations)
            && (eqb_ℤ in'.exit_code (pos 0) && not (failed_finally in'.fd3_final)))
unfolding by_process
by_process-succeeded f in' h =
    let exit = by_exit f in'.exit_code in'.signal in'.fd3_final in
    ground (
      arith,
      by_violations-succeeded in'.exit_code in'.signal in'.fd3_violations exit,
      by_exit-succeeded f in'.exit_code in'.signal in'.fd3_final,
      h,
    )

-- `Compute` yields success exactly when nothing disturbed the process (no kill by dugdale, no
-- memory limit, no SIGKILL, no other signal without a final event), no violation of the four
-- classified kinds was recorded, the exit code is 0, and the final event, if any, is not a fail.
pub compute-success :
    (f : Format) (in' : OutcomeInputs)
    → succeeded (compute f in')
      ≡ undisturbed in'
        && (not (any is_classified in'.fd3_violations)
            && (eqb_ℤ in'.exit_code (pos 0) && not (failed_finally in'.fd3_final)))
unfolding compute
compute-success f in' = by_kill_reason in'.external_kill refl
  where
    by_kill_reason :
        (k : ExternalKillReason)
        → in'.external_kill ≡ k
        → succeeded (compute f in')
          ≡ undisturbed in'
            && (not (any is_classified in'.fd3_violations)
                && (eqb_ℤ in'.exit_code (pos 0) && not (failed_finally in'.fd3_final)))
    by_kill_reason ExternalKillReason.kill_none e =
        rw e (ground (arith, by_process-succeeded f in'))
    by_kill_reason ExternalKillReason.kill_timeout e = rw e refl
    by_kill_reason ExternalKillReason.kill_force_delete e = rw e refl
    by_kill_reason ExternalKillReason.kill_lane_removed e = rw e refl
    by_kill_reason ExternalKillReason.kill_dugdale_shutdown e = rw e refl
    by_kill_reason ExternalKillReason.kill_by_api e = rw e refl
