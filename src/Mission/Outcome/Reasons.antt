-- ===== src/Mission/Outcome/Reasons.antt =====
-- The return value and the fail_reason that `Compute` of internal/mission/outcome.go stores.
use letts.Storage.Rows.{Outcome}
use letts.Mission.Outcome.{
  by_kill, ExternalKillReason, killed_by, compute, is_classified, Fd3Violation, by_final,
  OutcomeInputs, FinalKind, by_fail, Format, Fd3Final, by_process, by_exit, by_violations,
  OutcomeResult, by_success, signal_to_fail_reason,
}
use mathlib.Core.Bool.{true≢false}
use Prim.Native.String.{◌++◌}
use Prim.Native.String.append
use Prim.Native.Char.{Char}
use letts.Prelude.{
  ◌≢◌, is_some, ◌&&◌, ◌∙◌, sym, inr, inl, pos, eqb_ℤ, if◌then◌else◌, Bool-cases, eq_iff, [], refl,
  ◌∷◌, false, arith, none, str_eq, true, List, ◌||◌, some, ◌≡◌, not, String, Bool, ℤ, Option,
}

-- where a stored return value comes from
abbrev pub Returned : Option Fd3Final → String → Type 0
Returned none ret = ⊥
Returned (some final) ret = (final.kind ≡ FinalKind.success_event) × (final.return_value ≡ some ret)

by_final-return :
    (f : Format) (code : ℤ) (signal ret : String) (final : Fd3Final) (kind : FinalKind)
    → (by_final f code signal final kind).return_value ≡ some ret
    → (kind ≡ FinalKind.success_event) × (final.return_value ≡ some ret)
unfolding by_success by_fail
by_final-return f code signal ret final FinalKind.success_event h = (refl, ground arith)
by_final-return f code signal ret final FinalKind.fail_event h = absurd (ground arith)

by_exit-return :
    (f : Format) (code : ℤ) (signal ret : String) (final : Option Fd3Final)
    → (by_exit f code signal final).return_value ≡ some ret
    → Returned final ret
unfolding by_exit
by_exit-return f code signal ret none h = absurd (ground arith)
by_exit-return f code signal ret (some final) h =
    by_final-return f code signal ret final final.kind h

by_violations-return :
    (code : ℤ) (signal ret : String) (vs : List Fd3Violation) (r : OutcomeResult)
    → (by_violations code signal vs r).return_value ≡ some ret
    → r.return_value ≡ some ret
unfolding by_violations
by_violations-return code signal ret [] r h = h
by_violations-return code signal ret (v ∷ vs) r h =
    ground (arith, by_violations-return code signal ret vs r)

by_process-return :
    (f : Format) (in' : OutcomeInputs) (ret : String)
    → (by_process f in').return_value ≡ some ret
    → (by_exit f in'.exit_code in'.signal in'.fd3_final).return_value ≡ some ret
unfolding by_process
by_process-return f in' ret h = ground (
  arith,
  by_violations-return in'.exit_code in'.signal ret in'.fd3_violations
      (by_exit f in'.exit_code in'.signal in'.fd3_final),
)

abbrev has_reason : OutcomeResult → Bool
has_reason r = not (str_eq r.fail_reason "")

abbrev pub may_lack_reason : Outcome → Bool
may_lack_reason Outcome.success = true
may_lack_reason Outcome.timeout = true
may_lack_reason _ = false

abbrev pub explained : OutcomeResult → Bool
explained r = may_lack_reason r.outcome || not (str_eq r.fail_reason "")

data Named (s : String) : Type 0 where
  named : str_eq s "" ≡ false → Named s

data Explained (r : OutcomeResult) : Type 0 where
  because : explained r ≡ true → Explained r

Named-if : (b : Bool) (s t : String) → Named s → Named t → Named (if b then s else t)
Named-if true s t h g = h
Named-if false s t h g = g

Explained-if :
    (b : Bool) (r s : OutcomeResult) → Explained r → Explained s → Explained (if b then r else s)
Explained-if true r s h g = h
Explained-if false r s h g = g

cons_nonempty : (c : Char) (s : String) → String.◌∷◌ c s ≢ String.[]
cons_nonempty c s e = cc

signal_prefix-Named : (sig : String) → Named ("signal_" ++ sig)
signal_prefix-Named sig = elim (Bool-cases (str_eq ("signal_" ++ sig) "")) [
  | inl e ↦ absurd (
      cons_nonempty "s" ("ignal_" ++ sig)
        (sym (λ i. append.cons "s" "ignal_" sig i) ∙ (eq_iff ("signal_" ++ sig) "").0 e))
  | inr e ↦ named e
]

signal_to_fail_reason-Named : (sig : String) → Named (signal_to_fail_reason sig)
unfolding signal_to_fail_reason
signal_to_fail_reason-Named sig =
    Named-if (str_eq sig "SEGV" || str_eq sig "segmentation fault") "segfault" _ (named refl) (
      Named-if (str_eq sig "BUS" || str_eq sig "bus error") "sigbus" _ (named refl) (
        Named-if (str_eq sig "ILL" || str_eq sig "illegal instruction") "sigill" _ (named refl) (
          Named-if (str_eq sig "FPE" || str_eq sig "floating point exception") "sigfpe" _
            (named refl)
            (Named-if (str_eq sig "TRAP" || str_eq sig "trace/breakpoint trap") "sigtrap" _
              (named refl)
              (Named-if (str_eq sig "ABRT" || str_eq sig "aborted") "sigabrt" _ (named refl)
                (signal_prefix-Named sig))))))

explicit-Named : (s : String) → Named (if str_eq s "" then "explicit" else s)
explicit-Named s = elim (Bool-cases (str_eq s "")) [
  | inl e ↦ rw e (named refl)
  | inr e ↦ rw e (named e)
]

Named-failure : (r : OutcomeResult) → Named r.fail_reason → Explained r
Named-failure r (named h) =
    because
      (elim (Bool-cases (may_lack_reason r.outcome)) [ inl e ↦ rw e refl | inr e ↦ rw (e, h) refl ])

classified_nonempty :
    (s : String)
    → s ≡ ""
    → (str_eq s "event_line_too_large"
        || (str_eq s "event_protocol_error"
            || (str_eq s "duplicate_final_event" || str_eq s "too_many_output_files")))
      ≡ false
classified_nonempty s e = rw e refl

classified-Named : (v : Fd3Violation) → is_classified v ≡ true → Named v.reason
unfolding is_classified
classified-Named v h = elim (Bool-cases (str_eq v.reason "")) [
  | inl e ↦ absurd (true≢false (sym h ∙ classified_nonempty v.reason ((eq_iff v.reason "").0 e)))
  | inr e ↦ named e
]

by_final-Explained :
    (f : Format) (code : ℤ) (signal : String) (final : Fd3Final) (kind : FinalKind)
    → Explained (by_final f code signal final kind)
unfolding by_success by_fail
by_final-Explained f code signal final FinalKind.success_event =
    Explained-if (eqb_ℤ code (pos 0)) _ _ (because refl) (because refl)
by_final-Explained f code signal final FinalKind.fail_event =
    Explained-if (eqb_ℤ code (pos 0)) _ _ (because refl)
      (Named-failure _ (explicit-Named final.reason))

by_exit-Explained :
    (f : Format) (code : ℤ) (signal : String) (final : Option Fd3Final)
    → Explained (by_exit f code signal final)
unfolding by_exit
by_exit-Explained f code signal none =
    Explained-if (eqb_ℤ code (pos 0)) _ _ (because refl) (because refl)
by_exit-Explained f code signal (some final) = by_final-Explained f code signal final final.kind

by_violations-Explained :
    (code : ℤ) (signal : String) (vs : List Fd3Violation) (r : OutcomeResult)
    → Explained r
    → Explained (by_violations code signal vs r)
unfolding by_violations
by_violations-Explained code signal [] r h = h
by_violations-Explained code signal (v ∷ vs) r h = elim (Bool-cases (is_classified v)) [
  | inl e ↦ rw e (Named-failure _ (classified-Named v e))
  | inr e ↦ rw e (by_violations-Explained code signal vs r h)
]

by_process-Explained : (f : Format) (in' : OutcomeInputs) → Explained (by_process f in')
unfolding by_process
by_process-Explained f in' = elim (Bool-cases in'.oom_detected) [
  | inl e ↦ rw e (because refl)
  | inr e ↦ rw e (elim (Bool-cases (str_eq in'.signal "KILL" || str_eq in'.signal "killed")) [
    | inl k ↦ rw k (because refl)
    | inr k ↦ rw k (elim (Bool-cases (not (str_eq in'.signal "") && not (is_some in'.fd3_final))) [
      | inl t ↦ rw t (Named-failure _ (signal_to_fail_reason-Named in'.signal))
      | inr t ↦ rw t (
          by_violations-Explained in'.exit_code in'.signal in'.fd3_violations _
            (by_exit-Explained f in'.exit_code in'.signal in'.fd3_final))
    ])
  ])
]

explained_holds : (r : OutcomeResult) → Explained r → explained r ≡ true
explained_holds r (because h) = h

-- A kill by dugdale decides the outcome and the fail_reason alone: neither a final event, nor
-- the exit, nor the memory marker, nor a violation changes them, and no return value is kept.
pub compute-killed :
    (f : Format) (in' : OutcomeInputs) (o : Outcome) (reason : String)
    → killed_by in'.external_kill ≡ some (o, reason)
    → ((compute f in').outcome ≡ o)
      × ((compute f in').fail_reason ≡ reason)
      × ((compute f in').return_value ≡ none)
      × ((compute f in').exit_code ≡ in'.exit_code)
unfolding compute
compute-killed f in' o reason h = rw h (refl, refl, refl, refl)

by_kill-return :
    (f : Format) (in' : OutcomeInputs) (ret : String) (k : Option (Outcome × String))
    → (by_kill f in' k).return_value ≡ some ret
    → Returned in'.fd3_final ret
by_kill-return f in' ret none h =
    by_exit-return f in'.exit_code in'.signal ret in'.fd3_final (by_process-return f in' ret h)
by_kill-return f in' ret (some (o, reason)) h = cc

-- A return value is stored only with the success outcome, and then it is the one of the mission's
-- own success event.
pub compute-return :
    (f : Format) (in' : OutcomeInputs) (ret : String)
    → (compute f in').return_value ≡ some ret
    → Returned in'.fd3_final ret
unfolding compute
compute-return f in' ret h = by_kill-return f in' ret (killed_by in'.external_kill) h

-- Whatever the process did, an outcome that is neither success nor timeout has a fail_reason.
pub compute-explained : (f : Format) (in' : OutcomeInputs) → explained (compute f in') ≡ true
unfolding compute
compute-explained f in' = by_kill_reason in'.external_kill refl
  where
    by_kill_reason :
        (k : ExternalKillReason) → in'.external_kill ≡ k → explained (compute f in') ≡ true
    by_kill_reason ExternalKillReason.kill_none e =
        rw e (explained_holds _ (by_process-Explained f in'))
    by_kill_reason ExternalKillReason.kill_timeout e = rw e refl
    by_kill_reason ExternalKillReason.kill_force_delete e = rw e refl
    by_kill_reason ExternalKillReason.kill_lane_removed e = rw e refl
    by_kill_reason ExternalKillReason.kill_dugdale_shutdown e = rw e refl
    by_kill_reason ExternalKillReason.kill_by_api e = rw e refl
