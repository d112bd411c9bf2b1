-- ===== src/Cli/ExitCodes/Classes.antt =====
-- What an exit code of cmd/letts/exitcode.go tells a script.
use letts.Cli.ExitCodes.{
  is_cobra_usage_error, as_foreign, as_outcome, Target, Err, Foreign, as', map_foreign,
  wrap_exec_transport, map_error_to_exit, map_typed, map_exec_outcome_exit_code,
}
use letts.Prelude.{
  pos, ℤ, is_some, ◌||◌, if◌then◌else◌, Bool, true, ◌∙◌, Option-cases, inr, inl, Bool-cases, refl,
  none, arith, false, ◌≡◌, some, ◌<◌, ℕ, String, Option,
}
use letts.Storage.Rows.{Outcome}

map_foreign-pos : (f : Option Foreign) → 0 < map_foreign f
unfolding map_foreign
map_foreign-pos none = omega arith
map_foreign-pos (some f) = ground arith

pos-if : (b : Bool) (m n : ℕ) → 0 < m → 0 < n → 0 < (if b then m else n)
pos-if true m n h g = h
pos-if false m n h g = g

map_typed-pos : (message : String) (e : Err) → 0 < map_typed message e
unfolding map_typed
map_typed-pos message e = pos-if (as' Target.bad_usage_error e) 2 _ (omega arith) (
    pos-if (as' Target.wait_timeout_error e) 124 _ (omega arith) (
      pos-if (as' Target.config_error e) 3 _ (omega arith) (
        pos-if (as' Target.auth_error e) 5 _ (omega arith) (
          pos-if (as' Target.network_error e) 4 _ (omega arith) (
            pos-if (as' Target.mission_abnormal_error e) 125 _ (omega arith) (
              pos-if (is_cobra_usage_error message) 2 _ (omega arith)
                (map_foreign-pos (as_foreign e))))))))

outcome-zero :
    (o : Outcome) (code : ℤ)
    → map_exec_outcome_exit_code o code ≡ pos 0
    → (o ≡ Outcome.success) × (code ≡ pos 0)
unfolding map_exec_outcome_exit_code
outcome-zero Outcome.success code h = (refl, ground arith)
outcome-zero Outcome.failed code h = absurd (ground arith)
outcome-zero Outcome.killed code h = absurd (ground arith)
outcome-zero Outcome.timeout code h = absurd (ground arith)
outcome-zero Outcome.crashed code h = absurd (ground arith)
outcome-zero Outcome.lost code h = absurd (ground arith)
outcome-zero Outcome.oom code h = absurd (ground arith)

pos_inj : (a b : ℕ) → pos a ≡ pos b → a ≡ b
pos_inj a b h = cc

-- The client exits with 0 on an error only when the error is the outcome success with exit code 0.
pub map_error_to_exit-zero :
    (message : String) (e : Err)
    → map_error_to_exit message (some e) ≡ pos 0
    → as_outcome e ≡ some (Outcome.success, pos 0)
unfolding map_error_to_exit
map_error_to_exit-zero message e h = elim (Bool-cases (as' Target.exec_transport_error e)) [
  | inl t ↦ absurd (omega (arith, pos_inj 255 0 (rw t at h)))
  | inr f ↦ elim (Option-cases (as_outcome e)) [
    | inl t ↦
        absurd
          (omega (arith, map_typed-pos message e, pos_inj (map_typed message e) 0 (rw (f, t) at h)))
    | inr ((o, code), t) ↦ let (p, q) = outcome-zero o code (rw (f, t) at h) in t ∙ cc (p, q)
  ]
]

abbrev is_final : Err → Bool
is_final e =
    as' Target.bad_usage_error e
    || (as' Target.wait_timeout_error e
        || (is_some (as_outcome e) || as' Target.exec_transport_error e))

wrapped_is_final : (e : Err) → is_final (Err.exec_transport e) ≡ true
unfolding as' as_outcome
wrapped_is_final e = ground arith

-- Wrapping an error of the exec command twice is wrapping it once.
pub wrap_exec_transport_idem :
    (e : Option Err) → wrap_exec_transport (wrap_exec_transport e) ≡ wrap_exec_transport e
unfolding wrap_exec_transport as'
wrap_exec_transport_idem none = refl
wrap_exec_transport_idem (some e) = elim (Bool-cases (is_final e)) [
  | inl t ↦ rw t (rw t refl)
  | inr f ↦ rw f (rw (wrapped_is_final e) refl)
]

-- An error of the exec command that is neither bad usage, nor a wait timeout, nor the outcome of
-- a mission ends the process with 255, whatever class it would have by itself.
pub map_error_to_exit-transport :
    (message : String) (e : Err)
    → as' Target.bad_usage_error e ≡ false
    → as' Target.wait_timeout_error e ≡ false
    → as_outcome e ≡ none
    → map_error_to_exit message (wrap_exec_transport (some e)) ≡ pos 255
unfolding map_error_to_exit wrap_exec_transport as'
map_error_to_exit-transport message e b w o =
    rw (b, w, o)
      (elim (Bool-cases (as' Target.exec_transport_error e)) [
        | inl t ↦ rw t (rw t refl)
        | inr f ↦ rw f refl
      ])
