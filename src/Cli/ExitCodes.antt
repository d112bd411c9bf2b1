-- ===== src/Cli/ExitCodes.antt =====
-- cmd/letts/exec_exit.go and exitcode.go: which error ends the process with which code. An error
-- is the chain of what its Unwrap methods pass through; a branching chain is not modelled. The last
-- link may be an error of another package, of which the code asks the status of an *HTTPError, and
-- whether a *url.Error or a net.Error is found in it. The text of an error is passed beside it.
pub mod Classes
use letts.Prelude.{
  eqb_ℤ, pos, ℤ, ◌&&◌, is_some, none, ◌||◌, [], if◌then◌else◌, true, false, ◌==◌, some, any, ◌∷◌,
  String, List, Option, ℕ, Bool,
}
use letts.Storage.Rows.{Outcome}
use Prim.Native.Char.{code}

pub record Foreign : Type 0 where
  pub http_status : Option ℕ
  pub url_error : Bool
  pub net_error : Bool

pub data Err : Type 0 where
  bad_usage config auth : Err
  wait_timeout mission_abnormal : Err
  exec_outcome : Outcome → ℤ → Err
  exec_transport network : Err → Err
  foreign : Foreign → Err

-- what errors.As looks for; the target takes the first link of its type
pub data Target : Type 0 where
  exec_transport_error bad_usage_error wait_timeout_error config_error auth_error : Target
  network_error mission_abnormal_error : Target

unfoldable pub as' : Target → Err → Bool
as' Target.bad_usage_error Err.bad_usage = true
as' Target.config_error Err.config = true
as' Target.auth_error Err.auth = true
as' Target.wait_timeout_error Err.wait_timeout = true
as' Target.mission_abnormal_error Err.mission_abnormal = true
as' Target.exec_transport_error (Err.exec_transport e) = true
as' Target.network_error (Err.network e) = true
as' t (Err.exec_transport e) = as' t e
as' t (Err.network e) = as' t e
as' t _ = false

-- errors.As for *ExecOutcomeError, with what it holds
unfoldable pub as_outcome : Err → Option (Outcome × ℤ)
as_outcome (Err.exec_outcome o code) = some (o, code)
as_outcome (Err.exec_transport e) = as_outcome e
as_outcome (Err.network e) = as_outcome e
as_outcome _ = none

unfoldable pub as_foreign : Err → Option Foreign
as_foreign (Err.foreign f) = some f
as_foreign (Err.exec_transport e) = as_foreign e
as_foreign (Err.network e) = as_foreign e
as_foreign _ = none

unfoldable pub wrap_exec_transport : Option Err → Option Err
unfolding as' as_outcome
wrap_exec_transport none = none
wrap_exec_transport (some e) =
    if as' Target.bad_usage_error e
      || (as' Target.wait_timeout_error e
          || (is_some (as_outcome e) || as' Target.exec_transport_error e))
    then some e
    else some (Err.exec_transport e)

abbrev pub reserved : ℤ → Bool
reserved code = eqb_ℤ code (pos 124) || (eqb_ℤ code (pos 125) || eqb_ℤ code (pos 255))

unfoldable pub map_exec_outcome_exit_code : Outcome → ℤ → ℤ
map_exec_outcome_exit_code Outcome.success code = if reserved code then pos 125 else code
map_exec_outcome_exit_code Outcome.failed code =
    if eqb_ℤ code (pos 0) then pos 1 else if reserved code then pos 125 else code
map_exec_outcome_exit_code _ code = pos 125

-- strings.HasPrefix, of a prefix that is not empty
unfoldable pub has_prefix : String → String → Bool
has_prefix s String.[] = true
has_prefix String.[] (String.◌∷◌ d p) = false
has_prefix (String.◌∷◌ c s) (String.◌∷◌ d p) = code c == code d && has_prefix s p

abbrev pub cobra_usage_error_prefixes : List String
cobra_usage_error_prefixes =
    "unknown command " ∷ "unknown flag: " ∷ "unknown shorthand flag: " ∷ "required flag(s) "
    ∷ "accepts " ∷ "requires at least " ∷ []

unfoldable pub is_cobra_usage_error : String → Bool
unfolding has_prefix
is_cobra_usage_error message = any (has_prefix message) cobra_usage_error_prefixes

abbrev is_refused : Option ℕ → Bool
is_refused none = false
is_refused (some status) = status == 401 || status == 403

-- raw client errors, after the typed ones
unfoldable pub map_foreign : Option Foreign → ℕ
map_foreign none = 1
map_foreign (some f) =
    if is_refused f.http_status then 5 else if f.url_error || f.net_error then 4 else 1

unfoldable pub map_typed : String → Err → ℕ
unfolding as' as_foreign map_foreign is_cobra_usage_error
map_typed message e =
    if as' Target.bad_usage_error e
    then 2
    else if as' Target.wait_timeout_error e
    then 124
    else if as' Target.config_error e
    then 3
    else if as' Target.auth_error e
    then 5
    else if as' Target.network_error e
    then 4
    else if as' Target.mission_abnormal_error e
    then 125
    else if is_cobra_usage_error message
    then 2
    else map_foreign (as_foreign e)

abbrev by_outcome : ℕ → Option (Outcome × ℤ) → ℤ
by_outcome typed none = pos typed
by_outcome typed (some (o, code)) = map_exec_outcome_exit_code o code

-- the code of an error, whose text is the message
unfoldable pub map_error_to_exit : String → Option Err → ℤ
unfolding as' as_outcome map_typed map_exec_outcome_exit_code
map_error_to_exit message none = pos 0
map_error_to_exit message (some e) =
    if as' Target.exec_transport_error e
    then pos 255
    else by_outcome (map_typed message e) (as_outcome e)
