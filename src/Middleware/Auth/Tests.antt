-- ===== src/Middleware/Auth/Tests.antt =====
-- A configuration with one admin token and one exec token, and the theorems on it.
use letts.Middleware.Auth.Decisions.{auth-justified, HeaderJustified, ConfigBytes}
use letts.Middleware.Auth.Tokens.{differences, constant_time_eq, contains, Bytes}
use letts.Middleware.Auth.{
  scope_includes_protected, Response, trim_left, auth_token, strip_prefix, auth_either, Scope,
  trim_space, guarded_by, auth, bearer_token, AuthConfig, State,
}
use letts.Prelude.{refl, ◌≡◌, [], ◌∷◌, some, arith, ℕ}
use letts.Middleware.BruteForce.{
  failed_entry, check_blocked, delete, lookup, record_failure, Tracker, new_tracker,
}

-- "k1" and "x1"
abbrev admin_token : Bytes
admin_token = 107 ∷ 49 ∷ []

abbrev exec_token : Bytes
exec_token = 120 ∷ 49 ∷ []

abbrev cfg : AuthConfig
cfg = record { dispatch = []; exec = exec_token ∷ []; admin = admin_token ∷ [] }

abbrev header : Bytes → Bytes
header tok = 66 ∷ 101 ∷ 97 ∷ 114 ∷ 101 ∷ 114 ∷ 32 ∷ tok

abbrev one_more : Tracker → ℕ → Tracker
one_more b now = record_failure b "10.0.0.1" now

abbrev four_failures : Tracker
four_failures = one_more (one_more (one_more (one_more (new_tracker 3600000000000) 1) 2) 3) 4

abbrev state : State
state = record { brute_force = some four_failures; admin_failures = 0 }

abbrev cfg_bytes : ConfigBytes cfg
cfg_bytes = (tt, ((omega arith, (omega arith, tt)), tt), ((omega arith, (omega arith, tt)), tt))

-- an exec token on the exec scope, behind spaces
exec_served :
    (auth cfg Scope.exec "10.0.0.1" 5 6 (header (32 ∷ exec_token)) state).0
    ≡ Response.served Scope.exec
unfolding auth guarded_by auth_token bearer_token contains constant_time_eq differences new_tracker
    record_failure lookup delete failed_entry check_blocked scope_includes_protected trim_space
exec_served = refl

auth-justified_example :
    HeaderJustified cfg
      (bearer_token (header exec_token))
      (Scope.exec ∷ [])
      (auth cfg Scope.exec "10.0.0.1" 5 6 (header exec_token) state).0
    × HeaderJustified cfg
        (bearer_token (header exec_token))
        (Scope.dispatch ∷ Scope.exec ∷ [])
        (auth_either cfg
          (Scope.dispatch ∷ Scope.exec ∷ [])
          "10.0.0.1"
          5
          6
          (header exec_token)
          state).0
auth-justified_example =
    auth-justified cfg Scope.exec (Scope.dispatch ∷ Scope.exec ∷ []) "10.0.0.1" 5 6
      (header exec_token) state cfg_bytes

-- a wrong token, "zz"
abbrev wrong : Bytes
wrong = 122 ∷ 122 ∷ []

not_blocked : (check_blocked four_failures "10.0.0.1" 5).0 ≡ 0
unfolding new_tracker record_failure lookup delete failed_entry check_blocked
not_blocked = refl

header_token : bearer_token (header admin_token) ≡ some admin_token
unfolding bearer_token trim_space strip_prefix trim_left
header_token = refl
