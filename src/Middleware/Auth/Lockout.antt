-- ===== src/Middleware/Auth/Lockout.antt =====
-- How the failures of one request decide the next, in internal/server/middleware/auth.go.
use letts.Middleware.BruteForce.{check_blocked, Tracker}
use letts.Middleware.Auth.{
  auth_either, bearer_token, Response, is_guarded, State, Scope, AuthConfig,
  scope_includes_protected, auth_token, guarded_by, auth,
}
use letts.Prelude.{any, Bool, List, [], All, ◌≢◌, arith, true, some, ◌≡◌, ℕ, String}
use letts.Middleware.Auth.Tokens.{contains_complete, IsBytes, Bytes}
use letts.Middleware.BruteForce.Backoff.{check_blocked-unblocked}
use mathlib.Core.List.{Memᴰ}

-- the tracker after the request's own check
abbrev pub checked : Tracker → String → ℕ → Tracker
checked t key now = (check_blocked t key now).1

-- an endpoint behind `Auth`, or behind `AuthEither`
pub data Endpoint : Type 0 where
  requires : Scope → Endpoint
  accepts : List Scope → Endpoint

abbrev pub answer : AuthConfig → Endpoint → String → ℕ → ℕ → Bytes → State → Response × State
answer cfg (requires sc) key now later hdr s = auth cfg sc key now later hdr s
answer cfg (accepts scs) key now later hdr s = auth_either cfg scs key now later hdr s

-- admin or exec is asked for, or among the scopes that are accepted
abbrev pub is_tracked : Endpoint → Bool
is_tracked (requires sc) = is_guarded sc
is_tracked (accepts scs) = any is_guarded scs

-- A guarded request whose key is not blocked and that carries a token of the admin list is served
-- as the admin, and its key is not blocked after it, whatever its failures were.
pub auth-admin_served :
    (cfg : AuthConfig) (required : Scope) (key : String) (now later next : ℕ) (hdr tok : Bytes)
    (s : State) (t : Tracker)
    → s.brute_force ≡ some t
    → is_guarded required ≡ true
    → (check_blocked t key now).0 ≡ 0
    → bearer_token hdr ≡ some tok
    → All IsBytes cfg.admin
    → IsBytes tok
    → Memᴰ tok cfg.admin
    → tok ≢ []
    → ((auth cfg required key now later hdr s).0 ≡ Response.served Scope.admin)
      × ((u : Tracker)
          → (auth cfg required key now later hdr s).1.brute_force ≡ some u
          → (check_blocked u key next).0 ≡ 0)
unfolding auth guarded_by auth_token scope_includes_protected
auth-admin_served cfg required key now later next hdr tok s t tracked guarded free header ha hb m
      ne =
    let known = contains_complete cfg.admin tok ha hb m ne in
    let lifted = (check_blocked-unblocked (checked t key now) key next).0 in
    (ground arith, λ u e. ground arith)
