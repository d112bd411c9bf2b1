-- ===== src/Middleware/Auth.antt =====
-- internal/server/middleware/auth.go: Bearer tokens with a scope, behind the failure tracker. A
-- header is its bytes, of which TrimSpace cuts the ASCII white space. The tracker reads its clock
-- when it is asked and again when a failure is recorded. A handler that is reached is `served`.
pub mod Tokens
pub mod Decisions
pub mod Lockout
mod Tests
use mathlib.Core.Option
use letts.Middleware.BruteForce.{record_success, check_blocked, record_failure, Tracker}
use letts.Prelude.{
  ◌*◌, ◌&&◌, ◌+◌, false, ◌==◌, ltb, any, true, if◌then◌else◌, none, ◌∷◌, ◌||◌, [], some, leb, Bool,
  List, ◌/◌, Option, String, ℕ,
}
use letts.Middleware.Auth.Tokens.{contains, Bytes}
use mathlib.Core.List.{reverse}

pub data Scope : Type 0 where
  dispatch exec admin : Scope

abbrev pub scope_eq : Scope → Scope → Bool
scope_eq Scope.dispatch Scope.dispatch = true
scope_eq Scope.exec Scope.exec = true
scope_eq Scope.admin Scope.admin = true
scope_eq _ _ = false

-- the token lists; a nil tracker is `none` in the state
pub record AuthConfig : Type 0 where
  pub dispatch : List Bytes
  pub exec : List Bytes
  pub admin : List Bytes

-- the tracker, and the counter letts_admin_auth_failures_total
pub record State : Type 0 where
  pub brute_force : Option Tracker
  pub admin_failures : ℕ

pub data Response : Type 0 where
  rate_limited : ℕ → Response  -- 429, with Retry-After
  unauthorized : Response  -- 401
  forbidden : Response  -- 403
  served : Scope → Response

abbrev pub is_guarded : Scope → Bool
is_guarded Scope.admin = true
is_guarded Scope.exec = true
is_guarded Scope.dispatch = false

unfoldable pub scope_includes_protected : Scope → List Scope → Bool
scope_includes_protected required allowed = is_guarded required || any is_guarded allowed

-- whole seconds, rounded up, and at least one
unfoldable pub retry_after : ℕ → ℕ
retry_after d =
    let floor = d / 1000000000 in
    let seconds = if ltb 0 d && ltb (floor * 1000000000) d then floor + 1 else floor in
    if ltb seconds 1 then 1 else seconds

unfoldable pub strip_prefix : Bytes → Bytes → Option Bytes
strip_prefix [] s = some s
strip_prefix (c ∷ p) [] = none
strip_prefix (c ∷ p) (d ∷ s) = let rest = strip_prefix p s in if c == d then rest else none

abbrev is_space : ℕ → Bool
is_space c = leb 9 c && leb c 13 || c == 32

unfoldable pub trim_left : Bytes → Bytes
trim_left [] = []
trim_left (c ∷ s) = let rest = trim_left s in if is_space c then rest else c ∷ s

unfoldable pub trim_space : Bytes → Bytes
unfolding trim_left
trim_space s = reverse (trim_left (reverse (trim_left s)))

-- "Bearer "
abbrev pub bearer : Bytes
bearer = 66 ∷ 101 ∷ 97 ∷ 114 ∷ 101 ∷ 114 ∷ 32 ∷ []

-- the token of an Authorization header, or that there is none
unfoldable pub bearer_token : Bytes → Option Bytes
unfolding strip_prefix trim_space
bearer_token hdr = Option.map trim_space (strip_prefix bearer hdr)

-- `protected && …`: a nil tracker, or an unguarded scope, leaves the state alone
abbrev fail_tracker : Bool → String → ℕ → Option Tracker → Option Tracker
fail_tracker true key now (some t) = some (record_failure t key now)
fail_tracker _ key now t = t

abbrev success_tracker : Bool → String → Option Tracker → Option Tracker
success_tracker true key (some t) = some (record_success t key)
success_tracker _ key t = t

abbrev pub check_tracker : Bool → String → ℕ → Option Tracker → ℕ × Option Tracker
check_tracker true key now (some t) = let (d, t') = check_blocked t key now in (d, some t')
check_tracker _ key now t = (0, t)

-- observeAdminAuthFailure and recordFail, then the 401
unfoldable pub refuse : Bool → Bool → String → ℕ → State → Response × State
refuse counted guarded key now s = (
  unauthorized,
  record {
    brute_force = fail_tracker guarded key now s.brute_force;
    admin_failures = if counted then s.admin_failures + 1 else s.admin_failures;
  },
)

abbrev succeed : Bool → Scope → String → State → Response × State
succeed guarded scope key s =
    (served scope, record s { brute_force = success_tracker guarded key s.brute_force })

unfoldable pub token_known : AuthConfig → Bytes → Bool
token_known cfg tok = contains cfg.dispatch tok || (contains cfg.exec tok || contains cfg.admin tok)

-- the token lists of one scope, behind the check of the admin list
abbrev scope_tokens : AuthConfig → Scope → List Bytes
scope_tokens cfg Scope.dispatch = cfg.dispatch
scope_tokens cfg Scope.exec = cfg.exec
scope_tokens cfg Scope.admin = []

-- The dispatch scope of `Auth` is never guarded, so that its branch, which records no success, is
-- the same.
unfoldable pub auth_token : AuthConfig → Scope → String → ℕ → Bytes → State → Response × State
unfolding refuse token_known scope_includes_protected
auth_token cfg required key later tok s =
    let guarded = scope_includes_protected required [] in
    if contains cfg.admin tok
    then succeed guarded Scope.admin key s
    else if contains (scope_tokens cfg required) tok
    then succeed guarded required key s
    else if token_known cfg tok
    then (forbidden, s)
    else refuse (scope_eq required Scope.admin) guarded key later s

abbrev with_token :
    (Bytes → State → Response × State)
    → (State → Response × State)
    → Option Bytes
    → State
    → Response × State
with_token use_token refused none s = refused s
with_token use_token refused (some tok) s = use_token tok s

-- a blocked key is answered before the header is read
unfoldable pub guarded_by :
    Bool → String → ℕ → (State → Response × State) → State → Response × State
guarded_by guarded key now handle s =
    let (d, t) = check_tracker guarded key now s.brute_force in
    let s' = record s { brute_force = t } in
    if ltb 0 d then (rate_limited (retry_after d), s') else handle s'

-- `Auth`, with the times of its check and of its failure record. The key is ClientIP's.
unfoldable pub auth : AuthConfig → Scope → String → ℕ → ℕ → Bytes → State → Response × State
unfolding guarded_by scope_includes_protected auth_token
auth cfg required key now later hdr s =
    guarded_by (scope_includes_protected required []) key now
      (with_token (auth_token cfg required key later)
        (refuse (scope_eq required Scope.admin) (scope_includes_protected required []) key later)
        (bearer_token hdr))
      s

abbrev first_scope : AuthConfig → Bytes → List Scope → Option Scope
first_scope cfg tok [] = none
first_scope cfg tok (sc ∷ scs) =
    let rest = first_scope cfg tok scs in
    if contains (scope_tokens cfg sc) tok then some sc else rest

abbrev served_scope : Bool → String → State → Response × State → Option Scope → Response × State
served_scope guarded key s refused none = refused
served_scope guarded key s refused (some sc) = succeed guarded sc key s

unfoldable pub auth_either_token :
    AuthConfig → List Scope → String → ℕ → Bytes → State → Response × State
unfolding refuse token_known scope_includes_protected
auth_either_token cfg allowed key later tok s =
    let guarded = scope_includes_protected Scope.dispatch allowed in
    if contains cfg.admin tok
    then succeed guarded Scope.admin key s
    else served_scope guarded key s
        (if token_known cfg tok
          then (forbidden, s)
          else refuse (any (scope_eq Scope.admin) allowed) guarded key later s)
        (first_scope cfg tok allowed)

-- `AuthEither`
unfoldable pub auth_either :
    AuthConfig → List Scope → String → ℕ → ℕ → Bytes → State → Response × State
unfolding guarded_by scope_includes_protected auth_either_token
auth_either cfg allowed key now later hdr s =
    guarded_by (scope_includes_protected Scope.dispatch allowed) key now
      (with_token (auth_either_token cfg allowed key later)
        (refuse (any (scope_eq Scope.admin) allowed)
          (scope_includes_protected Scope.dispatch allowed) key later)
        (bearer_token hdr))
      s
