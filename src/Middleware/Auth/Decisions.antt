-- ===== src/Middleware/Auth/Decisions.antt =====
-- Whom the checks of internal/server/middleware/auth.go let through.
use letts.Middleware.Auth.{
  scope_eq, check_tracker, scope_includes_protected, with_token, bearer_token, auth_either, auth,
  guarded_by, auth_either_token, first_scope, State, scope_tokens, Response, Scope, refuse,
  auth_token, AuthConfig,
}
use letts.Prelude.{
  false, if◌then◌else◌, any, refl, ltb, some_inj, none, Option-cases, Bool, some, Option, inr, inl,
  Bool-cases, true, ◌∷◌, ◌≡◌, [], ◌≢◌, ℕ, String, List, All,
}
use letts.Middleware.Auth.Tokens.{contains_sound, contains, IsBytes, Bytes}
use mathlib.Core.List.{Memᴰ}
use mathlib.Core.Path.{subst}

abbrev pub ConfigBytes : AuthConfig → Type 0
ConfigBytes cfg = All IsBytes cfg.dispatch × All IsBytes cfg.exec × All IsBytes cfg.admin

-- a token of the configuration that entitles to a scope
abbrev pub Entitles : AuthConfig → Bytes → Scope → Type 0
Entitles cfg tok Scope.dispatch = Memᴰ tok cfg.dispatch
Entitles cfg tok Scope.exec = Memᴰ tok cfg.exec
Entitles cfg tok Scope.admin = Memᴰ tok cfg.admin

-- what a response that lets the request through says of the token
abbrev pub Justified : AuthConfig → Bytes → List Scope → Response → Type 0
Justified cfg tok allowed (Response.served sc) =
    (tok ≢ []) × Entitles cfg tok sc × Memᴰ sc (Scope.admin ∷ allowed)
Justified cfg tok allowed _ = Unit

entitled :
    (cfg : AuthConfig) (tok : Bytes) (sc : Scope)
    → ConfigBytes cfg
    → IsBytes tok
    → contains (scope_tokens cfg sc) tok ≡ true
    → Entitles cfg tok sc × (tok ≢ [])
entitled cfg tok Scope.dispatch c b h = contains_sound cfg.dispatch tok c.0 b h
entitled cfg tok Scope.exec c b h = contains_sound cfg.exec tok c.1 b h
entitled cfg tok Scope.admin c b h = elim (contains_sound [] tok tt b h).0 [ ]

unknown-Justified :
    (cfg : AuthConfig) (tok : Bytes) (allowed : List Scope) (known counted guarded : Bool)
    (key : String) (later : ℕ) (s : State)
    → Justified cfg tok allowed
        (if known then (Response.forbidden, s) else refuse counted guarded key later s).0
unfolding refuse
unknown-Justified cfg tok allowed true counted guarded key later s = tt
unknown-Justified cfg tok allowed false counted guarded key later s = tt

auth_token-Justified :
    (cfg : AuthConfig) (required : Scope) (key : String) (later : ℕ) (tok : Bytes) (s : State)
    → ConfigBytes cfg
    → IsBytes tok
    → Justified cfg tok (required ∷ []) (auth_token cfg required key later tok s).0
unfolding auth_token refuse
auth_token-Justified cfg required key later tok s c b = elim (Bool-cases (contains cfg.admin tok)) [
  | inl t ↦ rw t (let (m, ne) = contains_sound cfg.admin tok c.2 b t in (ne, m, Memᴰ.head refl))
  | inr f ↦ rw f (elim (Bool-cases (contains (scope_tokens cfg required) tok)) [
    | inl t ↦
        rw t (let (m, ne) = entitled cfg tok required c b t in (ne, m, Memᴰ.tail (Memᴰ.head refl)))
    | inr g ↦ rw g (unknown-Justified cfg tok (required ∷ []) _ _ _ key later s)
  ])
]

first_scope_sound :
    (cfg : AuthConfig) (tok : Bytes) (allowed : List Scope) (sc : Scope)
    → first_scope cfg tok allowed ≡ some sc
    → Memᴰ sc allowed × (contains (scope_tokens cfg sc) tok ≡ true)
first_scope_sound cfg tok [] sc h = cc
first_scope_sound cfg tok (a ∷ allowed) sc h =
    elim (Bool-cases (contains (scope_tokens cfg a) tok)) [
      | inl t ↦
          subst (λ d. Memᴰ d (a ∷ allowed) × (contains (scope_tokens cfg d) tok ≡ true))
            (some_inj (rw t at h)) (Memᴰ.head refl, t)
      | inr f ↦ let (m, e) = first_scope_sound cfg tok allowed sc (rw f at h) in (Memᴰ.tail m, e)
    ]

auth_either_token-Justified :
    (cfg : AuthConfig) (allowed : List Scope) (key : String) (later : ℕ) (tok : Bytes) (s : State)
    → ConfigBytes cfg
    → IsBytes tok
    → Justified cfg tok allowed (auth_either_token cfg allowed key later tok s).0
unfolding auth_either_token refuse
auth_either_token-Justified cfg allowed key later tok s c b =
    elim (Bool-cases (contains cfg.admin tok)) [
      | inl t ↦ rw t (let (m, ne) = contains_sound cfg.admin tok c.2 b t in (ne, m, Memᴰ.head refl))
      | inr f ↦ rw f (elim (Option-cases (first_scope cfg tok allowed)) [
        | inl none_found ↦ rw none_found (unknown-Justified cfg tok allowed _ _ _ key later s)
        | inr (sc, found) ↦ rw found (
            let (m, e) = first_scope_sound cfg tok allowed sc found in
            let (l, ne) = entitled cfg tok sc c b e in (ne, l, Memᴰ.tail m))
      ])
    ]

-- the responses to a header that has a token, and to one that has none
abbrev pub HeaderJustified : AuthConfig → Option Bytes → List Scope → Response → Type 0
HeaderJustified cfg none allowed r = (sc : Scope) → r ≢ Response.served sc
HeaderJustified cfg (some tok) allowed r = IsBytes tok → Justified cfg tok allowed r

guarded_by-Justified :
    (cfg : AuthConfig) (allowed : List Scope) (guarded : Bool) (counted : Bool) (key : String)
    (now later : ℕ) (header : Option Bytes) (use_token : Bytes → State → Response × State)
    (s : State)
    → ((tok : Bytes) (s' : State) → IsBytes tok → Justified cfg tok allowed (use_token tok s').0)
    → HeaderJustified cfg header allowed
        (guarded_by guarded key now
          (with_token use_token (refuse counted guarded key later) header)
          s).0
unfolding guarded_by refuse
guarded_by-Justified cfg allowed guarded counted key now later none use_token s h = λ sc.
    elim (Bool-cases (ltb 0 (check_tracker guarded key now s.brute_force).0)) [
      | inl t ↦ rw t (λ e. cc)
      | inr f ↦ rw f (λ e. cc)
    ]
guarded_by-Justified cfg allowed guarded counted key now later (some tok) use_token s h = λ b.
    elim (Bool-cases (ltb 0 (check_tracker guarded key now s.brute_force).0)) [
      | inl t ↦ rw t tt
      | inr f ↦ rw f (h tok _ b)
    ]

-- A request that either middleware lets through carries a bearer token that is not empty and that
-- the configuration lists for the scope it is served with, which is the admin scope or one of the
-- scopes asked for. A request without a bearer token is never let through. The tokens are bytes.
pub auth-justified :
    (cfg : AuthConfig) (required : Scope) (allowed : List Scope) (key : String) (now later : ℕ)
    (hdr : Bytes) (s : State)
    → ConfigBytes cfg
    → HeaderJustified cfg
        (bearer_token hdr)
        (required ∷ [])
        (auth cfg required key now later hdr s).0
      × HeaderJustified cfg
          (bearer_token hdr)
          allowed
          (auth_either cfg allowed key now later hdr s).0
unfolding auth auth_either
auth-justified cfg required allowed key now later hdr s c = (
  guarded_by-Justified cfg (required ∷ []) (scope_includes_protected required [])
      (scope_eq required Scope.admin) key now later (bearer_token hdr)
      (auth_token cfg required key later) s
      (λ tok s' b. auth_token-Justified cfg required key later tok s' c b),
  guarded_by-Justified cfg allowed (scope_includes_protected Scope.dispatch allowed)
      (any (scope_eq Scope.admin) allowed) key now later (bearer_token hdr)
      (auth_either_token cfg allowed key later) s
      (λ tok s' b. auth_either_token-Justified cfg allowed key later tok s' c b),
)
