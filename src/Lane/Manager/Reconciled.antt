-- ===== src/Lane/Manager/Reconciled.antt =====
-- What Apply of internal/lane/manager.go leaves.
use mathlib.Core.Option
use letts.Lane.Runner.{Runner, new_runner, start, pause, resume, set_concurrency, notify_runner}
use letts.Lane.Manager.{
  LaneSpec, Runners, find_runner, set_runner, wanted_from, is_wanted, stop_removed,
  reconcile_runner, started_runner, reconcile_lanes, apply, spec_runner, named,
}
use letts.Prelude.{
  ◌≢◌, Option-cases, absurd_eq, eq_iff, ap, sym, ◌∙◌, inr, inl, Bool-cases, not, filter, refl, some,
  false, [], if◌then◌else◌, ◌∷◌, none, ◌++◌, arith, str_eq, List, Bool, ◌≡◌, ℕ, Option, String,
}
use mathlib.Core.Path.{subst}

-- the last spec of a name, or else the one given
unfoldable pub last_spec : String → List LaneSpec → Option LaneSpec → Option LaneSpec
last_spec k [] found = found
last_spec k (s ∷ specs) found = last_spec k specs (if str_eq s.name k then some s else found)

-- the concurrency and the pause of a runner, and of a spec
abbrev pub running_as : Runner → ℕ × Bool
running_as r = (r.concurrency, r.paused)

abbrev pub specified : LaneSpec → ℕ × Bool
specified s = (s.concurrency, s.paused)

last_spec-append_one :
    (k : String) (ws : List LaneSpec) (s : LaneSpec) (found : Option LaneSpec)
    → last_spec k (ws ++ (s ∷ [])) found
      ≡ (if str_eq s.name k then some s else last_spec k ws found)
unfolding last_spec
last_spec-append_one k [] s found = refl
last_spec-append_one k (w ∷ ws) s found = last_spec-append_one k ws s _

last_spec-filter :
    (k n : String) (ws : List LaneSpec) (found : Option LaneSpec)
    → str_eq n k ≡ false
    → last_spec k (filter (λ w. not (named n w)) ws) found ≡ last_spec k ws found
unfolding last_spec
last_spec-filter k n [] found h = refl
last_spec-filter k n (w ∷ ws) found h = elim (Bool-cases (str_eq w.name n)) [
  | inl e ↦
      rw (e, subst (λ x. str_eq x k ≡ false) (sym ((eq_iff w.name n).0 e)) h)
        (last_spec-filter k n ws found h)
  | inr e ↦ rw e (last_spec-filter k n ws _ h)
]

-- the map `wanted` has the last spec of each name
last_spec-wanted_from :
    (k : String) (wanted specs : List LaneSpec)
    → last_spec k (wanted_from wanted specs) none ≡ last_spec k specs (last_spec k wanted none)
unfolding last_spec wanted_from
last_spec-wanted_from k wanted [] = refl
last_spec-wanted_from k wanted (s ∷ specs) =
    last_spec-wanted_from k (filter (λ w. not (named s.name w)) wanted ++ (s ∷ [])) specs
    ∙ ap (last_spec k specs)
        (last_spec-append_one k (filter (λ w. not (named s.name w)) wanted) s none ∙ put)
  where
    put :
        (if str_eq s.name k
          then some s
          else last_spec k (filter (λ w. not (named s.name w)) wanted) none)
        ≡ (if str_eq s.name k then some s else last_spec k wanted none)
    put = elim (Bool-cases (str_eq s.name k)) [
      | inl e ↦ rw e refl
      | inr e ↦ rw e (last_spec-filter k s.name wanted none e)
    ]

find_runner-set_runner :
    (k n : String) (r : Runner) (rs : Runners)
    → find_runner k (set_runner n r rs) ≡ (if str_eq n k then some r else find_runner k rs)
unfolding find_runner set_runner
find_runner-set_runner k n r [] = refl
find_runner-set_runner k n r ((m, old) ∷ rs) = elim (Bool-cases (str_eq m n)) [
  | inl e ↦
      rw (e, (eq_iff m n).0 e)
        (elim (Bool-cases (str_eq n k)) [ inl p ↦ rw p refl | inr p ↦ rw p refl ])
  | inr e ↦
      rw (e, find_runner-set_runner k n r rs)
        (elim (Bool-cases (str_eq n k)) [
          | inl p ↦ rw (p, subst (λ x. str_eq m x ≡ false) ((eq_iff n k).0 p) e) refl
          | inr p ↦ rw p refl
        ])
]

spec_runner-running_as :
    (s : LaneSpec) (o : Option Runner) → running_as (spec_runner s o) ≡ specified s
unfolding started_runner reconcile_runner new_runner start pause resume set_concurrency
    notify_runner
spec_runner-running_as s none = ground arith
spec_runner-running_as s (some r) = ground arith

-- what a spec, if there is one, makes of what was there
abbrev overridden : Option LaneSpec → Option (ℕ × Bool) → Option (ℕ × Bool)
overridden none o = o
overridden (some s) o = some (specified s)

last_spec-overridden :
    (k : String) (ws : List LaneSpec) (found : Option LaneSpec) (o : Option (ℕ × Bool))
    → overridden (last_spec k ws found) o ≡ overridden (last_spec k ws none) (overridden found o)
unfolding last_spec
last_spec-overridden k [] found o = refl
last_spec-overridden k (w ∷ ws) found o = elim (Bool-cases (str_eq w.name k)) [
  | inl e ↦ rw e (
      last_spec-overridden k ws (some w) o
      ∙ sym (last_spec-overridden k ws (some w) (overridden found o)))
  | inr e ↦ rw e (last_spec-overridden k ws found o)
]

reconcile_lanes-found :
    (k : String) (ws : List LaneSpec) (rs : Runners)
    → Option.map running_as (find_runner k (reconcile_lanes ws rs))
      ≡ overridden (last_spec k ws none) (Option.map running_as (find_runner k rs))
unfolding last_spec reconcile_lanes
reconcile_lanes-found k [] rs = refl
reconcile_lanes-found k (s ∷ ws) rs =
    let r = spec_runner s (find_runner s.name rs) in
    reconcile_lanes-found k ws (set_runner s.name r rs)
    ∙ rw (find_runner-set_runner k s.name r rs) (elim (Bool-cases (str_eq s.name k)) [
      | inl e ↦
          rw (e, spec_runner-running_as s (find_runner s.name rs))
            (sym (last_spec-overridden k ws (some s) (Option.map running_as (find_runner k rs))))
      | inr e ↦ rw e refl
    ])

last_spec-found : (k : String) (ws : List LaneSpec) (s : LaneSpec) → last_spec k ws (some s) ≢ none
unfolding last_spec
last_spec-found k [] s h = ground arith
last_spec-found k (w ∷ ws) s h = elim (Bool-cases (str_eq w.name k)) [
  | inl e ↦ last_spec-found k ws w (rw e at h)
  | inr e ↦ last_spec-found k ws s (rw e at h)
]

last_spec-unwanted :
    (k : String) (ws : List LaneSpec) → last_spec k ws none ≡ none → is_wanted k ws ≡ false
unfolding last_spec
last_spec-unwanted k [] h = refl
last_spec-unwanted k (w ∷ ws) h = elim (Bool-cases (str_eq w.name k)) [
  | inl e ↦ absurd (last_spec-found k ws w (rw e at h))
  | inr e ↦ rw e (last_spec-unwanted k ws (rw e at h))
]

stop_removed-unwanted :
    (k : String) (ws : List LaneSpec) (rs : Runners)
    → is_wanted k ws ≡ false
    → find_runner k (stop_removed ws rs).0 ≡ none
unfolding stop_removed find_runner
stop_removed-unwanted k ws [] h = refl
stop_removed-unwanted k ws ((n, r) ∷ rs) h = elim (Bool-cases (is_wanted n ws)) [
  | inl e ↦ rw e (elim (Bool-cases (str_eq n k)) [
    | inl p ↦
        absurd_eq (is_wanted n ws) e
          (subst (λ x. is_wanted x ws ≡ false) (sym ((eq_iff n k).0 p)) h)
    | inr p ↦ rw p (stop_removed-unwanted k ws rs h)
  ])
  | inr e ↦ rw e (stop_removed-unwanted k ws rs h)
]

-- Whatever runners there were, after Apply a lane has a runner exactly if the specs name it, and the
-- runner has the concurrency and the pause of the last spec of that name.
pub apply-runners :
    (k : String) (specs : List LaneSpec) (rs : Runners)
    → Option.map running_as (find_runner k (apply specs rs).runners)
      ≡ Option.map specified (last_spec k specs none)
unfolding apply last_spec
apply-runners k specs rs =
    reconcile_lanes-found k (wanted_from [] specs) (stop_removed (wanted_from [] specs) rs).0
    ∙ (elim (Option-cases (last_spec k (wanted_from [] specs) none)) [
      | inl e ↦
          rw
            (
              stop_removed-unwanted k (wanted_from [] specs) rs
                  (last_spec-unwanted k (wanted_from [] specs) e),
              sym (last_spec-wanted_from k [] specs),
              e,
            )
            refl
      | inr (s, e) ↦ rw (sym (last_spec-wanted_from k [] specs), e) refl
    ])
