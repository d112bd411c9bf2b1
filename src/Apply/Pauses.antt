-- ===== src/Apply/Pauses.antt =====
-- Who may pause a lane, in step 1b of `Apply` of internal/apply/apply.go.
use mathlib.Core.Option.{none-ne-some}
use mathlib.Core.Option
use letts.Apply.{
  Queries, desired_state, merge_lanes, Plan, Diff, Options, AppliedState, plan, reconcile_lane,
  LaneCfg, find_lane, reconcile,
}
use letts.Prelude.{
  if◌then◌else◌, false, not, ◌&&◌, Bool, some_inj, ◌∙◌, sym, true, none, arith, Option,
  Option-cases, refl, inr, eq_iff, some, ap, inl, str_eq, Bool-cases, [], ◌∷◌, ◌≡◌, List, String,
}
use letts.Storage.Rows.{Mission}
use mathlib.Core.Path.{subst}
use letts.Apply.Guards.{planned_state}

find_lane-reconcile :
    (name : String) (current desired : List (String × LaneCfg))
    → find_lane name (reconcile current desired)
      ≡ Option.map (reconcile_lane (find_lane name current)) (find_lane name desired)
unfolding reconcile find_lane
find_lane-reconcile name current [] = refl
find_lane-reconcile name current ((n, cfg) ∷ desired) = elim (Bool-cases (str_eq n name)) [
  | inl e ↦ rw e (ap (λ k. some (reconcile_lane (find_lane k current) cfg)) ((eq_iff n name).0 e))
  | inr e ↦ rw e (find_lane-reconcile name current desired)
]

looked_up :
    (name : String) (current desired : List (String × LaneCfg)) (r : Option LaneCfg)
    → find_lane name desired ≡ r
    → find_lane name (reconcile current desired)
      ≡ Option.map (reconcile_lane (find_lane name current)) r
looked_up name current desired r e = rw (find_lane-reconcile name current desired, e) refl

reconciled_from :
    (name : String) (current desired : List (String × LaneCfg)) (cfg : LaneCfg)
    → find_lane name (reconcile current desired) ≡ some cfg
    → (d : LaneCfg) × ((find_lane name desired ≡ some d)
        × (reconcile_lane (find_lane name current) d ≡ cfg))
reconciled_from name current desired cfg h = elim (Option-cases (find_lane name desired)) [
  | inl e ↦ absurd (none-ne-some _ (sym (looked_up name current desired _ e) ∙ h))
  | inr (d, e) ↦ (d, (e, some_inj (sym (looked_up name current desired _ e) ∙ h)))
]

-- the pauses that an apply does not set: those of `ctl`, and those without an origin
abbrev pub held : Option LaneCfg → Bool
held none = false
held (some now) = now.paused && not (str_eq now.paused_by "yaml")

reconcile_lane-held :
    (now : Option LaneCfg) (d : LaneCfg) → held now ≡ true → (reconcile_lane now d).paused ≡ true
unfolding reconcile_lane
reconcile_lane-held none d h = absurd (ground arith)
reconcile_lane-held (some now) d h = elim (Bool-cases d.paused) [
  | inl e ↦ ground arith
  | inr e ↦ rw (e, h) refl
]

-- An apply never ends a pause that was set with `ctl`, or before the origin was kept: a lane that
-- such a pause holds is paused in every state that an apply plans for it.
pub plan-ctl_pause :
    (q : Queries) (ms : List Mission) (current desired s : AppliedState) (opts : Options)
    (diff : Diff) (name : String) (cfg : LaneCfg)
    → plan q ms current desired opts ≡ Plan.planned s diff
    → held (find_lane name current.lanes) ≡ true
    → find_lane name s.lanes ≡ some cfg
    → cfg.paused ≡ true
unfolding reconcile_lane desired_state
plan-ctl_pause q ms current desired s opts diff name cfg p kept found =
    let (l, _, _) = planned_state q ms current desired s opts diff p in
    let (d, (g, r)) =
      reconciled_from name current.lanes _ cfg
        (subst (λ (t : AppliedState). find_lane name t.lanes ≡ some cfg) (sym l) found) in
    subst (λ (c : LaneCfg). c.paused ≡ true) r
      (reconcile_lane-held (find_lane name current.lanes) d kept)

-- applying to what was reconciled changes nothing more
reconcile_lane_idem :
    (now : Option LaneCfg) (d : LaneCfg)
    → reconcile_lane (some (reconcile_lane now d)) d ≡ reconcile_lane now d
unfolding reconcile_lane
reconcile_lane_idem now d = by_pause now d.paused
  where
    by_pause :
        (now : Option LaneCfg) (p : Bool)
        → let d' = record d { paused = p } in
          reconcile_lane (some (reconcile_lane now d')) d' ≡ reconcile_lane now d'
    by_pause none true = refl
    by_pause none false = refl
    by_pause (some now) true = elim (Bool-cases (now.paused && str_eq now.paused_by "ctl")) [
      | inl e ↦ rw e refl
      | inr e ↦ rw e refl
    ]
    by_pause (some now) false =
        elim (Bool-cases (now.paused && not (str_eq now.paused_by "yaml"))) [
          | inl e ↦ rw e refl
          | inr e ↦ rw e refl
        ]

reconcile_lane-follows :
    (now : Option LaneCfg) (d : LaneCfg)
    → held now ≡ false
    → reconcile_lane now d ≡ record d { paused_by = if d.paused then "yaml" else "" }
unfolding reconcile_lane
reconcile_lane-follows now d free = by_pause now d.paused free
  where
    by_pause :
        (now : Option LaneCfg) (p : Bool)
        → held now ≡ false
        → reconcile_lane now (record d { paused = p })
          ≡ record d { paused = p; paused_by = if p then "yaml" else "" }
    by_pause none true free = refl
    by_pause none false free = refl
    by_pause (some now) true free = elim (Bool-cases (now.paused && str_eq now.paused_by "ctl")) [
      | inl e ↦ absurd (
          ground
            (arith, eq_iff now.paused_by "ctl", eq_iff now.paused_by "yaml", eq_iff "ctl" "yaml"))
      | inr e ↦ rw e refl
    ]
    by_pause (some now) false free = rw free refl

-- Any other lane follows the configuration that is applied: when it was not paused, or paused by
-- an apply, the plan pauses it exactly if the lane asked for (the current one, if it was left out
-- without --prune) is paused, and then the pause is marked as set by an apply.
pub plan-yaml_pause :
    (q : Queries) (ms : List Mission) (current desired s : AppliedState) (opts : Options)
    (diff : Diff) (name : String) (d : LaneCfg)
    → plan q ms current desired opts ≡ Plan.planned s diff
    → held (find_lane name current.lanes) ≡ false
    → find_lane name (merge_lanes opts.prune current.lanes desired.lanes) ≡ some d
    → find_lane name s.lanes ≡ some (record d { paused_by = if d.paused then "yaml" else "" })
unfolding desired_state
plan-yaml_pause q ms current desired s opts diff name d p free found =
    let (l, _, _) = planned_state q ms current desired s opts diff p in
    subst
      (λ (t : AppliedState).
        find_lane name t.lanes ≡ some (record d { paused_by = if d.paused then "yaml" else "" }))
      l
      (looked_up name current.lanes (merge_lanes opts.prune current.lanes desired.lanes) (some d)
          found
        ∙ ap some (reconcile_lane-follows (find_lane name current.lanes) d free))

-- Applying the same lanes again changes no lane: reconciled with what the first apply stored, every
-- lane asked for comes out as it was stored.
pub reconcile_idem :
    (name : String) (current desired : List (String × LaneCfg))
    → find_lane name (reconcile (reconcile current desired) desired)
      ≡ find_lane name (reconcile current desired)
reconcile_idem name current desired = elim (Option-cases (find_lane name desired)) [
  | inl e ↦
      looked_up name (reconcile current desired) desired none e
      ∙ sym (looked_up name current desired none e)
  | inr (d, e) ↦
      let first_time = looked_up name current desired (some d) e in
      looked_up name (reconcile current desired) desired (some d) e
      ∙ ap (λ (now : Option LaneCfg). some (reconcile_lane now d)) first_time
      ∙ ap some (reconcile_lane_idem (find_lane name current) d)
      ∙ sym first_time
]
