-- ===== src/Apply/Guards.antt =====
-- The guards of steps 3 and 4 of `Apply` in internal/apply/apply.go.
use letts.Apply.{
  is_active, runtimes_eq, Queries, lane_names, has_queued_or_running, merge_lanes, LaneCfg,
  find_lane, missing_lanes, has_active_in_lane, compute_diff, desired_state, guarded_removal, Plan,
  runtime_conflict, Diff, check_plan, Options, plan, AppliedState, ConflictDetail,
}
use letts.Prelude.{
  absurd_eq, any, sym, ◌∙◌, Bool, ap, eq_iff, str_eq, ◌&&◌, ◌++◌, arith, is_some, refl, ◌∷◌, inr,
  filter, inl, [], Bool-cases, ◌⊎◌, true, false, ◌≢◌, ◌≡◌, String, List,
}
use letts.Storage.Rows.{Mission}
use mathlib.Core.List.{Memᴰ}
use mathlib.Core.Path.{subst}
use letts.Apply.Lookups.{
  find_lane-missing, find_lane-append, find_lane-reconciled, runtimes_eq_sound, lane_names_complete,
}

-- what `Apply` has checked of a plan
abbrev pub Checked : Queries → List Mission → AppliedState → Options → Diff → Type 0
Checked q ms s opts diff =
    (runtime_conflict q ms opts diff ≡ false)
    × ((opts.force_prune ≡ true) ⊎ (filter (has_active_in_lane q ms) diff.lanes_removed ≡ []))

planned_inj :
    {s s' : AppliedState} {d d' : Diff}
    → Plan.planned s d ≡ Plan.planned s' d'
    → (s ≡ s') × (d ≡ d')
planned_inj h = (cc, cc)

conflict_not_planned :
    {c : ConflictDetail} {s : AppliedState} {d : Diff} → Plan.conflict c ≢ Plan.planned s d
conflict_not_planned h = cc

guarded_planned :
    (opts : Options) (d s : AppliedState) (diff0 diff : Diff) (blocked : List String)
    → guarded_removal opts d diff0 blocked ≡ Plan.planned s diff
    → (d ≡ s) × (diff0 ≡ diff) × ((opts.force_prune ≡ true) ⊎ (blocked ≡ []))
guarded_planned opts d s diff0 diff [] h = let (e, f) = planned_inj h in (e, f, inr refl)
guarded_planned opts d s diff0 diff (l ∷ blocked) h = elim (Bool-cases opts.force_prune) [
  | inl e ↦ let (f, g) = planned_inj (rw e at h) in (f, g, inl e)
  | inr e ↦ absurd (conflict_not_planned (rw e at h))
]

-- what a plan stores, and what was checked of it
pub planned_state :
    (q : Queries) (ms : List Mission) (current desired s : AppliedState) (opts : Options)
    (diff : Diff)
    → plan q ms current desired opts ≡ Plan.planned s diff
    → (desired_state current desired opts.prune ≡ s)
      × (compute_diff current (desired_state current desired opts.prune) ≡ diff)
      × Checked q ms s opts (compute_diff current (desired_state current desired opts.prune))
unfolding plan check_plan
planned_state q ms current desired s opts diff h =
    let s' = desired_state current desired opts.prune in
    let diff' = compute_diff current s' in
    elim (Bool-cases (runtime_conflict q ms opts diff')) [
      | inl e ↦ absurd (conflict_not_planned (rw e at h))
      | inr e ↦ let (f, g, k) = guarded_planned opts s' s diff' diff _ (rw e at h) in (f, g, (e, k))
    ]

none_missing :
    (a b : List (String × LaneCfg))
    → ((name : String) → is_some (find_lane name a) ≡ true → is_some (find_lane name b) ≡ true)
    → missing_lanes a b ≡ []
unfolding missing_lanes find_lane
none_missing [] b h = refl
none_missing ((n, cfg) ∷ a) b h =
    let here = h n (ground (arith, eq_iff n n)) in
    rw here (none_missing a b (λ name q. h name (ground arith)))

find_lane-kept :
    (current desired : AppliedState) (prune : Bool) (n : String)
    → prune ≡ false
    → is_some (find_lane n current.lanes) ≡ true
    → is_some (find_lane n (desired_state current desired prune).lanes) ≡ true
unfolding desired_state merge_lanes
find_lane-kept current desired true n k h = absurd (ground arith)
find_lane-kept current desired false n k h =
    rw
      (find_lane-reconciled n current.lanes
        (desired.lanes ++ missing_lanes current.lanes desired.lanes))
      (ground (
        arith,
        find_lane-append n desired.lanes (missing_lanes current.lanes desired.lanes),
        find_lane-missing n current.lanes desired.lanes,
      ))

cons-ne-nil : {x : String} {xs : List String} → x ∷ xs ≢ []
cons-ne-nil h = cc

filter_none :
    (p : String → Bool) (xs : List String) (x : String) → filter p xs ≡ [] → Memᴰ x xs → p x ≡ false
filter_none p [] x h m = elim m [ ]
filter_none p (y ∷ xs) x h (Memᴰ.head e) = elim (Bool-cases (p y)) [
  | inl t ↦ absurd (cons-ne-nil (rw t at h))
  | inr f ↦ ap p e ∙ f
]
filter_none p (y ∷ xs) x h (Memᴰ.tail m) = elim (Bool-cases (p y)) [
  | inl t ↦ absurd (cons-ne-nil (rw t at h))
  | inr f ↦ filter_none p xs x (rw f at h) m
]

-- Without --prune an apply removes no lane, and every lane that there was is one of the plan.
pub plan-keeps_lanes :
    (q : Queries) (ms : List Mission) (current desired s : AppliedState) (opts : Options)
    (diff : Diff) (name : String)
    → opts.prune ≡ false
    → plan q ms current desired opts ≡ Plan.planned s diff
    → (diff.lanes_removed ≡ [])
      × (is_some (find_lane name current.lanes) ≡ true → is_some (find_lane name s.lanes) ≡ true)
unfolding desired_state merge_lanes compute_diff lane_names
plan-keeps_lanes q ms current desired s opts diff name kept p =
    let (f, g, _) = planned_state q ms current desired s opts diff p in
    let all_kept : (n : String)
        → is_some (find_lane n current.lanes) ≡ true
        → is_some (find_lane n s.lanes) ≡ true =
      λ n h.
        subst (λ (t : AppliedState). is_some (find_lane n t.lanes) ≡ true) f
          (find_lane-kept current desired opts.prune n kept h) in
    (
      subst (λ (d : Diff). d.lanes_removed ≡ []) g
          (ap lane_names (
            none_missing current.lanes (desired_state current desired opts.prune).lanes
              (λ n h. find_lane-kept current desired opts.prune n kept h))),
      all_kept name,
    )

any_none :
    (p : Mission → Bool) (ms : List Mission) (m : Mission)
    → any p ms ≡ false
    → Memᴰ m ms
    → p m ≡ false
any_none p [] m h mem = elim mem [ ]
any_none p (y ∷ ms) m h (Memᴰ.head e) = ap p e ∙ ground (arith, h)
any_none p (y ∷ ms) m h (Memᴰ.tail mem) = any_none p ms m (ground (arith, h)) mem

differ : (b : Bool) → b ≢ true → b ≡ false
differ b h = elim (Bool-cases b) [ inl t ↦ absurd (h t) | inr f ↦ f ]

removed :
    (current s : AppliedState) (name : String)
    → is_some (find_lane name current.lanes) ≡ true
    → is_some (find_lane name s.lanes) ≡ false
    → Memᴰ name (compute_diff current s).lanes_removed
unfolding compute_diff
removed current s name had gone =
    lane_names_complete name (missing_lanes current.lanes s.lanes)
      (ground (arith, had, gone, find_lane-missing name current.lanes s.lanes))

idle_lane :
    (q : Queries) (ms : List Mission) (name : String)
    → q.of_lane name ≡ true
    → has_active_in_lane q ms name ≡ false
    → (m : Mission) → Memᴰ m ms
    → m.lane ≡ name
    → is_active m ≡ false
unfolding has_active_in_lane
idle_lane q ms name answered h m mem lane =
    let counted = any_none (λ x. str_eq x.lane name && is_active x) ms m (rw answered at h) mem in
    ground (arith, counted, lane, eq_iff m.lane name)

idle :
    (q : Queries) (ms : List Mission) (opts : Options) (current s : AppliedState)
    → q.all_lanes ≡ true
    → opts.force ≡ false
    → (s.mission_dir ≢ current.mission_dir) ⊎ (s.runtime ≢ current.runtime)
    → runtime_conflict q ms opts (compute_diff current s) ≡ false
    → (m : Mission) → Memᴰ m ms
    → is_active m ≡ false
unfolding runtime_conflict compute_diff has_queued_or_running
idle q ms opts current s answered unforced changed h m mem =
    any_none is_active ms m
      (elim changed [
        | inl d ↦
            let e : str_eq current.mission_dir s.mission_dir ≡ false =
              differ (str_eq current.mission_dir s.mission_dir)
                (λ t. d (sym ((eq_iff current.mission_dir s.mission_dir).0 t))) in
            ground (arith, e, h, answered, unforced)
        | inr d ↦
            let e : runtimes_eq current.runtime s.runtime ≡ false =
              differ (runtimes_eq current.runtime s.runtime)
                (λ t. d (sym (runtimes_eq_sound current.runtime s.runtime t))) in
            ground (arith, e, h, answered, unforced)
      ])
      mem

-- A plan drops a lane of the stored state only if force_prune is given, or the query of that lane is
-- not answered, or the lane has no mission that is queued or running. It changes the runtime or the
-- mission directory of the stored state only if force is given, or the query of all lanes is not
-- answered, or no mission is queued or running. (A query that fails lets its guard pass.)
pub plan-guarded :
    (q : Queries) (ms : List Mission) (current desired s : AppliedState) (opts : Options)
    (diff : Diff)
    → plan q ms current desired opts ≡ Plan.planned s diff
    → (opts.force_prune ≡ false
        → (name : String) → is_some (find_lane name current.lanes) ≡ true
        → is_some (find_lane name s.lanes) ≡ false
        → q.of_lane name ≡ true
        → (m : Mission) → Memᴰ m ms
        → m.lane ≡ name
        → is_active m ≡ false)
      × (opts.force ≡ false
          → (s.mission_dir ≢ current.mission_dir) ⊎ (s.runtime ≢ current.runtime)
          → q.all_lanes ≡ true
          → (m : Mission) → Memᴰ m ms
          → is_active m ≡ false)
plan-guarded q ms current desired s opts diff p =
    let (f, g, (r, l)) = planned_state q ms current desired s opts diff p in
    let s' = desired_state current desired opts.prune in
    (
      λ unforced name had gone answered m mem lane. elim l [
        | inl e ↦ absurd_eq opts.force_prune e unforced
        | inr none_blocked ↦
            let gone' : is_some (find_lane name s'.lanes) ≡ false =
              subst (λ (x : AppliedState). is_some (find_lane name x.lanes) ≡ false) (sym f) gone in
            idle_lane q ms name answered
              (filter_none (has_active_in_lane q ms) (compute_diff current s').lanes_removed name
                none_blocked (removed current s' name had gone'))
              m mem lane
      ],
      λ unforced changed answered m mem.
          idle q ms opts current s' answered unforced
            (elim changed [
              | inl d ↦ inl (λ e. d (sym (ap (λ (x : AppliedState). x.mission_dir) f) ∙ e))
              | inr d ↦ inr (λ e. d (sym (ap (λ (x : AppliedState). x.runtime) f) ∙ e))
            ])
            r m mem,
    )
