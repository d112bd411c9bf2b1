-- ===== src/Apply/Lookups.antt =====
-- Looking up lanes in the maps of internal/apply/apply.go, and the comparison of runtimes in diff.go.
use letts.Apply.{
  runtimes_eq, slices_eq, Runtime, lists_eq, flags_eq, lane_names, LaneCfg, reconcile, find_lane,
  missing_lanes,
}
use letts.Prelude.{
  none, some, both_true, Option, sym, Bool, ap, eq_iff, str_eq, ◌||◌, not, ◌&&◌, ◌++◌, arith,
  is_some, refl, ◌∷◌, inr, inl, [], Bool-cases, true, ◌≡◌, String, List,
}
use mathlib.Core.List.{Memᴰ}

pub find_lane-append :
    (name : String) (a b : List (String × LaneCfg))
    → is_some (find_lane name (a ++ b)) ≡ is_some (find_lane name a) || is_some (find_lane name b)
unfolding find_lane
find_lane-append name [] b = refl
find_lane-append name ((n, cfg) ∷ a) b = ground (arith, find_lane-append name a b)

pub find_lane-missing :
    (name : String) (a b : List (String × LaneCfg))
    → is_some (find_lane name (missing_lanes a b))
      ≡ is_some (find_lane name a) && not (is_some (find_lane name b))
unfolding find_lane missing_lanes
find_lane-missing name [] b = refl
find_lane-missing name ((n, cfg) ∷ a) b =
    let rest = find_lane-missing name a b in
    let same : str_eq n name ≡ true → is_some (find_lane n b) ≡ is_some (find_lane name b) =
      λ e. ap (λ x. is_some (find_lane x b)) ((eq_iff n name).0 e) in
    elim (Bool-cases (is_some (find_lane n b))) [
      | inl k ↦ rw k (ground (arith, rest, same))
      | inr k ↦ rw k (ground (arith, rest, same))
    ]

pub find_lane-reconciled :
    (name : String) (current desired : List (String × LaneCfg))
    → is_some (find_lane name (reconcile current desired)) ≡ is_some (find_lane name desired)
unfolding find_lane reconcile
find_lane-reconciled name current [] = refl
find_lane-reconciled name current ((n, cfg) ∷ desired) =
    ground (arith, find_lane-reconciled name current desired)

pub lane_names_complete :
    (name : String) (lanes : List (String × LaneCfg))
    → is_some (find_lane name lanes) ≡ true
    → Memᴰ name (lane_names lanes)
unfolding find_lane lane_names
lane_names_complete name [] h = absurd (ground arith)
lane_names_complete name ((n, cfg) ∷ lanes) h = elim (Bool-cases (str_eq n name)) [
  | inl e ↦ Memᴰ.head (sym ((eq_iff n name).0 e))
  | inr e ↦ Memᴰ.tail (lane_names_complete name lanes (rw e at h))
]

lists_eq_sound : (a b : List String) → lists_eq a b ≡ true → a ≡ b
unfolding lists_eq
lists_eq_sound [] [] h = refl
lists_eq_sound (x ∷ xs) (y ∷ ys) h =
    let (e, es) = both_true (str_eq x y) (lists_eq xs ys) h in
    let rest = lists_eq_sound xs ys es in let here = (eq_iff x y).0 e in λ i. here i ∷ rest i
lists_eq_sound [] (y ∷ ys) h = absurd (ground arith)
lists_eq_sound (x ∷ xs) [] h = absurd (ground arith)

slices_eq_sound : (a b : Option (List String)) → slices_eq a b ≡ true → a ≡ b
slices_eq_sound none none h = refl
slices_eq_sound (some a) (some b) h = ap some (lists_eq_sound a b h)
slices_eq_sound none (some b) h = absurd (ground arith)
slices_eq_sound (some a) none h = absurd (ground arith)

flags_eq_sound : (a b : Bool) → flags_eq a b ≡ true → a ≡ b
flags_eq_sound a b h = ground (arith, h)

-- the comparison of the runtimes tells every two apart
pub runtimes_eq_sound : (a b : Runtime) → runtimes_eq a b ≡ true → a ≡ b
runtimes_eq_sound a b h =
    let (t, rest) = both_true (str_eq a.mission_path_template b.mission_path_template) _ h in
    let (c, v) = both_true (slices_eq a.command_template b.command_template) _ rest in
    let te = (eq_iff a.mission_path_template b.mission_path_template).0 t in
    let ce = slices_eq_sound a.command_template b.command_template c in
    let ve = flags_eq_sound a.validate_mission_file b.validate_mission_file v in
    λ i. record {
      mission_path_template = te i;
      command_template = ce i;
      validate_mission_file = ve i;
    }
