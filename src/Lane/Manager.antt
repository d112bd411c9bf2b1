-- ===== src/Lane/Manager.antt =====
-- internal/lane/manager.go: the runners of the lanes. The map of runners is the list of its entries;
-- Apply visits the lanes in the order of that list and of the specs, where Go's order is arbitrary.
pub mod Reconciled
mod Tests
use letts.Lane.Runner.{
  Runner, new_runner, start, pause, resume, set_concurrency, notify_runner, stop, mark_removing,
}
use letts.Prelude.{
  ◌++◌, is_some, filter, some, ◌==◌, false, any, map, none, ℕ, not, ◌∷◌, str_eq, [], Bool, Option,
  if◌then◌else◌, String, List,
}

pub record LaneSpec : Type 0 where
  pub name : String
  pub concurrency : ℕ
  pub paused : Bool

abbrev pub Runners : Type 0
Runners = List (String × Runner)

unfoldable pub find_runner : String → Runners → Option Runner
find_runner k [] = none
find_runner k ((n, r) ∷ rs) = let rest = find_runner k rs in if str_eq n k then some r else rest

-- m.runners[name] = r
unfoldable pub set_runner : String → Runner → Runners → Runners
set_runner k r [] = (k, r) ∷ []
set_runner k r ((n, old) ∷ rs) =
    let rest = set_runner k r rs in if str_eq n k then (n, r) ∷ rs else (n, old) ∷ rest

-- delete(m.runners, name)
unfoldable pub delete_runner : String → Runners → Runners
delete_runner k [] = []
delete_runner k ((n, r) ∷ rs) =
    let rest = delete_runner k rs in if str_eq n k then rest else (n, r) ∷ rest

abbrev pub named : String → LaneSpec → Bool
named k s = str_eq s.name k

-- the map `wanted`, in which the last spec of a name stands
unfoldable pub wanted_from : List LaneSpec → List LaneSpec → List LaneSpec
wanted_from wanted [] = wanted
wanted_from wanted (s ∷ specs) =
    wanted_from (filter (λ w. not (named s.name w)) wanted ++ (s ∷ [])) specs

abbrev pub is_wanted : String → List LaneSpec → Bool
is_wanted name wanted = any (named name) wanted

-- the runners that stay, and the names of those that are stopped
unfoldable pub stop_removed : List LaneSpec → Runners → Runners × List String
stop_removed wanted [] = ([], [])
stop_removed wanted ((n, r) ∷ rs) =
    let (kept, stopped) = stop_removed wanted rs in
    if is_wanted n wanted then ((n, r) ∷ kept, stopped) else (kept, n ∷ stopped)

unfoldable pub reconcile_runner : LaneSpec → Runner → Runner
reconcile_runner s r =
    let r' = if r.concurrency == s.concurrency then r else set_concurrency s.concurrency r in
    if s.paused then pause r' else resume r'

unfoldable pub started_runner : LaneSpec → Runner
started_runner s =
    let r = start (new_runner s.name s.concurrency) in if s.paused then pause r else r

abbrev pub spec_runner : LaneSpec → Option Runner → Runner
spec_runner s none = started_runner s
spec_runner s (some r) = reconcile_runner s r

unfoldable pub reconcile_lanes : List LaneSpec → Runners → Runners
unfolding reconcile_runner started_runner
reconcile_lanes [] rs = rs
reconcile_lanes (s ∷ wanted) rs =
    reconcile_lanes wanted (set_runner s.name (spec_runner s (find_runner s.name rs)) rs)

pub record Applied : Type 0 where
  pub runners : Runners
  pub started : List String
  pub stopped : List String
  pub resized : List String

abbrev is_new : Runners → LaneSpec → Bool
is_new rs s = not (is_some (find_runner s.name rs))

abbrev resizes : LaneSpec → Option Runner → Bool
resizes s none = false
resizes s (some r) = not (r.concurrency == s.concurrency)

-- the entries of `wanted` have different names, so that the lists of names depend on the runners
-- before the loop
unfoldable pub apply : List LaneSpec → Runners → Applied
unfolding wanted_from stop_removed reconcile_lanes
apply specs rs =
    let wanted = wanted_from [] specs in
    let (kept, stopped) = stop_removed wanted rs in
    record {
      runners = reconcile_lanes wanted kept;
      started = map (λ s. s.name) (filter (is_new kept) wanted);
      stopped = stopped;
      resized = map (λ s. s.name) (filter (λ s. resizes s (find_runner s.name kept)) wanted);
    }

-- unmanaged names are ignored
unfoldable pub stop_lanes : List String → Runners → Runners
unfolding delete_runner
stop_lanes [] rs = rs
stop_lanes (n ∷ names) rs = stop_lanes names (delete_runner n rs)

abbrev with_runner : String → (Runner → Runner) → Runners → Option Runner → Option Runners
with_runner name f rs none = none
with_runner name f rs (some r) = some (set_runner name (f r) rs)

unfoldable pub notify : String → Runners → Runners
notify lane rs = elim (find_runner lane rs) [
  | none ↦ rs
  | some r ↦ set_runner lane (notify_runner r) rs
]

abbrev pub stop_all : Runners → Runners
stop_all rs = []

-- `none` is the error that the lane is not found; MarkRemoving then waits for the runner
unfoldable pub mark_lane_removing : String → Runners → Option Runners
mark_lane_removing name rs = with_runner name mark_removing rs (find_runner name rs)

unfoldable pub is_lane_removing : String → Runners → Bool
is_lane_removing name rs = elim (find_runner name rs) [ none ↦ false | some r ↦ r.removing ]

unfoldable pub pause_lane : String → Runners → Option Runners
pause_lane name rs = with_runner name pause rs (find_runner name rs)

unfoldable pub continue_lane : String → Runners → Option Runners
continue_lane name rs = with_runner name resume rs (find_runner name rs)

unfoldable pub current_lanes : Runners → List LaneSpec
current_lanes rs =
    map (λ (n, r). record { name = n; concurrency = r.concurrency; paused = r.paused }) rs
