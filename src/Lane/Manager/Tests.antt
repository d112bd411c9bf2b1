-- ===== src/Lane/Manager/Tests.antt =====
-- A new configuration of two lanes.
use mathlib.Core.Option
use letts.Lane.Runner.{new_runner, start}
use letts.Lane.Manager.{wanted_from, stop_removed, LaneSpec, Runners, find_runner, apply}
use letts.Lane.Manager.Reconciled.{apply-runners, running_as, last_spec}
use letts.Prelude.{refl, true, [], some, false, List, ◌∷◌, ◌≡◌}

abbrev runners : Runners
runners = ("a", start (new_runner "a" 2)) ∷ ("old", start (new_runner "old" 1)) ∷ []

abbrev specs : List LaneSpec
specs =
    record { name = "a"; concurrency = 1; paused = false }
    ∷ record { name = "b"; concurrency = 3; paused = false }
    ∷ record { name = "a"; concurrency = 5; paused = true }
    ∷ []

apply-runners_example :
    Option.map running_as (find_runner "a" (apply specs runners).runners) ≡ some (5, true)
unfolding last_spec
apply-runners_example = apply-runners "a" specs runners

stopped_names : (apply specs runners).stopped ≡ "old" ∷ []
unfolding apply stop_removed wanted_from
stopped_names = refl
