-- ===== src/Lane/Runner/Pausing.antt =====
-- Pause: the loop may have passed its gate, so one more mission can start, and no second.
use letts.Prelude.{ℕ, ◌+◌, ◌≤◌, true, false, ◌≡◌, arith, length}
use letts.Lane.Runner.{
  Phase, gate, picking, spawning, System, start, notify_runner, pause, resume, set_concurrency,
  stop, mark_removing, release_slot, loop_step,
}
use letts.Lane.Runner.Interleavings.{Step, loop}

-- the states that are reached while the lane stays paused
pub data PausedReach (max : ℕ) (s : System) : System → Type 0 where
  here : PausedReach max s s
  next :
      {t u : System}
      → PausedReach max s t
      → t.runner.paused ≡ true
      → Step max t u
      → PausedReach max s u

-- the mission that the loop is already on its way to start
abbrev pub pending : Phase → ℕ
pending (gate false limit) = 1
pending picking = 1
pending (spawning id) = 1
pending _ = 0

Step-pending :
    {max : ℕ} {s t : System}
    → Step max s t
    → s.runner.paused ≡ true
    → length t.runner.spawned + pending t.runner.phase
      ≤ length s.runner.spawned + pending s.runner.phase
unfolding start notify_runner pause resume set_concurrency stop mark_removing release_slot loop_step
Step-pending (loop now) h = ground arith
Step-pending _ h = ground arith

PausedReach-pending :
    {max : ℕ} {s t : System}
    → PausedReach max s t
    → length t.runner.spawned + pending t.runner.phase
      ≤ length s.runner.spawned + pending s.runner.phase
PausedReach-pending here = omega arith
PausedReach-pending (next r p st) = omega (arith, PausedReach-pending r, Step-pending st p)

pending-le-one : (p : Phase) → pending p ≤ 1
pending-le-one p = ground arith

-- While a lane stays paused, whatever else happens, at most one more mission is handed to the
-- Spawner, and none if the loop was not past its gate when the lane was paused.
pub paused-spawned :
    (max : ℕ) (s t : System)
    → PausedReach max s t
    → (length t.runner.spawned ≤ length s.runner.spawned + 1)
      × (pending s.runner.phase ≡ 0 → length t.runner.spawned ≤ length s.runner.spawned)
paused-spawned max s t r = omega (arith, PausedReach-pending r, pending-le-one s.runner.phase)
