-- ===== src/Lane/Runner.antt =====
-- internal/lane/runner.go. The loop of one lane is a state machine: each phase is a point of `loop`
-- between two effects that other goroutines can see. A buffered channel of size one is a Boolean.
-- A runner is started once, as the Manager does: a Start after its Stop is not modelled.
pub mod Interleavings
pub mod Concurrency
pub mod Removal
pub mod Pausing
mod Tests
use letts.Prelude.{
  ℕ, zero, ◌+◌, ◌-◌, String, Bool, true, false, List, [], ◌∷◌, Option, none, some, ltb, leb,
  if◌then◌else◌,
}
use letts.Storage.Rows.{Mission, Db, Result, ok, err}
use letts.Storage.Missions.{pick_queued_for_lane, mark_running}

pub data Phase : Type 0 where
  idle : Phase  -- before Start
  top : Phase  -- the head of the loop
  gate : Bool → ℕ → Phase  -- `paused` and `limit` are read
  picking : Phase  -- past both gates, before the writer transaction
  spawning : ℕ → Phase  -- the row is running and counted, before PreSpawn and the Spawner
  wait_wake : Phase
  wait_avail : Phase
  parked : Phase  -- the removal is acknowledged, blocked until the context is done
  stopped : Phase

pub record Runner : Type 0 where
  pub lane : String
  pub concurrency : ℕ
  pub paused : Bool
  pub cancelled : Bool  -- the context is done
  pub notify : Bool
  pub avail : Bool
  pub inflight : ℕ
  pub removing : Bool
  pub removing_ack : Bool  -- the channel is closed
  pub phase : Phase
  pub spawned : List ℕ  -- the missions handed to the Spawner, the last one first

pub record System : Type 0 where
  pub runner : Runner
  pub db : Db

unfoldable pub new_runner : String → ℕ → Runner
new_runner lane n = record {
  lane = lane;
  concurrency = n;
  paused = false;
  cancelled = false;
  notify = false;
  avail = false;
  inflight = 0;
  removing = false;
  removing_ack = false;
  phase = idle;
  spawned = [];
}

abbrev start_phase : Phase → Phase
start_phase idle = top
start_phase p = p

unfoldable pub start : Runner → Runner
start r = record r { phase = start_phase r.phase }

-- before Start the channels are nil
abbrev pub is_idle : Phase → Bool
is_idle idle = true
is_idle _ = false

unfoldable pub notify_runner : Runner → Runner
notify_runner r = if is_idle r.phase then r else record r { notify = true }

unfoldable pub pause : Runner → Runner
pause r = record r { paused = true }

unfoldable pub resume : Runner → Runner
unfolding notify_runner
resume r = notify_runner (record r { paused = false })

unfoldable pub set_concurrency : ℕ → Runner → Runner
set_concurrency n r =
    if is_idle r.phase
    then record r { concurrency = n }
    else record r { concurrency = n; avail = true }

-- the part before the wait for `stopped`
unfoldable pub stop : Runner → Runner
stop r = if is_idle r.phase then r else record r { cancelled = true }

-- the part before the wait for `removing_ack`
unfoldable pub mark_removing : Runner → Runner
mark_removing r =
    if is_idle r.phase
    then record r { removing = true }
    else record r { removing = true; avail = true; notify = true }

-- the callback of a spawned mission
unfoldable pub release_slot : Runner → Runner
release_slot r = record r { inflight = r.inflight - 1; avail = true }

-- the writer transaction: pick the oldest queued row and mark it running
unfoldable pub claim : Db → String → ℕ → Option (Result (ℕ × Db))
claim db lane now_ms = claim_picked (pick_queued_for_lane db lane)
  where
    claimed : Mission → Result Db → Result (ℕ × Db)
    claimed m (ok db') = ok (m.id, db')
    claimed m (err e) = err e

    claim_picked : Option Mission → Option (Result (ℕ × Db))
    claim_picked none = none
    claim_picked (some m) = some (claimed m (mark_running db m.id now_ms 0 0 0))

-- an empty lane and a failed transaction both wait; a claimed row takes a slot
unfoldable pub after_claim : System → Option (Result (ℕ × Db)) → System
after_claim s none = record s { runner = record s.runner { phase = wait_wake } }
after_claim s (some (err e)) = record s { runner = record s.runner { phase = wait_wake } }
after_claim s (some (ok (id, db'))) = record {
  runner = record s.runner { inflight = s.runner.inflight + 1; phase = spawning id };
  db = db';
}

loop_at : Phase → ℕ → System → System
unfolding after_claim
loop_at top now s =
    if s.runner.cancelled
    then record s { runner = record s.runner { phase = stopped } }
    else if s.runner.removing
    then record s { runner = record s.runner { removing_ack = true; phase = parked } }
    else record s { runner = record s.runner { phase = gate s.runner.paused s.runner.concurrency } }
loop_at (gate paused limit) now s =
    if paused
    then record s { runner = record s.runner { phase = wait_wake } }
    else if leb limit s.runner.inflight
    then record s { runner = record s.runner { phase = wait_avail } }
    else record s { runner = record s.runner { phase = picking } }
loop_at picking now s = after_claim s (claim s.db s.runner.lane now)
loop_at (spawning id) now s = record s {
  runner = record s.runner { phase = top; spawned = id ∷ s.runner.spawned };
}
loop_at parked now s =
    if s.runner.cancelled then record s { runner = record s.runner { phase = stopped } } else s
loop_at _ now s = s

-- one effect of the loop's goroutine, where it does not wait
unfoldable pub loop_step : ℕ → System → System
unfolding loop_at
loop_step now s = loop_at s.runner.phase now s
