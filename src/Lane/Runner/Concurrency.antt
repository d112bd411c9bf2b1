-- ===== src/Lane/Runner/Concurrency.antt =====
-- The slots of a lane: no more missions are in flight than the greatest limit ever configured.
use letts.Prelude.{ℕ, ◌≤◌, ◌<◌, String, arith}
use letts.Storage.Rows.{Db}
use letts.Lane.Runner.{
  Phase, gate, picking, System, new_runner, start, notify_runner, pause, resume, set_concurrency,
  stop, mark_removing, release_slot, loop_step,
}
use letts.Lane.Runner.Interleavings.{
  Step, loop, take_notify, take_avail, timer_wake, timer_avail, call_start, call_notify, call_pause,
  call_resume, call_set_concurrency, call_stop, call_mark_removing, call_release_slot, other_writer,
  Reach, here, next,
}

-- what a phase knows of the slots
abbrev PhaseFits : ℕ → ℕ → Phase → Type 0
PhaseFits max inflight (gate paused limit) = limit ≤ max
PhaseFits max inflight picking = inflight < max
PhaseFits max inflight _ = Unit

pub record Fits (max : ℕ) (s : System) : Type 0 where
  pub configured : s.runner.concurrency ≤ max
  pub within : s.runner.inflight ≤ max
  pub at_phase : PhaseFits max s.runner.inflight s.runner.phase

loop_step-Fits : (max now : ℕ) (s : System) → Fits max s → Fits max (loop_step now s)
unfolding loop_step
loop_step-Fits max now s h = ground arith

Step-Fits : {max : ℕ} {s t : System} → Step max s t → Fits max s → Fits max t
unfolding start notify_runner pause resume set_concurrency stop mark_removing release_slot
Step-Fits {max} {s} (loop now) h = loop_step-Fits max now s h
Step-Fits (take_notify e k) h = ground arith
Step-Fits (take_avail e k) h = ground arith
Step-Fits (timer_wake e) h = ground arith
Step-Fits (timer_avail e) h = ground arith
Step-Fits call_start h = ground arith
Step-Fits call_notify h = ground arith
Step-Fits call_pause h = ground arith
Step-Fits call_resume h = ground arith
Step-Fits (call_set_concurrency n le) h = ground arith
Step-Fits call_stop h = ground arith
Step-Fits call_mark_removing h = ground arith
Step-Fits (call_release_slot lt) h = ground arith
Step-Fits (other_writer db) h = ground arith

Reach-Fits : {max : ℕ} {s t : System} → Fits max s → Reach max s t → Fits max t
Reach-Fits h here = h
Reach-Fits h (next r st) = Step-Fits st (Reach-Fits h r)

-- From a new runner, whatever the interleaving of its loop with the calls of other goroutines and
-- with other writers of the database, the missions in flight never exceed `max`, if the runner is
-- made with a concurrency of at most `max` and no SetConcurrency passes `max`.
pub inflight-le-max :
    (max n : ℕ) (lane : String) (db : Db) (t : System)
    → n ≤ max
    → Reach max (record { runner = new_runner lane n; db = db }) t
    → t.runner.inflight ≤ max
unfolding new_runner
inflight-le-max max n lane db t le r = (Reach-Fits (ground arith) r).within
