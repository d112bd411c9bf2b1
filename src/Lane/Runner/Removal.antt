-- ===== src/Lane/Runner/Removal.antt =====
-- MarkRemoving: once the loop has acknowledged the removal, it starts no further mission.
use letts.Prelude.{refl, ◌∙◌, [], ◌∷◌, false, ◌≢◌, String, ℕ, true, ◌≡◌, ◌⊎◌, arith}
use letts.Storage.Rows.{Db}
use letts.Lane.Runner.{
  idle, new_runner, parked, stopped, System, start, notify_runner, pause, resume, set_concurrency,
  stop, mark_removing, release_slot, loop_step,
}
use letts.Lane.Runner.Interleavings.{
  here, next, own_step, Reach, own_steps, Step, loop, take_notify, take_avail, timer_wake,
  timer_avail, call_start,
}

-- an acknowledged runner is parked, or its loop has ended; a parked one has acknowledged
pub record IsAcknowledged (s : System) : Type 0 where
  pub parked_or_stopped :
      s.runner.removing_ack ≡ true → (s.runner.phase ≡ parked) ⊎ (s.runner.phase ≡ stopped)
  pub parked_acknowledged : s.runner.phase ≡ parked → s.runner.removing_ack ≡ true

loop_step-IsAcknowledged :
    (now : ℕ) (s : System) → IsAcknowledged s → IsAcknowledged (loop_step now s)
unfolding loop_step
loop_step-IsAcknowledged now s h = ground arith

Step-IsAcknowledged : {max : ℕ} {s t : System} → Step max s t → IsAcknowledged s → IsAcknowledged t
unfolding start notify_runner pause resume set_concurrency stop mark_removing release_slot
Step-IsAcknowledged {s} (loop now) h = loop_step-IsAcknowledged now s h
Step-IsAcknowledged (take_notify e k) h = ground arith
Step-IsAcknowledged (take_avail e k) h = ground arith
Step-IsAcknowledged (timer_wake e) h = ground arith
Step-IsAcknowledged (timer_avail e) h = ground arith
Step-IsAcknowledged call_start h = ground arith
Step-IsAcknowledged _ h = ground arith

Reach-IsAcknowledged :
    {max : ℕ} {s t : System} → IsAcknowledged s → Reach max s t → IsAcknowledged t
Reach-IsAcknowledged h here = h
Reach-IsAcknowledged h (next r st) = Step-IsAcknowledged st (Reach-IsAcknowledged h r)

-- an acknowledged runner keeps what it has spawned
Step-spawned :
    {max : ℕ} {s t : System}
    → Step max s t
    → IsAcknowledged s
    → s.runner.removing_ack ≡ true
    → (t.runner.spawned ≡ s.runner.spawned) × (t.runner.removing_ack ≡ true)
unfolding start notify_runner pause resume set_concurrency stop mark_removing release_slot loop_step
Step-spawned (loop now) h a = ground arith
Step-spawned (take_notify e k) h a = ground arith
Step-spawned _ h a = ground arith

Reach-spawned :
    {max : ℕ} {s t : System}
    → Reach max s t
    → IsAcknowledged s
    → s.runner.removing_ack ≡ true
    → (t.runner.spawned ≡ s.runner.spawned) × (t.runner.removing_ack ≡ true)
Reach-spawned here h a = (refl, a)
Reach-spawned (next r st) h a =
    let (same, ack) = Reach-spawned r h a in
    let (kept, ack') = Step-spawned st (Reach-IsAcknowledged h r) ack in (kept ∙ same, ack')

loop_step-db :
    (now : ℕ) (s : System)
    → IsAcknowledged s
    → s.runner.removing_ack ≡ true
    → (loop_step now s).db ≡ s.db
unfolding loop_step
loop_step-db now s h a = ground arith

-- Once the loop of a runner has acknowledged its removal (MarkRemoving returns only then), no later
-- state, whatever the interleaving, has handed another mission to the Spawner, and the loop does not
-- write to the database.
pub removing_ack-no_pickup :
    (max n now : ℕ) (lane : String) (db : Db) (s t : System)
    → Reach max (record { runner = new_runner lane n; db = db }) s
    → s.runner.removing_ack ≡ true
    → Reach max s t
    → (t.runner.spawned ≡ s.runner.spawned) × ((loop_step now t).db ≡ t.db)
unfolding new_runner
removing_ack-no_pickup max n now lane db s t r a later =
    let h : IsAcknowledged s = Reach-IsAcknowledged (ground arith) r in
    let (same, ack) = Reach-spawned later h a in
    (same, loop_step-db now t (Reach-IsAcknowledged h later) ack)

-- If the loop runs and its context is not done, then after MarkRemoving it acknowledges within four
-- steps of its own, wherever it stands, so that MarkRemoving returns.
pub mark_removing-acknowledged :
    (a b c d : ℕ) (s : System)
    → s.runner.phase ≢ idle
    → s.runner.phase ≢ stopped
    → s.runner.cancelled ≡ false
    → IsAcknowledged s
    → (own_steps
        (a ∷ b ∷ c ∷ d ∷ [])
        (record s { runner = mark_removing s.runner })).runner.removing_ack
      ≡ true
unfolding own_steps own_step mark_removing loop_step
mark_removing-acknowledged a b c d s i p h k = ground arith
