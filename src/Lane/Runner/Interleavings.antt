-- ===== src/Lane/Runner/Interleavings.antt =====
-- Every interleaving of one lane's loop with the calls of other goroutines, and with the statements
-- that other parts of the daemon run on the database. `max` bounds the concurrency that is ever
-- configured.
use letts.Prelude.{false, ℕ, ◌≤◌, ◌<◌, ◌≡◌, Bool, true, List, [], ◌∷◌}
use letts.Storage.Rows.{Db}
use letts.Lane.Runner.{
  Phase, wait_wake, wait_avail, top, Runner, System, start, notify_runner, pause, resume,
  set_concurrency, stop, mark_removing, release_slot, loop_step,
}

abbrev on_runner : (Runner → Runner) → System → System
on_runner f s = record s { runner = f s.runner }

-- what the goroutine that waits sees: a token, the context, or the timer
abbrev pub woken : System → System
woken s = on_runner (λ r. record r { phase = top }) s

pub data Step (max : ℕ) (s : System) : System → Type 0 where
  loop : (now : ℕ) → Step max s (loop_step now s)
  take_notify :
      s.runner.phase ≡ wait_wake
      → s.runner.notify ≡ true
      → Step max s (on_runner (λ r. record r { phase = top; notify = false }) s)
  take_avail :
      s.runner.phase ≡ wait_avail
      → s.runner.avail ≡ true
      → Step max s (on_runner (λ r. record r { phase = top; avail = false }) s)
  timer_wake : s.runner.phase ≡ wait_wake → Step max s (woken s)
  timer_avail : s.runner.phase ≡ wait_avail → Step max s (woken s)
  call_start : Step max s (on_runner start s)
  call_notify : Step max s (on_runner notify_runner s)
  call_pause : Step max s (on_runner pause s)
  call_resume : Step max s (on_runner resume s)
  call_set_concurrency : (n : ℕ) → n ≤ max → Step max s (on_runner (set_concurrency n) s)
  call_stop : Step max s (on_runner stop s)
  call_mark_removing : Step max s (on_runner mark_removing s)
  call_release_slot : 0 < s.runner.inflight → Step max s (on_runner release_slot s)
  other_writer : (db' : Db) → Step max s (record s { db = db' })

pub data Reach (max : ℕ) (s : System) : System → Type 0 where
  here : Reach max s s
  next : {t u : System} → Reach max s t → Step max t u → Reach max s u

-- What the loop's goroutine does next when no other goroutine runs: take the token that it waits
-- for, if it is there, or go on.
abbrev own_at : Phase → Bool → Bool → ℕ → System → System
own_at wait_wake true avail now s = on_runner (λ r. record r { phase = top; notify = false }) s
own_at wait_avail notify true now s = on_runner (λ r. record r { phase = top; avail = false }) s
own_at _ _ _ now s = loop_step now s

unfoldable pub own_step : ℕ → System → System
own_step now s = own_at s.runner.phase s.runner.notify s.runner.avail now s

unfoldable pub own_steps : List ℕ → System → System
own_steps [] s = s
own_steps (now ∷ later) s = own_steps later (own_step now s)
