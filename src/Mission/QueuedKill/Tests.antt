-- ===== src/Mission/QueuedKill/Tests.antt =====
-- A queued mission that is killed while its lane is removed.
use letts.Mission.Finalize.Tests.{running_mission, torn_file, world, host}
use letts.Storage.Rows.{Status}
use letts.EventFile.Writer.{Write}
use letts.Mission.Finalize.Prepared.{Recoverable}
use letts.Mission.Machine.{left_behind}
use letts.Mission.QueuedKill.Safety.{kill_queued-Recoverable, kill_intent_of}
use letts.Mission.QueuedKill.{kill_queued}
use letts.Mission.Outcome.{ExternalKillReason}
use letts.Prelude.{refl}

-- the process dies before the last transaction
kill_queued-Recoverable_example :
    Recoverable
      (kill_intent_of host 1 "a" ExternalKillReason.kill_lane_removed 40 torn_file)
      (world Status.queued)
      (left_behind (
        kill_queued host 1 "a" ExternalKillReason.kill_lane_removed 40
          (record { left = 2; torn = Write.nothing; world = world Status.queued })))
unfolding running_mission
kill_queued-Recoverable_example =
    kill_queued-Recoverable host 1 "a" ExternalKillReason.kill_lane_removed 40 2 Write.nothing
      (world Status.queued) (running_mission Status.queued refl) refl
