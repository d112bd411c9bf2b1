-- ===== src/Middleware/BruteForce/Tests.antt =====
-- A key with four failures, and the theorems on it.
use Prim.Native.Nat.{min}
use letts.Prelude.{eq_iff, false, str_eq, String, arith, refl, ◌≤◌, ◌^◌, ◌-◌, ◌*◌, ◌≡◌, ℕ, ◌≢◌}
use letts.Middleware.BruteForce.{
  double, failed_entry, delete, base_delay, max_delay, lookup, record_failure, Tracker, new_tracker,
  check_blocked,
}
use letts.Middleware.BruteForce.Backoff.{check_blocked-record_failure, failures}

abbrev one_more : Tracker → ℕ → Tracker
one_more b now = record_failure b "10.0.0.1" now

abbrev four_failures : Tracker
four_failures = one_more (one_more (one_more (one_more (new_tracker 3600000000000) 1) 2) 3) 4

has_four : 4 ≤ failures four_failures "10.0.0.1"
unfolding new_tracker record_failure lookup delete failed_entry
has_four = omega arith

-- the sixth failure in a row blocks for 200 ms
sixth : (check_blocked (one_more (one_more four_failures 5) 6) "10.0.0.1" 6).0 ≡ 200000000
unfolding new_tracker record_failure lookup delete failed_entry check_blocked double
sixth = refl

apart : (a b : String) → str_eq a b ≡ false → a ≢ b
apart a b h e = absurd (ground (arith, eq_iff a b))

named : ◌≢◌ {A = String} "10.0.0.1" ""
named = apart "10.0.0.1" "" refl

check_blocked-record_failure_example :
    (check_blocked (one_more four_failures 5) "10.0.0.1" 5).0
    ≡ min max_delay (base_delay * 2 ^ (failures four_failures "10.0.0.1" - 4))
check_blocked-record_failure_example =
    check_blocked-record_failure four_failures "10.0.0.1" 5 named has_four
