-- ===== src/Middleware/BruteForce/Backoff.antt =====
-- The backoff schedule of internal/server/middleware/bruteforce.go.
use Prim.Native.Nat.{min}
use native.Mathlib.Nat.{pow-suc}
use letts.Prelude.{
  ◌+◌, ◌<◌, ◌-◌, some, ap, ◌≢◌, ◌∙◌, inr, leb→le, inl, leb, eq_iff, Bool-cases, ◌∷◌, [], zero, suc,
  arith, none, ◌^◌, str_eq, if◌then◌else◌, ◌*◌, ◌≡◌, List, String, ◌≤◌, ℕ,
}
use letts.Middleware.BruteForce.{
  base_delay, record_success, failed_entry, check_blocked, record_failure, Entry, max_delay,
  or_fresh, delete, Tracker, double, lookup,
}

lookup-delete :
    (k j : String) (m : List (String × Entry))
    → lookup j (delete k m) ≡ (if str_eq k j then none else lookup j m)
unfolding lookup delete
lookup-delete k j [] = ground arith
lookup-delete k j ((i, e) ∷ m) =
    ground (arith, lookup-delete k j m, eq_iff i k, eq_iff i j, eq_iff k j)

-- what the key's entry is worth to a client, once it is looked at
abbrev pub failures : Tracker → String → ℕ
failures b key = (or_fresh (lookup key b.entries)).count

pow_pos : (n : ℕ) → 1 ≤ 2 ^ n
pow_pos zero = omega arith
pow_pos (suc n) = omega (arith, pow_pos n, pow-suc 2 n)

doubled_eq : (n d : ℕ) → d * 2 ^ suc n ≡ d * 2 * 2 ^ n
doubled_eq n d = rw pow-suc (omega arith)

doubled : (n d : ℕ) → d * 2 ≤ d * 2 ^ suc n
doubled n d = rw doubled_eq (grind (arith, pow_pos n))

-- the loop, which stops at the cap, computes the capped power
double-eq-min :
    (exp delay : ℕ) → delay ≤ max_delay → double exp delay ≡ min max_delay (delay * 2 ^ exp)
unfolding double
double-eq-min zero delay h = omega arith
double-eq-min (suc exp) delay h = elim (Bool-cases (leb max_delay (delay * 2))) [
  | inl full ↦ rw full (omega (arith, leb→le max_delay (delay * 2) full, doubled exp delay))
  | inr room ↦ rw room (
      double-eq-min exp (delay * 2) (ground arith)
      ∙ ap (λ (t : ℕ). min max_delay t) (omega (arith, doubled_eq exp delay)))
]

lookup-record_failure :
    (b : Tracker) (key j : String) (now : ℕ)
    → key ≢ ""
    → lookup j (record_failure b key now).entries ≡ (
        if str_eq key j
        then some (failed_entry now (or_fresh (lookup key b.entries)))
        else lookup j b.entries)
unfolding record_failure lookup
lookup-record_failure b key j now named =
    ground (arith, eq_iff key "", lookup-delete key j b.entries)

ttl-record_failure : (b : Tracker) (key : String) (now : ℕ) → (record_failure b key now).ttl ≡ b.ttl
unfolding record_failure
ttl-record_failure b key now = ground arith

-- After a failure that is at least the fifth in a row, the key is blocked for exactly 100 ms,
-- doubled once for each failure after the fifth, and at most 30 s.
pub check_blocked-record_failure :
    (b : Tracker) (key : String) (now : ℕ)
    → key ≢ ""
    → 4 ≤ failures b key
    → (check_blocked (record_failure b key now) key now).0
      ≡ min max_delay (base_delay * 2 ^ (failures b key - 4))
unfolding check_blocked failed_entry
check_blocked-record_failure b key now named many = rw (lookup-record_failure b key key now named) (
    ground (
      arith,
      eq_iff key "",
      eq_iff key key,
      double-eq-min (failures b key - 4) base_delay (omega arith),
    ))

-- the same, seen at a later time
pub blocked_after_failure :
    (b : Tracker) (key : String) (now next : ℕ)
    → key ≢ ""
    → 4 ≤ failures b key
    → next - now ≤ b.ttl
    → next < now + min max_delay (base_delay * 2 ^ (failures b key - 4))
    → 0 < (check_blocked (record_failure b key now) key next).0
unfolding check_blocked failed_entry
blocked_after_failure b key now next named many soon early =
    rw (lookup-record_failure b key key now named) (
      ground (
        arith,
        eq_iff key "",
        eq_iff key key,
        ttl-record_failure b key now,
        double-eq-min (failures b key - 4) base_delay (omega arith),
      ))

-- A failure of one key leaves every other key as it was.
pub record_failure-other :
    (b : Tracker) (key other : String) (now later : ℕ)
    → key ≢ other
    → (check_blocked (record_failure b key now) other later).0 ≡ (check_blocked b other later).0
unfolding check_blocked record_failure lookup
record_failure-other b key other now later ne =
    ground
      (arith, eq_iff key "", eq_iff other "", eq_iff key other, lookup-delete key other b.entries)

-- A success unblocks the key at once, and so does a time without failures longer than the TTL.
pub check_blocked-unblocked :
    (b : Tracker) (key : String) (now : ℕ)
    → ((check_blocked (record_success b key) key now).0 ≡ 0)
      × ((e : Entry)
          → lookup key b.entries ≡ some e
          → b.ttl < now - e.updated_at
          → (check_blocked b key now).0 ≡ 0)
unfolding check_blocked record_success
check_blocked-unblocked b key now = (
  ground (arith, eq_iff key "", eq_iff key key, lookup-delete key key b.entries),
  λ e found quiet. rw found (ground (arith, eq_iff key "")),
)
