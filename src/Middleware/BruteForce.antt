-- ===== src/Middleware/BruteForce.antt =====
-- internal/server/middleware/bruteforce.go: failure counters with exponential backoff. Instants and
-- durations are numbers of nanoseconds, and the zero time is 0. The map is a list of its entries;
-- writing a key replaces the entry that reading it finds.
pub mod Backoff
mod Tests
use letts.Prelude.{
  zero, ◌-◌, leb, ltb, str_eq, ◌∷◌, if◌then◌else◌, none, some, [], Option, ◌*◌, ◌+◌, List, suc,
  String, ℕ,
}

pub record Entry : Type 0 where
  pub count : ℕ
  pub next_allowed : ℕ
  pub updated_at : ℕ

pub record Tracker : Type 0 where
  pub entries : List (String × Entry)
  pub ttl : ℕ

unfoldable pub new_tracker : ℕ → Tracker
new_tracker ttl = record { entries = []; ttl = ttl }

unfoldable pub lookup : String → List (String × Entry) → Option Entry
lookup k [] = none
lookup k ((j, e) ∷ m) = let rest = lookup k m in if str_eq j k then some e else rest

unfoldable pub delete : String → List (String × Entry) → List (String × Entry)
delete k [] = []
delete k ((j, e) ∷ m) = let rest = delete k m in if str_eq j k then rest else (j, e) ∷ rest

abbrev pub insert : String → Entry → List (String × Entry) → List (String × Entry)
insert k e m = (k, e) ∷ delete k m

-- how long the key stays blocked (0: it is not), and the tracker without an entry past the TTL
abbrev check_entry : Tracker → String → ℕ → Option Entry → ℕ × Tracker
check_entry b key now none = (0, b)
check_entry b key now (some e) =
    if ltb b.ttl (now - e.updated_at)
    then (0, record b { entries = delete key b.entries })
    else (e.next_allowed - now, b)

unfoldable pub check_blocked : Tracker → String → ℕ → ℕ × Tracker
check_blocked b key now =
    if str_eq key "" then (0, b) else check_entry b key now (lookup key b.entries)

abbrev pub max_delay : ℕ
max_delay = 30 * 1000000000

abbrev pub base_delay : ℕ
base_delay = 100 * 1000000

-- for i := 0; i < exp; i++, left as soon as the delay reaches the cap
unfoldable pub double : ℕ → ℕ → ℕ
double zero delay = delay
double (suc exp) delay =
    let rest = double exp (delay * 2) in if leb max_delay (delay * 2) then max_delay else rest

unfoldable pub failed_entry : ℕ → Entry → Entry
failed_entry now e =
    let count = e.count + 1 in
    record {
      count = count;
      updated_at = now;
      next_allowed = if leb 5 count then now + double (count - 5) base_delay else e.next_allowed;
    }

abbrev fresh_entry : Entry
fresh_entry = record { count = 0; next_allowed = 0; updated_at = 0 }

abbrev pub or_fresh : Option Entry → Entry
or_fresh none = fresh_entry
or_fresh (some e) = e

unfoldable pub record_failure : Tracker → String → ℕ → Tracker
record_failure b key now = if str_eq key "" then b else record b {
  entries = insert key (failed_entry now (or_fresh (lookup key b.entries))) b.entries;
}

unfoldable pub record_success : Tracker → String → Tracker
record_success b key = if str_eq key "" then b else record b { entries = delete key b.entries }
