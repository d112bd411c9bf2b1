-- ===== src/Storage/Listing.antt =====
-- internal/storage/missions.go: ListMissions, a page of the missions that a filter matches. SQL's LIKE
-- is a function of the pattern and the text.
pub mod Order
pub mod Paging
mod Tests
use Prim.Native.String
use Prim.Native.Char.{Char, code}
use letts.Prelude.{
  leb, is_some, not, ◌&&◌, [], ◌==◌, ◌||◌, filter, take, ◌∷◌, true, if◌then◌else◌, str_eq, ltb,
  false, Bool, ℕ, Option, String, List, none, some,
}
use letts.Storage.Rows.{Status, Kind, Outcome, Mission, Db}

-- "" and none stand for a field that is not given
pub record ListFilter : Type 0 where
  pub status : String
  pub outcome : String
  pub lane : String
  pub mission : String
  pub mission_prefix : String
  pub kind : String
  pub group_id : String
  pub restarted_from : Option ℕ
  pub finished : Bool
  pub since_ms : ℕ
  pub until_ms : ℕ

-- the time is that of the listing's order
pub record Cursor : Type 0 where
  pub time : ℕ
  pub mission_id : ℕ

abbrev status_text : Status → String
status_text Status.queued = "queued"
status_text Status.running = "running"
status_text Status.done = "done"
status_text Status.deleting = "deleting"

abbrev kind_name : Kind → String
kind_name Kind.mission = "mission"
kind_name Kind.exec = "exec"

abbrev outcome_name : Outcome → String
outcome_name Outcome.success = "success"
outcome_name Outcome.failed = "failed"
outcome_name Outcome.killed = "killed"
outcome_name Outcome.timeout = "timeout"
outcome_name Outcome.crashed = "crashed"
outcome_name Outcome.lost = "lost"
outcome_name Outcome.oom = "oom"

-- \, % and _ are escaped
unfoldable pub escape_like_pattern : String → String
escape_like_pattern String.[] = String.[]
escape_like_pattern (String.◌∷◌ c s) =
    let rest = escape_like_pattern s in
    if code c == 92 || (code c == b'%' || code c == b'_')
    then String.◌++◌ "\\" (String.◌∷◌ c rest)
    else String.◌∷◌ c rest

-- column = ?, unless the filter leaves it out; NULL is equal to nothing
abbrev given : String → (String → Bool) → Bool
given s test = if str_eq s "" then true else test s

abbrev equals : Option String → String → Bool
equals none s = false
equals (some t) s = str_eq t s

abbrev is_given_id : Option ℕ → Option ℕ → Bool
is_given_id none o = true
is_given_id (some id) none = false
is_given_id (some id) (some parent) = parent == id

abbrev outcome_of : Option Outcome → Option String
outcome_of none = none
outcome_of (some o) = some (outcome_name o)

-- the conditions of the WHERE clause, the cursor's apart
unfoldable pub matches_filter : (String → String → Bool) → ListFilter → Mission → Bool
unfolding escape_like_pattern
matches_filter like f m =
    given f.kind (λ s. str_eq (kind_name m.kind) s)
    && (given f.group_id (λ s. equals m.group_id s)
        && (is_given_id f.restarted_from m.restarted_from
            && ((if str_eq f.status ""
                  then not (str_eq (status_text m.status) "deleting")
                  else str_eq (status_text m.status) f.status)
                && (given f.outcome (λ s. equals (outcome_of m.outcome) s)
                    && (given f.lane (λ s. str_eq m.lane s)
                        && (given f.mission (λ s.
                              like (String.◌++◌ "%" (String.◌++◌ (escape_like_pattern s) "%"))
                                m.mission_name)
                            && (given f.mission_prefix (λ s.
                                  like (String.◌++◌ (escape_like_pattern s) "%") m.mission_name)
                                && ((if f.finished then is_some m.time_finished else true)
                                    && ((if ltb 0 f.since_ms
                                          then leb f.since_ms m.time_created
                                          else true)
                                        && (if ltb 0 f.until_ms
                                            then ltb m.time_created f.until_ms
                                            else true))))))))))

abbrev or_zero : Option ℕ → ℕ
or_zero none = 0
or_zero (some n) = n

-- the column of the order
abbrev pub time_of : ListFilter → Mission → ℕ
time_of f m = if f.finished then or_zero m.time_finished else m.time_created

abbrev pub cursor_of : ListFilter → Mission → Cursor
cursor_of f m = record { time = time_of f m; mission_id = m.id }

-- (time, mission_id) < (?, ?)
unfoldable pub is_past_cursor : Cursor → Cursor → Bool
is_past_cursor c a = ltb a.time c.time || (a.time == c.time && ltb a.mission_id c.mission_id)

abbrev pub is_after : ListFilter → Option Cursor → Mission → Bool
is_after f none m = true
is_after f (some c) m = is_past_cursor c (cursor_of f m)

-- ORDER BY time DESC, mission_id DESC
unfoldable pub insert_descending : ListFilter → Mission → List Mission → List Mission
unfolding is_past_cursor
insert_descending f m [] = m ∷ []
insert_descending f m (n ∷ ns) =
    let rest = insert_descending f m ns in
    if is_past_cursor (cursor_of f n) (cursor_of f m) then n ∷ rest else m ∷ n ∷ ns

unfoldable pub descending : ListFilter → List Mission → List Mission
unfolding insert_descending
descending f [] = []
descending f (m ∷ ms) = insert_descending f m (descending f ms)

unfoldable pub list_missions :
    (String → String → Bool) → Db → ListFilter → Option Cursor → ℕ → List Mission
unfolding matches_filter descending is_past_cursor
list_missions like db f after limit =
    take limit
      (descending f (filter (λ m. matches_filter like f m && is_after f after m) db.missions))
