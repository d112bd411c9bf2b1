-- ===== src/Storage/Listing/Tests.antt =====
-- Two pages of three missions, and the theorem on them.
use letts.Prelude.Table
use letts.Storage.Rows.{Status, Kind, Mission, Db}
use letts.Prelude.{some, ◌++◌, false, [], str_eq, refl, ◌≡◌, Bool, ◌∷◌, none, String, ℕ}
use letts.Storage.Listing.{
  cursor_of, is_past_cursor, insert_descending, descending, matches_filter, escape_like_pattern,
  ListFilter, list_missions,
}
use letts.Storage.Listing.Paging.{list_missions-pages}

abbrev row : ℕ → ℕ → Mission
row n created = record {
  id = n;
  kind = Kind.mission;
  lane = "a";
  mission_name = "build";
  display_name = none;
  group_id = none;
  status = Status.queued;
  outcome = none;
  fail_reason = none;
  fail_message = none;
  fail_details = none;
  exit_code = none;
  signal = none;
  pid = none;
  pgid = none;
  proc_starttime = none;
  input = "{}";
  input_fingerprint = "f";
  return_value = none;
  truncated_stdout = false;
  truncated_stderr = false;
  time_created = created;
  time_started = none;
  time_finished = none;
  timeout_ms = none;
  restarted_from = none;
}

abbrev db : Db
db = record { missions = row 1 5 ∷ row 2 7 ∷ row 3 5 ∷ []; staging = []; refs = []; intents = [] }

abbrev everything : ListFilter
everything = record {
  status = "";
  outcome = "";
  lane = "a";
  mission = "";
  mission_prefix = "";
  kind = "";
  group_id = "";
  restarted_from = none;
  finished = false;
  since_ms = 0;
  until_ms = 0;
}

abbrev like : String → String → Bool
like pattern text = str_eq pattern text

escaped_pattern : escape_like_pattern "a_b%" ≡ "a\\_b\\%"
unfolding escape_like_pattern
escaped_pattern = refl

list_missions-pages_example :
    list_missions like db everything none 3
    ≡ (row 2 7 ∷ row 3 5 ∷ [])
      ++ list_missions like db everything (some (cursor_of everything (row 3 5))) 1
unfolding list_missions matches_filter descending insert_descending is_past_cursor Table.find
list_missions-pages_example =
    list_missions-pages like db everything none 2 1 (row 2 7 ∷ []) (row 3 5)
      (refl, (refl, (refl, tt))) refl refl
