-- ===== src/EventFile/Writer.antt =====
-- internal/eventfile/writer.go. An event is what its line decodes to: the keys `seq` and `event`,
-- and the others as its fields. A line that does not parse is `junk`; an unfinished last line is
-- the tail. What the file system does with a write is an argument. Lines stay below the 16 MiB of
-- maxScanLineSize, and reading the file does not fail.
pub mod Numbering
pub mod Terminal
pub mod Idempotence
pub mod Agreement
pub mod KeptDone
mod Tests
use letts.Prelude.{
  ◌-◌, ◌||◌, ◌+◌, not, ◌&&◌, leb, ltb, true, if◌then◌else◌, false, ◌∷◌, some, ◌++◌, none, List, [],
  Option, Bool, ℕ,
}
use letts.EventFile.Json.{Value, json_values_equal, Fields}

pub data EventKind : Type 0 where
  queued running progress done : EventKind

pub record Event : Type 0 where
  pub seq : ℕ
  pub kind : EventKind
  pub fields : Fields

pub data Line : Type 0 where
  event : Event → Line
  junk : Line

pub record EventFile : Type 0 where
  pub lines : List Line
  pub tail : Option Line

abbrev pub is_lifecycle : EventKind → Bool
is_lifecycle progress = false
is_lifecycle _ = true

abbrev pub is_done : EventKind → Bool
is_done done = true
is_done _ = false

-- a limit of 0 is none
pub record Limits : Type 0 where
  pub max_events_buffer : ℕ
  pub max_event_line_size : ℕ

pub record Writer : Type 0 where
  pub seq : ℕ
  pub limits : Limits
  pub progress_bytes : ℕ
  pub progress_drops : ℕ
  pub pending_newline : Bool

-- what becomes of a write of one line: it lands, it lands but is not synced, nothing of it lands,
-- or a part does, which parses as the event if only the newline is missing
pub data Write : Type 0 where
  complete unsynced nothing : Write
  partial : Bool → Write

pub data Appended : Type 0 where
  appended : ℕ → Appended
  dropped failed conflict : Appended
  already_done : Appended

abbrev pub no_limits : Limits
no_limits = record { max_events_buffer = 0; max_event_line_size = 0 }

unfoldable pub new_writer : ℕ → Writer
new_writer seq = record {
  seq = seq;
  limits = no_limits;
  progress_bytes = 0;
  progress_drops = 0;
  pending_newline = false;
}

abbrev pub empty_file : EventFile
empty_file = record { lines = []; tail = none }

-- what a scanner makes of the file, which ends at its last byte
unfoldable pub scanned : EventFile → List Line
scanned f = f.lines ++ tail_line f.tail
  where
    tail_line : Option Line → List Line
    tail_line none = []
    tail_line (some l) = l ∷ []

-- a newline, where the file ends within a line
unfoldable pub terminate_torn_tail : EventFile → EventFile
unfolding scanned
terminate_torn_tail f = record { lines = scanned f; tail = none }

-- the highest seq, from the one given
unfoldable pub scan_last_seq : ℕ → List Line → ℕ
scan_last_seq seq [] = seq
scan_last_seq seq (event e ∷ ls) = scan_last_seq (if ltb seq e.seq then e.seq else seq) ls
scan_last_seq seq (junk ∷ ls) = scan_last_seq seq ls

-- `Open`, where the newline can be written
unfoldable pub open_file : EventFile → Writer × EventFile
unfolding new_writer terminate_torn_tail scan_last_seq
open_file f = let f' = terminate_torn_tail f in (new_writer (scan_last_seq 0 f'.lines), f')

-- a line after an unfinished one is glued to it
abbrev pub glued : Option Line → Line → Line
glued none l = l
glued (some _) l = junk

unfoldable pub land : Write → Event → EventFile → EventFile
land complete e f = record { lines = f.lines ++ (glued f.tail (event e) ∷ []); tail = none }
land unsynced e f = record { lines = f.lines ++ (glued f.tail (event e) ∷ []); tail = none }
land nothing e f = f
land (partial whole) e f = record f { tail = some (glued f.tail (if whole then event e else junk)) }

-- the writer and the result after a write of a line of so many bytes
unfoldable pub after_write : Write → Event → ℕ → Bool → Writer → Appended × Writer
after_write nothing e size fsync w = (failed, w)
after_write (partial whole) e size fsync w =
    (failed, record w { seq = e.seq; pending_newline = true })
after_write io e size fsync w =
    let w' = record w {
      seq = e.seq;
      progress_bytes = if is_lifecycle e.kind then w.progress_bytes else w.progress_bytes + size;
    } in
    if is_unsynced io && fsync then (failed, w') else (appended e.seq, w')
  where
    is_unsynced : Write → Bool
    is_unsynced unsynced = true
    is_unsynced _ = false

unfoldable pub last_done : Option Event → List Line → Option Event
last_done found [] = found
last_done found (event e ∷ ls) = last_done (if is_done e.kind then some e else found) ls
last_done found (junk ∷ ls) = last_done found ls

unfoldable pub done_events_match : Event → Fields → Bool
done_events_match e fields =
    is_done e.kind && json_values_equal (Value.object fields) (Value.object e.fields)

-- lineSize against MaxEventLineSize
abbrev pub too_long : Limits → ℕ → Bool
too_long l line_size = ltb 0 l.max_event_line_size && ltb l.max_event_line_size line_size

-- a progress event against MaxEventsBuffer
abbrev pub no_room : Writer → EventKind → ℕ → Bool
no_room w kind line_size =
    not (is_lifecycle kind)
    && (ltb 0 w.limits.max_events_buffer
        && ltb w.limits.max_events_buffer (w.progress_bytes + line_size))

-- the writer whose next number is the one expected, or else the one after the last
unfoldable pub rewind_seq : ℕ → ℕ → Writer → Writer
rewind_seq last_seq expected w =
    let next_seq = if leb expected last_seq then last_seq + 1 else expected in
    record w { seq = next_seq - 1 }

-- `line_size` is the length of an event's JSON with its newline
module _ (line_size : Event → ℕ) where
  -- Append once the file does not end within a line
  unfoldable pub append_line :
      Write → EventKind → Fields → Bool → Writer × EventFile → Appended × Writer × EventFile
  unfolding land after_write
  append_line io kind fields fsync (w, f) =
      let e : Event = record { seq = w.seq + 1; kind = kind; fields = fields } in
      let size = line_size e in
      let (r, w') = after_write io e size fsync w in
      if too_long w.limits size && is_lifecycle kind
      then (failed, w, f)
      else if too_long w.limits size || no_room w kind size
      then (dropped, record w { progress_drops = w.progress_drops + 1 }, f)
      else (r, w', land io e f)

  -- `Append`; `newline` is whether the newline that ends a torn line lands
  unfoldable pub append :
      Bool → Write → EventKind → Fields → Bool → Writer × EventFile → Appended × Writer × EventFile
  unfolding append_line terminate_torn_tail
  append newline io kind fields fsync (w, f) =
      if not w.pending_newline
      then append_line io kind fields fsync (w, f)
      else if newline
      then append_line io kind fields fsync
          (record w { pending_newline = false }, terminate_torn_tail f)
      else (failed, w, f)

  -- the branches of AppendDoneIdempotent, on the done event that the scan found
  unfoldable pub append_done_at :
      Option Event → Bool → Write → Fields → ℕ → Writer × EventFile → Appended × Writer × EventFile
  unfolding append scan_last_seq done_events_match
  append_done_at (some e) newline io fields expected (w, f) =
      if done_events_match e fields then (already_done, w, f) else (conflict, w, f)
  append_done_at none newline io fields expected (w, f) =
      append newline io EventKind.done fields true
        (rewind_seq (scan_last_seq 0 (scanned f)) expected w, f)

  unfoldable pub append_done_idempotent :
      Bool → Write → Fields → ℕ → Writer × EventFile → Appended × Writer × EventFile
  unfolding append_done_at last_done
  append_done_idempotent newline io fields expected (w, f) =
      append_done_at (last_done none (scanned f)) newline io fields expected (w, f)
