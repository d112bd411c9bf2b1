-- ===== src/EventFile/Writer/Tests.antt =====
-- A file with a torn line, and the theorems on it.
use letts.EventFile.Json.{has_key, Value, Fields}
use letts.EventFile.Writer.{
  conflict, scan_last_seq, after_write, rewind_seq, already_done, append_line, append, last_done,
  append_done_at, Appended, scanned, Event, EventKind, EventFile, Line, Write, Writer, new_writer,
  empty_file, append_done_idempotent,
}
use letts.EventFile.Json.Equality.{HasKeys, IsMap}
use letts.Prelude.{◌⊎◌, some, refl, false, arith, none, ◌≤◌, [], ◌≡◌, ◌∷◌, List, ℕ, true}
use letts.EventFile.Writer.Numbering.{
  reopen, done_call, calls-Rising, append_call, Rising, Call, Numbered, calls,
}
use letts.EventFile.Writer.KeptDone.{append_done_idempotent-keeps_done, SameReadings}
use letts.EventFile.Writer.Terminal.{calls-one_done, count_done}
use letts.EventFile.Writer.Idempotence.{is_success, append_done_idempotent-twice}
use letts.EventFile.Writer.KeptDone.{SameReadings}

abbrev line_size : Event → ℕ
line_size e = 40

abbrev killed : Fields
killed = Fields.field "outcome" (Value.string "killed") Fields.end

-- a queued event, a running one that is torn, and a healing newline that does not land at first
abbrev session : List Call
session =
    append_call true Write.complete EventKind.queued Fields.end true
    ∷ append_call true (Write.partial true) EventKind.running Fields.end false
    ∷ append_call false Write.complete EventKind.progress Fields.end false
    ∷ done_call true (Write.partial false) killed 3
    ∷ reopen
    ∷ done_call true Write.complete killed 3
    ∷ []

calls-Rising_example :
    let (w, f) = calls line_size session (new_writer 0, empty_file) in Rising 0 (scanned f) w.seq
calls-Rising_example = calls-Rising line_size session

calls-one_done_example :
    count_done (scanned (calls line_size session (new_writer 0, empty_file)).1) ≤ 1
unfolding count_done scanned
calls-one_done_example =
    calls-one_done line_size session (new_writer 0) empty_file
      (refl, (refl, (refl, (tt, (tt, (tt, tt)))))) (omega arith)

abbrev done_file : EventFile
done_file = record {
  lines = Line.event (record { seq = 1; kind = EventKind.done; fields = killed }) ∷ [];
  tail = none;
}

append_done_idempotent-keeps_done_example :
    let (r, w', f') =
      append_done_idempotent line_size true Write.complete killed 2 (new_writer 1, done_file) in
    (w' ≡ new_writer 1)
    × (f' ≡ done_file)
    × ((r ≡ already_done) ⊎ (r ≡ conflict))
    × ((e : Event) × (last_done none (scanned done_file) ≡ some e)
        × (killed ≡ e.fields → HasKeys killed → r ≡ already_done)
        × (r ≡ already_done → SameReadings killed e.fields))
unfolding count_done scanned
append_done_idempotent-keeps_done_example =
    append_done_idempotent-keeps_done line_size true Write.complete killed 2 (new_writer 1)
      done_file (λ h. absurd (ground arith))

empty-Numbered : Numbered (new_writer 0) empty_file
unfolding new_writer scanned
empty-Numbered = record { rising = omega arith; whole = λ h. refl }

killed-HasKeys : HasKeys killed
unfolding IsMap has_key
killed-HasKeys = (refl, tt, tt)

abbrev first_call : Appended × Writer × EventFile
first_call =
    append_done_idempotent line_size true Write.complete killed 1 (new_writer 0, empty_file)

first_call-success : is_success first_call.0 ≡ true
unfolding append_done_idempotent append_done_at append append_line rewind_seq new_writer after_write
    last_done scanned scan_last_seq
first_call-success = refl

append_done_idempotent-twice_example :
    append_done_idempotent line_size true Write.nothing killed 7 (first_call.1, first_call.2)
    ≡ (already_done, first_call.1, first_call.2)
append_done_idempotent-twice_example =
    append_done_idempotent-twice line_size true true Write.complete Write.nothing killed 1 7
      first_call.0 (new_writer 0) first_call.1 empty_file first_call.2 killed-HasKeys empty-Numbered
      refl first_call-success
