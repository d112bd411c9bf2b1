-- ===== src/EventFile/Writer/Numbering.antt =====
-- The sequence numbers of an events file, through failed writes and torn lines
-- (internal/eventfile/writer.go).
use letts.EventFile.Writer.{
  rewind_seq, no_room, is_lifecycle, too_long, done_events_match, last_done, append_done_at,
  empty_file, append_done_idempotent, open_file, new_writer, Appended, EventKind, append_line,
  terminate_torn_tail, append, Event, Write, after_write, EventFile, Line, land, Writer, scanned,
  scan_last_seq,
}
use letts.Prelude.{
  ◌||◌, ◌&&◌, not, Option-cases, if_cases, inr, inl, Bool-cases, refl, some, sym, true, ◌+◌, none,
  [], arith, ◌<◌, ◌∷◌, Bool, false, ◌++◌, ◌≡◌, ◌≤◌, List, ℕ,
}
use mathlib.Core.List.{append-nil}
use letts.EventFile.Json.{Fields}

-- the events of the lines are numbered in a strictly rising order, above `lo` and up to `hi`
abbrev pub Rising : ℕ → List Line → ℕ → Type 0
Rising lo [] hi = lo ≤ hi
Rising lo (Line.event e ∷ ls) hi = (lo < e.seq) × Rising e.seq ls hi
Rising lo (Line.junk ∷ ls) hi = Rising lo ls hi

Rising-le : (lo : ℕ) (ls : List Line) (hi hi' : ℕ) → hi ≤ hi' → Rising lo ls hi → Rising lo ls hi'
Rising-le lo [] hi hi' le r = omega arith
Rising-le lo (Line.event e ∷ ls) hi hi' le r = (r.0, Rising-le e.seq ls hi hi' le r.1)
Rising-le lo (Line.junk ∷ ls) hi hi' le r = Rising-le lo ls hi hi' le r

Rising-event :
    (lo : ℕ) (ls : List Line) (hi : ℕ) (e : Event)
    → Rising lo ls hi
    → hi < e.seq
    → Rising lo (ls ++ (Line.event e ∷ [])) e.seq
Rising-event lo [] hi e r lt = (omega arith, omega arith)
Rising-event lo (Line.event d ∷ ls) hi e r lt = (r.0, Rising-event d.seq ls hi e r.1 lt)
Rising-event lo (Line.junk ∷ ls) hi e r lt = Rising-event lo ls hi e r lt

Rising-junk :
    (lo : ℕ) (ls : List Line) (hi : ℕ) → Rising lo ls hi → Rising lo (ls ++ (Line.junk ∷ [])) hi
Rising-junk lo [] hi r = r
Rising-junk lo (Line.event d ∷ ls) hi r = (r.0, Rising-junk d.seq ls hi r.1)
Rising-junk lo (Line.junk ∷ ls) hi r = Rising-junk lo ls hi r

-- The scan for the last number finds the bound of the numbers.
Rising-scan :
    (lo : ℕ) (ls : List Line) (hi seq : ℕ)
    → lo ≤ seq
    → Rising lo ls hi
    → Rising lo ls (scan_last_seq seq ls)
unfolding scan_last_seq
Rising-scan lo [] hi seq le r = le
Rising-scan lo (Line.event e ∷ ls) hi seq le r = (r.0, Rising-scan e.seq ls hi _ (ground arith) r.1)
Rising-scan lo (Line.junk ∷ ls) hi seq le r = Rising-scan lo ls hi seq le r

-- a writer knows a bound of the numbers in its file, and whether the file ends within a line
pub record Numbered (w : Writer) (f : EventFile) : Type 0 where
  pub rising : Rising 0 (scanned f) w.seq
  pub whole : w.pending_newline ≡ false → f.tail ≡ none

pub scanned-none : (f : EventFile) → f.tail ≡ none → scanned f ≡ f.lines
unfolding scanned
scanned-none f h = rw h (append-nil f.lines)

pub scanned-some :
    (ls : List Line) (l : Line) → scanned (record { lines = ls; tail = some l }) ≡ ls ++ (l ∷ [])
unfolding scanned
scanned-some ls l = refl

lines-Numbered :
    (w : Writer) (ls : List Line)
    → Rising 0 ls w.seq
    → Numbered w (record { lines = ls; tail = none })
unfolding scanned
lines-Numbered w ls r = record { rising = rw (append-nil ls) r; whole = λ h. refl }

next-Rising :
    (e : Event) (w : Writer) (f : EventFile)
    → Numbered w f
    → f.tail ≡ none
    → e.seq ≡ w.seq + 1
    → Rising 0 (f.lines ++ (Line.event e ∷ [])) e.seq
next-Rising e w f n t q =
    Rising-event 0 f.lines w.seq e (rw (sym (scanned-none f t)) n.rising) (omega arith)

landed-Numbered :
    (e : Event) (w w' : Writer) (f : EventFile)
    → Numbered w f
    → f.tail ≡ none
    → e.seq ≡ w.seq + 1
    → w'.seq ≡ e.seq
    → Numbered w' (land Write.complete e f)
unfolding land
landed-Numbered e w w' f n t q same = rw t (lines-Numbered w' _ (rw same (next-Rising e w f n t q)))

land-Numbered :
    (io : Write) (e : Event) (w : Writer) (f : EventFile) (size : ℕ) (fsync : Bool)
    → Numbered w f
    → f.tail ≡ none
    → e.seq ≡ w.seq + 1
    → Numbered (after_write io e size fsync w).1 (land io e f)
unfolding land after_write
land-Numbered Write.complete e w f size fsync n t q = landed-Numbered e w _ f n t q refl
land-Numbered Write.unsynced e w f size true n t q = landed-Numbered e w _ f n t q refl
land-Numbered Write.unsynced e w f size false n t q = landed-Numbered e w _ f n t q refl
land-Numbered Write.nothing e w f size fsync n t q = n
land-Numbered (Write.partial true) e w f size fsync n t q = record {
  rising = rw (t, scanned-some f.lines (Line.event e)) (next-Rising e w f n t q);
  whole = λ h. absurd (ground arith);
}
land-Numbered (Write.partial false) e w f size fsync n t q =
    let r : Rising 0 f.lines w.seq = rw (sym (scanned-none f t)) n.rising in
    record {
      rising =
          rw (t, scanned-some f.lines Line.junk)
            (Rising-le 0 (f.lines ++ (Line.junk ∷ [])) w.seq e.seq (omega arith)
              (Rising-junk 0 f.lines w.seq r));
      whole = λ h. absurd (ground arith);
    }

drops-Numbered :
    (w : Writer) (f : EventFile) (d : ℕ)
    → Numbered w f
    → Numbered (record w { progress_drops = d }) f
drops-Numbered w f d n = record { rising = n.rising; whole = n.whole }

terminated-Numbered :
    (w : Writer) (f : EventFile)
    → Numbered w f
    → Numbered (record w { pending_newline = false }) (terminate_torn_tail f)
unfolding terminate_torn_tail
terminated-Numbered w f n = lines-Numbered _ (scanned f) n.rising

-- of the outcome of a call
unfoldable pub ResultNumbered : Appended × Writer × EventFile → Type 0
ResultNumbered (r, w, f) = Numbered w f

result : (r : Appended) (w : Writer) (f : EventFile) → Numbered w f → ResultNumbered (r, w, f)
unfolding ResultNumbered
result r w f n = n

outcome : (a : Appended × Writer × EventFile) → ResultNumbered a → let (r, w, f) = a in Numbered w f
unfolding ResultNumbered
outcome (r, w, f) n = n

-- AppendDoneIdempotent rewinds the writer's number to just below the one that it expects
rewind_seq-Numbered :
    (last_seq expected : ℕ) (w : Writer) (f : EventFile)
    → Rising 0 (scanned f) last_seq
    → (w.pending_newline ≡ false → f.tail ≡ none)
    → Numbered (rewind_seq last_seq expected w) f
unfolding rewind_seq
rewind_seq-Numbered last_seq expected w f r whole = record {
  rising = Rising-le 0 (scanned f) last_seq _ (ground arith) r;
  whole = whole;
}

-- a call of the writer, with what becomes of its writes
pub data Call : Type 0 where
  append_call : Bool → Write → EventKind → Fields → Bool → Call
  done_call : Bool → Write → Fields → ℕ → Call
  reopen : Call

module _ (line_size : Event → ℕ) where
  append_line-Numbered :
      (io : Write) (kind : EventKind) (fields : Fields) (fsync : Bool) (w : Writer) (f : EventFile)
      → Numbered w f
      → f.tail ≡ none
      → ResultNumbered (append_line line_size io kind fields fsync (w, f))
  unfolding append_line
  append_line-Numbered io kind fields fsync w f n t =
      let e : Event = record { seq = w.seq + 1; kind = kind; fields = fields } in
      elim (Bool-cases (too_long w.limits (line_size e) && is_lifecycle kind)) [
        | inl h ↦ rw h (result _ w f n)
        | inr h ↦
            rw h
              (elim (Bool-cases (too_long w.limits (line_size e) || no_room w kind (line_size e))) [
                | inl d ↦ rw d (result _ _ f (drops-Numbered w f _ n))
                | inr d ↦ rw d (result _ _ _ (land-Numbered io e w f _ fsync n t refl))
              ])
      ]

  append-Numbered :
      (newline : Bool) (io : Write) (kind : EventKind) (fields : Fields) (fsync : Bool) (w : Writer)
      (f : EventFile)
      → Numbered w f
      → ResultNumbered (append line_size newline io kind fields fsync (w, f))
  unfolding append
  append-Numbered newline io kind fields fsync w f n =
      if_cases ResultNumbered (not w.pending_newline) _ _
        (λ p. append_line-Numbered io kind fields fsync w f n (n.whole (ground arith)))
        (λ p.
          if_cases ResultNumbered newline _ _
            (λ l. append_line-Numbered io kind fields fsync _ _ (terminated-Numbered w f n) refl)
            (λ l. result _ w f n))

  append_done-Numbered :
      (newline : Bool) (io : Write) (fields : Fields) (expected : ℕ) (w : Writer) (f : EventFile)
      → Numbered w f
      → ResultNumbered (append_done_idempotent line_size newline io fields expected (w, f))
  unfolding append_done_idempotent append_done_at
  append_done-Numbered newline io fields expected w f n =
      elim (Option-cases (last_done none (scanned f))) [
        | inl h ↦ rw h (
            append-Numbered newline io EventKind.done fields true
              (rewind_seq (scan_last_seq 0 (scanned f)) expected w) f
              (rewind_seq-Numbered (scan_last_seq 0 (scanned f)) expected w f
                (Rising-scan 0 (scanned f) w.seq 0 (omega arith) n.rising) n.whole))
        | inr (e, h) ↦ rw h (
            if_cases ResultNumbered (done_events_match e fields) _ _ (λ m. result _ w f n)
              (λ m. result _ w f n))
      ]

  unfoldable pub call : Call → Writer × EventFile → Writer × EventFile
  call (append_call newline io kind fields fsync) s =
      let (r, w, f) = append line_size newline io kind fields fsync s in (w, f)
  call (done_call newline io fields expected) s =
      let (r, w, f) = append_done_idempotent line_size newline io fields expected s in (w, f)
  call reopen (w, f) = open_file f

  unfoldable pub calls : List Call → Writer × EventFile → Writer × EventFile
  calls [] s = s
  calls (c ∷ cs) s = calls cs (call c s)

  call-Numbered :
      (c : Call) (s : Writer × EventFile) → Numbered s.0 s.1 → Numbered (call c s).0 (call c s).1
  unfolding call open_file terminate_torn_tail new_writer
  call-Numbered (append_call newline io kind fields fsync) (w, f) n =
      outcome _ (append-Numbered newline io kind fields fsync w f n)
  call-Numbered (done_call newline io fields expected) (w, f) n =
      outcome _ (append_done-Numbered newline io fields expected w f n)
  call-Numbered reopen (w, f) n =
      lines-Numbered _ (scanned f) (Rising-scan 0 (scanned f) w.seq 0 (omega arith) n.rising)

  calls-Numbered :
      (cs : List Call) (s : Writer × EventFile)
      → Numbered s.0 s.1
      → Numbered (calls cs s).0 (calls cs s).1
  unfolding calls
  calls-Numbered [] s n = n
  calls-Numbered (c ∷ cs) s n = calls-Numbered cs (call c s) (call-Numbered c s n)

  -- Whatever becomes of the writes of a new events file (lines that are torn, are not synced or do
  -- not land, a healing newline that does not land, a writer that is closed and opened again), the
  -- events that a reader can parse are numbered in a strictly rising order after any calls of
  -- Append, AppendDoneIdempotent and Open, none above the writer's own number.
  pub calls-Rising :
      (cs : List Call)
      → let (w, f) = calls cs (new_writer 0, empty_file) in Rising 0 (scanned f) w.seq
  calls-Rising cs = (calls-Numbered cs _ (lines-Numbered (new_writer 0) [] (omega arith))).rising
