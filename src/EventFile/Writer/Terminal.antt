-- ===== src/EventFile/Writer/Terminal.antt =====
-- The terminal `done` event: AppendDoneIdempotent of internal/eventfile/writer.go.
use letts.EventFile.Writer.Numbering.{reopen, done_call, append_call, call, calls, Call}
use letts.EventFile.Writer.{
  scan_last_seq, rewind_seq, open_file, no_room, is_lifecycle, too_long, done_events_match,
  append_done_at, EventKind, Writer, terminate_torn_tail, append_done_idempotent, append, Appended,
  append_line, glued, EventFile, is_done, Write, Event, Line, scanned, last_done, land,
}
use letts.Prelude.{
  All, ◌||◌, sym, ◌&&◌, not, if_cases, Option-cases, Bool, false, inr, inl, Bool-cases, arith, ◌≢◌,
  refl, ◌+◌, true, ◌≤◌, some, [], ◌∷◌, ◌≡◌, if◌then◌else◌, ℕ, none, ◌++◌, Option, List,
}
use mathlib.Core.List.{append-nil}
use letts.EventFile.Json.{Fields}

-- the done events among the lines
unfoldable pub count_done : List Line → ℕ
count_done [] = 0
count_done (Line.event e ∷ ls) = (if is_done e.kind then 1 else 0) + count_done ls
count_done (Line.junk ∷ ls) = count_done ls

-- the scan starts from a done event, or from none
pub last_done-none : (ls : List Line) → last_done none ls ≡ none → count_done ls ≡ 0
unfolding last_done count_done
last_done-none [] h = refl
last_done-none (Line.event e ∷ ls) h = elim (Bool-cases (is_done e.kind)) [
  | inl d ↦ absurd (found_stays e ls (rw d at h))
  | inr d ↦ rw d (omega (arith, last_done-none ls (rw d at h)))
]
  where
    found_stays : (e : Event) (ls : List Line) → last_done (some e) ls ≢ none
    found_stays e [] h = ground arith
    found_stays e (Line.event d ∷ ls) h = elim (Bool-cases (is_done d.kind)) [
      | inl t ↦ found_stays d ls (rw t at h)
      | inr t ↦ found_stays e ls (rw t at h)
    ]
    found_stays e (Line.junk ∷ ls) h = found_stays e ls h
last_done-none (Line.junk ∷ ls) h = last_done-none ls h

count_done-append_one :
    (ls : List Line) (l : Line) → count_done (ls ++ (l ∷ [])) ≡ count_done ls + count_done (l ∷ [])
unfolding count_done
count_done-append_one [] l = omega arith
count_done-append_one (Line.event e ∷ ls) l = rw (count_done-append_one ls l) (omega arith)
count_done-append_one (Line.junk ∷ ls) l = count_done-append_one ls l

pub last_done-append_one :
    (found : Option Event) (ls : List Line) (e : Event)
    → is_done e.kind ≡ true
    → last_done found (ls ++ (Line.event e ∷ [])) ≡ some e
unfolding last_done
last_done-append_one found [] e d = rw d refl
last_done-append_one found (Line.event c ∷ ls) e d = last_done-append_one _ ls e d
last_done-append_one found (Line.junk ∷ ls) e d = last_done-append_one found ls e d

-- a torn tail is lost when a line is glued to it
glued-count_done :
    (ls : List Line) (t : Option Line) (l : Line)
    → count_done (ls ++ (glued t l ∷ []))
      ≤ count_done (scanned (record { lines = ls; tail = t })) + count_done (l ∷ [])
unfolding scanned count_done
glued-count_done ls none l = rw (append-nil ls) (omega (arith, count_done-append_one ls l))
glued-count_done ls (some torn) l =
    omega (arith, count_done-append_one ls Line.junk, count_done-append_one ls torn)

-- a write adds the one event at most
land-count_done :
    (io : Write) (e : Event) (f : EventFile)
    → count_done (scanned (land io e f)) ≤ count_done (scanned f) + count_done (Line.event e ∷ [])
unfolding land scanned count_done
land-count_done Write.complete e f =
    rw (append-nil (f.lines ++ (glued f.tail (Line.event e) ∷ [])))
      (glued-count_done f.lines f.tail (Line.event e))
land-count_done Write.unsynced e f =
    rw (append-nil (f.lines ++ (glued f.tail (Line.event e) ∷ [])))
      (glued-count_done f.lines f.tail (Line.event e))
land-count_done Write.nothing e f = omega arith
land-count_done (Write.partial true) e f = glued-count_done f.lines f.tail (Line.event e)
land-count_done (Write.partial false) e f = omega (arith, glued-count_done f.lines f.tail Line.junk)

-- the file that a call leaves holds so many done events at most
unfoldable pub LeavesAtMost : ℕ → Appended × Writer × EventFile → Type 0
LeavesAtMost n (r, w, f) = count_done (scanned f) ≤ n

leaves :
    (n : ℕ) (r : Appended) (w : Writer) (f : EventFile)
    → count_done (scanned f) ≤ n
    → LeavesAtMost n (r, w, f)
unfolding LeavesAtMost
leaves n r w f le = le

more : (n m : ℕ) (a : Appended × Writer × EventFile) → n ≤ m → LeavesAtMost n a → LeavesAtMost m a
unfolding LeavesAtMost
more n m (r, w, f) le h = omega arith

left :
    (n : ℕ) (a : Appended × Writer × EventFile)
    → LeavesAtMost n a
    → let (r, w, f) = a in count_done (scanned f) ≤ n
unfolding LeavesAtMost
left n (r, w, f) le = le

terminated-count_done :
    (f : EventFile) → count_done (scanned (terminate_torn_tail f)) ≡ count_done (scanned f)
unfolding terminate_torn_tail scanned
terminated-count_done f = rw (append-nil (scanned f)) refl

abbrev pub ByAppendDone : Call → Type 0
ByAppendDone (append_call newline io kind fields fsync) = is_done kind ≡ false
ByAppendDone _ = Unit

module _ (line_size : Event → ℕ) where
  append_line-count_done :
      (io : Write) (kind : EventKind) (fields : Fields) (fsync : Bool) (w : Writer) (f : EventFile)
      → LeavesAtMost
          (count_done (scanned f) + (if is_done kind then 1 else 0))
          (append_line line_size io kind fields fsync (w, f))
  unfolding append_line count_done
  append_line-count_done io kind fields fsync w f =
      let e : Event = record { seq = w.seq + 1; kind = kind; fields = fields } in
      let n = count_done (scanned f) + (if is_done kind then 1 else 0) in
      if_cases (LeavesAtMost n) (too_long w.limits (line_size e) && is_lifecycle kind) _ _
        (λ h. leaves n _ w f (omega arith))
        (λ h.
          if_cases (LeavesAtMost n)
            (too_long w.limits (line_size e) || no_room w kind (line_size e)) _ _
            (λ d. leaves n _ _ f (omega arith))
            (λ d. leaves n _ _ _ (omega (arith, land-count_done io e f))))

  append-count_done :
      (newline : Bool) (io : Write) (kind : EventKind) (fields : Fields) (fsync : Bool) (w : Writer)
      (f : EventFile)
      → LeavesAtMost
          (count_done (scanned f) + (if is_done kind then 1 else 0))
          (append line_size newline io kind fields fsync (w, f))
  unfolding append
  append-count_done newline io kind fields fsync w f =
      let n = count_done (scanned f) + (if is_done kind then 1 else 0) in
      if_cases (LeavesAtMost n) (not w.pending_newline) _ _
        (λ p. append_line-count_done io kind fields fsync w f)
        (λ p.
          if_cases (LeavesAtMost n) newline _ _
            (λ l. rw (sym (terminated-count_done f)) (
              append_line-count_done io kind fields fsync (record w { pending_newline = false })
                (terminate_torn_tail f)))
            (λ l. leaves n _ w f (omega arith)))

  append_done-count_done :
      (newline : Bool) (io : Write) (fields : Fields) (expected : ℕ) (w : Writer) (f : EventFile)
      → count_done (scanned f) ≤ 1
      → LeavesAtMost 1 (append_done_idempotent line_size newline io fields expected (w, f))
  unfolding append_done_idempotent append_done_at
  append_done-count_done newline io fields expected w f one =
      elim (Option-cases (last_done none (scanned f))) [
        | inl h ↦ rw h (
            more _ 1 _ (omega (arith, last_done-none (scanned f) h)) (
              append-count_done newline io EventKind.done fields true
                (rewind_seq (scan_last_seq 0 (scanned f)) expected w) f))
        | inr (e, h) ↦ rw h (
            if_cases (LeavesAtMost 1) (done_events_match e fields) _ _ (λ m. leaves 1 _ w f one)
              (λ m. leaves 1 _ w f one))
      ]

  call-count_done :
      (c : Call) (s : Writer × EventFile)
      → ByAppendDone c
      → count_done (scanned s.1) ≤ 1
      → count_done (scanned (call line_size c s).1) ≤ 1
  unfolding call open_file
  call-count_done (append_call newline io kind fields fsync) (w, f) by one =
      left 1 _
        (more _ 1 _ (rw by (omega arith)) (append-count_done newline io kind fields fsync w f))
  call-count_done (done_call newline io fields expected) (w, f) by one =
      left 1 _ (append_done-count_done newline io fields expected w f one)
  call-count_done reopen (w, f) by one = rw (terminated-count_done f) one

  -- If done events are written by AppendDoneIdempotent only, then an events file that holds one
  -- done event at most never holds more, whatever the calls, their outcomes, the torn lines and
  -- the reopenings.
  pub calls-one_done :
      (cs : List Call) (w : Writer) (f : EventFile)
      → All ByAppendDone cs
      → count_done (scanned f) ≤ 1
      → count_done (scanned (calls line_size cs (w, f)).1) ≤ 1
  unfolding calls
  calls-one_done [] w f by one = one
  calls-one_done (c ∷ cs) w f by one =
      let (w', f') = call line_size c (w, f) in
      calls-one_done cs w' f' by.1 (call-count_done c (w, f) by.0 one)
