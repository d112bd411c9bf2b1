-- ===== src/EventFile/Writer/Idempotence.antt =====
-- AppendDoneIdempotent of internal/eventfile/writer.go, called again.
use letts.EventFile.Writer.{
  no_room, scan_last_seq, too_long, Line, already_done, EventKind, last_done, rewind_seq, is_done,
  terminate_torn_tail, append_done_at, Write, EventFile, scanned, append_line, appended,
  append_done_idempotent, append, land, Writer, after_write, Appended, Event, done_events_match,
}
use letts.EventFile.Json.{Value, Fields}
use letts.Prelude.{
  refl, ◌||◌, Bool-cases, [], inr, arith, ◌∷◌, ◌&&◌, not, ◌++◌, ◌+◌, inl, if_cases, some,
  Option-cases, absurd_eq, none, false, true, ◌≡◌, ℕ, Bool,
}
use letts.EventFile.Json.Equality.{json_values_equal_refl, HasKeys, IsMap}
use letts.EventFile.Writer.Numbering.{Numbered}
use mathlib.Core.List.{append-nil}
use mathlib.Core.Path.{subst}
use letts.EventFile.Writer.Terminal.{last_done-append_one}

abbrev pub is_success : Appended → Bool
is_success (appended n) = true
is_success already_done = true
is_success _ = false

-- what a success leaves: the last done event has these fields
unfoldable pub Settled : Fields → Appended × Writer × EventFile → Type 0
Settled fields (r, w, f) =
    is_success r ≡ true
    → (e : Event) × (last_done none (scanned f) ≡ some e) × (done_events_match e fields ≡ true)

pub match_self :
    (fields : Fields) (e : Event)
    → HasKeys fields
    → is_done e.kind ≡ true
    → e.fields ≡ fields
    → done_events_match e fields ≡ true
unfolding done_events_match IsMap
match_self fields e keys d same = rw (d, same) (json_values_equal_refl (Value.object fields) keys)

landed-Settled :
    (io : Write) (size : ℕ) (e : Event) (w : Writer) (f : EventFile)
    → HasKeys e.fields
    → is_done e.kind ≡ true
    → f.tail ≡ none
    → let (r, w') = after_write io e size true w in Settled e.fields (r, w', land io e f)
unfolding after_write land scanned Settled
landed-Settled Write.complete size e w f keys d t =
    rw (t, append-nil (f.lines ++ (Line.event e ∷ [])))
      (λ ok. (e, last_done-append_one none f.lines e d, match_self e.fields e keys d refl))
landed-Settled Write.unsynced size e w f keys d t = λ ok. absurd (ground arith)
landed-Settled Write.nothing size e w f keys d t = λ ok. absurd (ground arith)
landed-Settled (Write.partial whole) size e w f keys d t = λ ok. absurd (ground arith)

unsettled :
    (fields : Fields) (r : Appended) (w : Writer) (f : EventFile)
    → is_success r ≡ false
    → Settled fields (r, w, f)
unfolding Settled
unsettled fields r w f failure = λ ok. absurd_eq (is_success r) ok failure

module _ (line_size : Event → ℕ) where
  append_line-Settled :
      (io : Write) (fields : Fields) (w : Writer) (f : EventFile)
      → HasKeys fields
      → f.tail ≡ none
      → Settled fields (append_line line_size io EventKind.done fields true (w, f))
  unfolding append_line
  append_line-Settled io fields w f keys t =
      let e : Event = record { seq = w.seq + 1; kind = EventKind.done; fields = fields } in
      if_cases (Settled fields) (too_long w.limits (line_size e) && true) _ _
        (λ h. unsettled fields _ _ _ refl)
        (λ h.
          if_cases (Settled fields)
            (too_long w.limits (line_size e) || no_room w EventKind.done (line_size e)) _ _
            (λ d. unsettled fields _ _ _ refl)
            (λ d. landed-Settled io (line_size e) e w f keys refl t))

  append-Settled :
      (newline : Bool) (io : Write) (fields : Fields) (w : Writer) (f : EventFile)
      → HasKeys fields
      → (w.pending_newline ≡ false → f.tail ≡ none)
      → Settled fields (append line_size newline io EventKind.done fields true (w, f))
  unfolding append terminate_torn_tail
  append-Settled newline io fields w f keys whole =
      if_cases (Settled fields) (not w.pending_newline) _ _
        (λ p. append_line-Settled io fields w f keys (whole (ground arith)))
        (λ p.
          if_cases (Settled fields) newline _ _
            (λ l.
              append_line-Settled io fields (record w { pending_newline = false })
                (terminate_torn_tail f) keys refl)
            (λ l. unsettled fields _ _ _ refl))

  pub append_done-Settled :
      (newline : Bool) (io : Write) (fields : Fields) (expected : ℕ) (w : Writer) (f : EventFile)
      → HasKeys fields
      → (w.pending_newline ≡ false → f.tail ≡ none)
      → Settled fields (append_done_idempotent line_size newline io fields expected (w, f))
  unfolding append_done_idempotent append_done_at Settled rewind_seq
  append_done-Settled newline io fields expected w f keys whole =
      elim (Option-cases (last_done none (scanned f))) [
        | inl h ↦ rw h (
            append-Settled newline io fields (rewind_seq (scan_last_seq 0 (scanned f)) expected w) f
              keys whole)
        | inr (e, h) ↦ rw h (elim (Bool-cases (done_events_match e fields)) [
          | inl m ↦ rw m (λ ok. (e, h, m))
          | inr m ↦ rw m (λ ok. absurd (ground arith))
        ])
      ]

  -- For fields that hold each key once, and a writer that knows its file's numbers and torn tail:
  -- once AppendDoneIdempotent has succeeded, calling it again with the same fields, whatever
  -- number it expects and whatever would become of its writes, finds the event and changes neither
  -- the file nor the writer.
  pub append_done_idempotent-twice :
      (newline newline' : Bool) (io io' : Write) (fields : Fields) (expected expected' : ℕ)
      (r : Appended) (w w' : Writer) (f f' : EventFile)
      → HasKeys fields
      → Numbered w f
      → append_done_idempotent line_size newline io fields expected (w, f) ≡ (r, w', f')
      → is_success r ≡ true
      → append_done_idempotent line_size newline' io' fields expected' (w', f')
        ≡ (already_done, w', f')
  unfolding append_done_idempotent append_done_at Settled
  append_done_idempotent-twice newline newline' io io' fields expected expected' r w w' f f' keys n
        call ok =
      let settled : Settled fields (r, w', f') =
        subst (Settled fields) call
          (append_done-Settled newline io fields expected w f keys n.whole) in
      let (e, found, match) = settled ok in rw (found, match) refl
