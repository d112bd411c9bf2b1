-- ===== src/EventFile/Writer/Agreement.antt =====
-- AppendDoneIdempotent of internal/eventfile/writer.go, when the file has no other done event: what
-- any outcome of the write leaves.
use letts.EventFile.Writer.{
  no_room, scan_last_seq, after_write, too_long, rewind_seq, append, append_done_at, EventKind,
  append_line, append_done_idempotent, Writer, Appended, done_events_match, scanned, is_done, Line,
  EventFile, last_done, Write, Event, land,
}
use letts.EventFile.Json.{Fields}
use letts.Prelude.{
  arith, not, ◌||◌, ◌&&◌, Bool, if_cases, ◌+◌, ℕ, false, sym, inl, refl, some, inr, [], true, ◌⊎◌,
  ◌≡◌, ◌∷◌, ◌++◌, none, List, Option,
}
use letts.EventFile.Json.Equality.{HasKeys}
use letts.EventFile.Writer.Numbering.{scanned-some, scanned-none}
use letts.EventFile.Writer.Terminal.{last_done-append_one}
use letts.EventFile.Writer.Idempotence.{is_success, match_self}

-- the file has no done event, or the last one has these fields
abbrev pub Agrees : Fields → EventFile → Type 0
Agrees fields f =
    (last_done none (scanned f) ≡ none)
    ⊎ ((e : Event) × (last_done none (scanned f) ≡ some e) × (done_events_match e fields ≡ true))

last_done-append_junk :
    (found : Option Event) (ls : List Line)
    → last_done found (ls ++ (Line.junk ∷ [])) ≡ last_done found ls
unfolding last_done
last_done-append_junk found [] = refl
last_done-append_junk found (Line.event c ∷ ls) = last_done-append_junk _ ls
last_done-append_junk found (Line.junk ∷ ls) = last_done-append_junk found ls

event_line-Agrees :
    (e : Event) (ls : List Line) (f : EventFile)
    → HasKeys e.fields
    → is_done e.kind ≡ true
    → scanned f ≡ ls ++ (Line.event e ∷ [])
    → Agrees e.fields f
event_line-Agrees e ls f keys d eq =
    inr (e, rw eq (last_done-append_one none ls e d), match_self e.fields e keys d refl)

land-Agrees :
    (io : Write) (e : Event) (f : EventFile)
    → HasKeys e.fields
    → is_done e.kind ≡ true
    → f.tail ≡ none
    → last_done none (scanned f) ≡ none
    → Agrees e.fields (land io e f)
unfolding land
land-Agrees Write.complete e f keys d t no_done =
    rw t (event_line-Agrees e f.lines _ keys d (scanned-none _ refl))
land-Agrees Write.unsynced e f keys d t no_done =
    rw t (event_line-Agrees e f.lines _ keys d (scanned-none _ refl))
land-Agrees Write.nothing e f keys d t no_done = inl no_done
land-Agrees (Write.partial true) e f keys d t no_done =
    rw t (event_line-Agrees e f.lines _ keys d (scanned-some f.lines (Line.event e)))
land-Agrees (Write.partial false) e f keys d t no_done = rw t (
    inl (
      rw
        (scanned-some f.lines Line.junk, last_done-append_junk none f.lines, sym (scanned-none f t))
        no_done))

-- the file that a call leaves agrees with the fields
unfoldable pub LeavesAgreement : Fields → Appended × Writer × EventFile → Type 0
LeavesAgreement fields (r, w, f) = Agrees fields f

agreeing :
    (fields : Fields) (r : Appended) (w : Writer) (f : EventFile)
    → Agrees fields f
    → LeavesAgreement fields (r, w, f)
unfolding LeavesAgreement
agreeing fields r w f a = a

module _ (line_size : Event → ℕ) where
  append_line-Agrees :
      (io : Write) (fields : Fields) (w : Writer) (f : EventFile)
      → HasKeys fields
      → f.tail ≡ none
      → last_done none (scanned f) ≡ none
      → LeavesAgreement fields (append_line line_size io EventKind.done fields true (w, f))
  unfolding append_line
  append_line-Agrees io fields w f keys t no_done =
      let e : Event = record { seq = w.seq + 1; kind = EventKind.done; fields = fields } in
      if_cases (LeavesAgreement fields) (too_long w.limits (line_size e) && true) _ _
        (λ h. agreeing fields _ _ f (inl no_done))
        (λ h.
          if_cases (LeavesAgreement fields)
            (too_long w.limits (line_size e) || no_room w EventKind.done (line_size e)) _ _
            (λ d. agreeing fields _ _ f (inl no_done))
            (λ d. agreeing fields _ _ _ (land-Agrees io e f keys refl t no_done)))

  append-Agrees :
      (newline : Bool) (io : Write) (fields : Fields) (w : Writer) (f : EventFile)
      → HasKeys fields
      → w.pending_newline ≡ false
      → f.tail ≡ none
      → last_done none (scanned f) ≡ none
      → LeavesAgreement fields (append line_size newline io EventKind.done fields true (w, f))
  unfolding append
  append-Agrees newline io fields w f keys p t no_done =
      if_cases (LeavesAgreement fields) (not w.pending_newline) _ _
        (λ h. append_line-Agrees io fields w f keys t no_done) (λ h. absurd (ground arith))

  append_done-Agrees :
      (newline : Bool) (io : Write) (fields : Fields) (expected : ℕ) (w : Writer) (f : EventFile)
      → HasKeys fields
      → w.pending_newline ≡ false
      → f.tail ≡ none
      → Agrees fields f
      → LeavesAgreement fields (append_done_idempotent line_size newline io fields expected (w, f))
  unfolding append_done_idempotent append_done_at rewind_seq
  append_done-Agrees newline io fields expected w f keys p t (inl no_done) = rw no_done (
      append-Agrees newline io fields (rewind_seq (scan_last_seq 0 (scanned f)) expected w) f keys p
        t no_done)
  append_done-Agrees newline io fields expected w f keys p t (inr (e, found, match)) =
      rw (found, match) (agreeing fields _ w f (inr (e, found, match)))

  -- Whatever becomes of its write, AppendDoneIdempotent leaves a file whose last done event, if it
  -- has one, is that of the fields, provided that the file was such a one before and ends with a
  -- whole line.
  pub append_done_idempotent-Agrees :
      (newline : Bool) (io : Write) (fields : Fields) (expected : ℕ) (w : Writer) (f : EventFile)
      → HasKeys fields
      → w.pending_newline ≡ false
      → f.tail ≡ none
      → Agrees fields f
      → let (r, w', f') = append_done_idempotent line_size newline io fields expected (w, f) in
        Agrees fields f'
  unfolding LeavesAgreement
  append_done_idempotent-Agrees newline io fields expected w f keys p t a =
      append_done-Agrees newline io fields expected w f keys p t a

  append-success :
      (newline : Bool) (fields : Fields) (w : Writer) (f : EventFile)
      → w.pending_newline ≡ false
      → ((e : Event) → e.fields ≡ fields → too_long w.limits (line_size e) ≡ false)
      → is_success (append line_size newline Write.complete EventKind.done fields true (w, f)).0
        ≡ true
  unfolding append append_line after_write
  append-success newline fields w f p fits =
      let e : Event = record { seq = w.seq + 1; kind = EventKind.done; fields = fields } in
      rw (p, fits e refl) refl

  -- AppendDoneIdempotent succeeds on such a file, if the line is not too long and the write lands.
  pub append_done_idempotent-is_success :
      (newline : Bool) (fields : Fields) (expected : ℕ) (w : Writer) (f : EventFile)
      → w.pending_newline ≡ false
      → ((e : Event) → e.fields ≡ fields → too_long w.limits (line_size e) ≡ false)
      → Agrees fields f
      → is_success
          (append_done_idempotent line_size newline Write.complete fields expected (w, f)).0
        ≡ true
  unfolding append_done_idempotent append_done_at rewind_seq
  append_done_idempotent-is_success newline fields expected w f p fits (inl no_done) =
      rw no_done (
        append-success newline fields (rewind_seq (scan_last_seq 0 (scanned f)) expected w) f p
          fits)
  append_done_idempotent-is_success newline fields expected w f p fits (inr (e, found, match)) =
      rw (found, match) refl
