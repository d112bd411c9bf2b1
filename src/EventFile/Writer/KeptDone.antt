-- ===== src/EventFile/Writer/KeptDone.antt =====
-- AppendDoneIdempotent of internal/eventfile/writer.go on a file that has its done event.
use letts.Prelude.{
  ◌∷◌, refl, absurd_eq, Bool-cases, inr, inl, Option-cases, ◌⊎◌, ◌≢◌, sym, ◌==◌, ==_iff, Bool, [],
  if_cases, both_true, String, ◌≡◌, none, some, ℕ, List, Option, true,
}
use letts.EventFile.Writer.{
  conflict, already_done, Writer, Write, scanned, append_done_at, is_done, append_done_idempotent,
  Line, EventFile, done_events_match, Event, last_done,
}
use letts.EventFile.Json.{Value, fields_within, size, json_values_equal, Fields}
use letts.EventFile.Json.Paths.{json_values_equal-read, read, is_scalar}
use letts.EventFile.Json.Equality.{HasKeys}
use letts.EventFile.Writer.Idempotence.{match_self}
use mathlib.Core.Path.{subst}
use letts.EventFile.Writer.Terminal.{last_done-none, count_done}

-- what a successful comparison has found: as many fields, and every text, number and truth value that
-- a path of keys reads in the given fields is read by it in those of the event
abbrev pub SameReadings : Fields → Fields → Type 0
SameReadings given stored =
    (size given ≡ size stored)
    × ((ks : List String)
        → is_scalar (read ks (Value.object given)) ≡ true
        → read ks (Value.object given) ≡ read ks (Value.object stored))

done_events_match-readings :
    (e : Event) (given : Fields) → done_events_match e given ≡ true → SameReadings given e.fields
unfolding done_events_match json_values_equal
done_events_match-readings e given h =
    let same = (both_true (is_done e.kind) _ h).1 in
    (
      (==_iff (size given) (size e.fields)).0
          (both_true (size given == size e.fields) (fields_within given e.fields) same).0,
      λ ks s. json_values_equal-read ks (Value.object given) (Value.object e.fields) same s,
    )

abbrev DoneOrNone : Option Event → Type 0
DoneOrNone none = Unit
DoneOrNone (some e) = is_done e.kind ≡ true

-- what the scan finds is a done event
last_done-is_done :
    (found : Option Event) (ls : List Line) → DoneOrNone found → DoneOrNone (last_done found ls)
unfolding last_done
last_done-is_done found [] d = d
last_done-is_done found (Line.event e ∷ ls) d =
    last_done-is_done _ ls (if_cases DoneOrNone (is_done e.kind) _ _ (λ t. t) (λ t. d))
last_done-is_done found (Line.junk ∷ ls) d = last_done-is_done found ls d

-- the done event of the file is recognised by its own fields
recognised :
    (e : Event) (given : Fields) (f : EventFile)
    → last_done none (scanned f) ≡ some e
    → given ≡ e.fields
    → HasKeys given
    → done_events_match e given ≡ true
recognised e given f h same keys =
    match_self given e keys (subst DoneOrNone h (last_done-is_done none (scanned f) tt)) (sym same)

module _ (line_size : Event → ℕ) where
  -- AppendDoneIdempotent changes neither the writer nor a file that holds a done event. It answers
  -- success or a conflict. It answers success if the given fields are those of the last done event,
  -- in which each map holds a key once. And where it answers success, the given fields are as many as
  -- those of that event, and every text, number and truth value that a path of keys reads in them is
  -- read by the same path in the event. (Of the values null nothing is said: the comparison of the
  -- source takes a null key for a missing one.)
  pub append_done_idempotent-keeps_done :
      (newline : Bool) (io : Write) (given : Fields) (expected : ℕ) (w : Writer) (f : EventFile)
      → count_done (scanned f) ≢ 0
      → let (r, w', f') = append_done_idempotent line_size newline io given expected (w, f) in
        (w' ≡ w)
        × (f' ≡ f)
        × ((r ≡ already_done) ⊎ (r ≡ conflict))
        × ((e : Event) × (last_done none (scanned f) ≡ some e)
            × (given ≡ e.fields → HasKeys given → r ≡ already_done)
            × (r ≡ already_done → SameReadings given e.fields))
  unfolding append_done_idempotent append_done_at
  append_done_idempotent-keeps_done newline io given expected w f held =
      elim (Option-cases (last_done none (scanned f))) [
        | inl h ↦ absurd (held (last_done-none (scanned f) h))
        | inr (e, h) ↦ elim (Bool-cases (done_events_match e given)) [
          | inl m ↦
              rw (h, m)
                (
                  refl,
                  refl,
                  inl refl,
                  (e, refl, λ q k. refl, λ q. done_events_match-readings e given m),
                )
          | inr m ↦
              rw (h, m)
                (
                  refl,
                  refl,
                  inr refl,
                  (
                    e,
                    refl,
                    λ q k. absurd_eq (done_events_match e given) (recognised e given f h q k) m,
                    λ q. absurd (cc),
                  ),
                )
        ]
      ]
