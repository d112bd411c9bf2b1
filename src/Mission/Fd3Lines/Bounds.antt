-- ===== src/Mission/Fd3Lines/Bounds.antt =====
-- What the reader of the event channel keeps is bounded, whatever the mission writes
-- (internal/mission/fd3reader.go).
use letts.Mission.Fd3Codec.{
  bytes_of, is_object_or_null, syntax_error, decoded, refused, FailFields, Progress, Decoded, Codec,
}
use letts.Mission.Fd3Lines.{
  grow, Progressed, Line, no_line, read_line_bounded, take_line, Read, Run, Limits, read_fd3,
}
use letts.Prelude.{
  inr, absurd_eq, ◌⊎◌, inl, ◌∙◌, zero, refl, length-append, All, ◌&&◌, str_eq, leb, ltb, ◌<◌, ◌==◌,
  some, if_cases, arith, not, ◌||◌, Option, none, true, false, String, suc, ◌≤◌, [], ◌≡◌, ◌++◌,
  length, any, ◌∷◌, Bool, ℕ, List,
}
use letts.Mission.Outcome.{Fd3Final, is_classified, Fd3Violation}
use letts.Mission.Fd3Reader.{
  started, checked_file, on_fail, store_final, on_progress, on_success, on_event, on_output_file,
  max_recorded_violations, handle_line, set_final, has_file, declare_file, Fd3State,
  record_violation,
}
use letts.Mission.Fd3Violations.{
  Details, line_too_large_violation, not_object_violation, unknown_event_violation,
  undecodable_line_violation, schema_violation, protocol_violation,
}
use letts.Config.Names.{role_key_error}

abbrev pub Distinct : List (List ℕ) → Type 0
Distinct [] = Unit
Distinct (k ∷ ks) = (has_file k ks ≡ false) × Distinct ks

pub record Bounded (c : Codec) (limits : Limits) (s : Fd3State) : Type 0 where
  pub few : length s.violations ≤ max_recorded_violations
  pub classified : any (λ (v : Fd3Violation). not (is_classified v)) s.violations ≡ false
  pub files : 0 < limits.max_output_files → length s.output_files ≤ limits.max_output_files
  pub distinct : Distinct s.output_files
  pub valid : All (λ (k : List ℕ). role_key_error c.quote k ≡ none) s.output_files

any-append :
    (p : Fd3Violation → Bool) (vs : List Fd3Violation) (v : Fd3Violation)
    → any p (vs ++ (v ∷ [])) ≡ any p vs || p v
any-append p [] v = ground arith
any-append p (w ∷ vs) v = ground (arith, any-append p vs v)

module _ (c : Codec) (limits : Limits) where
  record_violation-Bounded :
      (v : Fd3Violation) (s : Fd3State)
      → is_classified v ≡ true
      → Bounded c limits s
      → Bounded c limits (record_violation v s)
  unfolding record_violation
  record_violation-Bounded v s k b =
      if_cases (Bounded c limits) (leb max_recorded_violations (length s.violations)) _ _ (λ t. b)
        (λ t. record {
          few = ground (arith, length-append s.violations (v ∷ []));
          classified =
              any-append (λ w. not (is_classified w)) s.violations v ∙ ground (arith, b.classified);
          files = b.files;
          distinct = b.distinct;
          valid = b.valid;
        })

  protocol_violation-Bounded :
      (msg : String) (d : Details) (s : Fd3State)
      → Bounded c limits s
      → Bounded c limits (record_violation (protocol_violation c msg d) s)
  unfolding protocol_violation is_classified
  protocol_violation-Bounded msg d s b = record_violation-Bounded _ s refl b

  module _ (line_no : ℕ) (s : Fd3State) (b : Bounded c limits s) where
    set_final-Bounded : (f : Fd3Final) → Bounded c limits (set_final c f line_no s)
    unfolding set_final is_classified
    set_final-Bounded f = by_final s.final
      where
        by_final : (o : Option Fd3Final) → Bounded c limits (store_final c f line_no s o)
        by_final none = record {
          few = b.few;
          classified = b.classified;
          files = b.files;
          distinct = b.distinct;
          valid = b.valid;
        }
        by_final (some first) = record_violation-Bounded _ s refl b

    declare_file-Bounded :
        (key : List ℕ)
        → role_key_error c.quote key ≡ none
        → Bounded c limits (declare_file c line_no limits key s)
    unfolding declare_file is_classified
    declare_file-Bounded key ok =
        if_cases (Bounded c limits) (has_file key s.output_files) _ _ (λ t. b)
          (λ fresh.
            if_cases (Bounded c limits)
              (ltb 0 limits.max_output_files && leb limits.max_output_files (length s.output_files))
              _ _ (λ t. record_violation-Bounded _ s refl b)
              (λ room. record {
                few = b.few;
                classified = b.classified;
                files = λ h. ground arith;
                distinct = (fresh, b.distinct);
                valid = (ok, b.valid);
              }))

    on_output_file-Bounded :
        (d : Decoded (List ℕ)) → Bounded c limits (on_output_file c line_no limits s d)
    unfolding schema_violation
    on_output_file-Bounded (refused e) = protocol_violation-Bounded _ _ s b
    on_output_file-Bounded (decoded key) = by_error (role_key_error c.quote key) refl
      where
        by_error :
            (o : Option String)
            → role_key_error c.quote key ≡ o
            → Bounded c limits (checked_file c line_no limits key s o)
        by_error none e = declare_file-Bounded key e
        by_error (some error) e = protocol_violation-Bounded _ _ s b

    on_progress-Bounded :
        (has_room : Bool) (d : Decoded Progress)
        → Bounded c limits (on_progress c line_no has_room s d)
    unfolding schema_violation
    on_progress-Bounded has_room (refused e) = protocol_violation-Bounded _ _ s b
    on_progress-Bounded has_room (decoded p) =
        if_cases (Bounded c limits) has_room _ _
          (λ t. record {
            few = b.few;
            classified = b.classified;
            files = b.files;
            distinct = b.distinct;
            valid = b.valid;
          })
          (λ t. record {
            few = b.few;
            classified = b.classified;
            files = b.files;
            distinct = b.distinct;
            valid = b.valid;
          })

    on_success-Bounded :
        (d : Decoded (Option (List ℕ))) → Bounded c limits (on_success c line_no s d)
    unfolding schema_violation not_object_violation
    on_success-Bounded (refused e) = protocol_violation-Bounded _ _ s b
    on_success-Bounded (decoded ret) =
        if_cases (Bounded c limits) (is_object_or_null (bytes_of ret)) _ _
          (λ t. set_final-Bounded _) (λ t. protocol_violation-Bounded _ _ s b)

    on_fail-Bounded : (d : Decoded FailFields) → Bounded c limits (on_fail c line_no s d)
    unfolding schema_violation not_object_violation
    on_fail-Bounded (refused e) = protocol_violation-Bounded _ _ s b
    on_fail-Bounded (decoded ev) =
        if_cases (Bounded c limits) (is_object_or_null (bytes_of ev.details)) _ _
          (λ t. set_final-Bounded _) (λ t. protocol_violation-Bounded _ _ s b)

    on_event-Bounded :
        (has_room : Bool) (line : List ℕ) (d : Decoded String)
        → Bounded c limits (on_event c line_no limits has_room line s d)
    unfolding undecodable_line_violation unknown_event_violation
    on_event-Bounded has_room line (refused (syntax_error text)) =
        protocol_violation-Bounded _ _ s b
    on_event-Bounded has_room line (refused _) = protocol_violation-Bounded _ _ s b
    on_event-Bounded has_room line (decoded event) =
        if_cases (Bounded c limits) (str_eq event "progress") _ _
          (λ t. on_progress-Bounded has_room (c.progress line))
          (λ t.
            if_cases (Bounded c limits) (str_eq event "output_file") _ _
              (λ t. on_output_file-Bounded (c.output_file line))
              (λ t.
                if_cases (Bounded c limits) (str_eq event "success") _ _
                  (λ t. on_success-Bounded (c.success line))
                  (λ t.
                    if_cases (Bounded c limits) (str_eq event "fail") _ _
                      (λ t. on_fail-Bounded (c.fail line))
                      (λ t. protocol_violation-Bounded _ _ s b))))

    take_line-Bounded :
        (has_room : Bool) (l : Line) → Bounded c limits (take_line c limits has_room line_no l s)
    unfolding take_line handle_line line_too_large_violation is_classified
    take_line-Bounded has_room l =
        if_cases (Bounded c limits) l.oversized _ _ (λ t. record_violation-Bounded _ s refl b)
          (λ t.
            if_cases (Bounded c limits) (length l.bytes == 0) _ _ (λ t. b)
              (λ t. on_event-Bounded has_room l.bytes (c.head l.bytes)))

pub started-Bounded : (c : Codec) (limits : Limits) → Bounded c limits started
started-Bounded c limits = record {
  few = omega arith;
  classified = refl;
  files = λ h. omega arith;
  distinct = tt;
  valid = tt;
}

read_line-shorter :
    (max : ℕ) (l : Line) (reads : List Read)
    → ((read_line_bounded max l reads).0.eof ≡ true)
      ⊎ (length (read_line_bounded max l reads).1 < length reads)
unfolding read_line_bounded
read_line-shorter max l [] = inl refl
read_line-shorter max l (r ∷ rs) = ground (arith, read_line-shorter max (grow max l r.chunk) rs)

-- The reader returns: with more turns of the loop than reads there are until io.EOF, it comes to the
-- end of the channel or is cancelled before.
pub read_fd3-returns :
    (c : Codec) (limits : Limits) (fuel : ℕ) (run : Run) (line_no : ℕ) (reads : List Read)
    (s : Fd3State)
    → length reads < fuel
    → (read_fd3 fuel c limits run line_no reads s).returned ≡ true
unfolding read_fd3
read_fd3-returns c limits zero run line_no reads s more = absurd (omega arith)
read_fd3-returns c limits (suc fuel) run line_no reads s more =
    let (l, left) = read_line_bounded limits.max_event_line_size no_line reads in
    if_cases (λ (p : Progressed). p.returned ≡ true) (run.canceled line_no) _ _ (λ t. refl)
      (λ t.
        if_cases (λ (p : Progressed). p.returned ≡ true) l.eof _ _ (λ e. refl)
          (λ e. elim (read_line-shorter limits.max_event_line_size no_line reads) [
            | inl eof ↦ absurd_eq _ eof e
            | inr shorter ↦ read_fd3-returns c limits fuel run (suc line_no) left _ (omega arith)
          ]))

-- Whatever bytes a mission writes on its event channel, and wherever the reader is cancelled, it keeps
-- at most 32 violations, each of a kind that decides the outcome; the declared output files are
-- distinct, all of them valid keys, and no more than the limit if one is set.
pub read_fd3-Bounded :
    (c : Codec) (limits : Limits) (fuel : ℕ) (run : Run) (line_no : ℕ) (reads : List Read)
    (s : Fd3State)
    → Bounded c limits s
    → Bounded c limits (read_fd3 fuel c limits run line_no reads s).state
unfolding read_fd3
read_fd3-Bounded c limits zero run line_no reads s b = b
read_fd3-Bounded c limits (suc fuel) run line_no reads s b =
    let (l, left) = read_line_bounded limits.max_event_line_size no_line reads in
    let b' = take_line-Bounded c limits (suc line_no) s b (run.has_room (suc line_no)) l in
    if_cases (λ (p : Progressed). Bounded c limits p.state) (run.canceled line_no) _ _ (λ t. b)
      (λ t.
        if_cases (λ (p : Progressed). Bounded c limits p.state) l.eof _ _ (λ t. b')
          (λ t. read_fd3-Bounded c limits fuel run (suc line_no) left _ b'))
