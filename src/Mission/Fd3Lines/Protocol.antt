-- ===== src/Mission/Fd3Lines/Protocol.antt =====
-- A mission that succeeds has kept the event protocol (internal/mission/fd3reader.go and outcome.go).
use letts.Prelude.{
  ◌∙◌, sym, ap, any, zero, suc, All, arith, count, ltb, refl, absurd_eq, inr, inl, leb, Bool-cases,
  ◌||◌, ◌==◌, length, ◌+◌, str_eq, ◌∷◌, is_some, false, ◌&&◌, ◌++◌, [], true, ◌≢◌, not, none,
  String, if◌then◌else◌, some, ◌≡◌, ℕ, List, Bool, Option,
}
use letts.Mission.Fd3Codec.{
  bytes_of, is_object_or_null, decoded, refused, FailFields, Progress, Codec, Decoded,
}
use letts.Mission.Fd3Reader.{
  started, handle_line, has_file, checked_file, declare_file, fail_final, max_recorded_violations,
  success_final, store_final, on_output_file, on_event, set_final, on_success, on_fail, on_progress,
  record_violation, Fd3State,
}
use letts.Mission.Outcome.{compute, OutcomeInputs, is_classified, Format, Fd3Final, Fd3Violation}
use letts.Mission.Fd3Lines.{
  no_line, read_line_bounded, Read, Run, read_fd3, take_line, Limits, Line,
}
use letts.Config.Names.{role_key_error}
use letts.Mission.Outcome.Priority.{compute-success, succeeded}
use letts.Mission.Fd3Lines.Bounds.{started-Bounded, read_fd3-Bounded}

abbrev accepted_file : Codec → Decoded (List ℕ) → Bool
accepted_file c (refused e) = false
accepted_file c (decoded key) = not (is_some (role_key_error c.quote key))

abbrev accepted_success : Decoded (Option (List ℕ)) → Bool
accepted_success (refused e) = false
accepted_success (decoded ret) = is_object_or_null (bytes_of ret)

abbrev accepted_fail : Decoded FailFields → Bool
accepted_fail (refused e) = false
accepted_fail (decoded ev) = is_object_or_null (bytes_of ev.details)

abbrev is_decoded : Decoded Progress → Bool
is_decoded (refused e) = false
is_decoded (decoded p) = true

-- the event that a line holds by the protocol: none if the line breaks it
pub data Event : Type 0 where
  a_progress a_file a_final : Event

abbrev event_if : Bool → Event → Option Event
event_if b e = if b then some e else none

abbrev event_named : Codec → List ℕ → Decoded String → Option Event
event_named c line (refused e) = none
event_named c line (decoded name) =
    if str_eq name "progress"
    then event_if (is_decoded (c.progress line)) a_progress
    else if str_eq name "output_file"
    then event_if (accepted_file c (c.output_file line)) a_file
    else if str_eq name "success"
    then event_if (accepted_success (c.success line)) a_final
    else if str_eq name "fail"
    then event_if (accepted_fail (c.fail line)) a_final
    else none

unfoldable pub event_of : Codec → List ℕ → Option Event
event_of c line = event_named c line (c.head line)

-- a line that is empty, or holds an event, and is not too long
unfoldable pub keeps_protocol : Codec → Line → Bool
keeps_protocol c l = not l.oversized && (length l.bytes == 0 || is_some (event_of c l.bytes))

abbrev is_a_final : Option Event → Bool
is_a_final (some a_final) = true
is_a_final _ = false

unfoldable pub is_final_line : Codec → Line → Bool
is_final_line c l =
    not l.oversized && (not (length l.bytes == 0) && is_a_final (event_of c l.bytes))

abbrev pub finals : Option Fd3Final → ℕ
finals none = 0
finals (some f) = 1

abbrev tally : Bool → ℕ
tally b = if b then 1 else 0

append_one-nonempty : (vs : List Fd3Violation) (v : Fd3Violation) → vs ++ (v ∷ []) ≢ []
append_one-nonempty [] v h = cc
append_one-nonempty (w ∷ vs) v h = cc

-- a step that leaves no violation found none, and met an event that it has counted
abbrev Clean : Fd3State → Option Event → Fd3State → Type 0
Clean s e s' =
    s'.violations ≡ []
    → (s.violations ≡ [])
      × (is_some e ≡ true)
      × (tally (is_a_final e) + finals s.final ≡ finals s'.final)

record_violation-nonempty :
    (v : Fd3Violation) (s : Fd3State) → (record_violation v s).violations ≢ []
unfolding record_violation
record_violation-nonempty v s h =
    elim (Bool-cases (leb max_recorded_violations (length s.violations))) [
      | inl t ↦ let e : s.violations ≡ [] = rw t at h in absurd_eq _ t (rw e refl)
      | inr t ↦ append_one-nonempty s.violations v (rw t at h)
    ]

violated : (v : Fd3Violation) (s : Fd3State) (e : Option Event) → Clean s e (record_violation v s)
violated v s e h = absurd (record_violation-nonempty v s h)

module _ (c : Codec) (line_no : ℕ) (s : Fd3State) where
  set_final-Clean : (f : Fd3Final) → Clean s (some a_final) (set_final c f line_no s)
  unfolding set_final
  set_final-Clean f = by_final s.final refl
    where
      by_final :
          (o : Option Fd3Final) → s.final ≡ o → Clean s (some a_final) (store_final c f line_no s o)
      by_final none e = λ h. (h, refl, rw e refl)
      by_final (some first) e = violated _ s (some a_final)

  on_success-Clean :
      (d : Decoded (Option (List ℕ)))
      → Clean s (event_if (accepted_success d) a_final) (on_success c line_no s d)
  on_success-Clean (refused e) = violated _ s none
  on_success-Clean (decoded ret) = elim (Bool-cases (is_object_or_null (bytes_of ret))) [
    | inl t ↦ rw t (set_final-Clean (success_final c ret))
    | inr t ↦ rw t (violated _ s none)
  ]

  on_fail-Clean :
      (d : Decoded FailFields)
      → Clean s (event_if (accepted_fail d) a_final) (on_fail c line_no s d)
  on_fail-Clean (refused e) = violated _ s none
  on_fail-Clean (decoded ev) = elim (Bool-cases (is_object_or_null (bytes_of ev.details))) [
    | inl t ↦ rw t (set_final-Clean (fail_final c ev))
    | inr t ↦ rw t (violated _ s none)
  ]

  on_progress-Clean :
      (has_room : Bool) (d : Decoded Progress)
      → Clean s (event_if (is_decoded d) a_progress) (on_progress c line_no has_room s d)
  on_progress-Clean has_room (refused e) = violated _ s none
  on_progress-Clean true (decoded p) = λ h. (h, refl, omega arith)
  on_progress-Clean false (decoded p) = λ h. (h, refl, omega arith)

  on_output_file-Clean :
      (limits : Limits) (d : Decoded (List ℕ))
      → Clean s (event_if (accepted_file c d) a_file) (on_output_file c line_no limits s d)
  unfolding declare_file
  on_output_file-Clean limits (refused e) = violated _ s none
  on_output_file-Clean limits (decoded key) = by_error (role_key_error c.quote key)
    where
      declared : Clean s (some a_file) (declare_file c line_no limits key s)
      declared = elim (Bool-cases (has_file key s.output_files)) [
        | inl t ↦ rw t (λ h. (h, refl, omega arith))
        | inr t ↦
            rw t
              (elim (Bool-cases (
                ltb 0 limits.max_output_files
                && leb limits.max_output_files (length s.output_files))) [
                  | inl t ↦ rw t (violated _ s (some a_file))
                  | inr t ↦ rw t (λ h. (h, refl, omega arith))
                ])
      ]

      by_error :
          (o : Option String)
          → Clean s (event_if (not (is_some o)) a_file) (checked_file c line_no limits key s o)
      by_error none = declared
      by_error (some error) = violated _ s none

  on_event-Clean :
      (limits : Limits) (has_room : Bool) (line : List ℕ) (d : Decoded String)
      → Clean s (event_named c line d) (on_event c line_no limits has_room line s d)
  on_event-Clean limits has_room line (refused e) = violated _ s none
  on_event-Clean limits has_room line (decoded name) = elim (Bool-cases (str_eq name "progress")) [
    | inl t ↦ rw t (on_progress-Clean has_room (c.progress line))
    | inr t ↦ rw t (elim (Bool-cases (str_eq name "output_file")) [
      | inl t ↦ rw t (on_output_file-Clean limits (c.output_file line))
      | inr t ↦ rw t (elim (Bool-cases (str_eq name "success")) [
        | inl t ↦ rw t (on_success-Clean (c.success line))
        | inr t ↦ rw t (elim (Bool-cases (str_eq name "fail")) [
          | inl t ↦ rw t (on_fail-Clean (c.fail line))
          | inr t ↦ rw t (violated _ s none)
        ])
      ])
    ])
  ]

  take_line-Clean :
      (limits : Limits) (has_room : Bool) (l : Line)
      → (take_line c limits has_room line_no l s).violations ≡ []
      → (s.violations ≡ [])
        × (keeps_protocol c l ≡ true)
        × (tally (is_final_line c l) + finals s.final
            ≡ finals (take_line c limits has_room line_no l s).final)
  unfolding take_line handle_line keeps_protocol is_final_line event_of
  take_line-Clean limits has_room l h = elim (Bool-cases l.oversized) [
    | inl t ↦ absurd (record_violation-nonempty _ s (rw t at h))
    | inr t ↦ elim (Bool-cases (length l.bytes == 0)) [
      | inl e ↦ rw (t, e) ((rw (t, e) at h), refl, omega arith)
      | inr e ↦ rw (t, e) (on_event-Clean limits has_room l.bytes (c.head l.bytes) (rw (t, e) at h))
    ]
  ]

abbrev pub count_finals : Codec → List Line → ℕ
count_finals c ls = count (is_final_line c) ls

read_fd3-Clean :
    (c : Codec) (limits : Limits) (fuel : ℕ) (run : Run) (line_no : ℕ) (reads : List Read)
    (s : Fd3State)
    → (read_fd3 fuel c limits run line_no reads s).state.violations ≡ []
    → (s.violations ≡ [])
      × All
          (λ (l : Line). keeps_protocol c l ≡ true)
          (read_fd3 fuel c limits run line_no reads s).lines
      × (count_finals c (read_fd3 fuel c limits run line_no reads s).lines + finals s.final
          ≡ finals (read_fd3 fuel c limits run line_no reads s).state.final)
unfolding read_fd3
read_fd3-Clean c limits zero run line_no reads s h = (h, tt, omega arith)
read_fd3-Clean c limits (suc fuel) run line_no reads s h =
    elim (Bool-cases (run.canceled line_no)) [
      | inl t ↦ rw t ((rw t at h), tt, omega arith)
      | inr t ↦ elim (Bool-cases l.eof) [
        | inl e ↦
            let (before, keeps, n) = one (rw (t, e) at h) in rw (t, e) (before, (keeps, tt), n)
        | inr e ↦
            let (after, rest, m) =
              read_fd3-Clean c limits fuel run (suc line_no) left s' (rw (t, e) at h) in
            let (before, keeps, n) = one after in
            rw (t, e) (before, (keeps, rest), ground (arith, n, m))
      ]
    ]
  where
    split : Line × List Read
    split = read_line_bounded limits.max_event_line_size no_line reads

    l : Line
    l = split.0

    left : List Read
    left = split.1

    s' : Fd3State
    s' = take_line c limits (run.has_room (suc line_no)) (suc line_no) l s

    one :
        s'.violations ≡ []
        → (s.violations ≡ [])
          × (keeps_protocol c l ≡ true)
          × (tally (is_final_line c l) + finals s.final ≡ finals s'.final)
    one = take_line-Clean c (suc line_no) s limits (run.has_room (suc line_no)) l

none_classified :
    (vs : List Fd3Violation)
    → any (λ (v : Fd3Violation). not (is_classified v)) vs ≡ false
    → any is_classified vs ≡ false
    → vs ≡ []
none_classified [] h g = refl
none_classified (v ∷ vs) h g = ground arith

-- A mission whose outcome is success has kept the event protocol: if Compute is given the final event
-- and the violations of a reader that started empty, and yields success, then every line that was read
-- is empty or holds an event that the protocol accepts, none was too long, and there was one final
-- line if Compute was given a final event, otherwise none.
pub compute-keeps_protocol :
    (c : Codec) (limits : Limits) (fuel : ℕ) (run : Run) (reads : List Read) (f : Format)
    (in' : OutcomeInputs)
    → in'.fd3_violations ≡ (read_fd3 fuel c limits run 0 reads started).state.violations
    → in'.fd3_final ≡ (read_fd3 fuel c limits run 0 reads started).state.final
    → succeeded (compute f in') ≡ true
    → All
        (λ (l : Line). keeps_protocol c l ≡ true)
        (read_fd3 fuel c limits run 0 reads started).lines
      × (count_finals c (read_fd3 fuel c limits run 0 reads started).lines ≡ finals in'.fd3_final)
compute-keeps_protocol c limits fuel run reads f in' same_violations same_final success =
    let bounded = read_fd3-Bounded c limits fuel run 0 reads started (started-Bounded c limits) in
    let unclassified : any is_classified in'.fd3_violations ≡ false =
      ground (arith, compute-success f in', success) in
    let clean =
      none_classified (read_fd3 fuel c limits run 0 reads started).state.violations
        bounded.classified (ap (any is_classified) (sym same_violations) ∙ unclassified) in
    let (before, keeps, n) = read_fd3-Clean c limits fuel run 0 reads started clean in
    (keeps, rw same_final (omega (arith, n)))
