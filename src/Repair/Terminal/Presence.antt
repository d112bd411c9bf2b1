-- ===== src/Repair/Terminal/Presence.antt =====
-- What the pass of internal/repair/terminal.go leaves.
use letts.EventFile.Writer.{
  too_long, land, EventKind, Event, after_write, append_line, new_writer, terminate_torn_tail,
  Write, open_file, append, EventFile, Writer, Line,
}
use letts.Repair.Terminal.{
  skipped, done_row_at, tail_window, append_reconstructed_done, ensure_terminal_event,
  appended_done, reconstruct, reconstructed_fields, has_done_within, tail_has_done_event, total_len,
  is_done_line,
}
use letts.Prelude.{
  ◌∙◌, inr, inl, Bool-cases, if◌then◌else◌, Bool, ap, ==_refl, false, suc, some, ◌+◌, leb, refl,
  if_cases, none, arith, [], ◌∷◌, ◌++◌, ◌<◌, any, true, ◌≡◌, List, ℕ,
}
use letts.Mission.Machine.{append_failed, fail, Machine, return, set_events, returned, World, Host}
use letts.Repair.Intents.{RepairConfig, ensure_events_file}
use letts.EventFile.Json.{Fields}
use letts.Storage.Rows.{Status, Outcome, Mission}
use letts.Mission.Finalize.Prepared.{open_events-there}
use letts.Storage.Missions.{get_mission}

any-append_one :
    (ls : List Line) (l : Line) → is_done_line l ≡ true → any is_done_line (ls ++ (l ∷ [])) ≡ true
any-append_one [] l d = rw d refl
any-append_one (x ∷ ls) l d = rw (any-append_one ls l d) (ground arith)

has_done_within-append_one :
    (line_len : Line → ℕ) (window : ℕ) (ls : List Line) (l : Line)
    → is_done_line l ≡ true
    → line_len l < window
    → has_done_within line_len window 0 (ls ++ (l ∷ [])) ≡ true
unfolding has_done_within
has_done_within-append_one line_len window [] l d fits = ground arith
has_done_within-append_one line_len window (x ∷ ls) l d fits =
    rw (has_done_within-append_one line_len window ls l d fits) (ground arith)

tail_has_done_event-append_one :
    (line_len : Line → ℕ) (window : ℕ) (ls : List Line) (l : Line)
    → is_done_line l ≡ true
    → line_len l < window
    → tail_has_done_event line_len window (record { lines = ls ++ (l ∷ []); tail = none }) ≡ true
unfolding tail_has_done_event
tail_has_done_event-append_one line_len window ls l d fits =
    if_cases (λ b. b ≡ true) (leb (total_len line_len (ls ++ (l ∷ [])) + 0) window) _ _
      (λ h. any-append_one ls l d) (λ h. has_done_within-append_one line_len window ls l d fits)

-- the file after the torn tail is ended, and ended again by Open
abbrev healed : EventFile → EventFile
healed f = (open_file (terminate_torn_tail f)).1

abbrev limited_writer : RepairConfig → EventFile → Writer
limited_writer cfg f = record (open_file (terminate_torn_tail f)).0 { limits = cfg.limits }

abbrev done_event : Writer → Fields → Event
done_event ew fields = record { seq = ew.seq + 1; kind = EventKind.done; fields = fields }

abbrev extended : Writer → Fields → EventFile → EventFile
extended ew fields f = record {
  lines = f.lines ++ (Line.event (done_event ew fields) ∷ []);
  tail = none;
}

appended_done-fits :
    (h : Host) (id : ℕ) (ew : Writer) (fields : Fields) (w : World) (f : EventFile)
    → ew.pending_newline ≡ false
    → f.tail ≡ none
    → too_long ew.limits (h.line_size (done_event ew fields)) ≡ false
    → appended_done h id ew fields w (some f) ≡ (true, set_events id (extended ew fields f) w)
unfolding append append_line after_write land
appended_done-fits h id ew fields w f p t fits = rw (p, fits, t) refl

ensure_events_file-there :
    (h : Host) (id n : ℕ) (torn : Write) (w : World) (f : EventFile)
    → w.events id ≡ some f
    → ensure_events_file h id (record { left = suc n; torn = torn; world = w })
      ≡ returned tt
          (record { left = n; torn = torn; world = set_events id (terminate_torn_tail f) w })
unfolding ensure_events_file
ensure_events_file-there h id n torn w f there = rw there refl

-- what the pass writes for a row
abbrev pub row_fields : Host → World → Mission → Outcome → Fields
row_fields h w m o = reconstructed_fields h w.db m o

reconstruct-runs :
    (h : Host) (cfg : RepairConfig) (id n : ℕ) (torn : Write) (w : World) (f : EventFile)
    (m : Mission) (o : Outcome)
    → w.events id ≡ some f
    → ((e : Event) → e.fields ≡ row_fields h w m o → too_long cfg.limits (h.line_size e) ≡ false)
    → (w' : World) × (reconstruct h cfg id w.db
          (some (m, o))
          (record { left = suc (suc n); torn = torn; world = w })
        ≡ returned tt (record { left = n; torn = torn; world = w' }))
      × (w'.db ≡ w.db)
      × (w'.events id ≡ some (extended (limited_writer cfg f) (row_fields h w m o) (healed f)))
unfolding open_file new_writer terminate_torn_tail
reconstruct-runs h cfg id n torn w f m o there fits =
    let fields = row_fields h w m o in
    let ew = limited_writer cfg f in
    let w1 = set_events id (terminate_torn_tail f) w in
    let w2 = set_events id (healed f) w1 in
    (
      set_events id (extended ew fields (healed f)) w2,
      rw
          (
            ensure_events_file-there h id (suc n) torn w f there,
            open_events-there id (record { left = suc n; torn = torn; world = w1 })
                (terminate_torn_tail f) (rw (==_refl id) refl),
            ==_refl id,
          )
          (ap
            (λ (r : Bool × World).
              (if r.0 then return tt else fail append_failed)
                (record { left = n; torn = torn; world = r.1 }))
            (appended_done-fits h id ew fields w2 (healed f) refl refl
              (fits (done_event ew fields) refl))),
      refl,
      rw (==_refl id) refl,
    )

row_found :
    (id : ℕ) (w : World) (m : Mission) (o : Outcome)
    → get_mission w.db id ≡ some m
    → m.status ≡ Status.done
    → m.outcome ≡ some o
    → done_row_at (get_mission w.db id) ≡ some (m, o)
row_found id w m o there d out = rw (there, d, out) refl

-- For a mission that is done and has an outcome, and whose events file is there, the pass succeeds
-- with two durable steps left, changes no row, and leaves a done event among the whole lines of the
-- file's tail, provided that a done event of the mission is within max_event_line_size and within
-- the tail that is read.
pub ensure_terminal_event-has_done :
    (h : Host) (cfg : RepairConfig) (line_len : Line → ℕ) (id n : ℕ) (torn : Write) (w : World)
    (f : EventFile) (m : Mission) (o : Outcome)
    → get_mission w.db id ≡ some m
    → m.status ≡ Status.done
    → m.outcome ≡ some o
    → w.events id ≡ some f
    → ((e : Event) → e.fields ≡ row_fields h w m o → too_long cfg.limits (h.line_size e) ≡ false)
    → ((e : Event)
        → e.fields ≡ row_fields h w m o
        → line_len (Line.event e) < tail_window cfg.limits)
    → (m' : Machine) × (f' : EventFile) × (ensure_terminal_event h cfg line_len id
          (record { left = suc (suc n); torn = torn; world = w })
        ≡ returned tt m')
      × (m'.world.db ≡ w.db)
      × (m'.world.events id ≡ some f')
      × (tail_has_done_event line_len (tail_window cfg.limits) f' ≡ true)
unfolding ensure_terminal_event append_reconstructed_done
ensure_terminal_event-has_done h cfg line_len id n torn w f m o row d out there fits within =
    elim (Bool-cases (tail_has_done_event line_len (tail_window cfg.limits) f)) [
      | inl found ↦ (
        record { left = suc (suc n); torn = torn; world = w },
        f,
        rw (there, found) refl,
        refl,
        there,
        found,
      )
      | inr missing ↦
          let (w', run, same, events) = reconstruct-runs h cfg id n torn w f m o there fits in
          (
            record { left = n; torn = torn; world = w' },
            extended (limited_writer cfg f) (row_fields h w m o) (healed f),
            rw (there, missing)
                (ap skipped (
                  ap
                    (λ r.
                      reconstruct h cfg id w.db r
                        (record { left = suc (suc n); torn = torn; world = w }))
                    (row_found id w m o row d out)
                  ∙ run)),
            same,
            events,
            tail_has_done_event-append_one line_len (tail_window cfg.limits) (healed f).lines
                (Line.event (done_event (limited_writer cfg f) (row_fields h w m o))) refl
                (within _ refl),
          )
    ]
