-- ===== src/Mission/Finalize/DoneEvent/Keys.antt =====
-- The keys of a done event (internal/mission/finalize.go).
use letts.EventFile.Json.{Value, Fields, has_key}
use letts.EventFile.Json.Equality.{HasKeys, IsMap}
use letts.Mission.Finalize.DoneEvent.{
  delete_key, set_key, with_seq_and_event, extract_done_fields, build_done_fields,
  summarize_outputs, field_if, raw,
}
use letts.Prelude.{
  none, some, Option, inr, absurd_eq, inl, eq_iff, refl, true, Bool-cases, arith, false, str_eq, [],
  ◌∷◌, if_cases, any, ◌≡◌, List, ℕ, Bool, String,
}
use letts.Storage.Rows.{CollectedOutput}
use mathlib.Core.Path.{subst}
use letts.Mission.Outcome.{OutcomeResult}

delete_key-absent : (k : String) (fs : Fields) → has_key k fs ≡ false → delete_key k fs ≡ fs
unfolding delete_key has_key
delete_key-absent k Fields.end h = refl
delete_key-absent k (Fields.field j v fs) h = ground (arith, delete_key-absent k fs)

-- Without its seq and event keys a done event is the fields that it was made from, which have neither
-- key.
pub extract_done_fields-with_seq_and_event :
    (fields : Fields) (seq : ℕ)
    → has_key "seq" fields ≡ false
    → has_key "event" fields ≡ false
    → extract_done_fields (with_seq_and_event fields seq) ≡ fields
unfolding extract_done_fields with_seq_and_event set_key delete_key
extract_done_fields-with_seq_and_event fields seq s e =
    rw
      (
        delete_key-absent "seq" fields s,
        delete_key-absent "event" fields e,
        delete_key-absent "seq" fields s,
        delete_key-absent "event" fields e,
      )
      refl

has_key-delete_key :
    (j k : String) (fs : Fields) → has_key j fs ≡ false → has_key j (delete_key k fs) ≡ false
unfolding delete_key has_key
has_key-delete_key j k Fields.end h = refl
has_key-delete_key j k (Fields.field i v fs) h = ground (arith, has_key-delete_key j k fs)

has_key-deleted : (k : String) (fs : Fields) → has_key k (delete_key k fs) ≡ false
unfolding delete_key has_key
has_key-deleted k Fields.end = refl
has_key-deleted k (Fields.field i v fs) = ground (arith, has_key-deleted k fs)

HasKeys-delete_key : (k : String) (fs : Fields) → HasKeys fs → HasKeys (delete_key k fs)
unfolding delete_key IsMap
HasKeys-delete_key k Fields.end m = tt
HasKeys-delete_key k (Fields.field j v fs) m =
    if_cases HasKeys (str_eq j k) _ _ (λ h. HasKeys-delete_key k fs m.2)
      (λ h. (has_key-delete_key j k fs m.0, m.1, HasKeys-delete_key k fs m.2))

HasKeys-summarize_outputs :
    (ops : List CollectedOutput) (result : Fields)
    → HasKeys result
    → HasKeys (summarize_outputs ops result)
unfolding summarize_outputs set_key IsMap has_key
HasKeys-summarize_outputs [] result m = m
HasKeys-summarize_outputs (op ∷ ops) result m = HasKeys-summarize_outputs ops _ (
  has_key-deleted op.role result,
  (refl, tt, (refl, tt, (refl, tt, tt))),
  HasKeys-delete_key op.role result m,
)

-- every key is one of these
abbrev pub Among : List String → Fields → Type 0
Among ks Fields.end = Unit
Among ks (Fields.field k v fs) = (any (λ j. str_eq j k) ks ≡ true) × Among ks fs

Among-later : (k : String) (ks : List String) (fs : Fields) → Among ks fs → Among (k ∷ ks) fs
Among-later k ks Fields.end a = tt
Among-later k ks (Fields.field j v fs) a = (ground arith, Among-later k ks fs a.1)

Among-absent :
    (ks : List String) (fs : Fields) (j : String)
    → Among ks fs
    → any (λ k. str_eq k j) ks ≡ false
    → has_key j fs ≡ false
unfolding has_key
Among-absent ks Fields.end j a h = refl
Among-absent ks (Fields.field k v fs) j a h = elim (Bool-cases (str_eq k j)) [
  | inl e ↦
      absurd_eq (any (λ i. str_eq i j) ks)
        (subst (λ x. any (λ i. str_eq i x) ks ≡ true) ((eq_iff k j).0 e) a.0) h
  | inr e ↦ rw e (Among-absent ks fs j a.1 h)
]

-- a map of which the keys are known
record Built (ks : List String) (fs : Fields) : Type 0 where
  among : Among ks fs
  keys : HasKeys fs

Built-field :
    (k : String) (v : Value) (ks : List String) (fs : Fields)
    → any (λ j. str_eq j k) ks ≡ false
    → IsMap v
    → Built ks fs
    → Built (k ∷ ks) (Fields.field k v fs)
unfolding IsMap
Built-field k v ks fs fresh m b = record {
  among = (ground (arith, eq_iff k k), Among-later k ks fs b.among);
  keys = (Among-absent ks fs k b.among fresh, m, b.keys);
}

Built-field_if :
    (c : Bool) (k : String) (v : Value) (ks : List String) (fs : Fields)
    → any (λ j. str_eq j k) ks ≡ false
    → IsMap v
    → Built ks fs
    → Built (k ∷ ks) (field_if c k v fs)
Built-field_if true k v ks fs fresh m b = Built-field k v ks fs fresh m b
Built-field_if false k v ks fs fresh m b = record {
  among = Among-later k ks fs b.among;
  keys = b.keys;
}

raw-IsMap :
    (parse : String → Value) (o : Option String)
    → ((s : String) → IsMap (parse s))
    → IsMap (raw parse o)
unfolding IsMap
raw-IsMap parse none maps = tt
raw-IsMap parse (some s) maps = maps s

nothing : Built [] Fields.end
unfolding IsMap
nothing = record { among = tt; keys = tt }

-- the keys that buildDoneFields sets
abbrev done_keys : List String
done_keys =
    "time_finished" ∷ "outcome" ∷ "exit_code" ∷ "duration_ms" ∷ "signal" ∷ "return" ∷ "fail_reason"
    ∷ "fail_message" ∷ "fail_details" ∷ "outputs" ∷ "progress_dropped" ∷ []

build_done_fields-Built :
    (parse : String → Value) (o : OutcomeResult) (outputs : List CollectedOutput)
    (now_ms time_started_ms progress_dropped : ℕ)
    → ((s : String) → IsMap (parse s))
    → Built done_keys (build_done_fields parse o outputs now_ms time_started_ms progress_dropped)
unfolding build_done_fields IsMap
build_done_fields-Built parse o outputs now_ms time_started_ms progress_dropped maps =
    Built-field _ _ _ _ refl tt (
      Built-field _ _ _ _ refl tt (
        Built-field _ _ _ _ refl tt (
          Built-field_if _ _ _ _ _ refl tt (
            Built-field_if _ _ _ _ _ refl tt (
              Built-field_if _ _ _ _ _ refl (raw-IsMap parse o.return_value maps) (
                Built-field_if _ _ _ _ _ refl tt (
                  Built-field_if _ _ _ _ _ refl tt (
                    Built-field_if _ _ _ _ _ refl (raw-IsMap parse o.fail_details maps) (
                      Built-field_if _ _ _ _ _ refl
                        (HasKeys-summarize_outputs outputs Fields.end tt)
                        (Built-field_if _ _ _ _ _ refl tt nothing))))))))))

-- The done event of an outcome without the seq and event keys is the fields that buildDoneFields
-- made, and these hold each key once, provided that a decoded raw value does in each of its maps.
pub build_done_fields-stored :
    (parse : String → Value) (o : OutcomeResult) (outputs : List CollectedOutput)
    (now_ms time_started_ms progress_dropped seq : ℕ)
    → ((s : String) → IsMap (parse s))
    → let fields = build_done_fields parse o outputs now_ms time_started_ms progress_dropped in
      (extract_done_fields (with_seq_and_event fields seq) ≡ fields) × HasKeys fields
build_done_fields-stored parse o outputs now_ms time_started_ms progress_dropped seq maps =
    let b = build_done_fields-Built parse o outputs now_ms time_started_ms progress_dropped maps in
    (
      extract_done_fields-with_seq_and_event _ seq (Among-absent done_keys _ "seq" b.among refl)
          (Among-absent done_keys _ "event" b.among refl),
      b.keys,
    )
