-- ===== src/Mission/Finalize/DoneEvent.antt =====
-- The terminal event of internal/mission/finalize.go and clip.go: `capOutcome`, `buildDoneFields`
-- and the stored `done_event`. A text is valid UTF-8. `parse` is what json.Unmarshal makes of a raw
-- value. A limit of 0 is none. The stored `done_event` is the value that its JSON text encodes: the
-- text, its decoding and the errors of that are not modelled, and a number is a whole one, which the
-- float64 of the decoded text holds.
pub mod Keys
pub mod Caps
use Prim.Native.String.{len, slice, ◌++◌}
use letts.EventFile.Json.{Value, Fields, lookup}
use letts.Storage.Rows.{Outcome, CollectedOutput}
use letts.Mission.Outcome.{OutcomeResult, Format}
use letts.Prelude.{
  length, negsuc, true, ◌&&◌, not, ◌-◌, [], none, str_eq, pos, ltb, ◌∷◌, leb, some, List, ℤ, Option,
  String, Bool, if◌then◌else◌, ℕ,
}

unfoldable pub clip_utf8 : String → ℕ → String
clip_utf8 s n = if leb (len s) n then s else slice s 0 n

pub record SizeLimits : Type 0 where
  pub max_return_value : ℕ
  pub max_fail_message : ℕ
  pub max_fail_details : ℕ

abbrev pub exceeds : ℕ → ℕ → Bool
exceeds n limit = ltb 0 limit && ltb limit n

abbrev pub raw_len : Option String → ℕ
raw_len none = 0
raw_len (some s) = len s

unfoldable pub cap_return : Format → SizeLimits → OutcomeResult → OutcomeResult
cap_return f cfg o =
    let n = raw_len o.return_value in
    let o' =
      if exceeds n cfg.max_return_value
      then record o {
        outcome = Outcome.failed;
        fail_reason = "return_too_large";
        fail_message =
            "success return value is "
            ++ (f.itoa (pos n)
                ++ (" bytes, exceeds max_return_value_size ("
                    ++ (f.itoa (pos cfg.max_return_value)
                        ++ " bytes); return less data or write it to an output file")));
        fail_details = some (
            "{\"return_bytes\":"
            ++ (f.itoa (pos n)
                ++ (",\"max_return_value_size\":" ++ (f.itoa (pos cfg.max_return_value) ++ "}"))));
        return_value = none;
        drop_return = true;
      }
      else o in
    if o'.drop_return then record o' { return_value = none } else o'

abbrev pub suffix : String
suffix = "…[truncated]"

unfoldable pub cap_message : SizeLimits → String → String
unfolding clip_utf8
cap_message cfg message =
    if exceeds (len message) cfg.max_fail_message
    then if leb (len suffix) cfg.max_fail_message
      then clip_utf8 message (cfg.max_fail_message - len suffix) ++ suffix
      else clip_utf8 message cfg.max_fail_message
    else message

unfoldable pub cap_details : Format → SizeLimits → Option String → Option String
cap_details f cfg details =
    if exceeds (raw_len details) cfg.max_fail_details
    then some (
        "{\"truncated\":true,\"reason\":\"fail_details_too_large\",\"original_bytes\":"
        ++ (f.itoa (pos (raw_len details)) ++ "}"))
    else details

unfoldable pub cap_outcome : Format → SizeLimits → OutcomeResult → OutcomeResult
unfolding cap_return cap_message cap_details
cap_outcome f cfg o =
    let o' = cap_return f cfg o in
    record o' {
      fail_message = cap_message cfg o'.fail_message;
      fail_details = cap_details f cfg o'.fail_details;
    }

abbrev pub outcome_text : Outcome → String
outcome_text Outcome.success = "success"
outcome_text Outcome.failed = "failed"
outcome_text Outcome.killed = "killed"
outcome_text Outcome.timeout = "timeout"
outcome_text Outcome.crashed = "crashed"
outcome_text Outcome.lost = "lost"
outcome_text Outcome.oom = "oom"

-- f[k] = v, under a condition
abbrev pub field_if : Bool → String → Value → Fields → Fields
field_if b k v fs = if b then Fields.field k v fs else fs

-- delete(m, k)
unfoldable pub delete_key : String → Fields → Fields
delete_key k Fields.end = Fields.end
delete_key k (Fields.field j v fs) =
    let rest = delete_key k fs in if str_eq j k then rest else Fields.field j v rest

-- m[k] = v
unfoldable pub set_key : String → Value → Fields → Fields
unfolding delete_key
set_key k v fs = Fields.field k v (delete_key k fs)

unfoldable pub summarize_outputs : List CollectedOutput → Fields → Fields
unfolding set_key
summarize_outputs [] result = result
summarize_outputs (op ∷ ops) result = summarize_outputs ops (
    set_key op.role
      (Value.object (
        Fields.field "staging_id" (Value.number (pos op.staging_id)) (
          Fields.field "sha256" (Value.string op.sha256)
            (Fields.field "size" (Value.number (pos op.size)) Fields.end))))
      result)

-- int64 a - b
abbrev pub minus_ℤ : ℕ → ℕ → ℤ
minus_ℤ a b = if leb b a then pos (a - b) else negsuc (b - a - 1)

abbrev pub raw : (String → Value) → Option String → Value
raw parse none = Value.null
raw parse (some s) = parse s

unfoldable pub build_done_fields :
    (String → Value) → OutcomeResult → List CollectedOutput → ℕ → ℕ → ℕ → Fields
unfolding summarize_outputs
build_done_fields parse o outputs now_ms time_started_ms progress_dropped =
    Fields.field "time_finished" (Value.number (pos now_ms)) (
      Fields.field "outcome" (Value.string (outcome_text o.outcome)) (
        Fields.field "exit_code" (Value.number o.exit_code) (
          field_if (ltb 0 time_started_ms) "duration_ms"
            (Value.number (minus_ℤ now_ms time_started_ms))
            (field_if (not (str_eq o.signal "")) "signal" (Value.string o.signal) (
              field_if (not o.drop_return && ltb 0 (raw_len o.return_value)) "return"
                (raw parse o.return_value)
                (field_if (not (str_eq o.fail_reason "")) "fail_reason" (Value.string o.fail_reason)
                  (field_if (not (str_eq o.fail_message "")) "fail_message"
                    (Value.string o.fail_message)
                    (field_if (ltb 0 (raw_len o.fail_details)) "fail_details"
                      (raw parse o.fail_details)
                      (field_if (ltb 0 (length outputs)) "outputs"
                        (Value.object (summarize_outputs outputs Fields.end))
                        (field_if (ltb 0 progress_dropped) "progress_dropped"
                          (Value.number (pos progress_dropped)) Fields.end))))))))))

unfoldable pub with_seq_and_event : Fields → ℕ → Fields
unfolding set_key
with_seq_and_event fields seq =
    set_key "event" (Value.string "done") (set_key "seq" (Value.number (pos seq)) fields)

-- extractDoneFields, on the decoded map
unfoldable pub extract_done_fields : Fields → Fields
unfolding delete_key
extract_done_fields raw = delete_key "event" (delete_key "seq" raw)

-- 0 where it is missing or malformed
unfoldable pub done_event_time_finished : Fields → ℤ
done_event_time_finished fields = time (lookup "time_finished" fields)
  where
    time : Value → ℤ
    time (Value.number n) = n
    time _ = pos 0
