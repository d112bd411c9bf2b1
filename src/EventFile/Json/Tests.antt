-- ===== src/EventFile/Json/Tests.antt =====
-- Two events of one key each.
use letts.EventFile.Json.{Value, Fields, json_values_equal}
use letts.EventFile.Json.Equality.{json_values_equal-null_key}
use letts.Prelude.{refl, eq_iff, str_eq, absurd_eq, true, ◌≡◌}

json_values_equal-null_key_example :
    json_values_equal
      (Value.object (Fields.field "signal" Value.null Fields.end))
      (Value.object (Fields.field "fail_reason" (Value.string "oom") Fields.end))
    ≡ true
json_values_equal-null_key_example =
    json_values_equal-null_key "signal" "fail_reason" (Value.string "oom")
      (λ e. absurd_eq (str_eq "signal" "fail_reason") ((eq_iff "signal" "fail_reason").1 e) refl)
