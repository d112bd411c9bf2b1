-- ===== src/Mission/Finalize/DoneEvent/Caps.antt =====
-- The size limits of `capOutcome` and `clipUTF8` (internal/mission/finalize.go and clip.go).
use Prim.Native.Char.{Char, len_utf8}
use Prim.Native.Nat.{compare, Ordering}
use Prim.Native.String.len
use Prim.Native.String.slice
use Prim.Native.String.{len, slice, fits}
use text.Mathlib.TextPositions.{len-append}
use letts.Mission.Finalize.DoneEvent.{
  raw_len, cap_outcome, cap_return, suffix, exceeds, SizeLimits, cap_message, clip_utf8,
}
use letts.Prelude.{
  inr, inl, Bool-cases, leb→le, leb, refl, ◌-◌, if_cases, arith, ◌≡◌, ◌≤◌, ◌<◌, ℕ, String,
}
use letts.Mission.Outcome.{OutcomeResult, Format}

fits-len :
    (o : Ordering) (c : Char) (rest : String) (b : ℕ)
    → compare (len_utf8 c) b ≡ o
    → len rest ≤ b - len_utf8 c
    → len (fits o c rest) ≤ b
fits-len Ordering.lt c rest b h le = rw (len.cons c rest) (ground arith)
fits-len Ordering.eq c rest b h le = rw (len.cons c rest) (ground arith)
fits-len Ordering.gt c rest b h le = omega arith

slice-len : (s : String) (b : ℕ) → len (slice s 0 b) ≤ b
slice-len String.[] b = rw (slice.nil 0 b, len.nil) (omega arith)
slice-len (String.◌∷◌ c s) b = rw (slice.cons-zero c s b) (
    fits-len (compare (len_utf8 c) b) c (slice s 0 (b - len_utf8 c)) b refl
      (slice-len s (b - len_utf8 c)))

clip_utf8-len : (s : String) (n : ℕ) → len (clip_utf8 s n) ≤ n
unfolding clip_utf8
clip_utf8-len s n =
    if_cases (λ t. len t ≤ n) (leb (len s) n) s (slice s 0 n) (leb→le (len s) n)
      (λ h. slice-len s n)

cap_message-len :
    (cfg : SizeLimits) (message : String)
    → 0 < cfg.max_fail_message
    → len (cap_message cfg message) ≤ cfg.max_fail_message
unfolding cap_message
cap_message-len cfg message set =
    if_cases (λ t. len t ≤ cfg.max_fail_message) (exceeds (len message) cfg.max_fail_message) _
      message
      (λ over.
        if_cases (λ t. len t ≤ cfg.max_fail_message) (leb (len suffix) cfg.max_fail_message) _ _
          (λ room. rw (len-append (clip_utf8 message (cfg.max_fail_message - len suffix)) suffix) (
            omega (
              arith,
              leb→le (len suffix) cfg.max_fail_message room,
              clip_utf8-len message (cfg.max_fail_message - len suffix),
            )))
          (λ none_left. clip_utf8-len message cfg.max_fail_message))
      (λ within. ground (arith, set, within))

cap_return-raw_len :
    (f : Format) (cfg : SizeLimits) (o : OutcomeResult)
    → 0 < cfg.max_return_value
    → raw_len (cap_return f cfg o).return_value ≤ cfg.max_return_value
unfolding cap_return
cap_return-raw_len f cfg o limited =
    elim (Bool-cases (exceeds (raw_len o.return_value) cfg.max_return_value)) [
      | inl over ↦ rw over (omega arith)
      | inr within ↦ rw within (elim (Bool-cases o.drop_return) [
        | inl drop ↦ rw drop (omega arith)
        | inr kept ↦ rw kept (ground (arith, limited, within))
      ])
    ]

-- Whatever the outcome, what capOutcome keeps is within the limits that are set: the fail_message is
-- no longer than max_fail_message and the return value no longer than max_return_value, in bytes.
pub cap_outcome-within :
    (f : Format) (cfg : SizeLimits) (o : OutcomeResult)
    → 0 < cfg.max_fail_message
    → 0 < cfg.max_return_value
    → (len (cap_outcome f cfg o).fail_message ≤ cfg.max_fail_message)
      × (raw_len (cap_outcome f cfg o).return_value ≤ cfg.max_return_value)
unfolding cap_outcome
cap_outcome-within f cfg o messages returns = (
  cap_message-len cfg (cap_return f cfg o).fail_message messages,
  cap_return-raw_len f cfg o returns,
)
