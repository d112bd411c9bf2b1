-- ===== src/Config/Names.antt =====
-- internal/config/validation.go: the validators of names. A name is the list of its bytes; the
-- regular expressions are anchored, so each is a test of the first byte, of the others, and a bound.
use letts.Prelude.{
  none, some, if◌then◌else◌, Option, String, [], length, any, ◌==◌, ◌∷◌, ◌||◌, ◌&&◌, leb, not,
  false, Bool, List, ℕ,
}
use Prim.Native.String.{◌++◌}

abbrev within : ℕ → ℕ → ℕ → Bool
within lo hi b = leb lo b && leb b hi

abbrev is_lower : ℕ → Bool
is_lower b = within b'a' b'z' b

abbrev is_upper : ℕ → Bool
is_upper b = within b'A' b'Z' b

abbrev is_digit : ℕ → Bool
is_digit b = within b'0' b'9' b

-- [a-z0-9_-]
abbrev is_name_byte : ℕ → Bool
is_name_byte b = is_lower b || (is_digit b || (b == b'_' || b == b'-'))

-- [A-Za-z_] and [A-Za-z0-9_]
abbrev pub is_key_start : ℕ → Bool
is_key_start b = is_upper b || (is_lower b || b == b'_')

abbrev pub is_key_byte : ℕ → Bool
is_key_byte b = is_key_start b || is_digit b

abbrev is_mission_start : ℕ → Bool
is_mission_start b = is_key_byte b

-- [A-Za-z0-9_.-]
abbrev is_mission_byte : ℕ → Bool
is_mission_byte b = is_key_byte b || (b == b'.' || b == b'-')

abbrev all : (ℕ → Bool) → List ℕ → Bool
all p bs = not (any (λ b. not (p b)) bs)

-- ^first rest{0,max}$
unfoldable pub matches : (ℕ → Bool) → (ℕ → Bool) → ℕ → List ℕ → Bool
matches first rest max [] = false
matches first rest max (b ∷ bs) = first b && (all rest bs && leb (length bs) max)

unfoldable pub validate_dugdale_id : List ℕ → Bool
unfolding matches
validate_dugdale_id s = matches is_lower is_name_byte 63 s

unfoldable pub validate_lane_name : List ℕ → Bool
unfolding matches
validate_lane_name s = matches is_lower is_name_byte 31 s

abbrev starts_reserved : List ℕ → Bool
starts_reserved (a ∷ b ∷ bs) = a == b'_' && b == b'_'
starts_reserved _ = false

unfoldable pub validate_role_key : List ℕ → Bool
unfolding matches
validate_role_key s = matches is_key_start is_key_byte 63 s && not (starts_reserved s)

unfoldable pub validate_label : List ℕ → Bool
unfolding matches
validate_label s = matches is_lower is_name_byte 31 s

unfoldable pub validate_route_name : List ℕ → Bool
unfolding matches
validate_route_name s = matches is_lower is_name_byte 63 s

unfoldable pub validate_mission_name : List ℕ → Bool
validate_mission_name [] = false
validate_mission_name (b ∷ bs) =
    leb (length (b ∷ bs)) 128 && (is_mission_start b && all is_mission_byte bs)

-- the error of ValidateRoleKey, for a text that %q prints
unfoldable pub role_key_error : (List ℕ → String) → List ℕ → Option String
unfolding matches
role_key_error quote s =
    if not (matches is_key_start is_key_byte 63 s)
    then some ("invalid role/key " ++ (quote s ++ " (regex ^[A-Za-z_][A-Za-z0-9_]{0,63}$)"))
    else if starts_reserved s
    then some ("role/key " ++ (quote s ++ " uses reserved __ prefix"))
    else none
