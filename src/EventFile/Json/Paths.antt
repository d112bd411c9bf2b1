-- ===== src/EventFile/Json/Paths.antt =====
-- Values that `jsonValuesEqual` of internal/eventfile/writer.go takes for equal read the same.
use letts.Prelude.{
  ==_iff, pos, negsuc, inr, ◌∙◌, ◌==◌, inl, refl, Bool-cases, eq_iff, ◌⊎◌, both_true, ap, arith,
  ◌≢◌, [], eqb_ℤ, ◌≡◌, false, ◌∷◌, List, ℤ, String, Bool, true,
}
use letts.EventFile.Json.{size, fields_within, has_key, Fields, Value, lookup, json_values_equal}
use mathlib.Core.Path.{subst}
use letts.EventFile.Json.Equality.{fields_within-lookup}

-- a text, a number or a truth value
abbrev pub is_scalar : Value → Bool
is_scalar (Value.bool b) = true
is_scalar (Value.number n) = true
is_scalar (Value.string s) = true
is_scalar _ = false

-- what a path of map keys leads to; null where it leaves the maps
unfoldable pub read : List String → Value → Value
unfolding lookup
read [] v = v
read (k ∷ ks) (Value.object fs) = read ks (lookup k fs)
read (k ∷ ks) _ = Value.null

read-null : (ks : List String) → read ks Value.null ≡ Value.null
unfolding read
read-null [] = refl
read-null (k ∷ ks) = refl

eqb_ℤ_sound : (a b : ℤ) → eqb_ℤ a b ≡ true → a ≡ b
eqb_ℤ_sound (pos a) (pos b) h = ap pos ((==_iff a b).0 h)
eqb_ℤ_sound (negsuc a) (negsuc b) h = ap negsuc ((==_iff a b).0 h)
eqb_ℤ_sound (pos a) (negsuc b) h = absurd (ground arith)
eqb_ℤ_sound (negsuc a) (pos b) h = absurd (ground arith)

scalar_equal : (v w : Value) → is_scalar v ≡ true → json_values_equal v w ≡ true → v ≡ w
unfolding json_values_equal
scalar_equal (Value.bool a) (Value.bool b) s h = ap Value.bool (ground (arith, h))
scalar_equal (Value.number a) (Value.number b) s h = ap Value.number (eqb_ℤ_sound a b h)
scalar_equal (Value.string a) (Value.string b) s h = ap Value.string ((eq_iff a b).0 h)
scalar_equal v w s h = absurd (ground (arith, s, h))

lookup-absent : (k : String) (fs : Fields) → has_key k fs ≡ false → lookup k fs ≡ Value.null
unfolding lookup has_key
lookup-absent k Fields.end h = refl
lookup-absent k (Fields.field j v fs) h = ground (arith, lookup-absent k fs)

-- the fields of the first map within the second
fields-read :
    (a b : Fields) (k : String)
    → fields_within a b ≡ true
    → (lookup k a ≡ Value.null) ⊎ (json_values_equal (lookup k a) (lookup k b) ≡ true)
fields-read a b k h = elim (Bool-cases (has_key k a)) [
  | inl e ↦ inr (fields_within-lookup a b k h e)
  | inr e ↦ inl (lookup-absent k a e)
]

not_scalar_null : (v : Value) → v ≡ Value.null → is_scalar v ≢ true
not_scalar_null v e s = absurd (cc (subst (λ x. is_scalar x ≡ true) e s))

-- A scalar that a path reads in the first of two equal values is read by the path in the second.
pub json_values_equal-read :
    (ks : List String) (v w : Value)
    → json_values_equal v w ≡ true
    → is_scalar (read ks v) ≡ true
    → read ks v ≡ read ks w
unfolding read json_values_equal
json_values_equal-read [] v w h s = scalar_equal v w s h
json_values_equal-read (k ∷ ks) (Value.object a) (Value.object b) h s =
    elim (fields-read a b k (both_true (size a == size b) (fields_within a b) h).1) [
      | inl e ↦ absurd (not_scalar_null (read ks (lookup k a)) (ap (read ks) e ∙ read-null ks) s)
      | inr e ↦ json_values_equal-read ks (lookup k a) (lookup k b) e s
    ]
json_values_equal-read (k ∷ ks) v w h s = absurd (ground (arith, h, s))
