-- ===== src/EventFile/Json/Equality.antt =====
-- What `jsonValuesEqual` of internal/eventfile/writer.go decides.
use letts.EventFile.Json.{
  items_equal, Items, fields_within, Fields, Value, has_key, json_values_equal, lookup,
}
use letts.Prelude.{
  other_true, both_true, absurd_eq, negsuc, pos, eqb_ℤ, ℤ, refl, ◌∙◌, sym, inr, inl, str_eq, eq_iff,
  Bool-cases, arith, false, true, ◌≡◌, ◌≢◌, String,
}
use mathlib.Core.Path.{subst}

-- a value whose maps hold each key once, as those of Go do
unfoldable mutual
  pub IsMap : Value → Type 0
  IsMap (Value.array vs) = AreMaps vs
  IsMap (Value.object fs) = HasKeys fs
  IsMap _ = Unit

  pub AreMaps : Items → Type 0
  AreMaps Items.nil = Unit
  AreMaps (Items.cons v vs) = IsMap v × AreMaps vs

  pub HasKeys : Fields → Type 0
  HasKeys Fields.end = Unit
  HasKeys (Fields.field k v fs) = (has_key k fs ≡ false) × IsMap v × HasKeys fs

has_key-lookup : (k : String) (v : Value) (fs : Fields) → lookup k (Fields.field k v fs) ≡ v
unfolding lookup
has_key-lookup k v fs = ground (arith, eq_iff k k)

later_key :
    (k j : String) (v : Value) (fs : Fields)
    → has_key k fs ≡ false
    → has_key j fs ≡ true
    → lookup j (Fields.field k v fs) ≡ lookup j fs
unfolding lookup
later_key k j v fs fresh h = elim (Bool-cases (str_eq k j)) [
  | inl e ↦ absurd_eq (has_key j fs) h (subst (λ x. has_key x fs ≡ false) ((eq_iff k j).0 e) fresh)
  | inr e ↦ rw e refl
]

eqb_ℤ-refl : (n : ℤ) → eqb_ℤ n n ≡ true
eqb_ℤ-refl (pos n) = ground arith
eqb_ℤ-refl (negsuc n) = ground arith

mutual
  unfolding json_values_equal has_key IsMap

  equal_refl : (v : Value) → IsMap v → json_values_equal v v ≡ true
  equal_refl Value.null m = refl
  equal_refl (Value.bool b) m = ground arith
  equal_refl (Value.number n) m = eqb_ℤ-refl n
  equal_refl (Value.string s) m = ground (arith, eq_iff s s)
  equal_refl (Value.array vs) m = ground (arith, items_refl vs m)
  equal_refl (Value.object fs) m = ground (arith, within_refl fs fs m (λ k h. refl))

  items_refl : (vs : Items) → AreMaps vs → items_equal vs vs ≡ true
  items_refl Items.nil m = refl
  items_refl (Items.cons v vs) m = rw (equal_refl v m.0, items_refl vs m.1) refl

  within_refl :
      (fs whole : Fields)
      → HasKeys fs
      → ((k : String) → has_key k fs ≡ true → lookup k whole ≡ lookup k fs)
      → fields_within fs whole ≡ true
  within_refl Fields.end whole m agree = refl
  within_refl (Fields.field k v fs) whole m agree =
      rw (agree k (ground (arith, eq_iff k k)), has_key-lookup k v fs, equal_refl v m.1)
        (within_refl fs whole m.2 (λ j h. agree j (ground (arith, h)) ∙ later_key k j v fs m.0 h))

-- Every value whose maps hold each key once equals itself, so that an event which is read back is
-- recognised as the event that was written.
pub json_values_equal_refl : (v : Value) → IsMap v → json_values_equal v v ≡ true
json_values_equal_refl v m = equal_refl v m

-- Two events that are taken for equal agree on every key of the first.
pub fields_within-lookup :
    (a b : Fields) (k : String)
    → fields_within a b ≡ true
    → has_key k a ≡ true
    → json_values_equal (lookup k a) (lookup k b) ≡ true
unfolding json_values_equal lookup has_key
fields_within-lookup Fields.end b k w h = absurd (ground arith)
fields_within-lookup (Fields.field j v fs) b k w h =
    let (here, later) = both_true (json_values_equal v (lookup j b)) (fields_within fs b) w in
    elim (Bool-cases (str_eq j k)) [
      | inl e ↦ rw e (subst (λ x. json_values_equal v (lookup x b) ≡ true) ((eq_iff j k).0 e) here)
      | inr e ↦
          rw e (fields_within-lookup fs b k later (other_true (str_eq j k) (has_key k fs) e h))
    ]

eq_false : (a b : String) → a ≢ b → str_eq a b ≡ false
eq_false a b ne = ground (arith, eq_iff a b)

-- The comparison is not that of maps when a value is null: the one map holds a key with null, the
-- other a different key with any value, and they are taken for equal.
pub json_values_equal-null_key :
    (k j : String) (v : Value)
    → k ≢ j
    → json_values_equal
        (Value.object (Fields.field k Value.null Fields.end))
        (Value.object (Fields.field j v Fields.end))
      ≡ true
unfolding json_values_equal lookup
json_values_equal-null_key k j v ne = rw ((eq_false j k (λ e. ne (sym e)))) refl
