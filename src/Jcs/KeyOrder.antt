-- ===== src/Jcs/KeyOrder.antt =====
-- The canonical JSON does not depend on the order of an object's keys
-- (internal/jcs/canonicalize.go).
use letts.Jcs.{array, object, nil, cons, field}
use letts.Jcs.{
  sorted_members, Fields, encode_items, join_members, join_items, enclosed, Member, Items,
  insert_member, encode, Value,
}
use letts.Prelude.{
  refl, ◌∙◌, Option, [], eq_iff, not, ◌∷◌, arith, ap, false, ◌≡◌, List, str_eq, String,
}
use letts.Jcs.Numbers.{Strconv}
use letts.Jcs.Utf16.{less_utf16_irrefl, less_utf16-total, less_utf16_trans, less_utf16}
use mathlib.Core.Path.{ap₂}

-- values that differ in the order of the keys of their objects, at any depth
mutual
  pub data SameValue : Value → Value → Type 0 where
    same : {v : Value} → SameValue v v
    in_array : {vs ws : Items} → SameItems vs ws → SameValue (array vs) (array ws)
    in_object : {fs gs : Fields} → SameFields fs gs → SameValue (object fs) (object gs)

  pub data SameItems : Items → Items → Type 0 where
    none_left : SameItems nil nil
    next :
        {v w : Value} {vs ws : Items}
        → SameValue v w
        → SameItems vs ws
        → SameItems (cons v vs) (cons w ws)

  pub data SameFields : Fields → Fields → Type 0 where
    unchanged : {fs : Fields} → SameFields fs fs
    keep :
        {k : String} {v w : Value} {fs gs : Fields}
        → SameValue v w
        → SameFields fs gs
        → SameFields (field k v fs) (field k w gs)
    swap :
        {j k : String} {v w : Value} {fs : Fields}
        → str_eq j k ≡ false
        → SameFields (field j v (field k w fs)) (field k w (field j v fs))
    after : {fs gs hs : Fields} → SameFields fs gs → SameFields gs hs → SameFields fs hs

one_first : (j k : String) → str_eq j k ≡ false → less_utf16 j k ≡ not (less_utf16 k j)
one_first j k d =
    ground (arith, eq_iff j k, less_utf16-total j k, less_utf16_trans j k j, less_utf16_irrefl j)

insert_member_comm :
    (m n : Member) (l : List Member)
    → str_eq m.key n.key ≡ false
    → insert_member m (insert_member n l) ≡ insert_member n (insert_member m l)
unfolding insert_member
insert_member_comm m n [] d = ground (arith, one_first m.key n.key d)
insert_member_comm m n (x ∷ l) d = ground (
  arith,
  one_first m.key n.key d,
  less_utf16_trans m.key n.key x.key,
  less_utf16_trans n.key m.key x.key,
  insert_member_comm m n l d,
)

mutual
  unfolding encode

  -- equal up to the order of keys: the same canonical JSON, or both refused
  pub encode-same : (g : Strconv) {v w : Value} → SameValue v w → encode g v ≡ encode g w
  encode-same g same = refl
  encode-same g (in_array h) = ap (λ l. enclosed "[" "]" (join_items l)) (encode_items-same g h)
  encode-same g (in_object h) =
      ap (λ l. enclosed "{" "}" (join_members l)) (sorted_members-same g h)

  encode_items-same :
      (g : Strconv) {vs ws : Items} → SameItems vs ws → encode_items g vs ≡ encode_items g ws
  encode_items-same g none_left = refl
  encode_items-same g (next h hs) = ap₂ ◌∷◌ (encode-same g h) (encode_items-same g hs)

  sorted_members-same :
      (g : Strconv) {fs gs : Fields} → SameFields fs gs → sorted_members g fs ≡ sorted_members g gs
  sorted_members-same g unchanged = refl
  sorted_members-same g (keep {k = k} h hs) =
      ap₂ (λ (t : Option String) l. insert_member (record { key = k; text = t }) l)
        (encode-same g h) (sorted_members-same g hs)
  sorted_members-same g (swap {j = j} {k = k} {v = v} {w = w} {fs = fs} d) =
      insert_member_comm (record { key = j; text = encode g v })
        (record { key = k; text = encode g w }) (sorted_members g fs) d
  sorted_members-same g (after h hs) = sorted_members-same g h ∙ sorted_members-same g hs
