-- ===== src/Fingerprint/Sorting.antt =====
-- sort.Slice by a text: Go's order of strings is that of their bytes, which for UTF-8 is the order of
-- the characters. The order of elements with the same text is unspecified; here the list's.
use Prim.Native.Char.{code}
use letts.Jcs.Utf16.{less_units_irrefl, less_units-total, less_units_trans, less_units}
use letts.Prelude.{
  eq_iff, refl, [], ◌∙◌, not, if◌then◌else◌, arith, ap, true, false, ℕ, ◌∷◌, Bool, ◌≡◌, List,
  str_eq, String,
}
use mathlib.Core.Path.{ap₂}
use text.Mathlib.TextEquality.{Char-path}

abbrev codes : String → List ℕ
codes String.[] = []
codes (String.◌∷◌ c s) = code c ∷ codes s

unfoldable less_text : String → String → Bool
unfolding less_units
less_text a b = less_units (codes a) (codes b)

codes_inj : (s t : String) → codes s ≡ codes t → s ≡ t
codes_inj String.[] String.[] h = refl
codes_inj String.[] (String.◌∷◌ d t) h = cc
codes_inj (String.◌∷◌ c s) String.[] h = cc
codes_inj (String.◌∷◌ c s) (String.◌∷◌ d t) h =
    ap₂ String.◌∷◌ (Char-path c d (cc)) (codes_inj s t (cc))

one_less : (j k : String) → str_eq j k ≡ false → less_text j k ≡ not (less_text k j)
unfolding less_text
one_less j k d = ground (
  arith,
  eq_iff j k,
  λ (e : codes j ≡ codes k). codes_inj j k e,
  less_units-total (codes j) (codes k),
  less_units_trans (codes j) (codes k) (codes j),
  less_units_irrefl (codes j),
)

less_text_trans :
    (a b c : String) → less_text a b ≡ true → less_text b c ≡ true → less_text a c ≡ true
unfolding less_text
less_text_trans a b c h g = less_units_trans (codes a) (codes b) (codes c) h g

module _ {A : Type 0} (key : A → String) where
  unfoldable insert_by : A → List A → List A
  insert_by x [] = x ∷ []
  insert_by x (y ∷ ys) =
      let rest = insert_by x ys in if less_text (key x) (key y) then x ∷ y ∷ ys else y ∷ rest

  unfoldable pub sort_by : List A → List A
  unfolding insert_by less_text less_units
  sort_by [] = []
  sort_by (x ∷ xs) = insert_by x (sort_by xs)

  -- rearrangements that swap elements with different keys
  pub data Reordered : List A → List A → Type 0 where
    unchanged : {l : List A} → Reordered l l
    keep : {x : A} {l r : List A} → Reordered l r → Reordered (x ∷ l) (x ∷ r)
    swap :
        {x y : A} {l : List A} → str_eq (key x) (key y) ≡ false → Reordered (x ∷ y ∷ l) (y ∷ x ∷ l)
    after : {l r s : List A} → Reordered l r → Reordered r s → Reordered l s

  insert_by_comm :
      (x y : A) (l : List A)
      → str_eq (key x) (key y) ≡ false
      → insert_by x (insert_by y l) ≡ insert_by y (insert_by x l)
  unfolding insert_by
  insert_by_comm x y [] d = ground (arith, one_less (key x) (key y) d)
  insert_by_comm x y (z ∷ l) d = ground (
    arith,
    one_less (key x) (key y) d,
    less_text_trans (key x) (key y) (key z),
    less_text_trans (key y) (key x) (key z),
    insert_by_comm x y l d,
  )

  pub sort_by-Reordered : {l r : List A} → Reordered l r → sort_by l ≡ sort_by r
  unfolding sort_by
  sort_by-Reordered unchanged = refl
  sort_by-Reordered (keep {x = x} h) = ap (insert_by x) (sort_by-Reordered h)
  sort_by-Reordered (swap {x = x} {y = y} {l = l} d) = insert_by_comm x y (sort_by l) d
  sort_by-Reordered (after h g) = sort_by-Reordered h ∙ sort_by-Reordered g
