-- ===== src/Jcs/Utf16.antt =====
-- internal/jcs/canonicalize.go: the order of texts by their UTF-16 code units (lessUTF16).
use Prim.Native.Nat.{Ordering, compare, ◌<◌}
use Prim.Native.Char.{char, code, IsScalar, IsLt}
use letts.Prelude.{
  inr, inl, ◌⊎◌, ◌%◌, ◌/◌, ◌-◌, refl, ◌==◌, arith, ◌+◌, ◌∷◌, true, false, ltb, [], if◌then◌else◌,
  Bool, ◌≡◌, ℕ, String, List,
}
use mathlib.Core.Path.{ap₂}
use text.Mathlib.TextEquality.{Char-path}

-- utf16.Encode, one character
abbrev units_of : ℕ → List ℕ → List ℕ
units_of c rest =
    if ltb c 65536
    then c ∷ rest
    else (55296 + (c - 65536) / 1024) ∷ (56320 + (c - 65536) % 1024) ∷ rest

unfoldable pub utf16 : String → List ℕ
utf16 String.[] = []
utf16 (String.◌∷◌ c s) = units_of (code c) (utf16 s)

-- the loop over k, and the comparison of the lengths after it
unfoldable pub less_units : List ℕ → List ℕ → Bool
less_units [] [] = false
less_units [] (b ∷ bs) = true
less_units (a ∷ as') [] = false
less_units (a ∷ as') (b ∷ bs) = let rest = less_units as' bs in if a == b then rest else ltb a b

unfoldable pub less_utf16 : String → String → Bool
unfolding utf16 less_units
less_utf16 a b = less_units (utf16 a) (utf16 b)

pub less_units_irrefl : (a : List ℕ) → less_units a a ≡ false
unfolding less_units
less_units_irrefl [] = refl
less_units_irrefl (a ∷ as') = ground (arith, less_units_irrefl as')

pub less_units_trans :
    (a b c : List ℕ) → less_units a b ≡ true → less_units b c ≡ true → less_units a c ≡ true
unfolding less_units
less_units_trans [] [] c h g = cc
less_units_trans [] (b ∷ bs) [] h g = cc
less_units_trans [] (b ∷ bs) (c ∷ cs) h g = refl
less_units_trans (a ∷ as') [] c h g = cc
less_units_trans (a ∷ as') (b ∷ bs) [] h g = cc
less_units_trans (a ∷ as') (b ∷ bs) (c ∷ cs) h g = ground (arith, less_units_trans as' bs cs)

pub less_units-total : (a b : List ℕ) → less_units a b ≡ false → less_units b a ≡ false → a ≡ b
unfolding less_units
less_units-total [] [] h g = refl
less_units-total [] (b ∷ bs) h g = cc
less_units-total (a ∷ as') [] h g = cc
less_units-total (a ∷ as') (b ∷ bs) h g =
    ap₂ ◌∷◌ (ground (arith)) (less_units-total as' bs (ground arith) (ground arith))

-- the two helpers of `IsScalar`, which are private to its module
abbrev AfterSurrogates : Ordering → Ordering → Type 0
AfterSurrogates Ordering.lt o = IsLt o
AfterSurrogates Ordering.eq _ = ⊥
AfterSurrogates Ordering.gt _ = ⊥

abbrev Scalar : Ordering → Ordering → Ordering → Type 0
Scalar Ordering.lt _ _ = Unit
Scalar Ordering.eq o p = AfterSurrogates o p
Scalar Ordering.gt o p = AfterSurrogates o p

AfterSurrogates-cases :
    (p q : Ordering) → AfterSurrogates p q → (p ≡ Ordering.lt) × (q ≡ Ordering.lt)
AfterSurrogates-cases Ordering.lt Ordering.lt h = (refl, refl)
AfterSurrogates-cases Ordering.lt Ordering.eq h = elim h [ ]
AfterSurrogates-cases Ordering.lt Ordering.gt h = elim h [ ]
AfterSurrogates-cases Ordering.eq q h = elim h [ ]
AfterSurrogates-cases Ordering.gt q h = elim h [ ]

Scalar-cases :
    (o p q : Ordering) → Scalar o p q → (o ≡ Ordering.lt) ⊎ ((p ≡ Ordering.lt) × (q ≡ Ordering.lt))
Scalar-cases Ordering.lt p q h = inl refl
Scalar-cases Ordering.eq p q h = inr (AfterSurrogates-cases p q h)
Scalar-cases Ordering.gt p q h = inr (AfterSurrogates-cases p q h)

not_surrogate : (n : ℕ) → IsScalar n → (n < 55296) ⊎ ((57343 < n) × (n < 1114112))
not_surrogate n h = elim (Scalar-cases (compare n 55296) (compare 57343 n) (compare n 1114112) h) [
  | inl e ↦ inl (ground (arith, e))
  | inr (e, b) ↦ inr (ground (arith, e), ground (arith, b))
]

units_of_inj :
    (c d : ℕ) (r q : List ℕ)
    → (c < 55296) ⊎ ((57343 < c) × (c < 1114112))
    → (d < 55296) ⊎ ((57343 < d) × (d < 1114112))
    → units_of c r ≡ units_of d q
    → (c ≡ d) × (r ≡ q)
units_of_inj c d r q p s h = ground arith

-- texts with the same units are the same text
utf16_inj : (s t : String) → utf16 s ≡ utf16 t → s ≡ t
unfolding utf16
utf16_inj String.[] String.[] h = refl
utf16_inj String.[] (String.◌∷◌ (char d q) t) h = ground arith
utf16_inj (String.◌∷◌ (char c p) s) String.[] h = ground arith
utf16_inj (String.◌∷◌ (char c p) s) (String.◌∷◌ (char d q) t) h =
    let (e, r) = units_of_inj c d (utf16 s) (utf16 t) (not_surrogate c p) (not_surrogate d q) h in
    ap₂ String.◌∷◌ (Char-path (char c p) (char d q) e) (utf16_inj s t r)

pub less_utf16_irrefl : (a : String) → less_utf16 a a ≡ false
unfolding less_utf16
less_utf16_irrefl a = less_units_irrefl (utf16 a)

pub less_utf16_trans :
    (a b c : String) → less_utf16 a b ≡ true → less_utf16 b c ≡ true → less_utf16 a c ≡ true
unfolding less_utf16
less_utf16_trans a b c h g = less_units_trans (utf16 a) (utf16 b) (utf16 c) h g

-- two texts neither of which is before the other are the same
pub less_utf16-total : (a b : String) → less_utf16 a b ≡ false → less_utf16 b a ≡ false → a ≡ b
unfolding less_utf16
less_utf16-total a b h g = utf16_inj a b (less_units-total (utf16 a) (utf16 b) h g)
