-- ===== src/Middleware/Auth/Tokens.antt =====
-- `constantTimeEq` and `contains` of internal/server/middleware/auth.go. A token is its bytes.
use Prim.Native.Nat.{bit_or, bit_xor}
use letts.Prelude.{
  ltb→lt, inr, inl, Bool-cases, sym, ◌≢◌, ◌↔◌, zero, ltb, length, arith, suc, refl, any, ◌&&◌, not,
  if◌then◌else◌, ◌==◌, false, true, [], Bool, ◌<◌, All, List, ◌≡◌, ◌∷◌, ℕ,
}
use mathlib.Core.List.{Memᴰ}
use mathlib.Core.Path.{subst}

abbrev pub Bytes : Type 0
Bytes = List ℕ

-- x |= a[i] ^ b[i]
unfoldable pub differences : ℕ → Bytes → Bytes → ℕ
differences x [] bs = x
differences x (a ∷ as') [] = x
differences x (a ∷ as') (b ∷ bs) = differences (bit_or x (bit_xor a b)) as' bs

unfoldable pub constant_time_eq : Bytes → Bytes → Bool
constant_time_eq a b = if length a == length b then differences 0 a b == 0 else false

unfoldable pub contains : List Bytes → Bytes → Bool
contains set [] = false
contains set (c ∷ v) = any (λ s. constant_time_eq s (c ∷ v)) set

abbrev pub IsBytes : Bytes → Type 0
IsBytes = All (λ c. c < 256)

abbrev same : Bool → Bool → Bool
same true b = b
same false b = not b

-- On two bytes: which results are 0, and that they are bytes.
abbrev byte_facts : ℕ → ℕ → Bool
byte_facts a b =
    same (bit_xor a b == 0) (a == b)
    && (ltb (bit_xor a b) 256
        && (same (bit_or a b == 0) (a == 0 && b == 0) && ltb (bit_or a b) 256))

-- the facts of one byte with every smaller number, and of every pair of bytes
row : (ℕ → Bool) → ℕ → Bool
row fact zero = true
row fact (suc b) = let below = row fact b in if fact b then below else false

row_entry : (fact : ℕ → Bool) (k b : ℕ) → row fact k ≡ true → b < k → fact b ≡ true
unfolding row
row_entry fact zero b whole small = absurd (ground arith)
row_entry fact (suc k) b whole small =
    let below : row fact k ≡ true = ground arith in
    elim (Bool-cases (ltb b k)) [
      | inl t ↦ row_entry fact k b below (ltb→lt b k t)
      | inr t ↦ let last : k ≡ b = ground arith in subst (λ c. fact c ≡ true) last (ground arith)
    ]

every_byte_pair : row (λ a. row (byte_facts a) 256) 256 ≡ true
unfolding row
every_byte_pair = refl

byte_facts_hold : (a b : ℕ) → a < 256 → b < 256 → byte_facts a b ≡ true
byte_facts_hold a b p q =
    row_entry (byte_facts a) 256 b (row_entry (λ c. row (byte_facts c) 256) 256 a every_byte_pair p)
      q

or_zero : (a b : ℕ) → a < 256 → b < 256 → bit_or a b ≡ 0 → (a ≡ 0) × (b ≡ 0)
or_zero a b p q h = ground (arith, byte_facts_hold a b p q)

or_of_zero : (a b : ℕ) → a < 256 → b < 256 → a ≡ 0 → b ≡ 0 → bit_or a b ≡ 0
or_of_zero a b p q h g = ground (arith, byte_facts_hold a b p q)

or_bound : (a b : ℕ) → a < 256 → b < 256 → bit_or a b < 256
or_bound a b p q = ground (arith, byte_facts_hold a b p q)

xor_bound : (a b : ℕ) → a < 256 → b < 256 → bit_xor a b < 256
xor_bound a b p q = ground (arith, byte_facts_hold a b p q)

xor_zero_iff : (a b : ℕ) → a < 256 → b < 256 → (bit_xor a b ≡ 0) ↔ (a ≡ b)
xor_zero_iff a b p q =
    (λ h. ground (arith, byte_facts_hold a b p q), λ h. ground (arith, byte_facts_hold a b p q))

differences_zero :
    (x : ℕ) (a b : Bytes)
    → x < 256
    → IsBytes a
    → IsBytes b
    → length a ≡ length b
    → differences x a b ≡ 0
    → (x ≡ 0) × (a ≡ b)
unfolding differences
differences_zero x [] [] p ha hb l h = (h, refl)
differences_zero x [] (d ∷ bs) p ha hb l h = absurd (omega arith)
differences_zero x (c ∷ cs) [] p ha hb l h = absurd (omega arith)
differences_zero x (c ∷ cs) (d ∷ bs) p ha hb l h =
    let (z, rest) =
      differences_zero (bit_or x (bit_xor c d)) cs bs
        (or_bound x (bit_xor c d) p (xor_bound c d ha.0 hb.0)) ha.1 hb.1 (omega arith) h in
    let (x0, e) = or_zero x (bit_xor c d) p (xor_bound c d ha.0 hb.0) z in
    (x0, cc ((xor_zero_iff c d ha.0 hb.0).0 e, rest))

differences_self : (a : Bytes) → IsBytes a → differences 0 a a ≡ 0
unfolding differences
differences_self [] ha = refl
differences_self (c ∷ cs) ha =
    rw
      (or_of_zero 0 (bit_xor c c) (omega arith) (xor_bound c c ha.0 ha.0) refl
        ((xor_zero_iff c c ha.0 ha.0).1 refl))
      (differences_self cs ha.1)

-- The comparison that takes the same time for every content decides equality of byte strings.
pub constant_time_eq_iff :
    (a b : Bytes) → IsBytes a → IsBytes b → (constant_time_eq a b ≡ true) ↔ (a ≡ b)
unfolding constant_time_eq
constant_time_eq_iff a b ha hb = (
  (λ h. (differences_zero 0 a b (omega arith) ha hb (ground arith) (ground arith)).1),
  λ e.
      subst (λ c. (if length a == length c then differences 0 a c == 0 else false) ≡ true) e
        (ground (arith, differences_self a ha)),
)

pub contains_sound :
    (set : List Bytes) (v : Bytes)
    → All IsBytes set
    → IsBytes v
    → contains set v ≡ true
    → Memᴰ v set × (v ≢ [])
unfolding contains
contains_sound [] [] hs hv h = cc
contains_sound (s ∷ set) [] hs hv h = cc
contains_sound [] (c ∷ v) hs hv h = cc
contains_sound (s ∷ set) (c ∷ v) hs hv h = elim (Bool-cases (constant_time_eq s (c ∷ v))) [
  | inl e ↦ (Memᴰ.head (sym ((constant_time_eq_iff s (c ∷ v) hs.0 hv).0 e)), (λ q. cc))
  | inr e ↦ let (mem, ne) = contains_sound set (c ∷ v) hs.1 hv (rw e at h) in (Memᴰ.tail mem, ne)
]

pub contains_complete :
    (set : List Bytes) (v : Bytes)
    → All IsBytes set
    → IsBytes v
    → Memᴰ v set
    → v ≢ []
    → contains set v ≡ true
unfolding contains
contains_complete set [] hs hv m ne = absurd (ne refl)
contains_complete [] (c ∷ v) hs hv m ne = elim m [ ]
contains_complete (s ∷ set) (c ∷ v) hs hv (Memᴰ.head e) ne =
    rw ((constant_time_eq_iff s (c ∷ v) hs.0 hv).1 (sym e))
contains_complete (s ∷ set) (c ∷ v) hs hv (Memᴰ.tail m) ne =
    let rest = contains_complete set (c ∷ v) hs.1 hv m ne in ground arith
