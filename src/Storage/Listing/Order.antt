-- ===== src/Storage/Listing/Order.antt =====
-- The order of a listing of missions (ListMissions of internal/storage/missions.go).
use letts.Prelude.Table
use letts.Storage.Listing.{
  descending, cursor_of, Cursor, insert_descending, ListFilter, is_past_cursor,
}
use letts.Storage.Rows.{Mission}
use letts.Prelude.{
  ◌≢◌, sym, ◌∙◌, ◌++◌, zero, All-map, ap, take, suc, refl, inr, ◌&&◌, inl, none, Bool-cases, ℕ,
  if_cases, [], arith, if◌then◌else◌, true, All, false, ◌≡◌, Bool, filter, ◌∷◌, ◌==◌, List,
}
use letts.Prelude.Table.{HasKey}

pub is_past_cursor_trans :
    (a b c : Cursor)
    → is_past_cursor a b ≡ true
    → is_past_cursor b c ≡ true
    → is_past_cursor a c ≡ true
unfolding is_past_cursor
is_past_cursor_trans a b c h g = ground arith

pub is_past_cursor_irrefl : (a : Cursor) → is_past_cursor a a ≡ false
unfolding is_past_cursor
is_past_cursor_irrefl a = ground arith

pub is_past_cursor_asym : (a b : Cursor) → is_past_cursor a b ≡ true → is_past_cursor b a ≡ false
unfolding is_past_cursor
is_past_cursor_asym a b h = ground arith

is_past_cursor-total :
    (a b : Cursor)
    → (a.mission_id == b.mission_id) ≡ false
    → is_past_cursor a b ≡ false
    → is_past_cursor b a ≡ true
unfolding is_past_cursor
is_past_cursor-total a b d h = ground arith

is_past_cursor_closed :
    (c a b : Cursor)
    → is_past_cursor a b ≡ false
    → is_past_cursor c b ≡ true
    → is_past_cursor c a ≡ true
unfolding is_past_cursor
is_past_cursor_closed c a b h g = ground arith

pub take-nil : (n : ℕ) → take {A = Mission} n [] ≡ []
take-nil zero = refl
take-nil (suc n) = refl

pub not_last : (before : List Mission) (x : Mission) → [] ≢ before ++ (x ∷ [])
not_last [] x h = cc
not_last (m ∷ before) x h = cc

pub filter-cong :
    (p q : Mission → Bool) (ms : List Mission)
    → ((m : Mission) → p m ≡ q m)
    → filter p ms ≡ filter q ms
filter-cong p q [] h = refl
filter-cong p q (m ∷ ms) h = ground (arith, h m, filter-cong p q ms h)

pub All-kept :
    (p : Mission → Bool) (ms : List Mission) → All (λ (m : Mission). p m ≡ true) (filter p ms)
All-kept p [] = tt
All-kept p (m ∷ ms) =
    if_cases (All (λ (m : Mission). p m ≡ true)) (p m) _ _ (λ t. (t, All-kept p ms))
      (λ t. All-kept p ms)

All-filter :
    (P : Mission → Type 0) (p : Mission → Bool) (ms : List Mission) → All P ms → All P (filter p ms)
All-filter P p [] h = tt
All-filter P p (m ∷ ms) h =
    if_cases (All P) (p m) _ _ (λ t. (h.0, All-filter P p ms h.1)) (λ t. All-filter P p ms h.1)

others :
    (id : ℕ) (ms : List Mission)
    → Table.find (λ m. m.id) id ms ≡ none
    → All (λ (n : Mission). (n.id == id) ≡ false) ms
unfolding Table.find
others id [] h = tt
others id (m ∷ ms) h = (ground arith, others id ms (ground arith))

module _ (f : ListFilter) where
  abbrev pub lower : Mission → Mission → Bool
  lower a b = is_past_cursor (cursor_of f a) (cursor_of f b)

  -- rows past a cursor are past it in every order of insertion
  filter-insert :
      (c : Cursor) (x : Mission) (l : List Mission)
      → filter (λ m. is_past_cursor c (cursor_of f m)) (insert_descending f x l) ≡ (
          if is_past_cursor c (cursor_of f x)
          then insert_descending f x (filter (λ m. is_past_cursor c (cursor_of f m)) l)
          else filter (λ m. is_past_cursor c (cursor_of f m)) l)
  unfolding insert_descending
  filter-insert c x [] = ground arith
  filter-insert c x (y ∷ l) = elim (Bool-cases (lower y x)) [
    | inl t ↦ rw t (ground (arith, filter-insert c x l, t))
    | inr t ↦ rw t (ground (arith, is_past_cursor_closed c (cursor_of f y) (cursor_of f x), t))
  ]

  abbrev pub Descending : List Mission → Type 0
  Descending [] = Unit
  Descending (m ∷ ms) = All (λ (n : Mission). lower m n ≡ true) ms × Descending ms

  pub filter-descending :
      (c : Cursor) (p : Mission → Bool) (ms : List Mission)
      → descending f (filter (λ m. p m && is_past_cursor c (cursor_of f m)) ms)
        ≡ filter (λ m. is_past_cursor c (cursor_of f m)) (descending f (filter p ms))
  unfolding descending
  filter-descending c p [] = refl
  filter-descending c p (m ∷ ms) = elim (Bool-cases (p m)) [
    | inr e ↦ rw e (filter-descending c p ms)
    | inl e ↦ elim (Bool-cases (is_past_cursor c (cursor_of f m))) [
      | inl t ↦
          rw (e, t)
            (ap (insert_descending f m) (filter-descending c p ms)
              ∙ sym (filter-insert c m (descending f (filter p ms)) ∙ rw t refl))
      | inr t ↦
          rw (e, t)
            (filter-descending c p ms
              ∙ sym (filter-insert c m (descending f (filter p ms)) ∙ rw t refl))
    ]
  ]

  All-insert :
      (P : Mission → Type 0) (x : Mission) (l : List Mission)
      → P x
      → All P l
      → All P (insert_descending f x l)
  unfolding insert_descending
  All-insert P x [] px h = (px, tt)
  All-insert P x (y ∷ l) px h =
      if_cases (All P) (lower y x) _ _ (λ t. (h.0, All-insert P x l px h.1)) (λ t. (px, h))

  -- a row with an id of its own keeps the order strict
  Descending-insert :
      (x : Mission) (l : List Mission)
      → All (λ (n : Mission). (n.id == x.id) ≡ false) l
      → Descending l
      → Descending (insert_descending f x l)
  unfolding insert_descending
  Descending-insert x [] other d = (tt, tt)
  Descending-insert x (y ∷ l) other d =
      if_cases Descending (lower y x) _ _
        (λ t. (
          All-insert (λ (n : Mission). lower y n ≡ true) x l t d.0,
          Descending-insert x l other.1 d.1,
        ))
        (λ t.
          let first = is_past_cursor-total (cursor_of f y) (cursor_of f x) other.0 t in
          (
            (
              first,
              All-map (λ (n : Mission). lower y n ≡ true) (λ (n : Mission). lower x n ≡ true)
                  (λ n h.
                    is_past_cursor_trans (cursor_of f x) (cursor_of f y) (cursor_of f n) first h)
                  l d.0,
            ),
            d,
          ))

  pub All-descending :
      (P : Mission → Type 0) (ms : List Mission) → All P ms → All P (descending f ms)
  unfolding descending
  All-descending P [] h = tt
  All-descending P (m ∷ ms) h = All-insert P m (descending f ms) h.0 (All-descending P ms h.1)

  pub Descending-descending :
      (p : Mission → Bool) (ms : List Mission)
      → HasKey (λ (m : Mission). m.id) ms
      → Descending (descending f (filter p ms))
  unfolding descending
  Descending-descending p [] u = tt
  Descending-descending p (m ∷ ms) u =
      if_cases (λ l. Descending (descending f l)) (p m) _ _
        (λ t.
          Descending-insert m (descending f (filter p ms))
            (All-descending _ (filter p ms) (All-filter _ p ms (others m.id ms u.0)))
            (Descending-descending p ms u.1))
        (λ t. Descending-descending p ms u.1)
