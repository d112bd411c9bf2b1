-- ===== src/Storage/Listing/Paging.antt =====
-- The pages of a listing of missions fit together (ListMissions of internal/storage/missions.go).
use letts.Storage.Listing.{
  is_after, matches_filter, list_missions, descending, cursor_of, Cursor, ListFilter,
  is_past_cursor,
}
use letts.Storage.Rows.{Db, Mission}
use letts.Prelude.{
  both_true, some, Option, String, sym, ◌∙◌, ◌++◌, zero, ◌+◌, All-map, ap, take, suc, length, refl,
  ◌&&◌, none, ℕ, [], arith, true, All, false, ◌≡◌, Bool, filter, ◌∷◌, List,
}
use mathlib.Core.Path.{ap₂, subst}
use letts.Storage.Missions.Transitions.{MissionKeys}
use letts.Storage.Listing.Order.{
  is_past_cursor_asym, Descending-descending, is_past_cursor_irrefl, filter-descending, filter-cong,
  not_last, lower, All-kept, is_past_cursor_trans, All-descending, take-nil, Descending,
}

module _ (f : ListFilter) where
  abbrev drop : ℕ → List Mission → List Mission
  drop zero l = l
  drop (suc n) [] = []
  drop (suc n) (m ∷ l) = drop n l

  All-last :
      (P : Mission → Type 0) (n : ℕ) (l before : List Mission) (x : Mission)
      → take n l ≡ before ++ (x ∷ [])
      → All P l
      → P x
  All-last P n l before x e h = All-end before (subst (All P) e (All-take n l h))
    where
      All-take : (n : ℕ) (l : List Mission) → All P l → All P (take n l)
      All-take zero l h = tt
      All-take (suc n) [] h = tt
      All-take (suc n) (m ∷ l) h = (h.0, All-take n l h.1)

      All-end : (before : List Mission) → All P (before ++ (x ∷ [])) → P x
      All-end [] h = h.0
      All-end (m ∷ ms) h = All-end ms h.1

  filter_every :
      (q : Mission → Bool) (l : List Mission) → All (λ (n : Mission). q n ≡ true) l → filter q l ≡ l
  filter_every q [] h = refl
  filter_every q (m ∷ l) h = rw h.0 (ap (◌∷◌ m) (filter_every q l h.1))

  -- what is past the last row of a page is what follows the page
  filter-rest :
      (n : ℕ) (l before : List Mission) (x : Mission)
      → Descending f l
      → length (before ++ (x ∷ [])) ≡ n
      → take n l ≡ before ++ (x ∷ [])
      → filter (λ m. lower f x m) l ≡ drop n l
  filter-rest n [] before x d len e = absurd (not_last before x (sym (take-nil n) ∙ e))
  filter-rest zero (m ∷ l) before x d len e = absurd (not_last before x e)
  filter-rest (suc n) (m ∷ l) [] x d len e =
      let z : n ≡ 0 = omega (arith, len) in
      let e' : m ≡ x = cc in
      subst (λ (y : Mission). filter (λ q. lower f y q) (m ∷ l) ≡ drop n l) e'
        (rw (z, is_past_cursor_irrefl (cursor_of f m)) (filter_every (lower f m) l d.0))
  filter-rest (suc n) (m ∷ l) (b ∷ before) x d len e =
      let e' : take n l ≡ before ++ (x ∷ []) = cc in
      let below : lower f m x ≡ true =
        All-last (λ (q : Mission). lower f m q ≡ true) n l before x e' d.0 in
      rw (is_past_cursor_asym (cursor_of f m) (cursor_of f x) below)
        (filter-rest n l before x d.1 (omega (arith, len)) e')

  take-plus : (n k : ℕ) (l : List Mission) → take (n + k) l ≡ take n l ++ take k (drop n l)
  take-plus zero k l = let z : 0 + k ≡ k = omega arith in rw z refl
  take-plus (suc n) k [] = take-nil (suc n + k) ∙ sym (take-nil k)
  take-plus (suc n) k (m ∷ l) =
      let z : suc n + k ≡ suc (n + k) = omega arith in rw z (ap (◌∷◌ m) (take-plus n k l))

and_implied : (a b c : Bool) → (c ≡ true → b ≡ true) → a && c ≡ (a && b) && c
and_implied true true c h = refl
and_implied true false true h = sym (h refl)
and_implied true false false h = refl
and_implied false b c h = refl

is_after-past :
    (f : ListFilter) (after : Option Cursor) (x m : Mission)
    → is_after f after x ≡ true
    → is_past_cursor (cursor_of f x) (cursor_of f m) ≡ true
    → is_after f after m ≡ true
is_after-past f none x m h g = refl
is_after-past f (some c) x m h g = is_past_cursor_trans c (cursor_of f x) (cursor_of f m) h g

-- The pages of a listing fit together: where mission ids are unique, a full page that ends in the
-- mission x, followed by the page after the cursor of x, is the one page of both sizes, under every
-- filter and in both orders. So a client that follows the cursors meets each matching mission once.
pub list_missions-pages :
    (like : String → String → Bool) (db : Db) (f : ListFilter) (after : Option Cursor) (n k : ℕ)
    (before : List Mission) (x : Mission)
    → MissionKeys db
    → list_missions like db f after n ≡ before ++ (x ∷ [])
    → length (before ++ (x ∷ [])) ≡ n
    → list_missions like db f after (n + k)
      ≡ (before ++ (x ∷ [])) ++ list_missions like db f (some (cursor_of f x)) k
unfolding list_missions
list_missions-pages like db f after n k before x keys page full =
    take-plus f n k l ∙ ap₂ ◌++◌ page (ap (take k) (sym next_rows))
  where
    p : Mission → Bool
    p m = matches_filter like f m && is_after f after m

    l : List Mission
    l = descending f (filter p db.missions)

    x_after : is_after f after x ≡ true
    x_after =
        All-last f (λ (m : Mission). is_after f after m ≡ true) n l before x page
          (All-descending f (λ (m : Mission). is_after f after m ≡ true) (filter p db.missions)
            (All-map (λ (m : Mission). p m ≡ true) (λ (m : Mission). is_after f after m ≡ true)
              (λ m h. (both_true (matches_filter like f m) (is_after f after m) h).1) _
              (All-kept p db.missions)))

    narrower :
        (m : Mission)
        → matches_filter like f m && is_past_cursor (cursor_of f x) (cursor_of f m)
          ≡ p m && is_past_cursor (cursor_of f x) (cursor_of f m)
    narrower m =
        and_implied (matches_filter like f m) (is_after f after m)
          (is_past_cursor (cursor_of f x) (cursor_of f m)) (is_after-past f after x m x_after)

    next_rows :
        descending f (
          filter
            (λ m. matches_filter like f m && is_past_cursor (cursor_of f x) (cursor_of f m))
            db.missions)
        ≡ drop f n l
    next_rows =
        ap (descending f) (filter-cong _ _ db.missions narrower)
        ∙ filter-descending f (cursor_of f x) p db.missions
        ∙ filter-rest f n l before x (Descending-descending f p db.missions keys) full page
