-- ===== src/Prelude/Table.antt =====
-- An SQL table as the list of its rows, addressed by a numeric primary key.
use mathlib.Core.Option
use mathlib.Core.Bool.{Bool, true, false, ◌&&◌}
use mathlib.Core.List.{List, [], ◌∷◌, ◌++◌}
use mathlib.Core.Option.{Option, none, some}
use mathlib.Core.Path.{◌≡◌, refl}
use native.Mathlib.Omega.{arith}
use Prim.Native.Nat.{ℕ}
use letts.Prelude.Tests.{◌==◌, if◌then◌else◌}
use letts.Prelude.Lists.{any}

module _ {A : Type 0} (key : A → ℕ) where
  -- SELECT … WHERE key = k
  unfoldable pub find : ℕ → List A → Option A
  find k [] = none
  find k (r ∷ rows) = let rest = find k rows in if key r == k then some r else rest

  -- UPDATE … SET f WHERE key = k AND guard
  unfoldable pub update : ℕ → (A → Bool) → (A → A) → List A → List A
  update k guard f [] = []
  update k guard f (r ∷ rows) = (if (key r == k) && guard r then f r else r) ∷ update k guard f rows

  -- RowsAffected of that statement is not 0
  unfoldable pub affects : ℕ → (A → Bool) → List A → Bool
  affects k guard rows = any (λ r. (key r == k) && guard r) rows

  -- DELETE … WHERE key = k
  unfoldable pub delete : ℕ → List A → List A
  delete k [] = []
  delete k (r ∷ rows) = let rest = delete k rows in if key r == k then rest else r ∷ rest

  -- the primary key: no two rows share it
  abbrev pub HasKey : List A → Type 0
  HasKey [] = Unit
  HasKey (r ∷ rows) = (find (key r) rows ≡ none) × HasKey rows

  pub find-update :
      (k j : ℕ) (guard : A → Bool) (f : A → A) (rows : List A)
      → ((r : A) → key (f r) ≡ key r)
      → find j (update k guard f rows) ≡ (
          if k == j
          then Option.map (λ r. if guard r then f r else r) (find k rows)
          else find j rows)
  unfolding find update
  find-update k j guard f [] keeps = ground arith
  find-update k j guard f (r ∷ rows) keeps =
      ground (arith, keeps r, find-update k j guard f rows keeps)

  pub find-delete :
      (k j : ℕ) (rows : List A) → find j (delete k rows) ≡ (if k == j then none else find j rows)
  unfolding find delete
  find-delete k j [] = ground arith
  find-delete k j (r ∷ rows) = ground (arith, find-delete k j rows)

  pub find-append_one :
      (k : ℕ) (rows : List A) (row : A)
      → find k rows ≡ none
      → key row ≡ k
      → find k (rows ++ (row ∷ [])) ≡ some row
  unfolding find
  find-append_one k [] row h e = ground arith
  find-append_one k (r ∷ rows) row h e = ground (arith, find-append_one k rows row)

  pub key-find : (k : ℕ) (rows : List A) {row : A} → find k rows ≡ some row → key row ≡ k
  unfolding find
  key-find k [] h = cc
  key-find k (r ∷ rows) {row} h = ground (arith, key-find k rows {row = row})

  abbrev pub holds : (A → Bool) → Option A → Bool
  holds guard none = false
  holds guard (some r) = guard r

  affects-none :
      (k : ℕ) (guard : A → Bool) (rows : List A) → find k rows ≡ none → affects k guard rows ≡ false
  unfolding find affects
  affects-none k guard [] h = refl
  affects-none k guard (r ∷ rows) h = ground (arith, affects-none k guard rows)

  -- Under the primary key a statement affects a row exactly if the row that it finds passes.
  pub affects-find :
      (k : ℕ) (guard : A → Bool) (rows : List A)
      → HasKey rows
      → affects k guard rows ≡ holds guard (find k rows)
  unfolding find affects
  affects-find k guard [] u = refl
  affects-find k guard (r ∷ rows) u =
      ground (arith, affects-none k guard rows, affects-find k guard rows u.1)

  pub HasKey-update :
      (k : ℕ) (guard : A → Bool) (f : A → A) (rows : List A)
      → ((r : A) → key (f r) ≡ key r)
      → HasKey rows
      → HasKey (update k guard f rows)
  unfolding find update
  HasKey-update k guard f [] keeps u = tt
  HasKey-update k guard f (r ∷ rows) keeps u = (
    head_key (key r == k && guard r) (keeps r)
        (rw (find-update k (key r) guard f rows keeps) (ground (arith, u.0))),
    HasKey-update k guard f rows keeps u.1,
  )
    where
      head_key :
          (b : Bool)
          → key (f r) ≡ key r
          → find (key r) (update k guard f rows) ≡ none
          → find (key (if b then f r else r)) (update k guard f rows) ≡ none
      head_key true e h = rw e h
      head_key false e h = h

  pub HasKey-delete : (k : ℕ) (rows : List A) → HasKey rows → HasKey (delete k rows)
  unfolding delete
  HasKey-delete k [] u = tt
  HasKey-delete k (r ∷ rows) u = kept (HasKey-delete k rows u.1) (key r == k)
    where
      kept :
          HasKey (delete k rows)
          → (b : Bool) → HasKey (if b then delete k rows else r ∷ delete k rows)
      kept ih true = ih
      kept ih false = (rw (find-delete k (key r) rows) (ground (arith, u.0)), ih)
