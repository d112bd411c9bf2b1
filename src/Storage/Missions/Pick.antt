-- ===== src/Storage/Missions/Pick.antt =====
-- What PickQueuedForLane (internal/storage/missions.go) returns: the oldest row that may run.
use mathlib.Core.List.{Memᴰ}
use mathlib.Core.Path.{subst}
use letts.Prelude.{
  String, Bool, true, false, List, [], ◌∷◌, Option, none, some, ◌≡◌, ◌≢◌, refl, All, filter, arith,
  Bool-cases, some_inj, inl, inr, if◌then◌else◌,
}
use letts.Storage.Rows.{Mission, Db}
use letts.Storage.Missions.{is_eligible, is_before, older_of, oldest, pick_queued_for_lane}

is_before_asymm : (a b : Mission) → is_before a b ≡ true → is_before b a ≡ false
unfolding is_before
is_before_asymm a b h = ground arith

is_before_irrefl : (a : Mission) → is_before a a ≡ false
unfolding is_before
is_before_irrefl a = ground arith

-- If neither k comes before n nor n before m, then k does not come before m.
is_before_chain :
    (k n m : Mission) → is_before k n ≡ false → is_before n m ≡ false → is_before k m ≡ false
unfolding is_before
is_before_chain k n m h g = ground arith

module _ (p : Mission → Bool) where
  -- `m` is least among the rows of `ms` that pass
  abbrev Least : Mission → List Mission → Type 0
  Least m ms = All (λ n. p n ≡ true → is_before n m ≡ false) ms

  Least-chain :
      (n m : Mission) (ms : List Mission) → is_before n m ≡ false → Least n ms → Least m ms
  Least-chain n m [] h l = tt
  Least-chain n m (k ∷ ms) h l = (λ e. is_before_chain k n m (l.0 e) h, Least-chain n m ms h l.1)

  older_of-ne-none : (m : Mission) (o : Option Mission) → older_of m o ≢ none
  older_of-ne-none m none h = cc
  older_of-ne-none m (some n) h = ground arith

  oldest-none : (ms : List Mission) → oldest (filter p ms) ≡ none → All (λ n. p n ≡ false) ms
  unfolding oldest
  oldest-none [] h = tt
  oldest-none (m ∷ ms) h = by_test (p m) refl h (oldest-none ms)
    where
      by_test :
          (b : Bool)
          → p m ≡ b
          → oldest (if b then m ∷ filter p ms else filter p ms) ≡ none
          → (oldest (filter p ms) ≡ none → All (λ n. p n ≡ false) ms)
          → (p m ≡ false) × All (λ n. p n ≡ false) ms
      by_test true e h ih = absurd (older_of-ne-none m (oldest (filter p ms)) h)
      by_test false e h ih = (e, ih h)

  -- what `oldest` returns of the rows that pass
  abbrev IsLeast : Mission → List Mission → Type 0
  IsLeast m ms = Memᴰ m ms × (p m ≡ true) × Least m ms

  IsLeast-skip :
      (m x : Mission) (ms : List Mission) → p x ≡ false → IsLeast m ms → IsLeast m (x ∷ ms)
  IsLeast-skip m x ms e (mem, holds, least) = (Memᴰ.tail mem, holds, ((λ t. cc (t, e)), least))

  All-fail-Least : (m : Mission) (ms : List Mission) → All (λ n. p n ≡ false) ms → Least m ms
  All-fail-Least m [] a = tt
  All-fail-Least m (n ∷ ms) a = ((λ t. cc (t, a.0)), All-fail-Least m ms a.1)

  IsLeast-older_of :
      (x : Mission) (ms : List Mission) (o : Option Mission) (m : Mission)
      → p x ≡ true
      → oldest (filter p ms) ≡ o
      → ((n : Mission) → o ≡ some n → IsLeast n ms)
      → older_of x o ≡ some m
      → IsLeast m (x ∷ ms)
  IsLeast-older_of x ms none m e q ih h =
      subst (λ k. IsLeast k (x ∷ ms)) (some_inj h)
        (Memᴰ.head refl, e, ((λ _. is_before_irrefl x), All-fail-Least x ms (oldest-none ms q)))
  IsLeast-older_of x ms (some n) m e q ih h =
      let (mem, holds, least) = ih n refl in
      elim (Bool-cases (is_before n x)) [
        | inl before ↦
            subst (λ k. IsLeast k (x ∷ ms)) (some_inj (rw before at h))
              (Memᴰ.tail mem, holds, ((λ _. is_before_asymm n x before), least))
        | inr after ↦
            subst (λ k. IsLeast k (x ∷ ms)) (some_inj (rw after at h))
              (Memᴰ.head refl, e, ((λ _. is_before_irrefl x), Least-chain n x ms after least))
      ]

  oldest-IsLeast : (ms : List Mission) (m : Mission) → oldest (filter p ms) ≡ some m → IsLeast m ms
  unfolding oldest
  oldest-IsLeast [] m h = cc
  oldest-IsLeast (x ∷ ms) m h = by_test (p x) refl h (oldest-IsLeast ms)
    where
      by_test :
          (b : Bool)
          → p x ≡ b
          → oldest (if b then x ∷ filter p ms else filter p ms) ≡ some m
          → ((n : Mission) → oldest (filter p ms) ≡ some n → IsLeast n ms)
          → IsLeast m (x ∷ ms)
      by_test true e h ih = IsLeast-older_of x ms (oldest (filter p ms)) m e refl ih h
      by_test false e h ih = IsLeast-skip m x ms e (ih m h)

-- A row that PickQueuedForLane returns is in the table, queued in that lane with no finalize
-- intent, and no such row comes before it in the order of (time_created, mission_id).
pub pick_queued_for_lane-oldest :
    (db : Db) (lane : String) (m : Mission)
    → pick_queued_for_lane db lane ≡ some m
    → IsLeast (is_eligible db lane) m db.missions
unfolding pick_queued_for_lane
pick_queued_for_lane-oldest db lane m h = oldest-IsLeast (is_eligible db lane) db.missions m h

-- It finds no row only if no row of the table may run in that lane.
pub pick_queued_for_lane-none :
    (db : Db) (lane : String)
    → pick_queued_for_lane db lane ≡ none
    → All (λ n. is_eligible db lane n ≡ false) db.missions
unfolding pick_queued_for_lane
pick_queued_for_lane-none db lane h = oldest-none (is_eligible db lane) db.missions h
