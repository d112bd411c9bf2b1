-- ===== src/Cleanup/Missions/Retention.antt =====
-- What the mission cleaner leaves alone (internal/cleanup/missions.go).
use letts.Prelude.Table
use letts.Prelude.{
  ==_iff, ◌^◌, ◌<◌, filter, true, add_int64, none, some, ◌+◌, ◌≤◌, Bool, refl, false, zero, [], ◌≡◌,
  suc, arith, ◌∷◌, take, List, ℕ,
}
use letts.Storage.Rows.{Outcome, Kind, Status, Mission, Db}
use letts.Prelude.Table.{HasKey}
use letts.Cleanup.Missions.{
  cutoff_ttl, is_new_victim, is_orphan_deleting, is_past, Config, ids_of, order_by_finished,
  insert_by_finished,
}
use letts.Storage.Missions.{has_intent, mem_id}
use letts.Storage.Refs.{milliseconds, ttl_for}

-- a row without key j does not occur among the rows that a query returns
module _ (j : ℕ) where
  abbrev pub Others : List Mission → Type 0
  Others ms = mem_id j (ids_of ms) ≡ false

  pub Others-take : (n : ℕ) (ms : List Mission) → Others ms → Others (take n ms)
  Others-take zero ms h = refl
  Others-take (suc n) [] h = refl
  Others-take (suc n) (m ∷ ms) h = ground (arith, Others-take n ms)

  Others-none :
      (p : Mission → Bool) (ms : List Mission)
      → Table.find (λ m. m.id) j ms ≡ none
      → Others (filter p ms)
  unfolding Table.find
  Others-none p [] h = refl
  Others-none p (m ∷ ms) h = ground (arith, Others-none p ms)

  -- the row of key j does not pass the test
  pub Others-filter :
      (p : Mission → Bool) (ms : List Mission) {m : Mission}
      → HasKey (λ (m : Mission). m.id) ms
      → Table.find (λ m. m.id) j ms ≡ some m
      → p m ≡ false
      → Others (filter p ms)
  unfolding Table.find
  Others-filter p [] u found fails = cc
  Others-filter p (n ∷ ns) {m} u found fails =
      ground (arith, u.0, Others-none p ns, Others-filter p ns {m = m} u.1, ==_iff n.id j)

  Others-insert :
      (m : Mission) (ms : List Mission) → Others (m ∷ ms) → Others (insert_by_finished m ms)
  unfolding insert_by_finished
  Others-insert m [] h = h
  Others-insert m (n ∷ ns) h = ground (arith, Others-insert m ns)

  pub Others-order : (ms : List Mission) → Others ms → Others (order_by_finished ms)
  unfolding order_by_finished
  Others-order [] h = refl
  Others-order (m ∷ ms) h = Others-insert m (order_by_finished ms) (ground (arith, Others-order ms))

-- how long a finished mission is kept: what a file that it references is kept for, and for a lost
-- mission the grace on top
abbrev pub retention : Config → Kind → Outcome → ℕ
retention c kind Outcome.lost = ttl_for c.ttl kind (some Outcome.lost) + c.lost_cleanup_grace
retention c kind o = ttl_for c.ttl kind (some o)

-- neither sum of a TTL and the grace overflows int64
pub record TtlsFit (c : Config) : Type 0 where
  pub mission : c.ttl.mission_failed + c.lost_cleanup_grace < 2 ^ 63
  pub exec : c.ttl.exec_failed + c.lost_cleanup_grace < 2 ^ 63

-- a mission that no batch at a time up to T may pick
pub data Protected (c : Config) (T : ℕ) (intent : Bool) (m : Mission) : Type 0 where
  waiting : m.status ≡ Status.queued → Protected c T intent m
  active : m.status ≡ Status.running → Protected c T intent m
  finalizing : intent ≡ true → Protected c T intent m
  retained :
      (finished : ℕ) (o : Outcome)
      → m.status ≡ Status.done
      → m.time_finished ≡ some finished
      → m.outcome ≡ some o
      → T ≤ finished + milliseconds (retention c m.kind o)
      → Protected c T intent m

not_past :
    (c : Config) (T now finished : ℕ) (kind : Kind) (o : Outcome)
    → TtlsFit c
    → now ≤ T
    → T ≤ finished + milliseconds (retention c kind o)
    → is_past now (cutoff_ttl c kind o) finished ≡ false
unfolding is_past ttl_for add_int64
not_past c T now finished Kind.mission Outcome.success f le r = ground arith
not_past c T now finished Kind.mission Outcome.lost f le r = ground (arith, f.mission)
not_past c T now finished Kind.mission _ f le r = ground arith
not_past c T now finished Kind.exec Outcome.success f le r = ground arith
not_past c T now finished Kind.exec Outcome.lost f le r = ground (arith, f.exec)
not_past c T now finished Kind.exec _ f le r = ground arith

module _ (c : Config) (T now : ℕ) (db : Db) (m : Mission) (f : TtlsFit c) (le : now ≤ T) where
  pub Protected-not_deleting :
      Protected c T (has_intent db m.id) m → is_orphan_deleting db m ≡ false
  unfolding is_orphan_deleting
  Protected-not_deleting (waiting e) = rw e refl
  Protected-not_deleting (active e) = rw e refl
  Protected-not_deleting (finalizing e) = ground arith
  Protected-not_deleting (retained finished o e t k r) = rw e refl

  pub Protected-not_new : Protected c T (has_intent db m.id) m → is_new_victim c now db m ≡ false
  unfolding is_new_victim
  Protected-not_new (waiting e) = rw e refl
  Protected-not_new (active e) = rw e refl
  Protected-not_new (finalizing e) = ground arith
  Protected-not_new (retained finished o e t k r) =
      rw (e, t, k, not_past c T now finished m.kind o f le r) refl
