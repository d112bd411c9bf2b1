-- ===== src/Cleanup/StagingGc/Cycles.antt =====
-- A whole cycle of the staging garbage collector (RunOnce of internal/cleanup/staging_gc.go).
use mathlib.Core.List.{Memᴰ}
use letts.Prelude.{
  All-map, Bool, eqb_ℤ, zero, suc, map, if_cases, take, [], refl, sym, if◌then◌else◌, none, String,
  ◌∷◌, ◌∙◌, max_int64, ap, ◌<◌, ==_iff, absurd_eq, Option, arith, some, false, true, ◌≡◌, All, pos,
  ◌==◌, List, ltb_ℤ, ℕ,
}
use letts.Cleanup.StagingGc.{
  tombstone_deleting, expired_rows, has_path, expire_ttls, unlink_old_tombstones, run_once,
  batch_size_of, drain_needs_recalc, World, Cycle, Config,
}
use letts.Storage.Rows.{StagingState, StagingRef, Mission, StagingFile, Db}
use letts.Cleanup.StagingGc.Survival.{
  expire_row-Spared, each_row-Spared, SameFile, OwnsPath, set_staging-Spared, Harmless, SparedDb,
  SparedIn, is_reapable,
}
use letts.Storage.Refs.{
  refs_by_staging, join_missions, find_staging_needing_recalc, TtlPolicy, recalculated, is_active,
  expiry, referencing, milliseconds, recalc_staging_ttl,
}
use letts.Storage.Staging.{state_eq, set_staging, has_expired, in_phase_b, in_use, get_staging}
use letts.Cleanup.Missions.{recalc_all, recalculated_db}
use mathlib.Core.Path.{subst}
use letts.Cleanup.StagingGc.Reaping.{
  unlink_entries-Spared, tombstone_deleting-Spared, Apart-filter, Apart,
}
use letts.Storage.Refs.Expiry.{recalc_staging_ttl-active}
use letts.Storage.Missions.{get_mission}
use letts.Storage.Staging.Lifecycle.{StagingKeys}

-- why a cycle at the time `now` may not reap the row j: its expiry lies ahead, a finalize owns it, or
-- an active mission references it and its expiry is infinity or waits for a recalculation
pub data InUse (now_ms j : ℕ) (db : Db) (s : StagingFile) : Type 0 where
  unexpired : ltb_ℤ (pos now_ms) s.time_expires ≡ true → InUse now_ms j db s
  finalizing : in_phase_b s.state ≡ true → InUse now_ms j db s
  referenced :
      (m : Mission)
      → Memᴰ m (referencing db j)
      → is_active m.status ≡ true
      → has_expired now_ms s.time_expires ≡ false
      → InUse now_ms j db s

InUse-not_reapable :
    (now_ms j : ℕ) (db : Db) (s : StagingFile) → InUse now_ms j db s → is_reapable now_ms s ≡ false
InUse-not_reapable now_ms j db s (InUse.unexpired e) = ground arith
InUse-not_reapable now_ms j db s (InUse.finalizing e) = ground arith
InUse-not_reapable now_ms j db s (InUse.referenced m mem a e) = ground arith

All-each {ℓ κ} : {A : Type ℓ} (P : A → Type κ) → ((a : A) → P a) → (l : List A) → All P l
All-each P h [] = tt
All-each P h (a ∷ l) = (h a, All-each P h l)

All-ids :
    (j n : ℕ) (path : String) (rows : List StagingFile)
    → All (Apart j path) rows
    → All (λ (id : ℕ). (id == j) ≡ false) (take n (map (λ r. r.staging_id) rows))
All-ids j zero path rows h = tt
All-ids j (suc n) path [] h = tt
All-ids j (suc n) path (r ∷ rows) h = (h.0.0, All-ids j n path rows h.1)

-- an UPDATE of staging_files does not change the join
join_missions-set_staging :
    (db : Db) (id : ℕ) (p : StagingFile → Bool) (f : StagingFile → StagingFile)
    (rs : List StagingRef)
    → join_missions (set_staging db id p f) rs ≡ join_missions db rs
unfolding join_missions get_mission
join_missions-set_staging db id p f [] = refl
join_missions-set_staging db id p f (r ∷ rs) =
    ap
      (λ (rest : List Mission). elim (get_mission db r.mission_id) [
        | none ↦ rest
        | some m ↦ m ∷ rest
      ])
      (join_missions-set_staging db id p f rs)

recalculated-referencing :
    (j id : ℕ) (db : Db) (p : TtlPolicy)
    → referencing (recalculated_db db (recalc_staging_ttl db id p)) j ≡ referencing db j
unfolding recalc_staging_ttl referencing refs_by_staging
recalculated-referencing j id db p = by_row (get_staging db id)
  where
    by_row :
        (o : Option StagingFile)
        → referencing (recalculated_db db (recalculated db id p o)) j ≡ referencing db j
    by_row none = refl
    by_row (some st) =
        join_missions-set_staging db id (λ q. in_use q.state) _ (refs_by_staging db j)

module _ (g : Config) (y : Cycle) (j : ℕ) (s : StagingFile) (refs : List Mission) where
  -- why the recalculation of the row `id` does no harm
  data Step (id : ℕ) : Type 0 where
    other : (id == j) ≡ false → Step id
    owned : in_use s.state ≡ false → Step id
    active :
        (m : Mission)
        → Memᴰ m refs
        → is_active m.status ≡ true
        → milliseconds y.now < max_int64
        → Step id

  Harmless-expiry :
      (id : ℕ) (db : Db) (st : StagingFile)
      → referencing db j ≡ refs
      → get_staging db id ≡ some st
      → Step id
      → id ≡ j
      → Harmless
          (milliseconds y.now)
          j
          s
          (λ r. in_use r.state)
          (λ r. record r { time_expires = expiry db id g.ttl st })
  unfolding recalc_staging_ttl
  Harmless-expiry id db st same_refs found step e r same live used =
      (ap (λ (q : StagingFile). record q { time_expires = expiry db id g.ttl st }) same, late step)
    where
      late :
          Step id
          → is_reapable (milliseconds y.now) (record r { time_expires = expiry db id g.ttl st })
            ≡ false
      late (Step.other n) = absurd_eq _ ((==_iff id j).1 e) n
      late (Step.owned n) = absurd_eq _ used (ap (λ (q : StagingFile). in_use q.state) same ∙ n)
      late (Step.active m mem a early) =
          let here : Memᴰ m (referencing db id) =
            subst (Memᴰ m) (sym same_refs ∙ ap (referencing db) (sym e)) mem in
          let top : expiry db id g.ttl st ≡ pos max_int64 =
            recalc_staging_ttl-active db
              (set_staging db id (λ q. in_use q.state)
                (λ q. record q { time_expires = expiry db id g.ttl st }))
              id g.ttl (expiry db id g.ttl st) (rw found refl) m here a in
          rw top (ground arith)

  recalculated-Spared :
      (id : ℕ) (w : World)
      → referencing w.db j ≡ refs
      → Step id
      → SparedIn g y j s w
      → SparedDb g y j s w (recalculated_db w.db (recalc_staging_ttl w.db id g.ttl))
  unfolding recalc_staging_ttl
  recalculated-Spared id w same step k = by_row (get_staging w.db id) refl
    where
      by_row :
          (o : Option StagingFile)
          → get_staging w.db id ≡ o
          → SparedDb g y j s w (recalculated_db w.db (recalculated w.db id g.ttl o))
      by_row none e = k
      by_row (some st) e =
          set_staging-Spared (milliseconds y.now) j s id (λ r. in_use r.state) _ w
            (λ r. (refl, refl)) (Harmless-expiry id w.db st same e step) k

  recalc_all-Spared :
      (ids : List ℕ) (w : World)
      → referencing w.db j ≡ refs
      → All Step ids
      → SparedIn g y j s w
      → SparedDb g y j s w (recalc_all g.ttl y.recalc_fails ids w.db)
  unfolding recalc_all
  recalc_all-Spared [] w same steps k = k
  recalc_all-Spared (id ∷ ids) w same steps k =
      recalc_all-Spared ids
        (record w {
          db =
              if y.recalc_fails id
              then w.db
              else recalculated_db w.db (recalc_staging_ttl w.db id g.ttl);
        })
        (if_cases (λ d. referencing d j ≡ refs) (y.recalc_fails id) _ _ (λ t. same)
          (λ t. recalculated-referencing j id w.db g.ttl ∙ same))
        steps.1
        (if_cases (SparedDb g y j s w) (y.recalc_fails id) _ _ (λ t. k)
          (λ t. recalculated-Spared id w same steps.0 k))

module _ (g : Config) (y : Cycle) (j : ℕ) (s : StagingFile) (w : World) where
  drain_needs_recalc-Spared :
      InUse (milliseconds y.now) j w.db s
      → get_staging w.db j ≡ some s
      → milliseconds y.now < max_int64
      → SparedIn g y j s w
      → SparedDb g y j s w (drain_needs_recalc g y w.db)
  unfolding drain_needs_recalc find_staging_needing_recalc get_staging
  drain_needs_recalc-Spared why found early k =
      if_cases (SparedDb g y j s w) y.recalc_query_fails _ _ (λ t. k)
        (λ t. recalc_all-Spared g y j s (referencing w.db j) _ w refl (steps why) k)
    where
      steps :
          InUse (milliseconds y.now) j w.db s
          → All
              (Step g y j s (referencing w.db j))
              (find_staging_needing_recalc w.db (batch_size_of g))
      steps (InUse.unexpired e) =
          All-map (λ (id : ℕ). (id == j) ≡ false) (Step g y j s (referencing w.db j))
            (λ id n. Step.other n) _
            (All-ids j (batch_size_of g) s.path _ (
              Apart-filter j s.path (λ r. eqb_ℤ r.time_expires (pos 0)) w.db.staging s k.keys found
                (ground arith) k.owns))
      steps (InUse.finalizing e) = All-each _ (λ id. Step.owned (ground arith)) _
      steps (InUse.referenced m mem a e) = All-each _ (λ id. Step.active m mem a early) _

-- A cycle of the garbage collector, at a time before the end of int64 and whatever calls fail in it,
-- spares a file that is not due: where staging ids are unique, the row j exists, is not being deleted
-- and is the only one with its path, and its expiry lies ahead, or a finalize owns it, or its expiry
-- is no time of the past (infinite, ahead, or the sentinel 0 of a pending recalculation) and an active
-- mission references it, the row is still there after the cycle, with the same state and content, and
-- its file is still in its place. A referenced row whose expiry has passed is not covered.
pub run_once-Spared :
    (g : Config) (y : Cycle) (j : ℕ) (s : StagingFile) (w : World)
    → StagingKeys w.db
    → get_staging w.db j ≡ some s
    → state_eq s.state StagingState.deleting ≡ false
    → OwnsPath j s.path w.db.staging
    → has_path s.path w.disk.sources ≡ true
    → InUse (milliseconds y.now) j w.db s
    → milliseconds y.now < max_int64
    → (s' : StagingFile) × (get_staging (run_once g y w).db j ≡ some s')
      × SameFile s s'
      × (has_path s.path (run_once g y w).disk.sources ≡ true)
unfolding run_once unlink_old_tombstones expire_ttls
run_once-Spared g y j s w keys found alive owns on_disk why early =
    let k0 : SparedIn g y j s w = record {
      row = (s, found, refl, InUse-not_reapable (milliseconds y.now) j w.db s why);
      keys = keys;
      owns = owns;
      on_disk = on_disk;
    } in
    let drained = drain_needs_recalc-Spared g y j s w why found early k0 in
    let w1 : World = record w { db = drain_needs_recalc g y w.db } in
    let k2 : SparedIn g y j s (expire_ttls g y w1) =
      if_cases (SparedIn g y j s) y.expire_query_fails _ _ (λ t. drained)
        (λ t.
          each_row-Spared g y j s _ (λ r. Unit {0}) (λ r v _. expire_row-Spared g y j s r v)
            (expired_rows g y w1.db) w1
            (All-each (λ (r : StagingFile). Unit {0}) (λ r. tt) (expired_rows g y w1.db))
            drained) in
    let k3 = tombstone_deleting-Spared g y j s alive (expire_ttls g y w1) k2 in
    let k4 : SparedIn g y j s (run_once g y w) =
      if_cases (SparedIn g y j s) y.read_dir_fails _ _ (λ t. k3)
        (λ t.
          unlink_entries-Spared g y j s alive
            (tombstone_deleting g y (expire_ttls g y w1)).disk.tombstones _ k3) in
    (k4.row.0, k4.row.1, k4.row.2, k4.on_disk)
