-- ===== src/Cleanup/Missions/Safety.antt =====
-- The sweeps of the mission cleaner delete only what is retired (internal/cleanup/missions.go).
use letts.Cleanup.Missions.{
  is_orphan_deleting, is_new_victim, marked, picked, Turn, turn, pick_victims, new_ids,
  deleting_ids, run_once, run_batch, World, Batch, OutputPath, Config,
}
use letts.Prelude.{
  arith, refl, ◌==◌, filter, ap, some_inj, [], some, false, ◌∙◌, if_cases, ◌∷◌, ◌≡◌, All, none, ◌≤◌,
  Option, sym, Bool, List, ℕ,
}
use letts.Storage.Rows.{Db, Mission}
use letts.Cleanup.Missions.Sweep.{
  mark_deleting-keys, process_batch-Kept, mark_deleting-other, Kept, SameRow,
}
use letts.Cleanup.Missions.Retention.{
  Protected-not_new, Protected-not_deleting, Others-filter, Others-order, Others-take, TtlsFit,
  Protected,
}
use mathlib.Core.Path.{subst}
use letts.Storage.Missions.Transitions.{MissionKeys}
use letts.Storage.Missions.{mem_id, has_intent, get_mission}
use letts.Prelude.Table.{key-find}

Protected-SameRow :
    (c : Config) (T : ℕ) (i : Bool) (m m' : Mission)
    → SameRow m m'
    → Protected c T i m
    → Protected c T i m'
Protected-SameRow c T i m m' same p = subst (Protected c T i) (sym same) (relinked p)
  where
    relinked : Protected c T i m → Protected c T i (record m { restarted_from = m'.restarted_from })
    relinked (Protected.waiting e) = Protected.waiting e
    relinked (Protected.active e) = Protected.active e
    relinked (Protected.finalizing e) = Protected.finalizing e
    relinked (Protected.retained finished o s t k r) = Protected.retained finished o s t k r

module _ (c : Config) (T j : ℕ) (m : Mission) (i : Bool) (kept : List OutputPath) (fits : TtlsFit c)
    (safe : Protected c T i m) where
  module _ (w : World) (k : Kept j m i kept w) where
    abbrev row : Mission
    row = k.row.0

    row-Protected : Protected c T (has_intent w.db row.id) row
    unfolding get_mission
    row-Protected =
        subst (λ x. Protected c T x row)
          (sym k.intent
            ∙ ap (has_intent w.db) (sym (key-find (λ (m : Mission). m.id) j w.db.missions k.row.1)))
          (Protected-SameRow c T i m row k.row.2 safe)

    deleting_ids-others : mem_id j (deleting_ids w.db) ≡ false
    unfolding deleting_ids get_mission
    deleting_ids-others = Others-take j 1000 _ (
        Others-filter j (is_orphan_deleting w.db) w.db.missions {m = row} k.keys k.row.1
          (Protected-not_deleting c T 0 w.db row fits (omega arith) row-Protected))

    new_ids-others : (now : ℕ) → now ≤ T → mem_id j (new_ids c now w.db) ≡ false
    unfolding new_ids get_mission
    new_ids-others now le = Others-take j 1000 _ (
        Others-order j _ (
          Others-filter j (is_new_victim c now w.db) w.db.missions {m = row} k.keys k.row.1
            (Protected-not_new c T now w.db row fits le row-Protected)))

    -- what a batch picks is never the mission j, whose row it leaves as it is
    abbrev Spared : Option (List ℕ × Db) → Type 0
    Spared o =
        (ids : List ℕ) (db' : Db)
        → o ≡ some (ids, db')
        → (mem_id j ids ≡ false) × Kept j m i kept (record w { db = db' })

    Spared-some :
        (ids : List ℕ) (db' : Db)
        → mem_id j ids ≡ false
        → Kept j m i kept (record w { db = db' })
        → Spared (some (ids, db'))
    Spared-some ids db' h k' is d e =
        subst
          (λ (r : List ℕ × Db). (mem_id j r.0 ≡ false) × Kept j m i kept (record w { db = r.1 }))
          (some_inj e) (h, k')

    Spared-none : Spared none
    Spared-none is d e = cc

    marked-Spared : (b : Batch) (ids : List ℕ) → mem_id j ids ≡ false → Spared (marked b w.db ids)
    unfolding get_mission
    marked-Spared b [] h = Spared-some [] w.db refl k
    marked-Spared b (v ∷ vs) h =
        if_cases Spared b.mark_fails _ _ (λ t. Spared-none)
          (λ t. Spared-some (v ∷ vs) _ h (record {
            row = (row, mark_deleting-other j (v ∷ vs) w.db.missions h ∙ k.row.1, k.row.2);
            keys = mark_deleting-keys (v ∷ vs) w.db.missions k.keys;
            intent = k.intent;
            files = k.files;
          }))

    picked-Spared :
        (b : Batch) (ids : List ℕ)
        → b.now_ms ≤ T
        → mem_id j ids ≡ false
        → Spared (picked c b w.db ids)
    picked-Spared b [] le h =
        if_cases Spared b.query_new_fails _ _ (λ t. Spared-none)
          (λ t. marked-Spared b _ (new_ids-others b.now_ms le))
    picked-Spared b (v ∷ vs) le h = Spared-some (v ∷ vs) w.db h k

    pick_victims-Spared : (b : Batch) → b.now_ms ≤ T → Spared (pick_victims c b w.db)
    unfolding pick_victims
    pick_victims-Spared b le =
        if_cases Spared b.query_deleting_fails _ _ (λ t. Spared-none)
          (λ t. picked-Spared b _ le deleting_ids-others)

  turn-Kept :
      (b : Batch) (w : World) (o : Option (List ℕ × Db)) (k : Kept j m i kept w)
      → Spared w k o
      → Kept j m i kept (turn c b w o).world
  turn-Kept b w none k h = k
  turn-Kept b w (some ([], db')) k h = (h [] db' refl).1
  turn-Kept b w (some (v ∷ vs, db')) k h =
      let (other, k') = h (v ∷ vs) db' refl in process_batch-Kept j m i kept c b v vs _ other k'

  run_batch-Kept :
      (b : Batch) (w : World)
      → b.now_ms ≤ T
      → Kept j m i kept w
      → Kept j m i kept (run_batch c b w).world
  unfolding run_batch
  run_batch-Kept b w le k =
      if_cases (λ (t : Turn). Kept j m i kept t.world) b.canceled _ _ (λ t. k)
        (λ t. turn-Kept b w _ k (pick_victims-Spared w k b le))

  run_once-Kept :
      (bs : List Batch) (w : World)
      → All (λ (b : Batch). b.now_ms ≤ T) bs
      → Kept j m i kept w
      → Kept j m i kept (run_once c bs w)
  unfolding run_once
  run_once-Kept [] w le k = k
  run_once-Kept (b ∷ bs) w le k =
      let k' : Kept j m i kept (run_batch c b w).world = run_batch-Kept b w le.0 k in
      if_cases (Kept j m i kept) (run_batch c b w).continues _ _
        (λ t. run_once-Kept bs (run_batch c b w).world le.1 k') (λ t. k')

-- A sweep deletes only what is retired. Where no mission id occurs twice, no TTL overflows int64 with
-- the lost grace, and every batch runs at a time up to T, a mission that is queued, running, has a
-- finalize intent, or finished with a retention (the TTL of its kind and outcome, and the grace if
-- it was lost) that ends at T or later is still there after the sweep with the same row, up to a
-- parent that was deleted; its intent and its output files are untouched.
pub run_once-Protected :
    (c : Config) (T j : ℕ) (bs : List Batch) (w : World) (m : Mission)
    → TtlsFit c
    → MissionKeys w.db
    → All (λ (b : Batch). b.now_ms ≤ T) bs
    → get_mission w.db j ≡ some m
    → Protected c T (has_intent w.db j) m
    → Kept j m
        (has_intent w.db j)
        (filter (λ (p : OutputPath). p.mission_id == j) w.disk.output)
        (run_once c bs w)
run_once-Protected c T j bs w m fits keys times found safe =
    run_once-Kept c T j m _ _ fits safe bs w times
      (record { row = (m, found, refl); keys = keys; intent = refl; files = refl })
