-- ===== src/Cleanup/Missions/Progress.antt =====
-- A sweep of the mission cleaner deletes everything that is retired (internal/cleanup/missions.go).
use letts.Prelude.Table
-- ids that rows of the table have
use letts.Cleanup.Missions.{
  staging_ids_for_missions, recalc_all, pick_victims, run_batch, picked, run_once, marked,
  is_new_victim, process_batch, is_orphan_deleting, turn, Turn, new_ids, World, Config,
  deleting_ids, Batch, to_deleting, ids_of, order_by_finished, insert_by_finished, mark_deleting,
}
use letts.Prelude.{
  absurd_eq, ap, if_cases, some, sym, inr, inl, Bool-cases, refl, ==_iff, false, ◌<◌, All, zero,
  ◌≤◌, true, ◌∙◌, arith, [], ◌≡◌, suc, ◌≢◌, filter, length, take, ◌∷◌, Bool, List, ℕ,
}
use letts.Storage.Rows.{Db, Status, Mission}
use letts.Storage.Missions.{delete_missions, status_eq, mem_id}
use letts.Cleanup.Missions.Sweep.{recalc_all-tables, after_delete}

abbrev Has : ℕ → List Mission → Type 0
Has v ms = mem_id v (ids_of ms) ≡ true

module _ (v : ℕ) where
  Has-take : (n : ℕ) (ms : List Mission) → Has v (take n ms) → Has v ms
  Has-take zero ms h = cc
  Has-take (suc n) [] h = cc
  Has-take (suc n) (m ∷ ms) h = ground (arith, Has-take n ms)

  Has-filter : (p : Mission → Bool) (ms : List Mission) → Has v (filter p ms) → Has v ms
  Has-filter p [] h = cc
  Has-filter p (m ∷ ms) h = ground (arith, Has-filter p ms)

  Has-insert : (m : Mission) (ms : List Mission) → Has v (insert_by_finished m ms) → Has v (m ∷ ms)
  unfolding insert_by_finished
  Has-insert m [] h = h
  Has-insert m (n ∷ ns) h = ground (arith, Has-insert m ns)

  Has-order : (ms : List Mission) → Has v (order_by_finished ms) → Has v ms
  unfolding order_by_finished
  Has-order [] h = h
  Has-order (m ∷ ms) h = ground (arith, Has-insert m (order_by_finished ms) h, Has-order ms)

  length-after_delete-le :
      (ids : List ℕ) (ms : List Mission) → length (after_delete ids ms) ≤ length ms
  length-after_delete-le ids [] = omega arith
  length-after_delete-le ids (m ∷ ms) = ground (arith, length-after_delete-le ids ms)

  length-after_delete :
      (ids : List ℕ) (ms : List Mission)
      → mem_id v ids ≡ true
      → Has v ms
      → length (after_delete ids ms) < length ms
  length-after_delete ids [] h p = cc
  length-after_delete ids (m ∷ ms) h p =
      ground (arith, length-after_delete-le ids ms, length-after_delete ids ms h, ==_iff m.id v)

-- a query that returns no row: no row passes its test
None :
    (p : Mission → Bool) (ms : List Mission)
    → ids_of (take 1000 (filter p ms)) ≡ []
    → All (λ (m : Mission). p m ≡ false) ms
None p [] h = tt
None p (m ∷ ms) h = elim (Bool-cases (p m)) [
  | inl t ↦ absurd (cc (rw t at h))
  | inr t ↦ (t, None p ms (rw t at h))
]

insert_by_finished-nonempty : (m : Mission) (ms : List Mission) → insert_by_finished m ms ≢ []
unfolding insert_by_finished
insert_by_finished-nonempty m [] h = cc
insert_by_finished-nonempty m (n ∷ ns) h = ground arith

ids_of-update :
    (id : ℕ) (g : Mission → Bool) (ms : List Mission)
    → ids_of (Table.update (λ m. m.id) id g to_deleting ms) ≡ ids_of ms
unfolding Table.update
ids_of-update id g [] = refl
ids_of-update id g (m ∷ ms) = ground (arith, ids_of-update id g ms)

ids_of-mark_deleting :
    (ids : List ℕ) (ms : List Mission) → ids_of (mark_deleting ids ms) ≡ ids_of ms
unfolding mark_deleting
ids_of-mark_deleting [] ms = refl
ids_of-mark_deleting (id ∷ ids) ms =
    ids_of-mark_deleting ids _ ∙ ids_of-update id (λ m. status_eq m.status Status.done) ms

order_by_finished-empty :
    (ms : List Mission) → ids_of (take 1000 (order_by_finished ms)) ≡ [] → ms ≡ []
unfolding order_by_finished
order_by_finished-empty [] h = refl
order_by_finished-empty (m ∷ ms) h = by_list (insert_by_finished m (order_by_finished ms)) refl h
  where
    by_list :
        (l : List Mission)
        → insert_by_finished m (order_by_finished ms) ≡ l
        → ids_of (take 1000 l) ≡ []
        → m ∷ ms ≡ []
    by_list [] e g = absurd (insert_by_finished-nonempty m (order_by_finished ms) e)
    by_list (n ∷ ns) e g = cc

head_Has : (v : ℕ) (vs : List ℕ) → mem_id v (v ∷ vs) ≡ true
head_Has v vs = ground arith

length-ids_of : (ms : List Mission) → length (ids_of ms) ≡ length ms
length-ids_of [] = refl
length-ids_of (m ∷ ms) = ap suc (length-ids_of ms)

-- no row that the cleaner could pick at the time `now`
abbrev pub Clean : Config → ℕ → Db → Type 0
Clean c now db =
    All (λ (m : Mission). is_orphan_deleting db m ≡ false) db.missions
    × All (λ (m : Mission). is_new_victim c now db m ≡ false) db.missions

new_ids-Clean :
    (c : Config) (now : ℕ) (db : Db) → deleting_ids db ≡ [] → new_ids c now db ≡ [] → Clean c now db
unfolding deleting_ids new_ids
new_ids-Clean c now db d n = (
  None (is_orphan_deleting db) db.missions d,
  None (is_new_victim c now db) db.missions
      (rw (order_by_finished-empty (filter (is_new_victim c now db) db.missions) n) refl),
)

-- a batch at the time `now` that no fault meets, except in recalculations
pub record Undisturbed (now : ℕ) (b : Batch) : Type 0 where
  pub at_now : b.now_ms ≡ now
  pub live : b.canceled ≡ false
  pub reads_deleting : b.query_deleting_fails ≡ false
  pub reads_new : b.query_new_fails ≡ false
  pub marks : b.mark_fails ≡ false
  pub deletes : b.delete_fails ≡ false

module _ (c : Config) (now : ℕ) (b : Batch) (u : Undisturbed now b) (w : World) where
  -- a batch ends the sweep on a clean table, or deletes a mission and goes on
  data Progresses (t : Turn) : Type 0 where
    ends : t.continues ≡ false → Clean c now t.world.db → Progresses t
    deletes : t.continues ≡ true → length t.world.db.missions < length w.db.missions → Progresses t

  deleted :
      (v : ℕ) (vs : List ℕ) (db : Db)
      → ids_of db.missions ≡ ids_of w.db.missions
      → Has v w.db.missions
      → Progresses (turn c b w (some (v ∷ vs, db)))
  unfolding process_batch delete_missions
  deleted v vs db same has = Progresses.deletes refl (
      if_cases (λ (w' : World). length w'.db.missions < length w.db.missions) b.delete_fails _ _
        (λ t. absurd_eq _ t u.deletes)
        (λ t.
          let tables : ((recalc_all c.ttl b.recalc_fails (staging_ids_for_missions db (v ∷ vs))
                (delete_missions db (v ∷ vs))).missions
              ≡ after_delete (v ∷ vs) db.missions) =
            (recalc_all-tables c.ttl b.recalc_fails (staging_ids_for_missions db (v ∷ vs))
              (delete_missions db (v ∷ vs))).0 in
          let fewer : length (after_delete (v ∷ vs) db.missions) < length db.missions =
            length-after_delete v (v ∷ vs) db.missions (ground arith) (ap (mem_id v) same ∙ has) in
          let same_length : length db.missions ≡ length w.db.missions =
            sym (length-ids_of db.missions) ∙ ap length same ∙ length-ids_of w.db.missions in
          rw tables (omega arith)))

  on_new :
      (ids : List ℕ)
      → ids ≡ new_ids c now w.db
      → deleting_ids w.db ≡ []
      → Progresses (turn c b w (marked b w.db ids))
  unfolding new_ids
  on_new [] e d = Progresses.ends refl (new_ids-Clean c now w.db d (sym e))
  on_new (v ∷ vs) e d =
      if_cases (λ o. Progresses (turn c b w o)) b.mark_fails _ _ (λ t. absurd_eq _ t u.marks)
        (λ t. deleted v vs _ (ids_of-mark_deleting (v ∷ vs) w.db.missions) (
          Has-filter v (is_new_victim c now w.db) w.db.missions
            (Has-order v _ (Has-take v 1000 _ (ap (mem_id v) (sym e) ∙ head_Has v vs)))))

  on_deleting :
      (ids : List ℕ) → ids ≡ deleting_ids w.db → Progresses (turn c b w (picked c b w.db ids))
  unfolding deleting_ids
  on_deleting [] e =
      if_cases (λ o. Progresses (turn c b w o)) b.query_new_fails _ _
        (λ t. absurd_eq _ t u.reads_new)
        (λ t. on_new _ (ap (λ (n : ℕ). new_ids c n w.db) u.at_now) (sym e))
  on_deleting (v ∷ vs) e = deleted v vs w.db refl (
      Has-filter v (is_orphan_deleting w.db) w.db.missions
        (Has-take v 1000 _ (ap (mem_id v) (sym e) ∙ head_Has v vs)))

  run_batch-Progresses : Progresses (run_batch c b w)
  unfolding run_batch pick_victims
  run_batch-Progresses =
      if_cases Progresses b.canceled _ _ (λ t. absurd_eq _ t u.live)
        (λ t.
          if_cases (λ o. Progresses (turn c b w o)) b.query_deleting_fails _ _
            (λ t. absurd_eq _ t u.reads_deleting) (λ t. on_deleting _ refl))

-- A sweep reaches the end of its work: if no batch is cancelled or meets a failing query or
-- transaction, all run at the time `now`, and there are more of them than missions, then no mission
-- is left that a cleaner could pick at `now`: none deleting without a finalize intent, and none done,
-- without an intent, whose retention is over. Recalculations of expiries may fail.
pub run_once-Clean :
    (c : Config) (now : ℕ) (bs : List Batch) (w : World)
    → All (Undisturbed now) bs
    → length w.db.missions < length bs
    → Clean c now (run_once c bs w).db
unfolding run_once
run_once-Clean c now [] w u more = absurd (omega arith)
run_once-Clean c now (b ∷ bs) w u more = elim (run_batch-Progresses c now b u.0 w) [
  | Progresses.ends stop clean ↦
      if_cases (λ (v : World). Clean c now v.db) (run_batch c b w).continues _ _
        (λ t. absurd_eq _ t stop) (λ t. clean)
  | Progresses.deletes go fewer ↦
      if_cases (λ (v : World). Clean c now v.db) (run_batch c b w).continues _ _
        (λ t. run_once-Clean c now bs (run_batch c b w).world u.1 (omega arith))
        (λ t. absurd_eq _ go t)
]
