-- ===== src/Storage/Refs/Survival.antt =====
-- The recalculated expiry and the garbage collector's statement together
-- (internal/storage/refs.go, internal/storage/staging.go).
use mathlib.Core.List.{Memᴰ}
use letts.Prelude.Table.{find-update}
use letts.Storage.Rows.{ok_inj, ok, Mission, StagingFile, Db}
use letts.Prelude.{refl, ==_refl, arith, ◌∙◌, ap, max_int64, ◌<◌, true, some, ◌≡◌, ℤ, ℕ}
use letts.Storage.Refs.{is_active, referencing, expiry, recalc_staging_ttl, TtlPolicy}
use letts.Storage.Staging.{mark_staging_deleting_if_expired, set_staging, in_use, get_staging}
use mathlib.Core.Path.{subst}
use letts.Storage.Staging.Lifecycle.{mark_staging_deleting_if_expired-live}
use letts.Storage.Refs.Expiry.{recalc_staging_ttl-active}

module _ (db db' : Db) (id : ℕ) (p : TtlPolicy) (exp : ℤ)
    (recalc : recalc_staging_ttl db id p ≡ ok (exp, db')) where
  recalc_staging_ttl-row :
      (s : StagingFile)
      → get_staging db id ≡ some s
      → in_use s.state ≡ true
      → get_staging db' id ≡ some (record s { time_expires = exp })
  unfolding recalc_staging_ttl get_staging
  recalc_staging_ttl-row s found used =
      let exp' = expiry db id p s in
      let write = λ (r : StagingFile). record r { time_expires = exp' } in
      let e : (exp', set_staging db id (λ r. in_use r.state) write) ≡ (exp, db') =
        ok_inj (rw found at recalc) in
      let written : get_staging db' id ≡ some (write s) =
        subst (λ d. get_staging d id ≡ some (write s)) (ap (λ (r : ℤ × Db). r.1) e)
          (find-update (λ r. r.staging_id) id id (λ r. in_use r.state) write db.staging (λ r. refl)
            ∙ rw (==_refl id) (rw (found, used) refl)) in
      subst (λ (x : ℤ). get_staging db' id ≡ some (record s { time_expires = x }))
        (ap (λ (r : ℤ × Db). r.0) e) written

  -- A file in use that a queued, running or deleting mission references survives the garbage
  -- collector once its expiry is recalculated: the collector's statement, run at any time before the
  -- end of int64, leaves its row in place and its state as it was.
  pub active_file_survives :
      (db'' : Db) (now : ℕ) (s : StagingFile) (m : Mission)
      → get_staging db id ≡ some s
      → in_use s.state ≡ true
      → Memᴰ m (referencing db id)
      → is_active m.status ≡ true
      → now < max_int64
      → mark_staging_deleting_if_expired db' id now ≡ ok db''
      → (s' : StagingFile) × (get_staging db'' id ≡ some s') × (s'.state ≡ s.state)
  active_file_survives db'' now s m found used mem active early gc = (
    record s { time_expires = exp },
    mark_staging_deleting_if_expired-live db' db'' id id now (record s { time_expires = exp })
        (recalc_staging_ttl-row s found used)
        (rw (recalc_staging_ttl-active db db' id p exp recalc m mem active) (ground arith)) gc,
    refl,
  )
