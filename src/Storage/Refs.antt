-- ===== src/Storage/Refs.antt =====
-- internal/storage/refs.go: references from missions to staging files, and the expiry that they
-- give a file. A duration is its number of nanoseconds.
pub mod Expiry
pub mod Survival
mod Tests
use letts.Prelude.Table
use letts.Storage.Rows.{
  Status, Kind, Outcome, RefKind, Mission, StagingFile, StagingRef, Db, constraint, not_found,
  Result, ok, err,
}
use letts.Storage.Missions.{get_mission, status_eq}
use letts.Storage.Staging.{get_staging, set_staging, in_use}
use letts.Prelude.{
  ◌++◌, str_eq, any, eqb_ℤ, not, [], ◌==◌, none, ◌&&◌, map, max_int64, ltb_ℤ, is_some, ◌∷◌, ◌||◌,
  pos, ◌/◌, true, some, filter, false, add_int64, take, Bool, ℤ, Option, ℕ, if◌then◌else◌, negsuc,
  List,
}

abbrev pub ref_kind_eq : RefKind → RefKind → Bool
ref_kind_eq RefKind.input RefKind.input = true
ref_kind_eq RefKind.output RefKind.output = true
ref_kind_eq RefKind.script RefKind.script = true
ref_kind_eq _ _ = false

-- both foreign keys, and the unique index of (mission_id, ref_kind, role), which the primary key
-- implies
unfoldable pub insert_ref : Db → StagingRef → Result Db
insert_ref db r =
    if is_some (get_mission db r.mission_id)
      && (is_some (get_staging db r.staging_id)
          && not (
              any
                (λ (q : StagingRef).
                  q.mission_id == r.mission_id
                  && (ref_kind_eq q.ref_kind r.ref_kind && str_eq q.role r.role))
                db.refs))
    then ok (record db { refs = db.refs ++ (r ∷ []) })
    else err constraint

unfoldable pub refs_by_mission : Db → ℕ → List StagingRef
refs_by_mission db mission_id = filter (λ r. r.mission_id == mission_id) db.refs

unfoldable pub refs_by_staging : Db → ℕ → List StagingRef
refs_by_staging db staging_id = filter (λ r. r.staging_id == staging_id) db.refs

pub record TtlPolicy : Type 0 where
  pub mission_success : ℕ
  pub mission_failed : ℕ
  pub exec_success : ℕ
  pub exec_failed : ℕ
  pub staging_ttl : ℕ
  pub download_grace : ℕ

abbrev pub milliseconds : ℕ → ℕ
milliseconds d = d / 1000000

abbrev is_success : Option Outcome → Bool
is_success (some Outcome.success) = true
is_success _ = false

abbrev is_exec : Kind → Bool
is_exec Kind.exec = true
is_exec Kind.mission = false

-- the retention of a finished mission
unfoldable pub ttl_for : TtlPolicy → Kind → Option Outcome → ℕ
ttl_for p kind outcome =
    if is_success outcome
    then (if is_exec kind then p.exec_success else p.mission_success)
    else (if is_exec kind then p.exec_failed else p.mission_failed)

abbrev pub is_active : Status → Bool
is_active st =
    status_eq st Status.queued || (status_eq st Status.running || status_eq st Status.deleting)

-- the variables of the loop over the referencing missions
pub record Scan : Type 0 where
  pub max_exp : ℤ
  pub has_refs : Bool
  pub is_infinity : Bool

abbrev pub raise_to : ℤ → ℤ → ℤ
raise_to max exp = if ltb_ℤ max exp then exp else max

abbrev finished_exp : TtlPolicy → Mission → Option ℕ → ℤ → ℤ
finished_exp p m none max = max
finished_exp p m (some finished) max =
    raise_to max (add_int64 finished (milliseconds (ttl_for p m.kind m.outcome)))

unfoldable pub scan_mission : TtlPolicy → Scan → Mission → Scan
unfolding ttl_for
scan_mission p s m =
    if is_active m.status
    then record s { has_refs = true; is_infinity = true }
    else record s { has_refs = true; max_exp = finished_exp p m m.time_finished s.max_exp }

unfoldable pub scan_missions : TtlPolicy → Scan → List Mission → Scan
scan_missions p s [] = s
scan_missions p s (m ∷ ms) = scan_missions p (scan_mission p s m) ms

-- JOIN missions m ON m.mission_id = r.mission_id
unfoldable pub join_missions : Db → List StagingRef → List Mission
join_missions db [] = []
join_missions db (r ∷ rs) =
    let rest = join_missions db rs in
    elim (get_mission db r.mission_id) [ none ↦ rest | some m ↦ m ∷ rest ]

unfoldable pub referencing : Db → ℕ → List Mission
unfolding refs_by_staging
referencing db staging_id = join_missions db (refs_by_staging db staging_id)

-- without references: staging_ttl, cut to downloaded_grace once the file was downloaded
abbrev after_download : ℤ → TtlPolicy → Option ℕ → ℤ
after_download kept p none = kept
after_download kept p (some at) =
    let grace = add_int64 at (milliseconds p.download_grace) in
    if ltb_ℤ grace kept then grace else kept

unfoldable pub orphan_exp : TtlPolicy → StagingFile → ℤ
orphan_exp p st =
    after_download (add_int64 st.time_created (milliseconds p.staging_ttl)) p st.downloaded_at

unfoldable pub new_exp : TtlPolicy → StagingFile → Scan → ℤ
new_exp p st s =
    if s.is_infinity then pos max_int64 else if s.has_refs then s.max_exp else orphan_exp p st

abbrev pub no_refs : Scan
no_refs = record { max_exp = negsuc 0; has_refs = false; is_infinity = false }

abbrev pub expiry : Db → ℕ → TtlPolicy → StagingFile → ℤ
expiry db staging_id p st = new_exp p st (scan_missions p no_refs (referencing db staging_id))

abbrev pub recalculated : Db → ℕ → TtlPolicy → Option StagingFile → Result (ℤ × Db)
recalculated db staging_id p none = err not_found
recalculated db staging_id p (some st) =
    let exp = expiry db staging_id p st in
    ok (exp, set_staging db staging_id (λ s. in_use s.state) (λ s. record s { time_expires = exp }))

-- the new time_expires, and the table with it where the row is not in phase B or deleting
unfoldable pub recalc_staging_ttl : Db → ℕ → TtlPolicy → Result (ℤ × Db)
recalc_staging_ttl db staging_id p = recalculated db staging_id p (get_staging db staging_id)

-- WHERE time_expires=0 LIMIT ?
unfoldable pub find_staging_needing_recalc : Db → ℕ → List ℕ
find_staging_needing_recalc db limit =
    take limit (map (λ s. s.staging_id) (filter (λ s. eqb_ℤ s.time_expires (pos 0)) db.staging))
