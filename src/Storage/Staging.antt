-- ===== src/Storage/Staging.antt =====
-- internal/storage/staging.go: the life of a staging file. A statement that changes rows returns
-- the new table, or the error that the function returns.
pub mod Lifecycle
mod Tests
use mathlib.Core.Bool.{◌&&◌, ◌||◌}
use letts.Prelude.Table
use letts.Storage.Rows.{
  StagingState, uploading, pending_output, committing, complete, StagingFile, Db, not_found,
  constraint, staging_finalizing, Result, ok, err,
}
use letts.Prelude.{
  leb_ℤ, [], pos, ◌∷◌, ◌==◌, none, false, ◌++◌, str_eq, ltb_ℤ, true, is_some, first, some, ℤ, ℕ,
  if◌then◌else◌, String, Option, Bool,
}

abbrev pub state_eq : StagingState → StagingState → Bool
state_eq StagingState.uploading StagingState.uploading = true
state_eq StagingState.pending_output StagingState.pending_output = true
state_eq StagingState.committing StagingState.committing = true
state_eq StagingState.complete StagingState.complete = true
state_eq StagingState.deleting StagingState.deleting = true
state_eq _ _ = false

unfoldable pub get_staging : Db → ℕ → Option StagingFile
get_staging db id = Table.find (λ s. s.staging_id) id db.staging

unfoldable pub insert_staging : Db → StagingFile → Result Db
unfolding get_staging
insert_staging db s =
    if is_some (get_staging db s.staging_id)
    then err constraint
    else ok (record db { staging = db.staging ++ (s ∷ []) })

-- one row's UPDATE, and whether a row is affected
abbrev pub staging_affects : Db → ℕ → (StagingFile → Bool) → Bool
staging_affects db id guard = Table.affects (λ s. s.staging_id) id guard db.staging

abbrev pub set_staging : Db → ℕ → (StagingFile → Bool) → (StagingFile → StagingFile) → Db
set_staging db id guard f = record db {
  staging = Table.update (λ s. s.staging_id) id guard f db.staging;
}

abbrev pub update_staging : Db → ℕ → (StagingFile → Bool) → (StagingFile → StagingFile) → Result Db
update_staging db id guard f =
    if staging_affects db id guard then ok (set_staging db id guard f) else err not_found

unfoldable pub update_staging_progress : Db → ℕ → ℕ → ℕ → ℤ → Result Db
update_staging_progress db id bytes now_ms expires_ms =
    update_staging db id (λ s. state_eq s.state uploading)
      (λ s. record s { bytes_received = bytes; time_updated = now_ms; time_expires = expires_ms })

unfoldable pub mark_staging_complete : Db → ℕ → String → ℕ → ℕ → ℤ → Result Db
mark_staging_complete db id sha256 size now_ms expires_ms =
    update_staging db id (λ s. state_eq s.state uploading)
      (λ s. record s {
        state = complete;
        sha256 = sha256;
        size = size;
        bytes_received = size;
        time_updated = now_ms;
        time_expires = expires_ms;
      })

abbrev pub in_phase_b : StagingState → Bool
in_phase_b st = state_eq st pending_output || state_eq st committing

abbrev pub in_use : StagingState → Bool
in_use st = state_eq st uploading || state_eq st complete

unfoldable pub mark_staging_complete_with_path : Db → ℕ → String → Result Db
mark_staging_complete_with_path db id path =
    update_staging db id (λ s. in_phase_b s.state) (λ s. record s { state = complete; path = path })

abbrev pub to_deleting : StagingFile → StagingFile
to_deleting s = record s { state = StagingState.deleting }

-- no row was affected: a missing row, a row that is deleting already, or one in phase B
abbrev not_deleted : Db → Option StagingFile → Result Db
not_deleted db none = err not_found
not_deleted db (some st) =
    if state_eq st.state StagingState.deleting then ok db else err staging_finalizing

unfoldable pub mark_staging_deleting : Db → ℕ → Result Db
mark_staging_deleting db id =
    if staging_affects db id (λ s. in_use s.state)
    then ok (set_staging db id (λ s. in_use s.state) to_deleting)
    else not_deleted db (get_staging db id)

-- time_expires > 0 AND time_expires <= now
abbrev pub has_expired : ℕ → ℤ → Bool
has_expired now_ms t = ltb_ℤ (pos 0) t && leb_ℤ t (pos now_ms)

abbrev pub not_expired : Db → Option StagingFile → Result Db
not_expired db none = err not_found
not_expired db (some st) = if in_phase_b st.state then err staging_finalizing else ok db

unfoldable pub mark_staging_deleting_if_expired : Db → ℕ → ℕ → Result Db
mark_staging_deleting_if_expired db id now_ms =
    let guard = λ (s : StagingFile). in_use s.state && has_expired now_ms s.time_expires in
    if staging_affects db id guard
    then ok (set_staging db id guard to_deleting)
    else not_expired db (get_staging db id)

-- WHERE state='complete' AND sha256=? AND size=? LIMIT 1
unfoldable pub lookup_staging_by_content : Db → String → ℕ → Option StagingFile
lookup_staging_by_content db sha256 size =
    first (λ s. state_eq s.state complete && (str_eq s.sha256 sha256 && s.size == size)) db.staging
