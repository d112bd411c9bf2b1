-- ===== src/Storage/Staging/Lifecycle.antt =====
-- The life of a staging row under the statements of internal/storage/staging.go.
use mathlib.Core.Option
use letts.Prelude.Table.{affects-find, holds, HasKey, find-update}
use letts.Storage.Rows.{
  staging_finalizing, ok_inj, not_found, err, ok, Result, StagingState, StagingFile, Db,
}
use letts.Storage.Staging.{
  to_deleting, staging_affects, not_expired, not_deleted, has_expired, state_eq, update_staging,
  mark_staging_deleting_if_expired, mark_staging_deleting, in_use, mark_staging_complete_with_path,
  mark_staging_complete, update_staging_progress, in_phase_b, get_staging, set_staging,
}
use letts.Prelude.{
  ◌&&◌, none, Option, refl, false, inr, arith, ◌∙◌, inl, Bool-cases, ◌==◌, if◌then◌else◌, String,
  some, true, Bool, ◌≡◌, ℤ, ℕ,
}
use mathlib.Core.Path.{subst}

abbrev pub StagingKeys : Db → Type 0
StagingKeys db = HasKey (λ (s : StagingFile). s.staging_id) db.staging

-- the UPDATE statements of staging.go, with their arguments
pub data Statement : Type 0 where
  progress : ℕ → ℕ → ℕ → ℤ → Statement
  finish_upload : ℕ → String → ℕ → ℕ → ℤ → Statement
  finish_output : ℕ → String → Statement
  force_delete : ℕ → Statement
  expire : ℕ → ℕ → Statement

abbrev pub run : Statement → Db → Result Db
run (progress id bytes now expires) db = update_staging_progress db id bytes now expires
run (finish_upload id sha size now expires) db = mark_staging_complete db id sha size now expires
run (finish_output id path) db = mark_staging_complete_with_path db id path
run (force_delete id) db = mark_staging_deleting db id
run (expire id now) db = mark_staging_deleting_if_expired db id now

infix 40 ◌⟶◌
-- the moves of a state that the statements of staging.go make
pub data ◌⟶◌ : StagingState → StagingState → Type 0 where
  stay : {a : StagingState} → a ⟶ a
  uploaded : StagingState.uploading ⟶ StagingState.complete
  committed : {a : StagingState} → in_phase_b a ≡ true → a ⟶ StagingState.complete
  reaped : {a : StagingState} → in_use a ≡ true → a ⟶ StagingState.deleting

-- the row `j` is still there, and its state has followed the diagram
abbrev Follows : ℕ → StagingFile → Db → Type 0
Follows j s db' = (s' : StagingFile) × (get_staging db' j ≡ some s') × (s.state ⟶ s'.state)

module _ (db : Db) (id : ℕ) (guard : StagingFile → Bool) (f : StagingFile → StagingFile) where
  set_staging-Follows :
      (j : ℕ) (s : StagingFile)
      → ((r : StagingFile) → (f r).staging_id ≡ r.staging_id)
      → ((r : StagingFile) → guard r ≡ true → r.state ⟶ (f r).state)
      → get_staging db j ≡ some s
      → Follows j s (set_staging db id guard f)
  unfolding get_staging
  set_staging-Follows j s keeps moves found =
      by_test (guard s) refl (find-update (λ r. r.staging_id) id j guard f db.staging keeps)
    where
      by_test :
          (b : Bool)
          → guard s ≡ b
          → get_staging (set_staging db id guard f) j ≡ (
              if id == j
              then Option.map (λ r. if guard r then f r else r) (get_staging db id)
              else get_staging db j)
          → Follows j s (set_staging db id guard f)
      by_test true t q = elim (Bool-cases (id == j)) [
        | inl same ↦ (f s, q ∙ ground (arith, found), moves s t)
        | inr other ↦ (s, q ∙ rw other found, stay)
      ]
      by_test false t q = (s, q ∙ ground (arith, found), stay)

not_deleted-same : (db db' : Db) (o : Option StagingFile) → not_deleted db o ≡ ok db' → db ≡ db'
not_deleted-same db db' none h = cc
not_deleted-same db db' (some st) h = ground arith

not_expired-same : (db db' : Db) (o : Option StagingFile) → not_expired db o ≡ ok db' → db ≡ db'
not_expired-same db db' none h = cc
not_expired-same db db' (some st) h = ground arith

uploading_completes :
    (a : StagingState) → state_eq a StagingState.uploading ≡ true → a ⟶ StagingState.complete
uploading_completes StagingState.uploading t = uploaded
uploading_completes _ t = cc

module _ (db db' : Db) (j : ℕ) (s : StagingFile) (found : get_staging db j ≡ some s) where
  -- `UPDATE … WHERE staging_id = id AND guard`, refused if no row is affected
  update_staging-Follows :
      (id : ℕ) (guard : StagingFile → Bool) (f : StagingFile → StagingFile)
      → ((r : StagingFile) → (f r).staging_id ≡ r.staging_id)
      → ((r : StagingFile) → guard r ≡ true → r.state ⟶ (f r).state)
      → update_staging db id guard f ≡ ok db'
      → Follows j s db'
  update_staging-Follows id guard f keeps moves h =
      elim (Bool-cases (staging_affects db id guard)) [
        | inl t ↦
            subst (Follows j s) (ok_inj (rw t at h))
              (set_staging-Follows db id guard f j s keeps moves found)
        | inr t ↦ absurd (cc (rw t at h))
      ]

  unchanged-Follows : db ≡ db' → Follows j s db'
  unchanged-Follows e = subst (Follows j s) e (s, found, stay)

  -- Each of the five updating functions of storage/staging.go (UpdateStagingProgress,
  -- MarkStagingComplete, MarkStagingCompleteWithPath, MarkStagingDeleting and
  -- MarkStagingDeletingIfExpired), where it succeeds, leaves each row of the table in place, and in
  -- its state but for two moves: an uploading row or one that a finalize owns may become complete,
  -- and an uploading or complete row may become deleting. What finalize.go and staging_gc.go write to
  -- staging rows with statements of their own is not among the five.
  pub run-Follows : (st : Statement) → run st db ≡ ok db' → Follows j s db'
  unfolding update_staging_progress mark_staging_complete mark_staging_complete_with_path
      mark_staging_deleting mark_staging_deleting_if_expired
  run-Follows (progress id bytes now expires) h =
      update_staging-Follows id _ _ (λ r. refl) (λ r t. stay) h
  run-Follows (finish_upload id sha size now expires) h =
      update_staging-Follows id _ _ (λ r. refl) (λ r t. uploading_completes r.state t) h
  run-Follows (finish_output id path) h =
      update_staging-Follows id _ _ (λ r. refl) (λ r t. committed t) h
  run-Follows (force_delete id) h =
      elim (Bool-cases (staging_affects db id (λ r. in_use r.state))) [
        | inl t ↦
            subst (Follows j s) (ok_inj (rw t at h))
              (set_staging-Follows db id _ _ j s (λ r. refl) (λ r g. reaped g) found)
        | inr t ↦ unchanged-Follows (not_deleted-same db db' (get_staging db id) (rw t at h))
      ]
  run-Follows (expire id now) h =
      elim (Bool-cases
        (staging_affects db id (λ r. in_use r.state && has_expired now r.time_expires))) [
          | inl t ↦
              subst (Follows j s) (ok_inj (rw t at h))
                (set_staging-Follows db id _ _ j s (λ r. refl) (λ r g. reaped (ground arith)) found)
          | inr t ↦ unchanged-Follows (not_expired-same db db' (get_staging db id) (rw t at h))
        ]

-- the result of MarkStagingDeleting for the row that it names
abbrev pub deletion : Db → ℕ → Option StagingFile → Result Db
deletion db id none = err not_found
deletion db id (some s) =
    if in_phase_b s.state
    then err staging_finalizing
    else if in_use s.state
    then ok (set_staging db id (λ r. in_use r.state) to_deleting)
    else ok db

-- MarkStagingDeleting answers not_found for a missing row and staging_finalizing for a row that
-- phase B owns, changing nothing; it marks an uploading or complete row as deleting, and accepts a
-- row that is deleting already.
pub mark_staging_deleting_lem :
    (db : Db) (id : ℕ)
    → StagingKeys db
    → mark_staging_deleting db id ≡ deletion db id (get_staging db id)
unfolding mark_staging_deleting get_staging
mark_staging_deleting_lem db id u =
    rw (affects-find (λ s. s.staging_id) id (λ s. in_use s.state) db.staging u)
      (by_row (get_staging db id))
  where
    by_row :
        (o : Option StagingFile)
        → (if holds (λ s. s.staging_id) (λ s. in_use s.state) o
            then ok (set_staging db id (λ s. in_use s.state) to_deleting)
            else not_deleted db o)
          ≡ deletion db id o
    by_row none = refl
    by_row (some s) = ground arith

-- The garbage collector's statement never touches a row whose expiry is in the future, has been set
-- to infinity by a recalculation, or is the sentinel 0: such a row stays as it is, even if it was
-- selected as expired before.
pub mark_staging_deleting_if_expired-live :
    (db db' : Db) (id j now : ℕ) (s : StagingFile)
    → get_staging db j ≡ some s
    → has_expired now s.time_expires ≡ false
    → mark_staging_deleting_if_expired db id now ≡ ok db'
    → get_staging db' j ≡ some s
unfolding mark_staging_deleting_if_expired get_staging
mark_staging_deleting_if_expired-live db db' id j now s found live h =
    elim (Bool-cases (staging_affects db id guard)) [
      | inl t ↦
          subst (λ d. get_staging d j ≡ some s) (ok_inj (rw t at h))
            (find-update (λ r. r.staging_id) id j guard to_deleting db.staging (λ r. refl) ∙ by_key)
      | inr t ↦
          subst (λ d. get_staging d j ≡ some s)
            (not_expired-same db db' (get_staging db id) (rw t at h)) found
    ]
  where
    guard : StagingFile → Bool
    guard r = in_use r.state && has_expired now r.time_expires

    by_key :
        (if id == j
          then Option.map (λ r. if guard r then to_deleting r else r) (get_staging db id)
          else get_staging db j)
        ≡ some s
    by_key = ground (arith, found)
