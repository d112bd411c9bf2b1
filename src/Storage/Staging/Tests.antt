-- ===== src/Storage/Staging/Tests.antt =====
-- Three staging files, and the theorems on them.
use letts.Prelude.Table
use letts.Storage.Rows.{staging_finalizing, ok, err, StagingFile, Db, StagingState}
use letts.Prelude.{none, refl, some, ℤ, ◌∷◌, ◌≡◌, ℕ, [], pos}
use letts.Storage.Staging.Lifecycle.{
  expire, mark_staging_deleting_lem, run-Follows, ◌⟶◌, StagingKeys,
}
use letts.Storage.Staging.{mark_staging_deleting, mark_staging_deleting_if_expired, get_staging}

abbrev file : ℕ → StagingState → ℤ → StagingFile
file n st expires = record {
  staging_id = n;
  state = st;
  sha256 = "ab";
  size = 3;
  bytes_received = 3;
  path = "staging/f";
  time_created = 10;
  time_updated = 10;
  time_expires = expires;
  downloaded_at = none;
}

abbrev db : Db
db = record {
  missions = [];
  staging =
      file 1 StagingState.complete (pos 50)
      ∷ file 2 StagingState.committing (pos 50)
      ∷ file 3 StagingState.uploading (pos 0)
      ∷ [];
  refs = [];
  intents = [];
}

db-keys : StagingKeys db
unfolding Table.find
db-keys = (refl, (refl, (refl, tt)))

abbrev reaped_db : Db
reaped_db = record db {
  staging =
      file 1 StagingState.deleting (pos 50)
      ∷ file 2 StagingState.committing (pos 50)
      ∷ file 3 StagingState.uploading (pos 0)
      ∷ [];
}

expires : mark_staging_deleting_if_expired db 1 60 ≡ ok reaped_db
unfolding mark_staging_deleting_if_expired Table.update Table.affects
expires = refl

run-Follows_example :
    (s' : StagingFile) × (get_staging reaped_db 1 ≡ some s') × (StagingState.complete ⟶ s'.state)
unfolding get_staging Table.find
run-Follows_example =
    run-Follows db reaped_db 1 (file 1 StagingState.complete (pos 50)) refl (expire 1 60) expires

mark_staging_deleting_lem_example : mark_staging_deleting db 2 ≡ err staging_finalizing
unfolding get_staging Table.find
mark_staging_deleting_lem_example = mark_staging_deleting_lem db 2 db-keys
