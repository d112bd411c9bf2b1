-- ===== src/StagingStore/UploadLock/Tests.antt =====
-- An empty table, and the theorem on it.
use letts.StagingStore.UploadLock.{release, added, sweep, UploadLock, is_locked}
use letts.StagingStore.UploadLock.Exclusion.{release-unlocks_other}
use letts.Prelude.{refl, arith, true, false, ◌≡◌, []}

abbrev empty : UploadLock
empty = record { entries = []; acquired = 0; to_fire = [] }

release-unlocks_other_example :
    (is_locked 7 (sweep 5 9 (added 1 7 empty)) ≡ false)
    × (is_locked 7 (added 9 7 (sweep 5 9 (added 1 7 empty))) ≡ true)
    × (is_locked 7 (release 7 (added 9 7 (sweep 5 9 (added 1 7 empty)))) ≡ false)
unfolding is_locked
release-unlocks_other_example = release-unlocks_other empty 7 1 5 9 refl (omega arith)
