-- ===== src/StagingStore/UploadLock.antt =====
-- internal/stagingstore/upload_lock.go: one upload at a time for each staging id. An upload is known by
-- the number of its acquisition. The mutex is the order of the calls; Sweep collects the idle entries
-- under it and calls their callbacks after it, which is a call of its own here.
pub mod Exclusion
mod Tests
use letts.Prelude.{
  some, ◌+◌, ◌==◌, ◌++◌, none, any, suc, if◌then◌else◌, not, leb, filter, ◌∷◌, Option, Bool, map, ℕ,
  List,
}

pub record UploadEntry : Type 0 where
  pub id : ℕ
  pub upload : ℕ
  pub last_progress : ℕ

-- the table, the number of acquisitions, and the uploads whose callback a sweep is still to call
pub record UploadLock : Type 0 where
  pub entries : List UploadEntry
  pub acquired : ℕ
  pub to_fire : List ℕ

unfoldable pub is_locked : ℕ → UploadLock → Bool
is_locked id l = any (λ (e : UploadEntry). e.id == id) l.entries

abbrev pub added : ℕ → ℕ → UploadLock → UploadLock
added now id l = record l {
  entries = record { id = id; upload = l.acquired; last_progress = now } ∷ l.entries;
  acquired = suc l.acquired;
}

-- the upload's number, and the lock that it is in; none if another upload holds the id
unfoldable pub try_acquire : ℕ → ℕ → UploadLock → Option (ℕ × UploadLock)
unfolding is_locked
try_acquire now id l = if is_locked id l then none else some (l.acquired, added now id l)

-- the callback that TryAcquire returns deletes the entry of the id
unfoldable pub release : ℕ → UploadLock → UploadLock
release id l = record l { entries = filter (λ (e : UploadEntry). not (e.id == id)) l.entries }

unfoldable pub touch : ℕ → ℕ → UploadLock → UploadLock
touch now id l = record l {
  entries =
      map (λ (e : UploadEntry). if e.id == id then record e { last_progress = now } else e)
        l.entries;
}

-- now.Sub(e.lastProgress) >= idleTimeout
abbrev pub is_idle : ℕ → ℕ → UploadEntry → Bool
is_idle timeout now e = leb (e.last_progress + timeout) now

unfoldable pub sweep : ℕ → ℕ → UploadLock → UploadLock
sweep timeout now l = record l {
  entries = filter (λ (e : UploadEntry). not (is_idle timeout now e)) l.entries;
  to_fire =
      l.to_fire
      ++ map (λ (e : UploadEntry). e.upload)
          (filter (λ (e : UploadEntry). is_idle timeout now e) l.entries);
}
