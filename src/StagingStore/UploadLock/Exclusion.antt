-- ===== src/StagingStore/UploadLock/Exclusion.antt =====
-- The exclusion of uploads by the lock, and where it ends (internal/stagingstore/upload_lock.go).
use letts.Prelude.{
  ap, ◌∙◌, inr, inl, none, Bool-cases, some, ==_refl, if◌then◌else◌, Option, if_cases, map, refl,
  true, [], ◌≤◌, arith, ◌∷◌, ◌+◌, false, not, filter, ◌≡◌, ◌==◌, Bool, any, List, ℕ,
}
use letts.StagingStore.UploadLock.{
  touch, try_acquire, is_idle, added, UploadLock, sweep, UploadEntry, release, is_locked,
}

any-filter_gone :
    (id : ℕ) (es : List UploadEntry)
    → any (λ (e : UploadEntry). e.id == id) (filter (λ (e : UploadEntry). not (e.id == id)) es)
      ≡ false
any-filter_gone id [] = refl
any-filter_gone id (e ∷ es) = ground (arith, any-filter_gone id es)

any-filter :
    (id : ℕ) (p : UploadEntry → Bool) (es : List UploadEntry)
    → any (λ (e : UploadEntry). e.id == id) es ≡ false
    → any (λ (e : UploadEntry). e.id == id) (filter p es) ≡ false
any-filter id p [] h = refl
any-filter id p (e ∷ es) h = ground (arith, any-filter id p es)

-- no id occurs twice in the table
abbrev pub Exclusive : List UploadEntry → Type 0
Exclusive [] = Unit
Exclusive (e ∷ es) = (any (λ (d : UploadEntry). d.id == e.id) es ≡ false) × Exclusive es

pub data Call : Type 0 where
  acquiring : ℕ → ℕ → Call
  releasing : ℕ → Call
  touching : ℕ → ℕ → Call
  sweeping : ℕ → ℕ → Call

abbrev acquired_or_same : UploadLock → Option (ℕ × UploadLock) → UploadLock
acquired_or_same l none = l
acquired_or_same l (some (upload, l')) = l'

abbrev pub call : Call → UploadLock → UploadLock
call (acquiring now id) l = acquired_or_same l (try_acquire now id l)
call (releasing id) l = release id l
call (touching now id) l = touch now id l
call (sweeping timeout now) l = sweep timeout now l

abbrev pub calls : List Call → UploadLock → UploadLock
calls [] l = l
calls (c ∷ cs) l = calls cs (call c l)

Exclusive-filter :
    (p : UploadEntry → Bool) (es : List UploadEntry) → Exclusive es → Exclusive (filter p es)
Exclusive-filter p [] h = tt
Exclusive-filter p (e ∷ es) h =
    if_cases Exclusive (p e) _ _ (λ t. (any-filter e.id p es h.0, Exclusive-filter p es h.1))
      (λ t. Exclusive-filter p es h.1)

abbrev touched : ℕ → ℕ → UploadEntry → UploadEntry
touched now id e = if e.id == id then record e { last_progress = now } else e

touched-id : (now id : ℕ) (e : UploadEntry) → (touched now id e).id ≡ e.id
touched-id now id e = ground arith

any-touched :
    (now id k : ℕ) (es : List UploadEntry)
    → any (λ (d : UploadEntry). d.id == k) (map (touched now id) es)
      ≡ any (λ (d : UploadEntry). d.id == k) es
any-touched now id k [] = refl
any-touched now id k (e ∷ es) = ground (arith, any-touched now id k es)

Exclusive-touched :
    (now id : ℕ) (es : List UploadEntry) → Exclusive es → Exclusive (map (touched now id) es)
Exclusive-touched now id [] h = tt
Exclusive-touched now id (e ∷ es) h = (
  any-touched now id (touched now id e).id es
      ∙ ap (λ (k : ℕ). any (λ (d : UploadEntry). d.id == k) es) (touched-id now id e)
      ∙ h.0,
  Exclusive-touched now id es h.1,
)

call-Exclusive : (c : Call) (l : UploadLock) → Exclusive l.entries → Exclusive (call c l).entries
unfolding try_acquire release touch sweep is_locked
call-Exclusive (acquiring now id) l h = elim (Bool-cases (is_locked id l)) [
  | inl t ↦ rw t h
  | inr t ↦ rw t (t, h)
]
call-Exclusive (releasing id) l h = Exclusive-filter _ l.entries h
call-Exclusive (touching now id) l h = Exclusive-touched now id l.entries h
call-Exclusive (sweeping timeout now) l h = Exclusive-filter _ l.entries h

-- Through any calls of TryAcquire, release, Touch and Sweep, in any order, the table never holds two
-- uploads of one staging id.
pub calls-Exclusive :
    (cs : List Call) (l : UploadLock) → Exclusive l.entries → Exclusive (calls cs l).entries
calls-Exclusive [] l h = h
calls-Exclusive (c ∷ cs) l h = calls-Exclusive cs (call c l) (call-Exclusive c l h)

-- An upload that the janitor has expired still unlocks its id when it is released: the id is free at
-- first, an upload takes it, stays idle for the timeout and is swept, a second upload takes the id,
-- and then the first is released. The second upload was locking the id until that release, and after
-- it the id is free although the second upload has not been released.
pub release-unlocks_other :
    (l : UploadLock) (id t timeout now : ℕ)
    → is_locked id l ≡ false
    → t + timeout ≤ now
    → (is_locked id (sweep timeout now (added t id l)) ≡ false)
      × (is_locked id (added now id (sweep timeout now (added t id l))) ≡ true)
      × (is_locked id (release id (added now id (sweep timeout now (added t id l)))) ≡ false)
unfolding is_locked release sweep
release-unlocks_other l id t timeout now free idle = (
  ground (arith, any-filter id (λ (e : UploadEntry). not (is_idle timeout now e)) l.entries),
  ground (arith, ==_refl id),
  any-filter_gone id (added now id (sweep timeout now (added t id l))).entries,
)
