-- ===== src/Storage/Missions/Transitions.antt =====
-- What the UPDATE statements of internal/storage/missions.go do to the rows.
use mathlib.Core.Option
use letts.Prelude.Table
use letts.Prelude.Table.{HasKey-update, HasKey, find-update, affects-find, holds}
use letts.Prelude.{
  none, sym, inr, inl, ◌∙◌, refl, Bool-cases, false, Option, arith, true, ◌==◌, if◌then◌else◌, ◌≢◌,
  Bool, some, ◌≡◌, ℕ,
}
use letts.Storage.Rows.{ok_inj, not_found, err, queued, ok, running, Mission, Db}
use letts.Storage.Missions.{status_eq, get_mission, mark_running, update_mission}
use mathlib.Core.Path.{subst}

abbrev pub MissionKeys : Db → Type 0
MissionKeys db = HasKey (λ (m : Mission). m.id) db.missions

-- the row that `mark_running` writes
abbrev pub started : ℕ → ℕ → ℕ → ℕ → Mission → Mission
started now_ms pid pgid proc_start m = record m {
  status = running;
  time_started = some now_ms;
  pid = some pid;
  pgid = some pgid;
  proc_starttime = some proc_start;
}

module _ (db : Db) (id : ℕ) (guard : Mission → Bool) (f : Mission → Mission) where
  abbrev updated : Db
  updated = record db { missions = Table.update (λ m. m.id) id guard f db.missions }

  -- the statement is decided by the one row with the key
  update_mission-eq :
      MissionKeys db
      → update_mission db id guard f
        ≡ (if holds (λ m. m.id) guard (get_mission db id) then ok updated else err not_found)
  unfolding get_mission
  update_mission-eq u = rw (affects-find (λ m. m.id) id guard db.missions u)

  get_mission-updated :
      (j : ℕ)
      → ((m : Mission) → (f m).id ≡ m.id)
      → get_mission updated j ≡ (
          if id == j
          then Option.map (λ m. if guard m then f m else m) (get_mission db id)
          else get_mission db j)
  unfolding get_mission
  get_mission-updated j keeps = find-update (λ m. m.id) id j guard f db.missions keeps

  -- what a statement that succeeded has done
  abbrev Updates : Db → Type 0
  Updates db' =
      (m : Mission) × (get_mission db id ≡ some m)
      × (guard m ≡ true)
      × (get_mission db' id ≡ some (f m))
      × ((j : ℕ) → j ≢ id → get_mission db' j ≡ get_mission db j)

  pub update_mission-eq-ok :
      (db' : Db)
      → MissionKeys db
      → ((m : Mission) → (f m).id ≡ m.id)
      → update_mission db id guard f ≡ ok db'
      → Updates db'
  update_mission-eq-ok db' u keeps h =
      by_row (get_mission db id) refl (sym (update_mission-eq u) ∙ h)
    where
      by_row :
          (o : Option Mission)
          → get_mission db id ≡ o
          → (if holds (λ m. m.id) guard o then ok updated else err not_found) ≡ ok db'
          → Updates db'
      by_row none e q = absurd (cc)
      by_row (some m) e q = elim (Bool-cases (guard m)) [
        | inl t ↦
            let same : updated ≡ db' = ok_inj (rw t at q) in
            subst Updates same (
              m,
              e,
              t,
              get_mission-updated id keeps ∙ rw (e, t) (ground arith),
              λ j ne. get_mission-updated j keeps ∙ ground arith,
            )
        | inr t ↦ absurd (cc (rw t at q))
      ]

  pub update_mission-refused :
      (m : Mission)
      → MissionKeys db
      → get_mission db id ≡ some m
      → guard m ≡ false
      → update_mission db id guard f ≡ err not_found
  update_mission-refused m u e t = update_mission-eq u ∙ rw (e, t)

module _ (db db' : Db) (id now pid pgid start : ℕ) where
  -- If MarkRunning succeeds, the row was there and queued, and it now is running with the given
  -- start time and process numbers; its other columns and all other rows are kept.
  pub mark_running-eq-ok :
      MissionKeys db
      → mark_running db id now pid pgid start ≡ ok db'
      → (m : Mission) × (get_mission db id ≡ some m)
        × (m.status ≡ queued)
        × (get_mission db' id ≡ some (started now pid pgid start m))
        × ((j : ℕ) → j ≢ id → get_mission db' j ≡ get_mission db j)
  unfolding mark_running
  mark_running-eq-ok u h =
      let (m, found, was, is, others) = update_mission-eq-ok db id _ _ db' u (λ m. refl) h in
      (m, found, ground arith, is, others)

  MissionKeys-mark_running :
      MissionKeys db → mark_running db id now pid pgid start ≡ ok db' → MissionKeys db'
  unfolding mark_running
  MissionKeys-mark_running u h =
      by_test (Table.affects (λ m. m.id) id (λ m. status_eq m.status queued) db.missions) h
    where
      by_test :
          (b : Bool)
          → (if b
              then ok (updated db id (λ m. status_eq m.status queued) (started now pid pgid start))
              else err not_found)
            ≡ ok db'
          → MissionKeys db'
      by_test true q =
          subst MissionKeys (ok_inj q)
            (HasKey-update (λ m. m.id) id _ (started now pid pgid start) db.missions (λ m. refl) u)
      by_test false q = absurd (cc)

  -- A mission is claimed at most once: after a MarkRunning of a row that succeeded, every further
  -- MarkRunning of that row is refused with not_found, and the primary key still holds.
  pub mark_running_once :
      (now' pid' pgid' start' : ℕ)
      → MissionKeys db
      → mark_running db id now pid pgid start ≡ ok db'
      → (mark_running db' id now' pid' pgid' start' ≡ err not_found) × MissionKeys db'
  unfolding mark_running
  mark_running_once now' pid' pgid' start' u h =
      let (m, found, was, is, others) = mark_running-eq-ok u h in
      let u' : MissionKeys db' = MissionKeys-mark_running u h in
      (update_mission-refused db' id _ _ (started now pid pgid start m) u' is refl, u')
