-- ===== src/Cleanup/StagingGc/Survival.antt =====
-- What a cycle of the staging garbage collector leaves alone (internal/cleanup/staging_gc.go).
use letts.Prelude.Table
use letts.Storage.Rows.{Result, StagingState, Db, StagingFile}
use letts.Prelude.{
  sym, absurd_eq, none, Option, refl, ==_iff, inl, inr, Bool-cases, ◌∙◌, str_eq, not, true, ◌||◌,
  [], arith, false, ◌==◌, if_cases, ◌&&◌, All, some, ◌∷◌, List, String, Bool, ◌≡◌, ℕ,
}
use letts.Cleanup.StagingGc.{
  marked, each_row, Config, Cycle, expire_row, delete_row, has_path, World,
}
use letts.Storage.Staging.{
  to_deleting, staging_affects, not_expired, state_eq, mark_staging_deleting_if_expired,
  set_staging, has_expired, get_staging, in_use,
}
use letts.Storage.Staging.Lifecycle.{StagingKeys}
use letts.Prelude.Table.{HasKey-delete, HasKey-update, find-update, find-delete}
use letts.Storage.Refs.{milliseconds}
use mathlib.Core.Path.{subst}

-- the row s, except for its expiry
abbrev pub SameFile : StagingFile → StagingFile → Type 0
SameFile s s' = s' ≡ record s { time_expires = s'.time_expires }

-- the row may be marked as deleting at the time `now`
abbrev pub is_reapable : ℕ → StagingFile → Bool
is_reapable now_ms s = in_use s.state && has_expired now_ms s.time_expires

-- no other row has the path
abbrev pub OwnsPath : ℕ → String → List StagingFile → Type 0
OwnsPath j path rows =
    All (λ (r : StagingFile). (r.staging_id == j) || not (str_eq r.path path) ≡ true) rows

abbrev pub Rows : ℕ → String → Db → Type 0
Rows j path db = StagingKeys db × OwnsPath j path db.staging

OwnsPath-update :
    (j id : ℕ) (path : String) (g : StagingFile → Bool) (f : StagingFile → StagingFile)
    (rows : List StagingFile)
    → ((r : StagingFile) → ((f r).staging_id ≡ r.staging_id) × ((f r).path ≡ r.path))
    → OwnsPath j path rows
    → OwnsPath j path (Table.update (λ s. s.staging_id) id g f rows)
unfolding Table.update
OwnsPath-update j id path g f [] keeps h = tt
OwnsPath-update j id path g f (r ∷ rows) keeps h =
    (ground (arith, keeps r, h.0), OwnsPath-update j id path g f rows keeps h.1)

OwnsPath-delete :
    (j id : ℕ) (path : String) (rows : List StagingFile)
    → OwnsPath j path rows
    → OwnsPath j path (Table.delete (λ s. s.staging_id) id rows)
unfolding Table.delete
OwnsPath-delete j id path [] h = tt
OwnsPath-delete j id path (r ∷ rows) h =
    if_cases (OwnsPath j path) (r.staging_id == id) _ _ (λ t. OwnsPath-delete j id path rows h.1)
      (λ t. (h.0, OwnsPath-delete j id path rows h.1))

-- the row that the cycle must spare
pub record Spared (now_ms j : ℕ) (s : StagingFile) (w : World) : Type 0 where
  pub row :
      (s' : StagingFile) × (get_staging w.db j ≡ some s')
      × SameFile s s'
      × (is_reapable now_ms s' ≡ false)
  pub keys : StagingKeys w.db
  pub owns : OwnsPath j s.path w.db.staging
  pub on_disk : has_path s.path w.disk.sources ≡ true

module _ (now_ms j : ℕ) (s : StagingFile) where
  -- what an UPDATE of the row j may do
  abbrev pub Harmless : (StagingFile → Bool) → (StagingFile → StagingFile) → Type 0
  Harmless g f =
      (r : StagingFile)
      → SameFile s r
      → is_reapable now_ms r ≡ false
      → g r ≡ true
      → SameFile s (f r) × (is_reapable now_ms (f r) ≡ false)

  pub set_staging-Spared :
      (id : ℕ) (g : StagingFile → Bool) (f : StagingFile → StagingFile) (w : World)
      → ((r : StagingFile) → ((f r).staging_id ≡ r.staging_id) × ((f r).path ≡ r.path))
      → (id ≡ j → Harmless g f)
      → Spared now_ms j s w
      → Spared now_ms j s (record w { db = set_staging w.db id g f })
  unfolding get_staging
  set_staging-Spared id g f w keeps harmless k =
      let (s', found, same, live) = k.row in
      let next = find-update (λ r. r.staging_id) id j g f w.db.staging (λ r. (keeps r).0) in
      let rest : (t : StagingFile)
          → get_staging (set_staging w.db id g f) j ≡ some t
          → SameFile s t
          → is_reapable now_ms t ≡ false
          → Spared now_ms j s (record w { db = set_staging w.db id g f }) =
        λ t e a b. record {
          row = (t, e, a, b);
          keys = HasKey-update (λ r. r.staging_id) id g f w.db.staging (λ r. (keeps r).0) k.keys;
          owns = OwnsPath-update j id s.path g f w.db.staging keeps k.owns;
          on_disk = k.on_disk;
        } in
      elim (Bool-cases (id == j)) [
        | inr other ↦ rest s' (next ∙ rw other found) same live
        | inl here ↦
            let e : id ≡ j = (==_iff id j).0 here in
            elim (Bool-cases (g s')) [
              | inl t ↦
                  let (a, b) = harmless e s' same live t in
                  rest (f s') (next ∙ rw here (rw e (rw found (rw t refl)))) a b
              | inr t ↦ rest s' (next ∙ rw here (rw e (rw found (rw t refl)))) same live
            ]
      ]

  pub delete_row-Spared :
      (id : ℕ) (w : World)
      → (id == j) ≡ false
      → Spared now_ms j s w
      → Spared now_ms j s (record w { db = delete_row w.db id })
  unfolding get_staging
  delete_row-Spared id w other k =
      let (s', found, same, live) = k.row in
      record {
        row = (s', find-delete (λ r. r.staging_id) id j w.db.staging ∙ rw other found, same, live);
        keys = HasKey-delete (λ r. r.staging_id) id w.db.staging k.keys;
        owns = OwnsPath-delete j id s.path w.db.staging k.owns;
        on_disk = k.on_disk;
      }

marked-not_expired : (db : Db) (o : Option StagingFile) → marked db (not_expired db o) ≡ db
marked-not_expired db none = refl
marked-not_expired db (some st) = ground arith

module _ (g : Config) (y : Cycle) (j : ℕ) (s : StagingFile) where
  abbrev pub SparedIn : World → Type 0
  SparedIn = Spared (milliseconds y.now) j s

  abbrev pub SparedDb : World → Db → Type 0
  SparedDb w db = SparedIn (record w { db = db })

  -- the collector's statement does not fit the row
  pub expire_row-Spared :
      (r : StagingFile) (w : World) → SparedIn w → SparedDb w (expire_row y r w.db)
  unfolding expire_row mark_staging_deleting_if_expired
  expire_row-Spared r w k =
      if_cases (SparedDb w) (state_eq r.state StagingState.uploading && y.is_locked r.staging_id) _
        _ (λ t. k)
        (λ t.
          if_cases (SparedDb w) (y.mark_fails r.staging_id) _ _ (λ t. k)
            (λ t.
              if_cases (λ (o : Result Db). SparedDb w (marked w.db o))
                (staging_affects w.db r.staging_id fits) _ _
                (λ t.
                  set_staging-Spared (milliseconds y.now) j s r.staging_id fits to_deleting w
                    (λ q. (refl, refl)) (λ e q same live t. absurd_eq _ t live) k)
                (λ t.
                  subst (SparedDb w) (sym (marked-not_expired w.db (get_staging w.db r.staging_id)))
                    k)))
    where
      fits : StagingFile → Bool
      fits = is_reapable (milliseconds y.now)

  pub each_row-Spared :
      (f : StagingFile → World → World) (P : StagingFile → Type 0)
      → ((r : StagingFile) (w : World) → P r → SparedIn w → SparedIn (f r w))
      → (rows : List StagingFile) (w : World) → All P rows
      → SparedIn w
      → SparedIn (each_row f rows w)
  unfolding each_row
  each_row-Spared f P step [] w p k = k
  each_row-Spared f P step (r ∷ rows) w p k =
      each_row-Spared f P step rows (f r w) p.1 (step r w p.0 k)
