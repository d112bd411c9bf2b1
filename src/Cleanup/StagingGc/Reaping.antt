-- ===== src/Cleanup/StagingGc/Reaping.antt =====
-- The passes over tombstones leave the other files alone (internal/cleanup/staging_gc.go).
use letts.Prelude.Table
use letts.Prelude.{
  absurd_eq, not, if◌then◌else◌, Option, ◌||◌, any, inr, sym, ◌∙◌, some_inj, ap, ==_iff, inl,
  Bool-cases, if_cases, eq_iff, arith, [], filter, true, zero, ◌∷◌, suc, some, none, false, take,
  ◌≡◌, str_eq, ◌==◌, Bool, All, List, ℕ, String,
}
use letts.Storage.Rows.{StagingState, StagingFile}
use letts.Prelude.Table.{holds, affects-find, HasKey}
use letts.Cleanup.StagingGc.Survival.{
  delete_row-Spared, each_row-Spared, SparedDb, SparedIn, OwnsPath,
}
use letts.Cleanup.StagingGc.{
  in_grace, batch_size_of, unlink_entry, is_tombstone, delete_deleting, World, Entry, deleting_rows,
  unlink_tombstone, tombstone_row, tombstone_deleting, unlink_entries, Cycle, Config, without_path,
  has_path,
}
use letts.Storage.Staging.{staging_affects, get_staging, state_eq}
use letts.Storage.Refs.{milliseconds}

has_path-without_path :
    (p r : String) (ps : List String)
    → str_eq r p ≡ false
    → has_path p ps ≡ true
    → has_path p (without_path r ps) ≡ true
has_path-without_path p r [] d h = cc
has_path-without_path p r (q ∷ ps) d h =
    ground (arith, has_path-without_path p r ps d, eq_iff q p, eq_iff q r, eq_iff r p)

-- a row other than j, with another path
abbrev pub Apart : ℕ → String → StagingFile → Type 0
Apart j path r = ((r.staging_id == j) ≡ false) × (str_eq r.path path ≡ false)

module _ (j : ℕ) (path : String) where
  pub Apart-take :
      (n : ℕ) (rows : List StagingFile) → All (Apart j path) rows → All (Apart j path) (take n rows)
  Apart-take zero rows h = tt
  Apart-take (suc n) [] h = tt
  Apart-take (suc n) (r ∷ rows) h = (h.0, Apart-take n rows h.1)

  Apart-none :
      (p : StagingFile → Bool) (rows : List StagingFile)
      → Table.find (λ r. r.staging_id) j rows ≡ none
      → OwnsPath j path rows
      → All (Apart j path) (filter p rows)
  unfolding Table.find
  Apart-none p [] h o = tt
  Apart-none p (r ∷ rows) h o =
      let rest = Apart-none p rows (ground arith) o.1 in
      if_cases (All (Apart j path)) (p r) _ _ (λ t. ((ground arith, ground (arith, o.0)), rest))
        (λ t. rest)

  pub Apart-filter :
      (p : StagingFile → Bool) (rows : List StagingFile) (s : StagingFile)
      → HasKey (λ (r : StagingFile). r.staging_id) rows
      → Table.find (λ r. r.staging_id) j rows ≡ some s
      → p s ≡ false
      → OwnsPath j path rows
      → All (Apart j path) (filter p rows)
  unfolding Table.find
  Apart-filter p [] s u found fails o = tt
  Apart-filter p (r ∷ rows) s u found fails o = elim (Bool-cases (r.staging_id == j)) [
    | inl here ↦
        let key : r.staging_id ≡ j = (==_iff r.staging_id j).0 here in
        let gone : p r ≡ false = ap p (some_inj (rw here at found)) ∙ fails in
        rw gone (
          Apart-none p rows (ap (λ (k : ℕ). Table.find (λ r. r.staging_id) k rows) (sym key) ∙ u.0)
            o.1)
    | inr other ↦
        let rest = Apart-filter p rows s u.1 (rw other at found) fails o.1 in
        if_cases (All (Apart j path)) (p r) _ _ (λ t. ((other, ground (arith, o.0)), rest))
          (λ t. rest)
  ]

module _ (g : Config) (y : Cycle) (j : ℕ) (s : StagingFile)
    (alive : state_eq s.state StagingState.deleting ≡ false) where
  tombstone_row-Spared :
      (r : StagingFile) (w : World)
      → Apart j s.path r
      → SparedIn g y j s w
      → SparedIn g y j s (tombstone_row y r w)
  unfolding tombstone_row
  tombstone_row-Spared r w apart k =
      if_cases (SparedIn g y j s) (any (is_tombstone r.staging_id) w.disk.tombstones) _ _ (λ t. k)
        (λ t.
          if_cases (SparedIn g y j s) (not (has_path r.path w.disk.sources)) _ _
            (λ t.
              if_cases (SparedIn g y j s) (y.delete_fails r.staging_id) _ _ (λ t. k)
                (λ t. delete_row-Spared (milliseconds y.now) j s r.staging_id w apart.0 k))
            (λ t.
              if_cases (SparedIn g y j s) (y.rename_fails r.staging_id) _ _ (λ t. k)
                (λ t. record {
                  row = k.row;
                  keys = k.keys;
                  owns = k.owns;
                  on_disk = has_path-without_path s.path r.path w.disk.sources apart.1 k.on_disk;
                })))

  pub tombstone_deleting-Spared :
      (w : World) → SparedIn g y j s w → SparedIn g y j s (tombstone_deleting g y w)
  unfolding tombstone_deleting deleting_rows get_staging
  tombstone_deleting-Spared w k =
      let (s', found, same, live) = k.row in
      if_cases (SparedIn g y j s) (y.deleting_query_fails || y.mkdir_fails) _ _ (λ t. k)
        (λ t.
          each_row-Spared g y j s (tombstone_row y) (Apart j s.path) tombstone_row-Spared _ w
            (Apart-take j s.path (batch_size_of g) _ (
              Apart-filter j s.path _ w.db.staging s' k.keys found
                (ap (λ (q : StagingFile). state_eq q.state StagingState.deleting) same ∙ alive)
                k.owns))
            k)

  -- the guard of the DELETE refuses the row
  delete_deleting-Spared :
      (id : ℕ) (w : World) → SparedIn g y j s w → SparedDb g y j s w (delete_deleting w.db id)
  unfolding get_staging
  delete_deleting-Spared id w k =
      let (s', found, same, live) = k.row in
      if_cases (SparedDb g y j s w) (staging_affects w.db id is_deleting) _ _
        (λ t. elim (Bool-cases (id == j)) [
          | inr other ↦ delete_row-Spared (milliseconds y.now) j s id w other k
          | inl here ↦
              absurd_eq _
                (sym (affects-find (λ r. r.staging_id) id is_deleting w.db.staging k.keys) ∙ t)
                (ap
                    (λ (i : ℕ).
                      holds (λ r. r.staging_id) is_deleting
                        (Table.find (λ r. r.staging_id) i w.db.staging))
                    ((==_iff id j).0 here)
                  ∙ rw found (ap is_deleting same ∙ alive))
        ])
        (λ t. k)
    where
      is_deleting : StagingFile → Bool
      is_deleting r = state_eq r.state StagingState.deleting

  unlink_tombstone-Spared :
      (id : ℕ) (w : World) → SparedIn g y j s w → SparedIn g y j s (unlink_tombstone y id w)
  unfolding unlink_tombstone
  unlink_tombstone-Spared id w k =
      if_cases (SparedIn g y j s) (y.unlink_fails id) _ _ (λ t. k)
        (λ t.
          let db : SparedDb g y j s w
              (if y.delete_fails id then w.db else delete_deleting w.db id) =
            if_cases (SparedDb g y j s w) (y.delete_fails id) _ _ (λ t. k)
              (λ t. delete_deleting-Spared id w k) in
          record { row = db.row; keys = db.keys; owns = db.owns; on_disk = k.on_disk })

  pub unlink_entries-Spared :
      (es : List Entry) (w : World)
      → SparedIn g y j s w
      → SparedIn g y j s (unlink_entries g y es w)
  unfolding unlink_entries
  unlink_entries-Spared [] w k = k
  unlink_entries-Spared (e ∷ es) w k = unlink_entries-Spared es _ (entry e.name)
    where
      entry : (o : Option ℕ) → SparedIn g y j s (unlink_entry g y e o w)
      entry none = k
      entry (some id) =
          if_cases (SparedIn g y j s) (e.is_dir || in_grace g y e) _ _ (λ t. k)
            (λ t. unlink_tombstone-Spared id w k)
