-- ===== src/Cleanup/DiskScan/Rows.antt =====
-- What the scanner and the sweep at startup remove and leave (internal/cleanup/disk_scan.go,
-- internal/repair/orphans.go).
-- the file belongs to a row of the tables
use letts.Storage.Missions.{get_mission}
use letts.Cleanup.DiskScan.{
  is_orphan_work, is_orphan_staging, is_orphan_output, mission_exists, scan, staging_exists, Faults,
  Tree, foreign, staging_file, work_dir, output_file, Entry, Name, remove_orphans,
}
use letts.Storage.Rows.{Db}
use letts.Storage.Staging.{get_staging}
use letts.Prelude.{
  ◌||◌, not, if_cases, ℕ, ◌&&◌, All, refl, [], arith, ◌∷◌, filter, false, true, ◌≡◌, is_some, List,
  Bool,
}
use letts.Repair.Orphans.{sweep_orphans}
use letts.Storage.Refs.{TtlPolicy}

unfoldable pub is_known : Db → Name → Bool
unfolding get_mission get_staging
is_known db (output_file id s) = is_some (get_mission db id)
is_known db (work_dir id) = is_some (get_mission db id)
is_known db (staging_file id tmp) = is_some (get_staging db id)
is_known db (foreign s) = true

remove_orphans-keeps :
    (db : Db) (is_orphan : Name → Bool) (c : Entry → Bool) (f : Name → Bool) (es : List Entry)
    → ((n : Name) → is_known db n ≡ true → is_orphan n ≡ false)
    → filter (λ (e : Entry). is_known db e.name) (remove_orphans is_orphan c f es)
      ≡ filter (λ (e : Entry). is_known db e.name) es
unfolding remove_orphans
remove_orphans-keeps db o c f [] h = refl
remove_orphans-keeps db o c f (e ∷ es) h =
    ground (arith, h e.name, remove_orphans-keeps db o c f es h)

abbrev pub known_only : Db → List Entry → List Entry
known_only db es = filter (λ (e : Entry). is_known db e.name) es

-- the files with a row are the same in both trees
pub record SameKnown (db : Db) (t u : Tree) : Type 0 where
  pub output : known_only db t.output ≡ known_only db u.output
  pub work : known_only db t.work ≡ known_only db u.work
  pub staging : known_only db t.staging ≡ known_only db u.staging

module _ (y : Faults) (db : Db) where
  known_output : (n : Name) → is_known db n ≡ true → is_orphan_output y db n ≡ false
  unfolding is_known mission_exists
  known_output (output_file id s) h = ground arith
  known_output (work_dir id) h = refl
  known_output (staging_file id tmp) h = refl
  known_output (foreign s) h = refl

  known_work : (n : Name) → is_known db n ≡ true → is_orphan_work y db n ≡ false
  unfolding is_known mission_exists
  known_work (output_file id s) h = refl
  known_work (work_dir id) h = ground arith
  known_work (staging_file id tmp) h = refl
  known_work (foreign s) h = refl

  known_staging : (n : Name) → is_known db n ≡ true → is_orphan_staging y db n ≡ false
  unfolding is_known staging_exists
  known_staging (output_file id s) h = refl
  known_staging (work_dir id) h = refl
  known_staging (staging_file id tmp) h = ground arith
  known_staging (foreign s) h = refl

  -- A scan never removes a file whose mission or staging file has a row, nor one with a foreign name:
  -- these are the same before and after, in their order, whatever lookups and removals fail.
  pub scan-SameKnown : (now skip : ℕ) (t : Tree) → SameKnown db (scan y now skip db t) t
  unfolding scan
  scan-SameKnown now skip t = record {
    output = remove_orphans-keeps db _ _ _ t.output known_output;
    work = remove_orphans-keeps db _ _ _ t.work known_work;
    staging = remove_orphans-keeps db _ _ _ t.staging known_staging;
  }

  -- The sweep at startup never removes a file whose mission or staging file has a row, nor one with a
  -- foreign name, whatever lookups and removals fail.
  pub sweep_orphans-SameKnown :
      (ttl : TtlPolicy) (query_fails : Bool) (recalc_fails : ℕ → Bool) (t : Tree)
      → SameKnown db (sweep_orphans ttl y query_fails recalc_fails db t).tree t
  unfolding sweep_orphans
  sweep_orphans-SameKnown ttl query_fails recalc_fails t = record {
    output = remove_orphans-keeps db _ _ _ t.output known_output;
    work = remove_orphans-keeps db _ _ _ t.work known_work;
    staging = remove_orphans-keeps db _ _ _ t.staging known_staging;
  }

-- no lookup and no removal fails
pub record NoFaults (y : Faults) : Type 0 where
  pub missions : (id : ℕ) → y.mission_query_fails id ≡ false
  pub staging : (id : ℕ) → y.staging_query_fails id ≡ false
  pub removals : (n : Name) → y.remove_fails n ≡ false

remove_orphans-left :
    (is_orphan : Name → Bool) (c : Entry → Bool) (f : Name → Bool) (es : List Entry)
    → ((n : Name) → f n ≡ false)
    → All (λ (e : Entry). c e && is_orphan e.name ≡ false) (remove_orphans is_orphan c f es)
unfolding remove_orphans
remove_orphans-left o c f [] h = tt
remove_orphans-left o c f (e ∷ es) h =
    if_cases (All (λ (e : Entry). c e && o e.name ≡ false)) (not (c e && o e.name) || f e.name) _ _
      (λ t. (ground (arith, h e.name), remove_orphans-left o c f es h))
      (λ t. remove_orphans-left o c f es h)

-- Where no lookup or removal fails, the sweep at startup leaves no orphan: every file left below
-- output/ and staging/ and every directory left below work/ is none that the sweep takes for an orphan,
-- since its name is foreign to that tree or its row exists.
pub sweep_orphans-left :
    (ttl : TtlPolicy) (y : Faults) (query_fails : Bool) (recalc_fails : ℕ → Bool) (db : Db)
    (t : Tree)
    → NoFaults y
    → All
        (λ (e : Entry). not e.is_dir && is_orphan_output y db e.name ≡ false)
        (sweep_orphans ttl y query_fails recalc_fails db t).tree.output
      × All
          (λ (e : Entry). e.is_dir && is_orphan_work y db e.name ≡ false)
          (sweep_orphans ttl y query_fails recalc_fails db t).tree.work
      × All
          (λ (e : Entry). not e.is_dir && is_orphan_staging y db e.name ≡ false)
          (sweep_orphans ttl y query_fails recalc_fails db t).tree.staging
unfolding sweep_orphans
sweep_orphans-left ttl y query_fails recalc_fails db t ok = (
  remove_orphans-left (is_orphan_output y db) (λ e. not e.is_dir) y.remove_fails t.output
      ok.removals,
  remove_orphans-left (is_orphan_work y db) (λ e. e.is_dir) y.remove_fails t.work ok.removals,
  remove_orphans-left (is_orphan_staging y db) (λ e. not e.is_dir) y.remove_fails t.staging
      ok.removals,
)
