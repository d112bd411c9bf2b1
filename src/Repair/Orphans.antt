-- ===== src/Repair/Orphans.antt =====
-- internal/repair/orphans.go: the sweep of orphans at startup, which removes the files whose row is
-- gone whatever their age, and recalculates the expiries that the schema's trigger zeroed.
use letts.Cleanup.DiskScan.{
  is_orphan_staging, is_orphan_work, is_orphan_output, Faults, staging_exists, mission_exists,
  remove_orphans, Tree,
}
use letts.Cleanup.Missions.{recalc_all}
use letts.Storage.Refs.{TtlPolicy, find_staging_needing_recalc}
use letts.Storage.Rows.{Db}
use letts.Prelude.{not, if◌then◌else◌, ℕ, Bool}

pub record Swept : Type 0 where
  pub tree : Tree
  pub db : Db

unfoldable pub recalc_zeroed_ttls : TtlPolicy → Bool → (ℕ → Bool) → Db → Db
unfolding recalc_all find_staging_needing_recalc
recalc_zeroed_ttls ttl query_fails recalc_fails db =
    if query_fails
    then db
    else recalc_all ttl recalc_fails (find_staging_needing_recalc db 10000) db

unfoldable pub sweep_orphans : TtlPolicy → Faults → Bool → (ℕ → Bool) → Db → Tree → Swept
unfolding remove_orphans mission_exists staging_exists recalc_zeroed_ttls
sweep_orphans ttl y query_fails recalc_fails db t = record {
  tree = record {
    output = remove_orphans (is_orphan_output y db) (λ e. not e.is_dir) y.remove_fails t.output;
    work = remove_orphans (is_orphan_work y db) (λ e. e.is_dir) y.remove_fails t.work;
    staging = remove_orphans (is_orphan_staging y db) (λ e. not e.is_dir) y.remove_fails t.staging;
  };
  db = recalc_zeroed_ttls ttl query_fails recalc_fails db;
}
