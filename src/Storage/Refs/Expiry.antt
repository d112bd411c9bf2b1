-- ===== src/Storage/Refs/Expiry.antt =====
-- What the recalculated expiry promises (RecalcStagingTTL of internal/storage/refs.go).
use mathlib.Core.List.{Memᴰ}
use letts.Storage.Rows.{ok_inj, ok, Mission, StagingFile, Db}
use letts.Prelude.{
  refl, ltb_ℤ, ◌∙◌, if◌then◌else◌, sym, ap, none, Option, some, false, max_int64, add_int64, ℕ,
  negsuc, [], pos, ◌∷◌, true, ◌≡◌, arith, List, leb_ℤ, ℤ,
}
use letts.Storage.Refs.{
  orphan_exp, no_refs, recalculated, referencing, new_exp, ttl_for, milliseconds,
  recalc_staging_ttl, is_active, raise_to, Scan, scan_mission, scan_missions, TtlPolicy,
}
use mathlib.Core.Path.{subst}
use letts.Storage.Staging.{get_staging}

leb_ℤ_refl : (a : ℤ) → leb_ℤ a a ≡ true
leb_ℤ_refl (pos a) = ground arith
leb_ℤ_refl (negsuc a) = ground arith

leb_ℤ_trans : (a b c : ℤ) → leb_ℤ a b ≡ true → leb_ℤ b c ≡ true → leb_ℤ a c ≡ true
leb_ℤ_trans a b c h g = ground arith

le-raise_to :
    (max exp : ℤ) → (leb_ℤ max (raise_to max exp) ≡ true) × (leb_ℤ exp (raise_to max exp) ≡ true)
le-raise_to max exp = ground arith

module _ (p : TtlPolicy) where
  -- what a later state of the scan keeps of an earlier one
  record Grows (s t : Scan) : Type 0 where
    infinity : s.is_infinity ≡ true → t.is_infinity ≡ true
    refs : s.has_refs ≡ true → t.has_refs ≡ true
    exp : leb_ℤ s.max_exp t.max_exp ≡ true

  scan_mission-Grows : (s : Scan) (m : Mission) → Grows s (scan_mission p s m)
  unfolding scan_mission
  scan_mission-Grows s m = ground (arith, leb_ℤ_refl s.max_exp, le-raise_to s.max_exp)

  scan_mission-has_refs : (s : Scan) (m : Mission) → (scan_mission p s m).has_refs ≡ true
  unfolding scan_mission
  scan_mission-has_refs s m = ground arith

  scan_missions-Grows : (s : Scan) (ms : List Mission) → Grows s (scan_missions p s ms)
  unfolding scan_missions
  scan_missions-Grows s [] = record { infinity = λ e. e; refs = λ e. e; exp = leb_ℤ_refl s.max_exp }
  scan_missions-Grows s (m ∷ ms) =
      let a : Grows s (scan_mission p s m) = scan_mission-Grows s m in
      let b : Grows (scan_mission p s m) (scan_missions p (scan_mission p s m) ms) =
        scan_missions-Grows (scan_mission p s m) ms in
      record {
        infinity = λ e. b.infinity (a.infinity e);
        refs = λ e. b.refs (a.refs e);
        exp =
            leb_ℤ_trans s.max_exp (scan_mission p s m).max_exp
              (scan_missions p (scan_mission p s m) ms).max_exp a.exp b.exp;
      }

  scan_missions-active :
      (s : Scan) (ms : List Mission) (m : Mission)
      → Memᴰ m ms
      → is_active m.status ≡ true
      → (scan_missions p s ms).is_infinity ≡ true
  unfolding scan_missions scan_mission
  scan_missions-active s [] m mem h = elim mem [ ]
  scan_missions-active s (x ∷ ms) m (Memᴰ.head e) h =
      (scan_missions-Grows (scan_mission p s x) ms).infinity (rw (← e, h))
  scan_missions-active s (x ∷ ms) m (Memᴰ.tail mem) h =
      scan_missions-active (scan_mission p s x) ms m mem h

  abbrev retention : Mission → ℕ → ℤ
  retention m finished = add_int64 finished (milliseconds (ttl_for p m.kind m.outcome))

  scan_missions-finished :
      (s : Scan) (ms : List Mission) (m : Mission) (finished : ℕ)
      → Memᴰ m ms
      → is_active m.status ≡ false
      → m.time_finished ≡ some finished
      → ((scan_missions p s ms).has_refs ≡ true)
        × (leb_ℤ (retention m finished) (scan_missions p s ms).max_exp ≡ true)
  unfolding scan_missions scan_mission
  scan_missions-finished s [] m finished mem a f = elim mem [ ]
  scan_missions-finished s (x ∷ ms) m finished (Memᴰ.head e) a f =
      let g : Grows (scan_mission p s x) (scan_missions p (scan_mission p s x) ms) =
        scan_missions-Grows (scan_mission p s x) ms in
      (
        g.refs (scan_mission-has_refs s x),
        leb_ℤ_trans (retention m finished) (scan_mission p s x).max_exp
            (scan_missions p (scan_mission p s x) ms).max_exp
            (subst (λ k. leb_ℤ (retention m finished) (scan_mission p s k).max_exp ≡ true) e
              (rw (a, f) (le-raise_to s.max_exp (retention m finished)).1))
            g.exp,
      )
  scan_missions-finished s (x ∷ ms) m finished (Memᴰ.tail mem) a f =
      scan_missions-finished (scan_mission p s x) ms m finished mem a f

add_int64-le-max : (a b : ℕ) → leb_ℤ (add_int64 a b) (pos max_int64) ≡ true
unfolding add_int64
add_int64-le-max a b = ground arith

lower_of :
    (a b : ℤ)
    → (leb_ℤ (if ltb_ℤ a b then a else b) b ≡ true) × (leb_ℤ (if ltb_ℤ a b then a else b) a ≡ true)
lower_of a b = ground arith

module _ (db db' : Db) (id : ℕ) (p : TtlPolicy) (exp : ℤ)
    (recalc : recalc_staging_ttl db id p ≡ ok (exp, db')) where
  -- A file that a mission references which is queued, running or being deleted gets the expiry
  -- infinity, whatever else references it.
  pub recalc_staging_ttl-active :
      (m : Mission) → Memᴰ m (referencing db id) → is_active m.status ≡ true → exp ≡ pos max_int64
  unfolding recalc_staging_ttl new_exp
  recalc_staging_ttl-active m mem h = by_row (get_staging db id) recalc
    where
      by_row :
          (o : Option StagingFile) → recalculated db id p o ≡ ok (exp, db') → exp ≡ pos max_int64
      by_row none q = cc
      by_row (some st) q =
          ground (arith, scan_missions-active p no_refs (referencing db id) m mem h)

  -- The expiry is never earlier than the retention of a finished mission that references the file:
  -- its finish time plus the TTL of its kind and outcome.
  pub recalc_staging_ttl-retains :
      (m : Mission) (finished : ℕ)
      → Memᴰ m (referencing db id)
      → is_active m.status ≡ false
      → m.time_finished ≡ some finished
      → leb_ℤ (add_int64 finished (milliseconds (ttl_for p m.kind m.outcome))) exp ≡ true
  unfolding recalc_staging_ttl new_exp
  recalc_staging_ttl-retains m finished mem a f = by_row (get_staging db id) recalc
    where
      by_row :
          (o : Option StagingFile)
          → recalculated db id p o ≡ ok (exp, db')
          → leb_ℤ (retention p m finished) exp ≡ true
      by_row none q = cc
      by_row (some st) q =
          subst (λ (e : ℤ). leb_ℤ (retention p m finished) e ≡ true)
            (ap (λ (r : ℤ × Db). r.0) (ok_inj q))
            (ground (
              arith,
              scan_missions-finished p no_refs (referencing db id) m finished mem a f,
              add_int64-le-max finished (milliseconds (ttl_for p m.kind m.outcome)),
            ))

  -- With no reference at all the file expires staging_ttl after its creation, or downloaded_grace
  -- after its download if that is earlier.
  pub recalc_staging_ttl-orphan :
      (st : StagingFile)
      → get_staging db id ≡ some st
      → referencing db id ≡ []
      → (st.downloaded_at ≡ none → exp ≡ add_int64 st.time_created (milliseconds p.staging_ttl))
        × ((at : ℕ)
            → st.downloaded_at ≡ some at
            → (leb_ℤ exp (add_int64 st.time_created (milliseconds p.staging_ttl)) ≡ true)
              × (leb_ℤ exp (add_int64 at (milliseconds p.download_grace)) ≡ true))
  unfolding recalc_staging_ttl new_exp scan_missions orphan_exp
  recalc_staging_ttl-orphan st found none_left =
      let e : exp ≡ orphan_exp p st =
        sym (ap (λ (r : ℤ × Db). r.0) (ok_inj (rw (found, none_left) at recalc))) in
      (
        (λ fresh. e ∙ rw fresh refl),
        λ at downloaded.
            rw (e, downloaded)
              (lower_of (add_int64 at (milliseconds p.download_grace))
                (add_int64 st.time_created (milliseconds p.staging_ttl))),
      )
