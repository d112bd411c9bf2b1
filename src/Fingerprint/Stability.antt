-- ===== src/Fingerprint/Stability.antt =====
-- What the fingerprints do not depend on (internal/fingerprint).
use letts.Jcs.{Value, Fields, Items, field, end}
use letts.Jcs.KeyOrder.{
  encode-same, SameValue, SameItems, SameFields, same, in_array, in_object, none_left, next,
}
use letts.Fingerprint.Sorting.{sort_by-Reordered, Reordered}
use letts.Prelude.{
  ◌∙◌, not, ◌&&◌, ◌||◌, eq_iff, arith, Bool, some, ap, false, refl, str_eq, [], Option, ◌∷◌, ◌≡◌,
  String, List,
}
use letts.Fingerprint.{
  items_no_duplicates, normal_stdin, ExecFileRef, has_text, FileRef, exec_payload, mission_payload,
  MissionInput, fields_no_duplicates, mission, exec, has_no_duplicates, ExecInput,
  canonicalize_input,
}
use letts.Jcs.Numbers.{Strconv}
use mathlib.Core.Path.{ap₂}

-- two inputs that differ in the order of the files at most
pub record SameMission (a b : MissionInput) : Type 0 where
  pub lane : a.lane ≡ b.lane
  pub mission : a.mission ≡ b.mission
  pub input : a.input_canonical ≡ b.input_canonical
  pub timeout : a.timeout_ms ≡ b.timeout_ms
  pub files : Reordered (λ (f : FileRef). f.role) a.files b.files

-- Retries of a dispatch keep their fingerprint: it does not depend on the order in which the files are
-- listed, where files of the same role keep their order.
pub mission-SameMission :
    (g : Strconv) (hash : String → String) (a b : MissionInput)
    → SameMission a b
    → mission g hash a ≡ mission g hash b
unfolding mission mission_payload
mission-SameMission g hash a b e =
    rw (e.lane, e.mission, e.input, e.timeout, sort_by-Reordered (λ (f : FileRef). f.role) e.files)
      refl

-- two inputs that differ in the order of the files, in the group and the display name, and in how
-- they spell no stdin
pub record SameExec (a b : ExecInput) : Type 0 where
  pub lane : a.lane ≡ b.lane
  pub command : a.command ≡ b.command
  pub script : a.script ≡ b.script
  pub inputs : Reordered (λ (f : ExecFileRef). f.key) a.inputs b.inputs
  pub outputs : Reordered (λ (k : String). k) a.outputs b.outputs
  pub stdin : normal_stdin a.stdin ≡ normal_stdin b.stdin
  pub stdin_staging_id : a.stdin_staging_id ≡ b.stdin_staging_id
  pub timeout : a.timeout_ms ≡ b.timeout_ms

-- The fingerprint of an exec dispatch does not depend on the order of its input and output files,
-- where those of the same key keep their order, on the group and the display name, or on whether no
-- stdin is written "" or "none".
pub exec-SameExec :
    (g : Strconv) (hash : String → String) (a b : ExecInput)
    → SameExec a b
    → exec g hash a ≡ exec g hash b
unfolding exec exec_payload
exec-SameExec g hash a b e =
    rw
      (
        e.lane,
        e.command,
        e.script,
        sort_by-Reordered (λ (f : ExecFileRef). f.key) e.inputs,
        sort_by-Reordered (λ (k : String). k) e.outputs,
        e.stdin,
        e.stdin_staging_id,
        e.timeout,
      )
      refl

-- the keys seen so far matter as a set
abbrev SameKeys : List String → List String → Type 0
SameKeys s t = (k : String) → has_text k s ≡ has_text k t

fields-SameKeys :
    (s t : List String) (fs : Fields)
    → SameKeys s t
    → fields_no_duplicates s fs ≡ fields_no_duplicates t fs
unfolding fields_no_duplicates
fields-SameKeys s t end h = refl
fields-SameKeys s t (field k v fs) h =
    rw (h k, fields-SameKeys (k ∷ s) (k ∷ t) fs (λ j. ap (λ (b : Bool). str_eq k j || b) (h j)))
      refl

and_swap :
    (p a q b f : Bool) → not p && (a && (not q && (b && f))) ≡ not q && (b && (not p && (a && f)))
and_swap p a q b f = ground arith

different_sym : (j k : String) → str_eq j k ≡ false → str_eq k j ≡ false
different_sym j k d = ground (arith, eq_iff j k, eq_iff k j)

fields-swap :
    (s : List String) (j k : String) (v w : Value) (fs : Fields)
    → str_eq j k ≡ false
    → fields_no_duplicates s (field j v (field k w fs))
      ≡ fields_no_duplicates s (field k w (field j v fs))
unfolding fields_no_duplicates
fields-swap s j k v w fs d =
    rw (d, different_sym j k d, fields-SameKeys (k ∷ j ∷ s) (j ∷ k ∷ s) fs (λ i. ground arith))
      (and_swap (has_text j s) (has_no_duplicates v) (has_text k s) (has_no_duplicates w)
        (fields_no_duplicates (j ∷ k ∷ s) fs))

mutual
  unfolding has_no_duplicates

  no_duplicates-same : {v w : Value} → SameValue v w → has_no_duplicates v ≡ has_no_duplicates w
  no_duplicates-same same = refl
  no_duplicates-same (in_array h) = items-same h
  no_duplicates-same (in_object h) = fields-same h []

  items-same : {vs ws : Items} → SameItems vs ws → items_no_duplicates vs ≡ items_no_duplicates ws
  items-same none_left = refl
  items-same (next h hs) = ap₂ ◌&&◌ (no_duplicates-same h) (items-same hs)

  fields-same :
      {fs gs : Fields}
      → SameFields fs gs
      → (s : List String) → fields_no_duplicates s fs ≡ fields_no_duplicates s gs
  fields-same SameFields.unchanged s = refl
  fields-same (SameFields.keep {k = k} h hs) s =
      ap₂ (λ a b. not (has_text k s) && (a && b)) (no_duplicates-same h) (fields-same hs (k ∷ s))
  fields-same (SameFields.swap {j = j} {k = k} {v = v} {w = w} {fs = fs} d) s =
      fields-swap s j k v w fs d
  fields-same (SameFields.after h hs) s = fields-same h s ∙ fields-same hs s

-- Two request bodies that decode to values which differ only in the order of the keys of their
-- objects, at any depth, are both refused or stored as the same canonical text.
pub canonicalize_input-same :
    {Raw : Type 0} (g : Strconv) (decode : Raw → Option Value) (a b : Raw) (v w : Value)
    → decode a ≡ some v
    → decode b ≡ some w
    → SameValue v w
    → canonicalize_input g decode a ≡ canonicalize_input g decode b
unfolding canonicalize_input
canonicalize_input-same g decode a b v w e f h =
    rw (e, f, no_duplicates-same h, encode-same g h) refl
