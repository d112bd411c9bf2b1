-- ===== src/OutputFile/Sides.antt =====
-- What the sides of internal/outputfile/truncate_writer.go keep: all, or what they have when they are
-- truncated.
use letts.Prelude.{
  inr, Option-cases, none, inl, Option, ◌==◌, ltb, sym, refl, ◌∙◌, ◌<◌, not, All, ◌++◌, [], ◌∷◌,
  if◌then◌else◌, ◌+◌, ◌-◌, ◌≡◌, arith, false, ◌≤◌, length, true, List, Bool, ℕ,
}
use letts.OutputFile.{Outcomes, store, is_truncated, writes, new_writer, write, TruncateWriter}
use mathlib.Core.List.{append-nil, append_assoc}
use mathlib.Core.Path.{subst}

abbrev pub side_file : Bool → TruncateWriter → List ℕ
side_file true t = t.stderr
side_file false t = t.stdout

abbrev pub total : List (Outcomes × Bool × List ℕ) → ℕ
total [] = 0
total ((io, is_stderr, p) ∷ ps) = length p + total ps

-- what was written to one side
abbrev pub sent : Bool → List (Outcomes × Bool × List ℕ) → List ℕ
sent side [] = []
sent side ((io, is_stderr, p) ∷ ps) =
    let rest = sent side ps in
    if (if side then is_stderr else not is_stderr) then p ++ rest else rest

-- a write that does not fail and is not empty
abbrev pub Accepted : Outcomes × Bool × List ℕ → Type 0
Accepted (io, is_stderr, p) = (io.chunk_fails ≡ none) × (0 < length p)

module _ (marker : List ℕ) where
  write-truncated :
      (io : Outcomes) (is_stderr other : Bool) (p : List ℕ) (t : TruncateWriter)
      → is_truncated is_stderr t ≡ true
      → (is_truncated is_stderr (write marker io other p t).1 ≡ true)
        × (side_file is_stderr (write marker io other p t).1 ≡ side_file is_stderr t)
  unfolding write
  write-truncated io true true p t h = (ground arith, ground arith)
  write-truncated io false false p t h = (ground arith, ground arith)
  write-truncated io true false p t h = elim (Option-cases io.chunk_fails) [
    | inl e ↦ (ground (arith, e), ground (arith, e))
    | inr (n, e) ↦ (ground (arith, e), ground (arith, e))
  ]
  write-truncated io false true p t h = elim (Option-cases io.chunk_fails) [
    | inl e ↦ (ground (arith, e), ground (arith, e))
    | inr (n, e) ↦ (ground (arith, e), ground (arith, e))
  ]

  -- A side that was truncated never changes again.
  writes-truncated :
      (is_stderr : Bool) (ps : List (Outcomes × Bool × List ℕ)) (t : TruncateWriter)
      → is_truncated is_stderr t ≡ true
      → side_file is_stderr (writes marker ps t) ≡ side_file is_stderr t
  unfolding writes
  writes-truncated is_stderr [] t h = refl
  writes-truncated is_stderr ((io, other, p) ∷ ps) t h =
      let (k, e) = write-truncated io is_stderr other p t h in
      writes-truncated is_stderr ps (write marker io other p t).1 k ∙ e

  write_accepted :
      (io : Outcomes) (is_stderr : Bool) (p : List ℕ) (t : TruncateWriter)
      → io.chunk_fails ≡ none
      → 0 < length p
      → is_truncated is_stderr t ≡ false
      → t.current + length p ≤ t.limit
      → (write marker io is_stderr p t).1 ≡ store marker is_stderr p t
  unfolding write
  write_accepted io is_stderr p t w some_bytes free room =
      let fits : ltb (t.limit - t.current) (length p) ≡ false = ground arith in
      let left : (t.limit - t.current == 0) ≡ false = ground arith in rw (free, left, w, fits) refl

  writes-Accepted :
      (ps : List (Outcomes × Bool × List ℕ)) (t : TruncateWriter)
      → All Accepted ps
      → t.trunc_std ≡ false
      → t.trunc_err ≡ false
      → t.current + total ps ≤ t.limit
      → ((writes marker ps t).stdout ≡ t.stdout ++ sent false ps)
        × ((writes marker ps t).stderr ≡ t.stderr ++ sent true ps)
  unfolding writes
  writes-Accepted [] t f o e room = (sym (append-nil t.stdout), sym (append-nil t.stderr))
  writes-Accepted ((io, true, p) ∷ ps) t (f, fs) o e room =
      let (a, b) = writes-Accepted ps (store marker true p t) fs o e (omega arith) in
      subst
        (λ (u : TruncateWriter).
          ((writes marker ps u).stdout ≡ t.stdout ++ sent false ps)
          × ((writes marker ps u).stderr ≡ t.stderr ++ (p ++ sent true ps)))
        (sym (write_accepted io true p t f.0 f.1 e (omega arith)))
        (a, b ∙ append_assoc t.stderr p (sent true ps))
  writes-Accepted ((io, false, p) ∷ ps) t (f, fs) o e room =
      let (a, b) = writes-Accepted ps (store marker false p t) fs o e (omega arith) in
      subst
        (λ (u : TruncateWriter).
          ((writes marker ps u).stdout ≡ t.stdout ++ (p ++ sent false ps))
          × ((writes marker ps u).stderr ≡ t.stderr ++ sent true ps))
        (sym (write_accepted io false p t f.0 f.1 o (omega arith)))
        (a ∙ append_assoc t.stdout p (sent false ps), b)

  -- As long as the writes, none of them empty and none of them failing, fit the limit together,
  -- nothing is cut: each side holds all that was written to it, in order, and no marker.
  pub writes_complete :
      (limit : ℕ) (comb : Option (List (Bool × List ℕ))) (ps : List (Outcomes × Bool × List ℕ))
      → All Accepted ps
      → total ps ≤ limit
      → ((writes marker ps (new_writer limit comb)).stdout ≡ sent false ps)
        × ((writes marker ps (new_writer limit comb)).stderr ≡ sent true ps)
  unfolding new_writer
  writes_complete limit comb ps f le =
      writes-Accepted ps (new_writer limit comb) f refl refl (omega arith)
