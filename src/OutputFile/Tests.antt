-- ===== src/OutputFile/Tests.antt =====
-- Writes on a budget of five bytes, and the theorems on them.
use letts.Prelude.{none, some, ◌+◌, [], length, refl, ◌≡◌, ◌≤◌, false, ◌∷◌, Bool, true, ℕ, List}
use letts.OutputFile.{Outcomes, is_truncated, new_writer, writes, TruncateWriter}
use letts.OutputFile.Budget.{Holds, writes-le-limit}

abbrev marker : List ℕ
marker = 33 ∷ []

abbrev fine : Outcomes
fine = record { chunk_fails = none; marker_stored = 1 }

-- three bytes on stdout, two on stderr, which are the whole budget, and then one byte too many
abbrev over : List (Outcomes × Bool × List ℕ)
over = (fine, false, 1 ∷ 2 ∷ 3 ∷ []) ∷ (fine, true, 4 ∷ 5 ∷ 6 ∷ []) ∷ (fine, true, 7 ∷ []) ∷ []

clipped : (writes marker over (new_writer 5 (some []))).stderr ≡ 4 ∷ 5 ∷ 33 ∷ []
unfolding writes new_writer
clipped = refl

-- a write fails after one byte, and the budget is used up after it
abbrev failing : List (Outcomes × Bool × List ℕ)
failing = (record fine { chunk_fails = some 1 }, false, 8 ∷ 9 ∷ []) ∷ over

above_limit : (writes marker failing (new_writer 5 (some []))).stdout ≡ 8 ∷ 1 ∷ 2 ∷ 3 ∷ []
unfolding writes new_writer
above_limit = refl

writes-le-limit_example :
    let t = writes marker failing (new_writer 5 (some [])) in
    (t.current ≤ 5)
    × ((out : List ℕ) × (err : List ℕ) × Holds marker t.trunc_std out t.stdout
        × Holds marker t.trunc_err err t.stderr
        × (length out + length err ≤ 5 + 1))
writes-le-limit_example = writes-le-limit marker 5 (some []) failing

abbrev full : TruncateWriter
full = writes marker over (new_writer 5 (some []))

was_cut : is_truncated true full ≡ true
unfolding writes new_writer
was_cut = refl
