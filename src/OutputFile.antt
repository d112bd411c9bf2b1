-- ===== src/OutputFile.antt =====
-- internal/outputfile/truncate_writer.go: the stdout and stderr of a mission, which share one
-- budget of bytes. A file is the bytes written to it, and the combined file the chunks handed to
-- appendCombined, with their side. The marker text is a parameter. What the file does with the
-- writes of a call is an argument: os.File.Write may store a prefix of its bytes before it fails.
pub mod Budget
pub mod Sides
mod Tests
use letts.Prelude.{
  none, some, Option, not, ◌==◌, take, ltb, if◌then◌else◌, length, ◌∷◌, false, [], ◌+◌, ◌-◌, ◌++◌,
  true, Bool, List, ℕ,
}

pub record TruncateWriter : Type 0 where
  pub limit : ℕ
  pub current : ℕ
  pub trunc_std : Bool
  pub trunc_err : Bool
  pub stdout : List ℕ
  pub stderr : List ℕ
  pub combined : Option (List (Bool × List ℕ))

-- `comb` is none for a nil file
unfoldable pub new_writer : ℕ → Option (List (Bool × List ℕ)) → TruncateWriter
new_writer limit comb = record {
  limit = limit;
  current = 0;
  trunc_std = false;
  trunc_err = false;
  stdout = [];
  stderr = [];
  combined = comb;
}

abbrev pub is_truncated : Bool → TruncateWriter → Bool
is_truncated true t = t.trunc_err
is_truncated false t = t.trunc_std

-- dst.Write
abbrev pub append_to : Bool → List ℕ → TruncateWriter → TruncateWriter
append_to true bytes t = record t { stderr = t.stderr ++ bytes }
append_to false bytes t = record t { stdout = t.stdout ++ bytes }

abbrev pub set_truncated : Bool → TruncateWriter → TruncateWriter
set_truncated true t = record t { trunc_err = true }
set_truncated false t = record t { trunc_std = true }

abbrev pub append_combined :
    Bool → List ℕ → Option (List (Bool × List ℕ)) → Option (List (Bool × List ℕ))
append_combined is_stderr chunk none = none
append_combined is_stderr chunk (some file) = some (file ++ ((is_stderr, chunk) ∷ []))

-- the outcomes of dst.Write in one call. The chunk is stored whole (`none`), or the write fails after
-- it has stored so many of its bytes; of the marker, whose error is ignored, so many bytes are stored.
pub record Outcomes : Type 0 where
  pub chunk_fails : Option ℕ
  pub marker_stored : ℕ

-- what a write returns: the number of bytes it took, or that the file refused the chunk
pub data Written : Type 0 where
  took : ℕ → Written
  refused : Written

-- `marker` is what Sprintf makes of truncMarker and the limit
module _ (marker : List ℕ) where
  abbrev pub mark : Outcomes → Bool → TruncateWriter → TruncateWriter
  mark io is_stderr t =
      set_truncated is_stderr (append_to is_stderr (take io.marker_stored marker) t)

  abbrev pub store : Bool → List ℕ → TruncateWriter → TruncateWriter
  store is_stderr chunk t =
      let t' = append_to is_stderr chunk t in
      record t' {
        current = t.current + length chunk;
        combined = append_combined is_stderr chunk t.combined;
      }

  -- dst.Write(chunk) and what follows it; `clipped` is whether p was longer than the chunk
  abbrev pub write_chunk :
      Outcomes → Option ℕ → Bool → ℕ → Bool → List ℕ → TruncateWriter → Written × TruncateWriter
  write_chunk io (some n) is_stderr len clipped chunk t =
      (refused, append_to is_stderr (take n chunk) t)
  write_chunk io none is_stderr len clipped chunk t =
      let stored = store is_stderr chunk t in
      (took len, if clipped then mark io is_stderr stored else stored)

  -- `writerSide.Write`. A chunk that fails is stored in part, and the budget does not count it.
  unfoldable pub write : Outcomes → Bool → List ℕ → TruncateWriter → Written × TruncateWriter
  write io is_stderr p t =
      let remaining = t.limit - t.current in
      let chunk = if ltb remaining (length p) then take remaining p else p in
      if is_truncated is_stderr t
      then (took (length p), t)
      else if remaining == 0
      then (took (length p), mark io is_stderr t)
      else write_chunk io io.chunk_fails is_stderr (length p) (ltb remaining (length p)) chunk t

  -- the writes of both sides, in the order in which they take the mutex
  unfoldable pub writes : List (Outcomes × Bool × List ℕ) → TruncateWriter → TruncateWriter
  unfolding write
  writes [] t = t
  writes ((io, is_stderr, p) ∷ ps) t = writes ps (write io is_stderr p t).1
