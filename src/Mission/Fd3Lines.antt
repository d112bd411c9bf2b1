-- ===== src/Mission/Fd3Lines.antt =====
-- internal/mission/fd3reader.go: the lines of the event channel (readLineBounded), and the loop over
-- them (ReadFd3). A value of `Read` is what one call of bufio's ReadLine returns; after the last of a
-- list, ReadLine returns io.EOF.
pub mod Bounds
pub mod Protocol
mod Tests
use letts.Prelude.{
  ◌-◌, ◌++◌, take, ◌&&◌, ltb, ◌==◌, zero, ◌||◌, if◌then◌else◌, suc, ◌∷◌, length, Bool, ◌+◌, true,
  false, [], ℕ, List,
}
use letts.Mission.Fd3Reader.{Limits, record_violation, Fd3State, handle_line}
use letts.Mission.Fd3Codec.{Codec}
use letts.Mission.Fd3Violations.{line_too_large_violation}

pub record Read : Type 0 where
  pub chunk : List ℕ
  pub is_prefix : Bool
  pub failed : Bool

-- `boundedLine`
pub record Line : Type 0 where
  pub bytes : List ℕ
  pub size : ℕ
  pub oversized : Bool
  pub head : List ℕ
  pub eof : Bool

abbrev pub no_line : Line
no_line = record { bytes = []; size = 0; oversized = false; head = []; eof = false }

abbrev pub oversized_head_bytes : ℕ
oversized_head_bytes = 512

-- one round of the loop: the size counts every chunk, the bytes stop at the cap
unfoldable pub grow : ℕ → Line → List ℕ → Line
grow max l chunk =
    let size = l.size + length chunk in
    if l.oversized || length chunk == 0
    then record l { size = size }
    else if ltb 0 max && ltb max (length l.bytes + length chunk)
    then (let start = take oversized_head_bytes l.bytes in
        record l {
          size = size;
          oversized = true;
          bytes = [];
          head = start ++ take (oversized_head_bytes - length start) chunk;
        })
    else record l { size = size; bytes = l.bytes ++ chunk }

-- the line, and the reads that are left
unfoldable pub read_line_bounded : ℕ → Line → List Read → Line × List Read
unfolding grow
read_line_bounded max l [] = (record l { eof = true }, [])
read_line_bounded max l (r ∷ rs) =
    let grown = grow max l r.chunk in
    let rest = read_line_bounded max grown rs in
    if r.failed
    then (record grown { eof = true }, rs)
    else if r.is_prefix
    then rest
    else (grown, rs)

-- what one line does to the state
unfoldable pub take_line : Codec → Limits → Bool → ℕ → Line → Fd3State → Fd3State
unfolding handle_line record_violation
take_line c limits has_room line_no l s =
    if l.oversized
    then record_violation
        (line_too_large_violation c l.head l.size line_no limits.max_event_line_size) s
    else if length l.bytes == 0
    then s
    else handle_line c line_no limits has_room l.bytes s

-- the context and the progress channel, at each line
pub record Run : Type 0 where
  pub canceled : ℕ → Bool
  pub has_room : ℕ → Bool

-- the lines that were read, and whether the loop has returned
pub record Progressed : Type 0 where
  pub state : Fd3State
  pub lines : List Line
  pub returned : Bool

unfoldable pub read_fd3 : ℕ → Codec → Limits → Run → ℕ → List Read → Fd3State → Progressed
unfolding read_line_bounded take_line
read_fd3 zero c limits run line_no reads s = record { state = s; lines = []; returned = false }
read_fd3 (suc fuel) c limits run line_no reads s =
    let (l, left) = read_line_bounded limits.max_event_line_size no_line reads in
    let s' = take_line c limits (run.has_room (suc line_no)) (suc line_no) l s in
    let rest = read_fd3 fuel c limits run (suc line_no) left s' in
    if run.canceled line_no
    then record { state = s; lines = []; returned = true }
    else if l.eof
    then record { state = s'; lines = l ∷ []; returned = true }
    else record rest { lines = l ∷ rest.lines }
