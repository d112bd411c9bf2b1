-- ===== src/Storage/Rows.antt =====
-- The rows of the database (internal/storage and the schema of its migrations). A mission or
-- staging id is a UUIDv7: its 128-bit number, whose order is that of the canonical text. Times are
-- Unix milliseconds. A JSON column is the value that it encodes.
use letts.EventFile.Json.{Fields}
use letts.Prelude.{ℕ, ℤ, String, Bool, List, Option, ◌≡◌}

pub data Status : Type 0 where
  queued running done deleting : Status

pub data Kind : Type 0 where
  mission exec : Kind

pub data Outcome : Type 0 where
  success failed killed timeout crashed lost oom : Outcome

pub record Mission : Type 0 where
  pub id : ℕ
  pub kind : Kind
  pub lane : String
  pub mission_name : String
  pub display_name : Option String
  pub group_id : Option String
  pub status : Status
  pub outcome : Option Outcome
  pub fail_reason : Option String
  pub fail_message : Option String
  pub fail_details : Option String
  pub exit_code : Option ℤ
  pub signal : Option String
  pub pid : Option ℕ
  pub pgid : Option ℕ
  pub proc_starttime : Option ℕ
  pub input : String
  pub input_fingerprint : String
  pub return_value : Option String
  pub truncated_stdout : Bool
  pub truncated_stderr : Bool
  pub time_created : ℕ
  pub time_started : Option ℕ
  pub time_finished : Option ℕ
  pub timeout_ms : Option ℕ
  pub restarted_from : Option ℕ

pub data StagingState : Type 0 where
  uploading pending_output committing complete deleting : StagingState

pub record StagingFile : Type 0 where
  pub staging_id : ℕ
  pub state : StagingState
  pub sha256 : String
  pub size : ℕ
  pub bytes_received : ℕ
  pub path : String
  pub time_created : ℕ
  pub time_updated : ℕ
  pub time_expires : ℤ
  pub downloaded_at : Option ℕ

pub data RefKind : Type 0 where
  input output script : RefKind

pub record StagingRef : Type 0 where
  pub mission_id : ℕ
  pub staging_id : ℕ
  pub ref_kind : RefKind
  pub role : String

-- `CollectedOutput`: one declared output file of a mission
pub record CollectedOutput : Type 0 where
  pub role : String
  pub staging_id : ℕ
  pub tmp_path : String
  pub final_path : String
  pub sha256 : String
  pub size : ℕ

pub data FinalizePhase : Type 0 where
  prepared committing : FinalizePhase

pub record FinalizeIntent : Type 0 where
  pub mission_id : ℕ
  pub phase : FinalizePhase
  pub outcome : Outcome
  pub return_value : Option String
  pub fail_reason : Option String
  pub fail_message : Option String
  pub fail_details : Option String
  pub exit_code : Option ℤ
  pub signal : Option String
  pub outputs : List CollectedOutput
  pub done_seq : ℕ
  pub done_event : Fields
  pub time_created : ℕ

pub record Db : Type 0 where
  pub missions : List Mission
  pub staging : List StagingFile
  pub refs : List StagingRef
  pub intents : List FinalizeIntent

pub data Error : Type 0 where
  not_found constraint staging_finalizing mission_not_queued : Error

pub data Result {ℓ} (A : Type ℓ) : Type ℓ where
  ok : A → Result A
  err : Error → Result A

infixl 5 ◌>>=◌
abbrev pub ◌>>=◌ {ℓ κ} : {A : Type ℓ} {B : Type κ} → Result A → (A → Result B) → Result B
ok a >>= f = f a
err e >>= f = err e

pub ok_inj {ℓ} : {A : Type ℓ} {a b : A} → ok a ≡ ok b → a ≡ b
ok_inj h = cc
