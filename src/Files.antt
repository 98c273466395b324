-- ===== src/Files.antt =====
-- The system calls of guard/store.go and storage/session.go, whose outcomes the environment chooses.
use line_go.Common.{String, Bool}

-- Whether each system call of one save: `os.MkdirAll` to `os.Rename` succeeds.
pub record Calls : Type 0 where
  pub mkdir_ok : Bool
  pub create_ok : Bool
  pub chmod_ok : Bool
  pub write_ok : Bool
  pub sync_ok : Bool
  pub close_ok : Bool
  pub rename_ok : Bool

-- What is read of a file: it does not exist, it cannot be read, or its content.
pub data ReadResult : Type 0 where
  missing unreadable : ReadResult
  content : String → ReadResult
