-- ===== src/Storage.antt =====
-- storage/session.go: the session's file. encoding/json is a parameter, and so is the type of the
-- E2EE metadata, which is `any` in the source; an integer is its value.
mod Runs
use line_go.Common.{
  String, Bool, true, false, not, Option, none, some, ◌≡◌, ◌≢◌, refl, ◌⊎◌, inl, inr, arith, List,
  [], if◌then◌else◌, ℤ, pos, Option-cases,
}
use line_go.Files.{Calls, ReadResult, missing, unreadable, content}

pub record DeviceKey : Type 0 where
  pub key_id : ℤ
  pub version : ℤ
  pub private_key : String
  pub public_key : String

pub record SyncState : Type 0 where
  pub revision : ℤ
  pub global_revision : ℤ
  pub individual_revision : ℤ

pub record Session (Metadata : Type 0) : Type 0 where
  pub access_token : String
  pub refresh_token : String
  pub application : String
  pub user_agent : String
  pub token_refresh_at : ℤ
  pub certificate : String
  pub mid : String
  pub qr_private_key : String
  pub e2ee_metadata : Option Metadata
  pub device_keys : List DeviceKey
  pub sync_state : SyncState

abbrev pub no_session : {M : Type 0} → Session M
no_session = record {
  access_token = "";
  refresh_token = "";
  application = "";
  user_agent = "";
  token_refresh_at = pos 0;
  certificate = "";
  mid = "";
  qr_private_key = "";
  e2ee_metadata = none;
  device_keys = [];
  sync_state = record { revision = pos 0; global_revision = pos 0; individual_revision = pos 0 };
}

pub data FileError : Type 0 where
  not_read invalid_json not_encoded not_created not_written not_synced not_replaced : FileError

-- `json.MarshalIndent` and `json.Unmarshal` of sessions.
pub record SessionJson (M : Type 0) : Type 0 where
  pub marshal : Session M → Option String
  pub unmarshal : String → Option (Session M)

-- What `os.ReadFile` finds where the file has this content, or is missing.
abbrev pub read_result : Option String → ReadResult
read_result none = missing
read_result (some bytes) = content bytes

module _ {M : Type 0} (json : SessionJson M) where
  unfoldable pub load : ReadResult → Session M ⊎ FileError
  load missing = inl no_session
  load unreadable = inr not_read
  load (content bytes) = elim (json.unmarshal bytes) [
    | none ↦ inr invalid_json
    | some session ↦ inl session
  ]

  -- The steps of `Save` once the session is encoded: the content of the file afterwards, and the
  -- error. The temporary file is removed on every path.
  unfoldable pub replace_file : Calls → String → Option String → Option String × Option FileError
  replace_file calls bytes file =
      if not calls.mkdir_ok
      then (file, some not_created)
      else if not calls.create_ok
      then (file, some not_created)
      else if not calls.chmod_ok
      then (file, some not_written)
      else if not calls.write_ok
      then (file, some not_written)
      else if not calls.sync_ok
      then (file, some not_synced)
      else if not calls.close_ok
      then (file, some not_written)
      else if not calls.rename_ok
      then (file, some not_replaced)
      else (some bytes, none)

  -- `Save`, of an encoded session.
  unfoldable pub save_encoded :
      Calls → Option String → Option String → Option String × Option FileError
  unfolding replace_file
  save_encoded calls none file = (file, some not_encoded)
  save_encoded calls (some bytes) file = replace_file calls bytes file

  unfoldable pub save : Calls → Session M → Option String → Option String × Option FileError
  unfolding save_encoded
  save calls session file = save_encoded calls (json.marshal session) file

  replace_file_cases :
      (calls : Calls) (bytes : String) (file : Option String)
      → ((replace_file calls bytes file).1 ≡ none)
          × ((replace_file calls bytes file).0 ≡ some bytes)
        ⊎ ((replace_file calls bytes file).1 ≢ none) × ((replace_file calls bytes file).0 ≡ file)
  unfolding replace_file
  replace_file_cases calls bytes file = ground arith

  save_encoded-keeps :
      (calls : Calls) (encoded file : Option String) {e : FileError}
      → (save_encoded calls encoded file).1 ≡ some e
      → (save_encoded calls encoded file).0 ≡ file
  unfolding save_encoded
  save_encoded-keeps calls none file h = refl
  save_encoded-keeps calls (some bytes) file h = elim (replace_file_cases calls bytes file) [
    | inl (worked, now) ↦ cc
    | inr (stopped, now) ↦ now
  ]

  -- A save that fails leaves the file.
  pub save-keeps :
      (calls : Calls) (session : Session M) (file : Option String) {e : FileError}
      → (save calls session file).1 ≡ some e
      → (save calls session file).0 ≡ file
  unfolding save
  save-keeps calls session file h = save_encoded-keeps calls (json.marshal session) file h

  -- A save either succeeds, and a load returns the session that was saved, or fails, and a load
  -- returns what it returned before. Decoding must undo the encoding of this session.
  pub load-save :
      (calls : Calls) (session : Session M) (file : Option String)
      → ((bytes : String) → json.marshal session ≡ some bytes → json.unmarshal bytes ≡ some session)
      → ((save calls session file).1 ≡ none)
          × (load (read_result (save calls session file).0) ≡ inl session)
        ⊎ ((save calls session file).1 ≢ none)
          × (load (read_result (save calls session file).0) ≡ load (read_result file))
  unfolding save load
  load-save calls session file undo = elim (Option-cases (json.marshal session)) [
    | inl e ↦ rw (e, save) (inr ((λ h. cc), refl))
    | inr (bytes, e) ↦ elim (replace_file_cases calls bytes file) [
      | inl (done, now) ↦ rw (e, save) (inl (done, rw now (rw (undo bytes e) refl)))
      | inr (failed, now) ↦ rw (e, save) (inr (failed, rw now refl))
    ]
  ]
