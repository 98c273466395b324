-- ===== src/Storage/Runs.antt =====
-- The session's file at a concrete session.
use line_go.Common.{◌⊎◌, true, none, some, ◌≡◌, ◌≢◌, inl, Bool}
use line_go.Files.{Calls}
use line_go.Storage.{Session, SessionJson, no_session, save, load, read_result, load-save}

abbrev json : SessionJson Bool
json = record {
  marshal = λ s. some s.access_token;
  unmarshal = λ t. some (record no_session { access_token = t });
}

abbrev all_work : Calls
all_work = record {
  mkdir_ok = true;
  create_ok = true;
  chmod_ok = true;
  write_ok = true;
  sync_ok = true;
  close_ok = true;
  rename_ok = true;
}

abbrev session : Session Bool
session = record no_session { access_token = "token" }

load-save_example :
    ((save json all_work session (some "old")).1 ≡ none)
      × (load json (read_result (save json all_work session (some "old")).0) ≡ inl session)
    ⊎ ((save json all_work session (some "old")).1 ≢ none)
      × (load json (read_result (save json all_work session (some "old")).0)
          ≡ load json (read_result (some "old")))
load-save_example = load-save json all_work session (some "old") (λ bytes e. cc)
