-- ===== src/Guard/Store/Persist.antt =====
-- How guard/store.go saves the state and reads it back: `saveLocked`, `OpenStore`, `Backup` and
-- `Restore`. encoding/json is a parameter, and each system call has an outcome that the
-- environment chooses.
use line_go.Common.{String, Bool, true, false, not, Option, none, some}
use line_go.Common.{
  ◌≡◌, ◌≢◌, refl, arith, ◌⊎◌, inl, inr, ℤ, ◌==◌, [], if◌then◌else◌, pos, Option-cases,
}
pub use line_go.Files.{Calls, ReadResult, missing, unreadable, content}
use line_go.Guard.Lists.{contains}
use line_go.Guard.Store.{
  State, creator, rank, role, normalize, StoreError, no_permission, bad_target, marshal_failed,
  file_failed, bad_json,
}

-- `json.MarshalIndent` of a state, `migrateCreatorFormat` with its flag, and `json.Unmarshal` into a state.
pub record Json : Type 0 where
  pub marshal : State → Option String
  pub migrate : String → Option (String × Bool)
  pub unmarshal : State → String → Option State

-- The state in memory, the file at the store's path, and the backup beside it.
pub record Store : Type 0 where
  pub state : State
  pub file : Option String
  pub backup : Option String

-- A state without groups; OpenStore starts at version 1, Restore at 0.
abbrev pub empty_state : ℤ → State
empty_state version = record {
  version = version;
  creators = [];
  owners = [];
  admins = [];
  blacklist = [];
  bots = [];
  commands = [];
  groups = [];
}

-- The temporary file is removed on every path; the file at `path` changes by the rename alone.
unfoldable pub write_file : Calls → String → Store → Store × Option StoreError
write_file calls bytes s =
    if not calls.mkdir_ok
    then (s, some file_failed)
    else if not calls.create_ok
    then (s, some file_failed)
    else if not calls.chmod_ok
    then (s, some file_failed)
    else if not calls.write_ok
    then (s, some file_failed)
    else if not calls.sync_ok
    then (s, some file_failed)
    else if not calls.close_ok
    then (s, some file_failed)
    else if not calls.rename_ok
    then (s, some file_failed)
    else (record s { file = some bytes }, none)

write_file_cases :
    (calls : Calls) (bytes : String) (s : Store)
    → ((write_file calls bytes s).0.state ≡ s.state)
      × ((write_file calls bytes s).0.backup ≡ s.backup)
      × (((write_file calls bytes s).1 ≡ none) × ((write_file calls bytes s).0.file ≡ some bytes)
          ⊎ ((write_file calls bytes s).1 ≡ some file_failed)
            × ((write_file calls bytes s).0.file ≡ s.file))
unfolding write_file
write_file_cases calls bytes s = ground arith

module _ (json : Json) (calls : Calls) where
  unfoldable pub save : Store → Store × Option StoreError
  unfolding write_file
  save s = elim (json.marshal s.state) [
    | none ↦ (s, some marshal_failed)
    | some bytes ↦ write_file calls bytes s
  ]

  -- A method that sets the state and saves it.
  unfoldable pub commit : Store → State → Store × Option StoreError
  commit s state = save (record s { state = state })

  unfoldable pub decode : State → String → Option (State × Bool)
  decode into bytes = elim (json.migrate bytes) [
    | none ↦ none
    | some (data', migrated) ↦ elim (json.unmarshal into data') [
      | none ↦ none
      | some state ↦ some (state, migrated)
    ]
  ]

  unfoldable pub finish_open : Bool → Store → Store ⊎ StoreError
  finish_open false s = inl s
  finish_open true s = elim (save s).1 [ none ↦ inl (save s).0 | some e ↦ inr e ]

  -- `OpenStore`: a file that does not exist gives an empty store; one in the old format is saved.
  unfoldable pub open_store : ReadResult → Store ⊎ StoreError
  unfolding finish_open
  open_store missing = inl (record { state = empty_state (pos 1); file = none; backup = none })
  open_store unreadable = inr file_failed
  open_store (content bytes) = elim (decode (empty_state (pos 1)) bytes) [
    | none ↦ inr bad_json
    | some (state, migrated) ↦
        finish_open migrated (record { state = normalize state; file = some bytes; backup = none })
  ]

  -- `os.WriteFile` of the backup is not atomic: where it fails, it leaves `left`.
  unfoldable pub backup : Bool → Option String → String → Store → Store × Option StoreError
  backup written left actor s =
      if not (rank (role s.state "" actor) == rank creator)
      then (s, some no_permission)
      else elim (json.marshal s.state) [
        | none ↦ (s, some marshal_failed)
        | some bytes ↦
            if written
            then (record s { backup = some bytes }, none)
            else (record s { backup = left }, some file_failed)
      ]

  unfoldable pub restore_state : String → State → Store → Store × Option StoreError
  restore_state actor restored s =
      if not (contains restored.creators actor)
      then (s, some bad_target)
      else commit s (normalize restored)

  unfoldable pub restore_decoded :
      String → Option (State × Bool) → Store → Store × Option StoreError
  unfolding restore_state
  restore_decoded actor none s = (s, some bad_json)
  restore_decoded actor (some (restored, migrated)) s = restore_state actor restored s

  -- `Restore` of a backup that must name the actor as a creator.
  unfoldable pub restore : ReadResult → String → Store → Store × Option StoreError
  unfolding restore_decoded
  restore source actor s =
      if not (rank (role s.state "" actor) == rank creator)
      then (s, some no_permission)
      else elim source [
        | missing ↦ (s, some file_failed)
        | unreadable ↦ (s, some file_failed)
        | content bytes ↦ restore_decoded actor (decode (empty_state (pos 0)) bytes) s
      ]

  -- A save either succeeds and leaves the marshalled state in the file, or fails and leaves the
  -- old file. Memory and backup stay as they are.
  pub save_cases :
      (s : Store)
      → ((save s).0.state ≡ s.state)
        × ((save s).0.backup ≡ s.backup)
        × (((save s).1 ≡ none) × ((save s).0.file ≡ json.marshal s.state)
            ⊎ ((save s).1 ≢ none) × ((save s).0.file ≡ s.file))
  unfolding save
  save_cases s = elim (Option-cases (json.marshal s.state)) [
    | inl e ↦ rw (e, save) (refl, refl, inr ((λ h. cc), refl))
    | inr (bytes, e) ↦ rw (e, save) (ground (arith, write_file_cases calls bytes s))
  ]

  -- Whether or not the save succeeds, the memory has the new state.
  pub commit-state : (s : Store) (state : State) → (commit s state).0.state ≡ state
  unfolding commit
  commit-state s state = (save_cases (record s { state = state })).0
