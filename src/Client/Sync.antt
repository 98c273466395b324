-- ===== src/Client/Sync.antt =====
-- `EnsureAccessToken`, `BootstrapLatestRevision` and `SyncOnce` of client/client.go.
use line_go.Common.{
  ℕ, ◌+◌, ◌*◌, String, Bool, true, false, not, Option, none, some, List, [], ◌∷◌, ltb, leb,
  if◌then◌else◌, ℤ, pos, negsuc,
}
use line_go.Storage.{SyncState}
use line_go.Protocol.Value.{
  Kind, Value, boolean, integral, int32, int64, fields, members, Fields, no_fields, field, Items,
  no_items, item, Members, plain_field,
}
use line_go.Client.{
  Client, Env, Act, ◌>>=◌, ◌>>◌, pure, throw, get, modify, wrapping, moment, own, talk, sync,
  unexpected_result, bad_count,
}
use line_go.Client.Models.{
  Operation, pattern_of, integer_of, find_member, int64_field, members_of, items_of,
  parse_operation,
}
use line_go.Client.Replies.{is_positive}
use line_go.Client.Requests.{save_session, refresh_access_token, call}
use package.text.Mathlib.Text.{◌==◌ as str_eq}

unfoldable pub is_below : ℤ → ℤ → Bool
is_below (pos m) (pos n) = ltb m n
is_below (pos m) (negsuc n) = false
is_below (negsuc m) (pos n) = true
is_below (negsuc m) (negsuc n) = ltb n m

-- `jwtExpiry`, of the parts of a token.
unfoldable pub jwt_expiry : (String → Option ℤ) → List String → Option ℤ
unfolding is_positive
jwt_expiry claim (header ∷ payload ∷ signature ∷ []) = elim (claim payload) [
  | none ↦ none
  | some expires ↦ if is_positive expires then some expires else none
]
jwt_expiry claim _ = none

-- Whether a time in seconds is at most so many milliseconds away.
unfoldable pub is_due : ℕ → ℕ → ℤ → Bool
is_due now ahead (pos seconds) = leb (seconds * 1_000) (now + ahead)
is_due now ahead (negsuc n) = true

unfoldable pub expires_soon : ℕ → Option ℤ → Bool
unfolding is_due
expires_soon now none = false
expires_soon now (some expires) = is_due now 300_000 expires

unfoldable pub refresh_is_due : ℕ → Option ℤ → ℤ → Bool
unfolding is_due expires_soon is_positive
refresh_is_due now expiry at =
    if is_positive at
    then is_due now 60_000 at
    else if is_below at (pos 0)
    then false
    else expires_soon now expiry

-- The later of a revision and an operation's, over the operations that can be read.
unfoldable pub later_revision : ℤ → ℤ → ℤ
unfolding is_below
later_revision known revision = if is_below known revision then revision else known

unfoldable pub collect : (List ℕ → String) → ℤ → Items → ℤ × List Operation
unfolding later_revision parse_operation
collect string revision no_items = (revision, [])
collect string revision (item v vs) = elim (parse_operation string v) [
  | none ↦ collect string revision vs
  | some op ↦
      let rest = collect string (later_revision revision op.revision) vs in (rest.0, op ∷ rest.1)
]

-- The revision of some events, where there are events.
unfoldable pub event_revision : ℤ → Option Members → ℤ
unfolding int64_field
event_revision old none = old
event_revision old (some events) = int64_field events 2

unfoldable pub is_true : Option Value → Bool
is_true (some (boolean b)) = b
is_true _ = false

pub record Synced : Type 0 where
  pub state : SyncState
  pub operations : List Operation
  pub has_more : Bool

unfoldable pub read_operations : (List ℕ → String) → SyncState → Members → Synced
unfolding collect items_of members_of find_member event_revision is_true
read_operations string state response =
    let collected = collect string state.revision (items_of (find_member 1 response)) in
    record {
      state = record {
        revision = collected.0;
        global_revision =
            event_revision state.global_revision (members_of (find_member 3 response));
        individual_revision =
            event_revision state.individual_revision (members_of (find_member 4 response));
      };
      operations = collected.1;
      has_more = is_true (find_member 2 response);
    }

-- A full synchronization moves the revision and has no operations.
unfoldable pub read_full : SyncState → Option Members → Synced
unfolding int64_field is_positive
read_full state none = record { state = state; operations = []; has_more = false }
read_full state (some full) = record {
  state =
      if is_positive (int64_field full 2)
      then record state { revision = int64_field full 2 }
      else state;
  operations = [];
  has_more = false;
}

unfoldable pub read_response : (List ℕ → String) → SyncState → Members → Synced
unfolding read_operations read_full members_of find_member
read_response string state response = elim (members_of (find_member 1 response)) [
  | some operations ↦ read_operations string state operations
  | none ↦ read_full state (members_of (find_member 2 response))
]

unfoldable pub with_state : {M : Type 0} → SyncState → Client M → Client M
with_state state c = record c { session = record c.session { sync_state = state } }

abbrev pub sync_fields : SyncState → ℤ → Fields
sync_fields state count =
    field (plain_field 1 Kind.struct)
      (fields (
        field (plain_field 1 Kind.i64) (integral int64 (pattern_of state.revision)) (
          field (plain_field 2 Kind.i32) (integral int32 (pattern_of count)) (
            field (plain_field 3 Kind.i64) (integral int64 (pattern_of state.global_revision)) (
              field (plain_field 4 Kind.i64) (integral int64 (pattern_of state.individual_revision))
                no_fields)))))
      no_fields

module _ {M : Type 0} (env : Env M) where
  unfoldable pub ensure_access_token : Act M (Unit {0})
  unfolding refresh_is_due refresh_access_token jwt_expiry
  ensure_access_token = do
    c ← get
    if str_eq c.session.refresh_token "" then pure tt else do
      m ← moment env
      if not (
            refresh_is_due m.now (jwt_expiry env.claim (env.parts c.session.access_token))
              c.session.token_refresh_at)
          then pure tt
          else (do new ← refresh_access_token env c.session.access_token false; pure tt)

  -- `GetLastOpRevision` of service/talk.go.
  unfoldable pub last_revision : Value → Act M ℤ
  unfolding integer_of
  last_revision (integral int64 n) = pure (integer_of 64 n)
  last_revision _ = throw (own unexpected_result)

  -- The revision before and the latest one.
  unfoldable pub bootstrap_latest_revision : Act M (ℤ × ℤ)
  unfolding call last_revision with_state save_session is_below
  bootstrap_latest_revision = do
    c ← get
    value ← call env talk (env.bytes "getLastOpRevision") no_fields c.session.access_token
    latest ← last_revision value
    c' ← get
    if is_below c'.session.sync_state.revision latest
        then (do
          modify (with_state (record c'.session.sync_state { revision = latest }))
          save_session env
          pure (c'.session.sync_state.revision, latest))
        else pure (c'.session.sync_state.revision, latest)

  -- What `SyncOnce` makes of a response: the state is kept before it is saved.
  unfoldable pub accept : SyncState → Value → Act M (List Operation × Bool)
  unfolding read_response with_state save_session
  accept state (members response) = do
    modify (with_state (read_response env.text state response).state)
    wrapping (save_session env)
    pure (
      (read_response env.text state response).operations,
      (read_response env.text state response).has_more,
    )
  accept state _ = throw (own unexpected_result)

  -- The call of `Sync`, with the revisions that it is made by.
  unfoldable pub requested : ℤ → Act M (SyncState × Value)
  unfolding call
  requested count = do
    c ← get
    value ←
        call env sync (env.bytes "sync") (sync_fields c.session.sync_state count)
          c.session.access_token
    pure (c.session.sync_state, value)

  unfoldable pub request_sync : ℤ → Act M (SyncState × Value)
  unfolding ensure_access_token requested
  request_sync count = do ensure_access_token; requested count

  unfoldable pub sync_once : ℤ → Act M (List Operation × Bool)
  unfolding request_sync accept
  sync_once count =
      if not (is_positive count)
      then throw (own bad_count)
      else do (state, value) ← request_sync count; accept state value
