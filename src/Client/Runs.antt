-- ===== src/Client/Runs.antt =====
-- A client that syncs and refreshes its token, with its theorems at concrete inputs.
use line_go.Common.{
  ℕ, ◌+◌, ◌≤◌, ◌≡◌, refl, arith, String, Bool, true, false, none, some, List, [], ◌∷◌, ◌++◌, pos,
  length, if◌then◌else◌,
}
use line_go.Files.{Calls}
use line_go.Storage.{Session, no_session, save, replace_file, save_encoded}
use line_go.Protocol.Value.{boolean, members, Members, no_members, member, insert, plain_field}
use line_go.Protocol.Varint.{
  varint, groups, signed, zigzag, binary, read_varint, varint_loop, read_signed, unzigzag,
  read_binary, read_take, read_byte,
}
use line_go.Protocol.Containers.{read_items}
use line_go.Protocol.Compact.Types.{compact_type, code, is_bool, of_code, guard_cap}
use line_go.Protocol.Compact.{
  encode_call, string_or_bytes, struct_value, field_type, field_header, decode_message, read_value,
  read_struct, read_field_id, read_container, read_size,
}
use line_go.Client.{
  Client, Env, Answer, answered, refused, done, own, wrapped, not_saved, pure, modify, post, moment,
  get, and_then, ◌>>=◌, wrapping, wrapped_result, service_at,
}
use line_go.Client.Models.{Operation}
use line_go.Client.Replies.{saved_result}
use line_go.Client.Requests.{save_session, refresh_access_token, call, attempt}
use line_go.Client.Sync.{
  read_response, ensure_access_token, accept, requested, request_sync, sync_once,
}
use line_go.Client.Listen.{
  Options, Loop, kicks, or_default, or_at_least, deliver, delays_of, listen,
}
use line_go.Client.Listen.Order.{sent_to, operations_of, deliver-sends}
use line_go.Client.Listen.Waits.{AllAtMost, listen-waits}
use line_go.Client.Rotation.{refresh_access_token-once}
use line_go.Client.Posts.Syncs.{sync_once-posts}
use line_go.Client.Saved.{IsTaken, accept-lost, sync_once-saved}
use package.text.Mathlib.Text.{◌==◌ as str_eq}

-- An answer to `sync`, which has an operation of revision 7 and type 133, and one to `refresh`, which has the
-- access token "b".
abbrev sync_answer : List ℕ
sync_answer =
    0x82 ∷ 0x41 ∷ 1 ∷ 4 ∷ b's' ∷ b'y' ∷ b'n' ∷ b'c' ∷ 0x0c ∷ 0 ∷ 0x1c ∷ 0x19 ∷ 0x1c ∷ 0x16 ∷ 14
    ∷ 0x25 ∷ 0x8a ∷ 2 ∷ 0 ∷ 0 ∷ 0 ∷ 0 ∷ []

abbrev refresh_answer : List ℕ
refresh_answer =
    0x82 ∷ 0x41 ∷ 1 ∷ 7 ∷ b'r' ∷ b'e' ∷ b'f' ∷ b'r' ∷ b'e' ∷ b's' ∷ b'h' ∷ 0x0c ∷ 0 ∷ 0x18 ∷ 1
    ∷ b'b' ∷ 0 ∷ 0 ∷ []

abbrev works : Calls
works = record {
  mkdir_ok = true;
  create_ok = true;
  chmod_ok = true;
  write_ok = true;
  sync_ok = true;
  close_ok = true;
  rename_ok = true;
}

abbrev left_session : String → Session Bool
left_session token = record no_session {
  access_token = token;
  sync_state = record { revision = pos 7; global_revision = pos 0; individual_revision = pos 0 };
}

abbrev env_with : Answer → Bool → Env Bool
env_with answer created = record {
  json = record { marshal = λ s. some s.access_token; unmarshal = λ t. some (left_session "a") };
  runtime = record { is_utf8 = λ s. true; max_cap = 1_000_000 };
  search = record { to_lower = λ t. t; has = λ t u. false };
  text = λ s. "b";
  bytes = λ t.
      if str_eq t "refresh"
      then b'r' ∷ b'e' ∷ b'f' ∷ b'r' ∷ b'e' ∷ b's' ∷ b'h' ∷ []
      else b's' ∷ b'y' ∷ b'n' ∷ b'c' ∷ [];
  show = λ e. "error";
  parts = λ t. [];
  claim = λ t. none;
  at = λ n. record {
    now = 1_000;
    answer = answer;
    calls = record works { create_ok = created };
    cancelled = false;
    jitter = 5;
  };
}

abbrev client : Client Bool
client = record {
  session = record no_session { access_token = "a" };
  file = some "old";
  services = λ which. record { sequence = 0; access = "" };
  tick = 0;
  trace = [];
}

abbrev operation : Operation
operation = record {
  revision = pos 7;
  created_time = pos 0;
  type = pos 133;
  request_sequence = pos 0;
  checksum = "";
  status = pos 0;
  param1 = "";
  param2 = "";
  param3 = "";
  message = none;
}

abbrev env : Env Bool
env = env_with (answered sync_answer) true

abbrev loop : Loop Bool
loop = record { client = client; sent = []; waits = [] }

abbrev options : Options
options = record { count = pos 0; idle = pos 0; retry = pos 0; max_retry = pos 0 }

deliver-sends_example :
    sent_to kicks (deliver env (delays_of options) (operation ∷ []) false loop).0.sent
    ≡ sent_to kicks [] ++ operations_of kicks (operation ∷ [])
unfolding delays_of deliver or_default or_at_least
deliver-sends_example =
    deliver-sends env (delays_of options) (operation ∷ []) false loop 1_000_000_000 refl kicks

listen-waits_example :
    AllAtMost 30_000_000_000 (listen (env_with (refused "down" none) true) 6 options loop).0.waits
unfolding delays_of or_default or_at_least
listen-waits_example =
    listen-waits (env_with (refused "down" none) true) 30_000_000_000 6 options loop
      (record {
        idle = omega arith;
        retry = omega arith;
        max_retry = omega arith;
        reconnect = omega arith;
      })
      refl

sync_once-posts_example : length (sync_once env (pos 100) client).0.trace ≤ length client.trace + 4
sync_once-posts_example = sync_once-posts env (pos 100) client

-- The response that says that there is more.
abbrev response : Members
response = member 1 (members (member 2 (boolean true) no_members)) no_members

accept-lost_example :
    ((accept
        (env_with (answered []) false)
        client.session.sync_state
        (members response)
        client).0.session.sync_state
      ≡ (read_response env.text client.session.sync_state response).state)
    × ((accept
          (env_with (answered []) false)
          client.session.sync_state
          (members response)
          client).0.file
        ≡ client.file)
unfolding accept save_session saved_result wrapping wrapped_result ◌>>=◌ and_then modify pure save
accept-lost_example =
    accept-lost (env_with (answered []) false) client.session.sync_state response client
      (wrapped (own not_saved)) refl

sync_once-saved_example :
    IsTaken env client.session.sync_state (operation ∷ []) (sync_once env (pos 100) client).0
unfolding sync_once request_sync requested ensure_access_token accept save_session saved_result
    wrapping wrapped_result ◌>>=◌ and_then modify pure get post service_at call attempt
    read_response save replace_file save_encoded decode_message read_value read_struct read_field_id
    read_container read_size read_items read_varint varint_loop read_signed unzigzag read_binary
    read_take read_byte of_code guard_cap insert encode_call struct_value field_type compact_type
    field_header code is_bool plain_field varint groups signed zigzag binary
sync_once-saved_example =
    sync_once-saved env (pos 100) client (operation ∷ []) false (λ bytes e. refl) refl

abbrev stale : Client Bool
stale = record client { session = record client.session { refresh_token = "r" } }

refresh_access_token-once_example :
    refresh_access_token
      (env_with (answered refresh_answer) true)
      "a"
      false
      (refresh_access_token (env_with (answered refresh_answer) true) "a" false stale).0
    ≡ ((refresh_access_token (env_with (answered refresh_answer) true) "a" false stale).0, done "b")
unfolding refresh_access_token save_session saved_result wrapping wrapped_result ◌>>=◌ and_then
    modify pure get post moment service_at attempt save replace_file save_encoded decode_message
    read_value read_struct read_field_id read_varint varint_loop read_signed unzigzag read_binary
    read_take read_byte of_code insert encode_call struct_value field_type compact_type field_header
    code is_bool plain_field varint groups signed zigzag binary string_or_bytes
refresh_access_token-once_example =
    refresh_access_token-once (env_with (answered refresh_answer) true) "a" "b" stale refl refl refl
