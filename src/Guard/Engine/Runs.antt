-- ===== src/Guard/Engine/Runs.antt =====
-- The guard's engine at a concrete group.
use line_go.Common.{
  ℕ, ◌+◌, arith, String, true, false, Option, none, some, ◌≡◌, refl, sym, ap, List, [], ◌∷◌, pos,
  find_key, keep_values, length,
}
use line_go.Guard.Lists.{contains, unique, append_unique, remove_many, remove}
use line_go.Guard.Store.{
  State, no_group, normalize, normalize_groups, role, rank, get_group, in_gadmins,
}
use line_go.Guard.Store.Persist.{Calls}
use line_go.Guard.Store.Normal.{normalize-IsNormal}
use line_go.Guard.Engine.{primary, Call, Moment, Env, Engine, Message, Operation, nil}
use line_go.Guard.Engine.Memory.{note_seen}
use line_go.Guard.Engine.Handlers.{handle}
use line_go.Guard.Engine.Fair.{AreFair}
use line_go.Guard.Engine.HandleFair.{IsAttacker, handle-AreFair, handle-SameRoles}
use line_go.Guard.Engine.Messages.{handle_message}
use line_go.Guard.Engine.Calm.{SameRoles}
use line_go.Guard.Engine.Reserves.{launch_recovery}
use line_go.Guard.Engine.FairRecovery.{launch_recovery-AreFair}
use line_go.Guard.Engine.KickAll.{batches, jobs_from}
use line_go.Guard.Engine.KickAll.Batches.{joined, AreBatches, targets_of, joined-jobs_from}
use line_go.Files.{ReadResult}
use line_go.Guard.Engine.Recent.{note_all, note_seen-note_all}

abbrev state : State
state = record {
  version = pos 1;
  creators = "ann" ∷ [];
  owners = "bob" ∷ [];
  admins = [];
  blacklist = [];
  bots = "bot" ∷ "eye" ∷ [];
  commands = [];
  groups = [];
}

abbrev works : Calls
works = record {
  mkdir_ok = true;
  create_ok = true;
  chmod_ok = true;
  write_ok = true;
  sync_ok = true;
  close_ok = true;
  rename_ok = true;
}

-- Every call of the network succeeds, and the group has five members.
abbrev quiet : ℕ → Moment
quiet tick = record {
  now = 1_000 + tick;
  error = nil;
  chats = ("ann" ∷ "bob" ∷ "bot" ∷ "eye" ∷ "mal" ∷ []) ∷ [];
  calls = works;
  done = true;
  text = "kick bob";
  swaps = [];
  source = ReadResult.missing;
  written = true;
  left = none;
}

abbrev env : Env
env = record {
  json = record {
    marshal = λ s. some "saved";
    migrate = λ t. some (t, false);
    unmarshal = λ s t. some s;
  };
  search = record { to_lower = λ t. t; has = λ t u. false };
  show = λ n. "n";
  sort = λ less xs. xs;
  sort_texts = λ xs. xs;
  split = λ t. t ∷ [];
  trim = λ t. t;
  words = record {
    lower = λ t. t;
    trim = λ t. t;
    fields = λ t. t ∷ [];
    same_fold = λ t u. false;
    bytes = λ t. [];
    mentioned = λ t. none;
    marked = λ t. none;
  };
  strings = record { clean = λ t. t; has_line_break = λ t. false };
  show_int = λ z. "n";
  show_duration = λ z. "n";
  duration = λ t. none;
  at = quiet;
}

abbrev engine : Engine
engine = record {
  store = record { state = normalize state; file = none; backup = none };
  fleet = ("bot", primary) ∷ ("eye", primary) ∷ [];
  members = ("room", ("bot", true) ∷ ("eye", true) ∷ []) ∷ [];
  pending = [];
  seen = [];
  defended = [];
  spam = [];
  audit = [];
  war = [];
  health = [];
  tick = 0;
  trace = [];
}

-- "mal" kicks the bot "eye", and "bot" hears of it.
abbrev kick_of_bot : Operation
kick_of_bot = record {
  type = 133;
  created_time = 5;
  param1 = "room";
  param2 = "mal";
  param3 = "eye";
  message = none;
}

-- "mal" writes a command in the group "room".
abbrev command_of_user : Message
command_of_user = record { id = "7"; from = "mal"; to = "room"; to_type = 2; metadata = [] }

abbrev message_of_user : Operation
message_of_user = record {
  type = 26;
  created_time = 5;
  param1 = "room";
  param2 = "";
  param3 = "";
  message = some command_of_user;
}

-- The calls of the network, the last one first.
abbrev trace : List Call
trace = (handle env (handle_message env) kick_of_bot "bot" engine).0.trace

handle-AreFair_example :
    AreFair engine.store.state
      (IsAttacker engine.store.state kick_of_bot)
      (handle env (handle_message env) kick_of_bot "bot" engine).0.trace
unfolding normalize contains unique append_unique
handle-AreFair_example =
    handle-AreFair env kick_of_bot "bot" engine (normalize-IsNormal state) refl refl

abbrev sender_rank : Option Message → ℕ
sender_rank none = 0
sender_rank (some m) = rank (role engine.store.state m.to m.from)

handle-SameRoles_example :
    SameRoles engine.store.state
      (handle env (handle_message env) message_of_user "bot" engine).0.store.state
unfolding normalize contains unique append_unique role get_group in_gadmins rank remove_many remove
    normalize_groups
handle-SameRoles_example =
    handle-SameRoles env message_of_user "bot" engine (normalize-IsNormal state) refl refl
      (λ m e. sym (ap sender_rank e)) refl

abbrev mids : List String
mids = "ann" ∷ "mal" ∷ []

joined-jobs_from_example :
    (joined (targets_of (jobs_from "bot" ("bot" ∷ "eye" ∷ []) 0 0 (batches (length mids) mids)))
      ≡ mids)
    × AreBatches
        (targets_of (jobs_from "bot" ("bot" ∷ "eye" ∷ []) 0 0 (batches (length mids) mids)))
joined-jobs_from_example = joined-jobs_from "bot" ("bot" ∷ "eye" ∷ []) 0 0 mids

-- The event "b" comes in between.
note_seen-note_all_example :
    (note_seen 8_000 "a" (note_all ((3_000, "b") ∷ []) (note_seen 1_000 "a" []).0)).1 ≡ true
unfolding note_seen find_key keep_values
note_seen-note_all_example =
    note_seen-note_all 1_000 "a" ((3_000, "b") ∷ []) 8_000 [] refl (omega arith, tt) (omega arith)

-- "eye" is the reserve of "room", and "mal" is on the blacklist.
abbrev reserved : Engine
reserved = record engine {
  store = record {
    state = normalize (record state {
      blacklist = "mal" ∷ [];
      groups =
          ("room", some (record no_group { standby_count = pos 1; reserve_mids = "eye" ∷ [] }))
          ∷ [];
    });
    file = none;
    backup = none;
  };
}

launch_recovery-AreFair_example :
    AreFair reserved.store.state (λ member. ⊥) (launch_recovery env "room" reserved).0.trace
    × SameRoles reserved.store.state (launch_recovery env "room" reserved).0.store.state
launch_recovery-AreFair_example =
    launch_recovery-AreFair env "room" reserved (normalize-IsNormal _) refl
