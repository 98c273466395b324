-- ===== src/Guard/Engine/Memory.antt =====
-- What the engine of guard/engine.go remembers beside its store: the events it has seen, the bots in
-- each group, the invitations that are pending, the audit of each group.
use line_go.Common.{
  ℕ, suc, ◌+◌, ◌-◌, String, Bool, true, false, not, ◌&&◌, ◌||◌, Option, none, some, List, [], ◌∷◌,
  ◌++◌, length, drop, ltb, ◌==◌, if◌then◌else◌, find_key, put_key, drop_key, keep_values,
}
use line_go.Guard.Lists.{contains}
use line_go.Guard.Store.{State}
use line_go.Guard.Store.Settings.{reserve_plan}
use line_go.Guard.Engine.{
  BotKind, AuditEvent, Env, Engine, Message, Operation, M, ◌>>=◌, ◌>>◌, pure, gets, modify, moment,
}
use Prim.Native.String.{◌++◌ as join}
use text.Mathlib.Text.{◌==◌ as str_eq}

-- `duplicate` on the map of the keys that were seen, each with the time when it expires.
unfoldable pub note_seen : ℕ → String → List (String × ℕ) → List (String × ℕ) × Bool
note_seen now key seen =
    let live = keep_values (λ expires. not (ltb expires now)) seen in
    elim (find_key live key) [
      | none ↦ (put_key live key (now + 10_000), false)
      | some expires ↦
          if ltb now expires then (live, true) else (put_key live key (now + 10_000), false)
    ]

-- `defenseCompleted`.
unfoldable pub note_defended : ℕ → String → Bool → List (String × ℕ) → List (String × ℕ) × Bool
note_defended now key mark defended =
    let live = keep_values (λ expires. not (ltb expires now)) defended in
    if mark
    then (put_key live key (now + 10_000), true)
    else elim (find_key live key) [ none ↦ (live, false) | some expires ↦ (live, ltb now expires) ]

unfoldable pub or_nothing : {V : Type 0} → Option (List V) → List V
or_nothing none = []
or_nothing (some values) = values

unfoldable pub or_false : Option Bool → Bool
or_false none = false
or_false (some b) = b

unfoldable pub is_present : Engine → String → String → Bool
unfolding or_nothing or_false
is_present e group mid = or_false (find_key (or_nothing (find_key e.members group)) mid)

unfoldable pub is_kind_primary : Option BotKind → Bool
is_kind_primary none = false
is_kind_primary (some BotKind.primary) = true
is_kind_primary (some BotKind.reserve) = false

unfoldable pub is_primary : Engine → String → Bool
unfolding is_kind_primary
is_primary e mid = is_kind_primary (find_key e.fleet mid)

unfoldable pub drop_pending :
    String → String → List (String × List (String × ℕ)) → List (String × List (String × ℕ))
drop_pending group mid pending = elim (find_key pending group) [
  | none ↦ pending
  | some items ↦ put_key pending group (drop_key items mid)
]

-- `setMember`.
unfoldable pub with_member : String → String → Bool → Engine → Engine
unfolding drop_pending or_nothing
with_member group mid present e = if str_eq group "" || str_eq mid "" then e else record e {
  members = put_key e.members group (put_key (or_nothing (find_key e.members group)) mid present);
  pending = if present then drop_pending group mid e.pending else e.pending;
}

unfoldable pub set_member : String → String → Bool → M (Unit {0})
set_member group mid present = modify (with_member group mid present)

unfoldable pub clear_pending_invite : String → String → M (Unit {0})
unfolding drop_pending
clear_pending_invite group mid =
    modify (λ e. record e { pending = drop_pending group mid e.pending })

-- The entries of a group that are present and of a primary bot.
unfoldable pub count_primary : List (String × BotKind) → List (String × Bool) → ℕ
unfolding is_kind_primary
count_primary fleet [] = 0
count_primary fleet ((mid, present) ∷ rest) =
    let more = count_primary fleet rest in
    if present && is_kind_primary (find_key fleet mid) then suc more else more

unfoldable pub primary_count : Engine → String → ℕ
unfolding count_primary or_nothing
primary_count e group = count_primary e.fleet (or_nothing (find_key e.members group))

unfoldable pub is_group_reserve : Engine → String → String → Bool
is_group_reserve e group mid = contains (reserve_plan group e.store).1 mid

unfoldable pub is_bot : Engine → String → Bool
is_bot e mid = contains e.store.state.bots mid

unfoldable pub creator_of : State → String
creator_of s = elim s.creators [ [] ↦ "" | mid ∷ rest ↦ mid ]

-- The last 200 events of a group are kept.
unfoldable pub keep_last : {V : Type 0} → List V → List V
keep_last items = if ltb 200 (length items) then drop (length items - 200) items else items

unfoldable pub with_audit : String → AuditEvent → Engine → Engine
unfolding keep_last or_nothing
with_audit group event e = record e {
  audit = put_key e.audit group (keep_last (or_nothing (find_key e.audit group) ++ event ∷ []));
}

unfoldable pub observe_bot : Operation → String → Bool → Bool → M (Unit {0})
unfolding set_member clear_pending_invite
observe_bot op joined joined_bot kicked_bot =
    if op.type == 60 && joined_bot
    then set_member op.param1 joined true
    else if op.type == 133 && kicked_bot
    then (set_member op.param1 op.param3 false >> clear_pending_invite op.param1 op.param3)
    else pure tt

-- The group that a message was written in.
unfoldable pub message_group : Option Message → Option String
message_group none = none
message_group (some message) = if message.to_type == 2 then some message.to else none

unfoldable pub observe_membership : Operation → String → M (Unit {0})
unfolding set_member is_bot observe_bot message_group
observe_membership op current = do
  (elim (message_group op.message) [ none ↦ pure tt | some group ↦ set_member group current true ])
  e ← gets (λ e. e)
  let joined = if str_eq op.param2 "" then op.param3 else op.param2
  observe_bot op joined (is_bot e joined) (is_bot e op.param3)

module _ (env : Env) where
  unfoldable pub duplicate : String → M Bool
  unfolding note_seen
  duplicate key = if str_eq key "" then pure false else do
    m ← moment env
    e ← gets (λ e. e)
    modify (λ e. record e { seen = (note_seen m.now key e.seen).0 })
    pure (note_seen m.now key e.seen).1

  unfoldable pub defense_completed : String → Bool → M Bool
  unfolding note_defended
  defense_completed key mark = do
    m ← moment env
    e ← gets (λ e. e)
    modify (λ e. record e { defended = (note_defended m.now key mark e.defended).0 })
    pure (note_defended m.now key mark e.defended).1

  unfoldable pub event_key : Operation → String
  event_key op = join "event:" (
      join (env.show op.type)
        (join ":" (join op.param1 (join ":" (join op.param2 (join ":" op.param3))))))

  unfoldable pub clean_mids : List String → List String → List String
  clean_mids result [] = result
  clean_mids result (piece ∷ pieces) =
      let mid = env.trim piece in
      clean_mids
        (if not (str_eq mid "") && not (contains result mid) then result ++ mid ∷ [] else result)
        pieces

  -- `splitMIDs`.
  unfoldable pub split_mids : String → List String
  unfolding clean_mids
  split_mids value = clean_mids [] (env.split value)

  -- The action, the actor and the targets that `observeAudit` takes from an operation.
  unfoldable pub audited : Operation → Option (String × String × List String)
  unfolding split_mids
  audited op =
      let joined = if str_eq op.param2 "" then op.param3 else op.param2 in
      if op.type == 60
      then some ("join", joined, joined ∷ [])
      else if op.type == 124
      then some ("invite", op.param2, split_mids op.param3)
      else if op.type == 126
      then some ("cancel", op.param2, split_mids op.param3)
      else if op.type == 133
      then some ("kick", op.param2, split_mids op.param3)
      else none

  unfoldable pub audit_key : Operation → String → String
  audit_key op actor = join "audit:" (
      join (env.show op.type)
        (join ":" (join (env.show op.created_time) (join ":" (join op.param1 (join ":" actor))))))

  unfoldable pub observe_audit : Operation → M (Unit {0})
  unfolding audited audit_key with_audit duplicate
  observe_audit op = elim (audited op) [
    | none ↦ pure tt
    | some (action, actor, targets) ↦ if str_eq op.param1 "" || str_eq actor "" then pure tt else do
      old ← duplicate (audit_key op actor)
      if old
          then pure tt
          else modify (
              with_audit op.param1 (record {
                at = op.created_time;
                action = action;
                actor = actor;
                targets = targets;
              }))
  ]
