-- ===== src/Guard/Engine/Messages.antt =====
-- `handleMessage` of guard/engine.go, with the protections against @All and floods.
use line_go.Common.{
  ℕ, ◌+◌, ◌-◌, String, Bool, true, false, not, ◌&&◌, ◌||◌, Option, none, some, List, [], ◌∷◌, ◌++◌,
  length, ltb, leb, ◌==◌, if◌then◌else◌, find_key, put_key,
}
use line_go.Guard.Commands.{
  native_all_mention, parse_configured_command, fanout_command, command_aliases,
}
use line_go.Guard.Store.Settings.{protection}
use line_go.Guard.Engine.{
  SpamState, reads_text, Env, Message, Operation, M, ◌>>=◌, ◌>>◌, pure, gets, modify, nil, moment,
  call,
}
use line_go.Guard.Engine.Memory.{is_bot, creator_of, duplicate}
use line_go.Guard.Engine.Actions.{role_of, is_user, reply, kick}
use line_go.Guard.Engine.WarReports.{Reply}
use line_go.Guard.Engine.Commands.{execute}
use Prim.Native.String.{◌++◌ as join}
use text.Mathlib.Text.{◌==◌ as str_eq}

unfoldable pub or_quiet : Option SpamState → SpamState
or_quiet none = record { events = []; warned = none }
or_quiet (some s) = s

-- The events of the last five seconds.
unfoldable pub recent_events : ℕ → List ℕ → List ℕ
recent_events now [] = []
recent_events now (event ∷ events) =
    let rest = recent_events now events in if ltb now (event + 5_000) then event ∷ rest else rest

-- A message at some time: the events of the last five seconds with it, or none of them where they are
-- eight, and whether they were.
unfoldable pub count_message : ℕ → SpamState → SpamState × Bool
unfolding recent_events
count_message now s =
    let events = recent_events now s.events ++ now ∷ [] in
    if leb 8 (length events)
    then (record s { events = [] }, true)
    else (record s { events = events }, false)

-- Whether there was a warning within a minute.
unfoldable pub is_repeat : ℕ → Option ℕ → Bool
is_repeat now none = false
is_repeat now (some warned) = ltb (now - warned) 60_000

module _ (env : Env) where
  unfoldable pub warn_or_remove : String → String → String → String → String → M (Option String)
  unfolding or_quiet is_repeat reply kick
  warn_or_remove client group actor key warning = do
    m ← moment env
    e ← gets (λ e. e)
    let state = or_quiet (find_key e.spam key)
    modify (λ e'. record e' { spam = put_key e'.spam key (record state { warned = some m.now }) })
    if is_repeat m.now state.warned
        then kick env client group (actor ∷ [])
        else reply env client group warning

  -- The part of `handleMessageProtection` against floods; `none` where the message may pass.
  unfoldable pub check_flood : String → Message → M (Option (Option String))
  unfolding count_message or_quiet warn_or_remove
  check_flood client message = do
    m ← moment env
    e ← gets (λ e. e)
    let key = join "flood:" (join message.to (join ":" message.from))
    let counted = count_message m.now (or_quiet (find_key e.spam key))
    modify (λ e'. record e' { spam = put_key e'.spam key counted.0 })
    if not counted.1 then pure none else do
      error ←
          warn_or_remove client message.to message.from (join key ":penalty")
            "Flood protection: slow down messages, stickers, and mentions."
      pure (some error)

  -- `handleMessageProtection`.
  unfoldable pub check_message : String → Message → M (Option (Option String))
  unfolding check_flood warn_or_remove
  check_message client message = do
    e ← gets (λ e. e)
    if (protection message.to e.store).all && native_all_mention env.words message.metadata
        then (do
          error ←
              warn_or_remove client message.to message.from
                (join "all:" (join message.to (join ":" message.from)))
                "Unauthorized @All usage was blocked."
          pure (some error))
        else if not (protection message.to e.store).flood
        then pure none
        else check_flood client message

  -- The protections, for a sender without a role.
  unfoldable pub protect : String → Message → M (Option (Option String))
  unfolding check_message is_user role_of
  protect client message = do
    e ← gets (λ e. e)
    if not (is_user (role_of e message.to message.from)) then pure none else do
      old ← duplicate env (join "user-message:" message.id)
      if old then pure (some nil) else check_message client message

  -- What is told of a command.
  unfoldable pub answer : String → String → Reply → M (Option String)
  unfolding reply
  answer client group (text, some error) =
      reply env client group (join "Permission/action error: " error)
  answer client group (text, none) =
      if str_eq text "" then pure nil else reply env client group text

  unfoldable pub run_command : String → Message → String → String × List String → M (Option String)
  unfolding execute answer
  run_command client message raw (command, targets) = if str_eq command "" then pure nil else do
    old ←
        if not (fanout_command command) && not (str_eq message.id "")
        then duplicate env (join "command-action:" message.id)
        else pure false
    if old then pure nil else do
      told ← execute env client message.to message.from command targets raw
      answer client message.to told

  unfoldable pub read_message : String → Message → String → M (Option String)
  unfolding protect run_command
  read_message client message raw = do
    protected ← protect client message
    elim protected [
      | some error ↦ pure error
      | none ↦ do
        e ← gets (λ e. e)
        run_command client message raw (
            parse_configured_command env.words raw message.metadata
              (command_aliases e.store.state.commands))
    ]

  -- `ResolveMessageText` fails where the text cannot be decrypted.
  unfoldable pub resolve_message : String → Message → M (Option String)
  unfolding read_message reply
  resolve_message client message = do
    m ← call env (reads_text client message.id)
    elim m.error [
      | none ↦ read_message client message m.text
      | some error ↦ do
        failed ← reply env client message.to "E2EE key refreshed; send the command again."
        elim failed [ none ↦ pure nil | some e ↦ pure (some "message could not be decrypted") ]
    ]

  unfoldable pub handle_group_message : String → Message → M (Option String)
  unfolding resolve_message is_bot creator_of
  handle_group_message client message = do
    e ← gets (λ e. e)
    if not (message.to_type == 2)
          || str_eq message.to ""
          || str_eq message.from ""
          || str_eq (creator_of e.store.state) ""
          || is_bot e message.from
        then pure nil
        else do
          old ←
              if str_eq message.id ""
              then pure false
              else duplicate env (join "message:" (join message.id (join ":" client)))
          if old then pure nil else resolve_message client message

  -- `handleMessage`.
  unfoldable pub handle_message : Operation → String → M (Option String)
  unfolding handle_group_message
  handle_message op client = elim op.message [
    | none ↦ pure nil
    | some message ↦ handle_group_message client message
  ]
