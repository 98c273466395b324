-- ===== src/Guard/Engine/Handlers.antt =====
-- The other handlers of guard/engine.go: a cancelled invitation, a change of the chat, a join, a read;
-- and `Handle`, which chooses among them. Messages go to a handler that is a parameter.
use line_go.Common.{
  ℕ, String, Bool, false, not, ◌&&◌, ◌||◌, Option, none, some, List, [], ◌∷◌, ◌==◌, if◌then◌else◌,
}
use line_go.Guard.Lists.{contains}
use line_go.Guard.Store.Roles.{register_bot}
use line_go.Guard.Store.Settings.{protection, record_reader}
use line_go.Guard.War.{kicks_joined}
use line_go.Guard.Engine.{
  closes_ticket, Env, Engine, Operation, M, ◌>>=◌, ◌>>◌, pure, gets, nil, moment, call,
}
use line_go.Guard.Engine.Memory.{
  duplicate, event_key, split_mids, observe_membership, observe_audit, is_primary, is_group_reserve,
  is_bot, set_member, clear_pending_invite,
}
use line_go.Guard.Engine.WarRecords.{
  with_store, war_now, add_war_risk, record_war_action, observe_war_auto, or_zero,
}
use line_go.Guard.Engine.Invitation.{handle_invitation}
use line_go.Guard.Engine.Kick.{handle_kick}
use line_go.Guard.Engine.Actions.{
  role_of, is_user, start_reconcile, text_of, kick, protector_for, eject_and_blacklist,
  park_reserves,
}
use line_go.Common.{find_key}
use text.Mathlib.Text.{◌==◌ as str_eq}

unfoldable pub forget_cancelled : String → List String → M Bool
unfolding is_primary set_member clear_pending_invite
forget_cancelled group [] = pure false
forget_cancelled group (mid ∷ mids) = do
  e ← gets (λ e. e)
  (if is_primary e mid
      then set_member group mid false >> clear_pending_invite group mid
      else pure tt)
  others ← forget_cancelled group mids
  pure (is_primary e mid || others)

-- When the quarantine of a member ends.
unfoldable pub quarantine_of : Engine → String → String → ℕ
unfolding or_zero
quarantine_of e group mid = elim (find_key e.war group) [
  | none ↦ 0
  | some r ↦ or_zero (find_key r.quarantine mid)
]

module _ (env : Env) where
  unfoldable pub handle_cancellation : Operation → String → M (Option String)
  unfolding forget_cancelled start_reconcile is_bot role_of is_user protector_for
      eject_and_blacklist duplicate event_key split_mids
  handle_cancellation op client = do
    (war, on) ← war_now env op.param1
    if str_eq op.param1 "" || str_eq op.param2 "" || str_eq op.param3 "" then pure nil else do
      old ← duplicate env (event_key env op)
      if old then pure nil else do
        bot_cancelled ← forget_cancelled op.param1 (split_mids env op.param3)
        (if bot_cancelled then start_reconcile env op.param1 else pure tt)
        e ← gets (λ e. e)
        if (not (protection op.param1 e.store).cancel && not on)
              || is_bot e op.param2
              || not (is_user (role_of e op.param1 op.param2))
            then pure nil
            else do
              (if on then add_war_risk env op.param1 op.param2 3 else pure tt)
              protector ← protector_for env op.param1 op.param3 client
              elim protector [
                | none ↦ pure nil
                | some p ↦ do ejected ← eject_and_blacklist env p op.param1 op.param2; pure nil
              ]

  unfoldable pub close_and_eject : String → String → String → M (Option String)
  unfolding record_war_action eject_and_blacklist
  close_and_eject protector group actor = do
    m ← call env (closes_ticket protector group)
    record_war_action env group "qr" m.error
    elim m.error [
      | some error ↦ pure (some error)
      | none ↦ eject_and_blacklist env protector group actor
    ]

  unfoldable pub handle_chat_update : Operation → String → M (Option String)
  unfolding close_and_eject is_bot role_of is_user protector_for duplicate event_key
  handle_chat_update op client = do
    (war, on) ← war_now env op.param1
    e ← gets (λ e. e)
    if str_eq op.param1 ""
          || str_eq op.param2 ""
          || not (str_eq op.param3 "4")
          || (not (protection op.param1 e.store).qr && not on && not war.locked)
        then pure nil
        else do
          old ← duplicate env (event_key env op)
          if old || is_bot e op.param2 || not (is_user (role_of e op.param1 op.param2))
              then pure nil
              else do
                (if on then add_war_risk env op.param1 op.param2 4 else pure tt)
                protector ← protector_for env op.param1 "" client
                elim protector [
                  | none ↦ pure (some "no bot is available to enforce QR protection")
                  | some p ↦ close_and_eject p op.param1 op.param2
                ]

  -- `warJoinAction`.
  unfoldable pub war_join_action : String → String → String → M (Option String)
  unfolding kick quarantine_of
  war_join_action client group joined = do
    (war, on) ← war_now env group
    if not on then pure nil else do
      m ← moment env
      e ← gets (λ e. e)
      if not (kicks_joined m.now war (quarantine_of e group joined) e.store.state group joined)
          then pure nil
          else do add_war_risk env group joined 2; kick env client group (joined ∷ [])

  -- `handleJoin` where the member is not to be kicked for the blacklist.
  unfoldable pub welcome : String → String → String → M (Option String)
  unfolding war_join_action park_reserves is_primary is_group_reserve
  welcome group joined client = do
    failed ←
        if not (str_eq group "") && not (str_eq joined "")
        then war_join_action client group joined
        else pure nil
    elim failed [
      | some error ↦ pure (some error)
      | none ↦ do
        e ← gets (λ e. e)
        if not (str_eq group "") && is_primary e joined && not (is_group_reserve e group joined)
            then park_reserves env group client
            else pure nil
    ]

  unfoldable pub handle_join : Operation → String → M (Option String)
  unfolding welcome kick duplicate event_key
  handle_join op client = do
    let joined = if str_eq op.param2 "" then op.param3 else op.param2
    e ← gets (λ e. e)
    if str_eq op.param1 "" || str_eq joined "" || not (contains e.store.state.blacklist joined)
        then welcome op.param1 joined client
        else do
          old ← duplicate env (event_key env op)
          if old then welcome op.param1 joined client else kick env client op.param1 (joined ∷ [])

  unfoldable pub handle_read : Operation → M (Option String)
  unfolding is_bot with_store
  handle_read op = do
    e ← gets (λ e. e)
    if str_eq op.param1 "" || str_eq op.param2 "" || is_bot e op.param2
        then pure nil
        else do recorded ← with_store env (λ m s. record_reader op.param1 op.param2 s); pure nil

  -- What `Handle` does by the type of the operation; `on_message` stands for `handleMessage`.
  unfoldable pub dispatch :
      (Operation → String → M (Option String)) → Operation → String → M (Option String)
  unfolding handle_read handle_join handle_invitation handle_cancellation handle_chat_update
      handle_kick
  dispatch on_message op client =
      if op.type == 26
      then on_message op client
      else if op.type == 55
      then handle_read op
      else if op.type == 60
      then handle_join op client
      else if op.type == 124
      then handle_invitation env op client
      else if op.type == 126
      then handle_cancellation op client
      else if op.type == 122
      then handle_chat_update op client
      else if op.type == 133
      then handle_kick env op client
      else pure nil

  unfoldable pub handle :
      (Operation → String → M (Option String)) → Operation → String → M (Option String)
  unfolding dispatch observe_membership observe_audit observe_war_auto with_store text_of
  handle on_message op client = do
    failed ← with_store env (λ m s. register_bot env.json m.calls client s)
    elim failed [
      | some error ↦ pure (text_of (some error))
      | none ↦ do
        observe_membership op client
        observe_audit env op
        (if str_eq op.param1 "" then pure tt else observe_war_auto env op.param1)
        dispatch on_message op client
    ]
