-- ===== src/Guard/Engine/Invitation.antt =====
-- `handleInvitation` of guard/engine.go, with the rollout of the primary bots by a ticket of the group.
use line_go.Common.{
  ℕ, ◌+◌, String, Bool, true, false, not, ◌&&◌, ◌||◌, Option, none, some, List, [], ◌∷◌, length,
  ltb, ◌==◌, if◌then◌else◌,
}
use line_go.Guard.Lists.{contains}
use line_go.Guard.Store.{gadmin, creator, rank, State, role, can_invite, can_kick}
use line_go.Guard.Store.Roles.{bootstrap_creator}
use line_go.Guard.Store.Blacklist.{is_blacklisted}
use line_go.Guard.Store.Settings.{protection}
use line_go.Guard.Engine.{
  accepts, reissues_ticket, opens_ticket, closes_ticket, joins_by_ticket, gets_chat, waits, Env,
  Operation, M, ◌>>=◌, ◌>>◌, pure, gets, nil, call,
}
use line_go.Guard.Engine.Memory.{
  duplicate, event_key, split_mids, is_primary, primary_count, is_group_reserve, is_bot, creator_of,
  set_member, clear_pending_invite,
}
use line_go.Guard.Engine.WarRecords.{with_store, war_now, add_war_risk}
use line_go.Guard.Engine.Actions.{
  role_of, start_reconcile, text_of, clients_that, reply, cancel, protector_for,
  eject_and_blacklist,
}
use Prim.Native.String.{◌++◌ as join}
use text.Mathlib.Text.{◌==◌ as str_eq}

unfoldable pub blacklisted_of : State → List String → List String
unfolding is_blacklisted
blacklisted_of s [] = []
blacklisted_of s (mid ∷ mids) =
    let later = blacklisted_of s mids in if contains s.blacklist mid then mid ∷ later else later

unfoldable pub has_bot : State → List String → Bool
has_bot s [] = false
has_bot s (mid ∷ mids) = contains s.bots mid || has_bot s mids

-- Whether `handleInvitation` lets the inviter invite these.
unfoldable pub may_invite : State → String → String → List String → Bool
unfolding has_bot
may_invite s group inviter invited =
    if (rank (role s group inviter) == rank gadmin) && has_bot s invited
    then false
    else contains s.bots inviter || can_invite s group inviter

module _ (env : Env) where
  -- The clients that join by the ticket, the first without a pause, and how many did.
  unfoldable pub join_each : String → Bool → ℕ → List String → M (ℕ × Option String)
  unfolding set_member
  join_each group first joined [] = pure (joined, nil)
  join_each group first joined (mid ∷ mids) = do
    ready ← if first then pure true else (do m ← call env (waits 150); pure m.done)
    if not ready then pure (joined, some "context") else do
      m ← call env (joins_by_ticket mid group)
      elim m.error [
        | some error ↦ join_each group false joined mids
        | none ↦ do set_member group mid true; join_each group false (joined + 1) mids
      ]

  -- The part of the rollout in which joining by the ticket is open.
  unfoldable pub open_rollout : String → String → List String → M (Option String)
  unfolding join_each
  open_rollout group leader joining = do
    (joined, stopped) ← join_each group true 0 joining
    m ← call env (closes_ticket leader group)
    elim stopped [
      | some error ↦ pure (some error)
      | none ↦
          if not (joined == length joining)
          then pure (some "some primary bots did not join")
          else pure m.error
    ]

  unfoldable pub admit_joining : String → String → List String → M (Option String)
  unfolding open_rollout
  admit_joining group leader joining = do
    issued ← call env (reissues_ticket leader group)
    elim issued.error [
      | some error ↦ pure (some error)
      | none ↦ do
        opened ← call env (opens_ticket leader group)
        elim opened.error [
          | some error ↦ pure (some error)
          | none ↦ open_rollout group leader joining
        ]
    ]

  unfoldable pub admit_absent : String → String → List (List String) → M (Option String)
  unfolding admit_joining clients_that is_primary
  admit_absent group leader (present ∷ []) = do
    e ← gets (λ e. e)
    elim (env.sort_texts (
        clients_that
          (λ mid. not (str_eq mid leader) && is_primary e mid && not (contains present mid))
          e.fleet)) [ [] ↦ pure nil | mid ∷ mids ↦ admit_joining group leader (mid ∷ mids) ]
  admit_absent group leader _ = pure (some "ticket rollout could not retrieve the member list")

  -- `admitPrimaryFleetByGroupTicket`.
  unfoldable pub admit_by_ticket : String → String → M (Option String)
  unfolding admit_absent
  admit_by_ticket group leader = do
    m ← call env (gets_chat leader group)
    elim m.error [ some error ↦ pure (some error) | none ↦ admit_absent group leader m.chats ]

  -- The part of `handleInvitation` for a client that is invited itself, once it may accept.
  unfoldable pub accept_invitation : String → String → String → M (Option String)
  unfolding with_store text_of is_bot role_of admit_by_ticket set_member start_reconcile reply
  accept_invitation group inviter client = do
    (created, failed) ← with_store env (λ m s. bootstrap_creator env.json m.calls inviter s)
    elim failed [
      | some error ↦ pure (text_of (some error))
      | none ↦ do
        m ← call env (accepts client group)
        elim m.error [
          | some error ↦ do start_reconcile env group; pure (some error)
          | none ↦ do
            set_member group client true
            e ← gets (λ e. e)
            rolled ←
                if not (is_bot e inviter) && (rank (role_of e group inviter) == rank creator)
                then admit_by_ticket group client
                else pure nil
            elim rolled [ none ↦ pure tt | some error ↦ start_reconcile env group ]
            if created
                then reply env client group (join "Creator registered: " inviter)
                else pure nil
        ]
    ]

  unfoldable pub handle_own_invitation : String → String → String → M (Option String)
  unfolding accept_invitation is_group_reserve primary_count
  handle_own_invitation group inviter client = do
    clear_pending_invite group client
    e ← gets (λ e. e)
    if is_group_reserve e group client && ltb 0 (primary_count e group)
        then pure nil
        else accept_invitation group inviter client

  -- An inviter who may: the invitations of blacklisted members are cancelled.
  unfoldable pub cancel_blacklisted : String → String → List String → M (Option String)
  unfolding cancel protector_for
  cancel_blacklisted group client [] = pure nil
  cancel_blacklisted group client (mid ∷ mids) = do
    protector ← protector_for env group "" client
    elim protector [
      | none ↦ pure (some "no primary bot is in the group to cancel invitations")
      | some p ↦ cancel env p group (mid ∷ mids)
    ]

  -- An inviter who may not: the invitations are cancelled and the inviter goes.
  unfoldable pub punish_inviter : String → String → List String → String → M (Option String)
  unfolding cancel protector_for eject_and_blacklist
  punish_inviter group inviter invited client = do
    protector ← protector_for env group "" client
    elim protector [
      | none ↦ pure (some "no active bot is available to stop the unauthorized invitation")
      | some p ↦ do
        cancelled ← cancel env p group invited
        e ← gets (λ e. e)
        if can_kick e.store.state group (creator_of e.store.state) inviter
            then eject_and_blacklist env p group inviter
            else pure nil
    ]

  unfoldable pub handle_others_invitation :
      String → String → List String → String → M (Option String)
  unfolding may_invite blacklisted_of cancel_blacklisted punish_inviter
  handle_others_invitation group inviter invited client = do
    (war, on) ← war_now env group
    e ← gets (λ e. e)
    if not (protection group e.store).invite && not on && not war.locked
        then pure nil
        else if may_invite e.store.state group inviter invited
        then cancel_blacklisted group client (blacklisted_of e.store.state invited)
        else do
          (if on then add_war_risk env group inviter 3 else pure tt)
          punish_inviter group inviter invited client

  unfoldable pub handle_invitation : Operation → String → M (Option String)
  unfolding handle_own_invitation handle_others_invitation split_mids event_key duplicate creator_of
  handle_invitation op client = do
    let invited = split_mids env op.param3
    if contains invited client then handle_own_invitation op.param1 op.param2 client else do
      e ← gets (λ e. e)
      if str_eq (creator_of e.store.state) "" then pure nil else do
        old ← duplicate env (event_key env op)
        if old then pure nil else handle_others_invitation op.param1 op.param2 invited client
