-- ===== src/Guard/Engine/Actions.antt =====
-- The actions of guard/engine.go: what a handler asks the network to do, with the membership check
-- before it and the records of health and war after it, and who does it.
use line_go.Common.{
  ℕ, ◌+◌, String, Bool, true, false, not, ◌&&◌, Option, none, some, List, [], ◌∷◌, ◌==◌,
  if◌then◌else◌,
}
use line_go.Guard.Lists.{contains}
use line_go.Guard.Store.{StoreError, Role, user, rank, role}
use line_go.Guard.Store.Settings.{reserve_plan}
use line_go.Guard.Store.Blacklist.{auto_blacklist}
use line_go.Guard.Health.{record_action, rank_clients}
use line_go.Guard.Engine.{
  BotKind, Call, kicks, invites, cancels, gets_chat, befriends, leaves, replies, starts_reconcile,
  Env, Engine, M, ◌>>=◌, ◌>>◌, pure, gets, modify, nil, moment, call,
}
use line_go.Guard.Engine.Memory.{is_present, is_primary, set_member, duplicate}
use line_go.Guard.Engine.WarRecords.{with_store, record_war_action}
use Prim.Native.String.{◌++◌ as join}
use text.Mathlib.Text.{◌==◌ as str_eq}

-- The error of a method of the store, as a text.
unfoldable pub text_of : Option StoreError → Option String
text_of none = none
text_of (some e) = some "state"

-- The clients of the fleet that pass a test.
unfoldable pub clients_that : (String → Bool) → List (String × BotKind) → List String
clients_that test [] = []
clients_that test ((mid, kind) ∷ rest) =
    let later = clients_that test rest in if test mid then mid ∷ later else later

unfoldable pub first_of : List String → Option String
first_of [] = none
first_of (mid ∷ mids) = some mid

-- The place of a client in a list.
unfoldable pub position_of : String → List String → Option ℕ
position_of current [] = none
position_of current (mid ∷ mids) =
    let later = position_of current mids in
    if str_eq mid current then some 0 else elim later [ none ↦ none | some n ↦ some (n + 1) ]

-- Whether a chat that was returned alone has the member.
unfoldable pub only_chat_has : String → List (List String) → Bool
only_chat_has mid (members ∷ []) = contains members mid
only_chat_has mid _ = false

unfoldable pub role_of : Engine → String → String → Role
role_of e group mid = role e.store.state group mid

-- Whether the role is that of a user without one.
unfoldable pub is_user : Role → Bool
is_user r = rank r == rank user

module _ (env : Env) where
  unfoldable pub start_reconcile : String → M (Unit {0})
  start_reconcile group = do m ← call env (starts_reconcile group); pure tt

  unfoldable pub reply : String → String → String → M (Option String)
  reply client group text = do m ← call env (replies client group text); pure m.error

  unfoldable pub record_health : String → String → Option String → M (Unit {0})
  record_health mid action error = do
    m ← moment env
    modify (λ e. record e { health = record_action env.search m.now mid action error e.health })

  -- `confirmGroupMembership`; an error is on the right.
  unfoldable pub confirm_membership : String → String → M (Bool × Option String)
  unfolding only_chat_has
  confirm_membership client group = do
    m ← call env (gets_chat client group)
    elim m.error [
      | some error ↦ pure (false, some error)
      | none ↦ do
        set_member group client (only_chat_has client m.chats)
        pure (only_chat_has client m.chats, nil)
    ]

  -- What `kick`, `invite` and `cancel` share.
  unfoldable pub act_as_member : String → String → String → Call → M (Option String)
  unfolding confirm_membership record_health record_war_action
  act_as_member client group action request = do
    (present, refused) ← confirm_membership client group
    elim refused [
      | some error ↦ pure (some error)
      | none ↦
          if not present
          then pure (some (join "action skipped: bot is not in the group mid=" client))
          else do
            m ← call env request
            record_health client action m.error
            record_war_action env group action m.error
            pure m.error
    ]

  unfoldable pub kick : String → String → List String → M (Option String)
  unfolding act_as_member
  kick client group targets = act_as_member client group "kick" (kicks client group targets)

  unfoldable pub invite : String → String → List String → M (Option String)
  unfolding act_as_member
  invite client group targets = act_as_member client group "invite" (invites client group targets)

  unfoldable pub cancel : String → String → List String → M (Option String)
  unfolding act_as_member
  cancel client group targets = act_as_member client group "cancel" (cancels client group targets)

  -- `e.health.rank`.
  unfoldable pub ranked : List String → M (List String)
  ranked mids = do
    m ← moment env
    gets (λ e. rank_clients env.sort (λ mid. mid) m.now e.health mids)

  -- The clients that are in the group, without one.
  unfoldable pub others_present : String → String → Engine → List String
  unfolding clients_that is_present
  others_present group excluded e =
      clients_that (λ mid. not (str_eq mid excluded) && is_present e group mid) e.fleet

  unfoldable pub protector_for : String → String → String → M (Option String)
  unfolding others_present first_of ranked
  protector_for group excluded fallback = do
    present ← gets (others_present group excluded)
    elim (env.sort_texts present) [
      | [] ↦ pure (if str_eq fallback excluded then none else some fallback)
      | mid ∷ mids ↦ do order ← ranked (mid ∷ mids); pure (first_of order)
    ]

  unfoldable pub blacklist_auto : String → String → M (Option String)
  unfolding with_store text_of
  blacklist_auto group target = do
    e ← with_store env (λ m s. auto_blacklist env.json m.calls group target s)
    pure (text_of e)

  -- The clients in turn, until one can kick; the last error otherwise.
  unfoldable pub kick_by_any : String → String → Option String → List String → M (Option String)
  unfolding kick
  kick_by_any group target error [] = pure error
  kick_by_any group target error (client ∷ clients) = do
    outcome ← kick client group (target ∷ [])
    elim outcome [ none ↦ pure nil | some e ↦ kick_by_any group target (some e) clients ]

  unfoldable pub eject_and_blacklist : String → String → String → M (Option String)
  unfolding kick kick_by_any blacklist_auto others_present ranked
  eject_and_blacklist client group actor = do
    saved ← blacklist_auto group actor
    kicked ← kick client group (actor ∷ [])
    outcome ← elim kicked [
      | none ↦ pure nil
      | some error ↦ do
        others ← gets (others_present group client)
        order ← ranked others
        kick_by_any group actor (some error) order
    ]
    elim outcome [ none ↦ pure saved | some error ↦ pure (some error) ]

  -- The kick of `handleKick` against the attacker of a bot: no membership check, no role is looked at.
  unfoldable pub fast_bot_defense_kick : String → String → String → M (Option String)
  unfolding is_present blacklist_auto record_health record_war_action
  fast_bot_defense_kick client group actor = do
    e ← gets (λ e. e)
    if not (is_present e group client) then pure (some "fast defense skipped") else do
      saved ← blacklist_auto group actor
      m ← call env (kicks client group (actor ∷ []))
      record_health client "kick" m.error
      record_war_action env group "kick" m.error
      elim m.error [ none ↦ pure saved | some error ↦ pure (some error) ]

  unfoldable pub defense_position : String → String → String → M (Option ℕ)
  unfolding clients_that ranked position_of is_present is_primary
  defense_position group excluded current = do
    e ← gets (λ e. e)
    order ← ranked (
        clients_that
          (λ mid. not (str_eq mid excluded) && is_primary e mid && is_present e group mid) e.fleet)
    pure (position_of current order)

  unfoldable pub reinvite_privileged : String → String → String → M (Option String)
  unfolding invite
  reinvite_privileged protector group target = do
    befriended ← call env (befriends protector target)
    invite protector group (target ∷ [])

  unfoldable pub park_each : String → String → List String → M (Option String)
  unfolding invite is_present set_member
  park_each group inviter [] = pure nil
  park_each group inviter (mid ∷ mids) = do
    e ← gets (λ e. e)
    parked ←
        if not (is_present e group mid && contains (clients_that (λ m. true) e.fleet) mid)
        then pure nil
        else do
          m ← call env (leaves mid group)
          elim m.error [
            | some error ↦ pure (some error)
            | none ↦ do set_member group mid false; invite inviter group (mid ∷ [])
          ]
    elim parked [ some error ↦ pure (some error) | none ↦ park_each group inviter mids ]

  unfoldable pub park_reserves : String → String → M (Option String)
  unfolding park_each duplicate
  park_reserves group inviter = do
    e ← gets (λ e. e)
    elim (reserve_plan group e.store).1 [
      | [] ↦ pure nil
      | mid ∷ mids ↦ do
        old ← duplicate env (join "park-reserve:" group)
        if old then pure nil else park_each group inviter (mid ∷ mids)
    ]
