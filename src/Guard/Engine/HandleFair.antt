-- ===== src/Guard/Engine/HandleFair.antt =====
-- Whom `Handle` of guard/engine.go kicks, and when it changes nobody's role.
use line_go.Common.{
  ◌-◌, ◌<◌, ◌||◌, String, true, false, not, ◌&&◌, Option, none, some, inl, inr, ◌⊎◌, ◌≡◌, refl, ◌∙◌,
  arith, [], ◌==◌, if◌then◌else◌, find_key,
}
use line_go.Guard.Lists.{contains}
use line_go.Guard.Store.{State, rank, role}
use line_go.Guard.Store.Normal.{IsNormal}
use line_go.Guard.Store.Roles.{register_bot}
use line_go.Guard.War.{activate_war_auto, recent, should_activate, war}
use line_go.Guard.Engine.{Env, Engine, Message, Operation, M, pure, nil}
use line_go.Guard.Engine.Messages.{handle_group_message, handle_message}
use line_go.Guard.Engine.FairMessages.{handle_group_message-Acts}
use line_go.Guard.Engine.Memory.{
  or_nothing, message_group, is_bot, observe_bot, observe_membership, observe_audit, audited,
  with_audit,
}
use line_go.Guard.Engine.WarRecords.{
  with_store, observe_war_auto, reset_war_runtime, update_runtime, audit_times,
}
use line_go.Guard.Engine.Handlers.{dispatch, handle}
use line_go.Guard.Engine.Leads.{
  Leads-loosen, Leads, Leads-if, Leads-option, Leads-pure, Leads-bind, Leads-modify,
}
use line_go.Guard.Engine.Calm.{IsCalm, SameRoles, activate_war_auto-IsCalm, register_bot-registered}
use line_go.Guard.Engine.Fair.{
  AreFair, Calm, Keeps, Leads-engine, Keeps-moment, Keeps-with_store, Keeps-duplicate,
  Keeps-set_member, Keeps-clear_pending_invite,
}
use line_go.Guard.Engine.FairInvitation.{handle_invitation-LeavesFair}
use line_go.Guard.Engine.FairKick.{Keeps-handle_kick}
use line_go.Guard.Engine.FairHandlers.{
  Keeps-handle_cancellation, Keeps-handle_chat_update, Keeps-handle_join, Keeps-handle_read,
}
use Prim.Native.String.{◌++◌ as join}
use text.Mathlib.Text.{◌==◌ as str_eq}

module _ (env : Env) (s₀ : State) (attacker : String → Type 0) where
  Keeps-observe_membership :
      (op : Operation) (client : String) → Keeps env s₀ attacker (observe_membership op client)
  unfolding observe_membership observe_bot
  Keeps-observe_membership op client =
      Leads-bind
        (Leads-option (message_group op.message) (Leads-pure {Q = λ u. Unit {0}} _ tt)
          λ group. Keeps-set_member env s₀ attacker group client true)
        λ u _. Leads-bind (Leads-engine env s₀ attacker) λ e _.
          let joined = if str_eq op.param2 "" then op.param3 else op.param2 in
          Leads-if (op.type == 60 && is_bot e joined)
            (λ h. Keeps-set_member env s₀ attacker op.param1 joined true)
            λ h.
              Leads-if (op.type == 133 && is_bot e op.param3)
                (λ h'.
                  Leads-bind (Keeps-set_member env s₀ attacker op.param1 op.param3 false)
                    λ u' _. Keeps-clear_pending_invite env s₀ attacker op.param1 op.param3)
                (λ h'. Leads-pure _ tt)

  Keeps-observe_audit : (op : Operation) → Keeps env s₀ attacker (observe_audit env op)
  unfolding observe_audit with_audit
  Keeps-observe_audit op =
      Leads-option (audited env op) (Leads-pure _ tt) λ (action, actor, targets).
        Leads-if (str_eq op.param1 "" || str_eq actor "") (λ h. Leads-pure _ tt)
          λ h.
            Leads-bind (Keeps-duplicate env s₀ attacker _)
              λ old _. Leads-if old (λ h'. Leads-pure _ tt) λ h'. Leads-modify _ (λ e p. p)

  Keeps-observe_war_auto : (group : String) → Keeps env s₀ attacker (observe_war_auto env group)
  unfolding observe_war_auto reset_war_runtime update_runtime
  Keeps-observe_war_auto group = Leads-bind (Keeps-moment env s₀ attacker) λ m _.
      Leads-bind (Leads-engine env s₀ attacker) λ e _.
        let times = audit_times (or_nothing (find_key e.audit group)) in
        let reason = join (env.show (recent (m.now - 10_000) times)) " olay/10s" in
        Leads-if (not (should_activate m.now (war group e.store.state) times))
          (λ h. Leads-pure _ tt)
          λ h.
            Leads-bind
              (Keeps-with_store env s₀ attacker
                (λ m'. activate_war_auto env.json m'.calls m'.now group reason)
                (λ m' s c. activate_war_auto-IsCalm env.json m'.calls s₀ m'.now group reason s c))
              λ error _.
                Leads-option error
                  (Leads-bind (Keeps-moment env s₀ attacker) λ m' _. Leads-modify _ (λ e' p. p))
                  λ e'. Leads-pure _ tt

  -- Registering a client that is a bot already does nothing.
  Keeps-registered :
      (client : String)
      → contains s₀.bots client ≡ true
      → Keeps env s₀ attacker (with_store env (λ m s. register_bot env.json m.calls client s))
  Keeps-registered client known = Keeps-with_store env s₀ attacker _ λ m s c.
      rw (register_bot-registered env.json m.calls s₀ client s (c.same.bots client ∙ known)) c

  -- After the event everybody who was kicked could be. All is calm unless the event is an invitation,
  -- or a message whose sender has a role.
  abbrev Outcome : Operation → Engine → Type 0
  Outcome op e =
      AreFair s₀ attacker e.trace
      × ((op.type == 124) ≡ false
          → ((m : Message) → op.message ≡ some m → rank (role s₀ m.to m.from) ≡ 0)
          → IsCalm s₀ e.store.state)

  abbrev Handles : {A : Type 0} → Operation → M A → Type 0
  Handles {A} op = Leads (Calm env s₀ attacker) (Outcome op) (λ (a : A). Unit {0})

  Keeps-Handles : {A : Type 0} (op : Operation) {m : M A} → Keeps env s₀ attacker m → Handles op m
  Keeps-Handles op h = Leads-loosen (λ e c. (c.1, λ other sent. c.0)) (λ a u. u) h

  module _ (op : Operation) (client : String)
      (attacks : (op.type == 133) ≡ true → contains s₀.bots op.param3 ≡ true → attacker op.param2)
      (outranked : (m : Message) (target : String)
        → (op.type == 26) ≡ true
        → op.message ≡ some m
        → rank (role s₀ m.to target) < rank (role s₀ m.to m.from)
        → attacker target) where
    handle_message-Handles : (op.type == 26) ≡ true → Handles op (handle_message env op client)
    unfolding handle_message
    handle_message-Handles h = go op.message refl
      where
        go :
            (o : Option Message)
            → op.message ≡ o
            → Leads
                (Calm env s₀ attacker)
                (Outcome op)
                (λ (a : Option String). Unit {0})
                (elim o [
                  | none ↦ pure nil
                  | some message ↦ handle_group_message env client message
                ])
        go none e = Keeps-Handles op (Leads-pure _ tt)
        go (some message) e =
            Leads-loosen (λ s (fair, low). (fair, λ other sent. low (sent message e))) (λ a u. u)
              (handle_group_message-Acts env s₀ attacker message
                (λ target below. outranked message target h e below) client)

    dispatch-Handles : Handles op (dispatch env (handle_message env) op client)
    unfolding dispatch
    dispatch-Handles =
        Leads-if (op.type == 26) (λ h. handle_message-Handles h)
          λ h.
            Leads-if (op.type == 55) (λ h. Keeps-Handles op (Keeps-handle_read env s₀ attacker op))
              λ h.
                Leads-if (op.type == 60)
                  (λ h. Keeps-Handles op (Keeps-handle_join env s₀ attacker op client))
                  λ h.
                    Leads-if (op.type == 124)
                      (λ h.
                        Leads-loosen (λ e fair. (fair, λ other sent. absurd (ground arith)))
                          (λ a u. u) (handle_invitation-LeavesFair env s₀ attacker op client))
                      λ h.
                        Leads-if (op.type == 126)
                          (λ h.
                            Keeps-Handles op (Keeps-handle_cancellation env s₀ attacker op client))
                          λ h.
                            Leads-if (op.type == 122)
                              (λ h.
                                Keeps-Handles op
                                  (Keeps-handle_chat_update env s₀ attacker op client))
                              λ h.
                                Leads-if (op.type == 133)
                                  (λ h.
                                    Keeps-Handles op
                                      (Keeps-handle_kick env s₀ attacker op client (attacks h)))
                                  (λ h. Keeps-Handles op (Leads-pure _ tt))

    handle-Handles :
        contains s₀.bots client ≡ true → Handles op (handle env (handle_message env) op client)
    unfolding handle
    handle-Handles known = Leads-bind (Keeps-registered client known) λ failed _.
        Leads-option failed
          (Leads-bind (Keeps-observe_membership op client) λ u _.
            Leads-bind (Keeps-observe_audit op) λ u₁ _.
              Leads-bind
                (Leads-if (str_eq op.param1 "") (λ h. Leads-pure _ tt)
                  λ h. Keeps-observe_war_auto op.param1)
                λ u₂ _. dispatch-Handles)
          λ error. Keeps-Handles op (Leads-pure _ tt)

-- The actor of a kick whose target is a bot, and whoever ranks below the sender of a message.
abbrev pub IsAttacker : State → Operation → String → Type 0
IsAttacker s op member =
    (((op.type == 133) ≡ true) × (contains s.bots op.param3 ≡ true) × (member ≡ op.param2))
    ⊎ (((op.type == 26) ≡ true)
        × ((m : Message) × (op.message ≡ some m)
            × (rank (role s m.to member) < rank (role s m.to m.from))))

handle-Outcome :
    (env : Env) (op : Operation) (client : String) (e : Engine)
    → IsNormal e.store.state
    → contains e.store.state.bots client ≡ true
    → e.trace ≡ []
    → Outcome env e.store.state
        (IsAttacker e.store.state op)
        op
        (handle env (handle_message env) op client e).0
handle-Outcome env op client e normal known start =
    let s = e.store.state in
    let calm : IsCalm s s = record {
      normal = normal;
      same = record { bots = λ m. refl; roles = λ group m bot. refl };
    } in
    ((handle-Handles env s (IsAttacker s op) op client (λ kick bot. inl (kick, bot, refl))
        (λ m target sent message below. inr (sent, (m, message, below))) known).leads
      e (calm, rw start tt)).0

-- Where the store is normal and the client is a registered bot, everybody whom the engine kicks while
-- it handles an event is no bot, and ranks at most as a group admin in the group, kicked a bot by this
-- event, or ranks below the sender of this message in the group that it was written in.
pub handle-AreFair :
    (env : Env) (op : Operation) (client : String) (e : Engine)
    → IsNormal e.store.state
    → contains e.store.state.bots client ≡ true
    → e.trace ≡ []
    → AreFair e.store.state
        (IsAttacker e.store.state op)
        (handle env (handle_message env) op client e).0.trace
handle-AreFair env op client e normal known start =
    (handle-Outcome env op client e normal known start).0

-- Where the store is normal, the client is a registered bot, the event is no invitation, and if it
-- has a message, its sender has no role in the group it was written in: whatever the message says,
-- the bots stay the same, and whoever is no bot keeps their role in every group.
pub handle-SameRoles :
    (env : Env) (op : Operation) (client : String) (e : Engine)
    → IsNormal e.store.state
    → contains e.store.state.bots client ≡ true
    → (op.type == 124) ≡ false
    → ((m : Message) → op.message ≡ some m → rank (role e.store.state m.to m.from) ≡ 0)
    → e.trace ≡ []
    → SameRoles e.store.state (handle env (handle_message env) op client e).0.store.state
handle-SameRoles env op client e normal known other low start =
    ((handle-Outcome env op client e normal known start).1 other low).same
