-- ===== src/Guard/Engine/FairHandlers.antt =====
-- Whom the handlers of cancelled invitations, chat updates, joins and reads of guard/engine.go kick.
use line_go.Common.{String, false, not, ◌&&◌, ◌||◌, arith, List, [], ◌∷◌, if◌then◌else◌}
use line_go.Guard.Lists.{contains}
use line_go.Guard.Store.{State}
use line_go.Guard.Store.Settings.{protection, record_reader}
use line_go.Guard.War.{kicks_joined}
use line_go.Guard.Engine.{Env, Operation}
use line_go.Guard.Engine.Memory.{is_bot, is_primary, is_group_reserve}
use line_go.Guard.Engine.Actions.{role_of, is_user}
use line_go.Guard.Engine.Handlers.{
  forget_cancelled, handle_cancellation, close_and_eject, handle_chat_update, quarantine_of,
  war_join_action, welcome, handle_join, handle_read,
}
use line_go.Guard.Engine.Leads.{Leads-if, Leads-option, Leads-pure, Leads-bind}
use line_go.Guard.Engine.Calm.{record_reader-IsCalm}
use line_go.Guard.Engine.Fair.{
  MayBeKicked, Keeps, Leads-engine, Keeps-moment, Keeps-call, Keeps-with_store, Keeps-war_now,
  Keeps-duplicate, Keeps-add_war_risk, Keeps-record_war_action, Keeps-set_member,
  Keeps-clear_pending_invite, Keeps-start_reconcile,
}
use line_go.Guard.Engine.FairActions.{
  Keeps-kick, Keeps-protector_for, Keeps-eject_and_blacklist, Keeps-park_reserves,
}
use line_go.Guard.Engine.Spares.{user-MayBeKicked, joined-MayBeKicked, blacklisted-MayBeKicked}
use text.Mathlib.Text.{◌==◌ as str_eq}

module _ (env : Env) (s₀ : State) (attacker : String → Type 0) where
  Keeps-forget_cancelled :
      (group : String) (mids : List String) → Keeps env s₀ attacker (forget_cancelled group mids)
  unfolding forget_cancelled
  Keeps-forget_cancelled group [] = Leads-pure _ tt
  Keeps-forget_cancelled group (mid ∷ mids) = Leads-bind (Leads-engine env s₀ attacker) λ e _.
      Leads-bind
        (Leads-if (is_primary e mid)
          (λ h.
            Leads-bind (Keeps-set_member env s₀ attacker group mid false)
              λ u _. Keeps-clear_pending_invite env s₀ attacker group mid)
          (λ h. Leads-pure _ tt))
        λ u _. Leads-bind (Keeps-forget_cancelled group mids) λ others _. Leads-pure _ tt

  pub Keeps-handle_cancellation :
      (op : Operation) (client : String) → Keeps env s₀ attacker (handle_cancellation env op client)
  unfolding handle_cancellation
  Keeps-handle_cancellation op client =
      Leads-bind (Keeps-war_now env s₀ attacker op.param1) λ (w, on) _.
        Leads-if (str_eq op.param1 "" || str_eq op.param2 "" || str_eq op.param3 "")
          (λ h. Leads-pure _ tt)
          λ h. Leads-bind (Keeps-duplicate env s₀ attacker _) λ old _.
            Leads-if old (λ h'. Leads-pure _ tt)
              λ h'. Leads-bind (Keeps-forget_cancelled op.param1 _) λ bot_cancelled _.
                Leads-bind
                  (Leads-if bot_cancelled (λ h''. Keeps-start_reconcile env s₀ attacker op.param1)
                    (λ h''. Leads-pure _ tt))
                  λ u _. Leads-bind (Leads-engine env s₀ attacker) λ e c.
                    Leads-if
                      ((not (protection op.param1 e.store).cancel && not on)
                        || is_bot e op.param2
                        || not (is_user (role_of e op.param1 op.param2)))
                      (λ low. Leads-pure _ tt)
                      λ low.
                        Leads-bind
                          (Leads-if on
                            (λ h''. Keeps-add_war_risk env s₀ attacker op.param1 op.param2 3)
                            (λ h''. Leads-pure _ tt))
                          λ u' _.
                            Leads-bind
                              (Keeps-protector_for env s₀ attacker op.param1 op.param3 client)
                              λ protector _. Leads-option protector (Leads-pure _ tt) λ p.
                                Leads-bind
                                  (Keeps-eject_and_blacklist env s₀ attacker p op.param1 op.param2 (
                                    user-MayBeKicked env s₀ attacker op.param1 op.param2 e c
                                      (ground arith) (ground arith)))
                                  λ ejected _. Leads-pure _ tt

  Keeps-close_and_eject :
      (protector group actor : String)
      → MayBeKicked s₀ attacker group actor
      → Keeps env s₀ attacker (close_and_eject env protector group actor)
  unfolding close_and_eject
  Keeps-close_and_eject protector group actor fair =
      Leads-bind (Keeps-call env s₀ attacker _ tt) λ m _.
        Leads-bind (Keeps-record_war_action env s₀ attacker group "qr" m.error) λ u _.
          Leads-option m.error
            (Keeps-eject_and_blacklist env s₀ attacker protector group actor fair)
            λ error. Leads-pure _ tt

  pub Keeps-handle_chat_update :
      (op : Operation) (client : String) → Keeps env s₀ attacker (handle_chat_update env op client)
  unfolding handle_chat_update
  Keeps-handle_chat_update op client =
      Leads-bind (Keeps-war_now env s₀ attacker op.param1) λ (w, on) _.
        Leads-bind (Leads-engine env s₀ attacker) λ e c.
          Leads-if
            (str_eq op.param1 ""
              || str_eq op.param2 ""
              || not (str_eq op.param3 "4")
              || (not (protection op.param1 e.store).qr && not on && not w.locked))
            (λ h. Leads-pure _ tt)
            λ h. Leads-bind (Keeps-duplicate env s₀ attacker _) λ old _.
              Leads-if (old || is_bot e op.param2 || not (is_user (role_of e op.param1 op.param2)))
                (λ low. Leads-pure _ tt)
                λ low.
                  Leads-bind
                    (Leads-if on (λ h'. Keeps-add_war_risk env s₀ attacker op.param1 op.param2 4)
                      (λ h'. Leads-pure _ tt))
                    λ u _.
                      Leads-bind (Keeps-protector_for env s₀ attacker op.param1 "" client)
                        λ protector _. Leads-option protector (Leads-pure _ tt) λ p.
                          Keeps-close_and_eject p op.param1 op.param2 (
                            user-MayBeKicked env s₀ attacker op.param1 op.param2 e c (ground arith)
                              (ground arith))

  Keeps-war_join_action :
      (client group joined : String)
      → Keeps env s₀ attacker (war_join_action env client group joined)
  unfolding war_join_action
  Keeps-war_join_action client group joined =
      Leads-bind (Keeps-war_now env s₀ attacker group) λ (w, on) _.
        Leads-if (not on) (λ h. Leads-pure _ tt)
          λ h. Leads-bind (Keeps-moment env s₀ attacker) λ m _.
            Leads-bind (Leads-engine env s₀ attacker) λ e c.
              Leads-if
                (not
                  (kicks_joined m.now w (quarantine_of e group joined) e.store.state group joined))
                (λ h'. Leads-pure _ tt)
                λ kicked. Leads-bind (Keeps-add_war_risk env s₀ attacker group joined 2) λ u _.
                  Keeps-kick env s₀ attacker client group joined (
                    joined-MayBeKicked env s₀ attacker m.now w (quarantine_of e group joined) group
                      joined e c (ground arith))

  Keeps-welcome :
      (group joined client : String) → Keeps env s₀ attacker (welcome env group joined client)
  unfolding welcome
  Keeps-welcome group joined client =
      Leads-bind
        (Leads-if (not (str_eq group "") && not (str_eq joined ""))
          (λ h. Keeps-war_join_action client group joined) (λ h. Leads-pure _ tt))
        λ failed _.
          Leads-option failed
            (Leads-bind (Leads-engine env s₀ attacker) λ e _.
              Leads-if
                (not (str_eq group "")
                  && is_primary e joined
                  && not (is_group_reserve e group joined))
                (λ h. Keeps-park_reserves env s₀ attacker group client) (λ h. Leads-pure _ tt))
            λ error. Leads-pure _ tt

  pub Keeps-handle_join :
      (op : Operation) (client : String) → Keeps env s₀ attacker (handle_join env op client)
  unfolding handle_join
  Keeps-handle_join op client =
      let joined = if str_eq op.param2 "" then op.param3 else op.param2 in
      Leads-bind (Leads-engine env s₀ attacker) λ e c.
        Leads-if
          (str_eq op.param1 "" || str_eq joined "" || not (contains e.store.state.blacklist joined))
          (λ h. Keeps-welcome op.param1 joined client)
          λ listed. Leads-bind (Keeps-duplicate env s₀ attacker _) λ old _.
            Leads-if old (λ h. Keeps-welcome op.param1 joined client)
              λ h.
                Keeps-kick env s₀ attacker client op.param1 joined
                  (blacklisted-MayBeKicked env s₀ attacker op.param1 joined e c (ground arith))

  pub Keeps-handle_read : (op : Operation) → Keeps env s₀ attacker (handle_read env op)
  unfolding handle_read
  Keeps-handle_read op = Leads-bind (Leads-engine env s₀ attacker) λ e _.
      Leads-if (str_eq op.param1 "" || str_eq op.param2 "" || is_bot e op.param2)
        (λ h. Leads-pure _ tt)
        λ h.
          Leads-bind
            (Keeps-with_store env s₀ attacker (λ m s. record_reader op.param1 op.param2 s)
              (λ m s c. record_reader-IsCalm env.json m.calls s₀ op.param1 op.param2 s c))
            λ recorded _. Leads-pure _ tt
