-- ===== src/Guard/Engine/FairKick.antt =====
-- Whom `handleKick` of guard/engine.go kicks.
use line_go.Common.{
  String, Bool, true, false, not, ◌&&◌, ◌||◌, Option, ◌≡◌, ◌∙◌, sym, inr, arith, leb, ◌==◌,
}
use line_go.Guard.Lists.{contains}
use line_go.Guard.Store.{State, WarState, rank, owner, creator, can_kick}
use line_go.Guard.Store.Settings.{protection}
use line_go.Guard.Engine.{Env, Engine, Operation}
use line_go.Guard.Engine.Memory.{is_bot, is_primary, primary_count, creator_of}
use line_go.Guard.Engine.WarRecords.{is_protected_in_war}
use line_go.Guard.Engine.Actions.{role_of, is_user}
use line_go.Guard.Engine.Kick.{
  at_least_two, defend_bot, defense_key, handle_kicked_bot, defend_privileged, defend_member,
  handle_kicked_member, handle_kick,
}
use line_go.Guard.Engine.Leads.{Leads-if, Leads-option, Leads-pure, Leads-bind}
use line_go.Guard.Engine.Fair.{
  MayBeKicked, Calm, Keeps, Leads-engine, Keeps-call, Keeps-war_now, Keeps-duplicate,
  Keeps-defense_completed, Keeps-add_war_risk, Keeps-start_reconcile,
}
use line_go.Guard.Engine.FairActions.{
  Keeps-protector_for, Keeps-eject_and_blacklist, Keeps-fast_bot_defense_kick,
  Keeps-defense_position, Keeps-reinvite_privileged,
}
use line_go.Guard.Engine.Spares.{may_be_kicked, user-MayBeKicked}
use text.Mathlib.Text.{◌==◌ as str_eq}

module _ (env : Env) (s₀ : State) (attacker : String → Type 0) where
  Keeps-defend_bot :
      (key group actor target client : String)
      → MayBeKicked s₀ attacker group actor
      → Keeps env s₀ attacker (defend_bot env key group actor target client)
  unfolding defend_bot
  Keeps-defend_bot key group actor target client fair =
      Leads-bind (Keeps-defense_position env s₀ attacker group target client) λ position _.
        Leads-bind
          (Leads-option position (Leads-pure {Q = λ r. Unit {0}} _ tt) λ n.
            Leads-if (n == 0) (λ h. Leads-pure _ tt)
              λ h. Leads-bind (Keeps-call env s₀ attacker _ tt) λ m _. Leads-pure _ tt)
          λ selected _.
            Leads-if (not selected) (λ h. Leads-pure _ tt)
              λ h. Leads-bind (Keeps-defense_completed env s₀ attacker key false) λ done _.
                Leads-if done (λ h'. Leads-pure _ tt)
                  λ h'.
                    Leads-bind (Keeps-fast_bot_defense_kick env s₀ attacker client group actor fair)
                      λ failed _.
                        Leads-option failed
                          (Leads-bind (Keeps-defense_completed env s₀ attacker key true)
                            λ marked _. Leads-pure _ tt)
                          λ error. Leads-pure _ tt

  Keeps-handle_kicked_bot :
      (op : Operation) (client : String) (on : Bool)
      → attacker op.param2
      → Keeps env s₀ attacker (handle_kicked_bot env op client on)
  unfolding handle_kicked_bot
  Keeps-handle_kicked_bot op client on attacks =
      Leads-bind (Keeps-duplicate env s₀ attacker _) λ old _.
        Leads-if old (λ h. Leads-pure _ tt)
          λ h. Leads-bind (Leads-engine env s₀ attacker) λ e c.
            Leads-bind
              (Leads-if
                (not (is_bot e op.param2) && not (str_eq client op.param3) && is_primary e client)
                (λ h'. Keeps-defend_bot (defense_key env op) op.param1 op.param2 op.param3 client (
                  may_be_kicked env s₀ attacker op.param1 op.param2 e c (no_bot e h')
                    (inr attacks)))
                (λ h'. Leads-pure _ tt))
              λ u _. Leads-bind (Leads-engine env s₀ attacker) λ e' c'.
                Leads-if (is_primary e' op.param3 && (primary_count e' op.param1 == 0))
                  (λ h'.
                    Leads-if on (λ h''. Leads-pure _ tt)
                      λ h''. Leads-bind (Keeps-call env s₀ attacker _ tt) λ m _. Leads-pure _ tt)
                  (λ h'.
                    Leads-bind (Keeps-start_reconcile env s₀ attacker op.param1)
                      λ u' _. Leads-pure _ tt)
    where
      no_bot :
          (e : Engine)
          → (not (is_bot e op.param2) && not (str_eq client op.param3) && is_primary e client)
            ≡ true
          → contains e.store.state.bots op.param2 ≡ false
      no_bot e h = unfold is_bot in ground arith

  Keeps-defend_privileged :
      (group actor target : String) (protector : Option String)
      → Keeps env s₀ attacker (defend_privileged env group actor target protector)
  unfolding defend_privileged
  Keeps-defend_privileged group actor target protector =
      Leads-bind (Leads-engine env s₀ attacker) λ e c.
        Leads-if ((rank (role_of e group actor) == rank creator) || is_bot e actor)
          (λ h. Leads-pure _ tt)
          λ h. Leads-option protector (Leads-pure _ tt) λ p.
            Leads-bind
              (Leads-if (is_user (role_of e group actor) && (protection group e.store).kick)
                (λ h'.
                  Keeps-eject_and_blacklist env s₀ attacker p group actor (
                    user-MayBeKicked env s₀ attacker group actor e c (ground arith) (ground arith)))
                (λ h'. Leads-pure _ tt))
              λ ejected _. Keeps-reinvite_privileged env s₀ attacker p group target

  Keeps-defend_member :
      (group actor target : String) (war : WarState) (on : Bool) (protector : Option String)
      → Keeps env s₀ attacker (defend_member env group actor target war on protector)
  unfolding defend_member
  Keeps-defend_member group actor target war on protector =
      Leads-bind (Leads-engine env s₀ attacker) λ e c.
        Leads-if
          (is_bot e actor
            || can_kick e.store.state group actor target
            || not (is_user (role_of e group actor))
            || not ((protection group e.store).kick || (on && at_least_two war.level)))
          (λ h. Leads-pure _ tt)
          λ h. Leads-option protector (Leads-pure _ tt) λ p.
            Keeps-eject_and_blacklist env s₀ attacker p group actor
              (user-MayBeKicked env s₀ attacker group actor e c (ground arith) (ground arith))

  Keeps-handle_kicked_member :
      (op : Operation) (client : String) (war : WarState) (on : Bool)
      → Keeps env s₀ attacker (handle_kicked_member env op client war on)
  unfolding handle_kicked_member
  Keeps-handle_kicked_member op client war on =
      Leads-bind (Keeps-duplicate env s₀ attacker _) λ old _.
        Leads-if old (λ h. Leads-pure _ tt)
          λ h.
            Leads-bind (Keeps-protector_for env s₀ attacker op.param1 op.param3 client)
              λ protector _. Leads-bind (Leads-engine env s₀ attacker) λ e c.
                Leads-if (leb (rank owner) (rank (role_of e op.param1 op.param3)))
                  (λ h'. Keeps-defend_privileged op.param1 op.param2 op.param3 protector)
                  (λ h'. Keeps-defend_member op.param1 op.param2 op.param3 war on protector)

  -- The actor counts as an attacker where the target is a bot.
  pub Keeps-handle_kick :
      (op : Operation) (client : String)
      → (contains s₀.bots op.param3 ≡ true → attacker op.param2)
      → Keeps env s₀ attacker (handle_kick env op client)
  unfolding handle_kick
  Keeps-handle_kick op client attacks = Leads-bind (Leads-engine env s₀ attacker) λ e₁ _.
      Leads-if
        (str_eq op.param1 ""
          || str_eq op.param2 ""
          || str_eq op.param3 ""
          || str_eq (creator_of e₁.store.state) "")
        (λ h. Leads-pure _ tt)
        λ h. Leads-bind (Keeps-war_now env s₀ attacker op.param1) λ (war, on) _.
          Leads-bind (Leads-engine env s₀ attacker) λ e c.
            Leads-bind
              (Leads-if (on && not (is_protected_in_war e op.param1 op.param2))
                (λ h'. Keeps-add_war_risk env s₀ attacker op.param1 op.param2 5)
                (λ h'. Leads-pure _ tt))
              λ u _.
                Leads-if (is_bot e op.param3)
                  (λ h'. Keeps-handle_kicked_bot op client on (attacks (bot_lem e c h')))
                  (λ h'. Keeps-handle_kicked_member op client war on)
    where
      bot_lem :
          (e : Engine)
          → Calm env s₀ attacker e
          → is_bot e op.param3 ≡ true
          → contains s₀.bots op.param3 ≡ true
      bot_lem e c h = unfold is_bot in sym (c.0.same.bots op.param3) ∙ h
