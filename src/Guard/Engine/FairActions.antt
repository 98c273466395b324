-- ===== src/Guard/Engine/FairActions.antt =====
-- The actions of guard/engine.go under the postconditions of Leads, Calm and Fair.
use line_go.Common.{
  String, true, false, not, ◌&&◌, Option, none, some, List, [], ◌∷◌, if◌then◌else◌,
}
use line_go.Guard.Lists.{contains}
use line_go.Guard.Store.{State}
use line_go.Guard.Store.Blacklist.{auto_blacklist}
use line_go.Guard.Store.Settings.{reserve_plan}
use Prim.Native.String.{◌++◌ as join}
use text.Mathlib.Text.{◌==◌ as str_eq}
use line_go.Guard.Engine.{Call, Env, ◌>>=◌, pure}
use line_go.Guard.Engine.Memory.{duplicate, is_present}
use line_go.Guard.Engine.Actions.{
  act_as_member, kick, invite, cancel, kick_by_any, blacklist_auto, eject_and_blacklist, ranked,
  protector_for, confirm_membership, fast_bot_defense_kick, defense_position, reinvite_privileged,
  park_each, park_reserves, clients_that, first_of,
}
use line_go.Guard.Engine.Leads.{Leads-if, Leads-option, Leads-pure, Leads-bind, Leads-gets}
use line_go.Guard.Engine.Calm.{auto_blacklist-IsCalm}
use line_go.Guard.Engine.Fair.{
  MayBeKicked, IsFair, Keeps, Leads-engine, Keeps-moment, Keeps-call, Keeps-with_store,
  Keeps-set_member, Keeps-duplicate, Keeps-record_health, Keeps-record_war_action,
}

module _ (env : Env) (s₀ : State) (attacker : String → Type 0) where
  Keeps-confirm_membership :
      (client group : String) → Keeps env s₀ attacker (confirm_membership env client group)
  unfolding confirm_membership
  Keeps-confirm_membership client group = Leads-bind (Keeps-call env s₀ attacker _ tt) λ m _.
      Leads-option m.error
        (Leads-bind (Keeps-set_member env s₀ attacker group client _) λ u _. Leads-pure _ tt)
        λ error. Leads-pure _ tt

  pub Keeps-act_as_member :
      (client group action : String) (request : Call)
      → IsFair s₀ attacker request
      → Keeps env s₀ attacker (act_as_member env client group action request)
  unfolding act_as_member
  Keeps-act_as_member client group action request fair =
      Leads-bind (Keeps-confirm_membership client group) λ (present, refused) _.
        Leads-option refused
          (Leads-if (not present) (λ h. Leads-pure _ tt)
            λ h. Leads-bind (Keeps-call env s₀ attacker request fair) λ m _.
              Leads-bind (Keeps-record_health env s₀ attacker client action m.error) λ u _.
                Leads-bind (Keeps-record_war_action env s₀ attacker group action m.error)
                  λ u' _. Leads-pure _ tt)
          λ error. Leads-pure _ tt

  pub Keeps-kick :
      (client group target : String)
      → MayBeKicked s₀ attacker group target
      → Keeps env s₀ attacker (kick env client group (target ∷ []))
  unfolding kick
  Keeps-kick client group target fair = Keeps-act_as_member client group "kick" _ (fair, tt)

  pub Keeps-invite :
      (client group : String) (targets : List String)
      → Keeps env s₀ attacker (invite env client group targets)
  unfolding invite
  Keeps-invite client group targets = Keeps-act_as_member client group "invite" _ tt

  pub Keeps-cancel :
      (client group : String) (targets : List String)
      → Keeps env s₀ attacker (cancel env client group targets)
  unfolding cancel
  Keeps-cancel client group targets = Keeps-act_as_member client group "cancel" _ tt

  pub Keeps-ranked : (mids : List String) → Keeps env s₀ attacker (ranked env mids)
  unfolding ranked
  Keeps-ranked mids = Leads-bind (Keeps-moment env s₀ attacker) λ m _. Leads-gets _ (λ e p. tt)

  pub Keeps-protector_for :
      (group excluded fallback : String)
      → Keeps env s₀ attacker (protector_for env group excluded fallback)
  unfolding protector_for
  Keeps-protector_for group excluded fallback =
      Leads-bind (Leads-gets {Q = λ mids. Unit {0}} _ (λ e p. tt))
        λ present _. choose (env.sort_texts present)
    where
      choose :
          (mids : List String)
          → Keeps env s₀ attacker (elim mids [
            | [] ↦ pure (if str_eq fallback excluded then none else some fallback)
            | mid ∷ rest ↦ do order ← ranked env (mid ∷ rest); pure (first_of order)
          ])
      choose [] = Leads-pure _ tt
      choose (mid ∷ rest) = Leads-bind (Keeps-ranked (mid ∷ rest)) λ order _. Leads-pure _ tt

  Keeps-blacklist_auto :
      (group target : String) → Keeps env s₀ attacker (blacklist_auto env group target)
  unfolding blacklist_auto
  Keeps-blacklist_auto group target =
      Leads-bind
        (Keeps-with_store env s₀ attacker (λ m s. auto_blacklist env.json m.calls group target s)
          (λ m s c. auto_blacklist-IsCalm env.json m.calls s₀ group target s c))
        λ e _. Leads-pure _ tt

  Keeps-kick_by_any :
      (group target : String) (error : Option String) (clients : List String)
      → MayBeKicked s₀ attacker group target
      → Keeps env s₀ attacker (kick_by_any env group target error clients)
  unfolding kick_by_any
  Keeps-kick_by_any group target error [] fair = Leads-pure _ tt
  Keeps-kick_by_any group target error (client ∷ clients) fair =
      Leads-bind (Keeps-kick client group target fair) λ outcome _.
        Leads-option outcome (Leads-pure _ tt)
          λ e. Keeps-kick_by_any group target (some e) clients fair

  pub Keeps-eject_and_blacklist :
      (client group actor : String)
      → MayBeKicked s₀ attacker group actor
      → Keeps env s₀ attacker (eject_and_blacklist env client group actor)
  unfolding eject_and_blacklist
  Keeps-eject_and_blacklist client group actor fair =
      Leads-bind (Keeps-blacklist_auto group actor) λ saved _.
        Leads-bind (Keeps-kick client group actor fair) λ kicked _.
          Leads-bind
            (Leads-option kicked (Leads-pure _ tt) λ error.
              Leads-bind (Leads-gets {Q = λ mids. Unit {0}} _ (λ e p. tt)) λ others _.
                Leads-bind (Keeps-ranked others)
                  λ order _. Keeps-kick_by_any group actor (some error) order fair)
            λ outcome _. Leads-option outcome (Leads-pure _ tt) λ error. Leads-pure _ tt

  pub Keeps-fast_bot_defense_kick :
      (client group actor : String)
      → MayBeKicked s₀ attacker group actor
      → Keeps env s₀ attacker (fast_bot_defense_kick env client group actor)
  unfolding fast_bot_defense_kick
  Keeps-fast_bot_defense_kick client group actor fair =
      Leads-bind (Leads-engine env s₀ attacker) λ e _.
        Leads-if (not (is_present e group client)) (λ h. Leads-pure _ tt)
          λ h. Leads-bind (Keeps-blacklist_auto group actor) λ saved _.
            Leads-bind (Keeps-call env s₀ attacker _ (fair, tt)) λ m _.
              Leads-bind (Keeps-record_health env s₀ attacker client "kick" m.error) λ u _.
                Leads-bind (Keeps-record_war_action env s₀ attacker group "kick" m.error)
                  λ u' _. Leads-option m.error (Leads-pure _ tt) λ error. Leads-pure _ tt

  pub Keeps-defense_position :
      (group excluded current : String)
      → Keeps env s₀ attacker (defense_position env group excluded current)
  unfolding defense_position
  Keeps-defense_position group excluded current =
      Leads-bind (Leads-engine env s₀ attacker)
        λ e _. Leads-bind (Keeps-ranked _) λ order _. Leads-pure _ tt

  pub Keeps-reinvite_privileged :
      (protector group target : String)
      → Keeps env s₀ attacker (reinvite_privileged env protector group target)
  unfolding reinvite_privileged
  Keeps-reinvite_privileged protector group target =
      Leads-bind (Keeps-call env s₀ attacker _ tt) λ m _. Keeps-invite protector group (target ∷ [])

  Keeps-park_each :
      (group inviter : String) (mids : List String)
      → Keeps env s₀ attacker (park_each env group inviter mids)
  unfolding park_each
  Keeps-park_each group inviter [] = Leads-pure _ tt
  Keeps-park_each group inviter (mid ∷ mids) = Leads-bind (Leads-engine env s₀ attacker) λ e _.
      Leads-bind
        (Leads-if (not (is_present e group mid && contains (clients_that (λ m. true) e.fleet) mid))
          (λ h. Leads-pure {Q = λ r. Unit {0}} _ tt)
          λ h. Leads-bind (Keeps-call env s₀ attacker _ tt) λ m _.
            Leads-option m.error
              (Leads-bind (Keeps-set_member env s₀ attacker group mid false)
                λ u _. Keeps-invite inviter group (mid ∷ []))
              λ error. Leads-pure _ tt)
        λ parked _.
          Leads-option parked (Keeps-park_each group inviter mids) λ error. Leads-pure _ tt

  pub Keeps-park_reserves :
      (group inviter : String) → Keeps env s₀ attacker (park_reserves env group inviter)
  unfolding park_reserves
  Keeps-park_reserves group inviter =
      Leads-bind (Leads-engine env s₀ attacker) λ e _. choose (reserve_plan group e.store).1
    where
      choose :
          (mids : List String)
          → Keeps env s₀ attacker {A = Option String} (elim mids [
            | [] ↦ pure none
            | mid ∷ rest ↦ do
              old ← duplicate env (join "park-reserve:" group)
              if old then pure none else park_each env group inviter (mid ∷ rest)
          ])
      choose [] = Leads-pure _ tt
      choose (mid ∷ rest) = Leads-bind (Keeps-duplicate env s₀ attacker _) λ old _.
          Leads-if old (λ h. Leads-pure _ tt) λ h. Keeps-park_each group inviter (mid ∷ rest)
