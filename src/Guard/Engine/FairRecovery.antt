-- ===== src/Guard/Engine/FairRecovery.antt =====
-- Whom `launchRecovery` of guard/engine.go kicks.
use line_go.Common.{String, true, not, ◌||◌, Option, none, ◌≡◌, refl, List, [], ◌∷◌, length, ◌==◌}
use line_go.Guard.Lists.{contains}
use line_go.Guard.Store.{State}
use line_go.Guard.Store.Normal.{IsNormal}
use line_go.Guard.Store.Settings.{reserve_plan}
use line_go.Guard.Engine.{Env, Engine}
use line_go.Guard.Engine.Reserves.{
  is_client, is_zero, call_in, sweep, invite_each, rescue, recover, launch_recovery,
}
use line_go.Guard.Engine.Leads.{Leads-if, Leads-option, Leads-pure, Leads-bind}
use line_go.Guard.Engine.Calm.{IsCalm, SameRoles}
use line_go.Guard.Engine.Fair.{
  AreFair, Keeps, Leads-engine, Keeps-call, Keeps-duplicate, Keeps-set_member,
  Keeps-record_war_action,
}
use line_go.Guard.Engine.FairActions.{Keeps-kick, Keeps-invite}
use line_go.Guard.Engine.Spares.{blacklisted-MayBeKicked}

module _ (env : Env) (s₀ : State) (attacker : String → Type 0) where
  Keeps-call_in :
      (group : String) (rescuer : Option String) (mids : List String)
      → Keeps env s₀ attacker (call_in env group rescuer mids)
  unfolding call_in
  Keeps-call_in group rescuer [] = Leads-pure _ tt
  Keeps-call_in group rescuer (mid ∷ mids) = Leads-bind (Leads-engine env s₀ attacker) λ e _.
      Leads-bind
        (Leads-if (not (is_client e mid)) (λ h. Leads-pure {Q = λ b. Unit {0}} _ tt)
          λ h. Leads-bind (Keeps-call env s₀ attacker _ tt) λ m _.
            Leads-option m.error
              (Leads-bind (Keeps-set_member env s₀ attacker group mid true) λ u _. Leads-pure _ tt)
              λ error. Leads-pure _ tt)
        λ joined _. Keeps-call_in group _ mids

  Keeps-sweep :
      (rescuer group : String) (members : List String)
      → Keeps env s₀ attacker (sweep env rescuer group members)
  unfolding sweep
  Keeps-sweep rescuer group [] = Leads-pure _ tt
  Keeps-sweep rescuer group (member ∷ members) = Leads-bind (Leads-engine env s₀ attacker) λ e c.
      Leads-bind
        (Leads-if (contains e.store.state.blacklist member)
          (λ h.
            Leads-bind
              (Keeps-kick env s₀ attacker rescuer group member
                (blacklisted-MayBeKicked env s₀ attacker group member e c h))
              λ error _. Leads-pure {Q = λ u. Unit {0}} _ tt)
          (λ h. Leads-pure _ tt))
        λ u _. Keeps-sweep rescuer group members

  Keeps-invite_each :
      (rescuer group : String) (mids : List String)
      → Keeps env s₀ attacker (invite_each env rescuer group mids)
  unfolding invite_each
  Keeps-invite_each rescuer group [] = Leads-pure _ tt
  Keeps-invite_each rescuer group (mid ∷ mids) = Leads-bind (Keeps-call env s₀ attacker _ tt) λ m _.
      Leads-bind (Keeps-invite env s₀ attacker rescuer group (mid ∷ []))
        λ error _. Keeps-invite_each rescuer group mids

  Keeps-rescue :
      (rescuer group : String) (chats : List (List String))
      → Keeps env s₀ attacker (rescue env rescuer group chats)
  unfolding rescue
  Keeps-rescue rescuer group [] = Leads-pure _ tt
  Keeps-rescue rescuer group (members ∷ []) = Leads-bind (Keeps-sweep rescuer group members) λ u _.
      Leads-bind (Leads-engine env s₀ attacker) λ e _.
        Leads-bind (Keeps-invite_each rescuer group _) λ u₁ _.
          Leads-bind (Keeps-record_war_action env s₀ attacker group "rescue" none)
            λ u₂ _. Leads-pure _ tt
  Keeps-rescue rescuer group (a ∷ b ∷ rest) = Leads-pure _ tt

  Keeps-recover :
      (group : String) (selected : List String) → Keeps env s₀ attacker (recover env group selected)
  unfolding recover
  Keeps-recover group selected = Leads-bind (Keeps-call_in group none selected) λ rescuer _.
      Leads-option rescuer (Leads-pure _ tt) λ r.
        Leads-bind (Keeps-call env s₀ attacker _ tt)
          λ m _. Leads-option m.error (Keeps-rescue r group m.chats) λ error. Leads-pure _ tt

  Keeps-launch_recovery : (group : String) → Keeps env s₀ attacker (launch_recovery env group)
  unfolding launch_recovery
  Keeps-launch_recovery group = Leads-bind (Leads-engine env s₀ attacker) λ e _.
      Leads-if
        (is_zero (reserve_plan group e.store).0 || (length (reserve_plan group e.store).1 == 0))
        (λ h. Leads-pure _ tt)
        λ h.
          Leads-bind (Keeps-duplicate env s₀ attacker _)
            λ old _. Leads-if old (λ h'. Leads-pure _ tt) (λ h'. Keeps-recover group _)

-- Where the store is normal, everybody whom the recovery of a group kicks is no bot and ranks at most
-- as a group admin there; the bots stay the same, and whoever is no bot keeps their role in every
-- group.
pub launch_recovery-AreFair :
    (env : Env) (group : String) (e : Engine)
    → IsNormal e.store.state
    → e.trace ≡ []
    → AreFair e.store.state (λ member. ⊥) (launch_recovery env group e).0.trace
      × SameRoles e.store.state (launch_recovery env group e).0.store.state
launch_recovery-AreFair env group e normal start =
    let s = e.store.state in
    let calm : IsCalm s s = record {
      normal = normal;
      same = record { bots = λ m. refl; roles = λ group m bot. refl };
    } in
    let (after, fair) =
      ((Keeps-launch_recovery env s (λ member. ⊥) group).leads e (calm, rw start tt)).0 in
    (fair, after.same)
