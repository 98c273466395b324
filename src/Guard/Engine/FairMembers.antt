-- ===== src/Guard/Engine/FairMembers.antt =====
-- Whom the commands of guard/engine.go that concern members kick.
use line_go.Common.{
  ◌<◌, String, true, false, not, ◌&&◌, ◌||◌, Option, none, ◌≡◌, sym, ap, ◌∙◌, arith, [], ◌∷◌, ltb,
  ◌==◌, Option-cases, inl, inr,
}
use line_go.Guard.Lists.{contains}
use line_go.Guard.Store.{State, gadmin, owner, rank, role, can_kick, StoreError}
use line_go.Guard.Store.Blacklist.{add_blacklist, clear_blacklist}
use line_go.Guard.Engine.{Env, Engine, ◌>>=◌, pure, gets, modify, moment}
use line_go.Guard.Engine.Memory.{is_bot}
use line_go.Guard.Engine.WarRecords.{with_store}
use line_go.Guard.Engine.Actions.{role_of, is_user}
use line_go.Guard.Engine.MemberCommands.{
  kick_added, blacklist_target, blacklist_command, clear_command, kick_command, invite_command, bye,
}
use line_go.Guard.Engine.Leads.{Leads, Leads-if, Leads-option, Leads-pure, Leads-bind}
use line_go.Guard.Engine.CalmStores.{add_blacklist-IsCalm, clear_blacklist-IsCalm}
use line_go.Guard.Engine.Fair.{MayBeKicked, Calm, Keeps, Leads-engine, Keeps-with_store}
use line_go.Guard.Engine.FairActions.{Keeps-kick, Keeps-invite}
use line_go.Guard.Engine.FairWarCommands.{Keeps-reply}
use line_go.Guard.Engine.FairReserves.{Keeps-leave_fleet}
use line_go.Guard.Engine.Spares.{user-MayBeKicked}
use text.Mathlib.Text.{◌==◌ as str_eq}
use line_go.Guard.Engine.Refused.{add_blacklist-unbot}
use line_go.Guard.Engine.FairCommands.{Keeps-report_readers}

can_kick-outranks :
    (s : State) (group actor target : String)
    → contains s.bots target ≡ false
    → can_kick s group actor target ≡ true
    → rank (role s group target) < rank (role s group actor)
unfolding can_kick rank
can_kick-outranks s group actor target bot h = ground arith

module _ (env : Env) (s₀ : State) (attacker : String → Type 0) (group actor : String)
    (unbot : contains s₀.bots actor ≡ false)
    (outranked : (target : String)
      → rank (role s₀ group target) < rank (role s₀ group actor)
      → attacker target) where
  -- Somebody who is no bot, and whom the sender can kick.
  weaker-MayBeKicked :
      (target : String) (e : Engine)
      → Calm env s₀ attacker e
      → contains s₀.bots target ≡ false
      → can_kick e.store.state group actor target ≡ true
      → MayBeKicked s₀ attacker group target
  weaker-MayBeKicked target e (c, fair) bot h =
      let below = can_kick-outranks e.store.state group actor target (c.same.bots target ∙ bot) h in
      (
        bot,
        inr (
            outranked target (
              omega (
                arith,
                below,
                ap rank (c.same.roles group target bot),
                ap rank (c.same.roles group actor unbot),
              ))),
      )

  Leads-add_blacklist :
      (target : String)
      → Leads
          (Calm env s₀ attacker)
          (Calm env s₀ attacker)
          (λ (r : Option StoreError). r ≡ none → contains s₀.bots target ≡ false)
          (with_store env (λ m s. add_blacklist env.json m.calls group actor target s))
  unfolding with_store moment ◌>>=◌ gets modify pure
  Leads-add_blacklist target = record {
    leads = λ e (c, fair). (
      (add_blacklist-IsCalm env.json (env.at e.tick).calls s₀ group actor target e.store c, fair),
      λ h.
          sym (c.same.bots target)
          ∙ add_blacklist-unbot env.json (env.at e.tick).calls e.store group actor target h,
    );
  }

  Keeps-kick_added :
      (client target : String)
      → contains s₀.bots target ≡ false
      → Keeps env s₀ attacker (kick_added env client group actor target)
  unfolding kick_added
  Keeps-kick_added client target bot = Leads-bind (Leads-engine env s₀ attacker) λ e c.
      Leads-if (not (can_kick e.store.state group actor target)) (λ h. Leads-pure _ tt)
        λ h.
          Leads-bind
            (Keeps-kick env s₀ attacker client group target
              (weaker-MayBeKicked target e c bot (ground arith)))
            λ error _. Leads-option error (Leads-pure _ tt) λ e'. Leads-pure _ tt

  Keeps-blacklist_target :
      (client target : String)
      → Keeps env s₀ attacker (blacklist_target env client group actor target)
  unfolding blacklist_target
  Keeps-blacklist_target client target = Leads-bind (Leads-add_blacklist target) λ refused q.
      elim (Option-cases refused) [
        | inl e ↦ rw e (Keeps-kick_added client target (q e))
        | inr (error, e) ↦ rw e (Leads-pure _ tt)
      ]

  pub Keeps-blacklist_command :
      (client target : String)
      → Keeps env s₀ attacker (blacklist_command env client group actor target)
  unfolding blacklist_command
  Keeps-blacklist_command client target = Leads-bind (Leads-engine env s₀ attacker) λ e _.
      Leads-if (str_eq target "")
        (λ h.
          Keeps-report_readers env s₀ attacker group actor unbot outranked client _ _
            e.store.state.blacklist)
        (λ h. Keeps-blacklist_target client target)

  pub Keeps-clear_command : Keeps env s₀ attacker (clear_command env group actor)
  unfolding clear_command
  Keeps-clear_command =
      Leads-bind
        (Keeps-with_store env s₀ attacker (λ m s. clear_blacklist env.json m.calls group actor s)
          (λ m s c. clear_blacklist-IsCalm env.json m.calls s₀ group actor s c))
        λ (removed, error) _. Leads-option error (Leads-pure _ tt) λ e. Leads-pure _ tt

  pub Keeps-kick_command :
      (client target : String) → Keeps env s₀ attacker (kick_command env client group actor target)
  unfolding kick_command
  Keeps-kick_command client target = Leads-bind (Leads-engine env s₀ attacker) λ e c.
      Leads-if (is_bot e target || not (is_user (role_of e group target))) (λ h. Leads-pure _ tt)
        λ h.
          Leads-if (ltb (rank (role_of e group actor)) (rank gadmin) || str_eq actor target)
            (λ h'. Leads-pure _ tt)
            λ h'.
              Leads-bind
                (Keeps-kick env s₀ attacker client group target
                  (user-MayBeKicked env s₀ attacker group target e c (ground arith) (ground arith)))
                λ error _. Leads-pure _ tt

  pub Keeps-invite_command :
      (client target : String)
      → Keeps env s₀ attacker (invite_command env client group actor target)
  unfolding invite_command
  Keeps-invite_command client target = Leads-bind (Leads-engine env s₀ attacker) λ e _.
      Leads-if
        (ltb (rank (role_of e group actor)) (rank gadmin)
          || (rank (role_of e group actor) == rank gadmin) && is_bot e target)
        (λ h. Leads-pure _ tt)
        λ h.
          Leads-bind (Keeps-invite env s₀ attacker client group (target ∷ []))
            λ error _. Leads-pure _ tt

  pub Keeps-bye : (client : String) → Keeps env s₀ attacker (bye env client group actor)
  unfolding bye
  Keeps-bye client = Leads-bind (Leads-engine env s₀ attacker) λ e _.
      Leads-if (ltb (rank (role_of e group actor)) (rank owner)) (λ h. Leads-pure _ tt)
        λ h. Leads-bind (Keeps-reply env s₀ attacker client group _) λ failed _.
          Leads-option failed
            (Leads-bind (Keeps-leave_fleet env s₀ attacker group client) λ error _. Leads-pure _ tt)
            λ error. Leads-pure _ tt
