-- ===== src/Guard/Engine/Spares.antt =====
-- Who may be kicked by the tests that the handlers of guard/engine.go make before a kick.
use line_go.Common.{ℕ, ◌≤◌, String, true, false, ◌≡◌, ◌∙◌, sym, ◌⊎◌, inl, inr, arith, List}
use line_go.Guard.Lists.{contains}
use line_go.Guard.Store.{State, WarState, rank, role, can_invite}
use line_go.Guard.War.{war_protected, kicks_joined}
use line_go.Guard.Engine.{Env, Engine}
use line_go.Guard.Engine.Memory.{is_bot}
use line_go.Guard.Engine.Actions.{role_of, is_user}
use line_go.Guard.Engine.Invitation.{may_invite}
use line_go.Guard.Engine.Calm.{gadmin-not_bot, blacklisted-low}
use line_go.Guard.Engine.Fair.{MayBeKicked, Calm}

module _ (env : Env) (s₀ : State) (attacker : String → Type 0) where
  -- What a calm engine is asked about somebody, its state at the event answers too.
  pub may_be_kicked :
      (group target : String) (e : Engine)
      → Calm env s₀ attacker e
      → contains e.store.state.bots target ≡ false
      → (rank (role e.store.state group target) ≤ 1) ⊎ attacker target
      → MayBeKicked s₀ attacker group target
  may_be_kicked group target e (c, fair) bot low = (unbot, low_lem low)
    where
      unbot : contains s₀.bots target ≡ false
      unbot = sym (c.same.bots target) ∙ bot

      low_lem :
          (rank (role e.store.state group target) ≤ 1) ⊎ attacker target
          → (rank (role s₀ group target) ≤ 1) ⊎ attacker target
      low_lem (inl h) = inl (rw (← c.same.roles group target unbot) h)
      low_lem (inr h) = inr h

  -- Somebody without a role who is no bot.
  pub user-MayBeKicked :
      (group target : String) (e : Engine)
      → Calm env s₀ attacker e
      → is_bot e target ≡ false
      → is_user (role_of e group target) ≡ true
      → MayBeKicked s₀ attacker group target
  unfolding is_bot is_user role_of rank
  user-MayBeKicked group target e c bot low =
      may_be_kicked group target e c bot (inl (ground arith))

  -- An inviter who may not invite.
  pub inviter-MayBeKicked :
      (group inviter : String) (invited : List String) (e : Engine)
      → Calm env s₀ attacker e
      → may_invite e.store.state group inviter invited ≡ false
      → MayBeKicked s₀ attacker group inviter
  unfolding may_invite can_invite rank
  inviter-MayBeKicked group inviter invited e c refused =
      may_be_kicked group inviter e c
        (ground (arith, gadmin-not_bot e.store.state group inviter c.0.normal)) (inl (ground arith))

  -- A member who joins while the war kicks them.
  pub joined-MayBeKicked :
      (now : ℕ) (war : WarState) (until : ℕ) (group joined : String) (e : Engine)
      → Calm env s₀ attacker e
      → kicks_joined now war until e.store.state group joined ≡ true
      → MayBeKicked s₀ attacker group joined
  unfolding kicks_joined war_protected rank
  joined-MayBeKicked now war until group joined e c kicked =
      may_be_kicked group joined e c (ground arith) (inl (ground arith))

  -- A member on the blacklist.
  pub blacklisted-MayBeKicked :
      (group mid : String) (e : Engine)
      → Calm env s₀ attacker e
      → contains e.store.state.blacklist mid ≡ true
      → MayBeKicked s₀ attacker group mid
  blacklisted-MayBeKicked group mid e c h =
      let (bot, low) = blacklisted-low e.store.state group mid c.0.normal h in
      may_be_kicked group mid e c bot (inl low)
