-- ===== src/Guard/Engine/Fair.antt =====
-- Whom a handler of the engine may kick, and what its actions lead to: a calm store, and a trace in
-- which everybody who was kicked could be.
use line_go.Common.{
  ℕ, ◌≤◌, String, Bool, false, not, Option, ◌≡◌, ◌⊎◌, inl, inr, List, [], ◌∷◌, Bool-cases, ◌||◌,
}
use line_go.Guard.Lists.{contains}
use line_go.Guard.Store.{State, rank, role}
use line_go.Guard.Store.Persist.{Store}
use line_go.Guard.War.{war_active}
use text.Mathlib.Text.{◌==◌ as str_eq}
use line_go.Guard.Engine.{
  Call, kicks, Env, Engine, Moment, M, ◌>>=◌, pure, gets, modify, moment, call,
}
use line_go.Guard.Engine.Memory.{
  with_member, set_member, clear_pending_invite, duplicate, defense_completed,
}
use line_go.Guard.Engine.WarRecords.{
  update_runtime, with_store, war_now, add_war_risk, record_war_action,
}
use line_go.Guard.Engine.Actions.{record_health, start_reconcile}
use line_go.Guard.Engine.Leads.{Leads, Leads-if, Leads-pure, Leads-bind, Leads-modify, Leads-gets}
use line_go.Guard.Engine.Calm.{IsCalm, war_active-IsCalm}

-- Of the state that the event finds: no bot may be kicked, and of those who rank above a group admin
-- only who is an attacker.
abbrev pub MayBeKicked : State → (String → Type 0) → String → String → Type 0
MayBeKicked s attacker group target =
    (contains s.bots target ≡ false) × ((rank (role s group target) ≤ 1) ⊎ attacker target)

abbrev pub AllMayBeKicked : State → (String → Type 0) → String → List String → Type 0
AllMayBeKicked s attacker group [] = Unit
AllMayBeKicked s attacker group (target ∷ targets) =
    MayBeKicked s attacker group target × AllMayBeKicked s attacker group targets

abbrev pub IsFair : State → (String → Type 0) → Call → Type 0
IsFair s attacker (kicks client group targets) = AllMayBeKicked s attacker group targets
IsFair s attacker _ = Unit

abbrev pub AreFair : State → (String → Type 0) → List Call → Type 0
AreFair s attacker [] = Unit
AreFair s attacker (c ∷ cs) = IsFair s attacker c × AreFair s attacker cs

module _ (env : Env) (s₀ : State) (attacker : String → Type 0) where
  abbrev pub Fair : Engine → Type 0
  Fair e = AreFair s₀ attacker e.trace

  abbrev pub Calm : Engine → Type 0
  Calm e = IsCalm s₀ e.store.state × AreFair s₀ attacker e.trace

  -- An action that keeps the engine calm, whatever it returns.
  abbrev pub Keeps : {A : Type 0} → M A → Type 0
  Keeps {A} = Leads Calm Calm (λ (a : A). Unit {0})

  pub Keeps-moment : Keeps (moment env)
  unfolding moment
  Keeps-moment = record { leads = λ e p. (p, tt) }

  pub Keeps-call : (c : Call) → IsFair s₀ attacker c → Keeps (call env c)
  unfolding call
  Keeps-call c h = record { leads = λ e (p, q). ((p, (h, q)), tt) }

  -- What is read of the engine is calm.
  pub Leads-engine : Leads Calm Calm Calm (gets (λ e. e))
  Leads-engine = Leads-gets _ (λ e p. p)

  pub Keeps-with_store :
      {A : Type 0} (f : Moment → Store → Store × A)
      → ((m : Moment) (s : Store) → IsCalm s₀ s.state → IsCalm s₀ (f m s).0.state)
      → Keeps (with_store env f)
  unfolding with_store moment ◌>>=◌ gets modify pure
  Keeps-with_store f h = record { leads = λ e (p, q). ((h (env.at e.tick) e.store p, q), tt) }

  pub Keeps-war_now : (group : String) → Keeps (war_now env group)
  unfolding war_now
  Keeps-war_now group =
      Keeps-with_store
        (λ m s. let (s', w, on) = war_active env.json m.calls m.now group s in (s', (w, on)))
        (λ m s c. war_active-IsCalm env.json m.calls s₀ m.now group s c)

  pub Keeps-duplicate : (key : String) → Keeps (duplicate env key)
  unfolding duplicate
  Keeps-duplicate key =
      Leads-if (str_eq key "") (λ h. Leads-pure _ tt)
        λ h. Leads-bind Keeps-moment λ m _.
          Leads-bind Leads-engine
            λ e _. Leads-bind (Leads-modify _ (λ e p. p)) λ u _. Leads-pure _ tt

  pub Keeps-defense_completed :
      (key : String) (mark : Bool) → Keeps (defense_completed env key mark)
  unfolding defense_completed
  Keeps-defense_completed key mark = Leads-bind Keeps-moment λ m _.
      Leads-bind Leads-engine λ e _. Leads-bind (Leads-modify _ (λ e p. p)) λ u _. Leads-pure _ tt

  pub Keeps-add_war_risk :
      (group mid : String) (score : ℕ) → Keeps (add_war_risk env group mid score)
  unfolding add_war_risk update_runtime
  Keeps-add_war_risk group mid score = Leads-bind Keeps-moment λ m _. Leads-modify _ (λ e p. p)

  pub Keeps-record_war_action :
      (group action : String) (error : Option String)
      → Keeps (record_war_action env group action error)
  unfolding record_war_action update_runtime
  Keeps-record_war_action group action error = Leads-bind (Keeps-war_now group) λ (w, on) _.
      Leads-if (not on) (λ h. Leads-pure _ tt)
        λ h. Leads-bind Keeps-moment λ m _. Leads-modify _ (λ e p. p)

  with_member-Calm :
      (group mid : String) (present : Bool) (e : Engine)
      → Calm e
      → Calm (with_member group mid present e)
  unfolding with_member
  with_member-Calm group mid present e p = elim (Bool-cases (str_eq group "" || str_eq mid "")) [
    | inl h ↦ rw (h, with_member) p
    | inr h ↦ rw (h, with_member) p
  ]

  pub Keeps-set_member :
      (group mid : String) (present : Bool) → Keeps (set_member group mid present)
  unfolding set_member
  Keeps-set_member group mid present = Leads-modify _ (with_member-Calm group mid present)

  pub Keeps-clear_pending_invite : (group mid : String) → Keeps (clear_pending_invite group mid)
  unfolding clear_pending_invite
  Keeps-clear_pending_invite group mid = Leads-modify _ (λ e p. p)

  pub Keeps-record_health :
      (mid action : String) (error : Option String) → Keeps (record_health env mid action error)
  unfolding record_health
  Keeps-record_health mid action error = Leads-bind Keeps-moment λ m _. Leads-modify _ (λ e p. p)

  pub Keeps-start_reconcile : (group : String) → Keeps (start_reconcile env group)
  unfolding start_reconcile
  Keeps-start_reconcile group = Leads-bind (Keeps-call _ tt) λ m _. Leads-pure _ tt
