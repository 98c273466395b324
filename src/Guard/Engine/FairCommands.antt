-- ===== src/Guard/Engine/FairCommands.antt =====
-- The store commands, reports and roles that `execute` of guard/engine.go passes on, for a sender.
use line_go.Common.{ℕ, ◌≤◌, ◌<◌, String, true, false, Option, ◌≡◌, arith, List, [], ◌∷◌, ltb}
use line_go.Guard.Lists.{contains}
use line_go.Guard.Store.{State, Role, owner, creator, rank, role, StoreError}
use line_go.Guard.Store.Persist.{Store}
use line_go.Guard.Store.Roles.{mutate_role, add_owner, del_owner, add_admin, del_admin}
use line_go.Guard.Store.Settings.{lurk_state, set_lurk}
use line_go.Guard.Engine.{Env, Engine, Moment, M, ◌>>=◌, pure, gets, modify, moment}
use line_go.Guard.Engine.WarRecords.{with_store}
use line_go.Guard.Engine.Actions.{role_of}
use line_go.Guard.Engine.WarReports.{Reply}
use line_go.Guard.Engine.MemberCommands.{
  stores, stores_first, report, report_for, with_target, report_readers, lurk_off, lurk_command,
  role_command,
}
use line_go.Guard.Engine.Leads.{Leads, Leads-if, Leads-option, Leads-pure, Leads-bind, Leads-loosen}
use line_go.Guard.Engine.Calm.{IsCalm}
use line_go.Guard.Engine.CalmStores.{set_lurk-IsCalm}
use line_go.Guard.Engine.Fair.{AreFair, Calm, Keeps, Leads-engine, Keeps-call, Keeps-with_store}
use text.Mathlib.Text.{◌==◌ as str_eq}
use line_go.Guard.Engine.Refused.{
  role_elsewhere, mutate_role-refused, add_gadmin-refused, del_gadmin-refused, add_creator-refused,
  del_creator-refused,
}

module _ (env : Env) (s₀ : State) (attacker : String → Type 0) (group actor : String)
    (unbot : contains s₀.bots actor ≡ false)
    (outranked : (target : String)
      → rank (role s₀ group target) < rank (role s₀ group actor)
      → attacker target) where
  -- The sender has no role in the group.
  abbrev pub IsLowly : Type 0
  IsLowly = rank (role s₀ group actor) ≡ 0

  abbrev pub Within : Engine → Type 0
  Within e = AreFair s₀ attacker e.trace × (IsLowly → IsCalm s₀ e.store.state)

  -- An action that kicks nobody it must spare, and keeps all calm for a sender without a role.
  abbrev pub Obeys : {A : Type 0} → M A → Type 0
  Obeys {A} = Leads (Calm env s₀ attacker) Within (λ (a : A). Unit {0})

  pub Keeps-Obeys : {A : Type 0} {m : M A} → Keeps env s₀ attacker m → Obeys m
  Keeps-Obeys h = Leads-loosen (λ e c. (c.1, λ low. c.0)) (λ a u. u) h

  pub lowly_role :
      (s : State)
      → IsCalm s₀ s
      → IsLowly
      → (rank (role s group actor) ≡ 0) × (rank (role s "" actor) ≤ 1)
  lowly_role s c low =
      let here : rank (role s group actor) ≡ 0 = rw (c.same.roles group actor unbot) low in
      (here, role_elsewhere s group "" actor here)

  stored-Obeys :
      {A : Type 0} (change : Moment → Store → Store × A)
      → ((m : Moment) (s : Store) → IsCalm s₀ s.state → IsLowly → IsCalm s₀ (change m s).0.state)
      → Obeys (with_store env change)
  unfolding with_store moment ◌>>=◌ gets modify pure
  stored-Obeys change h = record {
    leads = λ e (c, fair). ((fair, λ low. h (env.at e.tick) e.store c low), tt);
  }

  pub stores-Obeys :
      (change : Moment → Store → Store × Option StoreError) (text : String)
      → ((m : Moment) (s : Store) → IsCalm s₀ s.state → IsLowly → IsCalm s₀ (change m s).0.state)
      → Obeys (stores env change text)
  unfolding stores
  stores-Obeys change text h = Leads-bind (stored-Obeys change h) λ error _. Leads-pure _ tt

  pub stores_first-Obeys :
      (change : Moment → Store → Store × Option StoreError) (text : String)
      → ((m : Moment) (s : Store) → IsCalm s₀ s.state → IsLowly → IsCalm s₀ (change m s).0.state)
      → Obeys (stores_first env change text)
  unfolding stores_first
  stores_first-Obeys change text h = Leads-bind (stored-Obeys change h) λ error _. Leads-pure _ tt

  pub Keeps-report :
      (client heading : String) (mids : List String)
      → Keeps env s₀ attacker (report env client group heading mids)
  unfolding report
  Keeps-report client heading mids =
      Leads-bind (Keeps-call env s₀ attacker _ tt) λ m _. Leads-pure _ tt

  pub Keeps-report_for :
      (minimum : Role) (client heading : String) (mids : List String)
      → Keeps env s₀ attacker (report_for env minimum client group actor heading mids)
  unfolding report_for
  Keeps-report_for minimum client heading mids = Leads-bind (Leads-engine env s₀ attacker) λ e _.
      Leads-if (ltb (rank (role_of e group actor)) (rank minimum)) (λ h. Leads-pure _ tt)
        (λ h. Keeps-report client heading mids)

  pub Keeps-report_readers :
      (client empty heading : String) (mids : List String)
      → Keeps env s₀ attacker (report_readers env client group empty heading mids)
  unfolding report_readers
  Keeps-report_readers client empty heading [] = Leads-pure _ tt
  Keeps-report_readers client empty heading (mid ∷ mids) = Keeps-report client heading (mid ∷ mids)

  pub with_target-Obeys :
      (target : String) {m : M Reply} → Obeys m → Obeys (with_target env target m)
  unfolding with_target
  with_target-Obeys target h =
      Leads-if (str_eq target "") (λ e. Keeps-Obeys (Leads-pure _ tt)) (λ e. h)

  Keeps-lurk_off : (client : String) → Keeps env s₀ attacker (lurk_off env client group actor)
  unfolding lurk_off
  Keeps-lurk_off client = Leads-bind (Leads-engine env s₀ attacker) λ e _.
      Leads-bind
        (Keeps-with_store env s₀ attacker (λ m s. set_lurk env.json m.calls group actor false s)
          (λ m s c. set_lurk-IsCalm env.json m.calls s₀ group actor false s c))
        λ error _.
          Leads-option error (Keeps-report_readers client _ _ (lurk_state group e.store).1)
            λ e'. Leads-pure _ tt

  pub lurk_command-Obeys :
      (client command : String) → Obeys (lurk_command env client group actor command)
  unfolding lurk_command
  lurk_command-Obeys client command = Leads-bind (Leads-engine env s₀ attacker) λ e _.
      Leads-if (str_eq command "lurk on")
        (λ h.
          stores_first-Obeys _ _
            (λ m s c low. set_lurk-IsCalm env.json m.calls s₀ group actor true s c))
        λ h.
          Leads-if (str_eq command "lurk off") (λ h. Keeps-Obeys (Keeps-lurk_off client))
            λ h.
              Leads-if (str_eq command "lurk names")
                (λ h. Keeps-Obeys (Keeps-report client _ (lurk_state group e.store).1))
                (λ h. Keeps-Obeys (Keeps-report_readers client _ _ (lurk_state group e.store).1))

  mutate_role-lowly :
      (m : Moment) (s : Store) (minimum : Role) (k target : String) (change : State → State)
      → IsCalm s₀ s.state
      → rank (role s.state k actor) < rank minimum
      → IsCalm s₀ (mutate_role env.json m.calls minimum k actor target change s).0.state
  mutate_role-lowly m s minimum k target change c h =
      rw (mutate_role-refused env.json m.calls s minimum k actor target change h) c

  pub role_command-Obeys :
      (command target : String) → Obeys (role_command env group actor command target)
  unfolding role_command add_owner del_owner add_admin del_admin rank
  role_command-Obeys command target =
      Leads-if (str_eq command "add creator")
        (λ h. stores-Obeys _ _ (λ m s c low.
          rw (add_creator-refused env.json m.calls s actor target (lowly_role s.state c low).1) c))
        λ h.
          Leads-if (str_eq command "del creator")
            (λ h. stores-Obeys _ _ (λ m s c low.
              rw (del_creator-refused env.json m.calls s actor target (lowly_role s.state c low).1)
                c))
            λ h.
              Leads-if (str_eq command "add owner")
                (λ h. stores-Obeys _ _ (λ m s c low.
                  mutate_role-lowly m s creator "" target _ c (below s 4 c low (omega arith))))
                λ h.
                  Leads-if (str_eq command "del owner")
                    (λ h. stores-Obeys _ _ (λ m s c low.
                      mutate_role-lowly m s creator "" target _ c (below s 4 c low (omega arith))))
                    λ h.
                      Leads-if (str_eq command "add admin")
                        (λ h. stores-Obeys _ _ (λ m s c low.
                          mutate_role-lowly m s owner "" target _ c
                            (below s 3 c low (omega arith))))
                        λ h.
                          Leads-if (str_eq command "del admin")
                            (λ h. stores-Obeys _ _ (λ m s c low.
                              mutate_role-lowly m s owner "" target _ c
                                (below s 3 c low (omega arith))))
                            λ h.
                              Leads-if (str_eq command "add gadmin")
                                (λ h. stores-Obeys _ _ (λ m s c low.
                                  rw
                                    (add_gadmin-refused env.json m.calls s group actor target
                                      (lowly_role s.state c low).0)
                                    c))
                                (λ h. stores-Obeys _ _ (λ m s c low.
                                  rw
                                    (del_gadmin-refused env.json m.calls s group actor target
                                      (lowly_role s.state c low).0)
                                    c))
    where
      below :
          (s : Store) (n : ℕ)
          → IsCalm s₀ s.state
          → IsLowly
          → 1 < n
          → rank (role s.state "" actor) < n
      below s n c low h = omega (arith, (lowly_role s.state c low).1)
