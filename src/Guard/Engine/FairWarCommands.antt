-- ===== src/Guard/Engine/FairWarCommands.antt =====
-- The war commands of guard/war.go under the postconditions of Leads, Calm and Fair.
use line_go.Common.{
  ℕ, String, Bool, not, ◌&&◌, ◌||◌, Option, none, some, List, [], ◌∷◌, ◌==◌, ltb, ℤ, pos, find_key,
  Option-cases, inl, inr,
}
use line_go.Guard.Commands.{has_prefix}
use line_go.Guard.Store.{State, WarState, owner, rank, creator}
use line_go.Guard.War.{update_war, war}
use line_go.Guard.Engine.{Env, Engine, reports, ◌>>=◌, pure, call}
use line_go.Guard.Engine.WarRecords.{update_runtime, reset_war_runtime, or_zero}
use line_go.Guard.Engine.Actions.{role_of, reply}
use line_go.Guard.Engine.WarReports.{
  Reply, update_settings, updates, ensured, war_report, war_status, send_suspects, suspect_names,
  pardon, third, level_of, last_text, is_war_duration,
}
use line_go.Guard.Engine.WarCommands.{
  start_war, war_on, war_level, war_sensitivity, war_cooldown, send_whitelist, whitelist,
  war_pardon, war_quarantine, clear_war, war_setting, execute_war,
}
use line_go.Guard.Engine.Leads.{
  Leads-if, Leads-option, Leads-pure, Leads-bind, Leads-modify, Leads-gets,
}
use line_go.Guard.Engine.CalmStores.{update_war-IsCalm}
use line_go.Guard.Engine.Fair.{
  Calm, Keeps, Leads-engine, Keeps-moment, Keeps-call, Keeps-with_store, Keeps-war_now,
}
use text.Mathlib.Text.{◌==◌ as str_eq}

module _ (env : Env) (s₀ : State) (attacker : String → Type 0) where
  pub Keeps-report :
      (client group heading : String) (mids : List String)
      → Keeps env s₀ attacker
          (do m ← call env (reports client group heading mids); pure {A = Reply} ("", m.error))
  Keeps-report client group heading mids =
      Leads-bind (Keeps-call env s₀ attacker _ tt) λ m _. Leads-pure _ tt

  pub Keeps-reply :
      (client group text : String) → Keeps env s₀ attacker (reply env client group text)
  unfolding reply
  Keeps-reply client group text =
      Leads-bind (Keeps-call env s₀ attacker _ tt) λ m _. Leads-pure _ tt

  Keeps-reset_war_runtime : (group : String) → Keeps env s₀ attacker (reset_war_runtime env group)
  unfolding reset_war_runtime update_runtime
  Keeps-reset_war_runtime group =
      Leads-bind (Keeps-moment env s₀ attacker) λ m _. Leads-modify _ (λ e p. p)

  Keeps-update_settings :
      (group actor : String) (change : WarState → WarState)
      → Keeps env s₀ attacker (update_settings env group actor change)
  unfolding update_settings
  Keeps-update_settings group actor change =
      Leads-bind
        (Keeps-with_store env s₀ attacker
          (λ m s. update_war env.json m.calls group actor (λ w. (change w, none)) s)
          (λ m s c. update_war-IsCalm env.json m.calls s₀ group actor change s c))
        λ error _. Leads-pure _ tt

  Keeps-updates :
      (group actor : String) (change : WarState → WarState) (text : String)
      → Keeps env s₀ attacker (updates env group actor change text)
  unfolding updates
  Keeps-updates group actor change text =
      Leads-bind (Keeps-update_settings group actor change) λ error _. Leads-pure _ tt

  Keeps-ensured : (group : String) → Keeps env s₀ attacker (ensured env group)
  unfolding ensured update_runtime
  Keeps-ensured group =
      Leads-bind (Keeps-moment env s₀ attacker)
        λ m _. Leads-bind (Leads-modify _ (λ e p. p)) λ u _. Leads-gets _ (λ e p. tt)

  Keeps-war_report : (group : String) → Keeps env s₀ attacker (war_report env group)
  unfolding war_report
  Keeps-war_report group = Leads-bind (Keeps-ensured group) λ r _. Leads-pure _ tt

  Keeps-war_status : (group : String) → Keeps env s₀ attacker (war_status env group)
  unfolding war_status
  Keeps-war_status group = Leads-bind (Keeps-war_now env s₀ attacker group) λ (w, on) _.
      Leads-bind (Keeps-moment env s₀ attacker)
        λ m _. Leads-bind (Keeps-war_report group) λ report _. Leads-pure _ tt

  Keeps-send_suspects :
      (client group : String) → Keeps env s₀ attacker (send_suspects env client group)
  unfolding send_suspects
  Keeps-send_suspects client group = Leads-bind (Keeps-ensured group) λ r _. tell (
      env.sort (λ a b. ltb (or_zero (find_key r.suspects b)) (or_zero (find_key r.suspects a)))
        (suspect_names r.suspects))
    where
      tell :
          (mids : List String)
          → Keeps env s₀ attacker {A = Reply} (elim mids [
            | [] ↦ do error ← reply env client group "No war suspects."; pure ("", error)
            | mid ∷ rest ↦ do
              m ← call env (reports client group "War suspects:" (mid ∷ rest))
              pure ("", m.error)
          ])
      tell [] = Leads-bind (Keeps-reply client group _) λ error _. Leads-pure _ tt
      tell (mid ∷ rest) = Keeps-report client group _ (mid ∷ rest)

  Keeps-start_war :
      (group actor : String) (duration : ℤ)
      → Keeps env s₀ attacker (start_war env group actor duration)
  unfolding start_war
  Keeps-start_war group actor duration =
      Leads-if (not (is_war_duration duration)) (λ h. Leads-pure _ tt)
        λ h. Leads-bind (Keeps-moment env s₀ attacker) λ m _.
          Leads-bind (Keeps-update_settings group actor _) λ error _.
            Leads-bind (Leads-option error (Keeps-reset_war_runtime group) λ e. Leads-pure _ tt)
              λ u _. Leads-bind (Leads-engine env s₀ attacker) λ e _. Leads-pure _ tt

  Keeps-war_on :
      (group actor command : String) → Keeps env s₀ attacker (war_on env group actor command)
  unfolding war_on
  Keeps-war_on group actor command =
      Leads-option (third (env.words.fields command))
        (Keeps-start_war group actor (pos 300_000_000_000))
        λ text.
          Leads-option (env.duration text)
            (Leads-pure ("", some "duration examples: 5m, 30s, 1h") tt)
            λ duration. Keeps-start_war group actor duration

  Keeps-war_level :
      (group actor : String) (by_creator : Bool) (level : ℕ)
      → Keeps env s₀ attacker (war_level env group actor by_creator level)
  unfolding war_level
  Keeps-war_level group actor by_creator level =
      Leads-if (level == 0 || ltb 3 level) (λ h. Leads-pure _ tt)
        λ h.
          Leads-if ((level == 3) && not by_creator) (λ h'. Leads-pure _ tt)
            λ h'. Keeps-updates group actor _ _

  Keeps-war_cooldown :
      (group actor : String) (duration : Option ℤ)
      → Keeps env s₀ attacker (war_cooldown env group actor duration)
  unfolding war_cooldown
  Keeps-war_cooldown group actor none = Leads-pure _ tt
  Keeps-war_cooldown group actor (some d) = Keeps-updates group actor _ _

  Keeps-war_sensitivity :
      (group actor value : String) → Keeps env s₀ attacker (war_sensitivity env group actor value)
  unfolding war_sensitivity
  Keeps-war_sensitivity group actor value =
      Leads-if
        (not (str_eq value "low") && not (str_eq value "medium") && not (str_eq value "high"))
        (λ h. Leads-pure _ tt) (λ h. Keeps-updates group actor _ _)

  Keeps-send_whitelist :
      (client group : String) → Keeps env s₀ attacker (send_whitelist env client group)
  unfolding send_whitelist
  Keeps-send_whitelist client group =
      Leads-bind (Leads-engine env s₀ attacker) λ e _. tell (war group e.store.state).whitelist
    where
      tell :
          (mids : List String)
          → Keeps env s₀ attacker {A = Reply} (elim mids [
            | [] ↦ pure ("War whitelist is empty.", none)
            | mid ∷ rest ↦ do
              m ← call env (reports client group "War whitelist:" (mid ∷ rest))
              pure ("", m.error)
          ])
      tell [] = Leads-pure _ tt
      tell (mid ∷ rest) = Keeps-report client group _ (mid ∷ rest)

  Keeps-whitelist :
      (group actor : String) (add : Bool) (target : String)
      → Keeps env s₀ attacker (whitelist env group actor add target)
  unfolding whitelist
  Keeps-whitelist group actor add target =
      Leads-if (str_eq target "") (λ h. Leads-pure _ tt) (λ h. Keeps-updates group actor _ _)

  pardon-Calm :
      (group target : String) (e : Engine)
      → Calm env s₀ attacker e
      → Calm env s₀ attacker (pardon group target e)
  unfolding pardon
  pardon-Calm group target e c = elim (Option-cases (find_key e.war group)) [
    | inl h ↦ rw (h, pardon) c
    | inr (r, h) ↦ rw (h, pardon) c
  ]

  Keeps-war_pardon : (group target : String) → Keeps env s₀ attacker (war_pardon env group target)
  unfolding war_pardon
  Keeps-war_pardon group target =
      Leads-if (str_eq target "") (λ h. Leads-pure _ tt)
        λ h. Leads-bind (Leads-modify _ (pardon-Calm group target)) λ u _. Leads-pure _ tt

  Keeps-war_quarantine :
      (group target : String) → Keeps env s₀ attacker (war_quarantine env group target)
  unfolding war_quarantine update_runtime
  Keeps-war_quarantine group target =
      Leads-if (str_eq target "") (λ h. Leads-pure _ tt)
        λ h.
          Leads-bind (Keeps-moment env s₀ attacker)
            λ m _. Leads-bind (Leads-modify _ (λ e p. p)) λ u _. Leads-pure _ tt

  Keeps-war_setting :
      (client group actor command target : String)
      → Keeps env s₀ attacker (war_setting env client group actor command target)
  unfolding war_setting clear_war
  Keeps-war_setting client group actor command target =
      Leads-if (str_eq command "war lock" || str_eq command "war unlock")
        (λ h. Keeps-updates group actor _ _)
        λ h.
          Leads-if (str_eq command "war auto on" || str_eq command "war auto off")
            (λ h. Keeps-updates group actor _ _)
            λ h.
              Leads-if (has_prefix command "war sensitivity ")
                (λ h. Keeps-war_sensitivity group actor (last_text (env.words.fields command)))
                λ h.
                  Leads-if (has_prefix command "war cooldown ")
                    (λ h. Keeps-war_cooldown group actor _)
                    λ h.
                      Leads-if (str_eq command "war dryrun on" || str_eq command "war dryrun off")
                        (λ h. Keeps-updates group actor _ _)
                        λ h.
                          Leads-if (str_eq command "war whitelist")
                            (λ h. Keeps-send_whitelist client group)
                            λ h.
                              Leads-if
                                (str_eq command "war whitelist add"
                                  || str_eq command "war whitelist del")
                                (λ h. Keeps-whitelist group actor _ target)
                                λ h.
                                  Leads-if (has_prefix command "war pardon")
                                    (λ h. Keeps-war_pardon group target)
                                    λ h.
                                      Leads-if (has_prefix command "war quarantine")
                                        (λ h. Keeps-war_quarantine group target)
                                        λ h.
                                          Leads-if (str_eq command "war clear")
                                            (λ h.
                                              Leads-bind (Keeps-reset_war_runtime group)
                                                λ u _. Leads-pure _ tt)
                                            (λ h. Leads-pure _ tt)

  pub Keeps-execute_war :
      (client group actor command target : String)
      → Keeps env s₀ attacker (execute_war env client group actor command target)
  unfolding execute_war
  Keeps-execute_war client group actor command target =
      Leads-bind (Leads-engine env s₀ attacker) λ e _.
        Leads-if (ltb (rank (role_of e group actor)) (rank owner)) (λ h. Leads-pure _ tt)
          λ h.
            Leads-if (has_prefix command "war on") (λ h. Keeps-war_on group actor command)
              λ h.
                Leads-if (str_eq command "war off") (λ h. Keeps-updates group actor _ _)
                  λ h.
                    Leads-if (str_eq command "war status" || str_eq command "war dashboard")
                      (λ h. Leads-bind (Keeps-war_status group) λ text _. Leads-pure _ tt)
                      λ h.
                        Leads-if (str_eq command "war report")
                          (λ h. Leads-bind (Keeps-war_report group) λ text _. Leads-pure _ tt)
                          λ h.
                            Leads-if (str_eq command "war suspects")
                              (λ h. Keeps-send_suspects client group)
                              λ h.
                                Leads-if (has_prefix command "war level ")
                                  (λ h.
                                    Keeps-war_level group actor
                                      (rank (role_of e group actor) == rank creator)
                                      (level_of (env.words.bytes command)))
                                  (λ h. Keeps-war_setting client group actor command target)
