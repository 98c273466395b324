-- ===== src/Guard/Engine/FairExecute.antt =====
-- Whom `execute` of guard/engine.go kicks, and what it changes for a sender without a role.
use line_go.Common.{◌<◌, String, false, ◌||◌, ◌≡◌, List, [], ◌∷◌, ◌++◌}
use line_go.Guard.Lists.{contains}
use line_go.Guard.Commands.{has_prefix, or_text}
use line_go.Guard.Store.{State, gadmin, admin, owner, rank, role}
use line_go.Guard.Engine.{Env, M}
use line_go.Guard.Engine.Actions.{first_of}
use line_go.Guard.Engine.MemberCommands.{with_target}
use line_go.Guard.Engine.Commands.{
  set_alias, store_command, report_command, execute, protections, store_commands, ends_on,
}
use line_go.Guard.Engine.Leads.{Leads-if, Leads-pure, Leads-bind}
use line_go.Guard.Engine.CalmStores.{
  set_protection-IsCalm, set_command_alias-IsCalm, unban-IsCalm, backup-IsCalm,
}
use line_go.Guard.Engine.Fair.{Keeps, Leads-engine, Keeps-moment}
use line_go.Guard.Engine.FairWarCommands.{Keeps-execute_war}
use line_go.Guard.Engine.FairReserves.{Keeps-configure_reserves}
use line_go.Guard.Engine.FairKickAll.{Keeps-kick_all}
use text.Mathlib.Text.{◌==◌ as str_eq}
use line_go.Guard.Engine.Refused.{restore-refused}
use line_go.Guard.Engine.FairCommands.{
  Obeys, Keeps-Obeys, lowly_role, stores-Obeys, stores_first-Obeys, Keeps-report, Keeps-report_for,
  with_target-Obeys, lurk_command-Obeys, role_command-Obeys,
}
use line_go.Guard.Engine.FairMembers.{
  Keeps-blacklist_command, Keeps-clear_command, Keeps-kick_command, Keeps-invite_command, Keeps-bye,
}

module _ (env : Env) (s₀ : State) (attacker : String → Type 0) (group actor : String)
    (unbot : contains s₀.bots actor ≡ false)
    (outranked : (target : String)
      → rank (role s₀ group target) < rank (role s₀ group actor)
      → attacker target) where
  obeys :
      {A : Type 0} {m : M A}
      → Keeps env s₀ attacker m
      → Obeys env s₀ attacker group actor unbot outranked m
  obeys h = Keeps-Obeys env s₀ attacker group actor unbot outranked h

  store_command-Obeys :
      (client command target raw : String)
      → Obeys env s₀ attacker group actor unbot outranked
          (store_command env client group actor command target raw)
  unfolding store_command set_alias
  store_command-Obeys client command target raw =
      let words = env.words.fields command in
      Leads-if (contains protections command)
        (λ h. stores_first-Obeys env s₀ attacker group actor unbot outranked _ _ (λ m s c low.
          set_protection-IsCalm env.json m.calls s₀ group actor _ (ends_on words) s c))
        λ h.
          Leads-if
            (contains
              ("add creator" ∷ "del creator" ∷ "add owner" ∷ "del owner" ∷ "add admin" ∷ "del admin"
                ∷ "add gadmin" ∷ "del gadmin" ∷ [])
              command)
            (λ h.
              with_target-Obeys env s₀ attacker group actor unbot outranked target
                (role_command-Obeys env s₀ attacker group actor unbot outranked command target))
            λ h.
              Leads-if (str_eq command "blacklist")
                (λ h. obeys (
                  Keeps-blacklist_command env s₀ attacker group actor unbot outranked client
                    target))
                λ h.
                  Leads-if (str_eq command "unban")
                    (λ h. with_target-Obeys env s₀ attacker group actor unbot outranked target (
                      stores-Obeys env s₀ attacker group actor unbot outranked _ _
                        (λ m s c low. unban-IsCalm env.json m.calls s₀ group actor target s c)))
                    λ h.
                      Leads-if (str_eq command "clear blacklist" || str_eq command "clearban")
                        (λ h.
                          obeys (Keeps-clear_command env s₀ attacker group actor unbot outranked))
                        λ h.
                          Leads-if (str_eq command "setcmd kick" || str_eq command "setcmd kickall")
                            (λ h.
                              stores_first-Obeys env s₀ attacker group actor unbot outranked _ _
                                (λ m s c low.
                                  set_command_alias-IsCalm env.json m.calls s₀ env.strings actor _ _
                                    s c))
                            λ h.
                              Leads-if (str_eq command "settings backup")
                                (λ h.
                                  stores_first-Obeys env s₀ attacker group actor unbot outranked _ _
                                    (λ m s c low.
                                      backup-IsCalm env.json m.calls s₀ m.written m.left actor s c))
                                λ h.
                                  Leads-if (str_eq command "settings restore")
                                    (λ h.
                                      stores_first-Obeys env s₀ attacker group actor unbot outranked
                                        _ _
                                        (λ m s c low.
                                          rw
                                            (restore-refused env.json m.calls s m.source actor
                                              (lowly_role env s₀ attacker group actor unbot
                                                outranked s.state c low).1)
                                            c))
                                    (λ h. obeys (Leads-pure _ tt))

  Keeps-report_command :
      (client command target : String)
      → Keeps env s₀ attacker (report_command env client group actor command target)
  unfolding report_command with_target
  Keeps-report_command client command target =
      let report_to = Keeps-report_for env s₀ attacker group actor unbot outranked in
      Leads-bind (Leads-engine env s₀ attacker) λ e _.
        Leads-if (str_eq command "ping") (λ h. Leads-pure _ tt)
          λ h.
            Leads-if (str_eq command "speed" || str_eq command "sp")
              (λ h. Leads-bind (Keeps-moment env s₀ attacker) λ m _. Leads-pure _ tt)
              λ h.
                Leads-if (str_eq command "ticket" || str_eq command "add me")
                  (λ h. report_to owner client command [])
                  λ h.
                    Leads-if (str_eq command "commands") (λ h. Leads-pure _ tt)
                      λ h.
                        Leads-if (str_eq command "bot health" || str_eq command "health")
                          (λ h. report_to admin client command [])
                          λ h.
                            Leads-if (str_eq command "protect status") (λ h. Leads-pure _ tt)
                              λ h.
                                Leads-if (str_eq command "samejoin")
                                  (λ h.
                                    Leads-if (str_eq target "") (λ h'. Leads-pure _ tt)
                                      (λ h'. report_to gadmin client command (target ∷ [])))
                                  λ h.
                                    Leads-if
                                      (contains
                                        ("bots" ∷ "status" ∷ "lkick" ∷ "ljoin" ∷ "all" ∷ "etiket"
                                          ∷ "@all" ∷ "history" ∷ [])
                                        command)
                                      (λ h. report_to gadmin client command [])
                                      λ h.
                                        Leads-if
                                          (contains
                                            ("access" ∷ "roles" ∷ "guard help" ∷ "help" ∷ [])
                                            command)
                                          (λ h.
                                            Leads-bind (Keeps-moment env s₀ attacker)
                                              λ m _. Leads-pure _ tt)
                                          (λ h. Leads-pure _ tt)

  pub execute-Obeys :
      (client command : String) (targets : List String) (raw : String)
      → Obeys env s₀ attacker group actor unbot outranked
          (execute env client group actor command targets raw)
  unfolding execute
  execute-Obeys client command targets raw =
      let target = or_text "" (first_of targets) in
      Leads-if (str_eq command "leader")
        (λ h. obeys (Keeps-report env s₀ attacker group actor unbot outranked client _ []))
        λ h.
          Leads-if (has_prefix command "war ")
            (λ h. obeys (Keeps-execute_war env s₀ attacker client group actor _ target))
            λ h.
              Leads-if
                (contains
                  ("lurk on" ∷ "lurk off" ∷ "lurk" ∷ "readers" ∷ "lurk names" ∷ "lurk mention" ∷ [])
                  command)
                (λ h. lurk_command-Obeys env s₀ attacker group actor unbot outranked client command)
                λ h.
                  Leads-if (str_eq command "bye")
                    (λ h. obeys (Keeps-bye env s₀ attacker group actor unbot outranked client))
                    λ h.
                      Leads-if (str_eq command "ghost 1")
                        (λ h. obeys (Keeps-configure_reserves env s₀ attacker client group actor 1))
                        λ h.
                          Leads-if (str_eq command "ghost 2")
                            (λ h.
                              obeys (Keeps-configure_reserves env s₀ attacker client group actor 2))
                            λ h.
                              Leads-if (str_eq command "ghost off")
                                (λ h.
                                  obeys
                                    (Keeps-configure_reserves env s₀ attacker client group actor 0))
                                λ h.
                                  Leads-if (str_eq command "kick")
                                    (λ h.
                                      with_target-Obeys env s₀ attacker group actor unbot outranked
                                        target
                                        (obeys (
                                          Keeps-kick_command env s₀ attacker group actor unbot
                                            outranked client target)))
                                    λ h.
                                      Leads-if (str_eq command "kickall")
                                        (λ h.
                                          obeys (Keeps-kick_all env s₀ attacker group client actor))
                                        λ h.
                                          Leads-if (str_eq command "invite")
                                            (λ h.
                                              with_target-Obeys env s₀ attacker group actor unbot
                                                outranked target
                                                (obeys (
                                                  Keeps-invite_command env s₀ attacker group actor
                                                    unbot outranked client target)))
                                            λ h.
                                              Leads-if
                                                (contains (protections ++ store_commands) command)
                                                (λ h. store_command-Obeys client command target raw)
                                                (λ h.
                                                  obeys
                                                    (Keeps-report_command client command target))
