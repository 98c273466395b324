-- ===== src/Guard/Engine/FairMessages.antt =====
-- Whom `handleMessage` of guard/engine.go kicks, and what it changes for a sender without a role.
use line_go.Common.{
  ◌<◌, String, false, not, ◌&&◌, ◌||◌, Option, none, some, ◌≡◌, sym, ◌∙◌, arith, List, ◌==◌,
  find_key,
}
use line_go.Guard.Lists.{contains}
use line_go.Guard.Commands.{native_all_mention, fanout_command}
use line_go.Guard.Store.{State, rank, role}
use line_go.Guard.Store.Settings.{protection}
use line_go.Guard.Engine.{Env, Engine, Message, M, ◌>>=◌, pure, call}
use line_go.Guard.Engine.Memory.{is_bot, creator_of}
use line_go.Guard.Engine.Actions.{role_of, is_user, reply}
use line_go.Guard.Engine.WarReports.{Reply}
use line_go.Guard.Engine.Messages.{
  or_quiet, count_message, is_repeat, warn_or_remove, check_flood, check_message, protect, answer,
  run_command, read_message, resolve_message, handle_group_message,
}
use line_go.Guard.Engine.Leads.{
  Leads, Leads-if, Leads-option, Leads-pure, Leads-bind, Leads-modify, Leads-loosen,
}
use line_go.Guard.Engine.Calm.{IsCalm}
use line_go.Guard.Engine.Fair.{
  MayBeKicked, AreFair, Calm, Keeps, Leads-engine, Keeps-moment, Keeps-call, Keeps-duplicate,
}
use line_go.Guard.Engine.FairActions.{Keeps-kick}
use line_go.Guard.Engine.FairWarCommands.{Keeps-reply}
use line_go.Guard.Engine.FairExecute.{execute-Obeys}
use line_go.Guard.Engine.Spares.{user-MayBeKicked}
use Prim.Native.String.{◌++◌ as join}
use text.Mathlib.Text.{◌==◌ as str_eq}

module _ (env : Env) (s₀ : State) (attacker : String → Type 0) where
  Keeps-warn_or_remove :
      (client group actor key warning : String)
      → MayBeKicked s₀ attacker group actor
      → Keeps env s₀ attacker (warn_or_remove env client group actor key warning)
  unfolding warn_or_remove
  Keeps-warn_or_remove client group actor key warning fair =
      Leads-bind (Keeps-moment env s₀ attacker) λ m _.
        Leads-bind (Leads-engine env s₀ attacker) λ e _.
          Leads-bind (Leads-modify _ (λ e' p. p)) λ u _.
            Leads-if (is_repeat m.now (or_quiet (find_key e.spam key)).warned)
              (λ h. Keeps-kick env s₀ attacker client group actor fair)
              (λ h. Keeps-reply env s₀ attacker client group warning)

  Keeps-check_flood :
      (client : String) (message : Message)
      → MayBeKicked s₀ attacker message.to message.from
      → Keeps env s₀ attacker (check_flood env client message)
  unfolding check_flood
  Keeps-check_flood client message fair = Leads-bind (Keeps-moment env s₀ attacker) λ m _.
      Leads-bind (Leads-engine env s₀ attacker) λ e _.
        let key = join "flood:" (join message.to (join ":" message.from)) in
        Leads-bind (Leads-modify _ (λ e' p. p)) λ u _.
          Leads-if (not (count_message m.now (or_quiet (find_key e.spam key))).1)
            (λ h. Leads-pure _ tt)
            λ h.
              Leads-bind (Keeps-warn_or_remove client message.to message.from _ _ fair)
                λ error _. Leads-pure _ tt

  Keeps-check_message :
      (client : String) (message : Message)
      → MayBeKicked s₀ attacker message.to message.from
      → Keeps env s₀ attacker (check_message env client message)
  unfolding check_message
  Keeps-check_message client message fair = Leads-bind (Leads-engine env s₀ attacker) λ e _.
      Leads-if
        ((protection message.to e.store).all && native_all_mention env.words message.metadata)
        (λ h.
          Leads-bind (Keeps-warn_or_remove client message.to message.from _ _ fair)
            λ error _. Leads-pure _ tt)
        λ h.
          Leads-if (not (protection message.to e.store).flood) (λ h'. Leads-pure _ tt)
            (λ h'. Keeps-check_flood client message fair)

  Keeps-protect :
      (client : String) (message : Message)
      → contains s₀.bots message.from ≡ false
      → Keeps env s₀ attacker (protect env client message)
  unfolding protect
  Keeps-protect client message unbot = Leads-bind (Leads-engine env s₀ attacker) λ e c.
      Leads-if (not (is_user (role_of e message.to message.from))) (λ h. Leads-pure _ tt)
        λ h. Leads-bind (Keeps-duplicate env s₀ attacker _) λ old _.
          Leads-if old (λ h'. Leads-pure _ tt)
            λ h'. Keeps-check_message client message (
              user-MayBeKicked env s₀ attacker message.to message.from e c
                (unfold is_bot in c.0.same.bots message.from ∙ unbot) (ground arith))

  module _ (message : Message)
      (outranked : (target : String)
        → rank (role s₀ message.to target) < rank (role s₀ message.to message.from)
        → attacker target) where
    -- Everybody who was kicked could be, and all is calm where the sender has no role.
    abbrev pub Outcome : Engine → Type 0
    Outcome e =
        AreFair s₀ attacker e.trace
        × (rank (role s₀ message.to message.from) ≡ 0 → IsCalm s₀ e.store.state)

    abbrev pub Acts : {A : Type 0} → M A → Type 0
    Acts {A} = Leads (Calm env s₀ attacker) Outcome (λ (a : A). Unit {0})

    Keeps-Acts : {A : Type 0} {m : M A} → Keeps env s₀ attacker m → Acts m
    Keeps-Acts h = Leads-loosen (λ e c. (c.1, λ low. c.0)) (λ a u. u) h

    still : {A : Type 0} (a : A) → Acts (pure a)
    still a = Keeps-Acts (Leads-pure a tt)

    reply-Outcome :
        (client text : String)
        → Leads Outcome Outcome (λ (a : Option String). Unit {0}) (reply env client message.to text)
    unfolding reply call ◌>>=◌ pure
    reply-Outcome client text = record { leads = λ e (fair, c). (((tt, fair), c), tt) }

    answer-Outcome :
        (client : String) (told : Reply)
        → Leads Outcome Outcome
            (λ (a : Option String). Unit {0})
            (answer env client message.to told)
    unfolding answer
    answer-Outcome client (text, some error) = reply-Outcome client _
    answer-Outcome client (text, none) =
        Leads-if (str_eq text "") (λ h. Leads-pure _ tt) (λ h. reply-Outcome client text)

    module _ (unbot : contains s₀.bots message.from ≡ false) where
      run_command-Acts :
          (client raw command : String) (targets : List String)
          → Acts (run_command env client message raw (command, targets))
      unfolding run_command
      run_command-Acts client raw command targets =
          Leads-if (str_eq command "") (λ h. still _)
            λ h.
              Leads-bind
                (Leads-if (not (fanout_command command) && not (str_eq message.id ""))
                  (λ h'. Keeps-duplicate env s₀ attacker _) (λ h'. Leads-pure _ tt))
                λ old _.
                  Leads-if old (λ h'. still _)
                    λ h'.
                      Leads-bind
                        (execute-Obeys env s₀ attacker message.to message.from unbot outranked
                          client command targets raw)
                        λ told _. answer-Outcome client told

      read_message-Acts : (client raw : String) → Acts (read_message env client message raw)
      unfolding read_message
      read_message-Acts client raw = Leads-bind (Keeps-protect client message unbot) λ protected _.
          Leads-option protected
            (Leads-bind (Leads-engine env s₀ attacker) λ e _. run_command-Acts client raw _ _)
            λ error. still _

      resolve_message-Acts : (client : String) → Acts (resolve_message env client message)
      unfolding resolve_message
      resolve_message-Acts client = Leads-bind (Keeps-call env s₀ attacker _ tt) λ m _.
          Leads-option m.error (read_message-Acts client m.text) λ error. Keeps-Acts (
            Leads-bind (Keeps-reply env s₀ attacker client message.to _)
              λ failed _. Leads-option failed (Leads-pure _ tt) λ e. Leads-pure _ tt)

    pub handle_group_message-Acts :
        (client : String) → Acts (handle_group_message env client message)
    unfolding handle_group_message is_bot
    handle_group_message-Acts client = Leads-bind (Leads-engine env s₀ attacker) λ e c.
        Leads-if
          (not (message.to_type == 2)
            || str_eq message.to ""
            || str_eq message.from ""
            || str_eq (creator_of e.store.state) ""
            || is_bot e message.from)
          (λ h. still _)
          λ h.
            Leads-bind
              (Leads-if (str_eq message.id "") (λ h'. Leads-pure _ tt)
                (λ h'. Keeps-duplicate env s₀ attacker _))
              λ old _.
                Leads-if old (λ h'. still _)
                  (λ h'.
                    resolve_message-Acts (sym (c.0.same.bots message.from) ∙ ground arith) client)
