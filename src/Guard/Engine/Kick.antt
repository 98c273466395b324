-- ===== src/Guard/Engine/Kick.antt =====
-- `handleKick` of guard/engine.go.
use line_go.Common.{
  ◌*◌, String, Bool, true, false, not, ◌&&◌, ◌||◌, Option, none, some, leb, ◌==◌, if◌then◌else◌, ℤ,
  pos, negsuc,
}
use line_go.Guard.Store.{owner, creator, rank, WarState, can_kick}
use line_go.Guard.Store.Settings.{protection}
use line_go.Guard.Engine.{
  waits, starts_recovery, Env, Operation, M, ◌>>=◌, ◌>>◌, pure, gets, nil, call,
}
use line_go.Guard.Engine.Memory.{
  duplicate, defense_completed, event_key, is_primary, primary_count, is_bot, creator_of,
}
use line_go.Guard.Engine.WarRecords.{war_now, add_war_risk, is_protected_in_war}
use line_go.Guard.Engine.Actions.{
  role_of, is_user, start_reconcile, protector_for, eject_and_blacklist, fast_bot_defense_kick,
  defense_position, reinvite_privileged,
}
use Prim.Native.String.{◌++◌ as join}
use text.Mathlib.Text.{◌==◌ as str_eq}

unfoldable pub at_least_two : ℤ → Bool
at_least_two (pos n) = leb 2 n
at_least_two (negsuc n) = false

module _ (env : Env) where
  -- The defence of a bot that was kicked: the clients wait for their turn, and one kicks the attacker.
  unfoldable pub defend_bot : String → String → String → String → String → M (Unit {0})
  unfolding defense_position defense_completed fast_bot_defense_kick
  defend_bot key group actor target client = do
    position ← defense_position env group target client
    selected ← elim position [
      | none ↦ pure false
      | some n ↦ if n == 0 then pure true else (do m ← call env (waits (n * 20)); pure m.done)
    ]
    if not selected then pure tt else do
      done ← defense_completed env key false
      if done then pure tt else do
        failed ← fast_bot_defense_kick env client group actor
        elim failed [
          | some error ↦ pure tt
          | none ↦ do marked ← defense_completed env key true; pure tt
        ]

  unfoldable pub defense_key : Operation → String
  defense_key op = join (env.show op.created_time) (join ":" (join op.param1 (join ":" op.param2)))

  unfoldable pub handle_kicked_bot : Operation → String → Bool → M (Option String)
  unfolding defend_bot defense_key is_bot is_primary primary_count start_reconcile duplicate
      event_key
  handle_kicked_bot op client on = do
    old ← duplicate env (join "bot-defense:" (join (event_key env op) (join ":" client)))
    if old then pure nil else do
      e ← gets (λ e. e)
      (if not (is_bot e op.param2) && not (str_eq client op.param3) && is_primary e client
          then defend_bot (defense_key op) op.param1 op.param2 op.param3 client
          else pure tt)
      e' ← gets (λ e. e)
      if is_primary e' op.param3 && (primary_count e' op.param1 == 0)
          then (if on then pure nil else do m ← call env (starts_recovery op.param1); pure nil)
          else do start_reconcile env op.param1; pure nil

  -- The target of the kick was an owner or a creator.
  unfoldable pub defend_privileged : String → String → String → Option String → M (Option String)
  unfolding role_of is_user is_bot eject_and_blacklist reinvite_privileged
  defend_privileged group actor target protector = do
    e ← gets (λ e. e)
    if (rank (role_of e group actor) == rank creator) || is_bot e actor
        then pure nil
        else elim protector [
          | none ↦ pure (some "no active bot is available to reinvite the privileged user")
          | some p ↦ do
            ejected ←
                if is_user (role_of e group actor) && (protection group e.store).kick
                then eject_and_blacklist env p group actor
                else pure nil
            reinvite_privileged env p group target
        ]

  -- The target of the kick was anybody else.
  unfoldable pub defend_member :
      String → String → String → WarState → Bool → Option String → M (Option String)
  unfolding role_of is_user is_bot eject_and_blacklist at_least_two
  defend_member group actor target war on protector = do
    e ← gets (λ e. e)
    if is_bot e actor
          || can_kick e.store.state group actor target
          || not (is_user (role_of e group actor))
          || not ((protection group e.store).kick || (on && at_least_two war.level))
        then pure nil
        else elim protector [
          | none ↦ pure (some "no active bot is available to remove the attacker")
          | some p ↦ eject_and_blacklist env p group actor
        ]

  unfoldable pub handle_kicked_member : Operation → String → WarState → Bool → M (Option String)
  unfolding defend_privileged defend_member role_of protector_for duplicate event_key
  handle_kicked_member op client war on = do
    old ← duplicate env (event_key env op)
    if old then pure nil else do
      protector ← protector_for env op.param1 op.param3 client
      e ← gets (λ e. e)
      if leb (rank owner) (rank (role_of e op.param1 op.param3))
          then defend_privileged op.param1 op.param2 op.param3 protector
          else defend_member op.param1 op.param2 op.param3 war on protector

  unfoldable pub handle_kick : Operation → String → M (Option String)
  unfolding handle_kicked_bot handle_kicked_member is_bot is_protected_in_war creator_of
  handle_kick op client = do
    e ← gets (λ e. e)
    if str_eq op.param1 ""
          || str_eq op.param2 ""
          || str_eq op.param3 ""
          || str_eq (creator_of e.store.state) ""
        then pure nil
        else do
          (war, on) ← war_now env op.param1
          e' ← gets (λ e. e)
          (if on && not (is_protected_in_war e' op.param1 op.param2)
              then add_war_risk env op.param1 op.param2 5
              else pure tt)
          if is_bot e' op.param3
              then handle_kicked_bot op client on
              else handle_kicked_member op client war on
