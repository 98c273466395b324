-- ===== src/Guard/Engine/WarCommands.antt =====
-- `executeWar` of guard/war.go. The error of `time.ParseDuration` is one fixed text.
use line_go.Common.{
  ℕ, ◌+◌, String, Bool, true, false, not, ◌&&◌, ◌||◌, Option, none, some, [], ◌∷◌, ltb, ◌==◌,
  if◌then◌else◌, ℤ, pos, put_key,
}
use line_go.Guard.Lists.{append_unique, remove}
use line_go.Guard.Commands.{has_prefix}
use line_go.Guard.Store.{creator, owner, rank}
use line_go.Guard.War.{war}
use line_go.Guard.Engine.{reports, Env, M, ◌>>=◌, ◌>>◌, pure, gets, modify, moment, call}
use line_go.Guard.Engine.WarRecords.{update_runtime, reset_war_runtime}
use line_go.Guard.Engine.Actions.{role_of}
use Prim.Native.String.{◌++◌ as join}
use text.Mathlib.Text.{◌==◌ as str_eq}
use line_go.Guard.Engine.WarReports.{
  update_settings, updates, war_report, war_status, send_suspects, Reply, says, fails, show_bool,
  is_war_duration, milliseconds, seconds, level_of, last_text, third, pardon,
}

module _ (env : Env) where
  unfoldable pub start_war : String → String → ℤ → M Reply
  unfolding update_settings reset_war_runtime is_war_duration milliseconds
  start_war group actor duration =
      if not (is_war_duration duration)
      then fails "war duration must be between 30s and 24h"
      else do
        m ← moment env
        error ← update_settings env group actor (λ w. record w {
          enabled = true;
          until = pos (m.now + milliseconds duration);
          started_by = actor;
          reason = "manual";
        })
        (elim error [ none ↦ reset_war_runtime env group | some e ↦ pure tt ])
        e ← gets (λ e. e)
        pure (
          join "War mode level " (
              join (env.show_int (war group e.store.state).level)
                (join " enabled; duration=" (env.show_duration duration))),
          error,
        )

  unfoldable pub war_on : String → String → String → M Reply
  unfolding start_war third
  war_on group actor command = elim (third (env.words.fields command)) [
    | none ↦ start_war group actor (pos 300_000_000_000)
    | some text ↦ elim (env.duration text) [
      | none ↦ fails "duration examples: 5m, 30s, 1h"
      | some duration ↦ start_war group actor duration
    ]
  ]

  unfoldable pub war_level : String → String → Bool → ℕ → M Reply
  unfolding updates
  war_level group actor by_creator level =
      if level == 0 || ltb 3 level
      then fails "war level must be 1, 2, or 3"
      else if (level == 3) && not by_creator
      then fails "level 3 can only be enabled by a Creator"
      else updates env group actor (λ w. record w { level = pos level })
          (join "War level=" (env.show level))

  unfoldable pub war_sensitivity : String → String → String → M Reply
  unfolding updates
  war_sensitivity group actor value =
      if not (str_eq value "low") && not (str_eq value "medium") && not (str_eq value "high")
      then fails "sensitivity must be low, medium, or high"
      else updates env group actor (λ w. record w { sensitivity = value })
          (join "War sensitivity=" value)

  unfoldable pub war_cooldown : String → String → Option ℤ → M Reply
  unfolding updates seconds
  war_cooldown group actor none = fails "invalid duration"
  war_cooldown group actor (some duration) =
      updates env group actor (λ w. record w { cooldown_sec = seconds duration })
        (join "War cooldown=" (env.show_duration duration))

  unfoldable pub send_whitelist : String → String → M Reply
  send_whitelist client group = do
    e ← gets (λ e. e)
    elim (war group e.store.state).whitelist [
      | [] ↦ says "War whitelist is empty."
      | mid ∷ mids ↦ do
        m ← call env (reports client group "War whitelist:" (mid ∷ mids))
        pure ("", m.error)
    ]

  unfoldable pub whitelist : String → String → Bool → String → M Reply
  unfolding updates
  whitelist group actor add target =
      if str_eq target ""
      then fails "user mention is required"
      else updates env group actor
          (λ w. record w {
            whitelist = if add then append_unique w.whitelist target else remove w.whitelist target;
          })
          (join "War whitelist updated: " target)

  unfoldable pub war_pardon : String → String → M Reply
  unfolding pardon
  war_pardon group target =
      if str_eq target ""
      then fails "user mention is required"
      else do modify (pardon group target); says "Suspect and quarantine records cleared."

  unfoldable pub war_quarantine : String → String → M Reply
  unfolding update_runtime
  war_quarantine group target = if str_eq target "" then fails "user mention is required" else do
    m ← moment env
    modify (
        update_runtime m.now group
          (λ r. record r { quarantine = put_key r.quarantine target (m.now + 600_000) }))
    says "User quarantined for 10 minutes."

  unfoldable pub clear_war : String → M Reply
  unfolding reset_war_runtime
  clear_war group = do reset_war_runtime env group; says "Temporary war records cleared."

  -- The cases of the switch behind `war level`.
  unfoldable pub war_setting : String → String → String → String → String → M Reply
  unfolding updates war_sensitivity war_cooldown send_whitelist whitelist war_pardon war_quarantine
      clear_war show_bool last_text
  war_setting client group actor command target =
      if str_eq command "war lock" || str_eq command "war unlock"
      then updates env group actor (λ w. record w { locked = str_eq command "war lock" })
          (join "War lock=" (show_bool (str_eq command "war lock")))
      else if str_eq command "war auto on" || str_eq command "war auto off"
      then updates env group actor (λ w. record w { auto = str_eq command "war auto on" })
          (join "War auto=" (show_bool (str_eq command "war auto on")))
      else if has_prefix command "war sensitivity "
      then war_sensitivity group actor (last_text (env.words.fields command))
      else if has_prefix command "war cooldown "
      then war_cooldown group actor (env.duration (last_text (env.words.fields command)))
      else if str_eq command "war dryrun on" || str_eq command "war dryrun off"
      then updates env group actor (λ w. record w { dry_run = str_eq command "war dryrun on" })
          (join "War dryrun=" (show_bool (str_eq command "war dryrun on")))
      else if str_eq command "war whitelist"
      then send_whitelist client group
      else if str_eq command "war whitelist add" || str_eq command "war whitelist del"
      then whitelist group actor (str_eq command "war whitelist add") target
      else if has_prefix command "war pardon"
      then war_pardon group target
      else if has_prefix command "war quarantine"
      then war_quarantine group target
      else if str_eq command "war clear"
      then clear_war group
      else says ""

  unfoldable pub execute_war : String → String → String → String → String → M Reply
  unfolding war_on updates war_status war_report send_suspects war_level war_setting level_of
  execute_war client group actor command target = do
    e ← gets (λ e. e)
    if ltb (rank (role_of e group actor)) (rank owner)
        then fails "war commands require Owner or Creator permission"
        else if has_prefix command "war on"
        then war_on group actor command
        else if str_eq command "war off"
        then updates env group actor (λ w. record w { enabled = false; locked = false })
            "War mode disabled."
        else if str_eq command "war status" || str_eq command "war dashboard"
        then (do text ← war_status env group; says text)
        else if str_eq command "war report"
        then (do text ← war_report env group; says text)
        else if str_eq command "war suspects"
        then send_suspects env client group
        else if has_prefix command "war level "
        then war_level group actor (rank (role_of e group actor) == rank creator)
            (level_of (env.words.bytes command))
        else war_setting client group actor command target
