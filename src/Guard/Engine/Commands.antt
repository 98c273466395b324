-- ===== src/Guard/Engine/Commands.antt =====
-- `execute` of guard/engine.go. A report is one call with its heading and its members.
use line_go.Common.{String, Bool, false, ◌||◌, List, [], ◌∷◌, ◌++◌, if◌then◌else◌, find_key}
use line_go.Guard.Lists.{contains}
use line_go.Guard.Commands.{
  has_prefix, trim_prefix, or_text, command_aliases, command_remainder, normalized,
}
use line_go.Guard.Store.{gadmin, admin, owner, ProtectionState}
use line_go.Guard.Store.Persist.{backup, restore}
use line_go.Guard.Store.Blacklist.{unban}
use line_go.Guard.Store.Settings.{protection, set_protection, set_command_alias}
use line_go.Guard.Engine.{Env, M, ◌>>=◌, gets, moment}
use line_go.Guard.Engine.Actions.{first_of}
use line_go.Guard.Engine.WarReports.{Reply, says, show_bool}
use line_go.Guard.Engine.WarCommands.{execute_war}
use line_go.Guard.Engine.KickAll.{kick_all}
use line_go.Guard.Engine.Reserves.{configure_reserves}
use Prim.Native.String.{◌++◌ as join}
use text.Mathlib.Text.{◌==◌ as str_eq}
use line_go.Guard.Engine.MemberCommands.{
  stores, stores_first, report, report_for, with_target, lurk_command, role_command,
  blacklist_command, clear_command, kick_command, invite_command, bye,
}

-- A list of commands that does one thing.
abbrev one_of : String → List String → Bool
one_of command names = contains names command

-- The scope of a command of protection, and whether it turns it on.
unfoldable pub protection_scope : List String → String
protection_scope (scope ∷ b ∷ c ∷ []) = if str_eq scope "all" then "mention" else scope
protection_scope words = "all"

unfoldable pub ends_on : List String → Bool
ends_on [] = false
ends_on (w ∷ []) = str_eq w "on"
ends_on (w ∷ v ∷ ws) = ends_on (v ∷ ws)

abbrev pub protections : List String
protections =
    "protect on" ∷ "protect off" ∷ "invite protect on" ∷ "invite protect off" ∷ "cancel protect on"
    ∷ "cancel protect off" ∷ "kick protect on" ∷ "kick protect off" ∷ "qr protect on"
    ∷ "qr protect off" ∷ "all protect on" ∷ "all protect off" ∷ "flood protect on"
    ∷ "flood protect off" ∷ []

abbrev pub store_commands : List String
store_commands =
    "add creator" ∷ "del creator" ∷ "add owner" ∷ "del owner" ∷ "add admin" ∷ "del admin"
    ∷ "add gadmin" ∷ "del gadmin" ∷ "blacklist" ∷ "unban" ∷ "clear blacklist" ∷ "clearban"
    ∷ "setcmd kick" ∷ "setcmd kickall" ∷ "settings backup" ∷ "settings restore" ∷ []

unfoldable pub show_protection : ProtectionState → String
unfolding show_bool
show_protection p = join "Protection status:\ninvite=" (
    join (show_bool p.invite) (
      join " cancel=" (
        join (show_bool p.cancel) (
          join " kick=" (
            join (show_bool p.kick) (
              join " qr=" (
                join (show_bool p.qr) (
                  join " all=" (join (show_bool p.all) (join " flood=" (show_bool p.flood)))))))))))

module _ (env : Env) where
  unfoldable pub set_alias : String → String → String → M Reply
  unfolding stores_first
  set_alias actor command raw =
      let key = trim_prefix command "setcmd " in
      let alias = command_remainder env.words raw command in
      stores_first env (λ m s. set_command_alias env.json m.calls env.strings actor key alias s)
        (join key (join " command changed: " alias))

  -- The commands that change settings, roles or the blacklist.
  unfoldable pub store_command : String → String → String → String → String → String → M Reply
  unfolding stores_first with_target role_command blacklist_command clear_command set_alias
      protection_scope ends_on show_bool
  store_command client group actor command target raw =
      let words = env.words.fields command in
      if one_of command protections
      then stores_first env
          (λ m s.
            set_protection env.json m.calls group actor (protection_scope words) (ends_on words) s)
          (join (protection_scope words) (join " protection: " (show_bool (ends_on words))))
      else if one_of command (
          "add creator" ∷ "del creator" ∷ "add owner" ∷ "del owner" ∷ "add admin" ∷ "del admin"
          ∷ "add gadmin" ∷ "del gadmin" ∷ [])
      then with_target env target (role_command env group actor command target)
      else if str_eq command "blacklist"
      then blacklist_command env client group actor target
      else if str_eq command "unban"
      then with_target env target (
          stores env (λ m s. unban env.json m.calls group actor target s)
            (join "Removed from blacklist: " target))
      else if str_eq command "clear blacklist" || str_eq command "clearban"
      then clear_command env group actor
      else if str_eq command "setcmd kick" || str_eq command "setcmd kickall"
      then set_alias actor command raw
      else if str_eq command "settings backup"
      then stores_first env (λ m s. backup env.json m.calls m.written m.left actor s)
          "Settings backup created"
      else if str_eq command "settings restore"
      then stores_first env (λ m s. restore env.json m.calls m.source actor s) "Settings restored"
      else says ""

  -- The commands that only tell something.
  unfoldable pub report_command : String → String → String → String → String → M Reply
  unfolding report report_for with_target show_protection
  report_command client group actor command target = do
    e ← gets (λ e. e)
    if str_eq command "ping"
        then says "pong"
        else if str_eq command "speed" || str_eq command "sp"
        then (do m ← moment env; says m.text)
        else if str_eq command "ticket" || str_eq command "add me"
        then report_for env owner client group actor command []
        else if str_eq command "commands"
        then says (
            join "kick: " (
              join (or_text "" (find_key (command_aliases e.store.state.commands) "kick")) (
                join "\nkickall: "
                  (or_text "" (find_key (command_aliases e.store.state.commands) "kickall")))))
        else if str_eq command "bot health" || str_eq command "health"
        then report_for env admin client group actor command []
        else if str_eq command "protect status"
        then says (show_protection (protection group e.store))
        else if str_eq command "samejoin"
        then with_target env target (report_for env gadmin client group actor command (target ∷ []))
        else if one_of command
            ("bots" ∷ "status" ∷ "lkick" ∷ "ljoin" ∷ "all" ∷ "etiket" ∷ "@all" ∷ "history" ∷ [])
        then report_for env gadmin client group actor command []
        else if one_of command ("access" ∷ "roles" ∷ "guard help" ∷ "help" ∷ [])
        then (do m ← moment env; says m.text)
        else says ""

  -- `execute`.
  unfoldable pub execute : String → String → String → String → List String → String → M Reply
  unfolding report execute_war lurk_command bye configure_reserves kick_command kick_all
      invite_command with_target store_command report_command
  execute client group actor command targets raw =
      let target = or_text "" (first_of targets) in
      if str_eq command "leader"
      then report env client group "leader" []
      else if has_prefix command "war "
      then execute_war env client group actor (normalized env.words raw) target
      else if one_of command
          ("lurk on" ∷ "lurk off" ∷ "lurk" ∷ "readers" ∷ "lurk names" ∷ "lurk mention" ∷ [])
      then lurk_command env client group actor command
      else if str_eq command "bye"
      then bye env client group actor
      else if str_eq command "ghost 1"
      then configure_reserves env client group actor 1
      else if str_eq command "ghost 2"
      then configure_reserves env client group actor 2
      else if str_eq command "ghost off"
      then configure_reserves env client group actor 0
      else if str_eq command "kick"
      then with_target env target (kick_command env client group actor target)
      else if str_eq command "kickall"
      then kick_all env client group actor
      else if str_eq command "invite"
      then with_target env target (invite_command env client group actor target)
      else if one_of command (protections ++ store_commands)
      then store_command client group actor command target raw
      else report_command client group actor command target
