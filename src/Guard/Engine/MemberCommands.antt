-- ===== src/Guard/Engine/MemberCommands.antt =====
-- The commands of `execute` in guard/engine.go that concern members, and the reports of others.
use line_go.Common.{
  String, true, false, not, ◌&&◌, ◌||◌, Option, none, some, List, [], ◌∷◌, ltb, ◌==◌, if◌then◌else◌,
}
use line_go.Guard.Store.{Role, gadmin, owner, rank, StoreError, can_kick}
use line_go.Guard.Store.Persist.{Store}
use line_go.Guard.Store.Roles.{
  add_owner, del_owner, add_admin, del_admin, add_gadmin, del_gadmin, add_creator, del_creator,
}
use line_go.Guard.Store.Blacklist.{add_blacklist, clear_blacklist}
use line_go.Guard.Store.Settings.{lurk_state, set_lurk}
use line_go.Guard.Engine.{reports, Env, Moment, M, ◌>>=◌, pure, gets, nil, call}
use line_go.Guard.Engine.Memory.{is_bot}
use line_go.Guard.Engine.WarRecords.{with_store}
use line_go.Guard.Engine.Actions.{text_of, role_of, is_user, reply, kick, invite}
use line_go.Guard.Engine.WarReports.{Reply, says, fails}
use line_go.Guard.Engine.Reserves.{leave_fleet}
use Prim.Native.String.{◌++◌ as join}
use text.Mathlib.Text.{◌==◌ as str_eq}

module _ (env : Env) where
  -- A method of the store whose error is the command's.
  unfoldable pub stores : (Moment → Store → Store × Option StoreError) → String → M Reply
  unfolding with_store text_of
  stores change text = do error ← with_store env change; pure (text, text_of error)

  -- As `stores`, with no text where it fails.
  unfoldable pub stores_first : (Moment → Store → Store × Option StoreError) → String → M Reply
  unfolding with_store text_of
  stores_first change text = do
    error ← with_store env change
    pure (elim error [ none ↦ (text, nil) | some e ↦ ("", text_of (some e)) ])

  unfoldable pub report : String → String → String → List String → M Reply
  report client group heading mids = do
    m ← call env (reports client group heading mids)
    pure (m.text, m.error)

  -- A report that needs a role.
  unfoldable pub report_for : Role → String → String → String → String → List String → M Reply
  unfolding report role_of
  report_for minimum client group actor heading mids = do
    e ← gets (λ e. e)
    if ltb (rank (role_of e group actor)) (rank minimum)
        then fails (join heading " requires permission")
        else report client group heading mids

  unfoldable pub with_target : String → M Reply → M Reply
  with_target target action =
      if str_eq target "" then fails "user mention or MID is required" else action

  unfoldable pub report_readers : String → String → String → String → List String → M Reply
  unfolding report
  report_readers client group empty heading [] = says empty
  report_readers client group empty heading (mid ∷ mids) = report client group heading (mid ∷ mids)

  unfoldable pub lurk_off : String → String → String → M Reply
  unfolding with_store report_readers
  lurk_off client group actor = do
    e ← gets (λ e. e)
    error ← with_store env (λ m s. set_lurk env.json m.calls group actor false s)
    elim error [
      | some e' ↦ fails "state"
      | none ↦
          report_readers client group "Reader tracking disabled; list is empty."
            "Reader tracking disabled. Last readers:" (lurk_state group e.store).1
    ]

  unfoldable pub lurk_command : String → String → String → String → M Reply
  unfolding stores_first lurk_off report_readers report
  lurk_command client group actor command = do
    e ← gets (λ e. e)
    if str_eq command "lurk on"
        then stores_first (λ m s. set_lurk env.json m.calls group actor true s)
            "Reader tracking enabled; list cleared."
        else if str_eq command "lurk off"
        then lurk_off client group actor
        else if str_eq command "lurk names"
        then report client group "Reader tracking" (lurk_state group e.store).1
        else report_readers client group "No readers yet." "Readers:" (lurk_state group e.store).1

  -- The commands that change a role.
  unfoldable pub role_command : String → String → String → String → M Reply
  unfolding stores
  role_command group actor command target =
      if str_eq command "add creator"
      then stores (λ m s. add_creator env.json m.calls actor target s)
          (join "Creator added: " target)
      else if str_eq command "del creator"
      then stores (λ m s. del_creator env.json m.calls actor target s)
          (join "Creator removed: " target)
      else if str_eq command "add owner"
      then stores (λ m s. add_owner env.json m.calls actor target s) (join "Owner added: " target)
      else if str_eq command "del owner"
      then stores (λ m s. del_owner env.json m.calls actor target s) (join "Owner removed: " target)
      else if str_eq command "add admin"
      then stores (λ m s. add_admin env.json m.calls actor target s) (join "Admin added: " target)
      else if str_eq command "del admin"
      then stores (λ m s. del_admin env.json m.calls actor target s) (join "Admin removed: " target)
      else if str_eq command "add gadmin"
      then stores (λ m s. add_gadmin env.json m.calls group actor target s)
          (join "GAdmin added: " target)
      else stores (λ m s. del_gadmin env.json m.calls group actor target s)
          (join "GAdmin removed: " target)

  -- `blacklist` with a target: who may kick it does so too.
  -- What follows once a member is on the blacklist.
  unfoldable pub kick_added : String → String → String → String → M Reply
  unfolding kick
  kick_added client group actor target = do
    e ← gets (λ e. e)
    if not (can_kick e.store.state group actor target)
        then says (join "Added to blacklist: " target)
        else do
          error ← kick env client group (target ∷ [])
          elim error [
            | none ↦ says (join "Added to blacklist: " target)
            | some e' ↦ pure (join "Added to blacklist, but kick failed: " target, some e')
          ]

  unfoldable pub blacklist_target : String → String → String → String → M Reply
  unfolding with_store kick_added
  blacklist_target client group actor target = do
    refused ← with_store env (λ m s. add_blacklist env.json m.calls group actor target s)
    elim refused [ some e ↦ fails "state" | none ↦ kick_added client group actor target ]

  unfoldable pub blacklist_command : String → String → String → String → M Reply
  unfolding blacklist_target report_readers
  blacklist_command client group actor target = do
    e ← gets (λ e. e)
    if str_eq target ""
        then report_readers client group "Blacklist is empty." "Blacklist:" e.store.state.blacklist
        else blacklist_target client group actor target

  unfoldable pub clear_command : String → String → M Reply
  unfolding with_store
  clear_command group actor = do
    (removed, error) ← with_store env (λ m s. clear_blacklist env.json m.calls group actor s)
    elim error [
      | some e ↦ fails "state"
      | none ↦ says (join "Blacklist cleared: " (join (env.show removed) " entries removed."))
    ]

  unfoldable pub kick_command : String → String → String → String → M Reply
  unfolding kick is_bot is_user role_of
  kick_command client group actor target = do
    e ← gets (λ e. e)
    if is_bot e target || not (is_user (role_of e group target))
        then fails "bots and privileged users are permanently protected from kick commands"
        else if ltb (rank (role_of e group actor)) (rank gadmin) || str_eq actor target
        then fails "you cannot remove this user"
        else do
          error ← kick env client group (target ∷ [])
          pure (join "User removed: " target, error)

  unfoldable pub invite_command : String → String → String → String → M Reply
  unfolding invite is_bot role_of
  invite_command client group actor target = do
    e ← gets (λ e. e)
    if ltb (rank (role_of e group actor)) (rank gadmin)
          || (rank (role_of e group actor) == rank gadmin) && is_bot e target
        then fails "you cannot invite this user"
        else do
          error ← invite env client group (target ∷ [])
          pure (join "User invited: " target, error)

  unfoldable pub bye : String → String → String → M Reply
  unfolding leave_fleet reply role_of
  bye client group actor = do
    e ← gets (λ e. e)
    if ltb (rank (role_of e group actor)) (rank owner)
        then fails "bye requires Owner permission"
        else do
          failed ← reply env client group "Guard bots are leaving the group."
          elim failed [
            | some error ↦ fails error
            | none ↦ do error ← leave_fleet env group client; pure ("", error)
          ]
