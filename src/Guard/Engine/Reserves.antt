-- ===== src/Guard/Engine/Reserves.antt =====
-- The reserve bots of guard/engine.go: `configureReserves`, `launchRecovery` and `leaveBotFleet`.
use line_go.Common.{
  ℕ, suc, String, Bool, true, false, not, ◌&&◌, ◌||◌, Option, none, some, List, [], ◌∷◌, ◌++◌,
  length, take, drop, ltb, ◌==◌, if◌then◌else◌, ℤ, pos, negsuc, find_key,
}
use line_go.Guard.Lists.{contains}
use line_go.Guard.Store.Settings.{reserve_plan, set_reserve_plan}
use line_go.Guard.Engine.{
  accepts, leaves, gets_chat, befriends, Env, Engine, M, ◌>>=◌, ◌>>◌, pure, gets, nil, call,
}
use line_go.Guard.Engine.Memory.{set_member, duplicate, is_primary}
use line_go.Guard.Engine.WarRecords.{with_store, record_war_action}
use line_go.Guard.Engine.Actions.{text_of, clients_that, kick, invite}
use line_go.Guard.Engine.WarReports.{Reply, says, fails}
use Prim.Native.String.{◌++◌ as join}
use text.Mathlib.Text.{◌==◌ as str_eq}

-- Whether a member of the fleet has a client.
unfoldable pub is_client : Engine → String → Bool
is_client e mid = elim (find_key e.fleet mid) [ none ↦ false | some kind ↦ true ]

unfoldable pub clients_of : Engine → String → List String → List String
unfolding is_client
clients_of e current [] = []
clients_of e current (mid ∷ mids) =
    let others = clients_of e current mids in
    if not (str_eq mid current) && is_client e mid then mid ∷ others else others

-- The former reserves first, then the other bots in the group, of whom those behind as many places
-- as there were former reserves are sorted.
unfoldable pub reserve_candidates :
    (List String → List String) → Engine → String → List String → List String → List String
unfolding clients_of clients_that
reserve_candidates sorted e current former present =
    let kept = clients_of e current former in
    let all =
      kept
      ++ clients_that
          (λ mid. not (str_eq mid current) && contains present mid && not (contains kept mid))
          e.fleet in
    if ltb (length former) (length all)
    then take (length former) all ++ sorted (drop (length former) all)
    else all

unfoldable pub is_zero : ℤ → Bool
is_zero (pos n) = n == 0
is_zero (negsuc n) = false

module _ (env : Env) where
  -- The former reserves that are none any more come back; an error is only logged.
  unfoldable pub recall : String → List String → List String → M (Unit {0})
  unfolding is_client
  recall group selected [] = pure tt
  recall group selected (mid ∷ mids) = do
    e ← gets (λ e. e)
    (if contains selected mid || not (is_client e mid)
        then pure tt
        else (do m ← call env (accepts mid group); pure tt))
    recall group selected mids

  -- The error of `LeaveChat` ends the loop.
  unfoldable pub send_out :
      String → String → List String → List String → List String → M (Option String)
  unfolding is_client invite
  send_out group client former present [] = pure nil
  send_out group client former present (mid ∷ mids) = do
    e ← gets (λ e. e)
    left ←
        if is_client e mid && contains present mid
        then (do m ← call env (leaves mid group); pure m.error)
        else pure nil
    elim left [
      | some error ↦ pure (some (join "reserve account could not leave the group " mid))
      | none ↦ do
        (if is_client e mid && not (contains former mid)
            then (do error ← invite env client group (mid ∷ []); pure tt)
            else pure tt)
        send_out group client former present mids
    ]

  unfoldable pub place_reserves :
      String → String → List String → List String → List String → M Reply
  unfolding recall send_out
  place_reserves client group former present selected = do
    recall group selected former
    if length selected == 0 then says "Ghost standby mode disabled" else do
      failed ← send_out group client former present selected
      elim failed [
        | some error ↦ fails error
        | none ↦ says (
            join (env.show (length selected))
              " ghost accounts are waiting in invitations for recovery")
      ]

  unfoldable pub select_reserves :
      String → String → String → ℕ → List String → List (List String) → M Reply
  unfolding place_reserves reserve_candidates with_store text_of
  select_reserves client group actor count former (present ∷ []) = do
    e ← gets (λ e. e)
    let candidates = reserve_candidates env.sort_texts e client former present
    if ltb (length candidates) count then fails "ghost accounts require more bots inside" else do
      failed ← with_store env (λ m s.
          set_reserve_plan env.json m.calls group actor (pos count) (take count candidates) s)
      elim failed [
        | some error ↦ fails "state"
        | none ↦ place_reserves client group former present (take count candidates)
      ]
  select_reserves client group actor count former _ =
      fails "group members could not be retrieved for ghost mode"

  -- `configureReserves`.
  unfoldable pub configure_reserves : String → String → String → ℕ → M Reply
  unfolding select_reserves
  configure_reserves client group actor count = do
    e ← gets (λ e. e)
    m ← call env (gets_chat client group)
    elim m.error [
      | some error ↦ fails "group members could not be retrieved for ghost mode"
      | none ↦ select_reserves client group actor count (reserve_plan group e.store).1 m.chats
    ]

  -- The reserves that accept their invitation; the first of them is the rescuer.
  unfoldable pub call_in : String → Option String → List String → M (Option String)
  unfolding is_client set_member
  call_in group rescuer [] = pure rescuer
  call_in group rescuer (mid ∷ mids) = do
    e ← gets (λ e. e)
    joined ← if not (is_client e mid) then pure false else do
      m ← call env (accepts mid group)
      elim m.error [ some error ↦ pure false | none ↦ do set_member group mid true; pure true ]
    call_in group (if joined then (elim rescuer [ none ↦ some mid | some r ↦ some r ]) else rescuer)
        mids

  -- Kicks the members that are on the blacklist; an error is only logged.
  unfoldable pub sweep : String → String → List String → M (Unit {0})
  unfolding kick
  sweep rescuer group [] = pure tt
  sweep rescuer group (member ∷ members) = do
    e ← gets (λ e. e)
    (if contains e.store.state.blacklist member
        then (do error ← kick env rescuer group (member ∷ []); pure tt)
        else pure tt)
    sweep rescuer group members

  unfoldable pub invite_each : String → String → List String → M (Unit {0})
  unfolding invite
  invite_each rescuer group [] = pure tt
  invite_each rescuer group (mid ∷ mids) = do
    befriended ← call env (befriends rescuer mid)
    error ← invite env rescuer group (mid ∷ [])
    invite_each rescuer group mids

  unfoldable pub rescue : String → String → List (List String) → M (Option String)
  unfolding sweep invite_each clients_that is_primary record_war_action
  rescue rescuer group (members ∷ []) = do
    sweep rescuer group members
    e ← gets (λ e. e)
    invite_each rescuer group (env.sort_texts (clients_that (is_primary e) e.fleet))
    record_war_action env group "rescue" none
    pure nil
  rescue rescuer group _ = pure (some "recovery member list could not be retrieved")

  unfoldable pub recover : String → List String → M (Option String)
  unfolding call_in rescue
  recover group selected = do
    rescuer ← call_in group none selected
    elim rescuer [
      | none ↦ pure (some "no reserve account could accept the invitation")
      | some r ↦ do
        m ← call env (gets_chat r group)
        elim m.error [ some error ↦ pure (some error) | none ↦ rescue r group m.chats ]
    ]

  -- `launchRecovery`.
  unfoldable pub launch_recovery : String → M (Option String)
  unfolding recover is_zero duplicate
  launch_recovery group = do
    e ← gets (λ e. e)
    if is_zero (reserve_plan group e.store).0 || (length (reserve_plan group e.store).1 == 0)
        then pure (some "no ghost plan is configured")
        else do
          old ← duplicate env (join "recovery:" group)
          if old then pure nil else recover group (reserve_plan group e.store).1

  -- The loop of `leaveBotFleet`, with how many could not leave.
  unfoldable pub leave_each : String → ℕ → List String → M ℕ
  unfolding is_client set_member
  leave_each group failures [] = pure failures
  leave_each group failures (mid ∷ mids) = do
    e ← gets (λ e. e)
    failed ← if not (is_client e mid) then pure false else do
      m ← call env (leaves mid group)
      elim m.error [ some error ↦ pure true | none ↦ do set_member group mid false; pure false ]
    leave_each group (if failed then suc failures else failures) mids

  unfoldable pub leave_members : String → List (List String) → M (Option String)
  unfolding leave_each
  leave_members group (members ∷ []) = do
    failures ← leave_each group 0 members
    pure (if failures == 0 then none else some (join (env.show failures) " bots could not leave"))
  leave_members group _ = pure (some "group members could not be retrieved")

  -- `leaveBotFleet`.
  unfoldable pub leave_fleet : String → String → M (Option String)
  unfolding leave_members
  leave_fleet group leader = do
    m ← call env (gets_chat leader group)
    elim m.error [ some error ↦ pure (some error) | none ↦ leave_members group m.chats ]
