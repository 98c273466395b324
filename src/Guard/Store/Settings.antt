-- ===== src/Guard/Store/Settings.antt =====
-- The settings of guard/store.go: lurking and readers, protection scopes, reserve plans and command
-- aliases.
use line_go.Common.{String, Bool, true, false, not, ◌&&◌, ◌||◌, Option, none, some}
use line_go.Common.{List, [], ◌∷◌, ◌++◌, length, take, ltb, if◌then◌else◌, ℤ, pos, negsuc}
use line_go.Guard.Lists.{contains}
use line_go.Guard.Store.{
  gadmin, admin, rank, ProtectionState, GroupState, get_group, update_group, role, StoreError,
  no_permission, bad_scope, bad_plan, bad_command, bad_alias,
}
use line_go.Guard.Store.Persist.{Json, Calls, Store, commit}
use text.Mathlib.Text.{◌==◌ as str_eq}

-- `strings.ToLower(strings.TrimSpace(strings.TrimPrefix(alias, ".")))`, and whether a text holds a
-- line break.
pub record Strings : Type 0 where
  pub clean : String → String
  pub has_line_break : String → Bool

abbrev pub no_protection : ProtectionState
no_protection = record {
  invite = false;
  cancel = false;
  kick = false;
  qr = false;
  all = false;
  flood = false;
}

unfoldable pub or_no_protection : Option ProtectionState → ProtectionState
or_no_protection none = no_protection
or_no_protection (some p) = p

-- The switch of `SetProtection`; an unknown scope is `none`.
unfoldable pub set_scope : String → Bool → ProtectionState → Option ProtectionState
set_scope scope on p =
    if str_eq scope "all"
    then some (record p { invite = on; cancel = on; kick = on; qr = on })
    else if str_eq scope "invite"
    then some (record p { invite = on })
    else if str_eq scope "cancel"
    then some (record p { cancel = on })
    else if str_eq scope "kick"
    then some (record p { kick = on })
    else if str_eq scope "qr"
    then some (record p { qr = on })
    else if str_eq scope "mention"
    then some (record p { all = on })
    else if str_eq scope "flood"
    then some (record p { flood = on })
    else none

unfoldable pub room_protection : Option GroupState → ProtectionState
unfolding or_no_protection
room_protection none = no_protection
room_protection (some room) = or_no_protection room.protection

unfoldable pub protection : String → Store → ProtectionState
unfolding room_protection
protection group s = room_protection (get_group group s.state.groups)

unfoldable pub with_protection : ProtectionState → GroupState → GroupState
with_protection p room = record room { protection = some p }

unfoldable pub lurk_state : String → Store → Bool × List String
lurk_state group s = elim (get_group group s.state.groups) [
  | none ↦ (false, [])
  | some room ↦ (room.lurk, room.readers)
]

-- A new reader of a lurked group is kept, and not saved.
unfoldable pub record_reader : String → String → Store → Store × Bool
record_reader group mid s = elim (get_group group s.state.groups) [
  | none ↦ (s, false)
  | some room ↦
      if not room.lurk || str_eq mid "" || contains room.readers mid then (s, false) else (
        record s {
          state = update_group group (λ r. record r { readers = r.readers ++ mid ∷ [] }) s.state;
        },
        true,
      )
]

unfoldable pub reserve_plan : String → Store → ℤ × List String
reserve_plan group s = elim (get_group group s.state.groups) [
  | none ↦ (pos 0, [])
  | some room ↦ (room.standby_count, room.reserve_mids)
]

-- The key and the alias; the first entry of a key counts.
unfoldable pub set_command : String → String → List (String × String) → List (String × String)
set_command command alias [] = (command, alias) ∷ []
set_command command alias ((k, old) ∷ rest) =
    let kept = set_command command alias rest in
    if str_eq k command then (k, alias) ∷ rest else (k, old) ∷ kept

module _ (json : Json) (calls : Calls) where
  unfoldable pub set_lurk : String → String → Bool → Store → Store × Option StoreError
  set_lurk group actor enabled s =
      if ltb (rank (role s.state group actor)) (rank gadmin)
      then (s, some no_permission)
      else commit json calls s
          (update_group group (λ room. record room { lurk = enabled; readers = [] }) s.state)

  -- An unknown scope is refused after the group and its protection were created.
  unfoldable pub set_protection :
      String → String → String → Bool → Store → Store × Option StoreError
  set_protection group actor scope enabled s =
      if ltb (rank (role s.state group actor)) (rank admin)
      then (s, some no_permission)
      else elim (set_scope scope enabled (protection group s)) [
        | none ↦ (
          record s { state = update_group group (with_protection (protection group s)) s.state },
          some bad_scope,
        )
        | some p ↦ commit json calls s (update_group group (with_protection p) s.state)
      ]

  unfoldable pub set_reserve_plan :
      String → String → ℤ → List String → Store → Store × Option StoreError
  set_reserve_plan group actor (negsuc n) mids s =
      if ltb (rank (role s.state group actor)) (rank admin)
      then (s, some no_permission)
      else (s, some bad_plan)
  set_reserve_plan group actor (pos count) mids s =
      if ltb (rank (role s.state group actor)) (rank admin)
      then (s, some no_permission)
      else if ltb 2 count || ltb (length mids) count
      then (s, some bad_plan)
      else commit json calls s (
          update_group group
            (λ room. record room { standby_count = pos count; reserve_mids = take count mids })
            s.state)

  unfoldable pub set_command_alias :
      Strings → String → String → String → Store → Store × Option StoreError
  set_command_alias strings actor command alias s =
      if ltb (rank (role s.state "" actor)) (rank admin)
      then (s, some no_permission)
      else if not (str_eq command "kick") && not (str_eq command "kickall")
      then (s, some bad_command)
      else if str_eq (strings.clean alias) "" || strings.has_line_break (strings.clean alias)
      then (s, some bad_alias)
      else commit json calls s
          (record s.state { commands = set_command command (strings.clean alias) s.state.commands })
