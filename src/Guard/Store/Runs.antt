-- ===== src/Guard/Store/Runs.antt =====
-- The theorems of the guard's store at a concrete store.
use line_go.Common.{◌⊎◌, true, false, none, some, ◌≡◌, ◌≢◌, refl, ◌≤◌, ◌<◌, [], ◌∷◌, pos}
use line_go.Guard.Lists.{contains, unique, append_unique}
use line_go.Guard.Store.{
  State, no_group, role, rank, get_group, gadmin, creator, can_kick, normalize,
}
use line_go.Guard.Store.Persist.{Json, Calls, Store, save, save_cases}
use line_go.Guard.Store.Normal.{IsNormal, normalize-IsNormal}
use line_go.Guard.Store.Steps.{Op, run}
use line_go.Guard.Store.Roles.{refusal, mutate_role, add_owner}
use line_go.Guard.Store.Invariant.{run-IsNormal}
use line_go.Guard.Store.Refines.{answered_view, mutate_role_refines}
use line_go.Guard.Store.Authority.{
  can_kick_asymmetric, can_kick_bounds, role-normalize, RoleChange, change_role, others_keep_role,
  add_owner_below,
}

abbrev json : Json
json = record {
  marshal = λ s. some "saved";
  migrate = λ t. some (t, false);
  unmarshal = λ s t. some s;
}

abbrev rename_fails : Calls
rename_fails = record {
  mkdir_ok = true;
  create_ok = true;
  chmod_ok = true;
  write_ok = true;
  sync_ok = true;
  close_ok = true;
  rename_ok = false;
}

-- A creator, an owner, a bot, and a group with an admin of its own; "ann" is also blacklisted.
abbrev state : State
state = record {
  version = pos 1;
  creators = "ann" ∷ [];
  owners = "bob" ∷ [];
  admins = [];
  blacklist = "ann" ∷ [];
  bots = "bot" ∷ [];
  commands = [];
  groups = ("room", some (record no_group { gadmins = "cy" ∷ [] })) ∷ [];
}

abbrev store : Store
store = record { state = state; file = some "old"; backup = none }

abbrev normal : Store
normal = record store { state = normalize state }

run-IsNormal_example :
    IsNormal
      (run json
        ((rename_fails, Op.adds_admin "ann" "dan")
          ∷ (rename_fails, Op.auto_blacklists "room" "eve")
          ∷ [])
        normal).state
run-IsNormal_example =
    run-IsNormal json
      ((rename_fails, Op.adds_admin "ann" "dan")
        ∷ (rename_fails, Op.auto_blacklists "room" "eve")
        ∷ [])
      normal (normalize-IsNormal state)

save_cases_example :
    ((save json rename_fails store).0.state ≡ state)
    × ((save json rename_fails store).0.backup ≡ none)
    × (((save json rename_fails store).1 ≡ none)
          × ((save json rename_fails store).0.file ≡ some "saved")
        ⊎ ((save json rename_fails store).1 ≢ none)
          × ((save json rename_fails store).0.file ≡ some "old"))
save_cases_example = save_cases json rename_fails store

can_kick_asymmetric_example : can_kick state "room" "cy" "bob" ≡ false
unfolding can_kick contains role rank get_group
can_kick_asymmetric_example = can_kick_asymmetric state "room" "bob" "cy" refl refl refl

can_kick_bounds_example :
    (rank gadmin ≤ rank (role state "room" "bob")) × (rank (role state "room" "cy") < rank creator)
unfolding can_kick contains role rank get_group
can_kick_bounds_example = can_kick_bounds state "room" "bob" "cy" refl refl

role-normalize_example : role (normalize state) "room" "cy" ≡ role state "room" "cy"
unfolding contains
role-normalize_example = role-normalize state "room" "cy" refl

others_keep_role_example :
    role
      (mutate_role json rename_fails creator "" "ann" "cy"
        (change_role RoleChange.own "cy")
        store).0.state
      "room"
      "bob"
    ≡ role state "room" "bob"
unfolding contains
others_keep_role_example =
    others_keep_role json rename_fails RoleChange.own creator "" "ann" "cy" "room" "bob" store refl
      refl

add_owner_below_example :
    (((add_owner json rename_fails "ann" "cy" store).0 ≡ store)
      × ((add_owner json rename_fails "ann" "cy" store).1 ≢ none))
    ⊎ (rank (role (add_owner json rename_fails "ann" "cy" store).0.state "room" "cy")
        < rank (role state "" "ann"))
add_owner_below_example = add_owner_below json rename_fails "ann" "cy" "room" store

mutate_role_refines_example :
    role
      (mutate_role json rename_fails creator "" "ann" "cy"
        (change_role RoleChange.own "cy")
        normal).0.state
      "room"
      "cy"
    ≡ answered_view
        (refusal creator "" "ann" "cy" normal.state)
        RoleChange.own
        "cy"
        (role normal.state)
        "room"
        "cy"
unfolding contains normalize unique append_unique
mutate_role_refines_example =
    mutate_role_refines json rename_fails RoleChange.own creator "" "ann" "cy" "room" "cy" normal
      (normalize-IsNormal state) refl
