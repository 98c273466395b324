-- ===== src/Guard/Store/Roles.antt =====
-- The methods of guard/store.go that change who has a role: creators, owners, admins, group admins
-- and bots. `no_inviter` and the like stand for the error texts.
use line_go.Common.{String, Bool, true, false, not, ◌||◌, Option, none, some}
use line_go.Common.{[], ◌∷◌, ◌++◌, leb, ltb, ◌==◌, if◌then◌else◌, length}
use line_go.Guard.Lists.{contains, append_unique, remove}
use line_go.Guard.Store.{
  Role, admin, owner, creator, rank, State, update_group, role, normalize, StoreError,
  no_permission, bad_target, equal_rank, no_group_id, no_inviter,
}
use line_go.Guard.Store.Persist.{Json, Calls, Store, commit}
use text.Mathlib.Text.{◌==◌ as str_eq}

-- The guards of `mutateRole`, in their order; `none` lets the change pass.
unfoldable pub refusal : Role → String → String → String → State → Option StoreError
refusal minimum group actor target s =
    if ltb (rank (role s group actor)) (rank minimum)
    then some no_permission
    else if str_eq target ""
        || str_eq actor target
        || contains s.bots target
        || contains s.creators target
    then some bad_target
    else if leb (rank (role s group actor)) (rank (role s group target))
    then some equal_rank
    else none

-- What `AddOwner` to `DelGAdmin` hand to `mutateRole`.
unfoldable pub with_owner : String → State → State
with_owner target s = record s { owners = append_unique s.owners target }

unfoldable pub without_owner : String → State → State
without_owner target s = record s { owners = remove s.owners target }

unfoldable pub with_admin : String → State → State
with_admin target s = record s { admins = append_unique s.admins target }

unfoldable pub without_admin : String → State → State
without_admin target s = record s { admins = remove s.admins target }

unfoldable pub with_gadmin : String → String → State → State
with_gadmin group target =
    update_group group (λ room. record room { gadmins = append_unique room.gadmins target })

unfoldable pub without_gadmin : String → String → State → State
without_gadmin group target =
    update_group group (λ room. record room { gadmins = remove room.gadmins target })

module _ (json : Json) (calls : Calls) where
  unfoldable pub mutate_role :
      Role → String → String → String → (State → State) → Store → Store × Option StoreError
  mutate_role minimum group actor target change s =
      elim (refusal minimum group actor target s.state) [
        | some e ↦ (s, some e)
        | none ↦ commit json calls s (normalize (change s.state))
      ]

  unfoldable pub add_owner : String → String → Store → Store × Option StoreError
  add_owner actor target = mutate_role creator "" actor target (with_owner target)

  unfoldable pub del_owner : String → String → Store → Store × Option StoreError
  del_owner actor target = mutate_role creator "" actor target (without_owner target)

  unfoldable pub add_admin : String → String → Store → Store × Option StoreError
  add_admin actor target = mutate_role owner "" actor target (with_admin target)

  unfoldable pub del_admin : String → String → Store → Store × Option StoreError
  del_admin actor target = mutate_role owner "" actor target (without_admin target)

  unfoldable pub add_gadmin : String → String → String → Store → Store × Option StoreError
  add_gadmin group actor target s =
      if str_eq group ""
      then (s, some no_group_id)
      else mutate_role admin group actor target (with_gadmin group target) s

  unfoldable pub del_gadmin : String → String → String → Store → Store × Option StoreError
  del_gadmin group actor target s =
      if str_eq group ""
      then (s, some no_group_id)
      else mutate_role admin group actor target (without_gadmin group target) s

  unfoldable pub add_creator : String → String → Store → Store × Option StoreError
  add_creator actor target s =
      if not (rank (role s.state "" actor) == rank creator)
      then (s, some no_permission)
      else if str_eq target "" || contains s.state.bots target
      then (s, some bad_target)
      else commit json calls s
          (normalize (record s.state { creators = append_unique s.state.creators target }))

  unfoldable pub del_creator : String → String → Store → Store × Option StoreError
  del_creator actor target s =
      if not (rank (role s.state "" actor) == rank creator)
      then (s, some no_permission)
      else if str_eq actor target
          || not (contains s.state.creators target)
          || leb (length s.state.creators) 1
      then (s, some bad_target)
      else commit json calls s (record s.state { creators = remove s.state.creators target })

  -- The Boolean is whether the inviter became the creator.
  unfoldable pub bootstrap_creator : String → Store → Store × (Bool × Option StoreError)
  bootstrap_creator inviter s =
      if str_eq inviter ""
      then (s, (false, some no_inviter))
      else if not (length s.state.creators == 0)
      then (s, (false, none))
      else let (s', e) =
          commit json calls s (normalize (record s.state { creators = inviter ∷ [] })) in
        (s', (true, e))

  unfoldable pub register_bot : String → Store → Store × Option StoreError
  register_bot mid s =
      if str_eq mid ""
      then (s, none)
      else if contains s.state.bots mid
      then (s, none)
      else commit json calls s (normalize (record s.state { bots = s.state.bots ++ mid ∷ [] }))
