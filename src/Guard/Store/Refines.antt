-- ===== src/Guard/Store/Refines.antt =====
-- An abstract view of guard/store.go: a role for each member of each group, and what the changes of a
-- role that go through `mutateRole` are in that view.
use line_go.Common.{
  String, false, ◌&&◌, ◌||◌, Option, none, some, ◌≡◌, sym, ap, ◌∙◌, arith, List, ◌++◌, ◌==◌, ltb,
  if◌then◌else◌, Option-cases, Bool-cases, inl, inr,
}
use line_go.Guard.Lists.{contains, append_unique, remove}
use line_go.Guard.Lists.Laws.{contains-append, contains-remove, contains-append_unique}
use line_go.Guard.Store.{
  Role, user, gadmin, admin, owner, rank, State, GroupState, in_gadmins, get_group, set_group,
  or_new, update_group, role, normalize, StoreError,
}
use line_go.Guard.Store.Persist.{Json, Calls, Store, commit-state}
use line_go.Guard.Store.Roles.{
  refusal, with_owner, without_owner, with_admin, without_admin, with_gadmin, without_gadmin,
  mutate_role,
}
use line_go.Guard.Store.Normal.{IsNormal}
use line_go.Guard.Store.Authority.{
  RoleChange, own, disown, promote, demote, group_promote, group_demote, change_role,
  bots-change_role, gadmin-not_protected, role-normalize, role-change_role, refusal-none,
  get_group-set_group,
}
use text.Mathlib.Text.{◌==◌ as str_eq}
use text.Mathlib.TextEquality.{eq_iff}

-- What a change makes of the role that its target has in a group.
unfoldable pub changed_role : RoleChange → String → Role → Role
changed_role own group r = owner
changed_role disown group r = if rank r == rank owner then user else r
changed_role promote group r = if ltb (rank r) (rank admin) then admin else r
changed_role demote group r = if rank r == rank admin then user else r
changed_role (group_promote k) group r =
    if str_eq k group && ltb (rank r) (rank gadmin) then gadmin else r
changed_role (group_demote k) group r =
    if str_eq k group && (rank r == rank gadmin) then user else r

-- What the view of roles is after a change.
unfoldable pub change_view : RoleChange → String → (String → String → Role) → String → String → Role
unfolding changed_role
change_view c target view group m =
    if str_eq target m then changed_role c group (view group m) else view group m

in_gadmins-set_group_if :
    (k group m : String) (room : GroupState) (groups : List (String × Option GroupState))
    → in_gadmins (get_group group (set_group k room groups)) m
      ≡ (if str_eq k group then contains room.gadmins m else in_gadmins (get_group group groups) m)
unfolding in_gadmins
in_gadmins-set_group_if k group m room groups = elim (Bool-cases (str_eq k group)) [
  | inl here ↦ rw (get_group-set_group k group room groups, here)
  | inr there ↦ rw (get_group-set_group k group room groups, there)
]

-- In a normal state an owner is no admin, and neither is a group admin.
apart :
    (s : State) (group m : String)
    → IsNormal s
    → ((contains s.owners m && contains s.admins m) ≡ false)
      × (((contains s.owners m || contains s.admins m) && in_gadmins (get_group group s.groups) m)
          ≡ false)
apart s group m n = ground (
  arith,
  n.admins_apart m,
  contains-append s.owners s.creators m,
  gadmin-not_protected s group m n,
  contains-append s.bots (s.owners ++ (s.admins ++ s.creators)) m,
  contains-append s.owners (s.admins ++ s.creators) m,
  contains-append s.admins s.creators m,
)

-- The role of a target after the change, before the state is made normal again.
target_role :
    (c : RoleChange) (s : State) (target group : String)
    → IsNormal s
    → str_eq target "" ≡ false
    → contains s.bots target ≡ false
    → contains s.creators target ≡ false
    → role (change_role c target s) group target ≡ changed_role c group (role s group target)
unfolding change_role changed_role role rank with_owner without_owner with_admin without_admin
    with_gadmin without_gadmin update_group in_gadmins
target_role own s target group n full bot low =
    ground (arith, contains-append_unique s.owners target target, eq_iff target target)
target_role disown s target group n full bot low =
    ground
      (arith, contains-remove s.owners target target, eq_iff target target, apart s group target n)
target_role promote s target group n full bot low =
    ground (arith, contains-append_unique s.admins target target, eq_iff target target)
target_role demote s target group n full bot low =
    ground
      (arith, contains-remove s.admins target target, eq_iff target target, apart s group target n)
target_role (group_promote k) s target group n full bot low =
    let room = or_new (get_group k s.groups) in
    rw
      (in_gadmins-set_group_if k group target
        (record room { gadmins = append_unique room.gadmins target }) s.groups)
      (ground (arith, contains-append_unique room.gadmins target target, eq_iff target target))
target_role (group_demote k) s target group n full bot low =
    let room = or_new (get_group k s.groups) in
    rw
      (in_gadmins-set_group_if k group target (record room { gadmins = remove room.gadmins target })
        s.groups)
      (ground (
        arith,
        contains-remove room.gadmins target target,
        eq_iff target target,
        eq_iff k group,
        apart s group target n,
      ))

-- The view after a request that its guards answered.
unfoldable pub answered_view :
    Option StoreError → RoleChange → String → (String → String → Role) → String → String → Role
unfolding change_view
answered_view none c target view = change_view c target view
answered_view (some e) c target view = view

full_target :
    (minimum : Role) (k actor target : String) (s : State)
    → refusal minimum k actor target s ≡ none
    → str_eq target "" ≡ false
unfolding refusal
full_target minimum k actor target s e = ground arith

role-change_role_view :
    (c : RoleChange) (minimum : Role) (k actor target group m : String) (s : State)
    → IsNormal s
    → refusal minimum k actor target s ≡ none
    → role (change_role c target s) group m ≡ change_view c target (role s) group m
unfolding change_view
role-change_role_view c minimum k actor target group m s n e =
    let (_, _, bot, low) = refusal-none minimum k actor target s e in
    elim (Bool-cases (str_eq target m)) [
      | inl here ↦
          let same : target ≡ m = (eq_iff target m).0 here in
          rw here (
            ap (λ who. role (change_role c target s) group who) (sym same)
            ∙ target_role c s target group n (full_target minimum k actor target s e) bot low
            ∙ ap (λ who. changed_role c group (role s group who)) same)
      | inr there ↦ rw there (role-change_role c s target group m there)
    ]

-- Of a store in normal form, `mutateRole` implements the change of the view: where its guards let it
-- pass, the target has the changed role in every group and every other member who is no bot has
-- the role it had; where they refuse it, the view is as it was. That the save fails changes nothing
-- of this.
pub mutate_role_refines :
    (json : Json) (calls : Calls) (c : RoleChange) (minimum : Role)
    (k actor target group m : String) (s : Store)
    → IsNormal s.state
    → contains s.state.bots m ≡ false
    → role (mutate_role json calls minimum k actor target (change_role c target) s).0.state group m
      ≡ answered_view (refusal minimum k actor target s.state) c target (role s.state) group m
unfolding mutate_role answered_view
mutate_role_refines json calls c minimum k actor target group m s n bot =
    elim (Option-cases (refusal minimum k actor target s.state)) [
      | inl e ↦
          let changed = change_role c target s.state in
          let unbot : contains changed.bots m ≡ false =
            rw (bots-change_role c target s.state) bot in
          rw (e, mutate_role)
            (rw (commit-state json calls s (normalize changed)) (
              role-normalize changed group m unbot
              ∙ role-change_role_view c minimum k actor target group m s.state n e))
      | inr (x, e) ↦ rw (e, mutate_role)
    ]
