-- ===== src/Guard/Store/Authority.antt =====
-- Who may change whom in guard/store.go, and whose role a change leaves alone.
use line_go.Common.{
  ◌<◌, ◌≤◌, String, true, false, not, ◌&&◌, Option, none, some, ◌≡◌, ◌≢◌, ◌⊎◌, refl, ap, ◌∙◌, arith,
  List, [], ◌∷◌, ◌++◌, if◌then◌else◌, Option-cases, Bool-cases, inl, inr,
}
use line_go.Guard.Lists.{contains, append_unique, remove, unique, remove_many}
use line_go.Guard.Lists.Laws.{
  contains-append, contains-remove, contains-remove_many, contains-unique, contains-append_unique,
}
use line_go.Guard.Store.{
  Role, user, gadmin, creator, rank, State, GroupState, Groups, in_gadmins, get_group, set_group,
  or_new, update_group, role, normalize_room, normalize_groups, normalize, can_kick,
}
use line_go.Guard.Store.Normal.{IsNormal, protected, get_group-room}
use line_go.Guard.Store.Persist.{Json, Calls, Store, commit-state}
use line_go.Guard.Store.Roles.{
  refusal, with_owner, without_owner, with_admin, without_admin, with_gadmin, without_gadmin,
  mutate_role, add_owner,
}
use text.Mathlib.Text.{◌==◌ as str_eq}
use text.Mathlib.TextEquality.{eq_iff}

-- Of two users neither of whom is a bot, at most one can kick the other.
pub can_kick_asymmetric :
    (s : State) (group a b : String)
    → contains s.bots a ≡ false
    → contains s.bots b ≡ false
    → can_kick s group a b ≡ true
    → can_kick s group b a ≡ false
unfolding can_kick
can_kick_asymmetric s group a b ha hb h = ground arith

rank_bound : (r : Role) → rank r ≤ 4
unfolding rank
rank_bound user = omega arith
rank_bound _ = omega arith

-- Where somebody who is no bot can be kicked, the actor has a role and the target is no creator.
pub can_kick_bounds :
    (s : State) (group actor target : String)
    → contains s.bots target ≡ false
    → can_kick s group actor target ≡ true
    → (rank gadmin ≤ rank (role s group actor)) × (rank (role s group target) < rank creator)
unfolding can_kick rank
can_kick_bounds s group actor target bot h = ground (arith, rank_bound (role s group actor))

get_group-normalize_groups :
    (ps : List String) (group : String) (groups : Groups)
    → get_group group (normalize_groups ps groups) ≡ normalize_room ps (get_group group groups)
unfolding get_group normalize_groups
get_group-normalize_groups ps group [] = refl
get_group-normalize_groups ps group ((k, room) ∷ rest) = elim (Bool-cases (str_eq k group)) [
  | inl here ↦ rw here
  | inr there ↦ rw there (get_group-normalize_groups ps group rest)
]

pub get_group-set_group :
    (k group : String) (room : GroupState) (groups : Groups)
    → get_group group (set_group k room groups)
      ≡ (if str_eq k group then some room else get_group group groups)
unfolding get_group set_group
get_group-set_group k group room [] = refl
get_group-set_group k group room ((j, old) ∷ rest) =
    ground
      (arith, eq_iff j k, eq_iff k group, eq_iff j group, get_group-set_group k group room rest)

in_gadmins-normalize_room :
    (ps : List String) (room : Option GroupState) (m : String)
    → in_gadmins (normalize_room ps room) m
      ≡ (in_gadmins room m && not (str_eq m "") && not (contains ps m))
unfolding in_gadmins normalize_room
in_gadmins-normalize_room ps none m = refl
in_gadmins-normalize_room ps (some room) m =
    ground (arith, contains-remove_many (unique room.gadmins) ps m, contains-unique room.gadmins m)

-- `normalizeLocked` changes nobody's role, unless a bot is a group admin.
pub role-normalize :
    (s : State) (group m : String)
    → contains s.bots m ≡ false
    → role (normalize s) group m ≡ role s group m
unfolding role normalize
role-normalize s group m h =
    let creators = unique s.creators in
    let owners = remove_many (unique s.owners) creators in
    let admins = remove_many (unique s.admins) (owners ++ creators) in
    let bots = unique s.bots in
    let ps = bots ++ (owners ++ (admins ++ creators)) in
    let room = get_group-normalize_groups ps group s.groups in
    rw room (
      ground (
        arith,
        in_gadmins-normalize_room ps (get_group group s.groups) m,
        contains-unique s.creators m,
        contains-remove_many (unique s.owners) creators m,
        contains-unique s.owners m,
        contains-remove_many (unique s.admins) (owners ++ creators) m,
        contains-unique s.admins m,
        contains-append owners creators m,
        contains-append bots (owners ++ (admins ++ creators)) m,
        contains-append owners (admins ++ creators) m,
        contains-append admins creators m,
        contains-unique s.bots m,
      ))

-- The six changes of a role that go through `mutateRole`; the last two are of a group.
pub data RoleChange : Type 0 where
  own disown promote demote : RoleChange
  group_promote group_demote : String → RoleChange

unfoldable pub change_role : RoleChange → String → State → State
change_role own target = with_owner target
change_role disown target = without_owner target
change_role promote target = with_admin target
change_role demote target = without_admin target
change_role (group_promote group) target = with_gadmin group target
change_role (group_demote group) target = without_gadmin group target

pub in_gadmins-or_new :
    (room : Option GroupState) (m : String) → contains (or_new room).gadmins m ≡ in_gadmins room m
unfolding in_gadmins or_new contains
in_gadmins-or_new none m = refl
in_gadmins-or_new (some room) m = refl

pub gadmin-not_protected :
    (s : State) (group m : String)
    → IsNormal s
    → in_gadmins (get_group group s.groups) m ≡ true
    → contains (protected s) m ≡ false
gadmin-not_protected s group m n h =
    (get_group-room (protected s) group s.groups n.rooms).1 m
      (in_gadmins-or_new (get_group group s.groups) m ∙ h)

pub in_gadmins-set_group :
    (k group m : String) (room : GroupState) (groups : Groups)
    → contains room.gadmins m ≡ in_gadmins (get_group k groups) m
    → in_gadmins (get_group group (set_group k room groups)) m
      ≡ in_gadmins (get_group group groups) m
unfolding in_gadmins
in_gadmins-set_group k group m room groups h = elim (Bool-cases (str_eq k group)) [
  | inl here ↦
      let same : k ≡ group = (eq_iff k group).0 here in
      rw (get_group-set_group k group room groups, here)
        (h ∙ ap (λ g. in_gadmins (get_group g groups) m) same)
  | inr there ↦ rw (get_group-set_group k group room groups, there)
]

-- A change of the target is no change of the role of another.
pub role-change_role :
    (c : RoleChange) (s : State) (target group m : String)
    → str_eq target m ≡ false
    → role (change_role c target s) group m ≡ role s group m
unfolding change_role role with_owner without_owner with_admin without_admin with_gadmin
    without_gadmin update_group
role-change_role own s target group m h = ground (arith, contains-append_unique s.owners target m)
role-change_role disown s target group m h = ground (arith, contains-remove s.owners target m)
role-change_role promote s target group m h =
    ground (arith, contains-append_unique s.admins target m)
role-change_role demote s target group m h = ground (arith, contains-remove s.admins target m)
role-change_role (group_promote k) s target group m h =
    let room = or_new (get_group k s.groups) in
    let same = contains-append_unique room.gadmins target m in
    let kept : contains (append_unique room.gadmins target) m
        ≡ in_gadmins (get_group k s.groups) m =
      ground (arith, same, in_gadmins-or_new (get_group k s.groups) m) in
    rw (
      in_gadmins-set_group k group m (record room { gadmins = append_unique room.gadmins target })
        s.groups kept)
role-change_role (group_demote k) s target group m h =
    let room = or_new (get_group k s.groups) in
    let same = contains-remove room.gadmins target m in
    let kept : contains (remove room.gadmins target) m ≡ in_gadmins (get_group k s.groups) m =
      ground (arith, same, in_gadmins-or_new (get_group k s.groups) m) in
    rw (
      in_gadmins-set_group k group m (record room { gadmins = remove room.gadmins target }) s.groups
        kept)

pub bots-change_role :
    (c : RoleChange) (target : String) (s : State) → (change_role c target s).bots ≡ s.bots
unfolding change_role with_owner without_owner with_admin without_admin with_gadmin without_gadmin
    update_group
bots-change_role own target s = refl
bots-change_role _ target s = refl

-- What a passed guard of `mutateRole` says: the actor has the minimum role and ranks above the
-- target, who is neither a bot nor a creator.
pub refusal-none :
    (minimum : Role) (group actor target : String) (s : State)
    → refusal minimum group actor target s ≡ none
    → (rank minimum ≤ rank (role s group actor))
      × (rank (role s group target) < rank (role s group actor))
      × (contains s.bots target ≡ false)
      × (contains s.creators target ≡ false)
unfolding refusal
refusal-none minimum group actor target s e = ground arith

-- Who is no creator ranks below one.
role-below_creator :
    (s : State) (group m : String)
    → contains s.creators m ≡ false
    → rank (role s group m) < rank creator
unfolding role rank
role-below_creator s group m h = ground arith

module _ (json : Json) (calls : Calls) where
  -- Whether it is allowed, refused or fails to be saved, a change of the target's role through
  -- `mutateRole` leaves everybody else's role as it was, bots apart, in every group.
  pub others_keep_role :
      (c : RoleChange) (minimum : Role) (k actor target group m : String) (s : Store)
      → str_eq target m ≡ false
      → contains s.state.bots m ≡ false
      → role
          (mutate_role json calls minimum k actor target (change_role c target) s).0.state
          group
          m
        ≡ role s.state group m
  unfolding mutate_role
  others_keep_role c minimum k actor target group m s other bot =
      elim (Option-cases (refusal minimum k actor target s.state)) [
        | inl e ↦
            rw (e, mutate_role)
              (rw (commit-state json calls s (normalize (change_role c target s.state))) (
                role-normalize (change_role c target s.state) group m
                  (rw (bots-change_role c target s.state) bot)
                ∙ role-change_role c s.state target group m other))
        | inr (x, e) ↦ rw (e, mutate_role)
      ]

  -- An `AddOwner` returns an error and leaves the store as it was, or its target ranks below the actor
  -- afterwards, in every group, whether or not the save succeeds.
  pub add_owner_below :
      (actor target group : String) (s : Store)
      → (((add_owner json calls actor target s).0 ≡ s)
          × ((add_owner json calls actor target s).1 ≢ none))
        ⊎ (rank (role (add_owner json calls actor target s).0.state group target)
            < rank (role s.state "" actor))
  unfolding add_owner mutate_role with_owner
  add_owner_below actor target group s =
      elim (Option-cases (refusal creator "" actor target s.state)) [
        | inl e ↦
            let (top, _, bot, below) = refusal-none creator "" actor target s.state e in
            let changed = with_owner target s.state in
            let saved = commit-state json calls s (normalize changed) in
            let same = role-normalize changed group target bot in
            let low = role-below_creator changed group target below in
            inr (rw (e, add_owner, mutate_role) (rw (saved, same) (omega arith)))
        | inr (x, e) ↦ inl (rw (e, add_owner, mutate_role) (refl, λ k. cc))
      ]
