-- ===== src/Guard/Store.antt =====
-- guard/store.go: the guard's persistent state, who has which role in it, its normal form, and how
-- it is saved. A map is an association list, a pointer to a group that may be nil an Option. The
-- lock of a Store makes every method one step, so a method is a function of the store.
pub mod Persist
pub mod Roles
pub mod Blacklist
pub mod Settings
pub mod Normal
pub mod Stays
pub mod Steps
pub mod Invariant
pub mod Authority
pub mod Refines
mod Runs
use line_go.Common.{ℕ, suc, ◌<◌, String, Bool, true, false, not, ◌&&◌, ◌||◌, Option, none, some}
use line_go.Common.{List, [], ◌∷◌, ◌++◌, ltb, if◌then◌else◌, ℤ, pos, ◌==◌}
use line_go.Guard.Lists.{contains, append_unique, unique, remove, remove_many}
use text.Mathlib.Text.{◌==◌ as str_eq}

pub data Role : Type 0 where
  user gadmin admin owner creator : Role

-- The number that stands for a role, and orders it.
unfoldable pub rank : Role → ℕ
rank user = 0
rank gadmin = 1
rank admin = 2
rank owner = 3
rank creator = 4

pub record ProtectionState : Type 0 where
  pub invite : Bool
  pub cancel : Bool
  pub kick : Bool
  pub qr : Bool
  pub all : Bool
  pub flood : Bool

pub record WarState : Type 0 where
  pub enabled : Bool
  pub level : ℤ
  pub until : ℤ
  pub auto : Bool
  pub sensitivity : String
  pub cooldown_sec : ℤ
  pub locked : Bool
  pub dry_run : Bool
  pub whitelist : List String
  pub reason : String
  pub started_by : String

pub record GroupState : Type 0 where
  pub gadmins : List String
  pub standby_count : ℤ
  pub reserve_mids : List String
  pub protection : Option ProtectionState
  pub lurk : Bool
  pub readers : List String
  pub war : Option WarState

abbrev pub Groups : Type 0
Groups = List (String × Option GroupState)

pub record State : Type 0 where
  pub version : ℤ
  pub creators : List String
  pub owners : List String
  pub admins : List String
  pub blacklist : List String
  pub bots : List String
  pub commands : List (String × String)
  pub groups : Groups

abbrev pub no_group : GroupState
no_group = record {
  gadmins = [];
  standby_count = pos 0;
  reserve_mids = [];
  protection = none;
  lurk = false;
  readers = [];
  war = none;
}

-- `s.state.Groups[group]`, which is nil for a key that is missing.
unfoldable pub get_group : String → Groups → Option GroupState
get_group group [] = none
get_group group ((k, room) ∷ rest) = if str_eq k group then room else get_group group rest

unfoldable pub set_group : String → GroupState → Groups → Groups
set_group group room [] = (group, some room) ∷ []
set_group group room ((k, old) ∷ rest) =
    let kept = set_group group room rest in
    if str_eq k group then (k, some room) ∷ rest else (k, old) ∷ kept

unfoldable pub or_new : Option GroupState → GroupState
or_new none = no_group
or_new (some room) = room

-- `ensureGroup`, and a change of the group that it returns.
unfoldable pub update_group : String → (GroupState → GroupState) → State → State
update_group group change s = record s {
  groups = set_group group (change (or_new (get_group group s.groups))) s.groups;
}

unfoldable pub in_gadmins : Option GroupState → String → Bool
in_gadmins none mid = false
in_gadmins (some room) mid = contains room.gadmins mid

-- `roleLocked`.
unfoldable pub role : State → String → String → Role
unfolding in_gadmins
role s group mid =
    if str_eq mid ""
    then user
    else if contains s.creators mid
    then creator
    else if contains s.owners mid
    then owner
    else if contains s.admins mid
    then admin
    else if in_gadmins (get_group group s.groups) mid
    then gadmin
    else user

unfoldable pub normalize_room : List String → Option GroupState → Option GroupState
normalize_room protected none = none
normalize_room protected (some room) =
    some (record room { gadmins = remove_many (unique room.gadmins) protected })

unfoldable pub normalize_groups : List String → Groups → Groups
unfolding normalize_room
normalize_groups protected [] = []
normalize_groups protected ((k, room) ∷ rest) =
    (k, normalize_room protected room) ∷ normalize_groups protected rest

unfoldable pub or_one : ℤ → ℤ
or_one (pos n) = if n == 0 then pos 1 else pos n
or_one n = n

-- `normalizeLocked`; each list sees those that were made normal before it.
unfoldable pub normalize : State → State
normalize s =
    let creators = unique s.creators in
    let owners = remove_many (unique s.owners) creators in
    let admins = remove_many (unique s.admins) (owners ++ creators) in
    let bots = unique s.bots in
    let protected = bots ++ (owners ++ (admins ++ creators)) in
    record s {
      version = or_one s.version;
      bots = bots;
      creators = creators;
      owners = owners;
      admins = admins;
      blacklist = remove_many (unique s.blacklist) protected;
      groups = normalize_groups protected s.groups;
    }

pub data StoreError : Type 0 where
  no_permission bad_target equal_rank no_group_id no_inviter bad_scope bad_plan : StoreError
  bad_command bad_alias marshal_failed file_failed bad_json : StoreError

-- `CanInvite` and `CanKick`.
unfoldable pub can_invite : State → String → String → Bool
can_invite s group actor = not (ltb (rank (role s group actor)) (rank gadmin))

unfoldable pub can_kick : State → String → String → String → Bool
can_kick s group actor target =
    if ltb (rank (role s group actor)) (rank gadmin) || str_eq actor target
    then false
    else if contains s.bots target
    then rank (role s group actor) == rank creator
    else ltb (rank (role s group target)) (rank (role s group actor))
