-- ===== src/Guard/Store/Normal.antt =====
-- The normal form of guard/store.go: no list repeats a member or holds the empty one, a member has
-- one role, and nobody with a role and no bot is on the blacklist or a group admin.
use line_go.Common.{String, true, false, Option, none, some}
use line_go.Common.{◌≡◌, arith, List, [], ◌∷◌, ◌++◌, Bool-cases, inl, inr}
use line_go.Guard.Lists.{contains, append_unique, unique, remove, remove_many}
use line_go.Guard.Lists.Laws.{
  contains-append, contains-remove, contains-remove_many, contains-append_unique, IsUnique,
  remove-IsUnique, remove_many-IsUnique, unique-IsUnique,
}
use line_go.Guard.Store.{
  State, GroupState, Groups, get_group, set_group, or_new, update_group, normalize_groups,
  normalize,
}
use text.Mathlib.Text.{◌==◌ as str_eq}
use text.Mathlib.TextEquality.{eq_iff}

-- No member of `xs` is one of `ys`.
abbrev pub Disjoint : List String → List String → Type 0
Disjoint xs ys = (m : String) → contains xs m ≡ true → contains ys m ≡ false

-- What holds of a group's admins beside the global lists.
abbrev pub IsNormalRoom : List String → Option GroupState → Type 0
IsNormalRoom protected none = Unit
IsNormalRoom protected (some room) = IsUnique room.gadmins × Disjoint room.gadmins protected

abbrev pub AreNormalRooms : List String → Groups → Type 0
AreNormalRooms protected [] = Unit
AreNormalRooms protected ((k, room) ∷ rest) =
    IsNormalRoom protected room × AreNormalRooms protected rest

-- `protected` of `normalizeLocked`.
abbrev pub protected : State → List String
protected s = s.bots ++ (s.owners ++ (s.admins ++ s.creators))

pub record IsNormal (s : State) : Type 0 where
  pub creators_unique : IsUnique s.creators
  pub owners_unique : IsUnique s.owners
  pub admins_unique : IsUnique s.admins
  pub bots_unique : IsUnique s.bots
  pub blacklist_unique : IsUnique s.blacklist
  pub owners_apart : Disjoint s.owners s.creators
  pub admins_apart : Disjoint s.admins (s.owners ++ s.creators)
  pub blacklist_apart : Disjoint s.blacklist (protected s)
  pub rooms : AreNormalRooms (protected s) s.groups

remove_many-Disjoint : (xs ts : List String) → Disjoint (remove_many xs ts) ts
remove_many-Disjoint xs ts m h = ground (arith, contains-remove_many xs ts m)

normalize_groups-rooms :
    (ps : List String) (groups : Groups) → AreNormalRooms ps (normalize_groups ps groups)
unfolding normalize_groups
normalize_groups-rooms ps [] = tt
normalize_groups-rooms ps ((k, none) ∷ rest) = (tt, normalize_groups-rooms ps rest)
normalize_groups-rooms ps ((k, some room) ∷ rest) = (
  (remove_many-IsUnique _ ps (unique-IsUnique room.gadmins), remove_many-Disjoint _ ps),
  normalize_groups-rooms ps rest,
)

-- Whatever the state was, `normalizeLocked` makes it normal.
pub normalize-IsNormal : (s : State) → IsNormal (normalize s)
unfolding normalize
normalize-IsNormal s = record {
  creators_unique = unique-IsUnique s.creators;
  owners_unique = remove_many-IsUnique _ _ (unique-IsUnique s.owners);
  admins_unique = remove_many-IsUnique _ _ (unique-IsUnique s.admins);
  bots_unique = unique-IsUnique s.bots;
  blacklist_unique = remove_many-IsUnique _ _ (unique-IsUnique s.blacklist);
  owners_apart = remove_many-Disjoint _ _;
  admins_apart = remove_many-Disjoint _ _;
  blacklist_apart = remove_many-Disjoint _ _;
  rooms = normalize_groups-rooms _ s.groups;
}

-- Rooms stay normal where a group keeps its admins, and where fewer are protected.
set_group-rooms :
    (ps : List String) (group : String) (room : GroupState) (groups : Groups)
    → AreNormalRooms ps groups
    → IsNormalRoom ps (some room)
    → AreNormalRooms ps (set_group group room groups)
unfolding set_group
set_group-rooms ps group room [] h r = (r, tt)
set_group-rooms ps group room ((k, old) ∷ rest) h r = elim (Bool-cases (str_eq k group)) [
  | inl here ↦ rw here (r, h.1)
  | inr there ↦ rw there (h.0, set_group-rooms ps group room rest h.1 r)
]

pub get_group-room :
    (ps : List String) (group : String) (groups : Groups)
    → AreNormalRooms ps groups
    → IsNormalRoom ps (some (or_new (get_group group groups)))
unfolding get_group or_new contains
get_group-room ps group [] h = (tt, λ m e. cc)
get_group-room ps group ((k, none) ∷ rest) h = elim (Bool-cases (str_eq k group)) [
  | inl here ↦ rw here (tt, λ m e. cc)
  | inr there ↦ rw there (get_group-room ps group rest h.1)
]
get_group-room ps group ((k, some room) ∷ rest) h = elim (Bool-cases (str_eq k group)) [
  | inl here ↦ rw here h.0
  | inr there ↦ rw there (get_group-room ps group rest h.1)
]

AreNormalRooms-weaken :
    (ps qs : List String) (groups : Groups)
    → ((m : String) → contains qs m ≡ true → contains ps m ≡ true)
    → AreNormalRooms ps groups
    → AreNormalRooms qs groups
AreNormalRooms-weaken ps qs [] sub h = tt
AreNormalRooms-weaken ps qs ((k, none) ∷ rest) sub h =
    (tt, AreNormalRooms-weaken ps qs rest sub h.1)
AreNormalRooms-weaken ps qs ((k, some room) ∷ rest) sub h =
    ((h.0.0, λ m e. ground (arith, sub m, h.0.1 m e)), AreNormalRooms-weaken ps qs rest sub h.1)

-- A change of a group that keeps its admins keeps the state normal.
pub update_group-IsNormal :
    (group : String) (change : GroupState → GroupState) (s : State)
    → ((room : GroupState) → (change room).gadmins ≡ room.gadmins)
    → IsNormal s
    → IsNormal (update_group group change s)
unfolding update_group
update_group-IsNormal group change s keeps n = record {
  creators_unique = n.creators_unique;
  owners_unique = n.owners_unique;
  admins_unique = n.admins_unique;
  bots_unique = n.bots_unique;
  blacklist_unique = n.blacklist_unique;
  owners_apart = n.owners_apart;
  admins_apart = n.admins_apart;
  blacklist_apart = n.blacklist_apart;
  rooms =
      set_group-rooms (protected s) group (change (or_new (get_group group s.groups))) s.groups
        n.rooms
        (rw (keeps (or_new (get_group group s.groups)))
          (get_group-room (protected s) group s.groups n.rooms));
}

-- Fewer creators keep the state normal.
pub without_creator-IsNormal :
    (target : String) (s : State)
    → IsNormal s
    → IsNormal (record s { creators = remove s.creators target })
without_creator-IsNormal target s n = record {
  creators_unique = remove-IsUnique s.creators target n.creators_unique;
  owners_unique = n.owners_unique;
  admins_unique = n.admins_unique;
  bots_unique = n.bots_unique;
  blacklist_unique = n.blacklist_unique;
  owners_apart = λ m e. ground (arith, n.owners_apart m e, contains-remove s.creators target m);
  admins_apart = λ m e. ground (
    arith,
    n.admins_apart m e,
    contains-remove s.creators target m,
    contains-append s.owners s.creators m,
    contains-append s.owners (remove s.creators target) m,
  );
  blacklist_apart = λ m e. ground (arith, n.blacklist_apart m e, fewer m);
  rooms = AreNormalRooms-weaken (protected s) _ s.groups fewer n.rooms;
}
  where
    fewer :
        (m : String)
        → contains (s.bots ++ (s.owners ++ (s.admins ++ remove s.creators target))) m ≡ true
        → contains (protected s) m ≡ true
    fewer m = ground (
      arith,
      contains-remove s.creators target m,
      contains-append s.bots (s.owners ++ (s.admins ++ s.creators)) m,
      contains-append s.owners (s.admins ++ s.creators) m,
      contains-append s.admins s.creators m,
      contains-append s.bots (s.owners ++ (s.admins ++ remove s.creators target)) m,
      contains-append s.owners (s.admins ++ remove s.creators target) m,
      contains-append s.admins (remove s.creators target) m,
    )

-- A blacklist of members who are apart keeps the state normal.
pub with_blacklist-IsNormal :
    (xs : List String) (s : State)
    → IsNormal s
    → IsUnique xs
    → Disjoint xs (protected s)
    → IsNormal (record s { blacklist = xs })
with_blacklist-IsNormal xs s n unique apart = record {
  creators_unique = n.creators_unique;
  owners_unique = n.owners_unique;
  admins_unique = n.admins_unique;
  bots_unique = n.bots_unique;
  blacklist_unique = unique;
  owners_apart = n.owners_apart;
  admins_apart = n.admins_apart;
  blacklist_apart = apart;
  rooms = n.rooms;
}

-- The commands are not part of the normal form.
pub commands-IsNormal :
    (commands : List (String × String)) (s : State)
    → IsNormal s
    → IsNormal (record s { commands = commands })
commands-IsNormal commands s n = record {
  creators_unique = n.creators_unique;
  owners_unique = n.owners_unique;
  admins_unique = n.admins_unique;
  bots_unique = n.bots_unique;
  blacklist_unique = n.blacklist_unique;
  owners_apart = n.owners_apart;
  admins_apart = n.admins_apart;
  blacklist_apart = n.blacklist_apart;
  rooms = n.rooms;
}

pub appended-Disjoint :
    (xs ps : List String) (t : String)
    → Disjoint xs ps
    → contains ps t ≡ false
    → Disjoint (append_unique xs t) ps
appended-Disjoint xs ps t d apart m h =
    ground (arith, contains-append_unique xs t m, eq_iff t m, d m)
