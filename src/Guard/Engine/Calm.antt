-- ===== src/Guard/Engine/Calm.antt =====
-- What a handler of the engine keeps: the normal form of the store, the bots and everybody's role,
-- and that whoever was kicked could be.
use line_go.Common.{
  ℕ, ◌≤◌, String, true, false, not, ◌&&◌, ◌||◌, Option, none, some, ◌≡◌, refl, ◌∙◌, ap, inl, inr,
  arith, List, ◌++◌, ◌==◌, Bool-cases, Option-cases,
}
use line_go.Guard.Lists.{contains}
use line_go.Guard.Lists.Laws.{contains-append}
use line_go.Guard.Store.{
  State, GroupState, WarState, rank, gadmin, role, get_group, or_new, in_gadmins, update_group,
}
use line_go.Guard.Store.Persist.{Json, Calls, Store}
use line_go.Guard.Store.Roles.{register_bot}
use line_go.Guard.Store.Blacklist.{auto_blacklist}
use line_go.Guard.Store.Settings.{record_reader}
use line_go.Guard.Store.Normal.{IsNormal}
use line_go.Guard.Store.Stays.{Stays, Stays-same, Stays-if, Stays-commit, Stays-commit_with}
use line_go.Guard.Store.Authority.{in_gadmins-or_new, in_gadmins-set_group, gadmin-not_protected}
use line_go.Guard.Store.Invariant.Members.{auto_blacklist-Kept}
use line_go.Guard.Store.Invariant.Settings.{
  expire_room-Kept, activate_war_auto-Kept, record_reader-Kept,
}
use line_go.Guard.War.{
  war, war_active, expire_room, expire_war, activate_war_auto, with_war, is_over,
}
use text.Mathlib.Text.{◌==◌ as str_eq}

-- Two states have the same bots, and everybody who is no bot has the same role in both.
pub record SameRoles (s t : State) : Type 0 where
  pub bots : (m : String) → contains t.bots m ≡ contains s.bots m
  pub roles : (group m : String) → contains s.bots m ≡ false → role t group m ≡ role s group m

-- A change of a group that keeps its admins keeps everybody's role.
role-update_group :
    (k : String) (change : GroupState → GroupState) (s : State)
    → ((room : GroupState) → (change room).gadmins ≡ room.gadmins)
    → (group m : String) → role (update_group k change s) group m ≡ role s group m
unfolding role update_group
role-update_group k change s keeps group m =
    let room = or_new (get_group k s.groups) in
    let kept : contains (change room).gadmins m ≡ in_gadmins (get_group k s.groups) m =
      ap (λ ms. contains ms m) (keeps room) ∙ in_gadmins-or_new (get_group k s.groups) m in
    rw (in_gadmins-set_group k group m (change room) s.groups kept)

pub update_group-SameRoles :
    (s₀ : State) (k : String) (change : GroupState → GroupState) (s : State)
    → ((room : GroupState) → (change room).gadmins ≡ room.gadmins)
    → SameRoles s₀ s
    → SameRoles s₀ (update_group k change s)
unfolding update_group
update_group-SameRoles s₀ k change s keeps h = record {
  bots = h.bots;
  roles = λ group m bot. role-update_group k change s keeps group m ∙ h.roles group m bot;
}

pub with_war-SameRoles :
    (s₀ : State) (k : String) (w : WarState) (s : State)
    → SameRoles s₀ s
    → SameRoles s₀ (update_group k (with_war w) s)
unfolding with_war
with_war-SameRoles s₀ k w s h = update_group-SameRoles s₀ k (with_war w) s (λ room. refl) h

pub with_blacklist-SameRoles :
    (s₀ : State) (blacklist : List String) (s : State)
    → SameRoles s₀ s
    → SameRoles s₀ (record s { blacklist = blacklist })
unfolding role
with_blacklist-SameRoles s₀ blacklist s h = record { bots = h.bots; roles = h.roles }

-- A state that a handler may leave, where it found the first.
pub record IsCalm (s₀ s : State) : Type 0 where
  pub normal : IsNormal s
  pub same : SameRoles s₀ s

module _ (json : Json) (calls : Calls) (s₀ : State) where
  pub auto_blacklist-IsCalm :
      (group target : String) (s : Store)
      → IsCalm s₀ s.state
      → IsCalm s₀ (auto_blacklist json calls group target s).0.state
  auto_blacklist-IsCalm group target s c = record {
    normal = (auto_blacklist-Kept json calls group target s c.normal).holds;
    same = go.holds;
  }
    where
      go : Stays (SameRoles s₀) (auto_blacklist json calls group target s)
      go =
          unfold auto_blacklist in
          Stays-if _ (Stays-same c.same)
            (Stays-commit json calls s _ (with_blacklist-SameRoles s₀ _ s.state c.same))

  expire_room-SameRoles :
      (group : String) (room : Option GroupState) (s : Store)
      → SameRoles s₀ s.state
      → Stays (SameRoles s₀) (expire_room json calls group room s, tt {0})
  unfolding expire_room
  expire_room-SameRoles group none s h = Stays-same h
  expire_room-SameRoles group (some room) s h = elim (Option-cases room.war) [
    | inl e ↦ rw (e, expire_room) (Stays-same h)
    | inr (w, e) ↦ elim (Bool-cases w.enabled) [
      | inl on ↦
          rw (e, expire_room)
            (rw on (Stays-commit_with json calls s _ _ (with_war-SameRoles s₀ group _ s.state h)))
      | inr off ↦ rw (e, expire_room) (rw off (Stays-same h))
    ]
  ]

  pub war_active-IsCalm :
      (now : ℕ) (group : String) (s : Store)
      → IsCalm s₀ s.state
      → IsCalm s₀ (war_active json calls now group s).0.state
  unfolding war_active expire_war
  war_active-IsCalm now group s c =
      elim (Bool-cases ((war group s.state).enabled && is_over now (war group s.state).until)) [
        | inl over ↦
            rw (over, war_active)
              (record {
                normal =
                    (expire_room-Kept json calls group (get_group group s.state.groups) s
                      c.normal).holds;
                same =
                    (expire_room-SameRoles group (get_group group s.state.groups) s c.same).holds;
              })
        | inr going ↦ rw (going, war_active) c
      ]

  pub activate_war_auto-IsCalm :
      (now : ℕ) (group reason : String) (s : Store)
      → IsCalm s₀ s.state
      → IsCalm s₀ (activate_war_auto json calls now group reason s).0.state
  activate_war_auto-IsCalm now group reason s c = record {
    normal = (activate_war_auto-Kept json calls now group reason s c.normal).holds;
    same = go.holds;
  }
    where
      go : Stays (SameRoles s₀) (activate_war_auto json calls now group reason s)
      go =
          unfold activate_war_auto in
          Stays-if _ (Stays-same (with_war-SameRoles s₀ group _ s.state c.same))
            (Stays-commit json calls s _ (with_war-SameRoles s₀ group _ s.state c.same))

  record_reader-SameRoles :
      (group mid : String) (s : Store)
      → SameRoles s₀ s.state
      → Stays (SameRoles s₀) (record_reader group mid s)
  unfolding record_reader
  record_reader-SameRoles group mid s h = elim (Option-cases (get_group group s.state.groups)) [
    | inl e ↦ rw (e, record_reader) (Stays-same h)
    | inr (room, e) ↦
        rw (e, record_reader)
          (Stays-if (not room.lurk || str_eq mid "" || contains room.readers mid) (Stays-same h)
            (Stays-same (update_group-SameRoles s₀ group _ s.state (λ r. refl) h)))
  ]

  pub record_reader-IsCalm :
      (group mid : String) (s : Store)
      → IsCalm s₀ s.state
      → IsCalm s₀ (record_reader group mid s).0.state
  record_reader-IsCalm group mid s c = record {
    normal = (record_reader-Kept json calls group mid s c.normal).holds;
    same = (record_reader-SameRoles group mid s c.same).holds;
  }

  -- A client that is registered already changes nothing.
  pub register_bot-registered :
      (mid : String) (s : Store)
      → contains s.state.bots mid ≡ true
      → register_bot json calls mid s ≡ (s, none)
  unfolding register_bot
  register_bot-registered mid s h = elim (Bool-cases (str_eq mid "")) [
    | inl e ↦ rw e
    | inr e ↦ rw (e, h)
  ]

-- A group admin is no bot.
pub gadmin-not_bot :
    (s : State) (group m : String)
    → IsNormal s
    → (rank (role s group m) == rank gadmin) ≡ true
    → contains s.bots m ≡ false
unfolding role rank
gadmin-not_bot s group m n h = ground (
  arith,
  gadmin-not_protected s group m n,
  contains-append s.bots (s.owners ++ (s.admins ++ s.creators)) m,
)

-- Whoever is blacklisted is no bot and at most a group admin.
pub blacklisted-low :
    (s : State) (group m : String)
    → IsNormal s
    → contains s.blacklist m ≡ true
    → (contains s.bots m ≡ false) × (rank (role s group m) ≤ 1)
unfolding role rank
blacklisted-low s group m n h = ground (
  arith,
  n.blacklist_apart m h,
  contains-append s.bots (s.owners ++ (s.admins ++ s.creators)) m,
  contains-append s.owners (s.admins ++ s.creators) m,
  contains-append s.admins s.creators m,
)
