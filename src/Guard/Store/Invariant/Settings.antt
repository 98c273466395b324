-- ===== src/Guard/Store/Invariant/Settings.antt =====
-- The methods of guard/store.go and guard/war.go that change a group's settings, and those that
-- save or restore the state, keep the normal form.
use line_go.Common.{
  ℕ, String, Bool, not, ◌&&◌, ◌||◌, Option, none, some, refl, List, length, ltb, ◌==◌, ℤ, pos,
  negsuc, Option-cases, Bool-cases, inl, inr,
}
use line_go.Guard.Lists.{contains}
use line_go.Guard.Store.{
  gadmin, admin, owner, creator, rank, State, GroupState, WarState, get_group, role, update_group,
  StoreError,
}
use line_go.Guard.Store.Persist.{
  Json, Calls, Store, ReadResult, missing, unreadable, content, backup, restore_state,
  restore_decoded, restore,
}
use line_go.Guard.Store.Settings.{
  Strings, set_scope, protection, with_protection, record_reader, set_lurk, set_protection,
  set_reserve_plan, set_command_alias,
}
use line_go.Guard.Store.Normal.{
  IsNormal, normalize-IsNormal, update_group-IsNormal, commands-IsNormal,
}
use line_go.Guard.Store.Stays.{Stays-same, Stays-if, Stays-commit, Stays-commit_with, Kept}
use line_go.Guard.War.{stored_war, with_war, update_war, expire_room, activate_war_auto}
use text.Mathlib.Text.{◌==◌ as str_eq}

module _ (json : Json) (calls : Calls) where
  pub set_protection-Kept :
      (group actor scope : String) (on : Bool) (s : Store)
      → IsNormal s.state
      → Kept (set_protection json calls group actor scope on s)
  unfolding set_protection with_protection
  set_protection-Kept group actor scope on s n =
      Stays-if (ltb (rank (role s.state group actor)) (rank admin)) (Stays-same n)
        (elim (Option-cases (set_scope scope on (protection group s))) [
          | inl e ↦ rw e (Stays-same (update_group-IsNormal group _ s.state (λ room. refl) n))
          | inr (p, e) ↦
              rw e (
                Stays-commit json calls s _
                  (update_group-IsNormal group _ s.state (λ room. refl) n))
        ])

  pub set_reserve_plan-Kept :
      (group actor : String) (count : ℤ) (mids : List String) (s : Store)
      → IsNormal s.state
      → Kept (set_reserve_plan json calls group actor count mids s)
  unfolding set_reserve_plan
  set_reserve_plan-Kept group actor (negsuc k) mids s n =
      Stays-if (ltb (rank (role s.state group actor)) (rank admin)) (Stays-same n) (Stays-same n)
  set_reserve_plan-Kept group actor (pos k) mids s n =
      Stays-if (ltb (rank (role s.state group actor)) (rank admin)) (Stays-same n) (
        Stays-if (ltb 2 k || ltb (length mids) k) (Stays-same n)
          (Stays-commit json calls s _ (update_group-IsNormal group _ s.state (λ room. refl) n)))

  pub record_reader-Kept :
      (group mid : String) (s : Store) → IsNormal s.state → Kept (record_reader group mid s)
  unfolding record_reader
  record_reader-Kept group mid s n = elim (Option-cases (get_group group s.state.groups)) [
    | inl e ↦ rw (e, record_reader) (Stays-same n)
    | inr (room, e) ↦
        rw (e, record_reader)
          (Stays-if (not room.lurk || str_eq mid "" || contains room.readers mid) (Stays-same n)
            (Stays-same (update_group-IsNormal group _ s.state (λ r. refl) n)))
  ]

  pub backup-Kept :
      (written : Bool) (left : Option String) (actor : String) (s : Store)
      → IsNormal s.state
      → Kept (backup json calls written left actor s)
  unfolding backup
  backup-Kept written left actor s n =
      Stays-if (not (rank (role s.state "" actor) == rank creator)) (Stays-same n)
        (elim (Option-cases (json.marshal s.state)) [
          | inl e ↦ rw e (Stays-same n)
          | inr (bytes, e) ↦ rw e (Stays-if written (Stays-same n) (Stays-same n))
        ])

  restored-Kept :
      (actor bytes : String) (s : Store) (decoded : Option (State × Bool))
      → IsNormal s.state
      → Kept (restore_decoded json calls actor decoded s)
  unfolding restore_decoded restore_state
  restored-Kept actor bytes s none n = Stays-same n
  restored-Kept actor bytes s (some (state, migrated)) n =
      Stays-if (not (contains state.creators actor)) (Stays-same n)
        (Stays-commit json calls s _ (normalize-IsNormal state))

  pub restore-Kept :
      (source : ReadResult) (actor : String) (s : Store)
      → IsNormal s.state
      → Kept (restore json calls source actor s)
  unfolding restore
  restore-Kept missing actor s n =
      Stays-if (not (rank (role s.state "" actor) == rank creator)) (Stays-same n) (Stays-same n)
  restore-Kept unreadable actor s n =
      Stays-if (not (rank (role s.state "" actor) == rank creator)) (Stays-same n) (Stays-same n)
  restore-Kept (content bytes) actor s n =
      Stays-if (not (rank (role s.state "" actor) == rank creator)) (Stays-same n)
        (restored-Kept actor bytes s _ n)

  war-IsNormal :
      (group : String) (w : WarState) (state : State)
      → IsNormal state
      → IsNormal (update_group group (with_war w) state)
  unfolding with_war
  war-IsNormal group w state n = update_group-IsNormal group (with_war w) state (λ room. refl) n

  pub update_war-Kept :
      (group actor : String) (update : WarState → WarState × Option StoreError) (s : Store)
      → IsNormal s.state
      → Kept (update_war json calls group actor update s)
  unfolding update_war
  update_war-Kept group actor update s n =
      Stays-if (ltb (rank (role s.state group actor)) (rank owner)) (Stays-same n)
        (elim (Option-cases (update (stored_war group s.state)).1) [
          | inl e ↦ rw e (Stays-commit json calls s _ (war-IsNormal group _ s.state n))
          | inr (x, e) ↦ rw e (Stays-same (war-IsNormal group _ s.state n))
        ])

  pub expire_room-Kept :
      (group : String) (room : Option GroupState) (s : Store)
      → IsNormal s.state
      → Kept (expire_room json calls group room s, tt {0})
  unfolding expire_room
  expire_room-Kept group none s n = Stays-same n
  expire_room-Kept group (some room) s n = elim (Option-cases room.war) [
    | inl e ↦ rw (e, expire_room) (Stays-same n)
    | inr (w, e) ↦ elim (Bool-cases w.enabled) [
      | inl on ↦
          rw (e, expire_room)
            (rw on (Stays-commit_with json calls s _ _ (war-IsNormal group _ s.state n)))
      | inr off ↦ rw (e, expire_room) (rw off (Stays-same n))
    ]
  ]

  pub set_lurk-Kept :
      (group actor : String) (on : Bool) (s : Store)
      → IsNormal s.state
      → Kept (set_lurk json calls group actor on s)
  unfolding set_lurk
  set_lurk-Kept group actor on s n =
      Stays-if (ltb (rank (role s.state group actor)) (rank gadmin)) (Stays-same n)
        (Stays-commit json calls s _ (update_group-IsNormal group _ s.state (λ room. refl) n))

  pub set_command_alias-Kept :
      (strings : Strings) (actor command alias : String) (s : Store)
      → IsNormal s.state
      → Kept (set_command_alias json calls strings actor command alias s)
  unfolding set_command_alias
  set_command_alias-Kept strings actor command alias s n =
      Stays-if (ltb (rank (role s.state "" actor)) (rank admin)) (Stays-same n) (
        Stays-if (not (str_eq command "kick") && not (str_eq command "kickall")) (Stays-same n) (
          Stays-if (str_eq (strings.clean alias) "" || strings.has_line_break (strings.clean alias))
            (Stays-same n) (Stays-commit json calls s _ (commands-IsNormal _ s.state n))))

  pub activate_war_auto-Kept :
      (now : ℕ) (group reason : String) (s : Store)
      → IsNormal s.state
      → Kept (activate_war_auto json calls now group reason s)
  unfolding activate_war_auto
  activate_war_auto-Kept now group reason s n =
      Stays-if (not (stored_war group s.state).auto || (stored_war group s.state).enabled)
        (Stays-same (war-IsNormal group _ s.state n))
        (Stays-commit json calls s _ (war-IsNormal group _ s.state n))
