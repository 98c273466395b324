-- ===== src/Guard/Store/Invariant.antt =====
-- What every history of a store keeps: the normal form of its state.
pub mod Members
pub mod Settings
use line_go.Common.{
  ℕ, String, Bool, true, false, not, ◌&&◌, ◌||◌, Option, none, some, ◌≡◌, refl, arith, List, [],
  ◌∷◌, ◌++◌, length, leb, ltb, ◌==◌, ℤ, pos, negsuc, Option-cases, Bool-cases, inl, inr, take,
}
use line_go.Guard.Lists.{contains, append_unique, remove, unique}
use line_go.Guard.Lists.Laws.{
  contains-append, contains-remove, contains-append_unique, contains-empty, remove-IsUnique,
  append_unique-IsUnique,
}
use line_go.Guard.Store.{
  Role, user, gadmin, admin, owner, creator, rank, State, GroupState, WarState, in_gadmins,
  get_group, role, normalize, update_group, StoreError,
}
use line_go.Guard.Store.Persist.{
  Json, Calls, Store, ReadResult, missing, unreadable, content, empty_state, commit, commit-state,
  decode, backup, restore_state, restore_decoded, restore,
}
use line_go.Guard.Store.Roles.{
  refusal, mutate_role, add_owner, del_owner, add_admin, del_admin, add_gadmin, del_gadmin,
  add_creator, del_creator, bootstrap_creator, register_bot,
}
use line_go.Guard.Store.Blacklist.{add_blacklist, unban, clear_blacklist, auto_blacklist}
use line_go.Guard.Store.Settings.{
  Strings, set_scope, protection, with_protection, record_reader, set_lurk, set_protection,
  set_reserve_plan, set_command_alias,
}
use line_go.Guard.Store.Normal.{
  IsNormal, Disjoint, protected, normalize-IsNormal, update_group-IsNormal,
  without_creator-IsNormal, with_blacklist-IsNormal, appended-Disjoint, commands-IsNormal,
}
use line_go.Guard.Store.Stays.{
  Stays, Stays-same, Stays-if, Stays-if_by, Stays-commit, Stays-commit_with, Kept,
}
use line_go.Guard.Store.Steps.{Op, step, run, run_induction}
use line_go.Guard.War.{stored_war, with_war, update_war, expire_room, expire_war, activate_war_auto}
use text.Mathlib.Text.{◌==◌ as str_eq}
use line_go.Guard.Store.Invariant.Members.{
  mutate_role-Kept, auto_blacklist-Kept, register_bot-Kept, bootstrap_creator-Kept, unban-Kept,
  add_gadmin-Kept, del_gadmin-Kept, add_creator-Kept, del_creator-Kept, add_blacklist-Kept,
  clear_blacklist-Kept,
}
use line_go.Guard.Store.Invariant.Settings.{
  set_protection-Kept, set_reserve_plan-Kept, record_reader-Kept, backup-Kept, restore-Kept,
  update_war-Kept, expire_room-Kept, set_lurk-Kept, set_command_alias-Kept, activate_war_auto-Kept,
}

module _ (json : Json) (calls : Calls) where
  -- Every method keeps the normal form, whatever its arguments and its system calls do.
  step-IsNormal : (op : Op) (s : Store) → IsNormal s.state → IsNormal (step json calls op s).state
  unfolding step add_owner del_owner add_admin del_admin expire_war
  step-IsNormal (Op.adds_owner actor target) s n =
      (mutate_role-Kept json calls _ _ actor target _ s n).holds
  step-IsNormal (Op.dels_owner actor target) s n =
      (mutate_role-Kept json calls _ _ actor target _ s n).holds
  step-IsNormal (Op.adds_admin actor target) s n =
      (mutate_role-Kept json calls _ _ actor target _ s n).holds
  step-IsNormal (Op.dels_admin actor target) s n =
      (mutate_role-Kept json calls _ _ actor target _ s n).holds
  step-IsNormal (Op.adds_gadmin group actor target) s n =
      (add_gadmin-Kept json calls group actor target s n).holds
  step-IsNormal (Op.dels_gadmin group actor target) s n =
      (del_gadmin-Kept json calls group actor target s n).holds
  step-IsNormal (Op.adds_creator actor target) s n =
      (add_creator-Kept json calls actor target s n).holds
  step-IsNormal (Op.dels_creator actor target) s n =
      (del_creator-Kept json calls actor target s n).holds
  step-IsNormal (Op.blacklists group actor target) s n =
      (add_blacklist-Kept json calls group actor target s n).holds
  step-IsNormal (Op.unbans group actor target) s n =
      (unban-Kept json calls group actor target s n).holds
  step-IsNormal (Op.bootstraps inviter) s n = (bootstrap_creator-Kept json calls inviter s n).holds
  step-IsNormal (Op.registers mid) s n = (register_bot-Kept json calls mid s n).holds
  step-IsNormal (Op.clears group actor) s n =
      (clear_blacklist-Kept json calls group actor s n).holds
  step-IsNormal (Op.auto_blacklists group target) s n =
      (auto_blacklist-Kept json calls group target s n).holds
  step-IsNormal (Op.reads group mid) s n = (record_reader-Kept json calls group mid s n).holds
  step-IsNormal (Op.lurks group actor on) s n = (set_lurk-Kept json calls group actor on s n).holds
  step-IsNormal (Op.protects group actor scope on) s n =
      (set_protection-Kept json calls group actor scope on s n).holds
  step-IsNormal (Op.plans group actor count mids) s n =
      (set_reserve_plan-Kept json calls group actor count mids s n).holds
  step-IsNormal (Op.aliases strings actor command alias) s n =
      (set_command_alias-Kept json calls strings actor command alias s n).holds
  step-IsNormal (Op.backs_up written left actor) s n =
      (backup-Kept json calls written left actor s n).holds
  step-IsNormal (Op.restores source actor) s n = (restore-Kept json calls source actor s n).holds
  step-IsNormal (Op.updates_war group actor update) s n =
      (update_war-Kept json calls group actor update s n).holds
  step-IsNormal (Op.expires_war group) s n = (expire_room-Kept json calls group _ s n).holds
  step-IsNormal (Op.activates_war now group reason) s n =
      (activate_war_auto-Kept json calls now group reason s n).holds

-- A store whose state is normal keeps a normal state through every history of method calls,
-- whatever the callers ask for and whichever system calls fail.
pub run-IsNormal :
    (json : Json) (history : List (Calls × Op)) (s : Store)
    → IsNormal s.state
    → IsNormal (run json history s).state
run-IsNormal json history s n =
    run_induction json (λ s'. IsNormal s'.state)
      (λ calls op s' n'. step-IsNormal json calls op s' n') history s n
