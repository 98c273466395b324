-- ===== src/Guard/Store/Steps.antt =====
-- Every method of the guard's store that changes it, as one step: the operations of guard/store.go
-- and those of guard/war.go on the store.
use line_go.Common.{ℕ, String, Bool, Option, List, [], ◌∷◌, ℤ}
use line_go.Guard.Store.{WarState, StoreError}
use line_go.Guard.Store.Persist.{Json, Calls, Store, ReadResult, restore, backup}
use line_go.Guard.Store.Roles.{
  add_owner, del_owner, add_admin, del_admin, add_gadmin, del_gadmin, add_creator, del_creator,
  bootstrap_creator, register_bot,
}
use line_go.Guard.Store.Blacklist.{add_blacklist, unban, clear_blacklist, auto_blacklist}
use line_go.Guard.Store.Settings.{
  Strings, record_reader, set_lurk, set_protection, set_reserve_plan, set_command_alias,
}
use line_go.Guard.War.{update_war, expire_war, activate_war_auto}

pub data Op : Type 0 where
  adds_owner dels_owner adds_admin dels_admin adds_creator dels_creator : String → String → Op
  adds_gadmin dels_gadmin blacklists unbans : String → String → String → Op
  bootstraps registers : String → Op
  clears auto_blacklists reads : String → String → Op
  lurks : String → String → Bool → Op
  protects : String → String → String → Bool → Op
  plans : String → String → ℤ → List String → Op
  aliases : Strings → String → String → String → Op
  backs_up : Bool → Option String → String → Op
  restores : ReadResult → String → Op
  updates_war : String → String → (WarState → WarState × Option StoreError) → Op
  expires_war : String → Op
  activates_war : ℕ → String → String → Op

module _ (json : Json) where
  unfoldable pub step : Calls → Op → Store → Store
  step calls (adds_owner actor target) s = (add_owner json calls actor target s).0
  step calls (dels_owner actor target) s = (del_owner json calls actor target s).0
  step calls (adds_admin actor target) s = (add_admin json calls actor target s).0
  step calls (dels_admin actor target) s = (del_admin json calls actor target s).0
  step calls (adds_creator actor target) s = (add_creator json calls actor target s).0
  step calls (dels_creator actor target) s = (del_creator json calls actor target s).0
  step calls (adds_gadmin group actor target) s = (add_gadmin json calls group actor target s).0
  step calls (dels_gadmin group actor target) s = (del_gadmin json calls group actor target s).0
  step calls (blacklists group actor target) s = (add_blacklist json calls group actor target s).0
  step calls (unbans group actor target) s = (unban json calls group actor target s).0
  step calls (bootstraps inviter) s = (bootstrap_creator json calls inviter s).0
  step calls (registers mid) s = (register_bot json calls mid s).0
  step calls (clears group actor) s = (clear_blacklist json calls group actor s).0
  step calls (auto_blacklists group target) s = (auto_blacklist json calls group target s).0
  step calls (reads group mid) s = (record_reader group mid s).0
  step calls (lurks group actor on) s = (set_lurk json calls group actor on s).0
  step calls (protects group actor scope on) s =
      (set_protection json calls group actor scope on s).0
  step calls (plans group actor count mids) s =
      (set_reserve_plan json calls group actor count mids s).0
  step calls (aliases strings actor command alias) s =
      (set_command_alias json calls strings actor command alias s).0
  step calls (backs_up written left actor) s = (backup json calls written left actor s).0
  step calls (restores source actor) s = (restore json calls source actor s).0
  step calls (updates_war group actor update) s = (update_war json calls group actor update s).0
  step calls (expires_war group) s = expire_war json calls group s
  step calls (activates_war now group reason) s =
      (activate_war_auto json calls now group reason s).0

  -- A history of a store: each method call with the outcomes of its system calls.
  unfoldable pub run : List (Calls × Op) → Store → Store
  run [] s = s
  run ((calls, op) ∷ rest) s = run rest (step calls op s)

  -- What every step keeps, every history keeps.
  pub run_induction {ℓ} :
      (P : Store → Type ℓ)
      → ((calls : Calls) (op : Op) (s : Store) → P s → P (step calls op s))
      → (history : List (Calls × Op)) (s : Store) → P s
      → P (run history s)
  unfolding run
  run_induction P keeps [] s h = h
  run_induction P keeps ((calls, op) ∷ rest) s h =
      run_induction P keeps rest (step calls op s) (keeps calls op s h)
