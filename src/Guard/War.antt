-- ===== src/Guard/War.antt =====
-- guard/war.go: the war settings of a group in the store, and the counters and suspects that the
-- engine keeps of a war. Times are milliseconds; `now` is an argument.
pub mod Expiry
mod Runs
use line_go.Common.{ℕ, ◌+◌, ◌-◌, String, Bool, true, false, not, ◌&&◌, ◌||◌, Option, none, some}
use line_go.Common.{List, [], ◌∷◌, ltb, leb, ◌==◌, if◌then◌else◌, ℤ, pos, negsuc}
use line_go.Guard.Lists.{contains, unique}
use line_go.Guard.Store.{
  user, owner, rank, WarState, GroupState, State, get_group, or_new, update_group, role, StoreError,
  no_permission,
}
use line_go.Guard.Store.Persist.{Json, Calls, Store, commit}
use text.Mathlib.Text.{◌==◌ as str_eq}

abbrev pub default_war : WarState
default_war = record {
  enabled = false;
  level = pos 2;
  until = pos 0;
  auto = false;
  sensitivity = "medium";
  cooldown_sec = pos 120;
  locked = false;
  dry_run = false;
  whitelist = [];
  reason = "";
  started_by = "";
}

unfoldable pub or_default_war : Option WarState → WarState
or_default_war none = default_war
or_default_war (some w) = w

unfoldable pub or_level_two : ℤ → ℤ
or_level_two (pos n) = if n == 0 then pos 2 else pos n
or_level_two n = n

-- `War`: the stored settings, with defaults for a level 0 and an empty sensitivity.
unfoldable pub war : String → State → WarState
unfolding or_default_war or_level_two
war group s = elim (get_group group s.groups) [
  | none ↦ default_war
  | some room ↦ elim room.war [
    | none ↦ default_war
    | some w ↦ record w {
      level = or_level_two w.level;
      sensitivity = if str_eq w.sensitivity "" then "medium" else w.sensitivity;
    }
  ]
]

-- The group's settings as they are stored, made new where they are missing.
unfoldable pub stored_war : String → State → WarState
stored_war group s = or_default_war (or_new (get_group group s.groups)).war

unfoldable pub with_war : WarState → GroupState → GroupState
with_war w room = record room { war = some w }

-- `now >= until` for an `until` above 0.
unfoldable pub is_over : ℕ → ℤ → Bool
is_over now (pos until) = ltb 0 until && leb until now
is_over now (negsuc n) = false

unfoldable pub threshold : String → ℕ
threshold sensitivity =
    if str_eq sensitivity "low" then 8 else if str_eq sensitivity "high" then 3 else 5

-- How many of the audited events are at `cutoff` or later.
unfoldable pub recent : ℕ → List ℕ → ℕ
recent cutoff [] = 0
recent cutoff (at ∷ rest) =
    let more = recent cutoff rest in if leb cutoff at then more + 1 else more

-- The decision of `observeWarAuto`, over the times of the group's audited events.
unfoldable pub should_activate : ℕ → WarState → List ℕ → Bool
should_activate now w times =
    not (not w.auto || w.enabled) && leb (threshold w.sensitivity) (recent (now - 10_000) times)

unfoldable pub at_least_three : ℤ → Bool
at_least_three (pos n) = leb 3 n
at_least_three (negsuc n) = false

-- `warProtected`.
unfoldable pub war_protected : State → String → String → Bool
war_protected s group mid =
    contains s.bots mid
    || not (rank (role s group mid) == rank user)
    || contains (war group s).whitelist mid

-- The decision of `warJoinAction` to kick, over the end of the member's quarantine.
unfoldable pub kicks_joined : ℕ → WarState → ℕ → State → String → String → Bool
kicks_joined now w quarantine_until s group joined =
    not (war_protected s group joined)
    && (at_least_three w.level || ltb now quarantine_until)
    && not w.dry_run

module _ (json : Json) (calls : Calls) where
  -- The change may fail with an error of its own; the group and its settings exist by then.
  unfoldable pub update_war :
      String
      → String
      → (WarState → WarState × Option StoreError)
      → Store
      → Store × Option StoreError
  update_war group actor update s =
      if ltb (rank (role s.state group actor)) (rank owner)
      then (s, some no_permission)
      else elim (update (stored_war group s.state)).1 [
        | some e ↦ (
          record s {
            state = update_group group (with_war (update (stored_war group s.state)).0) s.state;
          },
          some e,
        )
        | none ↦
            let w = (update (stored_war group s.state)).0 in
            commit json calls s
              (update_group group (with_war (record w { whitelist = unique w.whitelist })) s.state)
      ]

  -- The error of the save is dropped.
  unfoldable pub expire_room : String → Option GroupState → Store → Store
  expire_room group none s = s
  expire_room group (some room) s = elim room.war [
    | none ↦ s
    | some w ↦
        if not w.enabled
        then s
        else (commit json calls s (
            update_group group (with_war (record w { enabled = false; locked = false })) s.state)).0
  ]

  unfoldable pub expire_war : String → Store → Store
  expire_war group s = expire_room group (get_group group s.state.groups) s

  unfoldable pub activate_war_auto : ℕ → String → String → Store → Store × Option StoreError
  activate_war_auto now group reason s =
      let w = stored_war group s.state in
      if not w.auto || w.enabled
      then (record s { state = update_group group (with_war w) s.state }, none)
      else commit json calls s (
          update_group group
            (with_war (record w {
              enabled = true;
              until = pos (now + 300_000);
              reason = reason;
              started_by = "auto";
            }))
            s.state)

  -- `warActive` expires a war that is over, and returns the settings with what is true of them now.
  unfoldable pub war_active : ℕ → String → Store → Store × WarState × Bool
  war_active now group s =
      let w = war group s.state in
      if w.enabled && is_over now w.until
      then (expire_war group s, record w { enabled = false }, false)
      else (s, w, w.enabled)
