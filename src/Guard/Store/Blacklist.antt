-- ===== src/Guard/Store/Blacklist.antt =====
-- The methods of guard/store.go that change the blacklist.
use line_go.Common.{ℕ, String, Bool, not, ◌||◌, Option, none, some, [], length}
use line_go.Common.{leb, ltb, ◌==◌, if◌then◌else◌}
use line_go.Guard.Lists.{contains, append_unique, remove}
use line_go.Guard.Store.{
  user, gadmin, admin, rank, role, normalize, StoreError, no_permission, bad_target,
}
use line_go.Guard.Store.Persist.{Json, Calls, Store, commit}
use text.Mathlib.Text.{◌==◌ as str_eq}

unfoldable pub is_blacklisted : String → Store → Bool
is_blacklisted mid s = contains s.state.blacklist mid

module _ (json : Json) (calls : Calls) where
  unfoldable pub add_blacklist : String → String → String → Store → Store × Option StoreError
  add_blacklist group actor target s =
      if ltb (rank (role s.state group actor)) (rank admin)
      then (s, some no_permission)
      else if str_eq target ""
          || str_eq actor target
          || contains s.state.bots target
          || leb (rank (role s.state group actor)) (rank (role s.state group target))
      then (s, some bad_target)
      else commit json calls s
          (normalize (record s.state { blacklist = append_unique s.state.blacklist target }))

  unfoldable pub unban : String → String → String → Store → Store × Option StoreError
  unban group actor target s =
      if ltb (rank (role s.state group actor)) (rank gadmin)
      then (s, some no_permission)
      else commit json calls s (record s.state { blacklist = remove s.state.blacklist target })

  -- The number is that of the entries that were removed.
  unfoldable pub clear_blacklist : String → String → Store → Store × (ℕ × Option StoreError)
  clear_blacklist group actor s =
      if ltb (rank (role s.state group actor)) (rank admin)
      then (s, (0, some no_permission))
      else if length s.state.blacklist == 0
      then (s, (0, none))
      else let (s', e) = commit json calls s (record s.state { blacklist = [] }) in
        (s', (length s.state.blacklist, e))

  unfoldable pub auto_blacklist : String → String → Store → Store × Option StoreError
  auto_blacklist group target s =
      if str_eq target ""
        || contains s.state.bots target
        || not (rank (role s.state group target) == rank user)
      then (s, some bad_target)
      else commit json calls s
          (record s.state { blacklist = append_unique s.state.blacklist target })
