-- ===== src/Guard/Lists.antt =====
-- The string lists of guard/store.go: `contains`, `appendUnique`, `unique`, `remove`, `removeMany`.
-- A slice is its list: the functions that write in place, `remove` and `removeMany`, are called
-- only on slices that no other field shares, and their result replaces the argument.
pub mod Laws
use line_go.Common.{String, Bool, true, false, not, ◌&&◌, ◌||◌, List, [], ◌∷◌, ◌++◌, if◌then◌else◌}
use text.Mathlib.Text.{◌==◌ as str_eq}

unfoldable pub contains : List String → String → Bool
contains [] target = false
contains (value ∷ values) target = str_eq value target || contains values target

unfoldable pub append_unique : List String → String → List String
append_unique values target =
    if not (str_eq target "") && not (contains values target) then values ++ target ∷ [] else values

unfoldable pub unique_from : List String → List String → List String
unique_from result [] = result
unique_from result (value ∷ values) = unique_from (append_unique result value) values

unfoldable pub unique : List String → List String
unfolding unique_from
unique values = unique_from [] values

unfoldable pub remove : List String → String → List String
remove [] target = []
remove (value ∷ values) target =
    let rest = remove values target in if str_eq value target then rest else value ∷ rest

unfoldable pub remove_many : List String → List String → List String
remove_many values [] = values
remove_many values (target ∷ targets) = remove_many (remove values target) targets
