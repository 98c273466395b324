-- ===== src/Common/Dict.antt =====
-- A Go map with keys of type string: the list of its entries, of which the first of a key counts.
-- A missing key is `none`; ranging over the map takes the order of the list.
use mathlib.Core.Path.{◌≡◌, refl}
use mathlib.Core.Bool.{Bool}
use mathlib.Core.Option.{Option, none, some}
use mathlib.Core.List.{List, [], ◌∷◌}
use native.Mathlib.Omega.{arith}
use line_go.Common.Tests.{if◌then◌else◌}
use Prim.Native.String.{String}
use text.Mathlib.Text.{◌==◌}
use text.Mathlib.TextEquality.{eq_iff}

module _ {V : Type 0} where
  unfoldable pub find_key : List (String × V) → String → Option V
  find_key [] key = none
  find_key ((other, value) ∷ rest) key = if other == key then some value else find_key rest key

  -- `m[key] = value`.
  unfoldable pub put_key : List (String × V) → String → V → List (String × V)
  put_key [] key value = (key, value) ∷ []
  put_key ((other, old) ∷ rest) key value =
      let later = put_key rest key value in
      if other == key then (other, value) ∷ rest else (other, old) ∷ later

  -- `delete(m, key)`.
  unfoldable pub drop_key : List (String × V) → String → List (String × V)
  drop_key [] key = []
  drop_key ((other, old) ∷ rest) key =
      let later = drop_key rest key in if other == key then later else (other, old) ∷ later

  -- The entries whose value passes the test.
  unfoldable pub keep_values : (V → Bool) → List (String × V) → List (String × V)
  keep_values test [] = []
  keep_values test ((key, value) ∷ rest) =
      let later = keep_values test rest in if test value then (key, value) ∷ later else later

  pub find_key-put_key :
      (m : List (String × V)) (key asked : String) (value : V)
      → find_key (put_key m key value) asked
        ≡ (if key == asked then some value else find_key m asked)
  unfolding find_key put_key
  find_key-put_key [] key asked value = refl
  find_key-put_key ((other, old) ∷ rest) key asked value = ground (
    arith,
    eq_iff other key,
    eq_iff key asked,
    eq_iff other asked,
    find_key-put_key rest key asked value,
  )
