-- ===== src/Guard/Lists/Laws.antt =====
-- Which members the list functions of guard/store.go keep, and that they repeat none.
use line_go.Common.{String, true, false, not, ◌&&◌, ◌||◌, List, [], ◌∷◌, ◌++◌}
use line_go.Common.{◌≡◌, refl, arith}
use line_go.Guard.Lists.{contains, append_unique, unique_from, unique, remove, remove_many}
use text.Mathlib.Text.{◌==◌ as str_eq}
use text.Mathlib.TextEquality.{eq_iff}

pub str_eq_refl : (s : String) → str_eq s s ≡ true
str_eq_refl s = (eq_iff s s).1 refl

str_eq_sym : (s t : String) → str_eq s t ≡ str_eq t s
str_eq_sym s t = ground (arith, eq_iff s t, eq_iff t s)

pub contains-append :
    (xs ys : List String) (m : String) → contains (xs ++ ys) m ≡ (contains xs m || contains ys m)
unfolding contains
contains-append [] ys m = refl
contains-append (x ∷ xs) ys m = ground (arith, contains-append xs ys m)

pub contains-remove :
    (xs : List String) (t m : String)
    → contains (remove xs t) m ≡ (contains xs m && not (str_eq t m))
unfolding contains remove
contains-remove [] t m = refl
contains-remove (x ∷ xs) t m =
    ground (arith, contains-remove xs t m, eq_iff x t, eq_iff x m, eq_iff t m)

pub contains-remove_many :
    (xs ts : List String) (m : String)
    → contains (remove_many xs ts) m ≡ (contains xs m && not (contains ts m))
unfolding contains remove_many
contains-remove_many xs [] m = ground arith
contains-remove_many xs (t ∷ ts) m =
    ground (arith, contains-remove_many (remove xs t) ts m, contains-remove xs t m)

pub contains-append_unique :
    (xs : List String) (t m : String)
    → contains (append_unique xs t) m ≡ (contains xs m || (not (str_eq t "") && str_eq t m))
unfolding contains append_unique
contains-append_unique xs t m = ground (arith, contains-append xs (t ∷ []) m, eq_iff t m)

contains-unique_from :
    (acc xs : List String) (m : String)
    → contains (unique_from acc xs) m ≡ (contains acc m || (contains xs m && not (str_eq m "")))
unfolding contains unique_from
contains-unique_from acc [] m = ground arith
contains-unique_from acc (x ∷ xs) m = ground (
  arith,
  contains-unique_from (append_unique acc x) xs m,
  contains-append_unique acc x m,
  eq_iff x m,
  eq_iff x "",
  eq_iff m "",
)

pub contains-unique :
    (xs : List String) (m : String) → contains (unique xs) m ≡ (contains xs m && not (str_eq m ""))
unfolding unique contains
contains-unique xs m = contains-unique_from [] xs m

-- No member stands twice, and none is empty.
abbrev pub IsUnique : List String → Type 0
IsUnique [] = Unit
IsUnique (x ∷ xs) = (contains xs x ≡ false) × (str_eq x "" ≡ false) × IsUnique xs

pub remove-IsUnique : (xs : List String) (t : String) → IsUnique xs → IsUnique (remove xs t)
unfolding remove
remove-IsUnique [] t h = h
remove-IsUnique (x ∷ xs) t h = ground (arith, remove-IsUnique xs t h.2, contains-remove xs t x)

pub remove_many-IsUnique : (xs ts : List String) → IsUnique xs → IsUnique (remove_many xs ts)
unfolding remove_many
remove_many-IsUnique xs [] h = h
remove_many-IsUnique xs (t ∷ ts) h = remove_many-IsUnique (remove xs t) ts (remove-IsUnique xs t h)

append-IsUnique :
    (xs : List String) (t : String)
    → IsUnique xs
    → contains xs t ≡ false
    → str_eq t "" ≡ false
    → IsUnique (xs ++ t ∷ [])
unfolding contains
append-IsUnique [] t h fresh full = (refl, full, tt)
append-IsUnique (x ∷ xs) t h fresh full =
    ground (arith, append-IsUnique xs t h.2, contains-append xs (t ∷ []) x, str_eq_sym t x)

pub append_unique-IsUnique :
    (xs : List String) (t : String) → IsUnique xs → IsUnique (append_unique xs t)
unfolding append_unique
append_unique-IsUnique xs t h = ground (arith, append-IsUnique xs t h)

unique_from-IsUnique : (acc xs : List String) → IsUnique acc → IsUnique (unique_from acc xs)
unfolding unique_from
unique_from-IsUnique acc [] h = h
unique_from-IsUnique acc (x ∷ xs) h =
    unique_from-IsUnique (append_unique acc x) xs (append_unique-IsUnique acc x h)

pub unique-IsUnique : (xs : List String) → IsUnique (unique xs)
unfolding unique
unique-IsUnique xs = unique_from-IsUnique [] xs tt

pub contains-empty : (xs : List String) → IsUnique xs → contains xs "" ≡ false
unfolding contains
contains-empty [] h = refl
contains-empty (x ∷ xs) h = ground (arith, contains-empty xs h.2)
