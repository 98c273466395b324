-- ===== src/Client/Revisions.antt =====
-- The revisions that `SyncOnce` of client/client.go reads from a response, and its operations.
use line_go.Common.{
  ℕ, String, true, false, Option, none, some, ◌≡◌, refl, arith, List, [], ◌∷◌, ◌⊎◌, inl, inr,
  Bool-cases, Option-cases, ℤ, pos, negsuc,
}
use line_go.Storage.{SyncState}
use line_go.Protocol.Value.{Items, no_items, item, Members}
use line_go.Client.Models.{Operation, find_member, members_of, items_of, parse_operation}
use line_go.Client.Sync.{
  is_below, later_revision, collect, read_operations, read_full, read_response,
}

is_below_refl : (m : ℤ) → is_below m m ≡ false
unfolding is_below
is_below_refl (pos n) = ground arith
is_below_refl (negsuc n) = ground arith

not_below_trans : (k m n : ℤ) → is_below m k ≡ false → is_below n m ≡ false → is_below n k ≡ false
unfolding is_below
not_below_trans (pos k) (pos m) (pos n) h l = ground arith
not_below_trans (pos k) (pos m) (negsuc n) h l = ground arith
not_below_trans (pos k) (negsuc m) (pos n) h l = ground arith
not_below_trans (pos k) (negsuc m) (negsuc n) h l = ground arith
not_below_trans (negsuc k) (pos m) (pos n) h l = ground arith
not_below_trans (negsuc k) (pos m) (negsuc n) h l = ground arith
not_below_trans (negsuc k) (negsuc m) (pos n) h l = ground arith
not_below_trans (negsuc k) (negsuc m) (negsuc n) h l = ground arith

is_below_asym : (m n : ℤ) → is_below m n ≡ true → is_below n m ≡ false
unfolding is_below
is_below_asym (pos m) (pos n) h = ground arith
is_below_asym (pos m) (negsuc n) h = ground arith
is_below_asym (negsuc m) (pos n) h = ground arith
is_below_asym (negsuc m) (negsuc n) h = ground arith

later_revision-bounds :
    (known revision : ℤ)
    → (is_below (later_revision known revision) known ≡ false)
      × (is_below (later_revision known revision) revision ≡ false)
unfolding later_revision
later_revision-bounds known revision = elim (Bool-cases (is_below known revision)) [
  | inl e ↦ rw e (is_below_asym known revision e, is_below_refl revision)
  | inr e ↦ rw e (is_below_refl known, e)
]

-- No operation is newer than a revision.
abbrev pub AllUpTo : ℤ → List Operation → Type 0
AllUpTo revision [] = Unit
AllUpTo revision (operation ∷ operations) =
    (is_below revision operation.revision ≡ false) × AllUpTo revision operations

collect-AllUpTo :
    (string : List ℕ → String) (known : ℤ) (vs : Items)
    → (is_below (collect string known vs).0 known ≡ false)
      × AllUpTo (collect string known vs).0 (collect string known vs).1
unfolding collect
collect-AllUpTo string known no_items = (is_below_refl known, tt)
collect-AllUpTo string known (item v vs) = elim (Option-cases (parse_operation string v)) [
  | inl e ↦ rw (e, collect) (collect-AllUpTo string known vs)
  | inr (operation, e) ↦
      let (newer, all) = collect-AllUpTo string (later_revision known operation.revision) vs in
      let (one, two) = later_revision-bounds known operation.revision in
      let top = (collect string (later_revision known operation.revision) vs).0 in
      let later = later_revision known operation.revision in
      rw (e, collect)
        (
          not_below_trans known later top one newer,
          (not_below_trans operation.revision later top two newer, all),
        )
]

-- The operations of a response are at most as new as its revision, and it is at least the one before
-- unless the response has no operations.
pub read_response-bounds :
    (string : List ℕ → String) (state : SyncState) (response : Members)
    → AllUpTo
        (read_response string state response).state.revision
        (read_response string state response).operations
      × (((read_response string state response).operations ≡ [])
          ⊎ (is_below (read_response string state response).state.revision state.revision ≡ false))
unfolding read_response read_operations
read_response-bounds string state response =
    elim (Option-cases (members_of (find_member 1 response))) [
      | inl e ↦ rw (e, read_response) (full (members_of (find_member 2 response)))
      | inr (operations, e) ↦
          let (newer, all) =
            collect-AllUpTo string state.revision (items_of (find_member 1 operations)) in
          rw (e, read_response) (all, inr newer)
    ]
  where
    full :
        (o : Option Members)
        → AllUpTo (read_full state o).state.revision (read_full state o).operations
          × (((read_full state o).operations ≡ [])
              ⊎ (is_below (read_full state o).state.revision state.revision ≡ false))
    full none = unfold read_full in (tt, inl refl)
    full (some content) = unfold read_full in (tt, inl refl)
