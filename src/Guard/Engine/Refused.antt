-- ===== src/Guard/Engine/Refused.antt =====
-- What the methods of the guard's store refuse to somebody without a role.
use line_go.Common.{◌≤◌, ◌<◌, String, false, none, some, ◌≡◌, refl, arith, Bool-cases, inl, inr}
use line_go.Files.{ReadResult}
use line_go.Guard.Lists.{contains}
use line_go.Guard.Store.{State, Role, admin, rank, role, no_permission}
use line_go.Guard.Store.Persist.{Json, Calls, Store, restore}
use line_go.Guard.Store.Roles.{
  refusal, mutate_role, add_gadmin, del_gadmin, add_creator, del_creator,
}
use line_go.Guard.Store.Blacklist.{add_blacklist}
use text.Mathlib.Text.{◌==◌ as str_eq}

-- Who has no role in a group is at most a group admin elsewhere.
pub role_elsewhere :
    (s : State) (group elsewhere m : String)
    → rank (role s group m) ≡ 0
    → rank (role s elsewhere m) ≤ 1
unfolding role rank
role_elsewhere s group elsewhere m h = ground arith

module _ (json : Json) (calls : Calls) (s : Store) where
  pub mutate_role-refused :
      (minimum : Role) (k actor target : String) (change : State → State)
      → rank (role s.state k actor) < rank minimum
      → mutate_role json calls minimum k actor target change s ≡ (s, some no_permission)
  unfolding mutate_role refusal
  mutate_role-refused minimum k actor target change h = ground arith

  pub add_gadmin-refused :
      (group actor target : String)
      → rank (role s.state group actor) ≡ 0
      → (add_gadmin json calls group actor target s).0 ≡ s
  unfolding add_gadmin
  add_gadmin-refused group actor target h = elim (Bool-cases (str_eq group "")) [
    | inl e ↦ rw e refl
    | inr e ↦
        rw e (
          rw (mutate_role-refused admin group actor target _ (unfold rank in omega (arith, h)))
            refl)
  ]

  pub del_gadmin-refused :
      (group actor target : String)
      → rank (role s.state group actor) ≡ 0
      → (del_gadmin json calls group actor target s).0 ≡ s
  unfolding del_gadmin
  del_gadmin-refused group actor target h = elim (Bool-cases (str_eq group "")) [
    | inl e ↦ rw e refl
    | inr e ↦
        rw e (
          rw (mutate_role-refused admin group actor target _ (unfold rank in omega (arith, h)))
            refl)
  ]

  pub add_creator-refused :
      (actor target : String)
      → rank (role s.state "" actor) ≤ 1
      → (add_creator json calls actor target s).0 ≡ s
  unfolding add_creator rank
  add_creator-refused actor target h = ground arith

  pub del_creator-refused :
      (actor target : String)
      → rank (role s.state "" actor) ≤ 1
      → (del_creator json calls actor target s).0 ≡ s
  unfolding del_creator rank
  del_creator-refused actor target h = ground arith

  pub restore-refused :
      (source : ReadResult) (actor : String)
      → rank (role s.state "" actor) ≤ 1
      → (restore json calls source actor s).0 ≡ s
  unfolding restore rank
  restore-refused source actor h = ground arith

  pub add_blacklist-unbot :
      (group actor target : String)
      → (add_blacklist json calls group actor target s).1 ≡ none
      → contains s.state.bots target ≡ false
  unfolding add_blacklist
  add_blacklist-unbot group actor target h = ground arith
