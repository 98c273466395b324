-- ===== src/Guard/Engine/CalmStores.antt =====
-- The methods of the guard's store that a text command calls, and what becomes of the roles.
use line_go.Common.{
  ℕ, String, Bool, false, not, ◌&&◌, ◌||◌, Option, none, ◌≡◌, refl, sym, ◌∙◌, arith, List, [], ◌∷◌,
  length, ◌==◌, ltb, leb, Option-cases, Bool-cases, inl, inr, pos,
}
use line_go.Guard.Lists.{contains, unique}
use line_go.Guard.Lists.Laws.{contains-unique, IsUnique}
use line_go.Guard.Store.{State, WarState, admin, rank, role, normalize, creator}
use line_go.Guard.Store.Persist.{Json, Calls, Store, backup}
use line_go.Guard.Store.Blacklist.{add_blacklist, unban, clear_blacklist}
use line_go.Guard.Store.Settings.{
  Strings, set_lurk, set_protection, set_scope, set_reserve_plan, set_command_alias, protection,
  with_protection,
}
use line_go.Guard.Store.Authority.{role-normalize}
use line_go.Guard.Store.Stays.{Stays, Stays-same, Stays-if, Stays-commit, Stays-commit_with, Kept}
use line_go.Guard.Store.Invariant.Members.{add_blacklist-Kept, unban-Kept, clear_blacklist-Kept}
use line_go.Guard.Store.Invariant.Settings.{
  set_protection-Kept, set_reserve_plan-Kept, backup-Kept, update_war-Kept, set_lurk-Kept,
  set_command_alias-Kept,
}
use line_go.Guard.War.{update_war}
use line_go.Guard.Engine.Calm.{
  SameRoles, IsCalm, update_group-SameRoles, with_war-SameRoles, with_blacklist-SameRoles,
}
use text.Mathlib.TextEquality.{eq_iff}
use text.Mathlib.Text.{◌==◌ as str_eq}

calm :
    {A : Type 0} {s₀ : State} {r : Store × A}
    → Kept r
    → Stays (SameRoles s₀) r
    → IsCalm s₀ r.0.state
calm kept same = record { normal = kept.holds; same = same.holds }

normalize-SameRoles :
    (s₀ s : State)
    → ((m : String) → contains (unique s.bots) m ≡ contains s.bots m)
    → SameRoles s₀ s
    → SameRoles s₀ (normalize s)
normalize-SameRoles s₀ s once h = record {
  bots = λ m. unfold normalize in (once m ∙ h.bots m);
  roles = λ group m bot. role-normalize s group m (h.bots m ∙ bot) ∙ h.roles group m bot;
}

with_commands-SameRoles :
    (s₀ : State) (commands : List (String × String)) (s : State)
    → SameRoles s₀ s
    → SameRoles s₀ (record s { commands = commands })
unfolding role
with_commands-SameRoles s₀ commands s h = record { bots = h.bots; roles = h.roles }

full-IsUnique : (xs : List String) → IsUnique xs → contains xs "" ≡ false
unfolding contains
full-IsUnique [] h = refl
full-IsUnique (x ∷ xs) h = ground (arith, full-IsUnique xs h.2)

contains-unique_same :
    (xs : List String) → IsUnique xs → (m : String) → contains (unique xs) m ≡ contains xs m
contains-unique_same xs h m = elim (Bool-cases (str_eq m "")) [
  | inl e ↦
      rw ((eq_iff m "").0 e)
        (contains-unique xs "" ∙ rw (full-IsUnique xs h) refl ∙ sym (full-IsUnique xs h))
  | inr e ↦ contains-unique xs m ∙ rw e (ground arith)
]

module _ (json : Json) (calls : Calls) (s₀ : State) where
  pub set_lurk-IsCalm :
      (group actor : String) (on : Bool) (s : Store)
      → IsCalm s₀ s.state
      → IsCalm s₀ (set_lurk json calls group actor on s).0.state
  unfolding set_lurk
  set_lurk-IsCalm group actor on s c =
      calm (set_lurk-Kept json calls group actor on s c.normal) same
    where
      same : Stays (SameRoles s₀) (set_lurk json calls group actor on s)
      same = Stays-if _ (Stays-same c.same) (
          Stays-commit json calls s _
            (update_group-SameRoles s₀ group _ s.state (λ room. refl) c.same))

  pub set_reserve_plan-IsCalm :
      (group actor : String) (count : ℕ) (mids : List String) (s : Store)
      → IsCalm s₀ s.state
      → IsCalm s₀ (set_reserve_plan json calls group actor (pos count) mids s).0.state
  unfolding set_reserve_plan
  set_reserve_plan-IsCalm group actor count mids s c =
      calm (set_reserve_plan-Kept json calls group actor (pos count) mids s c.normal) same
    where
      same : Stays (SameRoles s₀) (set_reserve_plan json calls group actor (pos count) mids s)
      same = Stays-if (ltb (rank (role s.state group actor)) (rank admin)) (Stays-same c.same) (
          Stays-if (ltb 2 count || ltb (length mids) count) (Stays-same c.same) (
            Stays-commit json calls s _
              (update_group-SameRoles s₀ group _ s.state (λ room. refl) c.same)))

  pub set_command_alias-IsCalm :
      (strings : Strings) (actor command alias : String) (s : Store)
      → IsCalm s₀ s.state
      → IsCalm s₀ (set_command_alias json calls strings actor command alias s).0.state
  unfolding set_command_alias
  set_command_alias-IsCalm strings actor command alias s c =
      calm (set_command_alias-Kept json calls strings actor command alias s c.normal) same
    where
      same : Stays (SameRoles s₀) (set_command_alias json calls strings actor command alias s)
      same = Stays-if (ltb (rank (role s.state "" actor)) (rank admin)) (Stays-same c.same) (
          Stays-if (not (str_eq command "kick") && not (str_eq command "kickall"))
            (Stays-same c.same)
            (Stays-if
              (str_eq (strings.clean alias) "" || strings.has_line_break (strings.clean alias))
              (Stays-same c.same)
              (Stays-commit json calls s _ (with_commands-SameRoles s₀ _ s.state c.same))))

  pub unban-IsCalm :
      (group actor target : String) (s : Store)
      → IsCalm s₀ s.state
      → IsCalm s₀ (unban json calls group actor target s).0.state
  unfolding unban
  unban-IsCalm group actor target s c =
      calm (unban-Kept json calls group actor target s c.normal) same
    where
      same : Stays (SameRoles s₀) (unban json calls group actor target s)
      same =
          Stays-if _ (Stays-same c.same)
            (Stays-commit json calls s _ (with_blacklist-SameRoles s₀ _ s.state c.same))

  pub clear_blacklist-IsCalm :
      (group actor : String) (s : Store)
      → IsCalm s₀ s.state
      → IsCalm s₀ (clear_blacklist json calls group actor s).0.state
  unfolding clear_blacklist
  clear_blacklist-IsCalm group actor s c =
      calm (clear_blacklist-Kept json calls group actor s c.normal) same
    where
      same : Stays (SameRoles s₀) (clear_blacklist json calls group actor s)
      same = Stays-if (ltb (rank (role s.state group actor)) (rank admin)) (Stays-same c.same) (
          Stays-if (length s.state.blacklist == 0) (Stays-same c.same)
            (Stays-commit_with json calls s _ _ (with_blacklist-SameRoles s₀ _ s.state c.same)))

  pub add_blacklist-IsCalm :
      (group actor target : String) (s : Store)
      → IsCalm s₀ s.state
      → IsCalm s₀ (add_blacklist json calls group actor target s).0.state
  unfolding add_blacklist
  add_blacklist-IsCalm group actor target s c =
      calm (add_blacklist-Kept json calls group actor target s c.normal) same
    where
      same : Stays (SameRoles s₀) (add_blacklist json calls group actor target s)
      same = Stays-if (ltb (rank (role s.state group actor)) (rank admin)) (Stays-same c.same) (
          Stays-if
            (str_eq target ""
              || str_eq actor target
              || contains s.state.bots target
              || leb (rank (role s.state group actor)) (rank (role s.state group target)))
            (Stays-same c.same)
            (Stays-commit json calls s _ (
              normalize-SameRoles s₀ _ (contains-unique_same s.state.bots c.normal.bots_unique)
                (with_blacklist-SameRoles s₀ _ s.state c.same))))

  pub backup-IsCalm :
      (written : Bool) (left : Option String) (actor : String) (s : Store)
      → IsCalm s₀ s.state
      → IsCalm s₀ (backup json calls written left actor s).0.state
  unfolding backup
  backup-IsCalm written left actor s c =
      calm (backup-Kept json calls written left actor s c.normal) same
    where
      same : Stays (SameRoles s₀) (backup json calls written left actor s)
      same =
          Stays-if (not (rank (role s.state "" actor) == rank creator)) (Stays-same c.same)
            (elim (Option-cases (json.marshal s.state)) [
              | inl e ↦ rw e (Stays-same c.same)
              | inr (bytes, e) ↦ rw e (Stays-if written (Stays-same c.same) (Stays-same c.same))
            ])

  pub set_protection-IsCalm :
      (group actor scope : String) (on : Bool) (s : Store)
      → IsCalm s₀ s.state
      → IsCalm s₀ (set_protection json calls group actor scope on s).0.state
  unfolding set_protection with_protection
  set_protection-IsCalm group actor scope on s c =
      calm (set_protection-Kept json calls group actor scope on s c.normal) same
    where
      same : Stays (SameRoles s₀) (set_protection json calls group actor scope on s)
      same =
          Stays-if (ltb (rank (role s.state group actor)) (rank admin)) (Stays-same c.same)
            (elim (Option-cases (set_scope scope on (protection group s))) [
              | inl e ↦
                  rw e
                    (Stays-same (update_group-SameRoles s₀ group _ s.state (λ room. refl) c.same))
              | inr (p, e) ↦ rw e (
                  Stays-commit json calls s _
                    (update_group-SameRoles s₀ group _ s.state (λ room. refl) c.same))
            ])

  pub update_war-IsCalm :
      (group actor : String) (change : WarState → WarState) (s : Store)
      → IsCalm s₀ s.state
      → IsCalm s₀ (update_war json calls group actor (λ w. (change w, none)) s).0.state
  unfolding update_war
  update_war-IsCalm group actor change s c =
      calm (update_war-Kept json calls group actor (λ w. (change w, none)) s c.normal) same
    where
      same : Stays (SameRoles s₀) (update_war json calls group actor (λ w. (change w, none)) s)
      same =
          Stays-if _ (Stays-same c.same)
            (Stays-commit json calls s _ (with_war-SameRoles s₀ group _ s.state c.same))
