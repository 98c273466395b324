-- ===== src/Guard/Store/Invariant/Members.antt =====
-- The methods of guard/store.go that change who has a role or is on the blacklist keep the normal
-- form.
use line_go.Common.{
  String, true, false, not, ◌||◌, ◌≡◌, arith, [], ◌++◌, length, leb, ltb, ◌==◌, Option-cases, inl,
  inr,
}
use line_go.Guard.Lists.{contains, append_unique}
use line_go.Guard.Lists.Laws.{
  contains-append, contains-remove, remove-IsUnique, append_unique-IsUnique,
}
use line_go.Guard.Store.{Role, user, gadmin, admin, creator, rank, State, in_gadmins, role}
use line_go.Guard.Store.Persist.{Json, Calls, Store}
use line_go.Guard.Store.Roles.{
  refusal, mutate_role, add_gadmin, del_gadmin, add_creator, del_creator, bootstrap_creator,
  register_bot,
}
use line_go.Guard.Store.Blacklist.{add_blacklist, unban, clear_blacklist, auto_blacklist}
use line_go.Guard.Store.Normal.{
  IsNormal, protected, normalize-IsNormal, without_creator-IsNormal, with_blacklist-IsNormal,
  appended-Disjoint,
}
use line_go.Guard.Store.Stays.{
  Stays-same, Stays-if, Stays-if_by, Stays-commit, Stays-commit_with, Kept,
}
use text.Mathlib.Text.{◌==◌ as str_eq}

-- A user is on none of the lists that are protected.
user-not_protected :
    (s : State) (group mid : String)
    → str_eq mid "" ≡ false
    → contains s.bots mid ≡ false
    → (rank (role s group mid) == rank user) ≡ true
    → contains (protected s) mid ≡ false
unfolding role rank in_gadmins
user-not_protected s group mid full bot u = ground (
  arith,
  contains-append s.bots (s.owners ++ (s.admins ++ s.creators)) mid,
  contains-append s.owners (s.admins ++ s.creators) mid,
  contains-append s.admins s.creators mid,
)

-- The guard of `AutoBlacklist` as it is passed.
no_role :
    (s : State) (group target : String)
    → (str_eq target "" || contains s.bots target || not (rank (role s group target) == rank user))
      ≡ false
    → contains (protected s) target ≡ false
no_role s group target e =
    user-not_protected s group target (ground arith) (ground arith) (ground arith)

nil_empty : (m : String) → contains [] m ≡ true → ⊥
unfolding contains
nil_empty m h = cc

module _ (json : Json) (calls : Calls) where
  pub mutate_role-Kept :
      (minimum : Role) (group actor target : String) (change : State → State) (s : Store)
      → IsNormal s.state
      → Kept (mutate_role json calls minimum group actor target change s)
  unfolding mutate_role
  mutate_role-Kept minimum group actor target change s n =
      elim (Option-cases (refusal minimum group actor target s.state)) [
        | inl e ↦
            rw (e, mutate_role) (Stays-commit json calls s _ (normalize-IsNormal (change s.state)))
        | inr (x, e) ↦ rw (e, mutate_role) (Stays-same n)
      ]

  pub auto_blacklist-Kept :
      (group target : String) (s : Store)
      → IsNormal s.state
      → Kept (auto_blacklist json calls group target s)
  unfolding auto_blacklist
  auto_blacklist-Kept group target s n =
      Stays-if_by
        (str_eq target ""
          || contains s.state.bots target
          || not (rank (role s.state group target) == rank user))
        (λ e. Stays-same n)
        λ e. Stays-commit json calls s _ (
          with_blacklist-IsNormal (append_unique s.state.blacklist target) s.state n
            (append_unique-IsUnique s.state.blacklist target n.blacklist_unique)
            (appended-Disjoint s.state.blacklist (protected s.state) target n.blacklist_apart
              (no_role s.state group target e)))

  pub register_bot-Kept :
      (mid : String) (s : Store) → IsNormal s.state → Kept (register_bot json calls mid s)
  unfolding register_bot
  register_bot-Kept mid s n = Stays-if (str_eq mid "") (Stays-same n) (
      Stays-if (contains s.state.bots mid) (Stays-same n)
        (Stays-commit json calls s _ (normalize-IsNormal _)))

  pub bootstrap_creator-Kept :
      (mid : String) (s : Store) → IsNormal s.state → Kept (bootstrap_creator json calls mid s)
  unfolding bootstrap_creator
  bootstrap_creator-Kept mid s n = Stays-if (str_eq mid "") (Stays-same n) (
      Stays-if (not (length s.state.creators == 0)) (Stays-same n)
        (Stays-commit_with json calls s _ _ (normalize-IsNormal _)))

  pub unban-Kept :
      (group actor target : String) (s : Store)
      → IsNormal s.state
      → Kept (unban json calls group actor target s)
  unfolding unban
  unban-Kept group actor target s n =
      Stays-if (ltb (rank (role s.state group actor)) (rank gadmin)) (Stays-same n) (
        Stays-commit json calls s _ (
          with_blacklist-IsNormal _ s.state n
            (remove-IsUnique s.state.blacklist target n.blacklist_unique)
            λ m h.
              n.blacklist_apart m (ground (arith, contains-remove s.state.blacklist target m))))

  pub add_gadmin-Kept :
      (group actor target : String) (s : Store)
      → IsNormal s.state
      → Kept (add_gadmin json calls group actor target s)
  unfolding add_gadmin
  add_gadmin-Kept group actor target s n =
      Stays-if (str_eq group "") (Stays-same n) (mutate_role-Kept _ group actor target _ s n)

  pub del_gadmin-Kept :
      (group actor target : String) (s : Store)
      → IsNormal s.state
      → Kept (del_gadmin json calls group actor target s)
  unfolding del_gadmin
  del_gadmin-Kept group actor target s n =
      Stays-if (str_eq group "") (Stays-same n) (mutate_role-Kept _ group actor target _ s n)

  pub add_creator-Kept :
      (actor target : String) (s : Store)
      → IsNormal s.state
      → Kept (add_creator json calls actor target s)
  unfolding add_creator
  add_creator-Kept actor target s n =
      Stays-if (not (rank (role s.state "" actor) == rank creator)) (Stays-same n) (
        Stays-if (str_eq target "" || contains s.state.bots target) (Stays-same n)
          (Stays-commit json calls s _ (normalize-IsNormal _)))

  pub del_creator-Kept :
      (actor target : String) (s : Store)
      → IsNormal s.state
      → Kept (del_creator json calls actor target s)
  unfolding del_creator
  del_creator-Kept actor target s n =
      Stays-if (not (rank (role s.state "" actor) == rank creator)) (Stays-same n) (
        Stays-if
          (str_eq actor target
            || not (contains s.state.creators target)
            || leb (length s.state.creators) 1)
          (Stays-same n) (Stays-commit json calls s _ (without_creator-IsNormal target s.state n)))

  pub add_blacklist-Kept :
      (group actor target : String) (s : Store)
      → IsNormal s.state
      → Kept (add_blacklist json calls group actor target s)
  unfolding add_blacklist
  add_blacklist-Kept group actor target s n =
      Stays-if (ltb (rank (role s.state group actor)) (rank admin)) (Stays-same n) (
        Stays-if
          (str_eq target ""
            || str_eq actor target
            || contains s.state.bots target
            || leb (rank (role s.state group actor)) (rank (role s.state group target)))
          (Stays-same n) (Stays-commit json calls s _ (normalize-IsNormal _)))

  pub clear_blacklist-Kept :
      (group actor : String) (s : Store)
      → IsNormal s.state
      → Kept (clear_blacklist json calls group actor s)
  unfolding clear_blacklist
  clear_blacklist-Kept group actor s n =
      Stays-if (ltb (rank (role s.state group actor)) (rank admin)) (Stays-same n) (
        Stays-if (length s.state.blacklist == 0) (Stays-same n) (
          Stays-commit_with json calls s _ _
            (with_blacklist-IsNormal [] s.state n tt (λ m h. absurd (nil_empty m h)))))
