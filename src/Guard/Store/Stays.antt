-- ===== src/Guard/Store/Stays.antt =====
-- A postcondition on the state that a method of the store leaves, with rules for how methods are
-- put together. Its proofs follow the methods' guards.
use line_go.Guard.Store.Normal.{IsNormal}
use line_go.Common.{Bool, true, false, ◌≡◌, refl, if◌then◌else◌}
use line_go.Guard.Store.{State}
use line_go.Guard.Store.Persist.{Json, Calls, Store, commit, commit-state}

pub record Stays {ℓ} (P : State → Type 0) {A : Type ℓ} (r : Store × A) : Type ℓ where
  pub holds : P r.0.state

module _ {ℓ} {P : State → Type 0} {A : Type ℓ} where
  pub Stays-same : {s : Store} {a : A} → P s.state → Stays P (s, a)
  Stays-same h = record { holds = h }

  pub Stays-if : (b : Bool) {x y : Store × A} → Stays P x → Stays P y → Stays P (if b then x else y)
  Stays-if true h k = h
  Stays-if false h k = k

  pub Stays-if_by :
      (b : Bool) {x y : Store × A}
      → (b ≡ true → Stays P x)
      → (b ≡ false → Stays P y)
      → Stays P (if b then x else y)
  Stays-if_by true h k = h refl
  Stays-if_by false h k = k refl

module _ {P : State → Type 0} (json : Json) (calls : Calls) where
  pub Stays-commit : (s : Store) (state : State) → P state → Stays P (commit json calls s state)
  Stays-commit s state h = record { holds = rw (commit-state json calls s state) h }

  -- The store of a commit beside another result.
  pub Stays-commit_with {ℓ} :
      {A : Type ℓ} (s : Store) (state : State) (a : A)
      → P state
      → Stays P ((commit json calls s state).0, a)
  Stays-commit_with s state a h = record { holds = rw (commit-state json calls s state) h }

-- The result of a method, with the error or value that it returns beside the store.
abbrev pub Kept {ℓ} : {A : Type ℓ} → Store × A → Type ℓ
Kept = Stays IsNormal
