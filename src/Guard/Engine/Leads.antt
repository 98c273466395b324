-- ===== src/Guard/Engine/Leads.antt =====
-- A pre- and a postcondition of an action of the engine, and of its result, with rules for how
-- actions are put together.
use line_go.Common.{Bool, true, false, Option, none, some, ◌≡◌, refl, if◌then◌else◌}
use line_go.Guard.Engine.{Engine, M, ◌>>=◌, pure, gets, modify}

pub record Leads {A : Type 0} (P R : Engine → Type 0) (Q : A → Type 0) (m : M A) : Type 0 where
  pub leads : (e : Engine) → P e → R (m e).0 × Q (m e).1

module _ {A : Type 0} {P R : Engine → Type 0} {Q : A → Type 0} where
  pub Leads-if :
      (b : Bool) {m n : M A}
      → (b ≡ true → Leads P R Q m)
      → (b ≡ false → Leads P R Q n)
      → Leads P R Q (if b then m else n)
  Leads-if true h k = h refl
  Leads-if false h k = k refl

  pub Leads-option :
      {X : Type 0} (o : Option X) {m : M A} {f : X → M A}
      → Leads P R Q m
      → ((x : X) → Leads P R Q (f x))
      → Leads P R Q (elim o [ none ↦ m | some x ↦ f x ])
  Leads-option none h k = h
  Leads-option (some x) h k = k x

pub Leads-pure :
    {A : Type 0} {P : Engine → Type 0} {Q : A → Type 0} (a : A) → Q a → Leads P P Q (pure a)
unfolding pure
Leads-pure a q = record { leads = λ e p. (p, q) }

pub Leads-bind :
    {A B : Type 0} {P P' R : Engine → Type 0} {Q : A → Type 0} {Q' : B → Type 0} {m : M A}
    {f : A → M B}
    → Leads P P' Q m
    → ((a : A) → Q a → Leads P' R Q' (f a))
    → Leads P R Q' (m >>= f)
unfolding ◌>>=◌
Leads-bind {m} h k = record {
  leads = λ e p. let (p', q) = h.leads e p in (k (m e).1 q).leads (m e).0 p';
}

pub Leads-loosen :
    {A : Type 0} {P R R' : Engine → Type 0} {Q Q' : A → Type 0} {m : M A}
    → ((e : Engine) → R e → R' e)
    → ((a : A) → Q a → Q' a)
    → Leads P R Q m
    → Leads P R' Q' m
Leads-loosen w v h = record { leads = λ e p. let (r, q) = h.leads e p in (w _ r, v _ q) }

pub Leads-modify :
    {P R : Engine → Type 0} (f : Engine → Engine)
    → ((e : Engine) → P e → R (f e))
    → Leads P R (λ (u : Unit {0}). Unit {0}) (modify f)
unfolding modify
Leads-modify f h = record { leads = λ e p. (h e p, tt) }

pub Leads-gets :
    {A : Type 0} {P : Engine → Type 0} {Q : A → Type 0} (f : Engine → A)
    → ((e : Engine) → P e → Q (f e))
    → Leads P P Q (gets f)
unfolding gets
Leads-gets f h = record { leads = λ e p. (p, h e p) }
