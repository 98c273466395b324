-- ===== src/Protocol/Outcome.antt =====
-- The outcome of an encoder or a decoder of protocol/compact.go and protocol/binary.go, and
-- postconditions on it.
use line_go.Common.{ℕ, ◌≡◌, ◌≢◌, refl, subst, Bool, true, false, if◌then◌else◌}

-- The error values that the package makes; `field` is the wrapping by `fmt.Errorf("field %d: %w")`.
pub data Error : Type 0 where
  truncated : Error
  invalid_varint : Error
  bad_protocol_id : Error
  unsupported_version : ℕ → Error
  invalid_length : ℕ → Error
  invalid_size : ℕ → Error
  unknown_type : ℕ → Error
  unsupported_kind : ℕ → Error
  expected_bool expected_integer expected_double expected_string expected_bytes : Error
  expected_fields expected_list expected_map : Error
  field : ℕ → Error → Error

-- The runtime panics that the code can meet: `make` with a capacity that is out of range, and a
-- map key whose dynamic type cannot be hashed.
pub data Panic : Type 0 where
  cap_out_of_range unhashable_key : Panic

-- Go's pair of a value and an error. `out_of_fuel` is no Go value: a recursion of the model ended.
pub data Outcome {ℓ} (A : Type ℓ) : Type ℓ where
  ok : A → Outcome A
  err : Error → Outcome A
  panic : Panic → Outcome A
  out_of_fuel : Outcome A

infixl 5 ◌>>=◌ ◌>>◌
abbrev pub ◌>>=◌ {ℓ κ} : {A : Type ℓ} {B : Type κ} → Outcome A → (A → Outcome B) → Outcome B
ok a >>= f = f a
err e >>= f = err e
panic p >>= f = panic p
out_of_fuel >>= f = out_of_fuel

abbrev pub ◌>>◌ {ℓ} : {B : Type ℓ} → Outcome (Unit {0}) → Outcome B → Outcome B
m >> k = m >>= λ _. k

abbrev pub guard : Bool → Error → Outcome (Unit {0})
guard true e = ok tt
guard false e = err e

abbrev pub in_field {ℓ} : {A : Type ℓ} → ℕ → Outcome A → Outcome A
in_field id (ok a) = ok a
in_field id (err e) = err (field id e)
in_field id (panic p) = panic p
in_field id out_of_fuel = out_of_fuel

-- The run kept within its fuel, and `P` holds of its value if it has one.
pub data Ensures {ℓ κ} {A : Type ℓ} (P : A → Type κ) : Outcome A → Type (ℓ ⊔ κ) where
  holds : {a : A} → P a → Ensures P (ok a)
  fails : {e : Error} → Ensures P (err e)
  panics : {p : Panic} → Ensures P (panic p)

module _ {ℓ κ} {A : Type ℓ} {P : A → Type κ} where
  pub Ensures-ok : {r : Outcome A} {a : A} → Ensures P r → r ≡ ok a → P a
  Ensures-ok (holds h) e = subst P (cc) h
  Ensures-ok fails e = cc
  Ensures-ok panics e = cc

  pub Ensures-ne-out_of_fuel : {r : Outcome A} → Ensures P r → r ≢ out_of_fuel
  Ensures-ne-out_of_fuel (holds h) = cc
  Ensures-ne-out_of_fuel fails = cc
  Ensures-ne-out_of_fuel panics = cc

  pub Ensures-if :
      (b : Bool) {x y : Outcome A} → Ensures P x → Ensures P y → Ensures P (if b then x else y)
  Ensures-if true hx hy = hx
  Ensures-if false hx hy = hy

  pub Ensures-in_field : (id : ℕ) {r : Outcome A} → Ensures P r → Ensures P (in_field id r)
  Ensures-in_field id (holds h) = holds h
  Ensures-in_field id fails = fails
  Ensures-in_field id panics = panics

  pub Ensures-bind {ℓ' κ'} :
      {B : Type ℓ'} {Q : B → Type κ'} {r : Outcome A} {f : A → Outcome B}
      → Ensures P r
      → ((a : A) → P a → Ensures Q (f a))
      → Ensures Q (r >>= f)
  Ensures-bind (holds {a} h) k = k a h
  Ensures-bind fails k = fails
  Ensures-bind panics k = panics

pub Ensures-weaken {ℓ κ κ'} :
    {A : Type ℓ} {P : A → Type κ} {Q : A → Type κ'} {r : Outcome A}
    → ((a : A) → P a → Q a)
    → Ensures P r
    → Ensures Q r
Ensures-weaken f (holds {a} h) = holds (f a h)
Ensures-weaken f fails = fails
Ensures-weaken f panics = panics

pub Ensures-map {ℓ κ κ'} :
    {A : Type ℓ} {P : A → Type κ} {Q : A → Type κ'} {r : Outcome A}
    → Ensures P r
    → ((a : A) → P a → Q a)
    → Ensures Q r
Ensures-map h f = Ensures-weaken f h

pub Ensures-guard {ℓ κ} :
    {B : Type ℓ} {Q : B → Type κ} (b : Bool) (e : Error) {k : Outcome B}
    → (b ≡ true → Ensures Q k)
    → Ensures Q (guard b e >> k)
Ensures-guard true e k = k refl
Ensures-guard false e k = fails

-- Inversion of a successful bind.
pub >>=-eq-ok {ℓ} :
    {X Y : Type ℓ} (first : Outcome X) (next : X → Outcome Y) {last : Y}
    → (first >>= next) ≡ ok last
    → (x : X) × (first ≡ ok x) × (next x ≡ ok last)
>>=-eq-ok out_of_fuel next e = cc
>>=-eq-ok (panic why) next e = cc
>>=-eq-ok (err why) next e = cc
>>=-eq-ok (ok x) next e = (x, refl, e)

pub in_field-eq-ok {ℓ} :
    {A : Type ℓ} (id : ℕ) (m : Outcome A) {a : A} → in_field id m ≡ ok a → m ≡ ok a
in_field-eq-ok id (ok a) h = h
in_field-eq-ok id (err e) h = cc
in_field-eq-ok id (panic p) h = cc
in_field-eq-ok id out_of_fuel h = cc
