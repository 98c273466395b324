-- ===== src/Registration/Password.antt =====
-- registration/password.go: which passwords are accepted, and the guards before the key derivation.
-- A password is the list of its runes. The classes of runes, the parser of hexadecimal numbers,
-- base64, HMAC and scrypt are parameters.
mod Runs
use line_go.Common.{
  ℕ, ◌+◌, ◌*◌, ◌/◌, ◌%◌, ◌^◌, ◌≤◌, String, Bool, true, false, not, ◌&&◌, ◌||◌, Option, none, some,
  ◌≡◌, refl, ◌↔◌, inl, inr, arith, List, [], ◌∷◌, length, ltb, leb, if◌then◌else◌, ℤ, pos, negsuc,
  Bool-cases, Option-cases,
}

-- `unicode.IsUpper` to `unicode.IsSymbol`.
pub record Unicode : Type 0 where
  pub is_upper : ℕ → Bool
  pub is_lower : ℕ → Bool
  pub is_digit : ℕ → Bool
  pub is_punct : ℕ → Bool
  pub is_symbol : ℕ → Bool

-- The four flags of `validateRegistrationPassword`.
pub record Seen : Type 0 where
  pub upper : Bool
  pub lower : Bool
  pub digit : Bool
  pub symbol : Bool

pub data PasswordError : Type 0 where
  too_short too_few_categories empty bad_nrp unsafe too_much_memory : PasswordError
  bad_hmac_key bad_salt scrypt_failed : PasswordError

abbrev pub nothing_seen : Seen
nothing_seen = record { upper = false; lower = false; digit = false; symbol = false }

module _ (unicode : Unicode) where
  unfoldable pub see : ℕ → Seen → Seen
  see c seen =
      if unicode.is_upper c
      then record seen { upper = true }
      else if unicode.is_lower c
      then record seen { lower = true }
      else if unicode.is_digit c
      then record seen { digit = true }
      else if unicode.is_punct c || unicode.is_symbol c
      then record seen { symbol = true }
      else seen

  unfoldable pub scan : List ℕ → Seen → Seen
  unfolding see
  scan [] seen = seen
  scan (c ∷ cs) seen = scan cs (see c seen)

unfoldable pub one_if : Bool → ℕ
one_if true = 1
one_if false = 0

unfoldable pub categories : Seen → ℕ
unfolding one_if
categories seen = one_if seen.upper + one_if seen.lower + one_if seen.digit + one_if seen.symbol

unfoldable pub validate_password : Unicode → List ℕ → Option PasswordError
unfolding scan categories
validate_password unicode password =
    if ltb (length password) 8
    then some too_short
    else if ltb (categories (scan unicode password nothing_seen)) 3
    then some too_few_categories
    else none

-- Independent of the scan: whether some rune of the password passes a test.
unfoldable pub occurs : (ℕ → Bool) → List ℕ → Bool
occurs test [] = false
occurs test (c ∷ cs) = test c || occurs test cs

module _ (unicode : Unicode) where
  -- The class that the scan puts a rune in: the first that holds.
  abbrev pub first_lower : ℕ → Bool
  first_lower c = not (unicode.is_upper c) && unicode.is_lower c

  abbrev pub first_digit : ℕ → Bool
  first_digit c = not (unicode.is_upper c) && not (unicode.is_lower c) && unicode.is_digit c

  abbrev pub first_symbol : ℕ → Bool
  first_symbol c =
      not (unicode.is_upper c)
      && not (unicode.is_lower c)
      && not (unicode.is_digit c)
      && (unicode.is_punct c || unicode.is_symbol c)

  abbrev pub occurring : List ℕ → ℕ
  occurring cs =
      one_if (occurs unicode.is_upper cs)
      + one_if (occurs first_lower cs)
      + one_if (occurs first_digit cs)
      + one_if (occurs first_symbol cs)

  scan_lem :
      (cs : List ℕ) (seen : Seen)
      → ((scan unicode cs seen).upper ≡ (seen.upper || occurs unicode.is_upper cs))
        × ((scan unicode cs seen).lower ≡ (seen.lower || occurs first_lower cs))
        × ((scan unicode cs seen).digit ≡ (seen.digit || occurs first_digit cs))
        × ((scan unicode cs seen).symbol ≡ (seen.symbol || occurs first_symbol cs))
  unfolding scan occurs see
  scan_lem [] seen = ground arith
  scan_lem (c ∷ cs) seen = ground (arith, scan_lem cs (see unicode c seen))

  -- A password is accepted exactly if it has eight runes and runes of three of the four classes,
  -- where a rune counts for the first class it is in.
  pub validate_password-accepts :
      (password : List ℕ)
      → (validate_password unicode password ≡ none)
        ↔ ((8 ≤ length password) × (3 ≤ occurring password))
  unfolding validate_password categories
  validate_password-accepts password =
      let (u, l, d, s) = scan_lem password nothing_seen in rw (u, l, d, s) (ground arith)

-- What `server` sends: `DKLen` is an int.
pub record PasswordParameters : Type 0 where
  pub hmac_key : String
  pub salt : String
  pub nrp : String
  pub dk_len : ℤ

-- `strconv.ParseUint(text, 16, 24)`, `base64.StdEncoding`'s decoder, and HMAC-SHA-256 of a key and
-- a message.
pub record Crypto : Type 0 where
  pub parse_hex24 : String → Option ℕ
  pub decode_base64 : String → Option (List ℕ)
  pub hmac : List ℕ → List ℕ → List ℕ

-- `scrypt.Key` of password, salt, N, r, p and the length of the key; `none` is its error.
abbrev pub Scrypt : Type 0
Scrypt = List ℕ → List ℕ → ℕ → ℕ → ℕ → ℤ → Option (List ℕ)

-- What is sent as the password: "$s0$", the two texts and the key in base64, with "$" between.
pub data Derived : Type 0 where
  failed : PasswordError → Derived
  derived : String → String → List ℕ → Derived

abbrev pub max_scrypt_memory : ℕ
max_scrypt_memory = 512 * 1024 * 1024

-- The guards bound log N by 15 and r and p by 255, so the int64 of the source does not wrap around.
unfoldable pub required_memory : ℕ → ℕ → ℕ → ℕ
required_memory n r p = 128 * n * r + 128 * r * p + 1024 * 1024

unfoldable pub below_one : ℤ → Bool
below_one (pos n) = leb n 0
below_one (negsuc n) = true

unfoldable pub unsafe_parameters : ℕ → ℕ → ℕ → ℤ → Bool
unfolding below_one
unsafe_parameters log_n r p dk_len =
    ltb log_n 1 || ltb 15 log_n || ltb r 1 || ltb p 1 || below_one dk_len

module _ (crypto : Crypto) (scrypt : Scrypt) where
  unfoldable pub derive_key : List ℕ → PasswordParameters → ℕ → ℕ → ℕ → Derived
  derive_key password parameters n r p = elim (crypto.decode_base64 parameters.hmac_key) [
    | none ↦ failed bad_hmac_key
    | some key ↦ elim (crypto.decode_base64 parameters.salt) [
      | none ↦ failed bad_salt
      | some salt ↦ elim (scrypt (crypto.hmac key password) salt n r p parameters.dk_len) [
        | none ↦ failed scrypt_failed
        | some result ↦ derived parameters.nrp parameters.salt result
      ]
    ]
  ]

  -- The guards on log N, r and p, which `packed` holds in its 16, 8 and 8 bits.
  unfoldable pub derive_packed : List ℕ → PasswordParameters → ℕ → Derived
  unfolding unsafe_parameters required_memory derive_key
  derive_packed password parameters packed =
      let log_n = packed / 2 ^ 16 % 2 ^ 16 in
      let r = packed / 2 ^ 8 % 2 ^ 8 in
      let p = packed % 2 ^ 8 in
      if unsafe_parameters log_n r p parameters.dk_len
      then failed unsafe
      else if ltb max_scrypt_memory (required_memory (2 ^ log_n) r p)
      then failed too_much_memory
      else derive_key password parameters (2 ^ log_n) r p

  unfoldable pub derive_password : List ℕ → PasswordParameters → Derived
  unfolding derive_packed
  derive_password [] parameters = failed empty
  derive_password (c ∷ cs) parameters = elim (crypto.parse_hex24 parameters.nrp) [
    | none ↦ failed bad_nrp
    | some packed ↦ derive_packed (c ∷ cs) parameters packed
  ]

-- Two key derivations that agree where N is a power of two from 2 to 2 ^ 15, r and p are from 1 to
-- 255, and the memory is 512 MiB at most.
abbrev pub AgreeWhereSafe : Scrypt → Scrypt → Type 0
AgreeWhereSafe f g =
    (key salt : List ℕ) (log_n r p : ℕ) (dk_len : ℤ)
    → 1 ≤ log_n
    → log_n ≤ 15
    → 1 ≤ r
    → 1 ≤ p
    → r ≤ 255
    → p ≤ 255
    → required_memory (2 ^ log_n) r p ≤ max_scrypt_memory
    → f key salt (2 ^ log_n) r p dk_len ≡ g key salt (2 ^ log_n) r p dk_len

derive_key-agree :
    (crypto : Crypto) (f g : Scrypt) (password : List ℕ) (parameters : PasswordParameters)
    (n r p : ℕ)
    → ((key salt : List ℕ)
        → f key salt n r p parameters.dk_len ≡ g key salt n r p parameters.dk_len)
    → derive_key crypto f password parameters n r p ≡ derive_key crypto g password parameters n r p
unfolding derive_key
derive_key-agree crypto f g password parameters n r p same =
    elim (Option-cases (crypto.decode_base64 parameters.hmac_key)) [
      | inl e ↦ rw (e, derive_key) refl
      | inr (key, e) ↦ elim (Option-cases (crypto.decode_base64 parameters.salt)) [
        | inl e' ↦ rw (e, e', derive_key) refl
        | inr (salt, e') ↦ rw (e, e', same (crypto.hmac key password) salt, derive_key) refl
      ]
    ]

safe_bounds :
    (log_n r p : ℕ) (dk_len : ℤ)
    → unsafe_parameters log_n r p dk_len ≡ false
    → (1 ≤ log_n) × (log_n ≤ 15) × (1 ≤ r) × (1 ≤ p)
unfolding unsafe_parameters
safe_bounds log_n r p dk_len e = ground arith

module _ (crypto : Crypto) (f g : Scrypt) (agree : AgreeWhereSafe f g) where
  derive_packed-safe :
      (password : List ℕ) (parameters : PasswordParameters) (packed : ℕ)
      → derive_packed crypto f password parameters packed
        ≡ derive_packed crypto g password parameters packed
  unfolding derive_packed unsafe_parameters
  derive_packed-safe password parameters packed =
      let log_n = packed / 2 ^ 16 % 2 ^ 16 in
      let r = packed / 2 ^ 8 % 2 ^ 8 in
      let p = packed % 2 ^ 8 in
      elim (Bool-cases (unsafe_parameters log_n r p parameters.dk_len)) [
        | inl e ↦ rw e refl
        | inr safe ↦ elim (Bool-cases (ltb max_scrypt_memory (required_memory (2 ^ log_n) r p))) [
          | inl e ↦ rw safe (rw e refl)
          | inr small ↦
              let (a, b, c, d) = safe_bounds log_n r p parameters.dk_len safe in
              rw (safe, small)
                (derive_key-agree crypto f g password parameters (2 ^ log_n) r p λ key salt.
                  agree key salt log_n r p parameters.dk_len a b c d (omega arith) (omega arith)
                    (ground arith))
        ]
      ]

  -- Whatever parameters the server sends, the password that is derived does not depend on what
  -- scrypt does outside the safe bounds: it is not called there.
  pub derive_password-safe :
      (password : List ℕ) (parameters : PasswordParameters)
      → derive_password crypto f password parameters ≡ derive_password crypto g password parameters
  unfolding derive_password
  derive_password-safe [] parameters = refl
  derive_password-safe (c ∷ cs) parameters =
      elim (Option-cases (crypto.parse_hex24 parameters.nrp)) [
        | inl e ↦ rw (e, derive_password) refl
        | inr (packed, e) ↦ rw (e, derive_password) (derive_packed-safe (c ∷ cs) parameters packed)
      ]
