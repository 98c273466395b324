-- ===== src/Registration/Password/Runs.antt =====
-- The password's checks at concrete passwords and parameters.
use line_go.Common.{
  ℕ, ◌+◌, ◌*◌, arith, if◌then◌else◌, none, ◌≤◌, some, ◌≡◌, ◌↔◌, List, [], ◌∷◌, length, leb, ◌&&◌,
  ◌==◌, pos,
}
use line_go.Registration.Password.{
  Unicode, Crypto, Scrypt, PasswordParameters, validate_password, occurring, derive_password,
  validate_password-accepts, derive_password-safe,
}

abbrev ascii : Unicode
ascii = record {
  is_upper = λ c. leb 65 c && leb c 90;
  is_lower = λ c. leb 97 c && leb c 122;
  is_digit = λ c. leb 48 c && leb c 57;
  is_punct = λ c. leb 33 c && leb c 47;
  is_symbol = λ c. c == 94;
}

abbrev abcd1234 : List ℕ
abcd1234 = 65 ∷ 98 ∷ 99 ∷ 100 ∷ 49 ∷ 50 ∷ 51 ∷ 52 ∷ []

validate_password-accepts_example :
    (validate_password ascii abcd1234 ≡ none)
    ↔ ((8 ≤ length abcd1234) × (3 ≤ occurring ascii abcd1234))
validate_password-accepts_example = validate_password-accepts ascii abcd1234

abbrev crypto : Crypto
crypto = record {
  parse_hex24 = λ t. some (14 * 65536 + 8 * 256 + 1);
  decode_base64 = λ t. some (1 ∷ 2 ∷ []);
  hmac = λ key message. key;
}

abbrev parameters : PasswordParameters
parameters = record { hmac_key = "AQI="; salt = "AQI="; nrp = "0e0801"; dk_len = pos 32 }

abbrev echo : Scrypt
echo password salt n r p dk_len = some password

abbrev echo_small : Scrypt
echo_small password salt n r p dk_len = if leb p 255 then some password else none

derive_password-safe_example :
    derive_password crypto echo abcd1234 parameters
    ≡ derive_password crypto echo_small abcd1234 parameters
derive_password-safe_example =
    derive_password-safe crypto echo echo_small
      (λ key salt log_n r p dk_len a b c d e f g. ground arith) abcd1234 parameters
