-- ===== src/Registration/Legy.antt =====
-- registration/legy.go: the envelope around a registration call. The headers and the Thrift body are
-- padded, encrypted, and followed by a checksum; the bits 2 and 4 of `le` ask for the checksum and
-- for a marker. AES in CBC mode is a parameter; a text is its bytes, and a map of headers is the
-- list of its entries in the order that `range` takes.
mod Runs
mod Hash
pub mod Headers
pub mod Envelope
use line_go.Common.{
  ℕ, zero, suc, ◌+◌, ◌-◌, ◌/◌, ◌%◌, ◌≤◌, ◌<◌, Bool, true, false, not, Option, none, some, List, [],
  ◌∷◌, ◌++◌, length, take, drop, ltb, ◌==◌, if◌then◌else◌,
}
use line_go.Protocol.Binary.Types.{big_endian, read_big_endian}
use line_go.Registration.Legy.Hash.{legy_mac}
use line_go.Pkcs7.{pad, unpad}

pub data LegyError : Type 0 where
  header_too_long headers_too_large truncated_headers invalid_header_length : LegyError
  truncated_header_key truncated_header_value : LegyError
  bad_key invalid_ciphertext_length invalid_padding missing_marker : LegyError

pub data Result {ℓ} (A : Type ℓ) : Type ℓ where
  ok : A → Result A
  err : LegyError → Result A

infixl 5 ◌>>=◌
abbrev pub ◌>>=◌ {ℓ κ} : {A : Type ℓ} {B : Type κ} → Result A → (A → Result B) → Result B
ok a >>= f = f a
err e >>= f = err e

abbrev pub Headers : Type 0
Headers = List (List ℕ × List ℕ)

unfoldable pub two_bytes : ℕ → List ℕ
two_bytes n = big_endian 2 n

unfoldable pub header_entries : Headers → Result (List ℕ)
unfolding two_bytes
header_entries [] = ok []
header_entries ((key, value) ∷ rest) =
    let others = header_entries rest in
    if ltb 65_535 (length key)
    then err header_too_long
    else if ltb 65_535 (length value)
    then err header_too_long
    else do
      body ← others
      ok (two_bytes (length key) ++ (key ++ (two_bytes (length value) ++ (value ++ body))))

unfoldable pub count_headers : Headers → ℕ
count_headers [] = 0
count_headers (h ∷ hs) = suc (count_headers hs)

-- `encodeInnerHeaders`.
unfoldable pub encode_inner_headers : Headers → Result (List ℕ)
unfolding header_entries two_bytes
encode_inner_headers headers = do
  entries ← header_entries headers
  if ltb 65_535 (length entries + 2)
      then err headers_too_large
      else ok (two_bytes (length entries + 2) ++ (two_bytes (count_headers headers) ++ entries))

-- The loop of `decodeInnerHeaders` over the bytes that are left before `end`.
unfoldable pub decode_entries : ℕ → List ℕ → Result Headers
decode_entries zero bytes = ok []
decode_entries (suc n) bytes =
    if ltb (length bytes) 2
    then err truncated_header_key
    else let key_length = read_big_endian (take 2 bytes) in
      let after_length = drop 2 bytes in
      if ltb (length after_length) (key_length + 2)
      then err truncated_header_value
      else let after_key = drop key_length after_length in
        let value_length = read_big_endian (take 2 after_key) in
        let after_value_length = drop 2 after_key in
        if ltb (length after_value_length) value_length
        then err truncated_header_value
        else let others = decode_entries n (drop value_length after_value_length) in
          do
            rest ← others
            ok ((take key_length after_length, take value_length after_value_length) ∷ rest)

-- `decodeInnerHeaders`, with the bytes after the headers.
unfoldable pub decode_inner_headers : List ℕ → Result (Headers × List ℕ)
unfolding decode_entries
decode_inner_headers bytes =
    if ltb (length bytes) 4
    then err truncated_headers
    else let end' = read_big_endian (take 2 bytes) + 2 in
      if ltb (length bytes) end' then err invalid_header_length else do
        headers ←
            decode_entries (read_big_endian (take 2 (drop 2 bytes)))
              (take (end' - 4) (drop 4 bytes))
        ok (headers, drop end' bytes)

-- Whether `aes.NewCipher` accepts a key, and how CBC encrypts and decrypts whole blocks by a key and
-- `legyIV`.
pub record Ciphers : Type 0 where
  pub key_ok : List ℕ → Bool
  pub cbc_encrypt : List ℕ → List ℕ → List ℕ
  pub cbc_decrypt : List ℕ → List ℕ → List ℕ

-- The byte that the bit 4 of `le` puts before the headers.
unfoldable pub drop_marker : ℕ → List ℕ → Result (List ℕ)
drop_marker le [] = if le / 4 % 2 == 1 then err missing_marker else ok []
drop_marker le (b ∷ bytes) = if le / 4 % 2 == 1 then ok bytes else ok (b ∷ bytes)

module _ (ciphers : Ciphers) where
  unfoldable pub encrypt_cbc : List ℕ → List ℕ → Result (List ℕ)
  encrypt_cbc key plaintext =
      if not (ciphers.key_ok key) then err bad_key else ok (ciphers.cbc_encrypt key (pad plaintext))

  -- What follows the last whole block is left out.
  unfoldable pub decrypt_cbc : List ℕ → List ℕ → Result (List ℕ)
  decrypt_cbc key ciphertext =
      let aligned = length ciphertext - length ciphertext % 16 in
      if not (ciphers.key_ok key)
      then err bad_key
      else if aligned == 0
      then err invalid_ciphertext_length
      else elim (unpad (ciphers.cbc_decrypt key (take aligned ciphertext))) [
        | none ↦ err invalid_padding
        | some plaintext ↦ ok plaintext
      ]

  -- The body of the request of `call`.
  unfoldable pub seal_body : ℕ → List ℕ → Headers → List ℕ → Result (List ℕ)
  unfolding encrypt_cbc encode_inner_headers
  seal_body le key headers thrift_body = do
    inner ← encode_inner_headers headers
    let plaintext = inner ++ thrift_body
    encrypted ← encrypt_cbc key (if le / 4 % 2 == 1 then (le % 256) ∷ plaintext else plaintext)
    ok (if le / 2 % 2 == 1 then encrypted ++ legy_mac key encrypted else encrypted)

  -- What `call` makes of the body of a response: its headers and its Thrift body.
  unfoldable pub open_body : ℕ → List ℕ → List ℕ → Result (Headers × List ℕ)
  unfolding decrypt_cbc drop_marker decode_inner_headers
  open_body le key raw = do
    decrypted ← decrypt_cbc key raw
    unmarked ← drop_marker le decrypted
    decode_inner_headers unmarked
