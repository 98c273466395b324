-- ===== src/Registration/Legy/Envelope.antt =====
-- The envelope of registration/legy.go, sealed and opened.
use line_go.Common.{
  ℕ, ◌-◌, ◌/◌, ◌%◌, ◌<◌, true, false, ◌≡◌, refl, arith, List, [], ◌∷◌, ◌++◌, append-nil, length,
  length-append, take-length-append, ◌==◌, if◌then◌else◌, Bool-cases, inl, inr,
}
use line_go.Protocol.Binary.Numbers.{length-big_endian}
use line_go.Pkcs7.{pad, unpad-pad, length-pad}
use line_go.Registration.Legy.{
  ok, Headers, encode_inner_headers, decode_inner_headers, Ciphers, encrypt_cbc, decrypt_cbc,
  seal_body, drop_marker, open_body,
}
use line_go.Registration.Legy.Hash.{legy_mac}
use line_go.Registration.Legy.Headers.{decode_inner_headers-encode_inner_headers, >>=-eq-ok}

-- CBC under a key keeps the length of whole blocks, and decrypting undoes encrypting.
abbrev pub Inverts : Ciphers → List ℕ → Type 0
Inverts ciphers key =
    (blocks : List ℕ)
    → length blocks % 16 ≡ 0
    → (length (ciphers.cbc_encrypt key blocks) ≡ length blocks)
      × (ciphers.cbc_decrypt key (ciphers.cbc_encrypt key blocks) ≡ blocks)

length-legy_mac : (key bytes : List ℕ) → length (legy_mac key bytes) ≡ 4
unfolding legy_mac
length-legy_mac key bytes = length-big_endian 4 _

decode_nothing : {read : Headers × List ℕ} → ¬ decode_inner_headers [] ≡ ok read
unfolding decode_inner_headers
decode_nothing e = cc

drop_marker-mark :
    (le : ℕ) (plaintext : List ℕ) {read : Headers × List ℕ}
    → decode_inner_headers plaintext ≡ ok read
    → drop_marker le (if le / 4 % 2 == 1 then (le % 256) ∷ plaintext else plaintext) ≡ ok plaintext
unfolding drop_marker
drop_marker-mark le [] h = absurd (decode_nothing h)
drop_marker-mark le (b ∷ bytes) h = elim (Bool-cases (le / 4 % 2 == 1)) [
  | inl on ↦ rw on (rw on refl)
  | inr off ↦ rw off (rw off refl)
]

module _ (ciphers : Ciphers) (key : List ℕ) (inverts : Inverts ciphers key) where
  -- A text that was encrypted is decrypted again, whatever follows it that is shorter than a block.
  decrypt_cbc-encrypt_cbc :
      (plaintext trailer : List ℕ) {encrypted : List ℕ}
      → length trailer < 16
      → encrypt_cbc ciphers key plaintext ≡ ok encrypted
      → decrypt_cbc ciphers key (encrypted ++ trailer) ≡ ok plaintext
  unfolding encrypt_cbc decrypt_cbc
  decrypt_cbc-encrypt_cbc plaintext trailer {encrypted} short e =
      let accepted : ciphers.key_ok key ≡ true = ground arith in
      let sealed : ciphers.cbc_encrypt key (pad plaintext) ≡ encrypted = ground arith in
      let (whole, some_block) = length-pad plaintext in
      let (size, undone) = inverts (pad plaintext) whole in
      let n : length (encrypted ++ trailer) - length (encrypted ++ trailer) % 16
          ≡ length encrypted =
        rw (← sealed) (
          omega (
            arith,
            length-append (ciphers.cbc_encrypt key (pad plaintext)) trailer,
            size,
            whole,
          )) in
      let full : (length encrypted == 0) ≡ false = rw (← sealed) (rw size (ground arith)) in
      rw (accepted, n)
        (rw (full, take-length-append encrypted trailer)
          (rw (← sealed) (rw undone (rw (unpad-pad plaintext) refl))))

  open_body-encrypt_cbc :
      (le : ℕ) (plaintext trailer : List ℕ) {encrypted : List ℕ} {read : Headers × List ℕ}
      → decode_inner_headers plaintext ≡ ok read
      → length trailer < 16
      → encrypt_cbc ciphers key (if le / 4 % 2 == 1 then (le % 256) ∷ plaintext else plaintext)
        ≡ ok encrypted
      → open_body ciphers le key (encrypted ++ trailer) ≡ ok read
  unfolding open_body
  open_body-encrypt_cbc le plaintext trailer h short e =
      rw (decrypt_cbc-encrypt_cbc _ trailer short e) (rw (drop_marker-mark le plaintext h) h)

  -- A body that `call` would send, were it a response, is opened as the headers and the Thrift body
  -- that it was sealed from, with or without marker and checksum.
  pub open_body-seal_body :
      (le : ℕ) (headers : Headers) (thrift_body : List ℕ) {raw : List ℕ}
      → seal_body ciphers le key headers thrift_body ≡ ok raw
      → open_body ciphers le key raw ≡ ok (headers, thrift_body)
  unfolding seal_body open_body
  open_body-seal_body le headers thrift_body {raw} e =
      let (inner, rest, encoded) = >>=-eq-ok (encode_inner_headers headers) _ e in
      let (encrypted, last, sealed) = >>=-eq-ok (encrypt_cbc ciphers key _) _ rest in
      let decoded = decode_inner_headers-encode_inner_headers headers thrift_body encoded in
      let plaintext = inner ++ thrift_body in
      elim (Bool-cases (le / 2 % 2 == 1)) [
        | inl on ↦
            let whole : encrypted ++ legy_mac key encrypted ≡ raw = ground arith in
            rw (← whole) (
              open_body-encrypt_cbc le plaintext (legy_mac key encrypted) decoded
                (rw (length-legy_mac key encrypted) (omega arith)) sealed)
        | inr off ↦
            let whole : encrypted ≡ raw = ground arith in
            rw (← whole, ← append-nil encrypted)
              (open_body-encrypt_cbc le plaintext [] decoded (omega arith) sealed)
      ]
