-- ===== src/E2ee/Payload.antt =====
-- The payloads of e2ee/manager.go, encrypted and decrypted.
use line_go.Common.{ℕ, ◌%◌, ◌≤◌, true, false, some, ◌≡◌, refl, arith, List, ◌++◌, length, ◌==◌}
use line_go.Pkcs7.{pad, unpad, unpad-pad, length-pad}
use line_go.E2ee.{
  Primitives, plain, aes_cbc_encrypt, aes_cbc_decrypt, aes_cbc_decrypt_group_key, seal_payload,
  decrypt_payload, or_refused, or_whole_key, key_label, iv_label, folded_sha256, message_aad,
}

-- CBC keeps the length of whole blocks, and decrypting undoes encrypting.
abbrev pub InvertsCbc : Primitives → Type 0
InvertsCbc primitives =
    (key iv blocks : List ℕ)
    → length blocks % 16 ≡ 0
    → (length (primitives.cbc_encrypt key iv blocks) ≡ length blocks)
      × (primitives.cbc_decrypt key iv (primitives.cbc_encrypt key iv blocks) ≡ blocks)

-- GCM opens what it sealed by the same key, nonce and additional data.
abbrev pub InvertsGcm : Primitives → Type 0
InvertsGcm primitives =
    (key nonce plaintext aad : List ℕ)
    → primitives.gcm_open key nonce (primitives.gcm_seal key nonce plaintext aad) aad
      ≡ some plaintext

module _ (primitives : Primitives) where
  -- Where CBC is invertible, what `aesCBCEncrypt` encrypts is decrypted again by `aesCBCDecrypt`, and
  -- by `aesCBCDecryptGroupKey` too.
  pub aes_cbc_decrypt-aes_cbc_encrypt :
      (material plaintext : List ℕ) {ciphertext : List ℕ}
      → InvertsCbc primitives
      → aes_cbc_encrypt primitives material plaintext ≡ some ciphertext
      → (aes_cbc_decrypt primitives material ciphertext ≡ plain plaintext)
        × (aes_cbc_decrypt_group_key primitives material ciphertext ≡ plain plaintext)
  unfolding aes_cbc_encrypt aes_cbc_decrypt aes_cbc_decrypt_group_key or_refused or_whole_key
  aes_cbc_decrypt-aes_cbc_encrypt material plaintext {ciphertext} inverts e =
      let key = primitives.sha256 (material ++ key_label) in
      let iv = folded_sha256 primitives (material ++ iv_label) in
      let accepted : primitives.key_ok key ≡ true = ground arith in
      let sealed : primitives.cbc_encrypt key iv (pad plaintext) ≡ ciphertext = ground arith in
      let (whole, some_block) = length-pad plaintext in
      let (size, undone) = inverts key iv (pad plaintext) whole in
      let blocks : (length ciphertext % 16 ≡ 0) × (16 ≤ length ciphertext) =
        rw (← sealed) (omega arith) in
      let back : unpad (primitives.cbc_decrypt key iv ciphertext) ≡ some plaintext =
        rw (← sealed) (rw undone (unpad-pad plaintext)) in
      let full : (length ciphertext == 0) ≡ false = ground arith in
      rw (accepted, blocks.0) (rw (full, back) (refl, refl))

  -- Where GCM is invertible, a text that `EncryptText` sealed by a secret is decrypted with that
  -- secret, as a text of version 2 with content type 0 between the same members with the same keys.
  pub decrypt_payload-seal_payload :
      (to from : List ℕ) (sender_key receiver_key : ℕ) (secret salt nonce plaintext : List ℕ)
      {ciphertext : List ℕ}
      → InvertsGcm primitives
      → length nonce ≡ 12
      → seal_payload primitives to from sender_key receiver_key secret salt nonce plaintext
        ≡ some ciphertext
      → decrypt_payload primitives to from 0 salt ciphertext nonce secret 2 sender_key receiver_key
        ≡ plain plaintext
  unfolding seal_payload decrypt_payload or_refused
  decrypt_payload-seal_payload to from sender_key receiver_key secret salt nonce plaintext
        {ciphertext} inverts n e =
      let key = primitives.sha256 (secret ++ (salt ++ key_label)) in
      let aad = message_aad to from sender_key receiver_key 2 0 in
      let accepted : primitives.key_ok key ≡ true = ground arith in
      let sealed : primitives.gcm_seal key nonce plaintext aad ≡ ciphertext = ground arith in
      let back : primitives.gcm_open key nonce ciphertext aad ≡ some plaintext =
        rw (← sealed) (inverts key nonce plaintext aad) in
      rw (accepted, n) (rw back refl)
