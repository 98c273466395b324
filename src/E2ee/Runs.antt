-- ===== src/E2ee/Runs.antt =====
-- The encryption of e2ee/manager.go at concrete texts, with ciphers that leave a text as it is.
use line_go.Common.{ℕ, true, some, ◌≡◌, refl, List, [], ◌∷◌}
use line_go.Pkcs7.{pad}
use line_go.E2ee.{
  Primitives, plain, aes_cbc_encrypt, aes_cbc_decrypt, aes_cbc_decrypt_group_key, seal_payload,
  decrypt_payload,
}
use line_go.E2ee.Payload.{aes_cbc_decrypt-aes_cbc_encrypt, decrypt_payload-seal_payload}

abbrev open_ciphers : Primitives
open_ciphers = record {
  sha256 = λ bytes. bytes;
  key_ok = λ key. true;
  cbc_encrypt = λ key iv blocks. blocks;
  cbc_decrypt = λ key iv blocks. blocks;
  gcm_seal = λ key nonce plaintext aad. plaintext;
  gcm_open = λ key nonce ciphertext aad. some ciphertext;
}

abbrev padded : List ℕ
padded = 1 ∷ 2 ∷ 14 ∷ 14 ∷ 14 ∷ 14 ∷ 14 ∷ 14 ∷ 14 ∷ 14 ∷ 14 ∷ 14 ∷ 14 ∷ 14 ∷ 14 ∷ 14 ∷ []

aes_cbc_decrypt-aes_cbc_encrypt_example :
    (aes_cbc_decrypt open_ciphers (5 ∷ []) padded ≡ plain (1 ∷ 2 ∷ []))
    × (aes_cbc_decrypt_group_key open_ciphers (5 ∷ []) padded ≡ plain (1 ∷ 2 ∷ []))
unfolding aes_cbc_encrypt pad
aes_cbc_decrypt-aes_cbc_encrypt_example =
    aes_cbc_decrypt-aes_cbc_encrypt open_ciphers (5 ∷ []) (1 ∷ 2 ∷ [])
      (λ key iv blocks whole. (refl, refl)) refl

abbrev nonce : List ℕ
nonce = 0 ∷ 1 ∷ 2 ∷ 3 ∷ 4 ∷ 5 ∷ 6 ∷ 7 ∷ 8 ∷ 9 ∷ 10 ∷ 11 ∷ []

decrypt_payload-seal_payload_example :
    decrypt_payload open_ciphers (117 ∷ []) (118 ∷ []) 0 (1 ∷ []) (9 ∷ 8 ∷ []) nonce (3 ∷ []) 2 6 7
    ≡ plain (9 ∷ 8 ∷ [])
unfolding seal_payload
decrypt_payload-seal_payload_example =
    decrypt_payload-seal_payload open_ciphers (117 ∷ []) (118 ∷ []) 6 7 (3 ∷ []) (1 ∷ []) nonce
      (9 ∷ 8 ∷ []) (λ key iv plaintext aad. refl) refl refl
