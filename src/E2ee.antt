-- ===== src/E2ee.antt =====
-- e2ee/manager.go: how a payload is encrypted and decrypted with a shared secret. SHA-256 and AES in
-- CBC and in GCM mode are parameters; a text is its bytes and an int32 its pattern below 2 ^ 32. The
-- three chunks of a payload are its salt, its ciphertext and its nonce.
pub mod Payload
mod Runs
use line_go.Common.{
  ℕ, ◌+◌, ◌%◌, Bool, true, false, not, ◌||◌, Option, none, some, List, [], ◌∷◌, ◌++◌, length, take,
  drop, ◌==◌, if◌then◌else◌,
}
use line_go.Pkcs7.{pad, unpad}
use line_go.Protocol.Binary.Types.{big_endian}
use Prim.Native.Nat.{bit_xor}

-- Whether `aes.NewCipher` accepts a key; CBC by a key and an initial vector on whole blocks; GCM by a
-- key, a nonce of 12 bytes and additional data.
pub record Primitives : Type 0 where
  pub sha256 : List ℕ → List ℕ
  pub key_ok : List ℕ → Bool
  pub cbc_encrypt : List ℕ → List ℕ → List ℕ → List ℕ
  pub cbc_decrypt : List ℕ → List ℕ → List ℕ → List ℕ
  pub gcm_seal : List ℕ → List ℕ → List ℕ → List ℕ → List ℕ
  pub gcm_open : List ℕ → List ℕ → List ℕ → List ℕ → Option (List ℕ)

pub data E2eeError : Type 0 where
  bad_key bad_length bad_padding bad_version not_authentic : E2eeError

-- What a decryption returns; GCM panics at a nonce of a wrong length.
pub data Opened : Type 0 where
  plain : List ℕ → Opened
  refused : E2eeError → Opened
  panics : Opened

-- The labels "Key" and "IV".
abbrev pub key_label : List ℕ
key_label = 75 ∷ 101 ∷ 121 ∷ []

abbrev pub iv_label : List ℕ
iv_label = 73 ∷ 86 ∷ []

unfoldable pub xor_bytes : List ℕ → List ℕ → List ℕ
xor_bytes [] ys = []
xor_bytes (x ∷ xs) [] = []
xor_bytes (x ∷ xs) (y ∷ ys) = bit_xor x y ∷ xor_bytes xs ys

unfoldable pub int32_bytes : ℕ → List ℕ
int32_bytes value = big_endian 4 value

-- `messageAAD`.
unfoldable pub message_aad : List ℕ → List ℕ → ℕ → ℕ → ℕ → ℕ → List ℕ
unfolding int32_bytes
message_aad to from sender_key receiver_key version content_type =
    to
    ++ (from
        ++ (int32_bytes sender_key
            ++ (int32_bytes receiver_key ++ (int32_bytes version ++ int32_bytes content_type))))

unfoldable pub or_refused : E2eeError → Option (List ℕ) → Opened
or_refused error none = refused error
or_refused error (some value) = plain value

-- A group key that is not padded is taken as it is if it has 32 bytes.
unfoldable pub or_whole_key : List ℕ → Option (List ℕ) → Opened
or_whole_key plaintext none =
    if length plaintext == 32 then plain plaintext else refused bad_padding
or_whole_key plaintext (some unpadded) = plain unpadded

module _ (primitives : Primitives) where
  -- `foldedSHA256` of the joined parts.
  unfoldable pub folded_sha256 : List ℕ → List ℕ
  unfolding xor_bytes
  folded_sha256 bytes =
      let digest = primitives.sha256 bytes in xor_bytes (take 16 digest) (drop 16 digest)

  unfoldable pub aes_cbc_encrypt : List ℕ → List ℕ → Option (List ℕ)
  unfolding folded_sha256
  aes_cbc_encrypt material plaintext =
      let key = primitives.sha256 (material ++ key_label) in
      if not (primitives.key_ok key)
      then none
      else some (primitives.cbc_encrypt key (folded_sha256 (material ++ iv_label)) (pad plaintext))

  unfoldable pub aes_cbc_decrypt : List ℕ → List ℕ → Opened
  unfolding folded_sha256 or_refused
  aes_cbc_decrypt material ciphertext =
      let key = primitives.sha256 (material ++ key_label) in
      if not (primitives.key_ok key)
      then refused bad_key
      else if not (length ciphertext % 16 == 0)
      then refused bad_length
      else or_refused bad_padding
          (unpad (primitives.cbc_decrypt key (folded_sha256 (material ++ iv_label)) ciphertext))

  unfoldable pub aes_cbc_decrypt_group_key : List ℕ → List ℕ → Opened
  unfolding folded_sha256 or_whole_key
  aes_cbc_decrypt_group_key material ciphertext =
      let key = primitives.sha256 (material ++ key_label) in
      let plaintext =
        primitives.cbc_decrypt key (folded_sha256 (material ++ iv_label)) ciphertext in
      if not (primitives.key_ok key)
      then refused bad_key
      else if (length ciphertext == 0) || not (length ciphertext % 16 == 0)
      then refused bad_length
      else or_whole_key plaintext (unpad plaintext)

  -- What `EncryptText` does with a shared secret, a salt and a nonce: the ciphertext.
  unfoldable pub seal_payload :
      List ℕ → List ℕ → ℕ → ℕ → List ℕ → List ℕ → List ℕ → List ℕ → Option (List ℕ)
  unfolding message_aad
  seal_payload to from sender_key receiver_key secret salt nonce plaintext =
      let key = primitives.sha256 (secret ++ (salt ++ key_label)) in
      if not (primitives.key_ok key)
      then none
      else some (
          primitives.gcm_seal key nonce plaintext (message_aad to from sender_key receiver_key 2 0))

  -- `decryptPayload`, by the message's `To`, `From` and content type and the three first chunks.
  unfoldable pub decrypt_payload :
      List ℕ → List ℕ → ℕ → List ℕ → List ℕ → List ℕ → List ℕ → ℕ → ℕ → ℕ → Opened
  unfolding folded_sha256 message_aad or_refused
  decrypt_payload to from content_type salt ciphertext nonce shared version sender_key
        receiver_key =
      let key = primitives.sha256 (shared ++ (salt ++ key_label)) in
      let iv = folded_sha256 (shared ++ (salt ++ iv_label)) in
      if not (primitives.key_ok key)
      then refused bad_key
      else if version == 1
      then (if not (length ciphertext % 16 == 0)
          then refused bad_length
          else or_refused bad_padding (unpad (primitives.cbc_decrypt key iv ciphertext)))
      else if not (version == 2)
      then refused bad_version
      else if not (length nonce == 12)
      then panics
      else or_refused not_authentic (
          primitives.gcm_open key nonce ciphertext
            (message_aad to from sender_key receiver_key version content_type))
