-- ===== src/Registration/Legy/Runs.antt =====
-- The envelope of registration/legy.go at concrete headers, with a cipher that leaves a block as it
-- is.
use line_go.Common.{ℕ, ◌++◌, true, ◌≡◌, refl, List, [], ◌∷◌}
use line_go.Protocol.Binary.Types.{big_endian}
use line_go.Pkcs7.{pad}
use line_go.Registration.Legy.{ok, Headers, count_headers, Ciphers, seal_body, open_body}
use line_go.Registration.Legy.Envelope.{Inverts, open_body-seal_body}

abbrev headers : Headers
headers = (120 ∷ 45 ∷ [], 1 ∷ 2 ∷ 3 ∷ []) ∷ ([], 9 ∷ []) ∷ []

abbrev encoded : List ℕ
encoded = 0 ∷ 16 ∷ 0 ∷ 2 ∷ 0 ∷ 2 ∷ 120 ∷ 45 ∷ 0 ∷ 3 ∷ 1 ∷ 2 ∷ 3 ∷ 0 ∷ 0 ∷ 0 ∷ 1 ∷ 9 ∷ []

abbrev plain : Ciphers
plain = record {
  key_ok = λ key. true;
  cbc_encrypt = λ key blocks. blocks;
  cbc_decrypt = λ key blocks. blocks;
}

plain-Inverts : (key : List ℕ) → Inverts plain key
plain-Inverts key blocks whole = (refl, refl)

abbrev key : List ℕ
key = 0 ∷ 1 ∷ 2 ∷ 3 ∷ 4 ∷ 5 ∷ 6 ∷ 7 ∷ 8 ∷ 9 ∷ 10 ∷ 11 ∷ 12 ∷ 13 ∷ 14 ∷ 15 ∷ []

-- The body that is sent with a marker, 4, and no checksum.
abbrev sealed_body : List ℕ
sealed_body = 4 ∷ (encoded ++ 8 ∷ 9 ∷ 10 ∷ 10 ∷ 10 ∷ 10 ∷ 10 ∷ 10 ∷ 10 ∷ 10 ∷ 10 ∷ 10 ∷ 10 ∷ [])

open_body-seal_body_example : open_body plain 4 key sealed_body ≡ ok (headers, 8 ∷ 9 ∷ 10 ∷ [])
unfolding seal_body pad big_endian count_headers
open_body-seal_body_example =
    open_body-seal_body plain key (plain-Inverts key) 4 headers (8 ∷ 9 ∷ 10 ∷ []) refl
