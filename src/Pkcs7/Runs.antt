-- ===== src/Pkcs7/Runs.antt =====
-- The padding at a text of three bytes.
use line_go.Common.{some, ◌≡◌, [], ◌∷◌}
use line_go.Pkcs7.{pad, unpad, unpad-pad}

unpad-pad_example : unpad (pad (1 ∷ 2 ∷ 3 ∷ [])) ≡ some (1 ∷ 2 ∷ 3 ∷ [])
unpad-pad_example = unpad-pad (1 ∷ 2 ∷ 3 ∷ [])
