-- ===== src/Protocol/Varint/Runs.antt =====
-- The integers and texts of the compact protocol at concrete values.
use line_go.Common.{◌-◌, ◌^◌, ◌≡◌, arith, [], ◌∷◌, ◌++◌}
use line_go.Protocol.Outcome.{ok}
use line_go.Protocol.Varint.{signed, read_signed}
use line_go.Protocol.Varint.RoundTrip.{read_signed-signed}

-- The pattern of -2.
read_signed-signed_example : read_signed (signed (2 ^ 64 - 2) ++ 9 ∷ []) ≡ ok (2 ^ 64 - 2, 9 ∷ [])
read_signed-signed_example = read_signed-signed (2 ^ 64 - 2) (9 ∷ []) (omega arith)
