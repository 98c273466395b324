-- ===== src/Protocol/Varint.antt =====
-- The integers of protocol/compact.go: `varint`, `signed` and `binary` of the writer and the
-- reader. A writer method is the bytes that it appends. A reader is the bytes from `pos` on, and a
-- method of it returns its value with the bytes that are left.
-- A uint64 is a number below 2 ^ 64, an int64 its two's complement pattern. `x & (2 ^ k - 1)` is
-- `x % 2 ^ k`, `x >> k` is `x / 2 ^ k`, and `|` of fields that share no bit is `+`.
pub mod RoundTrip
pub mod Reads
mod Runs
use line_go.Common.{ℕ, zero, suc, ◌+◌, ◌-◌, ◌*◌, ◌/◌, ◌%◌, ◌^◌, Bool, List, [], ◌∷◌, ◌++◌}
use line_go.Common.{ltb, leb, ◌==◌, if◌then◌else◌, length, take, drop}
use line_go.Protocol.Outcome.{
  Outcome, ok, err, truncated, invalid_varint, invalid_length, guard, ◌>>=◌, ◌>>◌,
}

abbrev pub Reader : Type 0 → Type 0
Reader A = List ℕ → Outcome (A × List ℕ)

-- The rounds are bounded by `k`: ten of them write any uint64.
unfoldable pub groups : ℕ → ℕ → List ℕ
groups zero value = []
groups (suc k) value =
    let b = value % 128 in
    let rest = value / 128 in
    let more = groups k rest in if rest == 0 then b ∷ [] else (b + 128) ∷ more

unfoldable pub varint : ℕ → List ℕ
varint value = groups 10 value

-- `x ^ m` where the bits of `m` are all ones or all zeros.
abbrev xor_mask : Bool → ℕ → ℕ
xor_mask ones x = if ones then 2 ^ 64 - 1 - x else x

-- `uint64(value<<1) ^ uint64(value>>63)`
unfoldable pub zigzag : ℕ → ℕ
zigzag value = xor_mask (leb (2 ^ 63) value) (value * 2 % 2 ^ 64)

unfoldable pub signed : ℕ → List ℕ
signed value = varint (zigzag value)

unfoldable pub binary : List ℕ → List ℕ
binary value = varint (length value) ++ value

unfoldable pub read_take : ℕ → Reader (List ℕ)
read_take size bytes =
    if ltb (length bytes) size then err truncated else ok (take size bytes, drop size bytes)

unfoldable pub read_byte : Reader ℕ
read_byte [] = err truncated
read_byte (b ∷ rest) = ok (b, rest)

-- One round of the loop; `bytes` is what is left to read, so the recursion is on it.
unfoldable pub varint_loop : List ℕ → ℕ → ℕ → Outcome (ℕ × List ℕ)
varint_loop [] value shift = if leb shift 63 then err truncated else err invalid_varint
varint_loop (b ∷ rest) value shift =
    let value' = value + b % 128 * 2 ^ shift % 2 ^ 64 in
    let more = varint_loop rest value' (shift + 7) in
    if leb shift 63 then (if ltb b 128 then ok (value', rest) else more) else err invalid_varint

unfoldable pub read_varint : Reader ℕ
read_varint bytes = varint_loop bytes 0 0

-- `int64(value>>1) ^ -int64(value&1)`
unfoldable pub unzigzag : ℕ → ℕ
unzigzag value = xor_mask (value % 2 == 1) (value / 2)

unfoldable pub read_signed : Reader ℕ
read_signed bytes = do (value, rest) ← read_varint bytes; ok (unzigzag value, rest)

unfoldable pub read_binary : Reader (List ℕ)
read_binary bytes = do
  (size, rest) ← read_varint bytes
  guard (leb size (length rest)) (invalid_length size)
  read_take size rest
