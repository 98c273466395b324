-- ===== src/Protocol/Compact/Types.antt =====
-- The wire types of protocol/compact.go, the widening of small integers, the eight bytes of a
-- float64, and what both decoders ask of the Go runtime and of `unicode/utf8`.
use line_go.Common.{ℕ, zero, suc, ◌+◌, ◌-◌, ◌*◌, ◌/◌, ◌%◌, ◌^◌, Bool, true, false}
use line_go.Common.{◌≡◌, arith, List, [], ◌∷◌, leb, if◌then◌else◌}
use line_go.Protocol.Outcome.{Outcome, ok, err, panic, unsupported_kind, cap_out_of_range}
use line_go.Protocol.Value.{Kind}

-- The constants compactStop to compactStruct; `unknown_type_code n` is any other nibble.
pub data Ctype : Type 0 where
  stop true_type false_type byte_type i16_type i32_type i64_type double_type : Ctype
  binary_type list_type set_type map_type struct_type : Ctype
  unknown_type_code : ℕ → Ctype

unfoldable pub code : Ctype → ℕ
code stop = 0
code true_type = 1
code false_type = 2
code byte_type = 3
code i16_type = 4
code i32_type = 5
code i64_type = 6
code double_type = 7
code binary_type = 8
code list_type = 9
code set_type = 10
code map_type = 11
code struct_type = 12
code (unknown_type_code n) = n

unfoldable pub of_code : ℕ → Ctype
of_code zero = stop
of_code (suc zero) = true_type
of_code (suc (suc zero)) = false_type
of_code (suc (suc (suc zero))) = byte_type
of_code (suc (suc (suc (suc zero)))) = i16_type
of_code (suc (suc (suc (suc (suc zero))))) = i32_type
of_code (suc (suc (suc (suc (suc (suc zero)))))) = i64_type
of_code (suc (suc (suc (suc (suc (suc (suc zero))))))) = double_type
of_code (suc (suc (suc (suc (suc (suc (suc (suc zero)))))))) = binary_type
of_code (suc (suc (suc (suc (suc (suc (suc (suc (suc zero))))))))) = list_type
of_code (suc (suc (suc (suc (suc (suc (suc (suc (suc (suc zero)))))))))) = set_type
of_code (suc (suc (suc (suc (suc (suc (suc (suc (suc (suc (suc zero))))))))))) = map_type
of_code (suc (suc (suc (suc (suc (suc (suc (suc (suc (suc (suc (suc zero)))))))))))) = struct_type
of_code n = unknown_type_code n

unfoldable pub compact_type : Kind → Outcome Ctype
compact_type Kind.bool = ok true_type
compact_type Kind.byte = ok byte_type
compact_type Kind.i16 = ok i16_type
compact_type Kind.i32 = ok i32_type
compact_type Kind.i64 = ok i64_type
compact_type Kind.double = ok double_type
compact_type Kind.binary = ok binary_type
compact_type Kind.string = ok binary_type
compact_type Kind.list = ok list_type
compact_type Kind.set = ok set_type
compact_type Kind.map = ok map_type
compact_type Kind.struct = ok struct_type
compact_type (Kind.unknown n) = err (unsupported_kind n)

unfoldable pub is_bool : Kind → Bool
is_bool Kind.bool = true
is_bool _ = false

-- A pattern of `w` bits as the pattern of 64 bits of the same signed number.
unfoldable pub sign_extend : ℕ → ℕ → ℕ
sign_extend w n = if leb (2 ^ w) (2 * n) then n + 2 ^ 64 - 2 ^ w else n

unfoldable pub little_endian : ℕ → ℕ → List ℕ
little_endian zero n = []
little_endian (suc k) n = n % 256 ∷ little_endian k (n / 256)

unfoldable pub read_little_endian : List ℕ → ℕ
read_little_endian [] = 0
read_little_endian (b ∷ rest) = b + 256 * read_little_endian rest

-- `is_utf8` is `utf8.Valid`; `max_cap` is the largest capacity for which `make([]any, 0, n)` does
-- not panic.
pub record Runtime : Type 0 where
  pub is_utf8 : List ℕ → Bool
  pub max_cap : ℕ

unfoldable pub guard_cap : Runtime → ℕ → Outcome (Unit {0})
guard_cap rt size = if leb size rt.max_cap then ok tt else panic cap_out_of_range

-- The nibble of a kind is read back as its type.
of_code-compact_type : (k : Kind) {t : Ctype} → compact_type k ≡ ok t → of_code (code t) ≡ t
unfolding of_code code compact_type
of_code-compact_type Kind.bool h = ground arith
of_code-compact_type _ h = ground arith
