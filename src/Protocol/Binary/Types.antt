-- ===== src/Protocol/Binary/Types.antt =====
-- The wire types of protocol/binary.go and its big-endian integers.
use line_go.Common.{ℕ, zero, suc, ◌+◌, ◌*◌, ◌/◌, ◌%◌, ◌^◌, Bool, List, [], ◌∷◌, ◌++◌, leb}
use line_go.Protocol.Outcome.{Outcome, ok, err, unsupported_kind}
use line_go.Protocol.Value.{Kind}

-- The constants binaryBool to binaryList; `unknown_type_code n` is any other byte.
pub data Btype : Type 0 where
  bool_type byte_type double_type i16_type i32_type i64_type string_type struct_type : Btype
  map_type set_type list_type : Btype
  unknown_type_code : ℕ → Btype

unfoldable pub code : Btype → ℕ
code bool_type = 2
code byte_type = 3
code double_type = 4
code i16_type = 6
code i32_type = 8
code i64_type = 10
code string_type = 11
code struct_type = 12
code map_type = 13
code set_type = 14
code list_type = 15
code (unknown_type_code n) = n

unfoldable pub of_code : ℕ → Btype
of_code (suc (suc zero)) = bool_type
of_code (suc (suc (suc zero))) = byte_type
of_code (suc (suc (suc (suc zero)))) = double_type
of_code (suc (suc (suc (suc (suc (suc zero)))))) = i16_type
of_code (suc (suc (suc (suc (suc (suc (suc (suc zero)))))))) = i32_type
of_code (suc (suc (suc (suc (suc (suc (suc (suc (suc (suc zero)))))))))) = i64_type
of_code (suc (suc (suc (suc (suc (suc (suc (suc (suc (suc (suc zero))))))))))) = string_type
of_code (suc (suc (suc (suc (suc (suc (suc (suc (suc (suc (suc (suc zero)))))))))))) = struct_type
of_code (suc (suc (suc (suc (suc (suc (suc (suc (suc (suc (suc (suc (suc zero))))))))))))) =
    map_type
of_code (suc (suc (suc (suc (suc (suc (suc (suc (suc (suc (suc (suc (suc (suc zero)))))))))))))) =
    set_type
of_code
      (suc
        (suc (suc (suc (suc (suc (suc (suc (suc (suc (suc (suc (suc (suc (suc zero))))))))))))))) =
    list_type
of_code n = unknown_type_code n

unfoldable pub binary_type : Kind → Outcome Btype
binary_type Kind.bool = ok bool_type
binary_type Kind.byte = ok byte_type
binary_type Kind.i16 = ok i16_type
binary_type Kind.i32 = ok i32_type
binary_type Kind.i64 = ok i64_type
binary_type Kind.double = ok double_type
binary_type Kind.binary = ok string_type
binary_type Kind.string = ok string_type
binary_type Kind.struct = ok struct_type
binary_type Kind.map = ok map_type
binary_type Kind.set = ok set_type
binary_type Kind.list = ok list_type
binary_type (Kind.unknown n) = err (unsupported_kind n)

-- The lowest `k` bytes of a number, the highest of them first.
unfoldable pub big_endian : ℕ → ℕ → List ℕ
big_endian zero n = []
big_endian (suc k) n = big_endian k (n / 256) ++ n % 256 ∷ []

unfoldable pub big_endian_from : ℕ → List ℕ → ℕ
big_endian_from acc [] = acc
big_endian_from acc (b ∷ rest) = big_endian_from (acc * 256 + b) rest

unfoldable pub read_big_endian : List ℕ → ℕ
unfolding big_endian_from
read_big_endian s = big_endian_from 0 s

-- The sign of a pattern of `w` bits.
unfoldable pub is_negative : ℕ → ℕ → Bool
is_negative w n = leb (2 ^ w) (2 * n)
