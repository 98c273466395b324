-- ===== src/Protocol/Binary/Ends.antt =====
-- The decoder of protocol/binary.go on any input at all: it ends within its fuel.
use line_go.Common.{ℕ, zero, suc, ◌+◌, ◌*◌, ◌/◌, ◌^◌, ◌<◌, ◌≢◌, arith, List, length, ◌==◌}
use line_go.Protocol.Outcome.{
  out_of_fuel, holds, fails, Ensures-if, Ensures-bind, Ensures-weaken, Ensures-guard,
  Ensures-in_field, Ensures-ne-out_of_fuel, unsupported_version,
}
use line_go.Protocol.Value.{Value, Members, no_members, insert}
use line_go.Protocol.Varint.{Reader}
use line_go.Protocol.Varint.Reads.{Takes, read_byte-Takes}
use line_go.Protocol.Containers.{read_items-Ends, read_entries-Ends}
use line_go.Protocol.Compact.Types.{Runtime}
use line_go.Protocol.Binary.Types.{
  Btype, bool_type, byte_type, double_type, i16_type, i32_type, i64_type, string_type, struct_type,
  map_type, set_type, list_type, unknown_type_code, of_code,
}
use line_go.Protocol.Binary.{read_container, read_value, read_struct, decode_binary_message}
use line_go.Protocol.Binary.Numbers.{read_number-Takes, read_bytes-Takes, read_size-Takes}

read_container-Takes :
    (read : Btype → Reader Value) (bytes : List ℕ)
    → ((t : Btype) (rest : List ℕ) → length rest < length bytes → Takes 0 rest (read t rest))
    → Takes 0 bytes (read_container read bytes)
unfolding read_container
read_container-Takes read bytes ends = Ensures-bind (read_byte-Takes bytes) λ (element, bytes₁) h₁.
    Ensures-bind (read_size-Takes bytes₁) λ (size, bytes₂) h₂.
      Ensures-bind
        (read_items-Ends size (length bytes₂) (read (of_code element))
          (λ rest k. ends (of_code element) rest (omega arith)) bytes₂ (omega arith))
        λ (vs, bytes₃) h₃. holds (omega arith)

module _ (rt : Runtime) where
  mutual
    unfolding read_value

    read_value-Ends :
        (f : ℕ) (t : Btype) (bytes : List ℕ)
        → 2 * length bytes + 1 < f
        → Takes 0 bytes (read_value rt f t bytes)
    read_value-Ends zero t bytes h = absurd (omega arith)
    read_value-Ends (suc f) bool_type bytes h =
        Ensures-bind (read_byte-Takes bytes) λ r h₁. holds (omega arith)
    read_value-Ends (suc f) byte_type bytes h =
        Ensures-bind (read_byte-Takes bytes) λ r h₁. holds (omega arith)
    read_value-Ends (suc f) i16_type bytes h =
        Ensures-bind (read_number-Takes 2 bytes) λ r h₁. holds (omega arith)
    read_value-Ends (suc f) i32_type bytes h =
        Ensures-bind (read_number-Takes 4 bytes) λ r h₁. holds (omega arith)
    read_value-Ends (suc f) i64_type bytes h =
        Ensures-bind (read_number-Takes 8 bytes) λ r h₁. holds (omega arith)
    read_value-Ends (suc f) double_type bytes h =
        Ensures-bind (read_number-Takes 8 bytes) λ r h₁. holds (omega arith)
    read_value-Ends (suc f) string_type bytes h =
        Ensures-bind (read_bytes-Takes bytes) λ r h₁. holds (omega arith)
    read_value-Ends (suc f) struct_type bytes h =
        Ensures-bind (read_struct-Ends f no_members bytes (omega arith)) λ r h₁. holds (omega arith)
    read_value-Ends (suc f) map_type bytes h =
        Ensures-bind (read_byte-Takes bytes) λ (key_type, bytes₁) h₁.
          Ensures-bind (read_byte-Takes bytes₁) λ (item_type, bytes₂) h₂.
            Ensures-bind (read_size-Takes bytes₂) λ (size, bytes₃) h₃.
              Ensures-bind
                (read_entries-Ends size (length bytes₃) _ _
                  (λ rest k. read_value-Ends f (of_code key_type) rest (omega arith))
                  (λ rest k. read_value-Ends f (of_code item_type) rest (omega arith)) bytes₃
                  (omega arith))
                λ r h₄. holds (omega arith)
    read_value-Ends (suc f) list_type bytes h =
        read_container-Takes (read_value rt f) bytes
          λ t rest k. read_value-Ends f t rest (omega arith)
    read_value-Ends (suc f) set_type bytes h =
        read_container-Takes (read_value rt f) bytes
          λ t rest k. read_value-Ends f t rest (omega arith)
    read_value-Ends (suc f) (unknown_type_code n) bytes h = fails

    read_struct-Ends :
        (f : ℕ) (result : Members) (bytes : List ℕ)
        → 2 * length bytes < f
        → Takes 1 bytes (read_struct rt f result bytes)
    read_struct-Ends zero result bytes h = absurd (omega arith)
    read_struct-Ends (suc f) result bytes h =
        Ensures-bind (read_byte-Takes bytes) λ (raw_type, bytes₁) h₁.
          Ensures-if (raw_type == 0) (holds (omega arith)) (
            Ensures-bind (read_number-Takes 2 bytes₁) λ (id, bytes₂) h₂.
              Ensures-bind
                (Ensures-in_field id (read_value-Ends f (of_code raw_type) bytes₂ (omega arith)))
                λ (v, bytes₃) h₃.
                  Ensures-weaken (λ r k. omega arith)
                    (read_struct-Ends f (insert id v result) bytes₃ (omega arith)))

  -- Whatever the bytes are, `DecodeBinaryMessage` ends: it returns, fails or panics.
  pub decode_binary_message_ends : (bytes : List ℕ) → decode_binary_message rt bytes ≢ out_of_fuel
  unfolding decode_binary_message
  decode_binary_message_ends bytes = Ensures-ne-out_of_fuel (
      Ensures-bind {Q = λ _. Unit {0}} (read_number-Takes 4 bytes) λ (version_type, bytes₁) h₁.
        Ensures-guard (version_type / 2 ^ 16 == 0x8001) (unsupported_version version_type) λ _.
          Ensures-bind (read_bytes-Takes bytes₁) λ (name, bytes₂) h₂.
            Ensures-bind (read_number-Takes 4 bytes₂) λ (sequence_id, bytes₃) h₃.
              Ensures-bind
                (read_struct-Ends (suc (2 * length bytes₃)) no_members bytes₃ (omega arith))
                λ r h. holds tt)
