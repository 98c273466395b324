-- ===== src/Protocol/Compact/Ends.antt =====
-- The decoder of protocol/compact.go on any input at all: it ends within the fuel of
-- `decode_struct` and `decode_message`, whatever the bytes are.
use line_go.Common.{ℕ, zero, suc, ◌+◌, ◌*◌, ◌/◌, ◌%◌, ◌<◌, ◌≢◌, arith, List}
use line_go.Common.{length, leb, ◌==◌}
use line_go.Protocol.Outcome.{
  out_of_fuel, Ensures, holds, fails, panics, Ensures-if, Ensures-bind, Ensures-weaken,
  Ensures-guard, Ensures-in_field, Ensures-ne-out_of_fuel, bad_protocol_id, unsupported_version,
}
use line_go.Protocol.Value.{Value, Members, no_members, insert}
use line_go.Protocol.Varint.{Reader}
use line_go.Protocol.Varint.Reads.{
  Takes, read_take-Takes, read_byte-Takes, read_varint-Takes, read_signed-Takes, read_binary-Takes,
}
use line_go.Protocol.Compact.Types.{
  Ctype, stop, true_type, false_type, byte_type, i16_type, i32_type, i64_type, double_type,
  binary_type, list_type, set_type, map_type, struct_type, unknown_type_code, of_code, Runtime,
  guard_cap,
}
use line_go.Protocol.Containers.{read_items-Ends, read_entries-Ends}
use line_go.Protocol.Compact.{
  read_size, read_field_id, read_container, read_value, read_struct, decode_struct, decode_message,
}

read_size-Takes : (header : ℕ) (bytes : List ℕ) → Takes 0 bytes (read_size header bytes)
unfolding read_size
read_size-Takes header bytes =
    Ensures-if (header / 16 == 15) (Ensures-weaken (λ r h. omega arith) (read_varint-Takes bytes))
      (holds (omega arith))

read_field_id-Takes :
    (previous header : ℕ) (bytes : List ℕ) → Takes 0 bytes (read_field_id previous header bytes)
unfolding read_field_id
read_field_id-Takes previous header bytes =
    Ensures-if (header / 16 == 0)
      (Ensures-bind (read_signed-Takes bytes) λ (id, rest) h. holds (omega arith))
      (holds (omega arith))

module _ (rt : Runtime) where
  guard_cap-Ensures : (size : ℕ) → Ensures (λ _. Unit {0}) (guard_cap rt size)
  unfolding guard_cap
  guard_cap-Ensures size = Ensures-if (leb size rt.max_cap) (holds tt) panics

  read_container-Takes :
      (read : Ctype → Reader Value) (bytes : List ℕ)
      → ((t : Ctype) (rest : List ℕ) → length rest < length bytes → Takes 0 rest (read t rest))
      → Takes 0 bytes (read_container rt read bytes)
  unfolding read_container
  read_container-Takes read bytes ends = Ensures-bind (read_byte-Takes bytes) λ (header, bytes₁) h₁.
      Ensures-bind (read_size-Takes header bytes₁) λ (size, bytes₂) h₂.
        Ensures-bind (guard_cap-Ensures size) λ _ _.
          Ensures-bind
            (read_items-Ends size (length bytes₂) (read (of_code (header % 16)))
              (λ rest k. ends (of_code (header % 16)) rest (omega arith)) bytes₂ (omega arith))
            λ (vs, bytes₃) h₃. holds (omega arith)

  mutual
    unfolding read_value

    read_value-Ends :
        (f : ℕ) (t : Ctype) (bytes : List ℕ)
        → 2 * length bytes + 1 < f
        → Takes 0 bytes (read_value rt f t bytes)
    read_value-Ends zero t bytes h = absurd (omega arith)
    read_value-Ends (suc f) true_type bytes h = holds (omega arith)
    read_value-Ends (suc f) false_type bytes h = holds (omega arith)
    read_value-Ends (suc f) byte_type bytes h =
        Ensures-bind (read_byte-Takes bytes) λ (b, rest) h₁. holds (omega arith)
    read_value-Ends (suc f) i16_type bytes h =
        Ensures-bind (read_signed-Takes bytes) λ (n, rest) h₁. holds (omega arith)
    read_value-Ends (suc f) i32_type bytes h =
        Ensures-bind (read_signed-Takes bytes) λ (n, rest) h₁. holds (omega arith)
    read_value-Ends (suc f) i64_type bytes h =
        Ensures-bind (read_signed-Takes bytes) λ (n, rest) h₁. holds (omega arith)
    read_value-Ends (suc f) double_type bytes h =
        Ensures-bind (read_take-Takes 8 bytes) λ (s, rest) h₁. holds (omega arith)
    read_value-Ends (suc f) binary_type bytes h =
        Ensures-bind (read_binary-Takes bytes) λ (s, rest) h₁. holds (omega arith)
    read_value-Ends (suc f) list_type bytes h =
        read_container-Takes (read_value rt f) bytes
          λ t rest k. read_value-Ends f t rest (omega arith)
    read_value-Ends (suc f) set_type bytes h =
        read_container-Takes (read_value rt f) bytes
          λ t rest k. read_value-Ends f t rest (omega arith)
    read_value-Ends (suc f) map_type bytes h =
        Ensures-bind (read_varint-Takes bytes) λ (size, bytes₁) h₁.
          Ensures-if (size == 0) (holds (omega arith)) (
            Ensures-bind (read_byte-Takes bytes₁) λ (types, bytes₂) h₂.
              Ensures-bind
                (read_entries-Ends size (length bytes₂) _ _
                  (λ rest k. read_value-Ends f (of_code (types / 16)) rest (omega arith))
                  (λ rest k. read_value-Ends f (of_code (types % 16)) rest (omega arith)) bytes₂
                  (omega arith))
                λ (es, bytes₃) h₃. holds (omega arith))
    read_value-Ends (suc f) struct_type bytes h =
        Ensures-bind (read_struct-Ends f 0 no_members bytes (omega arith))
          λ (result, rest) h₁. holds (omega arith)
    read_value-Ends (suc f) stop bytes h = fails
    read_value-Ends (suc f) (unknown_type_code n) bytes h = fails

    read_struct-Ends :
        (f previous : ℕ) (result : Members) (bytes : List ℕ)
        → 2 * length bytes < f
        → Takes 1 bytes (read_struct rt f previous result bytes)
    read_struct-Ends zero previous result bytes h = absurd (omega arith)
    read_struct-Ends (suc f) previous result bytes h =
        Ensures-bind (read_byte-Takes bytes) λ (header, bytes₁) h₁.
          Ensures-if (header == 0) (holds (omega arith)) (
            Ensures-bind (read_field_id-Takes previous header bytes₁) λ (id, bytes₂) h₂.
              Ensures-bind
                (Ensures-in_field id
                  (read_value-Ends f (of_code (header % 16)) bytes₂ (omega arith)))
                λ (v, bytes₃) h₃.
                  Ensures-weaken (λ r k. omega arith)
                    (read_struct-Ends f id (insert id v result) bytes₃ (omega arith)))

  -- Whatever the bytes are, `DecodeStruct` ends: it returns, fails or panics.
  decode_struct_ends : (bytes : List ℕ) → decode_struct rt bytes ≢ out_of_fuel
  unfolding decode_struct
  decode_struct_ends bytes = Ensures-ne-out_of_fuel (
      Ensures-bind {Q = λ _. Unit {0}}
        (read_struct-Ends (suc (2 * length bytes)) 0 no_members bytes (omega arith))
        λ r h. holds tt)

  -- Whatever the bytes are, `DecodeMessage` ends: it returns, fails or panics.
  pub decode_message_ends : (bytes : List ℕ) → decode_message rt bytes ≢ out_of_fuel
  unfolding decode_message
  decode_message_ends bytes = Ensures-ne-out_of_fuel (
      Ensures-bind {Q = λ _. Unit {0}} (read_byte-Takes bytes) λ (protocol_id, bytes₁) h₁.
        Ensures-guard (protocol_id == 0x82) bad_protocol_id λ _.
          Ensures-bind (read_byte-Takes bytes₁) λ (version_type, bytes₂) h₂.
            Ensures-guard (version_type % 32 == 1) (unsupported_version (version_type % 32)) λ _.
              Ensures-bind (read_varint-Takes bytes₂) λ (sequence_id, bytes₃) h₃.
                Ensures-bind (read_binary-Takes bytes₃) λ (name, bytes₄) h₄.
                  Ensures-bind
                    (read_struct-Ends (suc (2 * length bytes₄)) 0 no_members bytes₄ (omega arith))
                    λ r h. holds tt)
