-- ===== src/Protocol/Compact.antt =====
-- protocol/compact.go: the compact encoding of calls, and its decoder. As in Varint, a writer
-- method is the bytes that it appends and a reader is the bytes from `pos` on. An int16 is its
-- pattern of 16 bits.
pub mod Types
pub mod Ends
mod Runs
pub mod Faults
pub mod Decoded
pub mod Kept
pub mod Headers
pub mod RoundTrip
use line_go.Common.{ℕ, zero, suc, ◌+◌, ◌-◌, ◌*◌, ◌/◌, ◌%◌, ◌^◌, Bool, true, false, ◌&&◌}
use line_go.Common.{List, [], ◌∷◌, ◌++◌, ltb, leb, ◌==◌, if◌then◌else◌, length}
use line_go.Protocol.Outcome.{
  Outcome, ok, err, out_of_fuel, Error, bad_protocol_id, unsupported_version, unknown_type,
  expected_bool, expected_integer, expected_double, expected_string, expected_bytes,
  expected_fields, expected_list, expected_map, unsupported_kind, guard, in_field, ◌>>=◌, ◌>>◌,
}
use line_go.Protocol.Value.{
  Kind, Spec, Value, boolean, integral, int8, int64, floating, text, raw, fields, items, entries,
  members, Fields, no_fields, field, Items, no_items, item, Entries, no_entries, entry, Members,
  no_members, zero_spec, Message, insert, count, count_entries,
}
use line_go.Protocol.Varint.{
  Reader, varint, signed, binary, read_take, read_byte, read_varint, read_signed, read_binary,
}
use line_go.Protocol.Compact.Types.{
  Ctype, stop, true_type, false_type, byte_type, i16_type, i32_type, i64_type, double_type,
  binary_type, list_type, set_type, map_type, struct_type, unknown_type_code, code, of_code,
  compact_type, is_bool, sign_extend, little_endian, read_little_endian, Runtime, guard_cap,
}
use line_go.Protocol.Containers.{read_items, read_entries}

-- `byte(delta<<4)|ctype`, or the type and the field's ID where the step is not 1 to 15.
unfoldable pub field_header : ℕ → ℕ → Ctype → List ℕ
field_header previous id ctype =
    let delta = (id + 2 ^ 16 - previous) % 2 ^ 16 in
    if ltb 0 delta && leb delta 15
    then (delta * 16 + code ctype) ∷ []
    else code ctype ∷ signed (sign_extend 16 id)

-- A field of kind Bool has its value in the type; a value that is no bool counts as true.
unfoldable pub field_type : Kind → Value → Outcome Ctype
field_type Kind.bool (boolean false) = ok false_type
field_type Kind.bool _ = ok true_type
field_type kind _ = compact_type kind

-- The error of a type assertion that fails, and of the `default` case.
unfoldable pub expected : Kind → Error
expected Kind.bool = expected_bool
expected Kind.byte = expected_integer
expected Kind.i16 = expected_integer
expected Kind.i32 = expected_integer
expected Kind.i64 = expected_integer
expected Kind.double = expected_double
expected Kind.string = expected_string
expected Kind.binary = expected_bytes
expected Kind.struct = expected_fields
expected Kind.list = expected_list
expected Kind.set = expected_list
expected Kind.map = expected_map
expected (Kind.unknown n) = unsupported_kind n

unfoldable pub list_header : ℕ → Ctype → List ℕ
list_header size ctype =
    if leb size 14 then (size * 16 + code ctype) ∷ [] else (0xf0 + code ctype) ∷ varint size

unfoldable mutual
  pub value : Value → Kind → Spec → Outcome (List ℕ)
  value (boolean b) Kind.bool spec = ok ((if b then 1 else 2) ∷ [])
  value (integral t n) Kind.byte spec = ok (n % 256 ∷ [])
  value (integral t n) Kind.i16 spec = ok (signed n)
  value (integral t n) Kind.i32 spec = ok (signed n)
  value (integral t n) Kind.i64 spec = ok (signed n)
  value (floating n) Kind.double spec = ok (little_endian 8 n)
  value (text s) Kind.string spec = ok (binary s)
  value (raw s) Kind.binary spec = ok (binary s)
  value (fields fs) Kind.struct spec = struct_value fs 0
  value (items vs) Kind.list spec = do
    ctype ← compact_type spec.element_kind
    body ← list_items vs spec.element_kind
    ok (list_header (count vs) ctype ++ body)
  value (items vs) Kind.set spec = do
    ctype ← compact_type spec.element_kind
    body ← list_items vs spec.element_kind
    ok (list_header (count vs) ctype ++ body)
  value (entries no_entries) Kind.map spec = ok (varint 0)
  value (entries (entry k v es)) Kind.map spec = do
    key_type ← compact_type spec.key_kind
    value_type ← compact_type spec.value_kind
    first ← value k spec.key_kind zero_spec
    second ← value v spec.value_kind zero_spec
    body ← map_entries es spec.key_kind spec.value_kind
    ok (
        varint (suc (count_entries es))
        ++ (code key_type * 16 + code value_type) ∷ (first ++ (second ++ body)))
  value _ kind spec = err (expected kind)

  pub struct_value : Fields → ℕ → Outcome (List ℕ)
  struct_value no_fields previous = ok (0 ∷ [])
  struct_value (field spec v rest) previous = do
    ctype ← field_type spec.kind v
    body ← if is_bool spec.kind then ok [] else in_field spec.id (value v spec.kind spec)
    tail ← struct_value rest spec.id
    ok (field_header previous spec.id ctype ++ (body ++ tail))

  pub list_items : Items → Kind → Outcome (List ℕ)
  list_items no_items kind = ok []
  list_items (item v vs) kind = do
    first ← value v kind zero_spec
    rest ← list_items vs kind
    ok (first ++ rest)

  pub map_entries : Entries → Kind → Kind → Outcome (List ℕ)
  map_entries no_entries key_kind value_kind = ok []
  map_entries (entry k v es) key_kind value_kind = do
    first ← value k key_kind zero_spec
    second ← value v value_kind zero_spec
    rest ← map_entries es key_kind value_kind
    ok (first ++ (second ++ rest))

unfoldable pub encode_call : List ℕ → Fields → ℕ → Outcome (List ℕ)
encode_call name fs sequence_id = do
  body ← struct_value fs 0
  ok (0x82 ∷ 0x21 ∷ (varint sequence_id ++ (binary name ++ body)))

-- The size in the header's high nibble, or after it where the nibble is 15.
unfoldable pub read_size : ℕ → Reader ℕ
read_size header bytes = if header / 16 == 15 then read_varint bytes else ok (header / 16, bytes)

unfoldable pub read_field_id : ℕ → ℕ → Reader ℕ
read_field_id previous header bytes =
    if header / 16 == 0
    then (do (id, rest) ← read_signed bytes; ok (id % 2 ^ 16, rest))
    else ok ((previous + header / 16) % 2 ^ 16, bytes)

module _ (rt : Runtime) where
  unfoldable pub string_or_bytes : List ℕ → Value
  string_or_bytes s = if rt.is_utf8 s then text s else raw s

  -- The shared case of compactList and compactSet.
  unfoldable pub read_container : (Ctype → Reader Value) → Reader Value
  read_container read bytes = do
    (header, bytes₁) ← read_byte bytes
    (size, bytes₂) ← read_size header bytes₁
    guard_cap rt size
    (vs, bytes₃) ← read_items size (read (of_code (header % 16))) bytes₂
    ok (items vs, bytes₃)

  -- Every call costs a unit of fuel. Of two calls, one inside the other, the outer one has read a
  -- byte, unless it is the call for a struct.
  unfoldable mutual
    pub read_value : ℕ → Ctype → Reader Value
    read_value zero ctype bytes = out_of_fuel
    read_value (suc f) true_type bytes = ok (boolean true, bytes)
    read_value (suc f) false_type bytes = ok (boolean false, bytes)
    read_value (suc f) byte_type bytes = do
      (b, rest) ← read_byte bytes
      ok (integral int8 (sign_extend 8 b), rest)
    read_value (suc f) i16_type bytes = do
      (n, rest) ← read_signed bytes
      ok (integral int64 n, rest)
    read_value (suc f) i32_type bytes = do
      (n, rest) ← read_signed bytes
      ok (integral int64 n, rest)
    read_value (suc f) i64_type bytes = do
      (n, rest) ← read_signed bytes
      ok (integral int64 n, rest)
    read_value (suc f) double_type bytes = do
      (s, rest) ← read_take 8 bytes
      ok (floating (read_little_endian s), rest)
    read_value (suc f) binary_type bytes = do
      (s, rest) ← read_binary bytes
      ok (string_or_bytes s, rest)
    read_value (suc f) list_type bytes = read_container (read_value f) bytes
    read_value (suc f) set_type bytes = read_container (read_value f) bytes
    read_value (suc f) map_type bytes = do
      (size, bytes₁) ← read_varint bytes
      if size == 0 then ok (entries no_entries, bytes₁) else do
        (types, bytes₂) ← read_byte bytes₁
        (es, bytes₃) ←
            read_entries size (read_value f (of_code (types / 16)))
              (read_value f (of_code (types % 16))) bytes₂
        ok (entries es, bytes₃)
    read_value (suc f) struct_type bytes = do
      (result, rest) ← read_struct f 0 no_members bytes
      ok (members result, rest)
    read_value (suc f) stop bytes = err (unknown_type 0)
    read_value (suc f) (unknown_type_code n) bytes = err (unknown_type n)

    pub read_struct : ℕ → ℕ → Members → Reader Members
    read_struct zero previous result bytes = out_of_fuel
    read_struct (suc f) previous result bytes = do
      (header, bytes₁) ← read_byte bytes
      if header == 0 then ok (result, bytes₁) else do
        (id, bytes₂) ← read_field_id previous header bytes₁
        (v, bytes₃) ← in_field id (read_value f (of_code (header % 16)) bytes₂)
        read_struct f id (insert id v result) bytes₃

  -- The fuel of a decoder: two units for each byte, and one more.
  pub decode_struct : List ℕ → Outcome Members
  decode_struct bytes = do
    (result, rest) ← read_struct (suc (2 * length bytes)) 0 no_members bytes
    ok result

  unfoldable pub decode_message : List ℕ → Outcome Message
  decode_message bytes = do
    (protocol_id, bytes₁) ← read_byte bytes
    guard (protocol_id == 0x82) bad_protocol_id
    (version_type, bytes₂) ← read_byte bytes₁
    guard (version_type % 32 == 1) (unsupported_version (version_type % 32))
    (sequence_id, bytes₃) ← read_varint bytes₂
    (name, bytes₄) ← read_binary bytes₃
    (content, rest) ← read_struct (suc (2 * length bytes₄)) 0 no_members bytes₄
    ok (record {
      name = name;
      type = version_type / 32;
      sequence_id = sequence_id;
      content = content;
    })
