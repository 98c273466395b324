-- ===== src/Protocol/Binary.antt =====
-- protocol/binary.go: the binary encoding of calls, and its decoder, over the data of Value. The
-- fixed-width integers are big-endian patterns; a reader is the bytes from `pos` on.
pub mod Types
pub mod Numbers
pub mod Ends
mod Runs
pub mod Decoded
pub mod Kept
pub mod RoundTrip
use line_go.Common.{ℕ, zero, suc, ◌+◌, ◌*◌, ◌/◌, ◌%◌, ◌^◌, Bool, true, false, ◌||◌, not}
use line_go.Common.{List, [], ◌∷◌, ◌++◌, ltb, leb, ◌==◌, if◌then◌else◌, length}
use line_go.Protocol.Outcome.{
  Outcome, ok, err, out_of_fuel, Error, unsupported_version, unknown_type, invalid_length,
  invalid_size, guard, in_field, ◌>>=◌, ◌>>◌,
}
use line_go.Protocol.Value.{
  Kind, Spec, Value, boolean, integral, int8, int16, int32, int64, floating, text, raw, fields,
  items, entries, members, Fields, no_fields, field, Items, no_items, item, Entries, no_entries,
  entry, Members, no_members, zero_spec, Message, insert, count, count_entries,
}
use line_go.Protocol.Varint.{Reader, read_take, read_byte}
use line_go.Protocol.Compact.{expected, string_or_bytes}
use line_go.Protocol.Containers.{read_items, read_entries}
use line_go.Protocol.Compact.Types.{sign_extend, Runtime}
use line_go.Protocol.Binary.Types.{
  Btype, bool_type, byte_type, double_type, i16_type, i32_type, i64_type, string_type, struct_type,
  map_type, set_type, list_type, unknown_type_code, code, of_code, binary_type, big_endian,
  read_big_endian, is_negative,
}

unfoldable pub i16 : ℕ → List ℕ
i16 n = big_endian 2 n

unfoldable pub i32 : ℕ → List ℕ
i32 n = big_endian 4 n

unfoldable pub i64 : ℕ → List ℕ
i64 n = big_endian 8 n

-- The length is truncated to an int32.
unfoldable pub string : List ℕ → List ℕ
string s = i32 (length s) ++ s

mutual
  pub value : Value → Kind → Spec → Outcome (List ℕ)
  value (boolean b) Kind.bool spec = ok ((if b then 1 else 0) ∷ [])
  value (integral t n) Kind.byte spec = ok (n % 256 ∷ [])
  value (integral t n) Kind.i16 spec = ok (i16 n)
  value (integral t n) Kind.i32 spec = ok (i32 n)
  value (integral t n) Kind.i64 spec = ok (i64 n)
  value (floating n) Kind.double spec = ok (i64 n)
  value (text s) Kind.string spec = ok (string s)
  value (raw s) Kind.binary spec = ok (string s)
  value (fields fs) Kind.struct spec = struct_value fs
  value (items vs) Kind.list spec = do
    element ← binary_type spec.element_kind
    body ← list_items vs spec.element_kind
    ok (code element ∷ (i32 (count vs) ++ body))
  value (items vs) Kind.set spec = do
    element ← binary_type spec.element_kind
    body ← list_items vs spec.element_kind
    ok (code element ∷ (i32 (count vs) ++ body))
  value (entries es) Kind.map spec = do
    key ← binary_type spec.key_kind
    elem ← binary_type spec.value_kind
    body ← map_entries es spec.key_kind spec.value_kind
    ok (code key ∷ code elem ∷ (i32 (count_entries es) ++ body))
  value _ kind spec = err (expected kind)

  pub struct_value : Fields → Outcome (List ℕ)
  struct_value no_fields = ok (0 ∷ [])
  struct_value (field spec v rest) = do
    type ← binary_type spec.kind
    body ← in_field spec.id (value v spec.kind spec)
    tail ← struct_value rest
    ok (code type ∷ (i16 spec.id ++ (body ++ tail)))

  pub list_items : Items → Kind → Outcome (List ℕ)
  list_items no_items kind = ok []
  list_items (item v vs) kind = do
    first ← value v kind zero_spec
    rest ← list_items vs kind
    ok (first ++ rest)

  pub map_entries : Entries → Kind → Kind → Outcome (List ℕ)
  map_entries no_entries key_kind value_kind = ok []
  map_entries (entry k v es) key_kind value_kind = do
    first ← value k key_kind zero_spec
    second ← value v value_kind zero_spec
    rest ← map_entries es key_kind value_kind
    ok (first ++ (second ++ rest))

-- -2147418111 is 0x80010001 as an int32.
pub encode_binary_call : List ℕ → Fields → ℕ → Outcome (List ℕ)
encode_binary_call name fs sequence_id = do
  body ← struct_value fs
  ok (i32 0x80010001 ++ (string name ++ (i32 sequence_id ++ body)))

unfoldable pub read_number : ℕ → Reader ℕ
read_number width bytes = do (s, rest) ← read_take width bytes; ok (read_big_endian s, rest)

unfoldable pub max_length : ℕ
max_length = 64 * 1024 * 1024

unfoldable pub max_size : ℕ
max_size = 1_000_000

unfoldable pub read_bytes : Reader (List ℕ)
read_bytes bytes = do
  (size, rest) ← read_number 4 bytes
  guard (not (is_negative 32 size || ltb max_length size)) (invalid_length size)
  read_take size rest

-- The size of a list, a set or a map.
unfoldable pub read_size : Reader ℕ
read_size bytes = do
  (size, rest) ← read_number 4 bytes
  guard (not (is_negative 32 size || ltb max_size size)) (invalid_size size)
  ok (size, rest)

-- The shared case of binaryList and binarySet.
unfoldable pub read_container : (Btype → Reader Value) → Reader Value
read_container read bytes = do
  (element, bytes₁) ← read_byte bytes
  (size, bytes₂) ← read_size bytes₁
  (vs, bytes₃) ← read_items size (read (of_code element)) bytes₂
  ok (items vs, bytes₃)

module _ (rt : Runtime) where
  -- Every call costs a unit of fuel, as in the decoder of Compact.
  mutual
    pub read_value : ℕ → Btype → Reader Value
    read_value zero type bytes = out_of_fuel
    read_value (suc f) bool_type bytes = do
      (b, rest) ← read_byte bytes
      ok (boolean (not (b == 0)), rest)
    read_value (suc f) byte_type bytes = do
      (b, rest) ← read_byte bytes
      ok (integral int8 (sign_extend 8 b), rest)
    read_value (suc f) i16_type bytes = do
      (n, rest) ← read_number 2 bytes
      ok (integral int16 (sign_extend 16 n), rest)
    read_value (suc f) i32_type bytes = do
      (n, rest) ← read_number 4 bytes
      ok (integral int32 (sign_extend 32 n), rest)
    read_value (suc f) i64_type bytes = do
      (n, rest) ← read_number 8 bytes
      ok (integral int64 n, rest)
    read_value (suc f) double_type bytes = do (n, rest) ← read_number 8 bytes; ok (floating n, rest)
    read_value (suc f) string_type bytes = do
      (s, rest) ← read_bytes bytes
      ok (string_or_bytes rt s, rest)
    read_value (suc f) struct_type bytes = do
      (result, rest) ← read_struct f no_members bytes
      ok (members result, rest)
    read_value (suc f) map_type bytes = do
      (key_type, bytes₁) ← read_byte bytes
      (item_type, bytes₂) ← read_byte bytes₁
      (size, bytes₃) ← read_size bytes₂
      (es, bytes₄) ←
          read_entries size (read_value f (of_code key_type)) (read_value f (of_code item_type))
            bytes₃
      ok (entries es, bytes₄)
    read_value (suc f) list_type bytes = read_container (read_value f) bytes
    read_value (suc f) set_type bytes = read_container (read_value f) bytes
    read_value (suc f) (unknown_type_code n) bytes = err (unknown_type n)

    pub read_struct : ℕ → Members → Reader Members
    read_struct zero result bytes = out_of_fuel
    read_struct (suc f) result bytes = do
      (raw_type, bytes₁) ← read_byte bytes
      if raw_type == 0 then ok (result, bytes₁) else do
        (id, bytes₂) ← read_number 2 bytes₁
        (v, bytes₃) ← in_field id (read_value f (of_code raw_type) bytes₂)
        read_struct f (insert id v result) bytes₃

  pub decode_binary_message : List ℕ → Outcome Message
  decode_binary_message bytes = do
    (version_type, bytes₁) ← read_number 4 bytes
    guard (version_type / 2 ^ 16 == 0x8001) (unsupported_version version_type)
    (name, bytes₂) ← read_bytes bytes₁
    (sequence_id, bytes₃) ← read_number 4 bytes₂
    (content, rest) ← read_struct (suc (2 * length bytes₃)) no_members bytes₃
    ok (record {
      name = name;
      type = version_type % 256;
      sequence_id = sequence_id;
      content = content;
    })
