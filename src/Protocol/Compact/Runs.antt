-- ===== src/Protocol/Compact/Runs.antt =====
-- Runs of the compact codec, and its theorems at concrete inputs.
use line_go.Common.{ℕ, ◌+◌, ◌*◌, ◌≡◌, ◌≢◌, refl, arith, true, false, List, [], ◌∷◌, ◌++◌}
use line_go.Protocol.Outcome.{ok, panic, out_of_fuel, unhashable_key}
use line_go.Protocol.Value.{
  Kind, boolean, integral, int64, int, text, fields, items, entries, members, Fields, no_fields,
  field, no_items, item, no_entries, entry, Members, no_members, member, insert, count,
  count_entries, plain_field, list_field, map_field, is_hashable,
}
use line_go.Protocol.Varint.{varint, groups, signed, zigzag, binary}
use line_go.Protocol.Compact.Types.{
  i64_type, list_type, map_type, byte_type, code, compact_type, is_bool, sign_extend, Runtime,
}
use line_go.Protocol.Compact.{
  field_header, field_type, list_header, value, struct_value, list_items, encode_call, read_value,
  decode_message, string_or_bytes,
}
use line_go.Protocol.Compact.Decoded.{decoded, IsReadable, AreReadableFields}
use line_go.Protocol.Kept.{kept, IsPlain, ArePlainFields}
use line_go.Protocol.Compact.Kept.{type_of}
use line_go.Protocol.Compact.Ends.{decode_message_ends}
use line_go.Protocol.Compact.RoundTrip.{decode_message-encode_call}
use line_go.Protocol.Compact.Faults.{trues, read_value-bools, read_value-list_key}

-- Every string counts as UTF-8, and a slice holds a million values at most.
abbrev runtime : Runtime
runtime = record { is_utf8 = λ s. true; max_cap = 1_000_000 }

-- A struct with a bool, a list of structs, and a map from texts to numbers.
abbrev sample : Fields
sample = field (plain_field 1 Kind.bool) (boolean false) (
    field (list_field 2 Kind.struct)
      (items (item (fields (field (plain_field 40 Kind.i32) (integral int 7) no_fields)) no_items))
      (field (map_field 3 Kind.string Kind.i64)
        (entries (entry (text (b'k' ∷ [])) (integral int 300) no_entries)) no_fields))

sample-readable : AreReadableFields runtime sample
unfolding IsReadable plain_field list_field map_field is_bool count count_entries decoded
    is_hashable string_or_bytes
sample-readable = ground arith

sample-plain : ArePlainFields sample
unfolding IsPlain plain_field list_field map_field
sample-plain = ground arith

abbrev name : List ℕ
name = b'g' ∷ b'e' ∷ b't' ∷ []

-- The bytes of the call: the header, the name and the fields.
abbrev encoded : List ℕ
encoded =
    130 ∷ 33 ∷ 172 ∷ 2 ∷ 3 ∷ 103 ∷ 101 ∷ 116 ∷ 18 ∷ 25 ∷ 28 ∷ 5 ∷ 80 ∷ 14 ∷ 0 ∷ 27 ∷ 1 ∷ 134 ∷ 1
    ∷ 107 ∷ 216 ∷ 4 ∷ 0 ∷ []

encode_sample : encode_call name sample 300 ≡ ok encoded
unfolding encode_call struct_value field_type compact_type field_header sign_extend code is_bool
    plain_field list_field map_field list_header count count_entries varint groups signed zigzag
    binary
encode_sample = refl

-- What the decoder makes of the fields.
abbrev sample_members : Members
sample_members = member 1 (boolean false) (
    member 2 (items (item (members (member 40 (integral int64 7) no_members)) no_items))
      (member 3 (entries (entry (text (b'k' ∷ [])) (integral int64 300) no_entries)) no_members))

decode_message-encode_call_example :
    decode_message runtime (encoded ++ 9 ∷ [])
    ≡ ok (record { name = name; type = 1; sequence_id = 300; content = sample_members })
unfolding kept type_of insert string_or_bytes plain_field list_field map_field
decode_message-encode_call_example =
    decode_message-encode_call runtime name sample 300 (9 ∷ []) (omega arith) (omega arith)
      sample-readable sample-plain encode_sample

decode_message_ends_example : decode_message runtime (0x82 ∷ 0x21 ∷ 0x80 ∷ []) ≢ out_of_fuel
decode_message_ends_example = decode_message_ends runtime (0x82 ∷ 0x21 ∷ 0x80 ∷ [])

read_value-bools_example :
    read_value runtime 2 list_type (0x21 ∷ 2 ∷ 1 ∷ 0 ∷ []) ≡ ok (items (trues 2), 2 ∷ 1 ∷ 0 ∷ [])
unfolding value list_field compact_type list_header count code list_items
read_value-bools_example =
    read_value-bools runtime (false ∷ true ∷ []) 4 0 {bytes = 0x21 ∷ 2 ∷ 1 ∷ []} (0 ∷ [])
      (omega arith) (omega arith) refl

-- A map whose key is the list of the bytes 5 and 6, with the number 300 as its value.
read_value-list_key_example :
    read_value runtime 7 map_type (
      varint 1
      ++ (code list_type * 16 + code i64_type)
        ∷ (list_header 2 byte_type ++ 5 ∷ 6 ∷ (0xd8 ∷ 4 ∷ [])))
    ≡ panic unhashable_key
unfolding value compact_type varint groups signed zigzag is_bool IsReadable
read_value-list_key_example =
    read_value-list_key runtime 0 5 (5 ∷ 6 ∷ []) (integral int 300) Kind.i64 i64_type
      {written = 0xd8 ∷ 4 ∷ []} [] (omega arith) (omega arith) (omega arith) refl (omega arith) refl
      refl (omega arith)
