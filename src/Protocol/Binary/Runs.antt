-- ===== src/Protocol/Binary/Runs.antt =====
-- Runs of the binary codec, and its theorems at concrete inputs.
use line_go.Common.{ℕ, ◌-◌, ◌^◌, ◌≡◌, ◌≢◌, refl, arith, true, false, List, [], ◌∷◌, ◌++◌}
use line_go.Protocol.Outcome.{ok, out_of_fuel}
use line_go.Protocol.Value.{
  Kind, boolean, integral, int, int16, int64, text, items, entries, Fields, no_fields, field,
  no_items, item, no_entries, entry, Members, no_members, member, insert, count, count_entries,
  plain_field, list_field, map_field, is_hashable,
}
use line_go.Protocol.Compact.{string_or_bytes}
use line_go.Protocol.Compact.Types.{sign_extend, Runtime}
use line_go.Protocol.Binary.Types.{code, binary_type, big_endian}
use line_go.Protocol.Binary.{
  i16, i32, i64, string, struct_value, encode_binary_call, decode_binary_message, max_length,
  max_size,
}
use line_go.Protocol.Binary.Decoded.{decoded, IsReadable, AreReadableFields}
use line_go.Protocol.Kept.{kept, IsPlain, ArePlainFields}
use line_go.Protocol.Binary.Kept.{type_of}
use line_go.Protocol.Binary.Ends.{decode_binary_message_ends}
use line_go.Protocol.Binary.RoundTrip.{decode_binary_message-encode_binary_call}

abbrev runtime : Runtime
runtime = record { is_utf8 = λ s. true; max_cap = 1_000_000 }

-- A list of bools, the int16 -1, and a map from texts to numbers.
abbrev sample : Fields
sample =
    field (list_field 2 Kind.bool) (items (item (boolean false) (item (boolean true) no_items))) (
      field (plain_field 1 Kind.i16) (integral int (2 ^ 64 - 1)) (
        field (map_field 3 Kind.string Kind.i64)
          (entries (entry (text (b'k' ∷ [])) (integral int 300) no_entries)) no_fields))

abbrev name : List ℕ
name = b'g' ∷ b'e' ∷ b't' ∷ []

sample-readable : AreReadableFields runtime sample
unfolding IsReadable plain_field list_field map_field count count_entries decoded is_hashable
    string_or_bytes max_length max_size
sample-readable = ground arith

sample-plain : ArePlainFields sample
unfolding IsPlain plain_field list_field map_field
sample-plain = ground arith

abbrev encoded : List ℕ
encoded =
    128 ∷ 1 ∷ 0 ∷ 1 ∷ 0 ∷ 0 ∷ 0 ∷ 3 ∷ 103 ∷ 101 ∷ 116 ∷ 0 ∷ 0 ∷ 1 ∷ 44 ∷ 15 ∷ 0 ∷ 2 ∷ 2 ∷ 0 ∷ 0 ∷ 0
    ∷ 2 ∷ 0 ∷ 1 ∷ 6 ∷ 0 ∷ 1 ∷ 255 ∷ 255 ∷ 13 ∷ 0 ∷ 3 ∷ 11 ∷ 10 ∷ 0 ∷ 0 ∷ 0 ∷ 1 ∷ 0 ∷ 0 ∷ 0 ∷ 1 ∷ 107
    ∷ 0 ∷ 0 ∷ 0 ∷ 0 ∷ 0 ∷ 0 ∷ 1 ∷ 44 ∷ 0 ∷ []

encode_sample : encode_binary_call name sample 300 ≡ ok encoded
unfolding encode_binary_call struct_value binary_type code plain_field list_field map_field count
    count_entries i16 i32 i64 string big_endian
encode_sample = refl

-- What the decoder makes of the fields.
abbrev sample_members : Members
sample_members = member 2 (items (item (boolean false) (item (boolean true) no_items))) (
    member 1 (integral int16 (2 ^ 64 - 1))
      (member 3 (entries (entry (text (b'k' ∷ [])) (integral int64 300) no_entries)) no_members))

decode_binary_message-encode_binary_call_example :
    decode_binary_message runtime (encoded ++ 9 ∷ [])
    ≡ ok (record { name = name; type = 1; sequence_id = 300; content = sample_members })
unfolding kept type_of insert string_or_bytes plain_field list_field map_field sign_extend
    max_length
decode_binary_message-encode_binary_call_example =
    decode_binary_message-encode_binary_call runtime name sample 300 (9 ∷ []) (omega arith)
      sample-readable sample-plain encode_sample

decode_binary_message_ends_example :
    decode_binary_message runtime (0x80 ∷ 1 ∷ 0 ∷ 1 ∷ 0 ∷ []) ≢ out_of_fuel
decode_binary_message_ends_example = decode_binary_message_ends runtime (0x80 ∷ 1 ∷ 0 ∷ 1 ∷ 0 ∷ [])
