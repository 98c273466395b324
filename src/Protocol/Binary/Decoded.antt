-- ===== src/Protocol/Binary/Decoded.antt =====
-- What the decoder of protocol/binary.go makes of an encoded value, and the values whose bytes it
-- accepts. An integer is truncated to the width of its kind by the encoder, and the decoder does not
-- keep the difference of text and bytes.
use line_go.Common.{ℕ, ◌%◌, ◌^◌, ◌≤◌, ◌<◌, ◌≡◌, true, length}
use line_go.Protocol.Value.{
  Kind, Spec, Value, boolean, integral, int8, int16, int32, int64, floating, text, raw, fields,
  items, entries, members, other, Fields, no_fields, field, Items, no_items, item, Entries,
  no_entries, entry, Members, zero_spec, insert, count, count_entries, is_hashable, no_members,
}
use line_go.Protocol.Compact.{string_or_bytes}
use line_go.Protocol.Compact.Types.{sign_extend, Runtime}
use line_go.Protocol.Binary.{max_length, max_size}

-- The integer that is read for `n` of a kind.
unfoldable pub decoded_integer : ℕ → Kind → Value
decoded_integer n Kind.byte = integral int8 (sign_extend 8 (n % 256))
decoded_integer n Kind.i16 = integral int16 (sign_extend 16 (n % 2 ^ 16))
decoded_integer n Kind.i32 = integral int32 (sign_extend 32 (n % 2 ^ 32))
decoded_integer n kind = integral int64 n

module _ (rt : Runtime) where
  -- The value that is read for `v` of a kind.
  unfoldable mutual
    pub decoded : Value → Kind → Spec → Value
    decoded (integral t n) kind spec = decoded_integer n kind
    decoded (text s) kind spec = string_or_bytes rt s
    decoded (raw s) kind spec = string_or_bytes rt s
    decoded (fields fs) kind spec = members (decoded_fields fs no_members)
    decoded (items vs) kind spec = items (decoded_items vs spec.element_kind)
    decoded (entries es) kind spec = entries (decoded_entries es spec.key_kind spec.value_kind)
    decoded (floating n) kind spec = floating n
    decoded (boolean b) kind spec = boolean b
    decoded (members m) kind spec = members m
    decoded other kind spec = other

    -- A later field with the same ID overwrites an earlier one.
    pub decoded_fields : Fields → Members → Members
    decoded_fields no_fields result = result
    decoded_fields (field spec v rest) result =
        decoded_fields rest (insert spec.id (decoded v spec.kind spec) result)

    pub decoded_items : Items → Kind → Items
    decoded_items no_items kind = no_items
    decoded_items (item v vs) kind = item (decoded v kind zero_spec) (decoded_items vs kind)

    pub decoded_entries : Entries → Kind → Kind → Entries
    decoded_entries no_entries key_kind value_kind = no_entries
    decoded_entries (entry k v es) key_kind value_kind =
        entry (decoded k key_kind zero_spec) (decoded v value_kind zero_spec)
          (decoded_entries es key_kind value_kind)

  -- Numbers are 64-bit patterns, IDs 16-bit patterns; strings and containers stay within the
  -- reader's limits; a map's keys can be hashed after they are read.
  unfoldable mutual
    pub IsReadable : Value → Spec → Type 0
    IsReadable (integral t n) spec = n < 2 ^ 64
    IsReadable (floating n) spec = n < 2 ^ 64
    IsReadable (text s) spec = length s ≤ max_length
    IsReadable (raw s) spec = length s ≤ max_length
    IsReadable (fields fs) spec = AreReadableFields fs
    IsReadable (items vs) spec = (count vs ≤ max_size) × AreReadableItems vs
    IsReadable (entries es) spec =
        (count_entries es ≤ max_size) × AreReadableEntries es spec.key_kind
    IsReadable _ spec = Unit

    pub AreReadableFields : Fields → Type 0
    AreReadableFields no_fields = Unit
    AreReadableFields (field spec v rest) =
        (spec.id < 2 ^ 16) × IsReadable v spec × AreReadableFields rest

    pub AreReadableItems : Items → Type 0
    AreReadableItems no_items = Unit
    AreReadableItems (item v vs) = IsReadable v zero_spec × AreReadableItems vs

    pub AreReadableEntries : Entries → Kind → Type 0
    AreReadableEntries no_entries key_kind = Unit
    AreReadableEntries (entry k v es) key_kind =
        IsReadable k zero_spec
        × IsReadable v zero_spec
        × (is_hashable (decoded k key_kind zero_spec) ≡ true)
        × AreReadableEntries es key_kind
