-- ===== src/Protocol/Compact/Decoded.antt =====
-- What the decoder of protocol/compact.go makes of an encoded value, and the values whose bytes it
-- accepts. The decoder keeps neither the integer's Go type nor the difference of text and bytes, a
-- byte is truncated by the encoder, and the decoder takes no byte for a bool in a container, which
-- the encoder writes.
use line_go.Common.{◌%◌, ◌^◌, ◌≤◌, ◌<◌, ◌≡◌, true, false, length}
use line_go.Protocol.Value.{
  Kind, Spec, Value, boolean, integral, int8, int64, floating, text, raw, fields, items, entries,
  members, other, Fields, no_fields, field, Items, no_items, item, Entries, no_entries, entry,
  Members, zero_spec, insert, count, count_entries, is_hashable, no_members,
}
use line_go.Protocol.Compact.Types.{is_bool, sign_extend, Runtime}
use line_go.Protocol.Compact.{string_or_bytes}

module _ (rt : Runtime) where
  -- The value that is read for `v` of a kind.
  unfoldable mutual
    pub decoded : Value → Kind → Spec → Value
    decoded (boolean b) Kind.bool spec = boolean b
    decoded v Kind.bool spec = boolean true
    decoded (integral t n) Kind.byte spec = integral int8 (sign_extend 8 (n % 256))
    decoded (integral t n) kind spec = integral int64 n
    decoded (text s) kind spec = string_or_bytes rt s
    decoded (raw s) kind spec = string_or_bytes rt s
    decoded (fields fs) kind spec = members (decoded_fields fs no_members)
    decoded (items vs) kind spec = items (decoded_items vs spec.element_kind)
    decoded (entries es) kind spec = entries (decoded_entries es spec.key_kind spec.value_kind)
    decoded (floating n) kind spec = floating n
    decoded (boolean b) kind spec = boolean b
    decoded (members m) kind spec = members m
    decoded other kind spec = other

    -- A later field with the same ID overwrites an earlier one.
    pub decoded_fields : Fields → Members → Members
    decoded_fields no_fields result = result
    decoded_fields (field spec v rest) result =
        decoded_fields rest (insert spec.id (decoded v spec.kind spec) result)

    pub decoded_items : Items → Kind → Items
    decoded_items no_items kind = no_items
    decoded_items (item v vs) kind = item (decoded v kind zero_spec) (decoded_items vs kind)

    pub decoded_entries : Entries → Kind → Kind → Entries
    decoded_entries no_entries key_kind value_kind = no_entries
    decoded_entries (entry k v es) key_kind value_kind =
        entry (decoded k key_kind zero_spec) (decoded v value_kind zero_spec)
          (decoded_entries es key_kind value_kind)

  -- Numbers are 64-bit patterns, IDs 16-bit patterns and lengths fit; no container holds bools; a
  -- map's keys can be hashed after they are read.
  unfoldable mutual
    pub IsReadable : Value → Spec → Type 0
    IsReadable (integral t n) spec = n < 2 ^ 64
    IsReadable (floating n) spec = n < 2 ^ 64
    IsReadable (text s) spec = length s < 2 ^ 64
    IsReadable (raw s) spec = length s < 2 ^ 64
    IsReadable (fields fs) spec = AreReadableFields fs
    IsReadable (items vs) spec =
        (is_bool spec.element_kind ≡ false)
        × (count vs < 2 ^ 64)
        × (count vs ≤ rt.max_cap)
        × AreReadableItems vs
    IsReadable (entries es) spec =
        (is_bool spec.key_kind ≡ false)
        × (is_bool spec.value_kind ≡ false)
        × (count_entries es < 2 ^ 64)
        × AreReadableEntries es spec.key_kind
    IsReadable _ spec = Unit

    pub AreReadableFields : Fields → Type 0
    AreReadableFields no_fields = Unit
    AreReadableFields (field spec v rest) =
        (spec.id < 2 ^ 16) × IsReadable v spec × AreReadableFields rest

    pub AreReadableItems : Items → Type 0
    AreReadableItems no_items = Unit
    AreReadableItems (item v vs) = IsReadable v zero_spec × AreReadableItems vs

    pub AreReadableEntries : Entries → Kind → Type 0
    AreReadableEntries no_entries key_kind = Unit
    AreReadableEntries (entry k v es) key_kind =
        IsReadable k zero_spec
        × IsReadable v zero_spec
        × (is_hashable (decoded k key_kind zero_spec) ≡ true)
        × AreReadableEntries es key_kind
