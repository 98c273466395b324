-- ===== src/Protocol/Compact/Kept.antt =====
-- What the codec of protocol/compact.go keeps of plain values.
use line_go.Common.{◌≡◌, refl, ap}
use line_go.Protocol.Value.{
  Kind, Spec, Value, IntType, boolean, integral, int8, int64, fields, items, entries, members,
  Fields, no_fields, field, Items, no_items, item, Entries, no_entries, entry, Members, zero_spec,
  no_members,
}
use line_go.Protocol.Compact.Types.{Runtime}
use line_go.Protocol.Compact.Decoded.{decoded, decoded_fields, decoded_items, decoded_entries}
use line_go.Protocol.Kept.{
  kept, kept_fields, kept_items, kept_entries, IsPlain, ArePlainFields, ArePlainItems,
  ArePlainEntries, sign_extend-byte,
}

-- The type of an integer that is read.
unfoldable pub type_of : Kind → IntType
type_of Kind.byte = int8
type_of _ = int64

module _ (rt : Runtime) where
  mutual
    unfolding decoded kept IsPlain type_of

    pub decoded-kept :
        (v : Value) (kind : Kind) (spec : Spec)
        → IsPlain v kind spec
        → decoded rt v kind spec ≡ kept rt type_of v kind spec
    decoded-kept (boolean b) Kind.bool spec p = refl
    decoded-kept (boolean b) kind spec p = refl
    decoded-kept v Kind.bool spec p = absurd p
    decoded-kept (integral t n) Kind.byte spec p = ap (integral int8) (sign_extend-byte n p)
    decoded-kept (integral t n) kind spec p = refl
    decoded-kept (fields fs) kind spec p = ap members (decoded_fields-kept fs no_members p)
    decoded-kept (items vs) kind spec p = ap items (decoded_items-kept vs spec.element_kind p)
    decoded-kept (entries es) kind spec p =
        ap entries (decoded_entries-kept es spec.key_kind spec.value_kind p)
    decoded-kept v kind spec p = refl

    pub decoded_fields-kept :
        (fs : Fields) (result : Members)
        → ArePlainFields fs
        → decoded_fields rt fs result ≡ kept_fields rt type_of fs result
    decoded_fields-kept no_fields result p = refl
    decoded_fields-kept (field spec v rest) result p =
        rw (decoded-kept v spec.kind spec p.0) (decoded_fields-kept rest _ p.1)

    pub decoded_items-kept :
        (vs : Items) (kind : Kind)
        → ArePlainItems vs kind
        → decoded_items rt vs kind ≡ kept_items rt type_of vs kind
    decoded_items-kept no_items kind p = refl
    decoded_items-kept (item v vs) kind p =
        rw (decoded-kept v kind zero_spec p.0, decoded_items-kept vs kind p.1) refl

    pub decoded_entries-kept :
        (es : Entries) (key_kind value_kind : Kind)
        → ArePlainEntries es key_kind value_kind
        → decoded_entries rt es key_kind value_kind ≡ kept_entries rt type_of es key_kind value_kind
    decoded_entries-kept no_entries key_kind value_kind p = refl
    decoded_entries-kept (entry k v es) key_kind value_kind p =
        rw
          (
            decoded-kept k key_kind zero_spec p.0,
            decoded-kept v value_kind zero_spec p.1,
            decoded_entries-kept es key_kind value_kind p.2,
          )
          refl
