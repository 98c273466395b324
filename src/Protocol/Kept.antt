-- ===== src/Protocol/Kept.antt =====
-- What a value is after it was encoded and decoded by protocol/compact.go or protocol/binary.go, where
-- nothing of it is lost: an integer is the same integer, of the Go type that the reader has for its
-- kind; a string and bytes become a string where they are valid UTF-8, and bytes otherwise; fields
-- become a map by their IDs.
use line_go.Common.{ℕ, ◌-◌, ◌%◌, ◌^◌, ◌≤◌, ◌<◌, ◌≡◌, ◌⊎◌, arith}
use line_go.Protocol.Value.{
  Kind, Spec, Value, IntType, boolean, integral, floating, text, raw, fields, items, entries,
  members, other, Fields, no_fields, field, Items, no_items, item, Entries, no_entries, entry,
  Members, zero_spec, insert, no_members,
}
use line_go.Protocol.Compact.Types.{sign_extend, Runtime}
use line_go.Protocol.Compact.{string_or_bytes}

module _ (rt : Runtime) (type_of : Kind → IntType) where
  unfoldable mutual
    pub kept : Value → Kind → Spec → Value
    kept (integral t n) kind spec = integral (type_of kind) n
    kept (text s) kind spec = string_or_bytes rt s
    kept (raw s) kind spec = string_or_bytes rt s
    kept (fields fs) kind spec = members (kept_fields fs no_members)
    kept (items vs) kind spec = items (kept_items vs spec.element_kind)
    kept (entries es) kind spec = entries (kept_entries es spec.key_kind spec.value_kind)
    kept (boolean b) kind spec = boolean b
    kept (floating n) kind spec = floating n
    kept (members m) kind spec = members m
    kept other kind spec = other

    -- A later field with the same ID overwrites an earlier one.
    pub kept_fields : Fields → Members → Members
    kept_fields no_fields result = result
    kept_fields (field spec v rest) result =
        kept_fields rest (insert spec.id (kept v spec.kind spec) result)

    pub kept_items : Items → Kind → Items
    kept_items no_items kind = no_items
    kept_items (item v vs) kind = item (kept v kind zero_spec) (kept_items vs kind)

    pub kept_entries : Entries → Kind → Kind → Entries
    kept_entries no_entries key_kind value_kind = no_entries
    kept_entries (entry k v es) key_kind value_kind =
        entry (kept k key_kind zero_spec) (kept v value_kind zero_spec)
          (kept_entries es key_kind value_kind)

-- The pattern of 64 bits of a signed integer of so many bits.
abbrev pub IsWithin : ℕ → ℕ → Type 0
IsWithin bits n = (n < 2 ^ (bits - 1)) ⊎ ((2 ^ 64 - 2 ^ (bits - 1) ≤ n) × (n < 2 ^ 64))

-- An integer in the range of its kind.
abbrev pub IsInteger : Kind → ℕ → Type 0
IsInteger Kind.byte n = IsWithin 8 n
IsInteger Kind.i16 n = IsWithin 16 n
IsInteger Kind.i32 n = IsWithin 32 n
IsInteger _ n = n < 2 ^ 64

-- Every integer is in the range of its kind, and a value of kind Bool is a bool.
unfoldable mutual
  pub IsPlain : Value → Kind → Spec → Type 0
  IsPlain (boolean b) kind spec = Unit
  IsPlain v Kind.bool spec = ⊥
  IsPlain (integral t n) kind spec = IsInteger kind n
  IsPlain (fields fs) kind spec = ArePlainFields fs
  IsPlain (items vs) kind spec = ArePlainItems vs spec.element_kind
  IsPlain (entries es) kind spec = ArePlainEntries es spec.key_kind spec.value_kind
  IsPlain _ kind spec = Unit

  pub ArePlainFields : Fields → Type 0
  ArePlainFields no_fields = Unit
  ArePlainFields (field spec v rest) = IsPlain v spec.kind spec × ArePlainFields rest

  pub ArePlainItems : Items → Kind → Type 0
  ArePlainItems no_items kind = Unit
  ArePlainItems (item v vs) kind = IsPlain v kind zero_spec × ArePlainItems vs kind

  pub ArePlainEntries : Entries → Kind → Kind → Type 0
  ArePlainEntries no_entries key_kind value_kind = Unit
  ArePlainEntries (entry k v es) key_kind value_kind =
      IsPlain k key_kind zero_spec
      × IsPlain v value_kind zero_spec
      × ArePlainEntries es key_kind value_kind

pub sign_extend-byte : (n : ℕ) → IsWithin 8 n → sign_extend 8 (n % 256) ≡ n
unfolding sign_extend
sign_extend-byte n h = ground arith

pub sign_extend-i16 : (n : ℕ) → IsWithin 16 n → sign_extend 16 (n % 2 ^ 16) ≡ n
unfolding sign_extend
sign_extend-i16 n h = ground arith

pub sign_extend-i32 : (n : ℕ) → IsWithin 32 n → sign_extend 32 (n % 2 ^ 32) ≡ n
unfolding sign_extend
sign_extend-i32 n h = ground arith
