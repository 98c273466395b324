-- ===== src/Protocol/Compact/Faults.antt =====
-- Inputs on which the codec of protocol/compact.go does not do what it means to: bools in a list,
-- a list's size that the decoder trusts, and a map's key that cannot be hashed.
use line_go.Common.{
  ℕ, zero, suc, ◌+◌, ◌*◌, ◌/◌, ◌%◌, ◌^◌, ◌≤◌, ◌<◌, ◌≡◌, refl, arith, Bool, true, false,
}
use line_go.Common.{List, [], ◌∷◌, ◌++◌, append_assoc, length, le→leb, if◌then◌else◌, ◌==◌}
use line_go.Protocol.Outcome.{ok, Ensures-ok, panic, unhashable_key}
use line_go.Protocol.Value.{
  Kind, Value, integral, int8, zero_spec, boolean, items, Items, no_items, item, count, list_field,
  is_hashable,
}
use line_go.Protocol.Varint.{varint, read_byte}
use line_go.Protocol.Varint.RoundTrip.{read_varint-varint}
use line_go.Protocol.Containers.{read_items, read_entries, guard_key}
use line_go.Protocol.Compact.Types.{
  Ctype, is_bool, sign_extend, true_type, byte_type, list_type, map_type, code, of_code,
  compact_type, Runtime, guard_cap,
}
use line_go.Protocol.Compact.{list_header, value, list_items, read_container, read_value}
use line_go.Protocol.Compact.Headers.{IsNibble, list_header_lem, compact_type-Ensures, wire}
use line_go.Protocol.Compact.Decoded.{IsReadable}
use line_go.Protocol.Compact.RoundTrip.{value-Reads}

-- A []any of bools, the byte that the encoder writes for each, and as many times `true`.
abbrev pub bools : List Bool → Items
bools [] = no_items
bools (b ∷ bs) = item (boolean b) (bools bs)

abbrev pub bool_bytes : List Bool → List ℕ
bool_bytes [] = []
bool_bytes (b ∷ bs) = (if b then 1 else 2) ∷ bool_bytes bs

abbrev pub trues : ℕ → Items
trues zero = no_items
trues (suc n) = item (boolean true) (trues n)

-- Bytes as the items that are read for them.
abbrev byte_items : List ℕ → Items
byte_items [] = no_items
byte_items (b ∷ bs) = item (integral int8 (sign_extend 8 b)) (byte_items bs)

suc-ne-zero : (n : ℕ) → (suc n == 0) ≡ false
suc-ne-zero n = ground arith

list_items-bools : (bs : List Bool) → list_items (bools bs) Kind.bool ≡ ok (bool_bytes bs)
unfolding list_items value
list_items-bools [] = refl
list_items-bools (b ∷ bs) = rw (list_items-bools bs)

count-bools : (bs : List Bool) → count (bools bs) ≡ length bs
unfolding count
count-bools [] = refl
count-bools (b ∷ bs) = rw (count-bools bs)

true_type-IsNibble : IsNibble true_type
unfolding code of_code
true_type-IsNibble = ground arith

byte_type-IsNibble : IsNibble byte_type
unfolding code of_code
byte_type-IsNibble = ground arith

-- The encoder writes a byte for each bool of a list.
encode_bools :
    (bs : List Bool) (id : ℕ)
    → value (items (bools bs)) Kind.list (list_field id Kind.bool)
      ≡ ok (list_header (length bs) true_type ++ bool_bytes bs)
unfolding value list_field compact_type
encode_bools bs id = rw (list_items-bools bs, count-bools bs)

module _ (rt : Runtime) where
  read_trues :
      (n f : ℕ) (bytes : List ℕ)
      → read_items n (read_value rt (suc f) true_type) bytes ≡ ok (trues n, bytes)
  unfolding read_items read_value
  read_trues zero f bytes = refl
  read_trues (suc n) f bytes = rw (read_trues n f bytes)

  -- Where a slice can hold it, a list of bools is read back as a list of as many `true`s, whatever it held, and the bytes of
  -- its items are left in the input.
  pub read_value-bools :
      (bs : List Bool) (id f : ℕ) {bytes : List ℕ} (rest : List ℕ)
      → length bs < 2 ^ 64
      → length bs ≤ rt.max_cap
      → value (items (bools bs)) Kind.list (list_field id Kind.bool) ≡ ok bytes
      → read_value rt (suc (suc f)) list_type (bytes ++ rest)
        ≡ ok (items (trues (length bs)), bool_bytes bs ++ rest)
  unfolding read_value read_container read_byte guard_cap
  read_value-bools bs id f {bytes} rest h fits e =
      let shape : bytes ≡ list_header (length bs) true_type ++ bool_bytes bs =
        cc (encode_bools bs id) in
      let (header, tail, e', size, type) =
        list_header_lem (length bs) true_type (bool_bytes bs ++ rest) true_type-IsNibble h in
      rw (shape, e', append_assoc, size, le→leb (length bs) rt.max_cap fits, type)
        (rw (read_trues (length bs) f (bool_bytes bs ++ rest)))

  read_byte_items :
      (bs : List ℕ) (f : ℕ) (rest : List ℕ)
      → read_items (length bs) (read_value rt (suc f) byte_type) (bs ++ rest)
        ≡ ok (byte_items bs, rest)
  unfolding read_items read_value read_byte
  read_byte_items [] f rest = refl
  read_byte_items (b ∷ bs) f rest = rw (read_byte_items bs f rest)

  -- The list of bytes that is read as a key.
  read_byte_list :
      (bs : List ℕ) (f : ℕ) (rest : List ℕ)
      → length bs < 2 ^ 64
      → length bs ≤ rt.max_cap
      → read_value rt (suc (suc f)) list_type (list_header (length bs) byte_type ++ (bs ++ rest))
        ≡ ok (items (byte_items bs), rest)
  unfolding read_value read_container read_byte guard_cap
  read_byte_list bs f rest h fits =
      let (header, tail, e, size, type) =
        list_header_lem (length bs) byte_type (bs ++ rest) byte_type-IsNibble h in
      rw (e, size, le→leb (length bs) rt.max_cap fits, type) (rw (read_byte_items bs f rest))

  -- A map with one entry or more, whose first key is a list of bytes that a slice can hold, and whose
  -- first value is one that the writer wrote for a kind other than Bool and that the reader accepts:
  -- the reader panics, whatever follows, where it has the fuel to read that value.
  pub read_value-list_key :
      (n f : ℕ) (bs : List ℕ) (v : Value) (kind : Kind) (t : Ctype) {written : List ℕ}
      (rest : List ℕ)
      → suc n < 2 ^ 64
      → length bs < 2 ^ 64
      → length bs ≤ rt.max_cap
      → is_bool kind ≡ false
      → IsReadable rt v zero_spec
      → compact_type kind ≡ ok t
      → value v kind zero_spec ≡ ok written
      → 2 * length written + 1 ≤ f
      → read_value rt (suc (suc f)) map_type (
          varint (suc n)
          ++ (code list_type * 16 + code t)
            ∷ (list_header (length bs) byte_type ++ (bs ++ (written ++ rest))))
        ≡ panic unhashable_key
  unfolding read_value read_byte read_entries guard_key code of_code is_hashable
  read_value-list_key n f bs v kind t {written} rest h hb fits nb p typed wrote fuel =
      let (named, nib) = Ensures-ok (compact_type-Ensures kind) typed in
      let fits_nibble : code t < 16 = rw named nib.fits in
      let name_of : of_code (code t) ≡ wire kind = rw named nib.named in
      let first : read_value rt (suc f) list_type
            (list_header (length bs) byte_type ++ (bs ++ (written ++ rest)))
          ≡ ok (items (byte_items bs), written ++ rest) =
        positive f (omega (arith, fuel)) in
      let second =
        Ensures-ok (value-Reads rt v kind zero_spec nb p) wrote rest (suc f)
          (omega (arith, fuel)) in
      let high : (code list_type * 16 + code t) / 16 ≡ code list_type =
        omega (arith, fits_nibble) in
      let low : (code list_type * 16 + code t) % 16 ≡ code t = omega (arith, fits_nibble) in
      rw
        (
          read_varint-varint (suc n)
              ((code list_type * 16 + code t)
                ∷ (list_header (length bs) byte_type ++ (bs ++ (written ++ rest))))
              h,
          high,
          low,
          name_of,
          suc-ne-zero n,
        )
        (rw first (rw second refl))
    where
      positive :
          (g : ℕ)
          → 1 ≤ g
          → read_value rt
              (suc g)
              list_type
              (list_header (length bs) byte_type ++ (bs ++ (written ++ rest)))
            ≡ ok (items (byte_items bs), written ++ rest)
      positive zero k = absurd (omega (arith, k))
      positive (suc g) k = read_byte_list bs g (written ++ rest) hb fits
