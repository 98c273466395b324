-- ===== src/Protocol/Compact/RoundTrip.antt =====
-- What the encoder of protocol/compact.go writes, its decoder reads back.
use line_go.Common.{ℕ, suc, ◌+◌, ◌-◌, ◌*◌, ◌/◌, ◌%◌, ◌^◌, ◌≤◌, ◌<◌, ◌≡◌, refl, subst, arith}
use line_go.Common.{true, false, Bool-cases, inl, inr, List, [], ◌∷◌, ◌++◌, append_assoc, length}
use line_go.Common.{length-append, le→leb, ◌==◌}
use line_go.Protocol.Outcome.{
  ok, ◌>>=◌, Ensures, holds, fails, Ensures-bind, Ensures-ok, Ensures-map, >>=-eq-ok,
  Ensures-in_field,
}
use line_go.Protocol.Value.{
  Kind, Spec, Value, boolean, integral, int64, floating, text, raw, fields, items, entries, Fields,
  no_fields, field, Items, no_items, item, Entries, no_entries, entry, Members, no_members,
  zero_spec, insert, count, count_entries,
}
use line_go.Protocol.Varint.{varint, signed, binary, read_byte, read_signed, read_take}
use line_go.Protocol.Varint.RoundTrip.{
  read_varint-varint, read_signed-signed, read_binary-binary, read_take-append,
}
use line_go.Protocol.Compact.Types.{
  Ctype, code, of_code, is_bool, Runtime, guard_cap, little_endian, read_little_endian,
}
use line_go.Protocol.Compact.{
  field_header, field_type, list_header, value, struct_value, list_items, map_entries, encode_call,
  read_container, read_value, string_or_bytes, read_struct, decode_struct, decode_message,
}
use line_go.Protocol.Containers.{
  read_items, read_entries, read_items-Reads, read_entries-Reads, Reads, spend,
}
use line_go.Protocol.Compact.Decoded.{
  decoded, decoded_fields, decoded_items, decoded_entries, IsReadable, AreReadableFields,
  AreReadableItems, AreReadableEntries,
}
use line_go.Protocol.Compact.Headers.{
  wire, IsNibble, compact_type-Ensures, field_type-Ensures, list_header_lem, field_header_lem,
  length-little_endian, read_little_endian-little_endian,
}
use line_go.Protocol.Kept.{kept_fields, ArePlainFields}
use line_go.Protocol.Compact.Kept.{type_of, decoded_fields-kept}

suc-ne-zero : (n : ℕ) → (suc n == 0) ≡ false
suc-ne-zero n = ground arith

module _ (rt : Runtime) where
  abbrev ReadsValue : Value → Kind → Spec → List ℕ → Type 0
  ReadsValue v kind spec bytes =
      Reads (λ f. read_value rt f (wire kind)) (2 * length bytes + 1) bytes (decoded rt v kind spec)

  abbrev ReadsItems : Items → Kind → List ℕ → Type 0
  ReadsItems vs kind bytes =
      Reads (λ f. read_items (count vs) (read_value rt f (wire kind))) (2 * length bytes + 1) bytes
        (decoded_items rt vs kind)

  abbrev ReadsEntries : Entries → Kind → Kind → List ℕ → Type 0
  ReadsEntries es key_kind value_kind bytes =
      Reads
        (λ f.
          read_entries (count_entries es) (read_value rt f (wire key_kind))
            (read_value rt f (wire value_kind)))
        (2 * length bytes + 1) bytes (decoded_entries rt es key_kind value_kind)

  abbrev ReadsFields : Fields → ℕ → List ℕ → Type 0
  ReadsFields fs previous bytes =
      (result : Members)
      → Reads (λ f. read_struct rt f previous result) (2 * length bytes) bytes
          (decoded_fields rt fs result)

  read_container_lem :
      (n : ℕ) (t : Ctype) (vs : Items) (body : List ℕ)
      → IsNibble t
      → n < 2 ^ 64
      → n ≤ rt.max_cap
      → Reads (λ f. read_items n (read_value rt f t)) (2 * length body + 1) body vs
      → Reads
          (λ f. read_container rt (read_value rt f))
          (2 * length (list_header n t ++ body) - 1)
          (list_header n t ++ body)
          (items vs)
  unfolding read_container read_byte guard_cap
  read_container_lem n t vs body nib h fits reads rest f k =
      let (header, tail, e, size, type) = list_header_lem n t (body ++ rest) nib h in
      let len : length (list_header n t ++ body) ≡ suc (length tail + length body) =
        rw e (omega (arith, length-append tail body)) in
      rw (e, append_assoc, size, type, le→leb n rt.max_cap fits) (rw (reads rest f (omega arith)))

  read_text :
      (s : List ℕ)
      → length s < 2 ^ 64
      → Reads
          (λ f. read_value rt f Ctype.binary_type)
          (2 * length (binary s) + 1)
          (binary s)
          (string_or_bytes rt s)
  unfolding read_value
  read_text s h rest = spend _ λ f k. rw (read_binary-binary s rest h)

  read_number :
      (n : ℕ) (rest : List ℕ)
      → n < 2 ^ 64
      → ◌>>=◌ {B = Value × List ℕ}
          (read_signed (signed n ++ rest))
          (λ (m, r). ok (integral int64 m, r))
        ≡ ok (integral int64 n, rest)
  read_number n rest h = rw (read_signed-signed n rest h)

  read_float :
      (n : ℕ) (rest : List ℕ)
      → n < 2 ^ 64
      → ◌>>=◌ {B = Value × List ℕ}
          (read_take 8 (little_endian 8 n ++ rest))
          (λ (s, r). ok (floating (read_little_endian s), r))
        ≡ ok (floating n, rest)
  read_float n rest h =
      rw
        (subst (λ k. read_take k (little_endian 8 n ++ rest) ≡ ok (little_endian 8 n, rest))
          (length-little_endian 8 n) (read_take-append (little_endian 8 n) rest))
        (rw (read_little_endian-little_endian 8 n h))

  read_map_lem :
      (n : ℕ) (s t : Ctype) (es : Entries) (body : List ℕ)
      → IsNibble s
      → IsNibble t
      → suc n < 2 ^ 64
      → Reads
          (λ f. read_entries (suc n) (read_value rt f s) (read_value rt f t))
          (2 * length body + 1)
          body
          es
      → let written = varint (suc n) ++ (code s * 16 + code t) ∷ body in
        Reads (λ f. read_value rt f Ctype.map_type) (2 * length written + 1) written (entries es)
  unfolding read_value read_byte
  read_map_lem n s t es body nib₁ nib₂ h reads rest =
      let high : (code s * 16 + code t) / 16 ≡ code s = omega (arith, nib₁, nib₂) in
      let low : (code s * 16 + code t) % 16 ≡ code t = omega (arith, nib₁, nib₂) in
      spend _ λ f k.
        rw
          (
            append_assoc,
            read_varint-varint (suc n) ((code s * 16 + code t) ∷ (body ++ rest)) h,
            high,
            low,
            nib₁.named,
            nib₂.named,
            suc-ne-zero n,
          )
          (rw (
            reads rest f
              (omega (arith, length-append (varint (suc n)) ((code s * 16 + code t) ∷ body)))))

  read_field_lem :
      (previous id : ℕ) (t : Ctype) (v : Value) (result whole : Members) (body tail : List ℕ)
      → IsNibble t
      → previous < 2 ^ 16
      → id < 2 ^ 16
      → Reads (λ f. read_value rt f t) (2 * length body + 1) body v
      → Reads (λ f. read_struct rt f id (insert id v result)) (2 * length tail) tail whole
      → let written = field_header previous id t ++ (body ++ tail) in
        Reads (λ f. read_struct rt f previous result) (2 * length written) written whole
  unfolding read_value read_byte
  read_field_lem previous id t v result whole body tail nib hp hi reads₁ reads₂ rest =
      let (header, more, e, nz, found, type) =
        field_header_lem previous id t (body ++ (tail ++ rest)) nib hp hi in
      let len : length (field_header previous id t ++ (body ++ tail))
          ≡ suc (length more + (length body + length tail)) =
        rw e (omega (arith, length-append more (body ++ tail), length-append body tail)) in
      spend _ λ f k.
        rw (e, append_assoc, append_assoc, nz, found, type)
          (rw (reads₁ (tail ++ rest) f (omega (arith, len))) (reads₂ rest f (omega (arith, len))))

  -- The type alone carries a bool.
  bool_field-Ensures :
      (k : Kind) (v : Value) (spec : Spec)
      → is_bool k ≡ true
      → Ensures
          (λ t. IsNibble t × Reads (λ f. read_value rt f t) 1 [] (decoded rt v k spec))
          (field_type k v)
  unfolding is_bool field_type decoded read_value code of_code
  bool_field-Ensures Kind.bool (boolean true) spec e =
      holds (ground arith, λ rest. spend _ λ f h. refl)
  bool_field-Ensures Kind.bool (boolean false) spec e =
      holds (ground arith, λ rest. spend _ λ f h. refl)
  bool_field-Ensures Kind.bool v spec e = holds (ground arith, λ rest. spend _ λ f h. refl)
  bool_field-Ensures k v spec e = cc

  mutual
    unfolding value read_value decoded IsReadable wire is_bool read_byte count count_entries
        read_items read_entries

    pub value-Reads :
        (v : Value) (kind : Kind) (spec : Spec)
        → is_bool kind ≡ false
        → IsReadable rt v spec
        → Ensures (ReadsValue v kind spec) (value v kind spec)
    value-Reads (boolean b) Kind.bool spec nb p = cc
    value-Reads (integral t n) Kind.byte spec nb p = holds λ rest. spend _ λ f h. refl
    value-Reads (integral t n) Kind.i16 spec nb p =
        holds λ rest. spend _ λ f h. read_number n rest p
    value-Reads (integral t n) Kind.i32 spec nb p =
        holds λ rest. spend _ λ f h. read_number n rest p
    value-Reads (integral t n) Kind.i64 spec nb p =
        holds λ rest. spend _ λ f h. read_number n rest p
    value-Reads (floating n) Kind.double spec nb p =
        holds λ rest. spend _ λ f h. read_float n rest p
    value-Reads (text s) Kind.string spec nb p = holds (read_text s p)
    value-Reads (raw s) Kind.binary spec nb p = holds (read_text s p)
    value-Reads (fields fs) Kind.struct spec nb p =
        Ensures-map (struct_value-Reads fs 0 (omega arith) p)
          λ bytes reads rest. spend _ λ f h. rw (reads no_members rest f (omega arith))
    value-Reads (items vs) Kind.list spec nb p =
        Ensures-bind (compact_type-Ensures spec.element_kind) λ t (e, nib).
          Ensures-bind (list_items-Reads vs spec.element_kind p.0 p.3) λ body reads. holds (
            rw e λ rest. spend _ λ f h.
              read_container_lem (count vs) (wire spec.element_kind) _ body nib p.1 p.2 reads rest f
                (omega arith))
    value-Reads (items vs) Kind.set spec nb p =
        Ensures-bind (compact_type-Ensures spec.element_kind) λ t (e, nib).
          Ensures-bind (list_items-Reads vs spec.element_kind p.0 p.3) λ body reads. holds (
            rw e λ rest. spend _ λ f h.
              read_container_lem (count vs) (wire spec.element_kind) _ body nib p.1 p.2 reads rest f
                (omega arith))
    value-Reads (entries no_entries) Kind.map spec nb p =
        holds λ rest. spend _ λ f h. rw (read_varint-varint 0 rest (omega arith))
    value-Reads (entries (entry k v es)) Kind.map spec nb p =
        Ensures-bind (compact_type-Ensures spec.key_kind) λ s (e₁, nib₁).
          Ensures-bind (compact_type-Ensures spec.value_kind) λ t (e₂, nib₂).
            Ensures-bind (value-Reads k spec.key_kind zero_spec p.0 p.3.0) λ first reads₁.
              Ensures-bind (value-Reads v spec.value_kind zero_spec p.1 p.3.1) λ second reads₂.
                Ensures-bind (map_entries-Reads es spec.key_kind spec.value_kind p.0 p.1 p.3.3)
                  λ others reads₃. holds (
                    rw (e₁, e₂)
                      (read_map_lem (count_entries es) (wire spec.key_kind) (wire spec.value_kind) _
                        _ nib₁ nib₂ p.2
                        (read_entries-Reads (count_entries es)
                          (λ f. read_value rt f (wire spec.key_kind))
                          (λ f. read_value rt f (wire spec.value_kind)) _ _ _ first second others
                          p.3.2 reads₁ reads₂ reads₃)))
    value-Reads v kind spec nb p = fails

    list_items-Reads :
        (vs : Items) (kind : Kind)
        → is_bool kind ≡ false
        → AreReadableItems rt vs
        → Ensures (ReadsItems vs kind) (list_items vs kind)
    list_items-Reads no_items kind nb p = holds λ rest f h. refl
    list_items-Reads (item v vs) kind nb p =
        Ensures-bind (value-Reads v kind zero_spec nb p.0) λ first reads₁.
          Ensures-bind (list_items-Reads vs kind nb p.1) λ others reads₂. holds (
            read_items-Reads (count vs) (λ f. read_value rt f (wire kind)) _ _ first others reads₁
              reads₂)

    map_entries-Reads :
        (es : Entries) (key_kind value_kind : Kind)
        → is_bool key_kind ≡ false
        → is_bool value_kind ≡ false
        → AreReadableEntries rt es key_kind
        → Ensures (ReadsEntries es key_kind value_kind) (map_entries es key_kind value_kind)
    map_entries-Reads no_entries key_kind value_kind nk nv p = holds λ rest f h. refl
    map_entries-Reads (entry k v es) key_kind value_kind nk nv p =
        Ensures-bind (value-Reads k key_kind zero_spec nk p.0) λ first reads₁.
          Ensures-bind (value-Reads v value_kind zero_spec nv p.1) λ second reads₂.
            Ensures-bind (map_entries-Reads es key_kind value_kind nk nv p.3) λ others reads₃.
              holds (
                read_entries-Reads (count_entries es) (λ f. read_value rt f (wire key_kind))
                  (λ f. read_value rt f (wire value_kind)) _ _ _ first second others p.2 reads₁
                  reads₂ reads₃)

    struct_value-Reads :
        (fs : Fields) (previous : ℕ)
        → previous < 2 ^ 16
        → AreReadableFields rt fs
        → Ensures (ReadsFields fs previous) (struct_value fs previous)
    struct_value-Reads no_fields previous hp p = holds λ result rest. spend _ λ f h. refl
    struct_value-Reads (field spec v others) previous hp p = elim (Bool-cases (is_bool spec.kind)) [
      | inl b ↦ rw b (
          Ensures-bind (bool_field-Ensures spec.kind v spec b) λ t (nib, reads₁).
            Ensures-bind (struct_value-Reads others spec.id p.0 p.2) λ tail reads₂. holds λ result.
              read_field_lem previous spec.id t _ result _ [] tail nib hp p.0 reads₁ (reads₂ _))
      | inr b ↦ rw b (
          Ensures-bind (field_type-Ensures spec.kind v b) λ t (e, nib).
            Ensures-bind (Ensures-in_field spec.id (value-Reads v spec.kind spec b p.1))
              λ body reads₁. Ensures-bind (struct_value-Reads others spec.id p.0 p.2) λ tail reads₂.
                holds λ result. rw e (
                  read_field_lem previous spec.id (wire spec.kind) _ result _ body tail nib hp p.0
                    reads₁ (reads₂ _)))
    ]

  -- A struct of plain fields that the encoder wrote is decoded as these fields, whatever follows.
  decode_struct-struct_value :
      (fs : Fields) {bytes : List ℕ} (rest : List ℕ)
      → AreReadableFields rt fs
      → struct_value fs 0 ≡ ok bytes
      → decode_struct rt (bytes ++ rest) ≡ ok (decoded_fields rt fs no_members)
  unfolding decode_struct
  decode_struct-struct_value fs {bytes} rest p e = rw (
      Ensures-ok (struct_value-Reads fs 0 (omega arith) p) e no_members rest
        (suc (2 * length (bytes ++ rest))) (omega (arith, length-append bytes rest)))

  -- A call that was encoded is decoded, whatever its fields become.
  decode_message-decoded :
      (name : List ℕ) (fs : Fields) (sequence_id : ℕ) {bytes : List ℕ} (rest : List ℕ)
      → length name < 2 ^ 64
      → sequence_id < 2 ^ 64
      → AreReadableFields rt fs
      → encode_call name fs sequence_id ≡ ok bytes
      → decode_message rt (bytes ++ rest)
        ≡ ok (record {
          name = name;
          type = 1;
          sequence_id = sequence_id;
          content = decoded_fields rt fs no_members;
        })
  unfolding decode_message encode_call read_byte
  decode_message-decoded name fs sequence_id {bytes} rest hn hs p e =
      let (body, written, whole) = >>=-eq-ok (struct_value fs 0) _ e in
      let shape : bytes ≡ 0x82 ∷ 0x21 ∷ (varint sequence_id ++ (binary name ++ body)) = cc in
      rw (shape, append_assoc, read_varint-varint sequence_id ((binary name ++ body) ++ rest) hs)
        (rw (append_assoc, read_binary-binary name (body ++ rest) hn)
          (rw (
            Ensures-ok (struct_value-Reads fs 0 (omega arith) p) written no_members rest
              (suc (2 * length (body ++ rest))) (omega (arith, length-append body rest)))))

  -- A call of plain fields that the reader accepts, with a name shorter than 2 ^ 64 and a uint64 sequence ID: what
  -- `EncodeCall` wrote is decoded as a message of type 1 with its name, sequence ID and fields, whatever
  -- follows. Every integer is the same one, as an int8 for kind Byte and an int64 for other kinds; a
  -- string or bytes come back as a string where they are UTF-8 and as bytes otherwise.
  pub decode_message-encode_call :
      (name : List ℕ) (fs : Fields) (sequence_id : ℕ) {bytes : List ℕ} (rest : List ℕ)
      → length name < 2 ^ 64
      → sequence_id < 2 ^ 64
      → AreReadableFields rt fs
      → ArePlainFields fs
      → encode_call name fs sequence_id ≡ ok bytes
      → decode_message rt (bytes ++ rest)
        ≡ ok (record {
          name = name;
          type = 1;
          sequence_id = sequence_id;
          content = kept_fields rt type_of fs no_members;
        })
  decode_message-encode_call name fs sequence_id {bytes} rest hn hs p plain e =
      rw (← decoded_fields-kept rt fs no_members plain)
        (decode_message-decoded name fs sequence_id {bytes = bytes} rest hn hs p e)
