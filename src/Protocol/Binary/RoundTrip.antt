-- ===== src/Protocol/Binary/RoundTrip.antt =====
-- What the encoder of protocol/binary.go writes, its decoder reads back.
use line_go.Common.{ℕ, suc, ◌+◌, ◌*◌, ◌%◌, ◌^◌, ◌≤◌, ◌<◌, ◌≡◌, refl, arith}
use line_go.Common.{true, false, List, ◌∷◌, ◌++◌, append_assoc, length, length-append, ◌==◌}
use line_go.Protocol.Outcome.{
  ok, >>=-eq-ok, Ensures, holds, fails, Ensures-bind, Ensures-ok, Ensures-map, Ensures-in_field,
}
use line_go.Protocol.Value.{
  Kind, Spec, Value, boolean, integral, floating, text, raw, fields, items, entries, Fields,
  no_fields, field, Items, no_items, item, Entries, no_entries, entry, Members, no_members,
  zero_spec, insert, count, count_entries,
}
use line_go.Protocol.Varint.{read_byte}
use line_go.Protocol.Compact.Types.{Runtime}
use line_go.Protocol.Containers.{
  read_items, read_entries, read_items-Reads, read_entries-Reads, Reads, spend,
}
use line_go.Protocol.Binary.Types.{
  Btype, bool_type, byte_type, double_type, i16_type, i32_type, i64_type, string_type, struct_type,
  map_type, set_type, list_type, code, of_code, binary_type,
}
use line_go.Protocol.Binary.{
  i16, i32, string, value, struct_value, list_items, map_entries, encode_binary_call, max_length,
  max_size, read_container, read_value, read_struct, decode_binary_message,
}
use line_go.Protocol.Binary.Decoded.{
  decoded_integer, decoded, decoded_fields, decoded_items, decoded_entries, IsReadable,
  AreReadableFields, AreReadableItems, AreReadableEntries,
}
use line_go.Protocol.Binary.Numbers.{
  read_number-i16, read_number-i32, read_number-i64, read_bytes-string, read_size-i32,
}
use line_go.Protocol.Kept.{kept_fields, ArePlainFields}
use line_go.Protocol.Binary.Kept.{type_of, decoded_fields-kept}

-- The type of a kind that has one.
wire : Kind → Btype
wire Kind.bool = bool_type
wire Kind.byte = byte_type
wire Kind.i16 = i16_type
wire Kind.i32 = i32_type
wire Kind.i64 = i64_type
wire Kind.double = double_type
wire Kind.binary = string_type
wire Kind.string = string_type
wire Kind.list = list_type
wire Kind.set = set_type
wire Kind.map = map_type
wire Kind.struct = struct_type
wire (Kind.unknown n) = Btype.unknown_type_code n

-- A type that may stand in a header: its byte is not the stop byte, and names it.
record IsNamed (t : Btype) : Type 0 where
  positive : (code t == 0) ≡ false
  named : of_code (code t) ≡ t

binary_type-Ensures : (k : Kind) → Ensures (λ t. (t ≡ wire k) × IsNamed (wire k)) (binary_type k)
unfolding binary_type wire code of_code
binary_type-Ensures (Kind.unknown n) = fails
binary_type-Ensures Kind.bool = holds (ground arith)
binary_type-Ensures _ = holds (ground arith)

module _ (rt : Runtime) where
  abbrev ReadsValue : Value → Kind → Spec → List ℕ → Type 0
  ReadsValue v kind spec bytes =
      Reads (λ f. read_value rt f (wire kind)) (2 * length bytes + 1) bytes (decoded rt v kind spec)

  abbrev ReadsItems : Items → Kind → List ℕ → Type 0
  ReadsItems vs kind bytes =
      Reads (λ f. read_items (count vs) (read_value rt f (wire kind))) (2 * length bytes + 1) bytes
        (decoded_items rt vs kind)

  abbrev ReadsEntries : Entries → Kind → Kind → List ℕ → Type 0
  ReadsEntries es key_kind value_kind bytes =
      Reads
        (λ f.
          read_entries (count_entries es) (read_value rt f (wire key_kind))
            (read_value rt f (wire value_kind)))
        (2 * length bytes + 1) bytes (decoded_entries rt es key_kind value_kind)

  abbrev ReadsFields : Fields → List ℕ → Type 0
  ReadsFields fs bytes =
      (result : Members)
      → Reads (λ f. read_struct rt f result) (2 * length bytes) bytes (decoded_fields rt fs result)

  read_container_lem :
      (n : ℕ) (t : Btype) (vs : Items) (body : List ℕ)
      → IsNamed t
      → n ≤ max_size
      → Reads (λ f. read_items n (read_value rt f t)) (2 * length body + 1) body vs
      → let written = code t ∷ (i32 n ++ body) in
        Reads (λ f. read_container (read_value rt f)) (2 * length body + 1) written (items vs)
  unfolding read_container read_byte
  read_container_lem n t vs body named h reads rest f k =
      rw (append_assoc, read_size-i32 n (body ++ rest) h, named.named) (rw (reads rest f k))

  read_map_lem :
      (n : ℕ) (s t : Btype) (es : Entries) (body : List ℕ)
      → IsNamed s
      → IsNamed t
      → n ≤ max_size
      → Reads
          (λ f. read_entries n (read_value rt f s) (read_value rt f t))
          (2 * length body + 1)
          body
          es
      → let written = code s ∷ code t ∷ (i32 n ++ body) in
        Reads (λ f. read_value rt f map_type) (2 * length written + 1) written (entries es)
  unfolding read_value read_byte
  read_map_lem n s t es body named₁ named₂ h reads rest = spend _ λ f k.
      rw (append_assoc, read_size-i32 n (body ++ rest) h, named₁.named, named₂.named)
        (rw (reads rest f (omega (arith, length-append (i32 n) body))))

  read_field_lem :
      (id : ℕ) (t : Btype) (v : Value) (result whole : Members) (body tail : List ℕ)
      → IsNamed t
      → id < 2 ^ 16
      → Reads (λ f. read_value rt f t) (2 * length body + 1) body v
      → Reads (λ f. read_struct rt f (insert id v result)) (2 * length tail) tail whole
      → let written = code t ∷ (i16 id ++ (body ++ tail)) in
        Reads (λ f. read_struct rt f result) (2 * length written) written whole
  unfolding read_value read_byte
  read_field_lem id t v result whole body tail named hi reads₁ reads₂ rest =
      let same : id % 2 ^ 16 ≡ id = omega arith in
      let len₁ = length-append (i16 id) (body ++ tail) in
      let len₂ = length-append body tail in
      spend _ λ f k.
        rw
          (
            append_assoc,
            append_assoc,
            named.positive,
            read_number-i16 id (body ++ (tail ++ rest)),
            same,
            named.named,
          )
          (rw (reads₁ (tail ++ rest) f (omega (arith, len₁, len₂)))
            (reads₂ rest f (omega (arith, len₁, len₂))))

  mutual
    unfolding value read_value decoded decoded_integer IsReadable wire read_byte count count_entries
        read_items read_entries

    value-Reads :
        (v : Value) (kind : Kind) (spec : Spec)
        → IsReadable rt v spec
        → Ensures (ReadsValue v kind spec) (value v kind spec)
    value-Reads (boolean true) Kind.bool spec p = holds λ rest. spend _ λ f h. refl
    value-Reads (boolean false) Kind.bool spec p = holds λ rest. spend _ λ f h. refl
    value-Reads (integral t n) Kind.byte spec p = holds λ rest. spend _ λ f h. refl
    value-Reads (integral t n) Kind.i16 spec p =
        holds λ rest. spend _ λ f h. rw (read_number-i16 n rest)
    value-Reads (integral t n) Kind.i32 spec p =
        holds λ rest. spend _ λ f h. rw (read_number-i32 n rest)
    value-Reads (integral t n) Kind.i64 spec p =
        holds λ rest. spend _ λ f h. rw (read_number-i64 n rest p)
    value-Reads (floating n) Kind.double spec p =
        holds λ rest. spend _ λ f h. rw (read_number-i64 n rest p)
    value-Reads (text s) Kind.string spec p =
        holds λ rest. spend _ λ f h. rw (read_bytes-string s rest p)
    value-Reads (raw s) Kind.binary spec p =
        holds λ rest. spend _ λ f h. rw (read_bytes-string s rest p)
    value-Reads (fields fs) Kind.struct spec p =
        Ensures-map (struct_value-Reads fs p)
          λ bytes reads rest. spend _ λ f h. rw (reads no_members rest f (omega arith))
    value-Reads (items vs) Kind.list spec p =
        Ensures-bind (binary_type-Ensures spec.element_kind) λ t (e, named).
          Ensures-bind (list_items-Reads vs spec.element_kind p.1) λ body reads. holds (
            rw e λ rest. spend _ λ f h.
              read_container_lem (count vs) (wire spec.element_kind) _ body named p.0 reads rest f
                (omega (arith, length-append (i32 (count vs)) body)))
    value-Reads (items vs) Kind.set spec p =
        Ensures-bind (binary_type-Ensures spec.element_kind) λ t (e, named).
          Ensures-bind (list_items-Reads vs spec.element_kind p.1) λ body reads. holds (
            rw e λ rest. spend _ λ f h.
              read_container_lem (count vs) (wire spec.element_kind) _ body named p.0 reads rest f
                (omega (arith, length-append (i32 (count vs)) body)))
    value-Reads (entries es) Kind.map spec p =
        Ensures-bind (binary_type-Ensures spec.key_kind) λ s (e₁, named₁).
          Ensures-bind (binary_type-Ensures spec.value_kind) λ t (e₂, named₂).
            Ensures-bind (map_entries-Reads es spec.key_kind spec.value_kind p.1) λ body reads.
              holds (
                rw (e₁, e₂)
                  (read_map_lem (count_entries es) (wire spec.key_kind) (wire spec.value_kind) _
                    body named₁ named₂ p.0 reads))
    value-Reads v kind spec p = fails

    struct_value-Reads :
        (fs : Fields) → AreReadableFields rt fs → Ensures (ReadsFields fs) (struct_value fs)
    struct_value-Reads no_fields p = holds λ result rest. spend _ λ f h. refl
    struct_value-Reads (field spec v others) p =
        Ensures-bind (binary_type-Ensures spec.kind) λ t (e, named).
          Ensures-bind (Ensures-in_field spec.id (value-Reads v spec.kind spec p.1)) λ body reads₁.
            Ensures-bind (struct_value-Reads others p.2) λ tail reads₂. holds λ result. rw e (
              read_field_lem spec.id (wire spec.kind) _ result _ body tail named p.0 reads₁
                (reads₂ _))

    list_items-Reads :
        (vs : Items) (kind : Kind)
        → AreReadableItems rt vs
        → Ensures (ReadsItems vs kind) (list_items vs kind)
    list_items-Reads no_items kind p = holds λ rest f h. refl
    list_items-Reads (item v vs) kind p =
        Ensures-bind (value-Reads v kind zero_spec p.0) λ first reads₁.
          Ensures-bind (list_items-Reads vs kind p.1) λ others reads₂. holds (
            read_items-Reads (count vs) (λ f. read_value rt f (wire kind)) _ _ first others reads₁
              reads₂)

    map_entries-Reads :
        (es : Entries) (key_kind value_kind : Kind)
        → AreReadableEntries rt es key_kind
        → Ensures (ReadsEntries es key_kind value_kind) (map_entries es key_kind value_kind)
    map_entries-Reads no_entries key_kind value_kind p = holds λ rest f h. refl
    map_entries-Reads (entry k v es) key_kind value_kind p =
        Ensures-bind (value-Reads k key_kind zero_spec p.0) λ first reads₁.
          Ensures-bind (value-Reads v value_kind zero_spec p.1) λ second reads₂.
            Ensures-bind (map_entries-Reads es key_kind value_kind p.3) λ others reads₃. holds (
              read_entries-Reads (count_entries es) (λ f. read_value rt f (wire key_kind))
                (λ f. read_value rt f (wire value_kind)) _ _ _ first second others p.2 reads₁ reads₂
                reads₃)

  -- A call that was encoded is decoded, whatever its fields become.
  decode_binary_message-decoded :
      (name : List ℕ) (fs : Fields) (sequence_id : ℕ) {bytes : List ℕ} (rest : List ℕ)
      → length name ≤ max_length
      → AreReadableFields rt fs
      → encode_binary_call name fs sequence_id ≡ ok bytes
      → decode_binary_message rt (bytes ++ rest)
        ≡ ok (record {
          name = name;
          type = 1;
          sequence_id = sequence_id % 2 ^ 32;
          content = decoded_fields rt fs no_members;
        })
  unfolding decode_binary_message encode_binary_call
  decode_binary_message-decoded name fs sequence_id {bytes} rest hn p e =
      let (body, written, whole) = >>=-eq-ok (struct_value fs) _ e in
      let shape : bytes ≡ i32 0x80010001 ++ (string name ++ (i32 sequence_id ++ body)) = cc in
      rw
        (
          shape,
          append_assoc,
          read_number-i32 0x80010001 ((string name ++ (i32 sequence_id ++ body)) ++ rest),
        )
        (rw (append_assoc, read_bytes-string name ((i32 sequence_id ++ body) ++ rest) hn)
          (rw (append_assoc, read_number-i32 sequence_id (body ++ rest))
            (rw (
              Ensures-ok (struct_value-Reads fs p) written no_members rest
                (suc (2 * length (body ++ rest))) (omega (arith, length-append body rest))))))

  -- A call of plain fields that the reader accepts, with a name within its limit: what
  -- `EncodeBinaryCall` wrote is decoded as a message of type 1 with its name, the low 32 bits of the
  -- sequence ID and its fields, whatever follows. Every integer is the same one, of the Go type of its
  -- kind; a string or bytes come back as a string where they are UTF-8 and as bytes otherwise.
  pub decode_binary_message-encode_binary_call :
      (name : List ℕ) (fs : Fields) (sequence_id : ℕ) {bytes : List ℕ} (rest : List ℕ)
      → length name ≤ max_length
      → AreReadableFields rt fs
      → ArePlainFields fs
      → encode_binary_call name fs sequence_id ≡ ok bytes
      → decode_binary_message rt (bytes ++ rest)
        ≡ ok (record {
          name = name;
          type = 1;
          sequence_id = sequence_id % 2 ^ 32;
          content = kept_fields rt type_of fs no_members;
        })
  decode_binary_message-encode_binary_call name fs sequence_id {bytes} rest hn p plain e =
      rw (← decoded_fields-kept rt fs no_members plain)
        (decode_binary_message-decoded name fs sequence_id {bytes = bytes} rest hn p e)
