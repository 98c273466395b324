-- ===== src/Protocol/Compact/Headers.antt =====
-- The headers of fields and lists, and the bytes of a float64, read back.
use line_go.Common.{ℕ, zero, suc, ◌+◌, ◌-◌, ◌*◌, ◌/◌, ◌%◌, ◌^◌, ◌<◌, ◌≡◌, refl, ap, arith}
use line_go.Common.{false, Bool-cases, inl, inr, List, [], ◌∷◌, ◌++◌, length}
use line_go.Common.{ltb, leb, ◌==◌, ◌&&◌}
use line_go.Protocol.Outcome.{ok, Ensures, holds, fails}
use line_go.Protocol.Value.{Kind, Value}
use line_go.Protocol.Varint.{varint, signed}
use line_go.Protocol.Varint.RoundTrip.{read_varint-varint, read_signed-signed}
use line_go.Protocol.Compact.Types.{
  Ctype, stop, true_type, byte_type, i16_type, i32_type, i64_type, double_type, binary_type,
  list_type, set_type, map_type, struct_type, code, of_code, compact_type, is_bool, sign_extend,
  little_endian, read_little_endian,
}
use line_go.Protocol.Compact.{field_header, list_header, field_type, read_size, read_field_id}

-- The type of a kind that has one.
unfoldable pub wire : Kind → Ctype
wire Kind.bool = true_type
wire Kind.byte = byte_type
wire Kind.i16 = i16_type
wire Kind.i32 = i32_type
wire Kind.i64 = i64_type
wire Kind.double = double_type
wire Kind.binary = binary_type
wire Kind.string = binary_type
wire Kind.list = list_type
wire Kind.set = set_type
wire Kind.map = map_type
wire Kind.struct = struct_type
wire (Kind.unknown n) = stop

-- A type that may stand in a header: its nibble is not 0, fits four bits, and names it.
pub record IsNibble (t : Ctype) : Type 0 where
  pub positive : 0 < code t
  pub fits : code t < 16
  pub named : of_code (code t) ≡ t

pub compact_type-Ensures :
    (k : Kind) → Ensures (λ t. (t ≡ wire k) × IsNibble (wire k)) (compact_type k)
unfolding compact_type wire code of_code
compact_type-Ensures (Kind.unknown n) = fails
compact_type-Ensures Kind.bool = holds (ground arith)
compact_type-Ensures _ = holds (ground arith)

-- The type in a field's header is that of its kind, and for a bool its value.
pub field_type-Ensures :
    (k : Kind) (v : Value)
    → is_bool k ≡ false
    → Ensures (λ t. (t ≡ wire k) × IsNibble (wire k)) (field_type k v)
unfolding field_type is_bool
field_type-Ensures Kind.bool v h = cc
field_type-Ensures Kind.byte v h = compact_type-Ensures Kind.byte
field_type-Ensures k v h = compact_type-Ensures k

pub list_header_lem :
    (n : ℕ) (t : Ctype) (rest : List ℕ)
    → IsNibble t
    → n < 2 ^ 64
    → (header : ℕ) × (tail : List ℕ) × (list_header n t ≡ header ∷ tail)
      × (read_size header (tail ++ rest) ≡ ok (n, rest))
      × (of_code (header % 16) ≡ t)
unfolding list_header read_size
list_header_lem n t rest nib h = elim (Bool-cases (leb n 14)) [
  | inl short ↦
      let size : (n * 16 + code t) / 16 ≡ n = omega (arith, nib) in
      let type : (n * 16 + code t) % 16 ≡ code t = omega (arith, nib) in
      (n * 16 + code t, [], rw short, rw size (ground arith), rw type nib.named)
  | inr long ↦
      let size : (0xf0 + code t) / 16 ≡ 15 = omega (arith, nib) in
      let type : (0xf0 + code t) % 16 ≡ code t = omega (arith, nib) in
      (0xf0 + code t, varint n, rw long, rw size (read_varint-varint n rest h), rw type nib.named)
]

pub field_header_lem :
    (previous id : ℕ) (t : Ctype) (rest : List ℕ)
    → IsNibble t
    → previous < 2 ^ 16
    → id < 2 ^ 16
    → (header : ℕ) × (tail : List ℕ) × (field_header previous id t ≡ header ∷ tail)
      × ((header == 0) ≡ false)
      × (read_field_id previous header (tail ++ rest) ≡ ok (id, rest))
      × (of_code (header % 16) ≡ t)
unfolding field_header read_field_id
field_header_lem previous id t rest nib hp hi = elim (Bool-cases (ltb 0 delta && leb delta 15)) [
  | inl short ↦
      let type : (delta * 16 + code t) % 16 ≡ code t = omega (arith, nib) in
      let high : (delta * 16 + code t) / 16 ≡ delta = omega (arith, nib) in
      (
        delta * 16 + code t,
        [],
        rw short,
        ground (arith, nib),
        rw high (ground arith),
        rw type nib.named,
      )
  | inr long ↦
      let type : code t % 16 ≡ code t = omega (arith, nib) in
      let high : code t / 16 ≡ 0 = omega (arith, nib) in
      (
        code t,
        signed (sign_extend 16 id),
        rw long,
        ground (arith, nib),
        rw high (rw (read_signed-signed (sign_extend 16 id) rest extended) (rw back)),
        rw type nib.named,
      )
]
  where
    delta : ℕ
    delta = (id + 2 ^ 16 - previous) % 2 ^ 16

    extended : sign_extend 16 id < 2 ^ 64
    extended = unfold sign_extend in ground arith

    back : sign_extend 16 id % 2 ^ 16 ≡ id
    back = unfold sign_extend in ground arith

pub length-little_endian : (k n : ℕ) → length (little_endian k n) ≡ k
unfolding little_endian
length-little_endian zero n = refl
length-little_endian (suc k) n = ap suc (length-little_endian k (n / 256))

pub read_little_endian-little_endian :
    (k n : ℕ) → n < 256 ^ k → read_little_endian (little_endian k n) ≡ n
unfolding little_endian read_little_endian
read_little_endian-little_endian zero n h = omega arith
read_little_endian-little_endian (suc k) n h =
    omega (arith, read_little_endian-little_endian k (n / 256) (omega arith))
