-- ===== src/Protocol/Value.antt =====
-- The data of protocol/compact.go: kinds, dynamic values (`any`), fields and messages.
use line_go.Common.{ℕ, suc, List, Bool, true, false, if◌then◌else◌, ◌==◌}

-- `Kind` is a byte; `unknown n` is a value outside the constants.
pub data Kind : Type 0 where
  bool byte i16 i32 i64 double binary string list set map struct : Kind
  unknown : ℕ → Kind

-- The signed integer types of Go that `integer` takes.
pub data IntType : Type 0 where
  int int8 int16 int32 int64 : IntType

-- `Field` without its value.
pub record Spec : Type 0 where
  pub id : ℕ
  pub kind : Kind
  pub element_kind : Kind
  pub key_kind : Kind
  pub value_kind : Kind

-- A value of type `any`. A number is its two's complement pattern of 64 bits, a float64 its bits.
-- `fields` is a []Field, `items` a []any, `entries` a map[any]any as the list of its writes,
-- `members` a map[int16]any, `other` a value of any other type.
mutual
  pub data Value : Type 0 where
    boolean : Bool → Value
    integral : IntType → ℕ → Value
    floating : ℕ → Value
    text : List ℕ → Value
    raw : List ℕ → Value
    fields : Fields → Value
    items : Items → Value
    entries : Entries → Value
    members : Members → Value
    other : Value

  pub data Fields : Type 0 where
    no_fields : Fields
    field : Spec → Value → Fields → Fields

  pub data Items : Type 0 where
    no_items : Items
    item : Value → Items → Items

  pub data Entries : Type 0 where
    no_entries : Entries
    entry : Value → Value → Entries → Entries

  pub data Members : Type 0 where
    no_members : Members
    member : ℕ → Value → Members → Members

-- The zero `Field{}` that `value` hands to the items of a container.
abbrev pub zero_spec : Spec
zero_spec = record { id = 0; kind = bool; element_kind = bool; key_kind = bool; value_kind = bool }

unfoldable pub plain_field : ℕ → Kind → Spec
plain_field id kind = record zero_spec { id = id; kind = kind }

unfoldable pub list_field : ℕ → Kind → Spec
list_field id element = record zero_spec { id = id; kind = list; element_kind = element }

unfoldable pub set_field : ℕ → Kind → Spec
set_field id element = record zero_spec { id = id; kind = set; element_kind = element }

unfoldable pub map_field : ℕ → Kind → Kind → Spec
map_field id key value = record zero_spec {
  id = id;
  kind = map;
  key_kind = key;
  value_kind = value;
}

pub record Message : Type 0 where
  pub name : List ℕ
  pub type : ℕ
  pub sequence_id : ℕ
  pub content : Members

-- `result[fieldID] = value`.
unfoldable pub insert : ℕ → Value → Members → Members
insert id v no_members = member id v no_members
insert id v (member j w m) = if j == id then member id v m else member j w (insert id v m)

unfoldable pub count : Items → ℕ
count no_items = 0
count (item v vs) = suc (count vs)

unfoldable pub count_entries : Entries → ℕ
count_entries no_entries = 0
count_entries (entry k v es) = suc (count_entries es)

-- A key of one of these dynamic types can be hashed; any other key makes the runtime panic.
unfoldable pub is_hashable : Value → Bool
is_hashable (boolean b) = true
is_hashable (integral t n) = true
is_hashable (floating n) = true
is_hashable (text s) = true
is_hashable _ = false
