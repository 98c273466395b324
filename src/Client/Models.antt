-- ===== src/Client/Models.antt =====
-- client/models.go and service/fields.go: how the fields of a decoded struct are read. A 64-bit
-- pattern is read as the integer that it stands for. The name of an operation's type, which is only
-- logged, is left out, and so are the raw fields.
use line_go.Common.{
  ℕ, ◌-◌, ◌%◌, ◌^◌, String, List, Option, none, some, ltb, ◌==◌, if◌then◌else◌, ℤ, pos, negsuc,
}
use line_go.Protocol.Value.{
  Value, integral, int8, int16, int32, int64, text, items, entries, members, Items, no_items,
  Entries, Members, no_members, member,
}

-- A two's complement pattern of so many bits.
unfoldable pub integer_of : ℕ → ℕ → ℤ
integer_of bits n =
    if ltb (n % 2 ^ bits) (2 ^ (bits - 1))
    then pos (n % 2 ^ bits)
    else negsuc (2 ^ bits - 1 - n % 2 ^ bits)

unfoldable pub pattern_of : ℤ → ℕ
pattern_of (pos n) = n % 2 ^ 64
pattern_of (negsuc n) = 2 ^ 64 - 1 - n % 2 ^ 64

unfoldable pub find_member : ℕ → Members → Option Value
find_member id no_members = none
find_member id (member other v rest) =
    let later = find_member id rest in if other == id then some v else later

-- A field of client/models.go is read where its dynamic type is int64.
unfoldable pub only_int64 : Option Value → ℤ
unfolding integer_of
only_int64 (some (integral int64 n)) = integer_of 64 n
only_int64 _ = pos 0

unfoldable pub int64_field : Members → ℕ → ℤ
unfolding only_int64 find_member
int64_field fields id = only_int64 (find_member id fields)

-- A field of service/fields.go is read where it is a signed integer.
unfoldable pub any_integer : Option Value → ℤ
unfolding integer_of
any_integer (some (integral int64 n)) = integer_of 64 n
any_integer (some (integral int32 n)) = integer_of 64 n
any_integer (some (integral int16 n)) = integer_of 64 n
any_integer (some (integral int8 n)) = integer_of 64 n
any_integer _ = pos 0

unfoldable pub members_of : Option Value → Option Members
members_of (some (members fields)) = some fields
members_of _ = none

unfoldable pub items_of : Option Value → Items
items_of (some (items vs)) = vs
items_of _ = no_items

unfoldable pub entries_of : Option Value → Option Entries
entries_of (some (entries es)) = some es
entries_of _ = none

pub record Message : Type 0 where
  pub id : String
  pub to : String
  pub from : String
  pub text : String
  pub to_type : ℤ
  pub content_type : ℤ
  pub metadata : Option Entries
  pub chunks : Items

pub record Operation : Type 0 where
  pub revision : ℤ
  pub created_time : ℤ
  pub type : ℤ
  pub request_sequence : ℤ
  pub checksum : String
  pub status : ℤ
  pub param1 : String
  pub param2 : String
  pub param3 : String
  pub message : Option Message

unfoldable pub int32_field : Members → ℕ → ℤ
unfolding int64_field integer_of pattern_of
int32_field fields id = integer_of 32 (pattern_of (int64_field fields id))

module _ (string : List ℕ → String) where
  unfoldable pub only_text : Option Value → String
  only_text (some (text bytes)) = string bytes
  only_text _ = ""

  unfoldable pub string_field : Members → ℕ → String
  unfolding only_text find_member
  string_field fields id = only_text (find_member id fields)

  unfoldable pub parse_message : Members → Message
  unfolding string_field int32_field entries_of items_of
  parse_message fields = record {
    id = string_field fields 4;
    to = string_field fields 2;
    from = string_field fields 1;
    text = string_field fields 10;
    to_type = int32_field fields 3;
    content_type = int32_field fields 15;
    metadata = entries_of (find_member 18 fields);
    chunks = items_of (find_member 20 fields);
  }

  unfoldable pub message_of : Option Members → Option Message
  unfolding parse_message
  message_of none = none
  message_of (some fields) = some (parse_message fields)

  unfoldable pub parse_operation : Value → Option Operation
  unfolding string_field int64_field int32_field message_of members_of
  parse_operation (members fields) = some (record {
    revision = int64_field fields 1;
    created_time = int64_field fields 2;
    type = int32_field fields 3;
    request_sequence = int32_field fields 4;
    checksum = string_field fields 5;
    status = int32_field fields 7;
    param1 = string_field fields 10;
    param2 = string_field fields 11;
    param3 = string_field fields 12;
    message = message_of (members_of (find_member 20 fields));
  })
  parse_operation _ = none
