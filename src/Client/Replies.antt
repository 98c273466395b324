-- ===== src/Client/Replies.antt =====
-- What the calls of service/service.go, service/token_refresh.go and client/client.go compute: how a
-- reply is read, when a token counts as refused, and the session with refreshed tokens.
use line_go.Common.{
  ℕ, ◌+◌, ◌-◌, ◌/◌, String, Bool, true, false, not, ◌&&◌, ◌||◌, Option, none, some, List, [], ◌∷◌,
  ltb, ◌==◌, if◌then◌else◌, ℤ, pos, negsuc,
}
use line_go.Storage.{Session, FileError}
use line_go.Protocol.Value.{
  Kind, Value, text, fields, integral, int64, members, Fields, no_fields, field, Members,
  no_members, plain_field, Message,
}
use line_go.Client.{
  Reason, Fault, Result, Which, Service, service_at, done, failed, posted, own, wrapped, talk, sync,
  relation, thrift_exception, wrong_type, mismatched, no_result, not_saved,
}
use line_go.Client.Models.{integer_of, pattern_of, any_integer, find_member, string_field}
use package.text.Mathlib.Text.{◌==◌ as str_eq}

unfoldable pub add_int : ℤ → ℤ → ℤ
add_int (pos m) (pos n) = pos (m + n)
add_int (pos m) (negsuc n) = if ltb n m then pos (m - (n + 1)) else negsuc (n - m)
add_int (negsuc m) (pos n) = if ltb m n then pos (n - (m + 1)) else negsuc (m - n)
add_int (negsuc m) (negsuc n) = negsuc (m + n + 1)

-- The sum wraps around.
unfoldable pub sum_int64 : ℤ → ℤ → ℤ
unfolding add_int integer_of pattern_of
sum_int64 m n = integer_of 64 (pattern_of (add_int m n))

unfoldable pub is_positive : ℤ → Bool
is_positive (pos n) = ltb 0 n
is_positive (negsuc n) = false

unfoldable pub same_bytes : List ℕ → List ℕ → Bool
same_bytes [] [] = true
same_bytes (x ∷ xs) (y ∷ ys) = (x == y) && same_bytes xs ys
same_bytes _ _ = false

-- `HTTPError.Status` of the first HTTP error in the chain.
unfoldable pub http_status : Fault → Option ℕ
http_status (posted message status) = status
http_status (wrapped e) = http_status e
http_status _ = none

unfoldable pub is_status : ℕ → Option ℕ → Bool
is_status wanted none = false
is_status wanted (some status) = status == wanted

-- `refreshableHTTPError` and `refreshableServiceError`.
unfoldable pub is_code : ℕ → Option Value → Bool
is_code wanted (some (integral int64 n)) = n == wanted
is_code wanted _ = false

unfoldable pub is_refreshable : Value → Bool
unfolding is_code find_member
is_refreshable (members details) = is_code 119 (find_member 1 details)
is_refreshable _ = false

-- What a response is: the result of the call, or a service exception.
pub data Reply : Type 0 where
  result : Value → Reply
  exception : Value → Reply
  nothing : Reply
  bad : Reason → Reply

unfoldable pub reply_of : Members → Reply
unfolding find_member
reply_of content = elim (find_member 0 content) [
  | some value ↦ result value
  | none ↦ elim (find_member 1 content) [
    | some details ↦ exception details
    | none ↦ elim content [ no_members ↦ nothing | _ ↦ bad no_result ]
  ]
]

unfoldable pub read_reply : List ℕ → ℕ → Message → Reply
unfolding reply_of same_bytes
read_reply method sequence message =
    if message.type == 3
    then bad thrift_exception
    else if not (message.type == 2)
    then bad wrong_type
    else if not (same_bytes message.name method) || not (message.sequence_id == sequence)
    then bad mismatched
    else reply_of message.content

abbrev pub refresh_fields : List ℕ → Fields
refresh_fields token =
    field (plain_field 1 Kind.struct)
      (fields (field (plain_field 1 Kind.string) (text token) no_fields)) no_fields

-- `RefreshAccessTokenResponse`.
pub record Tokens : Type 0 where
  pub access : String
  pub duration : ℤ
  pub issued : ℤ
  pub refresh : String

unfoldable pub tokens_of : (List ℕ → String) → Members → Tokens
unfolding string_field any_integer find_member
tokens_of string content = record {
  access = string_field string content 1;
  duration = any_integer (find_member 2 content);
  issued = any_integer (find_member 4 content);
  refresh = string_field string content 5;
}

-- `Talk.SetAccessToken`; an empty token is not stored.
unfoldable pub set_token : Which → String → (Which → Service) → Which → Service
unfolding service_at
set_token which token services =
    if str_eq token ""
    then services
    else service_at which (record (services which) { access = token }) services

unfoldable pub set_talk : String → (Which → Service) → Which → Service
unfolding set_token
set_talk token services =
    set_token relation token (set_token sync token (set_token talk token services))

unfoldable pub with_tokens : {M : Type 0} → ℕ → Tokens → Session M → Session M
unfolding is_positive sum_int64
with_tokens now tokens session = record session {
  access_token = tokens.access;
  refresh_token = if str_eq tokens.refresh "" then session.refresh_token else tokens.refresh;
  token_refresh_at =
      if is_positive tokens.duration
      then sum_int64 (if is_positive tokens.issued then tokens.issued else pos (now / 1_000))
          tokens.duration
      else pos 0;
}

unfoldable pub saved_result : Option FileError → Result (Unit {0})
saved_result none = done tt
saved_result (some e) = failed (own not_saved)
