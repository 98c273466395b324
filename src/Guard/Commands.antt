-- ===== src/Guard/Commands.antt =====
-- The text commands of guard/engine.go: `parseCommand`, `parseConfiguredCommand` and what they read of
-- a message. A prefix of bytes is a prefix of characters; `Words` has what they call of the Go
-- library. The metadata of a message is the list of its entries in the order of `range`, each with
-- its key as it is printed, and its value where that is a text.
pub mod Longest
mod Runs
use line_go.Common.{
  ℕ, String, Bool, true, false, not, ◌&&◌, ◌||◌, Option, none, some, List, [], ◌∷◌, ◌++◌, length,
  ◌==◌, if◌then◌else◌, find_key, keep_values,
}
use line_go.Guard.Lists.{contains}
use Prim.Native.String.{◌++◌ as join}
use Prim.Native.Char.{code}
use text.Mathlib.Text.{◌==◌ as str_eq}

-- `strings.ToLower`, `strings.TrimSpace`, `strings.Fields`, `strings.EqualFold` and the bytes of a
-- text; the values of "M" and of "A" (printed) in the mentionees of a document, `none` where it
-- cannot be decoded.
pub record Words : Type 0 where
  pub lower : String → String
  pub trim : String → String
  pub fields : String → List String
  pub same_fold : String → String → Bool
  pub bytes : String → List ℕ
  pub mentioned : String → Option (List String)
  pub marked : String → Option (List String)

abbrev pub Metadata : Type 0
Metadata = List (String × Option String)

unfoldable pub has_prefix : String → String → Bool
has_prefix t String.[] = true
has_prefix String.[] (String.◌∷◌ c p) = false
has_prefix (String.◌∷◌ d t) (String.◌∷◌ c p) = (code d == code c) && has_prefix t p

-- `strings.TrimPrefix`.
unfoldable pub drop_prefix : String → String → Option String
drop_prefix t String.[] = some t
drop_prefix String.[] (String.◌∷◌ c p) = none
drop_prefix (String.◌∷◌ d t) (String.◌∷◌ c p) =
    let rest = drop_prefix t p in if code d == code c then rest else none

unfoldable pub or_text : String → Option String → String
or_text t none = t
or_text t (some rest) = rest

unfoldable pub trim_prefix : String → String → String
unfolding drop_prefix or_text
trim_prefix t p = or_text t (drop_prefix t p)

abbrev pub known : List String
known =
    "war sensitivity" ∷ "war whitelist add" ∷ "war whitelist del" ∷ "war quarantine"
    ∷ "war cooldown" ∷ "war dryrun on" ∷ "war dryrun off" ∷ "war auto on" ∷ "war auto off"
    ∷ "war dashboard" ∷ "war suspects" ∷ "war whitelist" ∷ "war report" ∷ "war status" ∷ "war level"
    ∷ "war lock" ∷ "war unlock" ∷ "war pardon" ∷ "war clear" ∷ "war on" ∷ "war off" ∷ "leader"
    ∷ "invite protect on" ∷ "invite protect off" ∷ "cancel protect on" ∷ "cancel protect off"
    ∷ "kick protect on" ∷ "kick protect off" ∷ "qr protect on" ∷ "qr protect off" ∷ "all protect on"
    ∷ "all protect off" ∷ "flood protect on" ∷ "flood protect off" ∷ "protect status" ∷ "protect on"
    ∷ "protect off" ∷ "settings backup" ∷ "settings restore" ∷ "setcmd kickall" ∷ "setcmd kick"
    ∷ "lurk mention" ∷ "lurk names" ∷ "lurk on" ∷ "lurk off" ∷ "add creator" ∷ "del creator"
    ∷ "add owner" ∷ "del owner" ∷ "add admin" ∷ "del admin" ∷ "add gadmin" ∷ "del gadmin"
    ∷ "clear blacklist" ∷ "clearban" ∷ "blacklist" ∷ "unban" ∷ "kickall" ∷ "kick" ∷ "invite"
    ∷ "guard help" ∷ "bot health" ∷ "samejoin" ∷ "history" ∷ "health" ∷ "status" ∷ "bots" ∷ "lkick"
    ∷ "ljoin" ∷ "access" ∷ "roles" ∷ "commands" ∷ "help" ∷ "ping" ∷ "speed" ∷ "sp" ∷ "ticket"
    ∷ "readers" ∷ "lurk" ∷ "ghost 1" ∷ "ghost 2" ∷ "ghost off" ∷ "add me" ∷ "@all" ∷ "etiket"
    ∷ "all" ∷ "bye" ∷ []

-- Whether a text is a command, or begins with it and a blank.
unfoldable pub is_command : String → String → Bool
unfolding has_prefix
is_command text candidate = str_eq text candidate || has_prefix text (join candidate " ")

-- The first candidate that the text is; "" where it is none.
unfoldable pub first_command : String → List String → String
unfolding is_command
first_command text [] = ""
first_command text (candidate ∷ rest) =
    let later = first_command text rest in if is_command text candidate then candidate else later

unfoldable pub fanout_command : String → Bool
fanout_command command = str_eq command "ping" || str_eq command "speed" || str_eq command "sp"

-- `CommandAliases`; the first entry of a key counts.
unfoldable pub command_aliases : List (String × String) → List (String × String)
command_aliases commands =
    keep_values (λ alias. not (str_eq alias "")) commands
    ++ (("kick", "kick") ∷ ("kickall", "kickall") ∷ [])

-- Keeps what is not empty, once.
unfoldable pub keep_mids : List String → List String → List String
keep_mids result [] = result
keep_mids result (mid ∷ mids) =
    keep_mids
      (if not (str_eq mid "") && not (contains result mid) then result ++ mid ∷ [] else result) mids

unfoldable pub looks_like_mid : List ℕ → Bool
looks_like_mid [] = false
looks_like_mid (b ∷ bytes) = (length bytes == 32) && ((b == b'u') || (b == b'U'))

module _ (words : Words) where
  unfoldable pub normalized : String → String
  normalized text = words.trim (words.lower (words.trim text))

  -- The value of the first entry whose key is MENTION.
  unfoldable pub mention_value : Metadata → Option String
  mention_value [] = none
  mention_value ((key, value) ∷ rest) =
      let later = mention_value rest in if words.same_fold key "MENTION" then value else later

  unfoldable pub or_no_mids : Option (List String) → List String
  or_no_mids none = []
  or_no_mids (some mids) = mids

  -- `mentionMIDs`.
  unfoldable pub mention_mids : Metadata → List String
  unfolding mention_value keep_mids or_no_mids
  mention_mids metadata = elim (mention_value metadata) [
    | none ↦ []
    | some raw ↦ if str_eq raw "" then [] else keep_mids [] (or_no_mids (words.mentioned raw))
  ]

  -- `nativeAllMention`: every entry whose key is MENTION counts.
  unfoldable pub native_all_mention : Metadata → Bool
  unfolding or_no_mids
  native_all_mention [] = false
  native_all_mention ((key, none) ∷ rest) = native_all_mention rest
  native_all_mention ((key, some raw) ∷ rest) =
      let later = native_all_mention rest in
      (words.same_fold key "MENTION" && contains (or_no_mids (words.marked raw)) "1") || later

  -- The words that look like MIDs are targets too.
  unfoldable pub add_mids : List String → List String → List String
  unfolding looks_like_mid
  add_mids targets [] = targets
  add_mids targets (value ∷ values) =
      add_mids
        (if looks_like_mid (words.bytes value) && not (contains targets value)
          then targets ++ value ∷ []
          else targets)
        values

  unfoldable pub parse_command : String → Metadata → String × List String
  unfolding normalized first_command mention_mids add_mids trim_prefix
  parse_command text metadata =
      let plain = normalized text in
      let command = first_command plain known in
      if has_prefix plain "." || str_eq command "" then ("", []) else (
        command,
        add_mids (mention_mids metadata) (words.fields (words.trim (trim_prefix plain command))),
      )

  unfoldable pub alias_of : String → List (String × String) → String
  unfolding or_text
  alias_of canonical aliases = words.trim (words.lower (or_text "" (find_key aliases canonical)))

  -- Whether a text is the alias of a command, which "kick" takes with targets too.
  unfoldable pub is_alias : String → String → String → Bool
  unfolding has_prefix
  is_alias plain canonical alias =
      not (str_eq alias "" || str_eq alias canonical)
      && (str_eq plain alias || str_eq canonical "kick" && has_prefix plain (join alias " "))

  unfoldable pub parse_configured_command :
      String → Metadata → List (String × String) → String × List String
  unfolding parse_command normalized alias_of is_alias trim_prefix
  parse_configured_command text metadata aliases =
      let plain = normalized text in
      let all = alias_of "kickall" aliases in
      let one = alias_of "kick" aliases in
      if has_prefix plain "."
      then ("", [])
      else if is_alias plain "kickall" all
      then parse_command (join "kickall" (trim_prefix plain all)) metadata
      else if is_alias plain "kick" one
      then parse_command (join "kick" (trim_prefix plain one)) metadata
      else parse_command text metadata

  -- `commandRemainder`.
  unfoldable pub command_remainder : String → String → String
  unfolding normalized trim_prefix
  command_remainder text command = words.trim (trim_prefix (normalized text) command)
