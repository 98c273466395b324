-- ===== src/Guard/Commands/Runs.antt =====
-- The parser of text commands at concrete texts.
use line_go.Common.{true, false, none, ◌≡◌, refl, [], ◌∷◌}
use line_go.Guard.Lists.{contains}
use line_go.Guard.Commands.{Words, has_prefix, known, is_command, normalized, parse_command}
use line_go.Guard.Commands.Longest.{parse_command-longest}

abbrev plain : Words
plain = record {
  lower = λ t. t;
  trim = λ t. t;
  fields = λ t. t ∷ [];
  same_fold = λ t u. false;
  bytes = λ t. [];
  mentioned = λ t. none;
  marked = λ t. none;
}

-- The text begins with "war whitelist" too.
parse_command-longest_example :
    (contains known (parse_command plain "war whitelist add bob" []).0 ≡ true)
    × (is_command
          (normalized plain "war whitelist add bob")
          (parse_command plain "war whitelist add bob" []).0
        ≡ true)
    × (has_prefix (parse_command plain "war whitelist add bob" []).0 "war whitelist" ≡ true)
unfolding has_prefix contains is_command normalized
parse_command-longest_example =
    parse_command-longest plain "war whitelist add bob" "war whitelist" [] refl refl refl
