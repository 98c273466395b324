-- ===== src/Guard/Commands/Longest.antt =====
-- Which command `parseCommand` of guard/engine.go finds.
use line_go.Common.{
  String, Bool, true, false, not, ◌&&◌, ◌≡◌, refl, sym, ap, ◌∙◌, arith, List, [], ◌∷◌, inl, inr,
  ◌⊎◌, Bool-cases, ◌==◌,
}
use line_go.Guard.Lists.{contains}
use line_go.Guard.Lists.Laws.{str_eq_refl}
use line_go.Guard.Commands.{
  Words, Metadata, has_prefix, known, is_command, first_command, normalized, parse_command,
}
use Prim.Native.String.{◌++◌ as join}
use Prim.Native.String.append
use Prim.Native.Char.{Char, code}
use text.Mathlib.Text.{◌==◌ as str_eq}
use text.Mathlib.TextEquality.{eq_iff}

has_prefix_refl : (s : String) → has_prefix s s ≡ true
unfolding has_prefix
has_prefix_refl String.[] = refl
has_prefix_refl (String.◌∷◌ c s) = ground (arith, has_prefix_refl s)

has_prefix-join :
    (d c : Char) (t a : String)
    → has_prefix (String.◌∷◌ d t) (join (String.◌∷◌ c a) " ")
      ≡ ((code d == code c) && has_prefix t (join a " "))
unfolding has_prefix
has_prefix-join d c t a = ap (has_prefix (String.◌∷◌ d t)) (append.cons c a " ")

-- Of a text that begins with `a` and a blank, and with `b`: `b` begins with `a` and a blank, or `a`
-- begins with `b`.
blank_cases :
    (t a b : String)
    → has_prefix t (join a " ") ≡ true
    → has_prefix t b ≡ true
    → (has_prefix b (join a " ") ≡ true) ⊎ (has_prefix a b ≡ true)
unfolding has_prefix
blank_cases t a String.[] h k = inr refl
blank_cases String.[] a (String.◌∷◌ d b) h k = absurd (ground arith)
blank_cases (String.◌∷◌ e t) String.[] (String.◌∷◌ d b) h k = inl (ground arith)
blank_cases (String.◌∷◌ e t) (String.◌∷◌ c a) (String.◌∷◌ d b) h k =
    let h' = sym (has_prefix-join e c t a) ∙ h in
    elim (blank_cases t a b (ground arith) (ground arith)) [
      | inl i ↦ inl (has_prefix-join d c b a ∙ ground arith)
      | inr i ↦ inr (ground arith)
    ]

has_prefix-blank : (t c : String) → has_prefix t (join c " ") ≡ true → has_prefix t c ≡ true
unfolding has_prefix
has_prefix-blank t String.[] h = refl
has_prefix-blank String.[] (String.◌∷◌ d c) h =
    let h' : false ≡ true = ap (has_prefix String.[]) (sym (append.cons d c " ")) ∙ h in
    absurd (ground arith)
has_prefix-blank (String.◌∷◌ e t) (String.◌∷◌ d c) h =
    let h' = sym (has_prefix-join e d t c) ∙ h in
    ground (arith, has_prefix-blank t c (ground arith))

-- A command that a text is, it begins with.
has_prefix-is_command : (t c : String) → is_command t c ≡ true → has_prefix t c ≡ true
unfolding is_command
has_prefix-is_command t c h = elim (Bool-cases (str_eq t c)) [
  | inl e ↦ rw ((eq_iff t c).0 e) (has_prefix_refl c)
  | inr e ↦ has_prefix-blank t c (ground arith)
]

-- No command of a list begins with a candidate and a blank.
unfoldable is_clear : String → List String → Bool
unfolding has_prefix
is_clear candidate [] = true
is_clear candidate (c ∷ cs) = not (has_prefix c (join candidate " ")) && is_clear candidate cs

unfoldable is_ordered : List String → Bool
unfolding is_clear
is_ordered [] = true
is_ordered (c ∷ cs) = is_clear c cs && is_ordered cs

is_clear-contains :
    (candidate c : String) (cs : List String)
    → is_clear candidate cs ≡ true
    → contains cs c ≡ true
    → has_prefix c (join candidate " ") ≡ false
unfolding is_clear contains
is_clear-contains candidate c [] h k = absurd (ground arith)
is_clear-contains candidate c (d ∷ cs) h k = elim (Bool-cases (str_eq d c)) [
  | inl e ↦ rw (← (eq_iff d c).0 e) (ground arith)
  | inr e ↦ is_clear-contains candidate c cs (ground arith) (ground arith)
]

first-longest :
    (t d c : String) (cs : List String)
    → is_clear d cs ≡ true
    → is_command t d ≡ true
    → contains (d ∷ cs) c ≡ true
    → is_command t c ≡ true
    → has_prefix d c ≡ true
unfolding contains is_command
first-longest t d c cs clear found k h = elim (Bool-cases (str_eq d c)) [
  | inl e ↦ rw ((eq_iff d c).0 e) (has_prefix_refl c)
  | inr other ↦ elim (Bool-cases (str_eq t d)) [
    | inl e ↦ has_prefix-is_command d c (rw (← (eq_iff t d).0 e) h)
    | inr miss ↦
        let apart = is_clear-contains d c cs clear (ground arith) in
        elim (blank_cases t d c (ground arith) (has_prefix-is_command t c h)) [
          | inl i ↦ absurd (ground arith)
          | inr i ↦ i
        ]
  ]
]

contains-rest :
    (t d c : String) (cs : List String)
    → is_command t d ≡ false
    → is_command t c ≡ true
    → contains (d ∷ cs) c ≡ true
    → contains cs c ≡ true
unfolding contains
contains-rest t d c cs miss h k = elim (Bool-cases (str_eq d c)) [
  | inl e ↦
      let h' : is_command t d ≡ true = ap (is_command t) ((eq_iff d c).0 e) ∙ h in
      absurd (ground arith)
  | inr e ↦ ground arith
]

first_command-longest :
    (t c : String) (cs : List String)
    → is_ordered cs ≡ true
    → contains cs c ≡ true
    → is_command t c ≡ true
    → (contains cs (first_command t cs) ≡ true)
      × (is_command t (first_command t cs) ≡ true)
      × (has_prefix (first_command t cs) c ≡ true)
unfolding first_command contains is_ordered
first_command-longest t c [] o k h = absurd (ground arith)
first_command-longest t c (d ∷ cs) o k h = elim (Bool-cases (is_command t d)) [
  | inl found ↦
      rw (found, first_command)
        (ground (arith, str_eq_refl d), found, first-longest t d c cs (ground arith) found k h)
  | inr miss ↦
      let (known, later, longest) =
        first_command-longest t c cs (ground arith) (contains-rest t d c cs miss h k) h in
      rw (miss, first_command) (ground arith, later, longest)
]

known-is_ordered : is_ordered known ≡ true
unfolding is_ordered is_clear has_prefix
known-is_ordered = refl

known_no_empty : (c : String) → contains known c ≡ true → str_eq c "" ≡ false
unfolding contains
known_no_empty c k = elim (Bool-cases (str_eq c "")) [
  | inl e ↦
      let k' : contains known "" ≡ true = sym (ap (contains known) ((eq_iff c "").0 e)) ∙ k in
      absurd (ground arith)
  | inr e ↦ e
]

parse_command-found :
    (words : Words) (text : String) (metadata : Metadata)
    → has_prefix (normalized words text) "." ≡ false
    → contains known (first_command (normalized words text) known) ≡ true
    → (parse_command words text metadata).0 ≡ first_command (normalized words text) known
unfolding parse_command
parse_command-found words text metadata dot k =
    rw (dot, known_no_empty (first_command (normalized words text) known) k) refl

-- Of a text that does not begin with a dot once it is normalized, and which is a known command or
-- begins with one and a blank: parseCommand finds a known command that the text is, or begins with
-- and a blank, and the found command itself begins with every such command.
pub parse_command-longest :
    (words : Words) (text command : String) (metadata : Metadata)
    → has_prefix (normalized words text) "." ≡ false
    → contains known command ≡ true
    → is_command (normalized words text) command ≡ true
    → (contains known (parse_command words text metadata).0 ≡ true)
      × (is_command (normalized words text) (parse_command words text metadata).0 ≡ true)
      × (has_prefix (parse_command words text metadata).0 command ≡ true)
parse_command-longest words text command metadata dot k h =
    let found = first_command-longest (normalized words text) command known known-is_ordered k h in
    rw (parse_command-found words text metadata dot found.0) found
