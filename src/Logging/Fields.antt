-- ===== src/Logging/Fields.antt =====
-- Names and values of journal fields: the helpers of logging.cpp.
use text.Mathlib.Text.{starts_with}
use Prim.Native.String.{◌++◌ as append}
use meta_monutchee.Base.{
  ℕ, String, Bool, ◌&&◌, ◌||◌, not, List, [], ◌∷◌, leb, ltb, nat_beq, ◌==◌, string_eq, within,
  codes, size, empty, front_is, all, if◌then◌else◌, is_digit,
}

pub record Field : Type 0 where
  pub name : String
  pub value : String

unfoldable pub valid_field_name : String → Bool
valid_field_name name =
    not (empty name || front_is b'_' (codes name))
    && all (λ c. within b'A' b'Z' c || is_digit c || nat_beq c b'_') (codes name)

unfoldable pub reserved : String → Bool
reserved name =
    name == "MESSAGE"
    || name == "PRIORITY"
    || name == "MNC_COMPONENT"
    || name == "MNC_MODULE"
    || name == "MNC_EVENT"
    || name == "MNC_LOG_AUDIENCE"
    || name == "MNC_EVENT_CATEGORY"
    || name == "MNC_ACTOR"
    || name == "MNC_ACTION"
    || name == "MNC_OUTCOME"
    || name == "MNC_SUBJECT"
    || name == "MNC_CHANGED_FIELDS"
    || starts_with name "CODE_"

-- a control character
abbrev pub is_control : ℕ → Bool
is_control c = ltb c 0x20 || nat_beq c 0x7f

unfoldable pub safe_text : String → ℕ → Bool
safe_text value maximum = leb (size value) maximum && all (λ c. not (is_control c)) (codes value)

abbrev pub is_identifier_char : ℕ → Bool
is_identifier_char c =
    within b'a' b'z' c
    || within b'A' b'Z' c
    || is_digit c
    || nat_beq c b'_'
    || nat_beq c b'-'
    || nat_beq c b'.'

unfoldable pub identifier : String → Bool
identifier value = not (empty value) && leb (size value) 128 && all is_identifier_char (codes value)

-- the loop of `changed_json`, with `result` so far
unfoldable pub append_names : String → List String → String
append_names result [] = result
append_names result (name ∷ names) =
    append_names
      (append
        (append (append (if ltb 1 (size result) then append result "," else result) "\"") name)
        "\"")
      names

unfoldable pub changed_json : List String → String
unfolding append_names
changed_json names = append (append_names "[" names) "]"
