-- ===== src/Logging/Journal/Decode.antt =====
-- `changed_fields` and `current_entry` of journal_reader.cpp.
use meta_monutchee.Base.{
  ℕ, suc, zero, ◌*◌, String, Bool, false, ◌&&◌, not, Option, none, some, List, [], ◌∷◌, ◌++◌, ltb,
  leb, nat_beq, string_eq, empty, codes, bytes_of, size, length, is_empty, all, is_digit,
  if◌then◌else◌,
}
use meta_monutchee.Validation.Number.{split_at, read_digits}
use meta_monutchee.Logging.Priority.{
  Priority, emergency, alert, critical, error, warning, notice, info, debug,
}
use meta_monutchee.Logging.Fields.{is_identifier_char}
use meta_monutchee.Logging.Journal.{Entry}

-- a name between quotes that the loop accepts
abbrev is_name : List ℕ → Bool
is_name name = not (is_empty name) && leb (bytes_of name) 128 && all is_identifier_char name

-- The loop, with `result` so far: `none` where the source returns no fields. A round takes at least
-- one character.
unfoldable pub read_names : ℕ → List ℕ → List (List ℕ) → Option (List (List ℕ))
unfolding split_at
read_names fuel [] result = some result
read_names zero (c ∷ cs) result = none
read_names (suc fuel) (c ∷ cs) result =
    let (name, after) = split_at b'"' cs in
    if nat_beq c b'"' && is_name name && leb (length result) 63
    then (elim after [
      | none ↦ none
      | some [] ↦ some (result ++ (name ∷ []))
      | some (comma ∷ rest) ↦ elim rest [
        | [] ↦ none
        | quote ∷ more ↦
            if nat_beq comma b',' && nat_beq quote b'"'
            then read_names fuel (quote ∷ more) (result ++ (name ∷ []))
            else none
      ]
    ])
    else none

-- the text without its last character
unfoldable pub remove_last : List ℕ → List ℕ
remove_last [] = []
remove_last (c ∷ []) = []
remove_last (c ∷ (d ∷ cs)) = c ∷ remove_last (d ∷ cs)

-- `value.ends_with("\"]")`
unfoldable pub ends_list : List ℕ → Bool
ends_list [] = false
ends_list (c ∷ []) = false
ends_list (c ∷ (d ∷ [])) = nat_beq c b'"' && nat_beq d b']'
ends_list (c ∷ (d ∷ (e ∷ cs))) = ends_list (d ∷ (e ∷ cs))

abbrev or_nothing : Option (List (List ℕ)) → List (List ℕ)
or_nothing none = []
or_nothing (some names) = names

-- the text behind its first character, and that character and the next tested
abbrev read_list : List ℕ → List (List ℕ)
read_list (bracket ∷ (quote ∷ rest)) =
    if nat_beq bracket b'[' && nat_beq quote b'"' && ends_list (bracket ∷ (quote ∷ rest))
    then or_nothing (read_names (length rest) (remove_last (quote ∷ rest)) [])
    else []
read_list _ = []

-- `changed_fields`; the text "[]" has no names either
unfoldable pub changed_fields : String → List (List ℕ)
unfolding read_names remove_last ends_list
changed_fields value = if ltb (64 * 132) (size value) then [] else read_list (codes value)

unfoldable pub leading_digits : List ℕ → List ℕ
leading_digits [] = []
leading_digits (c ∷ cs) = let rest = leading_digits cs in if is_digit c then c ∷ rest else []

-- `static_cast<Priority>(numeric)` of a number up to 7
abbrev priority_of : ℕ → Priority
priority_of zero = emergency
priority_of (suc zero) = alert
priority_of (suc (suc zero)) = critical
priority_of (suc (suc (suc zero))) = error
priority_of (suc (suc (suc (suc zero)))) = warning
priority_of (suc (suc (suc (suc (suc zero))))) = notice
priority_of (suc (suc (suc (suc (suc (suc zero)))))) = info
priority_of _ = debug

abbrev bounded_priority : Option ℕ → Priority
bounded_priority none = info
bounded_priority (some n) = if leb n 7 then priority_of n else info

-- The leading digits count, whatever follows them; a number that overflows is above 7 too.
unfoldable pub stored_priority : String → Priority
unfolding leading_digits read_digits
stored_priority value =
    let digits = leading_digits (codes value) in
    if is_empty digits then info else bounded_priority (read_digits 10 digits 0)

-- `current_entry`, of an entry with this time and cursor whose data `field` reads
unfoldable pub current_entry : ℕ → String → (String → String) → Entry
unfolding changed_fields stored_priority
current_entry timestamp cursor field = record {
  timestamp = timestamp;
  cursor = cursor;
  priority = stored_priority (field "PRIORITY");
  message = field "MESSAGE";
  component = field "MNC_COMPONENT";
  module_name = field "MNC_MODULE";
  event = field "MNC_EVENT";
  audience = if empty (field "MNC_LOG_AUDIENCE") then "developer" else field "MNC_LOG_AUDIENCE";
  category = field "MNC_EVENT_CATEGORY";
  actor = field "MNC_ACTOR";
  action = field "MNC_ACTION";
  outcome = field "MNC_OUTCOME";
  subject = field "MNC_SUBJECT";
  changed_fields = changed_fields (field "MNC_CHANGED_FIELDS");
  request_id = field "MNC_REQUEST_ID";
  configuration_generation = field "MNC_CONFIGURATION_GENERATION";
  unit = if empty (field "UNIT") then field "_SYSTEMD_UNIT" else field "UNIT";
  systemd_unit = field "_SYSTEMD_UNIT";
  executable = field "_EXE";
  source_file = field "CODE_FILE";
  source_line = field "CODE_LINE";
  source_function = field "CODE_FUNC";
}
