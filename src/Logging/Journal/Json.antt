-- ===== src/Logging/Journal/Json.antt =====
-- `json_escape` and `entry_to_json` of journal_reader.cpp.
pub mod Unescaped
use meta_monutchee.Base.{
  ℕ, String, Bool, List, [], ◌∷◌, ◌++◌, codes, ltb, nat_beq, to_string, if◌then◌else◌,
}
use meta_monutchee.Base.Hex.{hex_byte}
use meta_monutchee.Logging.Priority.{priority_name}
use meta_monutchee.Logging.Journal.{Entry}

-- what is written for a character
unfoldable pub escape_char : ℕ → List ℕ
escape_char c =
    if nat_beq c b'"'
    then b'\\' ∷ (b'"' ∷ [])
    else if nat_beq c b'\\'
    then b'\\' ∷ (b'\\' ∷ [])
    else if nat_beq c 8
    then b'\\' ∷ (b'b' ∷ [])
    else if nat_beq c 12
    then b'\\' ∷ (b'f' ∷ [])
    else if nat_beq c 10
    then b'\\' ∷ (b'n' ∷ [])
    else if nat_beq c 13
    then b'\\' ∷ (b'r' ∷ [])
    else if nat_beq c 9
    then b'\\' ∷ (b't' ∷ [])
    else if ltb c 32
    then b'\\' ∷ (b'u' ∷ (b'0' ∷ (b'0' ∷ codes (hex_byte c))))
    else c ∷ []

unfoldable pub json_escape : List ℕ → List ℕ
unfolding escape_char
json_escape [] = []
json_escape (c ∷ cs) = escape_char c ++ json_escape cs

-- a member whose value is a text, with the comma before it
abbrev member : String → String → List ℕ
member key value =
    codes ",\"" ++ (codes key ++ (codes "\":\"" ++ (json_escape (codes value) ++ codes "\"")))

-- the names in quotes, with commas between
unfoldable pub quoted : List (List ℕ) → List ℕ
quoted [] = []
quoted (name ∷ []) = b'"' ∷ (json_escape name ++ (b'"' ∷ []))
quoted (name ∷ (next ∷ more)) = b'"' ∷ (json_escape name ++ (b'"' ∷ (b',' ∷ quoted (next ∷ more))))

-- the members behind the time, in the order of the source
unfoldable pub members : Entry → List (List ℕ)
members e =
    member "cursor" e.cursor
    ∷ member "priority" (priority_name e.priority)
    ∷ member "message" e.message
    ∷ member "component" e.component
    ∷ member "module" e.module_name
    ∷ member "event" e.event
    ∷ member "request_id" e.request_id
    ∷ member "configuration_generation" e.configuration_generation
    ∷ member "unit" e.unit
    ∷ member "executable" e.executable
    ∷ member "source_file" e.source_file
    ∷ member "source_line" e.source_line
    ∷ member "source_function" e.source_function
    ∷ member "audience" e.audience
    ∷ member "category" e.category
    ∷ member "actor" e.actor
    ∷ member "action" e.action
    ∷ member "outcome" e.outcome
    ∷ member "subject" e.subject
    ∷ []

abbrev concat : List (List ℕ) → List ℕ
concat [] = []
concat (xs ∷ rest) = xs ++ concat rest

-- the name of a priority is written without an escape, and has nothing to escape
unfoldable pub entry_to_json : Entry → List ℕ
unfolding json_escape quoted members
entry_to_json e =
    codes "{\"timestamp_usec\":"
    ++ (codes (to_string e.timestamp)
        ++ (concat (members e)
            ++ (codes ",\"changed_fields\":[" ++ (quoted e.changed_fields ++ codes "]}"))))
