-- ===== src/Logging/Journal.antt =====
-- Entries of the journal and the query on them: journal_reader.hpp, and `matches_query` and
-- `bounded_page` of journal_reader.cpp. A time is a number of microseconds, and a cursor is its text.
pub mod Decode
pub mod Json
pub mod Pages
pub mod Read
use meta_monutchee.Base.{
  ℕ, suc, zero, String, Bool, true, false, ◌&&◌, ◌||◌, not, Option, none, some, List, [], ◌∷◌, ltb,
  leb, nat_beq, ◌==◌, string_eq, empty, is_empty, contains, any, if◌then◌else◌,
}
use meta_monutchee.Logging.Priority.{Priority, priority_value}

pub record Entry : Type 0 where
  pub timestamp : ℕ
  pub cursor : String
  pub priority : Priority
  pub message : String
  pub component : String
  pub module_name : String
  pub event : String
  pub audience : String
  pub category : String
  pub actor : String
  pub action : String
  pub outcome : String
  pub subject : String
  -- the names as their characters
  pub changed_fields : List (List ℕ)
  pub request_id : String
  pub configuration_generation : String
  pub unit : String
  pub systemd_unit : String
  pub executable : String
  pub source_file : String
  pub source_line : String
  pub source_function : String

pub record Query : Type 0 where
  pub component : Option String
  pub module_name : Option String
  pub maximum_priority : Option Priority
  pub since : Option ℕ
  pub after : Option String
  pub components : List String
  pub units : List String
  pub limit : ℕ
  pub audience : Option String
  pub category : Option String
  pub event : Option String
  pub until : Option ℕ
  pub newest_first : Bool
  pub strict_cursor : Bool

abbrev pub listed : List String → String → Bool
listed values value = is_empty values || contains value values

-- `!wanted || value == *wanted`
abbrev pub is_wanted : Option String → String → Bool
is_wanted none value = true
is_wanted (some wanted) value = value == wanted

abbrev pub is_since : Option ℕ → ℕ → Bool
is_since none t = true
is_since (some since) t = leb since t

abbrev pub is_until : Option ℕ → ℕ → Bool
is_until none t = true
is_until (some until) t = leb t until

abbrev pub is_urgent : Option Priority → Priority → Bool
is_urgent none p = true
is_urgent (some maximum) p = leb (priority_value p) (priority_value maximum)

-- an entry of a listed component or unit, if both are listed, and else of both
abbrev pub is_listed : Entry → Query → Bool
is_listed entry query =
    if not (is_empty query.components) && not (is_empty query.units)
    then listed query.components entry.component || listed query.units entry.unit
    else listed query.components entry.component && listed query.units entry.unit

unfoldable pub matches_query : Entry → Query → Bool
matches_query entry query =
    is_wanted query.audience entry.audience
    && is_wanted query.category entry.category
    && is_wanted query.event entry.event
    && is_since query.since entry.timestamp
    && is_until query.until entry.timestamp
    && is_wanted query.component entry.component
    && is_wanted query.module_name entry.module_name
    && is_urgent query.maximum_priority entry.priority
    && is_listed entry query

-- entries in the order in which the loop visits them
abbrev pub reverse_onto : List Entry → List Entry → List Entry
reverse_onto [] acc = acc
reverse_onto (e ∷ es) acc = reverse_onto es (e ∷ acc)

abbrev pub visited : Query → List Entry → List Entry
visited query entries = if query.newest_first then reverse_onto entries [] else entries

-- the cursor to continue after, if there is one
abbrev pub start_after : Option String → Option String
start_after none = none
start_after (some cursor) = if empty cursor then none else some cursor

-- what follows the entry of the cursor
unfoldable pub skip_through : String → List Entry → List Entry
skip_through cursor [] = []
skip_through cursor (e ∷ es) = if e.cursor == cursor then es else skip_through cursor es

-- the loop behind the cursor, with the number of entries that still fit
unfoldable pub collect : Query → List Entry → ℕ → List Entry
collect query [] left = []
collect query (e ∷ es) zero = []
collect query (e ∷ es) (suc left) = elim (matches_query e query) [
  | true ↦ e ∷ collect query es left
  | false ↦ collect query es (suc left)
]

abbrev pub page_after : Query → Option String → List Entry → Option (List Entry)
page_after query none entries = some (collect query (visited query entries) query.limit)
page_after query (some cursor) entries =
    if query.strict_cursor && not (any (λ (e : Entry). e.cursor == cursor) entries)
    then none
    else some (collect query (skip_through cursor (visited query entries)) query.limit)

-- `none` where the source throws that the cursor has expired
unfoldable pub bounded_page : List Entry → Query → Option (List Entry)
bounded_page entries query =
    if nat_beq query.limit 0 then some [] else page_after query (start_after query.after) entries
