-- ===== src/Tests/Logs.antt =====
-- A journal with one entry, and entries as JSON.
use meta_monutchee.Base.{
  ℕ, ◌-◌, ◌≡◌, refl, leb, Bool, true, false, none, some, [], ◌∷◌, ◌++◌, codes, ◌==◌, string_eq,
  if◌then◌else◌,
}
use meta_monutchee.Logging.Journal.{Entry, Query, matches_query}
use meta_monutchee.Logging.Journal.Decode.{current_entry}
use meta_monutchee.Logging.Journal.Json.{json_escape}
use meta_monutchee.Logging.Journal.Json.Unescaped.{Mode, read_string, read_string-json_escape}
use meta_monutchee.Logging.Journal.Read.{Op, Ops, Moved, Reader, Waited, read}
use meta_monutchee.Logging.Journal.Read.Follow.{follow}
use meta_monutchee.Logging.Journal.Read.Handed.{follow-AllFitting}
use meta_monutchee.Logging.Journal.Read.Unhanded.{AllFitting}

abbrev entry : Entry
entry = current_entry 1 "a" (λ name.
    if name == "MESSAGE" then "a \"b\"\n" else if name == "MNC_LOG_AUDIENCE" then "user" else "")

-- The place of the journal among its entries: 1 at the entry, 2 behind it. The step to the next entry leads
-- to this one.
abbrev place : Ops → ℕ
place [] = 0
place (Op.seek_tail ∷ h) = 2
place (Op.next ∷ h) = 1
place (Op.previous ∷ h) = place h - 1
place (_ ∷ h) = place h

abbrev stepped : Bool → Moved
stepped true = Moved.at_end
stepped false = Moved.moved

abbrev reader : Reader
reader = record {
  is_open = true;
  adds_match = λ h. true;
  seeks_cursor = λ h cursor. true;
  is_at_cursor = λ h cursor. entry.cursor == cursor;
  seeks_tail = λ h. true;
  seeks_time = λ h t. true;
  next = λ h. Moved.moved;
  previous = λ h. stepped (leb (place h) 1);
  entry = λ h. entry;
  handles = λ h e. false;
  keeps_running = λ h. true;
  waited = λ h. Waited.woken;
}

abbrev newest : Query
newest = record {
  component = none;
  module_name = none;
  maximum_priority = none;
  since = none;
  after = none;
  components = [];
  units = [];
  limit = 5;
  audience = some "user";
  category = none;
  event = none;
  until = none;
  newest_first = true;
  strict_cursor = true;
}

abbrev oldest : Query
oldest = record newest { newest_first = false; audience = none }

-- a page with the entry, which the handler refuses
handed_over :
    (follow reader oldest 3 9 []).1
    ≡ Op.handle entry
      ∷ Op.previous
      ∷ Op.decode_entry
      ∷ Op.previous
      ∷ Op.seek_tail
      ∷ Op.flush_matches
      ∷ []
unfolding follow read matches_query
handed_over = refl

follow-AllFitting_example : AllFitting oldest (follow reader oldest 3 9 []).1
follow-AllFitting_example = follow-AllFitting oldest reader 3 9

control_escaped : json_escape (1 ∷ b'a' ∷ 10 ∷ []) ≡ codes "\\u0001a\\n"
unfolding json_escape
control_escaped = refl

read_string-json_escape_example :
    read_string Mode.plain (json_escape (codes "a \"b\"\n") ++ (b'"' ∷ codes ","))
    ≡ some (codes "a \"b\"\n", codes ",")
read_string-json_escape_example = read_string-json_escape (codes "a \"b\"\n") (codes ",")
