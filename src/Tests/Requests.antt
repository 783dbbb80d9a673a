-- ===== src/Tests/Requests.antt =====
-- Requests of concrete peers, and pages of a journal.
use meta_monutchee.Base.{
  map, codes, List, String, true, none, some, [], ◌∷◌, ◌≡◌, refl, ◌==◌, string_eq, if◌then◌else◌,
}
use meta_monutchee.System.{ok, err, reboot}
use meta_monutchee.Access.Request.{Codec, Peer}
use meta_monutchee.Logging.Journal.{
  Entry, Query, bounded_page, skip_through, collect, matches_query,
}
use meta_monutchee.Logging.Journal.Decode.{changed_fields, current_entry}
use meta_monutchee.Logging.Journal.Pages.{IsPageOf, bounded_page-IsPageOf}
use meta_monutchee.Tests.Setting.{product, proposal, full_disk}

abbrev codec : Codec
codec = record {
  parse_empty = λ json. ok tt;
  parse_configuration = λ json. ok product;
  parse_proposal = λ json. ok proposal;
  parse_id = λ json. ok json;
  parse_finish = λ json. err full_disk;
  parse_power = λ json. ok (record { action = reboot; audit_context = proposal.audit_context });
  parse_reset = λ json. err full_disk;
  encode_transaction = λ t. ok t.id;
  encode_job = λ j. ok j.id;
  read = λ name b. ok "{}";
}

abbrev settings_peer : Peer
settings_peer = record { uid = 970; settings_uid = some 970; control_uid = some 971 }

names_read : changed_fields "[\"hostname\",\"ntp\"]" ≡ map codes ("hostname" ∷ "ntp" ∷ [])
unfolding changed_fields
names_read = refl

names_refused :
    map changed_fields ("[]" ∷ "[\"]" ∷ "[\"a b\"]" ∷ "[\"a\",]" ∷ "" ∷ [])
    ≡ [] ∷ [] ∷ [] ∷ [] ∷ [] ∷ []
unfolding changed_fields
names_refused = refl

abbrev fields_of : String → String → String
fields_of component name =
    if name == "MNC_COMPONENT" then component else if name == "PRIORITY" then "4" else ""

abbrev entries : List Entry
entries =
    current_entry 1 "a" (fields_of "system")
    ∷ current_entry 2 "b" (fields_of "mqtt")
    ∷ current_entry 3 "c" (fields_of "system")
    ∷ []

abbrev system_page : Query
system_page = record {
  component = some "system";
  module_name = none;
  maximum_priority = none;
  since = none;
  after = some "c";
  components = [];
  units = [];
  limit = 5;
  audience = none;
  category = none;
  event = none;
  until = none;
  newest_first = true;
  strict_cursor = true;
}

page_read : bounded_page entries system_page ≡ some (current_entry 1 "a" (fields_of "system") ∷ [])
unfolding bounded_page skip_through collect matches_query current_entry
page_read = refl

bounded_page-IsPageOf_example : IsPageOf system_page entries (bounded_page entries system_page)
bounded_page-IsPageOf_example = bounded_page-IsPageOf entries system_page
