-- ===== src/Logging/UserLog.antt =====
-- `LogBase::emit`, `UserLog::write` and `DeveloperLog::write` of logging.cpp, up to the call of the
-- sink: the record that `sink_->write` is given.
pub mod Audiences
use meta_monutchee.Base.{
  ℕ, String, Bool, true, false, ◌&&◌, not, Option, none, some, List, [], ◌∷◌, ◌++◌, leb, string_eq,
  empty, all, contains, length, if◌then◌else◌, to_string,
}
use meta_monutchee.Logging.Priority.{Priority, priority_value}
use meta_monutchee.Logging.Fields.{
  Field, valid_field_name, reserved, safe_text, identifier, changed_json,
}

pub data Audience : Type 0 where
  developer user : Audience

-- `std::source_location`
pub record SourceLocation : Type 0 where
  pub file_name : String
  pub line : ℕ
  pub function_name : String

-- a `LogBase` object: its fields and its virtual `audience()`
pub record LogBase : Type 0 where
  pub component : String
  pub module_name : String
  pub audience : Audience

abbrev pub field : String → String → Field
field name value = record { name = name; value = value }

abbrev pub audience_name : Audience → String
audience_name user = "user"
audience_name developer = "developer"

abbrev is_developer : Audience → Bool
is_developer user = false
is_developer developer = true

-- the loop over the extra fields
unfoldable pub extra_fields : Audience → List Field → List Field
extra_fields audience [] = []
extra_fields audience (f ∷ fields) =
    let rest = extra_fields audience fields in
    if not (valid_field_name f.name)
    then rest
    else if reserved f.name && is_developer audience
    then rest
    else f ∷ rest

abbrev pub source_fields : Option SourceLocation → List Field
source_fields none = []
source_fields (some s) =
    field "CODE_FILE" s.file_name
    ∷ field "CODE_LINE" (to_string s.line)
    ∷ field "CODE_FUNC" s.function_name
    ∷ []

-- `LogBase::emit`
unfoldable pub emit :
    LogBase → Priority → String → String → List Field → Option SourceLocation → List Field
unfolding extra_fields
emit log priority message event fields source =
    (field "MESSAGE" message
      ∷ field "PRIORITY" (to_string (priority_value priority))
      ∷ field "MNC_COMPONENT" log.component
      ∷ field "MNC_LOG_AUDIENCE" (audience_name log.audience)
      ∷ [])
    ++ ((if not (empty log.module_name) then field "MNC_MODULE" log.module_name ∷ [] else [])
        ++ ((if not (empty event) then field "MNC_EVENT" event ∷ [] else [])
            ++ (source_fields source ++ extra_fields log.audience fields)))

-- `DeveloperLog::write`, of the log of a component and a module
unfoldable pub developer_write :
    String → String → Priority → String → String → List Field → SourceLocation → List Field
unfolding emit
developer_write component module_name priority message event fields source =
    emit (record { component = component; module_name = module_name; audience = developer })
      priority message event fields (some source)

pub record UserEvent : Type 0 where
  pub code : String
  pub category : String
  pub message : String
  pub actor : String
  pub action : String
  pub outcome : String
  pub subject : String
  pub changed_fields : List String
  pub request_id : String

abbrev pub categories : List String
categories =
    "network" ∷ "mqtt" ∷ "delivery" ∷ "settings" ∷ "authentication" ∷ "administration"
    ∷ "availability" ∷ []

unfoldable pub valid_user_event : UserEvent → Bool
valid_user_event event =
    identifier event.code
    && identifier event.action
    && identifier event.outcome
    && contains event.category categories
    && not (empty event.message)
    && safe_text event.message 512
    && safe_text event.actor 256
    && safe_text event.subject 256
    && safe_text event.request_id 128
    && leb (length event.changed_fields) 64
    && all identifier event.changed_fields

-- the array `fields` of `UserLog::write`
unfoldable pub event_fields : UserEvent → List Field
event_fields event =
    field "MNC_EVENT_CATEGORY" event.category
    ∷ field "MNC_ACTOR" event.actor
    ∷ field "MNC_ACTION" event.action
    ∷ field "MNC_OUTCOME" event.outcome
    ∷ field "MNC_SUBJECT" event.subject
    ∷ field "MNC_CHANGED_FIELDS" (changed_json event.changed_fields)
    ∷ field "MNC_REQUEST_ID" event.request_id
    ∷ []

-- `UserLog::write`: `none` where it returns false and calls no sink
unfoldable pub user_write : String → String → Priority → UserEvent → Option (List Field)
unfolding valid_user_event event_fields emit
user_write component module_name priority event =
    if not (valid_user_event event)
    then none
    else some (
        emit (record { component = component; module_name = module_name; audience = user }) priority
          event.message event.code (event_fields event) none)
