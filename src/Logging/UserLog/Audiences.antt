-- ===== src/Logging/UserLog/Audiences.antt =====
-- Who reads a record: developers cannot write into the public stream.
use meta_monutchee.Base.{
  not, empty, to_string, ap, ◌∙◌, String, Bool, true, false, ◌≡◌, arith, refl, List, [], ◌∷◌, ◌++◌,
  some, ◌==◌, string_eq, eq_iff, if◌then◌else◌,
}
use meta_monutchee.Logging.Priority.{Priority, priority_value}
use meta_monutchee.Logging.Fields.{Field, reserved}
use meta_monutchee.Logging.UserLog.{
  field, source_fields, developer, SourceLocation, extra_fields, developer_write, emit,
}

-- the values under a name in a record, of which the journal shows each
unfoldable pub values : String → List Field → List String
values name [] = []
values name (f ∷ fields) =
    let rest = values name fields in if f.name == name then f.value ∷ rest else rest

values-append :
    (name : String) (fs gs : List Field) → values name (fs ++ gs) ≡ values name fs ++ values name gs
unfolding values
values-append name [] gs = refl
values-append name (f ∷ fs) gs = ground (arith, values-append name fs gs)

values-extra_fields :
    (name : String) (fields : List Field)
    → reserved name ≡ true
    → values name (extra_fields developer fields) ≡ []
unfolding values extra_fields
values-extra_fields name [] h = refl
values-extra_fields name (f ∷ fields) h =
    ground (arith, values-extra_fields name fields h, eq_iff f.name name)

values-optional :
    (name : String) (t : Bool) (f : Field)
    → (f.name == name) ≡ false
    → values name (if t then f ∷ [] else []) ≡ []
unfolding values
values-optional name true f h = rw h refl
values-optional name false f h = refl

module _ (component module_name : String) (p : Priority) (message event : String)
    (fields : List Field) (source : SourceLocation) where
  abbrev written : List Field
  written = developer_write component module_name p message event fields source

  abbrev core : List Field
  core =
      field "MESSAGE" message
      ∷ field "PRIORITY" (to_string (priority_value p))
      ∷ field "MNC_COMPONENT" component
      ∷ field "MNC_LOG_AUDIENCE" "developer"
      ∷ []

  -- a reserved name of no optional field stands in the core alone
  values-written :
      (name : String)
      → reserved name ≡ true
      → ("MNC_MODULE" == name) ≡ false
      → ("MNC_EVENT" == name) ≡ false
      → values name (source_fields (some source)) ≡ []
      → values name written ≡ values name core ++ []
  unfolding developer_write emit
  values-written name r m e s =
      values-append name core _
      ∙ ap (λ rest. values name core ++ rest)
          (values-append name
              (if not (empty module_name) then field "MNC_MODULE" module_name ∷ [] else []) _
            ∙ rw (values-optional name (not (empty module_name)) (field "MNC_MODULE" module_name) m)
                (values-append name (if not (empty event) then field "MNC_EVENT" event ∷ [] else [])
                    _
                  ∙ rw (values-optional name (not (empty event)) (field "MNC_EVENT" event) e) (
                      values-append name (source_fields (some source)) _
                      ∙ rw s (values-extra_fields name fields r))))

  -- A record of a developer log has one message, priority, component and audience, those of the log,
  -- and none of the fields that describe a public event, whatever extra fields it is given.
  pub developer_write-values :
      (values "MNC_LOG_AUDIENCE" written ≡ "developer" ∷ [])
      × (values "MESSAGE" written ≡ message ∷ [])
      × (values "PRIORITY" written ≡ to_string (priority_value p) ∷ [])
      × (values "MNC_COMPONENT" written ≡ component ∷ [])
      × (values "MNC_EVENT_CATEGORY" written ≡ [])
      × (values "MNC_ACTOR" written ≡ [])
      × (values "MNC_ACTION" written ≡ [])
      × (values "MNC_OUTCOME" written ≡ [])
      × (values "MNC_SUBJECT" written ≡ [])
      × (values "MNC_CHANGED_FIELDS" written ≡ [])
  unfolding values reserved
  developer_write-values = (
    values-written "MNC_LOG_AUDIENCE" refl refl refl refl,
    values-written "MESSAGE" refl refl refl refl,
    values-written "PRIORITY" refl refl refl refl,
    values-written "MNC_COMPONENT" refl refl refl refl,
    values-written "MNC_EVENT_CATEGORY" refl refl refl refl,
    values-written "MNC_ACTOR" refl refl refl refl,
    values-written "MNC_ACTION" refl refl refl refl,
    values-written "MNC_OUTCOME" refl refl refl refl,
    values-written "MNC_SUBJECT" refl refl refl refl,
    values-written "MNC_CHANGED_FIELDS" refl refl refl refl,
  )
