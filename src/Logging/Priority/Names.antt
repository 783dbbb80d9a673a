-- ===== src/Logging/Priority/Names.antt =====
-- Names of priorities, printed and parsed.
use meta_monutchee.Base.{◌≡◌, refl, some, list_beq}
use meta_monutchee.Logging.Priority.{
  Priority, emergency, alert, critical, error, warning, notice, info, debug, priority_name,
  parse_priority,
}

-- The name of a priority is parsed as that priority.
pub parse_priority-priority_name : (p : Priority) → parse_priority (priority_name p) ≡ some p
unfolding parse_priority priority_name list_beq
parse_priority-priority_name emergency = refl
parse_priority-priority_name alert = refl
parse_priority-priority_name critical = refl
parse_priority-priority_name error = refl
parse_priority-priority_name warning = refl
parse_priority-priority_name notice = refl
parse_priority-priority_name info = refl
parse_priority-priority_name debug = refl
