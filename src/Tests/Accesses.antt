-- ===== src/Tests/Accesses.antt =====
-- Access control on concrete peers.
use meta_monutchee.Base.{some}
use meta_monutchee.System.{AuditContext}
use meta_monutchee.Access.Audit.{trusted_audit_context}
use meta_monutchee.Access.Audit.Recorded.{IsLoggable, trusted_audit_context-IsLoggable}

abbrev claimed : AuditContext
claimed = record { actor = "admin"; request_id = "req-7" }

trusted_audit_context-IsLoggable_example : IsLoggable (trusted_audit_context claimed 970 (some 970))
trusted_audit_context-IsLoggable_example = trusted_audit_context-IsLoggable claimed 970 (some 970)
