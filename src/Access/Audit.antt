-- ===== src/Access/Audit.antt =====
-- `trustedAuditContext` of common/mnc/system/audit.hpp.
pub mod Recorded
use Prim.Native.String.{◌++◌ as append}
use meta_monutchee.Base.{
  ℕ, String, Bool, true, false, ◌&&◌, ◌||◌, not, Option, none, some, leb, ◌==◌, nat_eq, all, codes,
  size, empty, to_string, if◌then◌else◌,
}
use meta_monutchee.System.{AuditContext}
use meta_monutchee.Logging.Fields.{is_control}

-- the lambda `safe`
unfoldable pub safe : String → ℕ → Bool
safe value bound = leb (size value) bound && all (λ c. not (is_control c)) (codes value)

abbrev pub is_trusted : Option ℕ → ℕ → Bool
is_trusted none peer_uid = false
is_trusted (some uid) peer_uid = peer_uid == uid

unfoldable pub trusted_audit_context : AuditContext → ℕ → Option ℕ → AuditContext
unfolding safe
trusted_audit_context context peer_uid trusted_uid =
    if not (is_trusted trusted_uid peer_uid)
    then record { actor = append "uid:" (to_string peer_uid); request_id = "" }
    else record {
      actor =
          if empty context.actor || not (safe context.actor 256) then "unknown" else context.actor;
      request_id = if safe context.request_id 128 then context.request_id else "";
    }
