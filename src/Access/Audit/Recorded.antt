-- ===== src/Access/Audit/Recorded.antt =====
-- What `trustedAuditContext` yields is fit for the audit log, so no request escapes it.
use Prim.Native.String.{◌++◌ as append}
use meta_monutchee.Base.{
  ℕ, String, Bool, true, false, not, ◌||◌, ◌==◌, string_eq, ◌≡◌, ◌≢◌, refl, Option, none, List, [],
  ◌∷◌, arith, Bool-cases, inl, inr, all, codes, empty, is_digit, to_string, to_string-IsDigit,
  codes-append, bytes_of-append, empty-append, if◌then◌else◌,
}
use meta_monutchee.System.{AuditContext}
use meta_monutchee.Logging.Fields.{safe_text, is_control, identifier}
use meta_monutchee.Logging.Priority.{info}
use meta_monutchee.Logging.UserLog.{valid_user_event, user_write}
use meta_monutchee.Access.Audit.{is_trusted, trusted_audit_context}
use meta_monutchee.Backend.State.{Pending}
use meta_monutchee.Backend.Settle.{settled_event}

-- a record of an actor and a request that the audit log accepts
abbrev pub IsLoggable : AuditContext → Type 0
IsLoggable a =
    (empty a.actor ≡ false) × (safe_text a.actor 256 ≡ true) × (safe_text a.request_id 128 ≡ true)

digits_not-control :
    (cs : List ℕ) → all is_digit cs ≡ true → all (λ c. not (is_control c)) cs ≡ true
digits_not-control [] h = refl
digits_not-control (c ∷ cs) h = ground (arith, digits_not-control cs)

empty-uid : (s : String) → empty (append "uid:" s) ≡ false
empty-uid s = empty-append "uid:" s refl

uid-safe : (uid : ℕ) → safe_text (append "uid:" (to_string uid)) 256 ≡ true
unfolding safe_text
uid-safe uid =
    let digits = to_string-IsDigit uid in
    let bytes = bytes_of-append (codes "uid:") (codes (to_string uid)) in
    let clean = digits_not-control (codes (to_string uid)) digits.1 in
    rw (codes-append "uid:" (to_string uid)) (ground (arith, digits.0, bytes, clean))

abbrev fallback : String → Bool → Bool → String
fallback actor is_empty is_safe = if is_empty || not is_safe then "unknown" else actor

fallback-safe :
    (actor : String) (is_empty is_safe : Bool)
    → empty actor ≡ is_empty
    → safe_text actor 256 ≡ is_safe
    → (empty (fallback actor is_empty is_safe) ≡ false)
      × (safe_text (fallback actor is_empty is_safe) 256 ≡ true)
unfolding safe_text
fallback-safe actor true s h k = (refl, refl)
fallback-safe actor false true h k = (h, k)
fallback-safe actor false false h k = (refl, refl)

request-safe :
    (id : String) (is_safe : Bool)
    → safe_text id 128 ≡ is_safe
    → safe_text (if is_safe then id else "") 128 ≡ true
unfolding safe_text
request-safe id true h = h
request-safe id false h = refl

-- Whatever a peer supplies, the context that reaches the backend has an actor, and the audit log
-- accepts the actor and the request id.
pub trusted_audit_context-IsLoggable :
    (context : AuditContext) (peer_uid : ℕ) (trusted_uid : Option ℕ)
    → IsLoggable (trusted_audit_context context peer_uid trusted_uid)
unfolding trusted_audit_context safe_text
trusted_audit_context-IsLoggable context uid trusted = elim (Bool-cases (is_trusted trusted uid)) [
  | inl same ↦ rw same (
      let actor = fallback-safe context.actor _ _ refl refl in
      (actor.0, actor.1, request-safe context.request_id _ refl))
  | inr other ↦ rw other (empty-uid (to_string uid), uid-safe uid, refl)
]

settled_event-valid :
    (commit : Bool) (reason : String) (p : Pending)
    → safe_text p.actor 256 ≡ true
    → safe_text p.request_id 128 ≡ true
    → valid_user_event (settled_event commit reason p) ≡ true
unfolding valid_user_event identifier safe_text
settled_event-valid true reason p h k = ground arith
settled_event-valid false reason p h k = elim (Bool-cases (reason == "cancel")) [
  | inl cancel ↦ rw cancel (ground arith)
  | inr other ↦ rw other (elim (Bool-cases (reason == "timeout")) [
    | inl expired ↦ rw expired (ground arith)
    | inr recovery ↦ rw recovery (ground arith)
  ])
]

-- The settlement of a transaction whose author is such a context always leaves a record in the audit
-- log, whatever the peer supplied and however the transaction ended.
pub settlement_recorded :
    (context : AuditContext) (uid : ℕ) (trusted : Option ℕ) (p : Pending) (commit : Bool)
    (reason : String)
    → let a = trusted_audit_context context uid trusted in
      user_write "system-manager" "operations" info
        (settled_event commit reason (record p { actor = a.actor; request_id = a.request_id }))
      ≢ none
unfolding user_write
settlement_recorded context uid trusted p commit reason =
    let a = trusted_audit_context context uid trusted in
    let fit = trusted_audit_context-IsLoggable context uid trusted in
    let p' = record p { actor = a.actor; request_id = a.request_id } in
    rw (settled_event-valid commit reason p' fit.1 fit.2) (λ e. cc)
