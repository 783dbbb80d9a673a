-- ===== src/Access/Request.antt =====
-- `Daemon::request` of daemon/main.cpp: from a D-Bus message to a reply. Its log records are left out.
pub mod Denied
use meta_monutchee.Base.{
  ℕ, String, Bool, true, false, ◌||◌, not, Option, none, some, ltb, size, ◌==◌, string_eq,
  if◌then◌else◌,
}
use meta_monutchee.System.{
  Result, ok, err, SystemError, ErrorCode, Configuration, NetworkProposal, NetworkTransaction, Job,
  AuditContext, PowerAction,
}
use meta_monutchee.Access.Policy.{allowed}
use meta_monutchee.Access.Audit.{trusted_audit_context}
use meta_monutchee.Backend.Profile.{Profile}
use meta_monutchee.Backend.Host.{Host}
use meta_monutchee.Backend.Monad.{Backend, M, pure, throw, throw_if, gets, lift, ◌>>=◌, ◌>>◌}
use meta_monutchee.Backend.Apply
use meta_monutchee.Backend.Network
use meta_monutchee.Backend.Jobs

-- `Reply`, `Finish`, `Power` and `Reset` of common/mnc/os/system/protocol.hpp
pub record Reply : Type 0 where
  pub code : ErrorCode
  pub message : String
  pub json : String

pub record FinishRequest : Type 0 where
  pub id : String
  pub commit : Bool
  pub audit_context : AuditContext

pub record PowerRequest : Type 0 where
  pub action : PowerAction
  pub audit_context : AuditContext

pub record ResetRequest : Type 0 where
  pub confirmed : Bool
  pub audit_context : AuditContext

-- What the JSON library reads and writes, and the five operations that only read: the answer of the
-- platform as it is encoded.
pub record Codec : Type 0 where
  pub parse_empty : String → Result (Unit {0})
  pub parse_configuration : String → Result Configuration
  pub parse_proposal : String → Result NetworkProposal
  pub parse_id : String → Result String
  pub parse_finish : String → Result FinishRequest
  pub parse_power : String → Result PowerRequest
  pub parse_reset : String → Result ResetRequest
  pub encode_transaction : NetworkTransaction → Result String
  pub encode_job : Job → Result String
  pub read : String → Backend → Result String

-- `decode` of protocol.hpp: the limit of a message, then the library
unfoldable pub decode : {A : Type 0} → (String → Result A) → String → Result A
decode parse text =
    if ltb 65536 (size text)
    then err (record { code = ErrorCode.invalid_argument; message = "message too large" })
    else parse text

-- the peer of a message with the accounts of the profile, as `getpwnam` knows them
pub record Peer : Type 0 where
  pub uid : ℕ
  pub settings_uid : Option ℕ
  pub control_uid : Option ℕ

abbrev pub settings_context : Peer → AuditContext → AuditContext
settings_context peer c = trusted_audit_context c peer.uid peer.settings_uid

abbrev pub control_context : Peer → AuditContext → AuditContext
control_context peer c = trusted_audit_context c peer.uid peer.control_uid

abbrev pub is_plain_read : String → Bool
is_plain_read name =
    name == "GetStatus"
    || name == "GetTime"
    || name == "ListTimezones"
    || name == "GetTimezoneCatalog"
    || name == "GetTemperatures"

module _ (host : Host) (profile : Profile) (codec : Codec) (peer : Peer) where
  -- one method for each operation: what it decodes, calls and encodes
  unfoldable pub run_read : String → String → M String
  run_read name json = do
    lift (decode codec.parse_empty json)
    answer ← gets (codec.read name)
    lift answer

  unfoldable pub run_apply : String → M String
  run_apply json = do
    config ← lift (decode codec.parse_configuration json)
    Apply.apply host profile config
    pure ""

  unfoldable pub run_begin_network : String → M String
  run_begin_network json = do
    p ← lift (decode codec.parse_proposal json)
    let c = settings_context peer p.audit_context
    t ← Network.begin_network host profile p c.actor c.request_id
    lift (codec.encode_transaction t)

  unfoldable pub run_network_transaction : String → M String
  run_network_transaction json = do
    lift (decode codec.parse_empty json)
    t ← Network.network_transaction host profile
    lift (codec.encode_transaction t)

  unfoldable pub run_prepare : String → M String
  run_prepare json = do
    id ← lift (decode codec.parse_id json)
    Network.prepare_network_commit host profile id
    pure ""

  unfoldable pub run_finish : String → M String
  run_finish json = do
    v ← lift (decode codec.parse_finish json)
    let c = settings_context peer v.audit_context
    Network.finish_network host profile v.id v.commit c.actor c.request_id
    pure ""

  unfoldable pub run_power : String → M String
  run_power json = do
    v ← lift (decode codec.parse_power json)
    let c = control_context peer v.audit_context
    j ← Jobs.power host v.action c.actor c.request_id
    lift (codec.encode_job j)

  unfoldable pub run_reset : String → M String
  run_reset json = do
    v ← lift (decode codec.parse_reset json)
    let c = control_context peer v.audit_context
    j ← Jobs.reset_device host profile v.confirmed c.actor c.request_id
    lift (codec.encode_job j)

  unfoldable pub run_job : String → M String
  run_job json = do lift (decode codec.parse_empty json); j ← Jobs.job; lift (codec.encode_job j)

  -- the chain of tests of the name
  unfoldable pub run_operation : String → String → M String
  run_operation name json =
      if is_plain_read name
      then run_read name json
      else if name == "ApplyPreferences"
      then run_apply json
      else if name == "BeginNetwork"
      then run_begin_network json
      else if name == "GetNetworkTransaction"
      then run_network_transaction json
      else if name == "PrepareNetworkCommit"
      then run_prepare json
      else if name == "FinishNetwork"
      then run_finish json
      else if name == "Power"
      then run_power json
      else if name == "ResetDevice"
      then run_reset json
      else if name == "GetJob"
      then run_job json
      else throw ErrorCode.unsupported "unknown system operation"

  -- the argument of the message, which may be missing
  abbrev run_argument : String → Option String → M String
  run_argument name none = throw ErrorCode.invalid_argument "missing request"
  run_argument name (some json) = run_operation name json

  -- the body of the `try`, behind the query of the peer's identity
  unfoldable pub run_request : String → Option String → M String
  run_request name json = do
    throw_if (not (allowed name peer.uid peer.settings_uid peer.control_uid))
        ErrorCode.permission_denied "operation is not allowed for this service identity"
    run_argument name json

abbrev pub reply_of : Result String × Backend → Reply × Backend
reply_of (ok json, b) = (record { code = ErrorCode.none; message = ""; json = json }, b)
reply_of (err e, b) = (record { code = e.code; message = e.message; json = "" }, b)

-- `request`: an exception becomes the reply's code and message
unfoldable pub request :
    Host → Profile → Codec → Peer → String → Option String → Backend → Reply × Backend
request host profile codec peer name json b =
    reply_of (run_request host profile codec peer name json b)
