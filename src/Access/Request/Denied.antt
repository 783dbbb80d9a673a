-- ===== src/Access/Request/Denied.antt =====
-- A peer without the role of an operation reaches nothing.
use meta_monutchee.Base.{String, Option, false, ◌≡◌, refl}
use meta_monutchee.System.{ErrorCode}
use meta_monutchee.Access.Policy.{allowed}
use meta_monutchee.Access.Request.{Codec, Peer, Reply, run_request, request}
use meta_monutchee.Backend.Profile.{Profile}
use meta_monutchee.Backend.Host.{Host}
use meta_monutchee.Backend.Monad.{Backend}

abbrev pub denied : Reply
denied = record {
  code = ErrorCode.permission_denied;
  message = "operation is not allowed for this service identity";
  json = "";
}

-- A request that the policy does not allow its peer is answered with the denial, whatever its
-- argument, and leaves the backend and everything outside as it was.
pub request-denied :
    (host : Host) (profile : Profile) (codec : Codec) (peer : Peer) (name : String)
    (json : Option String) (b : Backend)
    → allowed name peer.uid peer.settings_uid peer.control_uid ≡ false
    → request host profile codec peer name json b ≡ (denied, b)
unfolding request run_request
request-denied host profile codec peer name json b h = rw h refl
