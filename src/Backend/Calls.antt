-- ===== src/Backend/Calls.antt =====
-- Any sequence of calls of the public methods of `Backend`: requests in any order, with ticks between.
pub mod AtMostOnce
pub mod Exclusive
pub mod Machine
pub mod Rules
pub mod Stuck
use meta_monutchee.Base.{ℕ, ◌+◌, String, Bool, List, [], ◌∷◌, if◌then◌else◌}
use meta_monutchee.System.{Configuration, NetworkProposal, PowerAction, succeeds}
use meta_monutchee.Backend.Profile.{Profile}
use meta_monutchee.Backend.Host.{Host}
use meta_monutchee.Backend.Monad.{Backend}
use meta_monutchee.Backend.Tick
use meta_monutchee.Backend.Apply
use meta_monutchee.Backend.Network
use meta_monutchee.Backend.Jobs

pub data Call : Type 0 where
  tick network_transaction : Call
  apply : Configuration → Call
  begin_network : NetworkProposal → String → String → Call
  prepare_network_commit : String → Call
  finish_network : String → Bool → String → String → Call
  power : PowerAction → String → String → Call
  reset_device : Bool → String → String → Call

module _ (host : Host) (profile : Profile) where
  -- the backend after one call, whether it returned or threw
  unfoldable pub call : Call → Backend → Backend
  call tick b = (Tick.tick host profile b).1
  call network_transaction b = (Network.network_transaction host profile b).1
  call (apply c) b = (Apply.apply host profile c b).1
  call (begin_network p actor request) b = (Network.begin_network host profile p actor request b).1
  call (prepare_network_commit id) b = (Network.prepare_network_commit host profile id b).1
  call (finish_network id commit actor request) b =
      (Network.finish_network host profile id commit actor request b).1
  call (power action actor request) b = (Jobs.power host action actor request b).1
  call (reset_device confirmed actor request) b =
      (Jobs.reset_device host profile confirmed actor request b).1

  unfoldable pub calls : List Call → Backend → Backend
  calls [] b = b
  calls (c ∷ cs) b = calls cs (call c b)

  -- the jobs that one call accepted: 1 for a request of power or reset that returned
  abbrev pub accepts : Call → Backend → ℕ
  accepts (power action actor request) b =
      if succeeds (Jobs.power host action actor request b).0 then 1 else 0
  accepts (reset_device confirmed actor request) b =
      if succeeds (Jobs.reset_device host profile confirmed actor request b).0 then 1 else 0
  accepts _ b = 0

  unfoldable pub accepted_jobs : List Call → Backend → ℕ
  accepted_jobs [] b = 0
  accepted_jobs (c ∷ cs) b = accepts c b + accepted_jobs cs (call c b)
