-- ===== src/Backend/Calls/Exclusive/Holds.antt =====
-- Every public method keeps the transactions exclusive.
use meta_monutchee.Base.{String, Bool, List, [], ◌∷◌}
use meta_monutchee.System.{NetworkProposal, PowerAction}
use meta_monutchee.Backend.Profile.{Profile}
use meta_monutchee.Backend.State.{State}
use meta_monutchee.Backend.Host.{Host}
use meta_monutchee.Backend.Monad.{Backend}
use meta_monutchee.Backend.Network
use meta_monutchee.Backend.Network.{
  check_hashes, open_transaction, remaining, check_finish, set_author, set_pending, extend_deadline,
}
use meta_monutchee.Backend.Jobs
use meta_monutchee.Backend.Jobs.{schedule_job, accept_job, intend_reset}
use meta_monutchee.Backend.Calls.{Call, call, calls}
use meta_monutchee.Backend.Calls.Rules.{Keeps, Leads, Leads-bind, keeps_rules}
use meta_monutchee.Backend.Calls.Exclusive.{
  IsExclusive, NoJob, NoJob-IsExclusive, persist-Keeps, settle_network-NoJob,
  set_job_deadline-Keeps,
}
use meta_monutchee.Backend.Calls.Exclusive.Quiet.{
  IsExclusive-IsStable, tick-Keeps, check_configuration-Keeps, apply-Keeps, check_hashes-Keeps,
  network_transaction-Keeps, check_finish-Keeps,
}
use meta_monutchee.Backend.Calls.Exclusive.Steps.{
  Keeps-Leads, pending-NoJob, transaction-NoJob, author-NoJob, job-NoTransaction,
  reset-NoTransaction, Leads-same, idle_then-NoJob, idle_then-NoTransaction, Leads-when,
  check_id_then-NoJob,
}

module _ (host : Host) (profile : Profile) where
  open_transaction-Keeps :
      (p : NetworkProposal) (actor request : String)
      → Keeps NoJob (open_transaction host profile p actor request)
  unfolding open_transaction
  open_transaction-Keeps p actor request =
      search (keeps_rules, pending-NoJob, persist-Keeps, settle_network-NoJob) depth 18

  begin_network-Keeps :
      (p : NetworkProposal) (actor request : String)
      → Leads IsExclusive IsExclusive (Network.begin_network host profile p actor request)
  unfolding Network.begin_network
  begin_network-Keeps p actor request =
      search
        (
          idle_then-NoJob, Leads-bind, NoJob-IsExclusive, keeps_rules, check_configuration-Keeps,
          check_hashes-Keeps, open_transaction-Keeps, Keeps-Leads, network_transaction-Keeps,
          IsExclusive-IsStable,
        )
        depth 24

  prepare_network_commit-Keeps :
      (id : String) → Leads IsExclusive IsExclusive (Network.prepare_network_commit host profile id)
  unfolding Network.prepare_network_commit
  prepare_network_commit-Keeps id =
      search
        (
          check_id_then-NoJob, Leads-same, tick-Keeps, IsExclusive-IsStable, keeps_rules,
          transaction-NoJob, persist-Keeps,
        )
        depth 24

  finish_network-Keeps :
      (id : String) (commit : Bool) (actor request : String)
      → Leads IsExclusive IsExclusive (Network.finish_network host profile id commit actor request)
  unfolding Network.finish_network
  finish_network-Keeps id commit actor request =
      search
        (
          check_id_then-NoJob, Leads-when, Leads-same, keeps_rules, check_finish-Keeps,
          author-NoJob, settle_network-NoJob,
        )
        depth 24

  schedule_job-Keeps : {P : State → Type 0} → Keeps P (schedule_job host)
  unfolding schedule_job
  schedule_job-Keeps = search (keeps_rules, persist-Keeps, set_job_deadline-Keeps) depth 18

  power-Keeps :
      (action : PowerAction) (actor request : String)
      → Leads IsExclusive IsExclusive (Jobs.power host action actor request)
  unfolding Jobs.power
  power-Keeps action actor request =
      search (idle_then-NoTransaction, keeps_rules, job-NoTransaction, schedule_job-Keeps) depth 18

  reset_device-Keeps :
      (confirmed : Bool) (actor request : String)
      → Leads IsExclusive IsExclusive (Jobs.reset_device host profile confirmed actor request)
  unfolding Jobs.reset_device
  reset_device-Keeps confirmed actor request =
      search
        (idle_then-NoTransaction, Leads-same, keeps_rules, reset-NoTransaction, schedule_job-Keeps)
        depth 24

  call-Keeps :
      (c : Call) (b : Backend) → IsExclusive b.state → IsExclusive (call host profile c b).state
  unfolding call
  call-Keeps Call.tick b h = (tick-Keeps host profile IsExclusive-IsStable).at b h
  call-Keeps Call.network_transaction b h =
      (network_transaction-Keeps host profile IsExclusive-IsStable).at b h
  call-Keeps (Call.apply c) b h = (apply-Keeps host profile c).at b h
  call-Keeps (Call.begin_network p actor request) b h = (begin_network-Keeps p actor request).at b h
  call-Keeps (Call.prepare_network_commit id) b h = (prepare_network_commit-Keeps id).at b h
  call-Keeps (Call.finish_network id commit actor request) b h =
      (finish_network-Keeps id commit actor request).at b h
  call-Keeps (Call.power action actor request) b h = (power-Keeps action actor request).at b h
  call-Keeps (Call.reset_device confirmed actor request) b h =
      (reset_device-Keeps confirmed actor request).at b h

  -- If no network transaction is open while a job is accepted or a reset is intended, then that stays
  -- so through any sequence of calls, whether they return or throw.
  pub calls-IsExclusive :
      (cs : List Call) (b : Backend)
      → IsExclusive b.state
      → IsExclusive (calls host profile cs b).state
  unfolding calls
  calls-IsExclusive [] b h = h
  calls-IsExclusive (c ∷ cs) b h = calls-IsExclusive cs (call host profile c b) (call-Keeps c b h)
