-- ===== src/Backend/State.antt =====
-- `Pending` and `State` of daemon/backend.hpp: what the journal file holds.
use meta_monutchee.Base.{ℕ, String, Bool, ◌||◌, List, [], ◌==◌, string_eq}
use meta_monutchee.System.{Configuration, NetworkConfig, NetworkTransaction, Job}

pub record Pending : Type 0 where
  pub transaction : NetworkTransaction
  pub previous : List NetworkConfig
  pub previous_hash : String
  pub candidate_hash : String
  pub deadline : ℕ
  pub actor : String
  pub request_id : String

pub record State : Type 0 where
  pub configuration : Configuration
  pub initialized : Bool
  pub pending : Pending
  pub job : Job
  pub reset_intent : Bool
  pub job_actor : String
  pub job_request_id : String

-- `Pending{}`
abbrev pub no_pending : Pending
no_pending = record {
  transaction = record { id = ""; state = "idle"; remaining_ms = 0; network = []; message = "" };
  previous = [];
  previous_hash = "";
  candidate_hash = "";
  deadline = 0;
  actor = "system";
  request_id = "";
}

-- the tests of `Backend::pending()` and of an accepted job
abbrev pub is_pending : State → Bool
is_pending s =
    s.pending.transaction.state == "pending" || s.pending.transaction.state == "committing"

abbrev pub is_accepted : State → Bool
is_accepted s = s.job.state == "accepted"

-- `state_.configuration.system.network = network`
abbrev pub set_network : List NetworkConfig → State → State
set_network network s = record s {
  configuration = record (s.configuration) {
    system = record (s.configuration.system) { network = network };
  };
}

-- `state_.pending.transaction.state = name`
abbrev pub set_transaction_state : String → State → State
set_transaction_state name s = record s {
  pending = record (s.pending) { transaction = record (s.pending.transaction) { state = name } };
}

-- `state_.job.state = name`
abbrev pub set_job_state : String → State → State
set_job_state name s = record s { job = record (s.job) { state = name } }

-- `state_.configuration.system.hostname = hostname`
abbrev pub set_hostname : String → State → State
set_hostname hostname s = record s {
  configuration = record (s.configuration) {
    system = record (s.configuration.system) { hostname = hostname };
  };
}
