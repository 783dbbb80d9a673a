-- ===== src/Tests/Setting.antt =====
-- A product with one interface, on a host on which every call succeeds.
use meta_monutchee.Base.{ℕ, String, true, false, none, [], ◌∷◌}
use meta_monutchee.System.{
  Job, ok, err, Configuration, NetworkConfig, NetworkProposal, SystemError, ErrorCode, dhcp,
  default_preferences, default_time,
}
use meta_monutchee.Backend.Profile.{Profile}
use meta_monutchee.Backend.Host.{Host, History}
use meta_monutchee.Backend.Monad.{Backend}
use meta_monutchee.Backend.Network.{new_pending}
use meta_monutchee.Backend.Boot.{first_state}

abbrev pub dhcp_config : NetworkConfig
dhcp_config = record {
  interface = "eth0";
  mode = dhcp;
  address = "";
  prefix_length = 24;
  gateway = "";
  dns_servers = [];
  preferred_default = true;
}

abbrev pub product : Configuration
product = record {
  system = record default_preferences { network = dhcp_config ∷ [] };
  time = record default_time { ptp_interface = "eth0" };
}

abbrev pub profile : Profile
profile = record {
  settings_user = "settings";
  control_user = "control";
  state_directory = "/data/system";
  active_settings = "/data/settings/active.json";
  runtime_root = "/run/mnc";
  runtime_etc_directory = "";
  storage_status_file = "";
  interfaces = record { name = "eth0"; device_tree_node = "" } ∷ [];
  sensors = [];
  defaults = product;
  ssh_socket = "ssh.socket";
  ssh_service = "ssh.service";
  ntp_units = [];
  irig_units = [];
  ptp_units = [];
  ptp_unit_templates = [];
  reset_paths = "/data/settings" ∷ "/data/logs" ∷ [];
  boot_preferences = none;
}

abbrev pub old_hash : String
old_hash = "0123456789abcdef0123456789abcdef0123456789abcdef0123456789abcdef"

abbrev pub new_hash : String
new_hash = "fedcba9876543210fedcba9876543210fedcba9876543210fedcba9876543210"

abbrev pub host : Host
host = record {
  discover = λ h. ok product;
  network_links = λ h. ok [];
  clock = λ h. ok 10000;
  random_id = λ h. ok "00ff";
  file_hash = λ h. ok new_hash;
  storage_status = λ h. ok (record { factory_reset = true; reset_prepared = true });
  validate_configuration = λ h c. ok tt;
  preferences = λ h c. ok tt;
  network = λ h n b. ok tt;
  ssh_boot_policy = λ h e. ok tt;
  clock_boot_policy = λ h t. ok tt;
  boot_hostname = λ h n. ok tt;
  power = λ h a. ok tt;
  durable_remove = λ h p. ok tt;
  write_state = λ h s. ok tt;
}

abbrev pub full_disk : SystemError
full_disk = record { code = ErrorCode.apply_failed; message = "write state: No space left" }

-- the same host with a full disk
abbrev pub full_host : Host
full_host = record host { write_state = λ h s. err full_disk }

-- the initialised system, with nothing going on
abbrev pub ready : Backend
ready = record {
  state = record (first_state profile) { initialized = true };
  carriers = [];
  next_network_observation = 0;
  storage_failed = false;
  job_deadline = 0;
  history = [];
}

abbrev pub proposal : NetworkProposal
proposal = record {
  network = record dhcp_config { dns_servers = "8.8.8.8" ∷ [] } ∷ [];
  previous_settings_hash = old_hash;
  candidate_settings_hash = new_hash;
  audit_context = record { actor = "admin"; request_id = "7" };
}

-- a transaction whose settings have been stored, awaiting its confirmation
abbrev pub committing : Backend
committing = record ready {
  state = record (ready.state) {
    pending =
        let opened = new_pending proposal ready.state "00ff" 10000 "admin" "7" in
        record opened { transaction = record (opened.transaction) { state = "committing" } };
  };
}

abbrev pub failed : Backend
failed = record ready { storage_failed = true }

-- the same host before the settings have been stored
abbrev pub old_host : Host
old_host = record host { file_hash = λ h. ok old_hash }

-- a transaction that awaits its confirmation
abbrev pub pending : Backend
pending = record ready {
  state = record (ready.state) {
    pending = new_pending proposal ready.state "00ff" 10000 "admin" "7";
  };
}

abbrev around_deadline : History → ℕ
around_deadline [] = 129999
around_deadline (e ∷ before) = 130001

-- a host whose clock passes the deadline of `pending` between two readings
abbrev pub late_host : Host
late_host = record host { clock = λ h. ok (around_deadline h) }

abbrev accepted_job : Job
accepted_job = record { id = "00ff"; action = "device_reset"; state = "accepted" }

-- a reset has been accepted, and the device has gone down
abbrev pub resetting : Backend
resetting = record ready {
  state = record (ready.state) { reset_intent = true; job = accepted_job };
}

-- the process ended with an open transaction and an accepted job in the journal
abbrev pub interrupted : Backend
interrupted = record pending { state = record (pending.state) { job = accepted_job } }
