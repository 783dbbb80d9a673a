-- ===== src/Platform/Apply.antt =====
-- How `Native` of daemon/backend.cpp checks a configuration and applies preferences and networks.
pub mod Order
pub mod Accepted
use Prim.Native.String.{◌++◌ as append}
use meta_monutchee.Base.{
  ℕ, String, Bool, true, false, not, ◌&&◌, ◌||◌, ◌==◌, nat_beq, string_eq, Option, none, some, List,
  [], ◌∷◌, is_empty, empty, length, any, contains, find_if, front_is, codes, to_string,
  if◌then◌else◌,
}
use meta_monutchee.System.{
  Result, ok, ErrorCode, Configuration, TimePreferences, NetworkConfig, PowerAction,
}
use meta_monutchee.Validation.Network.{validate_network}
use meta_monutchee.Validation.Preferences.{validate, has_dots}
use meta_monutchee.Backend.Profile.{Profile, InterfacePolicy}
use meta_monutchee.Backend.Render.{render_network}
use meta_monutchee.Clock.Ptp.{discover_ptp_interfaces, validate_ptp_selection}
use meta_monutchee.Clock.Units.{ClockUnits, clock_units}
use meta_monutchee.Platform.System.{
  Act, Acts, Answers, N, pure, throw, lift, ask, observe, when, ◌>>=◌, ◌>>◌,
}
use meta_monutchee.Platform.Unit.{switch_unit}
use meta_monutchee.Platform.Clock.{
  ClockPolicyChanges, atomic_write, durable_remove, change_file, write_clock_policy,
}

module _ (answers : Answers) (profile : Profile) where
  abbrev pub call_method : String → List String → N (Unit {0})
  call_method method args =
      ask (Act.call_method method args) (λ acts. answers.method_call acts method args)

  abbrev pub look : {A : Type 0} → String → (Acts → A) → N A
  look what answer = observe (Act.look what) answer

  abbrev throw_if : Bool → ErrorCode → String → N (Unit {0})
  throw_if t code message = when t (throw code message)

  -- `fs::canonical(device).filename() != p->device_tree_node` where the policy names a node
  unfoldable pub is_other_node : InterfacePolicy → N Bool
  is_other_node policy =
      if empty policy.device_tree_node
      then pure false
      else ask (Act.look policy.name) (λ acts. answers.node acts policy.name) >>= λ node.
          pure (not (node == policy.device_tree_node))

  unfoldable pub check_hardware : InterfacePolicy → N (Unit {0})
  unfolding is_other_node
  check_hardware policy = do
    index ← look policy.name (λ acts. answers.index acts policy.name)
    other ← if nat_beq index 0 then pure true else is_other_node policy
    throw_if other ErrorCode.invalid_argument "interface hardware identity mismatch"

  abbrev pub checked_policy : Bool → Option InterfacePolicy → N (Unit {0})
  checked_policy boot none =
      throw ErrorCode.invalid_argument "interface is not managed by this product"
  checked_policy true (some policy) =
      look policy.name (λ acts. answers.has_node acts policy.name) >>= λ there.
      when there (check_hardware policy)
  checked_policy false (some policy) = check_hardware policy

  unfoldable pub interface_policy : String → Bool → N (Unit {0})
  unfolding check_hardware
  interface_policy name boot =
      checked_policy boot (find_if (λ p. p.name == name) profile.interfaces)

  unfoldable pub check_interfaces : List NetworkConfig → N (Unit {0})
  unfolding interface_policy
  check_interfaces [] = pure tt
  check_interfaces (c ∷ cs) = do interface_policy c.interface false; check_interfaces cs

  unfoldable pub validate_configuration : Configuration → N (Unit {0})
  unfolding check_interfaces
  validate_configuration c = do
    lift (validate c)
    throw_if (not (nat_beq (length c.system.network) (length profile.interfaces)))
        ErrorCode.invalid_argument "supply all managed interfaces"
    check_interfaces c.system.network
    zones ← ask (Act.look "timezones") answers.timezones
    throw_if (not (contains c.time.timezone zones)) ErrorCode.invalid_argument
        "timezone is not installed"
    interfaces ←
        look "interfaces" (λ acts.
          discover_ptp_interfaces profile (answers.capabilities acts) (answers.entries acts))
    lift (validate_ptp_selection c.time interfaces)
    throw_if (c.time.synchronization == "irig" && is_empty profile.irig_units) ErrorCode.unsupported
        "IRIG source profile is unavailable"

  unfoldable pub boot_hostname : String → N (Unit {0})
  boot_hostname hostname = do
    let file =
        if empty profile.runtime_etc_directory
        then "/etc/hostname"
        else append profile.runtime_etc_directory "/hostname"
    atomic_write answers file (append hostname "\n")
    change_file answers "0644" file
    change_file answers "sethostname" hostname

  unfoldable pub runtime_timezone : String → N (Unit {0})
  runtime_timezone zone = do
    let target = append "/usr/share/zoneinfo/" zone
    regular ← look target (λ acts. answers.is_regular_file acts target)
    throw_if (not regular || front_is b'/' (codes zone) || has_dots (codes zone))
        ErrorCode.invalid_argument "invalid timezone"
    let path = append profile.runtime_etc_directory "/localtime"
    id ← look "random id" answers.random_id
    change_file answers (append "symlink to " target) (append path (append "." id))
    change_file answers (append "rename from " (append path (append "." id))) path

  unfoldable pub reconfigure_links : List NetworkConfig → N (Unit {0})
  reconfigure_links [] = pure tt
  reconfigure_links (c ∷ cs) = do
    index ← look c.interface (λ acts. answers.index acts c.interface)
    call_method "ReconfigureLink" (to_string index ∷ [])
    reconfigure_links cs

  unfoldable pub reload_network : List NetworkConfig → N (Unit {0})
  unfolding reconfigure_links
  reload_network configs = do call_method "Reload" []; reconfigure_links configs

  unfoldable pub ssh_boot_policy : Bool → N (Unit {0})
  ssh_boot_policy enabled =
      let path = append profile.runtime_root "/system/ssh-disabled" in
      if enabled then durable_remove answers path else atomic_write answers path "disabled\n"

  unfoldable pub clock_boot_policy : TimePreferences → N (Unit {0})
  unfolding runtime_timezone
  clock_boot_policy time = do
    when (not (empty profile.runtime_etc_directory)) (runtime_timezone time.timezone)
    write_clock_policy answers profile time "/run"
    pure tt

  unfoldable pub switch_units : ℕ → Bool → List String → N (Unit {0})
  switch_units fuel start [] = pure tt
  switch_units fuel start (name ∷ names) = do
    switch_unit answers fuel name start
    switch_units fuel start names

  -- the identity: the timezone and the hostname
  unfoldable pub apply_identity : Configuration → N (Unit {0})
  unfolding runtime_timezone boot_hostname
  apply_identity c =
      if empty profile.runtime_etc_directory
      then call_method "SetTimezone" (c.time.timezone ∷ [])
        >> call_method "SetStaticHostname" (c.system.hostname ∷ [])
        >> call_method "SetHostname" (c.system.hostname ∷ [])
      else runtime_timezone c.time.timezone >> boot_hostname c.system.hostname

  -- the units of the clock source, with the files that they read
  unfoldable pub apply_clock : ℕ → Configuration → ClockPolicyChanges → ClockUnits → N (Unit {0})
  unfolding switch_units reload_network
  apply_clock fuel c changed clocks = do
    switch_units fuel false clocks.stop
    when (changed.servers && c.time.synchronization == "ntp")
        (switch_units fuel false profile.ntp_units)
    when changed.network (reload_network c.system.network)
    switch_units fuel true clocks.start

  unfoldable pub apply_ssh : ℕ → Bool → N (Unit {0})
  unfolding ssh_boot_policy
  apply_ssh fuel enabled = do
    ssh_boot_policy enabled
    switch_unit answers fuel profile.ssh_socket enabled
    when (not enabled) (switch_unit answers fuel profile.ssh_service false)

  unfoldable pub preferences : ℕ → Configuration → N (Unit {0})
  unfolding apply_identity apply_clock apply_ssh
  preferences fuel c = do
    apply_identity c
    changed ← write_clock_policy answers profile c.time "/run"
    clocks ← lift (clock_units profile c.time)
    apply_clock fuel c changed clocks
    apply_ssh fuel c.system.ssh_enabled

  unfoldable pub write_networks : List NetworkConfig → Bool → List NetworkConfig → N (Unit {0})
  unfolding interface_policy
  write_networks all bootstrap [] = pure tt
  write_networks all bootstrap (c ∷ cs) = do
    interface_policy c.interface bootstrap
    rendered ← lift (render_network c (any (λ (n : NetworkConfig). n.preferred_default) all))
    let path = append "/run/systemd/network/10-mnc-" (append c.interface ".network")
    atomic_write answers path rendered
    change_file answers "rw-r--r--" path
    write_networks all bootstrap cs

  unfoldable pub network : List NetworkConfig → Bool → N (Unit {0})
  unfolding write_networks reload_network
  network configs bootstrap = do
    lift (validate_network configs)
    throw_if (not (nat_beq (length configs) (length profile.interfaces))) ErrorCode.invalid_argument
        "supply all managed interfaces"
    change_file answers "create rwxr-xr-x directory" "/run/systemd/network"
    write_networks configs bootstrap configs
    when (not bootstrap) (reload_network configs)

  abbrev pub power_method : PowerAction → String
  power_method PowerAction.reboot = "Reboot"
  power_method PowerAction.shutdown = "PowerOff"

  unfoldable pub power : PowerAction → N (Unit {0})
  power action = call_method (power_method action) []
