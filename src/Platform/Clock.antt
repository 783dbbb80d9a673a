-- ===== src/Platform/Clock.antt =====
-- `writeClockPolicy` of daemon/clock_config.cpp: the markers and the configuration of the clock source.
use Prim.Native.String.{◌++◌ as append}
use meta_monutchee.Base.{
  String, Bool, true, false, not, ◌&&◌, ◌||◌, ◌==◌, string_eq, Option, none, some, List, [], ◌∷◌,
  is_empty, if◌then◌else◌,
}
use meta_monutchee.System.{ErrorCode, TimePreferences, default_preferences}
use meta_monutchee.Validation.Network.{valid_interface_name}
use meta_monutchee.Validation.Preferences.{validate}
use meta_monutchee.Backend.Profile.{Profile, InterfacePolicy}
use meta_monutchee.Platform.System.{Act, Answers, N, pure, throw, lift, ask, when, ◌>>=◌, ◌>>◌}

pub record ClockPolicyChanges : Type 0 where
  pub servers : Bool
  pub network : Bool

module _ (answers : Answers) where
  abbrev pub read_file : String → N (Option String)
  read_file path = ask (Act.read_file path) (λ acts. answers.file acts path)

  abbrev pub atomic_write : String → String → N (Unit {0})
  atomic_write path value = ask (Act.write_file path value) (λ acts. answers.write acts path value)

  abbrev pub durable_remove : String → N (Unit {0})
  durable_remove path = ask (Act.remove_file path) (λ acts. answers.remove acts path)

  abbrev pub change_file : String → String → N (Unit {0})
  change_file change path =
      ask (Act.change_file change path) (λ acts. answers.change acts change path)

  abbrev pub has_content : String → Option String → Bool
  has_content value none = false
  has_content value (some content) = content == value

  -- the file is written if it does not hold the value; the result says whether it was written
  unfoldable pub readable_write : String → String → N Bool
  readable_write path value = do
    content ← read_file path
    if has_content value content
        then pure false
        else change_file "create readable parent directories" path
          >> atomic_write path value
          >> change_file "rw-r--r--" path
          >> pure true

  abbrev pub is_file : Option String → Bool
  is_file none = false
  is_file (some content) = true

  module _ (profile : Profile) (time : TimePreferences) (runtime : String) where
    abbrev pub marker : String → String
    marker mode = append runtime (
        append "/" (
          append (answers.filename profile.runtime_root)
            (append "/system/" (append mode "-disabled"))))

    unfoldable pub mark : String → N (Unit {0})
    mark mode =
        if time.synchronization == mode
        then durable_remove (marker mode)
        else atomic_write (marker mode) "disabled\n"

    abbrev pub server_list : List String → String
    server_list [] = ""
    server_list (server ∷ servers) = append server (append " " (server_list servers))

    unfoldable pub clock_config : String
    clock_config = append "[Time]\n" (
        if is_empty time.ntp_servers
        then ""
        else append "NTP=\nNTP=" (append (server_list time.ntp_servers) "\nFallbackNTP=\n"))

    abbrev pub port_path : String → String
    port_path name =
        append runtime
          (append "/systemd/network/10-mnc-" (append name ".network.d/50-mnc-time.conf"))

    -- the drop-in of one interface, and whether it changed
    unfoldable pub write_port : String → N Bool
    unfolding readable_write
    write_port name =
        if not (is_empty time.ntp_servers)
        then readable_write (port_path name)
            "[Network]\nNTP=\n[DHCPv4]\nUseNTP=no\n[DHCPv6]\nUseNTP=no\n"
        else read_file (port_path name) >>= λ content.
            if is_file content then durable_remove (port_path name) >> pure true else pure false

    unfoldable pub write_ports : List InterfacePolicy → Bool → N Bool
    unfolding write_port
    write_ports [] changed = pure changed
    write_ports (port ∷ ports) changed = do
      when (not (valid_interface_name port.name))
          (throw ErrorCode.invalid_argument "invalid policy interface")
      written ← write_port port.name
      write_ports ports (changed || written)

    unfoldable pub write_clock_policy : N ClockPolicyChanges
    unfolding mark readable_write write_ports
    write_clock_policy = do
      lift (validate (record { system = default_preferences; time = time }))
      when (time.synchronization == "irig" && is_empty profile.irig_units)
          (throw ErrorCode.unsupported "IRIG source profile is unavailable")
      mark "ntp"
      mark "ptp"
      mark "irig"
      servers ←
          readable_write (append runtime "/systemd/timesyncd.conf.d/90-mnc-time.conf") clock_config
      network ← write_ports profile.interfaces false
      pure (record { servers = servers; network = network })
