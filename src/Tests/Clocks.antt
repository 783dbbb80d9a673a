-- ===== src/Tests/Clocks.antt =====
-- Clock sources and the platform on concrete inputs.
use meta_monutchee.Base.{
  ℤ, leb, String, true, false, none, some, List, [], ◌∷◌, ◌≡◌, ◌≢◌, ◌*◌, refl, string_eq, codes,
  if◌then◌else◌, arith, sort_by,
}
use meta_monutchee.System.{succeeds, ok, TimePreferences, default_time}
use meta_monutchee.Validation.Network.{valid_interface_name}
use meta_monutchee.Backend.Profile.{Profile}
use meta_monutchee.Clock.Ptp.{
  NetEntry, TimestampCapabilities, discover_ptp_interfaces, validate_ptp_selection,
}
use meta_monutchee.Clock.Units.{ClockUnits, clock_units, escape, template_prefix}
use meta_monutchee.Clock.Units.Escaped.{Mode, unescape, unescape-escape}
use meta_monutchee.Clock.Units.Exclusive.{RunsNtp, RunsServo, clock_units-Runs}
use meta_monutchee.Platform.System.{Answers}
use meta_monutchee.Platform.Unit.{poll, switch_unit}
use meta_monutchee.Platform.Unit.Settled.{Polled, IsOver, sleeps, switch_unit-Polled, poll-IsOver}
use meta_monutchee.Platform.Apply.{apply_clock, validate_configuration}
use meta_monutchee.Platform.Apply.Accepted.{IsProduct, Returns, validate_configuration-Returns}
use meta_monutchee.Platform.Apply.Order.{IsOrdered, apply_clock-IsOrdered}
use meta_monutchee.Tests.Setting.{profile, product}

abbrev device : Profile
device = record profile {
  interfaces =
      record { name = "eth0"; device_tree_node = "" }
      ∷ record { name = "eth-1"; device_tree_node = "" }
      ∷ [];
  ntp_units = "timesyncd.service" ∷ [];
  irig_units = "irig.service" ∷ [];
  ptp_units = [];
  ptp_unit_templates = "ptp4l@.service" ∷ "phc2sys@.service" ∷ [];
}

abbrev ptp_time : TimePreferences
ptp_time = record default_time { synchronization = "ptp"; ptp_interface = "eth-1" }

abbrev wired : ClockUnits
wired = record {
  stop = "irig.service" ∷ "phc2sys@eth0.service" ∷ "ptp4l@eth0.service" ∷ "timesyncd.service" ∷ [];
  start = "ptp4l@eth\\x2d1.service" ∷ "phc2sys@eth\\x2d1.service" ∷ [];
}

wired-eq : clock_units device ptp_time ≡ ok wired
unfolding clock_units valid_interface_name
wired-eq = refl

clock_units-Runs_example :
    (ptp_time.synchronization ≡ "ntp" → RunsNtp device ptp_time wired)
    × (ptp_time.synchronization ≢ "ntp" → RunsServo device ptp_time wired)
clock_units-Runs_example = clock_units-Runs device ptp_time wired wired-eq

unescape-escape_example : unescape Mode.plain (codes (escape "eth-1")) ≡ some (codes "eth-1")
unescape-escape_example = unescape-escape "eth-1" refl

abbrev kernel : List NetEntry
kernel =
    record { name = "lo"; carrier = ℤ.pos 1; of_node = none }
    ∷ record { name = "eth-1"; carrier = ℤ.pos 1; of_node = none }
    ∷ []

abbrev query : String → TimestampCapabilities
query name = record { phc_index = ℤ.pos 0; hardware = true }

ptp-accepted : validate_ptp_selection ptp_time (discover_ptp_interfaces device query kernel) ≡ ok tt
unfolding validate_ptp_selection discover_ptp_interfaces sort_by valid_interface_name
ptp-accepted = refl

-- a system in which a unit is active after two sleeps, and each sleep takes six seconds
abbrev system : Answers
system = record {
  unit_state = λ acts name. ok (if leb 2 (sleeps acts) then "active" else "activating");
  unit_job = λ acts name start. ok tt;
  now = λ acts. 6000 * sleeps acts;
  file = λ acts path. ok none;
  write = λ acts path value. ok tt;
  remove = λ acts path. ok tt;
  change = λ acts change path. ok tt;
  method_call = λ acts method args. ok tt;
  random_id = λ acts. "00ff";
  is_regular_file = λ acts path. true;
  index = λ acts name. 2;
  has_node = λ acts name. true;
  node = λ acts name. ok "";
  entries = λ acts. kernel;
  capabilities = λ acts. query;
  timezones = λ acts. ok ("UTC" ∷ []);
  filename = λ path. path;
}

switch_unit-Polled_example :
    Polled system "ptp.service" true (switch_unit system 5 "ptp.service" true [])
switch_unit-Polled_example = switch_unit-Polled system "ptp.service" true 5 []

poll-IsOver_example : IsOver (poll system 3 "ptp.service" false 10000 [])
poll-IsOver_example =
    poll-IsOver system "ptp.service" false 10000 2 (λ acts h. omega (arith, h)) 2 [] (omega arith)

apply_clock-IsOrdered_example :
    IsOrdered
      (apply_clock system device 5 product (record { servers = true; network = true }) wired []).1
apply_clock-IsOrdered_example =
    apply_clock-IsOrdered system device 5 product (record { servers = true; network = true }) wired
      [] tt

device-IsProduct : IsProduct device
unfolding template_prefix valid_interface_name
device-IsProduct = record {
  templates = ((λ e. ground (arith, e)), ((λ e. ground (arith, e)), tt));
  ports = (refl, (refl, tt));
}

validate_configuration-Returns_example :
    Returns
      (succeeds (clock_units device (record product { time = ptp_time }).time) ≡ true)
      (validate_configuration system device (record product { time = ptp_time }) [])
validate_configuration-Returns_example =
    validate_configuration-Returns system device (record product { time = ptp_time }) []
      device-IsProduct
