-- ===== src/Tests/Monitors.antt =====
-- The system monitor on a device with one rail, beside another device.
use meta_monutchee.Base.{
  ℕ, ◌+◌, ◌*◌, ◌/◌, ◌≡◌, refl, ltb, Bool, true, ◌||◌, Option, some, List, [], ◌∷◌, codes, ◌==◌,
  list_eq, nat_eq, if◌then◌else◌, sort_by, codes_leb, list_beq,
}
use meta_monutchee.System.Trace.{Ended, returned}
use meta_monutchee.System.Trace.Rules.{Gives}
use meta_monutchee.Validation.Number.{from_chars}
use meta_monutchee.Sysmon.World.{Text, Content, Sysfs, Reals, given, read_content, known}
use meta_monutchee.Sysmon.Sample.{sample_device}
use meta_monutchee.Sysmon.Sample.Guarded.{IsGuarded}
use meta_monutchee.Sysmon.Snapshot.{Selector, Snapshot, read_snapshot, ams}
use meta_monutchee.Sysmon.Snapshot.Sound.{IsSound, read_snapshot-IsSound}
use meta_monutchee.Sysmon.Snapshot.Guarded.{read_snapshot-IsGuarded}

-- whole numbers stand for the values
abbrev whole : Reals
whole = record {
  Real = ℕ;
  parse = λ text. from_chars 10 text;
  is_finite = λ x. true;
  zero_real = 0;
  is_positive = λ x. ltb 0 x;
  plus = λ x y. x + y;
  times = λ x y. x * y;
  thousandth = λ x. x / 1000;
}

abbrev meter : Text
meter = codes "iio:device0"

abbrev monitor : Text
monitor = codes "iio:device7"

abbrev exists : Text → Bool
exists file = file == codes "in_voltage2_label" || file == codes "in_voltage2_scale"

abbrev board : Sysfs
board = record {
  now = λ h. 5;
  devices = λ h. some (monitor ∷ codes "trigger0" ∷ meter ∷ []);
  name =
      λ h device. Content.holds (if device == monitor then codes "xilinx-ams\n" else codes "meter");
  has_node = λ h device. some true;
  compatible = λ h device. Content.holds ams;
  node_path = λ h device. some (codes "/sys/firmware/devicetree/base/axi/ams@ffa50000");
  files =
      λ h device. some (codes "in_voltage2_raw" ∷ codes "in_voltage2_label" ∷ codes "name" ∷ []);
  has_file = λ h device file. some (exists file);
  file = λ h device file. Content.holds (
      if file == codes "in_voltage2_raw"
      then codes "3600\n"
      else if file == codes "in_voltage2_scale"
      then codes "2\n"
      else codes "VCCAUX\n");
}

abbrev any_node : Selector
any_node = record { compatible = ams; device_tree_node = [] }

abbrev value_of : Ended Text (Snapshot whole) → List (Text × Option ℕ)
value_of (returned s) = elim (s.readings) [ [] ↦ [] | r ∷ rs ↦ (r.id, r.value) ∷ [] ]
value_of _ = []

one_rail :
    value_of ((read_snapshot whole board any_node []).0)
    ≡ (codes "axi/ams@ffa50000/in_voltage2", some 7) ∷ []
unfolding read_snapshot sort_by from_chars codes_leb list_beq given read_content known sample_device
one_rail = refl

read_snapshot-IsSound_example :
    Gives (IsSound whole board any_node) (λ e. ⊥) (read_snapshot whole board any_node)
read_snapshot-IsSound_example = read_snapshot-IsSound whole board any_node

read_snapshot-IsGuarded_example : IsGuarded whole board (read_snapshot whole board any_node []).1
read_snapshot-IsGuarded_example = read_snapshot-IsGuarded whole board any_node [] tt
