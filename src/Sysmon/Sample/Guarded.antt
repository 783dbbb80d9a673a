-- ===== src/Sysmon/Sample/Guarded.antt =====
-- What the sampling of a device reads is of this device, which has named itself the monitor.
use meta_monutchee.Base.{
  Bool, true, false, ◌&&◌, not, ◌≡◌, ◌⊎◌, inr, Option, none, some, List, [], ◌∷◌, codes, ◌==◌,
  list_eq, nat_eq, leb, bytes_of,
}
use meta_monutchee.System.Trace.{observe}
use meta_monutchee.System.Trace.Rules.{Keeps, keeps_rules, Keeps-observe, Keeps-bind}
use meta_monutchee.Sysmon.World.{
  Text, Op, Ops, Content, Sysfs, Reals, read_content, known, given, strip_end,
}
use meta_monutchee.Sysmon.Channels.{Channel}
use meta_monutchee.Sysmon.Sample.{
  Reading, to_number, number, attribute, read_offset, scaled, measure_raw, convert, measure,
  read_label, sample_value, sample_channel, sample_channels, sample_device, few, test_file,
  read_file,
}
use meta_monutchee.Sysmon.Snapshot.{identity}

-- the content names the monitor
abbrev pub names_monitor : Content → Bool
names_monitor Content.unreadable = false
names_monitor Content.broken = false
names_monitor (Content.holds text) =
    not (leb 4097 (bytes_of text)) && strip_end text == codes "xilinx-ams"

module _ (reals : Reals) (sysfs : Sysfs) where
  -- the name of the device has been read, and it was that of the monitor
  abbrev pub Admitted : Text → Ops → Type 0
  Admitted device [] = ⊥
  Admitted device (op ∷ h) =
      ((op ≡ Op.read_name device) × (names_monitor (sysfs.name h device) ≡ true))
      ⊎ Admitted device h

  -- what has to be so before a call
  abbrev pub MayRead : Op → Ops → Type 0
  MayRead Op.read_time h = Unit
  MayRead Op.list_devices h = Unit
  MayRead (Op.read_name device) h = Unit
  MayRead (Op.test_node device) h = Admitted device h
  MayRead (Op.read_compatible device) h = Admitted device h
  MayRead (Op.resolve_node device) h = Admitted device h
  MayRead (Op.list_channels device) h = Admitted device h
  MayRead (Op.test_file device file) h = Admitted device h
  MayRead (Op.read_file device file) h = Admitted device h

  -- it was so before every call
  abbrev pub IsGuarded : Ops → Type 0
  IsGuarded [] = Unit
  IsGuarded (op ∷ h) = MayRead op h × IsGuarded h

  module _ (device : Text) where
    -- the device may be read, and all calls were allowed
    abbrev pub InDevice : Ops → Type 0
    InDevice h = IsGuarded h × Admitted device h

    pub known-Keeps : (answer : Option Bool) → Keeps InDevice (known answer)
    unfolding known
    known-Keeps none = search keeps_rules
    known-Keeps (some found) = search keeps_rules

    pub given-Keeps : {A : Type 0} (answer : Option A) → Keeps InDevice (given answer)
    unfolding given
    given-Keeps none = search keeps_rules
    given-Keeps (some a) = search keeps_rules

    pub read_content-Keeps : (content : Content) → Keeps InDevice (read_content content)
    unfolding read_content
    read_content-Keeps Content.unreadable = search keeps_rules
    read_content-Keeps Content.broken = search keeps_rules
    read_content-Keeps (Content.holds text) = search keeps_rules

    -- a call that the device's name allows
    pub goes_on : (op : Op) (h : Ops) → MayRead op h → InDevice h → InDevice (op ∷ h)
    goes_on op h may p = ((may, p.0), inr p.1)

    test_file-Keeps : (file : Text) → Keeps InDevice (test_file reals sysfs device file)
    test_file-Keeps file =
        Keeps-bind _ known
          (Keeps-observe _ (λ h. sysfs.has_file h device file)
            (λ h p. goes_on (Op.test_file device file) h p.1 p))
          known-Keeps

    read_file-Keeps : (file : Text) → Keeps InDevice (read_file reals sysfs device file)
    read_file-Keeps file =
        Keeps-bind _ read_content
          (Keeps-observe _ (λ h. sysfs.file h device file)
            (λ h p. goes_on (Op.read_file device file) h p.1 p))
          read_content-Keeps

    to_number-Keeps : (x : Option reals.Real) → Keeps InDevice (to_number reals sysfs x)
    unfolding to_number
    to_number-Keeps none = search keeps_rules
    to_number-Keeps (some x) = search keeps_rules

    number-Keeps : (file : Text) → Keeps InDevice (number reals sysfs device file)
    unfolding number
    number-Keeps file = search (keeps_rules, read_file-Keeps, to_number-Keeps)

    measure_raw-Keeps : (c : Channel) → Keeps InDevice (measure_raw reals sysfs device c)
    unfolding measure_raw attribute read_offset scaled
    measure_raw-Keeps c = search (keeps_rules, test_file-Keeps, number-Keeps) depth 20

    measure-Keeps : (c : Channel) → Keeps InDevice (measure reals sysfs device c)
    unfolding measure convert
    measure-Keeps c =
        search (keeps_rules, test_file-Keeps, number-Keeps, measure_raw-Keeps) depth 14

    read_label-Keeps : (c : Channel) → Keeps InDevice (read_label reals sysfs device c)
    unfolding read_label
    read_label-Keeps c = search (keeps_rules, test_file-Keeps, read_file-Keeps) depth 14

    sample_value-Keeps :
        (c : Channel) (r : Reading reals) → Keeps InDevice (sample_value reals sysfs device c r)
    unfolding sample_value
    sample_value-Keeps c r = search (keeps_rules, measure-Keeps)

    read_time-Keeps : Keeps InDevice (observe {E = Text} Op.read_time sysfs.now)
    read_time-Keeps = Keeps-observe _ _ (λ h p. goes_on Op.read_time h tt p)

    sample_channel-Keeps :
        (identity : Text) (c : Channel)
        → Keeps InDevice (sample_channel reals sysfs device identity c)
    unfolding sample_channel
    sample_channel-Keeps identity c =
        search (keeps_rules, read_label-Keeps, sample_value-Keeps, read_time-Keeps) depth 14

    sample_channels-Keeps :
        (identity : Text) (cs : List Channel)
        → Keeps InDevice (sample_channels reals sysfs device identity cs)
    unfolding sample_channels
    sample_channels-Keeps identity [] = search keeps_rules
    sample_channels-Keeps identity (c ∷ cs) =
        search (keeps_rules, sample_channel-Keeps identity c, sample_channels-Keeps identity cs)

    few-Keeps : (found : Option (List Channel)) → Keeps InDevice (few reals sysfs found)
    few-Keeps none = search keeps_rules
    few-Keeps (some cs) = search keeps_rules

    list_channels-Keeps :
        Keeps InDevice (observe {E = Text} (Op.list_channels device) (λ h. sysfs.files h device))
    list_channels-Keeps = Keeps-observe _ _ (λ h p. goes_on (Op.list_channels device) h p.1 p)

    pub sample_device-Keeps :
        (identity : Text) → Keeps InDevice (sample_device reals sysfs device identity)
    unfolding sample_device
    sample_device-Keeps identity =
        search (keeps_rules, list_channels-Keeps, given-Keeps, few-Keeps, sample_channels-Keeps)
          depth 14
