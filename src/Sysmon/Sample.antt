-- ===== src/Sysmon/Sample.antt =====
-- `sampleDevice`: the readings of the channels of one device.
pub mod Guarded
pub mod Honest
use meta_monutchee.Base.{
  ℕ, ◌+◌, Bool, true, false, ◌&&◌, ◌||◌, not, Option, none, some, List, [], ◌∷◌, ◌++◌, String,
  codes, ltb, ◌==◌, list_eq, nat_eq, is_empty, length, if◌then◌else◌,
}
use meta_monutchee.System.Trace.{Trace, pure, throw, observe, catch, ◌>>=◌, ◌>>◌}
use meta_monutchee.Sysmon.World.{
  Text, Op, Ops, Content, Sysfs, Reals, S, read_content, known, given, starts_with, after_prefix,
}
use meta_monutchee.Sysmon.Channels.{Kind, kind_name, Channel, add_files}

-- `domain`
unfoldable pub domain : Text → Text
unfolding after_prefix
domain label =
    if starts_with (codes "VCC_PS") label
      || starts_with (codes "PS_") label
      || label == codes "Temp_LPD"
      || label == codes "Temp_FPD"
    then codes "PS"
    else if label == codes "VCCINT"
        || label == codes "VCCAUX"
        || label == codes "VCCBRAM"
        || label == codes "VCCAMS"
        || label == codes "Temp_PL"
    then codes "PL"
    else codes "unknown"

abbrev kind_title : Kind → Text
kind_title Kind.temp = codes "temperature"
kind_title Kind.voltage = codes "voltage"

abbrev kind_unit : Kind → Text
kind_unit Kind.temp = codes "°C"
kind_unit Kind.voltage = codes "V"

module _ (reals : Reals) where
  open reals use {Real}

  pub record Reading : Type 0 where
    pub id : Text
    pub device : Text
    pub source_channel : Text
    pub label : Text
    pub domain : Text
    pub kind : Text
    pub unit : Text
    pub value : Option Real
    pub sampled_at : ℕ
    pub status : Text
    pub error : Text

module _ (reals : Reals) (sysfs : Sysfs) where
  open reals use {Real, parse, is_finite, zero_real, is_positive, plus, times, thousandth}

  abbrev pub test_file : Text → Text → S Bool
  test_file device file =
      observe (Op.test_file device file) (λ h. sysfs.has_file h device file) >>= known

  abbrev pub read_file : Text → Text → S Text
  read_file device file =
      observe (Op.read_file device file) (λ h. sysfs.file h device file) >>= read_content

  -- a number that a text writes as a whole
  unfoldable pub to_number : Option Real → S Real
  to_number none = throw (codes "invalid numeric attribute")
  to_number (some x) = if is_finite x then pure x else throw (codes "invalid numeric attribute")

  -- `number`
  unfoldable pub number : Text → Text → S Real
  unfolding known read_content to_number
  number device file = read_file device file >>= λ text. to_number (parse text)

  -- `attribute`
  unfoldable pub attribute : Text → Channel → Text → S Text
  attribute device c suffix = test_file device (c.channel ++ suffix) >>= λ separate.
      pure (if separate then c.channel ++ suffix else codes "in_" ++ kind_name c.kind ++ suffix)

  unfoldable pub read_offset : Text → Text → S Real
  unfolding number
  read_offset device file =
      test_file device file >>= λ found. if found then number device file else pure zero_real

  unfoldable pub scaled : Real → Real → Real → S Real
  scaled raw offset scale =
      if is_positive scale
      then pure (times (plus raw offset) scale)
      else throw (codes "invalid channel scale")

  -- the value of the raw attributes, in thousandths
  unfoldable pub measure_raw : Text → Channel → S Real
  unfolding attribute read_offset scaled
  measure_raw device c = do
    raw ← number device (c.channel ++ codes "_raw")
    scale_file ← attribute device c (codes "_scale")
    scale ← number device scale_file
    offset_file ← attribute device c (codes "_offset")
    offset ← read_offset device offset_file
    scaled raw offset scale

  unfoldable pub convert : Real → S Real
  convert x =
      if is_finite (thousandth x)
      then pure (thousandth x)
      else throw (codes "converted value overflow")

  unfoldable pub measure : Text → Channel → S Real
  unfolding measure_raw convert
  measure device c = do
    processed ← test_file device (c.channel ++ codes "_input")
    x ← if processed then number device (c.channel ++ codes "_input") else measure_raw device c
    convert x

  -- the label that the device gives the channel, or the channel
  unfoldable pub read_label : Text → Channel → S Text
  read_label device c = test_file device (c.channel ++ codes "_label") >>= λ labelled.
      if labelled
      then (read_file device (c.channel ++ codes "_label") >>= λ label.
          pure (if is_empty label then c.channel else label))
      else pure c.channel

  -- a reading before anything is read
  abbrev pub blank : Text → Channel → Reading reals
  blank identity c = record {
    id = identity ++ (codes "/" ++ c.channel);
    device = identity;
    source_channel = c.channel;
    label = c.channel;
    domain = codes "unknown";
    kind = kind_title c.kind;
    unit = kind_unit c.kind;
    value = none;
    sampled_at = 0;
    status = codes "unavailable";
    error = [];
  }

  abbrev pub with_label : Text → Reading reals → Reading reals
  with_label label r = record r { label = label; domain = domain label }

  abbrev pub with_value : Real → Reading reals → Reading reals
  with_value x r = record r { value = some x; status = codes "ok" }

  abbrev pub with_error : Text → Reading reals → Reading reals
  with_error e r = record r { error = e }

  abbrev pub with_time : ℕ → Reading reals → Reading reals
  with_time t r = record r { sampled_at = t }

  -- the `try` behind the label, and the whole of it
  unfoldable pub sample_value : Text → Channel → Reading reals → S (Reading reals)
  unfolding measure
  sample_value device c r =
      catch (measure device c >>= λ x. pure (with_value x r)) (λ e. pure (with_error e r))

  unfoldable pub sample_channel : Text → Text → Channel → S (Reading reals)
  unfolding sample_value read_label domain
  sample_channel device identity c = do
    r ←
        catch
          (read_label device c >>= λ label.
            sample_value device c (with_label label (blank identity c)))
          (λ e. pure (with_error e (blank identity c)))
    t ← observe Op.read_time sysfs.now
    pure (with_time t r)

  unfoldable pub sample_channels : Text → Text → List Channel → S (List (Reading reals))
  unfolding sample_channel
  sample_channels device identity [] = pure []
  sample_channels device identity (c ∷ cs) = do
    r ← sample_channel device identity c
    rs ← sample_channels device identity cs
    pure (r ∷ rs)

  abbrev pub few : Option (List Channel) → S (List Channel)
  few none = throw (codes "too many AMS channels")
  few (some cs) = pure cs

  unfoldable pub sample_device : Text → Text → S (List (Reading reals))
  unfolding sample_channels add_files
  sample_device device identity = do
    names ← observe (Op.list_channels device) (λ h. sysfs.files h device) >>= given
    channels ← few (add_files names [])
    sample_channels device identity channels
