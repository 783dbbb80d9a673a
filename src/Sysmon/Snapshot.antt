-- ===== src/Sysmon/Snapshot.antt =====
-- `IioMonitor::readSnapshot`: the readings of every matching device.
pub mod Guarded
pub mod Sound
use meta_monutchee.Base.{
  ℕ, zero, suc, Bool, true, false, ◌&&◌, ◌||◌, not, Option, none, some, List, [], ◌∷◌, ◌++◌, String,
  codes, ltb, nat_beq, ◌==◌, list_eq, nat_eq, is_empty, length, all, keep_if, sort_by,
  if◌then◌else◌,
}
use meta_monutchee.System.Trace.{Trace, pure, throw, observe, catch, ◌>>=◌, ◌>>◌}
use meta_monutchee.Sysmon.World.{
  Text, Op, Ops, Content, Sysfs, Reals, S, read_content, known, given, starts_with, after_prefix,
}
use meta_monutchee.Sysmon.Sample.{Reading, sample_device}

pub record Selector : Type 0 where
  pub compatible : Text
  pub device_tree_node : Text

abbrev pub ams : Text
ams = codes "xlnx,zynqmp-ams"

-- the text up to the first zero character, and what follows it
unfoldable pub split_zero : Text → Text × Option Text
split_zero [] = ([], none)
split_zero (c ∷ cs) =
    if nat_beq c 0 then ([], some cs) else let (first, rest) = split_zero cs in (c ∷ first, rest)

-- the loop of `compatible`, on what is left of the values; a round takes at least one character
unfoldable pub lists_value : ℕ → Text → Text → Bool
unfolding split_zero
lists_value fuel expected [] = false
lists_value zero expected (c ∷ cs) = false
lists_value (suc fuel) expected (c ∷ cs) =
    let (first, rest) = split_zero (c ∷ cs) in
    first == expected || (elim rest [ none ↦ false | some more ↦ lists_value fuel expected more ])

-- what follows the last slash, with what has been read since the one before
unfoldable pub last_segment : Text → Text → Text
last_segment segment [] = segment
last_segment segment (c ∷ cs) = last_segment (if nat_beq c b'/' then [] else segment ++ (c ∷ [])) cs

-- `fs::path::filename` of a canonical path
unfoldable pub filename : Text → Text
unfolding last_segment
filename path = last_segment [] path

-- what follows the first "/base/"
unfoldable pub after_base : Text → Option Text
unfolding after_prefix
after_base [] = none
after_base (c ∷ cs) =
    let later = after_base cs in
    elim (after_prefix (codes "/base/") (c ∷ cs)) [ none ↦ later | some rest ↦ some rest ]

-- the identity of a device, without the prefixes of the host
unfoldable pub identity : Text → Text
unfolding after_base filename
identity path = elim (after_base path) [ none ↦ filename path | some rest ↦ rest ]

-- the devices of the directory: `none` where there are too many
unfoldable pub pick_devices : List Text → List Text → Option (List Text)
unfolding after_prefix
pick_devices [] picked = some picked
pick_devices (name ∷ names) picked =
    let longer = if starts_with (codes "iio:device") name then picked ++ (name ∷ []) else picked in
    let rest = pick_devices names longer in if ltb 64 (length longer) then none else rest

abbrev pub is_monitor : Option Text → Bool
is_monitor none = false
is_monitor (some name) = name == codes "xilinx-ams"

module _ (reals : Reals) where
  pub record Snapshot : Type 0 where
    pub status : Text
    pub error : Text
    pub sampled_at : ℕ
    pub readings : List (Reading reals)

  abbrev pub Readings : Type 0
  Readings = List (Reading reals)

  abbrev pub has_value : Reading reals → Bool
  has_value r = elim (r.value) [ none ↦ false | some x ↦ true ]

  unfoldable pub conclude : ℕ → Readings × Bool → Snapshot
  conclude t (readings, true) = record {
    status = if is_empty readings then codes "unavailable" else codes "partial";
    error = codes "AMS discovery or channel enumeration failed";
    sampled_at = t;
    readings = readings;
  }
  conclude t (readings, false) =
      let sorted = sort_by (λ (r : Reading reals). r.id) readings in
      record {
        status =
            if is_empty sorted
            then codes "unavailable"
            else if all has_value sorted
            then codes "ok"
            else codes "partial";
        error = if is_empty sorted then codes "no matching AMS channels exposed" else [];
        sampled_at = t;
        readings = sorted;
      }

module _ (reals : Reals) (sysfs : Sysfs) (selector : Selector) where
  abbrev pub attempt_name : Text → S (Option Text)
  attempt_name device =
      catch
        (observe (Op.read_name device) (λ h. sysfs.name h device) >>= λ content.
          read_content content >>= λ name. pure (some name))
        (λ e. pure none)

  -- the node that was resolved is the selected one, if one is selected
  abbrev pub is_selected : Text → Bool
  is_selected path =
      is_empty selector.device_tree_node || filename path == selector.device_tree_node

  -- a device that says that it is the monitor
  unfoldable pub sample_ams : Text → S (Readings reals)
  unfolding lists_value identity
  sample_ams device = do
    observe (Op.test_node device) (λ h. sysfs.has_node h device) >>= known
    values ← observe (Op.read_compatible device) (λ h. sysfs.compatible h device) >>= read_content
    if lists_value (length values) selector.compatible values
        then (observe (Op.resolve_node device) (λ h. sysfs.node_path h device) >>= given >>= λ path.
            if is_selected path then sample_device reals sysfs device (identity path) else pure [])
        else pure []

  -- the body of the loop over the devices
  unfoldable pub visit : Text → S (Readings reals)
  unfolding sample_ams
  visit device =
      attempt_name device >>= λ name. if is_monitor name then sample_ams device else pure []

  -- The loop, with the readings so far, and whether an exception ended it.
  unfoldable pub visit_all : List Text → Readings reals → S (Readings reals × Bool)
  unfolding visit
  visit_all [] readings = pure (readings, false)
  visit_all (device ∷ devices) readings =
      catch (visit device >>= λ new. pure (some new)) (λ e. pure none) >>= λ result. elim result [
        | none ↦ pure (readings, true)
        | some new ↦ visit_all devices (readings ++ new)
      ]

  abbrev pub list_devices : S (List Text)
  list_devices = do
    names ← observe Op.list_devices sysfs.devices >>= given
    few ← given (pick_devices names [])
    pure (sort_by (λ name. name) few)

  -- what the `try` leaves, with the readings so far, and whether an exception ended it
  unfoldable pub read_devices : S (Readings reals × Bool)
  unfolding visit_all pick_devices sort_by
  read_devices =
      catch (list_devices >>= λ devices. pure (some devices)) (λ e. pure none) >>= λ devices.
      elim devices [ none ↦ pure ([], true) | some devices ↦ visit_all devices [] ]

  unfoldable pub read_snapshot : S (Snapshot reals)
  unfolding read_devices conclude
  read_snapshot = observe Op.read_time sysfs.now >>= λ t.
      if selector.compatible == ams
      then (read_devices >>= λ result. pure (conclude reals t result))
      else pure (record {
        status = codes "unsupported";
        error = codes "unsupported SYSMON compatible";
        sampled_at = t;
        readings = [];
      })
