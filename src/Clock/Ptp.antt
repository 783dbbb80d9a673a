-- ===== src/Clock/Ptp.antt =====
-- The PTP interfaces of daemon/ptp.cpp: their discovery, and the check of the selected one.
pub mod Selected
use meta_monutchee.Base.{
  ℤ, is_number, String, Bool, true, false, not, ◌&&◌, ◌||◌, Option, none, some, List, [], ◌∷◌, map,
  ◌==◌, string_eq, is_empty, empty, find_if, keep_if, if◌then◌else◌, sort_by, codes,
}
use meta_monutchee.System.{Result, ok, check, TimePreferences}
use meta_monutchee.Validation.Network.{valid_interface_name}
use meta_monutchee.Backend.Profile.{Profile, InterfacePolicy}

pub record TimestampCapabilities : Type 0 where
  pub phc_index : ℤ
  pub hardware : Bool

pub record PtpInterface : Type 0 where
  pub interface : String
  pub carrier : Bool
  pub hardware_timestamping : Bool
  pub phc_index : ℤ
  pub selectable : Bool
  pub reason : String

-- an entry of /sys/class/net: its name, the number read from `carrier` (0 if there is none), and the
-- last component of what `device/of_node` leads to, `none` where it cannot be resolved
pub record NetEntry : Type 0 where
  pub name : String
  pub carrier : ℤ
  pub of_node : Option String

abbrev pub is_skipped : String → Bool
is_skipped name = not (valid_interface_name name) || name == "lo"

-- `node.filename() == policy->device_tree_node`, unless the path has an error
abbrev pub is_node : String → Option String → Bool
is_node node none = false
is_node node (some name) = name == node

abbrev pub is_managed : NetEntry → Option InterfacePolicy → Bool
is_managed entry none = false
is_managed entry (some policy) =
    empty policy.device_tree_node || is_node policy.device_tree_node entry.of_node

-- why an interface cannot be selected, empty if it can
abbrev pub refusal : Bool → Bool → Bool → String
refusal managed supported hardware =
    if not managed
    then "Interface is not managed by this product"
    else if not supported
    then "PTP is unavailable on this product"
    else if not hardware
    then "Hardware PTP timestamps are unavailable"
    else ""

module _ (profile : Profile) (query : String → TimestampCapabilities) where
  -- the body of the loop
  unfoldable pub ptp_interface : NetEntry → PtpInterface
  ptp_interface entry =
      let capabilities = query entry.name in
      let policy = find_if (λ p. p.name == entry.name) profile.interfaces in
      let managed = is_managed entry policy in
      let supported = not (is_empty profile.ptp_unit_templates) in
      record {
        interface = entry.name;
        carrier = is_number 1 entry.carrier;
        hardware_timestamping = capabilities.hardware;
        phc_index = capabilities.phc_index;
        selectable = managed && supported && capabilities.hardware;
        reason = refusal managed supported capabilities.hardware;
      }

  unfoldable pub discover_ptp_interfaces : List NetEntry → List PtpInterface
  unfolding ptp_interface
  discover_ptp_interfaces entries =
      sort_by (λ p. codes p.interface)
        (map ptp_interface (keep_if (λ entry. not (is_skipped entry.name)) entries))

abbrev pub check_found : Option PtpInterface → Result (Unit {0})
check_found none = check false "Selected PTP interface is unavailable"
check_found (some p) = check p.selectable p.reason

unfoldable pub validate_ptp_selection : TimePreferences → List PtpInterface → Result (Unit {0})
validate_ptp_selection time interfaces =
    if not (time.synchronization == "ptp")
    then ok tt
    else check_found (find_if (λ p. p.interface == time.ptp_interface) interfaces)
