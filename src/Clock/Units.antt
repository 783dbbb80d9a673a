-- ===== src/Clock/Units.antt =====
-- `clockUnits` of daemon/ptp.cpp: the units to stop and to start for a clock source.
pub mod Escaped
pub mod Instances
pub mod Exclusive
use Prim.Native.Char.{code}
use Prim.Native.String.{◌++◌ as append}
use mathlib.Core.List.{reverse}
use meta_monutchee.Base.{
  String, Bool, true, false, not, ◌&&◌, ◌||◌, Option, none, some, List, [], ◌∷◌, ◌++◌, ◌==◌,
  string_eq, nat_beq, is_empty, contains, find_if, keep_if, if◌then◌else◌,
}
use meta_monutchee.System.{Result, ok, err, ErrorCode, check, ◌>>=◌, ◌>>◌, TimePreferences}
use meta_monutchee.Validation.Network.{valid_interface_name}
use meta_monutchee.Backend.Profile.{Profile, InterfacePolicy}

-- the escaping of a unit's instance name
unfoldable pub escape : String → String
escape String.[] = ""
escape (String.◌∷◌ c s) =
    let escaped = escape s in
    if nat_beq (code c) b'-' then append "\\x2d" escaped else String.◌∷◌ c escaped

-- `unit.substr(0, unit.size() - 8)` of a unit that ends with "@.service", `none` of another
unfoldable pub template_prefix : String → Option String
template_prefix String.[] = none
template_prefix (String.◌∷◌ c s) =
    let prefix = template_prefix s in
    if String.◌∷◌ c s == "@.service"
    then some "@"
    else elim prefix [ none ↦ none | some p ↦ some (String.◌∷◌ c p) ]

abbrev invalid_template : {A : Type 0} → Result A
invalid_template = err (record {
  code = ErrorCode.invalid_argument;
  message = "Invalid PTP unit template or interface";
})

unfoldable pub instance_unit : String → String → Result String
unfolding escape template_prefix
instance_unit unit name =
    if not (valid_interface_name name) then invalid_template else elim (template_prefix unit) [
      | none ↦ invalid_template
      | some prefix ↦ ok (append prefix (append (escape name) ".service"))
    ]

-- the instances of the templates for one interface
unfoldable pub selected_instances : List String → String → Result (List String)
unfolding instance_unit
selected_instances [] name = ok []
selected_instances (unit ∷ units) name = do
  first ← instance_unit unit name
  rest ← selected_instances units name
  ok (first ∷ rest)

-- `if (std::ranges::find(all, name) == all.end()) all.push_back(name);`
abbrev pub push_new : String → List String → List String
push_new name units = if contains name units then units else units ++ (name ∷ [])

-- the loop on the templates, for one interface
unfoldable pub add_instances : List String → String → List String → Result (List String)
unfolding instance_unit
add_instances [] name units = ok units
add_instances (unit ∷ templates) name units = do
  instance ← instance_unit unit name
  add_instances templates name (push_new instance units)

unfoldable pub add_all_instances :
    List String → List InterfacePolicy → List String → Result (List String)
unfolding add_instances
add_all_instances templates [] units = ok units
add_all_instances templates (port ∷ ports) units = do
  units' ← add_instances templates port.name units
  add_all_instances templates ports units'

pub record ClockUnits : Type 0 where
  pub stop : List String
  pub start : List String

module _ (profile : Profile) (time : TimePreferences) where
  abbrev pub require_irig : Bool → Result (List String)
  require_irig true =
      err (record { code = ErrorCode.unsupported; message = "IRIG source profile is unavailable" })
  require_irig false = ok profile.irig_units

  unfoldable pub irig_selection : Result (List String)
  irig_selection =
      if time.synchronization == "irig" then require_irig (is_empty profile.irig_units) else ok []

  abbrev pub is_unsupported : Option InterfacePolicy → Bool
  is_unsupported none = true
  is_unsupported (some policy) = is_empty profile.ptp_unit_templates

  unfoldable pub ptp_selection : Result (List String)
  unfolding selected_instances
  ptp_selection = do
    check (not (is_unsupported (find_if (λ p. p.name == time.ptp_interface) profile.interfaces)))
        "Selected PTP interface is not supported"
    selected_instances profile.ptp_unit_templates time.ptp_interface

  unfoldable pub selected_units : Result (List String)
  unfolding irig_selection ptp_selection
  selected_units = do
    selected ← irig_selection
    instances ← if time.synchronization == "ptp" then ptp_selection else ok []
    ok (selected ++ instances)

  -- all units of the servos, in the order in which they are collected
  unfoldable pub all_units : Result (List String)
  unfolding add_all_instances
  all_units = do
    units ← add_all_instances profile.ptp_unit_templates profile.interfaces profile.ptp_units
    ok (units ++ profile.irig_units)

  -- the two lists of the result
  unfoldable pub arrange : List String → List String → ClockUnits
  arrange selected all =
      let idle = keep_if (λ unit. not (contains unit selected)) (reverse all) in
      if not (time.synchronization == "ntp")
      then record { stop = idle ++ reverse profile.ntp_units; start = selected }
      else record { stop = idle; start = profile.ntp_units }

  unfoldable pub clock_units : Result ClockUnits
  unfolding selected_units all_units arrange
  clock_units = do selected ← selected_units; all ← all_units; ok (arrange selected all)
