-- ===== src/Platform/Apply/Accepted.antt =====
-- A configuration that `validateConfiguration` accepts has units for its clock source.
use meta_monutchee.Base.{
  String, Bool, Bool-cases, true, false, ◌&&◌, ◌==◌, string_eq, eq_iff, ◌≡◌, ◌≢◌, refl, none, List,
  [], ◌∷◌, inl, inr, All, is_empty, find_if, arith,
}
use meta_monutchee.System.{
  Result, ok, err, Result-cases, succeeds, ErrorCode, Configuration, TimePreferences,
}
use meta_monutchee.Validation.Network.{valid_interface_name}
use meta_monutchee.Backend.Profile.{Profile, InterfacePolicy}
use meta_monutchee.Clock.Ptp.{
  NetEntry, TimestampCapabilities, PtpInterface, discover_ptp_interfaces, validate_ptp_selection,
}
use meta_monutchee.Clock.Ptp.Selected.{IsUsable, validate_ptp_selection-IsUsable}
use meta_monutchee.Clock.Units.{
  instance_unit, template_prefix, selected_instances, add_instances, add_all_instances, push_new,
  irig_selection, ptp_selection, selected_units, all_units, clock_units,
}
use meta_monutchee.Platform.System.{
  Act, Acts, Answers, N, Ended, returned, threw, cut_off, lift, observe, throw, when, ◌>>=◌,
}
use meta_monutchee.Platform.Apply.{validate_configuration}

-- The profile of a product: its templates are templates, and its ports are interfaces.
pub record IsProduct (profile : Profile) : Type 0 where
  pub templates : All (λ unit. template_prefix unit ≢ none) profile.ptp_unit_templates
  pub ports : All (λ p. valid_interface_name p.name ≡ true) profile.interfaces

instance_unit-succeeds :
    (unit name : String)
    → template_prefix unit ≢ none
    → valid_interface_name name ≡ true
    → succeeds (instance_unit unit name) ≡ true
unfolding instance_unit
instance_unit-succeeds unit name has is_valid = ground (arith, has, is_valid)

selected_instances-succeeds :
    (units : List String) (name : String)
    → All (λ unit. template_prefix unit ≢ none) units
    → valid_interface_name name ≡ true
    → succeeds (selected_instances units name) ≡ true
unfolding selected_instances
selected_instances-succeeds [] name have is_valid = refl
selected_instances-succeeds (u ∷ us) name have is_valid = ground (
  arith,
  instance_unit-succeeds u name have.0 is_valid,
  selected_instances-succeeds us name have.1 is_valid,
)

add_instances-succeeds :
    (templates : List String) (name : String) (units : List String)
    → All (λ unit. template_prefix unit ≢ none) templates
    → valid_interface_name name ≡ true
    → succeeds (add_instances templates name units) ≡ true
unfolding add_instances
add_instances-succeeds [] name units have is_valid = refl
add_instances-succeeds (t ∷ ts) name units have is_valid =
    elim (Result-cases (instance_unit t name)) [
      | inr (e, failed) ↦
          absurd (ground (arith, instance_unit-succeeds t name have.0 is_valid, failed))
      | inl (i, made) ↦ rw made (add_instances-succeeds ts name (push_new i units) have.1 is_valid)
    ]

add_all_instances-succeeds :
    (templates : List String) (ports : List InterfacePolicy) (units : List String)
    → All (λ unit. template_prefix unit ≢ none) templates
    → All (λ p. valid_interface_name p.name ≡ true) ports
    → succeeds (add_all_instances templates ports units) ≡ true
unfolding add_all_instances
add_all_instances-succeeds templates [] units have valid = refl
add_all_instances-succeeds templates (p ∷ ps) units have valid =
    elim (Result-cases (add_instances templates p.name units)) [
      | inr (e, failed) ↦
          absurd
            (ground (arith, add_instances-succeeds templates p.name units have valid.0, failed))
      | inl (us, added) ↦ rw added (add_all_instances-succeeds templates ps us have valid.1)
    ]

module _ (profile : Profile) (time : TimePreferences) where
  -- what the check of a configuration says of the clock source
  pub record IsSupported : Type 0 where
    irig : (time.synchronization == "irig" && is_empty profile.irig_units) ≡ false
    port : time.synchronization ≡ "ptp" → valid_interface_name time.ptp_interface ≡ true
    policy :
        time.synchronization ≡ "ptp"
        → find_if (λ p. p.name == time.ptp_interface) profile.interfaces ≢ none
    templates : time.synchronization ≡ "ptp" → is_empty profile.ptp_unit_templates ≡ false

  ptp_selection-succeeds :
      IsProduct profile
      → IsSupported
      → time.synchronization ≡ "ptp"
      → succeeds (ptp_selection profile time) ≡ true
  unfolding ptp_selection
  ptp_selection-succeeds product s ptp = ground (
    arith,
    s.policy ptp,
    s.templates ptp,
    selected_instances-succeeds profile.ptp_unit_templates time.ptp_interface product.templates
        (s.port ptp),
  )

  selected_units-succeeds :
      IsProduct profile → IsSupported → succeeds (selected_units profile time) ≡ true
  unfolding selected_units irig_selection
  selected_units-succeeds product s = elim (Bool-cases (time.synchronization == "ptp")) [
    | inl ptp ↦ ground (
      arith,
      s.irig,
      ptp,
      ptp_selection-succeeds product s ((eq_iff time.synchronization "ptp").0 ptp),
    )
    | inr other ↦ ground (arith, s.irig, other)
  ]

  clock_units-succeeds :
      IsProduct profile → IsSupported → succeeds (clock_units profile time) ≡ true
  unfolding clock_units all_units
  clock_units-succeeds product s = ground (
    arith,
    selected_units-succeeds product s,
    add_all_instances-succeeds profile.ptp_unit_templates profile.interfaces profile.ptp_units
        product.templates product.ports,
  )

  usable-IsSupported :
      (query : String → TimestampCapabilities) (entries : List NetEntry)
      → validate_ptp_selection time (discover_ptp_interfaces profile query entries) ≡ ok tt
      → (time.synchronization == "irig" && is_empty profile.irig_units) ≡ false
      → IsSupported
  usable-IsSupported query entries accepted no_irig = record {
    irig = no_irig;
    port = λ ptp. (usable ptp).is_valid;
    policy = λ ptp e. ground (arith, (usable ptp).has_policy, e);
    templates = λ ptp. (usable ptp).has_templates;
  }
    where
      usable : time.synchronization ≡ "ptp" → IsUsable profile query entries time.ptp_interface
      usable ptp = validate_ptp_selection-IsUsable profile query time entries accepted ptp

-- what a method that returns ensures
abbrev pub Returns : {A : Type 0} → Type 0 → Ended A × Acts → Type 0
Returns Q (returned a, acts) = Q
Returns Q _ = Unit

record Ensures {A : Type 0} (Q : Type 0) (m : N A) : Type 0 where
  at : (acts : Acts) → Returns Q (m acts)

module _ {A B : Type 0} (Q : Type 0) where
  Ensures-after : (m : N A) (f : A → N B) → ((a : A) → Ensures Q (f a)) → Ensures Q (m >>= f)
  Ensures-after m f k = record { at = λ acts. go (m acts) }
    where
      go :
          (r : Ended A × Acts)
          → Returns Q (elim (r.0) as (λ _. Ended B × Acts) [
            | returned a ↦ f a r.1
            | threw e ↦ (threw e, r.1)
            | cut_off ↦ (cut_off, r.1)
          ])
      go (returned a, acts) = (k a).at acts
      go (threw e, acts) = tt
      go (cut_off, acts) = tt

  Ensures-lift :
      (r : Result A) (f : A → N B)
      → ((a : A) → r ≡ ok a → Ensures Q (f a))
      → Ensures Q (lift r >>= f)
  Ensures-lift (ok a) f k = record { at = (k a refl).at }
  Ensures-lift (err e) f k = record { at = λ acts. tt }

  Ensures-observe :
      (act : Act) (answer : Acts → A) (f : A → N B)
      → ((acts : Acts) → Ensures Q (f (answer acts)))
      → Ensures Q (observe act answer >>= f)
  Ensures-observe act answer f k = record { at = λ acts. (k acts).at (act ∷ acts) }

Ensures-guard :
    (Q : Type 0) (t : Bool) (code : ErrorCode) (message : String)
    → (t ≡ false → Q)
    → Ensures Q (when t (throw code message))
Ensures-guard Q true code message k = record { at = λ acts. tt }
Ensures-guard Q false code message k = record { at = λ acts. k refl }

-- For a product whose templates are unit templates and whose ports have valid names: if
-- `validateConfiguration` accepts a configuration, then `clockUnits` returns units for it.
pub validate_configuration-Returns :
    (answers : Answers) (profile : Profile) (c : Configuration) (acts : Acts)
    → IsProduct profile
    → Returns
        (succeeds (clock_units profile c.time) ≡ true)
        (validate_configuration answers profile c acts)
unfolding validate_configuration
validate_configuration-Returns answers profile c acts product = Ensures.at checked acts
  where
    found : Acts → List PtpInterface
    found acts = discover_ptp_interfaces profile (answers.capabilities acts) (answers.entries acts)

    units_found : Type 0
    units_found = succeeds (clock_units profile c.time) ≡ true

    no_irig_test : N (Unit {0})
    no_irig_test =
        when (c.time.synchronization == "irig" && is_empty profile.irig_units)
          (throw ErrorCode.unsupported "IRIG source profile is unavailable")

    chosen : (interfaces : List PtpInterface) → N (Unit {0})
    chosen interfaces = lift (validate_ptp_selection c.time interfaces) >>= λ _. no_irig_test

    chosen_here : (acts : Acts) → Ensures units_found (chosen (found acts))
    chosen_here acts =
        Ensures-lift units_found (validate_ptp_selection c.time (found acts)) (λ _. no_irig_test)
          (λ _ accepted.
            Ensures-guard units_found
              (c.time.synchronization == "irig" && is_empty profile.irig_units)
              ErrorCode.unsupported "IRIG source profile is unavailable"
              (λ no_irig. clock_units-succeeds profile c.time product (
                usable-IsSupported profile c.time (answers.capabilities acts) (answers.entries acts)
                  accepted no_irig)))

    checked : Ensures units_found (validate_configuration answers profile c)
    checked = search (Ensures-after units_found, Ensures-observe units_found, chosen_here) depth 16
