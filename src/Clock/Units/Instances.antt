-- ===== src/Clock/Units/Instances.antt =====
-- The collected units of the servos: those of the profile, and every instance of a template.
use mathlib.Core.List.{reverse, reverse_aux}
use meta_monutchee.Base.{
  String, Bool, Bool-cases, true, ◌&&◌, ◌||◌, ◌≡◌, refl, sym, ap, ◌∙◌, subst, inl, inr, List, [],
  ◌∷◌, ◌++◌, ◌==◌, string_eq, eq_iff, contains, keep_if, Among, arith,
}
use meta_monutchee.System.{ok, ok-injective, Result-cases, TimePreferences}
use meta_monutchee.Backend.Profile.{Profile, InterfacePolicy}
use meta_monutchee.Clock.Units.{
  instance_unit, add_instances, add_all_instances, push_new, all_units,
}

pub contains-append :
    (x : String) (xs ys : List String) → contains x (xs ++ ys) ≡ (contains x xs || contains x ys)
contains-append x [] ys = refl
contains-append x (z ∷ xs) ys = ground (arith, contains-append x xs ys)

contains-reverse_aux :
    (x : String) (xs ys : List String)
    → contains x (reverse_aux xs ys) ≡ (contains x xs || contains x ys)
contains-reverse_aux x [] ys = refl
contains-reverse_aux x (z ∷ xs) ys = ground (arith, contains-reverse_aux x xs (z ∷ ys))

pub contains-reverse : (x : String) (xs : List String) → contains x (reverse xs) ≡ contains x xs
contains-reverse x xs = ground (arith, contains-reverse_aux x xs [])

pub contains-keep_if :
    (p : String → Bool) (x : String) (xs : List String)
    → contains x (keep_if p xs) ≡ (contains x xs && p x)
contains-keep_if p x [] = refl
contains-keep_if p x (z ∷ xs) = elim (Bool-cases (z == x)) [
  | inl same ↦
      let e = ap p ((eq_iff z x).0 same) in ground (arith, e, same, contains-keep_if p x xs)
  | inr other ↦ ground (arith, other, contains-keep_if p x xs)
]

contains-push_new :
    (x name : String) (units : List String)
    → contains x (push_new name units) ≡ (contains x units || name == x)
contains-push_new x name units = elim (Bool-cases (name == x)) [
  | inl same ↦
      let e = ap (λ y. contains y units) ((eq_iff name x).0 same) in
      ground (arith, e, same, contains-append x units (name ∷ []))
  | inr other ↦ ground (arith, other, contains-append x units (name ∷ []))
]

-- what the loop on the templates collects: all that there was, and each instance
record Collects (templates : List String) (name : String) (units units' : List String)
    : Type 0 where
  keeps : (x : String) → contains x units ≡ true → contains x units' ≡ true
  adds :
      (x template : String)
      → Among template templates
      → instance_unit template name ≡ ok x
      → contains x units' ≡ true

add_instances-Collects :
    (templates : List String) (name : String) (units units' : List String)
    → add_instances templates name units ≡ ok units'
    → Collects templates name units units'
unfolding add_instances
add_instances-Collects [] name units units' h = record {
  keeps = λ x k. subst (λ us. contains x us ≡ true) (ok-injective h) k;
  adds = λ x t among made. absurd among;
}
add_instances-Collects (t ∷ ts) name units units' h = elim (Result-cases (instance_unit t name)) [
  | inr (e, failed) ↦ absurd (ground (arith, h, failed))
  | inl (i, made) ↦
      let rest =
        add_instances-Collects ts name (push_new i units) units' (ground (arith, h, made)) in
      record {
        keeps = λ x k. rest.keeps x (ground (arith, contains-push_new x i units, k));
        adds = λ x t' among made'. elim among [
          | inl first ↦
              let same : i ≡ x =
                ok-injective (sym made ∙ (ap (λ u. instance_unit u name) (sym first) ∙ made')) in
              rest.keeps x (ground (arith, contains-push_new x i units, (eq_iff i x).1 same))
          | inr later ↦ rest.adds x t' later made'
        ];
      }
]

-- an instance of a template for an interface of the profile
pub record IsInstance (templates : List String) (ports : List InterfacePolicy) (x : String)
    : Type 0 where
  pub port : InterfacePolicy
  pub template : String
  pub of_port : Among port ports
  pub of_template : Among template templates
  pub made : instance_unit template port.name ≡ ok x

record CollectsAll (templates : List String) (ports : List InterfacePolicy)
    (units units' : List String) : Type 0 where
  keeps : (x : String) → contains x units ≡ true → contains x units' ≡ true
  adds : (x : String) → IsInstance templates ports x → contains x units' ≡ true

add_all-CollectsAll :
    (templates : List String) (ports : List InterfacePolicy) (units units' : List String)
    → add_all_instances templates ports units ≡ ok units'
    → CollectsAll templates ports units units'
unfolding add_all_instances
add_all-CollectsAll templates [] units units' h = record {
  keeps = λ x k. subst (λ us. contains x us ≡ true) (ok-injective h) k;
  adds = λ x i. absurd i.of_port;
}
add_all-CollectsAll templates (p ∷ ps) units units' h =
    elim (Result-cases (add_instances templates p.name units)) [
      | inr (e, failed) ↦ absurd (ground (arith, h, failed))
      | inl (us, added) ↦
          let first = add_instances-Collects templates p.name units us added in
          let rest = add_all-CollectsAll templates ps us units' (ground (arith, h, added)) in
          record {
            keeps = λ x k. rest.keeps x (first.keeps x k);
            adds = λ x i. elim (i.of_port) [
              | inl here ↦ rest.keeps x (
                  first.adds x i.template i.of_template (
                    ap (λ (q : InterfacePolicy). instance_unit i.template q.name) (sym here)
                    ∙ i.made))
              | inr later ↦ rest.adds x (record {
                port = i.port;
                template = i.template;
                of_port = later;
                of_template = i.of_template;
                made = i.made;
              })
            ];
          }
    ]

-- a unit of a PTP or IRIG servo, by the profile
pub data IsServo (profile : Profile) (x : String) : Type 0 where
  of_ptp : contains x profile.ptp_units ≡ true → IsServo profile x
  of_irig : contains x profile.irig_units ≡ true → IsServo profile x
  of_instance : IsInstance profile.ptp_unit_templates profile.interfaces x → IsServo profile x

pub all_units-contains :
    (profile : Profile) (time : TimePreferences) (all : List String) (x : String)
    → all_units profile time ≡ ok all
    → IsServo profile x
    → contains x all ≡ true
unfolding all_units
all_units-contains profile time all x h servo =
    elim (Result-cases
      (add_all_instances profile.ptp_unit_templates profile.interfaces profile.ptp_units)) [
        | inr (e, failed) ↦ absurd (ground (arith, h, failed))
        | inl (us, added) ↦
            let collects =
              add_all-CollectsAll profile.ptp_unit_templates profile.interfaces profile.ptp_units us
                added in
            let joined : us ++ profile.irig_units ≡ all = ok-injective (ground (arith, h, added)) in
            subst (λ us. contains x us ≡ true) joined
              (ground (arith, contains-append x us profile.irig_units, go us collects servo))
      ]
  where
    go :
        (us : List String)
        → CollectsAll profile.ptp_unit_templates profile.interfaces profile.ptp_units us
        → IsServo profile x
        → (contains x us || contains x profile.irig_units) ≡ true
    go us c (of_ptp h) = ground (arith, c.keeps x h)
    go us c (of_irig h) = ground (arith, h)
    go us c (of_instance i) = ground (arith, c.adds x i)
