-- ===== src/Clock/Ptp/Selected.antt =====
-- What is known of a discovered interface, and of a PTP interface whose selection is accepted.
use meta_monutchee.Base.{
  String, Bool-cases, true, false, not, ◌||◌, Among, subst, Option, Option-cases, none, some, List,
  [], ◌∷◌, ◌≡◌, ◌≢◌, refl, map, ◌==◌, string_eq, eq_iff, inl, inr, find_if, find_if-All, keep_if,
  All, arith, sort_by-All, codes, empty, is_empty,
}
use meta_monutchee.System.{ok, TimePreferences}
use meta_monutchee.Validation.Network.{valid_interface_name}
use meta_monutchee.Backend.Profile.{Profile, InterfacePolicy}
use meta_monutchee.Clock.Ptp.{
  TimestampCapabilities, PtpInterface, NetEntry, ptp_interface, is_skipped, is_node,
  discover_ptp_interfaces, validate_ptp_selection, check_found,
}

Among-later :
    {A : Type 0} {P : A → Type 0} (Q : A → Type 0) (xs : List A)
    → All P xs
    → ((a : A) → P a → Q a)
    → All Q xs
Among-later Q [] h f = tt
Among-later Q (x ∷ xs) h f = (f x h.0, Among-later Q xs h.1 f)

module _ (profile : Profile) (query : String → TimestampCapabilities) where
  -- made from an entry of the kernel that is not skipped
  pub record Described (entries : List NetEntry) (p : PtpInterface) : Type 0 where
    entry : NetEntry
    among : Among entry entries
    kept : is_skipped entry.name ≡ false
    made : ptp_interface profile query entry ≡ p

  kept-Described :
      (entries : List NetEntry)
      → All (Described entries) (
          map
            (ptp_interface profile query)
            (keep_if (λ entry. not (is_skipped entry.name)) entries))
  kept-Described [] = tt
  kept-Described (e ∷ es) =
      let rest =
        Among-later (Described (e ∷ es)) _ (kept-Described es)
          (λ p d. record { entry = d.entry; among = inr d.among; kept = d.kept; made = d.made }) in
      elim (Bool-cases (is_skipped e.name)) [
        | inl skipped ↦ rw skipped rest
        | inr kept ↦
            rw kept ((record { entry = e; among = inl refl; kept = kept; made = refl }, rest))
      ]

  discover-Described :
      (entries : List NetEntry)
      → All (Described entries) (discover_ptp_interfaces profile query entries)
  unfolding discover_ptp_interfaces
  discover-Described entries =
      (sort_by-All (λ p. codes p.interface) (Described entries) _).1 (kept-Described entries)

  -- The interface of the name is there, and may synchronise the clock: the kernel has it, it has
  -- hardware timestamps, and the profile has templates and a policy that fits it.
  pub record IsUsable (entries : List NetEntry) (name : String) : Type 0 where
    pub entry : NetEntry
    pub policy : InterfacePolicy
    pub among : Among entry entries
    pub name_eq : entry.name ≡ name
    pub is_valid : valid_interface_name name ≡ true
    pub not_loopback : name ≢ "lo"
    pub has_policy : find_if (λ p. p.name == name) profile.interfaces ≡ some policy
    pub fits :
        (empty policy.device_tree_node || is_node policy.device_tree_node entry.of_node) ≡ true
    pub has_templates : is_empty profile.ptp_unit_templates ≡ false
    pub has_hardware : (query name).hardware ≡ true

  entry-IsUsable :
      (entries : List NetEntry) (entry : NetEntry)
      → Among entry entries
      → is_skipped entry.name ≡ false
      → (ptp_interface profile query entry).selectable ≡ true
      → IsUsable entries entry.name
  unfolding ptp_interface
  entry-IsUsable entries entry among kept h =
      elim (Option-cases (find_if (λ p. p.name == entry.name) profile.interfaces)) [
        | inl missing ↦ absurd (ground (arith, h, missing))
        | inr (policy, found) ↦ record {
          entry = entry;
          policy = policy;
          among = among;
          name_eq = refl;
          is_valid = ground (arith, kept);
          not_loopback = λ e. ground (arith, kept, eq_iff entry.name "lo", e);
          has_policy = found;
          fits = ground (arith, h, found);
          has_templates = ground (arith, h);
          has_hardware = ground (arith, h);
        }
      ]

  Described-IsUsable :
      (entries : List NetEntry) (p : PtpInterface)
      → Described entries p
      → p.selectable ≡ true
      → IsUsable entries p.interface
  unfolding ptp_interface
  Described-IsUsable entries p d =
      subst (λ (p : PtpInterface). p.selectable ≡ true → IsUsable entries p.interface) d.made
        (entry-IsUsable entries d.entry d.among d.kept)

  found-IsUsable :
      (entries : List NetEntry) (name : String) (found : Option PtpInterface)
      → find_if (λ p. p.interface == name) (discover_ptp_interfaces profile query entries) ≡ found
      → check_found found ≡ ok tt
      → IsUsable entries name
  found-IsUsable entries name none e h = absurd (cc)
  found-IsUsable entries name (some p) e h =
      let (same, d) =
        find_if-All (Described entries) (λ p. p.interface == name) _ p (discover-Described entries)
          e in
      subst (IsUsable entries) ((eq_iff p.interface name).0 same)
        (Described-IsUsable entries p d (ground (arith, h)))

  -- An accepted PTP selection names an interface that is usable.
  pub validate_ptp_selection-IsUsable :
      (time : TimePreferences) (entries : List NetEntry)
      → validate_ptp_selection time (discover_ptp_interfaces profile query entries) ≡ ok tt
      → time.synchronization ≡ "ptp"
      → IsUsable entries time.ptp_interface
  unfolding validate_ptp_selection
  validate_ptp_selection-IsUsable time entries h ptp =
      found-IsUsable entries time.ptp_interface _ refl
        (ground (arith, h, ptp, eq_iff time.synchronization "ptp"))
