-- ===== src/Timezones/Catalog/Complete.antt =====
-- The catalog has an entry for each installed timezone, and no other, in strict order.
use meta_monutchee.Base.{
  Bool-cases, true, ◌≡◌, ◌≢◌, refl, sym, subst, arith, ◌↔◌, inl, inr, Option, none, some, List, [],
  ◌∷◌, All, ◌==◌, list_eq, nat_eq, list_beq_iff, sort_by, sort_by-All, sort_by-IsSorted, IsSorted,
  codes_leb, codes_leb_antisym, codes_leb_trans,
}
use meta_monutchee.Timezones.Table.{Text, Locations, lines_of, add_lines}
use meta_monutchee.Timezones.Catalog.{
  Timezone, Zone, unique_after, unique, entry_of, entries_of, read_timezone_catalog,
}

abbrev IsBefore : Text → Text → Type 0
IsBefore a b = (codes_leb a b ≡ true) × (a ≢ b)

-- each text is before all that follow it
abbrev pub IsIncreasing : List Text → Type 0
IsIncreasing [] = Unit
IsIncreasing (a ∷ rest) = All (IsBefore a) rest × IsIncreasing rest

abbrev IsOrdered : List Text → Type 0
IsOrdered names = IsSorted (λ (name : Text). name) names

unique_after-All :
    (P : Text → Type 0) (last : Text) (names : List Text)
    → P last
    → All P (unique_after last names) ↔ All P names
unfolding unique_after
unique_after-All P last [] p = ((λ h. h), λ h. h)
unique_after-All P last (name ∷ names) p = elim (Bool-cases (last == name)) [
  | inl same ↦
      let pn = subst P ((list_beq_iff last name).0 same) p in
      let inner = unique_after-All P name names pn in
      rw same ((λ h. (pn, inner.0 h)), λ h. inner.1 h.1)
  | inr other ↦ rw other (
    (λ h. (h.0, (unique_after-All P name names h.0).0 h.1)),
    λ h. (h.0, (unique_after-All P name names h.0).1 h.1),
  )
]

unique-All : (P : Text → Type 0) (names : List Text) → All P (unique names) ↔ All P names
unfolding unique
unique-All P [] = ((λ h. h), λ h. h)
unique-All P (name ∷ names) = (
  (λ h. (h.0, (unique_after-All P name names h.0).0 h.1)),
  λ h. (h.0, (unique_after-All P name names h.0).1 h.1),
)

All-IsBefore :
    (a b : Text) (names : List Text)
    → IsBefore a b
    → All (IsBefore b) names
    → All (IsBefore a) names
All-IsBefore a b [] h k = tt
All-IsBefore a b (c ∷ names) h k = (
  (
    codes_leb_trans a b c h.0 k.0.0,
    λ e. k.0.1 (codes_leb_antisym b c k.0.0 (subst (λ x. codes_leb x b ≡ true) e h.0)),
  ),
  All-IsBefore a b names h k.1,
)

-- in an ordered list, what stays behind `last` is after it and increasing
unique_after-IsIncreasing :
    (last : Text) (names : List Text)
    → IsOrdered (last ∷ names)
    → IsIncreasing (last ∷ unique_after last names)
unfolding unique_after
unique_after-IsIncreasing last [] ordered = (tt, tt)
unique_after-IsIncreasing last (name ∷ names) ordered = elim (Bool-cases (last == name)) [
  | inl same ↦
      let e : last ≡ name = (list_beq_iff last name).0 same in
      rw same (
        subst (λ l. IsIncreasing (l ∷ unique_after name names)) (sym e)
          (unique_after-IsIncreasing name names ordered.1))
  | inr other ↦
      let rest = unique_after-IsIncreasing name names ordered.1 in
      let first : IsBefore last name =
        (ordered.0.0, λ e. absurd (ground (arith, other, list_beq_iff last name, e))) in
      rw other ((first, All-IsBefore last name (unique_after name names) first rest.0), rest)
]

unique-IsIncreasing : (names : List Text) → IsOrdered names → IsIncreasing (unique names)
unfolding unique
unique-IsIncreasing [] ordered = tt
unique-IsIncreasing (name ∷ names) ordered = unique_after-IsIncreasing name names ordered

abbrev pub ids : List Timezone → List Text
ids [] = []
ids (z ∷ zs) = z.id ∷ ids zs

entry_of-id :
    (locations : Locations) (name : Text) (zone : Option Zone)
    → (entry_of locations name zone).id ≡ name
unfolding entry_of
entry_of-id locations name none = refl
entry_of-id locations name (some zone) = refl

ids-entries_of :
    (zones : Text → Option Zone) (locations : Locations) (names : List Text)
    → ids (entries_of zones locations names) ≡ names
unfolding entries_of
ids-entries_of zones locations [] = refl
ids-entries_of zones locations (name ∷ names) =
    rw (entry_of-id locations name (zones name), ids-entries_of zones locations names) refl

-- The ids of the catalog are in strict order, so that none stands twice, and they are exactly the installed
-- names: what holds of all of the ones holds of all of the others. This does not depend on tzdata or on
-- zone.tab.
pub read_timezone_catalog-IsComplete :
    (installed : List Text) (table : Text) (zones : Text → Option Zone) (P : Text → Type 0)
    → IsIncreasing (ids (read_timezone_catalog installed table zones))
      × (All P (ids (read_timezone_catalog installed table zones)) ↔ All P installed)
unfolding read_timezone_catalog
read_timezone_catalog-IsComplete installed table zones P =
    let key = λ (name : Text). name in
    let sorted = sort_by key installed in
    let same = ids-entries_of zones (add_lines (lines_of table) []) (unique sorted) in
    let kept = unique-All P sorted in
    let all_of = sort_by-All key P installed in
    rw same (
      unique-IsIncreasing sorted (sort_by-IsSorted key installed),
      ((λ h. all_of.0 (kept.0 h)), λ h. kept.1 (all_of.1 h)),
    )
