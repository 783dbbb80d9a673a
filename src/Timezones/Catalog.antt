-- ===== src/Timezones/Catalog.antt =====
-- `readTimezoneCatalog`: an entry for each installed timezone.
pub mod Complete
use meta_monutchee.Base.{
  ℕ, Bool, true, false, Option, none, some, List, [], ◌∷◌, ◌++◌, ◌==◌, list_eq, nat_eq, sort_by,
  if◌then◌else◌, ℤ,
}
use meta_monutchee.Timezones.Table.{Text, Location, Locations, find_location, lines_of, add_lines}

pub record Timezone : Type 0 where
  pub id : Text
  pub utc_offset_seconds : Option ℤ
  pub location : Option Location

-- what tzdata says of a zone: its offset at the instant, and its name
pub record Zone : Type 0 where
  pub offset : ℤ
  pub name : Text

-- `std::unique`: of neighbours that are equal the first stays; `last` is the one before
unfoldable pub unique_after : Text → List Text → List Text
unique_after last [] = []
unique_after last (name ∷ names) =
    let rest = unique_after name names in if last == name then rest else name ∷ rest

unfoldable pub unique : List Text → List Text
unfolding unique_after
unique [] = []
unique (name ∷ names) = name ∷ unique_after name names

abbrev or_location : Option Location → Option Location → Option Location
or_location (some location) other = some location
or_location none other = other

-- an entry for a zone that tzdata has, or has not
unfoldable pub entry_of : Locations → Text → Option Zone → Timezone
unfolding find_location
entry_of locations name none = record { id = name; utc_offset_seconds = none; location = none }
entry_of locations name (some zone) = record {
  id = name;
  utc_offset_seconds = some zone.offset;
  location = or_location (find_location name locations) (find_location zone.name locations);
}

unfoldable pub entries_of : (Text → Option Zone) → Locations → List Text → List Timezone
unfolding entry_of
entries_of zones locations [] = []
entries_of zones locations (name ∷ names) =
    entry_of locations name (zones name) ∷ entries_of zones locations names

-- The zones of the catalog, with zone.tab as a text and `locate_zone` as a function.
unfoldable pub read_timezone_catalog : List Text → Text → (Text → Option Zone) → List Timezone
unfolding unique entries_of add_lines lines_of sort_by
read_timezone_catalog installed table zones =
    entries_of zones (add_lines (lines_of table) [])
      (unique (sort_by (λ (name : Text). name) installed))
