-- ===== src/Tests/Zones.antt =====
-- The timezone catalog and its coordinates.
use meta_monutchee.Base.{
  ◌≡◌, refl, Option, none, some, List, [], ◌∷◌, All, ◌↔◌, codes, ℤ, sort_by, codes_leb, list_beq,
  list_eq, nat_eq, is_empty, false,
}
use meta_monutchee.Timezones.Table.{Text}
use meta_monutchee.Timezones.Coordinate.{coordinate}
use meta_monutchee.Timezones.Catalog.{Zone, read_timezone_catalog}
use meta_monutchee.Timezones.Catalog.Complete.{IsIncreasing, ids, read_timezone_catalog-IsComplete}

abbrev table : Text
table = codes "# tz\nCH\t+4723+00832\tEurope/Zurich\tSwiss\nXX +1 A\n"

abbrev installed : List Text
installed = codes "UTC" ∷ codes "Europe/Zurich" ∷ codes "UTC" ∷ []

abbrev zones : Text → Option Zone
zones name = some (record { offset = ℤ.pos 3600; name = name })

north : coordinate 2 (codes "+4723") ≡ some (ℤ.pos 170580)
unfolding coordinate
north = refl

west : coordinate 3 (codes "-0833230") ≡ some (ℤ.negsuc 300749)
unfolding coordinate
west = refl

off_the_globe : coordinate 2 (codes "+9001") ≡ none
unfolding coordinate
off_the_globe = refl

-- the signed numbers that are read
minus_zero : coordinate 2 (codes "+47-0") ≡ some (ℤ.pos 169200)
unfolding coordinate
minus_zero = refl

catalog :
    ids (read_timezone_catalog installed table zones) ≡ codes "Europe/Zurich" ∷ codes "UTC" ∷ []
unfolding read_timezone_catalog sort_by codes_leb list_beq
catalog = refl

abbrev IsNamed : Text → Type 0
IsNamed name = is_empty name ≡ false

read_timezone_catalog-IsComplete_example :
    IsIncreasing (ids (read_timezone_catalog installed table zones))
    × (All IsNamed (ids (read_timezone_catalog installed table zones)) ↔ All IsNamed installed)
read_timezone_catalog-IsComplete_example =
    read_timezone_catalog-IsComplete installed table zones IsNamed
