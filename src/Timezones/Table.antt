-- ===== src/Timezones/Table.antt =====
-- The lines of zone.tab, as `readTimezoneCatalog` reads them.
use meta_monutchee.Base.{
  ℕ, Bool, true, ◌||◌, Option, none, some, List, [], ◌∷◌, ◌++◌, nat_beq, within, is_empty, ◌==◌,
  list_eq, nat_eq, if◌then◌else◌, ℤ,
}
use meta_monutchee.Timezones.Coordinate.{coordinate}

abbrev pub Text : Type 0
Text = List ℕ

-- the character and what has been read of its line, before the lines that follow
abbrev join_line : ℕ → List Text → List Text
join_line c [] = (c ∷ []) ∷ []
join_line c (line ∷ lines) = (c ∷ line) ∷ lines

-- `std::getline` until the end: an end of line ends a line, and the last one may have none
unfoldable pub lines_of : Text → List Text
lines_of [] = []
lines_of (c ∷ cs) = let rest = lines_of cs in if nat_beq c 10 then [] ∷ rest else join_line c rest

-- `std::isspace`
abbrev is_space : ℕ → Bool
is_space c = nat_beq c b' ' || within 9 13 c

-- the words of a line, with the one that is being read
unfoldable pub words_of : Text → Text → List Text
words_of word [] = if is_empty word then [] else word ∷ []
words_of word (c ∷ cs) =
    let next = words_of [] cs in
    let longer = words_of (word ++ (c ∷ [])) cs in
    if is_space c then (if is_empty word then next else word ∷ next) else longer

-- the text before the first sign, and from it on
unfoldable pub split_sign : Text → Option (Text × Text)
split_sign [] = none
split_sign (c ∷ cs) =
    let rest = split_sign cs in
    if nat_beq c b'+' || nat_beq c b'-'
    then some ([], c ∷ cs)
    else elim rest [ none ↦ none | some (before, after) ↦ some (c ∷ before, after) ]

pub record Location : Type 0 where
  pub latitude : ℤ
  pub longitude : ℤ

-- both parts are coordinates
abbrev located : Option ℤ → Option ℤ → Option Location
located (some latitude) (some longitude) =
    some (record { latitude = latitude; longitude = longitude })
located _ _ = none

abbrev locate : Option (Text × Text) → (Text → Text) → Option Location
locate none f = none
locate (some (before, after)) f = located (coordinate 2 (f before)) (coordinate 3 after)

-- the coordinates are split at the first sign behind their first character
unfoldable pub location_of : Text → Option Location
unfolding split_sign coordinate
location_of [] = none
location_of (c ∷ cs) = locate (split_sign cs) (λ before. c ∷ before)

abbrev pub Locations : Type 0
Locations = List (Text × Location)

unfoldable pub find_location : Text → Locations → Option Location
find_location id [] = none
find_location id ((known, location) ∷ rest) =
    if known == id then some location else find_location id rest

-- `locations.emplace`, which keeps what it has
abbrev emplace : Text → Option Location → Locations → Locations
emplace id none known = known
emplace id (some location) known = elim (find_location id known) [
  | none ↦ known ++ ((id, location) ∷ [])
  | some old ↦ known
]

abbrev add_words : List Text → Locations → Locations
add_words (country ∷ (coordinates ∷ (id ∷ more))) known = emplace id (location_of coordinates) known
add_words _ known = known

abbrev is_comment : Text → Bool
is_comment [] = true
is_comment (c ∷ cs) = nat_beq c b'#'

unfoldable pub add_line : Text → Locations → Locations
unfolding words_of find_location location_of
add_line line known = if is_comment line then known else add_words (words_of [] line) known

unfoldable pub add_lines : List Text → Locations → Locations
unfolding add_line
add_lines [] known = known
add_lines (line ∷ lines) known = add_lines lines (add_line line known)
