-- ===== src/Logging/Priority.antt =====
-- `Priority`, `priority_name` and `parse_priority` of logging.cpp.
pub mod Names
use meta_monutchee.Base.{
  ℕ, ◌+◌, String, Option, none, some, List, [], ◌∷◌, map, ◌==◌, nat_eq, list_eq, if◌then◌else◌,
  within, codes,
}

pub data Priority : Type 0 where
  emergency alert critical error warning notice info debug : Priority

-- `static_cast<unsigned>(priority)`
abbrev pub priority_value : Priority → ℕ
priority_value emergency = 0
priority_value alert = 1
priority_value critical = 2
priority_value error = 3
priority_value warning = 4
priority_value notice = 5
priority_value info = 6
priority_value debug = 7

unfoldable pub priority_name : Priority → String
priority_name emergency = "emergency"
priority_name alert = "alert"
priority_name critical = "critical"
priority_name error = "error"
priority_name warning = "warning"
priority_name notice = "notice"
priority_name info = "info"
priority_name debug = "debug"

-- `std::tolower` in the "C" locale
unfoldable pub to_lower : ℕ → ℕ
to_lower c = if within b'A' b'Z' c then c + 32 else c

-- the table `values`, and "debug" behind it
abbrev pub priority_table : List (String × Priority)
priority_table =
    ("emergency", emergency)
    ∷ ("emerg", emergency)
    ∷ ("alert", alert)
    ∷ ("critical", critical)
    ∷ ("crit", critical)
    ∷ ("error", error)
    ∷ ("err", error)
    ∷ ("warning", warning)
    ∷ ("notice", notice)
    ∷ ("info", info)
    ∷ ("debug", debug)
    ∷ []

unfoldable pub find_priority : List ℕ → List (String × Priority) → Option Priority
find_priority normalized [] = none
find_priority normalized ((candidate, value) ∷ rest) =
    if normalized == codes candidate then some value else find_priority normalized rest

-- `none` where the source returns false and leaves the priority alone
unfoldable pub parse_priority : String → Option Priority
unfolding to_lower find_priority
parse_priority name = find_priority (map to_lower (codes name)) priority_table
