-- ===== src/Sysmon/World.antt =====
-- What the monitor reads of sysfs, and texts as lists of their characters.
use meta_monutchee.Base.{
  ℕ, Bool, true, false, ◌||◌, Option, none, some, List, [], ◌∷◌, codes, bytes_of, leb, nat_beq,
  if◌then◌else◌, is_empty,
}
use meta_monutchee.System.Trace.{Trace, pure, throw}

abbrev pub Text : Type 0
Text = List ℕ

-- A device is the name of its directory; `channel_file` and the tests name a file of it.
pub data Op : Type 0 where
  read_time list_devices : Op
  read_name test_node read_compatible resolve_node list_channels : Text → Op
  test_file read_file : Text → Text → Op

abbrev pub Ops : Type 0
Ops = List Op

-- a file that is read: it cannot be opened, reading it fails, or its content
pub data Content : Type 0 where
  unreadable broken : Content
  holds : Text → Content

-- The answers, which may depend on all that was read before. A directory or a link that cannot be read
-- is `none`; so is a file of which it is not known whether it exists. A node is "of_node", or
-- "device/of_node" where the first does not exist.
pub record Sysfs : Type 0 where
  pub now : Ops → ℕ
  pub devices : Ops → Option (List Text)
  pub name : Ops → Text → Content
  pub has_node : Ops → Text → Option Bool
  pub compatible : Ops → Text → Content
  pub node_path : Ops → Text → Option Text
  pub files : Ops → Text → Option (List Text)
  pub has_file : Ops → Text → Text → Option Bool
  pub file : Ops → Text → Text → Content

-- `double`, with `std::from_chars` over a whole text, and the operations that the code uses
pub record Reals : Type 1 where
  pub Real : Type 0
  pub parse : Text → Option Real
  pub is_finite : Real → Bool
  pub zero_real : Real
  pub is_positive : Real → Bool
  pub plus : Real → Real → Real
  pub times : Real → Real → Real
  -- divided by 1000.0
  pub thousandth : Real → Real

-- A method that may throw an exception with a message.
abbrev pub S : Type 0 → Type 0
S A = Trace Op Text A

abbrev is_blank : ℕ → Bool
is_blank c = nat_beq c 10 || nat_beq c 13 || nat_beq c b' '

-- the line ends and spaces at the end are taken off
unfoldable pub strip_end : Text → Text
strip_end [] = []
strip_end (c ∷ cs) =
    let rest = strip_end cs in if is_empty rest then if is_blank c then [] else c ∷ [] else c ∷ rest

-- `read`
unfoldable pub read_content : Content → S Text
unfolding strip_end
read_content Content.unreadable = throw (codes "attribute unreadable")
read_content Content.broken = throw (codes "attribute invalid or too large")
read_content (Content.holds text) =
    if leb 4097 (bytes_of text)
    then throw (codes "attribute invalid or too large")
    else pure (strip_end text)

-- `hasAttribute`
unfoldable pub known : Option Bool → S Bool
known none = throw (codes "attribute inaccessible")
known (some found) = pure found

-- what an enumeration or a canonical path throws, if it fails, is not told apart
unfoldable pub given : {A : Type 0} → Option A → S A
given none = throw (codes "filesystem error")
given (some a) = pure a

-- what follows a prefix of the text, if it has it
unfoldable pub after_prefix : Text → Text → Option Text
after_prefix [] text = some text
after_prefix (p ∷ ps) [] = none
after_prefix (p ∷ ps) (c ∷ cs) = let rest = after_prefix ps cs in if nat_beq p c then rest else none

abbrev pub starts_with : Text → Text → Bool
starts_with prefix text = elim (after_prefix prefix text) [ none ↦ false | some rest ↦ true ]

abbrev push : ℕ → Option Text → Option Text
push c none = none
push c (some text) = some (c ∷ text)
