-- ===== src/Sysmon/Channels.antt =====
-- The channels of a device: `channelKind`, and the first loop of `sampleDevice`.
use meta_monutchee.Base.{
  ◌&&◌, not, Option, none, some, List, [], ◌∷◌, ◌++◌, codes, ltb, ◌==◌, list_eq, nat_eq, is_empty,
  all, is_digit, length, if◌then◌else◌, codes_leb,
}
use meta_monutchee.Sysmon.World.{Text, after_prefix}

pub data Kind : Type 0 where
  voltage temp : Kind

abbrev pub kind_name : Kind → Text
kind_name Kind.voltage = codes "voltage"
kind_name Kind.temp = codes "temp"

-- the kind, if the channel is `in_`, the kind and a number
abbrev numbered : Kind → Option Text → Option Kind
numbered kind none = none
numbered kind (some index) = if not (is_empty index) && all is_digit index then some kind else none

abbrev of_kind : Kind → Text → Option Kind
of_kind kind channel = numbered kind (after_prefix (codes "in_" ++ kind_name kind) channel)

abbrev or_else : Option Kind → Option Kind → Option Kind
or_else (some kind) other = some kind
or_else none other = other

-- `channelKind`, `none` where it is empty
unfoldable pub channel_kind : Text → Option Kind
unfolding after_prefix
channel_kind channel = or_else (of_kind Kind.voltage channel) (of_kind Kind.temp channel)

-- the text before a suffix, if it has it
unfoldable pub before_suffix : Text → Text → Option Text
before_suffix suffix [] = if is_empty suffix then some [] else none
before_suffix suffix (c ∷ cs) =
    let rest = before_suffix suffix cs in
    if c ∷ cs == suffix then some [] else elim rest [ none ↦ none | some text ↦ some (c ∷ text) ]

pub record Channel : Type 0 where
  pub channel : Text
  pub kind : Kind

-- `channels.emplace` into a map, which is ordered by the channels and keeps what it has
unfoldable pub emplace : Text → Kind → List Channel → List Channel
emplace base kind [] = record { channel = base; kind = kind } ∷ []
emplace base kind (c ∷ cs) =
    let later = emplace base kind cs in
    if c.channel == base
    then c ∷ cs
    else if codes_leb base c.channel
    then record { channel = base; kind = kind } ∷ (c ∷ cs)
    else c ∷ later

abbrev emplace_base : Option Text → List Channel → List Channel
emplace_base none cs = cs
emplace_base (some base) cs = elim (channel_kind base) [
  | none ↦ cs
  | some kind ↦ emplace base kind cs
]

-- a file of the directory, tried with each suffix
unfoldable pub add_file : Text → List Channel → List Channel
unfolding emplace channel_kind before_suffix
add_file name cs = emplace_base (before_suffix (codes "_label") name) (
    emplace_base (before_suffix (codes "_input") name)
      (emplace_base (before_suffix (codes "_raw") name) cs))

-- the loop over the directory: `none` where there are too many channels
unfoldable pub add_files : List Text → List Channel → Option (List Channel)
unfolding add_file
add_files [] cs = some cs
add_files (name ∷ names) cs =
    let rest = add_files names (add_file name cs) in
    if ltb 256 (length (add_file name cs)) then none else rest
