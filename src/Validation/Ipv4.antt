-- ===== src/Validation/Ipv4.antt =====
-- `ipv4` of validation.cpp: a dotted decimal unicast address as a 32-bit number.
pub mod Bounds
use meta_monutchee.Base.{
  ℕ, zero, suc, ◌+◌, ◌*◌, ◌%◌, ◌/◌, ◌^◌, Bool, false, ◌&&◌, ◌||◌, not, Option, none, some, List,
  String, ltb, leb, nat_beq, if◌then◌else◌, codes, front_is, is_empty, length,
}
use meta_monutchee.System.{Result, ok, ◌>>=◌, ◌>>◌, check}
use meta_monutchee.Validation.Number.{from_chars, split_at}

-- One part of the address: no sign, no leading zero, at most 255. `none` where the `check` fails.
unfoldable pub octet : List ℕ → Option ℕ
unfolding from_chars
octet part =
    if not (is_empty part) && (nat_beq (length part) 1 || not (front_is b'0' part))
    then (elim (from_chars 10 part) [ none ↦ none | some n ↦ if leb n 255 then some n else none ])
    else none

abbrev pub or_invalid : Option ℕ → Result ℕ
or_invalid none = check false "invalid IPv4 address" >>= λ _. ok 0
or_invalid (some n) = ok n

-- The rounds of the loop that are left, with `result` so far. The low eight bits of `result << 8` are
-- zero and the part is at most 255, so `|` is `+`. There is a dot in every round but the last.
unfoldable pub ipv4_rounds : ℕ → List ℕ → ℕ → Result ℕ
unfolding octet split_at
ipv4_rounds zero rest result = ok result
ipv4_rounds (suc zero) rest result = do
  let (part, after) = split_at b'.' rest
  n ← or_invalid (octet part)
  elim after [
    | none ↦ ok ((result * 256) % 2 ^ 32 + n)
    | some _ ↦ check false "invalid IPv4 address" >>= λ _. ok 0
  ]
ipv4_rounds (suc (suc k)) rest result = do
  let (part, after) = split_at b'.' rest
  n ← or_invalid (octet part)
  elim after [
    | none ↦ check false "invalid IPv4 address" >>= λ _. ok 0
    | some rest' ↦ ipv4_rounds (suc k) rest' ((result * 256) % 2 ^ 32 + n)
  ]

-- The first octet of a unicast address.
unfoldable pub is_unicast : ℕ → Bool
is_unicast result =
    not (nat_beq (result / 2 ^ 24) 0)
    && ltb (result / 2 ^ 24) 224
    && not (nat_beq (result / 2 ^ 24) 127)

unfoldable pub ipv4 : String → Result ℕ
unfolding ipv4_rounds is_unicast
ipv4 text = do
  result ← ipv4_rounds 4 (codes text) 0
  check (is_unicast result) "IPv4 must be a unicast address"
  ok result
