-- ===== src/Platform/System.antt =====
-- What the platform asks systemd, the kernel and the file system for, and methods over their answers.
use meta_monutchee.Base.{ℕ, ◌≡◌, refl, String, Bool, true, false, List, ◌∷◌, Option}
use meta_monutchee.Clock.Ptp.{NetEntry, TimestampCapabilities}
use meta_monutchee.System.{Result, ok, err, SystemError, ErrorCode}

pub data Act : Type 0 where
  -- `unitState` of a unit, and a submitted job that starts or stops it
  read_state : String → Act
  submit_job : String → Bool → Act
  -- `steady_clock::now`, and a sleep of 50 milliseconds
  read_clock slept : Act
  read_file : String → Act
  write_file : String → String → Act
  remove_file : String → Act
  -- facts of the kernel and of the file system
  look : String → Act
  -- directories, permissions, symbolic links and renames
  change_file : String → String → Act
  -- another method of a service on the bus, with its text arguments
  call_method : String → List String → Act

-- newest first
abbrev pub Acts : Type 0
Acts = List Act

-- the answers, which may depend on all that was asked before
pub record Answers : Type 0 where
  pub unit_state : Acts → String → Result String
  pub unit_job : Acts → String → Bool → Result (Unit {0})
  pub now : Acts → ℕ
  -- the content of a file, `none` where there is no file
  pub file : Acts → String → Result (Option String)
  pub write : Acts → String → String → Result (Unit {0})
  pub remove : Acts → String → Result (Unit {0})
  pub change : Acts → String → String → Result (Unit {0})
  pub method_call : Acts → String → List String → Result (Unit {0})
  -- `randomId`, `fs::is_regular_file`, `if_nametoindex` of an interface (0 if there is none), whether it
  -- has a device tree node, and the last component of what the node's link leads to
  pub random_id : Acts → String
  pub is_regular_file : Acts → String → Bool
  pub index : Acts → String → ℕ
  pub has_node : Acts → String → Bool
  pub node : Acts → String → Result String
  -- the interfaces of the kernel, and the installed timezones
  pub entries : Acts → List NetEntry
  pub capabilities : Acts → String → TimestampCapabilities
  pub timezones : Acts → Result (List String)
  -- `fs::path::filename`
  pub filename : String → String

-- how a method ends: `cut_off` is a loop that the fuel cuts off, which the source does not do
pub data Ended (A : Type 0) : Type 0 where
  returned : A → Ended A
  threw : SystemError → Ended A
  cut_off : Ended A

abbrev pub N : Type 0 → Type 0
N A = Acts → Ended A × Acts

module _ {A : Type 0} where
  abbrev pub ended : Result A → Ended A
  ended (ok a) = returned a
  ended (err e) = threw e

  abbrev pub pure : A → N A
  pure a acts = (returned a, acts)

  abbrev pub throw : ErrorCode → String → N A
  throw code message acts = (threw (record { code = code; message = message }), acts)

  abbrev pub lift : Result A → N A
  lift r acts = (ended r, acts)

  abbrev pub running : N A
  running acts = (cut_off, acts)

  abbrev pub ask : Act → (Acts → Result A) → N A
  ask act answer acts = (ended (answer acts), act ∷ acts)

  -- what cannot fail
  abbrev pub observe : Act → (Acts → A) → N A
  observe act answer acts = (returned (answer acts), act ∷ acts)

module _ {A B : Type 0} where
  infixl 5 ◌>>=◌
  abbrev pub ◌>>=◌ : N A → (A → N B) → N B
  (m >>= f) acts =
      let r = m acts in
      elim (r.0) as (λ _. Ended B × Acts) [
        | returned a ↦ f a r.1
        | threw e ↦ (threw e, r.1)
        | cut_off ↦ (cut_off, r.1)
      ]

  infixl 5 ◌>>◌
  abbrev pub ◌>>◌ : N A → N B → N B
  m >> n = m >>= λ _. n

abbrev pub when : Bool → N (Unit {0}) → N (Unit {0})
when true m = m
when false m = pure tt

-- A call whose answer may be an error, by its two answers.
pub ask-elim :
    {A B : Type 0} (Q : Ended B × Acts → Type 0) (act : Act) (answer : Acts → Result A)
    (f : A → N B) (acts : Acts)
    → ((a : A) → answer acts ≡ ok a → Q (f a (act ∷ acts)))
    → ((e : SystemError) → answer acts ≡ err e → Q (threw e, act ∷ acts))
    → Q ((ask act answer >>= f) acts)
ask-elim {A} {B} Q act answer f acts good bad = go (answer acts) good bad
  where
    go :
        (r : Result A)
        → ((a : A) → r ≡ ok a → Q (f a (act ∷ acts)))
        → ((e : SystemError) → r ≡ err e → Q (threw e, act ∷ acts))
        → Q (elim (ended r) as (λ _. Ended B × Acts) [
          | returned a ↦ f a (act ∷ acts)
          | threw e ↦ (threw e, act ∷ acts)
          | cut_off ↦ (cut_off, act ∷ acts)
        ])
    go (ok a) good bad = good a refl
    go (err e) good bad = bad e refl
