-- ===== src/Platform/Unit.antt =====
-- `unit` of daemon/backend.cpp: a unit is started or stopped, and its state polled.
pub mod Settled
use Prim.Native.String.{◌++◌ as append}
use meta_monutchee.Base.{
  ℕ, zero, suc, ◌+◌, ltb, String, Bool, true, false, not, ◌&&◌, ◌||◌, ◌==◌, string_eq, Option, none,
  some, if◌then◌else◌,
}
use meta_monutchee.System.{Result, ok, err, ErrorCode}
use meta_monutchee.Platform.System.{
  Act, Acts, Answers, N, pure, throw, running, ask, observe, when, ◌>>=◌, ◌>>◌,
}

-- the state that the caller wants
abbrev pub is_reached : Bool → String → Bool
is_reached start state =
    start && state == "active" || not start && (state == "inactive" || state == "failed")

module _ (answers : Answers) where
  abbrev pub unit_state : String → N String
  unit_state name = ask (Act.read_state name) (λ acts. answers.unit_state acts name)

  abbrev pub read_clock : N ℕ
  read_clock = observe Act.read_clock answers.now

  abbrev pub sleep : N (Unit {0})
  sleep = observe Act.slept (λ acts. tt)

  -- what follows a state that was read, with the next round of the loop
  unfoldable pub judge : String → Bool → ℕ → N (Unit {0}) → String → N (Unit {0})
  judge name start deadline again state =
      if is_reached start state
      then pure tt
      else if start && state == "failed"
      then throw ErrorCode.apply_failed (append "unit failed: " name)
      else sleep >> read_clock >>= λ now.
          if ltb now deadline
          then again
          else throw ErrorCode.timeout (append "unit transition timed out: " name)

  -- the `do` loop, as often as the fuel
  unfoldable pub poll : ℕ → String → Bool → ℕ → N (Unit {0})
  unfolding judge
  poll zero name start deadline = running
  poll (suc fuel) name start deadline =
      unit_state name >>= judge name start deadline (poll fuel name start deadline)

  -- a job that is submitted, and the wait for its end
  unfoldable pub submit : ℕ → String → Bool → N (Unit {0})
  unfolding poll
  submit fuel name start = do
    ask (Act.submit_job name start) (λ acts. answers.unit_job acts name start)
    now ← read_clock
    poll fuel name start (now + 10000)

  unfoldable pub switch_unit : ℕ → String → Bool → N (Unit {0})
  unfolding submit
  switch_unit fuel name start = do
    state ← unit_state name
    if is_reached start state then pure tt else submit fuel name start
