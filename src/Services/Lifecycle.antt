-- ===== src/Services/Lifecycle.antt =====
-- `Service::execute` of common/mnc/service/service.cpp, over the history of what the process does.
-- `Program` is what the derived class, the signals and the other threads do.
mod Rules
pub mod Stops
pub mod Ends
use Prim.Native.String.{◌++◌ as append}
use meta_monutchee.Base.{
  ℕ, zero, suc, String, Bool, true, false, not, ◌||◌, ◌⊎◌, inl, inr, List, [], ◌∷◌, if◌then◌else◌,
}
use meta_monutchee.Logging.Priority.{Priority, critical, notice}
use meta_monutchee.Services.Registry.{Fault, Outcome, returned, threw, exhausted, answered}

pub record ServiceHealth : Type 0 where
  pub healthy : Bool
  pub summary : String

-- what `sigtimedwait` returns: a signal, none in time (`EAGAIN`, `EINTR`), or another error
pub data Wait : Type 0 where
  interrupt terminate hangup nothing : Wait
  wait_error : String → Wait

pub data Act : Type 0 where
  on_start on_reload on_stop asked_health waited : Act
  notified : String → Act
  logged : Priority → String → String → Act

-- the acts so far, newest first
abbrev pub Acts : Type 0
Acts = List Act

pub record Program : Type 0 where
  pub name : String
  -- `pthread_sigmask` succeeds
  pub blocks_signals : Bool
  pub start : Acts → Fault ⊎ Unit {0}
  pub reload : Acts → Fault ⊎ Unit {0}
  pub health : Acts → Fault ⊎ ServiceHealth
  pub wait : Acts → Wait
  -- `request_stop` and `request_reload` have been called by another thread or by the derived class
  pub asks_stop : Acts → Bool
  pub asks_reload : Acts → Bool

-- the flags, and the history
pub record Process : Type 0 where
  pub stop_requested : Bool
  pub reload_requested : Bool
  pub acts : Acts

abbrev pub S : Type 0 → Type 0
S A = Process → Outcome A × Process

module _ {A : Type 0} where
  abbrev pub pure : A → S A
  pure a p = (returned a, p)

  abbrev pub lift : Outcome A → S A
  lift r p = (r, p)

module _ {A B : Type 0} where
  infixl 5 ◌>>=◌
  abbrev pub ◌>>=◌ : S A → (A → S B) → S B
  (u >>= f) p =
      let r = u p in
      elim (r.0) as (λ _. Outcome B × Process) [
        | returned a ↦ f a r.1
        | threw e ↦ (threw e, r.1)
        | exhausted ↦ (exhausted, r.1)
      ]

  infixl 5 ◌>>◌
  abbrev pub ◌>>◌ : S A → S B → S B
  u >> v = u >>= λ _. v

abbrev pub perform : Act → S (Unit {0})
perform act p = (returned tt, record p { acts = act ∷ p.acts })

-- an act whose answer depends on the acts before
abbrev pub ask : {A : Type 0} → Act → (Acts → Fault ⊎ A) → S A
ask act answer p = (answered (answer p.acts), record p { acts = act ∷ p.acts })

abbrev pub request_stop : S (Unit {0})
request_stop p = (returned tt, record p { stop_requested = true })

abbrev pub request_reload : S (Unit {0})
request_reload p = (returned tt, record p { reload_requested = true })

module _ (program : Program) where
  abbrev pub stop_requested : S Bool
  stop_requested p =
      let stop = p.stop_requested || program.asks_stop p.acts in
      (returned stop, record p { stop_requested = stop })

  -- `reload_requested_.exchange(false)`
  abbrev pub take_reload : S Bool
  take_reload p = (
    returned (p.reload_requested || program.asks_reload p.acts),
    record p { reload_requested = false },
  )

  unfoldable pub receive : Wait → S (Unit {0})
  receive (Wait.wait_error text) =
      lift (threw (Fault.runtime_error (append "sigtimedwait failed: " text)))
  receive Wait.interrupt = request_stop
  receive Wait.terminate = request_stop
  receive Wait.hangup = request_reload
  receive Wait.nothing = pure tt

  unfoldable pub reload_if : Bool → S (Unit {0})
  reload_if false = pure tt
  reload_if true = do
    ask Act.on_reload program.reload
    perform (Act.logged notice (append program.name " reloaded") "service_reloaded")

  -- the result of the service so far, after a look at its health
  unfoldable pub watch : ServiceHealth → ℕ → S ℕ
  watch current result =
      if current.healthy
      then perform (Act.notified (append "WATCHDOG=1\nSTATUS=" current.summary)) >> pure result
      else request_stop >> pure 1

  -- one round of the loop, behind the wait and from it on
  unfoldable pub handle : ℕ → Wait → S ℕ
  unfolding receive reload_if watch
  handle result signal = do
    receive signal
    reload ← take_reload
    reload_if reload
    current ← ask Act.asked_health program.health
    watch current result

  unfoldable pub round : ℕ → S ℕ
  unfolding handle
  round result = ask Act.waited (λ acts. inr (program.wait acts)) >>= handle result

  -- `while (!stop_requested())`, as often as the fuel
  unfoldable pub loop : ℕ → ℕ → S ℕ
  unfolding round
  loop zero result = lift exhausted
  loop (suc fuel) result = do
    stop ← stop_requested
    if stop then pure result else round result >>= loop fuel

  -- the `try` block behind `on_start`, behind the first look at the health and from it on
  unfoldable pub open_service : ℕ → ServiceHealth → S ℕ
  unfolding loop
  open_service fuel initial = do
    perform (Act.notified (append "READY=1\nSTATUS=" initial.summary))
    perform (Act.logged notice (append program.name " is ready") "service_ready")
    loop fuel 0

  unfoldable pub serve : ℕ → S ℕ
  unfolding open_service
  serve fuel = ask Act.asked_health program.health >>= open_service fuel

  -- the handlers: the result is 1
  unfoldable pub failure_text : Fault → String
  failure_text (Fault.invalid_argument what) = append program.name (append " failed: " what)
  failure_text (Fault.runtime_error what) = append program.name (append " failed: " what)
  failure_text Fault.unknown = append program.name " failed with an unknown exception"

  abbrev pub log_failure : Fault → S ℕ
  log_failure e = do perform (Act.logged critical (failure_text e) "service_failed"); pure 1

  abbrev pub contain : S ℕ → S ℕ
  contain u p =
      let r = u p in
      elim (r.0) as (λ _. Outcome ℕ × Process) [
        | returned a ↦ (returned a, r.1)
        | threw e ↦ log_failure e r.1
        | exhausted ↦ (exhausted, r.1)
      ]

  abbrev pub stop_if : Bool → S (Unit {0})
  stop_if started = if started then perform Act.on_stop else pure tt

  -- what follows the `try` statement
  unfoldable pub leave : Bool → ℕ → S ℕ
  leave started result = do
    perform (Act.notified (append "STOPPING=1\nSTATUS=" (append program.name " is stopping")))
    stop_if started
    perform (Act.logged notice (append program.name " stopped") "service_stopped")
    pure result

  abbrev pub after_start : ℕ → Fault ⊎ Unit {0} → S ℕ
  after_start fuel (inl e) = contain (lift (threw e)) >>= leave false
  after_start fuel (inr tt) = contain (serve fuel) >>= leave true

  abbrev pub report_setup : S ℕ
  report_setup = do
    perform (Act.logged critical "failed to block lifecycle signals" "signal_setup_failed")
    pure 1

  unfoldable pub execute : ℕ → S ℕ
  unfolding serve leave
  execute fuel p =
      if program.blocks_signals
      then after_start fuel (program.start p.acts) (record p { acts = Act.on_start ∷ p.acts })
      else report_setup p
