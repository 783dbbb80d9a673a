-- ===== src/Services/Lifecycle/Ends.antt =====
-- A service that is asked to stop after so many waits at most ends.
use meta_monutchee.Base.{
  ℕ, zero, suc, ◌+◌, ◌≤◌, Bool, Bool-cases, true, false, ◌||◌, ◌⊎◌, inl, inr, ◌≡◌, ◌≢◌, refl, ◌∷◌,
  if◌then◌else◌, count_if, arith,
}
use meta_monutchee.Services.Registry.{Fault, Outcome, returned, threw, exhausted, answered}
use meta_monutchee.Services.Lifecycle.{
  Act, Acts, Process, Program, S, pure, lift, ask, perform, request_stop, request_reload,
  take_reload, Wait, ServiceHealth, receive, reload_if, watch, round, handle, open_service, loop,
  serve, execute, ◌>>=◌, contain, leave, after_start, report_setup,
}

abbrev is_wait : Act → Bool
is_wait Act.waited = true
is_wait _ = false

-- the rounds of the loop so far
abbrev pub waits : Acts → ℕ
waits acts = count_if is_wait acts

abbrev Reaches : {A : Type 0} → ℕ → Outcome A × Process → Type 0
Reaches k (returned a, p) = k ≤ waits p.acts
Reaches k (threw e, p) = Unit
Reaches k (exhausted, p) = ⊥

-- the call ends, by a return or an exception
abbrev pub IsOver : {A : Type 0} → Outcome A × Process → Type 0
IsOver r = r.0 ≢ exhausted

-- after `k` waits the part ends, and if it returns, there have been `k` waits still
record Lasts {A : Type 0} (k : ℕ) (u : S A) : Type 0 where
  at : (p : Process) → k ≤ waits p.acts → Reaches k (u p)

module _ {A : Type 0} {k : ℕ} where
  Lasts-pure : (a : A) → Lasts k (pure a)
  Lasts-pure a = record { at = λ p h. h }

  Lasts-throw : (e : Fault) → Lasts k (lift {A = A} (threw e))
  Lasts-throw e = record { at = λ p h. tt }

  Lasts-if : (t : Bool) (u v : S A) → Lasts k u → Lasts k v → Lasts k (if t then u else v)
  Lasts-if true u v ku kv = ku
  Lasts-if false u v ku kv = kv

  Lasts-ask : (act : Act) (answer : Acts → Fault ⊎ A) → Lasts k (ask act answer)
  Lasts-ask act answer = record { at = λ p h. go p (answer p.acts) h }
    where
      go :
          (p : Process) (r : Fault ⊎ A)
          → k ≤ waits p.acts
          → Reaches k (answered r, record p { acts = act ∷ p.acts })
      go p (inl e) h = tt
      go p (inr a) h = ground arith

module _ {A B : Type 0} {k : ℕ} where
  Lasts-bind : (u : S A) (f : A → S B) → Lasts k u → ((a : A) → Lasts k (f a)) → Lasts k (u >>= f)
  Lasts-bind u f ku kf = record { at = λ p h. go (u p) (ku.at p h) }
    where
      go :
          (r : Outcome A × Process)
          → Reaches k r
          → Reaches k (elim (r.0) as (λ _. Outcome B × Process) [
            | returned a ↦ f a r.1
            | threw e ↦ (threw e, r.1)
            | exhausted ↦ (exhausted, r.1)
          ])
      go (returned a, p) h = (kf a).at p h
      go (threw e, p) h = h
      go (exhausted, p) h = h

module _ {k : ℕ} where
  Lasts-perform : (act : Act) → Lasts k (perform act)
  Lasts-perform act = record { at = λ p h. ground arith }

  Lasts-request_stop : Lasts k request_stop
  Lasts-request_stop = record { at = λ p h. h }

  Lasts-request_reload : Lasts k request_reload
  Lasts-request_reload = record { at = λ p h. h }

  Lasts-take_reload : (program : Program) → Lasts k (take_reload program)
  Lasts-take_reload program = record { at = λ p h. h }

ruleset lasts_rules = (
  Lasts-pure, Lasts-throw, Lasts-if, Lasts-ask, Lasts-bind, Lasts-perform, Lasts-request_stop,
  Lasts-request_reload, Lasts-take_reload,
)

module _ (program : Program) where
  receive-Lasts : {k : ℕ} (signal : Wait) → Lasts k (receive program signal)
  unfolding receive
  receive-Lasts Wait.interrupt = search lasts_rules
  receive-Lasts Wait.terminate = search lasts_rules
  receive-Lasts Wait.hangup = search lasts_rules
  receive-Lasts Wait.nothing = search lasts_rules
  receive-Lasts (Wait.wait_error text) = search lasts_rules

  reload_if-Lasts : {k : ℕ} (reload : Bool) → Lasts k (reload_if program reload)
  unfolding reload_if
  reload_if-Lasts false = search lasts_rules
  reload_if-Lasts true = search lasts_rules depth 8

  watch-Lasts :
      {k : ℕ} (current : ServiceHealth) (result : ℕ) → Lasts k (watch program current result)
  unfolding watch
  watch-Lasts current result = search lasts_rules depth 8

  handle-Lasts : {k : ℕ} (result : ℕ) (signal : Wait) → Lasts k (handle program result signal)
  unfolding handle
  handle-Lasts result signal =
      search (lasts_rules, receive-Lasts, reload_if-Lasts, watch-Lasts) depth 12

  -- a round waits once
  round-Reaches :
      (k result : ℕ) (p : Process) → k ≤ waits p.acts → Reaches (suc k) (round program result p)
  unfolding round
  round-Reaches k result p h =
      (handle-Lasts {k = suc k} result (program.wait p.acts)).at
        (record p { acts = Act.waited ∷ p.acts }) (omega arith)

  -- asked to stop after at most `n` waits
  module _ (n : ℕ) (asked : (acts : Acts) → n ≤ waits acts → program.asks_stop acts ≡ true) where
    round-IsOver :
        (k : ℕ) (f : ℕ → S ℕ) (r : Outcome ℕ × Process)
        → Reaches k r
        → ((result : ℕ) (p : Process) → k ≤ waits p.acts → IsOver (f result p))
        → IsOver (((λ _. r) >>= f) r.1)
    round-IsOver k f (returned a, p) h rest = rest a p h
    round-IsOver k f (threw e, p) h rest = λ q. absurd (cc)
    round-IsOver k f (exhausted, p) h rest = absurd h

    loop-IsOver :
        (m result : ℕ) (p : Process) → n ≤ m + waits p.acts → IsOver (loop program (suc m) result p)
    unfolding loop
    loop-IsOver zero result p h = let stop = asked p.acts (omega (arith, h)) in ground (arith, stop)
    loop-IsOver (suc m) result p h =
        elim (Bool-cases (p.stop_requested || program.asks_stop p.acts)) [
          | inl stop ↦ rw stop (λ q. absurd (cc))
          | inr going ↦ rw going (
              let waiting = record p { stop_requested = false } in
              round-IsOver (suc (waits p.acts)) (loop program (suc m))
                (round program result waiting)
                (round-Reaches (waits p.acts) result waiting (omega arith))
                (λ result' p' h'. loop-IsOver m result' p' (omega (arith, h, h'))))
        ]

    serve-IsOver : (p : Process) → IsOver (serve program (suc n) p)
    unfolding serve
    serve-IsOver p = go (program.health p.acts)
      where
        go :
            (r : Fault ⊎ ServiceHealth)
            → IsOver (
                ((λ p'. (answered r, record p' { acts = Act.asked_health ∷ p'.acts }))
                    >>= open_service program (suc n))
                  p)
        go (inl e) = λ q. absurd (cc)
        go (inr initial) = loop-IsOver n 0 _ (omega arith)

    contain-IsOver :
        (started : Bool) (r : Outcome ℕ × Process)
        → IsOver r
        → IsOver ((contain program (λ _. r) >>= leave program started) r.1)
    unfolding leave
    contain-IsOver true (returned code, p) h = λ q. absurd (cc)
    contain-IsOver false (returned code, p) h = λ q. absurd (cc)
    contain-IsOver true (threw e, p) h = λ q. absurd (cc)
    contain-IsOver false (threw e, p) h = λ q. absurd (cc)
    contain-IsOver started (exhausted, p) h = absurd (h refl)

    -- If the service is asked to stop whenever there have been `n` waits, then `execute` returns, with
    -- fuel for `n + 1` rounds.
    pub execute-IsOver : (p : Process) → IsOver (execute program (suc n) p)
    unfolding execute
    execute-IsOver p = go program.blocks_signals (program.start p.acts)
      where
        started : Process
        started = record p { acts = Act.on_start ∷ p.acts }

        go :
            (blocked : Bool) (r : Fault ⊎ Unit {0})
            → IsOver
                (if blocked then after_start program (suc n) r started else report_setup program p)
        go false r = λ q. absurd (cc)
        go true (inl e) = contain-IsOver false (threw e, started) (λ q. absurd (cc))
        go true (inr tt) =
            contain-IsOver true (serve program (suc n) started) (serve-IsOver started)
