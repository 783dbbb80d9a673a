-- ===== src/Services/Lifecycle/Stops.antt =====
-- Exceptions are contained, and the service is stopped once if it was started.
use meta_monutchee.Base.{
  ℕ, zero, suc, ◌+◌, Bool, true, false, ◌⊎◌, inl, inr, ◌≡◌, ◌∷◌, if◌then◌else◌, count_if, arith,
}
use meta_monutchee.Services.Registry.{Fault, Outcome, returned, threw, exhausted}
use meta_monutchee.Services.Lifecycle.{
  Act, Acts, Process, Program, lift, Wait, ServiceHealth, receive, reload_if, watch, round, handle,
  loop, open_service, serve, execute, ◌>>=◌, contain, leave, report_setup, after_start,
}
use meta_monutchee.Services.Lifecycle.Rules.{Keeps, keeps_rules}

abbrev is_stop : Act → Bool
is_stop Act.on_stop = true
is_stop _ = false

abbrev pub on_stops : Acts → ℕ
on_stops acts = count_if is_stop acts

module _ (program : Program) (n : ℕ) where
  abbrev Stopped : Acts → Type 0
  Stopped acts = on_stops acts ≡ n

  quiet : (act : Act) → is_stop act ≡ false → (acts : Acts) → Stopped acts → Stopped (act ∷ acts)
  quiet act q acts h = ground arith

  receive-Keeps : (signal : Wait) → Keeps Stopped (receive program signal)
  unfolding receive
  receive-Keeps Wait.interrupt = search keeps_rules
  receive-Keeps Wait.terminate = search keeps_rules
  receive-Keeps Wait.hangup = search keeps_rules
  receive-Keeps Wait.nothing = search keeps_rules
  receive-Keeps (Wait.wait_error text) = search keeps_rules

  reload_if-Keeps : (reload : Bool) → Keeps Stopped (reload_if program reload)
  unfolding reload_if
  reload_if-Keeps false = search keeps_rules
  reload_if-Keeps true = search (keeps_rules, quiet) depth 8

  watch-Keeps :
      (current : ServiceHealth) (result : ℕ) → Keeps Stopped (watch program current result)
  unfolding watch
  watch-Keeps current result = search (keeps_rules, quiet) depth 8

  round-Keeps : (result : ℕ) → Keeps Stopped (round program result)
  unfolding round handle
  round-Keeps result =
      search (keeps_rules, quiet, receive-Keeps, reload_if-Keeps, watch-Keeps) depth 12

  loop-Keeps : (fuel result : ℕ) → Keeps Stopped (loop program fuel result)
  unfolding loop
  loop-Keeps zero result = search keeps_rules
  loop-Keeps (suc fuel) result = search (keeps_rules, round-Keeps, loop-Keeps fuel) depth 8

  serve-Keeps : (fuel : ℕ) → Keeps Stopped (serve program fuel)
  unfolding serve open_service
  serve-Keeps fuel = search (keeps_rules, quiet, loop-Keeps) depth 12

-- The process has run the service, and begun its shutdown or not.
abbrev Contained : ℕ → Outcome ℕ × Process → Type 0
Contained n (returned code, p) = on_stops p.acts ≡ n
Contained n (threw e, p) = ⊥
Contained n (exhausted, p) = on_stops p.acts ≡ n

contain-Contained :
    (program : Program) (n : ℕ) (r : Outcome ℕ × Process)
    → on_stops r.1.acts ≡ n
    → Contained n (contain program (λ _. r) r.1)
contain-Contained program n (returned code, p) h = h
contain-Contained program n (threw e, p) h = omega (arith, h)
contain-Contained program n (exhausted, p) h = h

abbrev count_start : Bool → Fault ⊎ Unit {0} → ℕ
count_start true (inr tt) = 1
count_start _ _ = 0

-- `execute` and its calls of `on_stop`: a return, no exception, and a loop that has not ended
abbrev pub Leaves : ℕ → ℕ → Outcome ℕ × Process → Type 0
Leaves before started (returned code, p) = on_stops p.acts ≡ before + started
Leaves before started (threw e, p) = ⊥
Leaves before started (exhausted, p) = on_stops p.acts ≡ before

leave-Leaves :
    (program : Program) (n : ℕ) (started : Bool) (r : Outcome ℕ × Process)
    → Contained n r
    → Leaves n (if started then 1 else 0) (((λ _. r) >>= leave program started) r.1)
unfolding leave
leave-Leaves program n true (returned code, p) h = ground arith
leave-Leaves program n false (returned code, p) h = ground arith
leave-Leaves program n started (threw e, p) h = elim h [ ]
leave-Leaves program n started (exhausted, p) h = h

-- No exception leaves `execute`. When it returns, `on_stop` has been called exactly once if the
-- signals were blocked and `on_start` returned, and not at all otherwise; until then it has not been
-- called.
pub execute-Leaves :
    (program : Program) (fuel : ℕ) (p : Process)
    → Leaves
        (on_stops p.acts)
        (count_start program.blocks_signals (program.start p.acts))
        (execute program fuel p)
unfolding execute
execute-Leaves program fuel p = go program.blocks_signals (program.start p.acts)
  where
    go :
        (blocked : Bool) (r : Fault ⊎ Unit {0})
        → Leaves (on_stops p.acts) (count_start blocked r) (
            if blocked
            then after_start program fuel r (record p { acts = Act.on_start ∷ p.acts })
            else report_setup program p)
    go false r = omega arith
    go true (inl e) =
        leave-Leaves program (on_stops p.acts) false
          (contain program (lift (threw e)) (record p { acts = Act.on_start ∷ p.acts }))
          (contain-Contained program (on_stops p.acts)
            (threw e, record p { acts = Act.on_start ∷ p.acts }) (omega arith))
    go true (inr tt) =
        leave-Leaves program (on_stops p.acts) true
          (contain program (serve program fuel) (record p { acts = Act.on_start ∷ p.acts }))
          (contain-Contained program (on_stops p.acts)
            (serve program fuel (record p { acts = Act.on_start ∷ p.acts }))
            ((serve-Keeps program (on_stops p.acts) fuel).at _ (omega arith)))
