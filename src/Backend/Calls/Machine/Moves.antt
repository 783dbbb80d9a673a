-- ===== src/Backend/Calls/Machine/Moves.antt =====
-- The changes of the state that are steps of the machine.
use meta_monutchee.Base.{
  ℕ, String, Bool, true, false, ◌≡◌, refl, List, ◌==◌, string_eq, arith, if◌then◌else◌, subst, sym,
}
use meta_monutchee.System.{NetworkConfig, Configuration, NetworkProposal}
use meta_monutchee.Backend.State.{State, is_pending, set_transaction_state}
use meta_monutchee.Backend.Settle.{settled}
use meta_monutchee.Backend.Network.{new_pending, set_pending}
use meta_monutchee.Backend.Apply.{initialize}
use meta_monutchee.Backend.Calls.Exclusive.{IsStable}
use meta_monutchee.Backend.Calls.Machine.{
  Opened, closed, waiting, committing, View, Step, Steps, after, opened, view, phase_of, configure,
  begin, prepare, keep_waiting, revert_waiting, keep_committing, revert_committing,
}

-- all settings that the state holds have been asked for
pub record Known (may : List NetworkConfig → Type 0) (s : State) : Type 0 where
  pub in_force : may s.configuration.system.network
  pub candidate : may s.pending.transaction.network
  pub previous : may s.pending.previous

module _ (may : List NetworkConfig → Type 0) (v : View) where
  -- steps from a view to the state's
  abbrev pub Follows : State → Type 0
  Follows s = Steps may v (view s) × Known may s

  -- and no transaction is open there
  abbrev pub Rests : State → Type 0
  Rests s = Follows s × (is_pending s ≡ false)

  settle-Step :
      (commit pending committed : Bool) (o : Opened) (n : List NetworkConfig)
      → may (if commit then o.candidate else o.previous)
      → Step may
          (record { phase = phase_of pending committed o; network = n })
          (record { phase = closed; network = if commit then o.candidate else o.previous })
  settle-Step true true committed o n k = keep_waiting o n
  settle-Step false true committed o n k = revert_waiting o n
  settle-Step true false true o n k = keep_committing o n
  settle-Step false false true o n k = revert_committing o n
  settle-Step commit false false o n k = configure n _ k

  view-settled :
      (commit : Bool) (s : State)
      → view (settled commit s) ≡ record {
        phase = closed;
        network = if commit then s.pending.transaction.network else s.pending.previous;
      }
  view-settled true s = refl
  view-settled false s = refl

  chosen-Known :
      (commit : Bool) (s : State)
      → Known may s
      → may (if commit then s.pending.transaction.network else s.pending.previous)
  chosen-Known true s k = k.candidate
  chosen-Known false s k = k.previous

  pub settled-Follows : (commit : Bool) (s : State) → Follows s → Follows (settled commit s)
  settled-Follows commit s (h, k) =
      let side = chosen-Known commit s k in
      (
        after (view s) (view (settled commit s)) h (
            subst (Step may (view s)) (sym (view-settled commit s)) (
              settle-Step commit (s.pending.transaction.state == "pending")
                (s.pending.transaction.state == "committing") (opened s.pending)
                s.configuration.system.network side)),
        record { in_force = side; candidate = k.candidate; previous = k.previous },
      )

  pub Follows-IsStable : IsStable Follows
  Follows-IsStable = record {
    settles = settled-Follows;
    dispatches = λ s h. (
      h.0,
      record { in_force = h.1.in_force; candidate = h.1.candidate; previous = h.1.previous },
    );
    fails = λ s h. (
      h.0,
      record { in_force = h.1.in_force; candidate = h.1.candidate; previous = h.1.previous },
    );
  }

  pub Rests-Follows : (s : State) → Rests s → Follows s
  Rests-Follows s h = h.0

  -- at rest the settings may change
  rest_phase : (s : State) → is_pending s ≡ false → (view s).phase ≡ closed
  rest_phase s h = ground arith

  configure-Step :
      (s : State) (n : List NetworkConfig)
      → is_pending s ≡ false
      → may n
      → Step may (view s) (record { phase = (view s).phase; network = n })
  configure-Step s n h k =
      subst
        (λ q.
          Step may (record { phase = q; network = s.configuration.system.network })
            (record { phase = q; network = n }))
        (sym (rest_phase s h)) (configure _ n k)

  pub initialize-Follows :
      (c : Configuration) (s : State) → may c.system.network → Rests s → Follows (initialize c s)
  initialize-Follows c s asked h = (
    after (view s) _ h.0.0 (configure-Step s c.system.network h.1 asked),
    record { in_force = asked; candidate = h.0.1.candidate; previous = h.0.1.previous },
  )

  -- a transaction that notes the settings in force
  pub begun-Follows :
      (p : NetworkProposal) (s : State) (id : String) (now : ℕ) (actor request : String)
      → may p.network
      → Rests s
      → Follows (set_pending (new_pending p s id now actor request) s)
  begun-Follows p s id now actor request asked h =
      let made = new_pending p s id now actor request in
      (
        after (view s) _ h.0.0 (
            subst
              (λ q.
                Step may (record { phase = q; network = s.configuration.system.network })
                  (record {
                    phase = waiting (opened made);
                    network = s.configuration.system.network;
                  }))
              (sym (rest_phase s h.1)) (begin (opened made) asked)),
        record { in_force = h.0.1.in_force; candidate = asked; previous = h.0.1.in_force },
      )

  -- a transaction that waits may be prepared
  pub prepared-Follows :
      (s : State)
      → Follows s
      → (s.pending.transaction.state == "pending") ≡ true
      → Follows (set_transaction_state "committing" s)
  prepared-Follows s h waits = (
    after (view s) _ h.0 (
        subst
          (λ t.
            Step may
              (record {
                phase = phase_of t (s.pending.transaction.state == "committing") (opened s.pending);
                network = s.configuration.system.network;
              })
              (record {
                phase = committing (opened s.pending);
                network = s.configuration.system.network;
              }))
          (sym waits) (prepare (opened s.pending) s.configuration.system.network)),
    record { in_force = h.1.in_force; candidate = h.1.candidate; previous = h.1.previous },
  )
