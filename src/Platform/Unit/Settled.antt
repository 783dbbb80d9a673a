-- ===== src/Platform/Unit/Settled.antt =====
-- What is known of a unit when `unit` returns or throws, and that the polling ends.
use meta_monutchee.Base.{
  ℕ, zero, suc, ◌+◌, ◌≤◌, ltb, String, Bool, Bool-cases, true, false, ◌&&◌, ◌≡◌, refl, ◌==◌,
  string_eq, [], ◌∷◌, inl, inr, arith, if◌then◌else◌, count_if,
}
use meta_monutchee.System.{ok}
use meta_monutchee.Platform.System.{
  Act, Acts, Answers, N, Ended, returned, threw, cut_off, ask-elim, pure, ◌>>=◌,
}
use meta_monutchee.Platform.Unit.{is_reached, judge, poll, submit, switch_unit, read_clock}

abbrev is_sleep : Act → Bool
is_sleep Act.slept = true
is_sleep _ = false

abbrev pub sleeps : Acts → ℕ
sleeps acts = count_if is_sleep acts

-- the call returns or throws
abbrev pub IsOver : Ended (Unit {0}) × Acts → Type 0
IsOver (returned _, acts) = Unit
IsOver (threw _, acts) = Unit
IsOver (cut_off, acts) = ⊥

module _ (answers : Answers) (name : String) (start : Bool) where
  -- the state was read last, and it is the one wanted
  abbrev pub IsSeen : Acts → Type 0
  IsSeen [] = ⊥
  IsSeen (act ∷ acts) =
      (act ≡ Act.read_state name)
      × ((state : String) × (answers.unit_state acts name ≡ ok state)
          × (is_reached start state ≡ true))

  abbrev pub Polled : Ended (Unit {0}) × Acts → Type 0
  Polled (returned _, acts) = IsSeen acts
  Polled _ = Unit

  Polled-if :
      (t : Bool) (u v : N (Unit {0})) (acts : Acts)
      → Polled (u acts)
      → Polled (v acts)
      → Polled ((if t then u else v) acts)
  Polled-if true u v acts hu hv = hu
  Polled-if false u v acts hu hv = hv

  judge-Polled :
      (deadline : ℕ) (again : N (Unit {0})) (state : String) (acts : Acts)
      → answers.unit_state acts name ≡ ok state
      → ((acts : Acts) → Polled (again acts))
      → Polled (judge answers name start deadline again state (Act.read_state name ∷ acts))
  unfolding judge
  judge-Polled deadline again state acts q k = elim (Bool-cases (is_reached start state)) [
    | inl reached ↦ rw reached ((refl, (state, q, reached)))
    | inr other ↦ rw other (
        Polled-if (start && state == "failed") _ _ (Act.read_state name ∷ acts) tt
          (Polled-if (ltb _ deadline) again _ _ (k _) tt))
  ]

  pub poll-Polled :
      (fuel deadline : ℕ) (acts : Acts) → Polled (poll answers fuel name start deadline acts)
  unfolding poll
  poll-Polled zero deadline acts = tt
  poll-Polled (suc fuel) deadline acts =
      ask-elim Polled (Act.read_state name) (λ acts. answers.unit_state acts name)
        (judge answers name start deadline (poll answers fuel name start deadline)) acts
        (λ state q.
          judge-Polled deadline (poll answers fuel name start deadline) state acts q
            (poll-Polled fuel deadline))
        (λ e q. tt)

  submit-Polled : (fuel : ℕ) (acts : Acts) → Polled (submit answers fuel name start acts)
  unfolding submit
  submit-Polled fuel acts =
      ask-elim Polled (Act.submit_job name start) (λ acts. answers.unit_job acts name start)
        (λ _. read_clock answers >>= λ now. poll answers fuel name start (now + 10000)) acts
        (λ done q.
          poll-Polled fuel (answers.now (Act.submit_job name start ∷ acts) + 10000)
            (Act.read_clock ∷ (Act.submit_job name start ∷ acts)))
        (λ e q. tt)

  -- When `unit` returns, the last thing that was asked for is the state of the unit, and the answer was
  -- the state that the caller wants: "active" to start, "inactive" or "failed" to stop.
  pub switch_unit-Polled :
      (fuel : ℕ) (acts : Acts) → Polled (switch_unit answers fuel name start acts)
  unfolding switch_unit
  switch_unit-Polled fuel acts =
      ask-elim Polled (Act.read_state name) (λ acts. answers.unit_state acts name)
        (λ state. if is_reached start state then pure tt else submit answers fuel name start) acts
        (λ state q. elim (Bool-cases (is_reached start state)) [
          | inl reached ↦ rw reached ((refl, (state, q, reached)))
          | inr other ↦ rw other (submit-Polled fuel _)
        ])
        (λ e q. tt)

  IsOver-if :
      (t : Bool) (u v : N (Unit {0})) (acts : Acts)
      → (t ≡ true → IsOver (u acts))
      → (t ≡ false → IsOver (v acts))
      → IsOver ((if t then u else v) acts)
  IsOver-if true u v acts hu hv = hu refl
  IsOver-if false u v acts hu hv = hv refl

  module _ (deadline n : ℕ)
      (late : (acts : Acts) → n ≤ sleeps acts → deadline ≤ answers.now acts) where
    judge-IsOver :
        (again : N (Unit {0})) (state : String) (acts : Acts)
        → ((acts' : Acts)
            → sleeps acts' ≡ suc (sleeps acts)
            → ltb (answers.now (Act.slept ∷ acts)) deadline ≡ true
            → IsOver (again acts'))
        → IsOver (judge answers name start deadline again state acts)
    unfolding judge
    judge-IsOver again state acts k =
        IsOver-if (is_reached start state) _ _ acts (λ _. tt)
          (λ _.
            IsOver-if (start && state == "failed") _ _ acts (λ _. tt)
              (λ _.
                IsOver-if (ltb (answers.now (Act.slept ∷ acts)) deadline) again _
                  (Act.read_clock ∷ (Act.slept ∷ acts))
                  (λ early. k (Act.read_clock ∷ (Act.slept ∷ acts)) (omega arith) early) (λ _. tt)))

    -- If the clock shows the deadline once there have been `n` sleeps, then the polling ends: fuel for
    -- a round more than the sleeps that are left is enough.
    pub poll-IsOver :
        (m : ℕ) (acts : Acts)
        → n ≤ m + sleeps acts
        → IsOver (poll answers (suc m) name start deadline acts)
    unfolding poll
    poll-IsOver zero acts h =
        ask-elim IsOver (Act.read_state name) (λ acts. answers.unit_state acts name)
          (judge answers name start deadline (poll answers 0 name start deadline)) acts
          (λ state q.
            judge-IsOver (poll answers 0 name start deadline) state (Act.read_state name ∷ acts)
              (λ acts' grown early.
                let over = late (Act.slept ∷ (Act.read_state name ∷ acts)) (omega (arith, h)) in
                absurd (ground (arith, over, early))))
          (λ e q. tt)
    poll-IsOver (suc m) acts h =
        ask-elim IsOver (Act.read_state name) (λ acts. answers.unit_state acts name)
          (judge answers name start deadline (poll answers (suc m) name start deadline)) acts
          (λ state q.
            judge-IsOver (poll answers (suc m) name start deadline) state
              (Act.read_state name ∷ acts)
              (λ acts' grown early. poll-IsOver m acts' (omega (arith, h, grown))))
          (λ e q. tt)
