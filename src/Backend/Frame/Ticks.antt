-- ===== src/Backend/Frame/Ticks.antt =====
-- The power call itself: `tick` hands a job over once, behind the journal.
use meta_monutchee.Base.{ℕ, zero, suc, false, ◌≡◌, ◌+◌, ◌≤◌, ◌∷◌, arith, nat_beq, refl, ap}
use meta_monutchee.Backend.Profile.{Profile}
use meta_monutchee.Backend.Host.{Effect, Host, journal}
use meta_monutchee.Backend.Monad.{Backend}
use meta_monutchee.Backend.Journal.{persist, event}
use meta_monutchee.Backend.Tick.{
  dispatch_job, job_event, observe_when_due, expire_transaction, dispatch_when_due, tick,
  set_observation,
}
use meta_monutchee.Backend.Frame.{Frames, Bounded, Bounded-refl, IsSafe, powers, armed, frame_rules}
use meta_monutchee.Backend.Frame.Methods.{observe_network-Frames, recover_network-Frames}

armed-pos : (n : ℕ) → nat_beq n 0 ≡ false → armed n ≡ 1
armed-pos zero h = absurd (ground arith)
armed-pos (suc n) h = refl

module _ (host : Host) where
  Frames-set_observation : (t : ℕ) → Frames host (set_observation t)
  Frames-set_observation t = record { at = λ b. record { budget = omega arith; safety = λ s. s } }

  -- A handover makes at most one power call, which the journal knows of, and disarms the job.
  record HandsOver (b b' : Backend) : Type 0 where
    once : powers b'.history ≤ powers b.history + 1
    safety : IsSafe host b.history → IsSafe host b'.history
    disarmed : b'.job_deadline ≡ 0

  dispatch_job-HandsOver : (b : Backend) → HandsOver b (dispatch_job host b).1
  unfolding dispatch_job job_event persist event journal
  dispatch_job-HandsOver b = ground arith

  -- behind the test of its deadline a handover spends what was armed
  HandsOver-Bounded :
      (b b' : Backend) → nat_beq b.job_deadline 0 ≡ false → HandsOver b b' → Bounded host b b'
  HandsOver-Bounded b b' h k = record {
    budget = omega (arith, k.once, armed-pos b.job_deadline h, ap armed k.disarmed);
    safety = k.safety;
  }

  dispatch_when_due-Frames : Frames host (dispatch_when_due host)
  unfolding dispatch_when_due
  dispatch_when_due-Frames = record {
    at = λ b.
        let read = record b { history = Effect.clock ∷ b.history } in
        ground (
          arith,
          Bounded-refl host b,
          HandsOver-Bounded read (dispatch_job host read).1,
          dispatch_job-HandsOver read,
        );
  }

  observe_when_due-Frames : (profile : Profile) → Frames host (observe_when_due host profile)
  unfolding observe_when_due
  observe_when_due-Frames profile =
      search (frame_rules, Frames-set_observation, observe_network-Frames) depth 16

  expire_transaction-Frames : Frames host (expire_transaction host)
  unfolding expire_transaction
  expire_transaction-Frames = search (frame_rules, recover_network-Frames) depth 16

  pub tick-Frames : (profile : Profile) → Frames host (tick host profile)
  unfolding tick
  tick-Frames profile =
      search
        (frame_rules, observe_when_due-Frames, expire_transaction-Frames, dispatch_when_due-Frames)
        depth 16
