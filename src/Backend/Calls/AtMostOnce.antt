-- ===== src/Backend/Calls/AtMostOnce.antt =====
-- Every accepted job leads to at most one power call, which the journal knows of beforehand.
use meta_monutchee.Base.{ℕ, zero, suc, ◌+◌, ◌≤◌, String, Bool, List, [], ◌∷◌, ◌≡◌, refl, arith}
use meta_monutchee.System.{NetworkProposal, PowerAction, ok, err, Result}
use meta_monutchee.Backend.Profile.{Profile}
use meta_monutchee.Backend.Host.{Host}
use meta_monutchee.Backend.Monad.{Backend, M, ◌>>=◌}
use meta_monutchee.Backend.Journal.{persist, event}
use meta_monutchee.Backend.Network
use meta_monutchee.Backend.Jobs
use meta_monutchee.Backend.Jobs.{schedule_job}
use meta_monutchee.Backend.Frame.{Frames, Bounded, IsSafe, powers, armed, frame_rules}
use meta_monutchee.Backend.Frame.Methods.{
  idle-Frames, check_configuration-Frames, check_hashes-Frames, open_transaction-Frames,
  remaining-Frames, persist-Frames, check_id-Frames, apply-Frames, finish_network-Frames,
}
use meta_monutchee.Backend.Frame.Ticks.{tick-Frames}
use meta_monutchee.Backend.Calls.{Call, call, calls, accepts, accepted_jobs}

module _ (host : Host) (profile : Profile) where
  network_transaction-Frames : Frames host (Network.network_transaction host profile)
  unfolding Network.network_transaction
  network_transaction-Frames = search (frame_rules, tick-Frames, remaining-Frames) depth 16

  begin_network-Frames :
      (p : NetworkProposal) (actor request : String)
      → Frames host (Network.begin_network host profile p actor request)
  unfolding Network.begin_network
  begin_network-Frames p actor request =
      search
        (
          frame_rules, idle-Frames, check_configuration-Frames, check_hashes-Frames,
          open_transaction-Frames, network_transaction-Frames,
        )
        depth 16

  prepare_network_commit-Frames :
      (id : String) → Frames host (Network.prepare_network_commit host profile id)
  unfolding Network.prepare_network_commit
  prepare_network_commit-Frames id =
      search (frame_rules, tick-Frames, check_id-Frames, persist-Frames) depth 18

  -- What a request for a job does to the power calls: it makes none, and arms one at most if it returns.
  abbrev Arms : {A : Type 0} → Backend → Result A × Backend → Type 0
  Arms b (ok _, b') =
      (powers b'.history + armed b'.job_deadline ≤ powers b.history + armed b.job_deadline + 1)
      × (IsSafe host b.history → IsSafe host b'.history)
  Arms b (err _, b') =
      (powers b'.history + armed b'.job_deadline ≤ powers b.history + armed b.job_deadline)
      × (IsSafe host b.history → IsSafe host b'.history)

  armed-le : (n : ℕ) → armed n ≤ 1
  armed-le zero = omega arith
  armed-le (suc n) = omega arith

  record Arming {A : Type 0} (m : M A) : Type 0 where
    at : (b : Backend) → Arms b (m b)

  Arms-after :
      {A : Type 0} (b b' : Backend) (r : Result A × Backend)
      → Bounded host b b'
      → Arms b' r
      → Arms b r
  Arms-after b b' (ok _, c) q k = (omega (arith, q.budget, k.0), λ s. k.1 (q.safety s))
  Arms-after b b' (err _, c) q k = (omega (arith, q.budget, k.0), λ s. k.1 (q.safety s))

  Arming-bind :
      {A B : Type 0} (m : M A) (f : A → M B)
      → Frames host m
      → ((a : A) → Arming (f a))
      → Arming (m >>= f)
  Arming-bind {A} {B} m f km kf = record { at = λ b. go b (m b) (km.at b) }
    where
      go :
          (b : Backend) (r : Result A × Backend)
          → Bounded host b r.1
          → Arms b
              (elim (r.0) as (λ _. Result B × Backend) [ ok a ↦ f a r.1 | err e ↦ (err e, r.1) ])
      go b (ok a, b') q = Arms-after b b' (f a b') q ((kf a).at b')
      go b (err e, b') q = (q.budget, q.safety)

  schedule_job-Arming : Arming (schedule_job host)
  unfolding schedule_job persist event
  schedule_job-Arming = record { at = λ b. grind (arith, armed-le) }

  power-Arming :
      (action : PowerAction) (actor request : String)
      → Arming (Jobs.power host action actor request)
  unfolding Jobs.power
  power-Arming action actor request =
      search (Arming-bind, schedule_job-Arming, frame_rules, idle-Frames) depth 12

  reset_device-Arming :
      (confirmed : Bool) (actor request : String)
      → Arming (Jobs.reset_device host profile confirmed actor request)
  unfolding Jobs.reset_device
  reset_device-Arming confirmed actor request =
      search (Arming-bind, schedule_job-Arming, frame_rules, idle-Frames) depth 16

  -- the account of one call
  record Accounts (c : Call) (b b' : Backend) : Type 0 where
    budget :
        powers b'.history + armed b'.job_deadline
        ≤ powers b.history + armed b.job_deadline + accepts host profile c b
    safety : IsSafe host b.history → IsSafe host b'.history

  Bounded-Accounts :
      (c : Call) (b b' : Backend)
      → accepts host profile c b ≡ 0
      → Bounded host b b'
      → Accounts c b b'
  Bounded-Accounts c b b' e q = record { budget = omega (arith, q.budget, e); safety = q.safety }

  call-Accounts : (c : Call) (b : Backend) → Accounts c b (call host profile c b)
  unfolding call
  call-Accounts Call.tick b = Bounded-Accounts _ b _ refl ((tick-Frames host profile).at b)
  call-Accounts Call.network_transaction b =
      Bounded-Accounts _ b _ refl (network_transaction-Frames.at b)
  call-Accounts (Call.apply c) b = Bounded-Accounts _ b _ refl ((apply-Frames host profile c).at b)
  call-Accounts (Call.begin_network p actor request) b =
      Bounded-Accounts _ b _ refl ((begin_network-Frames p actor request).at b)
  call-Accounts (Call.prepare_network_commit id) b =
      Bounded-Accounts _ b _ refl ((prepare_network_commit-Frames id).at b)
  call-Accounts (Call.finish_network id commit actor request) b =
      Bounded-Accounts _ b _ refl
        ((finish_network-Frames host profile id commit actor request).at b)
  call-Accounts (Call.power action actor request) b =
      ground (arith, (power-Arming action actor request).at b)
  call-Accounts (Call.reset_device confirmed actor request) b =
      ground (arith, (reset_device-Arming confirmed actor request).at b)

  calls-Accounts :
      (cs : List Call) (b : Backend)
      → let b' = calls host profile cs b in
        (powers b'.history + armed b'.job_deadline
          ≤ powers b.history + armed b.job_deadline + accepted_jobs host profile cs b)
        × (IsSafe host b.history → IsSafe host b'.history)
  unfolding calls accepted_jobs
  calls-Accounts [] b = (omega arith, λ s. s)
  calls-Accounts (c ∷ cs) b =
      let first = call-Accounts c b in
      let rest = calls-Accounts cs (call host profile c b) in
      (omega (arith, first.budget, rest.0), λ s. rest.1 (first.safety s))

  -- After any sequence of calls there have been at most as many power calls as jobs were accepted, and
  -- one that was armed before; and every power call was made when the last acknowledged journal said
  -- that the job had been dispatched, if that held of the calls before.
  pub calls_at_most_once :
      (cs : List Call) (b : Backend)
      → let b' = calls host profile cs b in
        (powers b'.history
          ≤ powers b.history + armed b.job_deadline + accepted_jobs host profile cs b)
        × (IsSafe host b.history → IsSafe host b'.history)
  calls_at_most_once cs b =
      let (budget, safe) = calls-Accounts cs b in (omega (arith, budget), safe)
