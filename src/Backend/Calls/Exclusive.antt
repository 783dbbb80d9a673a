-- ===== src/Backend/Calls/Exclusive.antt =====
-- One transaction at a time: no network transaction is open while a job is accepted or a reset is
-- intended.
pub mod Holds
pub mod Quiet
pub mod Steps
use meta_monutchee.Base.{
  ℕ, String, Bool, true, false, ◌≡◌, ◌||◌, refl, arith, List, [], ◌∷◌, Bool-cases, inl, inr, eq_iff,
  not,
}
use meta_monutchee.System.{Configuration, NetworkProposal, NetworkStatus, PowerAction, ok, err}
use meta_monutchee.Backend.Profile.{Profile}
use meta_monutchee.Backend.State.{
  State, Pending, is_pending, is_accepted, set_job_state, set_transaction_state,
}
use meta_monutchee.Backend.Host.{Host}
use meta_monutchee.Backend.Monad.{Backend, M, ◌>>=◌}
use meta_monutchee.Backend.Journal.{persist, idle, check_id, event, is_busy}
use meta_monutchee.Backend.Observe.{
  observe_link, observe_links, observe_network, link_event, Carriers, modify_carriers,
}
use meta_monutchee.Backend.Settle.{settle_network, settled, is_durably_committed, recover_network}
use meta_monutchee.Backend.Tick.{
  tick, dispatch_job, job_event, observe_when_due, expire_transaction, dispatch_when_due,
  set_observation, set_job_deadline,
}
use meta_monutchee.Backend.Calls.Rules.{
  Keeps, Keeps-pure, Keeps-bind, Leads, Leads-bind, keeps_rules,
}

-- what `is_pending` excludes
pub record IsExclusive (s : State) : Type 0 where
  pub no_job : is_pending s ≡ true → is_accepted s ≡ false
  pub no_reset : is_pending s ≡ true → s.reset_intent ≡ false

-- no job is accepted and no reset intended
abbrev pub NoJob : State → Type 0
NoJob s = (is_accepted s ≡ false) × (s.reset_intent ≡ false)

abbrev pub NoTransaction : State → Type 0
NoTransaction s = is_pending s ≡ false

abbrev pub IsIdle : State → Type 0
IsIdle s = is_busy s ≡ false

pub IsIdle-NoJob : (s : State) → IsIdle s → NoJob s
IsIdle-NoJob s h = ground arith

pub IsIdle-NoTransaction : (s : State) → IsIdle s → NoTransaction s
IsIdle-NoTransaction s h = ground arith

pub NoJob-IsExclusive : (s : State) → NoJob s → IsExclusive s
NoJob-IsExclusive s h = record { no_job = λ _. h.0; no_reset = λ _. h.1 }

pub NoTransaction-IsExclusive : (s : State) → NoTransaction s → IsExclusive s
NoTransaction-IsExclusive s h = record { no_job = λ e. ground arith; no_reset = λ e. ground arith }

pub Leads-Keeps :
    {A : Type 0} {P Q : State → Type 0} (m : M A)
    → Keeps P m
    → ((s : State) → P s → Q s)
    → Leads P Q m
Leads-Keeps m km k = record { at = λ b h. k (m b).1.state (km.at b h) }

-- behind `idle` nothing is busy
pub idle_then :
    {A : Type 0} (f : Unit {0} → M A)
    → Leads IsIdle IsExclusive (f tt)
    → Leads IsExclusive IsExclusive (idle >>= f)
unfolding idle
idle_then f k = record { at = λ b h. ground (arith, k.at b) }

-- behind `checkId` a transaction is open, so there is no job
pub check_id_then :
    (id : String) (f : Unit {0} → M (Unit {0}))
    → Leads NoJob IsExclusive (f tt)
    → Leads IsExclusive IsExclusive (check_id id >>= f)
unfolding check_id
check_id_then id f k = record { at = λ b h. ground (arith, k.at b) }

-- what `tick` does to the state keeps the predicate: a settlement, and the end of a job
pub record IsStable (P : State → Type 0) : Type 0 where
  pub settles : (commit : Bool) (s : State) → P s → P (settled commit s)
  pub dispatches : (s : State) → P s → P (set_job_state "dispatched" s)
  pub fails : (s : State) → P s → P (set_job_state "failed" s)

module _ (host : Host) where
  pub persist-Keeps : {P : State → Type 0} → Keeps P (persist host)
  unfolding persist
  persist-Keeps = record { at = λ b h. ground arith }

  pub settle_network-Keeps :
      {P : State → Type 0} (stable : IsStable P) (commit boot : Bool) (reason : String)
      → Keeps P (settle_network host commit boot reason)
  unfolding settle_network
  settle_network-Keeps stable commit boot reason =
      search (keeps_rules, persist-Keeps, stable.settles) depth 14

  settled-NoJob : (commit : Bool) (s : State) → NoJob s → NoJob (settled commit s)
  settled-NoJob commit s h = h

  pub settle_network-NoJob :
      (commit boot : Bool) (reason : String) → Keeps NoJob (settle_network host commit boot reason)
  unfolding settle_network
  settle_network-NoJob commit boot reason =
      search (keeps_rules, persist-Keeps, settled-NoJob) depth 14

  is_durably_committed-Keeps : {P : State → Type 0} → Keeps P (is_durably_committed host)
  unfolding is_durably_committed
  is_durably_committed-Keeps = search keeps_rules depth 12

  pub recover_network-Keeps :
      {P : State → Type 0} (stable : IsStable P) (boot : Bool) → Keeps P (recover_network host boot)
  unfolding recover_network
  recover_network-Keeps stable boot =
      search (keeps_rules, is_durably_committed-Keeps, settle_network-Keeps stable) depth 12

  -- what the observer changes is not in the state
  modify_carriers-Keeps :
      {P : State → Type 0} (f : Carriers → Carriers) → Keeps P (modify_carriers f)
  modify_carriers-Keeps f = record { at = λ b h. h }

  pub set_observation-Keeps : {P : State → Type 0} (t : ℕ) → Keeps P (set_observation t)
  set_observation-Keeps t = record { at = λ b h. h }

  pub set_job_deadline-Keeps : {P : State → Type 0} (t : ℕ) → Keeps P (set_job_deadline t)
  set_job_deadline-Keeps t = record { at = λ b h. h }

  link_event-Keeps : {P : State → Type 0} (link : NetworkStatus) → Keeps P (link_event link)
  unfolding link_event
  link_event-Keeps link = elim (Bool-cases link.carrier) [
    | inl up ↦ rw up (search keeps_rules)
    | inr down ↦ rw down (search keeps_rules)
  ]

  observe_link-Keeps :
      {P : State → Type 0} (profile : Profile) (link : NetworkStatus)
      → Keeps P (observe_link profile link)
  unfolding observe_link
  observe_link-Keeps profile link =
      search (keeps_rules, modify_carriers-Keeps, link_event-Keeps) depth 14

  observe_links-Keeps :
      {P : State → Type 0} (profile : Profile) (links : List NetworkStatus)
      → Keeps P (observe_links profile links)
  unfolding observe_links
  observe_links-Keeps profile [] = Keeps-pure tt
  observe_links-Keeps profile (link ∷ rest) =
      Keeps-bind (observe_link profile link) (λ _. observe_links profile rest)
        (observe_link-Keeps profile link) (λ _. observe_links-Keeps profile rest)

  pub observe_network-Keeps :
      {P : State → Type 0} (profile : Profile) → Keeps P (observe_network host profile)
  unfolding observe_network
  observe_network-Keeps profile =
      search (keeps_rules, modify_carriers-Keeps, observe_links-Keeps) depth 14
