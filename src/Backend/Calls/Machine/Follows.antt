-- ===== src/Backend/Calls/Machine/Follows.antt =====
-- Every public method follows the machine.
use meta_monutchee.Base.{
  ℕ, String, Bool, true, false, not, ◌≡◌, refl, List, [], ◌∷◌, ◌==◌, string_eq, arith, subst, sym,
  All, inl, inr,
}
use meta_monutchee.System.{
  NetworkConfig, NetworkProposal, PowerAction, Configuration, Result, ok, err,
}
use meta_monutchee.Backend.Profile.{Profile}
use meta_monutchee.Backend.State.{State, is_pending, set_transaction_state}
use meta_monutchee.Backend.Host.{Host}
use meta_monutchee.Backend.Monad.{Backend, M, when, gets, modify, ◌>>=◌}
use meta_monutchee.Backend.Apply
use meta_monutchee.Backend.Apply.Atomic.{Applied, apply-Applied}
use meta_monutchee.Backend.Journal.{idle, check_id}
use meta_monutchee.Backend.Network
use meta_monutchee.Backend.Network.{
  check_hashes, open_transaction, remaining, check_finish, set_author, set_pending, extend_deadline,
  prepare_now, new_pending,
}
use meta_monutchee.Backend.Jobs
use meta_monutchee.Backend.Jobs.{schedule_job, accept_job, intend_reset}
use meta_monutchee.Backend.Calls.{Call, call, calls}
use meta_monutchee.Backend.Calls.Rules.{Keeps, Leads, Leads-bind, keeps_rules}
use meta_monutchee.Backend.Calls.Exclusive.{
  IsIdle-NoTransaction, persist-Keeps, settle_network-Keeps, set_job_deadline-Keeps,
}
use meta_monutchee.Backend.Calls.Exclusive.Quiet.{
  tick-Keeps, check_configuration-Keeps, check_hashes-Keeps, network_transaction-Keeps,
  check_finish-Keeps, idle-Keeps,
}
use meta_monutchee.Backend.Calls.Machine.{View, Steps, stay, view}
use meta_monutchee.Backend.Calls.Machine.Moves.{
  Known, Follows, Rests, Follows-IsStable, Rests-Follows, initialize-Follows, begun-Follows,
  prepared-Follows,
}

-- the settings of the call have been asked for
abbrev pub IsAsked : (List NetworkConfig → Type 0) → Call → Type 0
IsAsked may (Call.apply c) = may c.system.network
IsAsked may (Call.begin_network p actor request) = may p.network
IsAsked may _ = Unit

-- behind `idle` no transaction is open
idle_then-Rests :
    {A : Type 0} (may : List NetworkConfig → Type 0) (v : View) (f : Unit {0} → M A)
    → Leads (Rests may v) (Follows may v) (f tt)
    → Leads (Follows may v) (Follows may v) (idle >>= f)
unfolding idle
idle_then-Rests may v f k = record { at = λ b h. ground (arith, k.at b, h) }

-- the rest of a method that has read the state
Leads-snapshot :
    {A : Type 0} {P Q : State → Type 0} (f : State → M A)
    → ((s : State) → Leads (λ t. (t ≡ s) × P t) Q (f s))
    → Leads P Q (gets (λ b. b.state) >>= f)
Leads-snapshot f k = record { at = λ b h. (k b.state).at b (refl, h) }

Leads-modify :
    {A : Type 0} {P Q : State → Type 0} (change : State → State) (f : Unit {0} → M A)
    → ((s : State) → P s → Q (change s))
    → Keeps Q (f tt)
    → Leads P Q (modify change >>= f)
Leads-modify change f k kf = record {
  at = λ b h. kf.at (record b { state = change b.state }) (k b.state h);
}

Leads-then :
    {A B : Type 0} {P Q : State → Type 0} (m : M A) (f : A → M B)
    → Leads P Q m
    → ((a : A) → Keeps Q (f a))
    → Leads P Q (m >>= f)
Leads-then {A} {B} {P} {Q} m f lm kf = record { at = λ b h. go (m b) (lm.at b h) }
  where
    go :
        (r : Result A × Backend)
        → Q r.1.state
        → Q
            (elim (r.0) as (λ _. Result B × Backend) [
              | ok a ↦ f a r.1
              | err e ↦ (err e, r.1)
            ]).1.state
    go (ok a, b') q = (kf a).at b' q
    go (err e, b') q = q

Leads-guarded :
    {P Q : State → Type 0} (t : Bool) (m : M (Unit {0}))
    → (t ≡ true → Leads P Q m)
    → ((s : State) → P s → Q s)
    → Leads P Q (when t m)
Leads-guarded true m lm k = lm refl
Leads-guarded false m lm k = record { at = λ b h. k b.state h }

-- a transaction is open
abbrev Opens : (List NetworkConfig → Type 0) → View → State → Type 0
Opens may v s = Follows may v s × (is_pending s ≡ true)

check_id_then-Opens :
    (may : List NetworkConfig → Type 0) (v : View) (id : String) (f : Unit {0} → M (Unit {0}))
    → Leads (Opens may v) (Follows may v) (f tt)
    → Leads (Follows may v) (Follows may v) (check_id id >>= f)
unfolding check_id
check_id_then-Opens may v id f k = record { at = λ b h. ground (arith, k.at b, h) }

module _ (host : Host) (profile : Profile) (may : List NetworkConfig → Type 0) (v : View) where
  author-Follows :
      (actor request : String) (s : State)
      → Follows may v s
      → Follows may v (set_author actor request s)
  author-Follows actor request s h =
      (h.0, record { in_force = h.1.in_force; candidate = h.1.candidate; previous = h.1.previous })

  deadline-Follows : (now : ℕ) (s : State) → Follows may v s → Follows may v (extend_deadline now s)
  deadline-Follows now s h =
      (h.0, record { in_force = h.1.in_force; candidate = h.1.candidate; previous = h.1.previous })

  begun_here :
      (p : NetworkProposal) (actor request : String)
      → may p.network
      → (s : State) (id : String) (now : ℕ) (t : State) → (t ≡ s) × Rests may v t
      → Follows may v (set_pending (new_pending p s id now actor request) t)
  begun_here p actor request asked s id now t h =
      subst (λ u. Follows may v (set_pending (new_pending p u id now actor request) t)) h.0
        (begun-Follows may v p t id now actor request asked h.1)

  seen-Follows : (s t : State) → (t ≡ s) × Rests may v t → Follows may v t
  seen-Follows s t h = h.1.0

  open_transaction-Follows :
      (p : NetworkProposal) (actor request : String)
      → may p.network
      → Leads (Rests may v) (Follows may v) (open_transaction host profile p actor request)
  unfolding open_transaction
  open_transaction-Follows p actor request asked =
      search
        (
          Leads-modify,
          Leads-snapshot,
          Leads-bind,
          Rests-Follows may v,
          seen-Follows,
          begun_here p actor request asked,
          keeps_rules,
          persist-Keeps,
          settle_network-Keeps,
          Follows-IsStable may v,
        )
        depth 24

  begin_network-Follows :
      (p : NetworkProposal) (actor request : String)
      → may p.network
      → Leads (Follows may v) (Follows may v) (Network.begin_network host profile p actor request)
  unfolding Network.begin_network
  begin_network-Follows p actor request asked =
      search
        (
          idle_then-Rests,
          Leads-then,
          Leads-bind,
          Rests-Follows may v,
          open_transaction-Follows p actor request asked,
          keeps_rules,
          check_configuration-Keeps,
          check_hashes-Keeps,
          network_transaction-Keeps,
          Follows-IsStable may v,
        )
        depth 24

  prepared_here :
      (s t : State)
      → not (s.pending.transaction.state == "committing") ≡ true
      → (t ≡ s) × Opens may v t
      → Follows may v (set_transaction_state "committing" t)
  prepared_here s t fresh h =
      let fresh' =
        subst (λ (u : State). not (u.pending.transaction.state == "committing") ≡ true) (sym h.0)
          fresh in
      prepared-Follows may v t h.1.0 (ground (arith, fresh', h.1.1))

  open-Follows : (s t : State) → (t ≡ s) × Opens may v t → Follows may v t
  open-Follows s t h = h.1.0

  prepare_now-Follows :
      (id : String) → Leads (Follows may v) (Follows may v) (prepare_now host profile id)
  unfolding prepare_now
  prepare_now-Follows id =
      search
        (
          check_id_then-Opens, Leads-snapshot, Leads-guarded, Leads-modify, Leads-bind,
          open-Follows, prepared_here, keeps_rules, deadline-Follows, persist-Keeps,
        )
        depth 24

  finish_network-Follows :
      (id : String) (commit : Bool) (actor request : String)
      → Keeps (Follows may v) (Network.finish_network host profile id commit actor request)
  unfolding Network.finish_network check_id
  finish_network-Follows id commit actor request =
      search
        (
          keeps_rules,
          check_finish-Keeps,
          author-Follows,
          settle_network-Keeps,
          Follows-IsStable may v,
        )
        depth 24

  -- what `apply` has done, by its guarantee
  Applied-Follows :
      (c : Configuration)
      → may c.system.network
      → (b : Backend) (r : Result (Unit {0}) × Backend) → Applied host profile c b r
      → Follows may v b.state
      → Follows may v r.1.state
  Applied-Follows c asked b (ok _, b') done h =
      subst (Follows may v) (sym done.0.stored)
        (initialize-Follows may v c b.state asked (h, IsIdle-NoTransaction b.state done.0.was_idle))
  Applied-Follows c asked b (err e, b') (inl same) h = subst (Follows may v) (sym same) h
  Applied-Follows c asked b (err e, b') (inr same) h =
      subst (Follows may v) (sym same) (
        h.0,
        record { in_force = h.1.in_force; candidate = h.1.candidate; previous = h.1.previous },
      )

  job-Follows :
      (id action actor request : String) (s : State)
      → Follows may v s
      → Follows may v (accept_job id action actor request s)
  job-Follows id action actor request s h =
      (h.0, record { in_force = h.1.in_force; candidate = h.1.candidate; previous = h.1.previous })

  reset-Follows : (s : State) → Follows may v s → Follows may v (intend_reset s)
  reset-Follows s h =
      (h.0, record { in_force = h.1.in_force; candidate = h.1.candidate; previous = h.1.previous })

  schedule_job-Keeps : {P : State → Type 0} → Keeps P (schedule_job host)
  unfolding schedule_job
  schedule_job-Keeps = search (keeps_rules, persist-Keeps, set_job_deadline-Keeps) depth 18

  power-Follows :
      (action : PowerAction) (actor request : String)
      → Keeps (Follows may v) (Jobs.power host action actor request)
  unfolding Jobs.power
  power-Follows action actor request =
      search (keeps_rules, idle-Keeps, job-Follows, schedule_job-Keeps) depth 18

  reset_device-Follows :
      (confirmed : Bool) (actor request : String)
      → Keeps (Follows may v) (Jobs.reset_device host profile confirmed actor request)
  unfolding Jobs.reset_device
  reset_device-Follows confirmed actor request =
      search (keeps_rules, idle-Keeps, job-Follows, reset-Follows, schedule_job-Keeps) depth 24

  call-Follows :
      (c : Call) (b : Backend)
      → IsAsked may c
      → Follows may v b.state
      → Follows may v (call host profile c b).state
  unfolding call Network.prepare_network_commit
  call-Follows Call.tick b asked h = (tick-Keeps host profile (Follows-IsStable may v)).at b h
  call-Follows Call.network_transaction b asked h =
      (network_transaction-Keeps host profile (Follows-IsStable may v)).at b h
  call-Follows (Call.apply c) b asked h =
      Applied-Follows c asked b (Apply.apply host profile c b) (apply-Applied host profile c b) h
  call-Follows (Call.begin_network p actor request) b asked h =
      (begin_network-Follows p actor request asked).at b h
  call-Follows (Call.prepare_network_commit id) b asked h =
      (Leads-bind _ _ (tick-Keeps host profile (Follows-IsStable may v)) (λ s q. q)
          (λ _. prepare_now-Follows id)).at
        b h
  call-Follows (Call.finish_network id commit actor request) b asked h =
      (finish_network-Follows id commit actor request).at b h
  call-Follows (Call.power action actor request) b asked h =
      (power-Follows action actor request).at b h
  call-Follows (Call.reset_device confirmed actor request) b asked h =
      (reset_device-Follows confirmed actor request).at b h

  calls-Follows :
      (cs : List Call) (b : Backend)
      → All (IsAsked may) cs
      → Follows may v b.state
      → Follows may v (calls host profile cs b).state
  unfolding calls
  calls-Follows [] b asked h = h
  calls-Follows (c ∷ cs) b asked h =
      calls-Follows cs (call host profile c b) asked.1 (call-Follows c b asked.0 h)

-- Let `may` hold of the settings that the state holds at first and of those that the calls apply or propose.
-- Whatever is called, and whatever the platform answers, the view of the state moves by steps of the
-- abstract machine: settings come into force only by a configuration of such settings while no
-- transaction is open, or by the end of a transaction, and then they are its own or those in force when
-- it began; while it is open they do not change.
pub calls-Steps :
    (host : Host) (profile : Profile) (may : List NetworkConfig → Type 0) (cs : List Call)
    (b : Backend)
    → All (IsAsked may) cs
    → Known may b.state
    → Steps may (view b.state) (view (calls host profile cs b).state)
calls-Steps host profile may cs b asked known =
    (calls-Follows host profile may (view b.state) cs b asked (stay, known)).0
