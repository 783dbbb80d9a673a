-- ===== src/Backend/Calls/Exclusive/Steps.antt =====
-- The changes of the state that open a transaction or accept a job, behind their guards.
use meta_monutchee.Base.{String, Bool, true, false}
use meta_monutchee.Backend.State.{State, Pending, set_transaction_state}
use meta_monutchee.Backend.Monad.{M, when, ◌>>=◌}
use meta_monutchee.Backend.Journal.{idle, check_id}
use meta_monutchee.Backend.Network.{set_author, set_pending}
use meta_monutchee.Backend.Jobs.{accept_job, intend_reset}
use meta_monutchee.Backend.Calls.Rules.{Keeps, Leads, Leads-bind}
use meta_monutchee.Backend.Calls.Exclusive.{
  IsExclusive, NoJob, NoTransaction, IsIdle-NoJob, IsIdle-NoTransaction, NoJob-IsExclusive,
  NoTransaction-IsExclusive, Leads-Keeps, idle_then, check_id_then,
}

-- `Leads` of a method that keeps what the state comes to have
pub Keeps-Leads :
    {A : Type 0} {P Q : State → Type 0} (m : M A)
    → Keeps Q m
    → ((s : State) → P s → Q s)
    → Leads P Q m
Keeps-Leads m km k = record { at = λ b h. km.at b (k b.state h) }

pub Leads-from :
    {A : Type 0} {P Q R : State → Type 0} (m : M A)
    → Leads P R m
    → ((s : State) → Q s → P s)
    → Leads Q R m
Leads-from m lm k = record { at = λ b h. lm.at b (k b.state h) }

pub pending-NoJob : (p : Pending) (s : State) → NoJob s → NoJob (set_pending p s)
pending-NoJob p s h = h

pub transaction-NoJob : (name : String) (s : State) → NoJob s → NoJob (set_transaction_state name s)
transaction-NoJob name s h = h

pub author-NoJob :
    (actor request : String) (s : State) → NoJob s → NoJob (set_author actor request s)
author-NoJob actor request s h = h

pub job-NoTransaction :
    (id action actor request : String) (s : State)
    → NoTransaction s
    → NoTransaction (accept_job id action actor request s)
job-NoTransaction id action actor request s h = h

pub reset-NoTransaction : (s : State) → NoTransaction s → NoTransaction (intend_reset s)
reset-NoTransaction s h = h

-- the first part keeps what the whole keeps
pub Leads-same :
    {A B : Type 0} {P : State → Type 0} (m : M A) (f : A → M B)
    → Keeps P m
    → ((a : A) → Leads P P (f a))
    → Leads P P (m >>= f)
Leads-same m f km kf = Leads-bind m f km (λ s h. h) kf

pub idle_then-NoJob :
    {A : Type 0} (f : Unit {0} → M A)
    → Leads NoJob IsExclusive (f tt)
    → Leads IsExclusive IsExclusive (idle >>= f)
idle_then-NoJob f k = idle_then f (Leads-from (f tt) k IsIdle-NoJob)

pub idle_then-NoTransaction :
    {A : Type 0} (f : Unit {0} → M A)
    → Keeps NoTransaction (f tt)
    → Leads IsExclusive IsExclusive (idle >>= f)
idle_then-NoTransaction f k =
    idle_then f
      (Leads-from (f tt) (Leads-Keeps (f tt) k NoTransaction-IsExclusive) IsIdle-NoTransaction)

pub Leads-when :
    {P : State → Type 0} (t : Bool) (m : M (Unit {0})) → Leads P P m → Leads P P (when t m)
Leads-when true m lm = lm
Leads-when false m lm = record { at = λ b h. h }

pub check_id_then-NoJob :
    (id : String) (f : Unit {0} → M (Unit {0}))
    → Keeps NoJob (f tt)
    → Leads IsExclusive IsExclusive (check_id id >>= f)
check_id_then-NoJob id f k = check_id_then id f (Leads-Keeps (f tt) k NoJob-IsExclusive)
