-- ===== src/Backend/Calls/Machine.antt =====
-- The contract of network transactions: an abstract machine, and the view of a state as one of its.
mod Moves
pub mod Follows
use meta_monutchee.Base.{String, Bool, List, ◌==◌, string_eq, ◌≡◌, if◌then◌else◌}
use meta_monutchee.System.{NetworkConfig}
use meta_monutchee.Backend.State.{State, Pending}

-- what stays the same while a transaction is open
pub record Opened : Type 0 where
  pub id : String
  pub candidate : List NetworkConfig
  pub previous : List NetworkConfig
  pub candidate_hash : String
  pub previous_hash : String

pub data Phase : Type 0 where
  closed : Phase
  waiting committing : Opened → Phase

-- the phase of the transaction, and the network settings in force
pub record View : Type 0 where
  pub phase : Phase
  pub network : List NetworkConfig

-- `may` says which settings somebody has asked for
pub data Step (may : List NetworkConfig → Type 0) : View → View → Type 0 where
  -- settings may change while no transaction is open, to some that were asked for
  configure :
      (n n' : List NetworkConfig)
      → may n'
      → Step may (record { phase = closed; network = n }) (record { phase = closed; network = n' })
  -- a transaction begins, and notes the settings in force
  begin :
      (o : Opened)
      → may o.candidate
      → Step may
          (record { phase = closed; network = o.previous })
          (record { phase = waiting o; network = o.previous })
  prepare :
      (o : Opened) (n : List NetworkConfig)
      → Step may
          (record { phase = waiting o; network = n })
          (record { phase = committing o; network = n })
  -- the end of a transaction: its settings come into force, or the noted ones again
  keep_waiting :
      (o : Opened) (n : List NetworkConfig)
      → Step may
          (record { phase = waiting o; network = n })
          (record { phase = closed; network = o.candidate })
  revert_waiting :
      (o : Opened) (n : List NetworkConfig)
      → Step may
          (record { phase = waiting o; network = n })
          (record { phase = closed; network = o.previous })
  keep_committing :
      (o : Opened) (n : List NetworkConfig)
      → Step may
          (record { phase = committing o; network = n })
          (record { phase = closed; network = o.candidate })
  revert_committing :
      (o : Opened) (n : List NetworkConfig)
      → Step may
          (record { phase = committing o; network = n })
          (record { phase = closed; network = o.previous })

-- any number of steps
pub data Steps (may : List NetworkConfig → Type 0) (v : View) : View → Type 0 where
  stay : Steps may v v
  after : (w x : View) → Steps may v w → Step may w x → Steps may v x

abbrev pub opened : Pending → Opened
opened p = record {
  id = p.transaction.id;
  candidate = p.transaction.network;
  previous = p.previous;
  candidate_hash = p.candidate_hash;
  previous_hash = p.previous_hash;
}

abbrev pub phase_of : Bool → Bool → Opened → Phase
phase_of pending committed o =
    if pending then waiting o else if committed then committing o else closed

abbrev pub view : State → View
view s = record {
  phase =
      phase_of (s.pending.transaction.state == "pending")
        (s.pending.transaction.state == "committing") (opened s.pending);
  network = s.configuration.system.network;
}
