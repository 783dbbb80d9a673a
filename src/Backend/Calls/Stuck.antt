-- ===== src/Backend/Calls/Stuck.antt =====
-- A failed journal stays failed, whatever is called then.
use meta_monutchee.Base.{
  String, Bool, true, false, not, ◌≡◌, refl, ◌∙◌, sym, subst, List, [], ◌∷◌, arith,
}
use meta_monutchee.System.{Result, ok, err}
use meta_monutchee.Backend.Profile.{Profile}
use meta_monutchee.Backend.Host.{Host, journal}
use meta_monutchee.Backend.Monad.{Backend, M, gets, modify, when, ◌>>=◌}
use meta_monutchee.Backend.Journal.{persist, check_id}
use meta_monutchee.Backend.Settle.{settle_network}
use meta_monutchee.Backend.Network.{check_finish}
use meta_monutchee.Backend.Network
use meta_monutchee.Backend.Jobs
use meta_monutchee.Backend.Frame.{powers}
use meta_monutchee.Backend.Failed.{
  needs_recovery, apply-Refused, begin-Refused, reading-Refused, prepare-Refused, power-Refused,
  reset-Refused, tick-Refused,
}
use meta_monutchee.Backend.Calls.{Call, call, calls}

-- the journal has failed, nothing has been acknowledged since, and no power call was made
pub record IsStuck (host : Host) (b b' : Backend) : Type 0 where
  pub failed : b'.storage_failed ≡ true
  pub same_journal : journal host b'.history ≡ journal host b.history
  pub no_power : powers b'.history ≡ powers b.history

IsStuck-trans :
    (host : Host) (a b c : Backend) → IsStuck host a b → IsStuck host b c → IsStuck host a c
IsStuck-trans host a b c p q = record {
  failed = q.failed;
  same_journal = q.same_journal ∙ p.same_journal;
  no_power = q.no_power ∙ p.no_power;
}

-- a method that finds a failed journal leaves it so
record Sticks (host : Host) {A : Type 0} (m : M A) : Type 0 where
  at : (b : Backend) → b.storage_failed ≡ true → IsStuck host b (m b).1

Sticks-bind :
    (host : Host) {A B : Type 0} (m : M A) (f : A → M B)
    → Sticks host m
    → ((a : A) → Sticks host (f a))
    → Sticks host (m >>= f)
Sticks-bind host {A} {B} m f km kf = record { at = λ b h. go b (m b) (km.at b h) }
  where
    go :
        (b : Backend) (r : Result A × Backend)
        → IsStuck host b r.1
        → IsStuck host b
            (elim (r.0) as (λ _. Result B × Backend) [ ok a ↦ f a r.1 | err e ↦ (err e, r.1) ]).1
    go b (ok a, b') s = IsStuck-trans host b b' _ s ((kf a).at b' s.failed)
    go b (err e, b') s = s

Sticks-when : (host : Host) (t : Bool) (m : M (Unit {0})) → Sticks host m → Sticks host (when t m)
Sticks-when host true m km = km
Sticks-when host false m km = record {
  at = λ b h. record { failed = h; same_journal = refl; no_power = refl };
}

module _ (host : Host) (profile : Profile) where
  IsStuck-refl : (b : Backend) → b.storage_failed ≡ true → IsStuck host b b
  IsStuck-refl b h = record { failed = h; same_journal = refl; no_power = refl }

  Refused-IsStuck :
      {A : Type 0} (b : Backend) (r : Result A × Backend)
      → b.storage_failed ≡ true
      → r ≡ (err needs_recovery, b)
      → IsStuck host b r.1
  Refused-IsStuck {A} b r h q =
      subst (λ (s : Result A × Backend). IsStuck host b s.1) (sym q) (IsStuck-refl b h)

  settle_network-IsStuck :
      (commit boot : Bool) (reason : String) (b : Backend)
      → b.storage_failed ≡ true
      → IsStuck host b (settle_network host commit boot reason b).1
  unfolding settle_network persist journal
  settle_network-IsStuck commit boot reason b h = record {
    failed = ground arith;
    same_journal = ground arith;
    no_power = ground arith;
  }

  check_finish-IsStuck :
      (commit : Bool) (b : Backend)
      → b.storage_failed ≡ true
      → IsStuck host b (check_finish host profile commit b).1
  unfolding check_finish journal
  check_finish-IsStuck true b h = record {
    failed = ground arith;
    same_journal = ground arith;
    no_power = ground arith;
  }
  check_finish-IsStuck false b h = record {
    failed = ground arith;
    same_journal = ground arith;
    no_power = ground arith;
  }

  finish_network-IsStuck :
      (id : String) (commit : Bool) (actor request : String) (b : Backend)
      → b.storage_failed ≡ true
      → IsStuck host b (Network.finish_network host profile id commit actor request b).1
  unfolding Network.finish_network check_id
  finish_network-IsStuck id commit actor request b h =
      (Sticks-bind host (gets (λ b'. Network.is_finished id commit b'.state)) _
          (record { at = λ b' h'. IsStuck-refl b' h' })
          (λ finished. Sticks-when host (not finished) _ (
            Sticks-bind host (check_id id) _
              (record {
                at = λ b' h'. record {
                  failed = ground arith;
                  same_journal = ground arith;
                  no_power = ground arith;
                };
              })
              (λ _.
                Sticks-bind host (check_finish host profile commit) _
                  (record { at = check_finish-IsStuck commit })
                  (λ _.
                    Sticks-bind host (modify (Network.set_author actor request))
                      (λ _. settle_network host commit false "cancel")
                      (record {
                        at = λ b' h'. record { failed = h'; same_journal = refl; no_power = refl };
                      })
                      (λ _. record { at = settle_network-IsStuck commit false "cancel" })))))).at
        b h

  reset_unconfirmed :
      (actor request : String) (b : Backend)
      → (Jobs.reset_device host profile false actor request b).1 ≡ b
  unfolding Jobs.reset_device
  reset_unconfirmed actor request b = refl

  call-IsStuck :
      (c : Call) (b : Backend) → b.storage_failed ≡ true → IsStuck host b (call host profile c b)
  unfolding call
  call-IsStuck Call.tick b h = Refused-IsStuck b _ h (tick-Refused host profile b h)
  call-IsStuck Call.network_transaction b h =
      Refused-IsStuck b _ h (reading-Refused host profile b h)
  call-IsStuck (Call.apply c) b h = Refused-IsStuck b _ h (apply-Refused host profile b h c)
  call-IsStuck (Call.begin_network p actor request) b h =
      Refused-IsStuck b _ h (begin-Refused host profile b h p actor request)
  call-IsStuck (Call.prepare_network_commit id) b h =
      Refused-IsStuck b _ h (prepare-Refused host profile b h id)
  call-IsStuck (Call.finish_network id commit actor request) b h =
      finish_network-IsStuck id commit actor request b h
  call-IsStuck (Call.power action actor request) b h =
      Refused-IsStuck b _ h (power-Refused host profile b h action actor request)
  call-IsStuck (Call.reset_device true actor request) b h =
      Refused-IsStuck b _ h (reset-Refused host profile b h actor request)
  call-IsStuck (Call.reset_device false actor request) b h =
      subst (IsStuck host b) (sym (reset_unconfirmed actor request b)) (IsStuck-refl b h)

  -- After a journal write has failed, whatever public methods are called and whatever the platform
  -- answers: the journal stays failed, the last acknowledged one stays the same, and no power call is
  -- made.
  pub calls-IsStuck :
      (cs : List Call) (b : Backend)
      → b.storage_failed ≡ true
      → IsStuck host b (calls host profile cs b)
  unfolding calls
  calls-IsStuck [] b h = IsStuck-refl b h
  calls-IsStuck (c ∷ cs) b h =
      let one = call-IsStuck c b h in
      IsStuck-trans host b (call host profile c b) _ one
        (calls-IsStuck cs (call host profile c b) one.failed)
