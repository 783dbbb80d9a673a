-- ===== src/Backend/Network/Retry.antt =====
-- A second call of `finishNetwork`.
use meta_monutchee.Base.{String, Bool, true, false, ◌≡◌, inl, inr, arith, eq_iff, subst, ◌≢◌}
use meta_monutchee.System.{ok, err, Result}
use meta_monutchee.Backend.Profile.{Profile}
use meta_monutchee.Backend.Host.{Host}
use meta_monutchee.Backend.Monad.{Backend}
use meta_monutchee.Backend.State.{State}
use meta_monutchee.Backend.Settle.{settled}
use meta_monutchee.Backend.Network.{finish_network, is_finished, set_author}
use meta_monutchee.Backend.Network.Finish.{Finishes, finish_network-Finishes}

is_finished-settled :
    (commit : Bool) (id actor request : String) (s : State)
    → s.pending.transaction.id ≡ id
    → is_finished id commit (settled commit (set_author actor request s)) ≡ true
is_finished-settled true id actor request s h = ground (arith, eq_iff id s.pending.transaction.id)
is_finished-settled false id actor request s h = ground (arith, eq_iff id s.pending.transaction.id)

module _ (host : Host) (profile : Profile) (id : String) (commit : Bool) where
  finish_network-finished :
      (actor request : String) (b : Backend)
      → is_finished id commit b.state ≡ true
      → finish_network host profile id commit actor request b ≡ (ok tt, b)
  unfolding finish_network
  finish_network-finished actor request b h = ground arith

  -- the state after a call that returned
  Finishes-is_finished :
      (actor request : String) (b b' : Backend)
      → Finishes host profile id commit actor request b (ok _, b')
      → is_finished id commit b'.state ≡ true
  Finishes-is_finished actor request b b' (inl (done, same)) = ground arith
  Finishes-is_finished actor request b b' (inr f) =
      rw f.recorded.stored (is_finished-settled commit id actor request b.state f.same_id)

  -- Once a confirmation or a cancellation has returned, the same call by anybody returns again, calls
  -- nothing outside and changes nothing.
  pub finish_network_again :
      (actor request other_actor other_request : String) (b : Backend) {b' : Backend}
      → finish_network host profile id commit actor request b ≡ (ok tt, b')
      → finish_network host profile id commit other_actor other_request b' ≡ (ok tt, b')
  finish_network_again actor request other_actor other_request b {b'} h =
      finish_network-finished other_actor other_request b' (
        Finishes-is_finished actor request b b' (
          subst (Finishes host profile id commit actor request b) h
            (finish_network-Finishes host profile id commit actor request b)))

  Unrecorded-again :
      (actor request other_actor other_request : String) (b : Backend)
      (r : Result (Unit {0}) × Backend)
      → b.storage_failed ≡ false
      → r.1.storage_failed ≡ true
      → Finishes host profile id commit actor request b r
      → (r.0 ≢ ok tt)
        × (finish_network host profile id commit other_actor other_request r.1 ≡ (ok tt, r.1))
  Unrecorded-again actor request other_actor other_request b (ok _, b') sound failed
        (inl (done, same)) =
      absurd (ground arith)
  Unrecorded-again actor request other_actor other_request b (ok _, b') sound failed (inr f) =
      absurd (ground (arith, f.recorded.is_sound))
  Unrecorded-again actor request other_actor other_request b (err e, b') sound failed (inl h) =
      absurd (ground arith)
  Unrecorded-again actor request other_actor other_request b (err e, b') sound failed
        (inr (inl h)) =
      absurd (ground arith)
  Unrecorded-again actor request other_actor other_request b (err e, b') sound failed
        (inr (inr h)) =
      (
        λ q. cc q,
        finish_network-finished other_actor other_request b'
            (rw h.0 (is_finished-settled commit id actor request b.state h.2)),
      )

  -- If the journal fails while a transaction is settled, the call throws, and the same call again
  -- returns as if the outcome had been stored, though nothing has been.
  pub finish_network_unrecorded :
      (actor request other_actor other_request : String) (b : Backend)
      → b.storage_failed ≡ false
      → (finish_network host profile id commit actor request b).1.storage_failed ≡ true
      → let (r, b') = finish_network host profile id commit actor request b in
        (r ≢ ok tt)
        × (finish_network host profile id commit other_actor other_request b' ≡ (ok tt, b'))
  finish_network_unrecorded actor request other_actor other_request b sound failed =
      Unrecorded-again actor request other_actor other_request b
        (finish_network host profile id commit actor request b) sound failed
        (finish_network-Finishes host profile id commit actor request b)
