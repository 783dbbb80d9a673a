-- ===== src/Backend/Observe.antt =====
-- `observeNetwork` of daemon/storage.cpp. `carriers_` is an association list.
use meta_monutchee.Base.{
  String, Bool, false, not, List, [], ◌∷◌, ◌==◌, string_eq, Option, none, some, any, keep_if,
  if◌then◌else◌,
}
use meta_monutchee.System.{ok, NetworkStatus, bool_eq}
use meta_monutchee.Logging.Priority.{info, warning}
use meta_monutchee.Backend.Profile.{Profile, InterfacePolicy}
use meta_monutchee.Backend.Host.{Effect, Host}
use meta_monutchee.Backend.Monad.{M, pure, gets, ask, when, catch, ◌>>=◌, ◌>>◌}
use meta_monutchee.Backend.Journal.{event, audited}

abbrev pub Carriers : Type 0
Carriers = List (String × Bool)

unfoldable pub carrier_of : String → Carriers → Option Bool
carrier_of name [] = none
carrier_of name ((key, up) ∷ rest) = if key == name then some up else carrier_of name rest

-- `carriers_[name] = up`
unfoldable pub set_carrier : String → Bool → Carriers → Carriers
set_carrier name up [] = (name, up) ∷ []
set_carrier name up ((key, old) ∷ rest) =
    if key == name then (key, up) ∷ rest else (key, old) ∷ set_carrier name up rest

-- the `std::erase_if`: links that are no longer observed lose their baseline
abbrev pub forget_missing : List NetworkStatus → Carriers → Carriers
forget_missing links =
    keep_if (λ (entry : String × Bool). any (λ (l : NetworkStatus). l.interface == entry.0) links)

abbrev pub modify_carriers : (Carriers → Carriers) → M (Unit {0})
modify_carriers f b = (ok tt, record b { carriers = f b.carriers })

abbrev changed : Option Bool → Bool → Bool
changed none up = false
changed (some before) up = not (before == up)

abbrev is_managed : Profile → String → Bool
is_managed profile name = any (λ (p : InterfacePolicy). p.name == name) profile.interfaces

unfoldable pub link_event : NetworkStatus → M (Unit {0})
unfolding event
link_event link =
    if link.carrier
    then event info (
        audited "network_recovered" "network" "Network connection restored" "system" "link"
          "recovered" link.interface "")
    else event warning (
        audited "network_down" "network" "Network connection lost" "system" "link" "failed"
          link.interface "")

-- the body of the loop over the links
unfoldable pub observe_link : Profile → NetworkStatus → M (Unit {0})
observe_link profile link = when (is_managed profile link.interface) (do
  previous ← gets (λ b. carrier_of link.interface b.carriers)
  when (changed previous link.carrier) (link_event link)
  modify_carriers (set_carrier link.interface link.carrier))

unfoldable pub observe_links : Profile → List NetworkStatus → M (Unit {0})
observe_links profile [] = pure tt
observe_links profile (link ∷ rest) = observe_link profile link >> observe_links profile rest

module _ (host : Host) (profile : Profile) where
  -- No failure leaves it.
  unfoldable pub observe_network : M (Unit {0})
  observe_network =
      catch
        (do
          links ← ask Effect.network_links host.network_links
          modify_carriers (forget_missing links)
          observe_links profile links)
        (λ _. pure tt)
