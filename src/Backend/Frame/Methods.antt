-- ===== src/Backend/Frame/Methods.antt =====
-- The methods that arm no job ask for no more power calls than there are jobs to hand over.
use meta_monutchee.Base.{String, Bool, List, [], ◌∷◌, arith, Bool-cases, inl, inr}
use meta_monutchee.System.{Configuration, NetworkProposal, NetworkStatus}
use meta_monutchee.Backend.Profile.{Profile}
use meta_monutchee.Backend.Host.{Host}
use meta_monutchee.Backend.Journal.{persist, idle, check_id}
use meta_monutchee.Backend.Observe.{
  observe_link, observe_links, observe_network, link_event, Carriers, modify_carriers,
}
use meta_monutchee.Backend.Settle.{settle_network, is_durably_committed, recover_network}
use meta_monutchee.Backend.Apply.{
  apply, check_configuration, push_preferences, store_preferences, restore_preferences,
}
use meta_monutchee.Backend.Network.{
  check_hashes, open_transaction, remaining, check_finish, finish_network,
}
use meta_monutchee.Backend.Frame.{Frames, Frames-bind, frame_rules}

module _ (host : Host) where
  pub idle-Frames : Frames host idle
  unfolding idle
  idle-Frames = search frame_rules

  pub persist-Frames : Frames host (persist host)
  unfolding persist
  persist-Frames = record { at = λ b. ground arith }

  pub check_id-Frames : (id : String) → Frames host (check_id id)
  unfolding check_id
  check_id-Frames id = search frame_rules

  pub settle_network-Frames :
      (commit boot : Bool) (reason : String) → Frames host (settle_network host commit boot reason)
  unfolding settle_network
  settle_network-Frames commit boot reason = search (frame_rules, persist-Frames) depth 12

  is_durably_committed-Frames : Frames host (is_durably_committed host)
  unfolding is_durably_committed
  is_durably_committed-Frames = search frame_rules depth 12

  pub recover_network-Frames : (boot : Bool) → Frames host (recover_network host boot)
  unfolding recover_network
  recover_network-Frames boot =
      search (frame_rules, is_durably_committed-Frames, settle_network-Frames) depth 12

  push_preferences-Frames :
      (profile : Profile) (c : Configuration) → Frames host (push_preferences host profile c)
  unfolding push_preferences
  push_preferences-Frames profile c = search frame_rules depth 12

  pub check_configuration-Frames :
      (profile : Profile) (c : Configuration) → Frames host (check_configuration host profile c)
  unfolding check_configuration
  check_configuration-Frames profile c = search frame_rules depth 12

  store_preferences-Frames :
      (profile : Profile) (c : Configuration) → Frames host (store_preferences host profile c)
  unfolding store_preferences
  store_preferences-Frames profile c =
      search (frame_rules, persist-Frames, push_preferences-Frames) depth 12

  restore_preferences-Frames :
      (profile : Profile) (c : Configuration) → Frames host (restore_preferences host profile c)
  unfolding restore_preferences
  restore_preferences-Frames profile c =
      search (frame_rules, persist-Frames, push_preferences-Frames) depth 12

  pub apply-Frames : (profile : Profile) (c : Configuration) → Frames host (apply host profile c)
  unfolding apply
  apply-Frames profile c =
      search
        (
          frame_rules, idle-Frames, check_configuration-Frames, store_preferences-Frames,
          restore_preferences-Frames,
        )
        depth 16

  pub remaining-Frames : (profile : Profile) → Frames host (remaining host profile)
  unfolding remaining
  remaining-Frames profile = search frame_rules depth 12

  pub check_hashes-Frames :
      (profile : Profile) (p : NetworkProposal) → Frames host (check_hashes host profile p)
  unfolding check_hashes
  check_hashes-Frames profile p = search frame_rules depth 12

  pub open_transaction-Frames :
      (profile : Profile) (p : NetworkProposal) (actor request : String)
      → Frames host (open_transaction host profile p actor request)
  unfolding open_transaction
  open_transaction-Frames profile p actor request =
      search (frame_rules, persist-Frames, settle_network-Frames) depth 16

  check_finish-Frames :
      (profile : Profile) (commit : Bool) → Frames host (check_finish host profile commit)
  unfolding check_finish
  check_finish-Frames profile commit = search frame_rules depth 16

  pub finish_network-Frames :
      (profile : Profile) (id : String) (commit : Bool) (actor request : String)
      → Frames host (finish_network host profile id commit actor request)
  unfolding finish_network
  finish_network-Frames profile id commit actor request =
      search (frame_rules, check_id-Frames, check_finish-Frames, settle_network-Frames) depth 16

  link_event-Frames : (link : NetworkStatus) → Frames host (link_event link)
  unfolding link_event
  link_event-Frames link = elim (Bool-cases link.carrier) [
    | inl up ↦ rw up (search frame_rules)
    | inr down ↦ rw down (search frame_rules)
  ]

  -- the baselines of the observer are neither a job nor a call
  pub Frames-modify_carriers : (f : Carriers → Carriers) → Frames host (modify_carriers f)
  Frames-modify_carriers f = record { at = λ b. record { budget = omega arith; safety = λ s. s } }

  observe_link-Frames :
      (profile : Profile) (link : NetworkStatus) → Frames host (observe_link profile link)
  unfolding observe_link
  observe_link-Frames profile link =
      search (frame_rules, Frames-modify_carriers, link_event-Frames) depth 16

  observe_links-Frames :
      (profile : Profile) (links : List NetworkStatus) → Frames host (observe_links profile links)
  unfolding observe_links
  observe_links-Frames profile [] = search frame_rules
  observe_links-Frames profile (link ∷ rest) =
      Frames-bind host (observe_link profile link) (λ _. observe_links profile rest)
        (observe_link-Frames profile link) (λ _. observe_links-Frames profile rest)

  pub observe_network-Frames : (profile : Profile) → Frames host (observe_network host profile)
  unfolding observe_network
  observe_network-Frames profile =
      search (frame_rules, Frames-modify_carriers, observe_links-Frames) depth 16
