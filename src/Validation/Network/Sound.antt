-- ===== src/Validation/Network/Sound.antt =====
-- What an accepted network configuration satisfies.
use meta_monutchee.Base.{
  ℕ, ◌≤◌, true, false, ◌≡◌, ◌≢◌, arith, List, [], ◌∷◌, String, contains, length, count_if, empty,
  All, inl, inr, string_eq,
}
use meta_monutchee.System.{ok, Result-cases, NetworkConfig, dhcp, static_ipv4}
use meta_monutchee.Validation.Ipv4.{ipv4}
use meta_monutchee.Validation.Network.{
  valid_interface_name, check_dns, check_gateway, check_static, check_mode, check_config,
  check_configs, validate_network, network_part, is_host,
}

-- a gateway on the same subnet
pub record HasGateway (c : NetworkConfig) (address : ℕ) : Type 0 where
  gateway : ℕ
  is_gateway : ipv4 c.gateway ≡ ok gateway
  other : gateway ≢ address
  same_subnet : network_part c.prefix_length gateway ≡ network_part c.prefix_length address
  not_reserved : c.prefix_length ≤ 30 → is_host c.prefix_length gateway ≡ true

pub record IsStaticSound (c : NetworkConfig) : Type 0 where
  address : ℕ
  is_address : ipv4 c.address ≡ ok address
  at_least : 1 ≤ c.prefix_length
  at_most : c.prefix_length ≤ 32
  not_reserved : c.prefix_length ≤ 30 → is_host c.prefix_length address ≡ true
  preferred : c.preferred_default ≡ true → empty c.gateway ≡ false
  reachable : empty c.gateway ≡ false → HasGateway c address

check_gateway-HasGateway :
    (c : NetworkConfig) (address : ℕ)
    → check_gateway c address ≡ ok tt
    → empty c.gateway ≡ false
    → HasGateway c address
unfolding check_gateway
check_gateway-HasGateway c address h k = elim (Result-cases (ipv4 c.gateway)) [
  | inl (g, e) ↦ record {
    gateway = g;
    is_gateway = e;
    other = ground arith;
    same_subnet = ground arith;
    not_reserved = λ s. ground arith;
  }
  | inr (x, e) ↦ absurd (ground arith)
]

check_static-IsStaticSound : (c : NetworkConfig) → check_static c ≡ ok tt → IsStaticSound c
unfolding check_static
check_static-IsStaticSound c h = elim (Result-cases (ipv4 c.address)) [
  | inl (a, e) ↦ record {
    address = a;
    is_address = e;
    at_least = ground arith;
    at_most = ground arith;
    not_reserved = λ s. ground arith;
    preferred = λ s. ground arith;
    reachable = check_gateway-HasGateway c a (ground arith);
  }
  | inr (x, e) ↦ absurd (ground arith)
]

-- no two interfaces have one name, and none is among `seen`
abbrev pub Distinct : List String → List NetworkConfig → Type 0
Distinct seen [] = Unit
Distinct seen (c ∷ cs) = (contains c.interface seen ≡ false) × Distinct (c.interface ∷ seen) cs

-- What an accepted configuration of one interface satisfies.
pub record IsSound (c : NetworkConfig) : Type 0 where
  name : valid_interface_name c.interface ≡ true
  servers : length c.dns_servers ≤ 4
  dns_servers : check_dns c.dns_servers ≡ ok tt
  dynamic : c.mode ≡ dhcp → (empty c.address ≡ true) × (empty c.gateway ≡ true)
  fixed : c.mode ≡ static_ipv4 → IsStaticSound c

check_config-IsSound :
    (seen : List String) (c : NetworkConfig)
    → check_config seen c ≡ ok tt
    → (contains c.interface seen ≡ false) × IsSound c
unfolding check_config check_mode
check_config-IsSound seen c h = (
  ground arith,
  record {
    name = ground arith;
    servers = ground arith;
    dns_servers = ground arith;
    dynamic = λ m. ground arith;
    fixed = λ m. check_static-IsStaticSound c (ground arith);
  },
)

check_configs-IsSound :
    (seen : List String) (cs : List NetworkConfig)
    → check_configs seen cs ≡ ok tt
    → Distinct seen cs × All IsSound cs
unfolding check_configs
check_configs-IsSound seen [] h = (tt, tt)
check_configs-IsSound seen (c ∷ cs) h =
    let (fresh, sound) = check_config-IsSound seen c (ground arith) in
    let (distinct, all) = check_configs-IsSound (c.interface ∷ seen) cs (ground arith) in
    ((fresh, distinct), (sound, all))

-- An accepted network configuration has at most eight interfaces with different valid names, of
-- which at most one is preferred, each with at most four accepted DNS servers; a dynamic interface
-- has no address and no gateway; a static one has an accepted address and a prefix from 1 to 32, and
-- its gateway, if it has one, is another accepted address with the same network part; with a prefix
-- of at most 30, neither is the network or the broadcast address; a preferred static interface has a
-- gateway.
pub validate_network-IsSound :
    (cs : List NetworkConfig)
    → validate_network cs ≡ ok tt
    → (length cs ≤ 8)
      × (count_if (λ (c : NetworkConfig). c.preferred_default) cs ≤ 1)
      × Distinct [] cs
      × All IsSound cs
unfolding validate_network
validate_network-IsSound cs h =
    let (distinct, all) = check_configs-IsSound [] cs (ground arith) in
    (ground arith, ground arith, distinct, all)
