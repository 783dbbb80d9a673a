-- ===== src/Validation/Network.antt =====
-- `validateNetwork` and `validInterfaceName` of validation.cpp. With `w = 32 - prefix_length` the
-- bits of an address under `mask` are its quotient by `2 ^ w`, and those under `~mask` its remainder.
pub mod Sound
use meta_monutchee.Base.{
  ℕ, ◌-◌, ◌%◌, ◌/◌, ◌^◌, Bool, ◌&&◌, ◌||◌, not, List, [], ◌∷◌, String, ltb, leb, nat_beq, string_eq,
  nat_eq, codes, size, empty, is_alnum, length, all, count_if, contains,
}
use meta_monutchee.System.{
  Result, ok, ◌>>=◌, ◌>>◌, check, when, NetworkConfig, NetworkMode, dhcp, static_ipv4,
}
use meta_monutchee.Validation.Ipv4.{ipv4}

abbrev pub is_interface_char : ℕ → Bool
is_interface_char c = is_alnum c || nat_beq c b'_' || nat_beq c b'-'

-- `validInterfaceName`
unfoldable pub valid_interface_name : String → Bool
valid_interface_name name =
    not (empty name) && ltb (size name) 16 && all is_interface_char (codes name)

-- `for (const auto &dns : c.dns_servers) (void)ipv4(dns);`
unfoldable pub check_dns : List String → Result (Unit {0})
check_dns [] = ok tt
check_dns (dns ∷ rest) = do ipv4 dns; check_dns rest

abbrev pub host_part : ℕ → ℕ → ℕ
host_part prefix address = address % 2 ^ (32 - prefix)

abbrev pub network_part : ℕ → ℕ → ℕ
network_part prefix address = address / 2 ^ (32 - prefix)

-- neither the network address nor the broadcast address of the subnet
abbrev pub is_host : ℕ → ℕ → Bool
is_host prefix address =
    not (nat_beq (host_part prefix address) 0)
    && not (nat_beq (host_part prefix address) (2 ^ (32 - prefix) - 1))

unfoldable pub check_gateway : NetworkConfig → ℕ → Result (Unit {0})
check_gateway c address = when (not (empty c.gateway)) do
  gateway ← ipv4 c.gateway
  check
      (not (nat_beq gateway address)
        && nat_beq (network_part c.prefix_length gateway) (network_part c.prefix_length address))
      "gateway must be a different address on the subnet"
  when (ltb c.prefix_length 31)
      (check (is_host c.prefix_length gateway) "gateway cannot be a network or broadcast address")

unfoldable pub check_static : NetworkConfig → Result (Unit {0})
unfolding check_gateway
check_static c = do
  check (leb 1 c.prefix_length && leb c.prefix_length 32) "invalid IPv4 prefix"
  check (not c.preferred_default || not (empty c.gateway))
      "preferred static interface requires a gateway"
  address ← ipv4 c.address
  when (ltb c.prefix_length 31)
      (check (is_host c.prefix_length address) "network/broadcast address is not a host")
  check_gateway c address

-- the branch on `c.mode`
unfoldable pub check_mode : NetworkMode → NetworkConfig → Result (Unit {0})
unfolding check_static
check_mode dhcp c =
    check (empty c.address && empty c.gateway) "DHCP cannot specify a static address or gateway"
check_mode static_ipv4 c = check_static c

-- the body of the loop, with the names seen so far
unfoldable pub check_config : List String → NetworkConfig → Result (Unit {0})
unfolding valid_interface_name check_dns check_mode
check_config names c = do
  check (valid_interface_name c.interface) "invalid interface name"
  check (not (contains c.interface names)) "duplicate interface"
  check (leb (length c.dns_servers) 4) "too many DNS servers"
  check_dns c.dns_servers
  check_mode c.mode c

unfoldable pub check_configs : List String → List NetworkConfig → Result (Unit {0})
unfolding check_config
check_configs names [] = ok tt
check_configs names (c ∷ rest) = do check_config names c; check_configs (c.interface ∷ names) rest

-- `validateNetwork`
unfoldable pub validate_network : List NetworkConfig → Result (Unit {0})
unfolding check_configs
validate_network configs = do
  check (leb (length configs) 8) "too many network interfaces"
  check (leb (count_if (λ (c : NetworkConfig). c.preferred_default) configs) 1)
      "only one preferred default interface is allowed"
  check_configs [] configs
