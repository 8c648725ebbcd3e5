-- ===== src/Discovery/Reach.antt =====
-- src/mcpscan/discovery/sockets.py: how far a bind address can be reached. `ipaddress.ip_address` is
-- a parameter, with the four properties of an address that the code reads.
pub mod Exposure
use ianua_broker.Prelude.{
  num_Ord, text_Ord, pair_Ord, list_Ord, num_Eq, text_Eq, pair_Eq, option_Eq, list_Eq, Bool, true,
  Option, String, if◌then◌else◌, none, ◌==◌, ◌||◌, false, some,
}
use ianua_broker.Domain.{Severity, high, critical}

pub data ReachTier : Type 0 where
  loopback private_lan public_routable wildcard : ReachTier

unfoldable pub tier_value : ReachTier → String
tier_value loopback = "loopback"
tier_value private_lan = "private_lan"
tier_value public_routable = "public_routable"
tier_value wildcard = "wildcard"

abbrev pub is_loopback_tier : ReachTier → Bool
is_loopback_tier loopback = true
is_loopback_tier _ = false

pub record Address : Type 0 where
  pub is_loopback_address : Bool
  pub is_unspecified : Bool
  pub is_private : Bool
  pub is_link_local : Bool

-- `none` is the ValueError of a text that is no address.
abbrev pub IpAddress : Type 0
IpAddress = String → Option Address

unfoldable pub is_loopback : IpAddress → String → Bool
is_loopback ip_address host =
    host == "localhost"
    || elim (ip_address host) [ none ↦ false | some addr ↦ addr.is_loopback_address ]

unfoldable pub is_wildcard : String → Bool
is_wildcard host = host == "0.0.0.0" || host == "::" || host == ""

unfoldable pub classify_address : Address → ReachTier
classify_address addr =
    if addr.is_unspecified
    then wildcard
    else if addr.is_private || addr.is_link_local
    then private_lan
    else public_routable

unfoldable pub classify_reachability : IpAddress → String → ReachTier
unfolding is_loopback is_wildcard classify_address
classify_reachability ip_address ip =
    if is_loopback ip_address ip
    then loopback
    else if is_wildcard ip
    then wildcard
    else elim (ip_address ip) [ none ↦ public_routable | some addr ↦ classify_address addr ]

-- `_TIER_SEVERITY`
unfoldable pub tier_severity : ReachTier → Option Severity
tier_severity loopback = none
tier_severity private_lan = some high
tier_severity public_routable = some critical
tier_severity wildcard = some critical

unfoldable pub classify_exposure : IpAddress → String → Option Severity
unfolding tier_severity classify_reachability
classify_exposure ip_address ip = tier_severity (classify_reachability ip_address ip)
