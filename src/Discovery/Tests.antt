-- ===== src/Discovery/Tests.antt =====
-- The address of a local network.
use ianua_broker.Prelude.{
  num_Ord, text_Ord, pair_Ord, list_Ord, refl, true, false, none, some, text_Eq, num_Eq, pair_Eq,
  option_Eq, list_Eq, if◌then◌else◌, ◌≡◌, ◌==◌, ◌↔◌, ◌||◌,
}
use ianua_broker.Discovery.Reach.{Address, IpAddress, classify_exposure, is_loopback}
use ianua_broker.Domain.{high, critical}
use ianua_broker.Discovery.Reach.Exposure.{classify_exposure_exact, is_lan_only}

abbrev lan_address : Address
lan_address = record {
  is_loopback_address = false;
  is_unspecified = false;
  is_private = true;
  is_link_local = false;
}

abbrev parses : IpAddress
parses ip = if ip == "192.168.1.7" then some lan_address else none

severity_on_lan : classify_exposure parses "192.168.1.7" ≡ some high
unfolding classify_exposure
severity_on_lan = refl

classify_exposure_exact_example :
    ((classify_exposure parses "192.168.1.7" ≡ none) ↔ (is_loopback parses "192.168.1.7" ≡ true))
    × ((classify_exposure parses "192.168.1.7" ≡ some high)
        ↔ (is_lan_only parses "192.168.1.7" ≡ true))
    × ((classify_exposure parses "192.168.1.7" ≡ some critical)
        ↔ (is_loopback parses "192.168.1.7" || is_lan_only parses "192.168.1.7" ≡ false))
classify_exposure_exact_example = classify_exposure_exact parses "192.168.1.7"
