-- ===== src/Checks/Exposure/Quiet.antt =====
-- A listener that is not known to be an MCP server costs no points.

use ianua_broker.Prelude.{
  num_Ord, text_Ord, pair_Ord, list_Ord, refl, false, none, some, [], ◌∷◌, text_Eq, num_Eq, pair_Eq,
  option_Eq, list_Eq, String, Option, ◌≡◌, All, List, if◌then◌else◌, if_rule,
}
use ianua_broker.Checks.Exposure.{
  check_socket_exposure, observation, observed_finding, ListenerIdentity, is_verified,
  exposed_finding,
}
use ianua_broker.Domain.{weight, Finding, Severity}
use ianua_broker.Discovery.Reach.{
  IpAddress, is_loopback_tier, classify_reachability, classify_exposure,
}
use ianua_broker.Inventory.Classify.{ListeningSocket}

-- Without a verified MCP identity every finding on a listener is informational, so it weighs nothing.
check_socket_exposure-informational :
    (repr : String → String) (ip_address : IpAddress) (sock : ListeningSocket)
    (identity : ListenerIdentity) (evidence : Option String)
    → is_verified identity ≡ false
    → All
        (λ (f : Finding). weight f.severity ≡ 0)
        (check_socket_exposure repr ip_address sock identity evidence)
unfolding check_socket_exposure observation observed_finding weight
check_socket_exposure-informational repr ip_address sock identity evidence unverified =
    go (classify_exposure ip_address sock.ip)
  where
    go :
        (m : Option Severity)
        → All
            (λ (f : Finding). weight f.severity ≡ 0)
            (elim m as (λ _. List Finding) [
              | none ↦ []
              | some severity ↦
                  if is_verified identity
                  then exposed_finding repr ip_address sock evidence severity ∷ []
                  else observation repr ip_address sock identity evidence
            ])
    go none = tt
    go (some severity) = rw unverified (
        if_rule (All (λ (f : Finding). weight f.severity ≡ 0))
          (is_loopback_tier (classify_reachability ip_address sock.ip)) [] _ (λ _. tt)
          (λ _. (refl, tt)))
