-- ===== src/Checks/Exposure.antt =====
-- src/mcpscan/checks/exposure.py and config_health.py: the findings on an observed listener and on a
-- configuration that could not be read. `repr` and `ipaddress` are parameters.
pub mod Quiet
use mathlib.Core.Option
use ianua_broker.Domain.{exposure, info, tool_scope, medium, Location, Finding, Severity}
use ianua_broker.Discovery.Reach.{
  loopback, private_lan, public_routable, wildcard, ReachTier, IpAddress, classify_exposure,
  classify_reachability, is_loopback_tier,
}
use ianua_broker.Prelude.{
  num_Ord, text_Ord, pair_Ord, list_Ord, zero, suc, refl, inl, inr, true, false, none, some, [],
  ◌∷◌, text_Eq, num_Eq, pair_Eq, option_Eq, list_Eq, Bool, Option, String, concat, List, decimal,
  if◌then◌else◌, join, not, is_empty, ◌++◌, ◌==◌,
}
use ianua_broker.Inventory.Classify.{ListeningSocket}

pub data ListenerIdentity : Type 0 where
  unknown_identity non_mcp verified_mcp : ListenerIdentity

abbrev pub is_verified : ListenerIdentity → Bool
is_verified verified_mcp = true
is_verified _ = false

-- `_TIER_LABEL`, which has no label for the loopback tier: no finding asks for one
abbrev pub tier_label : ReachTier → String
tier_label loopback = ""
tier_label private_lan = "private-LAN bind"
tier_label public_routable = "public-routable bind"
tier_label wildcard = "wildcard bind"

-- A text that may be missing, as a truth value
abbrev pub given_text : Option String → Bool
given_text none = false
given_text (some s) = not (s == "")

module _ (repr : String → String) where
  unfoldable pub attribution_parts : ListeningSocket → List String
  unfolding concat decimal
  attribution_parts sock =
      (if given_text sock.proc_name
        then concat ("process " ∷ repr (Option.get_or sock.proc_name "") ∷ []) ∷ []
        else [])
      ++ (elim sock.pid as (λ _. List String) [
        | none ↦ []
        | some pid ↦ concat ("pid " ∷ decimal pid ∷ []) ∷ []
      ])

  unfoldable pub attribution : ListeningSocket → String
  unfolding attribution_parts join
  attribution sock =
      let parts = attribution_parts sock in
      if is_empty parts then "process attribution unavailable" else join ", " parts

abbrev pub where_of : ListeningSocket → String
where_of sock = concat (sock.ip ∷ ":" ∷ decimal sock.port ∷ [])

abbrev pub evidence_text : Option String → String
evidence_text evidence =
    if given_text evidence
    then concat (" Identity evidence: " ∷ Option.get_or evidence "" ∷ "." ∷ [])
    else ""

-- `identity_phrase.capitalize()` and the start of the rationale
abbrev pub identity_phrase : ListenerIdentity → String
identity_phrase non_mcp = "Non-mcp listener"
identity_phrase _ = "Unverified listener"

abbrev pub rationale_prefix : ListenerIdentity → String
rationale_prefix non_mcp =
    "Available identity evidence indicates this listener is not an MCP service."
rationale_prefix _ = "No MCP identity or protocol evidence is available for this listener."

abbrev pub at_socket : ListeningSocket → Location
at_socket sock = record { path = where_of sock; line = none }

module _ (repr : String → String) (ip_address : IpAddress) where
  unfoldable pub observed_finding :
      ListeningSocket → ListenerIdentity → Option String → ReachTier → Finding
  unfolding concat decimal attribution
  observed_finding sock identity evidence tier = record {
    id = "LISTENER-OBSERVED";
    dimension = exposure;
    severity = info;
    title = concat (
        identity_phrase identity
        ∷ " observed ("
        ∷ tier_label tier
        ∷ " "
        ∷ where_of sock
        ∷ ")"
        ∷ []);
    location = at_socket sock;
    remediation =
        "Review the owning process and intended bind. If this service should be local-only, bind it to loopback or restrict it with host/network policy.";
    rationale = concat (
        rationale_prefix identity
        ∷ " Socket attribution: "
        ∷ attribution repr sock
        ∷ "."
        ∷ evidence_text evidence
        ∷ " The bind address alone does not establish MCP identity, Internet reachability, or missing authentication."
        ∷ []);
    secret = none;
    acceptance = none;
  }

  unfoldable pub observation : ListeningSocket → ListenerIdentity → Option String → List Finding
  unfolding classify_reachability observed_finding
  observation sock identity evidence =
      let tier = classify_reachability ip_address sock.ip in
      if is_loopback_tier tier then [] else observed_finding sock identity evidence tier ∷ []

  unfoldable pub exposed_finding : ListeningSocket → Option String → Severity → Finding
  unfolding concat decimal classify_reachability
  exposed_finding sock evidence severity =
      let bind_phrase = tier_label (classify_reachability ip_address sock.ip) in
      record {
        id = "EXPOSE-BIND";
        dimension = exposure;
        severity = severity;
        title =
            concat ("Verified MCP server uses " ∷ bind_phrase ∷ " (" ∷ where_of sock ∷ ")" ∷ []);
        location = at_socket sock;
        remediation =
            "Bind the MCP server to loopback when remote access is unnecessary. If remote access is required, restrict network reach and require authentication.";
        rationale = concat (
            "The verified MCP service is bound beyond loopback via a "
            ∷ bind_phrase
            ∷ ". That expands the socket-level exposure surface; actual external reachability still depends on routing and firewall policy."
            ∷ evidence_text evidence
            ∷ []);
        secret = none;
        acceptance = none;
      }

  unfoldable pub check_socket_exposure :
      ListeningSocket → ListenerIdentity → Option String → List Finding
  unfolding classify_exposure observation exposed_finding
  check_socket_exposure sock identity evidence = elim (classify_exposure ip_address sock.ip) [
    | none ↦ []
    | some severity ↦
        if is_verified identity
        then exposed_finding sock evidence severity ∷ []
        else observation sock identity evidence
  ]

unfoldable pub check_config_readable : String → Option String → List Finding
unfolding concat
check_config_readable path none = []
check_config_readable path (some failure) =
    record {
      id = "CONFIG-UNREADABLE";
      dimension = tool_scope;
      severity = medium;
      title = "Host config could not be read or parsed";
      location = record { path = path; line = none };
      remediation =
          "Repair the file so it parses (validate its JSON/YAML), or restore read access and keep it under the size cap. Until then this config's servers, permissions, and secrets are un-inspected — review it by hand.";
      rationale = concat (
          "The scanner could not inspect this config: " ∷ failure
          ∷ ". An agent host may still load it, so any auto-approval, permission grant, or plaintext credential inside is unaudited — an unparseable file is the cheapest way to hide a server from a scanner."
          ∷ []);
      secret = none;
      acceptance = none;
    }
    ∷ []
