-- ===== src/Trust/Relationships.antt =====
-- src/mcpscan/trust/analyze.py: the dangerous combinations of factors.
pub mod Table
use ianua_broker.Prelude.{
  num_Ord, text_Ord, pair_Ord, list_Ord, num_Eq, text_Eq, pair_Eq, option_Eq, list_Eq, Bool, List,
  if◌then◌else◌, contains, ◌∷◌, [], ◌&&◌,
}
use ianua_broker.Trust.Model.{
  RiskRelationship, TrustFactor, autonomy, code_provenance, exposure_reach, secret_access,
  tool_privilege, trust_factor_Eq,
}

-- `F in active` of two factors
abbrev pub both : List TrustFactor → TrustFactor → TrustFactor → Bool
both active a b = contains a active && contains b active

abbrev pub autonomous_exfil_path : RiskRelationship
autonomous_exfil_path = record {
  id = "AUTONOMOUS-EXFIL-PATH";
  title = "Autonomous exfiltration path";
  rationale =
      "This tool holds credentials, wields dangerous/wildcard tools, AND auto-approves — so it can read secrets and act on them with no human in the loop, the mechanism behind the report's worst-prevented vector (data exfiltration).";
  factors = autonomy ∷ tool_privilege ∷ secret_access ∷ [];
}

abbrev pub privileged_secret_holder : RiskRelationship
privileged_secret_holder = record {
  id = "PRIVILEGED-SECRET-HOLDER";
  title = "Privileged secret holder";
  rationale =
      "This tool both holds credentials and wields dangerous/wildcard tools — a single compromise leaks the secrets and the power to use them.";
  factors = secret_access ∷ tool_privilege ∷ [];
}

abbrev pub autonomous_privileged : RiskRelationship
autonomous_privileged = record {
  id = "AUTONOMOUS-PRIVILEGED";
  title = "Autonomous privileged tool";
  rationale =
      "Dangerous/wildcard tools are auto-approved, so they run with no human in the loop — the agent can take powerful actions unsupervised.";
  factors = autonomy ∷ tool_privilege ∷ [];
}

abbrev pub autonomous_secret_holder : RiskRelationship
autonomous_secret_holder = record {
  id = "AUTONOMOUS-SECRET-HOLDER";
  title = "Autonomous secret holder";
  rationale =
      "The tool auto-approves actions while holding credentials, so those credentials can be used without a human approving each call.";
  factors = autonomy ∷ secret_access ∷ [];
}

abbrev pub unvetted_privileged : RiskRelationship
unvetted_privileged = record {
  id = "UNVETTED-PRIVILEGED";
  title = "Unvetted privileged code";
  rationale =
      "Unpinned, remotely-fetched code is granted dangerous/wildcard tools — a supply-chain change could exercise them on the next run.";
  factors = code_provenance ∷ tool_privilege ∷ [];
}

abbrev pub exposed_privileged : RiskRelationship
exposed_privileged = record {
  id = "EXPOSED-PRIVILEGED";
  title = "Network-reachable privileged tool";
  rationale =
      "A network-reachable server also wields dangerous/wildcard tools — remote reach into powerful actions.";
  factors = exposure_reach ∷ tool_privilege ∷ [];
}

-- `if test: rels.append(rel)`, ahead of the ones that follow
abbrev pub add_if : Bool → RiskRelationship → List RiskRelationship → List RiskRelationship
add_if test rel rest = if test then rel ∷ rest else rest

unfoldable pub relationships_of : List TrustFactor → List RiskRelationship
relationships_of active =
    add_if (both active autonomy tool_privilege && contains secret_access active)
      autonomous_exfil_path
      (add_if (both active secret_access tool_privilege) privileged_secret_holder (
        add_if (both active autonomy tool_privilege) autonomous_privileged (
          add_if (both active autonomy secret_access) autonomous_secret_holder (
            add_if (both active code_provenance tool_privilege) unvetted_privileged
              (add_if (both active exposure_reach tool_privilege) exposed_privileged [])))))
