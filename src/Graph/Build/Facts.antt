-- ===== src/Graph/Build/Facts.antt =====
-- src/mcpscan/graph/build.py: the target that a credential's key names, and what the builder reads of
-- a trust profile. `str.upper` is a parameter.
use ianua_broker.Trust.Model.{
  trust_factor_Eq, exposure_reach, tool_privilege, TrustFactor, TrustProfile, FactorScore,
  present_factors, trust_factor_value, is_present,
}
use ianua_broker.Prelude.{
  num_Ord, text_Ord, pair_Ord, list_Ord, none, some, [], ◌∷◌, text_Eq, num_Eq, pair_Eq, option_Eq,
  list_Eq, List, String, concat, has_part, sorted, Bool, Option, decimal, if◌then◌else◌, any, ℕ,
  ◌==◌, ◌&&◌, map,
}
use ianua_broker.Domain.{letter}

abbrev pub local_shell_id : String
local_shell_id = "local_shell"

abbrev pub local_shell_label : String
local_shell_label = "Local filesystem / shell"

pub record Target : Type 0 where
  pub needles : List String
  pub target_id : String
  pub label : String

abbrev pub target_catalog : List Target
target_catalog =
    record { needles = "GITHUB" ∷ "GH_TOKEN" ∷ []; target_id = "github"; label = "GitHub" }
    ∷ record { needles = "AWS" ∷ []; target_id = "aws"; label = "AWS" }
    ∷ record { needles = "GCP" ∷ "GOOGLE" ∷ []; target_id = "gcp"; label = "Google Cloud" }
    ∷ record { needles = "AZURE" ∷ []; target_id = "azure"; label = "Azure" }
    ∷ record { needles = "SLACK" ∷ []; target_id = "slack"; label = "Slack" }
    ∷ record {
      needles = "POSTGRES" ∷ "MYSQL" ∷ "DATABASE_URL" ∷ "DB_PASS" ∷ [];
      target_id = "database";
      label = "Database";
    }
    ∷ record {
      needles = "OPENAI" ∷ "ANTHROPIC" ∷ "API_KEY" ∷ [];
      target_id = "llm_provider";
      label = "LLM provider API";
    }
    ∷ record {
      needles = "NPM" ∷ "PYPI" ∷ "REGISTRY" ∷ [];
      target_id = "package_registry";
      label = "Package registry";
    }
    ∷ []

-- The loop over the catalog: the first group with a needle in the key wins.
unfoldable pub first_target : String → List Target → Option (String × String)
unfolding has_part
first_target upper [] = none
first_target upper (target ∷ rest) =
    let later = first_target upper rest in
    if any (λ needle. has_part upper needle) target.needles
    then some (target.target_id, target.label)
    else later

unfoldable pub infer_target : (String → String) → String → Option (String × String)
unfolding first_target
infer_target upper env_key = first_target (upper env_key) target_catalog

abbrev pub is_present_factor : TrustFactor → FactorScore → Bool
is_present_factor factor score = score.factor == factor && is_present score

-- `_present`
unfoldable pub has_factor : TrustProfile → TrustFactor → Bool
has_factor profile factor = any (is_present_factor factor) profile.factors

-- `next((...), "")`
unfoldable pub first_detail : TrustFactor → List FactorScore → String
first_detail factor [] = ""
first_detail factor (score ∷ rest) =
    let later = first_detail factor rest in
    if is_present_factor factor score then score.detail else later

unfoldable pub factor_detail : TrustProfile → TrustFactor → String
unfolding first_detail
factor_detail profile factor = first_detail factor profile.factors

unfoldable pub has_dangerous_tools : TrustProfile → Bool
unfolding has_part factor_detail
has_dangerous_tools profile = has_part (factor_detail profile tool_privilege) "dangerous tool"

unfoldable pub reach_label : TrustProfile → String
unfolding has_part factor_detail
reach_label profile =
    let detail = factor_detail profile exposure_reach in
    if detail == ""
    then ""
    else if has_part detail "private-LAN"
    then "private LAN"
    else "wildcard / public"

unfoldable pub server_detail : TrustProfile → List (String × String)
unfolding sorted letter concat present_factors trust_factor_value
server_detail profile =
    sorted (λ (item : String × String). item)
      (("grade", letter profile.grade)
        ∷ map
            (λ (score : FactorScore).
              (concat ("factor:" ∷ trust_factor_value score.factor ∷ []), score.detail))
            (present_factors profile))

unfoldable pub host_key : String → String
unfolding concat
host_key location = concat ("host:" ∷ location ∷ [])

unfoldable pub server_key : String → String
unfolding concat
server_key subject = concat ("server:" ∷ subject ∷ [])

unfoldable pub entry_key : String → String
unfolding concat
entry_key subject = concat ("entry:" ∷ subject ∷ [])

unfoldable pub cred_key : String × ℕ → String
unfolding concat decimal
cred_key (sha256_8, length) = concat ("cred:" ∷ sha256_8 ∷ ":" ∷ decimal length ∷ [])

unfoldable pub target_key : String → String
unfolding concat
target_key target_id = concat ("target:" ∷ target_id ∷ [])
