-- ===== src/Trust/Tests.antt =====
-- Two servers that share a credential; one of them runs a shell unasked.
use ianua_broker.Trust.Model.{trust_factor_Eq, tool_privilege, autonomy, TrustProfile}
use ianua_broker.Prelude.{
  num_Ord, text_Ord, pair_Ord, list_Ord, refl, true, false, none, some, [], ◌∷◌, num_Eq, text_Eq,
  pair_Eq, option_Eq, list_Eq, Dict, Perm, String, List, keys, ◌≡◌, ◌≤◌, IsSorted, contains, map,
  select, ℕ, ◌↔◌, All, ◌==◌, ◌⊎◌,
}
use ianua_broker.Trust.Shared.{
  apply_shared_credentials, config_credential_fingerprints, peers_of, members_at, share_profile,
  FingerprintKey,
}
use ianua_broker.Checks.ToolScope.{ServerDecl}
use ianua_broker.Trust.Relationships.{relationships_of}
use ianua_broker.Trust.Factors.{ServerChecks}
use ianua_broker.Trust.Profiles.{ParsedConfig, profile_server, analyze_config, build_trust_report}
use ianua_broker.Domain.{SecretFingerprint, Finding, credential, grade_d, high, grade_Eq, grade_a}
use ianua_broker.Scoring.{grade_index}
use ianua_broker.Trust.Profiles.Laws.{profile_server-risky}
use ianua_broker.Trust.Relationships.Table.{is_active, table, relationships_of_exact}
use ianua_broker.Trust.Profiles.Report.{build_trust_report_lem}
use ianua_broker.Trust.Shared.Exact.{holds, apply_shared_credentials_exact, IsTold}

abbrev print_of : String → SecretFingerprint
print_of digest = record { masked = "ghp_…"; sha256_8 = digest; length = 40 }

abbrev secret_found : ServerDecl → String → List Finding
secret_found server path =
    record {
      id = "CRED-1";
      dimension = credential;
      severity = high;
      title = server.name;
      location = record { path = path; line = none };
      remediation = "move it";
      rationale = "it leaks";
      secret = some (print_of "0011aabb");
      acceptance = none;
    }
    ∷ []

abbrev checks : ServerChecks
checks = record {
  ip_address = λ s. none;
  upper = λ s. s;
  check_server_env = secret_found;
  check_server_pinning = λ server path. [];
}

abbrev server_named : String → List String → ServerDecl
server_named name auto_approve = record {
  name = name;
  command = some "node";
  args = "--host" ∷ "0.0.0.0" ∷ [];
  env = ("TOKEN", "x") ∷ [];
  auto_approve = auto_approve;
}

abbrev shell : ServerDecl
shell = server_named "shell" ("run_command" ∷ [])

abbrev config : ParsedConfig
config = record {
  path = "~/.mcp.json";
  servers = shell ∷ server_named "mail" [] ∷ [];
  allow_permissions = [];
  parse_error = none;
}

-- 100 less 25 for the credential, 25 for the shell, 15 for autonomy and 20 for the address.
score_of_shell : (profile_server checks shell "~/.mcp.json" "claude").score ≡ 15
unfolding profile_server
score_of_shell = refl

abbrev fingerprints : Dict String (List SecretFingerprint)
fingerprints = ("a", print_of "0011aabb" ∷ []) ∷ ("b", print_of "0011aabb" ∷ []) ∷ ("c", []) ∷ []

fingerprints_of_config :
    keys (config_credential_fingerprints checks config)
    ≡ ("~/.mcp.json#shell" ∷ "~/.mcp.json#mail" ∷ [])
unfolding config_credential_fingerprints
fingerprints_of_config = refl

a_and_b_are_peers : contains "b" (members_at "a" (peers_of fingerprints)) ≡ true
unfolding peers_of members_at
a_and_b_are_peers = refl

relationships_of_exact_example :
    relationships_of (tool_privilege ∷ autonomy ∷ [])
    ≡ select (is_active (tool_privilege ∷ autonomy ∷ [])) table
relationships_of_exact_example = relationships_of_exact (tool_privilege ∷ autonomy ∷ [])

profile_server-risky_example :
    ((profile_server checks shell "~/.mcp.json" "claude").score ≤ 65)
    × (grade_index grade_d ≤ grade_index (profile_server checks shell "~/.mcp.json" "claude").grade)
unfolding profile_server
profile_server-risky_example = profile_server-risky checks shell "~/.mcp.json" "claude" refl

build_trust_report_lem_example :
    Perm
      (build_trust_report (analyze_config checks config "claude")).profiles
      (analyze_config checks config "claude")
    × IsSorted {K = ℕ × String}
        (λ (p : TrustProfile). (p.score, p.subject))
        (build_trust_report (analyze_config checks config "claude")).profiles
    × All
        (λ (p : TrustProfile).
          grade_index p.grade
          ≤ grade_index (build_trust_report (analyze_config checks config "claude")).overall_grade)
        (build_trust_report (analyze_config checks config "claude")).profiles
    × ((((build_trust_report (analyze_config checks config "claude")).profiles ≡ [])
          × ((build_trust_report (analyze_config checks config "claude")).overall_grade ≡ grade_a))
        ⊎ (contains (build_trust_report (analyze_config checks config "claude")).overall_grade (
              map
                (λ (q : TrustProfile). q.grade)
                (build_trust_report (analyze_config checks config "claude")).profiles)
            ≡ true))
build_trust_report_lem_example = build_trust_report_lem (analyze_config checks config "claude")

apply_shared_credentials_exact_example :
    (apply_shared_credentials (analyze_config checks config "claude") fingerprints
      ≡ map (share_profile (peers_of fingerprints)) (analyze_config checks config "claude"))
    × ((s t : String)
        → (contains t (members_at s (peers_of fingerprints)) ≡ true) ↔ (
            (key : FingerprintKey) × (holds key s fingerprints ≡ true)
            × (holds key t fingerprints ≡ true)
            × ((t == s) ≡ false)))
    × ((p : TrustProfile) → IsTold fingerprints p (share_profile (peers_of fingerprints) p))
apply_shared_credentials_exact_example =
    apply_shared_credentials_exact (analyze_config checks config "claude") fingerprints
