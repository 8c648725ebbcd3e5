-- ===== src/Trust/Profiles.antt =====
-- src/mcpscan/trust/analyze.py: the profile of a server, of the servers of a configuration, and the
-- report over all.
pub mod Laws
pub mod Report
use ianua_broker.Prelude.{
  num_Ord, text_Ord, pair_Ord, list_Ord, num_Eq, text_Eq, pair_Eq, option_Eq, list_Eq, List, String,
  concat, sorted, Option, ℕ, ◌∷◌, [], map, sum, if◌then◌else◌, select, is_empty, ◌-◌,
}
use ianua_broker.Checks.ToolScope.{ServerDecl}
use ianua_broker.Scoring.{worst_grade, grade_for_score}
use ianua_broker.Trust.Model.{FactorScore, TrustFactor, TrustProfile, TrustReport, is_present}
use ianua_broker.Domain.{grade_a}
use ianua_broker.Trust.Factors.{
  ServerChecks, secret_factor, privilege_factor, autonomy_factor, provenance_factor, reach_factor,
}
use ianua_broker.Trust.Relationships.{relationships_of}

-- ParsedConfig of src/mcpscan/adapters/base.py, without the mapping `extra` of its host.
pub record ParsedConfig : Type 0 where
  pub path : String
  pub servers : List ServerDecl
  pub allow_permissions : List String
  pub parse_error : Option String

-- f"{path}#{server.name}"
unfoldable pub subject_of : String → ServerDecl → String
unfolding concat
subject_of path server = concat (path ∷ "#" ∷ server.name ∷ [])

abbrev pub total_risk : List FactorScore → ℕ
total_risk factors = sum (map (λ (f : FactorScore). f.risk) factors)

-- `{f.factor for f in factors if f.present}`
unfoldable pub active_factors : List FactorScore → List TrustFactor
active_factors factors = map (λ (f : FactorScore). f.factor) (select is_present factors)

module _ (checks : ServerChecks) where
  unfoldable pub factors_of : ServerDecl → String → List FactorScore
  unfolding secret_factor privilege_factor autonomy_factor provenance_factor reach_factor
  factors_of server path =
      secret_factor checks server path
      ∷ privilege_factor server
      ∷ autonomy_factor server
      ∷ provenance_factor checks server path
      ∷ reach_factor checks server
      ∷ []

  unfoldable pub profile_server : ServerDecl → String → String → TrustProfile
  unfolding factors_of grade_for_score active_factors relationships_of subject_of
  profile_server server path host =
      let factors = factors_of server path in
      let score = 100 - total_risk factors in
      record {
        subject = subject_of path server;
        server_name = server.name;
        host = host;
        location = path;
        score = score;
        grade = grade_for_score score;
        factors = factors;
        relationships = relationships_of (active_factors factors);
      }

  unfoldable pub analyze_config : ParsedConfig → String → List TrustProfile
  unfolding profile_server
  analyze_config config host =
      map (λ (server : ServerDecl). profile_server server config.path host) config.servers

unfoldable pub build_trust_report : List TrustProfile → TrustReport
unfolding sorted worst_grade
build_trust_report profiles =
    let ordered = sorted {K = ℕ × String} (λ (p : TrustProfile). (p.score, p.subject)) profiles in
    record {
      schema_version = "1.0";
      profiles = ordered;
      overall_grade =
          if is_empty ordered
          then grade_a
          else worst_grade (map (λ (p : TrustProfile). p.grade) ordered);
    }
