-- ===== src/Scoring/Tests.antt =====
-- Scores and grades of a server with three findings.
use ianua_broker.Prelude.{
  num_Ord, text_Ord, pair_Ord, list_Ord, refl, true, false, none, some, [], ◌∷◌, num_Eq, text_Eq,
  pair_Eq, option_Eq, list_Eq, List, contains, get, ◌≡◌, ◌≤◌, ◌++◌, All, select, ◌==◌,
}
use ianua_broker.Scoring.{
  grade_index, grade_server, score_findings, grade_findings, worst_grade, dimension_grades,
}
use ianua_broker.Domain.{
  Dimension, Server, Finding, Severity, credential, declared_state, grade_c, weight, grade_b, high,
  pinning, exposure, grade_f, low, grade_a, medium, tool_scope, critical, grade_Eq, dimension_Eq,
}
use ianua_broker.Scoring.Grades.{
  grade_server_capped, grade_findings-append, worst_grade_lem, get-dimension_grades,
}

abbrev finding_of : Dimension → Severity → Finding
finding_of dimension severity = record {
  id = "T-1";
  dimension = dimension;
  severity = severity;
  title = "a finding";
  location = record { path = "~/.mcp.json"; line = none };
  remediation = "mend it";
  rationale = "it is weak";
  secret = none;
  acceptance = none;
}

abbrev found : List Finding
found = finding_of credential high ∷ finding_of exposure medium ∷ finding_of credential low ∷ []

abbrev server : Server
server = record {
  id = "s";
  bind_addr = none;
  port = none;
  pid = none;
  proc_name = none;
  state = declared_state;
  running = false;
  inspection_incomplete = true;
  findings = finding_of pinning low ∷ [];
  tool_identity = none;
  live_tools = [];
}

score_of_found : score_findings found ≡ 67
unfolding score_findings weight
score_of_found = refl

grade_of_server : grade_server server ≡ grade_c
unfolding grade_server weight
grade_of_server = refl

grade_findings-append_example :
    grade_index (grade_findings found)
    ≤ grade_index (grade_findings (found ++ finding_of tool_scope critical ∷ []))
grade_findings-append_example = grade_findings-append found (finding_of tool_scope critical ∷ [])

grade_server_capped_example :
    (server.inspection_incomplete ≡ true → grade_index grade_c ≤ grade_index (grade_server server))
    × (grade_index (grade_findings server.findings) ≤ grade_index (grade_server server))
    × (server.inspection_incomplete ≡ false → grade_server server ≡ grade_findings server.findings)
grade_server_capped_example = grade_server_capped server

worst_grade_lem_example :
    (contains (worst_grade (grade_b ∷ grade_f ∷ grade_a ∷ [])) (grade_b ∷ grade_f ∷ grade_a ∷ [])
      ≡ true)
    × All
        (λ h. grade_index h ≤ grade_index (worst_grade (grade_b ∷ grade_f ∷ grade_a ∷ [])))
        (grade_b ∷ grade_f ∷ grade_a ∷ [])
worst_grade_lem_example = worst_grade_lem grade_b (grade_f ∷ grade_a ∷ [])

get-dimension_grades_example :
    get credential (dimension_grades found)
    ≡ some (grade_findings (select (λ (f : Finding). f.dimension == credential) found))
get-dimension_grades_example = get-dimension_grades credential found
