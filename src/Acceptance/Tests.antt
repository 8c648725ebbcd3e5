-- ===== src/Acceptance/Tests.antt =====
-- A ledger that accepts a tool's new version, and one that accepts two findings of a server.
use ianua_broker.Drift.Model.{
  tool, regression, changed, tool_desc_changed, DriftReport, DriftEntry, is_regression,
}
use ianua_broker.Domain.{
  tool_scope, credential, dimension_Eq, Report, Dimension, declared_state, Finding, grade_d, high,
  Server,
}
use ianua_broker.Prelude.{
  num_Ord, text_Ord, pair_Ord, list_Ord, refl, true, false, none, [], ◌∷◌, text_Eq, num_Eq, pair_Eq,
  option_Eq, list_Eq, List, String, map, ℕ, ◌≡◌, if◌then◌else◌, ◌&&◌, ◌==◌, not, some, Option,
}
use ianua_broker.Acceptance.{
  apply_acceptances, apply_tool_drift_acceptances, LedgerEntry, ToolDriftAcceptance, server_matches,
}
use ianua_broker.Scoring.{grade_server}
use ianua_broker.Acceptance.Gate.{
  apply_acceptances_grades, is_waived, apply_tool_drift_acceptances_exact, of_other_checks,
}
use ianua_broker.Json.{
  object, field, array, text, nil, cons, end, Items, null, parsed, JsonTools, length_items,
}
use ianua_broker.Acceptance.Ledger.{no_file, readable, LedgerFile, load_ledgers, parse_rows}
use ianua_broker.Acceptance.Ledger.Valid.{
  AllUsable, load_ledgers-AllUsable, counted, parse_rows-accounts,
}

abbrev day_of : String → ℕ
day_of expires = if expires == "2026-06-30" then 200 else 100

abbrev tool_entry : String → DriftEntry
tool_entry digest = record {
  change = changed;
  kind = tool;
  key = "tool:mail:send";
  summary = "send";
  direction = regression;
  cause = tool_desc_changed;
  detail_before = [];
  detail_after = ("server", "mail") ∷ ("digest", digest) ∷ [];
  acceptance = none;
}

abbrev drift : DriftReport
drift = record { entries = tool_entry "aa" ∷ tool_entry "bb" ∷ [] }

abbrev accepted_tools : List ToolDriftAcceptance
accepted_tools =
    record {
      server = "mail";
      tool = "send";
      digest = "aa";
      owner = "alice";
      accepted = "2026-01-01";
      expires = "2026-06-30";
      reason = "reviewed";
    }
    ∷ []

-- The reviewed version no longer gates; the other one does.
one_is_waived :
    map
      (λ (e : DriftEntry). is_regression e.direction)
      (apply_tool_drift_acceptances day_of 150 drift accepted_tools).entries
    ≡ (false ∷ true ∷ [])
unfolding apply_tool_drift_acceptances
one_is_waived = refl

apply_tool_drift_acceptances_exact_example :
    map
      (λ (e : DriftEntry). is_regression e.direction)
      (apply_tool_drift_acceptances day_of 150 drift accepted_tools).entries
    ≡ map
        (λ (e : DriftEntry).
          is_regression e.direction && not (is_waived day_of 150 accepted_tools e))
        drift.entries
apply_tool_drift_acceptances_exact_example =
    apply_tool_drift_acceptances_exact day_of 150 drift accepted_tools

abbrev finding_of : String → Dimension → Finding
finding_of id dimension = record {
  id = id;
  dimension = dimension;
  severity = high;
  title = id;
  location = record { path = "~/.mcp.json"; line = none };
  remediation = "mend it";
  rationale = "it is weak";
  secret = none;
  acceptance = none;
}

abbrev report : Report
report = record {
  schema_version = "1.0";
  servers =
      record {
        id = "~/.mcp.json#mail";
        bind_addr = none;
        port = none;
        pid = none;
        proc_name = none;
        state = declared_state;
        running = false;
        inspection_incomplete = false;
        findings = finding_of "SCOPE-WILDCARD" tool_scope ∷ finding_of "CRED-1" credential ∷ [];
        tool_identity = none;
        live_tools = [];
      }
      ∷ [];
  overall_grade = grade_d;
  dimension_grades = [];
  generated_with_online = false;
}

abbrev ledger : List LedgerEntry
ledger =
    map
      (λ id. record {
        finding = id;
        server = "mail";
        owner = "alice";
        accepted = "2026-01-01";
        expires = "2026-06-30";
        reason = "known";
      })
      ("SCOPE-WILDCARD" ∷ "CRED-1" ∷ [])

-- Only the finding on the scope of a tool can be accepted.
credential_is_refused :
    (apply_acceptances day_of 150 report ledger).1 ≡ ("~/.mcp.json#mail", "CRED-1") ∷ []
unfolding apply_acceptances mathlib.Core.List.flat_map server_matches
credential_is_refused = refl

apply_acceptances_grades_example :
    ((apply_acceptances day_of 150 report ledger).0.overall_grade ≡ report.overall_grade)
    × ((apply_acceptances day_of 150 report ledger).0.dimension_grades ≡ report.dimension_grades)
    × (map grade_server (apply_acceptances day_of 150 report ledger).0.servers
        ≡ map grade_server report.servers)
    × (map
          (λ (s : Server). of_other_checks s.findings)
          (apply_acceptances day_of 150 report ledger).0.servers
        ≡ map (λ (s : Server). of_other_checks s.findings) report.servers)
apply_acceptances_grades_example = apply_acceptances_grades day_of 150 report ledger

-- A ledger with one good row, one without an owner, and one that is no object.
abbrev some_rows : Items
some_rows =
    cons
      (object (
        field "finding" (text "F-1") (
          field "server" (text "mail")
            (field "owner" (text "alice") (field "expires" (text "2026-06-30") end)))))
      (cons (object (field "finding" (text "F-2") (field "server" (text "mail") end)))
        (cons null nil))

abbrev ledger_json : JsonTools
ledger_json = record {
  loads = λ s. parsed (object (field "acceptances" (array some_rows) end));
  dumps = λ j. "";
  compact = λ j. "";
  sha256 = λ s. "";
  str_of_other = λ j. "";
  repr = λ s. s;
}

abbrev iso : String → Option ℕ
iso s = if s == "2026-06-30" then some 200 else none

abbrev the_ledger : String → LedgerFile
the_ledger root = if root == "/home" then readable "text" else no_file

one_of_three :
    (load_ledgers ledger_json iso (λ root. root) the_ledger ("/tmp" ∷ "/home" ∷ [])).entries ≡ (
      record {
        finding = "F-1";
        server = "mail";
        owner = "alice";
        accepted = "";
        expires = "2026-06-30";
        reason = "";
      }
      ∷ [])
unfolding load_ledgers
one_of_three = refl

load_ledgers-AllUsable_example :
    AllUsable iso (load_ledgers ledger_json iso (λ root. root) the_ledger ("/tmp" ∷ "/home" ∷ []))
load_ledgers-AllUsable_example =
    load_ledgers-AllUsable ledger_json iso (λ root. root) the_ledger ("/tmp" ∷ "/home" ∷ [])

parse_rows-accounts_example :
    counted (parse_rows ledger_json iso "ledger" 0 some_rows) ≡ length_items some_rows
parse_rows-accounts_example = parse_rows-accounts ledger_json iso "ledger" 0 some_rows
