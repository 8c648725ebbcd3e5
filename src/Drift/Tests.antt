-- ===== src/Drift/Tests.antt =====
-- The diff of two snapshots in which a server is newly exposed, one is gone and one is new.
use ianua_broker.Prelude.{
  num_Ord, text_Ord, pair_Ord, list_Ord, refl, true, false, none, some, [], ◌∷◌, num_Eq, text_Eq,
  pair_Eq, option_Eq, list_Eq, String, Bool, Option, any, get, ◌≡◌, ℕ, ◌&&◌, ◌↔◌, if◌then◌else◌,
  not, ◌==◌, ◌+◌, ◌<◌, ◌||◌, concat,
}
use ianua_broker.Drift.Model.{
  DriftEntry, PostureFact, Snapshot, is_improvement, server, by_key, is_regression,
}
use ianua_broker.Drift.Staleness.{
  is_stale, assess_staleness, parse_iso_date, assess_staleness-stale, days_ago,
}
use ianua_broker.Drift.Diff.{
  diff_snapshots, added_entry, removed_entry, same_details, changed_entry,
}
use ianua_broker.Drift.Classify.{classify_changed, tool_identity_changed}
use ianua_broker.Drift.Diff.Laws.{diff_snapshots_complete, diff_snapshots_self}
use ianua_broker.Drift.Classify.Verdicts.{lost_sight, got_exposed, classify_changed_exact}
use ianua_broker.Domain.{Report, Server, grade_a, running_state}
use ianua_broker.Drift.Baseline.{
  load_baseline, load_verified_baseline, snapshot_to_dict, render_baseline, ok,
}
use ianua_broker.Drift.Snapshot.{build_snapshot, snapshot_digest}
use ianua_broker.Lan.Verify.{
  Tools, Verifier, accept, not_found, not_found, os_error, invalid_signature, accept,
}
use ianua_broker.Drift.Baseline.Verified.{IsVouched, load_verified_baseline-IsVouched}
use ianua_broker.Json.{Decoded, JsonTools, malformed, parsed, Decoded, JsonTools, sort_keys}
use ianua_broker.Discovery.Reach.{IpAddress}
use ianua_broker.Drift.Baseline.Frozen.{load_baseline-build_snapshot}

abbrev server_fact : String → String → PostureFact
server_fact id exposed = record {
  kind = server;
  key = id;
  summary = id;
  detail = ("exposure", exposed) ∷ ("tool_identity", "t") ∷ [];
}

abbrev old : Snapshot
old = record {
  schema_version = "1.1";
  facts = server_fact "server:a" "local" ∷ server_fact "server:b" "exposed" ∷ [];
}

abbrev new : Snapshot
new = record {
  schema_version = "1.1";
  facts = server_fact "server:a" "exposed" ∷ server_fact "server:c" "local" ∷ [];
}

abbrev is_changed : DriftEntry → Bool
is_changed e = is_regression e.direction && e.key == "server:a"

kept_regression : any is_changed (diff_snapshots old new).entries ≡ true
unfolding diff_snapshots
kept_regression =
    (diff_snapshots_complete old new is_changed "server:a").2 (server_fact "server:a" "local")
      (server_fact "server:a" "exposed") refl refl refl refl

diff_snapshots_complete_example :
    ((fact : PostureFact)
      → get "server:a" (by_key new) ≡ some fact
      → get "server:a" (by_key old) ≡ none
      → is_changed (added_entry (by_key old) ("server:a", fact)) ≡ true
      → any is_changed (diff_snapshots old new).entries ≡ true)
    × ((fact : PostureFact)
        → get "server:a" (by_key old) ≡ some fact
        → get "server:a" (by_key new) ≡ none
        → is_changed (removed_entry ("server:a", fact)) ≡ true
        → any is_changed (diff_snapshots old new).entries ≡ true)
    × ((before after : PostureFact)
        → get "server:a" (by_key old) ≡ some before
        → get "server:a" (by_key new) ≡ some after
        → same_details before after ≡ false
        → is_changed (changed_entry "server:a" before after) ≡ true
        → any is_changed (diff_snapshots old new).entries ≡ true)
diff_snapshots_complete_example = diff_snapshots_complete old new is_changed "server:a"

diff_snapshots_self_example : (diff_snapshots old old).entries ≡ []
diff_snapshots_self_example = diff_snapshots_self old

classify_changed_exact_example :
    (is_improvement
        (classify_changed (server_fact "server:a" "local") (server_fact "server:a" "exposed")).0
      ≡ (true
          && not (
              lost_sight (server_fact "server:a" "local") (server_fact "server:a" "exposed")
              || got_exposed (server_fact "server:a" "local") (server_fact "server:a" "exposed")
              || tool_identity_changed
                  (server_fact "server:a" "local")
                  (server_fact "server:a" "exposed"))
          && (got_exposed (server_fact "server:a" "exposed") (server_fact "server:a" "local")
              || lost_sight (server_fact "server:a" "exposed") (server_fact "server:a" "local"))))
    × (is_regression
          (classify_changed (server_fact "server:a" "local") (server_fact "server:a" "exposed")).0
        ≡ (false
            || (true
                && (lost_sight (server_fact "server:a" "local") (server_fact "server:a" "exposed")
                    || got_exposed
                        (server_fact "server:a" "local")
                        (server_fact "server:a" "exposed")
                    || tool_identity_changed
                        (server_fact "server:a" "local")
                        (server_fact "server:a" "exposed")))))
classify_changed_exact_example =
    classify_changed_exact (server_fact "server:a" "local") (server_fact "server:a" "exposed")

-- A date is the number of its day.
abbrev day_of : String → Option ℕ
day_of s = if s == "2026-01-01" then some 739617 else none

assess_staleness-stale_example :
    (is_stale (assess_staleness day_of (some "2026-01-01") 739700 (days_ago 30)) ≡ true)
    ↔ ((day : ℕ) × (parse_iso_date day_of (some "2026-01-01") ≡ some day) × (day + 30 < 739700))
assess_staleness-stale_example =
    assess_staleness-stale day_of (some "2026-01-01") 739700 (days_ago 30)

-- A report with one server, its baseline, and a JSON library that knows this one document.
abbrev one_server : Server
one_server = record {
  id = "web";
  bind_addr = some "0.0.0.0";
  port = some 8080;
  pid = none;
  proc_name = none;
  state = running_state;
  running = true;
  inspection_incomplete = false;
  findings = [];
  tool_identity = some "t";
  live_tools = [];
}

abbrev one_report : Report
one_report = record {
  schema_version = "1.0";
  servers = one_server ∷ [];
  overall_grade = grade_a;
  dimension_grades = [];
  generated_with_online = false;
}

abbrev json_with : (String → Decoded) → JsonTools
json_with loads = record {
  loads = loads;
  dumps = λ j. "dumped";
  compact = λ j. "compact";
  sha256 = λ s. "digest";
  str_of_other = λ j. "";
  repr = λ s. s;
}

abbrev no_address : IpAddress
no_address s = none

abbrev one_snapshot : Snapshot
one_snapshot = build_snapshot (json_with (λ s. malformed)) no_address one_report none

abbrev json : JsonTools
json = json_with (λ s.
    parsed
      (sort_keys (snapshot_to_dict (json_with (λ t. malformed)) one_snapshot (some "2026-01-01"))))

json_reads :
    json.loads (
      concat (
        json.dumps (
          snapshot_to_dict json
            (build_snapshot json no_address one_report none)
            (some "2026-01-01"))
        ∷ "\n"
        ∷ []))
    ≡ parsed (
        sort_keys (
          snapshot_to_dict json
            (build_snapshot json no_address one_report none)
            (some "2026-01-01")))
unfolding snapshot_to_dict snapshot_digest build_snapshot
json_reads = refl

load_baseline-build_snapshot_example :
    load_baseline json true
      (render_baseline json (build_snapshot json no_address one_report none) (some "2026-01-01"))
    ≡ ok (build_snapshot json no_address one_report none)
load_baseline-build_snapshot_example =
    load_baseline-build_snapshot json no_address one_report none (some "2026-01-01") json_reads

abbrev no_tools : Tools
no_tools = record {
  run = λ command bytes. not_found;
  crypto_installed = false;
  read = λ path. os_error;
  b64decode = λ s. none;
  line_parts = λ s. [];
  ed25519_verify = λ key message signature. invalid_signature;
}

abbrev always : Option Verifier
always = some (λ bytes signature signers operator. accept "signed")

verified_run :
    load_verified_baseline json no_tools
      (λ bytes. some "text")
      (1 ∷ [])
      "b.sig"
      "signers"
      "ops"
      "ssh"
      always
    ≡ ok one_snapshot
unfolding load_verified_baseline snapshot_to_dict build_snapshot render_baseline sort_keys
verified_run = refl

load_verified_baseline-IsVouched_example :
    IsVouched json
      (λ bytes signature signers operator. accept "signed")
      (λ bytes. some "text")
      (1 ∷ [])
      "b.sig"
      "signers"
      "ops"
      "ssh"
      one_snapshot
load_verified_baseline-IsVouched_example =
    load_verified_baseline-IsVouched json no_tools (λ bytes. some "text") (1 ∷ []) "b.sig" "signers"
      "ops" "ssh" always one_snapshot verified_run
