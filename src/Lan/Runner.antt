-- ===== src/Lan/Runner.antt =====
-- src/mcpscan/lan/runner.py: the gates of a LAN run, and the probe loop. The clock, the abort switch
-- and the network are functions of how often they were asked; every probe and every sleep is
-- recorded, so that a run returns what it did. Time is counted in microseconds.
pub mod Loop
pub mod Full
pub mod Gates
use ianua_broker.Prelude.{
  put, Dict, num_Ord, text_Ord, pair_Ord, list_Ord, concat, decimal, ℕ, ◌+◌, ◌-◌, String, Bool,
  true, false, ◌&&◌, ◌||◌, Option, none, some, List, [], ◌∷◌, ◌++◌, map, flat_map, ltb, leb,
  if◌then◌else◌, num_Eq, text_Eq, pair_Eq, option_Eq,
}
use ianua_broker.Domain.{exposure, high, Finding, Server, running_state, Report}
use ianua_broker.Scoring.{grade_findings, worst_grade, dimension_grades}
use ianua_broker.Lan.Platform.{Bytes, Platform}
use ianua_broker.Lan.Budgets.{Invoker, human, agent, Budgets, budgets_for_invoker}
use ianua_broker.Lan.Manifest.{
  ManifestError, loaded, invalid, raised, Manifest, is_expired, load_manifest,
}
use ianua_broker.Lan.Scope.{
  ScopeError, resolved, refused, value_error, ResolvedScope, resolve_scope,
}
use ianua_broker.Lan.Verify.{Verifier, VerifyResult, Tools, verify_manifest}
use ianua_broker.Lan.Audit.{
  Evidence, Results, dry_run_results, probe_results, AuditRecord, build_audit_record,
}

pub record ProbeResult : Type 0 where
  pub host : String
  pub port : ℕ
  pub reachable : Bool
  pub looks_like_mcp : Bool
  pub evidence : Option String

-- The injected effects: the reading of the monotonic clock and of the abort switch, and the answer
-- of the prober, each at its n-th call.
pub record World : Type 0 where
  pub clock : ℕ → ℕ
  pub aborted : ℕ → Bool
  pub probe : ℕ → String → ℕ → ProbeResult

pub data Event : Type 0 where
  probed : String → ℕ → Event
  slept : ℕ → Event

pub data LanRefusal : Type 0 where
  invalid_manifest : ManifestError → LanRefusal
  expired_at : String → LanRefusal
  not_verified : VerifyResult → LanRefusal
  out_of_scope : ScopeError → LanRefusal

pub record LanOutcome : Type 0 where
  pub report : Report
  pub audit : AuditRecord
  pub dry_run : Bool
  pub plan_hosts : List String
  pub plan_ports : List ℕ

-- A run refuses, completes, or passes an exception on (`overflow` from the expiry, `value_error`
-- from an allow-list entry that is no network).
pub data Ending : Type 0 where
  refusal : LanRefusal → Ending
  outcome : LanOutcome → Ending
  overflow : Ending
  allowlist_error : String → Ending

-- f"{result.host}:{result.port}"
abbrev pub endpoint : String → ℕ → String
endpoint host port = concat (host ∷ ":" ∷ decimal port ∷ [])

unfoldable pub exposed_server : ProbeResult → Server
exposed_server result =
    let place = endpoint result.host result.port in
    let finding : Finding = record {
      id = "LAN-EXPOSED";
      dimension = exposure;
      severity = high;
      title = concat ("MCP server reachable across the network at " ∷ place ∷ []);
      location = record { path = place; line = none };
      remediation =
          "Bind the server to 127.0.0.1 (loopback), or place it behind authenticated network controls. Do not expose MCP tools to the LAN.";
      rationale =
          "A remotely reachable MCP endpoint exposes its tools to other hosts, often without authentication.";
      secret = none;
      acceptance = none;
    } in
    record {
      id = concat ("lan://" ∷ place ∷ []);
      bind_addr = some result.host;
      port = some result.port;
      pid = none;
      proc_name = none;
      state = running_state;
      running = true;
      inspection_incomplete = false;
      findings = finding ∷ [];
      tool_identity = none;
      live_tools = [];
    }

unfoldable pub assemble : List Server → Report
unfolding worst_grade grade_findings dimension_grades
assemble servers = record {
  schema_version = "1.0";
  servers = servers;
  overall_grade = worst_grade (map (λ (s : Server). grade_findings s.findings) servers);
  dimension_grades = dimension_grades (flat_map (λ (s : Server). s.findings) servers);
  generated_with_online = false;
}

-- The variables of the probe loop. `rounds` counts how often the abort switch and the clock were
-- read in it, and `events` is what was done, the last first.
pub record LoopState : Type 0 where
  pub servers : List Server
  pub results : Dict String Evidence
  pub connections : ℕ
  pub stop : Bool
  pub rounds : ℕ
  pub events : List Event

abbrev pub before_loop : LoopState
before_loop = record {
  servers = [];
  results = [];
  connections = 0;
  stop = false;
  rounds = 0;
  events = [];
}

module _ (world : World) (budgets : Budgets) where
  -- The two tests at the top of a round; `clock` was read once before the loop.
  abbrev pub must_stop : LoopState → Bool
  must_stop st =
      (world.aborted st.rounds || leb budgets.max_total_connections st.connections)
      || ltb budgets.max_runtime (world.clock (st.rounds + 1) - world.clock 0)

  abbrev pub halted : LoopState → LoopState
  halted st = record st { stop = true; rounds = st.rounds + 1 }

  -- The rest of a round: probe, record, report, sleep.
  unfoldable pub probe_once : String → ℕ → LoopState → LoopState
  unfolding exposed_server
  probe_once host port st =
      let result = world.probe st.connections host port in
      record {
        servers =
            (if result.reachable && result.looks_like_mcp
              then st.servers ++ exposed_server result ∷ []
              else st.servers);
        results =
            put (endpoint host port)
              (record {
                reachable = result.reachable;
                looks_like_mcp = result.looks_like_mcp;
                evidence = result.evidence;
              })
              st.results;
        connections = st.connections + 1;
        stop = st.stop;
        rounds = st.rounds + 1;
        events = slept budgets.per_target_cooldown ∷ probed host port ∷ st.events;
      }

  unfoldable pub scan_ports : String → List ℕ → LoopState → LoopState
  unfolding probe_once
  scan_ports host [] st = st
  scan_ports host (port ∷ rest) st =
      let onward = scan_ports host rest (probe_once host port st) in
      if must_stop st then halted st else onward

  unfoldable pub scan_hosts : List ℕ → List String → LoopState → LoopState
  unfolding scan_ports
  scan_hosts ports [] st = st
  scan_hosts ports (host ∷ rest) st =
      let onward = scan_hosts ports rest (scan_ports host ports st) in
      if st.stop then st else onward

abbrev pub invoker_text : Invoker → String
invoker_text human = "human"
invoker_text agent = "agent"

-- The arguments of `run_lan`.
pub record Request : Type 0 where
  pub manifest_bytes : Bytes
  pub now : ℕ
  pub invoker : Invoker
  pub tool_version : String
  pub argv : List String
  pub signature_path : Option String
  pub allowed_signers : Option String
  pub public_allowlist : Option (List String)
  pub dry_run : Bool
  pub verifier : Option Verifier

module _ (py : Platform) (tools : Tools) (digest_payload : Results → String) (world : World) where
  -- `LanOutcome(...)`: the report over the servers, and the audit record over the results.
  unfoldable pub conclude : Request → Manifest → ResolvedScope → List Server → Results → LanOutcome
  unfolding assemble build_audit_record
  conclude request manifest scope servers results = record {
    report = assemble servers;
    audit =
        build_audit_record digest_payload manifest (invoker_text request.invoker)
          request.tool_version (py.isoformat request.now) request.argv scope.hosts results;
    dry_run = request.dry_run;
    plan_hosts = scope.hosts;
    plan_ports = scope.ports;
  }

  unfoldable pub run_scope : Request → Manifest → ResolvedScope → Ending × List Event
  unfolding conclude scan_hosts
  run_scope request manifest scope =
      if request.dry_run
      then (outcome (conclude request manifest scope [] dry_run_results), [])
      else (let st =
            scan_hosts world (budgets_for_invoker request.invoker) scope.ports scope.hosts
              before_loop in
          (
            outcome (conclude request manifest scope st.servers (probe_results st.results)),
            st.events,
          ))

  unfoldable pub run_verified : Request → Manifest → Ending × List Event
  unfolding run_scope
  run_verified request manifest =
      elim (resolve_scope py request.invoker (budgets_for_invoker request.invoker)
        request.public_allowlist manifest) [
          | refused e ↦ (refusal (out_of_scope e), [])
          | value_error entry ↦ (allowlist_error entry, [])
          | resolved scope ↦ run_scope request manifest scope
        ]

  unfoldable pub run_loaded : Request → Manifest → Ending × List Event
  unfolding run_verified is_expired
  run_loaded request manifest =
      if is_expired manifest request.now
      then (refusal (expired_at (py.isoformat manifest.expires_at)), [])
      else (let checked =
            verify_manifest tools request.verifier manifest.signature_scheme request.manifest_bytes
              request.signature_path request.allowed_signers manifest.operator in
          if checked.verified
          then run_verified request manifest
          else (refusal (not_verified checked), []))

  unfoldable pub run_lan : Request → Ending × List Event
  unfolding run_loaded
  run_lan request = elim (load_manifest py request.manifest_bytes) [
    | invalid e ↦ (refusal (invalid_manifest e), [])
    | raised ↦ (overflow, [])
    | loaded manifest ↦ run_loaded request manifest
  ]
