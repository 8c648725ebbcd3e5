-- ===== src/Lan/Tests.antt =====
-- An authorized run of two probes, and the same code on inputs that it refuses.
use ianua_broker.Prelude.{
  num_Ord, text_Ord, pair_Ord, list_Ord, refl, true, false, none, some, [], ◌∷◌, num_Eq, text_Eq,
  pair_Eq, option_Eq, list_Eq, List, ℕ, Option, String, if◌then◌else◌, ◌≡◌, ap, ◌==◌, arith,
  is_empty, num_eq, ◌++◌, All, length, ◌≤◌, max, ◌+◌, ◌⊎◌, ◌≢◌, ◌↔◌, inl,
}
use ianua_broker.Lan.Manifest.Valid.{IsValid, load_manifest-IsValid}
use ianua_broker.Lan.Platform.{
  Bytes, IpNetwork, Platform, Stamp, Fields, field_of, Items, ahead, field, nil, text, cons,
  datetime, array, integer, end,
}
use ianua_broker.Lan.Budgets.{
  AtMost, lowered, agent, agent_ceiling, budgets_for_invoker, lowered-AtMost,
  budgets_for_invoker-AtMost, human,
}
use ianua_broker.Lan.Scope.{ResolvedScope, resolve_scope, resolved, value_error}
use ianua_broker.Lan.Manifest.{Manifest, load_manifest, require_str, loaded, raised}
use ianua_broker.Lan.Runner.{
  Request, World, run_lan, scan_hosts, ProbeResult, before_loop, slept, probed,
}
use ianua_broker.Lan.Audit.{Results}
use ianua_broker.Lan.Runner.Gates.{IsAuthorized, run_lan-IsAuthorized}
use ianua_broker.Lan.Verify.{Tools, ended, os_error, invalid_signature, verify_manifest}
use ianua_broker.Lan.Scope.Bounds.{IsWithin, resolve_scope-IsWithin}
use ianua_broker.Lan.Sanitize.{strip_ansi, sanitize_remote, label}
use ianua_broker.Lan.Sanitize.Ansi.{glyph, control, sent, strip_ansi_exact}
use ianua_broker.Lan.Sanitize.Inert.{IsInert, sanitize_remote-IsInert}
use ianua_broker.Lan.Runner.Full.{scan_hosts_whole, scan_events, scan_answers, reported}
use mathlib.Core.List.{reverse}
use ianua_broker.Lan.Verify.Sound.{SshSigned, Ed25519Signed, verify_manifest-signed}
use ianua_broker.Lan.Policy.{EnterprisePolicy, load_policy, policy}
use ianua_broker.Lan.Policy.Networks.{resolve_scope-of_policy}
use ianua_broker.Lan.Manifest.Raises.{load_manifest_raises, IsOutOfRange}

abbrev host_network : IpNetwork
host_network = record { is_v6 = false; network_address = 167772165; prefixlen = 32 }

abbrev items_of : List String → Items
items_of [] = nil
items_of (t ∷ ts) = cons (text t) (items_of ts)

abbrev public_network : IpNetwork
public_network = record { is_v6 = false; network_address = 3405803783; prefixlen = 32 }

-- A manifest with an expiry of a given wall clock and zone.
abbrev fields_until : Stamp → Fields
fields_until stamp = field "authorization_id" (text "A-1") (
    field "operator" (text "alice") (
      field "expires_at" (datetime stamp) (
        field "targets" (array (items_of ("10.0.0.5" ∷ [])))
          (field "ports" (array (cons (integer 8080) (cons (integer 9090) nil))) end))))

-- The bytes of a manifest are the wall clock and the offset of its expiry, and those of a policy are
-- one number.
abbrev loads : Bytes → Option Fields
loads (wall ∷ offset ∷ rest) = some (fields_until (record { wall = wall; zone = ahead offset }))
loads (version ∷ []) = some (field "public_targets" (array (items_of ("203.0.113.7" ∷ []))) end)
loads [] = none

abbrev py : Platform
py = record {
  sha256 = λ raw. "digest";
  toml_loads = loads;
  fromisoformat = λ s. none;
  isoformat = λ n. "2026-01-01T00:00:00+00:00";
  ip_network = λ s.
      (if s == "10.0.0.5"
        then some host_network
        else if s == "203.0.113.7"
        then some public_network
        else none);
  is_private = λ net. num_eq net.network_address 167772165;
  address_text = λ v6 n. "10.0.0.5";
}

abbrev tools : Tools
tools = record {
  run = λ command stdin. ended 0 [] [];
  crypto_installed = false;
  read = λ path. os_error;
  b64decode = λ s. none;
  line_parts = λ s. [];
  ed25519_verify = λ pubkey signature message. invalid_signature;
}

abbrev answer : ℕ → String → ℕ → ProbeResult
answer n host port = record {
  host = host;
  port = port;
  reachable = true;
  looks_like_mcp = num_eq port 8080;
  evidence = none;
}

abbrev world : World
world = record { clock = λ n. 1; aborted = λ n. false; probe = answer }

abbrev request : Request
request = record {
  manifest_bytes = 1000 ∷ 0 ∷ [];
  now = 10;
  invoker = agent;
  tool_version = "1";
  argv = [];
  signature_path = some "m.sig";
  allowed_signers = some "signers";
  public_allowlist = none;
  dry_run = false;
  verifier = none;
}

abbrev payload : Results → String
payload results = "results"

abbrev manifest : Manifest
manifest = record {
  authorization_id = "A-1";
  operator = "alice";
  expires_at = 1000;
  targets = "10.0.0.5" ∷ [];
  ports = 8080 ∷ 9090 ∷ [];
  signature_scheme = "ssh";
  sha256 = "digest";
}

abbrev scope : ResolvedScope
scope = record { hosts = "10.0.0.5" ∷ []; ports = 8080 ∷ 9090 ∷ [] }

manifest_of_bytes : load_manifest py (1000 ∷ 0 ∷ []) ≡ loaded manifest
unfolding load_manifest ianua_broker.Prelude.has_ink
manifest_of_bytes = refl

scope_of_manifest : resolve_scope py agent agent_ceiling none manifest ≡ resolved scope
unfolding resolve_scope ianua_broker.Lan.Platform.max_prefixlen
scope_of_manifest = refl

-- Both ports, each with its pause, the last first.
events_of_run :
    (run_lan py tools payload world request).1
    ≡ (slept 250_000 ∷ probed "10.0.0.5" 9090 ∷ slept 250_000 ∷ probed "10.0.0.5" 8080 ∷ [])
unfolding run_lan load_manifest ianua_broker.Prelude.has_ink verify_manifest resolve_scope
    budgets_for_invoker ianua_broker.Lan.Platform.max_prefixlen
events_of_run = refl

run_lan-IsAuthorized_example :
    IsAuthorized py tools payload world request (run_lan py tools payload world request).1
run_lan-IsAuthorized_example =
    run_lan-IsAuthorized py tools payload world request (ap is_empty events_of_run)

resolve_scope-IsWithin_example : IsWithin py agent agent_ceiling none manifest scope
resolve_scope-IsWithin_example =
    resolve_scope-IsWithin py agent agent_ceiling none manifest scope scope_of_manifest

load_manifest-IsValid_example : IsValid py (1000 ∷ 0 ∷ []) manifest
load_manifest-IsValid_example = load_manifest-IsValid py (1000 ∷ 0 ∷ []) manifest manifest_of_bytes

load_manifest_raises_example :
    (load_manifest py (5 ∷ 60 ∷ []) ≡ raised) ↔ IsOutOfRange py (5 ∷ 60 ∷ [])
load_manifest_raises_example = load_manifest_raises py (5 ∷ 60 ∷ [])

-- Year 1, with a clock that is ahead of UTC.
year_one-raises : load_manifest py (5 ∷ 60 ∷ []) ≡ raised
unfolding require_str field_of ianua_broker.Prelude.has_ink
year_one-raises = load_manifest_raises_example.1 (
  fields_until (record { wall = 5; zone = ahead 60 }),
  refl,
  ("A-1", (refl, refl)),
  ("alice", (refl, refl)),
  (record { wall = 5; zone = ahead 60 }, inl refl, omega arith),
)

scan_hosts_whole_example :
    ((scan_hosts world agent_ceiling (8080 ∷ 9090 ∷ []) ("10.0.0.5" ∷ []) before_loop).events
      ≡ reverse (scan_events 250_000 (8080 ∷ 9090 ∷ []) ("10.0.0.5" ∷ [])))
    × ((scan_hosts world agent_ceiling (8080 ∷ 9090 ∷ []) ("10.0.0.5" ∷ []) before_loop).servers
        ≡ reported (scan_answers world 0 (8080 ∷ 9090 ∷ []) ("10.0.0.5" ∷ [])))
    × ((scan_hosts world agent_ceiling (8080 ∷ 9090 ∷ []) ("10.0.0.5" ∷ []) before_loop).connections
        ≡ 2)
    × ((scan_hosts world agent_ceiling (8080 ∷ 9090 ∷ []) ("10.0.0.5" ∷ []) before_loop).stop
        ≡ false)
scan_hosts_whole_example =
    scan_hosts_whole world agent_ceiling (λ n. refl) (λ n. omega arith) (8080 ∷ 9090 ∷ [])
      ("10.0.0.5" ∷ []) (omega arith)

lowered-AtMost_example :
    AtMost (record agent_ceiling { max_hosts = 3; per_target_cooldown = 900_000 }) agent_ceiling
unfolding lowered
lowered-AtMost_example =
    lowered-AtMost agent_ceiling
      (("max_hosts", 3) ∷ ("max_runtime_s", 90_000_000) ∷ ("per_target_cooldown_s", 900_000) ∷ [])
      refl

budgets_for_invoker-AtMost_example :
    AtMost (budgets_for_invoker agent) (budgets_for_invoker human)
    × AtMost (budgets_for_invoker human) (budgets_for_invoker human)
budgets_for_invoker-AtMost_example = budgets_for_invoker-AtMost human

-- An escape sequence that clears the screen, then "hi".
abbrev hostile : List ℕ
hostile = 27 ∷ 91 ∷ 50 ∷ 74 ∷ 104 ∷ 105 ∷ []

sanitize_remote-IsInert_example :
    (body : List ℕ) × (sanitize_remote 80 hostile ≡ label ++ body)
    × All IsInert body
    × (length body ≤ max (80 + 2) 8)
sanitize_remote-IsInert_example = sanitize_remote-IsInert 80 hostile

-- The sequence and the two letters after it.
hostile_parts : sent (control (50 ∷ []) [] 74 ∷ glyph 104 ∷ glyph 105 ∷ []) ≡ hostile
hostile_parts = refl

strip_ansi_exact_example :
    strip_ansi (sent (control (50 ∷ []) [] 74 ∷ glyph 104 ∷ glyph 105 ∷ [])) ≡ 104 ∷ 105 ∷ []
strip_ansi_exact_example =
    strip_ansi_exact (control (50 ∷ []) [] 74 ∷ glyph 104 ∷ glyph 105 ∷ [])
      (((refl, tt), tt, refl), (refl, (refl, tt)))

verify_manifest-signed_example :
    ((◌≡◌ {A = String} "ssh" "ssh") × SshSigned tools (1000 ∷ 0 ∷ []) "m.sig" "signers" "alice")
    ⊎ ((◌≡◌ {A = String} "ssh" "ed25519")
        × Ed25519Signed tools (1000 ∷ 0 ∷ []) "m.sig" "signers" "alice")
unfolding verify_manifest
verify_manifest-signed_example =
    verify_manifest-signed tools (1000 ∷ 0 ∷ []) "m.sig" "signers" "alice" "ssh" refl

abbrev public_policy : EnterprisePolicy
public_policy = record { public_targets = "203.0.113.7" ∷ [] }

policy_of_bytes : load_policy py (1 ∷ []) ≡ policy public_policy
unfolding load_policy field_of ianua_broker.Prelude.has_ink
policy_of_bytes = refl

resolve_scope-of_policy_example :
    resolve_scope py agent agent_ceiling (some public_policy.public_targets) manifest
    ≢ value_error "203.0.113.7"
resolve_scope-of_policy_example =
    resolve_scope-of_policy py (1 ∷ []) public_policy agent agent_ceiling manifest "203.0.113.7"
      policy_of_bytes
