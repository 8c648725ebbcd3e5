-- ===== src/Graph/Tests.antt =====
-- A server that is reached from the network and runs a shell unasked, and the graph it makes.
use ianua_broker.Graph.Model.{
  entry, mcp_server, target, reaches, can_act, Edge, Node, AttackPath, AttackGraph, CredRef,
  rank_key,
}
use ianua_broker.Prelude.{
  num_Ord, text_Ord, pair_Ord, list_Ord, [], ◌∷◌, text_Eq, num_Eq, pair_Eq, option_Eq, list_Eq,
  List, String, Option, All, ℕ, ◌≡◌, contains, length, none, some, false, map, ◌↔◌, true, NoRepeats,
  suc, ◌≤◌, IsSorted, refl,
}
use ianua_broker.Graph.Search.{
  enumerate_chains, analyze_graph, max_hops, path_at, index_nodes, adjacency_of,
}
use ianua_broker.Inventory.Model.{model_server, socket, confidence_low, Inventory}
use ianua_broker.Trust.Model.{tool_privilege, exposure_reach, FactorScore, TrustProfile}
use ianua_broker.Domain.{high, grade_d}
use ianua_broker.Graph.Build.Assemble.{SecretHolders, build_graph}
use ianua_broker.Discovery.Reach.{IpAddress}
use ianua_broker.Graph.Search.Spec.{IsChain, has_chain}
use ianua_broker.Graph.Build.Result.{analyze_graph-build_graph, build_graph-connected}
use ianua_broker.Graph.Search.Exact.{enumerate_chains-exact, enumerate_chains-IsChain}

abbrev lower : String → String
lower s = s

abbrev small_nodes : List Node
small_nodes =
    record { id = "e"; kind = entry; label = "web"; detail = ("reach", "private LAN") ∷ [] }
    ∷ record { id = "s"; kind = mcp_server; label = "web"; detail = [] }
    ∷ record { id = "t"; kind = target; label = "GitHub"; detail = [] }
    ∷ []

abbrev small_edges : List Edge
small_edges =
    record { src = "e"; dst = "s"; kind = reaches; detail = "" }
    ∷ record { src = "s"; dst = "t"; kind = can_act; detail = "" }
    ∷ []

abbrev small_paths : List AttackPath
small_paths =
    record {
      nodes = "e" ∷ "s" ∷ "t" ∷ [];
      edges = reaches ∷ can_act ∷ [];
      severity = high;
      summary = "exposed 'web' (private LAN bind) -> GitHub";
      rationale =
          "Chain from an exposed surface to GitHub: a privileged tool can act on the target.";
    }
    ∷ []

small_run : enumerate_chains lower small_nodes small_edges ≡ some (small_paths, false)
unfolding enumerate_chains
small_run = refl

enumerate_chains-IsChain_example :
    All
      (λ (p : AttackPath).
        IsChain small_nodes small_edges max_hops p.nodes p.edges
        × (path_at lower (index_nodes small_nodes) (adjacency_of small_edges) p.nodes p.edges
            ≡ some p)
        × NoRepeats p.nodes
        × (length p.nodes ≡ suc (length p.edges))
        × (length p.edges ≤ 6))
      small_paths
    × IsSorted {K = ℕ × (ℕ × List String)} rank_key small_paths
    × (length small_paths ≤ 50)
enumerate_chains-IsChain_example =
    enumerate_chains-IsChain lower small_nodes small_edges small_paths false small_run

enumerate_chains-exact_example :
    ((steps : ℕ) × IsChain small_nodes small_edges steps
        ("e" ∷ "s" ∷ "t" ∷ [])
        (reaches ∷ can_act ∷ []))
    ↔ (has_chain ("e" ∷ "s" ∷ "t" ∷ []) (reaches ∷ can_act ∷ []) small_paths ≡ true)
enumerate_chains-exact_example =
    enumerate_chains-exact lower small_nodes small_edges small_paths ("e" ∷ "s" ∷ "t" ∷ [])
      (reaches ∷ can_act ∷ []) small_run

-- Two servers that hold one credential; the first is exposed and runs a shell unasked.
abbrev no_address : IpAddress
no_address s = none

abbrev cred : CredRef
cred = record {
  env_key = "GITHUB_TOKEN";
  fingerprint = record { masked = "ghp_…"; sha256_8 = "0011aabb"; length = 40 };
}

abbrev profile_named : String → List FactorScore → TrustProfile
profile_named name factors = record {
  subject = name;
  server_name = name;
  host = "Claude";
  location = "/home/u/.claude.json";
  score = 60;
  grade = grade_d;
  factors = factors;
  relationships = [];
}

abbrev two_profiles : List TrustProfile
two_profiles =
    profile_named "shell" (
      record { factor = tool_privilege; risk = 20; detail = "1 dangerous tool(s)" }
      ∷ record { factor = exposure_reach; risk = 10; detail = "binds a private-LAN address" }
      ∷ [])
    ∷ profile_named "notes" []
    ∷ []

abbrev two_holders : SecretHolders
two_holders = ("shell", cred ∷ []) ∷ ("notes", cred ∷ []) ∷ ("gone", cred ∷ []) ∷ []

abbrev one_socket : Option Inventory
one_socket = some (record {
  schema_version = "1.0";
  assets =
      record {
        kind = model_server;
        product = "Ollama";
        source = socket;
        location = "10.0.0.5:11434";
        confidence = confidence_low;
        evidence = [];
        host = none;
        server_name = none;
        bind_addr = some "10.0.0.5";
        port = some 11434;
        pid = none;
        proc_name = none;
      }
      ∷ [];
  inspection_incomplete = false;
})

abbrev two_graph : AttackGraph
two_graph = build_graph lower no_address two_profiles one_socket two_holders

edges_of_two_graph : length two_graph.edges ≡ 10
unfolding build_graph
edges_of_two_graph = refl

build_graph-connected_example :
    All
      (λ (e : Edge).
        (contains e.src (map (λ (n : Node). n.id) two_graph.nodes) ≡ true)
        × (contains e.dst (map (λ (n : Node). n.id) two_graph.nodes) ≡ true))
      two_graph.edges
build_graph-connected_example =
    build_graph-connected lower no_address two_profiles one_socket two_holders

analyze_graph-build_graph_example :
    (analyzed : AttackGraph) × (analyze_graph lower two_graph ≡ some analyzed)
    × (analyzed.nodes ≡ two_graph.nodes)
    × (analyzed.edges ≡ two_graph.edges)
analyze_graph-build_graph_example =
    analyze_graph-build_graph lower lower no_address two_profiles one_socket two_holders
