-- ===== src/Graph/Model.antt =====
-- src/mcpscan/graph/model.py: nodes, edges, chains and the graph that holds them.
use ianua_broker.Domain.{critical, high, Severity, weight, Grade, SecretFingerprint}
use ianua_broker.Prelude.{
  num_Ord, text_Ord, pair_Ord, list_Ord, true, false, text_Eq, num_Eq, pair_Eq, option_Eq, list_Eq,
  Bool, Eq, List, String, sorted, ◌≡◌, select, ℕ, ◌↔◌, arith, ◌-◌, length, ◌==◌, ◌&&◌,
}

pub data NodeKind : Type 0 where
  entry agent_host mcp_server credential target : NodeKind

-- The values of the enum, by which nodes are sorted.
unfoldable pub node_kind_value : NodeKind → String
node_kind_value entry = "entry"
node_kind_value agent_host = "agent_host"
node_kind_value mcp_server = "mcp_server"
node_kind_value credential = "credential"
node_kind_value target = "target"

abbrev pub is_entry : NodeKind → Bool
is_entry entry = true
is_entry _ = false

abbrev pub is_target : NodeKind → Bool
is_target target = true
is_target _ = false

abbrev pub is_mcp_server : NodeKind → Bool
is_mcp_server mcp_server = true
is_mcp_server _ = false

pub data EdgeKind : Type 0 where
  hosts reaches holds shared_with unlocks can_act : EdgeKind

unfoldable pub edge_kind_value : EdgeKind → String
edge_kind_value hosts = "hosts"
edge_kind_value reaches = "reaches"
edge_kind_value holds = "holds"
edge_kind_value shared_with = "shared_with"
edge_kind_value unlocks = "unlocks"
edge_kind_value can_act = "can_act"

abbrev pub edge_kind_beq : EdgeKind → EdgeKind → Bool
edge_kind_beq hosts hosts = true
edge_kind_beq reaches reaches = true
edge_kind_beq holds holds = true
edge_kind_beq shared_with shared_with = true
edge_kind_beq unlocks unlocks = true
edge_kind_beq can_act can_act = true
edge_kind_beq _ _ = false

pub edge_kind_beq_iff : (a b : EdgeKind) → (edge_kind_beq a b ≡ true) ↔ (a ≡ b)
edge_kind_beq_iff a b = ground arith

instance abbrev pub edge_kind_Eq : Eq EdgeKind
edge_kind_Eq = record { beq = edge_kind_beq; beq_iff = edge_kind_beq_iff }

pub record CredRef : Type 0 where
  pub env_key : String
  pub fingerprint : SecretFingerprint

pub record Node : Type 0 where
  pub id : String
  pub kind : NodeKind
  pub label : String
  pub detail : List (String × String)

pub record Edge : Type 0 where
  pub src : String
  pub dst : String
  pub kind : EdgeKind
  pub detail : String

abbrev pub edge_beq : Edge → Edge → Bool
edge_beq a b =
    a.src == b.src && a.dst == b.dst && edge_kind_beq a.kind b.kind && a.detail == b.detail

pub edge_beq_iff : (a b : Edge) → (edge_beq a b ≡ true) ↔ (a ≡ b)
edge_beq_iff a b = ground (
  arith,
  text_Eq.beq_iff a.src b.src,
  text_Eq.beq_iff a.dst b.dst,
  edge_kind_beq_iff a.kind b.kind,
  text_Eq.beq_iff a.detail b.detail,
)

instance abbrev pub edge_Eq : Eq Edge
edge_Eq = record { beq = edge_beq; beq_iff = edge_beq_iff }

pub record AttackPath : Type 0 where
  pub nodes : List String
  pub edges : List EdgeKind
  pub severity : Severity
  pub summary : String
  pub rationale : String

pub record AttackGraph : Type 0 where
  pub schema_version : String
  pub nodes : List Node
  pub edges : List Edge
  pub paths : List AttackPath
  pub overall_grade : Grade
  pub truncated : Bool

abbrev pub is_severe : Severity → Bool
is_severe critical = true
is_severe high = true
is_severe _ = false

-- `(-severity.weight, len(nodes), nodes)`: the greatest weight is 40, and comes first.
unfoldable pub rank_key : AttackPath → ℕ × (ℕ × List String)
unfolding weight
rank_key path = (40 - weight path.severity, (length path.nodes, path.nodes))

unfoldable pub critical_paths : AttackGraph → List AttackPath
unfolding sorted rank_key
critical_paths graph =
    sorted rank_key (select (λ (p : AttackPath). is_severe p.severity) graph.paths)
