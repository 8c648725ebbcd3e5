-- ===== src/Graph/Search/Spec.antt =====
-- What the chains of a graph are, whatever order and bound a search has.
use ianua_broker.Graph.Model.{edge_kind_Eq, Node, Edge, EdgeKind, AttackPath, is_target}
use ianua_broker.Prelude.{
  num_Ord, text_Ord, pair_Ord, list_Ord, suc, true, false, none, some, [], ◌∷◌, text_Eq, num_Eq,
  pair_Eq, option_Eq, list_Eq, Dict, List, Option, String, ◌≡◌, ℕ, Bool, contains, get, any, ◌==◌,
  ◌&&◌, ◌++◌, arith,
}
use ianua_broker.Graph.Search.{
  Found, Successors, entries_of, index_nodes, successors_at, adjacency_of, path_at, path_of,
  nodes_at,
}
use ianua_broker.Graph.Chain.{is_actionable}

module _ (node_by_id : Dict String Node) (adjacency : Dict String Successors) where
  -- From the node `current`, at the end of `ids` and `kinds`, at most `steps` more edges lead along
  -- `nodes` and `edges` to a target: over no target before, and over no node twice.
  pub data Leads (nodes : List String) (edges : List EdgeKind)
      : ℕ → String → List String → List EdgeKind → Type 0 where
    arrive :
        {steps : ℕ} {current : String} {ids : List String} {kinds : List EdgeKind} (node : Node)
        → get current node_by_id ≡ some node
        → is_target node.kind ≡ true
        → nodes ≡ ids
        → edges ≡ kinds
        → Leads nodes edges steps current ids kinds
    onward :
        {steps : ℕ} {current : String} {ids : List String} {kinds : List EdgeKind} (node : Node)
        (kind : EdgeKind) (dst : String)
        → get current node_by_id ≡ some node
        → is_target node.kind ≡ false
        → contains (kind, dst) (successors_at current adjacency) ≡ true
        → contains dst ids ≡ false
        → Leads nodes edges steps dst (ids ++ dst ∷ []) (kinds ++ kind ∷ [])
        → Leads nodes edges (suc steps) current ids kinds

-- A chain of the graph: from an entry to a target over at most `steps` edges, with a pivot.
pub record IsChain (nodes : List Node) (edges : List Edge) (steps : ℕ) (ids : List String)
    (kinds : List EdgeKind) : Type 0 where
  pub start : String
  pub from_entry : contains start (entries_of nodes) ≡ true
  pub leads : Leads (index_nodes nodes) (adjacency_of edges) ids kinds steps start (start ∷ []) []
  pub pivots : is_actionable kinds ≡ true

-- A list of chains has this one.
abbrev pub has_chain : List String → List EdgeKind → List AttackPath → Bool
has_chain ids kinds paths = any (λ (p : AttackPath). p.nodes == ids && p.edges == kinds) paths

-- What holds of the state if the search returned.
abbrev pub OnFound {ℓ} : (Found → Type ℓ) → Option Found → Type ℓ
OnFound P none = Unit
OnFound P (some st) = P st

pub OnFound-map {ℓ κ} :
    (P : Found → Type ℓ) (Q : Found → Type κ) (m : Option Found)
    → OnFound P m
    → ((st : Found) → P st → Q st)
    → OnFound Q m
OnFound-map P Q none h k = tt
OnFound-map P Q (some st) h k = k st h

pub OnFound-of {ℓ} :
    (P : Found → Type ℓ) (m : Option Found) (st : Found) → m ≡ some st → OnFound P m → P st
OnFound-of P m st e h = rw e at h

module _ (lower : String → String) (node_by_id : Dict String Node)
    (adjacency : Dict String Successors) where
  path_of-parts :
      (ids : List String) (kinds : List EdgeKind) (ns : Option (List Node)) (path : AttackPath)
      → path_of lower node_by_id adjacency ids kinds ns ≡ some path
      → (path.nodes ≡ ids) × (path.edges ≡ kinds)
  unfolding path_of
  path_of-parts ids kinds none path h = cc
  path_of-parts ids kinds (some []) path h = cc
  path_of-parts ids kinds (some (node ∷ rest)) path h = ground arith

  pub path_at-parts :
      (ids : List String) (kinds : List EdgeKind) (path : AttackPath)
      → path_at lower node_by_id adjacency ids kinds ≡ some path
      → (path.nodes ≡ ids) × (path.edges ≡ kinds)
  unfolding path_at
  path_at-parts ids kinds path h = path_of-parts ids kinds (nodes_at node_by_id ids) path h
