-- ===== src/Graph/Search/Steps.antt =====
-- The first step of a chain that goes on.
use ianua_broker.Graph.Search.Spec.{arrive, onward, Leads, arrive, onward, Leads}
use ianua_broker.Graph.Model.{edge_kind_Eq, EdgeKind, Node, is_target}
use ianua_broker.Prelude.{
  List, String, Dict, ◌≡◌, ◌++◌, arith, ℕ, get, sym, ◌∙◌, contains, inl, ◌⊎◌, Bool-cases, inr, ◌==◌,
  pair_beq_iff, inl, inr, Bool-cases, pair_beq_iff, inl, inr, Bool-cases,
}
use ianua_broker.Prelude.{
  num_Ord, text_Ord, pair_Ord, list_Ord, true, false, some, [], ◌∷◌, text_Eq, num_Eq, pair_Eq,
  option_Eq, list_Eq,
}
use ianua_broker.Graph.Search.{Successors, successors_at}

module _ (node_by_id : Dict String Node) (adjacency : Dict String Successors) where
  pub Leads-target :
      {steps : ℕ} {current : String} {ids : List String} {kinds : List EdgeKind}
      {nodes : List String} {edges : List EdgeKind} (node : Node)
      → get current node_by_id ≡ some node
      → is_target node.kind ≡ true
      → Leads node_by_id adjacency nodes edges steps current ids kinds
      → (nodes ≡ ids) × (edges ≡ kinds)
  Leads-target node here sink (arrive node' here' sink' e f) = (e, f)
  Leads-target node here sink (onward node' kind dst here' inner edge new leads) =
      absurd (inner_target node node' (sym here ∙ here') sink inner)
    where
      inner_target :
          (n n' : Node) → some n ≡ some n' → is_target n.kind ≡ true → is_target n'.kind ≡ false → ⊥
      inner_target n n' e h k = cc

  -- A step from a node that is no target: the first edge of a chain that goes on.
  pub record Step (nodes : List String) (edges : List EdgeKind) (ids : List String)
      (kinds : List EdgeKind) (successors : Successors) : Type 0 where
    pub kind : EdgeKind
    pub dst : String
    pub steps : ℕ
    pub edge : contains (kind, dst) successors ≡ true
    pub new : contains dst ids ≡ false
    pub rest :
        Leads node_by_id adjacency nodes edges steps dst (ids ++ dst ∷ []) (kinds ++ kind ∷ [])

  pub Leads-Step :
      {steps : ℕ} {current : String} {ids : List String} {kinds : List EdgeKind}
      {nodes : List String} {edges : List EdgeKind} (node : Node)
      → get current node_by_id ≡ some node
      → is_target node.kind ≡ false
      → Leads node_by_id adjacency nodes edges steps current ids kinds
      → Step nodes edges ids kinds (successors_at current adjacency)
  Leads-Step node here inner (arrive node' here' sink e f) =
      absurd (not_both node node' (sym here ∙ here') inner sink)
    where
      not_both :
          (n n' : Node) → some n ≡ some n' → is_target n.kind ≡ false → is_target n'.kind ≡ true → ⊥
      not_both n n' e h k = cc
  Leads-Step node here inner (onward {steps} node' kind dst here' inner' edge new leads) = record {
    kind = kind;
    dst = dst;
    steps = steps;
    edge = edge;
    new = new;
    rest = leads;
  }

  -- A step over a first successor or the others is one over it or over the others.
  pub Step-cases :
      {nodes : List String} {edges : List EdgeKind} {ids : List String} {kinds : List EdgeKind}
      (kind : EdgeKind) (dst : String) (rest : Successors)
      (step : Step nodes edges ids kinds ((kind, dst) ∷ rest))
      → ((kind ≡ step.kind) × (dst ≡ step.dst)) ⊎ Step nodes edges ids kinds rest
  Step-cases kind dst rest step =
      let here : EdgeKind × String = (kind, dst) in
      let there : EdgeKind × String = (step.kind, step.dst) in
      elim (Bool-cases (here == there)) [
        | inl same ↦
            let e : here ≡ there = (pair_beq_iff here there).0 same in
            let same_kind : kind ≡ step.kind = cc (e) in
            let same_dst : dst ≡ step.dst = cc (e) in inl (same_kind, same_dst)
        | inr other ↦ inr (record {
          kind = step.kind;
          dst = step.dst;
          steps = step.steps;
          edge = ground (arith);
          new = step.new;
          rest = step.rest;
        })
      ]

  pub Leads-same :
      {nodes : List String} {edges : List EdgeKind} {steps : ℕ} (ids : List String)
      (kinds : List EdgeKind) (k k' : EdgeKind) (d d' : String)
      → k ≡ k'
      → d ≡ d'
      → Leads node_by_id adjacency nodes edges steps d' (ids ++ d' ∷ []) (kinds ++ k' ∷ [])
      → Leads node_by_id adjacency nodes edges steps d (ids ++ d ∷ []) (kinds ++ k ∷ [])
  Leads-same ids kinds k k' d d' e f h = rw (e, f) h

  pub same_start :
      {steps : ℕ} {nodes : List String} {edges : List EdgeKind} (a b : String)
      → a ≡ b
      → Leads node_by_id adjacency nodes edges steps b (b ∷ []) []
      → Leads node_by_id adjacency nodes edges steps a (a ∷ []) []
  same_start a b e h = rw e h
