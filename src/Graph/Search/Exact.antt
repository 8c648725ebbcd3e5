-- ===== src/Graph/Search/Exact.antt =====
-- What `_enumerate` and `analyze_graph` return, against the chains of the graph.
use ianua_broker.Prelude.{
  num_Ord, text_Ord, pair_Ord, list_Ord, suc, refl, inl, inr, true, false, none, some, [], ◌∷◌,
  text_Eq, num_Eq, pair_Eq, option_Eq, list_Eq, Dict, List, String, ◌≡◌, ℕ, ◌≤◌, length, NoRepeats,
  arith, ◌+◌, NoRepeats-append, length-append, All, Bool, Option, take, ◌↔◌, Bool-cases, IsSorted,
  sorted, ◌==◌, ◌&&◌, list_beq_iff, ◌||◌, ltb, list_Eq, text_Eq, num_Ord, text_Ord, pair_Ord,
  list_Ord, All-map_pred, length-sorted, sym, All-take, ◌∙◌, All-sorted, take_all, IsSorted-take,
  any-sorted, sorted-IsSorted, length-take_le,
}
use ianua_broker.Graph.Chain.{is_actionable}
use ianua_broker.Graph.Model.{EdgeKind, Node, Edge, AttackPath, rank_key, edge_kind_Eq}
use ianua_broker.Graph.Search.{
  Successors, index_nodes, is_chain, adjacency_of, enumerate_chains, search_graph, Found, ranked,
  entries_of, max_hops, max_paths, path_at, nothing_found,
}
use ianua_broker.Graph.Search.Spec.{
  IsChain, Leads, arrive, onward, Leads, IsChain, has_chain, OnFound-of,
}
use ianua_broker.Graph.Search.Sound.{visit_entries-safe}
use ianua_broker.Graph.Search.Complete.{visit_entries-covers, CoversFrom}
use ianua_broker.Graph.Search.Grows.{Grows}
use mathlib.Core.Option

-- The facts that a chain is a path: no node twice, one node more than edges, at most the steps.
module _ (node_by_id : Dict String Node) (adjacency : Dict String Successors) where
  Leads-length :
      {nodes : List String} {edges : List EdgeKind} {steps : ℕ} {current : String}
      {ids : List String} {kinds : List EdgeKind}
      → Leads node_by_id adjacency nodes edges steps current ids kinds
      → length ids ≡ suc (length kinds)
      → (length nodes ≡ suc (length edges)) × (length edges ≤ length kinds + steps)
  Leads-length (arrive node here sink e f) h = rw (e, f) (h, omega arith)
  Leads-length (onward {steps} {current} {ids} {kinds} node kind dst here inner edge new leads) h =
      let shape =
        Leads-length leads
          (omega (arith, h, length-append ids (dst ∷ []), length-append kinds (kind ∷ []))) in
      (shape.0, omega (arith, shape.1, length-append kinds (kind ∷ [])))

  Leads-NoRepeats :
      {nodes : List String} {edges : List EdgeKind} {steps : ℕ} {current : String}
      {ids : List String} {kinds : List EdgeKind}
      → Leads node_by_id adjacency nodes edges steps current ids kinds
      → NoRepeats ids
      → NoRepeats nodes
  Leads-NoRepeats (arrive node here sink e f) h = rw e h
  Leads-NoRepeats (onward {steps} {current} {ids} {kinds} node kind dst here inner edge new leads)
        h =
      Leads-NoRepeats leads (NoRepeats-append ids dst h new)

IsChain-length :
    {nodes : List Node} {edges : List Edge} {steps : ℕ} {ids : List String} {kinds : List EdgeKind}
    → IsChain nodes edges steps ids kinds
    → (length ids ≡ suc (length kinds)) × (length kinds ≤ steps)
IsChain-length {nodes} {edges} chain =
    let shape = Leads-length (index_nodes nodes) (adjacency_of edges) chain.leads (omega arith) in
    (shape.0, omega (arith, shape.1))

IsChain-NoRepeats :
    {nodes : List Node} {edges : List Edge} {steps : ℕ} {ids : List String} {kinds : List EdgeKind}
    → IsChain nodes edges steps ids kinds
    → NoRepeats ids
IsChain-NoRepeats {nodes} {edges} chain =
    Leads-NoRepeats (index_nodes nodes) (adjacency_of edges) chain.leads (refl, tt)

is_actionable-some : (kinds : List EdgeKind) → is_actionable kinds ≡ true → 1 ≤ length kinds
unfolding is_actionable
is_actionable-some [] h = absurd (cc)
is_actionable-some (kind ∷ kinds) h = omega arith

IsChain-is_chain :
    (lower : String → String) {nodes : List Node} {edges : List Edge} {steps : ℕ}
    {ids : List String} {kinds : List EdgeKind}
    → IsChain nodes edges steps ids kinds
    → is_chain lower (index_nodes nodes) (adjacency_of edges) ids kinds ≡ true
IsChain-is_chain lower {nodes} {edges} {steps} {ids} {kinds} chain =
    let some_edge = is_actionable-some kinds chain.pivots in
    let shape = IsChain-length chain in ground (arith, shape.0, some_edge, chain.pivots)

-- A result is the ranking of what the search found.
module _ (lower : String → String) (nodes : List Node) (edges : List Edge) where
  record Searched (paths : List AttackPath) (truncated : Bool) : Type 0 where
    st : Found
    search : search_graph lower nodes edges ≡ some st
    best : paths ≡ take max_paths (sorted {K = ℕ × (ℕ × List String)} rank_key st.found)
    cut : truncated ≡ (st.ceiling_hit || st.depth_capped || ltb max_paths (length st.found))

  enumerate_chains-Searched :
      (paths : List AttackPath) (truncated : Bool)
      → enumerate_chains lower nodes edges ≡ some (paths, truncated)
      → Searched paths truncated
  unfolding enumerate_chains ranked
  enumerate_chains-Searched paths truncated e = go (search_graph lower nodes edges) refl e
    where
      go :
          (m : Option Found)
          → search_graph lower nodes edges ≡ m
          → Option.map ranked m ≡ some (paths, truncated)
          → Searched paths truncated
      go none s h = absurd (cc)
      go (some st) s h = record { st = st; search = s; best = cc (h); cut = cc (h) }

  -- What `visit_entries-safe` and `visit_entries-covers` say of the whole search.
  search_graph-safe :
      (st : Found)
      → search_graph lower nodes edges ≡ some st
      → All
          (λ (p : AttackPath).
            IsChain nodes edges max_hops p.nodes p.edges
            × (path_at lower (index_nodes nodes) (adjacency_of edges) p.nodes p.edges ≡ some p))
          st.found
  unfolding search_graph
  search_graph-safe st e =
      OnFound-of
        (λ (s : Found).
          All
            (λ (p : AttackPath).
              IsChain nodes edges max_hops p.nodes p.edges
              × (path_at lower (index_nodes nodes) (adjacency_of edges) p.nodes p.edges ≡ some p))
            s.found)
        (search_graph lower nodes edges) st e
        (visit_entries-safe lower (index_nodes nodes) (adjacency_of edges) _ (entries_of nodes)
          nothing_found
          (λ start here path leads chain built. (
            record {
              start = start;
              from_entry = here;
              leads = leads;
              pivots = ground (arith, chain);
            },
            built,
          ))
          tt)

  search_graph-covers :
      (st : Found)
      → search_graph lower nodes edges ≡ some st
      → CoversFrom lower (index_nodes nodes) (adjacency_of edges) (entries_of nodes) st
  unfolding search_graph
  search_graph-covers st e =
      (OnFound-of
        (λ (s : Found).
          Grows nothing_found s
          × CoversFrom lower (index_nodes nodes) (adjacency_of edges) (entries_of nodes) s)
        (search_graph lower nodes edges) st e
        (visit_entries-covers lower (index_nodes nodes) (adjacency_of edges) (entries_of nodes)
          nothing_found)).1

has_chain-All :
    {nodes : List Node} {edges : List Edge} (steps : ℕ) (ids : List String) (kinds : List EdgeKind)
    (paths : List AttackPath)
    → All (λ (p : AttackPath). IsChain nodes edges steps p.nodes p.edges) paths
    → has_chain ids kinds paths ≡ true
    → IsChain nodes edges steps ids kinds
has_chain-All steps ids kinds [] h e = absurd (cc)
has_chain-All {nodes} {edges} steps ids kinds (p ∷ paths) h e =
    elim (Bool-cases (p.nodes == ids && p.edges == kinds)) [
      | inl same ↦
          let same_ids : p.nodes ≡ ids = (list_beq_iff p.nodes ids).0 (ground arith) in
          let same_kinds : p.edges ≡ kinds = (list_beq_iff p.edges kinds).0 (ground arith) in
          rw (sym same_ids, sym same_kinds) h.0
      | inr other ↦ has_chain-All steps ids kinds paths h.1 (ground arith)
    ]

-- The search returns worst first at most fifty attack paths. Each is a chain of the graph: it starts at
-- an entry, ends at a target, follows edges over no node twice, crosses no target before, has a pivot
-- and at most six edges. Its severity, summary and rationale are those of that chain.
pub enumerate_chains-IsChain :
    (lower : String → String) (nodes : List Node) (edges : List Edge) (paths : List AttackPath)
    (truncated : Bool)
    → enumerate_chains lower nodes edges ≡ some (paths, truncated)
    → All
        (λ (p : AttackPath).
          IsChain nodes edges max_hops p.nodes p.edges
          × (path_at lower (index_nodes nodes) (adjacency_of edges) p.nodes p.edges ≡ some p)
          × NoRepeats p.nodes
          × (length p.nodes ≡ suc (length p.edges))
          × (length p.edges ≤ 6))
        paths
      × IsSorted {K = ℕ × (ℕ × List String)} rank_key paths
      × (length paths ≤ 50)
unfolding enumerate_chains search_graph ranked
enumerate_chains-IsChain lower nodes edges paths truncated e =
    let s = enumerate_chains-Searched lower nodes edges paths truncated e in
    let key : AttackPath → ℕ × (ℕ × List String) = rank_key in
    let shaped =
      All-map_pred s.st.found
        (λ p (chain, built). (
          chain,
          built,
          IsChain-NoRepeats chain,
          (IsChain-length chain).0,
          (IsChain-length chain).1,
        ))
        (search_graph-safe lower nodes edges s.st s.search) in
    rw s.best (
      All-take _ max_paths (sorted key s.st.found) (All-sorted key _ s.st.found shaped),
      IsSorted-take key max_paths (sorted key s.st.found) (sorted-IsSorted key s.st.found),
      length-take_le max_paths (sorted key s.st.found),
    )

-- If the result is not marked as truncated, the attack paths are exactly the chains of the graph, of
-- whatever length.
pub enumerate_chains-exact :
    (lower : String → String) (nodes : List Node) (edges : List Edge) (paths : List AttackPath)
    (ids : List String) (kinds : List EdgeKind)
    → enumerate_chains lower nodes edges ≡ some (paths, false)
    → ((steps : ℕ) × IsChain nodes edges steps ids kinds) ↔ (has_chain ids kinds paths ≡ true)
unfolding enumerate_chains search_graph ranked
enumerate_chains-exact lower nodes edges paths ids kinds e =
    let s = enumerate_chains-Searched lower nodes edges paths false e in
    let key : AttackPath → ℕ × (ℕ × List String) = rank_key in
    let is_it : AttackPath → Bool = λ p. p.nodes == ids && p.edges == kinds in
    let few : length (sorted key s.st.found) ≤ max_paths =
      ground (arith, s.cut, length-sorted key s.st.found) in
    let all : paths ≡ sorted key s.st.found =
      s.best ∙ take_all max_paths (sorted key s.st.found) few in
    (
      λ (steps, chain).
          let found : has_chain ids kinds s.st.found ≡ true =
            search_graph-covers lower nodes edges s.st s.search chain.start chain.from_entry
              (ground (arith, s.cut)) (ground (arith, s.cut)) steps ids kinds chain.leads
              (IsChain-is_chain lower chain) in
          rw all (any-sorted key is_it s.st.found ∙ found),
      λ h. (
        max_hops,
        has_chain-All max_hops ids kinds paths
            (All-map_pred paths (λ p facts. facts.0)
              (enumerate_chains-IsChain lower nodes edges paths false e).0)
            h,
      ),
    )
