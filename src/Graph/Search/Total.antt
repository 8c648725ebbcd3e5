-- ===== src/Graph/Search/Total.antt =====
-- The search does not raise on a graph whose edges end at its nodes.
use mathlib.Core.Option
use ianua_broker.Prelude.{
  num_Ord, text_Ord, pair_Ord, list_Ord, zero, suc, inl, inr, true, false, none, some, [], ◌∷◌,
  text_Eq, num_Eq, pair_Eq, option_Eq, list_Eq, Option, String, Dict, All, has, List, get, ℕ, ◌≡◌,
  Bool, if_rule, ◌++◌, ◌≤◌, Option-cases, if◌then◌else◌, length, arith, contains, leb, All-append,
}
use ianua_broker.Graph.Model.{Node, EdgeKind, AttackPath, is_target}
use ianua_broker.Graph.Search.{
  Successors, nodes_at, path_at, record_chain, try_successors, visit, visit_entries, Visit, path_of,
  Found, successors_at, is_chain, enumeration_ceiling, max_hops,
}
use ianua_broker.Graph.Chain.{make_path}

abbrev pub IsSome {ℓ} : {A : Type ℓ} → Option A → Type 0
IsSome none = ⊥
IsSome (some a) = Unit

module _ (lower : String → String) (node_by_id : Dict String Node)
    (adjacency : Dict String Successors) where
  abbrev Known : String → Type 0
  Known id = has id node_by_id ≡ true

  -- Every edge ends at a node.
  abbrev IsClosed : Type 0
  IsClosed =
      (src : String) → All (λ (s : EdgeKind × String). Known s.1) (successors_at src adjacency)

  nodes_at-IsSome : (ids : List String) → All Known ids → IsSome (nodes_at node_by_id ids)
  unfolding nodes_at has get
  nodes_at-IsSome [] h = tt
  nodes_at-IsSome (id ∷ ids) h =
      go (get id node_by_id) h.0 (nodes_at node_by_id ids) (nodes_at-IsSome ids h.1)
    where
      go :
          (m : Option Node)
          → (elim m as (λ _. Bool) [ none ↦ false | some v ↦ true ]) ≡ true
          → (later : Option (List Node)) → IsSome later
          → IsSome (elim m as (λ _. Option (List Node)) [
            | none ↦ none
            | some node ↦ Option.map (λ ns. node ∷ ns) later
          ])
      go none e later s = absurd (cc)
      go (some node) e none s = elim s [ ]
      go (some node) e (some ns) s = tt

  path_at-IsSome :
      (ids : List String) (edges : List EdgeKind)
      → 1 ≤ length ids
      → All Known ids
      → IsSome (path_at lower node_by_id adjacency ids edges)
  unfolding path_at path_of make_path nodes_at has get
  path_at-IsSome [] edges h known = absurd (omega arith)
  path_at-IsSome (id ∷ ids) edges h known =
      go (get id node_by_id) known.0 (nodes_at node_by_id ids) (nodes_at-IsSome ids known.1)
    where
      go :
          (m : Option Node)
          → (elim m as (λ _. Bool) [ none ↦ false | some v ↦ true ]) ≡ true
          → (later : Option (List Node)) → IsSome later
          → IsSome (
              path_of lower node_by_id adjacency
                (id ∷ ids)
                edges
                (elim m as (λ _. Option (List Node)) [
                  | none ↦ none
                  | some node ↦ Option.map (λ ns. node ∷ ns) later
                ]))
      go none e later s = absurd (cc)
      go (some node) e none s = elim s [ ]
      go (some node) e (some ns) s = tt

  record_chain-IsSome :
      (ids : List String) (edges : List EdgeKind) (st : Found)
      → All Known ids
      → IsSome (record_chain lower node_by_id adjacency ids edges st)
  unfolding record_chain
  record_chain-IsSome ids edges st known =
      if_rule IsSome (is_chain lower node_by_id adjacency ids edges) _ (some st)
        (λ chain.
          if_rule IsSome (leb enumeration_ceiling (length st.found)) _ _ (λ _. tt)
            λ _.
              mapped (path_at lower node_by_id adjacency ids edges)
                (path_at-IsSome ids edges (ground arith) known))
        (λ _. tt)
    where
      mapped :
          (m : Option AttackPath)
          → IsSome m
          → IsSome (Option.map (λ path. record st { found = st.found ++ path ∷ [] }) m)
      mapped none s = elim s [ ]
      mapped (some path) s = tt

  try_successors-IsSome :
      (go : Visit) (ids : List String) (kinds : List EdgeKind) (successors : Successors)
      (st : Found)
      → ((kind : EdgeKind) (dst : String) (s : Found)
          → Known dst
          → IsSome (go dst (ids ++ dst ∷ []) (kinds ++ kind ∷ []) s))
      → All (λ (s : EdgeKind × String). Known s.1) successors
      → IsSome (try_successors go ids kinds successors st)
  unfolding try_successors
  try_successors-IsSome go ids kinds [] st visits known = tt
  try_successors-IsSome go ids kinds ((kind, dst) ∷ rest) st visits known =
      let later = λ (s : Found). try_successors-IsSome go ids kinds rest s visits known.1 in
      if_rule IsSome (contains dst ids) _ _ (λ _. later st)
        λ _.
          tried later (go dst (ids ++ dst ∷ []) (kinds ++ kind ∷ []) st)
            (visits kind dst st known.0)
    where
      tried :
          ((s : Found) → IsSome (try_successors go ids kinds rest s))
          → (m : Option Found) → IsSome m
          → IsSome (elim m as (λ _. Option Found) [
            | none ↦ none
            | some st' ↦ if st'.ceiling_hit then some st' else try_successors go ids kinds rest st'
          ])
      tried later none h = elim h [ ]
      tried later (some st') h =
          if_rule IsSome st'.ceiling_hit (some st') _ (λ _. tt) (λ _. later st')

  visit-IsSome :
      (hops : ℕ) (current : String) (ids : List String) (kinds : List EdgeKind) (st : Found)
      → IsClosed
      → Known current
      → All Known ids
      → IsSome (visit lower node_by_id adjacency hops current ids kinds st)
  unfolding visit has
  visit-IsSome zero current ids kinds st closed here known =
      if_rule IsSome st.ceiling_hit (some st) _ (λ _. tt)
        λ _. elim (Option-cases (get current node_by_id)) [
          | inl e ↦ absurd (cc (here, e))
          | inr (node, e) ↦ rw (e) (
              if_rule IsSome (is_target node.kind) _ _ (λ _. record_chain-IsSome ids kinds st known)
                (λ _. tt))
        ]
  visit-IsSome (suc hops) current ids kinds st closed here known =
      let further =
        try_successors-IsSome (visit lower node_by_id adjacency hops) ids kinds
          (successors_at current adjacency) st
          (λ kind dst s there.
            visit-IsSome hops dst (ids ++ dst ∷ []) (kinds ++ kind ∷ []) s closed there
              (All-append Known ids (dst ∷ []) known (there, tt)))
          (closed current) in
      if_rule IsSome st.ceiling_hit (some st) _ (λ _. tt)
        λ _. elim (Option-cases (get current node_by_id)) [
          | inl e ↦ absurd (cc (here, e))
          | inr (node, e) ↦ rw (e) (
              if_rule IsSome (is_target node.kind) _ _ (λ _. record_chain-IsSome ids kinds st known)
                (λ _. further))
        ]

  pub visit_entries-IsSome :
      (entries : List String) (st : Found)
      → IsClosed
      → All Known entries
      → IsSome (visit_entries lower node_by_id adjacency entries st)
  unfolding visit_entries
  visit_entries-IsSome [] st closed known = tt
  visit_entries-IsSome (entry ∷ rest) st closed known =
      started (λ s. visit_entries-IsSome rest s closed known.1)
        (visit lower node_by_id adjacency max_hops entry (entry ∷ []) [] st)
        (visit-IsSome max_hops entry (entry ∷ []) [] st closed known.0 (known.0, tt))
    where
      started :
          ((s : Found) → IsSome (visit_entries lower node_by_id adjacency rest s))
          → (m : Option Found) → IsSome m
          → IsSome (elim m as (λ _. Option Found) [
            | none ↦ none
            | some st' ↦ visit_entries lower node_by_id adjacency rest st'
          ])
      started later none h = elim h [ ]
      started later (some s) h = later s
