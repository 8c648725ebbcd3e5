-- ===== src/Graph/Search/Sound.antt =====
-- Every chain that the search records is one.
use ianua_broker.Graph.Model.{edge_kind_Eq, Node, AttackPath, EdgeKind, is_target}
use mathlib.Core.Option
use ianua_broker.Prelude.{
  num_Ord, text_Ord, pair_Ord, list_Ord, refl, true, false, none, some, [], ◌∷◌, text_Eq, num_Eq,
  pair_Eq, option_Eq, list_Eq, String, Dict, List, Option, ℕ, ◌≡◌, All, ◌++◌, All-append, if_rule,
  leb, length, any, contains, if◌then◌else◌, not, arith, beq_self, get, Option-cases, inl, inr, suc,
  zero, suc, inl, inr,
}
use ianua_broker.Graph.Search.{
  Successors, path_at, record_chain, Found, Visit, is_chain, enumeration_ceiling, stop_deep,
  try_successors, visit, successors_at, visit_entries, max_hops,
}
use ianua_broker.Graph.Search.Spec.{Leads, OnFound, path_at-parts, arrive, onward}

module _ {ℓ} (lower : String → String) (node_by_id : Dict String Node)
    (adjacency : Dict String Successors) (P : AttackPath → Type ℓ) where
  -- Whatever this part of the search may record has the property.
  abbrev Allowed : ℕ → String → List String → List EdgeKind → Type ℓ
  Allowed hops current ids kinds =
      (path : AttackPath)
      → Leads node_by_id adjacency path.nodes path.edges hops current ids kinds
      → is_chain lower node_by_id adjacency path.nodes path.edges ≡ true
      → path_at lower node_by_id adjacency path.nodes path.edges ≡ some path
      → P path

  abbrev AllFound : Option Found → Type ℓ
  AllFound m = OnFound (λ (st : Found). All P st.found) m

  abbrev IsSafe : (String → List String → List EdgeKind → Type ℓ) → Visit → Type ℓ
  IsSafe H go =
      (current : String) (ids : List String) (kinds : List EdgeKind) (st : Found)
      → H current ids kinds
      → All P st.found
      → AllFound (go current ids kinds st)

  record_chain-safe :
      (ids : List String) (kinds : List EdgeKind) (st : Found)
      → ((path : AttackPath)
          → is_chain lower node_by_id adjacency ids kinds ≡ true
          → path_at lower node_by_id adjacency ids kinds ≡ some path
          → P path)
      → All P st.found
      → AllFound (record_chain lower node_by_id adjacency ids kinds st)
  unfolding record_chain
  record_chain-safe ids kinds st allowed h =
      if_rule AllFound (is_chain lower node_by_id adjacency ids kinds) _ (some st)
        (λ chain.
          if_rule AllFound (leb enumeration_ceiling (length st.found)) _ _ (λ _. h)
            λ _.
              appended (path_at lower node_by_id adjacency ids kinds)
                (λ path e. allowed path chain e))
        (λ _. h)
    where
      appended :
          (m : Option AttackPath)
          → ((path : AttackPath) → m ≡ some path → P path)
          → AllFound (Option.map (λ path. record st { found = st.found ++ path ∷ [] }) m)
      appended none k = tt
      appended (some path) k = All-append P st.found (path ∷ []) h (k path refl, tt)

  stop_deep-safe :
      (successors : Successors) (ids : List String) (st : Found)
      → All P st.found
      → AllFound (stop_deep lower node_by_id adjacency successors ids st)
  unfolding stop_deep
  stop_deep-safe successors ids st h =
      if_rule (λ (s : Found). All P s.found)
        (any (λ (s : EdgeKind × String). not (contains s.1 ids)) successors)
        (record st { depth_capped = true }) st (λ _. h) (λ _. h)

  -- The successors are tried one by one, each that is not on the chain.
  try_successors-safe :
      (go : Visit) (ids : List String) (kinds : List EdgeKind) (successors : Successors)
      (st : Found)
      → ((kind : EdgeKind) (dst : String) (s : Found)
          → contains (kind, dst) successors ≡ true
          → contains dst ids ≡ false
          → All P s.found
          → AllFound (go dst (ids ++ dst ∷ []) (kinds ++ kind ∷ []) s))
      → All P st.found
      → AllFound (try_successors go ids kinds successors st)
  unfolding try_successors
  try_successors-safe go ids kinds [] st safe h = h
  try_successors-safe go ids kinds ((kind, dst) ∷ rest) st safe h =
      let later : (s : Found) → All P s.found → AllFound (try_successors go ids kinds rest s) =
        λ s hs.
          try_successors-safe go ids kinds rest s
            (λ k d s' here new hs'. safe k d s' (ground arith) new hs') hs in
      if_rule AllFound (contains dst ids) _ _ (λ _. later st h)
        λ new.
          tried later (go dst (ids ++ dst ∷ []) (kinds ++ kind ∷ []) st)
            (safe kind dst st (ground (arith, beq_self {A = EdgeKind × String} (kind, dst))) new h)
    where
      tried :
          ((s : Found) → All P s.found → AllFound (try_successors go ids kinds rest s))
          → (m : Option Found) → AllFound m
          → AllFound (elim m as (λ _. Option Found) [
            | none ↦ none
            | some st' ↦ if st'.ceiling_hit then some st' else try_successors go ids kinds rest st'
          ])
      tried later none hm = tt
      tried later (some st') hm =
          if_rule AllFound st'.ceiling_hit (some st') _ (λ _. hm) (λ _. later st' hm)

  abbrev graph_visit : ℕ → Visit
  graph_visit = visit lower node_by_id adjacency

  target_branch-safe :
      (hops : ℕ) (current : String) (ids : List String) (kinds : List EdgeKind) (st : Found)
      (node : Node)
      → get current node_by_id ≡ some node
      → is_target node.kind ≡ true
      → Allowed hops current ids kinds
      → All P st.found
      → AllFound (record_chain lower node_by_id adjacency ids kinds st)
  target_branch-safe hops current ids kinds st node here sink allowed h =
      record_chain-safe ids kinds st
        (λ path chain e.
          let (same_ids, same_kinds) = path_at-parts lower node_by_id adjacency ids kinds path e in
          allowed path (arrive node here sink same_ids same_kinds)
            (cc (chain, same_ids, same_kinds)) (cc (e, same_ids, same_kinds)))
        h

  visit-safe :
      (hops : ℕ) (current : String) (ids : List String) (kinds : List EdgeKind) (st : Found)
      → Allowed hops current ids kinds
      → All P st.found
      → AllFound (graph_visit hops current ids kinds st)
  unfolding visit
  visit-safe zero current ids kinds st allowed h =
      if_rule AllFound st.ceiling_hit (some st) _ (λ _. h)
        λ _. elim (Option-cases (get current node_by_id)) [
          | inl e ↦ rw (e) tt
          | inr (node, e) ↦ rw (e) (
              if_rule AllFound (is_target node.kind) _ _
                (λ sink. target_branch-safe zero current ids kinds st node e sink allowed h)
                (λ _. stop_deep-safe (successors_at current adjacency) ids st h))
        ]
  visit-safe (suc hops) current ids kinds st allowed h =
      let further =
        λ (node : Node) (e : get current node_by_id ≡ some node)
            (inner : is_target node.kind ≡ false).
          try_successors-safe (graph_visit hops) ids kinds (successors_at current adjacency) st
            (λ kind dst s edge new hs.
              visit-safe hops dst (ids ++ dst ∷ []) (kinds ++ kind ∷ []) s
                (λ path leads. allowed path (onward node kind dst e inner edge new leads)) hs)
            h in
      if_rule AllFound st.ceiling_hit (some st) _ (λ _. h)
        λ _. elim (Option-cases (get current node_by_id)) [
          | inl e ↦ rw (e) tt
          | inr (node, e) ↦ rw (e) (
              if_rule AllFound (is_target node.kind) _ _
                (λ sink. target_branch-safe (suc hops) current ids kinds st node e sink allowed h)
                (further node e))
        ]

  pub visit_entries-safe :
      (entries : List String) (st : Found)
      → ((start : String) → contains start entries ≡ true → Allowed max_hops start (start ∷ []) [])
      → All P st.found
      → AllFound (visit_entries lower node_by_id adjacency entries st)
  unfolding visit_entries
  visit_entries-safe [] st allowed h = h
  visit_entries-safe (start ∷ rest) st allowed h =
      let later : (s : Found)
          → All P s.found
          → AllFound (visit_entries lower node_by_id adjacency rest s) =
        λ s hs. visit_entries-safe rest s (λ t here. allowed t (ground arith)) hs in
      go later (graph_visit max_hops start (start ∷ []) [] st) (
        visit-safe max_hops start (start ∷ []) [] st
          (allowed start (ground (arith, beq_self start))) h)
    where
      go :
          ((s : Found) → All P s.found → AllFound (visit_entries lower node_by_id adjacency rest s))
          → (m : Option Found) → AllFound m
          → AllFound (elim m as (λ _. Option Found) [
            | none ↦ none
            | some st' ↦ visit_entries lower node_by_id adjacency rest st'
          ])
      go later none hm = tt
      go later (some st') hm = later st' hm
