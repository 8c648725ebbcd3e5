-- ===== src/Graph/Search/Complete.antt =====
-- The search records every chain, unless it says that it was cut.
use ianua_broker.Graph.Search.Spec.{has_chain, Leads, OnFound, path_at-parts, OnFound-map}
use ianua_broker.Graph.Model.{edge_kind_Eq, EdgeKind, AttackPath, Node, is_target}
use mathlib.Core.Option
use ianua_broker.Prelude.{
  List, String, Dict, ◌≡◌, ◌++◌, Option, arith, ℕ, get, sym, ◌∙◌, if_rule, leb, length, contains,
  not, any, any-contains, inl, Bool-cases, inr, ◌==◌, inl, inr, Bool-cases, inl, inr, Bool-cases,
  zero, suc, if◌then◌else◌, Option-cases,
}
use ianua_broker.Prelude.{
  num_Ord, text_Ord, pair_Ord, list_Ord, refl, true, false, none, some, [], ◌∷◌, text_Eq, num_Eq,
  pair_Eq, option_Eq, list_Eq,
}
use ianua_broker.Graph.Search.{
  Found, Successors, record_chain, is_chain, enumeration_ceiling, path_at, stop_deep, successors_at,
  try_successors, Visit, visit, visit_entries, max_hops,
}
use ianua_broker.Graph.Search.Grows.{
  Grows, Grows-refl, Grows-trans, set_ceiling, set_capped, append_path, has_chain-last,
}
use ianua_broker.Graph.Search.Steps.{
  Leads-target, Leads-Step, Step-cases, Leads-same, same_start, Step,
}

module _ (lower : String → String) (node_by_id : Dict String Node)
    (adjacency : Dict String Successors) where
  -- Every chain that starts with what was walked so far is recorded, unless a flag is set.
  abbrev Covers : String → List String → List EdgeKind → Found → Type 0
  Covers current ids kinds st =
      st.ceiling_hit ≡ false
      → st.depth_capped ≡ false
      → (steps : ℕ) (nodes : List String) (edges : List EdgeKind)
      → Leads node_by_id adjacency nodes edges steps current ids kinds
      → is_chain lower node_by_id adjacency nodes edges ≡ true
      → has_chain nodes edges st.found ≡ true

  abbrev Outcome : String → List String → List EdgeKind → Found → Option Found → Type 0
  Outcome current ids kinds st m = OnFound (λ st'. Grows st st' × Covers current ids kinds st') m

  -- At a target the only chain that is left is the one that ends there.
  record_chain-covers :
      (current : String) (ids : List String) (kinds : List EdgeKind) (st : Found) (node : Node)
      → get current node_by_id ≡ some node
      → is_target node.kind ≡ true
      → Outcome current ids kinds st (record_chain lower node_by_id adjacency ids kinds st)
  unfolding record_chain
  record_chain-covers current ids kinds st node here sink =
      if_rule (Outcome current ids kinds st) (is_chain lower node_by_id adjacency ids kinds) _
        (some st)
        (λ chain.
          if_rule (Outcome current ids kinds st) (leb enumeration_ceiling (length st.found)) _ _
            (λ _. (set_ceiling st, λ h. absurd (cc)))
            λ _.
              recorded (path_at lower node_by_id adjacency ids kinds)
                (λ path e. path_at-parts lower node_by_id adjacency ids kinds path e))
        (λ idle. (
          Grows-refl st,
          λ _ _ steps nodes edges leads chain.
              let (e, f) = Leads-target node_by_id adjacency node here sink leads in
              absurd (cc (chain, idle, e, f)),
        ))
    where
      recorded :
          (m : Option AttackPath)
          → ((path : AttackPath) → m ≡ some path → (path.nodes ≡ ids) × (path.edges ≡ kinds))
          → Outcome current ids kinds st
              (Option.map (λ path. record st { found = st.found ++ path ∷ [] }) m)
      recorded none k = tt
      recorded (some path) k =
          let (same_ids, same_kinds) = k path refl in
          (
            append_path st path,
            λ _ _ steps nodes edges leads chain.
                let (e, f) = Leads-target node_by_id adjacency node here sink leads in
                has_chain-last nodes edges st.found path (same_ids ∙ sym e) (same_kinds ∙ sym f),
          )

  -- The chains that go on over one of these successors are recorded.
  abbrev CoversAll : List String → List EdgeKind → Successors → Found → Type 0
  CoversAll ids kinds successors st =
      st.ceiling_hit ≡ false
      → st.depth_capped ≡ false
      → (nodes : List String) (edges : List EdgeKind)
      → Step node_by_id adjacency nodes edges ids kinds successors
      → is_chain lower node_by_id adjacency nodes edges ≡ true
      → has_chain nodes edges st.found ≡ true

  abbrev OutcomeAll : List String → List EdgeKind → Successors → Found → Option Found → Type 0
  OutcomeAll ids kinds successors st m =
      OnFound (λ st'. Grows st st' × CoversAll ids kinds successors st') m

  inside-covers :
      (current : String) (ids : List String) (kinds : List EdgeKind) (st : Found) (node : Node)
      (m : Option Found)
      → get current node_by_id ≡ some node
      → is_target node.kind ≡ false
      → OutcomeAll ids kinds (successors_at current adjacency) st m
      → Outcome current ids kinds st m
  inside-covers current ids kinds st node m here inner h =
      OnFound-map (λ st'. Grows st st' × CoversAll ids kinds (successors_at current adjacency) st')
        (λ st'. Grows st st' × Covers current ids kinds st') m h
        λ st' (grows, covers). (
          grows,
          λ opened shallow steps nodes edges leads chain.
              covers opened shallow nodes edges
                (Leads-Step node_by_id adjacency node here inner leads) chain,
        )

  stop_deep-covers :
      (successors : Successors) (ids : List String) (kinds : List EdgeKind) (st : Found)
      → OutcomeAll ids kinds successors st (stop_deep lower node_by_id adjacency successors ids st)
  unfolding stop_deep
  stop_deep-covers successors ids kinds st =
      let is_new = λ (s : EdgeKind × String). not (contains s.1 ids) in
      if_rule (λ (st' : Found). Grows st st' × CoversAll ids kinds successors st')
        (any is_new successors) (record st { depth_capped = true }) st
        (λ _. (set_capped st, λ _ shallow. absurd (cc)))
        (λ done. (
          Grows-refl st,
          λ _ _ nodes edges step chain.
              let more : any is_new successors ≡ true =
                any-contains is_new (step.kind, step.dst) successors step.edge (rw step.new refl) in
              absurd (cc (done, more)),
        ))

  CoversAll-old :
      (ids : List String) (kinds : List EdgeKind) (kind : EdgeKind) (dst : String)
      (rest : Successors) (st : Found)
      → contains dst ids ≡ true
      → CoversAll ids kinds rest st
      → CoversAll ids kinds ((kind, dst) ∷ rest) st
  CoversAll-old ids kinds kind dst rest st old covers opened shallow nodes edges step chain =
      elim (Step-cases node_by_id adjacency kind dst rest step) [
        | inl (_, f) ↦ absurd (cc (f, old, step.new))
        | inr later ↦ covers opened shallow nodes edges later chain
      ]

  CoversAll-new :
      (ids : List String) (kinds : List EdgeKind) (kind : EdgeKind) (dst : String)
      (rest : Successors) (st st' : Found)
      → Covers dst (ids ++ dst ∷ []) (kinds ++ kind ∷ []) st
      → Grows st st'
      → CoversAll ids kinds rest st'
      → CoversAll ids kinds ((kind, dst) ∷ rest) st'
  CoversAll-new ids kinds kind dst rest st st' first grows covers opened shallow nodes edges step
        chain =
      elim (Step-cases node_by_id adjacency kind dst rest step) [
        | inl same ↦ grows.kept nodes edges (
            first (grows.open_before opened) (grows.shallow_before shallow) step.steps nodes edges
              (Leads-same node_by_id adjacency ids kinds kind step.kind dst step.dst same.0 same.1
                step.rest)
              chain)
        | inr later ↦ covers opened shallow nodes edges later chain
      ]

  try_successors-covers :
      (go : Visit) (ids : List String) (kinds : List EdgeKind) (successors : Successors)
      (st : Found)
      → ((kind : EdgeKind) (dst : String) (s : Found)
          → Outcome dst
              (ids ++ dst ∷ [])
              (kinds ++ kind ∷ [])
              s
              (go dst (ids ++ dst ∷ []) (kinds ++ kind ∷ []) s))
      → OutcomeAll ids kinds successors st (try_successors go ids kinds successors st)
  unfolding try_successors
  try_successors-covers go ids kinds [] st visits =
      (Grows-refl st, λ _ _ nodes edges step chain. absurd (cc (step.edge)))
  try_successors-covers go ids kinds ((kind, dst) ∷ rest) st visits =
      let later = λ (s : Found). try_successors-covers go ids kinds rest s visits in
      if_rule (OutcomeAll ids kinds ((kind, dst) ∷ rest) st) (contains dst ids) _ _
        (λ old.
          OnFound-map (λ st'. Grows st st' × CoversAll ids kinds rest st')
            (λ st'. Grows st st' × CoversAll ids kinds ((kind, dst) ∷ rest) st')
            (try_successors go ids kinds rest st) (later st)
            λ st' (grows, covers). (grows, CoversAll-old ids kinds kind dst rest st' old covers))
        (λ new. tried later (go dst (ids ++ dst ∷ []) (kinds ++ kind ∷ []) st) (visits kind dst st))
    where
      tried :
          ((s : Found) → OutcomeAll ids kinds rest s (try_successors go ids kinds rest s))
          → (m : Option Found) → Outcome dst (ids ++ dst ∷ []) (kinds ++ kind ∷ []) st m
          → OutcomeAll ids kinds ((kind, dst) ∷ rest) st (elim m as (λ _. Option Found) [
            | none ↦ none
            | some st' ↦ if st'.ceiling_hit then some st' else try_successors go ids kinds rest st'
          ])
      tried later none h = tt
      tried later (some st') h =
          if_rule (OutcomeAll ids kinds ((kind, dst) ∷ rest) st) st'.ceiling_hit (some st') _
            (λ hit. (h.0, λ opened. absurd (cc (hit, opened))))
            (λ _.
              OnFound-map (λ s. Grows st' s × CoversAll ids kinds rest s)
                (λ s. Grows st s × CoversAll ids kinds ((kind, dst) ∷ rest) s)
                (try_successors go ids kinds rest st') (later st')
                λ s (grows, covers). (
                  Grows-trans h.0 grows,
                  CoversAll-new ids kinds kind dst rest st' s h.1 grows covers,
                ))

  visit-covers :
      (hops : ℕ) (current : String) (ids : List String) (kinds : List EdgeKind) (st : Found)
      → Outcome current ids kinds st (visit lower node_by_id adjacency hops current ids kinds st)
  unfolding visit
  visit-covers zero current ids kinds st =
      if_rule (Outcome current ids kinds st) st.ceiling_hit (some st) _
        (λ hit. (Grows-refl st, λ opened. absurd (cc (hit, opened))))
        λ _. elim (Option-cases (get current node_by_id)) [
          | inl e ↦ rw (e) tt
          | inr (node, e) ↦ rw (e) (
              if_rule (Outcome current ids kinds st) (is_target node.kind) _ _
                (λ sink. record_chain-covers current ids kinds st node e sink)
                (λ inner.
                  inside-covers current ids kinds st node
                    (stop_deep lower node_by_id adjacency (successors_at current adjacency) ids st)
                    e inner (stop_deep-covers (successors_at current adjacency) ids kinds st)))
        ]
  visit-covers (suc hops) current ids kinds st =
      let further =
        try_successors-covers (visit lower node_by_id adjacency hops) ids kinds
          (successors_at current adjacency) st
          (λ kind dst s. visit-covers hops dst (ids ++ dst ∷ []) (kinds ++ kind ∷ []) s) in
      if_rule (Outcome current ids kinds st) st.ceiling_hit (some st) _
        (λ hit. (Grows-refl st, λ opened. absurd (cc (hit, opened))))
        λ _. elim (Option-cases (get current node_by_id)) [
          | inl e ↦ rw (e) tt
          | inr (node, e) ↦ rw (e) (
              if_rule (Outcome current ids kinds st) (is_target node.kind) _ _
                (λ sink. record_chain-covers current ids kinds st node e sink)
                (λ inner.
                  inside-covers current ids kinds st node
                    (try_successors (visit lower node_by_id adjacency hops) ids kinds
                      (successors_at current adjacency) st)
                    e inner further))
        ]

  -- The chains from these entries are recorded.
  abbrev pub CoversFrom : List String → Found → Type 0
  CoversFrom entries st =
      (start : String) → contains start entries ≡ true → Covers start (start ∷ []) [] st

  pub visit_entries-covers :
      (entries : List String) (st : Found)
      → OnFound
          (λ st'. Grows st st' × CoversFrom entries st')
          (visit_entries lower node_by_id adjacency entries st)
  unfolding visit_entries
  visit_entries-covers [] st = (Grows-refl st, λ start here. absurd (cc (here)))
  visit_entries-covers (entry ∷ rest) st =
      started (λ s. visit_entries-covers rest s)
        (visit lower node_by_id adjacency max_hops entry (entry ∷ []) [] st)
        (visit-covers max_hops entry (entry ∷ []) [] st)
    where
      started :
          ((s : Found)
            → OnFound
                (λ st'. Grows s st' × CoversFrom rest st')
                (visit_entries lower node_by_id adjacency rest s))
          → (m : Option Found) → Outcome entry (entry ∷ []) [] st m
          → OnFound
              (λ st'. Grows st st' × CoversFrom (entry ∷ rest) st')
              (elim m as (λ _. Option Found) [
                | none ↦ none
                | some st' ↦ visit_entries lower node_by_id adjacency rest st'
              ])
      started later none h = tt
      started later (some s) h =
          OnFound-map (λ st'. Grows s st' × CoversFrom rest st')
            (λ st'. Grows st st' × CoversFrom (entry ∷ rest) st')
            (visit_entries lower node_by_id adjacency rest s) (later s)
            λ st' (grows, covers). (
              Grows-trans h.0 grows,
              λ start here opened shallow steps nodes edges leads chain.
                  elim (Bool-cases (entry == start)) [
                    | inl same ↦ grows.kept nodes edges (
                        h.1 (grows.open_before opened) (grows.shallow_before shallow) steps nodes
                          edges
                          (same_start node_by_id adjacency entry start
                            ((text_Eq.beq_iff entry start).0 same) leads)
                          chain)
                    | inr other ↦
                        covers start (ground arith) opened shallow steps nodes edges leads chain
                  ],
            )
