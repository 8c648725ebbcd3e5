-- ===== src/Drift/Baseline/Frozen.antt =====
-- Every detail of a built snapshot is sorted and holds each key once.
use ianua_broker.Json.{parsed, JsonTools, sort_keys}
use ianua_broker.Drift.Model.{PostureFact}
use ianua_broker.Drift.Baseline.{ok, snapshot_to_dict, load_baseline, render_baseline}
use ianua_broker.Prelude.{
  num_Ord, text_Ord, pair_Ord, list_Ord, refl, true, none, some, [], ◌∷◌, text_Eq, num_Eq, pair_Eq,
  option_Eq, list_Eq, Option, Dict, List, All, String, NoRepeats, concat, map, ℕ, All-append,
  All-sorted, keys, NoRepeats-put, if_rule, sorted-IsSorted, ◌≡◌, NoRepeats-map-sorted, ◌==◌,
}
use ianua_broker.Drift.Snapshot.{
  add_annotations, asset_fact, build_snapshot, finding_fact, freeze, server_fact, tool_detail,
  tool_facts_from, facts_of_servers, asset_facts, tool_facts, fact_key, finding_facts,
  server_facts_of,
}
use ianua_broker.Discovery.Reach.{IpAddress}
use ianua_broker.Drift.Baseline.RoundTrip.{IsFrozen, AllFrozen, load_baseline-render_baseline}
use ianua_broker.Domain.{Server, Finding, LiveToolPrint, Report, severity_value, dimension_value}
use ianua_broker.Inventory.Model.{Inventory, Asset, asset_kind_value, confidence_value}

freeze-IsFrozen : (detail : Dict String String) → NoRepeats (keys detail) → IsFrozen (freeze detail)
unfolding freeze
freeze-IsFrozen detail h = record {
  in_order = sorted-IsSorted {K = String × String} (λ (item : String × String). item) detail;
  keys_once =
      NoRepeats-map-sorted {K = String × String} (λ (item : String × String). item)
        (λ (item : String × String). item.0) detail h;
}

abbrev FrozenFact : PostureFact → Type 0
FrozenFact fact = IsFrozen fact.detail

server_fact-IsFrozen :
    (ip_address : IpAddress) (srv : Server) → FrozenFact (server_fact ip_address srv)
unfolding server_fact
server_fact-IsFrozen ip_address srv =
    freeze-IsFrozen (server_facts_of ip_address srv) (keys_once srv.tool_identity)
  where
    keys_once :
        (identity : Option String)
        → NoRepeats (keys (server_facts_of ip_address (record srv { tool_identity = identity })))
    keys_once none = (refl, (refl, (refl, (refl, (refl, (refl, tt))))))
    keys_once (some identity) = (refl, (refl, (refl, (refl, (refl, (refl, (refl, tt)))))))

finding_facts-IsFrozen :
    (srv : Server) (findings : List Finding) → All FrozenFact (map (finding_fact srv) findings)
unfolding finding_fact
finding_facts-IsFrozen srv [] = tt
finding_facts-IsFrozen srv (found ∷ rest) = (
  freeze-IsFrozen
      (("severity", severity_value found.severity)
        ∷ ("dimension", dimension_value found.dimension)
        ∷ ("id", found.id)
        ∷ [])
      (refl, (refl, (refl, tt))),
  finding_facts-IsFrozen srv rest,
)

NoRepeats-add_annotations :
    (annotations : List (String × String)) (detail : Dict String String)
    → NoRepeats (keys detail)
    → NoRepeats (keys (add_annotations annotations detail))
unfolding add_annotations
NoRepeats-add_annotations [] detail h = h
NoRepeats-add_annotations ((hint, value) ∷ rest) detail h =
    NoRepeats-add_annotations rest _ (NoRepeats-put _ value detail h)

tool_detail-once : (srv : Server) (print : LiveToolPrint) → NoRepeats (keys (tool_detail srv print))
unfolding tool_detail
tool_detail-once srv print = NoRepeats-add_annotations print.annotations _ (
    if_rule
      (λ (more : Dict String String). NoRepeats (
        keys (
          ("server", srv.id)
          ∷ ("digest", print.digest)
          ∷ ("description", print.description_digest)
          ∷ ("schema", print.schema_digest)
          ∷ more)))
      (print.pin_digest == "") [] (("mcpseal", print.pin_digest) ∷ [])
      (λ _. (refl, (refl, (refl, (refl, tt))))) (λ _. (refl, (refl, (refl, (refl, (refl, tt)))))))

tool_facts_from-IsFrozen :
    (tools : JsonTools) (srv : Server) (prints : List LiveToolPrint) (seen : Dict String ℕ)
    → All FrozenFact (tool_facts_from tools srv prints seen)
unfolding tool_facts_from
tool_facts_from-IsFrozen tools srv [] seen = tt
tool_facts_from-IsFrozen tools srv (print ∷ rest) seen = (
  freeze-IsFrozen (tool_detail srv print) (tool_detail-once srv print),
  tool_facts_from-IsFrozen tools srv rest _,
)

assets-IsFrozen : (assets : List Asset) → All FrozenFact (map asset_fact assets)
unfolding asset_fact
assets-IsFrozen [] = tt
assets-IsFrozen (a ∷ rest) = (
  freeze-IsFrozen
      (("kind", asset_kind_value a.kind)
        ∷ ("product", a.product)
        ∷ ("confidence", confidence_value a.confidence)
        ∷ [])
      (refl, (refl, (refl, tt))),
  assets-IsFrozen rest,
)

asset_facts-IsFrozen : (inventory : Option Inventory) → All FrozenFact (asset_facts inventory)
asset_facts-IsFrozen none = tt
asset_facts-IsFrozen (some inventory) = assets-IsFrozen inventory.assets

module _ (tools : JsonTools) (ip_address : IpAddress) where
  facts_of_servers-IsFrozen :
      (servers : List Server) → All FrozenFact (facts_of_servers tools ip_address servers)
  unfolding facts_of_servers tool_facts
  facts_of_servers-IsFrozen [] = tt
  facts_of_servers-IsFrozen (srv ∷ rest) = (
    server_fact-IsFrozen ip_address srv,
    All-append FrozenFact (finding_facts srv) _ (finding_facts-IsFrozen srv srv.findings) (
        All-append FrozenFact (tool_facts tools srv) _
          (tool_facts_from-IsFrozen tools srv srv.live_tools []) (facts_of_servers-IsFrozen rest)),
  )

  pub build_snapshot-AllFrozen :
      (report : Report) (inventory : Option Inventory)
      → AllFrozen (build_snapshot tools ip_address report inventory)
  unfolding build_snapshot
  build_snapshot-AllFrozen report inventory = All-sorted fact_key FrozenFact _ (
      All-append FrozenFact (facts_of_servers tools ip_address report.servers)
        (asset_facts inventory) (facts_of_servers-IsFrozen report.servers)
        (asset_facts-IsFrozen inventory))

-- The baseline of a scan is read back as the snapshot of the scan: what `render_baseline` writes of a
-- built snapshot passes the integrity test and every fact comes back as it was. The hypothesis says
-- that `json.loads` reads what `json.dumps` wrote of the document, its keys sorted.
pub load_baseline-build_snapshot :
    (tools : JsonTools) (ip_address : IpAddress) (report : Report) (inventory : Option Inventory)
    (created_at : Option String)
    → tools.loads (
        concat (
          tools.dumps
            (snapshot_to_dict tools (build_snapshot tools ip_address report inventory) created_at)
          ∷ "\n"
          ∷ []))
      ≡ parsed (
          sort_keys
            (snapshot_to_dict tools (build_snapshot tools ip_address report inventory) created_at))
    → load_baseline tools true
        (render_baseline tools (build_snapshot tools ip_address report inventory) created_at)
      ≡ ok (build_snapshot tools ip_address report inventory)
unfolding build_snapshot
load_baseline-build_snapshot tools ip_address report inventory created_at loads =
    load_baseline-render_baseline tools true (build_snapshot tools ip_address report inventory)
      created_at loads refl (build_snapshot-AllFrozen tools ip_address report inventory)
