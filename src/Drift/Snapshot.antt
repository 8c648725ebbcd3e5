-- ===== src/Drift/Snapshot.antt =====
-- src/mcpscan/drift/snapshot.py: the facts of a report and of an inventory, sorted, and their digest.
use mathlib.Core.Option
use ianua_broker.Json.{
  object, field, array, text, nil, cons, end, Json, Items, JsonTools, text_items, text_fields,
}
use ianua_broker.Drift.Model.{
  server, finding, tool, asset, PostureFact, Snapshot, kind_value, Detail, server, finding, tool,
  asset,
}
use ianua_broker.Prelude.{
  num_Ord, text_Ord, pair_Ord, list_Ord, none, some, [], ◌∷◌, text_Eq, num_Eq, pair_Eq, option_Eq,
  list_Eq, Bool, List, Option, String, concat, decimal, of_pairs, put, sorted, Dict, get,
  if◌then◌else◌, map, ℕ, ◌++◌, not, ◌+◌, ◌==◌, num_eq, ◌&&◌,
}
use ianua_broker.Discovery.Reach.{IpAddress, is_loopback}
use ianua_broker.Domain.{
  Server, LiveToolPrint, severity_value, state_value, Report, dimension_value, Finding,
}
use ianua_broker.Inventory.Model.{Inventory, asset_kind_value, confidence_value, Asset}

abbrev pub drift_schema_version : String
drift_schema_version = "1.0"

-- `_freeze`: `tuple(sorted(detail.items()))`
unfoldable pub freeze : Dict String String → Detail
unfolding sorted
freeze detail = sorted (λ (item : String × String). item) detail

-- `str(b).lower()`
abbrev pub flag : Bool → String
flag b = if b then "true" else "false"

-- `f"{n}"` of a number that may be missing, which shows as nothing
unfoldable pub shown_number : Option ℕ → String
unfolding decimal
shown_number none = ""
shown_number (some n) = decimal n

module _ (tools : JsonTools) where
  unfoldable pub tool_identity : Option String → List String → List String → String
  unfolding sorted
  tool_identity command args auto_approve =
      let material = object (
        field "command" (text (Option.get_or command "")) (
          field "args" (array (text_items (sorted (λ (s : String). s) args))) (
            field "auto_approve" (array (text_items (sorted (λ (s : String). s) auto_approve)))
              end))) in
      tools.sha256 (tools.compact material)

module _ (ip_address : IpAddress) where
  unfoldable pub exposure_state : Server → String
  unfolding is_loopback
  exposure_state srv =
      let addr = Option.get_or srv.bind_addr "" in
      if not (addr == "") && not (is_loopback ip_address addr) then "exposed" else "local"

  unfoldable pub server_facts_of : Server → Dict String String
  unfolding exposure_state shown_number state_value
  server_facts_of srv =
      ("state", state_value srv.state)
      ∷ ("running", flag srv.running)
      ∷ ("bind_addr", Option.get_or srv.bind_addr "")
      ∷ ("port", shown_number srv.port)
      ∷ ("exposure", exposure_state srv)
      ∷ ("inspection_incomplete", flag srv.inspection_incomplete)
      ∷ elim srv.tool_identity [ none ↦ [] | some identity ↦ ("tool_identity", identity) ∷ [] ]

  unfoldable pub server_fact : Server → PostureFact
  unfolding server_facts_of freeze concat
  server_fact srv = record {
    kind = server;
    key = concat ("server:" ∷ srv.id ∷ []);
    summary = srv.id;
    detail = freeze (server_facts_of srv);
  }

unfoldable pub finding_fact : Server → Finding → PostureFact
unfolding freeze concat shown_number severity_value dimension_value
finding_fact srv found = record {
  kind = finding;
  key = concat (
      "finding:"
      ∷ srv.id
      ∷ ":"
      ∷ found.id
      ∷ ":"
      ∷ found.location.path
      ∷ ":"
      ∷ shown_number found.location.line
      ∷ []);
  summary = concat (found.id ∷ " — " ∷ found.title ∷ []);
  detail = freeze (
      ("severity", severity_value found.severity)
      ∷ ("dimension", dimension_value found.dimension)
      ∷ ("id", found.id)
      ∷ []);
}

abbrev pub finding_facts : Server → List PostureFact
finding_facts srv = map (finding_fact srv) srv.findings

-- The loop over the annotations of a tool.
unfoldable pub add_annotations : List (String × String) → Dict String String → Dict String String
unfolding put concat
add_annotations [] detail = detail
add_annotations ((hint, value) ∷ rest) detail =
    add_annotations rest (put (concat ("annotation." ∷ hint ∷ [])) value detail)

unfoldable pub tool_detail : Server → LiveToolPrint → Dict String String
unfolding add_annotations
tool_detail srv print = add_annotations print.annotations (
    ("server", srv.id)
    ∷ ("digest", print.digest)
    ∷ ("description", print.description_digest)
    ∷ ("schema", print.schema_digest)
    ∷ (if print.pin_digest == "" then [] else ("mcpseal", print.pin_digest) ∷ []))

module _ (tools : JsonTools) where
  -- The loop over the tools; `seen` counts the names.
  unfoldable pub tool_facts_from : Server → List LiveToolPrint → Dict String ℕ → List PostureFact
  unfolding get put tool_detail freeze concat decimal
  tool_facts_from srv [] seen = []
  tool_facts_from srv (print ∷ rest) seen =
      let count = Option.get_or (get print.name seen) 0 + 1 in
      let name =
        if num_eq count 1 then print.name else concat (print.name ∷ "#" ∷ decimal count ∷ []) in
      record {
        kind = tool;
        key = concat ("tool:" ∷ srv.id ∷ ":" ∷ name ∷ []);
        summary = concat (srv.id ∷ " tool " ∷ tools.repr name ∷ []);
        detail = freeze (tool_detail srv print);
      }
      ∷ tool_facts_from srv rest (put print.name count seen)

  unfoldable pub tool_facts : Server → List PostureFact
  unfolding tool_facts_from
  tool_facts srv = tool_facts_from srv srv.live_tools []

unfoldable pub asset_fact : Asset → PostureFact
unfolding freeze concat asset_kind_value confidence_value
asset_fact a = record {
  kind = asset;
  key = concat (
      "asset:"
      ∷ asset_kind_value a.kind
      ∷ ":"
      ∷ a.location
      ∷ ":"
      ∷ Option.get_or a.server_name ""
      ∷ []);
  summary = concat (a.product ∷ " (" ∷ asset_kind_value a.kind ∷ ")" ∷ []);
  detail = freeze (
      ("kind", asset_kind_value a.kind)
      ∷ ("product", a.product)
      ∷ ("confidence", confidence_value a.confidence)
      ∷ []);
}

abbrev pub asset_facts : Option Inventory → List PostureFact
asset_facts none = []
asset_facts (some inventory) = map asset_fact inventory.assets

abbrev pub fact_key : PostureFact → String × String
fact_key fact = (kind_value fact.kind, fact.key)

module _ (tools : JsonTools) (ip_address : IpAddress) where
  unfoldable pub facts_of_servers : List Server → List PostureFact
  unfolding server_fact finding_fact tool_facts
  facts_of_servers [] = []
  facts_of_servers (srv ∷ rest) =
      server_fact ip_address srv
      ∷ (finding_facts srv ++ (tool_facts tools srv ++ facts_of_servers rest))

  unfoldable pub build_snapshot : Report → Option Inventory → Snapshot
  unfolding facts_of_servers asset_fact sorted kind_value
  build_snapshot report inventory = record {
    schema_version = drift_schema_version;
    facts = sorted fact_key (facts_of_servers report.servers ++ asset_facts inventory);
  }

-- What the digest covers of a fact.
unfoldable pub digest_item : PostureFact → Json
unfolding of_pairs kind_value
digest_item fact = object (
    field "kind" (text (kind_value fact.kind)) (
      field "key" (text fact.key)
        (field "detail" (object (text_fields (of_pairs fact.detail))) end)))

abbrev pub digest_items : List PostureFact → Items
digest_items [] = nil
digest_items (fact ∷ rest) = cons (digest_item fact) (digest_items rest)

unfoldable pub snapshot_digest : JsonTools → Snapshot → String
unfolding digest_item
snapshot_digest tools snapshot = tools.sha256 (tools.compact (array (digest_items snapshot.facts)))
