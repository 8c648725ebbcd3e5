-- ===== src/Drift/Model.antt =====
-- src/mcpscan/drift/model.py
use ianua_broker.Prelude.{
  of_pairs, Dict, num_Ord, text_Ord, pair_Ord, list_Ord, String, Bool, true, false, not, Option,
  List, map, num_Eq, text_Eq, pair_Eq, option_Eq, list_Eq, select, is_empty,
}
use ianua_broker.Domain.{Acceptance}

pub data FactKind : Type 0 where
  server finding asset tool : FactKind

-- `.value`
unfoldable pub kind_value : FactKind → String
kind_value server = "server"
kind_value finding = "finding"
kind_value asset = "asset"
kind_value tool = "tool"

pub data Direction : Type 0 where
  regression improvement informational : Direction

pub data ChangeType : Type 0 where
  added removed changed : ChangeType

pub data DriftCause : Type 0 where
  config_drift provenance_drift exposure_drift inspection_regression inventory_drift : DriftCause
  tool_identity_drift tool_added tool_removed tool_desc_changed tool_schema_changed : DriftCause
  tool_annot_relaxed tool_annot_tightened tool_pin_changed other_cause : DriftCause

abbrev pub Detail : Type 0
Detail = List (String × String)

pub record PostureFact : Type 0 where
  pub kind : FactKind
  pub key : String
  pub summary : String
  pub detail : Detail

unfoldable pub detail_map : PostureFact → Dict String String
detail_map fact = of_pairs fact.detail

pub record Snapshot : Type 0 where
  pub schema_version : String
  pub facts : List PostureFact

-- `{f.key: f for f in self.facts}`
unfoldable pub by_key : Snapshot → Dict String PostureFact
by_key snapshot = of_pairs (map (λ (f : PostureFact). (f.key, f)) snapshot.facts)

pub record DriftEntry : Type 0 where
  pub change : ChangeType
  pub kind : FactKind
  pub key : String
  pub summary : String
  pub direction : Direction
  pub cause : DriftCause
  pub detail_before : Detail
  pub detail_after : Detail
  pub acceptance : Option Acceptance

abbrev pub is_regression : Direction → Bool
is_regression regression = true
is_regression _ = false

abbrev pub is_improvement : Direction → Bool
is_improvement improvement = true
is_improvement _ = false

pub record DriftReport : Type 0 where
  pub entries : List DriftEntry

unfoldable pub regressions : DriftReport → List DriftEntry
regressions report = select (λ (e : DriftEntry). is_regression e.direction) report.entries

unfoldable pub improvements : DriftReport → List DriftEntry
improvements report = select (λ (e : DriftEntry). is_improvement e.direction) report.entries

unfoldable pub has_drift : DriftReport → Bool
has_drift report = not (is_empty report.entries)
