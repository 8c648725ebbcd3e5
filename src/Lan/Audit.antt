-- ===== src/Lan/Audit.antt =====
-- src/mcpscan/lan/audit.py: the record that binds a run to the manifest that authorized it.
use ianua_broker.Prelude.{
  Dict, num_Ord, text_Ord, pair_Ord, list_Ord, String, Bool, Option, List, num_Eq, text_Eq, pair_Eq,
  option_Eq,
}
use ianua_broker.Lan.Manifest.{Manifest}

-- What the prober reported for one host and port (`results[...]` of the runner).
pub record Evidence : Type 0 where
  pub reachable : Bool
  pub looks_like_mcp : Bool
  pub evidence : Option String

pub data Results : Type 0 where
  dry_run_results : Results
  probe_results : Dict String Evidence → Results

pub record AuditRecord : Type 0 where
  pub manifest_sha256 : String
  pub authorization_id : String
  pub operator : String
  pub tool_version : String
  pub invoker : String
  pub utc_timestamp : String
  pub argv : List String
  pub resolved_targets : List String
  pub results_digest : String

-- `digest_payload`, the SHA-256 of the canonical JSON, is a parameter.
module _ (digest_payload : Results → String) where
  unfoldable pub build_audit_record :
      Manifest → String → String → String → List String → List String → Results → AuditRecord
  build_audit_record manifest invoker tool_version utc_timestamp argv resolved_targets results =
      record {
        manifest_sha256 = manifest.sha256;
        authorization_id = manifest.authorization_id;
        operator = manifest.operator;
        tool_version = tool_version;
        invoker = invoker;
        utc_timestamp = utc_timestamp;
        argv = argv;
        resolved_targets = resolved_targets;
        results_digest = digest_payload results;
      }
