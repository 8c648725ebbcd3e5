-- ===== src/Inventory/Model.antt =====
-- src/mcpscan/inventory/model.py: the assets of an inventory.
use ianua_broker.Prelude.{
  num_Ord, text_Ord, pair_Ord, list_Ord, true, false, text_Eq, num_Eq, pair_Eq, option_Eq, list_Eq,
  Bool, String, List, Option, ℕ,
}

pub data AssetKind : Type 0 where
  agent_host mcp_server model_server inference_endpoint llm_gateway vector_db : AssetKind

unfoldable pub asset_kind_value : AssetKind → String
asset_kind_value agent_host = "agent_host"
asset_kind_value mcp_server = "mcp_server"
asset_kind_value model_server = "model_server"
asset_kind_value inference_endpoint = "inference_endpoint"
asset_kind_value llm_gateway = "llm_gateway"
asset_kind_value vector_db = "vector_db"

abbrev pub is_agent_host : AssetKind → Bool
is_agent_host agent_host = true
is_agent_host _ = false

pub data AssetSource : Type 0 where
  config socket : AssetSource

abbrev pub is_socket : AssetSource → Bool
is_socket socket = true
is_socket config = false

pub data Confidence : Type 0 where
  confidence_high confidence_medium confidence_low : Confidence

unfoldable pub confidence_value : Confidence → String
confidence_value confidence_high = "high"
confidence_value confidence_medium = "medium"
confidence_value confidence_low = "low"

pub record Asset : Type 0 where
  pub kind : AssetKind
  pub product : String
  pub source : AssetSource
  pub location : String
  pub confidence : Confidence
  pub evidence : List String
  pub host : Option String
  pub server_name : Option String
  pub bind_addr : Option String
  pub port : Option ℕ
  pub pid : Option ℕ
  pub proc_name : Option String

pub record Inventory : Type 0 where
  pub schema_version : String
  pub assets : List Asset
  pub inspection_incomplete : Bool
