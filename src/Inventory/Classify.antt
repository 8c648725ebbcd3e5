-- ===== src/Inventory/Classify.antt =====
-- src/mcpscan/inventory/classify.py: a listening socket and a declared server as assets. The texts of
-- `str.lower`, `repr` and `rsplit` are parameters, as is the fetcher of snippets, which answers with a
-- status and a body in lower case.
pub mod Boundary
use mathlib.Core.Option
use ianua_broker.Inventory.Model.{
  agent_host, mcp_server, model_server, inference_endpoint, llm_gateway, vector_db, config, socket,
  confidence_high, confidence_medium, confidence_low, AssetKind, Asset, Confidence,
}
use ianua_broker.Prelude.{
  num_Ord, text_Ord, pair_Ord, list_Ord, zero, suc, refl, inl, inr, true, false, none, some, [],
  ◌∷◌, text_Eq, num_Eq, pair_Eq, option_Eq, list_Eq, Dict, List, Option, String, concat, get,
  has_part, starts_with, ℕ, Bool, decimal, if◌then◌else◌, num_eq, ◌==◌, ◌||◌,
}
use ianua_broker.Discovery.Reach.{is_loopback, IpAddress}
use ianua_broker.Checks.ToolScope.{ServerDecl}

pub record ListeningSocket : Type 0 where
  pub ip : String
  pub port : ℕ
  pub pid : Option ℕ
  pub proc_name : Option String

abbrev pub SnippetFetch : Type 0
SnippetFetch = String → ℕ → String → Option (ℕ × String)

-- What a signal says of a socket.
pub record Signal : Type 0 where
  pub kind : AssetKind
  pub product : String

abbrev pub proc_signatures : Dict String Signal
proc_signatures =
    ("ollama", record { kind = model_server; product = "Ollama" })
    ∷ ("llama-server", record { kind = model_server; product = "llama.cpp server" })
    ∷ ("vllm", record { kind = model_server; product = "vLLM" })
    ∷ ("lm-studio", record { kind = model_server; product = "LM Studio" })
    ∷ ("lmstudio", record { kind = model_server; product = "LM Studio" })
    ∷ (
      "text-generation-launcher",
      record { kind = model_server; product = "Text Generation Inference" },
    )
    ∷ ("litellm", record { kind = llm_gateway; product = "LiteLLM" })
    ∷ ("qdrant", record { kind = vector_db; product = "Qdrant" })
    ∷ ("weaviate", record { kind = vector_db; product = "Weaviate" })
    ∷ ("milvus", record { kind = vector_db; product = "Milvus" })
    ∷ ("chroma", record { kind = vector_db; product = "Chroma" })
    ∷ []

pub record EndpointSignature : Type 0 where
  pub path : String
  pub marker : String
  pub kind : AssetKind
  pub product : String
  pub confidence : Confidence

abbrev pub endpoint_signatures : List EndpointSignature
endpoint_signatures =
    record {
      path = "/api/tags";
      marker = "\"models\"";
      kind = model_server;
      product = "Ollama";
      confidence = confidence_high;
    }
    ∷ record {
      path = "/api/v1/heartbeat";
      marker = "heartbeat";
      kind = vector_db;
      product = "Chroma";
      confidence = confidence_high;
    }
    ∷ record {
      path = "/v1/meta";
      marker = "weaviate";
      kind = vector_db;
      product = "Weaviate";
      confidence = confidence_high;
    }
    ∷ record {
      path = "/";
      marker = "qdrant";
      kind = vector_db;
      product = "Qdrant";
      confidence = confidence_high;
    }
    ∷ record {
      path = "/v1/models";
      marker = "\"object\"";
      kind = inference_endpoint;
      product = "OpenAI-compatible API";
      confidence = confidence_medium;
    }
    ∷ []

abbrev pub port_hints : Dict ℕ Signal
port_hints =
    (11434, record { kind = model_server; product = "Ollama" })
    ∷ (1234, record { kind = model_server; product = "LM Studio" })
    ∷ (4000, record { kind = llm_gateway; product = "LiteLLM" })
    ∷ (6333, record { kind = vector_db; product = "Qdrant" })
    ∷ (6334, record { kind = vector_db; product = "Qdrant" })
    ∷ (19530, record { kind = vector_db; product = "Milvus" })
    ∷ (8000, record { kind = vector_db; product = "Chroma" })
    ∷ []

abbrev pub mcp_paths : List String
mcp_paths = "/mcp" ∷ "/sse" ∷ []

-- s.removesuffix(t)
unfoldable pub remove_suffix : String → String → String
remove_suffix String.[] t = ""
remove_suffix (String.◌∷◌ c s) t =
    let rest = remove_suffix s t in if String.◌∷◌ c s == t then "" else String.◌∷◌ c rest

-- What a classification is made of before the asset is.
pub record Match : Type 0 where
  pub kind : AssetKind
  pub product : String
  pub confidence : Confidence
  pub evidence : String

pub record ClassifyTools : Type 0 where
  pub lower : String → String
  pub repr : String → String
  pub ip_address : IpAddress

module _ (tools : ClassifyTools) where
  unfoldable pub normalize_proc : String → String
  unfolding remove_suffix
  normalize_proc proc_name = remove_suffix (tools.lower proc_name) ".exe"

  -- `_match_proc`, for a name that is not empty
  unfoldable pub match_proc : Option String → Option Signal
  unfolding normalize_proc get
  match_proc none = none
  match_proc (some proc_name) =
      if proc_name == "" then none else get (normalize_proc proc_name) proc_signatures

  -- `_probeable`
  unfoldable pub probeable : String → Bool
  unfolding is_loopback
  probeable ip = ip == "0.0.0.0" || ip == "::" || ip == "" || is_loopback tools.ip_address ip

  abbrev pub has_marker : String → Option (ℕ × String) → Bool
  has_marker marker none = false
  has_marker marker (some snippet) = has_part snippet.1 marker

  -- The loop over the signatures of endpoints.
  unfoldable pub match_signature : ℕ → SnippetFetch → List EndpointSignature → Option Match
  unfolding has_part concat
  match_signature port fetch [] = none
  match_signature port fetch (sig ∷ rest) =
      let later = match_signature port fetch rest in
      if has_marker sig.marker (fetch "127.0.0.1" port sig.path)
      then some (record {
        kind = sig.kind;
        product = sig.product;
        confidence = sig.confidence;
        evidence = concat ("GET " ∷ sig.path ∷ " matched the " ∷ sig.product ∷ " signature" ∷ []);
      })
      else later

  -- One path of an MCP transport: any answer but 404 says that it is there.
  unfoldable pub mcp_answer : String → Option (ℕ × String) → Option Match → Option Match
  unfolding concat decimal
  mcp_answer path none later = later
  mcp_answer path (some snippet) later =
      if num_eq snippet.0 404
      then later
      else some (record {
        kind = mcp_server;
        product = "MCP server (HTTP transport)";
        confidence = confidence_medium;
        evidence = concat ("responded on " ∷ path ∷ " (HTTP " ∷ decimal snippet.0 ∷ ")" ∷ []);
      })

  -- The loop over the paths of MCP transports.
  unfoldable pub match_mcp : ℕ → SnippetFetch → List String → Option Match
  unfolding mcp_answer
  match_mcp port fetch [] = none
  match_mcp port fetch (path ∷ rest) =
      mcp_answer path (fetch "127.0.0.1" port path) (match_mcp port fetch rest)

  abbrev pub or_else : Option Match → Option Match → Option Match
  or_else (some found) later = some found
  or_else none later = later

  unfoldable pub match_endpoint : ℕ → SnippetFetch → Option Match
  unfolding match_signature match_mcp
  match_endpoint port fetch =
      or_else (match_signature port fetch endpoint_signatures) (match_mcp port fetch mcp_paths)

  -- The probe: only with a fetcher, and only where the service answers on the loopback address.
  unfoldable pub probe_endpoint : ListeningSocket → Option SnippetFetch → Option Match
  unfolding probeable match_endpoint
  probe_endpoint sock none = none
  probe_endpoint sock (some fetch) =
      let found = match_endpoint sock.port fetch in if probeable sock.ip then found else none

  abbrev pub asset_of : ListeningSocket → AssetKind → String → Confidence → List String → Asset
  asset_of sock kind product confidence evidence = record {
    kind = kind;
    product = product;
    source = socket;
    location = concat (sock.ip ∷ ":" ∷ decimal sock.port ∷ []);
    confidence = confidence;
    evidence = evidence;
    host = none;
    server_name = none;
    bind_addr = some sock.ip;
    port = some sock.port;
    pid = sock.pid;
    proc_name = sock.proc_name;
  }

  -- The default port, when nothing else said what it is.
  unfoldable pub by_port : ListeningSocket → Option Asset
  unfolding get concat decimal
  by_port sock = elim (get sock.port port_hints) [
    | none ↦ none
    | some hint ↦ some (
        asset_of sock hint.kind hint.product confidence_low
          (concat ("default port " ∷ decimal sock.port ∷ []) ∷ []))
  ]

  abbrev pub endpoint_evidence : Option Match → List String
  endpoint_evidence none = []
  endpoint_evidence (some found) = found.evidence ∷ []

  -- The process name is the stronger identity, the endpoint comes next.
  unfoldable pub classify_signals : ListeningSocket → Option Signal → Option Match → Option Asset
  unfolding by_port concat decimal
  classify_signals sock (some signal) endpoint = some (
      asset_of sock signal.kind signal.product confidence_high (
        concat ("process name " ∷ tools.repr (Option.get_or sock.proc_name "") ∷ [])
        ∷ endpoint_evidence endpoint))
  classify_signals sock none (some found) =
      some (asset_of sock found.kind found.product found.confidence (found.evidence ∷ []))
  classify_signals sock none none = by_port sock

  unfoldable pub classify_socket : ListeningSocket → Option SnippetFetch → Option Asset
  unfolding match_proc probe_endpoint classify_signals
  classify_socket sock fetch =
      classify_signals sock (match_proc sock.proc_name) (probe_endpoint sock fetch)

-- `(decl.command or "").rsplit("/", 1)[-1] or "unknown"`, with `base_name` for the rsplit
unfoldable pub runner_of : (String → String) → Option String → String
runner_of base_name command =
    let name = base_name (Option.get_or command "") in if name == "" then "unknown" else name

-- The first argument that is no flag.
unfoldable pub first_package : List String → Option String
unfolding starts_with
first_package [] = none
first_package (arg ∷ rest) =
    let later = first_package rest in if starts_with arg "-" then later else some arg

unfoldable pub declared_product : String → Option String → String
unfolding concat
declared_product runner none = runner
declared_product runner (some name) =
    if name == "" then runner else concat (runner ∷ " " ∷ name ∷ [])

unfoldable pub classify_declared : (String → String) → ServerDecl → String → String → Asset
unfolding runner_of first_package declared_product concat
classify_declared base_name decl config_path host = record {
  kind = mcp_server;
  product = declared_product (runner_of base_name decl.command) (first_package decl.args);
  source = config;
  location = config_path;
  confidence = confidence_high;
  evidence = concat ("declared in " ∷ host ∷ " config" ∷ []) ∷ [];
  host = some host;
  server_name = some decl.name;
  bind_addr = none;
  port = none;
  pid = none;
  proc_name = none;
}

unfoldable pub agent_host_asset : String → String → Asset
agent_host_asset config_path host = record {
  kind = agent_host;
  product = host;
  source = config;
  location = config_path;
  confidence = confidence_high;
  evidence = "config file present" ∷ [];
  host = some host;
  server_name = none;
  bind_addr = none;
  port = none;
  pid = none;
  proc_name = none;
}
