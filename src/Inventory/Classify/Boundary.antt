-- ===== src/Inventory/Classify/Boundary.antt =====
-- What the classification of a socket may learn from the network.

use ianua_broker.Prelude.{inl, inr, Bool-cases, ℕ, String, ◌≡◌, ap, List, ◌∙◌}
use ianua_broker.Prelude.{
  num_Ord, text_Ord, pair_Ord, list_Ord, refl, inl, inr, true, some, [], ◌∷◌, text_Eq, num_Eq,
  pair_Eq, option_Eq, list_Eq,
}
use ianua_broker.Inventory.Classify.{
  ClassifyTools, classify_socket, probe_endpoint, ListeningSocket, SnippetFetch, probeable,
  match_endpoint, match_mcp, match_signature, classify_signals, endpoint_signatures,
  EndpointSignature, match_proc, mcp_paths, mcp_answer, or_else,
}

module _ (tools : ClassifyTools) (port : ℕ) (f g : SnippetFetch)
    (same : (path : String) → f "127.0.0.1" port path ≡ g "127.0.0.1" port path) where
  match_signature-same :
      (signatures : List EndpointSignature)
      → match_signature tools port f signatures ≡ match_signature tools port g signatures
  unfolding match_signature
  match_signature-same [] = refl
  match_signature-same (sig ∷ rest) = rw (same sig.path, match_signature-same rest) refl

  match_mcp-same :
      (paths : List String) → match_mcp tools port f paths ≡ match_mcp tools port g paths
  unfolding match_mcp
  match_mcp-same [] = refl
  match_mcp-same (path ∷ rest) =
      ap (λ a. mcp_answer tools path a (match_mcp tools port f rest)) (same path)
      ∙ ap (mcp_answer tools path (g "127.0.0.1" port path)) (match_mcp-same rest)

  match_endpoint-same : match_endpoint tools port f ≡ match_endpoint tools port g
  unfolding match_endpoint
  match_endpoint-same =
      ap (λ m. or_else tools m (match_mcp tools port f mcp_paths))
        (match_signature-same endpoint_signatures)
      ∙ ap (or_else tools (match_signature tools port g endpoint_signatures))
          (match_mcp-same mcp_paths)

-- The classification of a socket depends on nothing that a fetcher could answer but what the loopback
-- address answers on the port of the socket, and on that only if the socket is bound to a loopback or
-- wildcard address: two fetchers that agree there give the same asset.
pub classify_socket-boundary :
    (tools : ClassifyTools) (sock : ListeningSocket) (f g : SnippetFetch)
    → (probeable tools sock.ip ≡ true
        → (path : String) → f "127.0.0.1" sock.port path ≡ g "127.0.0.1" sock.port path)
    → classify_socket tools sock (some f) ≡ classify_socket tools sock (some g)
unfolding classify_socket probe_endpoint
classify_socket-boundary tools sock f g agree =
    ap (classify_signals tools sock (match_proc tools sock.proc_name))
      (elim (Bool-cases (probeable tools sock.ip)) [
        | inl near ↦ rw near (match_endpoint-same tools sock.port f g (agree near))
        | inr far ↦ rw far refl
      ])
