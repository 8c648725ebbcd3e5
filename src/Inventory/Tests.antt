-- ===== src/Inventory/Tests.antt =====
-- A socket on a private address, which is not probed, and the same one on every address.
use mathlib.Core.Option
use ianua_broker.Prelude.{
  num_Ord, text_Ord, pair_Ord, list_Ord, refl, false, none, some, text_Eq, num_Eq, pair_Eq,
  option_Eq, list_Eq, String, ◌≡◌,
}
use ianua_broker.Inventory.Classify.{
  ClassifyTools, SnippetFetch, classify_socket, probeable, ListeningSocket,
}
use ianua_broker.Inventory.Model.{Asset}
use ianua_broker.Inventory.Classify.Boundary.{classify_socket-boundary}

abbrev inventory_tools : ClassifyTools
inventory_tools = record { lower = λ s. s; repr = λ s. s; ip_address = λ s. none }

abbrev sock_at : String → ListeningSocket
sock_at ip = record { ip = ip; port = 9000; pid = none; proc_name = none }

abbrev silent : SnippetFetch
silent host port path = none

abbrev talkative : SnippetFetch
talkative host port path = some (200, "\"models\"")

far_is_unknown : classify_socket inventory_tools (sock_at "10.0.0.5") (some talkative) ≡ none
unfolding classify_socket
far_is_unknown = refl

near_is_known :
    Option.map
      (λ (a : Asset). a.product)
      (classify_socket inventory_tools (sock_at "0.0.0.0") (some talkative))
    ≡ some "Ollama"
unfolding classify_socket
near_is_known = refl

far : (probeable inventory_tools "10.0.0.5") ≡ false
unfolding probeable
far = refl

classify_socket-boundary_example :
    classify_socket inventory_tools (sock_at "10.0.0.5") (some silent)
    ≡ classify_socket inventory_tools (sock_at "10.0.0.5") (some talkative)
classify_socket-boundary_example =
    classify_socket-boundary inventory_tools (sock_at "10.0.0.5") silent talkative
      (λ near path. absurd (cc (far, near)))
