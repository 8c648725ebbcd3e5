-- ===== src/Graph/Build/Credentials.antt =====
-- src/mcpscan/graph/build.py: the credentials, each with who holds it, the keys that named it and the
-- targets it unlocks, and the nodes and edges that come from them. `cred_holders` and `cred_keys` get
-- their keys together, so one dictionary of `Credential` stands for both, and the label of a target
-- stands with its id, as in the catalog.
use ianua_broker.Graph.Model.{
  edge_kind_Eq, edge_Eq, credential, target, holds, shared_with, unlocks, CredRef, Node,
}
use ianua_broker.Graph.Build.Facts.{cred_key, infer_target, server_key, target_key}
use mathlib.Core.Option
use ianua_broker.Graph.Build.Draft.{Draft, add_edge, default_node, set_node}
use ianua_broker.Prelude.{
  num_Ord, text_Ord, pair_Ord, list_Ord, none, some, [], ◌∷◌, text_Eq, num_Eq, pair_Eq, option_Eq,
  list_Eq, Dict, List, String, get, add_member, concat, if◌then◌else◌, keys, put, ℕ, contains,
  decimal, ltb, ◌+◌, leb, length, ◌||◌, ◌==◌, ◌&&◌, not, text_le,
}

pub record Credential : Type 0 where
  pub holders : List String
  pub counts : Dict String ℕ

abbrev pub CredKey : Type 0
CredKey = String × ℕ

abbrev pub Credentials : Type 0
Credentials = Dict CredKey Credential

abbrev pub cred_id_of : CredRef → CredKey
cred_id_of ref = (ref.fingerprint.sha256_8, ref.fingerprint.length)

-- `Counter()[key] += 1`
unfoldable pub count_key : String → Dict String ℕ → Dict String ℕ
unfolding get put
count_key env_key counts = put env_key (Option.get_or (get env_key counts) 0 + 1) counts

abbrev pub no_holders : Credential
no_holders = record { holders = []; counts = [] }

unfoldable pub add_ref : String → CredRef → Credentials → Credentials
unfolding get put add_member count_key
add_ref subject ref credentials =
    let before = Option.get_or (get (cred_id_of ref) credentials) no_holders in
    put (cred_id_of ref)
      (record {
        holders = add_member subject before.holders;
        counts = count_key ref.env_key before.counts;
      })
      credentials

unfoldable pub add_refs : String → List CredRef → Credentials → Credentials
unfolding add_ref
add_refs subject [] credentials = credentials
add_refs subject (ref ∷ rest) credentials = add_refs subject rest (add_ref subject ref credentials)

-- The loop over `secret_holders.items()`; a subject without a server node is passed over.
unfoldable pub group_credentials :
    List String → List (String × List CredRef) → Credentials → Credentials
unfolding add_refs server_key
group_credentials server_ids [] credentials = credentials
group_credentials server_ids ((subject, refs) ∷ rest) credentials =
    group_credentials server_ids rest (
      if contains (server_key subject) server_ids
      then add_refs subject refs credentials
      else credentials)

-- `min(keys.items(), key=lambda kv: (-kv[1], kv[0]))[0]`: of equal ones the first
unfoldable pub best_key : String × ℕ → List (String × ℕ) → String
best_key best [] = best.0
best_key best (next ∷ rest) =
    best_key
      (if ltb best.1 next.1 || (next.1 == best.1 && not (text_le best.0 next.0))
        then next
        else best)
      rest

-- The label of a credential; the counter of a credential is never empty.
unfoldable pub label_of : Dict String ℕ → String
unfolding best_key
label_of [] = ""
label_of (first ∷ rest) = best_key first rest

unfoldable pub targets_of : (String → String) → List String → List (String × String)
unfolding infer_target add_member
targets_of upper [] = []
targets_of upper (env_key ∷ rest) =
    let later = targets_of upper rest in
    elim (infer_target upper env_key) [ none ↦ later | some found ↦ add_member found later ]

unfoldable pub credential_node : CredKey → Credential → Node
unfolding cred_key label_of concat decimal
credential_node key cred = record {
  id = cred_key key;
  kind = credential;
  label = label_of cred.counts;
  detail =
      ("fingerprint", concat ("sha256:" ∷ key.0 ∷ []))
      ∷ ("holders", decimal (length cred.holders))
      ∷ ("length", decimal key.1)
      ∷ [];
}

-- The loop that makes the credential nodes.
unfoldable pub add_credentials : Credentials → Draft → Draft
unfolding credential_node set_node
add_credentials [] draft = draft
add_credentials ((key, cred) ∷ rest) draft =
    add_credentials rest (set_node (credential_node key cred) draft)

-- The loop over the holders of one credential.
unfoldable pub connect_holders : CredKey → Credential → List String → Draft → Draft
unfolding add_edge cred_key server_key label_of concat decimal
connect_holders key cred [] draft = draft
connect_holders key cred (subject ∷ rest) draft =
    let held =
      add_edge
        (record {
          src = server_key subject;
          dst = cred_key key;
          kind = holds;
          detail = label_of cred.counts;
        })
        draft in
    connect_holders key cred rest (
      if leb 2 (length cred.holders)
      then add_edge
          (record {
            src = cred_key key;
            dst = server_key subject;
            kind = shared_with;
            detail = concat ("shared across " ∷ decimal (length cred.holders) ∷ " tools" ∷ []);
          })
          held
      else held)

abbrev pub target_node : String → String → String → Node
target_node target_id label why = record {
  id = target_key target_id;
  kind = target;
  label = label;
  detail = ("kind", why) ∷ [];
}

-- The loop over the targets of one credential.
unfoldable pub add_targets : CredKey → List (String × String) → Draft → Draft
unfolding default_node add_edge target_key cred_key
add_targets key [] draft = draft
add_targets key ((target_id, label) ∷ rest) draft = add_targets key rest (
    add_edge
      (record { src = cred_key key; dst = target_key target_id; kind = unlocks; detail = label })
      (default_node (target_node target_id label "credential-unlocked") draft))

-- The loop over `cred_holders.items()`.
unfoldable pub connect_credentials : (String → String) → Credentials → Draft → Draft
unfolding connect_holders add_targets targets_of
connect_credentials upper [] draft = draft
connect_credentials upper ((key, cred) ∷ rest) draft = connect_credentials upper rest (
    add_targets key (targets_of upper (keys cred.counts))
      (connect_holders key cred cred.holders draft))
