-- ===== src/Graph/Build/Held.antt =====
-- The loops over the credentials keep the two ends of every edge among the nodes.
use mathlib.Core.Option
use ianua_broker.Graph.Model.{holds, shared_with, unlocks, CredRef, Edge}
use ianua_broker.Graph.Build.Draft.{add_edge, Draft, set_node, default_node}
use ianua_broker.Prelude.{
  num_Ord, text_Ord, pair_Ord, list_Ord, refl, true, none, some, [], ◌∷◌, text_Eq, num_Eq, pair_Eq,
  option_Eq, list_Eq, String, All, List, get, put, Option, contains, keys, ◌≡◌, if_rule, All-put,
  All-add_member, All-get_value, All-map_pred, concat, decimal, length, leb,
}
use ianua_broker.Graph.Build.Credentials.{
  add_credentials, add_targets, connect_credentials, CredKey, Credential, Credentials, add_ref,
  add_refs, credential_node, group_credentials, target_node, targets_of, no_holders, cred_id_of,
  connect_holders, label_of,
}
use ianua_broker.Graph.Build.Good.{
  Good, Knows, Good-refl, Good-trans, set_node-Good, default_node-Good, set_node-Knows,
  add_edge-Good, default_node-Knows,
}
use ianua_broker.Graph.Build.Facts.{cred_key, target_key, server_key}

-- The holders of a credential are servers of the graph.
abbrev pub HeldBy : (String → Type 0) → Credential → Type 0
HeldBy P cred = All P cred.holders

module _ (P : String → Type 0) where
  add_ref-HeldBy :
      (subject : String) (ref : CredRef) (credentials : Credentials)
      → P subject
      → All (λ (c : CredKey × Credential). HeldBy P c.1) credentials
      → All (λ (c : CredKey × Credential). HeldBy P c.1) (add_ref subject ref credentials)
  unfolding add_ref get put
  add_ref-HeldBy subject ref credentials h held =
      All-put (HeldBy P) (cred_id_of ref) _ credentials
        (All-add_member P subject
          (Option.get_or (get (cred_id_of ref) credentials) no_holders).holders h
          (found (get (cred_id_of ref) credentials)
            (All-get_value (HeldBy P) (cred_id_of ref) credentials held)))
        held
    where
      found :
          (m : Option Credential)
          → ((cred : Credential) → m ≡ some cred → HeldBy P cred)
          → All P (Option.get_or m no_holders).holders
      found none k = tt
      found (some cred) k = k cred refl

  add_refs-HeldBy :
      (subject : String) (refs : List CredRef) (credentials : Credentials)
      → P subject
      → All (λ (c : CredKey × Credential). HeldBy P c.1) credentials
      → All (λ (c : CredKey × Credential). HeldBy P c.1) (add_refs subject refs credentials)
  unfolding add_refs
  add_refs-HeldBy subject [] credentials h held = held
  add_refs-HeldBy subject (ref ∷ rest) credentials h held =
      add_refs-HeldBy subject rest (add_ref subject ref credentials) h
        (add_ref-HeldBy subject ref credentials h held)

  pub group_credentials-HeldBy :
      (server_ids : List String) (secret_holders : List (String × List CredRef))
      (credentials : Credentials)
      → ((subject : String) → contains (server_key subject) server_ids ≡ true → P subject)
      → All (λ (c : CredKey × Credential). HeldBy P c.1) credentials
      → All
          (λ (c : CredKey × Credential). HeldBy P c.1)
          (group_credentials server_ids secret_holders credentials)
  unfolding group_credentials
  group_credentials-HeldBy server_ids [] credentials known held = held
  group_credentials-HeldBy server_ids ((subject, refs) ∷ rest) credentials known held =
      group_credentials-HeldBy server_ids rest _ known (
        if_rule (All (λ (c : CredKey × Credential). HeldBy P c.1))
          (contains (server_key subject) server_ids) (add_refs subject refs credentials) credentials
          (λ here. add_refs-HeldBy subject refs credentials (known subject here) held) (λ _. held))

pub add_credentials-Good :
    (credentials : Credentials) (d : Draft)
    → Good d (add_credentials credentials d)
      × All
          (λ (c : CredKey × Credential). Knows (add_credentials credentials d) (cred_key c.0))
          credentials
unfolding add_credentials credential_node
add_credentials-Good [] d = (Good-refl d, tt)
add_credentials-Good ((key, cred) ∷ rest) d =
    let node = credential_node key cred in
    let later = add_credentials-Good rest (set_node node d) in
    (
      Good-trans (set_node-Good node d) later.0,
      (later.0.extends (cred_key key) (set_node-Knows node d), later.1),
    )

connect_holders-Good :
    (key : CredKey) (cred : Credential) (subjects : List String) (d : Draft)
    → Knows d (cred_key key)
    → All (λ subject. Knows d (server_key subject)) subjects
    → Good d (connect_holders key cred subjects d)
unfolding connect_holders
connect_holders-Good key cred [] d known servers = Good-refl d
connect_holders-Good key cred (subject ∷ rest) d known servers =
    let held : Edge = record {
      src = server_key subject;
      dst = cred_key key;
      kind = holds;
      detail = label_of cred.counts;
    } in
    let shared : Edge = record {
      src = cred_key key;
      dst = server_key subject;
      kind = shared_with;
      detail = concat ("shared across " ∷ decimal (length cred.holders) ∷ " tools" ∷ []);
    } in
    let first = add_edge-Good held d servers.0 known in
    let second =
      if_rule (Good d) (leb 2 (length cred.holders)) (add_edge shared (add_edge held d))
        (add_edge held d)
        (λ _. Good-trans first (add_edge-Good shared (add_edge held d) known servers.0))
        (λ _. first) in
    Good-trans second (
      connect_holders-Good key cred rest _ (second.extends (cred_key key) known)
        (All-map_pred rest (λ s h. second.extends (server_key s) h) servers.1))

add_targets-Good :
    (key : CredKey) (targets : List (String × String)) (d : Draft)
    → Knows d (cred_key key)
    → Good d (add_targets key targets d)
      × All (λ (t : String × String). Knows (add_targets key targets d) (target_key t.0)) targets
unfolding add_targets
add_targets-Good key [] d known = (Good-refl d, tt)
add_targets-Good key ((target_id, label) ∷ rest) d known =
    let node = target_node target_id label "credential-unlocked" in
    let edge : Edge = record {
      src = cred_key key;
      dst = target_key target_id;
      kind = unlocks;
      detail = label;
    } in
    let d1 = default_node node d in
    let step = default_node-Good node d in
    let first =
      Good-trans step
        (add_edge-Good edge d1 (step.extends (cred_key key) known) (default_node-Knows node d)) in
    let later = add_targets-Good key rest (add_edge edge d1) (first.extends (cred_key key) known) in
    (
      Good-trans first later.0,
      (later.0.extends (target_key target_id) (default_node-Knows node d), later.1),
    )

-- A credential whose node and whose holders' nodes are there.
abbrev pub Placed : Draft → CredKey × Credential → Type 0
Placed d c = Knows d (cred_key c.0) × HeldBy (λ subject. Knows d (server_key subject)) c.1

-- The nodes of the targets that a credential unlocks are there.
abbrev pub TargetsKnown : (String → String) → Draft → Credential → Type 0
TargetsKnown upper d cred =
    All (λ (t : String × String). Knows d (target_key t.0)) (targets_of upper (keys cred.counts))

pub connect_credentials-Good :
    (upper : String → String) (credentials : Credentials) (d : Draft)
    → All (Placed d) credentials
    → Good d (connect_credentials upper credentials d)
      × All
          (λ (c : CredKey × Credential).
            TargetsKnown upper (connect_credentials upper credentials d) c.1)
          credentials
unfolding connect_credentials
connect_credentials-Good upper [] d placed = (Good-refl d, tt)
connect_credentials-Good upper ((key, cred) ∷ rest) d placed =
    let d1 = connect_holders key cred cred.holders d in
    let targets = targets_of upper (keys cred.counts) in
    let held = connect_holders-Good key cred cred.holders d placed.0.0 placed.0.1 in
    let there = add_targets-Good key targets d1 (held.extends (cred_key key) placed.0.0) in
    let first = Good-trans held there.0 in
    let later = connect_credentials-Good upper rest (add_targets key targets d1) (
      All-map_pred rest
        (λ (c : CredKey × Credential) (k, hs). (
          first.extends (cred_key c.0) k,
          All-map_pred c.1.holders (λ s h. first.extends (server_key s) h) hs,
        ))
        placed.1) in
    (
      Good-trans first later.0,
      (All-map_pred targets (λ t h. later.0.extends (target_key t.0) h) there.1, later.1),
    )
