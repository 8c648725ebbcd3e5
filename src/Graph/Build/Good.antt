-- ===== src/Graph/Build/Good.antt =====
-- What every step of the construction keeps: nodes are stored under their ids and stay, and the two
-- ends of every edge are nodes.
use ianua_broker.Graph.Model.{edge_Eq, Node, Edge}
use ianua_broker.Graph.Build.Draft.{add_edge, Draft, default_node, set_node}
use ianua_broker.Prelude.{
  num_Ord, text_Ord, pair_Ord, list_Ord, refl, true, [], ◌∷◌, text_Eq, num_Eq, pair_Eq, option_Eq,
  list_Eq, add_member, put, All, All-add_member, Dict, String, has, if_rule, get, ◌≡◌, has-put,
  ◌==◌, sym, ◌∙◌, arith, All-map_pred, beq_self,
}

abbrev pub Knows : Draft → String → Type 0
Knows draft id = has id draft.nodes ≡ true

pub record IsWell (draft : Draft) : Type 0 where
  pub named : All (λ (p : String × Node). p.1.id ≡ p.0) draft.nodes
  pub ends : All (λ (e : Edge). Knows draft e.src × Knows draft e.dst) draft.edges

pub record Good (draft draft' : Draft) : Type 0 where
  pub extends : (id : String) → Knows draft id → Knows draft' id
  pub keeps : IsWell draft → IsWell draft'

pub Good-refl : (d : Draft) → Good d d
Good-refl d = record { extends = λ id h. h; keeps = λ w. w }

pub Good-trans : {a b c : Draft} → Good a b → Good b c → Good a c
Good-trans g k = record {
  extends = λ id h. k.extends id (g.extends id h);
  keeps = λ w. k.keeps (g.keeps w);
}

named-put :
    (node : Node) (nodes : Dict String Node)
    → All (λ (p : String × Node). p.1.id ≡ p.0) nodes
    → All (λ (p : String × Node). p.1.id ≡ p.0) (put node.id node nodes)
unfolding put
named-put node [] h = (refl, tt)
named-put node ((id, old) ∷ nodes) h =
    if_rule (All (λ (p : String × Node). p.1.id ≡ p.0)) (id == node.id) ((id, node) ∷ nodes)
      ((id, old) ∷ put node.id node nodes)
      (λ same. (sym ((text_Eq.beq_iff id node.id).0 same), h.1))
      (λ _. (h.0, named-put node nodes h.1))

pub set_node-Knows : (node : Node) (d : Draft) → Knows (set_node node d) node.id
unfolding set_node has get put
set_node-Knows node d = has-put node.id node.id node d.nodes ∙ ground (arith, beq_self node.id)

pub set_node-Good : (node : Node) (d : Draft) → Good d (set_node node d)
unfolding set_node has get put
set_node-Good node d =
    let grown : (id : String) → Knows d id → Knows (set_node node d) id =
      λ id h. has-put id node.id node d.nodes ∙ ground (arith, h) in
    record {
      extends = grown;
      keeps = λ w. record {
        named = named-put node d.nodes w.named;
        ends = All-map_pred d.edges (λ e (s, t). (grown e.src s, grown e.dst t)) w.ends;
      };
    }

pub default_node-Knows : (node : Node) (d : Draft) → Knows (default_node node d) node.id
unfolding default_node
default_node-Knows node d =
    if_rule (λ (d' : Draft). Knows d' node.id) (has node.id d.nodes) d (set_node node d) (λ h. h)
      (λ _. set_node-Knows node d)

pub default_node-Good : (node : Node) (d : Draft) → Good d (default_node node d)
unfolding default_node
default_node-Good node d =
    if_rule (Good d) (has node.id d.nodes) d (set_node node d) (λ _. Good-refl d)
      (λ _. set_node-Good node d)

pub add_edge-Good :
    (edge : Edge) (d : Draft) → Knows d edge.src → Knows d edge.dst → Good d (add_edge edge d)
unfolding add_edge add_member
add_edge-Good edge d s t = record {
  extends = λ id h. h;
  keeps = λ w. record {
    named = w.named;
    ends = All-add_member (λ (e : Edge). Knows d e.src × Knows d e.dst) edge d.edges (s, t) w.ends;
  };
}
