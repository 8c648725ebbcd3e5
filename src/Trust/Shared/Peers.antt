-- ===== src/Trust/Shared/Peers.antt =====
-- Who shares a credential with whom.
use ianua_broker.Prelude.{
  num_Ord, text_Ord, pair_Ord, list_Ord, refl, inl, inr, true, [], ◌∷◌, num_Eq, text_Eq, pair_Eq,
  option_Eq, list_Eq, String, List, contains, ◌≡◌, ◌||◌, arith, ◌==◌, Bool-cases, ◌∙◌, ap, Eq, ◌&&◌,
  Dict, not, put, if◌then◌else◌, get-put, Bool, get, ltb, Option, any, length, false, some,
  add_members, contains-add_members,
}
use ianua_broker.Trust.Shared.{members_at, others_than, add_peers, or_empty, peers_from}

or_empty-if :
    (b : Bool) (members : List String) (o : Option (List String))
    → or_empty (if b then some members else o) ≡ (if b then members else or_empty o)
or_empty-if true members o = refl
or_empty-if false members o = refl

pub members_at-put {ℓ} :
    {K : Type ℓ} ⦃e : Eq K⦄ (j k : K) (members : List String) (d : Dict K (List String))
    → members_at k (put j members d) ≡ (if e.beq j k then members else members_at k d)
unfolding members_at
members_at-put ⦃e⦄ j k members d =
    ap or_empty (get-put j k members d) ∙ or_empty-if (e.beq j k) members (get k d)

contains-others_than :
    (t s : String) (group : List String)
    → contains t (others_than s group) ≡ (contains t group && not (t == s))
contains-others_than t s [] = refl
contains-others_than t s (x ∷ group) = ground (
  arith,
  contains-others_than t s group,
  text_Eq.beq_iff x t,
  text_Eq.beq_iff x s,
  text_Eq.beq_iff t s,
)

contains-peers_step :
    (s t x : String) (group : List String) (peers : Dict String (List String))
    → contains t
        (members_at s (put x (add_members (others_than x group) (members_at x peers)) peers))
      ≡ (contains t (members_at s peers) || (x == s && (contains t group && not (t == s))))
contains-peers_step s t x group peers =
    ap (contains t)
      (members_at-put x s (add_members (others_than x group) (members_at x peers)) peers)
    ∙ elim (Bool-cases (x == s)) [
      | inl q ↦ rw q (
          contains-add_members t (others_than x group) (members_at x peers)
          ∙ rw (contains-others_than t x group, (text_Eq.beq_iff x s).0 q) refl)
      | inr q ↦ rw q (ground arith)
    ]

contains-add_peers :
    (s t : String) (group rest : List String) (peers : Dict String (List String))
    → contains t (members_at s (add_peers group rest peers))
      ≡ (contains t (members_at s peers) || (contains s rest && (contains t group && not (t == s))))
unfolding add_peers
contains-add_peers s t group [] peers = ground arith
contains-add_peers s t group (x ∷ rest) peers =
    contains-add_peers s t group rest
      (put x (add_members (others_than x group) (members_at x peers)) peers)
    ∙ rw (contains-peers_step s t x group peers) (ground arith)

-- A group of fewer than two has no two members that differ.
one_member :
    (s t : String) (group : List String)
    → ltb (length group) 2 ≡ true
    → (contains s group && (contains t group && not (t == s))) ≡ false
one_member s t [] h = refl
one_member s t (x ∷ []) h =
    ground (arith, text_Eq.beq_iff x s, text_Eq.beq_iff x t, text_Eq.beq_iff t s)
one_member s t (x ∷ y ∷ rest) h = ground arith

abbrev pub shares_group : String → String → List (List String) → Bool
shares_group s t groups =
    any (λ (group : List String). contains s group && (contains t group && not (t == s))) groups

pub contains-peers_from :
    (s t : String) (groups : List (List String)) (peers : Dict String (List String))
    → contains t (members_at s (peers_from groups peers))
      ≡ (contains t (members_at s peers) || shares_group s t groups)
unfolding peers_from
contains-peers_from s t [] peers = ground arith
contains-peers_from s t (group ∷ groups) peers = elim (Bool-cases (ltb (length group) 2)) [
  | inl q ↦ rw (q, one_member s t group q) (contains-peers_from s t groups peers)
  | inr q ↦ rw q (
      contains-peers_from s t groups (add_peers group group peers)
      ∙ rw (contains-add_peers s t group group peers) (ground arith))
]
