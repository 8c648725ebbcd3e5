-- ===== src/Trust/Relationships/Table.antt =====
-- The relationships as a table read by one rule.
use ianua_broker.Prelude.{
  num_Ord, text_Ord, pair_Ord, list_Ord, num_Eq, text_Eq, pair_Eq, option_Eq, list_Eq, Bool, List,
  ◌&&◌, all, true, ◌≡◌, arith, contains, select, ◌∷◌, [], refl,
}
use ianua_broker.Trust.Relationships.{
  relationships_of, autonomous_exfil_path, privileged_secret_holder, autonomous_privileged,
  autonomous_secret_holder, unvetted_privileged, exposed_privileged,
}
use ianua_broker.Trust.Model.{
  RiskRelationship, TrustFactor, trust_factor_Eq, autonomy, tool_privilege, secret_access,
  code_provenance, exposure_reach,
}

abbrev pub table : List RiskRelationship
table =
    autonomous_exfil_path ∷ privileged_secret_holder ∷ autonomous_privileged
    ∷ autonomous_secret_holder ∷ unvetted_privileged ∷ exposed_privileged ∷ []

abbrev pub is_active : List TrustFactor → RiskRelationship → Bool
is_active active rel = all (λ f. contains f active) rel.factors

and_pair : (a b : Bool) → (a && (b && true)) ≡ (a && b)
and_pair a b = ground arith

and_triple : (a b c : Bool) → (a && (b && (c && true))) ≡ ((a && b) && c)
and_triple a b c = ground arith

-- The relationships found are, in the order of the table of the six, exactly those of which every
-- factor is active.
pub relationships_of_exact :
    (active : List TrustFactor) → relationships_of active ≡ select (is_active active) table
unfolding relationships_of
relationships_of_exact active =
    rw
      (
        and_triple (contains autonomy active) (contains tool_privilege active)
            (contains secret_access active),
        and_pair (contains secret_access active) (contains tool_privilege active),
        and_pair (contains autonomy active) (contains tool_privilege active),
        and_pair (contains autonomy active) (contains secret_access active),
        and_pair (contains code_provenance active) (contains tool_privilege active),
        and_pair (contains exposure_reach active) (contains tool_privilege active),
      )
      refl
