-- ===== src/Trust/Model.antt =====
-- src/mcpscan/trust/model.py: the vocabulary of a trust report.
use ianua_broker.Prelude.{
  num_Ord, text_Ord, pair_Ord, list_Ord, num_Eq, text_Eq, pair_Eq, option_Eq, list_Eq, Bool, Eq,
  List, String, sorted, ℕ, ◌≡◌, ltb, select, true, false, not, ◌↔◌, arith, is_empty,
}
use ianua_broker.Domain.{Grade}

pub data TrustFactor : Type 0 where
  secret_access tool_privilege autonomy code_provenance exposure_reach : TrustFactor

abbrev pub trust_factor_beq : TrustFactor → TrustFactor → Bool
trust_factor_beq secret_access secret_access = true
trust_factor_beq tool_privilege tool_privilege = true
trust_factor_beq autonomy autonomy = true
trust_factor_beq code_provenance code_provenance = true
trust_factor_beq exposure_reach exposure_reach = true
trust_factor_beq _ _ = false

pub trust_factor_beq_iff : (a b : TrustFactor) → (trust_factor_beq a b ≡ true) ↔ (a ≡ b)
trust_factor_beq_iff a b = ground arith

instance abbrev pub trust_factor_Eq : Eq TrustFactor
trust_factor_Eq = record { beq = trust_factor_beq; beq_iff = trust_factor_beq_iff }

unfoldable pub trust_factor_value : TrustFactor → String
trust_factor_value secret_access = "secret_access"
trust_factor_value tool_privilege = "tool_privilege"
trust_factor_value autonomy = "autonomy"
trust_factor_value code_provenance = "code_provenance"
trust_factor_value exposure_reach = "exposure_reach"

pub record FactorScore : Type 0 where
  pub factor : TrustFactor
  pub risk : ℕ
  pub detail : String

-- the property `present`
abbrev pub is_present : FactorScore → Bool
is_present score = ltb 0 score.risk

pub record RiskRelationship : Type 0 where
  pub id : String
  pub title : String
  pub rationale : String
  pub factors : List TrustFactor

pub record TrustProfile : Type 0 where
  pub subject : String
  pub server_name : String
  pub host : String
  pub location : String
  pub score : ℕ
  pub grade : Grade
  pub factors : List FactorScore
  pub relationships : List RiskRelationship

unfoldable pub present_factors : TrustProfile → List FactorScore
present_factors profile = select is_present profile.factors

pub record TrustReport : Type 0 where
  pub schema_version : String
  pub profiles : List TrustProfile
  pub overall_grade : Grade

-- the property `risky`
unfoldable pub risky : TrustReport → List TrustProfile
unfolding sorted
risky report =
    sorted (λ (p : TrustProfile). p.score)
      (select (λ (p : TrustProfile). not (is_empty p.relationships)) report.profiles)
