-- ===== src/Trust/Profiles/Laws.antt =====
-- Scores and grades of profiles and of the report over them.
use ianua_broker.Trust.Model.{
  trust_factor_Eq, TrustFactor, FactorScore, is_present, autonomy, code_provenance, exposure_reach,
  secret_access, tool_privilege,
}
use ianua_broker.Prelude.{
  inl, inr, none, some, String, Bool, List, Option, is_empty, ◌≡◌, contains, false, true, any,
  arith, select, ◌||◌, ◌≤◌, Bool-cases, ◌&&◌, ◌==◌, ◌∷◌, refl, [], ◌∷◌, ◌∙◌, ◌-◌, ◌⊎◌, ℕ,
}
use ianua_broker.Discovery.Reach.{loopback, private_lan, public_routable, wildcard, ReachTier}
use ianua_broker.Prelude.{
  num_Ord, text_Ord, pair_Ord, list_Ord, num_Eq, text_Eq, pair_Eq, option_Eq, list_Eq,
}
use ianua_broker.Trust.Factors.{
  ServerChecks, autonomy_factor, privilege_factor, reach_of, privilege_risk, provenance_factor,
  secret_factor, reach_factor, bind_hint,
}
use ianua_broker.Trust.Relationships.{relationships_of}
use ianua_broker.Trust.Profiles.{active_factors, factors_of, profile_server, total_risk}
use ianua_broker.Checks.ToolScope.{ServerDecl, is_dangerous_tool, has_broad_wildcard}
use ianua_broker.Scoring.{grade_index, grade_for_score}
use ianua_broker.Domain.{grade_d}

contains-active :
    (f : TrustFactor) (xs : List FactorScore)
    → contains f (active_factors xs) ≡ any (λ (s : FactorScore). is_present s && s.factor == f) xs
unfolding active_factors
contains-active f [] = refl
contains-active f (x ∷ xs) = elim (Bool-cases (is_present x)) [
  | inl e ↦ rw e (ground (arith, contains-active f xs))
  | inr e ↦ rw e (contains-active f xs)
]

powers_of_relationships :
    (active : List TrustFactor)
    → is_empty (relationships_of active) ≡ false
    → (contains tool_privilege active
        || (contains autonomy active && contains secret_access active))
      ≡ true
unfolding relationships_of
powers_of_relationships active h = ground arith

select_of_empty :
    (p : String → Bool) (xs : List String) → is_empty xs ≡ true → is_empty (select p xs) ≡ true
select_of_empty p [] h = refl
select_of_empty p (x ∷ xs) h = ground arith

privilege_factor-autonomy :
    (server : ServerDecl)
    → is_present (privilege_factor server) ≡ true
    → (20 ≤ (privilege_factor server).risk) × ((autonomy_factor server).risk ≡ 15)
unfolding privilege_factor privilege_risk autonomy_factor
privilege_factor-autonomy server h = elim (Bool-cases (is_empty server.auto_approve)) [
  | inl e ↦ ground (
    arith,
    select_of_empty is_dangerous_tool server.auto_approve e,
    select_of_empty has_broad_wildcard server.auto_approve e,
  )
  | inr e ↦ ground arith
]

autonomy_factor-risk :
    (server : ServerDecl)
    → is_present (autonomy_factor server) ≡ true
    → (autonomy_factor server).risk ≡ 15
unfolding autonomy_factor
autonomy_factor-risk server h = ground arith

autonomy_factor-factor : (server : ServerDecl) → (autonomy_factor server).factor ≡ autonomy
unfolding autonomy_factor
autonomy_factor-factor server = ground arith

privilege_factor-factor : (server : ServerDecl) → (privilege_factor server).factor ≡ tool_privilege
unfolding privilege_factor
privilege_factor-factor server = refl

reach_of-factor : (tier : Option ReachTier) → (reach_of tier).factor ≡ exposure_reach
unfolding reach_of
reach_of-factor none = refl
reach_of-factor (some loopback) = refl
reach_of-factor (some private_lan) = refl
reach_of-factor (some public_routable) = refl
reach_of-factor (some wildcard) = refl

-- The two flags of each of the five factors: it is present, and it is the one asked for.
abbrev one_of_five : Bool → Bool → Bool → Bool → Bool → (TrustFactor → Bool) → Bool
one_of_five s p a v r is =
    (s && is secret_access)
    || ((p && is tool_privilege)
        || ((a && is autonomy)
            || ((v && is code_provenance) || ((r && is exposure_reach) || false))))

contains-five :
    (f : TrustFactor) (s p a v r : FactorScore)
    → s.factor ≡ secret_access
    → p.factor ≡ tool_privilege
    → a.factor ≡ autonomy
    → v.factor ≡ code_provenance
    → r.factor ≡ exposure_reach
    → contains f (active_factors (s ∷ p ∷ a ∷ v ∷ r ∷ []))
      ≡ one_of_five
          (is_present s)
          (is_present p)
          (is_present a)
          (is_present v)
          (is_present r)
          (λ g. g == f)
contains-five f s p a v r hs hp ha hv hr =
    contains-active f (s ∷ p ∷ a ∷ v ∷ r ∷ []) ∙ rw (hs, hp, ha, hv, hr) refl

powers_present :
    (s p a v r : Bool)
    → (one_of_five s p a v r (λ g. g == tool_privilege)
        || (one_of_five s p a v r (λ g. g == autonomy)
            && one_of_five s p a v r (λ g. g == secret_access)))
      ≡ true
    → (p ≡ true) ⊎ ((a ≡ true) × (s ≡ true))
powers_present s p a v r h = ground arith

low_grade : (score : ℕ) → score ≤ 65 → grade_index grade_d ≤ grade_index (grade_for_score score)
unfolding grade_for_score grade_index
low_grade score h = ground arith

module _ (checks : ServerChecks) (server : ServerDecl) (path : String) where
  secret_factor-factor : (secret_factor checks server path).factor ≡ secret_access
  unfolding secret_factor
  secret_factor-factor = ground arith

  secret_factor-risk :
      is_present (secret_factor checks server path) ≡ true
      → 25 ≤ (secret_factor checks server path).risk
  unfolding secret_factor
  secret_factor-risk h = ground arith

  provenance_factor-factor : (provenance_factor checks server path).factor ≡ code_provenance
  unfolding provenance_factor
  provenance_factor-factor = ground arith

  contains-factors :
      (f : TrustFactor)
      → contains f (active_factors (factors_of checks server path))
        ≡ one_of_five
            (is_present (secret_factor checks server path))
            (is_present (privilege_factor server))
            (is_present (autonomy_factor server))
            (is_present (provenance_factor checks server path))
            (is_present (reach_factor checks server))
            (λ g. g == f)
  unfolding factors_of
  contains-factors f =
      contains-five f (secret_factor checks server path) (privilege_factor server)
        (autonomy_factor server) (provenance_factor checks server path) (reach_factor checks server)
        secret_factor-factor (privilege_factor-factor server) (autonomy_factor-factor server)
        provenance_factor-factor (reach_of-factor (bind_hint checks server))

  powers_of_server :
      is_empty (relationships_of (active_factors (factors_of checks server path))) ≡ false
      → (is_present (privilege_factor server) ≡ true)
        ⊎ ((is_present (autonomy_factor server) ≡ true)
            × (is_present (secret_factor checks server path) ≡ true))
  unfolding factors_of
  powers_of_server h =
      powers_present (is_present (secret_factor checks server path))
        (is_present (privilege_factor server)) (is_present (autonomy_factor server))
        (is_present (provenance_factor checks server path))
        (is_present (reach_factor checks server))
        (rw
          (
            contains-factors tool_privilege,
            contains-factors autonomy,
            contains-factors secret_access,
          )
          at (powers_of_relationships (active_factors (factors_of checks server path)) h))

  total_risk-powers :
      (is_present (privilege_factor server) ≡ true)
        ⊎ ((is_present (autonomy_factor server) ≡ true)
            × (is_present (secret_factor checks server path) ≡ true))
      → 35 ≤ total_risk (factors_of checks server path)
  unfolding factors_of
  total_risk-powers (inl p) = omega (arith, privilege_factor-autonomy server p)
  total_risk-powers (inr (a, s)) =
      omega (arith, autonomy_factor-risk server a, secret_factor-risk s)

  -- A server with a risk relationship scores at most 65, so it is graded D or F: no combination of
  -- powers that the table names goes with a better grade.
  pub profile_server-risky :
      (host : String)
      → is_empty (profile_server checks server path host).relationships ≡ false
      → ((profile_server checks server path host).score ≤ 65)
        × (grade_index grade_d ≤ grade_index (profile_server checks server path host).grade)
  unfolding profile_server factors_of
  profile_server-risky host h =
      let low = total_risk-powers (powers_of_server h) in
      (
        omega (arith, low),
        low_grade (100 - total_risk (factors_of checks server path)) (omega (arith, low)),
      )
