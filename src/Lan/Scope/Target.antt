-- ===== src/Lan/Scope/Target.antt =====
-- What one target that passes the checks of `resolve_scope` satisfies.
use ianua_broker.Prelude.{
  num_Ord, text_Ord, pair_Ord, list_Ord, String, ◌≡◌, refl, sym, ◌∙◌, ◌⊎◌, inl, inr, Bool, true,
  false, not, ◌&&◌, ◌||◌, Option, none, some, List, [], ◌∷◌, arith, if◌then◌else◌, Bool-cases,
  Option-cases, num_Eq, text_Eq, pair_Eq, option_Eq, any, is_empty,
}
use mathlib.Core.Bool.{xor}
use ianua_broker.Lan.Platform.{IpNetwork, subnet_of, Platform}
use ianua_broker.Lan.Budgets.{Invoker, Budgets}
use ianua_broker.Lan.Scope.{
  resolved, value_error, as_network, covered_by_entries, covered_by_policy, authorized, expanded,
  is_single, is_agent, agent_cidr, public_target, no_usable_hosts, target_hosts,
}
use ianua_broker.Lan.Scope.Rules.{OnResolved, OnResolved-bind, OnResolved-require, OnResolved-map}

-- Some entry of the allow-list is a network of the same version that contains `net`.
abbrev pub is_covered : Platform → IpNetwork → List String → Bool
is_covered py net entries =
    any
      (λ entry. elim (py.ip_network entry) [
        | none ↦ false
        | some allowed ↦ not (xor net.is_v6 allowed.is_v6) && subnet_of net allowed
      ])
      entries

abbrev pub is_listed : Platform → IpNetwork → Option (List String) → Bool
is_listed py net none = false
is_listed py net (some entries) = is_covered py net entries

covered_by_entries-is_covered :
    (py : Platform) (net : IpNetwork) (entries : List String)
    → OnResolved (λ b. b ≡ is_covered py net entries) (covered_by_entries py net entries)
unfolding covered_by_entries
covered_by_entries-is_covered py net [] = refl
covered_by_entries-is_covered py net (entry ∷ rest) =
    go (py.ip_network entry) (covered_by_entries-is_covered py net rest)
  where
    go :
        (o : Option IpNetwork)
        → OnResolved (λ b. b ≡ is_covered py net rest) (covered_by_entries py net rest)
        → OnResolved
            (λ b. b ≡ (
              (elim o [
                | none ↦ false
                | some allowed ↦ not (xor net.is_v6 allowed.is_v6) && subnet_of net allowed
              ])
              || is_covered py net rest))
            (elim o [
              | none ↦ value_error entry
              | some allowed ↦
                  if not (xor net.is_v6 allowed.is_v6) && subnet_of net allowed
                  then resolved true
                  else covered_by_entries py net rest
            ])
    go none h = tt
    go (some allowed) h =
        elim (Bool-cases (not (xor net.is_v6 allowed.is_v6) && subnet_of net allowed)) [
          | inl e ↦ rw e refl
          | inr e ↦ rw e h
        ]

covered_by_policy-is_listed :
    (py : Platform) (net : IpNetwork) (allowlist : Option (List String))
    → OnResolved (λ b. b ≡ is_listed py net allowlist) (covered_by_policy py net allowlist)
unfolding covered_by_policy
covered_by_policy-is_listed py net none = refl
covered_by_policy-is_listed py net (some entries) = covered_by_entries-is_covered py net entries

module _ (py : Platform) (invoker : Invoker) (budgets : Budgets)
    (allowlist : Option (List String)) where
  pub record Admitted (target : String) (own : List String) : Type 0 where
    pub net : IpNetwork
    pub parsed : py.ip_network target ≡ some net
    pub narrow : (is_single net ≡ true) ⊎ (is_agent invoker ≡ false)
    pub private_or_listed : (py.is_private net ≡ true) ⊎ (is_listed py net allowlist ≡ true)
    pub hosts : own ≡ expanded py net
    pub some_hosts : is_empty own ≡ false

  authorized-listed :
      (net : IpNetwork)
      → OnResolved
          (λ b. b ≡ true → (py.is_private net ≡ true) ⊎ (is_listed py net allowlist ≡ true))
          (authorized py allowlist net)
  unfolding authorized
  authorized-listed net = elim (Bool-cases (py.is_private net)) [
    | inl e ↦ rw (e, authorized) (λ _. inl refl)
    | inr e ↦
        rw (e, authorized)
          (OnResolved-map (λ b. b ≡ is_listed py net allowlist) _
            (covered_by_policy py net allowlist) (covered_by_policy-is_listed py net allowlist)
            (λ b q t. inr (sym q ∙ t)))
  ]

  pub target_hosts-Admitted :
      (target : String)
      → OnResolved (Admitted target) (target_hosts py invoker budgets allowlist target)
  unfolding target_hosts as_network
  target_hosts-Admitted target = elim (Option-cases (py.ip_network target)) [
    | inl e ↦ rw (e, as_network) tt
    | inr (net, e) ↦
        rw (e, as_network)
          (OnResolved-require (Admitted target) (is_single net || not (is_agent invoker))
            (agent_cidr target) _
            λ narrow.
              OnResolved-bind _ (Admitted target) (authorized py allowlist net) _
                (authorized-listed net)
                λ allowed why.
                  OnResolved-require (Admitted target) allowed (public_target target) _
                    λ yes_allowed.
                      OnResolved-require (Admitted target) (not (is_empty (expanded py net)))
                        (no_usable_hosts target) _
                        λ hosts. record {
                          net = net;
                          parsed = e;
                          narrow = ground arith;
                          private_or_listed = why yes_allowed;
                          hosts = refl;
                          some_hosts = ground arith;
                        })
  ]
