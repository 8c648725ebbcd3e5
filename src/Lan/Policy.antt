-- ===== src/Lan/Policy.antt =====
-- src/mcpscan/lan/policy.py: the allow-list of public targets. Each message of a PolicyError is a
-- constructor.
pub mod Networks
use ianua_broker.Prelude.{
  num_Ord, text_Ord, pair_Ord, list_Ord, has_ink, String, ◌≡◌, Option, none, some, List, [], ◌∷◌,
  if◌then◌else◌, num_Eq, text_Eq, pair_Eq, option_Eq, All,
}
use mathlib.Core.Option
use ianua_broker.Lan.Platform.{
  Toml, text, array, Items, nil, cons, field_of, Bytes, Platform, IpNetwork,
}

pub record EnterprisePolicy : Type 0 where
  pub public_targets : List String

pub data PolicyError : Type 0 where
  policy_toml targets_missing target_blank : PolicyError
  target_invalid : String → PolicyError

pub data PolicyResult : Type 0 where
  policy : EnterprisePolicy → PolicyResult
  policy_error : PolicyError → PolicyResult

-- `all(isinstance(t, str) and t.strip() for t in targets)`, and the texts
unfoldable pub inked_texts : Items → Option (List String)
inked_texts nil = some []
inked_texts (cons (text t) rest) =
    let more = inked_texts rest in if has_ink t then Option.map (λ ts. t ∷ ts) more else none
inked_texts (cons _ rest) = none

-- The loop that parses each target: the first that is no network.
unfoldable pub first_invalid : Platform → List String → Option String
first_invalid py [] = none
first_invalid py (t ∷ ts) =
    let later = first_invalid py ts in elim (py.ip_network t) [ none ↦ some t | some net ↦ later ]

unfoldable pub check_networks : Platform → List String → PolicyResult
unfolding first_invalid
check_networks py targets = elim (first_invalid py targets) [
  | some t ↦ policy_error (target_invalid t)
  | none ↦ policy (record { public_targets = targets })
]

unfoldable pub check_targets : Platform → Option Toml → PolicyResult
unfolding inked_texts check_networks
check_targets py (some (array (cons v rest))) = elim (inked_texts (cons v rest)) [
  | none ↦ policy_error target_blank
  | some targets ↦ check_networks py targets
]
check_targets py _ = policy_error targets_missing

unfoldable pub load_policy : Platform → Bytes → PolicyResult
unfolding check_targets
load_policy py raw = elim (py.toml_loads raw) [
  | none ↦ policy_error policy_toml
  | some fields ↦ check_targets py (field_of "public_targets" fields)
]

-- Every entry is a network: what `covered_by_policy` needs in order not to raise.
abbrev pub AreNetworks : Platform → List String → Type 0
AreNetworks py entries = All (λ entry. (net : IpNetwork) × (py.ip_network entry ≡ some net)) entries
