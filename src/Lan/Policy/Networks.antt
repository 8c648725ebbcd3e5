-- ===== src/Lan/Policy/Networks.antt =====
-- A loaded policy keeps the resolving of a scope from raising.
use ianua_broker.Lan.Scope.{
  ◌>>=◌, resolved, refused, value_error, require, Scoped, add_hosts, covered_by_entries, ScopeError,
  as_network, authorized, resolve_scope, resolve_targets, target_hosts, covered_by_policy,
  is_single, is_agent, agent_cidr, too_many_hosts, no_targets, public_target, expanded,
  no_usable_hosts,
}
use ianua_broker.Prelude.{
  num_Ord, text_Ord, pair_Ord, list_Ord, inl, inr, true, false, none, some, [], ◌∷◌, text_Eq,
  num_Eq, pair_Eq, option_Eq, list_Eq, Bool, List, ℕ, String, if◌then◌else◌, ◌≡◌, Option-cases,
  contains, if_rule, not, ◌++◌, leb, ltb, ◌||◌, length, is_empty, ◌*◌, ◌&&◌, Option, ◌≢◌, subst,
}
use ianua_broker.Lan.Platform.{Platform, IpNetwork, array, cons, Bytes, field_of, subnet_of, Toml}
use ianua_broker.Lan.Policy.{
  check_networks, first_invalid, AreNetworks, EnterprisePolicy, policy, PolicyResult, check_targets,
  load_policy, policy_error, inked_texts,
}
use ianua_broker.Lan.Budgets.{Invoker, Budgets}
use ianua_broker.Lan.Manifest.{Manifest}
use mathlib.Core.Bool.{xor}

first_invalid-none :
    (py : Platform) (targets : List String)
    → first_invalid py targets ≡ none
    → AreNetworks py targets
unfolding first_invalid
first_invalid-none py [] h = tt
first_invalid-none py (t ∷ ts) h = elim (Option-cases (py.ip_network t)) [
  | inl e ↦ absurd (cc (rw (e, first_invalid) at h))
  | inr (net, e) ↦ ((net, e), first_invalid-none py ts (rw (e, first_invalid) at h))
]

-- What holds of a policy that is loaded.
abbrev OnPolicy : (EnterprisePolicy → Type 0) → PolicyResult → Type 0
OnPolicy P (policy p) = P p
OnPolicy P (policy_error e) = Unit

abbrev IsUsable : Platform → EnterprisePolicy → Type 0
IsUsable py p = AreNetworks py p.public_targets

check_networks-IsUsable :
    (py : Platform) (targets : List String) → OnPolicy (IsUsable py) (check_networks py targets)
unfolding check_networks
check_networks-IsUsable py targets = elim (Option-cases (first_invalid py targets)) [
  | inl e ↦ rw (e, check_networks) (first_invalid-none py targets e)
  | inr (t, e) ↦ rw (e, check_networks) tt
]

check_targets-IsUsable :
    (py : Platform) (value : Option Toml) → OnPolicy (IsUsable py) (check_targets py value)
unfolding check_targets
check_targets-IsUsable py (some (array (cons v rest))) =
    elim (Option-cases (inked_texts (cons v rest))) [
      | inl e ↦ rw (e, check_targets) tt
      | inr (targets, e) ↦ rw (e, check_targets) (check_networks-IsUsable py targets)
    ]
check_targets-IsUsable py _ = tt

load_policy-IsUsable : (py : Platform) (raw : Bytes) → OnPolicy (IsUsable py) (load_policy py raw)
unfolding load_policy
load_policy-IsUsable py raw = elim (Option-cases (py.toml_loads raw)) [
  | inl e ↦ rw (e, load_policy) tt
  | inr (fields, e) ↦
      rw (e, load_policy) (check_targets-IsUsable py (field_of "public_targets" fields))
]

-- What raises no ValueError.
abbrev pub IsQuiet {ℓ} : {A : Type ℓ} → Scoped A → Type 0
IsQuiet (value_error entry) = ⊥
IsQuiet _ = Unit

bind-IsQuiet {ℓ κ} :
    {A : Type ℓ} {B : Type κ} (m : Scoped A) (f : A → Scoped B)
    → IsQuiet m
    → ((a : A) → IsQuiet (f a))
    → IsQuiet (m >>= f)
bind-IsQuiet (resolved a) f h k = k a
bind-IsQuiet (refused e) f h k = tt
bind-IsQuiet (value_error entry) f h k = elim h [ ]

require-IsQuiet {ℓ} :
    {B : Type ℓ} (test : Bool) (e : ScopeError) (m : Scoped B)
    → IsQuiet m
    → IsQuiet (require test e >>= λ _. m)
require-IsQuiet true e m h = h
require-IsQuiet false e m h = tt

covered_by_entries-IsQuiet :
    (py : Platform) (net : IpNetwork) (entries : List String)
    → AreNetworks py entries
    → IsQuiet (covered_by_entries py net entries)
unfolding covered_by_entries
covered_by_entries-IsQuiet py net [] h = tt
covered_by_entries-IsQuiet py net (entry ∷ rest) ((allowed, e), h) =
    rw (e, covered_by_entries)
      (if_rule IsQuiet (not (xor net.is_v6 allowed.is_v6) && subnet_of net allowed) (resolved true)
        (covered_by_entries py net rest) (λ _. tt) (λ _. covered_by_entries-IsQuiet py net rest h))

add_hosts-IsQuiet : (limit : ℕ) (hosts own : List String) → IsQuiet (add_hosts limit hosts own)
unfolding add_hosts
add_hosts-IsQuiet limit hosts [] = tt
add_hosts-IsQuiet limit hosts (host ∷ rest) =
    let hosts' = if contains host hosts then hosts else hosts ++ host ∷ [] in
    if_rule IsQuiet (ltb limit (length hosts')) (refused (too_many_hosts limit))
      (add_hosts limit hosts' rest) (λ _. tt) (λ _. add_hosts-IsQuiet limit hosts' rest)

module _ (py : Platform) (invoker : Invoker) (budgets : Budgets) (entries : List String)
    (networks : AreNetworks py entries) where
  authorized-IsQuiet : (net : IpNetwork) → IsQuiet (authorized py (some entries) net)
  unfolding authorized covered_by_policy
  authorized-IsQuiet net =
      if_rule IsQuiet (py.is_private net) (resolved true) (covered_by_entries py net entries)
        (λ _. tt) (λ _. covered_by_entries-IsQuiet py net entries networks)

  as_network-IsQuiet : (target : String) → IsQuiet (as_network py target)
  unfolding as_network
  as_network-IsQuiet target = elim (Option-cases (py.ip_network target)) [
    | inl e ↦ rw (e, as_network) tt
    | inr (net, e) ↦ rw (e, as_network) tt
  ]

  target_hosts-IsQuiet :
      (target : String) → IsQuiet (target_hosts py invoker budgets (some entries) target)
  unfolding target_hosts
  target_hosts-IsQuiet target =
      bind-IsQuiet (as_network py target) _ (as_network-IsQuiet target) λ net.
        require-IsQuiet (is_single net || not (is_agent invoker)) (agent_cidr target) _ (
          bind-IsQuiet (authorized py (some entries) net) _ (authorized-IsQuiet net) λ allowed.
            require-IsQuiet allowed (public_target target) _
              (require-IsQuiet (not (is_empty (expanded py net))) (no_usable_hosts target) _ tt))

  resolve_targets-IsQuiet :
      (targets hosts : List String)
      → IsQuiet (resolve_targets py invoker budgets (some entries) hosts targets)
  unfolding resolve_targets
  resolve_targets-IsQuiet [] hosts = tt
  resolve_targets-IsQuiet (target ∷ rest) hosts =
      bind-IsQuiet (target_hosts py invoker budgets (some entries) target) _
        (target_hosts-IsQuiet target)
        λ own.
          bind-IsQuiet (add_hosts budgets.max_hosts hosts own) _
            (add_hosts-IsQuiet budgets.max_hosts hosts own)
            λ hosts'. resolve_targets-IsQuiet rest hosts'

  resolve_scope-IsQuiet :
      (manifest : Manifest) → IsQuiet (resolve_scope py invoker budgets (some entries) manifest)
  unfolding resolve_scope
  resolve_scope-IsQuiet manifest =
      require-IsQuiet (leb (length manifest.ports) budgets.max_ports_per_host) _ _ (
        bind-IsQuiet (resolve_targets py invoker budgets (some entries) [] manifest.targets) _
          (resolve_targets-IsQuiet manifest.targets [])
          λ hosts. require-IsQuiet (not (is_empty hosts)) no_targets _ (
            require-IsQuiet
              (leb (length hosts * length manifest.ports) budgets.max_total_connections) _ _ tt))

-- With the targets of a policy that was loaded as the allow-list, resolving a scope never raises the
-- ValueError of an entry that is no network, whatever the manifest, the invoker and the budgets are.
pub resolve_scope-of_policy :
    (py : Platform) (raw : Bytes) (p : EnterprisePolicy) (invoker : Invoker) (budgets : Budgets)
    (manifest : Manifest) (entry : String)
    → load_policy py raw ≡ policy p
    → resolve_scope py invoker budgets (some p.public_targets) manifest ≢ value_error entry
resolve_scope-of_policy py raw p invoker budgets manifest entry h e = subst IsQuiet e (
    resolve_scope-IsQuiet py invoker budgets p.public_targets
      (subst (OnPolicy (IsUsable py)) h (load_policy-IsUsable py raw)) manifest)
