-- ===== src/Lan/Scope.antt =====
-- src/mcpscan/lan/scope.py: from the manifest's target texts to the hosts that are probed. A
-- message of a ScopeError is a constructor with the values that it shows. The scope id of an IPv6
-- address is left out.
pub mod Rules
pub mod Target
pub mod Bounds
use ianua_broker.Prelude.{
  num_Ord, text_Ord, pair_Ord, list_Ord, ℕ, ◌*◌, String, Bool, true, false, not, ◌&&◌, ◌||◌, Option,
  none, some, List, [], ◌∷◌, ◌++◌, map, ltb, leb, num_eq, if◌then◌else◌, num_Eq, text_Eq, pair_Eq,
  option_Eq, length, is_empty, contains,
}
use mathlib.Core.Bool.{xor}
use ianua_broker.Lan.Platform.{IpNetwork, max_prefixlen, hosts_of, subnet_of, Platform}
use ianua_broker.Lan.Budgets.{Invoker, human, agent, Budgets}
use ianua_broker.Lan.Manifest.{Manifest}

pub data ScopeError : Type 0 where
  too_many_ports : ℕ → ℕ → ScopeError
  invalid_target : String → ScopeError
  agent_cidr : String → ScopeError
  public_target : String → ScopeError
  no_usable_hosts : String → ScopeError
  too_many_hosts : ℕ → ScopeError
  no_targets : ScopeError
  too_many_connections : ℕ → ℕ → ℕ → ScopeError

pub record ResolvedScope : Type 0 where
  pub hosts : List String
  pub ports : List ℕ

-- A value, a returned ScopeError, or the ValueError that an allow-list entry raises which is no
-- network.
pub data Scoped {ℓ} (A : Type ℓ) : Type ℓ where
  resolved : A → Scoped A
  refused : ScopeError → Scoped A
  value_error : String → Scoped A

infixl 10 ◌>>=◌ ◌>>◌
abbrev pub ◌>>=◌ {ℓ κ} : {A : Type ℓ} {B : Type κ} → Scoped A → (A → Scoped B) → Scoped B
resolved a >>= f = f a
refused e >>= f = refused e
value_error s >>= f = value_error s

abbrev pub ◌>>◌ {ℓ} : {B : Type ℓ} → Scoped (Unit {0}) → Scoped B → Scoped B
m >> k = m >>= λ _. k

-- if not test: return error
abbrev pub require : Bool → ScopeError → Scoped (Unit {0})
require true e = resolved tt
require false e = refused e

unfoldable pub as_network : Platform → String → Scoped IpNetwork
as_network py target = elim (py.ip_network target) [
  | none ↦ refused (invalid_target target)
  | some net ↦ resolved net
]

unfoldable pub covered_by_entries : Platform → IpNetwork → List String → Scoped Bool
covered_by_entries py net [] = resolved false
covered_by_entries py net (entry ∷ rest) =
    let later = covered_by_entries py net rest in
    elim (py.ip_network entry) [
      | none ↦ value_error entry
      | some allowed ↦
          if not (xor net.is_v6 allowed.is_v6) && subnet_of net allowed
          then resolved true
          else later
    ]

unfoldable pub covered_by_policy : Platform → IpNetwork → Option (List String) → Scoped Bool
unfolding covered_by_entries
covered_by_policy py net none = resolved false
covered_by_policy py net (some allowlist) = covered_by_entries py net allowlist

abbrev pub is_single : IpNetwork → Bool
is_single net = num_eq net.prefixlen (max_prefixlen net)

abbrev pub is_agent : Invoker → Bool
is_agent agent = true
is_agent human = false

-- Whether a target may be probed at all: `not net.is_private and not _covered_by_policy(...)`.
unfoldable pub authorized : Platform → Option (List String) → IpNetwork → Scoped Bool
unfolding covered_by_policy
authorized py allowlist net =
    if py.is_private net then resolved true else covered_by_policy py net allowlist

unfoldable pub expanded : Platform → IpNetwork → List String
expanded py net =
    if is_single net
    then py.address_text net.is_v6 net.network_address ∷ []
    else map (py.address_text net.is_v6) (hosts_of net)

-- The loop over one target's hosts. `seen` is the set of the texts in `hosts`.
unfoldable pub add_hosts : ℕ → List String → List String → Scoped (List String)
add_hosts max_hosts hosts [] = resolved hosts
add_hosts max_hosts hosts (host ∷ rest) =
    let hosts' = if contains host hosts then hosts else hosts ++ host ∷ [] in
    let onward = add_hosts max_hosts hosts' rest in
    if ltb max_hosts (length hosts') then refused (too_many_hosts max_hosts) else onward

module _ (py : Platform) (invoker : Invoker) (budgets : Budgets)
    (allowlist : Option (List String)) where
  -- The checks of one target, and its hosts.
  unfoldable pub target_hosts : String → Scoped (List String)
  unfolding as_network authorized expanded
  target_hosts target = do
    net ← as_network py target
    require (is_single net || not (is_agent invoker)) (agent_cidr target)
    allowed ← authorized py allowlist net
    require allowed (public_target target)
    require (not (is_empty (expanded py net))) (no_usable_hosts target)
    resolved (expanded py net)

  -- The loop over the targets.
  unfoldable pub resolve_targets : List String → List String → Scoped (List String)
  unfolding target_hosts add_hosts
  resolve_targets hosts [] = resolved hosts
  resolve_targets hosts (target ∷ rest) = target_hosts target >>= λ own.
      add_hosts budgets.max_hosts hosts own >>= λ hosts'. resolve_targets hosts' rest

  unfoldable pub resolve_scope : Manifest → Scoped ResolvedScope
  unfolding resolve_targets
  resolve_scope manifest = do
    let ports = manifest.ports
    require (leb (length ports) budgets.max_ports_per_host)
        (too_many_ports (length ports) budgets.max_ports_per_host)
    hosts ← resolve_targets [] manifest.targets
    require (not (is_empty hosts)) no_targets
    require (leb (length hosts * length ports) budgets.max_total_connections)
        (too_many_connections (length hosts) (length ports) budgets.max_total_connections)
    resolved (record { hosts = hosts; ports = ports })
