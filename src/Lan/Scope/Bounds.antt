-- ===== src/Lan/Scope/Bounds.antt =====
-- The budgets on what `resolve_scope` returns, and which hosts it returns.
use ianua_broker.Prelude.{
  num_Ord, text_Ord, pair_Ord, list_Ord, ℕ, ◌*◌, ◌≤◌, String, ◌≡◌, refl, subst, inl, inr, false,
  not, ◌||◌, Option, none, some, List, [], ◌∷◌, ◌++◌, arith, ltb, leb, if◌then◌else◌, leb→le,
  ltb_false→le, Bool-cases, ◌==◌, num_Eq, text_Eq, pair_Eq, option_Eq, length, any, all, is_empty,
  All, contains, contains-append, NoRepeats,
}
use ianua_broker.Lan.Platform.{Platform}
use ianua_broker.Lan.Budgets.{Invoker, Budgets}
use ianua_broker.Lan.Manifest.{Manifest}
use ianua_broker.Lan.Scope.Target.{Admitted, target_hosts-Admitted}
use ianua_broker.Lan.Scope.{
  too_many_hosts, ResolvedScope, resolved, add_hosts, expanded, target_hosts, resolve_targets,
  resolve_scope,
}
use ianua_broker.Lan.Scope.Rules.{
  OnResolved, OnResolved-bind, OnResolved-require, OnResolved-refuse_if, OnResolved-map,
}

-- The hosts collected so far are within the budget and without repetition.
pub record IsCollected (max_hosts : ℕ) (hosts : List String) : Type 0 where
  pub few : length hosts ≤ max_hosts
  pub distinct : NoRepeats hosts

NoRepeats-append_one :
    (x : String) (xs : List String)
    → contains x xs ≡ false
    → NoRepeats xs
    → NoRepeats (xs ++ x ∷ [])
NoRepeats-append_one x [] h d = (refl, tt)
NoRepeats-append_one x (y ∷ ys) h d = (
  ground (arith, contains-append y ys (x ∷ []), text_Eq.beq_iff y x, text_Eq.beq_iff x y),
  NoRepeats-append_one x ys (ground arith) d.1,
)

abbrev with_host : List String → String → List String
with_host hosts host = if contains host hosts then hosts else hosts ++ host ∷ []

NoRepeats-with_host :
    (hosts : List String) (host : String) → NoRepeats hosts → NoRepeats (with_host hosts host)
NoRepeats-with_host hosts host d = elim (Bool-cases (contains host hosts)) [
  | inl e ↦ rw e d
  | inr e ↦ rw e (NoRepeats-append_one host hosts e d)
]

contains-with_host :
    (h : String) (hosts : List String) (host : String)
    → contains h (with_host hosts host) ≡ (contains h hosts || host == h)
contains-with_host h hosts host = elim (Bool-cases (contains host hosts)) [
  | inl e ↦ rw e (ground (arith, text_Eq.beq_iff host h))
  | inr e ↦ rw (e, contains-append) (ground arith)
]

-- What one target adds: the union, still without repetition and within the budget.
abbrev Added : ℕ → List String → List String → List String → Type 0
Added max_hosts hosts own all =
    IsCollected max_hosts all
    × ((h : String) → contains h all ≡ (contains h hosts || contains h own))

add_hosts-Added :
    (max_hosts : ℕ) (hosts own : List String)
    → IsCollected max_hosts hosts
    → OnResolved (Added max_hosts hosts own) (add_hosts max_hosts hosts own)
unfolding add_hosts
add_hosts-Added max_hosts hosts [] c = (c, λ h. ground arith)
add_hosts-Added max_hosts hosts (host ∷ rest) c =
    OnResolved-refuse_if (Added max_hosts hosts (host ∷ rest))
      (ltb max_hosts (length (with_host hosts host))) (too_many_hosts max_hosts)
      (add_hosts max_hosts (with_host hosts host) rest)
      λ fits.
        OnResolved-map (Added max_hosts (with_host hosts host) rest)
          (Added max_hosts hosts (host ∷ rest)) (add_hosts max_hosts (with_host hosts host) rest)
          (add_hosts-Added max_hosts (with_host hosts host) rest (record {
            few = ltb_false→le max_hosts (length (with_host hosts host)) fits;
            distinct = NoRepeats-with_host hosts host c.distinct;
          }))
          λ all added.
            (added.0, λ h. rw (added.1 h) (ground (arith, contains-with_host h hosts host)))

module _ (py : Platform) (invoker : Invoker) (budgets : Budgets)
    (allowlist : Option (List String)) where
  -- The hosts that a target's text stands for.
  abbrev pub hosts_named : String → List String
  hosts_named target = elim (py.ip_network target) [ none ↦ [] | some net ↦ expanded py net ]

  abbrev Fits : String → List String → Type 0
  Fits = Admitted py invoker budgets allowlist

  Admitted-hosts_named :
      (target : String) {own : List String} → Fits target own → own ≡ hosts_named target
  Admitted-hosts_named target a = rw (a.parsed, hosts_named) a.hosts

  -- What the targets from here on add, and that each of them was admitted.
  abbrev Collected : List String → List String → List String → Type 0
  Collected hosts targets all =
      IsCollected budgets.max_hosts all
      × ((h : String)
          → contains h all ≡ (contains h hosts || any (λ t. contains h (hosts_named t)) targets))
      × All (λ t. Fits t (hosts_named t)) targets

  resolve_targets-Collected :
      (hosts targets : List String)
      → IsCollected budgets.max_hosts hosts
      → OnResolved
          (Collected hosts targets)
          (resolve_targets py invoker budgets allowlist hosts targets)
  unfolding resolve_targets
  resolve_targets-Collected hosts [] c = (c, λ h. ground arith, tt)
  resolve_targets-Collected hosts (target ∷ rest) c =
      OnResolved-bind (Fits target) (Collected hosts (target ∷ rest))
        (target_hosts py invoker budgets allowlist target) _
        (target_hosts-Admitted py invoker budgets allowlist target)
        λ own fits.
          OnResolved-bind (Added budgets.max_hosts hosts own) (Collected hosts (target ∷ rest))
            (add_hosts budgets.max_hosts hosts own) _
            (add_hosts-Added budgets.max_hosts hosts own c)
            λ hosts' added.
              OnResolved-map (Collected hosts' rest) (Collected hosts (target ∷ rest))
                (resolve_targets py invoker budgets allowlist hosts' rest)
                (resolve_targets-Collected hosts' rest added.0)
                λ all more.
                  let named = Admitted-hosts_named target fits in
                  (
                    more.0,
                    λ h. rw (more.1 h, added.1 h, ← named) (ground arith),
                    (subst (Fits target) named fits, more.2),
                  )

  -- What a resolved scope promises about the manifest it was resolved from.
  pub record IsWithin (manifest : Manifest) (scope : ResolvedScope) : Type 0 where
    pub ports_kept : scope.ports ≡ manifest.ports
    pub few_ports : length scope.ports ≤ budgets.max_ports_per_host
    pub some_hosts : is_empty scope.hosts ≡ false
    pub few_hosts : length scope.hosts ≤ budgets.max_hosts
    pub distinct : NoRepeats scope.hosts
    pub few_probes : length scope.hosts * length scope.ports ≤ budgets.max_total_connections
    pub hosts_exactly :
        (h : String)
        → contains h scope.hosts ≡ any (λ t. contains h (hosts_named t)) manifest.targets
    pub targets_admitted : All (λ t. Fits t (hosts_named t)) manifest.targets

  resolve_scope-OnResolved :
      (manifest : Manifest)
      → OnResolved (IsWithin manifest) (resolve_scope py invoker budgets allowlist manifest)
  unfolding resolve_scope
  resolve_scope-OnResolved manifest =
      OnResolved-require (IsWithin manifest)
        (leb (length manifest.ports) budgets.max_ports_per_host) _ _
        λ ports.
          OnResolved-bind (Collected [] manifest.targets) (IsWithin manifest)
            (resolve_targets py invoker budgets allowlist [] manifest.targets) _
            (resolve_targets-Collected [] manifest.targets (omega arith))
            λ hosts all. OnResolved-require (IsWithin manifest) (not (is_empty hosts)) _ _ λ given.
              OnResolved-require (IsWithin manifest)
                (leb (length hosts * length manifest.ports) budgets.max_total_connections) _ _
                λ probes. record {
                  ports_kept = refl;
                  few_ports = leb→le (length manifest.ports) budgets.max_ports_per_host ports;
                  some_hosts = ground arith;
                  few_hosts = all.0.few;
                  distinct = all.0.distinct;
                  few_probes =
                      leb→le (length hosts * length manifest.ports) budgets.max_total_connections
                        probes;
                  hosts_exactly = all.1;
                  targets_admitted = all.2;
                }

  -- A scope that is resolved keeps the manifest's ports, is within the budgets for ports, hosts and
  -- probes, has at least one host and none twice, holds exactly the hosts that the targets stand
  -- for, and every target is a network that is private or in the allow-list and, for an agent, a
  -- single address.
  pub resolve_scope-IsWithin :
      (manifest : Manifest) (scope : ResolvedScope)
      → resolve_scope py invoker budgets allowlist manifest ≡ resolved scope
      → IsWithin manifest scope
  resolve_scope-IsWithin manifest scope h =
      subst (OnResolved (IsWithin manifest)) h (resolve_scope-OnResolved manifest)
