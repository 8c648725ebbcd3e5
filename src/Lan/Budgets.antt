-- ===== src/Lan/Budgets.antt =====
-- src/mcpscan/lan/budgets.py. Seconds are counted in microseconds.
use ianua_broker.Prelude.{
  num_Ord, text_Ord, pair_Ord, list_Ord, ℕ, ◌≤◌, min, max, String, ◌≡◌, inl, inr, Option, none,
  some, List, [], ◌∷◌, arith, if◌then◌else◌, Option-cases, ◌==◌, num_Eq, text_Eq, pair_Eq,
  option_Eq,
}

pub data Invoker : Type 0 where
  human agent : Invoker

pub record Budgets : Type 0 where
  pub max_hosts : ℕ
  pub max_ports_per_host : ℕ
  pub max_concurrency : ℕ
  pub max_total_connections : ℕ
  pub max_runtime : ℕ
  pub per_target_cooldown : ℕ

-- One round of the loop of `lowered`; `none` is the KeyError.
unfoldable pub lower : Budgets → String → ℕ → Option Budgets
lower b key value =
    if key == "max_hosts"
    then some (record b { max_hosts = min b.max_hosts value })
    else if key == "max_ports_per_host"
    then some (record b { max_ports_per_host = min b.max_ports_per_host value })
    else if key == "max_concurrency"
    then some (record b { max_concurrency = min b.max_concurrency value })
    else if key == "max_total_connections"
    then some (record b { max_total_connections = min b.max_total_connections value })
    else if key == "max_runtime_s"
    then some (record b { max_runtime = min b.max_runtime value })
    else if key == "per_target_cooldown_s"
    then some (record b { per_target_cooldown = max b.per_target_cooldown value })
    else none

unfoldable pub lowered : Budgets → List (String × ℕ) → Option Budgets
unfolding lower
lowered b [] = some b
lowered b ((key, value) ∷ rest) = elim (lower b key value) [
  | none ↦ none
  | some b' ↦ lowered b' rest
]

abbrev pub human_ceiling : Budgets
human_ceiling = record {
  max_hosts = 256;
  max_ports_per_host = 16;
  max_concurrency = 16;
  max_total_connections = 2048;
  max_runtime = 300_000_000;
  per_target_cooldown = 50_000;
}

abbrev pub agent_ceiling : Budgets
agent_ceiling = record {
  max_hosts = 16;
  max_ports_per_host = 8;
  max_concurrency = 4;
  max_total_connections = 64;
  max_runtime = 60_000_000;
  per_target_cooldown = 250_000;
}

unfoldable pub budgets_for_invoker : Invoker → Budgets
budgets_for_invoker agent = agent_ceiling
budgets_for_invoker human = human_ceiling

-- `a` may do no more than `b`, and paces itself no faster.
pub record AtMost (a b : Budgets) : Type 0 where
  pub hosts : a.max_hosts ≤ b.max_hosts
  pub ports : a.max_ports_per_host ≤ b.max_ports_per_host
  pub concurrency : a.max_concurrency ≤ b.max_concurrency
  pub connections : a.max_total_connections ≤ b.max_total_connections
  pub runtime : a.max_runtime ≤ b.max_runtime
  pub cooldown : b.per_target_cooldown ≤ a.per_target_cooldown

lower-AtMost :
    (b : Budgets) (key : String) (value : ℕ) {c : Budgets} → lower b key value ≡ some c → AtMost c b
unfolding lower
lower-AtMost b key value h = ground arith

-- Whatever is overridden, in whatever order and how often, no ceiling is raised and the cooldown is
-- not shortened.
pub lowered-AtMost :
    (b : Budgets) (overrides : List (String × ℕ)) {c : Budgets}
    → lowered b overrides ≡ some c
    → AtMost c b
unfolding lowered
lowered-AtMost b [] h = ground arith
lowered-AtMost b ((key, value) ∷ rest) {c} h = elim (Option-cases (lower b key value)) [
  | inl e ↦ absurd (cc)
  | inr (b', e) ↦
      let h' : lowered b' rest ≡ some c = rw (e, lowered) at h in
      let one : AtMost b' b = lower-AtMost b key value e in
      let more : AtMost c b' = lowered-AtMost b' rest h' in omega arith
]

pub budgets_for_invoker-AtMost :
    (invoker : Invoker)
    → AtMost (budgets_for_invoker agent) (budgets_for_invoker invoker)
      × AtMost (budgets_for_invoker invoker) (budgets_for_invoker human)
unfolding budgets_for_invoker
budgets_for_invoker-AtMost human = (omega arith, omega arith)
budgets_for_invoker-AtMost agent = (omega arith, omega arith)
