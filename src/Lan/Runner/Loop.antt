-- ===== src/Lan/Runner/Loop.antt =====
-- The rule for the probe loop of `run_lan`, and what every run of the loop keeps to.
use ianua_broker.Prelude.{
  num_Ord, text_Ord, pair_Ord, list_Ord, ℕ, ◌+◌, ◌-◌, ◌*◌, ◌≤◌, ◌<◌, String, ◌≡◌, refl, inl, inr,
  true, false, List, [], ◌∷◌, arith, Bool-cases, if_rule, num_Eq, text_Eq, pair_Eq, option_Eq,
  length, All, length-append, contains,
}
use ianua_broker.Lan.Budgets.{Budgets}
use ianua_broker.Lan.Runner.{
  World, Event, probed, slept, exposed_server, LoopState, before_loop, must_stop, halted,
  probe_once, scan_ports, scan_hosts,
}

module _ {κ μ} (world : World) (budgets : Budgets) (P : LoopState → Type κ)
    (H : String → ℕ → Type μ)
    (keep : (host : String) (port : ℕ) (st : LoopState)
      → H host port
      → st.stop ≡ false
      → must_stop world budgets st ≡ false
      → P st
      → P (probe_once world budgets host port st))
    (halt : (st : LoopState) → P st → P (halted world budgets st)) where
  pub scan_ports_rule :
      (host : String) (ports : List ℕ) (st : LoopState)
      → All (H host) ports
      → st.stop ≡ false
      → P st
      → P (scan_ports world budgets host ports st)
  unfolding scan_ports
  scan_ports_rule host [] st hs going p = p
  scan_ports_rule host (port ∷ rest) st hs going p =
      elim (Bool-cases (must_stop world budgets st)) [
        | inl e ↦ rw (e, scan_ports) (halt st p)
        | inr e ↦
            rw (e, scan_ports)
              (scan_ports_rule host rest (probe_once world budgets host port st) hs.1
                (unfold probe_once in going) (keep host port st hs.0 going e p))
      ]

  -- Whatever every probe and every halt keep is kept by the two loops.
  pub scan_hosts_rule :
      (ports : List ℕ) (hosts : List String) (st : LoopState)
      → All (λ host. All (H host) ports) hosts
      → P st
      → P (scan_hosts world budgets ports hosts st)
  unfolding scan_hosts
  scan_hosts_rule ports [] st hs p = p
  scan_hosts_rule ports (host ∷ rest) st hs p =
      if_rule P st.stop st
        (scan_hosts world budgets ports rest (scan_ports world budgets host ports st)) (λ _. p)
        λ going.
          scan_hosts_rule ports rest (scan_ports world budgets host ports st) hs.1
            (scan_ports_rule host ports st hs.0 going p)

-- The events of whole rounds, the last first: each sleep has the cooldown of the budgets and
-- follows a probe of a planned host at a planned port.
abbrev pub ArePaced : Budgets → List String → List ℕ → List Event → Type 0
ArePaced budgets hosts ports [] = Unit
ArePaced budgets hosts ports (slept t ∷ probed host port ∷ before) =
    (t ≡ budgets.per_target_cooldown)
    × (contains host hosts ≡ true)
    × (contains port ports ≡ true)
    × ArePaced budgets hosts ports before
ArePaced budgets hosts ports _ = ⊥

-- What holds of the loop's variables after any number of rounds.
pub record IsOnPlan (world : World) (budgets : Budgets) (hosts : List String) (ports : List ℕ)
    (st : LoopState) : Type 0 where
  pub within_budget : st.connections ≤ budgets.max_total_connections
  pub paced : ArePaced budgets hosts ports st.events
  pub counted : length st.events ≡ 2 * st.connections
  pub in_step : st.stop ≡ false → st.rounds ≡ st.connections
  pub servers_probed : length st.servers ≤ st.connections
  pub aborts : (n : ℕ) → world.aborted n ≡ true → st.connections ≤ n
  pub deadline :
      (n : ℕ) → budgets.max_runtime < world.clock (n + 1) - world.clock 0 → st.connections ≤ n

module _ (world : World) (budgets : Budgets) (hosts : List String) (ports : List ℕ) where
  abbrev pub IsPlanned : String → ℕ → Type 0
  IsPlanned host port = (contains host hosts ≡ true) × (contains port ports ≡ true)

  pub probe_once-IsOnPlan :
      (host : String) (port : ℕ) (st : LoopState)
      → IsPlanned host port
      → st.stop ≡ false
      → must_stop world budgets st ≡ false
      → IsOnPlan world budgets hosts ports st
      → IsOnPlan world budgets hosts ports (probe_once world budgets host port st)
  unfolding probe_once
  probe_once-IsOnPlan host port st planned going free v = record {
    within_budget = ground arith;
    paced = (refl, planned.0, planned.1, v.paced);
    counted = omega (arith, v.counted);
    in_step = λ _. omega (arith, v.in_step going);
    servers_probed = ground (
      arith,
      length-append st.servers (exposed_server (world.probe st.connections host port) ∷ []),
    );
    aborts = λ n h. ground (arith, v.aborts n h, v.in_step going);
    deadline = λ n h. ground (arith, v.deadline n h, v.in_step going);
  }

  pub halted-IsOnPlan :
      (st : LoopState)
      → IsOnPlan world budgets hosts ports st
      → IsOnPlan world budgets hosts ports (halted world budgets st)
  halted-IsOnPlan st v = record {
    within_budget = v.within_budget;
    paced = v.paced;
    counted = v.counted;
    in_step = λ h. cc;
    servers_probed = v.servers_probed;
    aborts = v.aborts;
    deadline = v.deadline;
  }

  pub before_loop-IsOnPlan : IsOnPlan world budgets hosts ports before_loop
  before_loop-IsOnPlan = record {
    within_budget = omega arith;
    paced = tt;
    counted = refl;
    in_step = λ _. refl;
    servers_probed = omega arith;
    aborts = λ n h. omega arith;
    deadline = λ n h. omega arith;
  }
