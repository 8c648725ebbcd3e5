-- ===== src/Lan/Runner/Full.antt =====
-- The probe loop when nothing stops it.
use ianua_broker.Prelude.{
  num_Ord, text_Ord, pair_Ord, list_Ord, ℕ, suc, ◌+◌, ◌-◌, ◌*◌, ◌≤◌, ◌<◌, String, ◌≡◌, refl, false,
  List, [], ◌∷◌, arith, if_rule, num_Eq, text_Eq, pair_Eq, option_Eq, length, sym, ap, ◌++◌, ◌∙◌,
  map, select, ◌&&◌, Bool-cases, if◌then◌else◌, inl, inr,
}
use mathlib.Core.List.{append-nil, append_assoc, reverse, reverse-append}
use ianua_broker.Lan.Budgets.{Budgets}
use ianua_broker.Lan.Runner.{
  World, LoopState, before_loop, must_stop, probe_once, scan_ports, scan_hosts, Event, probed,
  slept, ProbeResult, exposed_server,
}
use ianua_broker.Domain.{Server}

-- What a whole scan does, the first first: each port of each host is probed, in their order, and
-- every probe is followed by a sleep.
abbrev pub port_events : ℕ → String → List ℕ → List Event
port_events cooldown host [] = []
port_events cooldown host (port ∷ rest) =
    probed host port ∷ slept cooldown ∷ port_events cooldown host rest

abbrev pub scan_events : ℕ → List ℕ → List String → List Event
scan_events cooldown ports [] = []
scan_events cooldown ports (host ∷ rest) =
    port_events cooldown host ports ++ scan_events cooldown ports rest

-- What the prober answers, asked once for each port of each host, the n-th call first.
abbrev pub port_answers : World → ℕ → String → List ℕ → List ProbeResult
port_answers world n host [] = []
port_answers world n host (port ∷ rest) =
    world.probe n host port ∷ port_answers world (n + 1) host rest

abbrev pub scan_answers : World → ℕ → List ℕ → List String → List ProbeResult
scan_answers world n ports [] = []
scan_answers world n ports (host ∷ rest) =
    port_answers world n host ports ++ scan_answers world (n + length ports) ports rest

-- The servers reported of the answers.
abbrev pub reported : List ProbeResult → List Server
reported answers =
    map exposed_server (select (λ (r : ProbeResult). r.reachable && r.looks_like_mcp) answers)

reported-snoc :
    (answers : List ProbeResult) (r : ProbeResult)
    → (if r.reachable && r.looks_like_mcp
        then reported answers ++ exposed_server r ∷ []
        else reported answers)
      ≡ reported (answers ++ r ∷ [])
reported-snoc [] r = elim (Bool-cases (r.reachable && r.looks_like_mcp)) [
  | inl e ↦ rw e refl
  | inr e ↦ rw e refl
]
reported-snoc (first ∷ answers) r =
    let more = reported-snoc answers r in
    elim (Bool-cases (first.reachable && first.looks_like_mcp)) [
      | inl e ↦ elim (Bool-cases (r.reachable && r.looks_like_mcp)) [
        | inl q ↦ rw (e, q) (ap (λ s. exposed_server first ∷ s) (rw q at more))
        | inr q ↦ rw (e, q) (ap (λ s. exposed_server first ∷ s) (rw q at more))
      ]
      | inr e ↦ rw e more
    ]

reverse-pair :
    (done : List Event) (a b : Event) → b ∷ a ∷ reverse done ≡ reverse (done ++ a ∷ b ∷ [])
reverse-pair done a b = sym (reverse-append done (a ∷ b ∷ []))

module _ (world : World) (budgets : Budgets) (never_aborted : (n : ℕ) → world.aborted n ≡ false)
    (in_time : (n : ℕ) → world.clock (n + 1) - world.clock 0 ≤ budgets.max_runtime) where
  free_to_probe :
      (st : LoopState)
      → st.connections < budgets.max_total_connections
      → must_stop world budgets st ≡ false
  free_to_probe st h = ground (arith, never_aborted st.rounds, in_time st.rounds)

  -- Still running, with this many probes made, this done and this answered, the first first.
  record IsAt (n : ℕ) (done : List Event) (answers : List ProbeResult) (st : LoopState)
      : Type 0 where
    running : st.stop ≡ false
    count : st.connections ≡ n
    log : st.events ≡ reverse done
    found : st.servers ≡ reported answers

  probe_once-IsAt :
      (host : String) (port : ℕ) (st : LoopState) (n : ℕ) (done : List Event)
      (answers : List ProbeResult)
      → IsAt n done answers st
      → IsAt
          (n + 1)
          (done ++ probed host port ∷ slept budgets.per_target_cooldown ∷ [])
          (answers ++ world.probe n host port ∷ [])
          (probe_once world budgets host port st)
  unfolding probe_once
  probe_once-IsAt host port st n done answers at = record {
    running = at.running;
    count = omega (arith, at.count);
    log =
        ap (λ es. slept budgets.per_target_cooldown ∷ probed host port ∷ es) at.log
        ∙ reverse-pair done (probed host port) (slept budgets.per_target_cooldown);
    found = rw (at.count, at.found) (reported-snoc answers (world.probe n host port));
  }

  -- What comes after the rest of a scan, put together.
  IsAt-append :
      (n m : ℕ) (done step later : List Event) (answers first rest : List ProbeResult)
      (st : LoopState)
      → n ≡ m
      → IsAt n ((done ++ step) ++ later) ((answers ++ first) ++ rest) st
      → IsAt m (done ++ (step ++ later)) (answers ++ (first ++ rest)) st
  IsAt-append n m done step later answers first rest st e at = record {
    running = at.running;
    count = at.count ∙ e;
    log = at.log ∙ ap reverse (append_assoc done step later);
    found = at.found ∙ ap reported (append_assoc answers first rest);
  }

  IsAt-nothing :
      (n m : ℕ) (done : List Event) (answers : List ProbeResult) (st : LoopState)
      → n ≡ m
      → IsAt n done answers st
      → IsAt m (done ++ []) (answers ++ []) st
  IsAt-nothing n m done answers st e at = record {
    running = at.running;
    count = at.count ∙ e;
    log = at.log ∙ ap reverse (sym (append-nil done));
    found = at.found ∙ ap reported (sym (append-nil answers));
  }

  scan_ports-IsAt :
      (host : String) (ports : List ℕ) (st : LoopState) (n : ℕ) (done : List Event)
      (answers : List ProbeResult)
      → n + length ports ≤ budgets.max_total_connections
      → IsAt n done answers st
      → IsAt
          (n + length ports)
          (done ++ port_events budgets.per_target_cooldown host ports)
          (answers ++ port_answers world n host ports)
          (scan_ports world budgets host ports st)
  unfolding scan_ports
  scan_ports-IsAt host [] st n done answers h at =
      IsAt-nothing n (n + 0) done answers st (omega arith) at
  scan_ports-IsAt host (port ∷ rest) st n done answers h at =
      let cooldown = budgets.per_target_cooldown in
      let step = probed host port ∷ slept cooldown ∷ [] in
      let answer = world.probe n host port ∷ [] in
      if_rule
        (IsAt (n + suc (length rest)) (done ++ port_events cooldown host (port ∷ rest))
          (answers ++ port_answers world n host (port ∷ rest)))
        (must_stop world budgets st) _ _
        (λ e. absurd (cc (free_to_probe st (omega (arith, at.count)))))
        λ e.
          IsAt-append (n + 1 + length rest) (n + suc (length rest)) done step
            (port_events cooldown host rest) answers answer (port_answers world (n + 1) host rest)
            (scan_ports world budgets host rest (probe_once world budgets host port st))
            (omega arith)
            (scan_ports-IsAt host rest (probe_once world budgets host port st) (n + 1)
              (done ++ step) (answers ++ answer) (omega arith)
              (probe_once-IsAt host port st n done answers at))

  scan_hosts-IsAt :
      (ports : List ℕ) (hosts : List String) (st : LoopState) (n : ℕ) (done : List Event)
      (answers : List ProbeResult)
      → n + length hosts * length ports ≤ budgets.max_total_connections
      → IsAt n done answers st
      → IsAt
          (n + length hosts * length ports)
          (done ++ scan_events budgets.per_target_cooldown ports hosts)
          (answers ++ scan_answers world n ports hosts)
          (scan_hosts world budgets ports hosts st)
  unfolding scan_hosts
  scan_hosts-IsAt ports [] st n done answers h at =
      IsAt-nothing n (n + 0 * length ports) done answers st (omega arith) at
  scan_hosts-IsAt ports (host ∷ rest) st n done answers h at =
      let cooldown = budgets.per_target_cooldown in
      let step = port_events cooldown host ports in
      let answer = port_answers world n host ports in
      if_rule
        (IsAt (n + suc (length rest) * length ports)
          (done ++ scan_events cooldown ports (host ∷ rest))
          (answers ++ scan_answers world n ports (host ∷ rest)))
        st.stop _ _ (λ e. absurd (cc (at.running)))
        λ e.
          IsAt-append (n + length ports + length rest * length ports)
            (n + suc (length rest) * length ports) done step (scan_events cooldown ports rest)
            answers answer (scan_answers world (n + length ports) ports rest)
            (scan_hosts world budgets ports rest (scan_ports world budgets host ports st))
            (omega arith)
            (scan_hosts-IsAt ports rest (scan_ports world budgets host ports st) (n + length ports)
              (done ++ step) (answers ++ answer) (omega arith)
              (scan_ports-IsAt host ports st n done answers (omega arith) at))

  -- If the switch is never set and the deadline not passed, and the plan is within the budget for
  -- connections, as a resolved scope is, then the scan probes each port of each host of the plan,
  -- once for each place in it and in their order, sleeps for the cooldown after every probe and does
  -- nothing else; reports exactly the answers to these probes that are reachable and look like MCP,
  -- in their order; counts as many connections as there are such pairs; and is not stopped.
  pub scan_hosts_whole :
      (ports : List ℕ) (hosts : List String)
      → length hosts * length ports ≤ budgets.max_total_connections
      → ((scan_hosts world budgets ports hosts before_loop).events
          ≡ reverse (scan_events budgets.per_target_cooldown ports hosts))
        × ((scan_hosts world budgets ports hosts before_loop).servers
            ≡ reported (scan_answers world 0 ports hosts))
        × ((scan_hosts world budgets ports hosts before_loop).connections
            ≡ length hosts * length ports)
        × ((scan_hosts world budgets ports hosts before_loop).stop ≡ false)
  scan_hosts_whole ports hosts h =
      let at =
        scan_hosts-IsAt ports hosts before_loop 0 [] [] (omega arith)
          (record { running = refl; count = refl; log = refl; found = refl }) in
      (at.log, at.found, omega (arith, at.count), at.running)
