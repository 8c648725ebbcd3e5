-- ===== src/Lan/Runner/Gates.antt =====
-- What must hold before a LAN run sends anything, what a run does then, and how it is graded.
use ianua_broker.Prelude.{
  num_Ord, text_Ord, pair_Ord, list_Ord, ℕ, ◌*◌, ◌≤◌, String, ◌≡◌, refl, true, false, List, [],
  arith, if_rule, num_Eq, text_Eq, pair_Eq, option_Eq, length, is_empty, All-map_pred, All-contains,
}
use ianua_broker.Lan.Platform.{Platform}
use ianua_broker.Lan.Budgets.{Budgets, budgets_for_invoker}
use ianua_broker.Lan.Manifest.{Loaded, loaded, invalid, raised, Manifest, is_expired, load_manifest}
use ianua_broker.Lan.Scope.{Scoped, resolved, refused, value_error, ResolvedScope, resolve_scope}
use ianua_broker.Lan.Verify.{Tools, VerifyResult, verify_manifest}
use ianua_broker.Lan.Audit.{Results}
use ianua_broker.Lan.Runner.{
  World, Event, before_loop, scan_hosts, Request, Ending, refusal, overflow, allowlist_error,
  out_of_scope, invalid_manifest, run_scope, run_verified, run_loaded, run_lan,
}
use ianua_broker.Lan.Runner.Loop.{
  scan_hosts_rule, ArePaced, IsOnPlan, IsPlanned, probe_once-IsOnPlan, halted-IsOnPlan,
  before_loop-IsOnPlan,
}

scan_hosts-IsOnPlan :
    (world : World) (budgets : Budgets) (hosts : List String) (ports : List ℕ)
    → IsOnPlan world budgets hosts ports (scan_hosts world budgets ports hosts before_loop)
scan_hosts-IsOnPlan world budgets hosts ports =
    scan_hosts_rule world budgets (IsOnPlan world budgets hosts ports)
      (IsPlanned world budgets hosts ports) (probe_once-IsOnPlan world budgets hosts ports)
      (halted-IsOnPlan world budgets hosts ports) ports hosts before_loop
      (All-map_pred hosts (λ host h. All-map_pred ports (λ port p. (h, p)) (All-contains ports))
        (All-contains hosts))
      (before_loop-IsOnPlan world budgets hosts ports)

module _ (py : Platform) (tools : Tools) (digest_payload : Results → String) (world : World)
    (request : Request) where
  abbrev budgets : Budgets
  budgets = budgets_for_invoker request.invoker

  -- Every gate that the run passed, and that it kept to the plan that came out of them.
  pub record IsAuthorized (events : List Event) : Type 0 where
    pub manifest : Manifest
    pub was_loaded : load_manifest py request.manifest_bytes ≡ loaded manifest
    pub in_time : is_expired manifest request.now ≡ false
    pub was_verified :
        (verify_manifest tools request.verifier manifest.signature_scheme request.manifest_bytes
          request.signature_path request.allowed_signers manifest.operator).verified
        ≡ true
    pub scope : ResolvedScope
    pub was_resolved :
        resolve_scope py request.invoker budgets request.public_allowlist manifest ≡ resolved scope
    pub not_dry : request.dry_run ≡ false
    pub on_plan : ArePaced budgets scope.hosts scope.ports events
    pub within_budget : length events ≤ 2 * budgets.max_total_connections

  abbrev IsSafe : Ending × List Event → Type 0
  IsSafe r = is_empty r.1 ≡ false → IsAuthorized r.1

  silent : (e : Ending) → IsSafe (e, [])
  silent e h = absurd (cc)

  abbrev verdict : Manifest → VerifyResult
  verdict manifest =
      verify_manifest tools request.verifier manifest.signature_scheme request.manifest_bytes
        request.signature_path request.allowed_signers manifest.operator

  module _ (manifest : Manifest)
      (was_loaded : load_manifest py request.manifest_bytes ≡ loaded manifest)
      (in_time : is_expired manifest request.now ≡ false) where
    run_scope-IsSafe :
        (scope : ResolvedScope)
        → (verdict manifest).verified ≡ true
        → resolve_scope py request.invoker budgets request.public_allowlist manifest
          ≡ resolved scope
        → IsSafe (run_scope py tools digest_payload world request manifest scope)
    unfolding run_scope
    run_scope-IsSafe scope was_verified was_resolved =
        let v = scan_hosts-IsOnPlan world budgets scope.hosts scope.ports in
        if_rule IsSafe request.dry_run _ _ (λ _ h. absurd (cc))
          λ not_dry sent. record {
            manifest = manifest;
            was_loaded = was_loaded;
            in_time = in_time;
            was_verified = was_verified;
            scope = scope;
            was_resolved = was_resolved;
            not_dry = not_dry;
            on_plan = v.paced;
            within_budget = omega (arith, v.counted, v.within_budget);
          }

    run_verified-IsSafe :
        (verdict manifest).verified ≡ true
        → IsSafe (run_verified py tools digest_payload world request manifest)
    unfolding run_verified
    run_verified-IsSafe was_verified =
        go (resolve_scope py request.invoker budgets request.public_allowlist manifest) refl
      where
        go :
            (r : Scoped ResolvedScope)
            → resolve_scope py request.invoker budgets request.public_allowlist manifest ≡ r
            → IsSafe (elim r [
              | refused e ↦ (refusal (out_of_scope e), [])
              | value_error entry ↦ (allowlist_error entry, [])
              | resolved scope ↦ run_scope py tools digest_payload world request manifest scope
            ])
        go (refused e) q = silent (refusal (out_of_scope e))
        go (value_error entry) q = silent (allowlist_error entry)
        go (resolved scope) q = run_scope-IsSafe scope was_verified q

  run_loaded-IsSafe :
      (manifest : Manifest)
      → load_manifest py request.manifest_bytes ≡ loaded manifest
      → IsSafe (run_loaded py tools digest_payload world request manifest)
  unfolding run_loaded
  run_loaded-IsSafe manifest was_loaded =
      if_rule IsSafe (is_expired manifest request.now) _ _ (λ _ h. absurd (cc))
        λ in_time.
          if_rule IsSafe ((verdict manifest).verified) _ _
            (run_verified-IsSafe manifest was_loaded in_time) (λ _ h. absurd (cc))

  -- A run that did anything on the network had a manifest that was loaded, had not expired, was
  -- verified and resolved to a scope, and was no dry run; every probe was of a host and a port of
  -- that scope and was followed by the cooldown of the invoker's budgets, and there were no more
  -- probes than these allow.
  pub run_lan-IsAuthorized :
      is_empty (run_lan py tools digest_payload world request).1 ≡ false
      → IsAuthorized (run_lan py tools digest_payload world request).1
  unfolding run_lan
  run_lan-IsAuthorized = go (load_manifest py request.manifest_bytes) refl
    where
      go :
          (r : Loaded Manifest)
          → load_manifest py request.manifest_bytes ≡ r
          → IsSafe (elim r [
            | invalid e ↦ (refusal (invalid_manifest e), [])
            | raised ↦ (overflow, [])
            | loaded manifest ↦ run_loaded py tools digest_payload world request manifest
          ])
      go (invalid e) q = silent (refusal (invalid_manifest e))
      go raised q = silent overflow
      go (loaded manifest) q = run_loaded-IsSafe manifest q
