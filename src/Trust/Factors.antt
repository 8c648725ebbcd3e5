-- ===== src/Trust/Factors.antt =====
-- src/mcpscan/trust/analyze.py: the five factors of a server. The checks of credentials and of
-- pinning (src/mcpscan/checks/secrets.py and src/mcpscan/checks/pinning.py), the upper case of a
-- text and the reading of an address are the parameters of `ServerChecks`.
use ianua_broker.Prelude.{
  num_Ord, text_Ord, pair_Ord, list_Ord, num_Eq, text_Eq, pair_Eq, option_Eq, list_Eq, Bool, List,
  Option, String, concat, ℕ, decimal, false, min, none, some, ◌∷◌, [], if◌then◌else◌, length,
  select, true, ◌++◌, contains, is_empty, ltb, map, not, num_eq, ◌+◌, code, ◌&&◌, ◌||◌, ◌-◌, ◌*◌,
}
use ianua_broker.Checks.ToolScope.{ServerDecl, is_dangerous_tool, has_broad_wildcard}
use ianua_broker.Discovery.Reach.{
  ReachTier, classify_reachability, Address, loopback, private_lan, public_routable, wildcard,
}
use ianua_broker.Trust.Model.{
  FactorScore, exposure_reach, autonomy, code_provenance, secret_access, tool_privilege,
}
use ianua_broker.Domain.{Finding}

pub record ServerChecks : Type 0 where
  pub ip_address : String → Option Address
  pub upper : String → String
  pub check_server_env : ServerDecl → String → List Finding
  pub check_server_pinning : ServerDecl → String → List Finding

abbrev pub secret_cap : ℕ
secret_cap = 40

abbrev pub privilege_cap : ℕ
privilege_cap = 40

abbrev pub bind_flags : List String
bind_flags = "--host" ∷ "--bind" ∷ "--address" ∷ []

abbrev pub bind_keys : List String
bind_keys = "HOST" ∷ "BIND" ∷ "BIND_ADDRESS" ∷ "ADDRESS" ∷ []

abbrev pub wildcard_tokens : List String
wildcard_tokens = "0.0.0.0" ∷ "::" ∷ []

-- `_REACH_RANK`
unfoldable pub reach_rank : ReachTier → ℕ
reach_rank loopback = 0
reach_rank private_lan = 1
reach_rank public_routable = 2
reach_rank wildcard = 3

-- arg.partition("="), without the separator when there is one
unfoldable pub partition_equals : String → Option (String × String)
partition_equals String.[] = none
partition_equals (String.◌∷◌ c s) =
    let rest = partition_equals s in
    if num_eq (code c) b'='
    then some ("", s)
    else elim rest [ none ↦ none | some (key, inline) ↦ some (String.◌∷◌ c key, inline) ]

unfoldable pub privilege_risk : Bool → Bool → ℕ
privilege_risk dangerous wild =
    min ((if dangerous then 25 else 0) + (if wild then 20 else 0)) privilege_cap

unfoldable pub privilege_detail : List String → List String → String
unfolding concat decimal
privilege_detail dangerous wild =
    let danger = concat (decimal (length dangerous) ∷ " dangerous tool(s)" ∷ []) in
    let grants = concat (decimal (length wild) ∷ " wildcard grant(s)" ∷ []) in
    concat (
      "auto-approves "
      ∷ (if is_empty dangerous
          then grants
          else if is_empty wild
          then danger
          else concat (danger ∷ " and " ∷ grants ∷ []))
      ∷ [])

unfoldable pub privilege_factor : ServerDecl → FactorScore
unfolding privilege_risk privilege_detail is_dangerous_tool has_broad_wildcard
privilege_factor server =
    let dangerous = select is_dangerous_tool server.auto_approve in
    let wild = select has_broad_wildcard server.auto_approve in
    let risk = privilege_risk (not (is_empty dangerous)) (not (is_empty wild)) in
    record {
      factor = tool_privilege;
      risk = risk;
      detail =
          if num_eq risk 0
          then "no dangerous or wildcard tool grants"
          else privilege_detail dangerous wild;
    }

unfoldable pub autonomy_factor : ServerDecl → FactorScore
unfolding concat decimal
autonomy_factor server =
    if is_empty server.auto_approve
    then record { factor = autonomy; risk = 0; detail = "every tool call needs approval" }
    else record {
      factor = autonomy;
      risk = 15;
      detail = concat (
          "auto-approves "
          ∷ decimal (length server.auto_approve)
          ∷ " tool(s) with no human in the loop"
          ∷ []);
    }

unfoldable pub keep_wider : Option ReachTier → ReachTier → Option ReachTier
unfolding reach_rank
keep_wider best loopback = best
keep_wider none tier = some tier
keep_wider (some held) tier =
    if ltb (reach_rank held) (reach_rank tier) then some tier else some held

unfoldable pub reach_of : Option ReachTier → FactorScore
reach_of none = record {
  factor = exposure_reach;
  risk = 0;
  detail = "no network-reachable bind hint";
}
reach_of (some private_lan) = record {
  factor = exposure_reach;
  risk = 10;
  detail = "binds to a private-LAN address (reachable on the local network)";
}
reach_of (some tier) = record {
  factor = exposure_reach;
  risk = 20;
  detail = "binds to a wildcard / public address (reachable from any network)";
}

module _ (checks : ServerChecks) where
  unfoldable pub secret_factor : ServerDecl → String → FactorScore
  unfolding concat decimal
  secret_factor server path =
      let n = length (checks.check_server_env server path) in
      if num_eq n 0
      then record { factor = secret_access; risk = 0; detail = "no credentials in its environment" }
      else record {
        factor = secret_access;
        risk = min (25 + (n - 1) * 5) secret_cap;
        detail = concat (
            "holds "
            ∷ decimal n
            ∷ " "
            ∷ (if num_eq n 1 then "credential" else "credentials")
            ∷ " in its environment"
            ∷ []);
      }

  unfoldable pub provenance_factor : ServerDecl → String → FactorScore
  provenance_factor server path =
      if is_empty (checks.check_server_pinning server path)
      then record { factor = code_provenance; risk = 0; detail = "runs a pinned or local command" }
      else record {
        factor = code_provenance;
        risk = 10;
        detail = "runs an unpinned / remotely-fetched package";
      }

  -- `sep and (key in _BIND_FLAGS or key.upper() in _BIND_KEYS)`, and then the inline value
  unfoldable pub inline_value : String → Option String
  unfolding partition_equals
  inline_value arg = elim (partition_equals arg) [
    | none ↦ none
    | some (key, inline) ↦
        if contains key bind_flags || contains (checks.upper key) bind_keys
        then some inline
        else none
  ]

  -- The loop over the arguments. A flag takes the argument after it; `after_flag` says that the
  -- next one is taken.
  unfoldable pub arg_values : Bool → List String → List String
  unfolding inline_value
  arg_values after_flag [] = []
  arg_values true (arg ∷ rest) = arg ∷ arg_values false rest
  arg_values false (arg ∷ rest) =
      let skipping = arg_values true rest in
      let going_on = arg_values false rest in
      elim (inline_value arg) [
        | some inline ↦ inline ∷ going_on
        | none ↦
            if contains arg bind_flags && not (is_empty rest)
            then skipping
            else if contains arg wildcard_tokens
            then arg ∷ going_on
            else going_on
      ]

  unfoldable pub bind_candidates : ServerDecl → List String
  unfolding arg_values
  bind_candidates server =
      arg_values false server.args
      ++ map (λ (p : String × String). p.1)
          (select (λ (p : String × String). contains (checks.upper p.0) bind_keys) server.env)

  unfoldable pub widest : Option ReachTier → List String → Option ReachTier
  unfolding keep_wider classify_reachability
  widest best [] = best
  widest best (value ∷ rest) =
      widest (keep_wider best (classify_reachability checks.ip_address value)) rest

  unfoldable pub bind_hint : ServerDecl → Option ReachTier
  unfolding widest bind_candidates
  bind_hint server = widest none (bind_candidates server)

  unfoldable pub reach_factor : ServerDecl → FactorScore
  unfolding bind_hint reach_of
  reach_factor server = reach_of (bind_hint server)
