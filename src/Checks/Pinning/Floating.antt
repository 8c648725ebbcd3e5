-- ===== src/Checks/Pinning/Floating.antt =====
-- src/mcpscan/checks/pinning.py: the check for floating versions, its two patterns searched by hand.
use ianua_broker.Domain.{pinning, medium, Finding}
use ianua_broker.Prelude.{
  num_Ord, text_Ord, pair_Ord, list_Ord, false, none, [], ◌∷◌, text_Eq, num_Eq, pair_Eq, option_Eq,
  list_Eq, String, concat, starts_with, Bool, remove_prefix, List, code, if◌then◌else◌, ◌&&◌, ◌||◌,
  not, any, contains, is_empty,
}
use ianua_broker.Checks.Pinning.{CharClasses, base_name, has_digit, package_args, floating_runners}
use ianua_broker.Checks.ToolScope.{ServerDecl}

module _ (chars : CharClasses) where
  -- `@\d|@latest|==|@[~^]?\d` at the start of a text
  unfoldable pub versioned_here : String → Bool
  unfolding starts_with remove_prefix
  versioned_here s =
      let after = remove_prefix s "@" in
      starts_with s "=="
      || starts_with s "@latest"
      || (starts_with s "@"
          && (has_digit chars after
              || (starts_with after "~" && has_digit chars (remove_prefix after "~"))
              || (starts_with after "^" && has_digit chars (remove_prefix after "^"))))

  abbrev pub starts_with_word : String → Bool
  starts_with_word String.[] = false
  starts_with_word (String.◌∷◌ c s) = chars.is_word (code c)

  -- `@latest\b` at the start of a text
  unfoldable pub latest_here : String → Bool
  unfolding starts_with remove_prefix
  latest_here s = starts_with s "@latest" && not (starts_with_word (remove_prefix s "@latest"))

  -- `pattern.search(s)`
  unfoldable pub search_text : (String → Bool) → String → Bool
  search_text here String.[] = here ""
  search_text here (String.◌∷◌ c s) = here (String.◌∷◌ c s) || search_text here s

  abbrev pub is_versioned : String → Bool
  is_versioned arg = search_text versioned_here arg

  abbrev pub is_latest : String → Bool
  is_latest arg = search_text latest_here arg

  unfoldable pub unpinned_finding :
      (String → String) → ServerDecl → String → String → Bool → Finding
  unfolding concat
  unpinned_finding repr server command config_path uses_latest = record {
    id = "PIN-UNPINNED";
    dimension = pinning;
    severity = medium;
    title =
        (if uses_latest
          then concat ("Server " ∷ repr server.name ∷ " pinned to a floating tag (@latest)" ∷ [])
          else concat
              ("Server " ∷ repr server.name ∷ " runs an unpinned package via " ∷ command ∷ []));
    location = record { path = config_path; line = none };
    remediation = concat (
        "Pin the package to an exact version (e.g. " ∷ command
        ∷ " some-pkg@1.2.3) so the running code can't change silently." ∷ []);
    rationale =
        "An unpinned/floating package fetches new code on each run — a supply-chain and reproducibility risk.";
    secret = none;
    acceptance = none;
  }

  unfoldable pub check_server_pinning : (String → String) → ServerDecl → String → List Finding
  unfolding base_name starts_with search_text versioned_here latest_here unpinned_finding
  check_server_pinning repr server config_path =
      let command = base_name server.command in
      let packages = package_args server.args in
      let pinned = any (λ a. is_versioned a && not (is_latest a)) packages in
      let uses_latest = any is_latest packages in
      if not (contains command floating_runners) || is_empty packages
      then []
      else if pinned && not uses_latest
      then []
      else unpinned_finding repr server command config_path uses_latest ∷ []
