-- ===== src/Checks/ToolScope.antt =====
-- src/mcpscan/checks/tool_scope.py, and the dataclass ServerDecl of src/mcpscan/adapters/base.py.
-- The two regular expressions are searched by hand. `repr`, which quotes an entry in a title, is a
-- parameter.
pub mod Findings
use ianua_broker.Prelude.{
  num_Ord, text_Ord, pair_Ord, list_Ord, num_Eq, text_Eq, pair_Eq, option_Eq, list_Eq, Bool, List,
  String, ℕ, Option, any, codes, contains, if◌then◌else◌, true, ◌∷◌, [], false, leb, map, not, ◌++◌,
  ◌||◌, concat, num_eq, ◌&&◌, none, ◌+◌,
}
use ianua_broker.Domain.{Finding, tool_scope, high, medium}

pub record ServerDecl : Type 0 where
  pub name : String
  pub command : Option String
  pub args : List String
  pub env : List (String × String)
  pub auto_approve : List String

-- IGNORECASE: capitals, and the long s, which the engine takes for an s.
unfoldable pub fold_case : ℕ → ℕ
fold_case c = if leb b'A' c && leb c b'Z' then c + 32 else if num_eq c 0x17f then b's' else c

-- The text begins with the code points.
unfoldable pub begins_with : List ℕ → List ℕ → Bool
begins_with text [] = true
begins_with [] (d ∷ ds) = false
begins_with (c ∷ cs) (d ∷ ds) = num_eq c d && begins_with cs ds

-- re.search of a fixed word
unfoldable pub has_word : List ℕ → List ℕ → Bool
unfolding begins_with
has_word word [] = begins_with [] word
has_word word (c ∷ cs) = begins_with (c ∷ cs) word || has_word word cs

-- The alternatives of `_DANGEROUS`, with the four forms of `run[_-]?command`.
abbrev pub dangerous_words : List (List ℕ)
dangerous_words =
    codes "bash"
    ∷ codes "sh"
    ∷ codes "shell"
    ∷ codes "exec"
    ∷ codes "execute"
    ∷ codes "runcommand"
    ∷ codes "run_command"
    ∷ codes "run-command"
    ∷ codes "command"
    ∷ codes "subprocess"
    ∷ codes "eval"
    ∷ codes "os."
    ∷ []

unfoldable pub is_dangerous_tool : String → Bool
unfolding has_word fold_case
is_dangerous_tool token = any (λ word. has_word word (map fold_case (codes token))) dangerous_words

-- `_PARENS.sub("", entry)`: a "(" opens a group only if a ")" follows somewhere. `inside` says that
-- a group is open.
unfoldable pub outside_parens : Bool → List ℕ → List ℕ
outside_parens inside [] = []
outside_parens true (c ∷ rest) = outside_parens (not (num_eq c b')')) rest
outside_parens false (c ∷ rest) =
    let skipped = outside_parens true rest in
    let kept = outside_parens false rest in
    if num_eq c b'(' && contains b')' rest then skipped else c ∷ kept

unfoldable pub has_broad_wildcard : String → Bool
unfolding outside_parens
has_broad_wildcard entry = contains b'*' (outside_parens false (codes entry))

module _ (repr : String → String) where
  unfoldable pub dangerous_allow : String → String → Finding
  dangerous_allow entry config_path = record {
    id = "SCOPE-DANGEROUS-ALLOW";
    dimension = tool_scope;
    severity = high;
    title = concat ("Dangerous tool auto-allowed: " ∷ repr entry ∷ []);
    location = record { path = config_path; line = none };
    remediation =
        "Remove the blanket allow for shell/exec-class tools; require interactive approval, or scope to specific safe commands.";
    rationale = "Auto-approved command execution is a full RCE primitive.";
    secret = none;
    acceptance = none;
  }

  unfoldable pub wildcard_allow : String → String → Finding
  wildcard_allow entry config_path = record {
    id = "SCOPE-WILDCARD";
    dimension = tool_scope;
    severity = medium;
    title = concat ("Wildcard permission grant: " ∷ repr entry ∷ []);
    location = record { path = config_path; line = none };
    remediation = "Replace the wildcard with an explicit allow-list.";
    rationale = "Wildcards grant more tool access than is needed.";
    secret = none;
    acceptance = none;
  }

  unfoldable pub dangerous_autoapprove : String → String → String → Finding
  dangerous_autoapprove name entry config_path = record {
    id = "SCOPE-DANGEROUS-AUTOAPPROVE";
    dimension = tool_scope;
    severity = high;
    title = concat ("Server " ∷ repr name ∷ " auto-approves dangerous tool " ∷ repr entry ∷ []);
    location = record { path = config_path; line = none };
    remediation = "Remove dangerous tools from autoApprove.";
    rationale = "Auto-approval removes the human check on risky tools.";
    secret = none;
    acceptance = none;
  }

  unfoldable pub wildcard_autoapprove : String → String → String → Finding
  wildcard_autoapprove name entry config_path = record {
    id = "SCOPE-AUTOAPPROVE-WILDCARD";
    dimension = tool_scope;
    severity = medium;
    title = concat ("Server " ∷ repr name ∷ " auto-approves wildcard " ∷ repr entry ∷ []);
    location = record { path = config_path; line = none };
    remediation = "Replace the wildcard with explicit tool names.";
    rationale = "Wildcard auto-approval grants broad unattended access.";
    secret = none;
    acceptance = none;
  }

  -- The findings of one entry.
  abbrev pub entry_findings : String → Finding → Finding → List Finding
  entry_findings entry dangerous wildcard =
      if is_dangerous_tool entry
      then dangerous ∷ []
      else if has_broad_wildcard entry
      then wildcard ∷ []
      else []

  unfoldable pub check_permissions : List String → String → List Finding
  unfolding is_dangerous_tool has_broad_wildcard dangerous_allow wildcard_allow
  check_permissions [] config_path = []
  check_permissions (entry ∷ rest) config_path =
      entry_findings entry (dangerous_allow entry config_path) (wildcard_allow entry config_path)
      ++ check_permissions rest config_path

  unfoldable pub auto_approve_findings : String → List String → String → List Finding
  unfolding is_dangerous_tool has_broad_wildcard dangerous_autoapprove wildcard_autoapprove
  auto_approve_findings name [] config_path = []
  auto_approve_findings name (entry ∷ rest) config_path =
      entry_findings entry (dangerous_autoapprove name entry config_path)
        (wildcard_autoapprove name entry config_path)
      ++ auto_approve_findings name rest config_path

  unfoldable pub check_server_auto_approve : ServerDecl → String → List Finding
  unfolding auto_approve_findings
  check_server_auto_approve server config_path =
      auto_approve_findings server.name server.auto_approve config_path
