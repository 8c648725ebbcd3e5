-- ===== src/Checks/ToolScope/Findings.antt =====
-- Which findings the entries of a permission list give.
use ianua_broker.Prelude.{
  num_Ord, text_Ord, pair_Ord, list_Ord, refl, inl, inr, [], ◌∷◌, text_Eq, num_Eq, pair_Eq,
  option_Eq, list_Eq, String, Bool, List, ◌||◌, ◌≡◌, if◌then◌else◌, select, Bool-cases, map, concat,
  ◌++◌,
}
use ianua_broker.Domain.{Finding, Severity, high, medium}
use ianua_broker.Checks.ToolScope.{
  ServerDecl, is_dangerous_tool, check_permissions, entry_findings, has_broad_wildcard,
  check_server_auto_approve, auto_approve_findings, dangerous_allow, wildcard_allow,
  dangerous_autoapprove, wildcard_autoapprove,
}

-- What is reported at all.
abbrev pub is_reported : String → Bool
is_reported entry = is_dangerous_tool entry || has_broad_wildcard entry

-- What the report shows of a finding: its id, severity, title and path.
abbrev pub Shown : Type 0
Shown = String × Severity × String × String

abbrev pub shown : Finding → Shown
shown f = (f.id, f.severity, f.title, f.location.path)

-- What is to be shown of an entry of a list of permissions, and of one that a server approves by
-- itself: an entry that is both dangerous and broad is shown as dangerous.
abbrev pub shown_permission : (String → String) → String → String → Shown
shown_permission repr path entry =
    if is_dangerous_tool entry
    then (
      "SCOPE-DANGEROUS-ALLOW",
      high,
      concat ("Dangerous tool auto-allowed: " ∷ repr entry ∷ []),
      path,
    )
    else ("SCOPE-WILDCARD", medium, concat ("Wildcard permission grant: " ∷ repr entry ∷ []), path)

abbrev pub shown_approval : (String → String) → String → String → String → Shown
shown_approval repr name path entry =
    if is_dangerous_tool entry
    then (
      "SCOPE-DANGEROUS-AUTOAPPROVE",
      high,
      concat ("Server " ∷ repr name ∷ " auto-approves dangerous tool " ∷ repr entry ∷ []),
      path,
    )
    else (
      "SCOPE-AUTOAPPROVE-WILDCARD",
      medium,
      concat ("Server " ∷ repr name ∷ " auto-approves wildcard " ∷ repr entry ∷ []),
      path,
    )

-- One entry before the others, each of which is shown by `f`.
shown-entry_findings :
    (repr : String → String) (f : String → Shown) (entry : String) (a b : Finding)
    (findings : List Finding) (rest : List String)
    → (if is_dangerous_tool entry then shown a else shown b) ≡ f entry
    → map shown findings ≡ map f (select is_reported rest)
    → map shown (entry_findings repr entry a b ++ findings)
      ≡ map f (select is_reported (entry ∷ rest))
shown-entry_findings repr f entry a b findings rest h more =
    elim (Bool-cases (is_dangerous_tool entry)) [
      | inl d ↦ let same : shown a ≡ f entry = rw d at h in rw d (cc (same, more))
      | inr d ↦
          let same : shown b ≡ f entry = rw d at h in
          elim (Bool-cases (has_broad_wildcard entry)) [
            | inl w ↦ rw (d, w) (cc (same, more))
            | inr w ↦ rw (d, w) more
          ]
    ]

shown-permissions :
    (repr : String → String) (path : String) (entries : List String)
    → map shown (check_permissions repr entries path)
      ≡ map (shown_permission repr path) (select is_reported entries)
unfolding check_permissions dangerous_allow wildcard_allow
shown-permissions repr path [] = refl
shown-permissions repr path (entry ∷ rest) =
    shown-entry_findings repr (shown_permission repr path) entry (dangerous_allow repr entry path)
      (wildcard_allow repr entry path) (check_permissions repr rest path) rest refl
      (shown-permissions repr path rest)

shown-approvals :
    (repr : String → String) (name path : String) (entries : List String)
    → map shown (auto_approve_findings repr name entries path)
      ≡ map (shown_approval repr name path) (select is_reported entries)
unfolding auto_approve_findings dangerous_autoapprove wildcard_autoapprove
shown-approvals repr name path [] = refl
shown-approvals repr name path (entry ∷ rest) =
    shown-entry_findings repr (shown_approval repr name path) entry
      (dangerous_autoapprove repr name entry path) (wildcard_autoapprove repr name entry path)
      (auto_approve_findings repr name rest path) rest refl (shown-approvals repr name path rest)

-- Both checks report each entry that is dangerous or has a broad wildcard once, in the order of the
-- entries, and no other entry: a dangerous one, also if it has a wildcard, by the high finding, any
-- other by the medium one, with its id, its path and a title that quotes the entry.
pub check_permissions_exact :
    (repr : String → String) (entries : List String) (server : ServerDecl) (path : String)
    → (map shown (check_permissions repr entries path)
        ≡ map (shown_permission repr path) (select is_reported entries))
      × (map shown (check_server_auto_approve repr server path)
          ≡ map (shown_approval repr server.name path) (select is_reported server.auto_approve))
unfolding check_server_auto_approve
check_permissions_exact repr entries server path =
    (shown-permissions repr path entries, shown-approvals repr server.name path server.auto_approve)
