-- ===== src/Checks/Pinning/Known.antt =====
-- src/mcpscan/checks/versions.py and pinning.py: the coordinates in a command line, and the findings on
-- a coordinate with known advisories.
use ianua_broker.Domain.{pinning, critical, high, Severity, Finding}
use ianua_broker.Prelude.{
  num_Ord, text_Ord, pair_Ord, list_Ord, false, none, some, [], ◌∷◌, text_Eq, num_Eq, pair_Eq,
  option_Eq, list_Eq, Bool, Char, List, String, concat, is_space, if◌then◌else◌, join, not, code,
  take,
}
use ianua_broker.Checks.Pinning.{CharClasses, PackageSpec, extract_version_coords}

abbrev starts_with_ink : String → Bool
starts_with_ink String.[] = false
starts_with_ink (String.◌∷◌ c s) = not (is_space (code c))

-- A character before the first word, which starts at once.
abbrev extend_first : Char → List String → List String
extend_first c [] = String.◌∷◌ c "" ∷ []
extend_first c (word ∷ rest) = String.◌∷◌ c word ∷ rest

-- s.split()
unfoldable pub split_words : String → List String
unfolding is_space
split_words String.[] = []
split_words (String.◌∷◌ c s) =
    let rest = split_words s in
    if is_space (code c)
    then rest
    else if starts_with_ink s
    then extend_first c rest
    else String.◌∷◌ c "" ∷ rest

module _ (chars : CharClasses) where
  abbrev pub coords_of_parts : List String → List PackageSpec
  coords_of_parts [] = []
  coords_of_parts (command ∷ args) = extract_version_coords chars (some command) args

  unfoldable pub extract_version_coords_from_cmdline : String → List PackageSpec
  unfolding split_words extract_version_coords
  extract_version_coords_from_cmdline cmdline = coords_of_parts (split_words cmdline)

abbrev pub shown_ids : List String → String
shown_ids vuln_ids = join ", " (take 5 vuln_ids)

abbrev pub vuln_severity : Bool → Severity
vuln_severity is_critical = if is_critical then critical else high

unfoldable pub vuln_known_finding : String → PackageSpec → List String → String → Bool → Finding
unfolding concat join
vuln_known_finding subject coord vuln_ids location_path is_critical = record {
  id = "VULN-KNOWN";
  dimension = pinning;
  severity = vuln_severity is_critical;
  title = concat (
      subject
      ∷ " launches "
      ∷ coord.name
      ∷ "@"
      ∷ coord.version
      ∷ " ("
      ∷ coord.ecosystem
      ∷ "), which has known advisories ("
      ∷ shown_ids vuln_ids
      ∷ ")"
      ∷ []);
  location = record { path = location_path; line = none };
  remediation =
      concat ("Upgrade " ∷ coord.name ∷ " past the version with the listed advisories." ∷ []);
  rationale =
      "A known-vulnerable package in the launch command exposes the host to documented exploits, even when the runner itself is pinned.";
  secret = none;
  acceptance = none;
}

unfoldable pub known_vuln_finding :
    (String → String) → String → PackageSpec → List String → String → Bool → Finding
unfolding concat join
known_vuln_finding repr server_name spec vuln_ids config_path is_critical = record {
  id = "PIN-KNOWN-VULN";
  dimension = pinning;
  severity = vuln_severity is_critical;
  title = concat (
      "Server "
      ∷ repr server_name
      ∷ " pins "
      ∷ spec.name
      ∷ "@"
      ∷ spec.version
      ∷ ", which has known advisories ("
      ∷ shown_ids vuln_ids
      ∷ ")"
      ∷ []);
  location = record { path = config_path; line = none };
  remediation =
      concat ("Upgrade " ∷ spec.name ∷ " to a version without the listed advisories." ∷ []);
  rationale = "A known-vulnerable dependency exposes the host to documented exploits.";
  secret = none;
  acceptance = none;
}
