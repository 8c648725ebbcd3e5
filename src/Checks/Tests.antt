-- ===== src/Checks/Tests.antt =====
-- Entries of a permission list that are and are not reported.
use ianua_broker.Prelude.{
  num_Ord, text_Ord, pair_Ord, list_Ord, refl, none, [], ◌∷◌, text_Eq, num_Eq, pair_Eq, option_Eq,
  list_Eq, List, String, select, ◌≡◌, true, false, some, NoRepeats, contains, leb, ◌&&◌, Bool, ◌||◌,
  map,
}
use ianua_broker.Checks.ToolScope.{
  ServerDecl, is_dangerous_tool, check_permissions, has_broad_wildcard, check_server_auto_approve,
}
use ianua_broker.Checks.ToolScope.Findings.{
  is_reported, shown, shown_permission, shown_approval, check_permissions_exact,
}
use ianua_broker.Checks.Pinning.{
  package_Eq, CharClasses, base_name, extract_version_coords, parse_package_spec, PackageSpec,
  ecosystem_for, npm_runners, pypi_runners, package_args,
}
use ianua_broker.Acceptance.{head_of}
use ianua_broker.Checks.Pinning.Coords.{
  parse_package_spec-first, carries, extract_version_coords_exact,
}
use ianua_broker.Domain.{Finding}
use ianua_broker.Checks.Pinning.Known.{extract_version_coords_from_cmdline}
use ianua_broker.Checks.Pinning.Floating.{check_server_pinning}

abbrev entries : List String
entries = "Bash" ∷ "mcp__*" ∷ "Read(src/*)" ∷ "read_file" ∷ []

abbrev server : ServerDecl
server = record {
  name = "db";
  command = none;
  args = [];
  env = [];
  auto_approve = "query" ∷ "exec_*" ∷ [];
}

reported_entries : select is_reported entries ≡ ("Bash" ∷ "mcp__*" ∷ [])
unfolding is_dangerous_tool has_broad_wildcard
reported_entries = refl

check_permissions_exact_example :
    (map shown (check_permissions (λ s. s) entries "settings.json")
      ≡ map (shown_permission (λ s. s) "settings.json") (select is_reported entries))
    × (map shown (check_server_auto_approve (λ s. s) server "settings.json")
        ≡ map
            (shown_approval (λ s. s) server.name "settings.json")
            (select is_reported server.auto_approve))
check_permissions_exact_example = check_permissions_exact (λ s. s) entries server "settings.json"

-- A launch line with two coordinates, one of them twice, and a flag.
abbrev ascii : CharClasses
ascii = record {
  is_digit = λ c. leb 48 c && leb c 57;
  is_decimal = λ c. leb 48 c && leb c 57;
  is_word = λ c. leb 97 c && leb c 122;
}

abbrev launch_args : List String
launch_args =
    "-p" ∷ "left-pad@1.0.0" ∷ "@scope/cli@2.0.0" ∷ "left-pad@1.0.0" ∷ "@scope/floating" ∷ []

two_coords : extract_version_coords ascii (some "/usr/bin/npx") launch_args ≡ (
    record { ecosystem = "npm"; name = "left-pad"; version = "1.0.0" }
    ∷ record { ecosystem = "npm"; name = "@scope/cli"; version = "2.0.0" }
    ∷ [])
unfolding extract_version_coords
two_coords = refl

floating_is_found :
    map
      (λ (f : Finding). f.id)
      (check_server_pinning ascii
        (λ s. s)
        (record server { command = some "npx"; args = "left-pad@latest" ∷ [] })
        "c.json")
    ≡ ("PIN-UNPINNED" ∷ [])
unfolding check_server_pinning
floating_is_found = refl

extract_version_coords_exact_example :
    NoRepeats (extract_version_coords ascii (some "/usr/bin/npx") launch_args)
    × ((spec : PackageSpec)
        → contains spec (extract_version_coords ascii (some "/usr/bin/npx") launch_args)
          ≡ (elim (ecosystem_for ascii (base_name (some "/usr/bin/npx"))) as (λ _. Bool) [
            | none ↦ false
            | some ecosystem ↦ carries ascii ecosystem (package_args launch_args) spec
          ]))
extract_version_coords_exact_example =
    extract_version_coords_exact ascii (some "/usr/bin/npx") launch_args

known_launcher :
    (contains (base_name (some "/usr/bin/npx")) npm_runners
      || contains (base_name (some "/usr/bin/npx")) pypi_runners)
    ≡ true
unfolding base_name
known_launcher = refl

parse_package_spec-first_example :
    parse_package_spec ascii (some "/usr/bin/npx") launch_args
    ≡ head_of (extract_version_coords ascii (some "/usr/bin/npx") launch_args)
parse_package_spec-first_example =
    parse_package_spec-first ascii (some "/usr/bin/npx") launch_args known_launcher

one_from_cmdline :
    extract_version_coords_from_cmdline ascii " uvx  --with tool==2.0\n"
    ≡ (record { ecosystem = "PyPI"; name = "tool"; version = "2.0" } ∷ [])
unfolding extract_version_coords_from_cmdline
one_from_cmdline = refl
