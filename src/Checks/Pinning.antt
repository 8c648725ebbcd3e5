-- ===== src/Checks/Pinning.antt =====
-- src/mcpscan/checks/pinning.py and versions.py: the package coordinates of a launch command, and the
-- check for floating versions. What Python counts as a digit (`str.isdigit`, `\d`) and as a character of
-- a word (`\b`) are parameters.
pub mod Floating
pub mod Coords
pub mod Known
use mathlib.Core.Option
use ianua_broker.Domain.{pinning, medium, Finding}
use ianua_broker.Prelude.{
  num_Ord, text_Ord, pair_Ord, list_Ord, zero, suc, refl, inl, inr, true, false, none, some, [],
  ◌∷◌, text_Eq, num_Eq, pair_Eq, option_Eq, list_Eq, Bool, Eq, List, Option, String, concat,
  has_part, remove_prefix, starts_with, ℕ, ◌≡◌, code, if◌then◌else◌, select, ◌&&◌, ◌==◌, ◌||◌, ◌↔◌,
  any, arith, contains, not, num_eq, is_empty,
}
use ianua_broker.Checks.ToolScope.{ServerDecl}

pub record CharClasses : Type 0 where
  -- str.isdigit of one character, and `\d` and `\w` of a pattern
  pub is_digit : ℕ → Bool
  pub is_decimal : ℕ → Bool
  pub is_word : ℕ → Bool

-- s.rpartition(c), with `none` if `c` is not in `s`
unfoldable pub split_last : ℕ → String → Option (String × String)
split_last sep String.[] = none
split_last sep (String.◌∷◌ c s) =
    let later = split_last sep s in
    elim later [
      | some (before, after) ↦ some (String.◌∷◌ c before, after)
      | none ↦ if num_eq (code c) sep then some ("", s) else none
    ]

-- s.partition(t), with `none` if `t` is not in `s`
unfoldable pub split_first : String → String → Option (String × String)
unfolding starts_with remove_prefix
split_first t String.[] = none
split_first t (String.◌∷◌ c s) =
    let later = split_first t s in
    if starts_with (String.◌∷◌ c s) t
    then some ("", remove_prefix (String.◌∷◌ c s) t)
    else Option.map (λ (p : String × String). (String.◌∷◌ c p.0, p.1)) later

-- s.lstrip(c)
unfoldable pub strip_left : ℕ → String → String
strip_left sep String.[] = ""
strip_left sep (String.◌∷◌ c s) =
    let rest = strip_left sep s in if num_eq (code c) sep then rest else String.◌∷◌ c s

-- `(command or "").rsplit("/", 1)[-1]`
unfoldable pub base_name : Option String → String
unfolding split_last
base_name command =
    let path = Option.get_or command "" in
    elim (split_last 47 path) [ none ↦ path | some (before, after) ↦ after ]

abbrev pub floating_runners : List String
floating_runners = "npx" ∷ "uvx" ∷ "pnpx" ∷ "bunx" ∷ []

abbrev pub npm_runners : List String
npm_runners = "npx" ∷ "pnpx" ∷ "bunx" ∷ []

abbrev pub pypi_runners : List String
pypi_runners = "uvx" ∷ "pipx" ∷ "pip" ∷ []

abbrev pub package_args : List String → List String
package_args args = select (λ arg. not (starts_with arg "-")) args

pub record PackageSpec : Type 0 where
  pub ecosystem : String
  pub name : String
  pub version : String

abbrev pub package_beq : PackageSpec → PackageSpec → Bool
package_beq a b = a.ecosystem == b.ecosystem && a.name == b.name && a.version == b.version

pub package_beq_iff : (a b : PackageSpec) → (package_beq a b ≡ true) ↔ (a ≡ b)
package_beq_iff a b = ground (
  arith,
  text_Eq.beq_iff a.ecosystem b.ecosystem,
  text_Eq.beq_iff a.name b.name,
  text_Eq.beq_iff a.version b.version,
)

instance abbrev pub package_Eq : Eq PackageSpec
package_Eq = record { beq = package_beq; beq_iff = package_beq_iff }

module _ (chars : CharClasses) where
  abbrev pub starts_with_digit : String → Bool
  starts_with_digit String.[] = false
  starts_with_digit (String.◌∷◌ c s) = chars.is_digit (code c)

  abbrev pub npm_spec : String → Option (String × String) → Option PackageSpec
  npm_spec ecosystem none = none
  npm_spec ecosystem (some (name, version)) =
      if not (name == "") && starts_with_digit version
      then some (record { ecosystem = ecosystem; name = name; version = version })
      else none

  abbrev pub pypi_spec : String → Option (String × String) → Option PackageSpec
  pypi_spec ecosystem none = none
  pypi_spec ecosystem (some (name, version)) =
      if not (name == "") && not (version == "")
      then some (record { ecosystem = ecosystem; name = name; version = version })
      else none

  unfoldable pub coord_from_arg : String → String → Option PackageSpec
  unfolding has_part strip_left split_last split_first
  coord_from_arg arg ecosystem =
      if ecosystem == "npm" && has_part (strip_left 64 arg) "@"
      then npm_spec ecosystem (split_last 64 arg)
      else if ecosystem == "PyPI" && has_part arg "=="
      then pypi_spec ecosystem (split_first "==" arg)
      else none

  abbrev pub or_later : Option PackageSpec → Option PackageSpec → Option PackageSpec
  or_later (some spec) later = some spec
  or_later none later = later

  -- The loop of `parse_package_spec`.
  unfoldable pub first_coord : String → List String → Option PackageSpec
  unfolding coord_from_arg
  first_coord ecosystem [] = none
  first_coord ecosystem (arg ∷ rest) =
      or_later (coord_from_arg arg ecosystem) (first_coord ecosystem rest)

  unfoldable pub parse_package_spec : Option String → List String → Option PackageSpec
  unfolding base_name starts_with first_coord
  parse_package_spec command args =
      let runner = base_name command in
      if contains runner npm_runners
      then first_coord "npm" (package_args args)
      else if contains runner pypi_runners
      then first_coord "PyPI" (package_args args)
      else none

  -- The digits of a version part, and what follows them: `\d+`, `none` without a digit.
  unfoldable pub after_digits : String → String
  after_digits String.[] = ""
  after_digits (String.◌∷◌ c s) =
      let rest = after_digits s in if chars.is_decimal (code c) then rest else String.◌∷◌ c s

  abbrev pub has_digit : String → Bool
  has_digit String.[] = false
  has_digit (String.◌∷◌ c s) = chars.is_decimal (code c)

  -- `$` of a pattern: the end, or a last line break
  abbrev pub at_end : String → Bool
  at_end s = s == "" || s == "\n"

  -- `(?:\d+(?:\.\d+)?)?$`
  unfoldable pub is_version_suffix : String → Bool
  unfolding after_digits remove_prefix starts_with
  is_version_suffix s =
      let rest = after_digits s in
      let minor = remove_prefix rest "." in
      at_end s
      || (has_digit s
          && (at_end rest
              || (starts_with rest "." && has_digit minor && at_end (after_digits minor))))

  -- `_PY_INTERPRETER.match(runner)`
  unfoldable pub is_python : String → Bool
  unfolding starts_with remove_prefix is_version_suffix
  is_python runner =
      starts_with runner "python" && is_version_suffix (remove_prefix runner "python")

  unfoldable pub ecosystem_for : String → Option String
  unfolding is_python
  ecosystem_for runner =
      if contains runner npm_runners
      then some "npm"
      else if contains runner pypi_runners || is_python runner
      then some "PyPI"
      else none

  -- One argument of the loop of `extract_version_coords`, `later` being the rest of the loop.
  unfoldable pub take_coord :
      Option PackageSpec
      → List PackageSpec
      → (List PackageSpec → List PackageSpec)
      → List PackageSpec
  take_coord none seen later = later seen
  take_coord (some spec) seen later =
      if contains spec seen then later seen else spec ∷ later (spec ∷ seen)

  unfoldable pub new_coords : String → List String → List PackageSpec → List PackageSpec
  unfolding coord_from_arg take_coord
  new_coords ecosystem [] seen = []
  new_coords ecosystem (arg ∷ rest) seen =
      take_coord (coord_from_arg arg ecosystem) seen (λ s. new_coords ecosystem rest s)

  abbrev pub coords_in : Option String → List String → List PackageSpec
  coords_in none args = []
  coords_in (some ecosystem) args = new_coords ecosystem args []

  unfoldable pub extract_version_coords : Option String → List String → List PackageSpec
  unfolding base_name ecosystem_for starts_with new_coords
  extract_version_coords command args =
      coords_in (ecosystem_for (base_name command)) (package_args args)
