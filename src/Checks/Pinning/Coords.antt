-- ===== src/Checks/Pinning/Coords.antt =====
-- The coordinates that a launch command carries.

use ianua_broker.Checks.Pinning.{
  package_Eq, CharClasses, new_coords, PackageSpec, coord_from_arg, extract_version_coords,
  first_coord, parse_package_spec, take_coord, ecosystem_for, base_name, package_beq, npm_runners,
  package_args, package_beq_iff, pypi_runners, coords_in, or_later, is_python,
}
use ianua_broker.Prelude.{
  num_Ord, text_Ord, pair_Ord, list_Ord, refl, inl, inr, true, false, none, some, [], ◌∷◌, text_Eq,
  num_Eq, pair_Eq, option_Eq, list_Eq, String, List, Bool, NoRepeats, contains, any, ◌≡◌,
  option_beq, ◌&&◌, Bool-cases, not, arith, Option, if_rule, ◌||◌, ◌∙◌, beq_self, and_true,
  if◌then◌else◌,
}
use ianua_broker.Acceptance.{head_of}

module _ (chars : CharClasses) where
  -- Some argument carries the coordinate.
  abbrev pub carries : String → List String → PackageSpec → Bool
  carries ecosystem args spec =
      any (λ arg. option_beq (coord_from_arg chars arg ecosystem) (some spec)) args

  contains-take_coord :
      (m : Option PackageSpec) (seen : List PackageSpec)
      (later : List PackageSpec → List PackageSpec) (some_later : PackageSpec → Bool)
      (spec : PackageSpec)
      → ((s : List PackageSpec)
          → contains spec (later s) ≡ (some_later spec && not (contains spec s)))
      → contains spec (take_coord chars m seen later)
        ≡ ((option_beq m (some spec) || some_later spec) && not (contains spec seen))
  unfolding take_coord
  contains-take_coord none seen later some_later spec h = h seen
  contains-take_coord (some found) seen later some_later spec h =
      elim (Bool-cases (contains found seen)) [
        | inl old ↦
            rw (old, h seen)
              (elim (Bool-cases (package_beq found spec)) [
                | inl same ↦
                    let this : found ≡ spec = (package_beq_iff found spec).0 same in
                    let seen_too : contains spec seen ≡ true = rw this at old in
                    ground (arith, same, seen_too)
                | inr other ↦ ground (arith, other)
              ])
        | inr new ↦
            rw (new, h (found ∷ seen))
              (elim (Bool-cases (package_beq found spec)) [
                | inl same ↦
                    let this : found ≡ spec = (package_beq_iff found spec).0 same in
                    let not_seen : contains spec seen ≡ false = rw this at new in
                    ground (arith, same, not_seen)
                | inr other ↦ ground (arith, other)
              ])
      ]

  contains-new_coords :
      (ecosystem : String) (args : List String) (seen : List PackageSpec) (spec : PackageSpec)
      → contains spec (new_coords chars ecosystem args seen)
        ≡ (carries ecosystem args spec && not (contains spec seen))
  unfolding new_coords
  contains-new_coords ecosystem [] seen spec = refl
  contains-new_coords ecosystem (arg ∷ rest) seen spec =
      contains-take_coord (coord_from_arg chars arg ecosystem) seen
        (λ s. new_coords chars ecosystem rest s) (carries ecosystem rest) spec
        (λ s. contains-new_coords ecosystem rest s spec)

  NoRepeats-new_coords :
      (ecosystem : String) (args : List String) (seen : List PackageSpec)
      → NoRepeats (new_coords chars ecosystem args seen)
  unfolding new_coords
  NoRepeats-new_coords ecosystem [] seen = tt
  NoRepeats-new_coords ecosystem (arg ∷ rest) seen =
      go (coord_from_arg chars arg ecosystem) (λ s. NoRepeats-new_coords ecosystem rest s)
    where
      go :
          (m : Option PackageSpec)
          → ((s : List PackageSpec) → NoRepeats (new_coords chars ecosystem rest s))
          → NoRepeats (take_coord chars m seen (λ s. new_coords chars ecosystem rest s))
      go none h = h seen
      go (some found) h =
          if_rule NoRepeats (contains found seen) _ _ (λ _. h seen)
            (λ _. (
              contains-new_coords ecosystem rest (found ∷ seen) found
                  ∙ ground (arith, beq_self found),
              h (found ∷ seen),
            ))

  -- The coordinates of a launch command are exactly those that some argument that is no flag carries
  -- in the ecosystem of the launcher, each once; a launcher of no known ecosystem has none.
  pub extract_version_coords_exact :
      (command : Option String) (args : List String)
      → NoRepeats (extract_version_coords chars command args)
        × ((spec : PackageSpec)
            → contains spec (extract_version_coords chars command args)
              ≡ (elim (ecosystem_for chars (base_name command)) as (λ _. Bool) [
                | none ↦ false
                | some ecosystem ↦ carries ecosystem (package_args args) spec
              ]))
  unfolding extract_version_coords
  extract_version_coords_exact command args = go (ecosystem_for chars (base_name command))
    where
      go :
          (m : Option String)
          → NoRepeats (coords_in chars m (package_args args))
            × ((spec : PackageSpec)
                → contains spec (coords_in chars m (package_args args)) ≡ (elim m as (λ _. Bool) [
                  | none ↦ false
                  | some ecosystem ↦ carries ecosystem (package_args args) spec
                ]))
      go none = (tt, λ spec. refl)
      go (some ecosystem) = (
        NoRepeats-new_coords ecosystem (package_args args) [],
        λ spec.
            contains-new_coords ecosystem (package_args args) [] spec
            ∙ ground (arith, and_true (carries ecosystem (package_args args) spec)),
      )

  first-take_coord :
      (ecosystem : String) (args : List String)
      → first_coord chars ecosystem args ≡ head_of (new_coords chars ecosystem args [])
  unfolding first_coord new_coords take_coord
  first-take_coord ecosystem [] = refl
  first-take_coord ecosystem (arg ∷ rest) =
      go (coord_from_arg chars arg ecosystem) (first-take_coord ecosystem rest)
    where
      go :
          (m : Option PackageSpec)
          → first_coord chars ecosystem rest ≡ head_of (new_coords chars ecosystem rest [])
          → or_later chars m (first_coord chars ecosystem rest)
            ≡ head_of (take_coord chars m [] (λ s. new_coords chars ecosystem rest s))
      go none h = h
      go (some found) h = refl

  -- Where `parse_package_spec` knows the launcher, it gives the first of the coordinates that
  -- `extract_version_coords` finds.
  pub parse_package_spec-first :
      (command : Option String) (args : List String)
      → (contains (base_name command) npm_runners || contains (base_name command) pypi_runners)
        ≡ true
      → parse_package_spec chars command args ≡ head_of (extract_version_coords chars command args)
  unfolding parse_package_spec extract_version_coords ecosystem_for
  parse_package_spec-first command args known =
      go (contains (base_name command) npm_runners) (contains (base_name command) pypi_runners)
        (is_python chars (base_name command)) known
    where
      go :
          (npm pypi python : Bool)
          → (npm || pypi) ≡ true
          → (if npm
              then first_coord chars "npm" (package_args args)
              else if pypi
              then first_coord chars "PyPI" (package_args args)
              else none)
            ≡ head_of (
                coords_in chars
                  (if npm then some "npm" else if pypi || python then some "PyPI" else none)
                  (package_args args))
      go true pypi python h = first-take_coord "npm" (package_args args)
      go false true python h = first-take_coord "PyPI" (package_args args)
      go false false python h = absurd (cc (h))
