-- ===== src/Scoring.antt =====
-- src/mcpscan/scoring.py: points per finding, grade bands, the cap for an incomplete inspection,
-- and the worst grade of several.
mod Tests
pub mod Grades
use ianua_broker.Prelude.{
  get, put, has, remove, of_pairs, Dict, keys, values, get-put, get-remove, Ord, leb_total,
  leb_trans, num_Ord, text_le, text_total, text_trans, text_Ord, pair_le, pair_Ord, list_le,
  list_Ord, IsSorted, insert_sorted, sorted, sorted-perm, All-sorted, sorted-IsSorted,
  length-sorted, concat, decimal, starts_with, has_part, remove_prefix, ℕ, zero, suc, ◌+◌, ◌-◌, ◌*◌,
  ◌/◌, ◌%◌, ◌^◌, ◌≤◌, ◌<◌, min, max, String, Char, code, ◌≡◌, refl, sym, ap, ◌∙◌, subst, ◌≢◌, ◌↔◌,
  ◌⊎◌, inl, inr, Bool, true, false, not, ◌&&◌, ◌||◌, Option, none, some, List, [], ◌∷◌, ◌++◌, map,
  foldl, flat_map, Perm, arith, ltb, leb, num_eq, if◌then◌else◌, ltb→lt, leb→le, leb_false→lt,
  ltb_false→le, num_eq_iff, Bool-cases, Option-cases, and_true, or_true, ◌==◌, num_Eq, text_Eq,
  beq_self, pair_beq, pair_beq_iff, pair_Eq, option_beq, option_beq_iff, option_Eq, Eq, length,
  take, select, any, all, is_empty, All, length-append, length-take_le, length-select_le,
  All-append, All-map_pred, All-of, All-take, All-select, All-select_sub, sum, sum-append, range,
  length-range, length-map, contains, contains-append, contains-All, NoRepeats,
}
use ianua_broker.Domain.{
  dimension_Eq, Severity, weight, Dimension, dimensions, Finding, Server, Grade, grade_a, grade_b,
  grade_c, grade_d, grade_f, letter,
}

abbrev pub max_score : ℕ
max_score = 100

abbrev pub weights : List Finding → ℕ
weights findings = sum (map (λ (f : Finding). weight f.severity) findings)

-- Subtraction on ℕ stops at 0, which is the source's `max(0, score)`.
unfoldable pub score_findings : List Finding → ℕ
score_findings findings = max_score - weights findings

-- The loop over `_GRADE_BANDS`, whose thresholds fall.
unfoldable pub grade_for_score : ℕ → Grade
grade_for_score score =
    if leb 90 score
    then grade_a
    else if leb 80 score
    then grade_b
    else if leb 70 score
    then grade_c
    else if leb 60 score
    then grade_d
    else grade_f

unfoldable pub grade_findings : List Finding → Grade
unfolding score_findings grade_for_score
grade_findings findings = grade_for_score (score_findings findings)

-- `_GRADE_ORDER.index`, the place of the letter in "ABCDEF"
unfoldable pub grade_index : Grade → ℕ
grade_index grade_a = 0
grade_index grade_b = 1
grade_index grade_c = 2
grade_index grade_d = 3
grade_index grade_f = 5

unfoldable pub cap_grade : Grade → Grade → Grade
unfolding grade_index
cap_grade grade cap = if leb (grade_index cap) (grade_index grade) then grade else cap

unfoldable pub grade_server : Server → Grade
unfolding grade_findings cap_grade
grade_server server =
    let grade = grade_findings server.findings in
    if server.inspection_incomplete then cap_grade grade grade_c else grade

-- `max` over letters: it compares texts, and of equal ones keeps the first.
unfoldable pub max_letter : Grade → List Grade → Grade
unfolding letter
max_letter best [] = best
max_letter best (g ∷ rest) = max_letter (if text_le (letter g) (letter best) then best else g) rest

unfoldable pub worst_grade : List Grade → Grade
unfolding max_letter
worst_grade [] = grade_a
worst_grade (g ∷ rest) = max_letter g rest

-- `{dim: [] for dim in Dimension}`
abbrev pub no_findings : Dict Dimension (List Finding)
no_findings = map (λ (dim : Dimension). (dim, [])) dimensions

-- `by_dim[finding.dimension].append(finding)`; every dimension is a key.
unfoldable pub file_finding :
    Dict Dimension (List Finding) → Finding → Dict Dimension (List Finding)
file_finding by_dim finding = elim (get finding.dimension by_dim) [
  | none ↦ by_dim
  | some items ↦ put finding.dimension (items ++ finding ∷ []) by_dim
]

unfoldable pub by_dimension :
    Dict Dimension (List Finding) → List Finding → Dict Dimension (List Finding)
unfolding file_finding
by_dimension by_dim [] = by_dim
by_dimension by_dim (finding ∷ rest) = by_dimension (file_finding by_dim finding) rest

unfoldable pub dimension_grades : List Finding → Dict Dimension Grade
unfolding by_dimension grade_findings
dimension_grades findings = map (λ p. (p.0, grade_findings p.1)) (by_dimension no_findings findings)
