-- ===== src/Scoring/Grades.antt =====
-- Properties of scoring.py: scores and grades against more findings, the cap for an incomplete
-- inspection, the worst grade, and the grades by dimension.
use ianua_broker.Prelude.{
  get, Dict, get-put, get-map, num_Ord, text_le, text_Ord, pair_Ord, list_Ord, ℕ, ◌+◌, ◌-◌, ◌≤◌,
  max, ◌≡◌, refl, ap, ◌∙◌, ◌⊎◌, inl, inr, true, false, some, List, [], ◌∷◌, ◌++◌, arith, leb,
  if◌then◌else◌, leb→le, leb_false→lt, Bool-cases, Option-cases, ◌==◌, num_Eq, text_Eq, pair_Eq,
  option_Eq, select, All, All-map_pred, contains,
}
use mathlib.Core.List.{append-nil, append_assoc}
use ianua_broker.Domain.{
  dimension_Eq, dimension_beq_iff, grade_beq_iff, grade_Eq, Dimension, Finding, Server, Grade,
  grade_a, grade_b, grade_c, grade_d, grade_f, letter, exposure, credential, tool_scope, pinning,
}
use ianua_broker.Scoring.{
  weights, score_findings, grade_for_score, grade_findings, grade_index, cap_grade, grade_server,
  max_letter, worst_grade, no_findings, file_finding, by_dimension, dimension_grades,
}

weights-append : (xs ys : List Finding) → weights (xs ++ ys) ≡ weights xs + weights ys
weights-append [] ys = omega arith
weights-append (x ∷ xs) ys = omega (arith, weights-append xs ys)

score-append : (xs ys : List Finding) → score_findings (xs ++ ys) ≡ score_findings xs - weights ys
unfolding score_findings
score-append xs ys = omega (arith, weights-append xs ys)

grade_for_score_antitone :
    (a b : ℕ) → a ≤ b → grade_index (grade_for_score b) ≤ grade_index (grade_for_score a)
unfolding grade_for_score grade_index
grade_for_score_antitone a b h = ground arith

-- Whatever findings are added to a server's, the letter does not move towards A.
pub grade_findings-append :
    (xs ys : List Finding)
    → grade_index (grade_findings xs) ≤ grade_index (grade_findings (xs ++ ys))
unfolding grade_findings
grade_findings-append xs ys =
    grade_for_score_antitone (score_findings (xs ++ ys)) (score_findings xs)
      (omega (arith, score-append xs ys))

-- A server whose inspection is incomplete is graded C or worse and never better than its findings
-- are; one that was inspected in full has the grade of its findings.
pub grade_server_capped :
    (server : Server)
    → (server.inspection_incomplete ≡ true
        → grade_index grade_c ≤ grade_index (grade_server server))
      × (grade_index (grade_findings server.findings) ≤ grade_index (grade_server server))
      × (server.inspection_incomplete ≡ false
          → grade_server server ≡ grade_findings server.findings)
unfolding grade_server cap_grade
grade_server_capped server = ground arith

text_le-letter : (g h : Grade) → text_le (letter g) (letter h) ≡ leb (grade_index g) (grade_index h)
unfolding letter grade_index
text_le-letter grade_a h = elim h as (λ h. text_le "A" (letter h) ≡ leb 0 (grade_index h)) [
  | grade_a ↦ refl
  | grade_b ↦ refl
  | grade_c ↦ refl
  | grade_d ↦ refl
  | grade_f ↦ refl
]
text_le-letter grade_b h = elim h as (λ h. text_le "B" (letter h) ≡ leb 1 (grade_index h)) [
  | grade_a ↦ refl
  | grade_b ↦ refl
  | grade_c ↦ refl
  | grade_d ↦ refl
  | grade_f ↦ refl
]
text_le-letter grade_c h = elim h as (λ h. text_le "C" (letter h) ≡ leb 2 (grade_index h)) [
  | grade_a ↦ refl
  | grade_b ↦ refl
  | grade_c ↦ refl
  | grade_d ↦ refl
  | grade_f ↦ refl
]
text_le-letter grade_d h = elim h as (λ h. text_le "D" (letter h) ≡ leb 3 (grade_index h)) [
  | grade_a ↦ refl
  | grade_b ↦ refl
  | grade_c ↦ refl
  | grade_d ↦ refl
  | grade_f ↦ refl
]
text_le-letter grade_f h = elim h as (λ h. text_le "F" (letter h) ≡ leb 5 (grade_index h)) [
  | grade_a ↦ refl
  | grade_b ↦ refl
  | grade_c ↦ refl
  | grade_d ↦ refl
  | grade_f ↦ refl
]

-- The best place that is reached by none: the largest index of the list, `best` included.
abbrev largest : ℕ → List Grade → ℕ
largest best [] = best
largest best (g ∷ rest) = largest (max best (grade_index g)) rest

grade_index-max_letter :
    (best : Grade) (rest : List Grade)
    → grade_index (max_letter best rest) ≡ largest (grade_index best) rest
unfolding max_letter
grade_index-max_letter best [] = refl
grade_index-max_letter best (g ∷ rest) =
    elim (Bool-cases (leb (grade_index g) (grade_index best))) [
      | inl e ↦
          rw (text_le-letter g best, e)
            (grade_index-max_letter best rest
              ∙ ap (λ n. largest n rest)
                  (omega (arith, leb→le (grade_index g) (grade_index best) e)))
      | inr e ↦
          rw (text_le-letter g best, e)
            (grade_index-max_letter g rest
              ∙ ap (λ n. largest n rest)
                  (omega (arith, leb_false→lt (grade_index g) (grade_index best) e)))
    ]

le-largest : (best : ℕ) (rest : List Grade) → best ≤ largest best rest
le-largest best [] = omega arith
le-largest best (g ∷ rest) = omega (arith, le-largest (max best (grade_index g)) rest)

All-largest : (best : ℕ) (rest : List Grade) → All (λ g. grade_index g ≤ largest best rest) rest
All-largest best [] = tt
All-largest best (g ∷ rest) = (
  omega (arith, le-largest (max best (grade_index g)) rest),
  All-largest (max best (grade_index g)) rest,
)

max_letter-cons :
    (best g : Grade) (rest : List Grade)
    → max_letter best (g ∷ rest)
      ≡ (if text_le (letter g) (letter best) then max_letter best rest else max_letter g rest)
unfolding max_letter
max_letter-cons best g rest = ground arith

contains-max_letter :
    (best : Grade) (rest : List Grade)
    → (max_letter best rest ≡ best) ⊎ (contains (max_letter best rest) rest ≡ true)
contains-max_letter best [] = inl (unfold max_letter in refl)
contains-max_letter best (g ∷ rest) = ground (
  arith,
  max_letter-cons best g rest,
  contains-max_letter best rest,
  contains-max_letter g rest,
  grade_beq_iff g (max_letter g rest),
)

-- The overall grade of a non-empty list is one of its letters, and no letter of the list is worse
-- by the order of "ABCDEF", although the code compares the letters as texts.
pub worst_grade_lem :
    (g : Grade) (rest : List Grade)
    → (contains (worst_grade (g ∷ rest)) (g ∷ rest) ≡ true)
      × All (λ h. grade_index h ≤ grade_index (worst_grade (g ∷ rest))) (g ∷ rest)
unfolding worst_grade
worst_grade_lem g rest = (
  ground (arith, contains-max_letter g rest, grade_beq_iff g (max_letter g rest)),
  All-map_pred (g ∷ rest) (λ h q. rw (grade_index-max_letter g rest) q)
      (le-largest (grade_index g) rest, All-largest (grade_index g) rest),
)

-- The finding is filed under its dimension and nowhere else.
get-file_finding :
    (dim : Dimension) (d : Dict Dimension (List Finding)) (finding : Finding) (items : List Finding)
    → get dim d ≡ some items
    → get dim (file_finding d finding)
      ≡ some (if finding.dimension == dim then items ++ finding ∷ [] else items)
unfolding file_finding
get-file_finding dim d finding items h = elim (Option-cases (get finding.dimension d)) [
  | inl e ↦ rw (e, file_finding) (ground (arith, dimension_beq_iff finding.dimension dim))
  | inr (own, e) ↦
      rw (e, file_finding) (rw get-put (ground (arith, dimension_beq_iff finding.dimension dim)))
]

no_findings_at : (dim : Dimension) → get dim no_findings ≡ some []
unfolding get
no_findings_at exposure = refl
no_findings_at credential = refl
no_findings_at tool_scope = refl
no_findings_at pinning = refl

get-by_dimension :
    (dim : Dimension) (d : Dict Dimension (List Finding)) (findings items : List Finding)
    → get dim d ≡ some items
    → get dim (by_dimension d findings)
      ≡ some (items ++ select (λ (f : Finding). f.dimension == dim) findings)
unfolding by_dimension
get-by_dimension dim d [] items h = rw append-nil h
get-by_dimension dim d (f ∷ rest) items h =
    let step = get-file_finding dim d f items h in
    elim (Bool-cases (f.dimension == dim)) [
      | inl e ↦ rw e (
          get-by_dimension dim (file_finding d f) rest (items ++ f ∷ []) (rw e at step)
          ∙ rw append_assoc)
      | inr e ↦ rw e (get-by_dimension dim (file_finding d f) rest items (rw e at step))
    ]

-- Every dimension is graded, by the findings that carry it and by no others.
pub get-dimension_grades :
    (dim : Dimension) (findings : List Finding)
    → get dim (dimension_grades findings)
      ≡ some (grade_findings (select (λ (f : Finding). f.dimension == dim) findings))
unfolding dimension_grades
get-dimension_grades dim findings =
    rw (get-map grade_findings dim (by_dimension no_findings findings))
      (rw (get-by_dimension dim no_findings findings [] (no_findings_at dim)))
