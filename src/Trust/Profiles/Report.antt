-- ===== src/Trust/Profiles/Report.antt =====
-- The report over the profiles of all servers.
use ianua_broker.Prelude.{
  num_Ord, text_Ord, pair_Ord, list_Ord, [], ◌∷◌, num_Eq, text_Eq, pair_Eq, option_Eq, list_Eq,
  List, All, Perm, map, IsSorted, ◌≤◌, if◌then◌else◌, sorted-perm, is_empty, sorted-IsSorted,
  sorted, ℕ, String, ◌≡◌, ◌⊎◌, contains, true, inl, inr, refl, inl, inr, contains,
}
use ianua_broker.Trust.Profiles.{build_trust_report}
use ianua_broker.Trust.Model.{TrustProfile}
use ianua_broker.Scoring.{grade_index, worst_grade}
use ianua_broker.Domain.{grade_a, grade_Eq}
use ianua_broker.Scoring.Grades.{worst_grade_lem}

All-of_map {ℓ κ μ} :
    {A : Type ℓ} {B : Type κ} (P : B → Type μ) (f : A → B) (xs : List A)
    → All P (map f xs)
    → All (λ x. P (f x)) xs
All-of_map P f [] h = tt
All-of_map P f (x ∷ xs) h = (h.0, All-of_map P f xs h.1)

overall-worst :
    (ordered : List TrustProfile)
    → All
        (λ (p : TrustProfile).
          grade_index p.grade
          ≤ grade_index (
              if is_empty ordered
              then grade_a
              else worst_grade (map (λ (q : TrustProfile). q.grade) ordered)))
        ordered
overall-worst [] = tt
overall-worst (p ∷ rest) =
    All-of_map
      (λ g.
        grade_index g ≤ grade_index (worst_grade (map (λ (q : TrustProfile). q.grade) (p ∷ rest))))
      (λ (q : TrustProfile). q.grade) (p ∷ rest)
      (worst_grade_lem p.grade (map (λ (q : TrustProfile). q.grade) rest)).1

overall-attained :
    (ordered : List TrustProfile)
    → ((ordered ≡ [])
        × ((if is_empty ordered
              then grade_a
              else worst_grade (map (λ (q : TrustProfile). q.grade) ordered))
            ≡ grade_a))
      ⊎ (contains
            (if is_empty ordered
              then grade_a
              else worst_grade (map (λ (q : TrustProfile). q.grade) ordered))
            (map (λ (q : TrustProfile). q.grade) ordered)
          ≡ true)
overall-attained [] = inl (refl, refl)
overall-attained (p ∷ rest) =
    inr (worst_grade_lem p.grade (map (λ (q : TrustProfile). q.grade) rest)).0

-- The report has the profiles it is given, none lost and none added, in the order of their score
-- and of their subject where scores are equal. Its grade is the worst of theirs: no profile in it is
-- graded worse, and it is the grade of one of them, or A where there is none.
pub build_trust_report_lem :
    (profiles : List TrustProfile)
    → Perm (build_trust_report profiles).profiles profiles
      × IsSorted {K = ℕ × String}
          (λ (p : TrustProfile). (p.score, p.subject))
          (build_trust_report profiles).profiles
      × All
          (λ (p : TrustProfile).
            grade_index p.grade ≤ grade_index (build_trust_report profiles).overall_grade)
          (build_trust_report profiles).profiles
      × ((((build_trust_report profiles).profiles ≡ [])
            × ((build_trust_report profiles).overall_grade ≡ grade_a))
          ⊎ (contains
                (build_trust_report profiles).overall_grade
                (map (λ (q : TrustProfile). q.grade) (build_trust_report profiles).profiles)
              ≡ true))
unfolding build_trust_report
build_trust_report_lem profiles = (
  sorted-perm {K = ℕ × String} (λ (p : TrustProfile). (p.score, p.subject)) profiles,
  sorted-IsSorted {K = ℕ × String} (λ (p : TrustProfile). (p.score, p.subject)) profiles,
  overall-worst (sorted {K = ℕ × String} (λ (p : TrustProfile). (p.score, p.subject)) profiles),
  overall-attained (sorted {K = ℕ × String} (λ (p : TrustProfile). (p.score, p.subject)) profiles),
)
