-- ===== src/Acceptance/Gate.antt =====
-- What an acceptance can and cannot change.
use ianua_broker.Domain.{dimension_Eq, tool_scope, Finding, Report, Server}
use ianua_broker.Prelude.{
  num_Ord, text_Ord, pair_Ord, list_Ord, refl, inl, inr, true, false, none, some, [], ◌∷◌, text_Eq,
  num_Eq, pair_Eq, option_Eq, list_Eq, Bool, List, String, Option, any, ℕ, ◌≡◌, map, not, ◌⊎◌,
  Bool-cases, ◌∙◌, arith, sym, ◌&&◌, ◌==◌, select, if_rule, ap,
}
use ianua_broker.Acceptance.{
  choose, first_where, ToolDriftAcceptance, accept_with, apply_tool_drift_acceptances, waive_entry,
  waive_with, attached, head_of, LedgerEntry, acceptance_expired, covers, accept_finding,
  apply_acceptances, accept_server, candidates_for,
}
use ianua_broker.Drift.Model.{DriftEntry, DriftReport, is_regression}
use ianua_broker.Drift.Facts.{is_tool}
use ianua_broker.Scoring.{grade_server, weights, grade_findings, score_findings}

-- The entry that is chosen has not expired.
abbrev is_valid {ℓ} : {A : Type ℓ} → (A → Bool) → Option A → Bool
is_valid expired none = false
is_valid expired (some e) = not (expired e)

first_where-cases {ℓ} :
    {A : Type ℓ} (p : A → Bool) (xs : List A)
    → ((first_where p xs ≡ none) × (any p xs ≡ false))
      ⊎ ((x : A) × (first_where p xs ≡ some x) × (p x ≡ true) × (any p xs ≡ true))
unfolding first_where
first_where-cases p [] = inl (refl, refl)
first_where-cases p (x ∷ xs) = elim (Bool-cases (p x)) [
  | inl e ↦ inr (x, rw e refl, e, rw e refl)
  | inr e ↦ rw e (first_where-cases p xs)
]

is_valid-head_of {ℓ} :
    {A : Type ℓ} (expired : A → Bool) (xs : List A)
    → any (λ e. not (expired e)) xs ≡ false
    → is_valid expired (head_of xs) ≡ false
is_valid-head_of expired [] h = refl
is_valid-head_of expired (x ∷ xs) h = ground arith

-- The choice is of an entry that holds if there is one.
is_valid-choose {ℓ} :
    {A : Type ℓ} (expired : A → Bool) (xs : List A)
    → is_valid expired (choose expired xs) ≡ any (λ e. not (expired e)) xs
unfolding choose
is_valid-choose expired xs = elim (first_where-cases (λ e. not (expired e)) xs) [
  | inl w ↦ rw (w.0, choose) (is_valid-head_of expired xs w.1 ∙ sym w.1)
  | inr w ↦ rw (w.1, choose) (w.2 ∙ sym w.3)
]

map-pointwise {ℓ κ μ} :
    {A : Type ℓ} {B : Type κ} {C : Type μ} (f : B → C) (g : A → C) (h : A → B) (xs : List A)
    → ((x : A) → f (h x) ≡ g x)
    → map f (map h xs) ≡ map g xs
map-pointwise f g h [] e = refl
map-pointwise f g h (x ∷ xs) e = cc (e x, map-pointwise f g h xs e)

map-agree {ℓ κ} :
    {A : Type ℓ} {B : Type κ} (f g : A → B) (xs : List A)
    → ((x : A) → f x ≡ g x)
    → map f xs ≡ map g xs
map-agree f g [] e = refl
map-agree f g (x ∷ xs) e = cc (e x, map-agree f g xs e)

-- The findings that no acceptance is for.
abbrev pub of_other_checks : List Finding → List Finding
of_other_checks findings = select (λ (f : Finding). not (f.dimension == tool_scope)) findings

never_waived : (a b : Bool) → a ≡ (a && not (b && false))
never_waived a b = ground arith

module _ (day_of : String → ℕ) (today : ℕ) where
  -- A named human accepted this very version of the tool, and the acceptance has not lapsed.
  abbrev pub is_waived : List ToolDriftAcceptance → DriftEntry → Bool
  is_waived entries entry =
      is_tool entry.kind
      && any (λ (e : ToolDriftAcceptance). not (acceptance_expired day_of today e.expires))
          (select (covers day_of today entry) entries)

  waive_with-regression :
      (o : Option ToolDriftAcceptance) (entry : DriftEntry)
      → is_regression (waive_with day_of today o entry).direction ≡ (
          is_regression entry.direction
          && not
              (is_valid (λ (e : ToolDriftAcceptance). acceptance_expired day_of today e.expires) o))
  unfolding waive_with
  waive_with-regression none entry = ground arith
  waive_with-regression (some chosen) entry = ground arith

  waive_entry-regression :
      (entries : List ToolDriftAcceptance) (entry : DriftEntry)
      → is_regression (waive_entry day_of today entries entry).direction
        ≡ (is_regression entry.direction && not (is_waived entries entry))
  unfolding waive_entry
  waive_entry-regression entries entry =
      let expired = λ (e : ToolDriftAcceptance). acceptance_expired day_of today e.expires in
      let covering = select (covers day_of today entry) entries in
      if_rule
        (λ (e : DriftEntry).
          is_regression e.direction
          ≡ (is_regression entry.direction && not (is_waived entries entry)))
        (is_tool entry.kind && is_regression entry.direction)
        (waive_with day_of today (choose expired covering) entry) entry
        (λ h.
          waive_with-regression (choose expired covering) entry
          ∙ ap (λ b. is_regression entry.direction && not b) (is_valid-choose expired covering)
          ∙ ground arith)
        (λ h. ground arith)

  -- After a ledger is applied to a drift report, an entry is still a regression exactly when it was
  -- one and is not of a tool whose new digest has an acceptance, for its server and name, that has
  -- not lapsed; no entry becomes a regression, is dropped or changes its place.
  pub apply_tool_drift_acceptances_exact :
      (report : DriftReport) (entries : List ToolDriftAcceptance)
      → map
          (λ (e : DriftEntry). is_regression e.direction)
          (apply_tool_drift_acceptances day_of today report entries).entries
        ≡ map
            (λ (e : DriftEntry). is_regression e.direction && not (is_waived entries e))
            report.entries
  unfolding apply_tool_drift_acceptances
  apply_tool_drift_acceptances_exact report [] =
      map-agree (λ (e : DriftEntry). is_regression e.direction)
        (λ (e : DriftEntry). is_regression e.direction && not (is_waived [] e)) report.entries
        (λ e. never_waived (is_regression e.direction) (is_tool e.kind))
  apply_tool_drift_acceptances_exact report (first ∷ entries) =
      map-pointwise (λ (e : DriftEntry). is_regression e.direction)
        (λ (e : DriftEntry). is_regression e.direction && not (is_waived (first ∷ entries) e))
        (waive_entry day_of today (first ∷ entries)) report.entries
        (waive_entry-regression (first ∷ entries))

  accept_with-kept :
      (o : Option LedgerEntry) (finding : Finding)
      → ((accept_with day_of today o finding).0.severity ≡ finding.severity)
        × ((accept_with day_of today o finding).0.dimension ≡ finding.dimension)
        × ((finding.dimension == tool_scope) ≡ false
            → (accept_with day_of today o finding).0 ≡ finding)
  unfolding accept_with attached
  accept_with-kept none finding = (refl, refl, λ _. refl)
  accept_with-kept (some entry) finding = ground arith

  accept_finding-kept :
      (candidates : List LedgerEntry) (finding : Finding)
      → ((accept_finding day_of today candidates finding).0.severity ≡ finding.severity)
        × ((accept_finding day_of today candidates finding).0.dimension ≡ finding.dimension)
        × ((finding.dimension == tool_scope) ≡ false
            → (accept_finding day_of today candidates finding).0 ≡ finding)
  unfolding accept_finding
  accept_finding-kept candidates finding =
      accept_with-kept
        (choose (λ (e : LedgerEntry). acceptance_expired day_of today e.expires)
          (select (λ (e : LedgerEntry). e.finding == finding.id) candidates))
        finding

  weights-accepted :
      (candidates : List LedgerEntry) (findings : List Finding)
      → weights (map (λ (f : Finding). (accept_finding day_of today candidates f).0) findings)
        ≡ weights findings
  weights-accepted candidates [] = refl
  weights-accepted candidates (f ∷ rest) =
      cc ((accept_finding-kept candidates f).0, weights-accepted candidates rest)

  grade_server-accepted :
      (entries : List LedgerEntry) (server : Server)
      → grade_server (accept_server day_of today entries server) ≡ grade_server server
  unfolding grade_server grade_findings score_findings accept_server
  grade_server-accepted entries server =
      cc (weights-accepted (candidates_for day_of today entries server) server.findings)

  others-accepted :
      (candidates : List LedgerEntry) (findings : List Finding)
      → of_other_checks
          (map (λ (f : Finding). (accept_finding day_of today candidates f).0) findings)
        ≡ of_other_checks findings
  others-accepted candidates [] = refl
  others-accepted candidates (f ∷ rest) =
      let kept = accept_finding-kept candidates f in
      elim (Bool-cases (f.dimension == tool_scope)) [
        | inl e ↦ rw (kept.1, e) (others-accepted candidates rest)
        | inr e ↦ rw (kept.2 e, e) (ap (λ fs. f ∷ fs) (others-accepted candidates rest))
      ]

  others-accept_server :
      (entries : List LedgerEntry) (server : Server)
      → of_other_checks (accept_server day_of today entries server).findings
        ≡ of_other_checks server.findings
  unfolding accept_server
  others-accept_server entries server =
      others-accepted (candidates_for day_of today entries server) server.findings

  -- However a ledger is applied to a report, the report keeps its overall grade and its grades by
  -- dimension, every server would be graded again as it was, and the findings of every server that
  -- are of another dimension than the scope of tools come out as they were, in their order.
  pub apply_acceptances_grades :
      (report : Report) (entries : List LedgerEntry)
      → ((apply_acceptances day_of today report entries).0.overall_grade ≡ report.overall_grade)
        × ((apply_acceptances day_of today report entries).0.dimension_grades
            ≡ report.dimension_grades)
        × (map grade_server (apply_acceptances day_of today report entries).0.servers
            ≡ map grade_server report.servers)
        × (map
              (λ (s : Server). of_other_checks s.findings)
              (apply_acceptances day_of today report entries).0.servers
            ≡ map (λ (s : Server). of_other_checks s.findings) report.servers)
  unfolding apply_acceptances
  apply_acceptances_grades report [] = (refl, refl, refl, refl)
  apply_acceptances_grades report (first ∷ entries) = (
    refl,
    refl,
    map-pointwise grade_server grade_server (accept_server day_of today (first ∷ entries))
        report.servers (grade_server-accepted (first ∷ entries)),
    map-pointwise (λ (s : Server). of_other_checks s.findings)
        (λ (s : Server). of_other_checks s.findings) (accept_server day_of today (first ∷ entries))
        report.servers (others-accept_server (first ∷ entries)),
  )
