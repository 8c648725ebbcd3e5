-- ===== src/Drift/Staleness.antt =====
-- src/mcpscan/drift/staleness.py: how old a baseline is. A date is the number of its day, and
-- `datetime.fromisoformat`, which a text that is no date makes raise, is a parameter. The age is
-- written with its sign: a baseline of a later day than today has a negative one.
use ianua_broker.Prelude.{
  num_Ord, text_Ord, pair_Ord, list_Ord, num_Eq, text_Eq, pair_Eq, option_Eq, list_Eq, Bool, Option,
  String, ℕ, if◌then◌else◌, ltb, some, ◌≡◌, false, leb, true, ◌==◌, none, ◌-◌, ◌↔◌, ◌+◌, ◌<◌, arith,
}

-- A number of days with its sign: `days_ahead n` is minus `n`.
pub data Age : Type 0 where
  days_ago days_ahead : ℕ → Age

pub record StalenessVerdict : Type 0 where
  pub created_at : Option String
  pub created_date : Option ℕ
  pub age_days : Option Age
  pub max_age_days : Age

abbrev pub is_known : StalenessVerdict → Bool
is_known verdict = elim verdict.age_days [ none ↦ false | some age ↦ true ]

-- `age_days > max_age_days`
unfoldable pub exceeds : Age → Age → Bool
exceeds (days_ago n) (days_ago limit) = ltb limit n
exceeds (days_ago n) (days_ahead limit) = ltb 0 (n + limit)
exceeds (days_ahead n) (days_ago limit) = false
exceeds (days_ahead n) (days_ahead limit) = ltb n limit

unfoldable pub is_stale : StalenessVerdict → Bool
unfolding exceeds
is_stale verdict = elim verdict.age_days [
  | none ↦ false
  | some age ↦ exceeds age verdict.max_age_days
]

-- `(today - created_date).days`
unfoldable pub age_of : ℕ → ℕ → Age
age_of today created =
    if leb created today then days_ago (today - created) else days_ahead (created - today)

-- The day and the limit are together before today.
abbrev pub IsPast : ℕ → Age → ℕ → Type 0
IsPast day (days_ago limit) today = day + limit < today
IsPast day (days_ahead limit) today = day < today + limit

module _ (fromisoformat : String → Option ℕ) where
  unfoldable pub parse_iso_date : Option String → Option ℕ
  parse_iso_date none = none
  parse_iso_date (some created_at) = if created_at == "" then none else fromisoformat created_at

  unfoldable pub assess_staleness : Option String → ℕ → Age → StalenessVerdict
  unfolding parse_iso_date age_of
  assess_staleness created_at today max_age_days = elim (parse_iso_date created_at) [
    | none ↦ record {
      created_at = created_at;
      created_date = none;
      age_days = none;
      max_age_days = max_age_days;
    }
    | some created_date ↦ record {
      created_at = created_at;
      created_date = some created_date;
      age_days = some (age_of today created_date);
      max_age_days = max_age_days;
    }
  ]

  -- A baseline is stale exactly when its creation date reads as a date more than the limit of days
  -- before today, the limit being of either sign; so one without a readable date never is.
  pub assess_staleness-stale :
      (created_at : Option String) (today : ℕ) (limit : Age)
      → (is_stale (assess_staleness created_at today limit) ≡ true)
        ↔ ((day : ℕ) × (parse_iso_date created_at ≡ some day) × IsPast day limit today)
  unfolding assess_staleness is_stale exceeds age_of
  assess_staleness-stale none today (days_ago limit) = ground arith
  assess_staleness-stale none today (days_ahead limit) = ground arith
  assess_staleness-stale (some created_at) today (days_ago limit) = ground arith
  assess_staleness-stale (some created_at) today (days_ahead limit) = ground arith
