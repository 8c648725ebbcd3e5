-- ===== src/Domain.antt =====
-- src/mcpscan/domain.py: the vocabulary that every other part shares. A frozen dataclass is a
-- record, an `Enum` a data type whose `.value` is a function into texts.
use ianua_broker.Prelude.{
  Dict, num_Ord, text_Ord, pair_Ord, list_Ord, ℕ, String, ◌≡◌, ◌↔◌, Bool, true, false, Option, List,
  [], ◌∷◌, arith, num_Eq, text_Eq, pair_Eq, option_Eq, Eq,
}

pub data Severity : Type 0 where
  critical high medium low info : Severity

-- The table `_SEVERITY_WEIGHT`, read by the property `weight`.
unfoldable pub weight : Severity → ℕ
weight critical = 40
weight high = 20
weight medium = 10
weight low = 3
weight info = 0

unfoldable pub severity_value : Severity → String
severity_value critical = "critical"
severity_value high = "high"
severity_value medium = "medium"
severity_value low = "low"
severity_value info = "info"

pub data Dimension : Type 0 where
  exposure credential tool_scope pinning : Dimension

abbrev pub dimension_beq : Dimension → Dimension → Bool
dimension_beq exposure exposure = true
dimension_beq credential credential = true
dimension_beq tool_scope tool_scope = true
dimension_beq pinning pinning = true
dimension_beq _ _ = false

pub dimension_beq_iff : (a b : Dimension) → (dimension_beq a b ≡ true) ↔ (a ≡ b)
dimension_beq_iff a b = ground arith

instance abbrev pub dimension_Eq : Eq Dimension
dimension_Eq = record { beq = dimension_beq; beq_iff = dimension_beq_iff }

unfoldable pub dimension_value : Dimension → String
dimension_value exposure = "exposure"
dimension_value credential = "credential"
dimension_value tool_scope = "tool_scope"
dimension_value pinning = "pinning"

-- `for dim in Dimension`
abbrev pub dimensions : List Dimension
dimensions = exposure ∷ credential ∷ tool_scope ∷ pinning ∷ []

pub data ServerState : Type 0 where
  running_state declared_state : ServerState

unfoldable pub state_value : ServerState → String
state_value running_state = "running"
state_value declared_state = "declared"

pub record SecretFingerprint : Type 0 where
  pub masked : String
  pub sha256_8 : String
  pub length : ℕ

pub record Location : Type 0 where
  pub path : String
  pub line : Option ℕ

pub record Acceptance : Type 0 where
  pub owner : String
  pub accepted : String
  pub expires : String
  pub reason : String
  pub expired : Bool

pub record Finding : Type 0 where
  pub id : String
  pub dimension : Dimension
  pub severity : Severity
  pub title : String
  pub location : Location
  pub remediation : String
  pub rationale : String
  pub secret : Option SecretFingerprint
  pub acceptance : Option Acceptance

pub record LiveToolPrint : Type 0 where
  pub name : String
  pub digest : String
  pub description_digest : String
  pub schema_digest : String
  pub annotations : List (String × String)
  pub pin_digest : String

pub record Server : Type 0 where
  pub id : String
  pub bind_addr : Option String
  pub port : Option ℕ
  pub pid : Option ℕ
  pub proc_name : Option String
  pub state : ServerState
  pub running : Bool
  pub inspection_incomplete : Bool
  pub findings : List Finding
  pub tool_identity : Option String
  pub live_tools : List LiveToolPrint

-- The letters of scoring.py's `_GRADE_BANDS` and `_FAIL_GRADE`.
pub data Grade : Type 0 where
  grade_a grade_b grade_c grade_d grade_f : Grade

abbrev pub grade_beq : Grade → Grade → Bool
grade_beq grade_a grade_a = true
grade_beq grade_b grade_b = true
grade_beq grade_c grade_c = true
grade_beq grade_d grade_d = true
grade_beq grade_f grade_f = true
grade_beq _ _ = false

pub grade_beq_iff : (a b : Grade) → (grade_beq a b ≡ true) ↔ (a ≡ b)
grade_beq_iff a b = ground arith

instance abbrev pub grade_Eq : Eq Grade
grade_Eq = record { beq = grade_beq; beq_iff = grade_beq_iff }

unfoldable pub letter : Grade → String
letter grade_a = "A"
letter grade_b = "B"
letter grade_c = "C"
letter grade_d = "D"
letter grade_f = "F"

pub record Report : Type 0 where
  pub schema_version : String
  pub servers : List Server
  pub overall_grade : Grade
  pub dimension_grades : Dict Dimension Grade
  pub generated_with_online : Bool
