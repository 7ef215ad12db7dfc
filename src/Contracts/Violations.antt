-- ===== src/Contracts/Violations.antt =====
-- What a contract model reports. pydantic runs every field's checks and collects what they raise;
-- the validator over the whole model runs only if no field has failed, and raises at most one error.
use gaussian_os.Prelude.{
  ℕ, String, ◌≡◌, refl, Option, none, some, List, [], ◌∷◌, ◌++◌, arith, leb, unless, text_length,
  Result, ok, err,
}

-- One constructor for each way in which a check of packages/plugin_sdk/contracts.py can fail.
pub data Violation : Type 0 where
  too_short too_long negative : Violation
  identifier_unstable version_not_exact sha256_malformed commit_malformed : Violation
  not_json metric_not_finite timezone_missing path_unsafe : Violation
  command_item_unsafe python_placeholder_repeated environment_invalid : Violation
  stage_kinds_repeated profiles_repeated versions_repeated : Violation
  asset_ids_repeated dependency_ids_repeated provenance_missing : Violation
  research_only_in_production research_only_without_research : Violation
  runtime_paths_partial input_ids_repeated file_paths_repeated : Violation
  check_ids_repeated gate_differs : Violation
  finished_before_started artifact_ids_repeated success_with_error : Violation
  success_without_artifact success_without_quality failure_without_error : Violation
  failure_with_artifacts cancelled_with_other_code : Violation

-- Field(min_length=low, max_length=high) on a text
abbrev pub check_length : ℕ → ℕ → String → List Violation
check_length low high s =
    unless (leb low (text_length s)) Violation.too_short
    ++ unless (leb (text_length s) high) Violation.too_long

-- `model_validator(mode="after")`: after the fields, and only if they are in order.
abbrev pub then_rule : List Violation → Option Violation → List Violation
then_rule [] none = []
then_rule [] (some v) = v ∷ []
then_rule (v ∷ vs) rule = v ∷ vs

pub then_rule-eq_nil :
    (fields : List Violation) (rule : Option Violation)
    → then_rule fields rule ≡ []
    → (fields ≡ []) × (rule ≡ none)
then_rule-eq_nil [] none h = (refl, refl)
then_rule-eq_nil [] (some v) h = ground arith
then_rule-eq_nil (v ∷ vs) rule h = ground arith

-- Construction of a model: the value, or the ValidationError with everything that failed.
abbrev pub validated {ℓ} : {A : Type ℓ} → List Violation → A → Result (List Violation) A
validated [] a = ok a
validated (v ∷ vs) a = err (v ∷ vs)
