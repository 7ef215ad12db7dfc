-- ===== src/Contracts/Outcome.antt =====
-- `StageError` and `StageResult` of packages/plugin_sdk/contracts.py.
pub mod Shape
use gaussian_os.Prelude.{
  collect, each, ℕ, String, Bool, true, false, not, ◌&&◌, ◌||◌, ◌≡◌, Option, none, some, List, [],
  ◌∷◌, ◌++◌, map, string_eq, ltb, is_empty, is_none, is_some, is_unique, unless, if◌then◌else◌,
  Result,
}
use gaussian_os.Contracts.Patterns.{is_identifier, is_exact_version}
use gaussian_os.Contracts.Kinds.{ContractVersion, StageStatus, ErrorCode, DateTime}
use gaussian_os.Contracts.Json.{Dict, is_json_dict}
use gaussian_os.Contracts.Violations.{Violation, check_length, then_rule, validated}
use gaussian_os.Contracts.Artifact.{ArtifactManifest, artifact_violations}
use gaussian_os.Contracts.Quality.{QualityReport, report_violations}

pub record StageError : Type 0 where
  pub code : ErrorCode
  pub message : String
  pub retryable : Bool
  pub details : Dict

unfoldable pub error_violations : StageError → List Violation
error_violations e =
    check_length 1 4000 e.message ++ unless (is_json_dict e.details) Violation.not_json

pub record StageResult : Type 0 where
  pub schema_version : ContractVersion
  pub request_id : String
  pub run_id : String
  pub stage_id : String
  pub plugin_id : String
  pub plugin_version : String
  pub status : StageStatus
  pub started_at : DateTime
  pub finished_at : DateTime
  pub artifacts : List ArtifactManifest
  pub quality_report : Option QualityReport
  pub error : Option StageError

abbrev pub of_report : Option QualityReport → List Violation
of_report none = []
of_report (some q) = report_violations q

abbrev pub of_error : Option StageError → List Violation
of_error none = []
of_error (some e) = error_violations e

unfoldable pub result_fields : StageResult → List (List Violation)
result_fields r =
    unless (is_identifier r.run_id) Violation.identifier_unstable
    ∷ unless (is_identifier r.stage_id) Violation.identifier_unstable
    ∷ unless (is_identifier r.plugin_id) Violation.identifier_unstable
    ∷ unless (is_exact_version r.plugin_version) Violation.version_not_exact
    ∷ unless r.started_at.has_timezone Violation.timezone_missing
    ∷ unless r.finished_at.has_timezone Violation.timezone_missing
    ∷ each artifact_violations r.artifacts
    ∷ of_report r.quality_report
    ∷ of_error r.error
    ∷ []

abbrev pub artifact_ids : List ArtifactManifest → List String
artifact_ids ms = map (λ (m : ArtifactManifest). m.artifact_id) ms

abbrev pub report_passed : Option QualityReport → Bool
report_passed none = false
report_passed (some q) = q.passed

abbrev pub is_cancelled_code : ErrorCode → Bool
is_cancelled_code ErrorCode.cancelled = true
is_cancelled_code _ = false

-- The rules of `result_invariants` for a result that succeeded,
unfoldable pub success_rule : StageResult → Option Violation
success_rule r =
    if is_some r.error
    then some Violation.success_with_error
    else if is_empty r.artifacts
    then some Violation.success_without_artifact
    else if not (report_passed r.quality_report)
    then some Violation.success_without_quality
    else none

-- and for one that did not.
unfoldable pub failure_rule :
    StageStatus → List ArtifactManifest → Option StageError → Option Violation
failure_rule status artifacts none = some Violation.failure_without_error
failure_rule status (a ∷ artifacts) (some e) = some Violation.failure_with_artifacts
failure_rule StageStatus.cancelled [] (some e) =
    if is_cancelled_code e.code then none else some Violation.cancelled_with_other_code
failure_rule _ [] (some e) = none

unfoldable pub status_rule : StageStatus → StageResult → Option Violation
unfolding success_rule failure_rule
status_rule StageStatus.succeeded r = success_rule r
status_rule status r = failure_rule status r.artifacts r.error

-- `result_invariants`
unfoldable pub result_rule : StageResult → Option Violation
unfolding status_rule
result_rule r =
    if ltb r.finished_at.micros r.started_at.micros
    then some Violation.finished_before_started
    else if not (is_unique (artifact_ids r.artifacts))
    then some Violation.artifact_ids_repeated
    else status_rule r.status r

unfoldable pub result_violations : StageResult → List Violation
unfolding result_fields result_rule
result_violations r = then_rule (collect (result_fields r)) (result_rule r)

-- `StageResult(...)` and `StageResult.model_validate_json`: the value, or a ValidationError.
unfoldable pub validate_result : StageResult → Result (List Violation) StageResult
unfolding result_violations
validate_result r = validated (result_violations r) r
