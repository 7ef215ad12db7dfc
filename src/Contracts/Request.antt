-- ===== src/Contracts/Request.antt =====
-- `ArtifactReference` and `StageRequest` of packages/plugin_sdk/contracts.py. A UUID is the text of
-- its canonical form.
use gaussian_os.Prelude.{
  collect, each, String, not, ◌&&◌, ◌||◌, Option, none, some, List, [], ◌∷◌, map, string_eq, leb,
  text_length, is_none, is_some, is_unique, unless, if◌then◌else◌, Result,
}
use gaussian_os.Contracts.Patterns.{is_identifier, is_exact_version, is_sha256}
use gaussian_os.Contracts.Kinds.{ContractVersion, ExecutionProfile, StageKind, DateTime}
use gaussian_os.Contracts.Json.{Dict, is_json_dict}
use gaussian_os.Contracts.Violations.{Violation, then_rule, validated}

pub record ArtifactReference : Type 0 where
  pub schema_version : ContractVersion
  pub artifact_id : String
  pub artifact_type : String
  pub location : String
  pub manifest_sha256 : String

unfoldable pub reference_violations : ArtifactReference → List Violation
reference_violations r = collect (
    unless (is_identifier r.artifact_id) Violation.identifier_unstable
    ∷ unless (is_identifier r.artifact_type) Violation.identifier_unstable
    ∷ unless (leb 1 (text_length r.location)) Violation.too_short
    ∷ unless (is_sha256 r.manifest_sha256) Violation.sha256_malformed
    ∷ [])

pub record StageRequest : Type 0 where
  pub schema_version : ContractVersion
  pub request_id : String
  pub run_id : String
  pub stage_id : String
  pub stage_kind : StageKind
  pub plugin_id : String
  pub plugin_version : String
  pub profile : ExecutionProfile
  pub config : Dict
  pub inputs : List ArtifactReference
  pub attempt_id : Option String
  pub attempt_dir : Option String
  pub cancellation_file : Option String
  pub deadline_utc : Option DateTime

-- `attempt_id_is_stable`
abbrev pub check_attempt_id : Option String → List Violation
check_attempt_id none = []
check_attempt_id (some a) = unless (is_identifier a) Violation.identifier_unstable

-- `deadline_has_timezone`
abbrev pub check_deadline : Option DateTime → List Violation
check_deadline none = []
check_deadline (some d) = unless d.has_timezone Violation.timezone_missing

unfoldable pub request_fields : StageRequest → List (List Violation)
request_fields r =
    unless (is_identifier r.run_id) Violation.identifier_unstable
    ∷ unless (is_identifier r.stage_id) Violation.identifier_unstable
    ∷ unless (is_identifier r.plugin_id) Violation.identifier_unstable
    ∷ unless (is_exact_version r.plugin_version) Violation.version_not_exact
    ∷ unless (is_json_dict r.config) Violation.not_json
    ∷ each reference_violations r.inputs
    ∷ check_attempt_id r.attempt_id
    ∷ check_deadline r.deadline_utc
    ∷ []

abbrev pub input_ids : StageRequest → List String
input_ids r = map (λ (i : ArtifactReference). i.artifact_id) r.inputs

-- `runtime_paths_are_all_or_none`
unfoldable pub request_rule : StageRequest → Option Violation
request_rule r =
    if (is_none r.attempt_id || is_none r.attempt_dir || is_none r.cancellation_file)
      && (is_some r.attempt_id || is_some r.attempt_dir || is_some r.cancellation_file)
    then some Violation.runtime_paths_partial
    else if not (is_unique (input_ids r))
    then some Violation.input_ids_repeated
    else none

unfoldable pub request_violations : StageRequest → List Violation
unfolding request_fields request_rule
request_violations r = then_rule (collect (request_fields r)) (request_rule r)

unfoldable pub validate_request : StageRequest → Result (List Violation) StageRequest
unfolding request_violations
validate_request r = validated (request_violations r) r
