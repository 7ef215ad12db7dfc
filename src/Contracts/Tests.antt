-- ===== src/Contracts/Tests.antt =====
-- The contracts of packages/plugin_sdk/contracts.py on concrete values.
use gaussian_os.Prelude.{String, true, false, ◌≡◌, refl, none, some, [], ◌∷◌, split_slash}
use gaussian_os.Contracts.Kinds.{
  ContractVersion, ExecutionProfile, PluginDistribution, StageKind, StageStatus, DateTime,
}
use gaussian_os.Contracts.Json.{is_json_dict}
use gaussian_os.Contracts.Patterns.{is_identifier, is_exact_version, is_commit, is_sha256}
use gaussian_os.Contracts.Violations.{Violation}
use gaussian_os.Contracts.Manifest.{
  WorkerEntrypoint, PluginManifest, manifest_violations, manifest_fields, manifest_rule,
  entrypoint_violations, check_command, check_environment,
}
use gaussian_os.Contracts.Manifest.Guarantees.{IsGuaranteed, manifest_guarantees}
use gaussian_os.Contracts.Artifact.{
  ArtifactManifest, is_safe_path, artifact_violations, artifact_fields, artifact_rule,
  file_violations,
}
use gaussian_os.Contracts.Quality.{
  QualityReport, report_violations, report_rule, check_violations, required_checks_pass,
}
use gaussian_os.Contracts.Outcome.{
  StageResult, result_violations, result_fields, result_rule, status_rule, success_rule,
  artifact_ids,
}
use gaussian_os.Contracts.Outcome.Shape.{IsSuccess, IsFailure, result_shape}
use gaussian_os.Prelude.{◌⊎◌, ◌≤◌, IsDistinct, string_eq}

abbrev pub commit_text : String
commit_text = "0123456789abcdef0123456789abcdef01234567"

abbrev pub digest_text : String
digest_text = "0123456789abcdef0123456789abcdef0123456789abcdef0123456789abcdef"

abbrev pub worker : WorkerEntrypoint
worker = record {
  command = "{python}" ∷ "-m" ∷ "workers.train_gsplat" ∷ [];
  environment = ("PYTHONUTF8", "1") ∷ [];
}

abbrev pub trainer : PluginManifest
trainer = record {
  schema_version = ContractVersion.v1_0_0;
  plugin_id = "train.gsplat";
  display_name = "gsplat trainer";
  plugin_version = "1.5.3";
  distribution = PluginDistribution.third_party;
  stage_kinds = StageKind.training ∷ [];
  supported_profiles = ExecutionProfile.production ∷ ExecutionProfile.research ∷ [];
  research_only = false;
  entrypoint = worker;
  supported_request_versions = ContractVersion.v1_0_0 ∷ [];
  supported_result_versions = ContractVersion.v1_0_0 ∷ [];
  code_license = "Apache-2.0";
  upstream_repository = some "https://github.com/nerfstudio-project/gsplat";
  upstream_commit = some commit_text;
  checkpoint_assets = [];
  dependency_locks = [];
}

manifest_guarantees_example : IsGuaranteed trainer
unfolding manifest_violations manifest_fields manifest_rule entrypoint_violations check_command
    check_environment is_identifier is_exact_version is_commit
manifest_guarantees_example = manifest_guarantees trainer refl

refused_paths :
    (is_safe_path "../points.ply" ≡ false)
    × (is_safe_path "/etc/passwd" ≡ false)
    × (is_safe_path "a//b" ≡ false)
    × (is_safe_path "artifact.manifest.json" ≡ false)
unfolding is_safe_path split_slash
refused_paths = (refl, refl, refl, refl)

abbrev pub at_second : DateTime
at_second = record { micros = 1000000; has_timezone = true }

abbrev pub cloud : ArtifactManifest
cloud = record {
  schema_version = ContractVersion.v1_0_0;
  artifact_id = "points";
  artifact_type = "gaussian.ply";
  format_version = "1";
  producer_plugin_id = "train.gsplat";
  producer_plugin_version = "1.5.3";
  source_request_id = "request-1";
  source_attempt_id = "attempt-u0";
  files =
      record {
        relative_path = "points.ply";
        sha256 = digest_text;
        size_bytes = 2;
        media_type = "application/octet-stream";
      }
      ∷ [];
  created_at = at_second;
  metadata = [];
}

abbrev pub passed_report : QualityReport
passed_report = record {
  schema_version = ContractVersion.v1_0_0;
  report_id = "report-1";
  passed = true;
  checks =
      record { check_id = "finite"; passed = true; required = true; message = ""; metrics = [] }
      ∷ record {
        check_id = "density";
        passed = false;
        required = false;
        message = "";
        metrics = [];
      }
      ∷ [];
  metrics = [];
  warnings = [];
}

abbrev pub trained : StageResult
trained = record {
  schema_version = ContractVersion.v1_0_0;
  request_id = "request-1";
  run_id = "run-1";
  stage_id = "train";
  plugin_id = "train.gsplat";
  plugin_version = "1.5.3";
  status = StageStatus.succeeded;
  started_at = at_second;
  finished_at = record { micros = 1500000; has_timezone = true };
  artifacts = cloud ∷ [];
  quality_report = some passed_report;
  error = none;
}

result_shape_example :
    (IsSuccess trained ⊎ IsFailure trained)
    × ((trained.started_at).micros ≤ (trained.finished_at).micros)
    × IsDistinct (artifact_ids trained.artifacts)
unfolding result_violations result_fields result_rule status_rule success_rule artifact_violations
    artifact_fields artifact_rule file_violations report_violations report_rule check_violations
    required_checks_pass is_identifier is_exact_version is_sha256 is_safe_path split_slash
    is_json_dict
result_shape_example = result_shape trained refl

late_result :
    result_violations (record trained { finished_at = record { micros = 0; has_timezone = true } })
    ≡ Violation.finished_before_started ∷ []
unfolding result_violations result_fields result_rule status_rule success_rule artifact_violations
    artifact_fields artifact_rule file_violations report_violations report_rule check_violations
    required_checks_pass is_identifier is_exact_version is_sha256 is_safe_path split_slash
    is_json_dict
late_result = refl
