-- ===== src/Runner/Failure.antt =====
-- `_failure_result` and `_classify_process_failure` of packages/pipeline/runner.py.
use Prim.Native.Char.{code}
use gaussian_os.Prelude.{
  ℕ, zero, suc, String, Bool, true, false, ◌&&◌, ◌||◌, none, some, List, [], ◌∷◌, ◌==◌, string_eq,
  ℕ_eq, Result, codes, any, if◌then◌else◌,
}
use gaussian_os.Contracts.Kinds.{ContractVersion, StageStatus, ErrorCode, DateTime}
use gaussian_os.Contracts.Json.{Dict}
use gaussian_os.Contracts.Violations.{Violation}
use gaussian_os.Contracts.Request.{StageRequest}
use gaussian_os.Contracts.Outcome.{StageResult, validate_result}

-- text[:n]
unfoldable pub text_take : ℕ → String → String
text_take zero s = ""
text_take (suc n) String.[] = ""
text_take (suc n) (String.◌∷◌ c s) = String.◌∷◌ c (text_take n s)

-- code.value
abbrev pub code_value : ErrorCode → String
code_value ErrorCode.invalid_request = "invalid_request"
code_value ErrorCode.policy_denied = "policy_denied"
code_value ErrorCode.timeout = "timeout"
code_value ErrorCode.cancelled = "cancelled"
code_value ErrorCode.worker_crashed = "worker_crashed"
code_value ErrorCode.cuda_oom = "cuda_oom"
code_value ErrorCode.dependency_missing = "dependency_missing"
code_value ErrorCode.invalid_result = "invalid_result"
code_value ErrorCode.output_validation_failed = "output_validation_failed"
code_value ErrorCode.artifact_commit_failed = "artifact_commit_failed"
code_value ErrorCode.internal_error = "internal_error"

-- message[:4000] or code.value
unfoldable pub short_message : ErrorCode → String → String
unfolding text_take
short_message code message =
    let short = text_take 4000 message in if short == "" then code_value code else short

-- What `_failure_result` is called with, beside the request and the times.
pub record Failure : Type 0 where
  pub code : ErrorCode
  pub message : String
  pub retryable : Bool
  pub status : StageStatus
  pub details : Dict

unfoldable pub failure_value : StageRequest → DateTime → DateTime → Failure → StageResult
unfolding short_message
failure_value request started_at now f = record {
  schema_version = ContractVersion.v1_0_0;
  request_id = request.request_id;
  run_id = request.run_id;
  stage_id = request.stage_id;
  plugin_id = request.plugin_id;
  plugin_version = request.plugin_version;
  status = f.status;
  started_at = started_at;
  finished_at = now;
  artifacts = [];
  quality_report = none;
  error = some (record {
    code = f.code;
    message = short_message f.code f.message;
    retryable = f.retryable;
    details = f.details;
  });
}

-- `_failure_result`: the constructors validate, so it may raise a ValidationError.
unfoldable pub failure_result :
    StageRequest → DateTime → DateTime → Failure → Result (List Violation) StageResult
unfolding failure_value
failure_result request started_at now f = validate_result (failure_value request started_at now f)

-- needle in haystack, on code points
abbrev pub is_prefix : List ℕ → List ℕ → Bool
is_prefix [] text = true
is_prefix (c ∷ needle) [] = false
is_prefix (c ∷ needle) (d ∷ text) = c == d && is_prefix needle text

abbrev pub occurs : List ℕ → List ℕ → Bool
occurs needle [] = is_prefix needle []
occurs needle (d ∷ text) = is_prefix needle (d ∷ text) || occurs needle text

abbrev pub cuda_signatures : List String
cuda_signatures =
    "cuda out of memory" ∷ "cudnn_status_alloc_failed" ∷ "cuda_error_out_of_memory" ∷ []

abbrev pub import_signatures : List String
import_signatures = "no module named" ∷ "module not found" ∷ []

-- `str.lower` of the standard library, on the code points of a text.
module _ (lower : List ℕ → List ℕ) where
  abbrev pub shows_any : List String → String → Bool
  shows_any signatures tail = any (λ s. occurs (codes s) (lower (codes tail))) signatures

  unfoldable pub classify_process_failure : String → ErrorCode
  classify_process_failure stderr_tail =
      if shows_any cuda_signatures stderr_tail
      then ErrorCode.cuda_oom
      else if shows_any import_signatures stderr_tail
      then ErrorCode.dependency_missing
      else ErrorCode.worker_crashed
