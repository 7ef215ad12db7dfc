-- ===== src/Runner/Precheck.antt =====
-- What `run` of packages/pipeline/runner.py checks before it begins an attempt.
use gaussian_os.Prelude.{
  ℕ, ◌-◌, String, Bool, false, not, Option, none, some, [], string_eq, ℕ_eq, Result, ok, err, leb,
  min, ℤ, pos, negsuc, if◌then◌else◌,
}
use gaussian_os.Contracts.Kinds.{StageStatus, ErrorCode, DateTime}
use gaussian_os.Contracts.Manifest.{PluginManifest}
use gaussian_os.Contracts.Request.{StageRequest}
use gaussian_os.Licensing.Evaluate.{PolicyDecision}
use gaussian_os.Licensing.Registry.{RegistryError, enforce}
use gaussian_os.Runner.Failure.{Failure}
use gaussian_os.Runner.Contract.{request_manifest_error}
use gaussian_os.Runner.Meeting.{Runner, Meeting}

abbrev pub plain : ErrorCode → String → Failure
plain code message = record {
  code = code;
  message = message;
  retryable = false;
  status = StageStatus.failed;
  details = [];
}

abbrev pub is_positive : ℤ → Bool
is_positive (pos n) = leb 1 n
is_positive (negsuc n) = false

abbrev pub magnitude : ℤ → ℕ
magnitude (pos n) = n
magnitude (negsuc n) = 0

-- remaining <= 0
abbrev pub is_expired : Option DateTime → DateTime → Bool
is_expired none started_at = false
is_expired (some deadline) started_at = leb deadline.micros started_at.micros

-- min(timeout_seconds, remaining)
abbrev pub effective_timeout : Option DateTime → DateTime → ℤ → ℕ
effective_timeout none started_at timeout = magnitude timeout
effective_timeout (some deadline) started_at timeout =
    min (magnitude timeout) (deadline.micros - started_at.micros)

abbrev pub policy_check : Runner → Result RegistryError PolicyDecision → Option Failure
policy_check s (ok decision) = none
policy_check s (err e) = some (plain ErrorCode.policy_denied (s.describe_policy e))

abbrev pub contract_check : Runner → StageRequest → PluginManifest → Option String → Option Failure
contract_check s q m (some message) = some (plain ErrorCode.invalid_request message)
contract_check s q m none = policy_check s (enforce s.registry m q.profile)

abbrev pub time_check : Runner → StageRequest → PluginManifest → Meeting → Option Failure
time_check s q m e =
    if not (is_positive e.timeout)
    then some (plain ErrorCode.invalid_request "timeout_seconds must be positive")
    else if is_expired q.deadline_utc e.started_at
    then some (plain ErrorCode.timeout "request deadline has already expired")
    else contract_check s q m (request_manifest_error q m)

abbrev pub token_check :
    Runner → StageRequest → PluginManifest → Meeting → Option String → Option Failure
token_check s q m e (some reason) = some (record {
  code = ErrorCode.cancelled;
  message = reason;
  retryable = false;
  status = StageStatus.cancelled;
  details = [];
})
token_check s q m e none = time_check s q m e

-- Everything before the attempt is begun: why the call is refused, if it is.
unfoldable pub precheck : Runner → StageRequest → PluginManifest → Meeting → Option Failure
precheck s q m e = token_check s q m e e.cancelled
