-- ===== src/Runner/Tests.antt =====
-- The runner of packages/pipeline/runner.py on a plugin that the policy permits.
use gaussian_os.Prelude.{
  true, false, length, if◌then◌else◌, ◌==◌, ℕ_eq, ℕ, ◌≤◌, true, ◌≡◌, ◌≢◌, refl, Option, none, some,
  [], ◌∷◌, ◌++◌, ok, string_eq, list_eq, ℕ_eq, arith, ℤ, pos, lookup, split_slash, ap,
}
use gaussian_os.Contracts.Kinds.{
  ExecutionProfile, StageKind, ContractVersion, kind_eq, version_eq, profile_eq,
}
use gaussian_os.Contracts.Json.{is_json_dict}
use gaussian_os.Contracts.Patterns.{is_identifier, is_exact_version, is_sha256}
use gaussian_os.Contracts.Artifact.{
  artifact_violations, artifact_fields, artifact_rule, file_violations, is_safe_path,
}
use gaussian_os.Contracts.Quality.{
  report_violations, report_rule, check_violations, required_checks_pass,
}
use gaussian_os.Contracts.Request.{StageRequest}
use gaussian_os.Contracts.Outcome.{
  validate_result, result_violations, result_fields, result_rule, status_rule, success_rule,
}
use gaussian_os.Contracts.Tests.{trainer, trained, at_second}
use gaussian_os.Licensing.Policy.{ProfilePolicy}
use gaussian_os.Licensing.Registry.{new_registry, get_policy}
use gaussian_os.Licensing.Gate.{IsPermitted}
use gaussian_os.Licensing.Tests.{registry, only_production}
use gaussian_os.Store.Tree.{bare}
use gaussian_os.Store.World.{World}
use gaussian_os.Store.Tests.{host, cloud_outputs}
use gaussian_os.Contracts.Request.{
  validate_request, request_violations, request_fields, request_rule,
}
use gaussian_os.Contracts.Kinds.{StageStatus}
use gaussian_os.Licensing.Registry.{enforce}
use gaussian_os.Licensing.Evaluate.{
  enforce_plugin_policy, evaluate_plugin_policy, policy_reports, requirement_reports, find_asset,
  find_dependency, find_last,
}
use gaussian_os.Store.Tree.{find, put, erase, names}
use gaussian_os.Store.Attempt.{
  begin_attempt, start_attempt, make_attempt_dir, write_document, finish_attempt, archive,
  is_unsafe_name, artifact_output_name, atomic_write_json, write_and_replace, clean_up,
  temporary_name,
}
use gaussian_os.Store.Validate.{
  validate_artifacts, validate_each, validate_artifact, walk_entries, check_files, descend,
}
use gaussian_os.Store.Commit.{
  commit, acquire_commit_locks, acquire_each, release_each, sorted, insert_sorted, write_manifest,
  write_manifests, publish, validate_and_publish, move_each, move_out,
}
use gaussian_os.Runner.Contract.{request_manifest_error}
use gaussian_os.Runner.Precheck.{precheck}
use gaussian_os.Runner.Run.{
  execute, supervise, after_wait, conclude, after_load, accept, after_commit,
}
use gaussian_os.Runner.Meeting.{Ran, returned}
use gaussian_os.Runner.Wait.{requested}
use gaussian_os.Runner.Token.{cancel_all, new_token, shown, first_reason, cancel_all_first}
use gaussian_os.Runner.Wait.{Reading, Limits, Write, waiting, wait_for_process}
use gaussian_os.Runner.Wait.Ends.{wait-ends}
use gaussian_os.Runner.Wait.Cause.{ShowsStop, first_request, wait-first_request}
use gaussian_os.Runner.Contract.{
  ResultFile, written, max_result_json_bytes, load_and_validate_result, identity_error,
  producers_error, worker_environment,
}
use gaussian_os.Runner.Contract.Belongs.{Belongs, load-Belongs, worker_environment-lookup}
use gaussian_os.Runner.Meeting.{Runner, Spawn, Meeting}
use gaussian_os.Runner.Run.{run}
use gaussian_os.Runner.Gated.{IsCleared, run_gated}
use gaussian_os.Runner.Ends.{HasEnded, run-HasEnded}
use gaussian_os.Runner.Settled.{Settled}
use gaussian_os.Runner.Shelf.{shelf}
use gaussian_os.Runner.Wait.{Process}
use gaussian_os.Runner.Wait.Ends.{IsKillable}
use gaussian_os.Runner.Publishes.{run-Settled}

abbrev runner : Runner
runner = record {
  host = host;
  registry = registry;
  grace = 5;
  path = λ key name. name;
  describe = λ e. "store error";
  describe_policy = λ e. "policy error";
  lower = λ text. text;
}

abbrev request : StageRequest
request = record {
  schema_version = ContractVersion.v1_0_0;
  request_id = "request-1";
  run_id = "run-1";
  stage_id = "train";
  stage_kind = StageKind.training;
  plugin_id = "train.gsplat";
  plugin_version = "1.5.3";
  profile = ExecutionProfile.production;
  config = [];
  inputs = [];
  attempt_id = none;
  attempt_dir = none;
  cancellation_file = none;
  deadline_utc = none;
}

abbrev at_time : Option ℤ → ℕ → Reading
at_time poll now = record { poll = poll; now = now; cancelled = none }

-- A worker on Windows that ends with TerminateProcess only.
abbrev worker_process : Process
worker_process = record {
  windows = true;
  gone = false;
  survives = true;
  exit_code = λ signals. if length signals == 2 then some (pos 1) else none;
}

worker_process-IsKillable : IsKillable worker_process
worker_process-IsKillable = record {
  gone_ends = λ h. absurd (cc h);
  first_ends = λ h. absurd (cc h);
  kill_ends = (λ h. cc h, λ h. cc h);
}

abbrev meeting : Meeting
meeting = record {
  cancelled = none;
  timeout = pos 60;
  started_at = at_second;
  now = record { micros = 2000000; has_timezone = true };
  monotonic = 0;
  spawn = Spawn.starts (at_time none 1 ∷ at_time (some (pos 0)) 2 ∷ []);
  process = worker_process;
  outputs = cloud_outputs;
  result_file = ResultFile.written 2000 trained;
  stderr_tail = "";
}

abbrev empty_world : World
empty_world = record {
  attempts = [];
  completed = [];
  failed = [];
  artifacts = bare;
  locks = record { held = []; unlock_faults = [] };
  supply = record { faults = []; drawn = 0 };
}

cancel_all_first_example :
    shown (cancel_all ("" ∷ "user" ∷ "shutdown" ∷ []) new_token)
    ≡ first_reason ("" ∷ "user" ∷ "shutdown" ∷ [])
cancel_all_first_example = cancel_all_first ("" ∷ "user" ∷ "shutdown" ∷ [])

run-Settled_example :
    Settled runner.host meeting.outputs
      (shelf empty_world)
      (run runner request trainer meeting empty_world)
run-Settled_example = run-Settled runner request trainer meeting empty_world

abbrev limits : Limits
limits = record { process = worker_process; deadline = 10; grace = 5; timeout_message = "late" }

abbrev silent : Write
silent reason w = (ok tt, w)

wait-ends_example :
    (wait_for_process limits silent
      ((at_time none 3 ∷ []) ++ at_time none 11 ∷ (at_time none 12 ∷ []) ++ at_time none 16 ∷ [])
      none
      empty_world).0
    ≢ waiting
wait-ends_example =
    wait-ends limits silent worker_process-IsKillable (at_time none 3 ∷ []) (at_time none 11)
      (at_time none 12 ∷ []) (at_time none 16) [] empty_world (omega arith, tt) (omega arith)
      (omega arith)

wait-first_request_example :
    ShowsStop
      (first_request limits (at_time none 11 ∷ at_time (some (pos 0)) 12 ∷ []))
      (wait_for_process limits silent
        (at_time none 11 ∷ at_time (some (pos 0)) 12 ∷ [])
        none
        empty_world).0
wait-first_request_example =
    wait-first_request limits silent (at_time none 11 ∷ at_time (some (pos 0)) 12 ∷ []) empty_world

load-Belongs_example :
    ((size : ℕ) × (written 2000 trained ≡ written size trained) × (size ≤ max_result_json_bytes))
    × (result_violations trained ≡ [])
    × Belongs request trainer at_second trained
unfolding load_and_validate_result validate_result identity_error producers_error result_violations
    result_fields result_rule status_rule success_rule artifact_violations artifact_fields
    artifact_rule file_violations report_violations report_rule check_violations
    required_checks_pass is_identifier is_exact_version is_sha256 is_safe_path is_json_dict
    split_slash
load-Belongs_example = load-Belongs (written 2000 trained) request trainer at_second trained refl

worker_environment-lookup_example :
    let variables =
      worker_environment (("PATH", "/bin") ∷ []) trainer "attempt-u0" "store" "production" in
    (lookup "GAUSSIAN_FACTORY_ATTEMPT_ID" variables ≡ some "attempt-u0")
    × (lookup "GAUSSIAN_FACTORY_ATTEMPT_DIR" variables ≡ some "store")
    × (lookup "GAUSSIAN_FACTORY_PROFILE" variables ≡ some "production")
worker_environment-lookup_example =
    worker_environment-lookup (("PATH", "/bin") ∷ []) trainer "attempt-u0" "store" "production"

abbrev status_of : Ran → Option StageStatus
status_of (returned o) = some (o.result).status
status_of _ = none

-- A quiet run publishes its artifact.
run_publishes :
    (status_of (run runner request trainer meeting empty_world).0 ≡ some StageStatus.succeeded)
    × (names ((run runner request trainer meeting empty_world).1).artifacts ≡ "points" ∷ [])
unfolding run execute supervise after_wait conclude after_load accept after_commit precheck
    request_manifest_error enforce get_policy enforce_plugin_policy evaluate_plugin_policy
    policy_reports requirement_reports find_asset find_dependency find_last validate_request
    request_violations request_fields request_rule begin_attempt start_attempt make_attempt_dir
    write_document finish_attempt archive is_unsafe_name artifact_output_name atomic_write_json
    write_and_replace clean_up temporary_name validate_artifacts validate_each validate_artifact
    walk_entries check_files descend commit acquire_commit_locks acquire_each release_each sorted
    insert_sorted write_manifest write_manifests publish validate_and_publish move_each move_out
    find put erase names wait_for_process requested load_and_validate_result validate_result
    identity_error producers_error result_violations result_fields result_rule status_rule
    success_rule artifact_violations artifact_fields artifact_rule file_violations report_violations
    report_rule check_violations required_checks_pass is_identifier is_exact_version is_sha256
    is_safe_path is_json_dict split_slash
run_publishes = (refl, refl)

run_gated_example :
    IsCleared runner request trainer meeting
    × ((policy : ProfilePolicy) × (get_policy request.profile (runner.registry).policies
          ≡ some policy)
        × (policy.profile ≡ request.profile)
        × IsPermitted trainer policy request.profile)
unfolding new_registry run execute supervise after_wait conclude after_load accept after_commit
    precheck request_manifest_error enforce get_policy enforce_plugin_policy evaluate_plugin_policy
    policy_reports requirement_reports find_asset find_dependency find_last validate_request
    request_violations request_fields request_rule begin_attempt start_attempt make_attempt_dir
    write_document finish_attempt archive is_unsafe_name artifact_output_name atomic_write_json
    write_and_replace clean_up temporary_name validate_artifacts validate_each validate_artifact
    walk_entries check_files descend commit acquire_commit_locks acquire_each release_each sorted
    insert_sorted write_manifest write_manifests publish validate_and_publish move_each move_out
    find put erase names wait_for_process requested load_and_validate_result validate_result
    identity_error producers_error result_violations result_fields result_rule status_rule
    success_rule artifact_violations artifact_fields artifact_rule file_violations report_violations
    report_rule check_violations required_checks_pass is_identifier is_exact_version is_sha256
    is_safe_path is_json_dict split_slash
run_gated_example =
    run_gated runner request trainer meeting only_production empty_world refl
      (λ h. cc (ap (λ (w : World). names w.artifacts) h))

-- A worker that never ends.
abbrev endless : Meeting
endless = record meeting {
  spawn = Spawn.starts (at_time none 1 ∷ at_time none 61 ∷ at_time none 66 ∷ []);
}

run-HasEnded_example : HasEnded (run runner request trainer endless empty_world)
run-HasEnded_example = run-HasEnded runner request trainer endless empty_world (
  record {
    early = at_time none 1 ∷ [];
    late = at_time none 61;
    middle = [];
    last = at_time none 66;
    more = [];
    split = refl;
    ordered = (omega arith, tt);
    passed = omega arith;
    over = omega arith;
  },
  worker_process-IsKillable,
)
