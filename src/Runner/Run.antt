-- ===== src/Runner/Run.antt =====
-- `SubprocessWorkerRunner.run` of packages/pipeline/runner.py, stage by stage. The interpolated parts of
-- its own messages are left out.
use gaussian_os.Prelude.{
  ◌+◌, String, Bool, true, false, Option, none, some, List, [], ◌∷◌, string_eq, ℕ_eq, Result, ok,
  err, ℤ, is_zero, if◌then◌else◌,
}
use gaussian_os.Contracts.Kinds.{StageStatus, ErrorCode}
use gaussian_os.Contracts.Json.{Value, Dict}
use gaussian_os.Contracts.Violations.{Violation}
use gaussian_os.Contracts.Manifest.{PluginManifest}
use gaussian_os.Contracts.Request.{StageRequest, validate_request}
use gaussian_os.Contracts.Outcome.{StageResult}
use gaussian_os.Store.World.{Exc, World, Document}
use gaussian_os.Store.Attempt.{AttemptHandle, key_of, begin_attempt, write_document, finish_attempt}
use gaussian_os.Store.Commit.{CommitRecord, commit, set_outputs}
use gaussian_os.Runner.Wait.{Stop, Limits, Waited, wait_for_process}
use gaussian_os.Runner.Failure.{Failure, failure_result, classify_process_failure}
use gaussian_os.Runner.Contract.{Loaded, load_and_validate_result}
use gaussian_os.Runner.Meeting.{Runner, Spawn, Meeting, RunError, Ran, returned, raised, running}
use gaussian_os.Runner.Precheck.{plain, precheck, effective_timeout}
use gaussian_os.Runner.Finish.{rejected_outcome, fail, finish_failure, is_ok, success_details}

-- What follows `commit`, by how it ended. An exception that is no ArtifactStoreError is not caught.
unfoldable pub after_commit :
    Runner
    → StageRequest
    → Meeting
    → AttemptHandle
    → ℤ
    → StageResult
    → Result Exc (List CommitRecord)
    → World
    → Ran × World
after_commit s q e a code result (ok commits) w =
    let (r, w') = finish_attempt s.host a "succeeded" (success_details code commits) w in
    (
      returned (record {
        result = result;
        committed_artifacts = commits;
        archived = some (is_ok r);
        return_code = some code;
      }),
      w',
    )
after_commit s q e a code result (err Exc.validation_error) w =
    fail s q e a (some code)
      (plain ErrorCode.output_validation_failed (s.describe Exc.validation_error)) w
after_commit s q e a code result (err Exc.value_error) w =
    (raised (RunError.store_exception Exc.value_error), w)
after_commit s q e a code result (err Exc.os_error) w =
    (raised (RunError.store_exception Exc.os_error), w)
after_commit s q e a code result (err x) w =
    fail s q e a (some code)
      (record (plain ErrorCode.artifact_commit_failed (s.describe x)) { retryable = true }) w

abbrev pub process_details : ℤ → String → Dict
process_details code tail =
    ("return_code", Value.integer code) ∷ ("stderr_tail", Value.text tail) ∷ []

abbrev pub is_crash : ErrorCode → Bool
is_crash ErrorCode.worker_crashed = true
is_crash ErrorCode.cuda_oom = true
is_crash _ = false

abbrev pub unreadable_failure : Runner → Meeting → ℤ → String → Failure
unreadable_failure s e code message =
    let kind =
      if is_zero code
      then ErrorCode.invalid_result
      else classify_process_failure s.lower e.stderr_tail in
    record {
      code = kind;
      message = message;
      retryable = is_crash kind;
      status = StageStatus.failed;
      details = process_details code e.stderr_tail;
    }

abbrev pub exit_code_failure : Runner → Meeting → ℤ → Failure
exit_code_failure s e code = record {
  code = classify_process_failure s.lower e.stderr_tail;
  message = "worker returned a nonzero exit code despite a success result";
  retryable = true;
  status = StageStatus.failed;
  details = ("return_code", Value.integer code) ∷ [];
}

abbrev pub accepted_failure : AttemptHandle → ℤ → StageResult → Bool × World → Ran × World
accepted_failure a code result (archived, w) = (
  returned (record {
    result = result;
    committed_artifacts = [];
    archived = some archived;
    return_code = some code;
  }),
  w,
)

-- A result of this run, by its status and the exit code.
unfoldable pub accept :
    Runner
    → StageRequest
    → Meeting
    → AttemptHandle
    → ℤ
    → StageResult
    → StageStatus
    → World
    → Ran × World
accept s q e a code result StageStatus.succeeded w =
    let (r, w') = commit s.host a result.artifacts w in
    let published = after_commit s q e a code result r w' in
    if is_zero code then published else fail s q e a (some code) (exit_code_failure s e code) w
accept s q e a code result _ w =
    accepted_failure a code result (finish_failure s a result (some code) w)

unfoldable pub after_load :
    Runner → StageRequest → Meeting → AttemptHandle → ℤ → Loaded → World → Ran × World
after_load s q e a code (Loaded.rejected message) w =
    fail s q e a (some code) (unreadable_failure s e code message) w
after_load s q e a code (Loaded.accepted result) w = accept s q e a code result result.status w

abbrev pub is_timeout : ErrorCode → Bool
is_timeout ErrorCode.timeout = true
is_timeout _ = false

abbrev pub status_of_stop : ErrorCode → StageStatus
status_of_stop ErrorCode.cancelled = StageStatus.cancelled
status_of_stop _ = StageStatus.failed

abbrev pub stop_failure : Stop → Failure
stop_failure stop = record {
  code = stop.code;
  message = stop.message;
  retryable = is_timeout stop.code;
  status = status_of_stop stop.code;
  details = [];
}

-- After the process has ended: a requested stop comes before anything the worker says.
unfoldable pub conclude :
    Runner
    → StageRequest
    → PluginManifest
    → Meeting
    → AttemptHandle
    → ℤ
    → Option Stop
    → World
    → Ran × World
conclude s q m e a code (some stop) w = fail s q e a (some code) (stop_failure stop) w
conclude s q m e a code none w =
    after_load s q e a code (load_and_validate_result e.result_file q m e.started_at) w

-- The handlers of the `try` round the process. `except OSError` is meant for a process that does not
-- start, and also takes what the wait raises.
unfoldable pub after_wait :
    Runner → StageRequest → PluginManifest → Meeting → AttemptHandle → Waited → World → Ran × World
after_wait s q m e a (Waited.exited code stop) w = conclude s q m e a code stop w
after_wait s q m e a (Waited.terminated code stop) w = conclude s q m e a code (some stop) w
after_wait s q m e a (Waited.write_failed Exc.os_error) w =
    fail s q e a none (plain ErrorCode.dependency_missing "worker process could not start") w
after_wait s q m e a (Waited.write_failed x) w =
    fail s q e a none (plain ErrorCode.internal_error "runner failed while supervising worker") w
after_wait s q m e a Waited.waiting w = (running, w)

abbrev pub limits_of : Runner → StageRequest → Meeting → Limits
limits_of s q e = record {
  process = e.process;
  deadline = e.monotonic + effective_timeout q.deadline_utc e.started_at e.timeout;
  grace = s.grace;
  timeout_message = "worker exceeded its timeout";
}

-- The worker runs: what it leaves in `outputs` is there when the wait is over.
unfoldable pub supervise :
    Runner → StageRequest → PluginManifest → Meeting → AttemptHandle → Spawn → World → Ran × World
supervise s q m e a Spawn.start_fails w =
    fail s q e a none (plain ErrorCode.dependency_missing "worker process could not start") w
supervise s q m e a Spawn.breaks w =
    fail s q e a none (plain ErrorCode.internal_error "runner failed while supervising worker") w
supervise s q m e a (Spawn.starts readings) w =
    let (waited, w') =
      wait_for_process (limits_of s q e)
        (λ reason. write_document s.host (key_of a) "cancel.json" (Document.cancellation reason))
        readings none w in
    after_wait s q m e a waited (set_outputs a e.outputs w')

abbrev pub bind_request : Runner → StageRequest → AttemptHandle → StageRequest
bind_request s q a = record q {
  attempt_id = some a.attempt_id;
  attempt_dir = some (s.path (key_of a) "");
  cancellation_file = some (s.path (key_of a) "cancel.json");
}

abbrev pub after_request :
    Runner
    → StageRequest
    → PluginManifest
    → Meeting
    → AttemptHandle
    → Result Exc (Unit {0})
    → World
    → Ran × World
after_request s q m e a (err x) w = (raised (RunError.store_exception x), w)
after_request s q m e a (ok _) w = supervise s q m e a e.spawn w

abbrev pub after_bind :
    Runner
    → StageRequest
    → PluginManifest
    → Meeting
    → AttemptHandle
    → Result (List Violation) StageRequest
    → World
    → Ran × World
after_bind s q m e a (err violations) w = (raised (RunError.invalid_contract violations), w)
after_bind s q m e a (ok bound) w =
    let (r, w') = write_document s.host (key_of a) "request.json" (Document.request bound) w in
    after_request s q m e a r w'

abbrev pub after_begin :
    Runner
    → StageRequest
    → PluginManifest
    → Meeting
    → Result Exc AttemptHandle
    → World
    → Ran × World
after_begin s q m e (err x) w = (raised (RunError.store_exception x), w)
after_begin s q m e (ok a) w = after_bind s q m e a (validate_request (bind_request s q a)) w

unfoldable pub execute : Runner → StageRequest → PluginManifest → Meeting → World → Ran × World
execute s q m e w =
    let (r, w') = begin_attempt s.host q.run_id q.stage_id q.request_id w in
    after_begin s q m e r w'

abbrev pub run_checked :
    Runner → StageRequest → PluginManifest → Meeting → Option Failure → World → Ran × World
run_checked s q m e (some f) w = (rejected_outcome (failure_result q e.started_at e.now f), w)
run_checked s q m e none w = execute s q m e w

unfoldable pub run : Runner → StageRequest → PluginManifest → Meeting → World → Ran × World
run s q m e w = run_checked s q m e (precheck s q m e) w
