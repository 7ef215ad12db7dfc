-- ===== src/Lib.antt =====
-- GaussianOS runs the stages of a reconstruction pipeline as worker processes. This library models the
-- part of it that decides what may run and what is kept: the worker contracts, the licensing gate, the
-- artifact store with its locks, the runner that puts them together, and the session and the project
-- store of the desktop application.
--
-- Contracts models packages/plugin_sdk/contracts.py: Contracts.Kinds its enumerations, Patterns its regular
-- expressions, Json what it accepts as JSON, Violations the order in which a model's checks run, and
-- Manifest, Request, Artifact, Quality and Outcome its models. A model is a record; `..._fields` are
-- the checks of its fields, `..._rule` its model validator, `..._violations` both.
--
-- Licensing models packages/licensing/policy.py: Policy the two models, Evaluate
-- `evaluate_plugin_policy` and `enforce_plugin_policy`, Registry `ProfilePolicyRegistry`. Gate,
-- Requirement and Closed compare the gate with a description of what a profile permits.
--
-- Store models packages/artifact_store/store.py: Tree the directories, World the state below the
-- store's root, Attempt `atomic_write_json`, `begin_attempt`, `artifact_output_path` and
-- `finish_attempt`, Validate `validate_artifacts`, Commit `commit` and `_acquire_commit_locks`; Outputs
-- follows the artifacts' files through a commit. A
-- method is a function of the world that returns a value or an exception, and the world after it.
--
-- Runner models packages/pipeline/runner.py: Token `CancellationToken`, Wait `_wait_for_process` with `_terminate_process_tree`,
-- Contract `_request_manifest_error`, `_load_and_validate_result` and `_build_command`, Failure
-- `_failure_result` and `_classify_process_failure`, Precheck what `run` does before the attempt,
-- Finish `_finish_failure` and `_rejected_outcome`, Run the rest of `run`. `run` calls the registry's
-- `enforce`, then the store's `begin_attempt`, `commit` and `finish_attempt`.
--
-- FileLock models packages/file_lock.py. The store's commit locks are instances of it; Store sees
-- the ids that are held, and which releases raise.
--
-- Desktop.Session models apps/desktop/project_session.py. Desktop.Paths models apps/desktop/project_paths.py,
-- and the rest of Desktop models apps/desktop/project_store.py: Durable `_write_json`, Project the records and
-- `_classify`, Library the files of a store with `load` and `all`, Library.Update `save`,
-- `update_project`, `rename`, `set_archived` and `ensure_writable`, Library.Trash `delete`,
-- Library.Restore `trash_entries` and `restore`. A lock is a key in a list, taken or busy; what the
-- operating system may do to the file of a lock is in FileLock only. `Moves` and `Volume` say which
-- calls of the file system work during one operation. A path is the list of its names.
--
-- Desktop.Pipeline models the run of apps/desktop/pipeline.py: Pipeline the moves of the state machine
-- with `_persist`, Pipeline.Bodies the stages, Pipeline.Execution the body of `run` with its except and
-- finally clauses, from the project that it loads under the run lock. `Work` holds what the work of the
-- stages gives, `Setting` the volume, the clock and the token at each use. Pipeline.Control is `run` as a
-- whole, with the checks before it, the projects that run in this process and the run lock. Order
-- carries a relation of two states through the stages, which Active, Held and Quiet use for the stage
-- that runs, the held locks and the stages left running; Rest is about the stage that ends,
-- Returns about where a run returns. Recovery is `recover_interrupted_projects`, after a restart.
--
-- Desktop.Sampling models the integers of apps/desktop/sampling.py; `Rounding` is what its floating-point
-- arithmetic gives.
--
-- What is not under the repository is a parameter. `Host` holds the standard library's digests,
-- canonical JSON and random names; `Runner` the texts of paths and exceptions, and `str.lower`;
-- `casefold` is an argument where a policy is validated. The environment is data: a `Supply` says
-- which of the next file operations fail, a `Contention` what a lock meets, a `Meeting` what one call of `run` meets: clocks, token,
-- the readings of the loop that waits, the files that the worker leaves, and a `Process`, which says what
-- its worker does after the signals of a kill.
--
-- There is no fuel. The loop that waits uses up a list of readings and says `waiting`, and `run` says
-- `running`, when they are used up; how many are enough is a theorem about the loop. `acquire` does the same.
--
-- Bounds: integers are unbounded, as in Python; times are whole microseconds.
--
-- Not modelled: coercion and stripping of text by pydantic, the parsing of JSON and of URLs, the
-- interpolated parts of the runner's own messages, `_read_tail`, the
-- pruning of empty directories, which a list of attempts does not show, and what other processes do
-- between two steps of one commit: they hold locks, but they do not move files. The user interface,
-- the workers, the tensors and the media code are left out, since they are glue, processes of their own
-- or floating-point code.
mod Prelude
pub mod Contracts
pub mod Licensing
pub mod FileLock
pub mod Store
pub mod Runner
pub mod Desktop
