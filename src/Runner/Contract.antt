-- ===== src/Runner/Contract.antt =====
-- `_request_manifest_error`, `_load_and_validate_result` and `_build_command` of
-- packages/pipeline/runner.py.
pub mod Belongs
use gaussian_os.Prelude.{
  ℕ, ◌+◌, ◌*◌, ◌/◌, String, Bool, true, false, not, ◌&&◌, ◌||◌, ◌≡◌, Option, none, some, List, [],
  ◌∷◌, ◌++◌, map, ◌==◌, string_eq, ℕ_eq, Result, ok, err, is_some, contains, any, ltb, insert,
  if◌then◌else◌,
}
use gaussian_os.Contracts.Kinds.{
  ContractVersion, ExecutionProfile, StageKind, DateTime, version_eq, kind_eq,
}
use gaussian_os.Contracts.Violations.{Violation}
use gaussian_os.Contracts.Manifest.{PluginManifest, WorkerEntrypoint}
use gaussian_os.Contracts.Request.{StageRequest}
use gaussian_os.Contracts.Artifact.{ArtifactManifest}
use gaussian_os.Contracts.Outcome.{StageResult, validate_result}

unfoldable pub request_manifest_error : StageRequest → PluginManifest → Option String
request_manifest_error r m =
    if is_some r.attempt_id
    then some "attempt runtime fields are host-owned and must be unset"
    else if not (r.plugin_id == m.plugin_id)
    then some "request plugin_id does not match manifest"
    else if not (r.plugin_version == m.plugin_version)
    then some "request plugin_version does not match manifest"
    else if not (contains r.stage_kind m.stage_kinds)
    then some "request stage_kind is not supported by the plugin"
    else if not (contains r.schema_version m.supported_request_versions)
    then some "request schema version is not supported by the plugin"
    else none

-- What stands at the worker's result path: nothing or no regular file; a file that cannot be read or
-- decoded, or whose JSON has not the fields' types; or the fields of a result.
pub data ResultFile : Type 0 where
  absent : ResultFile
  unreadable : ℕ → ResultFile
  written : ℕ → StageResult → ResultFile

abbrev pub max_result_json_bytes : ℕ
max_result_json_bytes = 16 * 1024 * 1024

-- started_at.replace(microsecond=0)
abbrev pub whole_second : ℕ → ℕ
whole_second micros = micros / 1000000 * 1000000

-- The loop over the artifacts.
unfoldable pub producers_error : PluginManifest → List ArtifactManifest → Option String
producers_error m [] = none
producers_error m (a ∷ artifacts) =
    if not (a.producer_plugin_id == m.plugin_id)
    then some "artifact producer_plugin_id does not match manifest"
    else if not (a.producer_plugin_version == m.plugin_version)
    then some "artifact producer_plugin_version does not match manifest"
    else producers_error m artifacts

-- The second half of `_load_and_validate_result`, on a result that validates: an error message, if the
-- result does not belong to this request, this plugin and this run.
unfoldable pub identity_error :
    StageRequest → PluginManifest → DateTime → StageResult → Option String
identity_error q m started_at r =
    if not (r.request_id == q.request_id)
    then some "worker result request_id does not match"
    else if not (r.run_id == q.run_id) || not (r.stage_id == q.stage_id)
    then some "worker result run/stage identity does not match"
    else if not (r.plugin_id == m.plugin_id)
    then some "worker result plugin_id does not match manifest"
    else if not (r.plugin_version == m.plugin_version)
    then some "worker result plugin_version does not match manifest"
    else if not (contains r.schema_version m.supported_result_versions)
    then some "worker result schema version is not supported"
    else if is_some (producers_error m r.artifacts)
    then producers_error m r.artifacts
    else if ltb (r.finished_at).micros (whole_second started_at.micros)
    then some "worker result timestamps predate this execution"
    else none

-- `_load_and_validate_result`
pub data Loaded : Type 0 where
  accepted : StageResult → Loaded
  rejected : String → Loaded

abbrev pub judged : StageResult → Option String → Loaded
judged r none = accepted r
judged r (some message) = rejected message

abbrev pub after_schema :
    StageRequest → PluginManifest → DateTime → Result (List Violation) StageResult → Loaded
after_schema q m started_at (err violations) = rejected "worker result failed schema validation"
after_schema q m started_at (ok r) = judged r (identity_error q m started_at r)

unfoldable pub load_and_validate_result :
    ResultFile → StageRequest → PluginManifest → DateTime → Loaded
load_and_validate_result absent q m started_at = rejected "worker did not write a result JSON file"
load_and_validate_result (unreadable size) q m started_at =
    if ltb max_result_json_bytes size
    then rejected "worker result exceeds the 16 MiB protocol limit"
    else rejected "worker result failed schema validation"
load_and_validate_result (written size r) q m started_at =
    if ltb max_result_json_bytes size
    then rejected "worker result exceeds the 16 MiB protocol limit"
    else after_schema q m started_at (validate_result r)

-- `_build_command`
unfoldable pub build_command : String → PluginManifest → String → String → List String
build_command python_executable m request_path result_path =
    map (λ item. if item == "{python}" then python_executable else item) (m.entrypoint).command
    ++ "--request-json" ∷ request_path ∷ "--result-json" ∷ result_path ∷ []

abbrev pub Variables : Type 0
Variables = List (String × String)

-- env.update(...)
abbrev pub update : Variables → Variables → Variables
update env [] = env
update env ((k, v) ∷ more) = update (insert k v env) more

-- The variables of the worker: the host's own, the manifest's, and the three of this attempt.
unfoldable pub worker_environment :
    Variables → PluginManifest → String → String → String → Variables
worker_environment environ m attempt_id attempt_dir profile =
    update (update environ (m.entrypoint).environment) (
      ("GAUSSIAN_FACTORY_ATTEMPT_ID", attempt_id)
      ∷ ("GAUSSIAN_FACTORY_ATTEMPT_DIR", attempt_dir)
      ∷ ("GAUSSIAN_FACTORY_PROFILE", profile)
      ∷ [])
