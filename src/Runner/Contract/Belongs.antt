-- ===== src/Runner/Contract/Belongs.antt =====
-- What packages/pipeline/runner.py has established about a result that it accepts from a worker, and
-- which variables a worker sees.
use gaussian_os.Prelude.{
  ℕ, ◌≤◌, String, true, ◌≡◌, refl, Option, none, some, List, [], ◌∷◌, arith, ltb, All, Bool-cases,
  inl, inr, contains, string_eq, same_iff, sym, ◌∙◌, lookup, insert, lookup-insert,
  lookup-insert_self,
}
use gaussian_os.Contracts.Kinds.{DateTime, version_eq}
use gaussian_os.Contracts.Violations.{Violation, validated}
use gaussian_os.Contracts.Manifest.{PluginManifest}
use gaussian_os.Contracts.Request.{StageRequest}
use gaussian_os.Contracts.Artifact.{ArtifactManifest}
use gaussian_os.Contracts.Outcome.{StageResult, result_violations, validate_result}
use gaussian_os.Runner.Contract.{
  ResultFile, absent, unreadable, written, max_result_json_bytes, whole_second, producers_error,
  identity_error, accepted, rejected, judged, after_schema, load_and_validate_result, Variables,
  update, worker_environment,
}

abbrev pub IsProducedBy : PluginManifest → ArtifactManifest → Type 0
IsProducedBy m a =
    (a.producer_plugin_id ≡ m.plugin_id) × (a.producer_plugin_version ≡ m.plugin_version)

-- The result is of this request, this plugin and this run.
pub record Belongs (q : StageRequest) (m : PluginManifest) (started_at : DateTime) (r : StageResult)
    : Type 0 where
  pub request : r.request_id ≡ q.request_id
  pub run : r.run_id ≡ q.run_id
  pub stage : r.stage_id ≡ q.stage_id
  pub plugin : r.plugin_id ≡ m.plugin_id
  pub version : r.plugin_version ≡ m.plugin_version
  pub schema : contains r.schema_version m.supported_result_versions ≡ true
  pub producers : All (IsProducedBy m) r.artifacts
  pub in_time : whole_second started_at.micros ≤ (r.finished_at).micros

producers_ok :
    (m : PluginManifest) (artifacts : List ArtifactManifest)
    → producers_error m artifacts ≡ none
    → All (IsProducedBy m) artifacts
unfolding producers_error
producers_ok m [] h = tt
producers_ok m (a ∷ artifacts) h = (
  (
    ground (arith, same_iff a.producer_plugin_id m.plugin_id),
    ground (arith, same_iff a.producer_plugin_version m.plugin_version),
  ),
  producers_ok m artifacts (ground arith),
)

identity-Belongs :
    (q : StageRequest) (m : PluginManifest) (started_at : DateTime) (r : StageResult)
    → identity_error q m started_at r ≡ none
    → Belongs q m started_at r
unfolding identity_error
identity-Belongs q m started_at r h = record {
  request = ground (arith, same_iff r.request_id q.request_id);
  run = ground (arith, same_iff r.run_id q.run_id);
  stage = ground (arith, same_iff r.stage_id q.stage_id);
  plugin = ground (arith, same_iff r.plugin_id m.plugin_id);
  version = ground (arith, same_iff r.plugin_version m.plugin_version);
  schema = ground arith;
  producers = producers_ok m r.artifacts (ground arith);
  in_time = ground arith;
}

judged-accepted :
    (r result : StageResult) (o : Option String)
    → judged r o ≡ accepted result
    → (o ≡ none) × (r ≡ result)
judged-accepted r result none h = (refl, ground arith)
judged-accepted r result (some message) h = ground arith

validated-ok :
    (vs : List Violation) (r : StageResult) (q : StageRequest) (m : PluginManifest)
    (started_at : DateTime) (result : StageResult)
    → after_schema q m started_at (validated vs r) ≡ accepted result
    → (vs ≡ []) × (r ≡ result) × (identity_error q m started_at r ≡ none)
validated-ok [] r q m started_at result h =
    let (clear, same) = judged-accepted r result (identity_error q m started_at r) h in
    (refl, same, clear)
validated-ok (v ∷ vs) r q m started_at result h = ground arith

-- A result that `_load_and_validate_result` accepts stood in the result file, in at most 16 MiB; it
-- validates; it is of this request, run, stage and plugin, and so are its artifacts' producers; its
-- contract version is supported, and it finished no earlier than the second in which this run started.
pub load-Belongs :
    (file : ResultFile) (q : StageRequest) (m : PluginManifest) (started_at : DateTime)
    (result : StageResult)
    → load_and_validate_result file q m started_at ≡ accepted result
    → ((size : ℕ) × (file ≡ written size result) × (size ≤ max_result_json_bytes))
      × (result_violations result ≡ [])
      × Belongs q m started_at result
unfolding load_and_validate_result validate_result
load-Belongs absent q m started_at result h = ground arith
load-Belongs (unreadable size) q m started_at result h = ground arith
load-Belongs (written size r) q m started_at result h =
    elim (Bool-cases (ltb max_result_json_bytes size)) [
      | inl long ↦ absurd (rejected_not (rw long at h))
      | inr short ↦
          let (valid, same, clear) =
            validated-ok (result_violations r) r q m started_at result (rw short at h) in
          rw (sym same) ((size, refl, ground arith), valid, identity-Belongs q m started_at r clear)
    ]
  where
    rejected_not : {message : String} {r : StageResult} → rejected message ≡ accepted r → ⊥
    rejected_not h = cc

-- Whatever the host's environment and the manifest say, a worker sees the attempt's id, its directory
-- and the profile of this run in the three variables of the runner.
pub worker_environment-lookup :
    (environ : Variables) (m : PluginManifest) (attempt_id attempt_dir profile : String)
    → (lookup "GAUSSIAN_FACTORY_ATTEMPT_ID"
          (worker_environment environ m attempt_id attempt_dir profile)
        ≡ some attempt_id)
      × (lookup "GAUSSIAN_FACTORY_ATTEMPT_DIR"
            (worker_environment environ m attempt_id attempt_dir profile)
          ≡ some attempt_dir)
      × (lookup "GAUSSIAN_FACTORY_PROFILE"
            (worker_environment environ m attempt_id attempt_dir profile)
          ≡ some profile)
unfolding worker_environment
worker_environment-lookup environ m attempt_id attempt_dir profile =
    let start = update environ (m.entrypoint).environment in
    let first = insert "GAUSSIAN_FACTORY_ATTEMPT_ID" attempt_id start in
    let second = insert "GAUSSIAN_FACTORY_ATTEMPT_DIR" attempt_dir first in
    (
      lookup-insert "GAUSSIAN_FACTORY_PROFILE" "GAUSSIAN_FACTORY_ATTEMPT_ID" profile second
          ∙ lookup-insert "GAUSSIAN_FACTORY_ATTEMPT_DIR" "GAUSSIAN_FACTORY_ATTEMPT_ID" attempt_dir
              first
          ∙ lookup-insert_self "GAUSSIAN_FACTORY_ATTEMPT_ID" attempt_id start,
      lookup-insert "GAUSSIAN_FACTORY_PROFILE" "GAUSSIAN_FACTORY_ATTEMPT_DIR" profile second
          ∙ lookup-insert_self "GAUSSIAN_FACTORY_ATTEMPT_DIR" attempt_dir first,
      lookup-insert_self "GAUSSIAN_FACTORY_PROFILE" profile second,
    )
