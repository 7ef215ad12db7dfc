-- ===== src/Desktop/Pipeline/Bodies.antt =====
-- The stages of a run of apps/desktop/pipeline.py: in which order they move the state machine, and on
-- which results of their work. The work itself (frames, workers, copies) is a parameter.
use gaussian_os.Prelude.{
  String, Bool, true, false, not, ◌&&◌, ◌||◌, Option, none, some, List, [], ◌∷◌, ◌++◌, ◌==◌,
  string_eq, Result, ok, err, if◌then◌else◌, lookup, all,
}
use gaussian_os.Contracts.Json.{Dict}
use gaussian_os.Desktop.Paths.{FilePath, is_isolated, path_contains, ProjectPaths}
use gaussian_os.Desktop.Project.{Project, StageState}
use gaussian_os.Desktop.Library.{StoreError}
use gaussian_os.Desktop.Library.Update.{paths}
use gaussian_os.Desktop.Pipeline.{
  RunError, Setting, Step, ◌>>=◌, ◌>>◌, pure, raise, change, stage_or, put_stage, recorded,
  raise_if_cancelled, persist, start_stage, complete_stage, skip_stage, has_text,
}

-- What a call of a worker's runner gives: artifacts and metrics, the message of a failure, or an
-- exception.
pub data WorkerEnd : Type 0 where
  worker_succeeded : List FilePath → Dict → WorkerEnd
  worker_failed : String → WorkerEnd
  worker_raised : RunError → WorkerEnd

-- The results of the work of one run, and the tests that it makes on values of JSON and on files.
pub record Work : Type 0 where
  pub exists : FilePath → Bool
  pub same_selection : Dict → Dict → Bool
  pub improves : Dict → Bool
  pub frames : Result RunError (List FilePath × Dict × Dict)
  pub colmap : WorkerEnd
  pub fallback : WorkerEnd
  pub training_input : Result RunError (FilePath × Dict)
  pub train : WorkerEnd
  pub validation : Result RunError (List FilePath × Dict)
  pub exports : Result RunError (List FilePath × Dict)
  pub receipt : Result RunError (List String)
  pub passed : Dict

-- A result of the work, or its exception.
abbrev pub of_work : {A : Type 0} → Result RunError A → Step A
of_work (ok a) r = (ok a, r)
of_work (err e) r = (err e, r)

-- `paths[0]`
abbrev pub first_path : List FilePath → Result RunError FilePath
first_path [] = err (RunError.raised (StoreError.runtime_error "no path"))
first_path (path ∷ paths) = ok path

abbrev pub owns_all : Project → ProjectPaths → List FilePath → Bool
owns_all p found paths = not (is_isolated p.workspace_kind) || all (path_contains found) paths

abbrev pub reusable : Work → Project → Option StageState → ProjectPaths → Option StageState
reusable work p none found = none
reusable work p (some state) found =
    if owns_all p found state.artifact_paths
      && (state.status == "succeeded" && all work.exists state.artifact_paths)
    then some state
    else none

-- A value that depends on the paths of the project, which `paths` of the store may refuse.
abbrev pub with_paths : {A : Type 0} → Result StoreError ProjectPaths → (ProjectPaths → A) → Step A
with_paths (ok found) f r = (ok (f found), r)
with_paths (err e) f r = (err (RunError.raised e), r)

-- `_previous`
unfoldable pub previous : Setting → Work → String → Step (Option StageState)
unfolding paths path_contains
previous s work name r =
    with_paths (paths s.normcase r.project r.library)
      (reusable work r.project (lookup name r.project.stages)) r

-- The changes that a stage makes to its own record and to the sampling.
abbrev pub record_stage : Setting → String → List FilePath → Dict → Step Unit
record_stage s name paths metrics r = change (recorded (s.time r.writes) name paths metrics) r

abbrev pub set_sampling : Dict → Step Unit
set_sampling sampling = change (λ p. record p { sampling = sampling })

abbrev pub add_warnings : List String → Step Unit
add_warnings warnings = change (λ p. record p { warnings = p.warnings ++ warnings })

-- Records what a stage has made and completes it.
abbrev pub finish_stage : Setting → String → List FilePath → Dict → Step FilePath
finish_stage s name paths metrics = do
  record_stage s name paths metrics
  complete_stage s name
  of_work (first_path paths)

-- The part of `_ingest` that does not reuse a durable set of frames.
abbrev pub ingest_anew : Setting → Work → Step FilePath
ingest_anew s work = do
  start_stage s "ingest"
  (paths, metrics, sampling) ← of_work work.frames
  set_sampling sampling
  finish_stage s "ingest" paths metrics

abbrev pub ingest_from : Setting → Work → Option StageState → Step FilePath
ingest_from s work none r = ingest_anew s work r
ingest_from s work (some cached) r =
    if work.same_selection cached.metrics r.project.sampling
    then of_work (first_path cached.artifact_paths) r
    else ingest_anew s work r

-- `_ingest`
unfoldable pub ingest : Setting → Work → Step FilePath
unfolding start_stage complete_stage previous
ingest s work = previous s work "ingest" >>= ingest_from s work

-- What a worker has made, or the message of its failure.
abbrev pub Made : Type 0
Made = Result String (List FilePath × Dict)

-- `_run_worker`, whose failure is a value
abbrev pub run_worker : WorkerEnd → Step Made
run_worker (WorkerEnd.worker_succeeded paths metrics) = pure (ok (paths, metrics))
run_worker (WorkerEnd.worker_failed message) = pure (err message)
run_worker (WorkerEnd.worker_raised e) = raise e

abbrev pub after_fallback : Setting → Made → Step FilePath
after_fallback s (ok (paths, metrics)) = finish_stage s "fallback" paths metrics
after_fallback s (err message) = raise (RunError.raised (StoreError.runtime_error message))

-- `_fallback`
unfoldable pub fall_back : Setting → Work → Step FilePath
unfolding start_stage complete_stage
fall_back s work = do
  start_stage s "fallback"
  made ← run_worker work.fallback
  raise_if_cancelled s
  after_fallback s made

-- state.status, state.error = "fallback_required", message
abbrev pub require_fallback : Setting → String → Step Unit
require_fallback s message r =
    change
      (λ p.
        let state = stage_or (s.time r.writes) (lookup "colmap" p.stages) in
        put_stage "colmap" (record state { status = "fallback_required"; error = some message }) p)
      r

abbrev pub after_colmap : Setting → Work → Made → Step FilePath
after_colmap s work (ok (paths, metrics)) = do
  record_stage s "colmap" paths metrics
  complete_stage s "colmap"
  skip_stage s "fallback" work.passed
  of_work (first_path paths)
after_colmap s work (err message) = do
  raise_if_cancelled s
  require_fallback s message
  persist s false
  fall_back s work

abbrev pub reconstruct_anew : Setting → Work → Step FilePath
reconstruct_anew s work = do
  start_stage s "colmap"
  made ← run_worker work.colmap
  raise_if_cancelled s
  after_colmap s work made

abbrev pub is_skipped : Option StageState → Bool
is_skipped none = false
is_skipped (some state) = state.status == "skipped"

abbrev pub skip_unless_skipped : Setting → Work → Step Unit
skip_unless_skipped s work r =
    if is_skipped (lookup "fallback" r.project.stages)
    then (ok tt, r)
    else skip_stage s "fallback" work.passed r

-- The second round of the loop of `_reconstruct`, then the work.
abbrev pub fallback_from : Setting → Work → Option StageState → Step FilePath
fallback_from s work (some cached) = of_work (first_path cached.artifact_paths)
fallback_from s work none = reconstruct_anew s work

-- The first round of the loop, then the second one.
abbrev pub reconstruct_from : Setting → Work → Option StageState → Step FilePath
reconstruct_from s work (some cached) =
    skip_unless_skipped s work >> of_work (first_path cached.artifact_paths)
reconstruct_from s work none = previous s work "fallback" >>= fallback_from s work

-- `_reconstruct`
unfoldable pub reconstruct : Setting → Work → Step FilePath
unfolding start_stage complete_stage skip_stage persist fall_back previous
reconstruct s work = previous s work "colmap" >>= reconstruct_from s work

-- `_prepare_training_input`
unfoldable pub prepare_training_input : Setting → Work → Step FilePath
unfolding persist
prepare_training_input s work = do
  (destination, sampling) ← of_work work.training_input
  set_sampling sampling
  persist s false
  pure destination

abbrev pub training_warning : String
training_warning =
    "Training holdout PSNR did not improve; the artifact remains available for diagnosis."

abbrev pub warn_unless : Bool → Step Unit
warn_unless true = pure tt
warn_unless false = add_warnings (training_warning ∷ [])

abbrev pub after_train : Setting → Work → Made → Step FilePath
after_train s work (ok (paths, metrics)) = do
  record_stage s "train" paths metrics
  warn_unless (work.improves metrics)
  complete_stage s "train"
  of_work (first_path paths)
after_train s work (err message) = do
  raise_if_cancelled s
  raise (RunError.raised (StoreError.runtime_error message))

abbrev pub train_from : Setting → Work → Option StageState → Step FilePath
train_from s work (some cached) = of_work (first_path cached.artifact_paths)
train_from s work none = do
  start_stage s "train"
  made ← run_worker work.train
  raise_if_cancelled s
  after_train s work made

-- `_train`
unfoldable pub train : Setting → Work → Step FilePath
unfolding start_stage complete_stage previous
train s work = previous s work "train" >>= train_from s work

abbrev pub require : Bool → String → Step Unit
require true what r = (ok tt, r)
require false what r = (err (RunError.raised (StoreError.runtime_error what)), r)

-- The checks of `_validate_and_export` before the validation: an active run, the paths of the project,
-- and a training artifact that it owns.
unfoldable pub assert_owned : Setting → FilePath → Step Unit
unfolding paths path_contains
assert_owned s training r =
    (require (has_text r.project.run_id) "no active run"
        >> with_paths (paths s.normcase r.project r.library)
            (λ found. owns_all r.project found (training ∷ []))
        >>= λ owned. require owned "unowned training artifact")
      r

-- The warnings that the end of the export adds, and the write of the document if there are any.
abbrev pub note_warnings : Setting → List String → Step Unit
note_warnings s [] = pure tt
note_warnings s (warning ∷ warnings) = do add_warnings (warning ∷ warnings); persist s false

-- The part of `_validate_and_export` after the validation.
abbrev pub export_scene : Setting → Work → Step Unit
export_scene s work = do
  start_stage s "export"
  (exported, metrics) ← of_work work.exports
  record_stage s "export" exported metrics
  complete_stage s "export"
  warnings ← of_work work.receipt
  note_warnings s warnings

-- `_validate_and_export`; the looks at the token during the copies belong to the work
unfoldable pub validate_and_export : Setting → Work → FilePath → Step Unit
unfolding start_stage complete_stage persist assert_owned
validate_and_export s work training = do
  raise_if_cancelled s
  assert_owned s training
  start_stage s "validate"
  (validated, counts) ← of_work work.validation
  record_stage s "validate" validated counts
  complete_stage s "validate"
  raise_if_cancelled s
  export_scene s work
