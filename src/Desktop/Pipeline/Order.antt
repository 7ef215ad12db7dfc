-- ===== src/Desktop/Pipeline/Order.antt =====
-- What every move of the state machine of apps/desktop/pipeline.py keeps, the stages of a run keep.
use gaussian_os.Prelude.{
  if◌then◌else◌, Result, ok, err, String, Bool, true, false, refl, Option, none, some, string_eq,
  List, [], ◌∷◌, lookup, contains, ◌≡◌,
}
use gaussian_os.Contracts.Json.{Dict}
use gaussian_os.Desktop.Paths.{FilePath, ProjectPaths}
use gaussian_os.Desktop.Project.{StageState}
use gaussian_os.Desktop.Library.{StoreError}
use gaussian_os.Desktop.Library.Update.{paths}
use gaussian_os.Desktop.Pipeline.{
  ◌>>◌, Setting, normalize_success, is_complete, stage_names, has_text, RunError, Run, Step, ◌>>=◌,
  continued, raise_if_cancelled, persist, start_stage, complete_stage, skip_stage,
}
use gaussian_os.Desktop.Pipeline.Bodies.{
  Work, Made, first_path, ingest, ingest_anew, ingest_from, previous, after_fallback, fall_back,
  after_colmap, reconstruct_anew, is_skipped, skip_unless_skipped, reconstruct_from, reconstruct,
  prepare_training_input, warn_unless, training_warning, after_train, train_from, train,
  assert_owned, note_warnings, validate_and_export, owns_all, with_paths, reusable, fallback_from,
  require, export_scene, WorkerEnd, record_stage, require_fallback, set_sampling, add_warnings,
  of_work, run_worker, finish_stage,
}
use gaussian_os.Desktop.Pipeline.Execution.{execute_stages}

-- A relation between the run before and after that holds of every move of the state machine.
pub record Preserved (P : Run → Run → Type 0) : Type 0 where
  pub stays : (r : Run) → P r r
  pub follows : (a b c : Run) → P a b → P b c → P a c
  pub looking : (s : Setting) (r : Run) → P r (raise_if_cancelled s r).1
  pub writing : (s : Setting) (allow : Bool) (r : Run) → P r (persist s allow r).1
  pub starting :
      (s : Setting) (name : String)
      → contains name stage_names ≡ true
      → (r : Run) → P r (start_stage s name r).1
  pub completing : (s : Setting) (name : String) (r : Run) → P r (complete_stage s name r).1
  pub skipping :
      (s : Setting) (name : String) (reason : Dict) (r : Run) → P r (skip_stage s name reason r).1
  pub recording :
      (s : Setting) (name : String) (paths : List FilePath) (metrics : Dict) (r : Run)
      → P r (record_stage s name paths metrics r).1
  pub falling_back :
      (s : Setting) (message : String) (r : Run) → P r (require_fallback s message r).1
  pub sampling : (sampling : Dict) (r : Run) → P r (set_sampling sampling r).1
  pub warning : (warnings : List String) (r : Run) → P r (add_warnings warnings r).1
  pub succeeding :
      (r : Run) → P r (record r { project = record r.project { status = "succeeded" } })

module _ (P : Run → Run → Type 0) (k : Preserved P) (s : Setting) (work : Work) where
  abbrev pub Keeps : {A : Type 0} → Step A → Type 0
  Keeps m = (r : Run) → P r (m r).1

  continued-Keeps :
      {A B : Type 0} (result : Result RunError A) (f : A → Step B) (r r' : Run)
      → P r r'
      → ((a : A) → Keeps (f a))
      → P r (continued result f r').1
  continued-Keeps (ok a) f r r' h h' = k.follows r r' (f a r').1 h (h' a r')
  continued-Keeps (err e) f r r' h h' = h

  >>=-Keeps :
      {A B : Type 0} (m : Step A) (f : A → Step B)
      → Keeps m
      → ((a : A) → Keeps (f a))
      → Keeps (m >>= f)
  unfolding ◌>>=◌
  >>=-Keeps m f h h' r = continued-Keeps (m r).0 f r (m r).1 (h r) h'

  >>-Keeps : {A B : Type 0} (m : Step A) (n : Step B) → Keeps m → Keeps n → Keeps (m >> n)
  >>-Keeps m n h h' = >>=-Keeps m (λ a. n) h (λ a. h')

  of_work-Keeps : {A : Type 0} (result : Result RunError A) → Keeps (of_work result)
  of_work-Keeps (ok a) r = k.stays r
  of_work-Keeps (err e) r = k.stays r

  run_worker-Keeps : (end : WorkerEnd) → Keeps (run_worker end)
  run_worker-Keeps (WorkerEnd.worker_succeeded paths metrics) r = k.stays r
  run_worker-Keeps (WorkerEnd.worker_failed message) r = k.stays r
  run_worker-Keeps (WorkerEnd.worker_raised e) r = k.stays r

  if-Keeps :
      {A : Type 0} (b : Bool) (r : Run) (x y : Result RunError A × Run)
      → P r x.1
      → P r y.1
      → P r (if b then x else y).1
  if-Keeps true r x y h h' = h
  if-Keeps false r x y h h' = h'

  finish_stage-Keeps :
      (name : String) (paths : List FilePath) (metrics : Dict)
      → Keeps (finish_stage s name paths metrics)
  finish_stage-Keeps name paths metrics =
      >>-Keeps (record_stage s name paths metrics)
        (complete_stage s name >> of_work (first_path paths)) (k.recording s name paths metrics)
        (>>-Keeps (complete_stage s name) (of_work (first_path paths)) (k.completing s name)
          (of_work-Keeps (first_path paths)))

  ingest_anew-Keeps : Keeps (ingest_anew s work)
  ingest_anew-Keeps = >>=-Keeps _ _ (k.starting s "ingest" refl) (λ u.
      >>=-Keeps _ _ (of_work-Keeps work.frames) (λ (paths, metrics, sampling).
        >>=-Keeps _ _ (k.sampling sampling) (λ v. finish_stage-Keeps "ingest" paths metrics)))

  ingest_from-Keeps : (cached : Option StageState) → Keeps (ingest_from s work cached)
  ingest_from-Keeps none r = ingest_anew-Keeps r
  ingest_from-Keeps (some cached) r =
      if-Keeps (work.same_selection cached.metrics r.project.sampling) r _ _
        (of_work-Keeps (first_path cached.artifact_paths) r) (ingest_anew-Keeps r)

  with_paths-Keeps :
      {A : Type 0} (given : Result StoreError ProjectPaths) (f : ProjectPaths → A)
      → Keeps (with_paths given f)
  with_paths-Keeps (ok found) f r = k.stays r
  with_paths-Keeps (err e) f r = k.stays r

  previous-Keeps : (name : String) → Keeps (previous s work name)
  unfolding previous
  previous-Keeps name r =
      with_paths-Keeps (paths s.normcase r.project r.library)
        (reusable work r.project (lookup name r.project.stages)) r

  ingest-Keeps : Keeps (ingest s work)
  unfolding ingest
  ingest-Keeps = >>=-Keeps _ _ (previous-Keeps "ingest") ingest_from-Keeps

  after_fallback-Keeps : (made : Made) → Keeps (after_fallback s made)
  after_fallback-Keeps (ok (paths, metrics)) = finish_stage-Keeps "fallback" paths metrics
  after_fallback-Keeps (err message) = k.stays

  fall_back-Keeps : Keeps (fall_back s work)
  unfolding fall_back
  fall_back-Keeps = >>=-Keeps _ _ (k.starting s "fallback" refl) (λ u.
      >>=-Keeps _ _ (run_worker-Keeps work.fallback)
        (λ made. >>=-Keeps _ _ (k.looking s) (λ v. after_fallback-Keeps made)))

  after_colmap-Keeps : (made : Made) → Keeps (after_colmap s work made)
  after_colmap-Keeps (ok (paths, metrics)) =
      >>=-Keeps _ _ (k.recording s "colmap" paths metrics) (λ u.
        >>=-Keeps _ _ (k.completing s "colmap") (λ v.
          >>=-Keeps _ _ (k.skipping s "fallback" work.passed)
            (λ w. of_work-Keeps (first_path paths))))
  after_colmap-Keeps (err message) = >>=-Keeps _ _ (k.looking s) (λ u.
      >>=-Keeps _ _ (k.falling_back s message)
        (λ v. >>=-Keeps _ _ (k.writing s false) (λ w. fall_back-Keeps)))

  reconstruct_anew-Keeps : Keeps (reconstruct_anew s work)
  reconstruct_anew-Keeps = >>=-Keeps _ _ (k.starting s "colmap" refl) (λ u.
      >>=-Keeps _ _ (run_worker-Keeps work.colmap)
        (λ made. >>=-Keeps _ _ (k.looking s) (λ v. after_colmap-Keeps made)))

  skip_unless_skipped-Keeps : Keeps (skip_unless_skipped s work)
  skip_unless_skipped-Keeps r =
      if-Keeps (is_skipped (lookup "fallback" r.project.stages)) r _ _ (k.stays r)
        (k.skipping s "fallback" work.passed r)

  fallback_from-Keeps : (cached : Option StageState) → Keeps (fallback_from s work cached)
  fallback_from-Keeps (some cached) = of_work-Keeps (first_path cached.artifact_paths)
  fallback_from-Keeps none = reconstruct_anew-Keeps

  reconstruct_from-Keeps : (cached : Option StageState) → Keeps (reconstruct_from s work cached)
  reconstruct_from-Keeps (some cached) =
      >>-Keeps _ _ skip_unless_skipped-Keeps (of_work-Keeps (first_path cached.artifact_paths))
  reconstruct_from-Keeps none = >>=-Keeps _ _ (previous-Keeps "fallback") fallback_from-Keeps

  reconstruct-Keeps : Keeps (reconstruct s work)
  unfolding reconstruct
  reconstruct-Keeps = >>=-Keeps _ _ (previous-Keeps "colmap") reconstruct_from-Keeps

  prepare_training_input-Keeps : Keeps (prepare_training_input s work)
  unfolding prepare_training_input
  prepare_training_input-Keeps =
      >>=-Keeps _ _ (of_work-Keeps work.training_input) (λ (destination, sampling).
        >>=-Keeps _ _ (k.sampling sampling)
          (λ u. >>=-Keeps _ _ (k.writing s false) (λ v r. k.stays r)))

  warn_unless-Keeps : (b : Bool) → Keeps (warn_unless b)
  warn_unless-Keeps true = k.stays
  warn_unless-Keeps false = k.warning (training_warning ∷ [])

  after_train-Keeps : (made : Made) → Keeps (after_train s work made)
  after_train-Keeps (ok (paths, metrics)) =
      >>=-Keeps _ _ (k.recording s "train" paths metrics) (λ u.
        >>=-Keeps _ _ (warn_unless-Keeps (work.improves metrics))
          (λ v. >>=-Keeps _ _ (k.completing s "train") (λ w. of_work-Keeps (first_path paths))))
  after_train-Keeps (err message) = >>=-Keeps _ _ (k.looking s) (λ u. k.stays)

  train_from-Keeps : (cached : Option StageState) → Keeps (train_from s work cached)
  train_from-Keeps (some cached) = of_work-Keeps (first_path cached.artifact_paths)
  train_from-Keeps none = >>=-Keeps _ _ (k.starting s "train" refl) (λ u.
      >>=-Keeps _ _ (run_worker-Keeps work.train)
        (λ made. >>=-Keeps _ _ (k.looking s) (λ v. after_train-Keeps made)))

  train-Keeps : Keeps (train s work)
  unfolding train
  train-Keeps = >>=-Keeps _ _ (previous-Keeps "train") train_from-Keeps

  require-Keeps : (b : Bool) (what : String) → Keeps (require b what)
  require-Keeps true what r = k.stays r
  require-Keeps false what r = k.stays r

  assert_owned-Keeps : (training : FilePath) → Keeps (assert_owned s training)
  unfolding assert_owned
  assert_owned-Keeps training r =
      >>=-Keeps
        (require (has_text r.project.run_id) "no active run"
          >> with_paths (paths s.normcase r.project r.library)
              (λ found. owns_all r.project found (training ∷ [])))
        (λ owned. require owned "unowned training artifact")
        (>>-Keeps (require (has_text r.project.run_id) "no active run") _
          (require-Keeps (has_text r.project.run_id) "no active run")
          (with_paths-Keeps (paths s.normcase r.project r.library)
            (λ found. owns_all r.project found (training ∷ []))))
        (λ owned. require-Keeps owned "unowned training artifact") r

  note_warnings-Keeps : (warnings : List String) → Keeps (note_warnings s warnings)
  note_warnings-Keeps [] = k.stays
  note_warnings-Keeps (w ∷ ws) = >>=-Keeps _ _ (k.warning (w ∷ ws)) (λ u. k.writing s false)

  export_scene-Keeps : Keeps (export_scene s work)
  export_scene-Keeps = >>=-Keeps _ _ (k.starting s "export" refl) (λ a.
      >>=-Keeps _ _ (of_work-Keeps work.exports) (λ (exported, metrics).
        >>=-Keeps _ _ (k.recording s "export" exported metrics) (λ b.
          >>=-Keeps _ _ (k.completing s "export")
            (λ c. >>=-Keeps _ _ (of_work-Keeps work.receipt) note_warnings-Keeps))))

  normalize_success-Keeps : Keeps (normalize_success s)
  unfolding normalize_success
  normalize_success-Keeps r =
      if-Keeps (is_complete (s.time r.writes) stage_names r.project) r _ _ (k.stays r) (k.stays r)

  validate_and_export-Keeps : (training : FilePath) → Keeps (validate_and_export s work training)
  unfolding validate_and_export
  validate_and_export-Keeps training = >>=-Keeps _ _ (k.looking s) (λ a.
      >>=-Keeps _ _ (assert_owned-Keeps training) (λ b.
        >>=-Keeps _ _ (k.starting s "validate" refl) (λ c.
          >>=-Keeps _ _ (of_work-Keeps work.validation) (λ (validated, counts).
            >>=-Keeps _ _ (k.recording s "validate" validated counts) (λ d.
              >>=-Keeps _ _ (k.completing s "validate")
                (λ e. >>=-Keeps _ _ (k.looking s) (λ f. export_scene-Keeps)))))))

  pub execute_stages-Keeps : Keeps (execute_stages s work)
  unfolding execute_stages
  execute_stages-Keeps = >>=-Keeps _ _ (k.looking s) (λ a. >>=-Keeps _ _ ingest-Keeps (λ images.
      >>=-Keeps _ _ (k.looking s) (λ b. >>=-Keeps _ _ reconstruct-Keeps (λ reconstruction.
        >>=-Keeps _ _ (k.looking s) (λ c. >>=-Keeps _ _ prepare_training_input-Keeps (λ input.
          >>=-Keeps _ _ (k.looking s) (λ d. >>=-Keeps _ _ train-Keeps (λ training.
            >>=-Keeps _ _ (k.looking s) (λ e.
              >>=-Keeps _ _ (validate_and_export-Keeps training) (λ f.
                >>=-Keeps _ _ (k.looking s)
                  (λ g. >>=-Keeps _ _ normalize_success-Keeps (λ h. k.succeeding))))))))))))
