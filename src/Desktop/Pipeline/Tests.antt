-- ===== src/Desktop/Pipeline/Tests.antt =====
-- A run of apps/desktop/pipeline.py over a small library.
use gaussian_os.Prelude.{
  ltb, if◌then◌else◌, contains, String, true, false, ◌≡◌, refl, none, some, [], ◌∷◌, ◌++◌, ok, err,
  string_eq, pair_eq, lookup,
}
use gaussian_os.Desktop.Paths.{FilePath}
use gaussian_os.Desktop.Durable.{working}
use gaussian_os.Desktop.Project.{Project}
use gaussian_os.Desktop.Library.{StateDocument, load}
use gaussian_os.Desktop.Library.Tests.{same_path, workspace_of, project, two_projects}
use gaussian_os.Desktop.Pipeline.{RunError, Setting, Run, persist, ◌>>=◌}
use gaussian_os.Desktop.Pipeline.Bodies.{WorkerEnd, Work}
use gaussian_os.Desktop.Pipeline.Execution.{run_loaded}
use gaussian_os.Desktop.Pipeline.Returns.{Returns}
use gaussian_os.Desktop.Pipeline.Rest.{NoneRunning}
use gaussian_os.Desktop.Pipeline.Quiet.{Quiet, run_loaded-Quiet}
use gaussian_os.Desktop.Pipeline.Durable.{IsStored, IsDurable, run_loaded-IsDurable}
use gaussian_os.Desktop.Pipeline.Control.{Control, run_project}
use gaussian_os.Desktop.Pipeline.Control.Balance.{Balanced, run_project-Balanced}
use gaussian_os.Desktop.Pipeline.Owner.{persist-Owner}
use gaussian_os.Desktop.Pipeline.Recovery.{recover_interrupted_projects}
use gaussian_os.Desktop.Pipeline.Recovery.Settled.{Settles, recover_interrupted_projects-Settles}
use gaussian_os.Desktop.Library.{Library}

abbrev undisturbed : Setting
undisturbed = record {
  normcase = same_path;
  volume = λ n. working;
  time = λ n. "12:00";
  is_cancelled = λ n. false;
  describe = λ e. "an error";
}

abbrev inside : String → FilePath
inside name = workspace_of "p1" ++ "runs" ∷ "run-1" ∷ name ∷ []

-- COLMAP misses its quality gate, and the fallback succeeds.
abbrev work : Work
work = record {
  exists = λ path. true;
  same_selection = λ metrics sampling. true;
  improves = λ metrics. true;
  frames = ok (inside "frames" ∷ [], [], []);
  colmap = WorkerEnd.worker_failed "too few images registered";
  fallback = WorkerEnd.worker_succeeded (inside "fallback" ∷ []) [];
  training_input = ok (inside "training", []);
  train = WorkerEnd.worker_succeeded (inside "trained" ∷ []) [];
  validation = ok (inside "scene" ∷ [], []);
  exports = ok (inside "exports" ∷ [], []);
  receipt = ok [];
  passed = [];
}

abbrev loaded : Run
loaded = record { project = project "p1"; library = two_projects; writes = 0; looks = 0 }

run_succeeds : (run_loaded undisturbed work "run-1" loaded).1.project.status ≡ "succeeded"
unfolding run_loaded ◌>>=◌
run_succeeds = refl

all_rest : NoneRunning (project "p1")
all_rest name = refl

run_loaded-Quiet_example : Quiet (run_loaded undisturbed work "run-1" loaded)
run_loaded-Quiet_example = run_loaded-Quiet undisturbed work "run-1" loaded all_rest

run_loaded-IsDurable_example : Returns IsDurable (run_loaded undisturbed work "run-1" loaded)
run_loaded-IsDurable_example = run_loaded-IsDurable undisturbed work "run-1" loaded

-- The run that the document of the project belongs to.
abbrev owner : Run
owner = record loaded { project = record (project "p1") { status = "running" } }

persist-Owner_example :
    let (result, r) = persist undisturbed false owner in
    (result ≡ ok tt
      → IsStored r
        × ((p : Project) × (load same_path "p1" two_projects ≡ ok p)
            × (p.run_id ≡ none)
            × (p.project_id ≡ "p1")
            × (p.root ≡ workspace_of "p1")))
    × ((e : RunError)
        → result ≡ err e
        → lookup "p1" r.library.documents ≡ some (StateDocument.readable (project "p1")))
persist-Owner_example = persist-Owner undisturbed owner

abbrev control : Control
control = record { library = two_projects; running = [] }

run_project-Balanced_example : Balanced control (run_project undisturbed work "run-1" "p1" control)
run_project-Balanced_example = run_project-Balanced undisturbed work "run-1" "p1" control

-- The disk is full from the second write on.
abbrev full : Setting
full = record undisturbed {
  volume = λ n. if ltb n 1 then working else record working { writes_temporary = false };
}

-- The write of the finally clause raises an OSError: the project stays among the running ones, and its
-- lock is held.
full_disk_keeps_lock :
    let (end, c) = run_project full work "run-1" "p1" control in
    (contains "p1" c.running ≡ true) × (contains ("p1", "run") c.library.held ≡ true)
unfolding run_project ◌>>=◌
full_disk_keeps_lock = (refl, refl)

-- A library whose first project was running when the process ended.
abbrev interrupted_library : Library
interrupted_library = record two_projects {
  documents = ("p1", StateDocument.readable (record (project "p1") { status = "running" })) ∷ [];
}

recovered_status :
    (recover_interrupted_projects same_path (λ n. working) (λ n. "12:00") interrupted_library).0
    ≡ ok (
        record (project "p1") {
          status = "interrupted";
          updated_at = "12:00";
          warnings = "Desktop restarted while this task was running; resume to continue." ∷ [];
        }
        ∷ [])
unfolding recover_interrupted_projects
recovered_status = refl

recover_interrupted_projects-Settles_example :
    Settles interrupted_library
      (recover_interrupted_projects same_path (λ n. working) (λ n. "12:00") interrupted_library)
recover_interrupted_projects-Settles_example =
    recover_interrupted_projects-Settles same_path (λ n. working) (λ n. "12:00") interrupted_library
