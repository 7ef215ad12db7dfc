-- ===== src/Desktop/Pipeline/Control.antt =====
-- `run` of apps/desktop/pipeline.py as a whole: its checks, the projects that run in this process, and the
-- run lock of the store.
pub mod Balance
use gaussian_os.Prelude.{
  String, Bool, true, false, not, ◌≡◌, Option, none, some, List, [], ◌∷◌, ◌==◌, string_eq, pair_eq,
  Result, ok, err, if◌then◌else◌, contains, filter,
}
use gaussian_os.Desktop.Project.{Project}
use gaussian_os.Desktop.Paths.{ProjectPaths}
use gaussian_os.Desktop.Library.{StoreError, Library, load, take_lock, drop_lock}
use gaussian_os.Desktop.Library.Update.{ensure_writable}
use gaussian_os.Desktop.Pipeline.{RunError, Setting, Run, has_text}
use gaussian_os.Desktop.Pipeline.Bodies.{Work}
use gaussian_os.Desktop.Pipeline.Execution.{
  RunEnd, returned, escaped, stuck, run_loaded, handle_outcome,
}

-- The store, and `self._running`, whose members also have a token.
pub record Control : Type 0 where
  pub library : Library
  pub running : List String

-- if not project.input_path or not project.input_kind: raise ValueError
abbrev pub has_input : Project → Result StoreError Project
has_input p =
    if has_text p.input_path
    then if has_text p.input_kind then ok p else err StoreError.value_error
    else err StoreError.value_error

-- The check under the controller's lock.
abbrev pub not_yet_running : String → List String → Project → Result StoreError Project
not_yet_running id running p =
    if contains id running then err (StoreError.runtime_error "already running") else ok p

abbrev pub checked_input : Result StoreError Project → Result StoreError Project
checked_input (ok p) = has_input p
checked_input (err e) = err e

abbrev pub checked_free :
    String → List String → Result StoreError Project → Result StoreError Project
checked_free id running (ok p) = not_yet_running id running p
checked_free id running (err e) = err e

-- The first load of `run`, and the checks on what it gives.
unfoldable pub admitted : Setting → String → List String → Library → Result StoreError Project
unfolding load
admitted s id running l = checked_free id running (checked_input (load s.normcase id l))

-- The second load, under the run lock: an exception of it finds a run that has not started.
abbrev pub run_loaded_again :
    Setting → Work → String → Run → Result StoreError Project → RunEnd × Run
run_loaded_again s work run_id r (ok p) = run_loaded s work run_id (record r { project = p })
run_loaded_again s work run_id r (err e) = handle_outcome s false (err (RunError.raised e)) r

-- run_lock.release(), unless the finally clause was left before
abbrev pub leave_lock : RunEnd → String → Library → Library
leave_lock (stuck e) id l = l
leave_lock returned id l = drop_lock id "run" l
leave_lock (escaped e) id l = drop_lock id "run" l

-- self._running.discard(project_id), likewise
abbrev pub leave_running : RunEnd → String → List String → List String
leave_running (stuck e) id running = running
leave_running returned id running = filter (λ other. not (other == id)) running
leave_running (escaped e) id running = filter (λ other. not (other == id)) running

-- The try statement of `run`, for an admitted project.
unfoldable pub run_under_lock :
    Setting → Work → String → String → Project → Library → RunEnd × Library
unfolding run_loaded handle_outcome load
run_under_lock s work run_id id p l =
    if contains (id, "run") l.held
    then (escaped (RunError.raised (StoreError.lock_busy "run")), l)
    else let held = take_lock id "run" l in
      let (end, r) =
        run_loaded_again s work run_id
          (record { project = p; library = held; writes = 0; looks = 0 })
          (load s.normcase id held) in
      (end, leave_lock end id r.library)

abbrev pub enter :
    Setting
    → Work
    → String
    → String
    → List String
    → Library
    → Result StoreError Project
    → RunEnd × Control
enter s work run_id id running l (ok p) =
    let (end, l') = run_under_lock s work run_id id p l in
    (end, record { library = l'; running = leave_running end id (id ∷ running) })
enter s work run_id id running l (err e) =
    (escaped (RunError.raised e), record { library = l; running = running })

abbrev pub enter_writable :
    Setting
    → Work
    → String
    → String
    → List String
    → Library
    → Result StoreError ProjectPaths
    → RunEnd × Control
enter_writable s work run_id id running l (ok found) =
    enter s work run_id id running l (admitted s id running l)
enter_writable s work run_id id running l (err e) =
    (escaped (RunError.raised e), record { library = l; running = running })

-- `run`
unfoldable pub run_project : Setting → Work → String → String → Control → RunEnd × Control
unfolding ensure_writable admitted run_under_lock
run_project s work run_id id c =
    let (found, l) = ensure_writable s.normcase id c.library in
    enter_writable s work run_id id c.running l found
