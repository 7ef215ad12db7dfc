-- ===== src/Desktop/Pipeline/Execution.antt =====
-- `run` of apps/desktop/pipeline.py, once it has the run lock of its project.
use gaussian_os.Prelude.{
  String, Bool, true, false, Option, none, some, [], ◌∷◌, ◌++◌, ◌==◌, string_eq, Result, ok, err,
  if◌then◌else◌,
}
use gaussian_os.Desktop.Project.{Project}
use gaussian_os.Desktop.Durable.{WriteError}
use gaussian_os.Desktop.Library.{StoreError}
use gaussian_os.Desktop.Pipeline.{
  RunError, Setting, Run, Step, ◌>>=◌, ◌>>◌, change, raise_if_cancelled, persist,
  terminate_active_stage, normalize_success,
}
use gaussian_os.Desktop.Pipeline.Bodies.{
  Work, ingest, reconstruct, prepare_training_input, train, validate_and_export,
}

-- The clauses of `run` that an exception can reach.
pub data Clause : Type 0 where
  lock_clause interrupt_clause store_clause other_clause : Clause

abbrev pub clause_of : RunError → Clause
clause_of RunError.interrupted = Clause.interrupt_clause
clause_of (RunError.raised (StoreError.lock_busy operation)) = Clause.lock_clause
clause_of (RunError.raised (StoreError.unreadable id)) = Clause.store_clause
clause_of (RunError.raised StoreError.unsafe_workspace) = Clause.store_clause
clause_of (RunError.raised (StoreError.not_written (WriteError.not_saved n))) = Clause.store_clause
clause_of (RunError.raised (StoreError.lifecycle what)) = Clause.store_clause
clause_of (RunError.raised (StoreError.delete_failed what)) = Clause.store_clause
clause_of (RunError.raised e) = Clause.other_clause

-- The statements between `started = True` and the first `except`.
unfoldable pub execute_stages : Setting → Work → Step Unit
unfolding ingest reconstruct prepare_training_input train validate_and_export normalize_success
execute_stages s work = do
  raise_if_cancelled s
  images ← ingest s work
  raise_if_cancelled s
  reconstruction ← reconstruct s work
  raise_if_cancelled s
  training_input ← prepare_training_input s work
  raise_if_cancelled s
  training ← train s work
  raise_if_cancelled s
  validate_and_export s work training
  raise_if_cancelled s
  normalize_success s
  change (λ p. record p { status = "succeeded" })

-- How a run ends: with its project, with an exception after its finally clause, or with an exception
-- that leaves the finally clause before the locks are released.
pub data RunEnd : Type 0 where
  returned : RunEnd
  escaped stuck : RunError → RunEnd

-- self._terminate_active_stage(project, status, error); project.status = status
abbrev pub end_with : String → String → String → Project → Project
end_with now status error p = record (terminate_active_stage now status error p) { status = status }

-- What `except (ProjectStoreError, RuntimeError)` takes.
abbrev pub swallows : RunError → Bool
swallows RunError.interrupted = false
swallows (RunError.raised (StoreError.runtime_error what)) = true
swallows (RunError.raised e) = elim (clause_of (RunError.raised e)) [
  | Clause.other_clause ↦ false
  | _ ↦ true
]

-- `_best_effort_persist`: the exception that it lets through
abbrev pub let_through : Result {0, 0} RunError Unit → Option RunError
let_through (ok u) = none
let_through (err e) = if swallows e then none else some e

abbrev pub with_warning : String → Project → Project
with_warning warning p = record p { warnings = p.warnings ++ warning ∷ [] }

-- The project that `_mark_persistence_failure` leaves.
abbrev pub marked : String → String → Project → Project
marked now error p =
    with_warning error (record (end_with now "failed" error p) { current_stage = none })

-- `_mark_persistence_failure`
unfoldable pub mark_persistence_failure : Setting → RunError → Run → Option RunError × Run
unfolding persist terminate_active_stage
mark_persistence_failure s e r =
    let now = s.time r.writes in
    let (result, r') =
      persist s false (record r { project = marked now (s.describe e) r.project }) in
    (let_through result, r')

abbrev pub ended_by : RunEnd → (RunError → RunEnd) → Option RunError → RunEnd
ended_by ended bad none = ended
ended_by ended bad (some e) = bad e

-- The write of the finally clause raised an exception of that kind.
abbrev pub final_failed : Setting → RunEnd → RunError → Clause → Run → RunEnd × Run
final_failed s ended e Clause.store_clause r =
    let (failure, r') = mark_persistence_failure s e r in (ended_by ended RunEnd.stuck failure, r')
final_failed s ended e clause r = (RunEnd.stuck e, r)

abbrev pub after_final : Setting → RunEnd → Result {0, 0} RunError Unit → Run → RunEnd × Run
after_final s ended (ok u) r = (ended, r)
after_final s ended (err e) r = final_failed s ended e (clause_of e) r

-- The finally clause of a run that has started and has not failed to write its state.
unfoldable pub finalize : Setting → RunEnd → Run → RunEnd × Run
unfolding persist mark_persistence_failure
finalize s ended r =
    let (result, r') =
      persist s false (record r { project = record r.project { current_stage = none } }) in
    after_final s ended result r'

-- The finally clause, which writes nothing for a run that has not started.
abbrev pub close : Setting → Bool → RunEnd → Run → RunEnd × Run
close s true ended r = finalize s ended r
close s false ended r = (ended, r)

-- The except clause that the exception reaches, then the finally clause.
abbrev pub handle_clause : Setting → Bool → RunError → Clause → Run → RunEnd × Run
handle_clause s has_started e Clause.lock_clause r = close s has_started (RunEnd.escaped e) r
handle_clause s has_started e Clause.interrupt_clause r =
    close s has_started RunEnd.returned
      (record r { project = end_with (s.time r.writes) "interrupted" (s.describe e) r.project })
handle_clause s has_started e Clause.store_clause r =
    let (failure, r') = mark_persistence_failure s e r in
    (ended_by RunEnd.returned RunEnd.escaped failure, r')
handle_clause s has_started e Clause.other_clause r =
    close s has_started RunEnd.returned (record r {
      project =
          with_warning (s.describe e)
            (end_with (s.time r.writes) "failed" (s.describe e) r.project);
    })

unfoldable pub handle_outcome : Setting → Bool → Result {0, 0} RunError Unit → Run → RunEnd × Run
unfolding finalize mark_persistence_failure terminate_active_stage
handle_outcome s has_started (ok u) r = finalize s RunEnd.returned r
handle_outcome s has_started (err e) r = handle_clause s has_started e (clause_of e) r

-- What `run` does up to `started = True`, with the project that it has loaded.
unfoldable pub begin_run_of : Setting → String → Step Unit
unfolding persist
begin_run_of s run_id r =
    if r.project.status == "running"
    then (err (RunError.raised (StoreError.lock_busy "run")), r)
    else (change (λ p. record p { run_id = some run_id; status = "running"; current_stage = none })
          >> persist s true)
        r

-- The rest of `run`, once it has begun or not.
abbrev pub after_start : Setting → Work → Result {0, 0} RunError Unit → Run → RunEnd × Run
after_start s work (ok u) r =
    let (result, r') = execute_stages s work r in handle_outcome s true result r'
after_start s work (err e) r = handle_outcome s false (err e) r

-- The try statement of `run`, from the project that it loads under the run lock.
unfoldable pub run_loaded : Setting → Work → String → Run → RunEnd × Run
unfolding begin_run_of execute_stages handle_outcome
run_loaded s work run_id r =
    let (result, r') = begin_run_of s run_id r in after_start s work result r'
