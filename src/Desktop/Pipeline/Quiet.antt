-- ===== src/Desktop/Pipeline/Quiet.antt =====
-- The stages of a run of apps/desktop/pipeline.py once it has returned.
use gaussian_os.Prelude.{
  String, Bool, true, false, ◌≡◌, refl, sym, ◌∙◌, none, ◌==◌, string_eq, option_eq, Result, ok, err,
}
use gaussian_os.Desktop.Pipeline.{RunError, Setting, Run, ◌>>=◌, persist, ended}
use gaussian_os.Desktop.Pipeline.Bodies.{Work}
use gaussian_os.Desktop.Pipeline.Execution.{
  Clause, clause_of, execute_stages, RunEnd, returned, escaped, stuck, mark_persistence_failure,
  after_final, final_failed, close, handle_clause, finalize, handle_outcome, begin_run_of,
  after_start, run_loaded,
}
use gaussian_os.Desktop.Pipeline.Active.{Active, if-Active, KeepsActive, Active-Preserved}
use gaussian_os.Desktop.Pipeline.Order.{execute_stages-Keeps}
use gaussian_os.Desktop.Pipeline.Returns.{Returns, ended_by-Returns, close-escaped}
use gaussian_os.Desktop.Pipeline.Rest.{
  NoneRunning, NoneRunning-Active, terminate-NoneRunning, marked-NoneRunning,
  is_complete-NoneRunning, Complete, execute_stages-Complete,
}

-- A run that returns leaves no stage running.
abbrev pub Quiet : RunEnd × Run → Type 0
Quiet = Returns (λ r. NoneRunning r.project)

module _ (s : Setting) where
  NoneRunning-Quiet : (ended : RunEnd) (r : Run) → NoneRunning r.project → Quiet (ended, r)
  NoneRunning-Quiet returned r quiet = quiet
  NoneRunning-Quiet (escaped e) r quiet = tt
  NoneRunning-Quiet (stuck e) r quiet = tt

  mark-NoneRunning :
      (e : RunError) (r : Run)
      → Active r.project
      → NoneRunning (Run.project (mark_persistence_failure s e r).1)
  unfolding mark_persistence_failure persist
  mark-NoneRunning e r active = marked-NoneRunning (s.time r.writes) (s.describe e) r.project active

  final_failed-Quiet :
      (ended : RunEnd) (e : RunError) (c : Clause) (r : Run)
      → NoneRunning r.project
      → Quiet (final_failed s ended e c r)
  final_failed-Quiet ended e Clause.store_clause r quiet =
      ended_by-Returns s (λ r. NoneRunning r.project) ended (mark_persistence_failure s e r).0
        RunEnd.stuck (mark_persistence_failure s e r).1 (λ e. tt)
        (NoneRunning-Quiet ended (mark_persistence_failure s e r).1
          (mark-NoneRunning e r (NoneRunning-Active r.project quiet)))
  final_failed-Quiet ended e Clause.lock_clause r quiet = tt
  final_failed-Quiet ended e Clause.interrupt_clause r quiet = tt
  final_failed-Quiet ended e Clause.other_clause r quiet = tt

  after_final-Quiet :
      (ended : RunEnd) (result : Result {0, 0} RunError Unit) (r : Run)
      → NoneRunning r.project
      → Quiet (after_final s ended result r)
  after_final-Quiet ended (ok u) r quiet = NoneRunning-Quiet ended r quiet
  after_final-Quiet ended (err e) r quiet = final_failed-Quiet ended e (clause_of e) r quiet

  finalize-Quiet : (ended : RunEnd) (r : Run) → NoneRunning r.project → Quiet (finalize s ended r)
  unfolding finalize persist
  finalize-Quiet ended r quiet =
      let closing = record r { project = record r.project { current_stage = none } } in
      after_final-Quiet ended (persist s false closing).0 (persist s false closing).1 quiet

  close-Quiet :
      (has_started : Bool) (ended : RunEnd) (r : Run)
      → NoneRunning r.project
      → Quiet (close s has_started ended r)
  close-Quiet true ended r quiet = finalize-Quiet ended r quiet
  close-Quiet false ended r quiet = NoneRunning-Quiet ended r quiet

  handle_clause-Quiet :
      (has_started : Bool) (e : RunError) (c : Clause) (r : Run)
      → Active r.project
      → Quiet (handle_clause s has_started e c r)
  handle_clause-Quiet has_started e Clause.lock_clause r active =
      close-escaped s (λ r. NoneRunning r.project) has_started e r
  handle_clause-Quiet has_started e Clause.interrupt_clause r active =
      close-Quiet has_started returned _
        (terminate-NoneRunning (s.time r.writes) "interrupted" (s.describe e) r.project refl active)
  handle_clause-Quiet has_started e Clause.store_clause r active =
      ended_by-Returns s (λ r. NoneRunning r.project) returned (mark_persistence_failure s e r).0
        RunEnd.escaped (mark_persistence_failure s e r).1 (λ e. tt) (mark-NoneRunning e r active)
  handle_clause-Quiet has_started e Clause.other_clause r active =
      close-Quiet has_started returned _
        (terminate-NoneRunning (s.time r.writes) "failed" (s.describe e) r.project refl active)

  handle_outcome-Quiet :
      (has_started : Bool) (result : Result {0, 0} RunError Unit) (r : Run)
      → Active r.project
      → (result ≡ ok tt → Complete r.project)
      → Quiet (handle_outcome s has_started result r)
  unfolding handle_outcome
  handle_outcome-Quiet has_started (ok u) r active complete =
      finalize-Quiet returned r
        (is_complete-NoneRunning (complete refl).0 r.project active (complete refl).1)
  handle_outcome-Quiet has_started (err e) r active complete =
      handle_clause-Quiet has_started e (clause_of e) r active

  after_start-Quiet :
      (work : Work) (result : Result {0, 0} RunError Unit) (r : Run)
      → Active r.project
      → Quiet (after_start s work result r)
  after_start-Quiet work (ok u) r active =
      handle_outcome-Quiet true (execute_stages s work r).0 (execute_stages s work r).1
        (execute_stages-Keeps KeepsActive Active-Preserved s work r active)
        (execute_stages-Complete s work r)
  after_start-Quiet work (err e) r active =
      handle_outcome-Quiet false (err e) r active (λ h. absurd (cc h))

  begin_run_of-Active :
      (run_id : String) (r : Run)
      → NoneRunning r.project
      → Active (Run.project (begin_run_of s run_id r).1)
  unfolding begin_run_of persist ◌>>=◌
  begin_run_of-Active run_id r quiet =
      if-Active (r.project.status == "running") _ _ (λ busy. NoneRunning-Active r.project quiet)
        (λ idle n runs. absurd (cc (sym (quiet n) ∙ runs)))

  -- When no stage of the project is running before a run, none is after a run that returns its
  -- project, however the work, the writes of the document and the cancellation have gone.
  pub run_loaded-Quiet :
      (work : Work) (run_id : String) (r : Run)
      → NoneRunning r.project
      → Quiet (run_loaded s work run_id r)
  unfolding run_loaded
  run_loaded-Quiet work run_id r quiet =
      after_start-Quiet work (begin_run_of s run_id r).0 (begin_run_of s run_id r).1
        (begin_run_of-Active run_id r quiet)
