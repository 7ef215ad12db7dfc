-- ===== src/Desktop/Pipeline/Held.antt =====
-- The locks that are held while a run of apps/desktop/pipeline.py works under its run lock.
use gaussian_os.Prelude.{
  String, Bool, true, false, not, ◌&&◌, ◌≡◌, refl, ◌∙◌, none, some, Result, ok, err, ◌==◌,
  string_eq, option_eq, if◌then◌else◌, lookup,
}
use gaussian_os.Contracts.Json.{Dict}
use gaussian_os.Desktop.Project.{Project}
use gaussian_os.Desktop.Library.Outcome.{update_project-Outcome}
use gaussian_os.Desktop.Pipeline.{
  RunError, Setting, Run, ◌>>=◌, persist, start_stage, complete_stage, skip_stage, replaced_by,
  is_active, is_blocked, has_text,
}
use gaussian_os.Desktop.Pipeline.Bodies.{Work}
use gaussian_os.Desktop.Pipeline.Execution.{
  Clause, clause_of, RunEnd, execute_stages, mark_persistence_failure, final_failed, after_final,
  finalize, close, handle_clause, handle_outcome, begin_run_of, after_start, run_loaded,
}
use gaussian_os.Desktop.Pipeline.Order.{Preserved, execute_stages-Keeps}

abbrev pub KeepsHeld : Run → Run → Type 0
KeepsHeld r r' = r'.library.held ≡ r.library.held

persist-held : (s : Setting) (allow : Bool) (r : Run) → KeepsHeld r (persist s allow r).1
unfolding persist
persist-held s allow r =
    (update_project-Outcome s.normcase (s.volume r.writes) (s.time r.writes) r.project.project_id
      (replaced_by allow r.project) r.library).1.3

-- The same after a change of the project in memory.
changed-held :
    (s : Setting) (allow : Bool) (r : Run) (p : Project)
    → KeepsHeld r (persist s allow (record r { project = p })).1
changed-held s allow r p = persist-held s allow (record r { project = p })

either-held :
    {A : Type 0} (b : Bool) (r : Run) (x y : A × Run)
    → KeepsHeld r x.1
    → KeepsHeld r y.1
    → KeepsHeld r (if b then x else y).1
either-held true r x y h k = h
either-held false r x y h k = k

start_stage-held : (s : Setting) (name : String) (r : Run) → KeepsHeld r (start_stage s name r).1
unfolding start_stage ◌>>=◌
start_stage-held s name r =
    either-held (not (r.project.status == "running" && has_text r.project.run_id)) r _ _ refl
      (either-held (is_blocked name r.project) r _ _ refl (changed-held s false r _))

complete_stage-held :
    (s : Setting) (name : String) (r : Run) → KeepsHeld r (complete_stage s name r).1
unfolding complete_stage ◌>>=◌
complete_stage-held s name r =
    either-held
      (not (r.project.current_stage == some name && is_active (lookup name r.project.stages))) r _ _
      refl (changed-held s false r _)

skip_stage-held :
    (s : Setting) (name : String) (reason : Dict) (r : Run)
    → KeepsHeld r (skip_stage s name reason r).1
unfolding skip_stage ◌>>=◌
skip_stage-held s name reason r = changed-held s false r _

Held-Preserved : Preserved KeepsHeld
Held-Preserved = record {
  stays = λ r. refl;
  follows = λ a b c h k. k ∙ h;
  looking = λ s r. either-held (s.is_cancelled r.looks) r _ _ refl refl;
  writing = persist-held;
  starting = λ s name known. start_stage-held s name;
  completing = complete_stage-held;
  skipping = skip_stage-held;
  recording = λ s name paths metrics r. refl;
  falling_back = λ s message r. refl;
  sampling = λ sampling r. refl;
  warning = λ warnings r. refl;
  succeeding = λ r. refl;
}

module _ (s : Setting) where
  mark-held : (e : RunError) (r : Run) → KeepsHeld r (mark_persistence_failure s e r).1
  unfolding mark_persistence_failure
  mark-held e r = changed-held s false r _

  final_failed-held :
      (end : RunEnd) (e : RunError) (c : Clause) (r : Run)
      → KeepsHeld r (final_failed s end e c r).1
  final_failed-held end e Clause.store_clause r = mark-held e r
  final_failed-held end e Clause.lock_clause r = refl
  final_failed-held end e Clause.interrupt_clause r = refl
  final_failed-held end e Clause.other_clause r = refl

  after_final-held :
      (end : RunEnd) (result : Result {0, 0} RunError Unit) (r : Run)
      → KeepsHeld r (after_final s end result r).1
  after_final-held end (ok u) r = refl
  after_final-held end (err e) r = final_failed-held end e (clause_of e) r

  finalize-held : (end : RunEnd) (r : Run) → KeepsHeld r (finalize s end r).1
  unfolding finalize
  finalize-held end r =
      let closing = record r { project = record r.project { current_stage = none } } in
      after_final-held end (persist s false closing).0 (persist s false closing).1
      ∙ persist-held s false closing

  close-held : (started : Bool) (end : RunEnd) (r : Run) → KeepsHeld r (close s started end r).1
  close-held true end r = finalize-held end r
  close-held false end r = refl

  closed_with :
      (started : Bool) (r : Run) (p : Project)
      → KeepsHeld r (close s started RunEnd.returned (record r { project = p })).1
  closed_with started r p = close-held started RunEnd.returned (record r { project = p })

  handle_clause-held :
      (started : Bool) (e : RunError) (c : Clause) (r : Run)
      → KeepsHeld r (handle_clause s started e c r).1
  handle_clause-held started e Clause.lock_clause r = close-held started (RunEnd.escaped e) r
  handle_clause-held started e Clause.interrupt_clause r = closed_with started r _
  handle_clause-held started e Clause.store_clause r = mark-held e r
  handle_clause-held started e Clause.other_clause r = closed_with started r _

  pub handle_outcome-held :
      (started : Bool) (result : Result {0, 0} RunError Unit) (r : Run)
      → KeepsHeld r (handle_outcome s started result r).1
  unfolding handle_outcome
  handle_outcome-held started (ok u) r = finalize-held RunEnd.returned r
  handle_outcome-held started (err e) r = handle_clause-held started e (clause_of e) r

  after_start-held :
      (work : Work) (result : Result {0, 0} RunError Unit) (r : Run)
      → KeepsHeld r (after_start s work result r).1
  after_start-held work (ok u) r =
      handle_outcome-held true (execute_stages s work r).0 (execute_stages s work r).1
      ∙ execute_stages-Keeps KeepsHeld Held-Preserved s work r
  after_start-held work (err e) r = handle_outcome-held false (err e) r

  begin_run_of-held : (run_id : String) (r : Run) → KeepsHeld r (begin_run_of s run_id r).1
  unfolding begin_run_of ◌>>=◌
  begin_run_of-held run_id r =
      either-held (r.project.status == "running") r _ _ refl (changed-held s true r _)

  pub run_loaded-held :
      (work : Work) (run_id : String) (r : Run) → KeepsHeld r (run_loaded s work run_id r).1
  unfolding run_loaded
  run_loaded-held work run_id r =
      after_start-held work (begin_run_of s run_id r).0 (begin_run_of s run_id r).1
      ∙ begin_run_of-held run_id r
