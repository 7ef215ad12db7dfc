-- ===== src/Desktop/Pipeline/Recovery.antt =====
-- `recover_interrupted_projects` of apps/desktop/pipeline.py: after a restart, the runs that no process
-- holds any more.
pub mod Settled
use gaussian_os.Prelude.{
  ℕ, suc, String, Bool, true, false, Option, none, some, List, [], ◌∷◌, ◌++◌, map, ◌==◌, string_eq,
  pair_eq, Result, ok, err, if◌then◌else◌, contains,
}
use gaussian_os.Desktop.Paths.{FilePath}
use gaussian_os.Desktop.Durable.{Volume}
use gaussian_os.Desktop.Project.{Project, StageState}
use gaussian_os.Desktop.Library.{
  StoreError, Library, StoreAction, checked_id, take_lock, drop_lock, all_projects,
}
use gaussian_os.Desktop.Library.Update.{update_project}
use gaussian_os.Desktop.Pipeline.Execution.{with_warning}

-- if state.status == "running": ...
abbrev pub interrupt_stage : String × StageState → String × StageState
interrupt_stage (name, state) =
    if state.status == "running"
    then (
      name,
      record state {
        status = "interrupted";
        error = some "Desktop restarted while this stage was running";
      },
    )
    else (name, state)

-- `apply`
abbrev pub interrupted : Project → Result StoreError Project
interrupted p =
    if p.status == "running"
    then ok (
        with_warning "Desktop restarted while this task was running; resume to continue."
          (record p {
            status = "interrupted";
            stages = map interrupt_stage p.stages;
            current_stage = none;
          }))
    else ok p

-- recovered.append(project)
abbrev pub appended : Result StoreError Project → Result StoreError (Option Project)
appended (ok p) = ok (some p)
appended (err e) = err e

-- What the rest of the loop gives, after one snapshot.
abbrev pub after_snapshot :
    Result StoreError (Option Project)
    → Library
    → Result StoreError (List Project) × Library
    → Result StoreError (List Project) × Library
after_snapshot (err e) l rest = (err e, l)
after_snapshot (ok none) l rest = rest
after_snapshot (ok (some p)) l (ok ps, l') = (ok (p ∷ ps), l')
after_snapshot (ok (some p)) l (err e, l') = (err e, l')

-- `os.path.normcase`, and the volume and the clock at each snapshot
module _ (normcase : FilePath → FilePath) (volume : ℕ → Volume) (time : ℕ → String) where
  -- The update under the run lock, and the release of it.
  unfoldable pub update_interrupted : ℕ → String → StoreAction (Option Project)
  unfolding update_project
  update_interrupted n id l =
      let (r, l') =
        update_project normcase (volume n) (time n) id interrupted (take_lock id "run" l) in
      (appended r, drop_lock id "run" l')

  -- The body of the loop for a snapshot whose status is running: `run_lock` may raise, and so may
  -- `acquire`, which goes on with the next one.
  abbrev pub recover_checked : ℕ → Result StoreError String → StoreAction (Option Project)
  recover_checked n (err e) l = (ok none, l)
  recover_checked n (ok id) l =
      if contains (id, "run") l.held then (ok none, l) else update_interrupted n id l

  unfoldable pub recover_snapshot : ℕ → Project → StoreAction (Option Project)
  unfolding checked_id update_interrupted
  recover_snapshot n p l =
      if p.status == "running" then recover_checked n (checked_id p.project_id) l else (ok none, l)

  -- for snapshot in self.store.all(): ...
  unfoldable pub recover_each : ℕ → List Project → StoreAction (List Project)
  unfolding recover_snapshot
  recover_each n [] l = (ok [], l)
  recover_each n (p ∷ ps) l =
      let (r, l') = recover_snapshot n p l in after_snapshot r l' (recover_each (suc n) ps l')

  abbrev pub recover_listed : Result StoreError (List Project) → StoreAction (List Project)
  recover_listed (ok ps) l = recover_each 0 ps l
  recover_listed (err e) l = (err e, l)

  -- `recover_interrupted_projects`
  unfoldable pub recover_interrupted_projects : StoreAction (List Project)
  unfolding all_projects recover_each
  recover_interrupted_projects l = recover_listed (all_projects normcase l) l
