-- ===== src/Desktop/Pipeline/Owner.antt =====
-- `_persist` of apps/desktop/pipeline.py and the run that owns the document.
use gaussian_os.Prelude.{
  String, false, ◌≡◌, string_eq, option_eq, Result, ok, err, lookup, same_iff, list_eq, arith,
}
use gaussian_os.Desktop.Project.{Project}
use gaussian_os.Desktop.Library.{StoreError}
use gaussian_os.Desktop.Pipeline.{RunError, Setting, Run, persist}
use gaussian_os.Desktop.Library.{Library}
use gaussian_os.Desktop.Library.Update.{update_project}
use gaussian_os.Desktop.Library.Outcome.{Writes, update_project-Outcome}
use gaussian_os.Desktop.Library.Renamed.{update_project-eq_ok}
use gaussian_os.Desktop.Pipeline.{replaced_by, written}
use gaussian_os.Desktop.Library.{load}
use gaussian_os.Desktop.Pipeline.Durable.{IsStored, written-eq_ok, persist-IsStored}

replaced_by-owner :
    (snapshot current changed : Project)
    → replaced_by false snapshot current ≡ ok changed
    → (current.run_id ≡ snapshot.run_id)
      × (current.project_id ≡ snapshot.project_id)
      × (current.root ≡ snapshot.root)
unfolding replaced_by
replaced_by-owner snapshot current changed h = ground (
  arith,
  same_iff current.run_id snapshot.run_id,
  same_iff current.project_id snapshot.project_id,
  same_iff current.root snapshot.root,
)

Writes-kept :
    (id : String) (result : Result StoreError Project) (l l' : Library) (e : RunError)
    → written result ≡ err e
    → Writes id result l l'
    → lookup id l'.documents ≡ lookup id l.documents
Writes-kept id (ok q) l l' e h writes = absurd (cc h)
Writes-kept id (err e') l l' e h writes = writes

-- A write of a run that has begun returns only when the document of its project still belongs to
-- the run, to the project and to its workspace, and then it leaves the run's project there; when it
-- raises, the document is as it was.
pub persist-Owner :
    (s : Setting) (r : Run)
    → let (result, r') = persist s false r in
      let id = r.project.project_id in
      (result ≡ ok tt
        → IsStored r'
          × ((p : Project) × (load s.normcase id r.library ≡ ok p)
              × (p.run_id ≡ r.project.run_id)
              × (p.project_id ≡ id)
              × (p.root ≡ r.project.root)))
      × ((e : RunError)
          → result ≡ err e
          → lookup id r'.library.documents ≡ lookup id r.library.documents)
unfolding persist
persist-Owner s r = (
  λ returns.
      let (q, result) =
        written-eq_ok
          (update_project s.normcase (s.volume r.writes) (s.time r.writes) r.project.project_id
            (replaced_by false r.project) r.library).0
          returns in
      let (p, changed, loaded, update, saved) =
        update_project-eq_ok s.normcase (s.volume r.writes) (s.time r.writes) r.project.project_id
          (replaced_by false r.project) r.library q result in
      let (same_run, same_id, same_root) = replaced_by-owner r.project p changed update in
      (persist-IsStored s false r returns, (p, loaded, same_run, same_id, same_root)),
  λ e raises.
      Writes-kept r.project.project_id
        (update_project s.normcase (s.volume r.writes) (s.time r.writes) r.project.project_id
          (replaced_by false r.project) r.library).0
        r.library (persist s false r).1.library e raises
        (update_project-Outcome s.normcase (s.volume r.writes) (s.time r.writes)
          r.project.project_id (replaced_by false r.project) r.library).0,
)
