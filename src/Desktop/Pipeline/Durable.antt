-- ===== src/Desktop/Pipeline/Durable.antt =====
-- The success that `run` of apps/desktop/pipeline.py reports, and the document of the project.
use gaussian_os.Prelude.{
  String, Bool, true, false, ◌≡◌, refl, ap, ◌∙◌, none, some, ◌==◌, string_eq, option_eq, Result, ok,
  err, lookup, same_iff, arith,
}
use gaussian_os.Desktop.Project.{Project}
use gaussian_os.Desktop.Library.{StoreError}
use gaussian_os.Desktop.Pipeline.{RunError, Setting, Run, persist, is_complete}
use gaussian_os.Desktop.Pipeline.Bodies.{Work}
use gaussian_os.Desktop.Pipeline.Execution.{
  Clause, clause_of, execute_stages, RunEnd, returned, mark_persistence_failure, after_final,
  final_failed, close, handle_clause, finalize, handle_outcome, begin_run_of, after_start,
  run_loaded,
}
use gaussian_os.Desktop.Pipeline.Returns.{Returns, ended_by-Returns, close-escaped}
use gaussian_os.Desktop.Pipeline.Rest.{Complete, execute_stages-Complete}
use gaussian_os.Desktop.Library.{StateDocument, Library}
use gaussian_os.Desktop.Library.Update.{update_project}
use gaussian_os.Desktop.Library.Outcome.{Writes, update_project-Outcome}
use gaussian_os.Desktop.Library.Renamed.{update_project-eq_ok}
use gaussian_os.Desktop.Pipeline.{replaced_by, written}

abbrev at_time : String → Project → Project
at_time now p = record p { updated_at = now }

-- The document of the project is the project in memory, but for the time of the write.
abbrev pub IsStored : Run → Type 0
IsStored r =
    (now : String) × (lookup r.project.project_id (r.library.documents)
      ≡ some (StateDocument.readable (record r.project { updated_at = now })))

-- A success is complete and stored.
abbrev pub IsDurable : Run → Type 0
IsDurable r = r.project.status ≡ "succeeded" → Complete r.project × IsStored r

pub written-eq_ok :
    (result : Result StoreError Project) → written result ≡ ok tt → (q : Project) × (result ≡ ok q)
written-eq_ok (ok q) h = (q, refl)
written-eq_ok (err e) h = absurd (cc h)

pub replaced_by-eq_ok :
    (allow : Bool) (snapshot current changed : Project)
    → replaced_by allow snapshot current ≡ ok changed
    → changed ≡ snapshot
unfolding replaced_by
replaced_by-eq_ok allow snapshot current changed h = ground arith

Writes-readable :
    (id : String) (result : Result StoreError Project) (l l' : Library) (q : Project)
    → result ≡ ok q
    → Writes id result l l'
    → lookup id l'.documents ≡ some (StateDocument.readable q)
Writes-readable id (ok p) l l' q same writes = cc
Writes-readable id (err e) l l' q same writes = absurd (cc same)

module _ (s : Setting) where
  pub persist-IsStored :
      (allow : Bool) (r : Run) → (persist s allow r).0 ≡ ok tt → IsStored (persist s allow r).1
  unfolding persist
  persist-IsStored allow r returns =
      let id = r.project.project_id in
      let now = s.time r.writes in
      let replace = replaced_by allow r.project in
      let call = update_project s.normcase (s.volume r.writes) now id replace r.library in
      let (q, result) = written-eq_ok call.0 returns in
      let (p, changed, loaded, update, saved) =
        update_project-eq_ok s.normcase (s.volume r.writes) now id replace r.library q result in
      (
        now,
        Writes-readable id call.0 r.library call.1 q result
              (update_project-Outcome s.normcase (s.volume r.writes) now id replace r.library).0
            ∙ ap (λ q. some (StateDocument.readable q))
                (saved ∙ ap (at_time now) (replaced_by-eq_ok allow r.project p changed update)),
      )

  -- A project whose status is not "succeeded" reports no success.
  not_succeeded :
      (r : Run) (status : String)
      → r.project.status ≡ status
      → (status == "succeeded") ≡ false
      → IsDurable r
  not_succeeded r status same other success =
      absurd (ground (arith, same_iff status "succeeded", same, success, other))

  mark-IsDurable : (e : RunError) (r : Run) → IsDurable (mark_persistence_failure s e r).1
  unfolding mark_persistence_failure persist
  mark-IsDurable e r success = absurd (cc success)

  final_failed-IsDurable :
      (e : RunError) (c : Clause) (r : Run) → Returns IsDurable (final_failed s returned e c r)
  final_failed-IsDurable e Clause.store_clause r =
      ended_by-Returns s IsDurable returned (mark_persistence_failure s e r).0 RunEnd.stuck
        (mark_persistence_failure s e r).1 (λ e. tt) (mark-IsDurable e r)
  final_failed-IsDurable e Clause.lock_clause r = tt
  final_failed-IsDurable e Clause.interrupt_clause r = tt
  final_failed-IsDurable e Clause.other_clause r = tt

  after_final-IsDurable :
      (result : Result {0, 0} RunError Unit) (r : Run)
      → (result ≡ ok tt → IsDurable r)
      → Returns IsDurable (after_final s returned result r)
  after_final-IsDurable (ok u) r durable = durable refl
  after_final-IsDurable (err e) r durable = final_failed-IsDurable e (clause_of e) r

  finalize-IsDurable :
      (r : Run)
      → (r.project.status ≡ "succeeded" → Complete r.project)
      → Returns IsDurable (finalize s returned r)
  unfolding finalize is_complete
  finalize-IsDurable r complete =
      let closing = record r { project = record r.project { current_stage = none } } in
      after_final-IsDurable (persist s false closing).0 (persist s false closing).1
        (λ returns success. (complete success, persist-IsStored false closing returns))

  close-IsDurable :
      (has_started : Bool) (r : Run) (status : String)
      → r.project.status ≡ status
      → (status == "succeeded") ≡ false
      → Returns IsDurable (close s has_started returned r)
  close-IsDurable true r status same other =
      finalize-IsDurable r
        (λ success. absurd (ground (arith, same_iff status "succeeded", same, success, other)))
  close-IsDurable false r status same other = not_succeeded r status same other

  handle_clause-IsDurable :
      (has_started : Bool) (e : RunError) (c : Clause) (r : Run)
      → Returns IsDurable (handle_clause s has_started e c r)
  handle_clause-IsDurable has_started e Clause.lock_clause r =
      close-escaped s IsDurable has_started e r
  handle_clause-IsDurable has_started e Clause.interrupt_clause r =
      close-IsDurable has_started _ "interrupted" refl refl
  handle_clause-IsDurable has_started e Clause.store_clause r =
      ended_by-Returns s IsDurable returned (mark_persistence_failure s e r).0 RunEnd.escaped
        (mark_persistence_failure s e r).1 (λ e. tt) (mark-IsDurable e r)
  handle_clause-IsDurable has_started e Clause.other_clause r =
      close-IsDurable has_started _ "failed" refl refl

  handle_outcome-IsDurable :
      (has_started : Bool) (result : Result {0, 0} RunError Unit) (r : Run)
      → (result ≡ ok tt → Complete r.project)
      → Returns IsDurable (handle_outcome s has_started result r)
  unfolding handle_outcome
  handle_outcome-IsDurable has_started (ok u) r complete =
      finalize-IsDurable r (λ success. complete refl)
  handle_outcome-IsDurable has_started (err e) r complete =
      handle_clause-IsDurable has_started e (clause_of e) r

  after_start-IsDurable :
      (work : Work) (result : Result {0, 0} RunError Unit) (r : Run)
      → Returns IsDurable (after_start s work result r)
  after_start-IsDurable work (ok u) r =
      handle_outcome-IsDurable true (execute_stages s work r).0 (execute_stages s work r).1
        (execute_stages-Complete s work r)
  after_start-IsDurable work (err e) r =
      handle_outcome-IsDurable false (err e) r (λ h. absurd (cc h))

  -- When a run returns its project with the status "succeeded", every stage of STAGES has succeeded,
  -- was skipped or required the fallback, and the document of the project in the store is that
  -- project, but for the time of the write.
  pub run_loaded-IsDurable :
      (work : Work) (run_id : String) (r : Run) → Returns IsDurable (run_loaded s work run_id r)
  unfolding run_loaded
  run_loaded-IsDurable work run_id r =
      after_start-IsDurable work (begin_run_of s run_id r).0 (begin_run_of s run_id r).1
