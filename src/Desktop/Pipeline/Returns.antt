-- ===== src/Desktop/Pipeline/Returns.antt =====
-- What holds of a run of apps/desktop/pipeline.py where it returns, and nothing where it raises.
use gaussian_os.Prelude.{
  Bool, true, false, Option, none, some, string_eq, option_eq, Result, ok, err,
}
use gaussian_os.Desktop.Pipeline.{RunError, Setting, Run, persist, ended}
use gaussian_os.Desktop.Pipeline.Execution.{
  Clause, clause_of, RunEnd, returned, escaped, stuck, mark_persistence_failure, ended_by,
  after_final, final_failed, close, finalize,
}

-- The property holds of a run that returns.
abbrev pub Returns : (Run → Type 0) → RunEnd × Run → Type 0
Returns P (returned, r) = P r
Returns P (escaped e, r) = Unit
Returns P (stuck e, r) = Unit

module _ (s : Setting) (P : Run → Type 0) where
  pub ended_by-Returns :
      (ended : RunEnd) (failure : Option RunError) (bad : RunError → RunEnd) (r : Run)
      → ((e : RunError) → Returns P (bad e, r))
      → Returns P (ended, r)
      → Returns P (ended_by ended bad failure, r)
  ended_by-Returns ended none bad r h quiet = quiet
  ended_by-Returns ended (some e) bad r h quiet = h e

  final_failed-escaped :
      (e e' : RunError) (c : Clause) (r : Run) → Returns P (final_failed s (escaped e) e' c r)
  final_failed-escaped e e' Clause.store_clause r =
      ended_by-Returns (escaped e) (mark_persistence_failure s e' r).0 RunEnd.stuck
        (mark_persistence_failure s e' r).1 (λ e. tt) tt
  final_failed-escaped e e' Clause.lock_clause r = tt
  final_failed-escaped e e' Clause.interrupt_clause r = tt
  final_failed-escaped e e' Clause.other_clause r = tt

  after_final-escaped :
      (e : RunError) (result : Result {0, 0} RunError Unit) (r : Run)
      → Returns P (after_final s (escaped e) result r)
  after_final-escaped e (ok u) r = tt
  after_final-escaped e (err e') r = final_failed-escaped e e' (clause_of e') r

  pub close-escaped :
      (has_started : Bool) (e : RunError) (r : Run) → Returns P (close s has_started (escaped e) r)
  unfolding finalize
  close-escaped true e r =
      let closing = record r { project = record r.project { current_stage = none } } in
      after_final-escaped e (persist s false closing).0 (persist s false closing).1
  close-escaped false e r = tt
