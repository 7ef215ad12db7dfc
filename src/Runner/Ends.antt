-- ===== src/Runner/Ends.antt =====
-- A call of `run` of packages/pipeline/runner.py ends, once its worker can be killed.
use gaussian_os.Prelude.{
  ◌+◌, ◌≤◌, String, ◌≡◌, ◌≢◌, refl, sym, subst, Option, none, some, List, ◌∷◌, ◌++◌, Result, ok,
  err, ℤ, is_zero, Bool-cases, inl, inr, All,
}
use gaussian_os.Contracts.Kinds.{StageStatus}
use gaussian_os.Contracts.Violations.{Violation}
use gaussian_os.Contracts.Manifest.{PluginManifest}
use gaussian_os.Contracts.Request.{StageRequest, validate_request}
use gaussian_os.Contracts.Outcome.{StageResult}
use gaussian_os.Store.World.{Exc, World, Document}
use gaussian_os.Store.Attempt.{AttemptHandle, key_of, begin_attempt, write_document}
use gaussian_os.Store.Commit.{CommitRecord, commit, set_outputs}
use gaussian_os.Runner.Wait.{Reading, Stop, Limits, Waited, Write, wait_for_process}
use gaussian_os.Runner.Wait.Ends.{IsKillable, wait-ends}
use gaussian_os.Runner.Failure.{Failure, failure_result}
use gaussian_os.Runner.Contract.{Loaded, load_and_validate_result}
use gaussian_os.Runner.Meeting.{Runner, Spawn, Meeting, Ran, running}
use gaussian_os.Runner.Precheck.{precheck}
use gaussian_os.Runner.Finish.{rejected_outcome, fail, fail_outcome}
use gaussian_os.Runner.Run.{
  after_commit, accept, after_load, conclude, after_wait, supervise, after_request, after_bind,
  after_begin, execute, run_checked, run, stop_failure, exit_code_failure, limits_of, bind_request,
}

abbrev pub HasEnded : Ran × World → Type 0
HasEnded (r, w) = r ≢ running

-- The clock goes past the deadline and, later, past the grace period after that reading.
pub record RunsOut (limits : Limits) (readings : List Reading) : Type 0 where
  pub early : List Reading
  pub late : Reading
  pub middle : List Reading
  pub last : Reading
  pub more : List Reading
  pub split : readings ≡ early ++ late ∷ middle ++ last ∷ more
  pub ordered : All (λ (r : Reading). r.now ≤ late.now) early
  pub passed : limits.deadline ≤ late.now
  pub over : late.now + limits.grace ≤ last.now

-- For a process that has started, the clock runs out, and a kill ends it.
abbrev pub Bounded : Limits → Spawn → Type 0
Bounded limits (Spawn.starts readings) = RunsOut limits readings × IsKillable limits.process
Bounded limits _ = Unit

wait-RunsOut :
    (limits : Limits) (write : Write) (readings : List Reading) (w : World)
    → RunsOut limits readings
    → IsKillable limits.process
    → (wait_for_process limits write readings none w).0 ≢ Waited.waiting
wait-RunsOut limits write readings w h killable =
    subst (λ rs. (wait_for_process limits write rs none w).0 ≢ Waited.waiting) (sym h.split)
      (wait-ends limits write killable h.early h.late h.middle h.last h.more w h.ordered h.passed
        h.over)

module _ (s : Runner) (q : StageRequest) (e : Meeting) (a : AttemptHandle) where
  fail_outcome-HasEnded :
      (code : Option ℤ) (r : Result (List Violation) StageResult) (w : World)
      → HasEnded (fail_outcome s a code r w)
  fail_outcome-HasEnded code (err violations) w = λ h. cc h
  fail_outcome-HasEnded code (ok result) w = λ h. cc h

  fail-HasEnded : (code : Option ℤ) (f : Failure) (w : World) → HasEnded (fail s q e a code f w)
  unfolding fail
  fail-HasEnded code f w = fail_outcome-HasEnded code (failure_result q e.started_at e.now f) w

  after_commit-HasEnded :
      (code : ℤ) (result : StageResult) (r : Result Exc (List CommitRecord)) (w : World)
      → HasEnded (after_commit s q e a code result r w)
  unfolding after_commit
  after_commit-HasEnded code result (ok commits) w = λ h. cc h
  after_commit-HasEnded code result (err Exc.validation_error) w = fail-HasEnded (some code) _ w
  after_commit-HasEnded code result (err Exc.value_error) w = λ h. cc h
  after_commit-HasEnded code result (err Exc.os_error) w = λ h. cc h
  after_commit-HasEnded code result (err _) w = fail-HasEnded (some code) _ w

  accept-HasEnded :
      (code : ℤ) (result : StageResult) (status : StageStatus) (w : World)
      → HasEnded (accept s q e a code result status w)
  unfolding accept
  accept-HasEnded code result StageStatus.succeeded w = elim (Bool-cases (is_zero code)) [
    | inl zero_code ↦
        let committed = commit s.host a result.artifacts w in
        rw zero_code (after_commit-HasEnded code result committed.0 committed.1)
    | inr nonzero ↦ rw nonzero (fail-HasEnded (some code) (exit_code_failure s e code) w)
  ]
  accept-HasEnded code result StageStatus.failed w = λ h. cc h
  accept-HasEnded code result StageStatus.cancelled w = λ h. cc h

  after_load-HasEnded : (code : ℤ) (l : Loaded) (w : World) → HasEnded (after_load s q e a code l w)
  unfolding after_load
  after_load-HasEnded code (Loaded.rejected message) w = fail-HasEnded (some code) _ w
  after_load-HasEnded code (Loaded.accepted result) w = accept-HasEnded code result result.status w

  module _ (m : PluginManifest) where
    conclude-HasEnded :
        (code : ℤ) (stop : Option Stop) (w : World) → HasEnded (conclude s q m e a code stop w)
    unfolding conclude
    conclude-HasEnded code (some stop) w = fail-HasEnded (some code) (stop_failure stop) w
    conclude-HasEnded code none w =
        after_load-HasEnded code (load_and_validate_result e.result_file q m e.started_at) w

    after_wait-HasEnded :
        (waited : Waited) (w : World)
        → waited ≢ Waited.waiting
        → HasEnded (after_wait s q m e a waited w)
    unfolding after_wait
    after_wait-HasEnded (Waited.exited code stop) w over = conclude-HasEnded code stop w
    after_wait-HasEnded (Waited.terminated code stop) w over = conclude-HasEnded code (some stop) w
    after_wait-HasEnded (Waited.write_failed Exc.os_error) w over = fail-HasEnded none _ w
    after_wait-HasEnded (Waited.write_failed x) w over = fail-HasEnded none _ w
    after_wait-HasEnded Waited.waiting w over = absurd (over refl)

    supervise-HasEnded :
        (spawn : Spawn) (w : World)
        → Bounded (limits_of s q e) spawn
        → HasEnded (supervise s q m e a spawn w)
    unfolding supervise
    supervise-HasEnded Spawn.start_fails w bounded = fail-HasEnded none _ w
    supervise-HasEnded Spawn.breaks w bounded = fail-HasEnded none _ w
    supervise-HasEnded (Spawn.starts readings) w bounded =
        let write : Write = λ (reason : String).
          write_document s.host (key_of a) "cancel.json" (Document.cancellation reason) in
        let done = wait_for_process (limits_of s q e) write readings none w in
        after_wait-HasEnded done.0 (set_outputs a e.outputs done.1)
          (wait-RunsOut (limits_of s q e) write readings w bounded.0 bounded.1)

    after_request-HasEnded :
        (r : Result Exc (Unit {0})) (w : World)
        → Bounded (limits_of s q e) e.spawn
        → HasEnded (after_request s q m e a r w)
    after_request-HasEnded (err x) w bounded = λ h. cc h
    after_request-HasEnded (ok _) w bounded = supervise-HasEnded e.spawn w bounded

    after_bind-HasEnded :
        (r : Result (List Violation) StageRequest) (w : World)
        → Bounded (limits_of s q e) e.spawn
        → HasEnded (after_bind s q m e a r w)
    after_bind-HasEnded (err violations) w bounded = λ h. cc h
    after_bind-HasEnded (ok bound) w bounded =
        let done = write_document s.host (key_of a) "request.json" (Document.request bound) w in
        after_request-HasEnded done.0 done.1 bounded

module _ (s : Runner) (q : StageRequest) (m : PluginManifest) (e : Meeting) where
  after_begin-HasEnded :
      (r : Result Exc AttemptHandle) (w : World)
      → Bounded (limits_of s q e) e.spawn
      → HasEnded (after_begin s q m e r w)
  after_begin-HasEnded (err x) w bounded = λ h. cc h
  after_begin-HasEnded (ok a) w bounded =
      after_bind-HasEnded s q e a m (validate_request (bind_request s q a)) w bounded

  rejected-HasEnded :
      (r : Result (List Violation) StageResult) (w : World) → HasEnded (rejected_outcome r, w)
  rejected-HasEnded (err violations) w = λ h. cc h
  rejected-HasEnded (ok result) w = λ h. cc h

  checked-HasEnded :
      (o : Option Failure) (w : World)
      → Bounded (limits_of s q e) e.spawn
      → HasEnded (run_checked s q m e o w)
  unfolding execute
  checked-HasEnded (some f) w bounded = rejected-HasEnded (failure_result q e.started_at e.now f) w
  checked-HasEnded none w bounded =
      let begun = begin_attempt s.host q.run_id q.stage_id q.request_id w in
      after_begin-HasEnded begun.0 begun.1 bounded

  -- A call of `run` returns or raises, whether its worker ends by itself or not: it does not wait on if,
  -- for a worker that has started, a kill ends it, one reading of the clock is past the deadline, none before it is later,
  -- and one after it is past it by the grace period.
  pub run-HasEnded : (w : World) → Bounded (limits_of s q e) e.spawn → HasEnded (run s q m e w)
  unfolding run
  run-HasEnded w bounded = checked-HasEnded (precheck s q m e) w bounded
