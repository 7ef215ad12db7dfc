-- ===== src/Runner/Publishes.antt =====
-- What a call of `run` of packages/pipeline/runner.py publishes, by how it ends.
use gaussian_os.Prelude.{
  String, Bool, true, false, not, ◌≡◌, ◌≢◌, refl, sym, ap, ◌∙◌, Option, none, some, List, Result,
  ok, err, arith, if◌then◌else◌, inl,
}
use gaussian_os.Contracts.Kinds.{StageStatus, ErrorCode}
use gaussian_os.Contracts.Violations.{Violation}
use gaussian_os.Contracts.Manifest.{PluginManifest}
use gaussian_os.Contracts.Request.{StageRequest, validate_request}
use gaussian_os.Contracts.Outcome.{StageResult}
use gaussian_os.Store.Tree.{Entries}
use gaussian_os.Store.World.{Exc, Locks, World}
use gaussian_os.Store.Attempt.{AttemptHandle, begin_attempt}
use gaussian_os.Runner.Failure.{Failure, failure_result, failure_value}
use gaussian_os.Runner.Meeting.{Runner, Meeting}
use gaussian_os.Runner.Precheck.{
  plain, precheck, token_check, time_check, contract_check, policy_check, is_positive, is_expired,
}
use gaussian_os.Runner.Finish.{rejected_outcome}
use gaussian_os.Runner.Contract.{request_manifest_error}
use gaussian_os.Licensing.Registry.{RegistryError, enforce}
use gaussian_os.Licensing.Evaluate.{PolicyDecision}
use gaussian_os.Runner.Run.{after_begin, execute, run_checked, run, bind_request}
use gaussian_os.Runner.Shelf.{shelf, begin_attempt-shelf}
use gaussian_os.Runner.Settled.{
  shelf-artifacts, no_success, Settled, failure_status, after_bind-Settled,
}

module _ (s : Runner) (q : StageRequest) (m : PluginManifest) (e : Meeting) where
  after_begin-Settled :
      (before : Entries × Locks) (r : Result Exc AttemptHandle) (w : World)
      → shelf w ≡ before
      → Settled s.host e.outputs before (after_begin s q m e r w)
  after_begin-Settled before (err x) w same = inl (shelf-artifacts same)
  after_begin-Settled before (ok a) w same =
      after_bind-Settled s q e a before m (validate_request (bind_request s q a)) w same

  Unsuccessful : Option Failure → Type 0
  Unsuccessful o = (f : Failure) → o ≡ some f → f.status ≢ StageStatus.succeeded

  some_failed : (code : ErrorCode) (message : String) → Unsuccessful (some (plain code message))
  unfolding Unsuccessful
  some_failed code message f h won = ground arith

  policy_status : (r : Result RegistryError PolicyDecision) → Unsuccessful (policy_check s r)
  unfolding Unsuccessful
  policy_status (ok d) f h won = ground arith
  policy_status (err x) f h won = ground arith

  contract_status : (o : Option String) → Unsuccessful (contract_check s q m o)
  contract_status (some message) = some_failed ErrorCode.invalid_request message
  contract_status none = policy_status (enforce s.registry m q.profile)

  if-Unsuccessful :
      (b : Bool) (x y : Option Failure)
      → Unsuccessful x
      → Unsuccessful y
      → Unsuccessful (if b then x else y)
  if-Unsuccessful true x y h k = h
  if-Unsuccessful false x y h k = k

  time_status : Unsuccessful (time_check s q m e)
  time_status =
      if-Unsuccessful (not (is_positive e.timeout)) _ _
        (some_failed ErrorCode.invalid_request "timeout_seconds must be positive")
        (if-Unsuccessful (is_expired q.deadline_utc e.started_at) _ _
          (some_failed ErrorCode.timeout "request deadline has already expired")
          (contract_status (request_manifest_error q m)))

  token_status : (o : Option String) → Unsuccessful (token_check s q m e o)
  unfolding Unsuccessful
  token_status none f h won = time_status f h won
  token_status (some reason) f h won = ground arith

  rejected_status : Unsuccessful (precheck s q m e)
  unfolding precheck
  rejected_status = token_status e.cancelled

  rejected-Settled :
      (before : Entries × Locks) (f : Failure) (r : Result (List Violation) StageResult) (w : World)
      → f.status ≢ StageStatus.succeeded
      → failure_result q e.started_at e.now f ≡ r
      → shelf w ≡ before
      → Settled s.host e.outputs before (rejected_outcome r, w)
  unfolding failure_value
  rejected-Settled before f (err violations) w h p same = inl (shelf-artifacts same)
  rejected-Settled before f (ok result) w h p same =
      no_success
        (λ won. h (
          sym (ap (λ (r : StageResult). r.status) (failure_status q e.started_at e.now f result p))
          ∙ won))
        (inl (shelf-artifacts same)) refl

  checked-Settled :
      (o : Option Failure) (w : World)
      → precheck s q m e ≡ o
      → Settled s.host e.outputs (shelf w) (run_checked s q m e o w)
  unfolding execute Unsuccessful
  checked-Settled (some f) w p =
      rejected-Settled (shelf w) f (failure_result q e.started_at e.now f) w (rejected_status f p)
        refl refl
  checked-Settled none w p =
      let begun = begin_attempt s.host q.run_id q.stage_id q.request_id w in
      after_begin-Settled (shelf w) begun.0 begun.1
        ((begin_attempt-shelf s.host q.run_id q.stage_id q.request_id).at w)

  -- However a call of `run` ends, and whichever file operations fail: if it returns a success, it has
  -- published exactly the artifacts of its result, each with the files that the worker left for it, the
  -- manifest excepted, kept all others, and reports one record for each;
  -- if it returns anything else, the published artifacts are as before, unless its error says that
  -- the commit failed; if it raises, they are as before, unless it raises a ValidationError, or the
  -- release of a commit lock raises and the call with it; while it waits, they are as before.
  pub run-Settled : (w : World) → Settled s.host e.outputs (shelf w) (run s q m e w)
  unfolding run
  run-Settled w = checked-Settled (precheck s q m e) w refl
