-- ===== src/Runner/Settled.antt =====
-- How an attempt of `run` of packages/pipeline/runner.py settles: what it has published when it ends.
use gaussian_os.Prelude.{
  String, ◌≡◌, ◌≢◌, ◌⊎◌, refl, sym, ap, ◌∙◌, subst, Option, none, some, List, [], ◌∷◌, map, Result,
  ok, err, arith, ℤ, is_zero, Bool-cases, inl, inr, true, Option-cases, lookup, lookup-insert_self,
  string_eq, list_eq,
}
use gaussian_os.Contracts.Kinds.{StageStatus, ErrorCode, DateTime}
use gaussian_os.Contracts.Violations.{Violation, validated}
use gaussian_os.Contracts.Manifest.{PluginManifest}
use gaussian_os.Contracts.Request.{StageRequest}
use gaussian_os.Contracts.Outcome.{StageError, StageResult, validate_result, result_violations}
use gaussian_os.Store.Tree.{Entries, bare}
use gaussian_os.Store.World.{Exc, Locks, World, Document, Host}
use gaussian_os.Store.Attempt.{AttemptHandle, key_of, write_document}
use gaussian_os.Store.Commit.{CommitRecord, record_of, commit, set_outputs}
use gaussian_os.Store.Atomic.{IsPublished, AllOrNothing, Ended, Ended-bare, commit-AllOrNothing}
use gaussian_os.Store.Locks.{can_fail}
use gaussian_os.Store.Validate.{outputs_of}
use gaussian_os.Runner.Wait.{Stop, Waited, wait_for_process, Write}
use gaussian_os.Runner.Failure.{Failure, failure_result, failure_value}
use gaussian_os.Runner.Contract.{Loaded, load_and_validate_result}
use gaussian_os.Runner.Meeting.{
  Runner, Spawn, Meeting, ExecutionOutcome, RunError, Ran, returned, raised, running,
}
use gaussian_os.Runner.Finish.{fail, fail_outcome, finish_failure}
use gaussian_os.Runner.Run.{
  after_commit, accept, after_load, conclude, after_wait, supervise, after_request, after_bind,
  stop_failure, status_of_stop, limits_of,
}
use gaussian_os.Runner.Shelf.{
  shelf, write_document-shelf, finish_attempt-shelf, finish_failure-shelf, set_outputs-shelf,
  wait_for_process-shelf,
}

-- The error of a result that says that the commit failed.
abbrev pub SaysCommitFailed : StageResult → Type 0
SaysCommitFailed r =
    (e : StageError) × (r.error ≡ some e) × (e.code ≡ ErrorCode.artifact_commit_failed)

-- A success has published exactly the artifacts of its result; anything else has published nothing,
-- unless the result says that the commit failed.
pub data Accounted (h : Host) (outputs before after : Entries) (o : ExecutionOutcome) : Type 0 where
  success :
      (o.result).status ≡ StageStatus.succeeded
      → IsPublished h outputs (o.result).artifacts before after
      → o.committed_artifacts ≡ map (record_of h) (o.result).artifacts
      → Accounted h outputs before after o
  no_success :
      (o.result).status ≢ StageStatus.succeeded
      → (after ≡ before) ⊎ SaysCommitFailed o.result
      → o.committed_artifacts ≡ []
      → Accounted h outputs before after o

-- The release of a commit lock raises, and so does the call.
abbrev pub ReleaseRaised : Locks → RunError → Type 0
ReleaseRaised locks x =
    (x ≡ RunError.store_exception Exc.os_error) × (can_fail locks.unlock_faults ≡ true)

-- By how a call has ended, with what the worker leaves in `outputs`, and with the shelf and the locks before.
abbrev pub Settled : Host → Entries → Entries × Locks → Ran × World → Type 0
Settled h outputs before (returned o, w) = Accounted h outputs before.0 w.artifacts o
Settled h outputs before (raised x, w) =
    (w.artifacts ≡ before.0)
    ⊎ (((vs : List Violation) × (x ≡ RunError.invalid_contract vs)) ⊎ ReleaseRaised before.1 x)
Settled h outputs before (running, w) = w.artifacts ≡ before.0

validated_value : {A : Type 0} (vs : List Violation) (a b : A) → validated vs a ≡ ok b → b ≡ a
validated_value [] a b h = ground arith
validated_value (v ∷ vs) a b h = ground arith

pub failure_status :
    (q : StageRequest) (t n : DateTime) (f : Failure) (r : StageResult)
    → failure_result q t n f ≡ ok r
    → r ≡ failure_value q t n f
unfolding failure_result validate_result
failure_status q t n f r h = validated_value (result_violations (failure_value q t n f)) _ r h

-- A failure that publishes nothing, or says that the commit failed.
record IsQuiet (before : Entries × Locks) (f : Failure) (w : World) : Type 0 where
  status : f.status ≢ StageStatus.succeeded
  shelf_kept : (w.artifacts ≡ before.0) ⊎ (f.code ≡ ErrorCode.artifact_commit_failed)

said :
    (before : Entries) (q : StageRequest) (t n : DateTime) (f : Failure) (w w' : World)
    → w'.artifacts ≡ w.artifacts
    → (w.artifacts ≡ before) ⊎ (f.code ≡ ErrorCode.artifact_commit_failed)
    → (w'.artifacts ≡ before) ⊎ SaysCommitFailed (failure_value q t n f)
unfolding failure_value
said before q t n f w w' same (inl kept) = inl (same ∙ kept)
said before q t n f w w' same (inr code) = inr (_, refl, code)

pub shelf-artifacts : {after before : Entries × Locks} → after ≡ before → after.0 ≡ before.0
shelf-artifacts same = ap (λ (p : Entries × Locks). p.0) same

module _ (s : Runner) (q : StageRequest) (e : Meeting) (a : AttemptHandle)
    (before : Entries × Locks) where
  fail_outcome-Settled :
      (code : Option ℤ) (f : Failure) (r : Result (List Violation) StageResult) (w : World)
      → IsQuiet before f w
      → failure_result q e.started_at e.now f ≡ r
      → Settled s.host e.outputs before (fail_outcome s a code r w)
  unfolding failure_value
  fail_outcome-Settled code f (err violations) w h p = inr (inl (violations, refl))
  fail_outcome-Settled code f (ok result) w h p =
      let value = failure_status q e.started_at e.now f result p in
      no_success (λ won. h.status (sym (ap (λ (r : StageResult). r.status) value) ∙ won))
        (subst
          (λ r. (((finish_failure s a result code w).1).artifacts ≡ before.0) ⊎ SaysCommitFailed r)
          (sym value)
          (said before.0 q e.started_at e.now f w (finish_failure s a result code w).1
            (shelf-artifacts (finish_failure-shelf s a result code w)) h.shelf_kept))
        refl

  fail-Settled :
      (code : Option ℤ) (f : Failure) (w : World)
      → IsQuiet before f w
      → Settled s.host e.outputs before (fail s q e a code f w)
  unfolding fail
  fail-Settled code f w h =
      fail_outcome-Settled code f (failure_result q e.started_at e.now f) w h refl

  kept :
      (f : Failure) (w : World)
      → f.status ≢ StageStatus.succeeded
      → shelf w ≡ before
      → IsQuiet before f w
  kept f w status same = record { status = status; shelf_kept = inl (shelf-artifacts same) }

  after_commit-Settled :
      (code : ℤ) (result : StageResult) (r : Result Exc (List CommitRecord)) (w : World)
      → result.status ≡ StageStatus.succeeded
      → AllOrNothing s.host e.outputs result.artifacts before.0 r w.artifacts
      → Settled s.host e.outputs before (after_commit s q e a code result r w)
  unfolding after_commit
  after_commit-Settled code result (ok commits) w won (published, records) =
      success won
        (subst (IsPublished s.host e.outputs result.artifacts before.0)
          (sym (shelf-artifacts ((finish_attempt-shelf s.host a _ _).at w))) published)
        records
  after_commit-Settled code result (err Exc.validation_error) w won (inl same) =
      fail-Settled (some code) _ w (record { status = λ h. cc h; shelf_kept = inl same })
  after_commit-Settled code result (err Exc.validation_error) w won (inr (n, h)) = ground arith
  after_commit-Settled code result (err Exc.value_error) w won (inl same) = inl same
  after_commit-Settled code result (err Exc.value_error) w won (inr (n, h)) = ground arith
  after_commit-Settled code result (err Exc.os_error) w won (inl same) = inl same
  after_commit-Settled code result (err Exc.os_error) w won (inr (n, h)) = ground arith
  after_commit-Settled code result (err _) w won h =
      fail-Settled (some code) _ w (record { status = λ h. cc h; shelf_kept = inr refl })

  -- A call whose release of a lock raises: the exception leaves `run`.
  release_raised-Settled :
      (code : ℤ) (result : StageResult) (r : Result Exc (List CommitRecord)) (w : World)
      → r ≡ err Exc.os_error
      → can_fail (before.1).unlock_faults ≡ true
      → Settled s.host e.outputs before (after_commit s q e a code result r w)
  unfolding after_commit
  release_raised-Settled code result r w is_raised fault =
      subst (λ r. Settled s.host e.outputs before (after_commit s q e a code result r w))
        (sym is_raised) (inr (inr (refl, fault)))

  committed-Settled :
      (code : ℤ) (result : StageResult) (r : Result Exc (List CommitRecord)) (w : World)
      → result.status ≡ StageStatus.succeeded
      → Ended s.host e.outputs result.artifacts before.0 before.1 (r, w)
      → Settled s.host e.outputs before (after_commit s q e a code result r w)
  committed-Settled code result r w won (inl done) = after_commit-Settled code result r w won done
  committed-Settled code result r w won (inr (is_raised, fault, inner)) =
      release_raised-Settled code result r w is_raised fault

  -- What the attempt holds when the worker is gone: its outputs, or nothing if its directory is gone.
  Given : World → Type 0
  Given w = (outputs_of a w ≡ e.outputs) ⊎ (outputs_of a w ≡ bare)

  commit-Ended :
      (result : StageResult) (w : World)
      → Given w
      → shelf w ≡ before
      → Ended s.host e.outputs result.artifacts before.0 before.1
          (commit s.host a result.artifacts w)
  unfolding Given
  commit-Ended result w given same =
      let done =
        subst
          (λ b.
            Ended s.host (outputs_of a w) result.artifacts b.0 b.1
              (commit s.host a result.artifacts w))
          same (commit-AllOrNothing s.host a result.artifacts w) in
      elim given [
        | inl outputs ↦
            subst
              (λ es.
                Ended s.host es result.artifacts before.0 before.1
                  (commit s.host a result.artifacts w))
              outputs done
        | inr empty ↦
            Ended-bare s.host e.outputs result.artifacts before.0 before.1
              (commit s.host a result.artifacts w)
              (subst
                (λ es.
                  Ended s.host es result.artifacts before.0 before.1
                    (commit s.host a result.artifacts w))
                empty done)
      ]

  accept-Settled :
      (code : ℤ) (result : StageResult) (status : StageStatus) (w : World)
      → result.status ≡ status
      → Given w
      → shelf w ≡ before
      → Settled s.host e.outputs before (accept s q e a code result status w)
  unfolding accept
  accept-Settled code result StageStatus.succeeded w p given same =
      elim (Bool-cases (is_zero code)) [
        | inl zero_code ↦ rw zero_code (
            committed-Settled code result (commit s.host a result.artifacts w).0
              (commit s.host a result.artifacts w).1 p (commit-Ended result w given same))
        | inr nonzero ↦ rw nonzero (fail-Settled (some code) _ w (kept _ w (λ h. cc h) same))
      ]
  accept-Settled code result StageStatus.failed w p given same =
      no_success (λ won. cc)
        (inl (shelf-artifacts (finish_failure-shelf s a result (some code) w ∙ same))) refl
  accept-Settled code result StageStatus.cancelled w p given same =
      no_success (λ won. cc)
        (inl (shelf-artifacts (finish_failure-shelf s a result (some code) w ∙ same))) refl

  after_load-Settled :
      (code : ℤ) (l : Loaded) (w : World)
      → Given w
      → shelf w ≡ before
      → Settled s.host e.outputs before (after_load s q e a code l w)
  unfolding after_load
  after_load-Settled code (Loaded.rejected message) w given same =
      fail-Settled (some code) _ w (kept _ w (λ h. cc h) same)
  after_load-Settled code (Loaded.accepted result) w given same =
      accept-Settled code result result.status w refl given same

  stopped : (code : ErrorCode) → status_of_stop code ≢ StageStatus.succeeded
  stopped code h = ground arith

  conclude-Settled :
      (m : PluginManifest) (code : ℤ) (stop : Option Stop) (w : World)
      → Given w
      → shelf w ≡ before
      → Settled s.host e.outputs before (conclude s q m e a code stop w)
  unfolding conclude
  conclude-Settled m code (some stop) w given same =
      fail-Settled (some code) (stop_failure stop) w
        (kept (stop_failure stop) w (stopped stop.code) same)
  conclude-Settled m code none w given same =
      after_load-Settled code (load_and_validate_result e.result_file q m e.started_at) w given same

  after_wait-Settled :
      (m : PluginManifest) (waited : Waited) (w : World)
      → Given w
      → shelf w ≡ before
      → Settled s.host e.outputs before (after_wait s q m e a waited w)
  unfolding after_wait
  after_wait-Settled m (Waited.exited code stop) w given same =
      conclude-Settled m code stop w given same
  after_wait-Settled m (Waited.terminated code stop) w given same =
      conclude-Settled m code (some stop) w given same
  after_wait-Settled m (Waited.write_failed Exc.os_error) w given same =
      fail-Settled none _ w (kept _ w (λ h. cc h) same)
  after_wait-Settled m (Waited.write_failed x) w given same =
      fail-Settled none _ w (kept _ w (λ h. cc h) same)
  after_wait-Settled m Waited.waiting w given same = shelf-artifacts same

  Given-set_outputs : (w : World) → Given (set_outputs a e.outputs w)
  unfolding Given
  Given-set_outputs w = elim (Option-cases (lookup (key_of a) w.attempts)) [
    | inl missing ↦ inr (ground (arith, missing))
    | inr (dir, there) ↦ inl (
        ground (
          arith,
          there,
          lookup-insert_self (key_of a) (record dir { outputs = e.outputs }) w.attempts,
        ))
  ]

  supervise-Settled :
      (m : PluginManifest) (spawn : Spawn) (w : World)
      → shelf w ≡ before
      → Settled s.host e.outputs before (supervise s q m e a spawn w)
  unfolding supervise
  supervise-Settled m Spawn.start_fails w same = fail-Settled none _ w (kept _ w (λ h. cc h) same)
  supervise-Settled m Spawn.breaks w same = fail-Settled none _ w (kept _ w (λ h. cc h) same)
  supervise-Settled m (Spawn.starts readings) w same =
      let write : Write = λ (reason : String).
        write_document s.host (key_of a) "cancel.json" (Document.cancellation reason) in
      let done = wait_for_process (limits_of s q e) write readings none w in
      after_wait-Settled m done.0 (set_outputs a e.outputs done.1) (Given-set_outputs done.1) (
        set_outputs-shelf a e.outputs done.1
        ∙ wait_for_process-shelf (limits_of s q e) write
            (λ reason.
              write_document-shelf s.host (key_of a) "cancel.json" (Document.cancellation reason))
            readings none w
        ∙ same)

  after_request-Settled :
      (m : PluginManifest) (r : Result Exc (Unit {0})) (w : World)
      → shelf w ≡ before
      → Settled s.host e.outputs before (after_request s q m e a r w)
  after_request-Settled m (err x) w same = inl (shelf-artifacts same)
  after_request-Settled m (ok _) w same = supervise-Settled m e.spawn w same

  pub after_bind-Settled :
      (m : PluginManifest) (r : Result (List Violation) StageRequest) (w : World)
      → shelf w ≡ before
      → Settled s.host e.outputs before (after_bind s q m e a r w)
  after_bind-Settled m (err violations) w same = inl (shelf-artifacts same)
  after_bind-Settled m (ok bound) w same =
      let done = write_document s.host (key_of a) "request.json" (Document.request bound) w in
      after_request-Settled m done.0 done.1 (
        (write_document-shelf s.host (key_of a) "request.json" (Document.request bound)).at w
        ∙ same)
