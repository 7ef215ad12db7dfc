-- ===== src/Runner/Finish.antt =====
-- `_finish_failure` and `_rejected_outcome` of packages/pipeline/runner.py, and the failure returns of
-- `run`.
use gaussian_os.Prelude.{
  String, Bool, true, false, Option, none, some, List, [], ◌∷◌, string_eq, ℕ_eq, Result, ok, err, ℤ,
}
use gaussian_os.Contracts.Kinds.{StageStatus}
use gaussian_os.Contracts.Json.{Value, Items, no_items, item, Dict}
use gaussian_os.Contracts.Violations.{Violation}
use gaussian_os.Contracts.Request.{StageRequest}
use gaussian_os.Contracts.Outcome.{StageError, StageResult}
use gaussian_os.Store.World.{Exc, World, Document}
use gaussian_os.Store.Attempt.{AttemptHandle, key_of, write_document, finish_attempt}
use gaussian_os.Store.Commit.{CommitRecord}
use gaussian_os.Runner.Failure.{Failure, code_value, failure_result}
use gaussian_os.Runner.Meeting.{Runner, Meeting, RunError, Ran, returned, raised}

abbrev pub rejected_outcome : Result (List Violation) StageResult → Ran
rejected_outcome (err violations) = raised (RunError.invalid_contract violations)
rejected_outcome (ok result) =
    returned
      (record { result = result; committed_artifacts = []; archived = none; return_code = none })

abbrev pub state_of : StageStatus → String
state_of StageStatus.cancelled = "cancelled"
state_of _ = "failed"

abbrev pub is_ok : {A : Type 0} → Result Exc A → Bool
is_ok (ok a) = true
is_ok (err e) = false

abbrev pub code_json : Option ℤ → Value
code_json none = Value.null
code_json (some code) = Value.integer code

abbrev pub error_json : Option StageError → Value
error_json none = Value.null
error_json (some e) = Value.text (code_value e.code)

abbrev pub failure_details : Option ℤ → Option StageError → Dict
failure_details code error = ("return_code", code_json code) ∷ ("error_code", error_json error) ∷ []

abbrev pub id_items : List CommitRecord → Items
id_items [] = no_items
id_items (c ∷ commits) = item (Value.text c.artifact_id) (id_items commits)

abbrev pub success_details : ℤ → List CommitRecord → Dict
success_details code commits =
    ("return_code", Value.integer code) ∷ ("artifact_ids", Value.array (id_items commits)) ∷ []

abbrev pub then_finish :
    Runner → AttemptHandle → StageResult → Option ℤ → Result Exc (Unit {0}) → World → Bool × World
then_finish s a result code (err e) w = (false, w)
then_finish s a result code (ok _) w =
    let (r, w') =
      finish_attempt s.host a (state_of result.status) (failure_details code result.error) w in
    (is_ok r, w')

-- `_finish_failure`: whether the attempt was archived. What it does not catch, a ValueError for a state
-- that is not terminal, cannot happen.
unfoldable pub finish_failure :
    Runner → AttemptHandle → StageResult → Option ℤ → World → Bool × World
finish_failure s a result code w =
    let (r, w') =
      write_document s.host (key_of a) "result.host.json" (Document.host_result result) w in
    then_finish s a result code r w'

abbrev pub fail_outcome :
    Runner → AttemptHandle → Option ℤ → Result (List Violation) StageResult → World → Ran × World
fail_outcome s a code (err violations) w = (raised (RunError.invalid_contract violations), w)
fail_outcome s a code (ok result) w =
    let (archived, w') = finish_failure s a result code w in
    (
      returned (record {
        result = result;
        committed_artifacts = [];
        archived = some archived;
        return_code = code;
      }),
      w',
    )

-- A failure result, archived: the end of most branches.
unfoldable pub fail :
    Runner → StageRequest → Meeting → AttemptHandle → Option ℤ → Failure → World → Ran × World
fail s q e a code f w = fail_outcome s a code (failure_result q e.started_at e.now f) w
