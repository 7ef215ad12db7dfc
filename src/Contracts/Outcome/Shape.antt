-- ===== src/Contracts/Outcome/Shape.antt =====
-- What a `StageResult` that validates looks like (packages/plugin_sdk/contracts.py).
use gaussian_os.Prelude.{
  collect, collect-AllNil, true, ◌≡◌, ◌≢◌, ◌⊎◌, inl, inr, none, some, [], arith, Option-cases,
  IsDistinct, is_unique-IsDistinct, string_eq, ◌≤◌,
}
use gaussian_os.Contracts.Kinds.{StageStatus, ErrorCode}
use gaussian_os.Contracts.Violations.{then_rule-eq_nil}
use gaussian_os.Contracts.Quality.{
  QualityReport, report_violations, report_rule, required_checks_pass,
}
use gaussian_os.Contracts.Outcome.{
  StageError, StageResult, result_violations, result_fields, result_rule, status_rule, success_rule,
  failure_rule, artifact_ids, of_report,
}

-- A success: no error, at least one artifact, a report whose required checks have all passed.
abbrev pub IsSuccess : StageResult → Type 0
IsSuccess r =
    (r.status ≡ StageStatus.succeeded)
    × (r.error ≡ none)
    × (r.artifacts ≢ [])
    × ((q : QualityReport) × (r.quality_report ≡ some q) × (required_checks_pass q.checks ≡ true))

-- A failure or a cancellation: an error, of the cancelled code after a cancellation, no artifact.
abbrev pub IsFailure : StageResult → Type 0
IsFailure r =
    (r.status ≢ StageStatus.succeeded)
    × (r.artifacts ≡ [])
    × ((e : StageError) × (r.error ≡ some e)
        × (r.status ≡ StageStatus.cancelled → e.code ≡ ErrorCode.cancelled))

report_gate :
    (q : QualityReport)
    → report_violations q ≡ []
    → q.passed ≡ true
    → required_checks_pass q.checks ≡ true
unfolding report_violations report_rule
report_gate q h p = ground (arith, then_rule-eq_nil _ _ h)

success_rule-IsSuccess :
    (r : StageResult)
    → of_report r.quality_report ≡ []
    → r.status ≡ StageStatus.succeeded
    → success_rule r ≡ none
    → IsSuccess r
unfolding success_rule
success_rule-IsSuccess r q s h = elim (Option-cases r.quality_report) [
  | inl e ↦ ground arith
  | inr (report, e) ↦ ground (arith, report_gate report)
]

failure_rule-IsFailure :
    (r : StageResult)
    → r.status ≢ StageStatus.succeeded
    → failure_rule r.status r.artifacts r.error ≡ none
    → IsFailure r
unfolding failure_rule
failure_rule-IsFailure r s h = ground arith

status_shape :
    (r : StageResult)
    → of_report r.quality_report ≡ []
    → status_rule r.status r ≡ none
    → IsSuccess r ⊎ IsFailure r
unfolding status_rule
status_shape r q h = ground (arith, success_rule-IsSuccess r q, failure_rule-IsFailure r)

report_valid : (r : StageResult) → collect (result_fields r) ≡ [] → of_report r.quality_report ≡ []
unfolding result_fields
report_valid r h = let p = collect-AllNil (result_fields r) h in ground arith

-- A result that validates is a success or a failure in the sense above, finished no earlier than it
-- started, and names no artifact twice.
pub result_shape :
    (r : StageResult)
    → result_violations r ≡ []
    → (IsSuccess r ⊎ IsFailure r)
      × (r.started_at.micros ≤ r.finished_at.micros)
      × IsDistinct (artifact_ids r.artifacts)
unfolding result_rule result_violations
result_shape r h =
    let p = then_rule-eq_nil (collect (result_fields r)) (result_rule r) h in
    (
      status_shape r (report_valid r p.0) (ground (arith, p.1)),
      ground (arith, p.1),
      is_unique-IsDistinct _ (ground (arith, p.1)),
    )
