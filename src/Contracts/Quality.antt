-- ===== src/Contracts/Quality.antt =====
-- `QualityCheck` and `QualityReport` of packages/plugin_sdk/contracts.py.
use gaussian_os.Prelude.{
  each, String, Bool, not, Option, none, some, List, ◌++◌, map, string_eq, is_unique, all, filter,
  unless, if◌then◌else◌, true, false,
}
use gaussian_os.Contracts.Patterns.{is_identifier}
use gaussian_os.Contracts.Kinds.{ContractVersion}
use gaussian_os.Contracts.Json.{Float, is_finite}
use gaussian_os.Contracts.Violations.{Violation, then_rule}

abbrev pub Metrics : Type 0
Metrics = List (String × Float)

-- `metrics_are_finite`
abbrev pub check_metrics : Metrics → List Violation
check_metrics metrics =
    unless (all (λ (entry : String × Float). is_finite entry.1) metrics) Violation.metric_not_finite

pub record QualityCheck : Type 0 where
  pub check_id : String
  pub passed : Bool
  pub required : Bool
  pub message : String
  pub metrics : Metrics

unfoldable pub check_violations : QualityCheck → List Violation
check_violations c =
    unless (is_identifier c.check_id) Violation.identifier_unstable ++ check_metrics c.metrics

pub record QualityReport : Type 0 where
  pub schema_version : ContractVersion
  pub report_id : String
  pub passed : Bool
  pub checks : List QualityCheck
  pub metrics : Metrics
  pub warnings : List String

abbrev pub check_ids : QualityReport → List String
check_ids r = map (λ (c : QualityCheck). c.check_id) r.checks

-- all(item.passed for item in checks if item.required)
unfoldable pub required_checks_pass : List QualityCheck → Bool
required_checks_pass checks =
    all (λ (c : QualityCheck). c.passed) (filter (λ (c : QualityCheck). c.required) checks)

abbrev pub is_same : Bool → Bool → Bool
is_same true b = b
is_same false b = not b

-- `gate_matches_required_checks`
unfoldable pub report_rule : QualityReport → Option Violation
unfolding required_checks_pass
report_rule r =
    if not (is_unique (check_ids r))
    then some Violation.check_ids_repeated
    else if not (is_same r.passed (required_checks_pass r.checks))
    then some Violation.gate_differs
    else none

unfoldable pub report_violations : QualityReport → List Violation
unfolding report_rule check_violations
report_violations r =
    then_rule (each check_violations r.checks ++ check_metrics r.metrics) (report_rule r)
