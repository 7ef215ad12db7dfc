-- ===== src/Licensing/Tests.antt =====
-- The gate of packages/licensing/policy.py on a plugin that a profile pins.
use gaussian_os.Prelude.{true, false, ◌≡◌, ◌↔◌, refl, none, some, [], ◌∷◌, string_eq}
use gaussian_os.Contracts.Kinds.{ExecutionProfile}
use gaussian_os.Contracts.Patterns.{is_commit}
use gaussian_os.Contracts.Tests.{trainer, commit_text}
use gaussian_os.Licensing.Policy.{
  PluginRequirement, ProfilePolicy, policy_faults, policy_fields, policy_rule, requirement_faults,
  is_explicit_version,
}
use gaussian_os.Licensing.Evaluate.{
  Reason, evaluate_plugin_policy, enforce_plugin_policy, policy_reports, requirement_reports,
  find_asset, find_dependency, find_last,
}
use gaussian_os.Licensing.Registry.{
  Policies, ProfilePolicyRegistry, new_registry, get_policy, enforce,
}
use gaussian_os.Licensing.Gate.{IsPermitted, evaluate_iff}
use gaussian_os.Licensing.Closed.{enforce-IsPermitted, production_refuses_research}

abbrev pub pinned : PluginRequirement
pinned = record {
  allowed_versions = "1.5.3" ∷ [];
  allowed_upstream_commits = commit_text ∷ [];
  required_code_license = some "Apache-2.0";
  required_checkpoint_licenses = [];
  required_checkpoint_sha256 = [];
  required_dependency_commits = [];
}

abbrev pub production_policy : ProfilePolicy
production_policy = record {
  profile = ExecutionProfile.production;
  allow_plugins = "train.gsplat" ∷ [];
  deny_plugins = "train.fastergs" ∷ [];
  allow_research_only = false;
  allowed_code_licenses = "Apache-2.0" ∷ "MIT" ∷ [];
  allowed_checkpoint_licenses = "Apache-2.0" ∷ [];
  require_exact_third_party_provenance = true;
  require_profile_lock_for_third_party = true;
  plugin_requirements = ("train.gsplat", pinned) ∷ [];
}

abbrev pub only_production : Policies
only_production = (ExecutionProfile.production, production_policy) ∷ []

abbrev pub registry : ProfilePolicyRegistry
registry = record { policies = only_production }

evaluate_iff_example :
    ((evaluate_plugin_policy trainer production_policy ExecutionProfile.production).allowed ≡ true)
    ↔ IsPermitted trainer production_policy ExecutionProfile.production
evaluate_iff_example = evaluate_iff trainer production_policy ExecutionProfile.production

trainer_allowed :
    (evaluate_plugin_policy trainer production_policy ExecutionProfile.production).allowed ≡ true
unfolding evaluate_plugin_policy policy_reports requirement_reports find_asset find_dependency
    find_last
trainer_allowed = refl

other_commit_refused :
    (evaluate_plugin_policy
      (record trainer { upstream_commit = none })
      production_policy
      ExecutionProfile.research).reasons
    ≡ Reason.wrong_profile ∷ Reason.provenance_not_pinned ∷ Reason.commit_not_locked ∷ []
unfolding evaluate_plugin_policy policy_reports requirement_reports find_asset find_dependency
    find_last
other_commit_refused = refl

enforce-IsPermitted_example :
    (policy : ProfilePolicy) × (get_policy ExecutionProfile.production registry.policies
      ≡ some policy)
    × (policy.profile ≡ ExecutionProfile.production)
    × IsPermitted trainer policy ExecutionProfile.production
unfolding new_registry enforce get_policy enforce_plugin_policy evaluate_plugin_policy
    policy_reports requirement_reports find_asset find_dependency find_last
enforce-IsPermitted_example =
    enforce-IsPermitted only_production registry trainer ExecutionProfile.production
      (record {
        allowed = true;
        profile = ExecutionProfile.production;
        plugin_id = "train.gsplat";
        reasons = [];
      })
      refl refl

production_refuses_research_example :
    (evaluate_plugin_policy
      (record trainer { research_only = true })
      production_policy
      ExecutionProfile.production).allowed
    ≡ false
unfolding policy_faults policy_fields policy_rule requirement_faults is_explicit_version is_commit
production_refuses_research_example =
    production_refuses_research (λ name. name) production_policy
      (record trainer { research_only = true }) ExecutionProfile.production refl refl refl
