-- ===== src/Licensing/Evaluate.antt =====
-- `evaluate_plugin_policy` and `enforce_plugin_policy` of packages/licensing/policy.py.
use gaussian_os.Prelude.{
  String, Bool, true, false, not, ◌&&◌, ◌||◌, Option, none, some, List, [], ◌∷◌, ◌==◌, string_eq,
  option_eq, is_empty, is_none, contains, collect, lookup, each, unless, if◌then◌else◌, Result, ok,
  err,
}
use gaussian_os.Contracts.Kinds.{ExecutionProfile, profile_eq}
use gaussian_os.Contracts.Manifest.{PluginManifest, CheckpointAsset, DependencyLock, is_third_party}
use gaussian_os.Licensing.Policy.{PluginRequirement, ProfilePolicy}

-- One constructor for each message, with the names that the message shows.
pub data Reason : Type 0 where
  wrong_profile not_allowed denied profile_not_supported research_only : Reason
  code_license provenance_not_pinned no_profile_lock version_not_locked : Reason
  commit_not_locked license_mismatch : Reason
  checkpoint_license checkpoint_missing checkpoint_license_mismatch : String → Reason
  checkpoint_hash_mismatch dependency_license : String → Reason
  dependency_missing dependency_commit_mismatch : String → Reason

pub record PolicyDecision : Type 0 where
  pub allowed : Bool
  pub profile : ExecutionProfile
  pub plugin_id : String
  pub reasons : List Reason

-- A look-up in `{x.id: x for x in xs}`: of elements with one id the last one counts.
unfoldable pub find_last {ℓ} : {A : Type ℓ} → (A → String) → String → List A → Option A
find_last id_of id [] = none
find_last id_of id (x ∷ xs) =
    let later = find_last id_of id xs in
    if is_none later then (if id_of x == id then some x else none) else later

unfoldable pub find_asset : PluginManifest → String → Option CheckpointAsset
unfolding find_last
find_asset m id = find_last (λ (a : CheckpointAsset). a.asset_id) id m.checkpoint_assets

unfoldable pub find_dependency : PluginManifest → String → Option DependencyLock
unfolding find_last
find_dependency m id = find_last (λ (d : DependencyLock). d.dependency_id) id m.dependency_locks

-- The bodies of the three loops over what a requirement pins.
abbrev pub judge_license : String → String → Option CheckpointAsset → List Reason
judge_license id required none = Reason.checkpoint_missing id ∷ []
judge_license id required (some a) =
    unless (a.license == required) (Reason.checkpoint_license_mismatch id)

abbrev pub judge_hash : String → String → Option CheckpointAsset → List Reason
judge_hash id required none = Reason.checkpoint_missing id ∷ []
judge_hash id required (some a) = unless (a.sha256 == required) (Reason.checkpoint_hash_mismatch id)

abbrev pub judge_commit : String → String → Option DependencyLock → List Reason
judge_commit id required none = Reason.dependency_missing id ∷ []
judge_commit id required (some d) =
    unless (d.upstream_commit == required) (Reason.dependency_commit_mismatch id)

-- manifest.upstream_commit in allowed_upstream_commits
abbrev pub is_listed_commit : Option String → List String → Bool
is_listed_commit none commits = false
is_listed_commit (some c) commits = contains c commits

-- The block `if requirement is not None`
unfoldable pub requirement_reports : PluginManifest → PluginRequirement → List (List Reason)
unfolding find_asset find_dependency
requirement_reports m r =
    unless (is_empty r.allowed_versions || contains m.plugin_version r.allowed_versions)
      Reason.version_not_locked
    ∷ unless
        (is_empty r.allowed_upstream_commits
          || is_listed_commit m.upstream_commit r.allowed_upstream_commits)
        Reason.commit_not_locked
    ∷ unless (is_none r.required_code_license || some m.code_license == r.required_code_license)
        Reason.license_mismatch
    ∷ each (λ (item : String × String). judge_license item.0 item.1 (find_asset m item.0))
        r.required_checkpoint_licenses
    ∷ each (λ (item : String × String). judge_hash item.0 item.1 (find_asset m item.0))
        r.required_checkpoint_sha256
    ∷ each (λ (item : String × String). judge_commit item.0 item.1 (find_dependency m item.0))
        r.required_dependency_commits
    ∷ []

abbrev pub judge_requirement : PluginManifest → Option PluginRequirement → List Reason
judge_requirement m none = []
judge_requirement m (some r) = collect (requirement_reports m r)

-- requirement is None or not requirement.allowed_versions or not requirement.allowed_upstream_commits
abbrev pub lacks_lock : Option PluginRequirement → Bool
lacks_lock none = true
lacks_lock (some r) = is_empty r.allowed_versions || is_empty r.allowed_upstream_commits

-- The bodies of the loops over the manifest's checkpoints and dependencies.
abbrev pub judge_asset : ProfilePolicy → CheckpointAsset → List Reason
judge_asset p a =
    unless (contains a.license p.allowed_checkpoint_licenses) (Reason.checkpoint_license a.asset_id)

abbrev pub judge_dependency : ProfilePolicy → DependencyLock → List Reason
judge_dependency p d =
    unless (contains d.code_license p.allowed_code_licenses)
      (Reason.dependency_license d.dependency_id)

-- Everything that `evaluate_plugin_policy` appends to `reasons`, statement by statement.
unfoldable pub policy_reports :
    PluginManifest → ProfilePolicy → ExecutionProfile → List (List Reason)
unfolding requirement_reports
policy_reports m p requested =
    unless (requested == p.profile) Reason.wrong_profile
    ∷ unless (contains m.plugin_id p.allow_plugins) Reason.not_allowed
    ∷ unless (not (contains m.plugin_id p.deny_plugins)) Reason.denied
    ∷ unless (contains requested m.supported_profiles) Reason.profile_not_supported
    ∷ unless (not (m.research_only && not p.allow_research_only)) Reason.research_only
    ∷ unless (contains m.code_license p.allowed_code_licenses) Reason.code_license
    ∷ each (judge_asset p) m.checkpoint_assets
    ∷ each (judge_dependency p) m.dependency_locks
    ∷ unless
        (not (
          p.require_exact_third_party_provenance
          && is_third_party m.distribution
          && (is_none m.upstream_repository || is_none m.upstream_commit)))
        Reason.provenance_not_pinned
    ∷ unless
        (not (
          p.require_profile_lock_for_third_party
          && is_third_party m.distribution
          && lacks_lock (lookup m.plugin_id p.plugin_requirements)))
        Reason.no_profile_lock
    ∷ judge_requirement m (lookup m.plugin_id p.plugin_requirements)
    ∷ []

unfoldable pub evaluate_plugin_policy :
    PluginManifest → ProfilePolicy → ExecutionProfile → PolicyDecision
unfolding policy_reports
evaluate_plugin_policy m p requested =
    let reasons = collect (policy_reports m p requested) in
    record {
      allowed = is_empty reasons;
      profile = requested;
      plugin_id = m.plugin_id;
      reasons = reasons;
    }

-- `enforce_plugin_policy`: an error is the PolicyError with the decision.
unfoldable pub enforce_plugin_policy :
    PluginManifest → ProfilePolicy → ExecutionProfile → Result PolicyDecision PolicyDecision
unfolding evaluate_plugin_policy
enforce_plugin_policy m p requested =
    let decision = evaluate_plugin_policy m p requested in
    if decision.allowed then ok decision else err decision
