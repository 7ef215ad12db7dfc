-- ===== src/Licensing/Gate.antt =====
-- `evaluate_plugin_policy` and the registry of packages/licensing/policy.py against a description of
-- what a profile permits.
use gaussian_os.Prelude.{
  lookup, String, Bool, true, false, not, ◌&&◌, ◌||◌, ◌≡◌, ◌≢◌, ◌↔◌, refl, Option, none, some, List,
  [], ◌∷◌, string_eq, is_empty, is_none, contains, collect, collect-AllNil, AllNil-collect, arith,
  All, each-All, All-each, unless-eq_nil, unless_nil,
}
use gaussian_os.Contracts.Kinds.{ExecutionProfile, PluginDistribution, profile_eq}
use gaussian_os.Contracts.Manifest.{PluginManifest, CheckpointAsset, DependencyLock, is_third_party}
use gaussian_os.Licensing.Policy.{PluginRequirement, ProfilePolicy}
use gaussian_os.Licensing.Evaluate.{
  Reason, evaluate_plugin_policy, policy_reports, lacks_lock, judge_requirement, judge_asset,
  judge_dependency,
}
use gaussian_os.Licensing.Requirement.{Meets, requirement_sound, requirement_complete}

abbrev IsThirdParty : PluginManifest → Type 0
IsThirdParty m = m.distribution ≡ PluginDistribution.third_party

-- The plugin is pinned by the host: to explicit versions and to explicit commits.
abbrev IsLocked : Option PluginRequirement → Type 0
IsLocked o =
    (r : PluginRequirement) × (o ≡ some r)
    × (r.allowed_versions ≢ [])
    × (r.allowed_upstream_commits ≢ [])

abbrev AssetAllowed : ProfilePolicy → CheckpointAsset → Type 0
AssetAllowed p a = contains a.license p.allowed_checkpoint_licenses ≡ true

abbrev DependencyAllowed : ProfilePolicy → DependencyLock → Type 0
DependencyAllowed p d = contains d.code_license p.allowed_code_licenses ≡ true

pub record IsPermitted (m : PluginManifest) (p : ProfilePolicy) (requested : ExecutionProfile)
    : Type 0 where
  pub profile : requested ≡ p.profile
  pub listed : contains m.plugin_id p.allow_plugins ≡ true
  pub not_denied : contains m.plugin_id p.deny_plugins ≡ false
  pub supported : contains requested m.supported_profiles ≡ true
  pub research : m.research_only ≡ true → p.allow_research_only ≡ true
  pub license : contains m.code_license p.allowed_code_licenses ≡ true
  pub assets : All (AssetAllowed p) m.checkpoint_assets
  pub dependencies : All (DependencyAllowed p) m.dependency_locks
  pub provenance :
      p.require_exact_third_party_provenance ≡ true
      → IsThirdParty m
      → (m.upstream_repository ≢ none) × (m.upstream_commit ≢ none)
  pub locked :
      p.require_profile_lock_for_third_party ≡ true
      → IsThirdParty m
      → IsLocked (lookup m.plugin_id p.plugin_requirements)
  pub requirement :
      (r : PluginRequirement) → lookup m.plugin_id p.plugin_requirements ≡ some r → Meets m r

has_lock : (o : Option PluginRequirement) → lacks_lock o ≡ false → IsLocked o
has_lock none h = ground arith
has_lock (some r) h = (r, refl, ground arith, ground arith)

lock_test : (o : Option PluginRequirement) → IsLocked o → lacks_lock o ≡ false
lock_test none (r, e, v, c) = ground arith
lock_test (some r') (r, e, v, c) = ground arith

judged_sound :
    (m : PluginManifest) (o : Option PluginRequirement)
    → judge_requirement m o ≡ []
    → (r : PluginRequirement) → o ≡ some r
    → Meets m r
judged_sound m none h r e = ground arith
judged_sound m (some r') h r e = requirement_sound m r (ground arith)

judged_complete :
    (m : PluginManifest) (o : Option PluginRequirement)
    → ((r : PluginRequirement) → o ≡ some r → Meets m r)
    → judge_requirement m o ≡ []
judged_complete m none h = refl
judged_complete m (some r) h = requirement_complete m r (h r refl)

known : (o : Option String) → o ≢ none → is_none o ≡ false
known none h = absurd (h refl)
known (some c) h = refl

guarded : (a b c : Bool) → (a ≡ true → b ≡ true → c ≡ false) → not (a && b && c) ≡ true
guarded true true c h = ground (arith, h refl refl)
guarded true false c h = refl
guarded false b c h = refl

empty_iff : (xs : List Reason) → (is_empty xs ≡ true) ↔ (xs ≡ [])
empty_iff [] = (λ _. refl, λ _. refl)
empty_iff (x ∷ xs) = ground arith

module _ (m : PluginManifest) (p : ProfilePolicy) (requested : ExecutionProfile) where
  reports_sound : collect (policy_reports m p requested) ≡ [] → IsPermitted m p requested
  unfolding policy_reports
  reports_sound h =
      let q = collect-AllNil (policy_reports m p requested) h in
      record {
        profile = ground (arith, profile_eq.beq_iff requested p.profile);
        listed = ground arith;
        not_denied = ground arith;
        supported = ground arith;
        research = λ e. ground arith;
        license = ground arith;
        assets =
            each-All (AssetAllowed p) (judge_asset p) (λ a. unless-eq_nil _ _) m.checkpoint_assets
              (ground arith);
        dependencies =
            each-All (DependencyAllowed p) (judge_dependency p) (λ d. unless-eq_nil _ _)
              m.dependency_locks (ground arith);
        provenance = λ exact third. (ground arith, ground arith);
        locked = λ exact third. has_lock (lookup m.plugin_id p.plugin_requirements) (ground arith);
        requirement = judged_sound m (lookup m.plugin_id p.plugin_requirements) (ground arith);
      }

  third : is_third_party m.distribution ≡ true → IsThirdParty m
  third h = ground arith

  provenance_test :
      IsPermitted m p requested
      → not (
          p.require_exact_third_party_provenance
          && is_third_party m.distribution
          && (is_none m.upstream_repository || is_none m.upstream_commit))
        ≡ true
  provenance_test h = guarded _ _ _ λ exact t.
      let q = h.provenance exact (third t) in
      rw (known m.upstream_repository q.0) (known m.upstream_commit q.1)

  locked_test :
      IsPermitted m p requested
      → not (
          p.require_profile_lock_for_third_party
          && is_third_party m.distribution
          && lacks_lock (lookup m.plugin_id p.plugin_requirements))
        ≡ true
  locked_test h =
      guarded _ _ _
        λ exact t. lock_test (lookup m.plugin_id p.plugin_requirements) (h.locked exact (third t))

  reports_complete : IsPermitted m p requested → collect (policy_reports m p requested) ≡ []
  unfolding policy_reports
  reports_complete h = AllNil-collect (policy_reports m p requested) (
    unless_nil _ _ ((profile_eq.beq_iff requested p.profile).1 h.profile),
    (
      unless_nil _ _ h.listed,
      (
        unless_nil _ _ (ground (arith, h.not_denied)),
        (
          unless_nil _ _ h.supported,
          (
            unless_nil _ _ (ground (arith, h.research)),
            (
              unless_nil _ _ h.license,
              (
                All-each (AssetAllowed p) (judge_asset p) (λ a. unless_nil _ _) m.checkpoint_assets
                    h.assets,
                (
                  All-each (DependencyAllowed p) (judge_dependency p) (λ d. unless_nil _ _)
                      m.dependency_locks h.dependencies,
                  (
                    unless_nil _ _ (provenance_test h),
                    (
                      unless_nil _ _ (locked_test h),
                      (
                        judged_complete m (lookup m.plugin_id p.plugin_requirements) h.requirement,
                        tt,
                      ),
                    ),
                  ),
                ),
              ),
            ),
          ),
        ),
      ),
    ),
  )

  -- The gate allows a plugin exactly when the profile permits it.
  pub evaluate_iff :
      ((evaluate_plugin_policy m p requested).allowed ≡ true) ↔ IsPermitted m p requested
  unfolding evaluate_plugin_policy
  evaluate_iff = (
    λ h. reports_sound ((empty_iff (collect (policy_reports m p requested))).0 h),
    λ h. (empty_iff (collect (policy_reports m p requested))).1 (reports_complete h),
  )
