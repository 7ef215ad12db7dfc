-- ===== src/Licensing/Policy.antt =====
-- `PluginRequirement` and `ProfilePolicy` of packages/licensing/policy.py, with their validators.
-- A frozenset is the list of its elements, a dict the list of its items in insertion order.
use gaussian_os.Prelude.{
  ℕ, String, Bool, true, false, not, ◌&&◌, ◌||◌, Option, none, some, List, [], ◌∷◌, map, ◌==◌,
  string_eq, ℕ_eq, is_empty, all, any, contains, collect, each, unless, codes, if◌then◌else◌,
}
use gaussian_os.Contracts.Patterns.{is_sha256, is_commit, moving_version_names}
use gaussian_os.Contracts.Kinds.{ExecutionProfile}

pub record PluginRequirement : Type 0 where
  pub allowed_versions : List String
  pub allowed_upstream_commits : List String
  pub required_code_license : Option String
  pub required_checkpoint_licenses : List (String × String)
  pub required_checkpoint_sha256 : List (String × String)
  pub required_dependency_commits : List (String × String)

-- One constructor for each `raise ValueError` of the validators.
pub data PolicyFault : Type 0 where
  version_not_exact commit_not_exact checkpoint_hash_not_exact : PolicyFault
  dependency_commit_not_exact set_not_explicit deny_not_explicit : PolicyFault
  allowed_and_denied unknown_requirement research_in_production : PolicyFault

abbrev pub range_characters : List ℕ
range_characters = codes "*<=>^~,"

-- The values of a dict.
abbrev pub values : List (String × String) → List String
values items = map (λ (item : String × String). item.1) items

abbrev pub keys {ℓ} : {V : Type ℓ} → List (String × V) → List String
keys items = map (λ item. item.0) items

-- `str.casefold` of the standard library, on every text
module _ (casefold : String → String) where
  -- `versions_are_explicit`, for one version
  unfoldable pub is_explicit_version : String → Bool
  is_explicit_version item = not (
      item == ""
      || contains (casefold item) moving_version_names
      || any (λ c. contains c range_characters) (codes item))

  -- The four field validators of `PluginRequirement`.
  unfoldable pub requirement_faults : PluginRequirement → List PolicyFault
  unfolding is_explicit_version
  requirement_faults r = collect (
      unless (all is_explicit_version r.allowed_versions) PolicyFault.version_not_exact
      ∷ unless (all is_commit r.allowed_upstream_commits) PolicyFault.commit_not_exact
      ∷ unless (all is_sha256 (values r.required_checkpoint_sha256))
          PolicyFault.checkpoint_hash_not_exact
      ∷ unless (all is_commit (values r.required_dependency_commits))
          PolicyFault.dependency_commit_not_exact
      ∷ [])

pub record ProfilePolicy : Type 0 where
  pub profile : ExecutionProfile
  pub allow_plugins : List String
  pub deny_plugins : List String
  pub allow_research_only : Bool
  pub allowed_code_licenses : List String
  pub allowed_checkpoint_licenses : List String
  pub require_exact_third_party_provenance : Bool
  pub require_profile_lock_for_third_party : Bool
  pub plugin_requirements : List (String × PluginRequirement)

-- No element is empty or the wildcard.
abbrev pub is_explicit : List String → Bool
is_explicit value = not (any (λ item. item == "" || item == "*") value)

-- `required_sets_cannot_contain_wildcards`
abbrev pub check_required_set : List String → List PolicyFault
check_required_set value =
    unless (not (is_empty value) && is_explicit value) PolicyFault.set_not_explicit

abbrev pub is_production : ExecutionProfile → Bool
is_production ExecutionProfile.production = true
is_production ExecutionProfile.research = false

-- `policy_is_consistent`
unfoldable pub policy_rule : ProfilePolicy → Option PolicyFault
policy_rule p =
    if any (λ id. contains id p.deny_plugins) p.allow_plugins
    then some PolicyFault.allowed_and_denied
    else if any (λ id. not (contains id p.allow_plugins)) (keys p.plugin_requirements)
    then some PolicyFault.unknown_requirement
    else if is_production p.profile && p.allow_research_only
    then some PolicyFault.research_in_production
    else none

abbrev pub then_rule : List PolicyFault → Option PolicyFault → List PolicyFault
then_rule [] none = []
then_rule [] (some f) = f ∷ []
then_rule (f ∷ fs) rule = f ∷ fs

unfoldable pub policy_fields : (String → String) → ProfilePolicy → List (List PolicyFault)
unfolding requirement_faults
policy_fields casefold p =
    check_required_set p.allow_plugins
    ∷ unless (is_explicit p.deny_plugins) PolicyFault.deny_not_explicit
    ∷ check_required_set p.allowed_code_licenses
    ∷ check_required_set p.allowed_checkpoint_licenses
    ∷ each (λ (item : String × PluginRequirement). requirement_faults casefold item.1)
        p.plugin_requirements
    ∷ []

-- What `ProfilePolicy.model_validate_json` finds wrong; a policy is loaded if the list is empty.
unfoldable pub policy_faults : (String → String) → ProfilePolicy → List PolicyFault
unfolding policy_fields policy_rule
policy_faults casefold p = then_rule (collect (policy_fields casefold p)) (policy_rule p)
